-- ===== src/Export/Stateless.antt =====
-- A credential that the daemon gave to a client comes back from it: gp_export_gssx_cred and
-- gp_import_gssx_cred of src/gp_export.c.
use gssproxy.Prelude.{
  ℕ, ◌+◌, ◌≤◌, ◌≡◌, refl, ap, sym, ◌∙◌, List, Bool, true, length, Result, ok, err, Option, some,
}
use gssproxy.Export.Padding.{Krb5, encrypt_buffer, decrypt_buffer, depad, last_byte}
use gssproxy.Export.Sealed.{IsKrb5, decrypt_buffer-encrypt_buffer}
use gssproxy.Export.Names.{name_to_gssx, or_failure}
use gssproxy.Export.Handle.{
  CredCalls, alloc_elements, seal_cred, export_gssx_cred, set_cred_options, after_import,
  import_opened, import_gssx_cred,
}
use gssproxy.Gss.Status.{Outcome, done, stop, fault, return, goto_done, Major, Minor}
use gssproxy.Gss.Inversion.{>>=-eq-done, return-eq-done}
use gssproxy.Wire.Types.{GssxCred}

-- A token that comes back from the padding: it has two octets; with eight more, at most 14 are missing
-- of a block of the cipher; and when it fills its block itself, its end does not look like a padding.
pub record IsSafe (fill : ℕ → ℕ) (char_signed : Bool) (token : List ℕ) : Type 0 where
  pub long : 2 ≤ length token
  pub near : fill (length token + 8) ≤ 14
  pub plain : fill (length token) ≡ 0 → depad char_signed token (last_byte token) ≡ some token

pub or_failure-eq-done :
    {W A : Type 0} (r : Result A) (w w' : W) {a : A} → or_failure r w ≡ (w', done a) → r ≡ ok a
unfolding or_failure return goto_done
or_failure-eq-done (ok b) w w' h = ap ok (cc)
or_failure-eq-done (err e) w w' h = cc

module _ {W Name Cred : Type 0} (calls : CredCalls W Name Cred) (malloc : ℕ → Bool) (token : List ℕ)
    (c : GssxCred) (w : W) where
  -- The results that stand for what gss_import_cred makes of the token: its credential, once the
  -- options of the handle are set on it, or its error.
  pub data IsImport : W × Outcome (Option Cred) → Type 0 where
    imported :
        (cred : Cred) (w' : W)
        → calls.import_cred token w ≡ (w', done cred)
        → IsImport (set_cred_options calls malloc c cred w', done (some cred))
    refused :
        (maj : Major) (min : Minor) (w' : W)
        → calls.import_cred token w ≡ (w', stop maj min)
        → IsImport (w', stop maj min)
    broken : (w' : W) → calls.import_cred token w ≡ (w', fault) → IsImport (w', fault)

  after_import-IsImport :
      (r : W × Outcome Cred)
      → calls.import_cred token w ≡ r
      → IsImport (after_import calls malloc c r)
  unfolding after_import
  after_import-IsImport (w', done cred) e = imported cred w' e
  after_import-IsImport (w', stop maj min) e = refused maj min w' e
  after_import-IsImport (w', fault) e = broken w' e

  import_gssx_cred-IsImport :
      (k : Krb5) (char_signed : Bool)
      → decrypt_buffer k char_signed c.cred_handle_reference ≡ some (ok token)
      → malloc (length c.cred_handle_reference) ≡ true
      → IsImport (import_gssx_cred calls malloc (some k) char_signed c w)
  unfolding import_gssx_cred import_opened
  import_gssx_cred-IsImport k char_signed opened room =
      rw (room, opened) (after_import-IsImport (calls.import_cred token w) refl)

module _ {W Name Cred : Type 0} (calls : CredCalls W Name Cred) {k : Krb5} {overhead : ℕ}
    {fill : ℕ → ℕ} {char_signed : Bool} (lib : IsKrb5 k overhead fill) where
  -- When gp_export_gssx_cred succeeds, gss_export_cred gave a token, and gp_import_gssx_cred hands
  -- that very token to gss_import_cred, at any later time, whatever the client has changed in the
  -- handle but the sealed reference. The result is that call's: its credential, once
  -- gp_set_cred_options has set the options of the handle on it, or its error. The tokens that
  -- gss_export_cred gives for the credential are IsSafe: of two octets or more, with at most 14
  -- missing of a block when eight are added, and with no end that looks like a padding when they
  -- fill their blocks, and allocations of the import succeed. This rests on the laws of the cipher.
  pub import_gssx_cred-export_gssx_cred :
      (malloc malloc' : ℕ → Bool) (cred : Cred) (w w₁ w₂ : W) (out c : GssxCred)
      → export_gssx_cred calls malloc (some k) cred w ≡ (w₁, done out)
      → c.cred_handle_reference ≡ out.cred_handle_reference
      → ((wa wb : W) (token : List ℕ)
          → calls.export_cred cred wa ≡ (wb, done token)
          → IsSafe fill char_signed token)
      → ((n : ℕ) → malloc' n ≡ true)
      → (wa : W) × (wb : W) × (token : List ℕ) × (calls.export_cred cred wa ≡ (wb, done token))
        × IsImport calls malloc' token c w₂
            (import_gssx_cred calls malloc' (some k) char_signed c w₂)
  unfolding export_gssx_cred seal_cred
  import_gssx_cred-export_gssx_cred malloc malloc' cred w w₁ w₂ out c h kept safe room =
      let (wa, inq, a, ha) = >>=-eq-done (calls.inquire cred) _ h in
      let (wb, desired, b, hb) = >>=-eq-done (name_to_gssx calls.names malloc inq.name) _ ha in
      let (wc, elements, e, hc) =
        >>=-eq-done (alloc_elements calls malloc cred inq.mechanisms) _ hb in
      let (wd, reference, sealed, hd) = >>=-eq-done (seal_cred calls malloc (some k) cred) _ hc in
      let (we, token, exported, he) = >>=-eq-done (calls.export_cred cred) _ sealed in
      let encrypted = or_failure-eq-done (encrypt_buffer k malloc token) we wd he in
      let same : reference ≡ c.cred_handle_reference =
        ap (λ o. o.cred_handle_reference) (return-eq-done _ hd).1 ∙ sym kept in
      let fits = safe wc we token exported in
      let opened =
        decrypt_buffer-encrypt_buffer lib malloc char_signed token reference fits.long fits.near
          fits.plain encrypted in
      (
        wc,
        we,
        token,
        exported,
        import_gssx_cred-IsImport calls malloc' token c w₂ k char_signed
            (ap (decrypt_buffer k char_signed) (sym same) ∙ opened)
            (room (length c.cred_handle_reference)),
      )
