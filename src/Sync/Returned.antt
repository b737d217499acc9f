-- ===== src/Sync/Returned.antt =====
-- The credential that a reply carries back is one that the client can use: gp_export_sync_creds and
-- return_new_cred_handle.
use gssproxy.Prelude.{
  ℕ, ◌≡◌, refl, ap, sym, ◌∙◌, List, [], Bool, true, Option, none, some, append-nil, arith,
}
use gssproxy.Creds.Options.{add_option}
use gssproxy.Creds.Lookup.{Lacks, IsCString, options_find-add_option}
use gssproxy.Export.Padding.{Krb5}
use gssproxy.Export.Sealed.{IsKrb5}
use gssproxy.Export.Handle.{CredCalls, export_gssx_cred, import_gssx_cred}
use gssproxy.Export.Stateless.{
  IsSafe, IsImport, or_failure-eq-done, import_gssx_cred-export_gssx_cred,
}
use gssproxy.Gss.Status.{done, goto_done}
use gssproxy.Gss.Inversion.{>>=-eq-done, return-eq-done}
use gssproxy.Handlers.Acquire.{cred_size}
use gssproxy.Wire.Filter.{XdrLib, IsXdrLib}
use gssproxy.Wire.Types.{GssxOption, GssxCred}
use gssproxy.Wire.Filters.Basics.{xdr_gssx_cred}
use gssproxy.Wire.Inverse.Basics.{xdr_gssx_cred-IsFilter}
use gssproxy.Sync.Payload.{
  max_cred_size, cred_sync_payload, encoded, export_sync_creds, or_kept, return_new_cred_handle,
  new_handle, sync_handle,
}

cred_sync_payload-IsCString : IsCString cred_sync_payload
cred_sync_payload-IsCString = ground arith

module _ {lib : XdrLib} (ok_lib : IsXdrLib lib) where
  encoded-eq-done :
      {W : Type 0} (o : Option (List ℕ)) (w w' : W) {value : List ℕ}
      → encoded lib o w ≡ (w', done value)
      → o ≡ some value
  unfolding encoded goto_done
  encoded-eq-done none w w' h = cc
  encoded-eq-done (some value) w w' h = ap some (return-eq-done _ h).1

  -- What the filter wrote for a credential alone is read as the credential.
  decode-encode :
      (creds : GssxCred) (value : List ℕ)
      → (xdr_gssx_cred lib).encode max_cred_size creds [] ≡ some value
      → (xdr_gssx_cred lib).decode value ≡ some (creds, [])
  decode-encode creds value h =
      let (chunk, e, reads) =
        (xdr_gssx_cred-IsFilter ok_lib).inverse max_cred_size creds [] value h in
      ap (xdr_gssx_cred lib).decode (e ∙ sym (append-nil chunk)) ∙ reads []

  -- The handle that the client takes from the options is the one that was exported.
  sync_handle-export_sync_creds :
      {W Name Cred : Type 0} (calls : CredCalls W Name Cred) (malloc malloc' : ℕ → Bool)
      (realloc_ok : Bool) (handle : Option Krb5) (cred : Cred) (options out : List GssxOption)
      (w w₁ : W) (old : Option GssxCred)
      → export_sync_creds lib calls malloc realloc_ok handle cred options w ≡ (w₁, done out)
      → Lacks cred_sync_payload options
      → malloc' cred_size ≡ true
      → (wa : W) × (creds : GssxCred) × (export_gssx_cred calls malloc handle cred w
          ≡ (wa, done creds))
        × (sync_handle lib malloc' out old ≡ some creds)
  unfolding export_sync_creds sync_handle new_handle return_new_cred_handle or_kept
  sync_handle-export_sync_creds calls malloc malloc' realloc_ok handle cred options out w w₁ old h
        lacks room =
      let (wa, creds, a, ha) = >>=-eq-done (export_gssx_cred calls malloc handle cred) _ h in
      let (wb, value, b, hb) =
        >>=-eq-done (encoded lib ((xdr_gssx_cred lib).encode max_cred_size creds [])) _ ha in
      let added =
        or_failure-eq-done (add_option malloc realloc_ok options cred_sync_payload value) wb w₁
          hb in
      let found =
        options_find-add_option malloc realloc_ok options out cred_sync_payload value
          cred_sync_payload-IsCString lacks added in
      let written = encoded-eq-done ((xdr_gssx_cred lib).encode max_cred_size creds []) wa wb b in
      (wa, creds, a, rw (found, room, decode-encode creds value written) refl)

  module _ {W Name Cred : Type 0} (calls : CredCalls W Name Cred) {k : Krb5} {overhead : ℕ}
      {fill : ℕ → ℕ} {char_signed : Bool} (is_krb5 : IsKrb5 k overhead fill) where
    -- When gp_export_sync_creds succeeds, on options that have no such option, the client takes a
    -- handle from them, whatever handle it had; and from that handle, at any later time,
    -- gp_import_gssx_cred hands to gss_import_cred the very token that gss_export_cred gave for the
    -- credential. The result is that call's: its credential, once gp_set_cred_options has set the
    -- options of the handle on it, or its error. The tokens that gss_export_cred gives for the
    -- credential are IsSafe: of two octets or more, with at most 14 missing of a block when eight
    -- are added, and with no end that looks like a padding when they fill their blocks, and
    -- allocations of the client and of the import succeed. This rests on the laws of the XDR
    -- library and the cipher.
    pub synced_cred_imports :
        (malloc malloc' : ℕ → Bool) (realloc_ok : Bool) (cred : Cred)
        (options out : List GssxOption) (w w₁ w₂ : W) (old : Option GssxCred)
        → export_sync_creds lib calls malloc realloc_ok (some k) cred options w ≡ (w₁, done out)
        → Lacks cred_sync_payload options
        → ((wa wb : W) (token : List ℕ)
            → calls.export_cred cred wa ≡ (wb, done token)
            → IsSafe fill char_signed token)
        → ((n : ℕ) → malloc' n ≡ true)
        → (c : GssxCred) × (wa : W) × (wb : W) × (token : List ℕ) × (sync_handle lib malloc' out old
            ≡ some c)
          × (calls.export_cred cred wa ≡ (wb, done token))
          × IsImport calls malloc' token c w₂
              (import_gssx_cred calls malloc' (some k) char_signed c w₂)
    synced_cred_imports malloc malloc' realloc_ok cred options out w w₁ w₂ old h lacks safe room =
        let (wc, creds, exported, taken) =
          sync_handle-export_sync_creds calls malloc malloc' realloc_ok (some k) cred options out w
            w₁ old h lacks (room cred_size) in
        let (wa, wb, token, given, import) =
          import_gssx_cred-export_gssx_cred calls is_krb5 malloc malloc' cred w wc w₂ creds creds
            exported refl safe room in
        (creds, wa, wb, token, taken, given, import)
