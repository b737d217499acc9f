-- ===== src/Creds/Check.antt =====
-- gp_check_cred of src/gp_creds.c: whether a credential that the client holds will do, so that none is
-- acquired.
use gssproxy.Prelude.{
  ℕ, List, [], ◌∷◌, Bool, true, false, ◌&&◌, ◌||◌, not, ltb, ◌==◌, if◌then◌else◌, Option, none,
  some,
}
use gssproxy.Creds.Service.{Service, CredUsage, both, initiate, accept}
use gssproxy.Gss.Status.{
  Run, ◌>>=◌, return, goto_done, cred_unavail, no_cred, credentials_expired, no_minor,
}
use gssproxy.Gss.Api.{Gss, Inquired}
use gssproxy.Gss.Names.{equal, gssx_to_name}
use gssproxy.Wire.Types.{GssxName}

-- GSS_MECH_KRB5_OID
abbrev pub mech_krb5 : List ℕ
mech_krb5 = 42 ∷ 134 ∷ 72 ∷ 134 ∷ 247 ∷ 18 ∷ 1 ∷ 2 ∷ 2 ∷ []

-- The loop over the mechanisms.
unfoldable pub has_krb5 : List (List ℕ) → Bool
unfolding equal
has_krb5 [] = false
has_krb5 (m ∷ ms) = let rest = has_krb5 ms in if equal m mech_krb5 then true else rest

-- The switch on the usage that is asked for: whether the credential's own serves it.
unfoldable pub serves : CredUsage → CredUsage → Bool
serves accept initiate = false
serves accept _ = true
serves initiate accept = false
serves initiate _ = true
serves both both = true
serves both _ = false

-- The end of the function, of the lifetime.
unfoldable pub expired : Service → ℕ → Bool
expired svc lifetime =
    (lifetime == 0) || (not (svc.min_lifetime == 0) && ltb lifetime svc.min_lifetime)

unfoldable pub check_lifetime : {W : Type 0} → Service → ℕ → Run W (Unit {0})
unfolding expired
check_lifetime svc lifetime =
    if expired svc lifetime then goto_done credentials_expired no_minor else return tt

unfoldable pub check_usage : {W : Type 0} → Service → CredUsage → CredUsage → ℕ → Run W (Unit {0})
unfolding serves check_lifetime
check_usage svc asked usage lifetime =
    if serves asked usage then check_lifetime svc lifetime else goto_done no_cred no_minor

module _ {W Name Cred : Type 0} (gss : Gss W Name Cred) (malloc : ℕ → Bool) (svc : Service) where
  -- The name of the credential, when one is asked for.
  unfoldable pub check_name : Option GssxName → Name → Run W (Unit {0})
  unfolding gssx_to_name
  check_name none have = return tt
  check_name (some desired) have = do
    req ← gssx_to_name gss malloc desired
    same ← gss.compare_name req have
    if same then return tt else goto_done cred_unavail no_minor

  unfoldable pub check_inquired : Option GssxName → CredUsage → Inquired Name → Run W (Unit {0})
  unfolding has_krb5 check_name check_usage
  check_inquired desired asked inq =
      if has_krb5 inq.mechanisms
      then (check_name desired inq.name >>= λ u. check_usage svc asked inq.usage inq.lifetime)
      else goto_done cred_unavail no_minor

  unfoldable pub check_cred : Cred → Option GssxName → CredUsage → Run W (Unit {0})
  unfolding check_inquired
  check_cred cred desired asked = gss.inquire_cred (some cred) >>= check_inquired desired asked
