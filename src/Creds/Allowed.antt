-- ===== src/Creds/Allowed.antt =====
-- gp_cred_allowed of src/gp_creds.c: whether a credential may be used for a target, as one that was got
-- by impersonation may not.
use gssproxy.Prelude.{
  ℕ, ◌+◌, List, [], ◌∷◌, Bool, ◌&&◌, ◌||◌, length, ◌==◌, if◌then◌else◌, Option, none, some, enomem,
  ◌⊎◌, inl, inr,
}
use gssproxy.Creds.Service.{Service}
use gssproxy.Creds.Options.{same_chars}
use gssproxy.Gss.Status.{
  Minor, Outcome, done, stop, fault, Run, ◌>>=◌, return, goto_done, cred_unavail, failure,
  unavailable, unauthorized, no_minor, cc_notfound, errno,
}
use gssproxy.Gss.Api.{Gss, Krb5}

-- strndup, which stops at a NUL
unfoldable pub until_nul : List ℕ → List ℕ
until_nul [] = []
until_nul (c ∷ cs) = let rest = until_nul cs in if c == 0 then [] else c ∷ rest

unfoldable pub strndup : {W : Type 0} → (ℕ → Bool) → List ℕ → Run W (Option (List ℕ))
unfolding until_nul
strndup malloc buf =
    if malloc (length (until_nul buf) + 1)
    then return (some (until_nul buf))
    else goto_done failure (errno enomem)

-- An error of libkrb5 is GSS_S_FAILURE.
unfoldable pub krb5_result : {W A : Type 0} → W × (Minor ⊎ A) → W × Outcome A
krb5_result (w, inl err) = (w, stop failure err)
krb5_result (w, inr a) = (w, done a)

unfoldable pub krb5 : {W A : Type 0} → Krb5 W A → Run W A
unfolding krb5_result
krb5 call w = krb5_result (call w)

module _ {W Name Cred : Type 0} (gss : Gss W Name Cred) (malloc : ℕ → Bool) where
  -- What follows asprintf, which gives the name of a cache, or fails.
  unfoldable pub fallback_in : Cred → Option (List ℕ) → Run W (Option (List ℕ))
  unfolding krb5 strndup
  fallback_in cred none = goto_done failure (errno enomem)
  fallback_in cred (some memcache) = do
    _ ← gss.store_cred_into cred memcache
    _ ← krb5 (gss.cc_resolve memcache)
    config ← krb5 (gss.cc_get_config memcache)
    strndup malloc config

  unfoldable pub get_impersonator_fallback : Option (List ℕ) → Cred → Run W (Option (List ℕ))
  unfolding krb5 fallback_in
  get_impersonator_fallback memcache cred =
      krb5 gss.krb5_init_context >>= λ u. fallback_in cred memcache

  -- A cache without the entry is one of a credential that was not got by impersonation.
  unfoldable pub after_fallback : W × Outcome (Option (List ℕ)) → W × Outcome (Option (List ℕ))
  after_fallback (w, stop failure cc_notfound) = (w, done none)
  after_fallback (w, o) = (w, o)

  unfoldable pub after_inquire :
      Option (List ℕ) → Cred → W × Outcome (List (List ℕ)) → W × Outcome (Option (List ℕ))
  unfolding get_impersonator_fallback after_fallback strndup
  after_inquire memcache cred (w, done []) = (w, done none)
  after_inquire memcache cred (w, done (b ∷ bs)) = strndup malloc b w
  after_inquire memcache cred (w, stop unavailable min) =
      after_fallback (get_impersonator_fallback memcache cred w)
  after_inquire memcache cred (w, stop maj min) = (w, stop maj min)
  after_inquire memcache cred (w, fault) = (w, fault)

  unfoldable pub get_impersonator_name : Option (List ℕ) → Cred → Run W (Option (List ℕ))
  unfolding after_inquire
  get_impersonator_name memcache cred w = after_inquire memcache cred (gss.cred_impersonator cred w)

  -- The errors of gss_canonicalize_name and gss_display_name lose their minor status.
  unfoldable pub discarded : {A : Type 0} → W × Outcome A → W × Outcome A
  discarded (w, done a) = (w, done a)
  discarded (w, stop maj min) = (w, stop maj no_minor)
  discarded (w, fault) = (w, fault)

  unfoldable pub same_name : List ℕ → List ℕ → Bool
  unfolding same_chars
  same_name impersonator buf =
      same_chars (length buf) impersonator buf && (length impersonator == length buf)

  unfoldable pub check_impersonator_name : Name → List ℕ → Run W (Unit {0})
  unfolding same_name discarded
  check_impersonator_name target impersonator = do
    canon ← (λ w. discarded (gss.canonicalize_name target w))
    buf ← (λ w. discarded (gss.display_name canon w))
    if same_name impersonator buf then return tt else goto_done unauthorized no_minor

  unfoldable pub check_impersonator : Name → Option (List ℕ) → Run W (Unit {0})
  unfolding check_impersonator_name
  check_impersonator target none = return tt
  check_impersonator target (some impersonator) = check_impersonator_name target impersonator

  -- `memcache` is what asprintf gives for the name of a cache in memory. GSS_C_NO_CREDENTIAL leaves
  -- *min as it was.
  unfoldable pub cred_allowed : Service → Option (List ℕ) → Option Cred → Name → Run W (Unit {0})
  unfolding get_impersonator_name check_impersonator
  cred_allowed svc memcache none target = goto_done cred_unavail no_minor
  cred_allowed svc memcache (some cred) target =
      if svc.trusted || svc.impersonate || svc.allow_const_deleg
      then return tt
      else get_impersonator_name memcache cred >>= check_impersonator target
