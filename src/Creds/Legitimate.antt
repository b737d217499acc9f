-- ===== src/Creds/Legitimate.antt =====
-- What gp_cred_allowed lets pass.
use gssproxy.Prelude.{
  ℕ, ◌≡◌, ◌∙◌, ap, sym, refl, List, Bool, true, false, ◌||◌, Bool-cases, inl, inr, ◌⊎◌, Option,
  none, some,
}
use gssproxy.Creds.Service.{Service}
use gssproxy.Creds.Allowed.{
  get_impersonator_name, discarded, same_name, check_impersonator_name, check_impersonator,
  cred_allowed,
}
use gssproxy.Creds.Impersonator.{same_name-eq}
use gssproxy.Creds.Origin.{IsOrigin, IsOrigin-IsString, get_impersonator_name-IsOrigin}
use gssproxy.Gss.Status.{Outcome, done, stop, fault, unauthorized, no_minor}
use gssproxy.Gss.Api.{Gss}
use gssproxy.Gss.Inversion.{>>=-eq-done, if-eq-done}

discarded-eq-done :
    {W Name Cred A : Type 0} (gss : Gss W Name Cred) (malloc : ℕ → Bool) (o : W × Outcome A) {w : W}
    {a : A}
    → discarded gss malloc o ≡ (w, done a)
    → o ≡ (w, done a)
unfolding discarded
discarded-eq-done gss malloc (w, done a) h = h
discarded-eq-done gss malloc (w, stop maj min) h = cc
discarded-eq-done gss malloc (w, fault) h = cc

-- The service's configuration allows any credential.
abbrev pub IsConfigured : Service → Type 0
IsConfigured svc =
    (svc.trusted ≡ true) ⊎ ((svc.impersonate ≡ true) ⊎ (svc.allow_const_deleg ≡ true))

or_true : (a b c : Bool) → (a || b || c) ≡ true → (a ≡ true) ⊎ ((b ≡ true) ⊎ (c ≡ true))
or_true true b c h = inl refl
or_true false true c h = inr (inl refl)
or_true false false c h = inr (inr h)

module _ {W Name Cred : Type 0} (gss : Gss W Name Cred) (malloc : ℕ → Bool) where
  -- Why a credential passes.
  pub data IsAllowed (svc : Service) (memcache : Option (List ℕ)) (cred : Cred) (target : Name)
      (w : W) : Type 0 where
    by_configuration : IsConfigured svc → IsAllowed svc memcache cred target w
    -- No impersonator is known of it.
    own :
        (w₁ : W)
        → IsOrigin gss malloc memcache cred w none w₁
        → IsAllowed svc memcache cred target w
    -- The target is the impersonator.
    to_impersonator :
        (impersonator : List ℕ) (canon : Name) (w₁ w₂ w₃ : W)
        → IsOrigin gss malloc memcache cred w (some impersonator) w₁
        → gss.canonicalize_name target w₁ ≡ (w₂, done canon)
        → gss.display_name canon w₂ ≡ (w₃, done impersonator)
        → IsAllowed svc memcache cred target w

  check_impersonator-IsAllowed :
      (svc : Service) (memcache : Option (List ℕ)) (cred : Cred) (target : Name)
      (o : Option (List ℕ)) {w w₁ w' : W}
      → IsOrigin gss malloc memcache cred w o w₁
      → check_impersonator gss malloc target o w₁ ≡ (w', done tt)
      → IsAllowed svc memcache cred target w
  unfolding check_impersonator check_impersonator_name
  check_impersonator-IsAllowed svc memcache cred target none {w} {w₁} found h = own w₁ found
  check_impersonator-IsAllowed svc memcache cred target (some impersonator) {w} {w₁} found h =
      let (w₂, canon, canonical, h₁) =
        >>=-eq-done (λ w. discarded gss malloc (gss.canonicalize_name target w)) _ h in
      let (w₃, buf, displayed, h₂) =
        >>=-eq-done (λ w. discarded gss malloc (gss.display_name canon w)) _ h₁ in
      let (same, h₃) =
        if-eq-done (same_name gss malloc impersonator buf) _ unauthorized no_minor h₂ in
      let e =
        same_name-eq gss malloc impersonator buf (IsOrigin-IsString gss malloc memcache cred found)
          same in
      to_impersonator impersonator canon w₁ w₂ w₃ found (discarded-eq-done gss malloc _ canonical)
        (discarded-eq-done gss malloc _ displayed ∙ ap (λ b. (w₃, done b)) (sym e))

  -- A credential that gp_cred_allowed lets pass is one that the configuration of the service allows; or
  -- one of which no impersonator is known: the GSSAPI reports none, or it cannot tell, and the cache in
  -- which the credential is stored has no entry, or a call before the entry is read says
  -- KRB5_CC_NOTFOUND; or the canonical name of the target is, as displayed, the impersonator that the
  -- GSSAPI reports, or that the entry names.
  pub cred_allowed-IsAllowed :
      (svc : Service) (memcache : Option (List ℕ)) (cred : Cred) (target : Name) (w w' : W)
      → cred_allowed gss malloc svc memcache (some cred) target w ≡ (w', done tt)
      → IsAllowed svc memcache cred target w
  unfolding cred_allowed
  cred_allowed-IsAllowed svc memcache cred target w w' h =
      elim (Bool-cases (svc.trusted || svc.impersonate || svc.allow_const_deleg)) [
        | inl configured ↦
            by_configuration (or_true svc.trusted svc.impersonate svc.allow_const_deleg configured)
        | inr unset ↦
            let h' = rw unset at h in
            let (w₁, o, found, h₁) =
              >>=-eq-done (get_impersonator_name gss malloc memcache cred) _ h' in
            check_impersonator-IsAllowed svc memcache cred target o
              (get_impersonator_name-IsOrigin gss malloc memcache cred w w₁ o found) h₁
      ]
