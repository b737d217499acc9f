-- ===== src/Creds/Usable.antt =====
-- What gp_check_cred lets pass.
use gssproxy.Prelude.{
  ℕ, ◌≤◌, ◌<◌, ◌≡◌, refl, ap, subst, ◌∙◌, List, [], ◌++◌, ◌∷◌, Bool, true, false, ◌==◌, Bool-cases,
  inl, inr, ◌⊎◌, Option, none, some, arith, ==→eq,
}
use gssproxy.Creds.Service.{Service, CredUsage, both, initiate, accept}
use gssproxy.Creds.Check.{
  mech_krb5, has_krb5, serves, expired, check_lifetime, check_usage, check_name, check_inquired,
  check_cred,
}
use gssproxy.Gss.Status.{done, return, cred_unavail, no_cred, credentials_expired, no_minor}
use gssproxy.Gss.Api.{Gss, Inquired}
use gssproxy.Gss.Names.{equal, gssx_to_name}
use gssproxy.Gss.Inversion.{>>=-eq-done, if-eq-done, unless-eq-done, return-eq-done}
use gssproxy.Wire.Types.{GssxName}

pub equal→≡ : (xs ys : List ℕ) → equal xs ys ≡ true → xs ≡ ys
unfolding equal
equal→≡ [] [] h = refl
equal→≡ [] (d ∷ ds) h = cc
equal→≡ (c ∷ cs) [] h = cc
equal→≡ (c ∷ cs) (d ∷ ds) h = elim (Bool-cases (c == d)) [
  | inl same ↦ let e = ==→eq c d same in let e' = equal→≡ cs ds (rw same at h) in cc
  | inr other ↦ let h' = rw other at h in cc
]

-- The list has the element.
abbrev pub Has : List ℕ → List (List ℕ) → Type 0
Has m ms = (before after : List (List ℕ)) × (ms ≡ before ++ m ∷ after)

has_krb5-Has : (ms : List (List ℕ)) → has_krb5 ms ≡ true → Has mech_krb5 ms
unfolding has_krb5
has_krb5-Has [] h = cc
has_krb5-Has (m ∷ ms) h = elim (Bool-cases (equal m mech_krb5)) [
  | inl same ↦ ([], ms, ap (λ k. k ∷ ms) (equal→≡ m mech_krb5 same))
  | inr other ↦
      let (before, after, e) = has_krb5-Has ms (rw other at h) in
      (m ∷ before, after, ap (λ l. m ∷ l) e)
]

-- A credential for `both` serves any usage, and another one its own.
serves→≡ : (asked usage : CredUsage) → serves asked usage ≡ true → (usage ≡ both) ⊎ (usage ≡ asked)
unfolding serves
serves→≡ asked both h = inl refl
serves→≡ both initiate h = cc
serves→≡ both accept h = cc
serves→≡ initiate initiate h = inr refl
serves→≡ initiate accept h = cc
serves→≡ accept initiate h = cc
serves→≡ accept accept h = inr refl

not_expired :
    (svc : Service) (lifetime : ℕ)
    → expired svc lifetime ≡ false
    → (0 < lifetime) × (svc.min_lifetime ≤ lifetime)
unfolding expired
not_expired svc lifetime h = (ground arith, ground arith)

module _ {W Name Cred : Type 0} (gss : Gss W Name Cred) (malloc : ℕ → Bool) (svc : Service) where
  -- The credential has the name, after the calls that compare the two.
  pub data IsNamed (have : Name) : Option GssxName → W → W → Type 0 where
    unnamed : (w : W) → IsNamed have none w w
    named :
        (desired : GssxName) (req : Name) (w w₁ w₂ : W)
        → gssx_to_name gss malloc desired w ≡ (w₁, done req)
        → gss.compare_name req have w₁ ≡ (w₂, done true)
        → IsNamed have (some desired) w w₂

  -- What is known of a credential that passes.
  pub record IsUsable (cred : Cred) (desired : Option GssxName) (asked : CredUsage) (w w' : W)
      : Type 0 where
    pub inquired : Inquired Name
    pub asked_at : W
    pub inquires : gss.inquire_cred (some cred) w ≡ (asked_at, done inquired)
    pub is_krb5 : Has mech_krb5 inquired.mechanisms
    pub is_named : IsNamed inquired.name desired asked_at w'
    pub serves_usage : (inquired.usage ≡ both) ⊎ (inquired.usage ≡ asked)
    pub lives : 0 < inquired.lifetime
    pub lives_enough : svc.min_lifetime ≤ inquired.lifetime

  check_name→IsNamed :
      (desired : Option GssxName) (have : Name) {w w' : W}
      → check_name gss malloc svc desired have w ≡ (w', done tt)
      → IsNamed have desired w w'
  unfolding check_name
  check_name→IsNamed none have {w} {w'} h =
      subst (IsNamed have none w) (return-eq-done tt h).0 (unnamed w)
  check_name→IsNamed (some desired) have {w} h =
      let (w₁, req, imports, h₁) = >>=-eq-done (gssx_to_name gss malloc desired) _ h in
      let (w₂, same, compares, h₂) = >>=-eq-done (gss.compare_name req have) _ h₁ in
      let (e, h₃) = if-eq-done same (return tt) cred_unavail no_minor h₂ in
      subst (IsNamed have (some desired) w) (return-eq-done tt h₃).0
        (named desired req w w₁ w₂ imports (compares ∙ ap (λ b. (w₂, done b)) e))

  -- A credential that gp_check_cred passes is a krb5 one, has the name that is asked for, serves the
  -- usage, and is valid for at least the time that the service asks for.
  pub check_cred-IsUsable :
      (cred : Cred) (desired : Option GssxName) (asked : CredUsage) (w w' : W)
      → check_cred gss malloc svc cred desired asked w ≡ (w', done tt)
      → IsUsable cred desired asked w w'
  unfolding check_cred check_inquired check_usage check_lifetime
  check_cred-IsUsable cred desired asked w w' h =
      let (w₁, inq, inquires, h₁) = >>=-eq-done (gss.inquire_cred (some cred)) _ h in
      let (krb5, h₂) = if-eq-done (has_krb5 inq.mechanisms) _ cred_unavail no_minor h₁ in
      let (w₂, u, names, h₃) = >>=-eq-done (check_name gss malloc svc desired inq.name) _ h₂ in
      let (usage, h₄) = if-eq-done (serves asked inq.usage) _ no_cred no_minor h₃ in
      let (alive, h₅) =
        unless-eq-done (expired svc inq.lifetime) (return tt) credentials_expired no_minor h₄ in
      let (lives, enough) = not_expired svc inq.lifetime alive in
      record {
        inquired = inq;
        asked_at = w₁;
        inquires = inquires;
        is_krb5 = has_krb5-Has inq.mechanisms krb5;
        is_named =
            subst (IsNamed inq.name desired w₁) (return-eq-done tt h₅).0
              (check_name→IsNamed desired inq.name names);
        serves_usage = serves→≡ asked inq.usage usage;
        lives = lives;
        lives_enough = enough;
      }
