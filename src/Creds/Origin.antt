-- ===== src/Creds/Origin.antt =====
-- Where gp_cred_allowed of src/gp_creds.c has the name of an impersonator from.
use gssproxy.Prelude.{
  ℕ, ◌+◌, ◌≡◌, refl, sym, List, [], ◌∷◌, Bool, length, ◌⊎◌, inl, inr, Option, none, some, enomem,
  subst, Bool-cases,
}
use gssproxy.Creds.Allowed.{
  until_nul, strndup, krb5, krb5_result, fallback_in, get_impersonator_fallback, after_fallback,
  after_inquire, get_impersonator_name,
}
use gssproxy.Creds.Impersonator.{UpToNul, UpToNul-IsString, until_nul-UpToNul}
use gssproxy.Creds.Pieces.{IsString}
use gssproxy.Gss.Status.{
  Major, failure, unavailable, Minor, cc_notfound, errno, Outcome, done, stop, fault, return,
  goto_done,
}
use gssproxy.Gss.Api.{Gss, Krb5}
use gssproxy.Gss.Inversion.{>>=-eq-done, >>=-eq-stop, if-eq-done, return-eq-done}

krb5_result-eq-done :
    {W A : Type 0} (r : W × (Minor ⊎ A)) {w' : W} {a : A}
    → krb5_result r ≡ (w', done a)
    → r ≡ (w', inr a)
unfolding krb5_result
krb5_result-eq-done (w, inl e) h = cc
krb5_result-eq-done (w, inr a) h = cc

pub krb5-eq-done :
    {W A : Type 0} (call : Krb5 W A) {w w' : W} {a : A}
    → krb5 call w ≡ (w', done a)
    → call w ≡ (w', inr a)
unfolding krb5
krb5-eq-done call {w} h = krb5_result-eq-done (call w) h

krb5_result-eq-stop :
    {W A : Type 0} (r : W × (Minor ⊎ A)) {w' : W} {maj : Major} {min : Minor}
    → krb5_result r ≡ (w', stop maj min)
    → r ≡ (w', inl min)
unfolding krb5_result
krb5_result-eq-stop (w, inl e) h = cc
krb5_result-eq-stop (w, inr a) h = cc

krb5-eq-stop :
    {W A : Type 0} (call : Krb5 W A) {w w' : W} {maj : Major} {min : Minor}
    → krb5 call w ≡ (w', stop maj min)
    → call w ≡ (w', inl min)
unfolding krb5
krb5-eq-stop call {w} h = krb5_result-eq-stop (call w) h

-- A copy that is made is of the string in the buffer.
strndup-eq-done :
    {W : Type 0} (malloc : ℕ → Bool) (buf : List ℕ) {w w' : W} {o : Option (List ℕ)}
    → strndup malloc buf w ≡ (w', done o)
    → (s : List ℕ) × (o ≡ some s) × UpToNul buf s × (w ≡ w')
unfolding strndup
strndup-eq-done malloc buf h =
    let (room, h₁) =
      if-eq-done (malloc (length (until_nul buf) + 1)) (return (some (until_nul buf))) failure
        (errno enomem) h in
    let (same, e) = return-eq-done (some (until_nul buf)) h₁ in
    (until_nul buf, sym e, until_nul-UpToNul buf, same)

strndup-found :
    {W : Type 0} (malloc : ℕ → Bool) (buf : List ℕ) (w w' : W)
    → strndup malloc buf w ≡ (w', stop failure cc_notfound)
    → ⊥
unfolding strndup return goto_done
strndup-found malloc buf w w' h = elim (Bool-cases (malloc (length (until_nul buf) + 1))) [
  | inl room ↦ let h' = rw room at h in cc
  | inr full ↦ let h' = rw full at h in cc
]

module _ {W Name Cred : Type 0} (gss : Gss W Name Cred) (malloc : ℕ → Bool)
    (memcache : Option (List ℕ)) (cred : Cred) where
  -- What the cache says in which the credential is stored: the string in its entry
  -- "proxy_impersonator", or none, when there is no such entry, or when a call before says
  -- KRB5_CC_NOTFOUND.
  pub data IsLookup (w : W) : Option (List ℕ) → W → Type 0 where
    entry :
        (cache config s : List ℕ) (wa wb wc wd : W)
        → memcache ≡ some cache
        → gss.krb5_init_context w ≡ (wa, inr tt)
        → gss.store_cred_into cred cache wa ≡ (wb, done tt)
        → gss.cc_resolve cache wb ≡ (wc, inr tt)
        → gss.cc_get_config cache wc ≡ (wd, inr config)
        → UpToNul config s
        → IsLookup w (some s) wd
    no_entry :
        (cache : List ℕ) (wa wb wc wd : W)
        → memcache ≡ some cache
        → gss.krb5_init_context w ≡ (wa, inr tt)
        → gss.store_cred_into cred cache wa ≡ (wb, done tt)
        → gss.cc_resolve cache wb ≡ (wc, inr tt)
        → gss.cc_get_config cache wc ≡ (wd, inl cc_notfound)
        → IsLookup w none wd
    no_cache :
        (cache : List ℕ) (wa wb wc : W)
        → memcache ≡ some cache
        → gss.krb5_init_context w ≡ (wa, inr tt)
        → gss.store_cred_into cred cache wa ≡ (wb, done tt)
        → gss.cc_resolve cache wb ≡ (wc, inl cc_notfound)
        → IsLookup w none wc
    not_stored :
        (cache : List ℕ) (wa wb : W)
        → memcache ≡ some cache
        → gss.krb5_init_context w ≡ (wa, inr tt)
        → gss.store_cred_into cred cache wa ≡ (wb, stop failure cc_notfound)
        → IsLookup w none wb
    no_context : (wa : W) → gss.krb5_init_context w ≡ (wa, inl cc_notfound) → IsLookup w none wa

  -- The impersonator of a credential, or none: what the GSSAPI reports, or, if it says
  -- GSS_S_UNAVAILABLE, what the cache says.
  pub data IsOrigin (w : W) : Option (List ℕ) → W → Type 0 where
    reported :
        (b : List ℕ) (bs : List (List ℕ)) (s : List ℕ) (w₁ : W)
        → gss.cred_impersonator cred w ≡ (w₁, done (b ∷ bs))
        → UpToNul b s
        → IsOrigin w (some s) w₁
    reported_none : (w₁ : W) → gss.cred_impersonator cred w ≡ (w₁, done []) → IsOrigin w none w₁
    looked_up :
        (w₁ w₂ : W) (min : Minor) (o : Option (List ℕ))
        → gss.cred_impersonator cred w ≡ (w₁, stop unavailable min)
        → IsLookup w₁ o w₂
        → IsOrigin w o w₂

  in_cache :
      (cache : List ℕ) (w wa w' : W) (o : Option (List ℕ))
      → memcache ≡ some cache
      → gss.krb5_init_context w ≡ (wa, inr tt)
      → fallback_in gss malloc cred (some cache) wa ≡ (w', done o)
      → IsLookup w o w'
  unfolding fallback_in
  in_cache cache w wa w' o named started h =
      let (wb, u, stored, hb) = >>=-eq-done (gss.store_cred_into cred cache) _ h in
      let (wc, v, resolved, hc) = >>=-eq-done (krb5 (gss.cc_resolve cache)) _ hb in
      let (wd, config, found, hd) = >>=-eq-done (krb5 (gss.cc_get_config cache)) _ hc in
      let (s, e, string, last) = strndup-eq-done malloc config hd in
      subst (λ p. IsLookup w p w') (sym e)
        (subst (IsLookup w (some s)) last (
          entry cache config s wa wb wc wd named started stored
            (krb5-eq-done (gss.cc_resolve cache) resolved)
            (krb5-eq-done (gss.cc_get_config cache) found) string))

  not_in_cache :
      (cache : List ℕ) (w wa w' : W)
      → memcache ≡ some cache
      → gss.krb5_init_context w ≡ (wa, inr tt)
      → fallback_in gss malloc cred (some cache) wa ≡ (w', stop failure cc_notfound)
      → IsLookup w none w'
  unfolding fallback_in
  not_in_cache cache w wa w' named started h =
      elim (>>=-eq-stop (gss.store_cred_into cred cache) _ h) [
        | inl missing ↦ not_stored cache wa w' named started missing
        | inr (wb, u, stored, hb) ↦ elim (>>=-eq-stop (krb5 (gss.cc_resolve cache)) _ hb) [
          | inl missing ↦
              no_cache cache wa wb w' named started stored
                (krb5-eq-stop (gss.cc_resolve cache) missing)
          | inr (wc, v, resolved, hc) ↦ elim (>>=-eq-stop (krb5 (gss.cc_get_config cache)) _ hc) [
            | inl missing ↦
                no_entry cache wa wb wc w' named started stored
                  (krb5-eq-done (gss.cc_resolve cache) resolved)
                  (krb5-eq-stop (gss.cc_get_config cache) missing)
            | inr (wd, config, found, hd) ↦ absurd (strndup-found malloc config wd w' hd)
          ]
        ]
      ]

  after_fallback-cases :
      (r : W × Outcome (Option (List ℕ))) {w' : W} {o : Option (List ℕ)}
      → after_fallback gss malloc r ≡ (w', done o)
      → (r ≡ (w', done o)) ⊎ ((r ≡ (w', stop failure cc_notfound)) × (o ≡ none))
  unfolding after_fallback
  after_fallback-cases (w, stop failure cc_notfound) h = inr (cc, cc)
  after_fallback-cases (w, o) h = inl h

  fallback-done :
      (m : Option (List ℕ)) (w w' : W) (o : Option (List ℕ))
      → memcache ≡ m
      → get_impersonator_fallback gss malloc m cred w ≡ (w', done o)
      → IsLookup w o w'
  unfolding get_impersonator_fallback fallback_in goto_done
  fallback-done none w w' o e h =
      let (wa, u, a, ha) = >>=-eq-done (krb5 gss.krb5_init_context) _ h in cc
  fallback-done (some cache) w w' o e h =
      let (wa, u, a, ha) = >>=-eq-done (krb5 gss.krb5_init_context) _ h in
      in_cache cache w wa w' o e (krb5-eq-done gss.krb5_init_context a) ha

  fallback-missing :
      (m : Option (List ℕ)) (w w' : W)
      → memcache ≡ m
      → get_impersonator_fallback gss malloc m cred w ≡ (w', stop failure cc_notfound)
      → IsLookup w none w'
  unfolding get_impersonator_fallback fallback_in goto_done
  fallback-missing m w w' e h = elim (>>=-eq-stop (krb5 gss.krb5_init_context) _ h) [
    | inl missing ↦ no_context w' (krb5-eq-stop gss.krb5_init_context missing)
    | inr (wa, u, a, ha) ↦ further m e wa (krb5-eq-done gss.krb5_init_context a) ha
  ]
    where
      further :
          (m : Option (List ℕ))
          → memcache ≡ m
          → (wa : W) → gss.krb5_init_context w ≡ (wa, inr tt)
          → fallback_in gss malloc cred m wa ≡ (w', stop failure cc_notfound)
          → IsLookup w none w'
      further none e wa started h = cc
      further (some cache) e wa started h = not_in_cache cache w wa w' e started h

  fallback-IsLookup :
      (w w' : W) (o : Option (List ℕ))
      → after_fallback gss malloc (get_impersonator_fallback gss malloc memcache cred w)
        ≡ (w', done o)
      → IsLookup w o w'
  fallback-IsLookup w w' o h =
      elim (after_fallback-cases (get_impersonator_fallback gss malloc memcache cred w) h) [
        | inl found ↦ fallback-done memcache w w' o refl found
        | inr (missing, e) ↦
            subst (λ p. IsLookup w p w') (sym e) (fallback-missing memcache w w' refl missing)
      ]

  after_inquire-IsOrigin :
      (w w' : W) (r : W × Outcome (List (List ℕ))) (o : Option (List ℕ))
      → gss.cred_impersonator cred w ≡ r
      → after_inquire gss malloc memcache cred r ≡ (w', done o)
      → IsOrigin w o w'
  unfolding after_inquire
  after_inquire-IsOrigin w w' (w₁, done []) o e h =
      let e' : gss.cred_impersonator cred w ≡ (w', done []) = cc in
      let e'' : none ≡ o = cc in subst (λ p. IsOrigin w p w') e'' (reported_none w' e')
  after_inquire-IsOrigin w w' (w₁, done (b ∷ bs)) o e h =
      let (s, e', string, last) = strndup-eq-done malloc b h in
      subst (λ p. IsOrigin w p w') (sym e')
        (subst (IsOrigin w (some s)) last (reported b bs s w₁ e string))
  after_inquire-IsOrigin w w' (w₁, stop unavailable min) o e h =
      looked_up w₁ w' min o e (fallback-IsLookup w₁ w' o h)
  after_inquire-IsOrigin w w' (w₁, stop maj min) o e h = cc
  after_inquire-IsOrigin w w' (w₁, fault) o e h = cc

  pub get_impersonator_name-IsOrigin :
      (w w' : W) (o : Option (List ℕ))
      → get_impersonator_name gss malloc memcache cred w ≡ (w', done o)
      → IsOrigin w o w'
  unfolding get_impersonator_name
  get_impersonator_name-IsOrigin w w' o h =
      after_inquire-IsOrigin w w' (gss.cred_impersonator cred w) o refl h

  pub IsOrigin-IsString : {w w' : W} {s : List ℕ} → IsOrigin w (some s) w' → IsString s
  IsOrigin-IsString (reported b bs s w₁ e string) = UpToNul-IsString string
  IsOrigin-IsString
        (looked_up w₁ w₂ min o e
          (entry cache config s wa wb wc wd named started stored resolved found string)) =
      UpToNul-IsString string
