-- ===== src/Creds/Segregation.antt =====
-- The credential cache in the store that gp_get_cred_environment of src/gp_creds.c builds.
use gssproxy.Prelude.{
  ℕ, ◌+◌, ◌*◌, ◌^◌, ◌<◌, ◌≡◌, refl, arith, List, [], ◌∷◌, ◌++◌, Bool, true, false, ◌&&◌, length,
  get_elem?, Bool-cases, inl, inr, ◌⊎◌, Option, none, some, subst,
}
use gssproxy.Creds.Caches.{
  HasKey, Listed, HasCache, KeyAt, Listed-HasCache, append-HasCache, last-HasCache, append-KeyAt,
  last-KeyAt, set_value-HasCache,
}
use gssproxy.Creds.Elements.{
  noted-cases, IsKeytab, Next, IfBuilt, if-built, if-unbuilt, if-faulty, add_elements-IfBuilt,
  add_elements-IsKeytab,
}
use gssproxy.Creds.Service.{KeyValue}
use gssproxy.Creds.Format.{formatted, get_formatted_string, digits}
use gssproxy.Creds.Numeral.{IsNumeral, digits-IsNumeral}
use gssproxy.Creds.Store.{
  client_keytab, keytab, ccache, Store, Built, built, unbuilt, faulty, noted, add_elements,
  set_value, put_client_keytab, segregated, ensure_segregated_ccache, segregate, service_keytab,
  finish_store, empty_store, make_store, internal_ccache,
}

-- The octets of MEMORY:internal_, before the number of the thread.
abbrev pub of_thread : List ℕ
of_thread =
    77 ∷ 69 ∷ 77 ∷ 79 ∷ 82 ∷ 89 ∷ 58 ∷ 105 ∷ 110 ∷ 116 ∷ 101 ∷ 114 ∷ 110 ∷ 97 ∷ 108 ∷ 95 ∷ []

module _ (malloc : ℕ → Bool) (name : Option (List ℕ)) (uid tid : ℕ) (es : List KeyValue) where
  -- The value of a cache of the service, as it is formatted for the call.
  abbrev pub FromService : List ℕ → Type 0
  FromService v = HasCache (λ t. get_formatted_string malloc name uid t ≡ formatted v) es

  -- The cache in the store `cs` of the call, and the cache `d` that is destroyed after it.
  pub data IsSegregated (cs : List KeyValue) (d : Option (List ℕ)) : Type 0 where
    of_service : HasCache FromService cs → d ≡ none → IsSegregated cs d
    in_memory :
        (ds : List ℕ)
        → IsNumeral tid ds
        → HasCache (λ v. v ≡ of_thread ++ ds) cs
        → d ≡ some (of_thread ++ ds)
        → IsSegregated cs d

  -- The cache's place is noted only when there is an element for it.
  abbrev IsCached : Store → Type 0
  IsCached st = (st.cc_num ≡ none) ⊎ HasCache FromService st.cs

  -- At the place of the client keytab is one.
  abbrev IsPlaced : Option ℕ → List KeyValue → Type 0
  IsPlaced ck cs = (i : ℕ) → ck ≡ some i → KeyAt client_keytab i cs

  abbrev IsNoted : Store → Type 0
  IsNoted st = IsCached st × IsPlaced st.ck_num st.cs

  next-IsNoted :
      (e : KeyValue) (st : Store) (value : List ℕ)
      → Listed e es
      → get_formatted_string malloc name uid e.value ≡ formatted value
      → IsNoted st
      → IsNoted (Next e.key value (noted e.key st))
  next-IsNoted e st value listed formats (cached, placed) =
      noted-cases (λ s. IsNoted (Next e.key value s)) e.key st
        (λ same. (
          kept cached,
          λ i at.
              subst
                (λ n. KeyAt client_keytab n (st.cs ++ record { key = e.key; value = value } ∷ []))
                (the_place i at) (last-KeyAt st.cs (record { key = e.key; value = value }) same),
        ))
        (kept cached, stays)
        (λ same. (
          inr (
              last-HasCache st.cs _ same (
                Listed-HasCache (λ t. get_formatted_string malloc name uid t ≡ formatted value) e es
                  listed same formats)),
          stays,
        ))
        (kept cached, stays)
    where
      the_place : (i : ℕ) → some (length st.cs) ≡ some i → length st.cs ≡ i
      the_place i at = cc

      kept :
          IsCached st
          → (st.cc_num ≡ none)
            ⊎ HasCache FromService (st.cs ++ record { key = e.key; value = value } ∷ [])
      kept (inl unnoted) = inl unnoted
      kept (inr has) = inr (append-HasCache _ has)

      stays : IsPlaced st.ck_num (st.cs ++ record { key = e.key; value = value } ∷ [])
      stays i at = append-KeyAt _ (placed i at)

  put_client_keytab-IsCached :
      (k : Option KeyValue) (st : Store) (ck : Option ℕ)
      → IsCached st
      → IsPlaced ck st.cs
      → IfBuilt IsCached (put_client_keytab malloc k st ck)
  unfolding put_client_keytab
  put_client_keytab-IsCached none st ck had placed = if-faulty
  put_client_keytab-IsCached (some k) st none had placed =
      elim (Bool-cases (malloc (length client_keytab + 1) && malloc (length k.value + 1))) [
        | inl room ↦ rw room (if-built _ (kept had))
        | inr full ↦ rw full (if-unbuilt _)
      ]
    where
      kept :
          IsCached st
          → (st.cc_num ≡ none)
            ⊎ HasCache FromService (st.cs ++ record { key = client_keytab; value = k.value } ∷ [])
      kept (inl unnoted) = inl unnoted
      kept (inr has) = inr (append-HasCache _ has)
  put_client_keytab-IsCached (some k) st (some ck) had placed =
      elim (Bool-cases (malloc (length k.value + 1))) [
        | inl room ↦ rw room (if-built _ (kept had))
        | inr full ↦ rw full (if-unbuilt _)
      ]
    where
      kept : IsCached st → (st.cc_num ≡ none) ⊎ HasCache FromService (set_value ck k.value st.cs)
      kept (inl unnoted) = inl unnoted
      kept (inr has) = inr (set_value-HasCache k.value ck st.cs (placed ck refl) has)

  module _ (thread : tid < 2 ^ 31) where
    ensure-IsSegregated :
        (cc_num : Option ℕ) (st_cs : List KeyValue) {cs : List KeyValue} {d : Option (List ℕ)}
        → (cc_num ≡ none) ⊎ HasCache FromService st_cs
        → ensure_segregated_ccache malloc tid cc_num st_cs ≡ segregated cs d
        → IsSegregated cs d
    unfolding ensure_segregated_ccache internal_ccache
    ensure-IsSegregated (some k) st_cs (inl never) h = cc
    ensure-IsSegregated (some k) st_cs {cs} (inr has) h =
        let same : st_cs ≡ cs = cc in of_service (subst (HasCache FromService) same has) (cc)
    ensure-IsSegregated none st_cs {cs} had h =
        elim (Bool-cases
          (malloc (length ccache + 1) && malloc (length (internal_ccache tid) + 1))) [
            | inl room ↦
                let made = rw room at h in
                let same : st_cs ++ record { key = ccache; value = internal_ccache tid } ∷ [] ≡ cs =
                  cc in
                in_memory (digits 10 tid) (digits-IsNumeral 9 tid (omega (arith, thread)))
                  (subst (HasCache (λ v. v ≡ of_thread ++ digits 10 tid)) same
                    (last-HasCache st_cs _ refl refl))
                  (cc)
            | inr full ↦ let made = rw full at h in cc
          ]

    segregate-IsSegregated :
        (b : Built) {cs : List KeyValue} {d : Option (List ℕ)}
        → IfBuilt IsCached b
        → segregate malloc tid b ≡ segregated cs d
        → IsSegregated cs d
    unfolding segregate
    segregate-IsSegregated (built st) (if-built _ cached) h =
        ensure-IsSegregated st.cc_num st.cs cached h
    segregate-IsSegregated (unbuilt err) b h = cc
    segregate-IsSegregated faulty b h = cc

    service_keytab-IsSegregated :
        (st : Store) (k ck : Option ℕ) {cs : List KeyValue} {d : Option (List ℕ)}
        → (i : ℕ) × (k ≡ some i)
        → IsCached st
        → IsPlaced ck st.cs
        → service_keytab malloc tid st k ck ≡ segregated cs d
        → IsSegregated cs d
    unfolding service_keytab
    service_keytab-IsSegregated st none ck (i, e) cached placed h = cc
    service_keytab-IsSegregated st (some k) ck known cached placed h =
        segregate-IsSegregated (put_client_keytab malloc (get_elem? st.cs k) st ck)
          (put_client_keytab-IsCached (get_elem? st.cs k) st ck cached placed) h

    finish_store-IsSegregated :
        (use_service_keytab : Bool) (b : Built) {cs : List KeyValue} {d : Option (List ℕ)}
        → (use_service_keytab ≡ false) ⊎ IfBuilt IsKeytab b
        → IfBuilt IsNoted b
        → finish_store malloc tid use_service_keytab b ≡ segregated cs d
        → IsSegregated cs d
    unfolding finish_store
    finish_store-IsSegregated use_service_keytab (unbuilt err) k b h = cc
    finish_store-IsSegregated use_service_keytab faulty k b h = cc
    finish_store-IsSegregated false (built st) k (if-built _ (cached, placed)) h =
        segregate-IsSegregated (built st) (if-built st cached) h
    finish_store-IsSegregated true (built st) (inl never) b h = cc
    finish_store-IsSegregated true (built st) (inr (if-built _ known)) (if-built _ (cached, placed))
          h =
        service_keytab-IsSegregated st st.k_num st.ck_num known cached placed h

module _ (malloc : ℕ → Bool) (tid : ℕ) (thread : tid < 2 ^ 31) where
  -- When the service has a credential store, and, for a call on the service's own keytab, a keytab in
  -- it, a store that is built for a call has a credential cache. Either it is one of the service, with
  -- its value formatted for the call, and no cache is to be destroyed; or it is the cache in memory
  -- MEMORY:internal_<tid>, with the decimal numeral of the thread, and that is to be destroyed.
  -- The number of the thread is that of an int.
  pub make_store-IsSegregated :
      (name : Option (List ℕ)) (uid : ℕ) (use_service_keytab : Bool) (e : KeyValue)
      (es cs : List KeyValue) (d : Option (List ℕ))
      → (use_service_keytab ≡ false) ⊎ HasKey keytab (e ∷ es)
      → make_store malloc name uid tid use_service_keytab (e ∷ es) ≡ segregated cs d
      → IsSegregated malloc name uid tid (e ∷ es) cs d
  unfolding make_store
  make_store-IsSegregated name uid use_service_keytab e es cs d allowed h =
      elim (Bool-cases (malloc ((length (e ∷ es) + 2) * 16))) [
        | inl room ↦
            finish_store-IsSegregated malloc name uid tid (e ∷ es) thread use_service_keytab _
              (known allowed)
              (add_elements-IfBuilt malloc name uid (IsNoted malloc name uid tid (e ∷ es)) (e ∷ es)
                (built empty_store)
                (λ f st l had value formats.
                  next-IsNoted malloc name uid tid (e ∷ es) f st value l formats had)
                (if-built _ (inl refl, λ i at. cc)))
              (rw room at h)
        | inr full ↦ let h' = rw full at h in cc
      ]
    where
      known :
          (use_service_keytab ≡ false) ⊎ HasKey keytab (e ∷ es)
          → (use_service_keytab ≡ false)
            ⊎ IfBuilt IsKeytab (add_elements malloc name uid (e ∷ es) (built empty_store))
      known (inl unused) = inl unused
      known (inr has) = inr (add_elements-IsKeytab malloc name uid (e ∷ es) (built empty_store) has)
