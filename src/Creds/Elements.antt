-- ===== src/Creds/Elements.antt =====
-- The loop of gp_get_cred_environment, of src/gp_creds.c, over the elements of the store of a service.
use gssproxy.Prelude.{
  ℕ, ◌+◌, ◌≡◌, refl, sym, List, [], ◌∷◌, ◌++◌, Bool, length, Bool-cases, inl, inr, Option, some,
  subst, Errno,
}
use gssproxy.Creds.Caches.{HasKey, has_here, has_there, Listed, listed_here, listed_there}
use gssproxy.Creds.Service.{KeyValue}
use gssproxy.Creds.Format.{Turn, undefined, null, scanning, formatted, get_formatted_string}
use gssproxy.Creds.Store.{
  client_keytab, keytab, ccache, Store, Built, built, unbuilt, faulty, noted, with_value,
  add_element, add_elements,
}
use gssproxy.Creds.Usable.{equal→≡}
use gssproxy.Gss.Names.{equal}

-- The cases of the tests of a key.
pub noted-cases :
    (P : Store → Type 0) (key : List ℕ) (st : Store)
    → (key ≡ client_keytab → P (record st { ck_num = some (length st.cs) }))
    → P (record st { k_num = some (length st.cs) })
    → (key ≡ ccache → P (record st { cc_num = some (length st.cs) }))
    → P st
    → P (noted key st)
unfolding noted
noted-cases P key st p q r s = elim (Bool-cases (equal key client_keytab)) [
  | inl client ↦ rw client (p (equal→≡ key client_keytab client))
  | inr other ↦ elim (Bool-cases (equal key keytab)) [
    | inl key_table ↦ rw (other, key_table) q
    | inr no_table ↦ elim (Bool-cases (equal key ccache)) [
      | inl cache ↦ rw (other, no_table, cache) (r (equal→≡ key ccache cache))
      | inr no_cache ↦ rw (other, no_table, no_cache) s
    ]
  ]
]

abbrev pub IsKeytab : Store → Type 0
IsKeytab st = (k : ℕ) × (st.k_num ≡ some k)

-- What the store is once the element of the noted key is behind it.
abbrev pub Next : List ℕ → List ℕ → Store → Store
Next key value st = record st { cs = st.cs ++ record { key = key; value = value } ∷ [] }

noted-IsKeytab : (key : List ℕ) (st : Store) → IsKeytab st → IsKeytab (noted key st)
noted-IsKeytab key st (k, e) =
    noted-cases IsKeytab key st (λ same. (k, e)) (length st.cs, refl) (λ same. (k, e)) (k, e)

noted-keytab-IsKeytab : (key : List ℕ) (st : Store) → key ≡ keytab → IsKeytab (noted key st)
unfolding noted equal
noted-keytab-IsKeytab key st same =
    subst (λ k. IsKeytab (noted k st)) (sym same) (length st.cs, refl)

-- What holds of a store that is built.
pub data IfBuilt (P : Store → Type 0) : Built → Type 0 where
  if-built : (st : Store) → P st → IfBuilt P (built st)
  if-unbuilt : (err : Errno) → IfBuilt P (unbuilt err)
  if-faulty : IfBuilt P faulty

module _ (malloc : ℕ → Bool) (name : Option (List ℕ)) (uid : ℕ) where
  add_element-IfBuilt :
      (P : Store → Type 0) (e : KeyValue) (st : Store)
      → ((value : List ℕ)
          → get_formatted_string malloc name uid e.value ≡ formatted value
          → P (Next e.key value (noted e.key st)))
      → IfBuilt P (add_element malloc name uid e st)
  unfolding add_element with_value
  add_element-IfBuilt P e st next = elim (Bool-cases (malloc (length e.key + 1))) [
    | inl room ↦ rw room (turned (get_formatted_string malloc name uid e.value) refl)
    | inr full ↦ rw full (if-unbuilt _)
  ]
    where
      turned :
          (t : Turn)
          → get_formatted_string malloc name uid e.value ≡ t
          → IfBuilt P (with_value e.key (noted e.key st) t)
      turned (formatted value) h = if-built _ (next value h)
      turned null h = if-unbuilt _
      turned undefined h = if-faulty
      turned (scanning s) h = if-faulty

  -- The loop keeps what each element keeps.
  pub add_elements-IfBuilt :
      (P : Store → Type 0) (es : List KeyValue) (b : Built)
      → ((e : KeyValue) (st : Store)
          → Listed e es
          → P st
          → (value : List ℕ) → get_formatted_string malloc name uid e.value ≡ formatted value
          → P (Next e.key value (noted e.key st)))
      → IfBuilt P b
      → IfBuilt P (add_elements malloc name uid es b)
  unfolding add_elements
  add_elements-IfBuilt P [] b next h = h
  add_elements-IfBuilt P (e ∷ es) (built st) next (if-built _ h) =
      add_elements-IfBuilt P es (add_element malloc name uid e st)
        (λ f st' l. next f st' (listed_there e es l))
        (add_element-IfBuilt P e st (next e st (listed_here es) h))
  add_elements-IfBuilt P (e ∷ es) (unbuilt err) next h = if-unbuilt err
  add_elements-IfBuilt P (e ∷ es) faulty next h = if-faulty

  pub add_elements-IsKeytab :
      (es : List KeyValue) (b : Built)
      → HasKey keytab es
      → IfBuilt IsKeytab (add_elements malloc name uid es b)
  unfolding add_elements
  add_elements-IsKeytab [] b has = elim has [ ]
  add_elements-IsKeytab (e ∷ es) (unbuilt err) has = if-unbuilt err
  add_elements-IsKeytab (e ∷ es) faulty has = if-faulty
  add_elements-IsKeytab (e ∷ es) (built st) (has_here _ _ same) =
      add_elements-IfBuilt IsKeytab es (add_element malloc name uid e st)
        (λ e st l h value formats. noted-IsKeytab e.key st h)
        (add_element-IfBuilt IsKeytab e st λ value formats. noted-keytab-IsKeytab e.key st same)
  add_elements-IsKeytab (e ∷ es) (built st) (has_there _ _ has) =
      add_elements-IsKeytab es (add_element malloc name uid e st) has
