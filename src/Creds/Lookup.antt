-- ===== src/Creds/Lookup.antt =====
-- What gp_options_find and gp_get_acquire_type find.
use gssproxy.Prelude.{
  ℕ, zero, suc, ◌≡◌, ◌≢◌, refl, sym, ap, ◌∙◌, List, [], ◌∷◌, ◌++◌, Option, none, some, Bool, true,
  false, ◌&&◌, length, ◌==◌, if◌then◌else◌, not, Bool-cases, inl, inr, eq→==, arith, enomem, ok,
  err,
}
use gssproxy.Wire.Types.{GssxOption}
use gssproxy.Creds.Options.{
  same_chars, string_match, options_find, add_option, acquire_type_option, acquire_impersonate_name,
  AcquireType, acq_normal, acq_impname, acq_invalid, acquire_type_of, get_acquire_type,
}

-- A string constant with its NUL, and no other.
abbrev pub IsCString : List ℕ → Type 0
IsCString [] = ⊥
IsCString (c ∷ []) = c ≡ 0
IsCString (c ∷ d ∷ cs) = (c ≢ 0) × IsCString (d ∷ cs)

same_chars_refl : (n : ℕ) (xs : List ℕ) → same_chars n xs xs ≡ true
unfolding same_chars
same_chars_refl zero xs = refl
same_chars_refl (suc n) [] = refl
same_chars_refl (suc n) (x ∷ xs) = ground (arith, same_chars_refl n xs)

-- Bytes that compare as a constant of their length are the constant.
same_chars-eq :
    (val buf : List ℕ)
    → IsCString val
    → length val ≡ length buf
    → same_chars (length buf) val buf ≡ true
    → buf ≡ val
unfolding same_chars
same_chars-eq [] buf c size h = absurd c
same_chars-eq (c ∷ cs) [] s size h = absurd (omega (arith, size))
same_chars-eq (c ∷ []) (b ∷ []) s size h = ap (λ x. x ∷ []) (ground arith)
same_chars-eq (c ∷ []) (b ∷ b' ∷ bs) s size h = absurd (omega (arith, size))
same_chars-eq (c ∷ c' ∷ cs) (b ∷ bs) (not_nul, s) size h =
    let (e, rest) = step (same_chars (length bs) (c' ∷ cs) bs) h in
    ap (λ x. x ∷ bs) (sym e)
    ∙ ap (λ xs. c ∷ xs) (same_chars-eq (c' ∷ cs) bs s (omega (arith, size)) rest)
  where
    step :
        (later : Bool)
        → (if c == b then (if c == 0 then true else later) else false) ≡ true
        → (c ≡ b) × (later ≡ true)
    step later e = (ground arith, ground arith)

-- The comparison with a constant is equality.
pub string_match-true : (buf val : List ℕ) → IsCString val → string_match buf val ≡ true → buf ≡ val
unfolding string_match
string_match-true buf val s h = same_chars-eq val buf s (ground arith) (ground arith)

string_match_refl : (val : List ℕ) → string_match val val ≡ true
unfolding string_match
string_match_refl val =
    rw (eq→== (length val) (length val) refl, same_chars_refl (length val) val) refl

string_match_ne : (buf val : List ℕ) → string_match buf val ≡ false → buf ≢ val
string_match_ne buf val h e = let t = ap (λ b. string_match b val) e ∙ string_match_refl val in cc

-- No option has this name.
abbrev pub Lacks : List ℕ → List GssxOption → Type 0
Lacks name [] = Unit
Lacks name (v ∷ vs) = (v.option ≢ name) × Lacks name vs

-- The first option of this name, if there is one.
pub data Found (name : List ℕ) (options : List GssxOption) : Option GssxOption → Type 0 where
  absent : Lacks name options → Found name options none
  present :
      (before after : List GssxOption) (v : GssxOption)
      → options ≡ before ++ v ∷ after
      → Lacks name before
      → v.option ≡ name
      → Found name options (some v)

Found-cons :
    (name : List ℕ) (v : GssxOption) (vs : List GssxOption) (o : Option GssxOption)
    → v.option ≢ name
    → Found name vs o
    → Found name (v ∷ vs) o
Found-cons name v vs none differs (absent lacks) = absent (differs, lacks)
Found-cons name v vs (some w) differs (present before after _ split lacks named) =
    present (v ∷ before) after w (ap (λ l. v ∷ l) split) (differs, lacks) named

pub options_find-Found :
    (name : List ℕ) (options : List GssxOption)
    → IsCString name
    → Found name options (options_find options name)
unfolding options_find
options_find-Found name [] s = absent tt
options_find-Found name (v ∷ vs) s = elim (Bool-cases (string_match v.option name)) [
  | inl same ↦ rw same (present [] vs v refl tt (string_match-true v.option name s same))
  | inr other ↦ rw other (
      Found-cons name v vs (options_find vs name) (string_match_ne v.option name other)
        (options_find-Found name vs s))
]

impersonate_name-IsCString : IsCString acquire_impersonate_name
impersonate_name-IsCString = ground arith

acquire_type_option-IsCString : IsCString acquire_type_option
acquire_type_option-IsCString = ground arith

-- The type of an acquisition: that of the first option acquire_type, by its value, and normal without
-- one.
pub data Acquires (options : List GssxOption) : AcquireType → Type 0 where
  normal : Lacks acquire_type_option options → Acquires options acq_normal
  impersonates :
      (v : GssxOption)
      → Found acquire_type_option options (some v)
      → v.value ≡ acquire_impersonate_name
      → Acquires options acq_impname
  unknown :
      (v : GssxOption)
      → Found acquire_type_option options (some v)
      → v.value ≢ acquire_impersonate_name
      → Acquires options acq_invalid

acquire_type_of-Acquires :
    (options : List GssxOption) (o : Option GssxOption)
    → Found acquire_type_option options o
    → Acquires options (acquire_type_of o)
unfolding acquire_type_of
acquire_type_of-Acquires options none (absent lacks) = normal lacks
acquire_type_of-Acquires options (some v) found =
    elim (Bool-cases (string_match v.value acquire_impersonate_name)) [
      | inl same ↦ rw same (
          impersonates v found
            (string_match-true v.value acquire_impersonate_name impersonate_name-IsCString same))
      | inr other ↦
          rw other (unknown v found (string_match_ne v.value acquire_impersonate_name other))
    ]

-- gp_get_acquire_type takes the first option whose name is acquire_type: without one the acquisition is
-- normal, with the value impersonate_name it is one by impersonation, and with any other value it is
-- refused.
pub get_acquire_type-Acquires :
    (options : List GssxOption) → Acquires options (get_acquire_type options)
unfolding get_acquire_type
get_acquire_type-Acquires options =
    acquire_type_of-Acquires options (options_find options acquire_type_option)
      (options_find-Found acquire_type_option options acquire_type_option-IsCString)

Lacks-find :
    (name : List ℕ) (options : List GssxOption) (v : GssxOption)
    → IsCString name
    → Lacks name options
    → v.option ≡ name
    → options_find (options ++ v ∷ []) name ≡ some v
unfolding options_find
Lacks-find name [] v s lacks named =
    rw (ap (λ b. string_match b name) named ∙ string_match_refl name) refl
Lacks-find name (w ∷ ws) v s (differs, lacks) named =
    elim (Bool-cases (string_match w.option name)) [
      | inl same ↦ absurd (differs (string_match-true w.option name s same))
      | inr other ↦ rw other (Lacks-find name ws v s lacks named)
    ]

-- An option that gp_add_option adds is what gp_options_find finds by its name, when the name is a
-- constant that no option had before.
pub options_find-add_option :
    (malloc : ℕ → Bool) (realloc_ok : Bool) (options out : List GssxOption) (name value : List ℕ)
    → IsCString name
    → Lacks name options
    → add_option malloc realloc_ok options name value ≡ ok out
    → options_find out name ≡ some (record { option = name; value = value })
unfolding add_option
options_find-add_option malloc realloc_ok options out name value s lacks h =
    ap (λ o. options_find o name)
      (sym (
        added (not (malloc (length name))) (not (length value == 0) && not (malloc (length value)))
          realloc_ok h))
    ∙ Lacks-find name options (record { option = name; value = value }) s lacks refl
  where
    added :
        (no_name no_value room : Bool)
        → (if no_name
            then err enomem
            else if no_value
            then err enomem
            else if room
            then ok (options ++ record { option = name; value = value } ∷ [])
            else err enomem)
          ≡ ok out
        → options ++ record { option = name; value = value } ∷ [] ≡ out
    added false false true e = ground arith
    added true no_value room e = ground arith
    added false true room e = ground arith
    added false false false e = ground arith
