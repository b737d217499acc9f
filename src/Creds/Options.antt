-- ===== src/Creds/Options.antt =====
-- The options of a call: gp_options_find of src/gp_common.h, gp_add_option of src/gp_util.c, and
-- gp_get_acquire_type of src/gp_creds.c.
use gssproxy.Prelude.{
  ℕ, suc, List, [], ◌∷◌, ◌++◌, Option, none, some, Bool, true, false, ◌&&◌, length, ◌==◌,
  if◌then◌else◌, enomem, Result, ok, err, not,
}
use gssproxy.Wire.Types.{GssxOption}

-- strncmp(a, b, n) == 0: of what lies behind the end of a list nothing is known, and the callers give
-- lists of n bytes.
unfoldable pub same_chars : ℕ → List ℕ → List ℕ → Bool
same_chars (suc n) (c ∷ cs) (d ∷ ds) =
    if c == d then (if c == 0 then true else same_chars n cs ds) else false
same_chars _ _ _ = true

-- gpopt_string_match
unfoldable pub string_match : List ℕ → List ℕ → Bool
unfolding same_chars
string_match buf val = (length val == length buf) && same_chars (length buf) val buf

-- gp_options_find
unfoldable pub options_find : List GssxOption → List ℕ → Option GssxOption
unfolding string_match
options_find [] name = none
options_find (v ∷ vs) name = if string_match v.option name then some v else options_find vs name

-- gp_add_option: the copies of the name and of a value that is not empty, and the longer array.
unfoldable pub add_option :
    (ℕ → Bool) → Bool → List GssxOption → List ℕ → List ℕ → Result (List GssxOption)
add_option malloc realloc_ok options option value =
    if not (malloc (length option))
    then err enomem
    else if not (length value == 0) && not (malloc (length value))
    then err enomem
    else if realloc_ok
    then ok (options ++ record { option = option; value = value } ∷ [])
    else err enomem

-- ACQUIRE_TYPE_OPTION and ACQUIRE_IMPERSONATE_NAME, as sizeof counts them: with the NUL.
abbrev pub acquire_type_option : List ℕ
acquire_type_option = 97 ∷ 99 ∷ 113 ∷ 117 ∷ 105 ∷ 114 ∷ 101 ∷ 95 ∷ 116 ∷ 121 ∷ 112 ∷ 101 ∷ 0 ∷ []

abbrev pub acquire_impersonate_name : List ℕ
acquire_impersonate_name =
    105 ∷ 109 ∷ 112 ∷ 101 ∷ 114 ∷ 115 ∷ 111 ∷ 110 ∷ 97 ∷ 116 ∷ 101 ∷ 95 ∷ 110 ∷ 97 ∷ 109 ∷ 101 ∷ 0
    ∷ []

-- enum gp_aqcuire_cred_type; `acq_invalid` is -1.
pub data AcquireType : Type 0 where
  acq_normal acq_impname acq_invalid : AcquireType

unfoldable pub acquire_type_of : Option GssxOption → AcquireType
unfolding string_match
acquire_type_of none = acq_normal
acquire_type_of (some v) =
    if string_match v.value acquire_impersonate_name then acq_impname else acq_invalid

unfoldable pub get_acquire_type : List GssxOption → AcquireType
unfolding acquire_type_of options_find
get_acquire_type options = acquire_type_of (options_find options acquire_type_option)
