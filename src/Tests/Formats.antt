-- ===== src/Tests/Formats.antt =====
-- get_formatted_string of src/gp_creds.c at concrete strings.
use gssproxy.Prelude.{ℕ, List, subst, none, ◌≢◌, arith, ◌≡◌, refl, [], ◌∷◌, some, true}
use gssproxy.Creds.Pieces.{
  Piece, literal, uid_code, user_code, source, expand, returned, IsString, string-nil, string-cons,
  IsTemplate, template-nil, template-literal, template-uid, template-user,
}
use gssproxy.Creds.Numeral.{IsIntNumeral}
use gssproxy.Creds.Formatted.{get_formatted_string-source}
use gssproxy.Creds.Ends.{get_formatted_string_ends}
use gssproxy.Creds.Format.{
  scanning, get_formatted_string, formatted, undefined, null, scan, turn, after_strchr, ended,
  format_code, removed, user_replaced, printed, replaced, pointed, memmove, strchr, c_string,
  decimal, digits,
}

-- "k%U.%u" for the user 42
uid_runs :
    get_formatted_string (λ n. true) (some (98 ∷ [])) 42 (107 ∷ 37 ∷ 85 ∷ 46 ∷ 37 ∷ 117 ∷ [])
    ≡ formatted (107 ∷ 52 ∷ 50 ∷ 46 ∷ 98 ∷ [])
unfolding get_formatted_string scan turn after_strchr ended format_code removed user_replaced
    printed replaced pointed memmove strchr c_string decimal digits
uid_runs = refl

-- The user 3000000000 is written as -1294967296.
large_uid_runs :
    get_formatted_string (λ n. true) none 3000000000 (37 ∷ 85 ∷ [])
    ≡ formatted (45 ∷ 49 ∷ 50 ∷ 57 ∷ 52 ∷ 57 ∷ 54 ∷ 55 ∷ 50 ∷ 57 ∷ 54 ∷ [])
unfolding get_formatted_string scan turn after_strchr ended format_code removed user_replaced
    printed replaced pointed memmove strchr c_string decimal digits
large_uid_runs = refl

-- "ab%%cd%U": after the removal of the second sign the length is one short of the string.
double_percent_runs :
    get_formatted_string
      (λ n. true)
      (some (98 ∷ []))
      42
      (97 ∷ 98 ∷ 37 ∷ 37 ∷ 99 ∷ 100 ∷ 37 ∷ 85 ∷ [])
    ≡ undefined
unfolding get_formatted_string scan turn after_strchr ended format_code removed user_replaced
    printed replaced pointed memmove strchr c_string decimal digits
double_percent_runs = refl

-- "%%" is refused.
leading_percent_runs : get_formatted_string (λ n. true) (some (98 ∷ [])) 42 (37 ∷ 37 ∷ []) ≡ null
unfolding get_formatted_string scan turn after_strchr ended format_code removed user_replaced
    printed replaced pointed memmove strchr c_string decimal digits
leading_percent_runs = refl

-- "k%U%u"
abbrev template : List Piece
template = literal 107 ∷ uid_code ∷ user_code ∷ []

template-IsTemplate : IsTemplate template
template-IsTemplate =
    template-literal (λ e. omega arith) (λ e. omega arith)
      (template-uid (template-user template-nil))

name-IsString : (user : List ℕ) → some (98 ∷ []) ≡ some user → IsString user
name-IsString user h =
    let same : 98 ∷ [] ≡ user = cc in
    subst IsString same (string-cons (λ e. omega arith) string-nil)

get_formatted_string-source_example :
    (number : List ℕ) × IsIntNumeral 42 number
    × (get_formatted_string (λ n. true) (some (98 ∷ [])) 42 (source template)
        ≡ returned [] (expand (some (98 ∷ [])) number template))
get_formatted_string-source_example =
    get_formatted_string-source (λ n. true) (λ n. refl) (some (98 ∷ [])) 42 (omega arith)
      template-IsTemplate name-IsString

get_formatted_string_ends_example :
    get_formatted_string (λ n. true) none 42 (97 ∷ 37 ∷ 37 ∷ 37 ∷ 85 ∷ [])
    ≢ scanning record { before = []; after = []; len = 0 }
get_formatted_string_ends_example =
    get_formatted_string_ends (λ n. true) none 42 (97 ∷ 37 ∷ 37 ∷ 37 ∷ 85 ∷ [])
      record { before = []; after = []; len = 0 }
