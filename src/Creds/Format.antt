-- ===== src/Creds/Format.antt =====
-- get_formatted_string of src/gp_creds.c, which puts the user into the values of a credential store.
-- A string in memory is a pointer into an allocation: the bytes before it, and those from it on, with
-- the NUL and all that the allocation has behind it.
use gssproxy.Prelude.{
  ℕ, zero, suc, ◌+◌, ◌-◌, ◌/◌, ◌%◌, ◌^◌, List, [], ◌∷◌, ◌++◌, Option, none, some, ◌>>=◌, Bool, ◌&&◌,
  length, take, drop, ltb, leb, ◌==◌, if◌then◌else◌,
}

-- What printf writes for the digits of a number of at most so many digits.
unfoldable pub digits : ℕ → ℕ → List ℕ
digits zero n = []
digits (suc places) n =
    let high = digits places (n / 10) in
    if ltb n 10 then (48 + n) ∷ [] else high ++ (48 + n % 10) ∷ []

-- %d, which reads a uid_t of 32 bits as an int.
unfoldable pub decimal : ℕ → List ℕ
unfolding digits
decimal uid = if ltb uid (2 ^ 31) then digits 10 uid else 45 ∷ digits 10 (2 ^ 32 - uid)

-- The string at a pointer; `none` if the allocation ends first.
unfoldable pub c_string : List ℕ → Option (List ℕ)
c_string [] = none
c_string (c ∷ cs) = let rest = c_string cs in if c == 0 then some [] else rest >>= λ s. some (c ∷ s)

-- strchr(p, '%'), with what lies before the pointer; then p++.
pub data Percent : Type 0 where
  beyond absent : Percent
  found : (before after : List ℕ) → Percent

unfoldable pub strchr : List ℕ → List ℕ → Percent
strchr before [] = beyond
strchr before (c ∷ cs) =
    let further = strchr (before ++ c ∷ []) cs in
    if c == 37 then found (before ++ c ∷ []) cs else if c == 0 then absent else further

-- memmove(p, p + 1, n) in the bytes from p on; `none` reads beyond them.
unfoldable pub memmove : ℕ → List ℕ → Option (List ℕ)
memmove n [] = none
memmove n (c ∷ cs) = if leb n (length cs) then some (take n cs ++ drop n (c ∷ cs)) else none

-- The variables of the loop: `str` is `before ++ after`, and `p` points at `after`.
pub record Scan : Type 0 where
  pub before : List ℕ
  pub after : List ℕ
  pub len : ℕ

-- What a turn of the loop, or the function, comes to. The function returns NULL at `null`.
pub data Turn : Type 0 where
  undefined null : Turn
  scanning : Scan → Turn
  formatted : List ℕ → Turn

-- str = tmp; p = str + (len - right), where right = len - left.
unfoldable pub pointed : ℕ → ℕ → List ℕ → Turn
pointed left old_len tmp =
    let at = length tmp + left - old_len in
    if leb old_len (length tmp + left) && leb at (length tmp)
    then scanning record { before = take at tmp; after = drop at (tmp ++ 0 ∷ []); len = length tmp }
    else undefined

-- asprintf(&tmp, "%.*s…%s", left - 2, str, …, p), with p behind the format code, where `rest` is the
-- string at p.
unfoldable pub printed : (ℕ → Bool) → List ℕ → Scan → Option (List ℕ) → Turn
unfolding pointed
printed malloc text s none = undefined
printed malloc text s (some rest) =
    let tmp = take (length s.before - 2) s.before ++ text ++ rest in
    if malloc (length tmp + 1) then pointed (length s.before) s.len tmp else null

unfoldable pub replaced : (ℕ → Bool) → List ℕ → Scan → Turn
unfolding printed c_string
replaced malloc text s = printed malloc text s (c_string s.after)

-- case '%'
unfoldable pub removed : Scan → Option (List ℕ) → Turn
removed s none = undefined
removed s (some moved) = scanning record { before = s.before; after = moved; len = s.len - 1 }

-- case 'u'
unfoldable pub user_replaced : (ℕ → Bool) → Option (List ℕ) → Scan → Turn
unfolding replaced
user_replaced malloc none s = null
user_replaced malloc (some user) s = replaced malloc user s

-- The switch at the byte behind a percent sign.
unfoldable pub format_code : (ℕ → Bool) → Option (List ℕ) → ℕ → Scan → ℕ → List ℕ → Turn
unfolding memmove removed replaced user_replaced decimal
format_code malloc name uid s c cs =
    let next : Scan = record { before = s.before ++ c ∷ []; after = cs; len = s.len } in
    if c == 37
    then removed s (memmove (length s.before - 1) (c ∷ cs))
    else if c == 85
    then replaced malloc (decimal uid) next
    else if c == 117
    then user_replaced malloc name next
    else null

-- What follows strchr, which found no sign, or one with `before` up to it and `after` behind it. At
-- the end of the loop the string is what stands before the first NUL.
unfoldable pub ended : Option (List ℕ) → Turn
ended none = undefined
ended (some out) = formatted out

unfoldable pub after_strchr : (ℕ → Bool) → Option (List ℕ) → ℕ → Scan → Percent → Turn
unfolding format_code c_string ended
after_strchr malloc name uid s beyond = undefined
after_strchr malloc name uid s absent = ended (c_string (s.before ++ s.after))
after_strchr malloc name uid s (found before []) = undefined
after_strchr malloc name uid s (found before (c ∷ cs)) =
    format_code malloc name uid (record { before = before; after = c ∷ cs; len = s.len }) c cs

-- One turn of the loop.
unfoldable pub turn : (ℕ → Bool) → Option (List ℕ) → ℕ → Scan → Turn
unfolding strchr after_strchr
turn malloc name uid s = after_strchr malloc name uid s (strchr s.before s.after)

-- The loop, on fuel; no fuel is a turn that is still to come.
unfoldable pub scan : ℕ → (ℕ → Bool) → Option (List ℕ) → ℕ → Turn → Turn
unfolding turn
scan zero malloc name uid t = t
scan (suc fuel) malloc name uid (scanning s) = scan fuel malloc name uid (turn malloc name uid s)
scan (suc fuel) malloc name uid t = t

-- get_formatted_string: `name` is what uid_to_name(target_uid) gives. Each turn leaves fewer bytes
-- from p on, so that the fuel is one more than these.
unfoldable pub get_formatted_string : (ℕ → Bool) → Option (List ℕ) → ℕ → List ℕ → Turn
unfolding scan
get_formatted_string malloc name uid orig =
    if malloc (length orig + 1)
    then scan (suc (suc (length orig))) malloc name uid
        (scanning record { before = []; after = orig ++ 0 ∷ []; len = length orig })
    else null
