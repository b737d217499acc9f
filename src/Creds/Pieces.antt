-- ===== src/Creds/Pieces.antt =====
-- What get_formatted_string is meant to do, on the strings that have no double percent sign: they are
-- literal bytes and format codes, and each code is replaced, once, by the number or the name of the
-- user. A code that is not known makes the whole string NULL.
use gssproxy.Prelude.{
  ℕ, zero, suc, ◌-◌, ◌/◌, ◌^◌, ◌≡◌, ◌≢◌, refl, List, [], ◌∷◌, ◌++◌, Option, none, some, ◌>>=◌, ltb,
  ne→==, Bool-cases, inl, inr, arith,
}
use gssproxy.Creds.Format.{Turn, null, formatted, c_string, decimal, digits}

pub data Piece : Type 0 where
  literal : ℕ → Piece
  uid_code user_code : Piece
  unknown_code : ℕ → Piece

-- A template as it is written.
unfoldable pub source : List Piece → List ℕ
source [] = []
source (literal c ∷ ps) = c ∷ source ps
source (uid_code ∷ ps) = 37 ∷ 85 ∷ source ps
source (user_code ∷ ps) = 37 ∷ 117 ∷ source ps
source (unknown_code c ∷ ps) = 37 ∷ c ∷ source ps

-- A template as it is read, with the name of the user, if there is one, and the user's number as it is
-- written.
unfoldable pub expand : Option (List ℕ) → List ℕ → List Piece → Option (List ℕ)
expand name number [] = some []
expand name number (literal c ∷ ps) = expand name number ps >>= λ t. some (c ∷ t)
expand name number (uid_code ∷ ps) = expand name number ps >>= λ t. some (number ++ t)
expand name number (user_code ∷ ps) =
    name >>= λ user. expand name number ps >>= λ t. some (user ++ t)
expand name number (unknown_code c ∷ ps) = none

-- A string of C: no byte of it is NUL.
pub data IsString : List ℕ → Type 0 where
  string-nil : IsString []
  string-cons : {c : ℕ} {cs : List ℕ} → c ≢ 0 → IsString cs → IsString (c ∷ cs)

-- The literal bytes are neither NUL nor percent signs, and an unknown code is none of `%`, `U`, `u`.
pub data IsTemplate : List Piece → Type 0 where
  template-nil : IsTemplate []
  template-literal :
      {c : ℕ} {ps : List Piece} → c ≢ 0 → c ≢ 37 → IsTemplate ps → IsTemplate (literal c ∷ ps)
  template-uid : {ps : List Piece} → IsTemplate ps → IsTemplate (uid_code ∷ ps)
  template-user : {ps : List Piece} → IsTemplate ps → IsTemplate (user_code ∷ ps)
  template-unknown :
      {c : ℕ} {ps : List Piece}
      → c ≢ 0
      → c ≢ 37
      → c ≢ 85
      → c ≢ 117
      → IsTemplate ps
      → IsTemplate (unknown_code c ∷ ps)

-- What the function returns when the string before is done.
unfoldable pub returned : List ℕ → Option (List ℕ) → Turn
returned done none = null
returned done (some t) = formatted (done ++ t)

pub append-IsString : {s t : List ℕ} → IsString s → IsString t → IsString (s ++ t)
append-IsString string-nil string-t = string-t
append-IsString (string-cons byte rest) string-t = string-cons byte (append-IsString rest string-t)

digits-IsString : (places n : ℕ) → IsString (digits places n)
unfolding digits
digits-IsString zero n = string-nil
digits-IsString (suc places) n = elim (Bool-cases (ltb n 10)) [
  | inl one ↦ rw one (string-cons (λ e. omega arith) string-nil)
  | inr more ↦ rw more (
      append-IsString (digits-IsString places (n / 10)) (string-cons (λ e. omega arith) string-nil))
]

pub decimal-IsString : (uid : ℕ) → IsString (decimal uid)
unfolding decimal
decimal-IsString uid = elim (Bool-cases (ltb uid (2 ^ 31))) [
  | inl small ↦ rw small (digits-IsString 10 uid)
  | inr large ↦ rw large (string-cons (λ e. omega arith) (digits-IsString 10 (2 ^ 32 - uid)))
]

pub source-IsString : {ps : List Piece} → IsTemplate ps → IsString (source ps)
unfolding source
source-IsString template-nil = string-nil
source-IsString (template-literal byte plain rest) = string-cons byte (source-IsString rest)
source-IsString (template-uid rest) =
    string-cons (λ e. omega arith) (string-cons (λ e. omega arith) (source-IsString rest))
source-IsString (template-user rest) =
    string-cons (λ e. omega arith) (string-cons (λ e. omega arith) (source-IsString rest))
source-IsString (template-unknown byte p q r rest) =
    string-cons (λ e. omega arith) (string-cons byte (source-IsString rest))

pub c_string-IsString :
    {s : List ℕ} (behind : List ℕ) → IsString s → c_string (s ++ 0 ∷ behind) ≡ some s
unfolding c_string
c_string-IsString behind string-nil = refl
c_string-IsString behind (string-cons {c} {cs} byte rest) =
    rw (ne→== c 0 byte, c_string-IsString behind rest) refl
