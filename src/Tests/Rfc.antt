-- ===== src/Tests/Rfc.antt =====
-- The XDR of RFC 4506 on lists of bytes: an instance of the parameter of the model, for the examples.
use mathlib.Core.Path.{ap₂}
use gssproxy.Prelude.{
  sym, le→leb, true, ℕ, ◌+◌, ◌-◌, ◌*◌, ◌/◌, ◌%◌, ◌^◌, ◌<◌, ◌≤◌, ◌≡◌, refl, ap, ◌∙◌, List, [], ◌∷◌,
  ◌++◌, append_assoc, Option, none, some, ◌>>=◌, length, length-append, take, drop, replicate,
  length-replicate, take-length-append, drop-length-append, leb, ltb, ◌&&◌, if◌then◌else◌,
  Bool-cases, inl, inr, arith,
}
use gssproxy.Xdr.{Xdr, IsXdr}

put : ℕ → List ℕ → List ℕ → Option (List ℕ)
put cap out chunk = if leb (length out + length chunk) cap then some (out ++ chunk) else none

u_int : ℕ → List ℕ
u_int n = (n / 2 ^ 24 % 256) ∷ (n / 2 ^ 16 % 256) ∷ (n / 2 ^ 8 % 256) ∷ (n % 256) ∷ []

get_u_int : List ℕ → Option (ℕ × List ℕ)
get_u_int (a ∷ b ∷ c ∷ d ∷ rest) = some ((a * 2 ^ 24 + b * 2 ^ 16 + c * 2 ^ 8 + d) % 2 ^ 32, rest)
get_u_int _ = none

-- The bytes that fill up the last word.
pad : ℕ → ℕ
pad n = (4 - n % 4) % 4

padded : List ℕ → List ℕ
unfolding pad
padded b = b ++ replicate (pad (length b)) 0

get_padded : ℕ → List ℕ → Option (List ℕ × List ℕ)
unfolding pad
get_padded n inp =
    if leb (n + pad n) (length inp) then some (take n inp, drop (n + pad n) inp) else none

bytes : ℕ → List ℕ → Option (List ℕ)
unfolding u_int padded
bytes max b =
    if leb (length b) max && ltb (length b) (2 ^ 32)
    then some (u_int (length b) ++ padded b)
    else none

get_bytes : ℕ → List ℕ → Option (List ℕ × List ℕ)
unfolding get_u_int get_padded
get_bytes max inp = do (n, rest) ← get_u_int inp; if leb n max then get_padded n rest else none

unfoldable pub rfc4506 : Xdr
unfolding put u_int padded bytes get_u_int get_bytes get_padded
rfc4506 = record {
  put = put;
  u_int = u_int;
  enum = u_int;
  bytes = bytes;
  opaque = padded;
  get_u_int = get_u_int;
  get_enum = get_u_int;
  get_bytes = get_bytes;
  get_opaque = get_padded;
}

get_u_int-u_int :
    (n : ℕ) (rest : List ℕ) → n < 2 ^ 32 → get_u_int (u_int n ++ rest) ≡ some (n, rest)
unfolding get_u_int u_int
get_u_int-u_int n rest small = ground arith

get_padded-padded : (b rest : List ℕ) → get_padded (length b) (padded b ++ rest) ≡ some (b, rest)
unfolding get_padded padded
get_padded-padded b rest = rw fits (
    ap₂ (λ u v. some (u, v))
      (ap (take (length b)) (append_assoc b zeros rest) ∙ take-length-append b (zeros ++ rest))
      (ap (λ k. drop k (padded b ++ rest)) (sym len) ∙ drop-length-append (padded b) rest))
  where
    zeros : List ℕ
    zeros = replicate (pad (length b)) 0

    len : length (padded b) ≡ length b + pad (length b)
    len = omega (arith, length-append b zeros, length-replicate {A = ℕ} (pad (length b)) 0)

    fits : leb (length b + pad (length b)) (length (padded b ++ rest)) ≡ true
    fits = le→leb _ _ (omega (arith, length-append (padded b) rest, len))

get_bytes-read :
    (max : ℕ) (b rest : List ℕ)
    → length b ≤ max
    → length b < 2 ^ 32
    → get_bytes max (u_int (length b) ++ (padded b ++ rest)) ≡ some (b, rest)
unfolding get_bytes
get_bytes-read max b rest short small =
    rw (get_u_int-u_int (length b) (padded b ++ rest) small, le→leb (length b) max short)
      (get_padded-padded b rest)

get_bytes-bytes :
    (max : ℕ) (b chunk rest : List ℕ)
    → bytes max b ≡ some chunk
    → get_bytes max (chunk ++ rest) ≡ some (b, rest)
unfolding bytes
get_bytes-bytes max b chunk rest h =
    elim (Bool-cases (leb (length b) max && ltb (length b) (2 ^ 32))) [
      | inl e ↦
          let same : u_int (length b) ++ padded b ≡ chunk = (let h' = rw e at h in cc) in
          ap (λ c. get_bytes max (c ++ rest)) (sym same)
          ∙ ap (get_bytes max) (append_assoc (u_int (length b)) (padded b) rest)
          ∙ get_bytes-read max b rest (ground arith) (ground arith)
      | inr e ↦ let h' = rw e at h in cc
    ]

get_u_int-lt : (inp : List ℕ) {n : ℕ} {rest : List ℕ} → get_u_int inp ≡ some (n, rest) → n < 2 ^ 32
unfolding get_u_int
get_u_int-lt [] h = cc
get_u_int-lt (a ∷ []) h = cc
get_u_int-lt (a ∷ b ∷ []) h = cc
get_u_int-lt (a ∷ b ∷ c ∷ []) h = cc
get_u_int-lt (a ∷ b ∷ c ∷ d ∷ rest) h = ground arith

get_padded-nil : (rest : List ℕ) → get_padded 0 rest ≡ some ([], rest)
unfolding get_padded padded
get_padded-nil rest = ground arith

pub rfc4506-IsXdr : IsXdr rfc4506
unfolding rfc4506
rfc4506-IsXdr = record {
  put_lem = λ cap out chunk. refl;
  length-u_int = λ n. refl;
  length-enum = λ n. refl;
  get_u_int-u_int = get_u_int-u_int;
  get_enum-enum = get_u_int-u_int;
  get_bytes-bytes = get_bytes-bytes;
  get_u_int-lt = get_u_int-lt;
  bytes-nil = λ max. ground arith;
  opaque-nil = refl;
  get_opaque-nil = get_padded-nil;
}
