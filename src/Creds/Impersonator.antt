-- ===== src/Creds/Impersonator.antt =====
-- A buffer that holds a string of C up to its NUL or to its end, and the comparison of such strings with
-- a displayed name in src/gp_creds.c, which is equality.
use gssproxy.Prelude.{
  sym, ◌≢◌, ◌++◌, ℕ, ◌≡◌, refl, List, [], ◌∷◌, Bool, true, length, ◌==◌, ==→eq, ne→==, Bool-cases,
  inl, inr, arith, subst,
}
use gssproxy.Creds.Options.{same_chars}
use gssproxy.Creds.Pieces.{IsString, string-nil, string-cons}
use gssproxy.Creds.Allowed.{until_nul, same_name}
use gssproxy.Gss.Api.{Gss}

-- The string in a buffer, which ends at the first NUL, or where the buffer ends.
pub data UpToNul : List ℕ → List ℕ → Type 0 where
  whole : {s : List ℕ} → IsString s → UpToNul s s
  cut : {s : List ℕ} (rest : List ℕ) → IsString s → UpToNul (s ++ 0 ∷ rest) s

pub UpToNul-IsString : {buf s : List ℕ} → UpToNul buf s → IsString s
UpToNul-IsString (whole string) = string
UpToNul-IsString (cut rest string) = string

UpToNul-cons : {buf s : List ℕ} {c : ℕ} → c ≢ 0 → UpToNul buf s → UpToNul (c ∷ buf) (c ∷ s)
UpToNul-cons byte (whole string) = whole (string-cons byte string)
UpToNul-cons byte (cut rest string) = cut rest (string-cons byte string)

pub until_nul-UpToNul : (buf : List ℕ) → UpToNul buf (until_nul buf)
unfolding until_nul
until_nul-UpToNul [] = whole string-nil
until_nul-UpToNul (c ∷ cs) = elim (Bool-cases (c == 0)) [
  | inl nul ↦ rw nul (subst (λ d. UpToNul (d ∷ cs) []) (sym (==→eq c 0 nul)) (cut cs string-nil))
  | inr byte ↦ rw byte (UpToNul-cons (λ e. ground arith) (until_nul-UpToNul cs))
]

same_chars-eq :
    (xs ys : List ℕ)
    → IsString xs
    → length xs ≡ length ys
    → same_chars (length ys) xs ys ≡ true
    → xs ≡ ys
unfolding same_chars
same_chars-eq [] [] string-nil size h = refl
same_chars-eq [] (d ∷ ds) string-nil size h = absurd (omega (arith, size))
same_chars-eq (c ∷ cs) [] (string-cons byte rest) size h = absurd (omega (arith, size))
same_chars-eq (c ∷ cs) (d ∷ ds) (string-cons byte rest) size h = elim (Bool-cases (c == d)) [
  | inl same ↦
      let h' = rw (same, ne→== c 0 byte) at h in
      let e = same_chars-eq cs ds rest (omega (arith, size)) h' in let e' = ==→eq c d same in cc
  | inr differ ↦ let h' = rw differ at h in cc
]

module _ {W Name Cred : Type 0} (gss : Gss W Name Cred) (malloc : ℕ → Bool) where
  pub same_name-eq :
      (impersonator buf : List ℕ)
      → IsString impersonator
      → same_name gss malloc impersonator buf ≡ true
      → impersonator ≡ buf
  unfolding same_name
  same_name-eq impersonator buf string_imp h =
      same_chars-eq impersonator buf string_imp (ground arith) (ground arith)
