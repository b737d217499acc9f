-- ===== src/Creds/Numeral.antt =====
-- Numbers as they are read, for what printf writes in src/gp_creds.c.
use native.Mathlib.Nat.{pow-suc}
use gssproxy.Prelude.{
  ℕ, zero, suc, ◌+◌, ◌*◌, ◌/◌, ◌%◌, ◌^◌, ◌-◌, ◌<◌, ◌≤◌, ◌≡◌, subst, List, [], ◌∷◌, ◌++◌, ltb,
  lt→ltb, true, false, Bool-cases, inl, inr, arith,
}
use gssproxy.Creds.Format.{digits, decimal}

-- The decimal numeral of a number: its digits, the highest first, which is 0 only alone.
pub data IsNumeral : ℕ → List ℕ → Type 0 where
  one_digit : (d : ℕ) → d < 10 → IsNumeral d ((48 + d) ∷ [])
  more_digits :
      (n d : ℕ) (ds : List ℕ)
      → 0 < n
      → d < 10
      → IsNumeral n ds
      → IsNumeral (n * 10 + d) (ds ++ (48 + d) ∷ [])

-- The numeral of the int that has the bits of a number of 32 bits.
pub data IsIntNumeral (n : ℕ) : List ℕ → Type 0 where
  positive : {ds : List ℕ} → n < 2 ^ 31 → IsNumeral n ds → IsIntNumeral n ds
  negative : {ds : List ℕ} → 2 ^ 31 ≤ n → IsNumeral (2 ^ 32 - n) ds → IsIntNumeral n (45 ∷ ds)

pub digits-IsNumeral : (places n : ℕ) → n < 10 ^ suc places → IsNumeral n (digits (suc places) n)
unfolding digits
digits-IsNumeral zero n small =
    let one : ltb n 10 ≡ true = lt→ltb n 10 (omega (arith, small, pow-suc 10 zero)) in
    rw one (one_digit n (ground arith))
digits-IsNumeral (suc places) n small = elim (Bool-cases (ltb n 10)) [
  | inl one ↦ rw one (one_digit n (ground arith))
  | inr more ↦ rw more (
      subst (λ m. IsNumeral m (digits (suc places) (n / 10) ++ (48 + n % 10) ∷ [])) (omega arith)
        (more_digits (n / 10) (n % 10) _ (tenth more) (omega arith)
          (digits-IsNumeral places (n / 10) (omega (arith, small, pow-suc 10 (suc places))))))
]
  where
    tenth : ltb n 10 ≡ false → 0 < n / 10
    tenth more = ground arith

pub decimal-IsIntNumeral : (n : ℕ) → n < 2 ^ 32 → IsIntNumeral n (decimal n)
unfolding decimal
decimal-IsIntNumeral n word = elim (Bool-cases (ltb n (2 ^ 31))) [
  | inl small ↦ rw small (positive (ground arith) (digits-IsNumeral 9 n (omega (arith, word))))
  | inr large ↦
      rw large (negative (ground arith) (digits-IsNumeral 9 (2 ^ 32 - n) (omega (arith, word))))
]
