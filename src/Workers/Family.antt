-- ===== src/Workers/Family.antt =====
-- What each thread holds, as a function of its number: an update at one thread, and sums over the
-- threads of a pool. For src/gp_workers.c.
use gssproxy.Prelude.{
  ℕ, zero, suc, ◌+◌, ◌≤◌, ◌<◌, ◌≡◌, refl, List, [], ◌∷◌, arith, ◌==◌, if◌then◌else◌, Bool-cases,
  inl, inr,
}

abbrev pub update {ℓ} : {A : Type ℓ} → (ℕ → A) → ℕ → A → ℕ → A
update f i a j = if i == j then a else f j

module _ {ℓ} {A : Type ℓ} (weight : A → ℕ) where
  -- The sum over the threads 0 to n - 1.
  unfoldable pub total : ℕ → (ℕ → A) → ℕ
  total zero f = 0
  total (suc n) f = total n f + weight (f n)

  total-update_outside :
      (n : ℕ) (f : ℕ → A) (i : ℕ) (a : A) → n ≤ i → total n (update f i a) ≡ total n f
  unfolding total
  total-update_outside zero f i a h = refl
  total-update_outside (suc n) f i a h = ground (arith, total-update_outside n f i a)

  -- A new value at one thread changes the sum by the difference.
  pub total-update :
      (n : ℕ) (f : ℕ → A) (i : ℕ) (a : A)
      → i < n
      → total n (update f i a) + weight (f i) ≡ total n f + weight a
  unfolding total
  total-update zero f i a h = absurd (omega arith)
  total-update (suc n) f i a h = elim (Bool-cases (n == i)) [
    | inl last ↦ ground (arith, total-update_outside n f i a)
    | inr below ↦ ground (arith, total-update n f i a)
  ]

  pub total-constant : (n : ℕ) (a : A) → weight a ≡ 0 → total n (λ _. a) ≡ 0
  unfolding total
  total-constant zero a h = refl
  total-constant (suc n) a h = omega (arith, total-constant n a h)

  pub total-ge : (n : ℕ) (f : ℕ → A) (i : ℕ) → i < n → weight (f i) ≤ total n f
  unfolding total
  total-ge zero f i h = absurd (omega arith)
  total-ge (suc n) f i h = elim (Bool-cases (n == i)) [
    | inl last ↦ ground arith
    | inr below ↦ ground (arith, total-ge n f i)
  ]

-- Lists of threads: how often a thread stands in one, and the removal of one occurrence.
unfoldable pub count : ℕ → List ℕ → ℕ
count t [] = 0
count t (s ∷ ts) = if s == t then count t ts + 1 else count t ts

-- LIST_DEL of src/gp_common.h
unfoldable pub list_del : List ℕ → ℕ → List ℕ
list_del [] t = []
list_del (s ∷ ts) t = if s == t then ts else s ∷ list_del ts t

-- LIST_ADD
unfoldable pub list_add : List ℕ → ℕ → List ℕ
list_add ts t = t ∷ ts

pub count-head : (t : ℕ) (ts : List ℕ) → 0 < count t (t ∷ ts)
unfolding count
count-head t ts = ground arith

pub count-list_add :
    (u : ℕ) (ts : List ℕ) (t : ℕ)
    → count u (list_add ts t) ≡ (if t == u then count u ts + 1 else count u ts)
unfolding count list_add
count-list_add u ts t = refl

pub count-list_del :
    (u : ℕ) (ts : List ℕ) (t : ℕ)
    → 0 < count t ts
    → count u ts ≡ (if t == u then count u (list_del ts t) + 1 else count u (list_del ts t))
unfolding count list_del
count-list_del u [] t h = absurd (omega arith)
count-list_del u (s ∷ ts) t h = ground (arith, count-list_del u ts t)
