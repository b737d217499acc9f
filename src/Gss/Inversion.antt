-- ===== src/Gss/Inversion.antt =====
-- Inversion of a chain of calls that succeeds, as the functions of src/gp_creds.c are written.
use gssproxy.Prelude.{◌≡◌, refl, Bool, true, false, if◌then◌else◌, ◌⊎◌, inl, inr}
use gssproxy.Gss.Status.{
  Outcome, done, stop, fault, Run, continue, ◌>>=◌, return, goto_done, Major, Minor,
}

continue-eq-done :
    {W A B : Type 0} (next : A → Run W B) (o : W × Outcome A) {w' : W} {b : B}
    → continue next o ≡ (w', done b)
    → (w₁ : W) × (a : A) × (o ≡ (w₁, done a)) × (next a w₁ ≡ (w', done b))
unfolding continue
continue-eq-done next (w, done a) h = (w, a, refl, h)
continue-eq-done next (w, stop maj min) h = cc
continue-eq-done next (w, fault) h = cc

pub >>=-eq-done :
    {W A B : Type 0} (m : Run W A) (next : A → Run W B) {w w' : W} {b : B}
    → (m >>= next) w ≡ (w', done b)
    → (w₁ : W) × (a : A) × (m w ≡ (w₁, done a)) × (next a w₁ ≡ (w', done b))
unfolding ◌>>=◌
>>=-eq-done m next {w} h = continue-eq-done next (m w) h

-- A test whose other branch ends the work.
pub if-eq-done :
    {W A : Type 0} (b : Bool) (m : Run W A) (maj : Major) (min : Minor) {w w' : W} {a : A}
    → (if b then m else goto_done maj min) w ≡ (w', done a)
    → (b ≡ true) × (m w ≡ (w', done a))
unfolding goto_done
if-eq-done true m maj min h = (refl, h)
if-eq-done false m maj min h = cc

pub unless-eq-done :
    {W A : Type 0} (b : Bool) (m : Run W A) (maj : Major) (min : Minor) {w w' : W} {a : A}
    → (if b then goto_done maj min else m) w ≡ (w', done a)
    → (b ≡ false) × (m w ≡ (w', done a))
unfolding goto_done
unless-eq-done true m maj min h = cc
unless-eq-done false m maj min h = (refl, h)

pub return-eq-done :
    {W A : Type 0} (a : A) {w w' : W} {b : A} → return a w ≡ (w', done b) → (w ≡ w') × (a ≡ b)
unfolding return
return-eq-done a h = (cc, cc)

continue-eq-stop :
    {W A B : Type 0} (next : A → Run W B) (o : W × Outcome A) {w' : W} {maj : Major} {min : Minor}
    → continue next o ≡ (w', stop maj min)
    → (o ≡ (w', stop maj min))
      ⊎ ((w₁ : W) × (a : A) × (o ≡ (w₁, done a)) × (next a w₁ ≡ (w', stop maj min)))
unfolding continue
continue-eq-stop next (w, done a) h = inr (w, a, refl, h)
continue-eq-stop next (w, stop maj min) h = inl cc
continue-eq-stop next (w, fault) h = cc

-- A chain that fails has failed at the first call, or behind it.
pub >>=-eq-stop :
    {W A B : Type 0} (m : Run W A) (next : A → Run W B) {w w' : W} {maj : Major} {min : Minor}
    → (m >>= next) w ≡ (w', stop maj min)
    → (m w ≡ (w', stop maj min))
      ⊎ ((w₁ : W) × (a : A) × (m w ≡ (w₁, done a)) × (next a w₁ ≡ (w', stop maj min)))
unfolding ◌>>=◌
>>=-eq-stop m next {w} h = continue-eq-stop next (m w) h
