-- ===== src/Gss/Status.antt =====
-- The major and minor status of a GSSAPI call, and a chain of calls in which the first error ends the
-- work: `if (ret_maj) goto done`.
use gssproxy.Prelude.{ℕ, Errno}

-- The calls' major statuses that the code tests or returns by name; `other` is any other that is not
-- GSS_S_COMPLETE.
pub data Major : Type 0 where
  complete continue_needed cred_unavail no_cred credentials_expired defective_credential : Major
  failure unavailable unauthorized bad_mech call_inaccessible_write name_not_mn : Major
  other : ℕ → Major

-- ret_min: 0, an error number, or what a library gives.
pub data Minor : Type 0 where
  no_minor cc_notfound minus_one : Minor
  errno : Errno → Minor
  library : ℕ → Minor

-- What a call comes to, in a world that it may change; `fault` is undefined behaviour.
pub data Outcome {ℓ} (A : Type ℓ) : Type ℓ where
  done : A → Outcome A
  stop : Major → Minor → Outcome A
  fault : Outcome A

abbrev pub Run : Type 0 → Type 0 → Type 0
Run W A = W → W × Outcome A

unfoldable pub continue : {W A B : Type 0} → (A → Run W B) → W × Outcome A → W × Outcome B
continue next (w, done a) = next a w
continue next (w, stop maj min) = (w, stop maj min)
continue next (w, fault) = (w, fault)

infixl 20 ◌>>=◌
unfoldable pub ◌>>=◌ : {W A B : Type 0} → Run W A → (A → Run W B) → Run W B
unfolding continue
(m >>= next) w = continue next (m w)

unfoldable pub return : {W A : Type 0} → A → Run W A
return a w = (w, done a)

unfoldable pub goto_done : {W A : Type 0} → Major → Minor → Run W A
goto_done maj min w = (w, stop maj min)
