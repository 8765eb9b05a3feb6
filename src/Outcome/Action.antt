-- ===== src/Outcome/Action.antt =====
-- Calls that change a state of type `S`; what a call has written stays written however it ends.
pub mod Invariant
pub mod Success
pub mod Ending
use quartz_database_c.Prelude.{Bool, true, false}
use quartz_database_c.Status.{Code, Status, Result, ok, err}
use quartz_database_c.Outcome.{Outcome, returned, failed, thrown, endless, of_status}

abbrev pub Action : Type 0 → Type 0 → Type 0
Action S A = S → Outcome A × S

-- The rest of a function after a call in it.
unfoldable pub resume : {S A B : Type 0} → (A → Action S B) → Outcome A → Action S B
resume rest (returned value) s = rest value s
resume rest (failed c) s = (failed c, s)
resume rest thrown s = (thrown, s)
resume rest endless s = (endless, s)

module _ {S A B : Type 0} where
  infixl 5 ◌>>=◌
  unfoldable pub ◌>>=◌ : Action S A → (A → Action S B) → Action S B
  ◌>>=◌ m rest s = let (o, s') = m s in resume rest o s'

  infixl 5 ◌>>◌
  unfoldable pub ◌>>◌ : Action S A → Action S B → Action S B
  ◌>>◌ m rest s = let (o, s') = m s in resume (λ _. rest) o s'

module _ {S : Type 0} where
  unfoldable pub pure : {A : Type 0} → A → Action S A
  pure value s = (returned value, s)

  -- A call that only reads.
  unfoldable pub reads : {A : Type 0} → (S → Outcome A) → Action S A
  reads f s = (f s, s)

  unfoldable pub gets : {A : Type 0} → (S → A) → Action S A
  gets f s = (returned (f s), s)

  unfoldable pub modify : (S → S) → Action S (Unit {0})
  modify f s = (returned tt, f s)

  -- A call that returns a status, `if (!st.ok()) return st;` after it.
  unfoldable pub perform : (S → S × Status) → Action S (Unit {0})
  perform f s = let (s', st) = f s in (of_status st, s')

  unfoldable pub fail : {A : Type 0} → Code → Action S A
  fail c s = (failed c, s)

  unfoldable pub fail_if : Bool → Code → Action S (Unit {0})
  fail_if true c s = (failed c, s)
  fail_if false c s = (returned tt, s)

  -- A branch between calls.
  unfoldable pub branch : {A : Type 0} → Bool → Action S A → Action S A → Action S A
  branch true m k = m
  branch false m k = k

-- A call on a part of the state.
unfoldable pub within : {S T A : Type 0} → (S → T) → (T → S → S) → Action T A → Action S A
within get put m s = let (o, t) = m (get s) in (o, put t s)

caught : {A : Type 0} → Outcome A → Outcome (Result A)
caught (returned value) = returned (ok value)
caught (failed c) = returned (err c)
caught thrown = thrown
caught endless = endless

-- A call whose status the caller looks at.
unfoldable pub attempt : {S A : Type 0} → Action S A → Action S (Result A)
unfolding caught
attempt m s = let (o, s') = m s in (caught o, s')
