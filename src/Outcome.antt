-- ===== src/Outcome.antt =====
-- How a call of code that works on shared objects ends, and the calls themselves: a status other than
-- success, an exception of the standard library (`vector::at`, `unordered_map::at`), or a loop that does
-- not end in the steps it is given.
pub mod Action
use quartz_database_c.Prelude.{ℕ, Option, none, some, List, get_elem?}
use quartz_database_c.Status.{Code, Result, Status, ok, err}

pub data Outcome {ℓ} (A : Type ℓ) : Type ℓ where
  returned : A → Outcome A
  failed : Code → Outcome A
  thrown endless : Outcome A

module _ {ℓ κ} {A : Type ℓ} {B : Type κ} where
  infixl 5 ◌>>=◌
  abbrev pub ◌>>=◌ : Outcome A → (A → Outcome B) → Outcome B
  thrown >>= rest = thrown
  endless >>= rest = endless
  failed c >>= rest = failed c
  returned value >>= rest = rest value

module _ {ℓ} {A : Type ℓ} where
  -- `vector::at` and `unordered_map::at`.
  abbrev pub or_throw : Option A → Outcome A
  or_throw none = thrown
  or_throw (some value) = returned value

  abbrev pub at : List A → ℕ → Outcome A
  at xs index = or_throw (get_elem? xs index)

abbrev pub of_status : Status → Outcome (Unit {0})
of_status (ok value) = returned tt
of_status (err c) = failed c
