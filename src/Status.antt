-- ===== src/Status.antt =====
-- include/quartz/common/Status.h: the status that fallible calls return. The message texts are
-- left out; a status and the output parameters of a call together are one `Result`.
use quartz_database_c.Prelude.{◌≡◌, refl, Bool, true, false, ◌⊎◌, inl, inr}

pub data Code : Type 0 where
  invalid_argument io_error corruption out_of_memory unknown : Code

pub data Result {ℓ} (A : Type ℓ) : Type ℓ where
  ok : A → Result A
  err : Code → Result A

abbrev pub Status : Type 0
Status = Result (Unit {0})

abbrev pub success : Status
success = ok tt

-- `Status::ok()`.
abbrev pub is_ok {ℓ} : {A : Type ℓ} → Result A → Bool
is_ok (ok a) = true
is_ok (err c) = false

-- `if (!st.ok()) return st;` before the rest of a function.
module _ {ℓ κ} {A : Type ℓ} {B : Type κ} where
  infixl 5 ◌>>=◌
  abbrev pub ◌>>=◌ : Result A → (A → Result B) → Result B
  err c >>= rest = err c
  ok value >>= rest = rest value

  infixl 5 ◌>>◌
  abbrev pub ◌>>◌ : Result A → Result B → Result B
  err c >> rest = err c
  ok value >> rest = rest

  abbrev pub map_ok : (A → B) → Result A → Result B
  map_ok f (err c) = err c
  map_ok f (ok value) = ok (f value)

pub Result-cases {ℓ} :
    {A : Type ℓ} (r : Result A) → ((a : A) × (r ≡ ok a)) ⊎ ((c : Code) × (r ≡ err c))
Result-cases (ok a) = inl (a, refl)
Result-cases (err c) = inr (c, refl)

-- What was mapped, from the result.
module _ {ℓ κ} {A : Type ℓ} {B : Type κ} where
  pub map_ok-eq-ok :
      (f : A → B) (r : Result A) {y : B} → map_ok f r ≡ ok y → (x : A) × (r ≡ ok x) × (f x ≡ y)
  map_ok-eq-ok f (err c) e = cc
  map_ok-eq-ok f (ok x) e = (x, refl, cc)
