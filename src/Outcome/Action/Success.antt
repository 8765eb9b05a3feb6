-- ===== src/Outcome/Action/Success.antt =====
-- What holds of the value and of the state when a function has returned.
use quartz_database_c.Prelude.{◌≡◌, refl, ap, Bool, true, false}
use quartz_database_c.Status.{Status, Code}
use quartz_database_c.Outcome.{Outcome, returned, failed, thrown, endless, of_status}
use quartz_database_c.Outcome.Action.Invariant.{Keeps}
use quartz_database_c.Outcome.Action.{
  Action, resume, ◌>>=◌, ◌>>◌, pure, reads, gets, modify, perform, fail, fail_if, branch,
}

pub record Ensures {S A : Type 0} (s : S) (m : Action S A) (R : A → S → Type 0) : Type 0 where
  pub holds : (a : A) → (m s).0 ≡ returned a → R a (m s).1

module _ {S A B : Type 0} {R : B → S → Type 0} where
  went_on :
      (rest : A → Action S B) (o : Outcome A) (s : S)
      → ((a : A) → o ≡ returned a → Ensures s (rest a) R)
      → (b : B) → (resume rest o s).0 ≡ returned b
      → R b (resume rest o s).1
  unfolding resume
  went_on rest (returned a) s k b h = (k a refl).holds b h
  went_on rest (failed c) s k b h = cc
  went_on rest thrown s k b h = cc
  went_on rest endless s k b h = cc

  pub ensures-bind :
      {s : S} {m : Action S A} {rest : A → Action S B}
      → Ensures s m (λ a s'. Ensures s' (rest a) R)
      → Ensures s (m >>= rest) R
  unfolding ◌>>=◌
  ensures-bind {s} {m} {rest} h = record { holds = went_on rest (m s).0 (m s).1 h.holds }

  pub ensures-seq :
      {s : S} {m : Action S A} {rest : Action S B}
      → Ensures s m (λ a s'. Ensures s' rest R)
      → Ensures s (m >> rest) R
  unfolding ◌>>◌
  ensures-seq {s} {m} {rest} h = record { holds = went_on (λ _. rest) (m s).0 (m s).1 h.holds }

module _ {S A : Type 0} {R : A → S → Type 0} where
  pub ensures-reads :
      {s : S} (f : S → Outcome A) → ((a : A) → f s ≡ returned a → R a s) → Ensures s (reads f) R
  unfolding reads
  ensures-reads f h = record { holds = h }

  pub ensures-gets : {s : S} (f : S → A) → R (f s) s → Ensures s (gets f) R
  unfolding gets
  ensures-gets {s} f h = record {
    holds = λ a e. let same : f s ≡ a = returned_value e in rw same at h;
  }
    where
      returned_value : {a b : A} → returned a ≡ returned b → a ≡ b
      returned_value e = cc

module _ {S : Type 0} {R : Unit {0} → S → Type 0} where
  pub ensures-perform :
      {s : S} (f : S → S × Status)
      → (of_status (f s).1 ≡ returned tt → R tt (f s).0)
      → Ensures s (perform f) R
  unfolding perform
  ensures-perform f h = record { holds = λ a e. h e }

  pub ensures-modify : {s : S} (f : S → S) → R tt (f s) → Ensures s (modify f) R
  unfolding modify
  ensures-modify f h = record { holds = λ a e. h }

module _ {S A : Type 0} {R : A → S → Type 0} where
  pub ensured :
      {s s' : S} {m : Action S A} {a : A} → Ensures s m R → m s ≡ (returned a, s') → R a s'
  ensured {s} {s'} {m} {a} h e = let r = h.holds a (ap (λ p. p.0) e) in rw (ap (λ p. p.1) e) at r

module _ {S A : Type 0} {R : A → S → Type 0} where
  pub ensures-pure : {s : S} (a : A) → R a s → Ensures s (pure a) R
  unfolding pure
  ensures-pure {s} a r = record {
    holds = λ b e. let same : a ≡ b = returned_value e in rw same at r;
  }
    where
      returned_value : {a b : A} → returned a ≡ returned b → a ≡ b
      returned_value e = cc

  -- A call that keeps an invariant.
  pub ensures_keeping :
      {P : S → Type 0} {Q : A → Type 0} {s : S} {m : Action S A}
      → Keeps P Q m
      → P s
      → ((a : A) (s' : S) → P s' → R a s')
      → Ensures s m R
  ensures_keeping {P} {Q} {s} {m} k p r = record { holds = λ a e. r a (m s).1 (k.holds s p).0 }

module _ {S : Type 0} {R : Unit {0} → S → Type 0} where
  pub ensures-fail_if :
      {s : S} (b : Bool) (c : Code) → (b ≡ false → R tt s) → Ensures s (fail_if b c) R
  unfolding fail_if
  ensures-fail_if true c r = record { holds = λ a e. cc }
  ensures-fail_if false c r = record { holds = λ a e. r refl }

module _ {S A : Type 0} {R R' : A → S → Type 0} where
  pub ensures_weaken :
      {s : S} {m : Action S A}
      → Ensures s m R
      → ((a : A) (s' : S) → R a s' → R' a s')
      → Ensures s m R'
  ensures_weaken {s} {m} h k = record { holds = λ a e. k a (m s).1 (h.holds a e) }

module _ {S A : Type 0} {R : A → S → Type 0} where
  pub ensures_known : {s : S} {m : Action S A} → ((a : A) (s' : S) → R a s') → Ensures s m R
  ensures_known {s} {m} k = record { holds = λ a e. k a (m s).1 }

  pub ensures_or_fail :
      {s : S} {m : Action S A} (b : Bool) (c : Code)
      → Ensures s m R
      → Ensures s (branch b m (fail c)) R
  unfolding branch fail
  ensures_or_fail true c h = h
  ensures_or_fail false c h = record { holds = λ a e. cc }
