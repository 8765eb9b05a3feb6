-- ===== src/Outcome/Action/Invariant.antt =====
-- Invariants of a state that calls keep, however they end, with what holds of the value that is returned.
use quartz_database_c.Prelude.{Bool, true, false}
use quartz_database_c.Status.{Code, Status}
use quartz_database_c.Outcome.{Outcome, returned, failed, thrown, endless, of_status}
use quartz_database_c.Outcome.Action.{
  Action, resume, ◌>>=◌, ◌>>◌, pure, reads, gets, modify, perform, fail_if, branch,
}

abbrev pub Gives : {A : Type 0} → (A → Type 0) → Outcome A → Type 0
Gives Q (returned a) = Q a
Gives Q (failed c) = Unit {0}
Gives Q thrown = Unit {0}
Gives Q endless = Unit {0}

abbrev pub Any : {A : Type 0} → A → Type 0
Any a = Unit {0}

pub record Keeps {S A : Type 0} (P : S → Type 0) (Q : A → Type 0) (m : Action S A) : Type 0 where
  pub holds : (s : S) → P s → P (m s).1 × Gives Q (m s).0

module _ {S A B : Type 0} {P : S → Type 0} {Q : A → Type 0} {R : B → Type 0} where
  resumed :
      (rest : A → Action S B)
      → ((a : A) → Q a → Keeps P R (rest a))
      → (o : Outcome A) (s : S) → P s
      → Gives Q o
      → P (resume rest o s).1 × Gives R (resume rest o s).0
  unfolding resume
  resumed rest k (returned a) s p q = (k a q).holds s p
  resumed rest k (failed c) s p q = (p, tt)
  resumed rest k thrown s p q = (p, tt)
  resumed rest k endless s p q = (p, tt)

  pub bind :
      {m : Action S A} {rest : A → Action S B}
      → Keeps P Q m
      → ((a : A) → Q a → Keeps P R (rest a))
      → Keeps P R (m >>= rest)
  unfolding ◌>>=◌
  bind {m} {rest} h k = record {
    holds = λ s p. resumed rest k (m s).0 (m s).1 (h.holds s p).0 (h.holds s p).1;
  }

  pub seq :
      {m : Action S A} {rest : Action S B} → Keeps P Q m → Keeps P R rest → Keeps P R (m >> rest)
  unfolding ◌>>◌
  seq {m} {rest} h k = record {
    holds = λ s p. resumed (λ a. rest) (λ a q. k) (m s).0 (m s).1 (h.holds s p).0 (h.holds s p).1;
  }

pub every_outcome : {A : Type 0} (o : Outcome A) → Gives Any o
every_outcome (returned a) = tt
every_outcome (failed c) = tt
every_outcome thrown = tt
every_outcome endless = tt

module _ {S : Type 0} {P : S → Type 0} where
  pub pure-Keeps : {A : Type 0} {Q : A → Type 0} (a : A) → Q a → Keeps P Q (pure a)
  unfolding pure
  pure-Keeps a q = record { holds = λ s p. (p, q) }

  pub reads-Keeps :
      {A : Type 0} {Q : A → Type 0} (f : S → Outcome A)
      → ((s : S) → P s → Gives Q (f s))
      → Keeps P Q (reads f)
  unfolding reads
  reads-Keeps f q = record { holds = λ s p. (p, q s p) }

  pub reads_only : {A : Type 0} (f : S → Outcome A) → Keeps P Any (reads f)
  unfolding reads
  reads_only f = record { holds = λ s p. (p, every_outcome (f s)) }

  pub gets-Keeps : {A : Type 0} (f : S → A) → Keeps P Any (gets f)
  unfolding gets
  gets-Keeps f = record { holds = λ s p. (p, tt) }

  pub modify-Keeps : (f : S → S) → ((s : S) → P s → P (f s)) → Keeps P Any (modify f)
  unfolding modify
  modify-Keeps f h = record { holds = λ s p. (h s p, tt) }

  pub perform-Keeps : (f : S → S × Status) → ((s : S) → P s → P (f s).0) → Keeps P Any (perform f)
  unfolding perform
  perform-Keeps f h = record { holds = λ s p. (h s p, every_outcome (of_status (f s).1)) }

  pub fail_if-Keeps : (b : Bool) (c : Code) → Keeps P Any (fail_if b c)
  unfolding fail_if
  fail_if-Keeps true c = record { holds = λ s p. (p, tt) }
  fail_if-Keeps false c = record { holds = λ s p. (p, tt) }

  pub branch-Keeps :
      {A : Type 0} {Q : A → Type 0} {m k : Action S A} (b : Bool)
      → Keeps P Q m
      → Keeps P Q k
      → Keeps P Q (branch b m k)
  unfolding branch
  branch-Keeps true h j = h
  branch-Keeps false h j = j
