-- ===== src/Outcome/Action/Ending.antt =====
-- How a call ends from a state, with what holds of the state then.
use quartz_database_c.Prelude.{◌≡◌, refl, ap, ◌∙◌, Bool, true, false}
use quartz_database_c.Status.{Status, Code, ok, err}
use quartz_database_c.Outcome.{Outcome, returned, failed, of_status}
use quartz_database_c.Outcome.Action.{
  Action, resume, ◌>>=◌, ◌>>◌, pure, reads, gets, modify, perform, fail, fail_if, branch, within,
  attempt,
}

pub record Ends {S A : Type 0} (s : S) (m : Action S A) (o : Outcome A) (P : S → Type 0)
    : Type 0 where
  pub outcome : (m s).0 ≡ o
  pub after : P (m s).1

module _ {S A B : Type 0} {P Q : S → Type 0} where
  pub ends-bind :
      {s : S} {m : Action S A} {a : A} {o : Outcome B} (rest : A → Action S B)
      → Ends s m (returned a) P
      → ((s' : S) → P s' → Ends s' (rest a) o Q)
      → Ends s (m >>= rest) o Q
  unfolding ◌>>=◌ resume
  ends-bind {s} {m} rest h k =
      let next = k (m s).1 h.after in
      record { outcome = rw h.outcome next.outcome; after = rw h.outcome next.after }

  pub ends-seq :
      {s : S} {m : Action S A} {rest : Action S B} {a : A} {o : Outcome B}
      → Ends s m (returned a) P
      → ((s' : S) → P s' → Ends s' rest o Q)
      → Ends s (m >> rest) o Q
  unfolding ◌>>◌ resume
  ends-seq {s} {m} {rest} {a} h k =
      let next = k (m s).1 h.after in
      record { outcome = rw h.outcome next.outcome; after = rw h.outcome next.after }

module _ {S A B : Type 0} {P : S → Type 0} where
  pub ends-bind_failed :
      {s : S} {m : Action S A} {c : Code} (rest : A → Action S B)
      → Ends s m (failed c) P
      → Ends s (m >>= rest) (failed c) P
  unfolding ◌>>=◌ resume
  ends-bind_failed rest h = record { outcome = rw h.outcome; after = rw h.outcome h.after }

  pub ends-seq_failed :
      {s : S} {m : Action S A} {c : Code} (rest : Action S B)
      → Ends s m (failed c) P
      → Ends s (m >> rest) (failed c) P
  unfolding ◌>>◌ resume
  ends-seq_failed rest h = record { outcome = rw h.outcome; after = rw h.outcome h.after }

module _ {S A : Type 0} {P : S → Type 0} where
  pub ends-pure : {s : S} (a : A) → P s → Ends s (pure a) (returned a) P
  unfolding pure
  ends-pure a p = record { outcome = refl; after = p }

  pub ends-gets : {s : S} (f : S → A) {a : A} → f s ≡ a → P s → Ends s (gets f) (returned a) P
  unfolding gets
  ends-gets f e p = record { outcome = ap returned e; after = p }

  pub ends-reads :
      {s : S} (f : S → Outcome A) {o : Outcome A} → f s ≡ o → P s → Ends s (reads f) o P
  unfolding reads
  ends-reads f e p = record { outcome = e; after = p }

  pub ends-fail : {s : S} (c : Code) → P s → Ends s (fail {A = A} c) (failed c) P
  unfolding fail
  ends-fail c p = record { outcome = refl; after = p }

  pub ends-branch_true :
      {s : S} {o : Outcome A} (b : Bool) (m k : Action S A)
      → b ≡ true
      → Ends s m o P
      → Ends s (branch b m k) o P
  unfolding branch
  ends-branch_true true m k e h = h
  ends-branch_true false m k e h = cc

  pub ends-branch_false :
      {s : S} {o : Outcome A} (b : Bool) (m k : Action S A)
      → b ≡ false
      → Ends s k o P
      → Ends s (branch b m k) o P
  unfolding branch
  ends-branch_false true m k e h = cc
  ends-branch_false false m k e h = h

  pub ends_weaken :
      {Q : S → Type 0} {s : S} {m : Action S A} {o : Outcome A}
      → Ends s m o P
      → ((s' : S) → P s' → Q s')
      → Ends s m o Q
  ends_weaken {s = s} {m = m} h k = record { outcome = h.outcome; after = k (m s).1 h.after }

  pub ends-attempt_returned :
      {s : S} {m : Action S A} {a : A}
      → Ends s m (returned a) P
      → Ends s (attempt m) (returned (ok a)) P
  unfolding attempt
  ends-attempt_returned h = record { outcome = rw h.outcome; after = h.after }

  pub ends-attempt_failed :
      {s : S} {m : Action S A} {c : Code}
      → Ends s m (failed c) P
      → Ends s (attempt m) (returned (err c)) P
  unfolding attempt
  ends-attempt_failed h = record { outcome = rw h.outcome; after = h.after }

module _ {S : Type 0} {P : S → Type 0} where
  pub ends-modify : {s : S} (f : S → S) → P (f s) → Ends s (modify f) (returned tt) P
  unfolding modify
  ends-modify f p = record { outcome = refl; after = p }

  pub ends-perform :
      {s : S} (f : S → S × Status) {o : Outcome (Unit {0})}
      → of_status (f s).1 ≡ o
      → P (f s).0
      → Ends s (perform f) o P
  unfolding perform
  ends-perform f e p = record { outcome = e; after = p }

  pub ends-fail_if_false :
      {s : S} (b : Bool) (c : Code) → b ≡ false → P s → Ends s (fail_if b c) (returned tt) P
  unfolding fail_if
  ends-fail_if_false true c e p = cc
  ends-fail_if_false false c e p = record { outcome = refl; after = p }

  pub ends-fail_if_true :
      {s : S} (b : Bool) (c : Code) → b ≡ true → P s → Ends s (fail_if b c) (failed c) P
  unfolding fail_if
  ends-fail_if_true true c e p = record { outcome = refl; after = p }
  ends-fail_if_true false c e p = cc

pub ends-within :
    {S T A : Type 0} {P : T → Type 0} {Q : S → Type 0} {s : S} (get : S → T) (put : T → S → S)
    {m : Action T A} {o : Outcome A}
    → Ends (get s) m o P
    → ((t : T) → P t → Q (put t s))
    → Ends s (within get put m) o Q
unfolding within
ends-within {s = s} get put {m} h k = record {
  outcome = h.outcome;
  after = k (m (get s)).1 h.after;
}

pub ends_same :
    {S A : Type 0} {P : S → Type 0} {s : S} {m : Action S A} {a b : A}
    → a ≡ b
    → Ends s m (returned a) P
    → Ends s m (returned b) P
ends_same e h = record { outcome = h.outcome ∙ ap returned e; after = h.after }
