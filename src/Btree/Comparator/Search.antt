-- ===== src/Btree/Comparator/Search.antt =====
-- What the searches of KeyComparator.h find in sorted keys.
use quartz_database_c.Prelude.{
  ℕ, zero, suc, ◌+◌, ◌-◌, ◌/◌, ◌≤◌, ◌≡◌, ◌⊎◌, inl, inr, Bool, true, false, not, List, [], ◌∷◌,
  length, ltb, if◌then◌else◌, All, arith, refl, Bool-cases, ltb→lt,
}
use quartz_database_c.Btree.Key.{Key, less, less_equal}
use quartz_database_c.Btree.Key.Order.{less_equal-less, less_equal-not}
use quartz_database_c.Btree.Comparator.{test_at, search, lower_bound, upper_bound}

-- Ascending, with equal keys allowed.
abbrev pub IsSorted : List Key → Type 0
IsSorted [] = Unit {0}
IsSorted (k ∷ ks) = All (λ j. less_equal k j ≡ true) ks × IsSorted ks

search-eq :
    (fuel : ℕ) (test : Key → Bool) (keys : List Key) (at lo hi : ℕ)
    → ((i : ℕ) → test_at test keys i ≡ ltb i at)
    → lo ≤ at
    → at ≤ hi
    → hi ≤ fuel + lo
    → search fuel test keys lo hi ≡ at
unfolding search
search-eq zero test keys at lo hi s l h f = omega arith
search-eq (suc fuel) test keys at lo hi s l h f = elim (Bool-cases (ltb lo hi)) [
  | inr done ↦ let stop : hi ≤ lo = ground arith in rw done (omega arith)
  | inl more ↦ elim (Bool-cases (ltb (lo + (hi - lo) / 2) at)) [
    | inl after ↦
        rw (more, s (lo + (hi - lo) / 2), after)
          (search-eq fuel test keys at (lo + (hi - lo) / 2 + 1) hi s (ground arith) h (omega arith))
    | inr before ↦
        rw (more, s (lo + (hi - lo) / 2), before)
          (search-eq fuel test keys at lo (lo + (hi - lo) / 2) s l (ground arith)
            (omega (arith, ltb→lt lo hi more)))
  ]
]

-- How many keys at the front pass the test.
leading : (Key → Bool) → List Key → ℕ
leading test [] = 0
leading test (k ∷ ks) = if test k then suc (leading test ks) else 0

leading-le : (test : Key → Bool) (keys : List Key) → leading test keys ≤ length keys
unfolding leading
leading-le test [] = omega arith
leading-le test (k ∷ ks) = ground (arith, leading-le test ks)

none_at :
    (test : Key → Bool) (keys : List Key) (i : ℕ)
    → All (λ j. test j ≡ false) keys
    → test_at test keys i ≡ false
none_at test [] i h = refl
none_at test (k ∷ ks) zero h = h.0
none_at test (k ∷ ks) (suc i) h = none_at test ks i h.1

-- After a key that fails the test, all do.
abbrev Falls : (Key → Bool) → List Key → Type 0
Falls test [] = Unit {0}
Falls test (k ∷ ks) = ((test k ≡ true) ⊎ All (λ j. test j ≡ false) ks) × Falls test ks

leading-at :
    (test : Key → Bool) (keys : List Key)
    → Falls test keys
    → (i : ℕ) → test_at test keys i ≡ ltb i (leading test keys)
unfolding leading
leading-at test [] f i = ground arith
leading-at test (k ∷ ks) f zero = elim (Bool-cases (test k)) [
  | inl passes ↦ rw passes (ground arith)
  | inr fails ↦ rw fails (ground arith)
]
leading-at test (k ∷ ks) f (suc i) = elim f.0 [
  | inl passes ↦ rw passes (ground (arith, leading-at test ks f.1 i))
  | inr others ↦ elim (Bool-cases (test k)) [
    | inl passes ↦ rw passes (ground (arith, leading-at test ks f.1 i))
    | inr fails ↦ rw fails (ground (arith, none_at test ks i others))
  ]
]

-- The two tests of the searches fall in sorted keys.
All-map : {P Q : Key → Type 0} (f : (j : Key) → P j → Q j) (ks : List Key) → All P ks → All Q ks
All-map f [] h = tt
All-map f (k ∷ ks) h = (f k h.0, All-map f ks h.1)

true-false : {b : Bool} → b ≡ true → b ≡ false → ⊥
true-false h k = cc

not-false : (b : Bool) → not b ≡ false → b ≡ true
not-false true h = refl
not-false false h = cc

less_after : (key k j : Key) → less_equal k j ≡ true → less k key ≡ false → less j key ≡ false
less_after key k j h l = elim (Bool-cases (less j key)) [
  | inl q ↦ absurd (true-false (less_equal-less k j key h q) l)
  | inr q ↦ q
]

less_equal_after :
    (key k j : Key) → less_equal k j ≡ true → less_equal k key ≡ false → less_equal j key ≡ false
less_equal_after key k j h l = elim (Bool-cases (less_equal j key)) [
  | inl q ↦
      let later : less key k ≡ true = not-false (less key k) (rw (less_equal-not k key) at l) in
      absurd (true-false h (rw (less_equal-not k j, less_equal-less j key k q later) refl))
  | inr q ↦ q
]

less-Falls : (key : Key) (keys : List Key) → IsSorted keys → Falls (λ k. less k key) keys
less-Falls key [] s = tt
less-Falls key (k ∷ ks) s = (
  elim (Bool-cases (less k key)) [
    | inl passes ↦ inl passes
    | inr fails ↦ inr (All-map (λ j h. less_after key k j h fails) ks s.0)
  ],
  less-Falls key ks s.1,
)

less_equal-Falls :
    (key : Key) (keys : List Key) → IsSorted keys → Falls (λ k. less_equal k key) keys
less_equal-Falls key [] s = tt
less_equal-Falls key (k ∷ ks) s = (
  elim (Bool-cases (less_equal k key)) [
    | inl passes ↦ inl passes
    | inr fails ↦ inr (All-map (λ j h. less_equal_after key k j h fails) ks s.0)
  ],
  less_equal-Falls key ks s.1,
)

search-Falls :
    (test : Key → Bool) (keys : List Key)
    → Falls test keys
    → search (length keys) test keys 0 (length keys) ≡ leading test keys
search-Falls test keys f =
    search-eq (length keys) test keys (leading test keys) 0 (length keys) (leading-at test keys f)
      (omega arith) (leading-le test keys) (omega arith)

-- In sorted keys, `lowerBound` gives the number of the keys that are less than the key: the keys before
-- that index are less, and no later one is.
pub lower_bound-test_at :
    (keys : List Key) (key : Key)
    → IsSorted keys
    → (lower_bound keys key ≤ length keys)
      × ((i : ℕ) → test_at (λ k. less k key) keys i ≡ ltb i (lower_bound keys key))
unfolding lower_bound
lower_bound-test_at keys key s =
    let falls = less-Falls key keys s in
    rw (search-Falls (λ k. less k key) keys falls)
      (leading-le (λ k. less k key) keys, leading-at (λ k. less k key) keys falls)

-- In sorted keys, `upperBound` does the same for the keys that are less than the key or equal to it.
pub upper_bound-test_at :
    (keys : List Key) (key : Key)
    → IsSorted keys
    → (upper_bound keys key ≤ length keys)
      × ((i : ℕ) → test_at (λ k. less_equal k key) keys i ≡ ltb i (upper_bound keys key))
unfolding upper_bound
upper_bound-test_at keys key s =
    let falls = less_equal-Falls key keys s in
    rw (search-Falls (λ k. less_equal k key) keys falls)
      (leading-le (λ k. less_equal k key) keys, leading-at (λ k. less_equal k key) keys falls)
