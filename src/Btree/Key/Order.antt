-- ===== src/Btree/Key/Order.antt =====
-- The order of keys in Key.cpp.
use quartz_database_c.Prelude.{
  ℕ, ◌≡◌, ◌↔◌, Bool, true, false, not, ◌&&◌, List, [], ◌∷◌, arith, refl, ap,
}
use quartz_database_c.Btree.Key.{
  Key, from_u32, from_u64, from_binary, Sign, below, same, above, compare_numbers, compare_bytes,
  compare, is_below, is_above, less, less_equal,
}

abbrev pub opposite : Sign → Sign
opposite below = above
opposite same = same
opposite above = below

compare_bytes-opposite : (xs ys : List ℕ) → compare_bytes ys xs ≡ opposite (compare_bytes xs ys)
compare_bytes-opposite [] [] = refl
compare_bytes-opposite [] (y ∷ ys) = refl
compare_bytes-opposite (x ∷ xs) [] = refl
compare_bytes-opposite (x ∷ xs) (y ∷ ys) = ground (arith, compare_bytes-opposite xs ys)

-- Exchanging the two keys turns the result of `compare` round.
pub compare-opposite : (a b : Key) → compare b a ≡ opposite (compare a b)
unfolding compare
compare-opposite (from_u32 v) (from_u32 w) = ground arith
compare-opposite (from_u64 v) (from_u64 w) = ground arith
compare-opposite (from_binary xs) (from_binary ys) = compare_bytes-opposite xs ys
compare-opposite (from_u32 v) (from_u64 w) = refl
compare-opposite (from_u32 v) (from_binary ys) = refl
compare-opposite (from_u64 v) (from_u32 w) = refl
compare-opposite (from_u64 v) (from_binary ys) = refl
compare-opposite (from_binary xs) (from_u32 w) = refl
compare-opposite (from_binary xs) (from_u64 w) = refl

compare_numbers-same : (v w : ℕ) → compare_numbers v w ≡ same → v ≡ w
compare_numbers-same v w h = ground arith

compare_bytes-same : (xs ys : List ℕ) → compare_bytes xs ys ≡ same → xs ≡ ys
compare_bytes-same [] [] h = refl
compare_bytes-same [] (y ∷ ys) h = cc
compare_bytes-same (x ∷ xs) [] h = cc
compare_bytes-same (x ∷ xs) (y ∷ ys) h =
    let here : x ≡ y = ground arith in
    let there : xs ≡ ys = compare_bytes-same xs ys (ground arith) in cc

compare_bytes_self : (xs : List ℕ) → compare_bytes xs xs ≡ same
compare_bytes_self [] = refl
compare_bytes_self (x ∷ xs) = ground (arith, compare_bytes_self xs)

pub compare_self : (a : Key) → compare a a ≡ same
unfolding compare
compare_self (from_u32 v) = ground arith
compare_self (from_u64 v) = ground arith
compare_self (from_binary xs) = compare_bytes_self xs

pub compare-same : (a b : Key) → compare a b ≡ same → a ≡ b
unfolding compare
compare-same (from_u32 v) (from_u32 w) h = ap from_u32 (compare_numbers-same v w h)
compare-same (from_u64 v) (from_u64 w) h = ap from_u64 (compare_numbers-same v w h)
compare-same (from_binary xs) (from_binary ys) h = ap from_binary (compare_bytes-same xs ys h)
compare-same (from_u32 v) (from_u64 w) h = cc
compare-same (from_u32 v) (from_binary ys) h = cc
compare-same (from_u64 v) (from_u32 w) h = cc
compare-same (from_u64 v) (from_binary ys) h = cc
compare-same (from_binary xs) (from_u32 w) h = cc
compare-same (from_binary xs) (from_u64 w) h = cc

compare_bytes_trans :
    (xs ys zs : List ℕ)
    → is_above (compare_bytes xs ys) ≡ false
    → compare_bytes ys zs ≡ below
    → compare_bytes xs zs ≡ below
compare_bytes_trans [] [] [] h k = cc
compare_bytes_trans [] (y ∷ ys) [] h k = cc
compare_bytes_trans [] ys (z ∷ zs) h k = refl
compare_bytes_trans (x ∷ xs) [] zs h k = cc
compare_bytes_trans (x ∷ xs) (y ∷ ys) [] h k = cc
compare_bytes_trans (x ∷ xs) (y ∷ ys) (z ∷ zs) h k = ground (arith, compare_bytes_trans xs ys zs)

-- The order of keys is that of lists of numbers: the type's byte, then the number or the bytes.
code : Key → List ℕ
code (from_u32 v) = 1 ∷ v ∷ []
code (from_u64 v) = 2 ∷ v ∷ []
code (from_binary bytes) = 3 ∷ bytes

compare-code : (a b : Key) → compare a b ≡ compare_bytes (code a) (code b)
unfolding compare code
compare-code (from_u32 v) (from_u32 w) = refl
compare-code (from_u64 v) (from_u64 w) = refl
compare-code (from_binary xs) (from_binary ys) = refl
compare-code (from_u32 v) (from_u64 w) = refl
compare-code (from_u32 v) (from_binary ys) = refl
compare-code (from_u64 v) (from_u32 w) = refl
compare-code (from_u64 v) (from_binary ys) = refl
compare-code (from_binary xs) (from_u32 w) = refl
compare-code (from_binary xs) (from_u64 w) = refl

-- A key that is not above one that is below a third is below the third.
pub compare_trans :
    (a b c : Key) → is_above (compare a b) ≡ false → compare b c ≡ below → compare a c ≡ below
compare_trans a b c h k = rw (compare-code a c) (
    compare_bytes_trans (code a) (code b) (code c) (rw (compare-code a b) at h)
      (rw (compare-code b c) at k))

below_eq : (s : Sign) → is_below s ≡ true → s ≡ below
below_eq below h = refl
below_eq same h = cc
below_eq above h = cc

pub less_equal-less : (a b c : Key) → less_equal a b ≡ true → less b c ≡ true → less a c ≡ true
less_equal-less a b c h k =
    rw (compare_trans a b c (not_true (is_above (compare a b)) h) (below_eq (compare b c) k)) refl
  where
    not_true : (t : Bool) → not t ≡ true → t ≡ false
    not_true true h = cc
    not_true false h = refl

pub less_equal-not : (a b : Key) → less_equal a b ≡ not (less b a)
less_equal-not a b = rw (compare-opposite b a) (turned (compare b a))
  where
    turned : (s : Sign) → not (is_above (opposite s)) ≡ not (is_below s)
    turned below = refl
    turned same = refl
    turned above = refl

chain :
    (s t u : Sign)
    → (is_above s ≡ false → t ≡ below → u ≡ below)
    → (not (is_above s) && is_below t) ≡ (not (is_above s) && is_below t && is_below u)
chain above t u f = refl
chain below below u f = rw (f refl refl) refl
chain below same u f = refl
chain below above u f = refl
chain same below u f = rw (f refl refl) refl
chain same same u f = refl
chain same above u f = refl

-- `compare` is a total order: exchanging the keys turns the result round, only a key itself compares as
-- the same, and the results chain.
pub compare_is_total_order :
    (a b c : Key)
    → (compare b a ≡ opposite (compare a b))
      × ((compare a b ≡ same) ↔ (a ≡ b))
      × ((less_equal a b && less b c) ≡ (less_equal a b && less b c && less a c))
compare_is_total_order a b c = (
  compare-opposite a b,
  (compare-same a b, λ e. rw e (compare_self b)),
  chain (compare a b) (compare b c) (compare a c) (compare_trans a b c),
)
