-- ===== src/Btree/Tree/Update/Changed.antt =====
-- What a leaf and a tree hold after an insertion into a leaf with room, as pairs of a key and a reference
-- (BTree.cpp).
use quartz_database_c.Prelude.{
  ℕ, zero, suc, ◌≡◌, ◌⊎◌, inl, inr, false, Option, none, some, List, [], ◌∷◌, length, insert_at,
  get_elem?, ◌==◌, arith, refl, ◌∙◌, sym, ap, Bool-cases, Option-cases, ==→eq,
}
use quartz_database_c.Status.{Code}
use quartz_database_c.Outcome.{Outcome, returned, failed, thrown, endless, of_status}
use quartz_database_c.Format.{PageReference, is_valid}
use quartz_database_c.Btree.Key.{Key}
use quartz_database_c.Btree.Comparator.{lower_bound}
use quartz_database_c.Btree.Leaf
use quartz_database_c.Btree.Leaf.{LeafNode}
use quartz_database_c.Btree.Leaf.Entries.{sync_entries-kept}
use quartz_database_c.Btree.Path.{SearchPath}
use quartz_database_c.Btree.Tree.{BTree, lookup, replace, leaf, internal, is_leaf}
use quartz_database_c.Btree.Tree.Search.{Place, place_in, descend_from}
use quartz_database_c.Btree.Tree.Search.Entry.{Entry, in_leaf, in_child}
use quartz_database_c.Btree.Rebalance.Leaves.{lookup-replace_same, lookup-replace_other}

-- A key and a reference at one index.
abbrev IsPair : List Key → List PageReference → Key → PageReference → Type 0
IsPair ks rs k r = (j : ℕ) × (get_elem? ks j ≡ some k) × (get_elem? rs j ≡ some r)

module _ (x : Key) (v : PageReference) (k : Key) (r : PageReference) where
  old_or_new :
      (p : ℕ) (ks : List Key) (rs : List PageReference) (j : ℕ)
      → length rs ≡ length ks
      → get_elem? (insert_at ks p x) j ≡ some k
      → get_elem? (insert_at rs p v) j ≡ some r
      → IsPair ks rs k r ⊎ ((k ≡ x) × (r ≡ v))
  old_or_new zero ks rs zero l e f = inr (cc, cc)
  old_or_new zero ks rs (suc j) l e f = inl (j, e, f)
  old_or_new (suc p) [] [] zero l e f = inr (cc, cc)
  old_or_new (suc p) [] [] (suc j) l e f = cc
  old_or_new (suc p) [] (b ∷ rs) j l e f = absurd (omega arith)
  old_or_new (suc p) (a ∷ ks) [] j l e f = absurd (omega arith)
  old_or_new (suc p) (a ∷ ks) (b ∷ rs) zero l e f = inl (zero, e, f)
  old_or_new (suc p) (a ∷ ks) (b ∷ rs) (suc j) l e f =
      elim (old_or_new p ks rs j (omega arith) e f) [
        | inl (i, e', f') ↦ inl (suc i, e', f')
        | inr new ↦ inr new
      ]

  old_stays :
      (p : ℕ) (ks : List Key) (rs : List PageReference) (j : ℕ)
      → get_elem? ks j ≡ some k
      → get_elem? rs j ≡ some r
      → IsPair (insert_at ks p x) (insert_at rs p v) k r
  old_stays zero ks rs j e f = (suc j, e, f)
  old_stays (suc p) [] rs j e f = cc
  old_stays (suc p) (a ∷ ks) [] j e f = cc
  old_stays (suc p) (a ∷ ks) (b ∷ rs) zero e f = (zero, e, f)
  old_stays (suc p) (a ∷ ks) (b ∷ rs) (suc j) e f =
      let (i, e', f') = old_stays p ks rs j e f in (suc i, e', f')

pub new_there :
    (x : Key) (v : PageReference) (p : ℕ) (ks : List Key) (rs : List PageReference)
    → length rs ≡ length ks
    → IsPair (insert_at ks p x) (insert_at rs p v) x v
new_there x v zero ks rs l = (zero, refl, refl)
new_there x v (suc p) [] [] l = (zero, refl, refl)
new_there x v (suc p) [] (b ∷ rs) l = absurd (omega arith)
new_there x v (suc p) (a ∷ ks) [] l = absurd (omega arith)
new_there x v (suc p) (a ∷ ks) (b ∷ rs) l =
    let (i, e, f) = new_there x v p ks rs (omega arith) in (suc i, e, f)

pub leaf_inserted :
    (l : LeafNode) (key : Key) (ref : PageReference)
    → of_status (Leaf.insert l key ref).1 ≡ returned tt
    → ((Leaf.insert l key ref).0.keys ≡ insert_at l.keys (lower_bound l.keys key) key)
      × ((Leaf.insert l key ref).0.refs ≡ insert_at l.refs (lower_bound l.keys key) ref)
unfolding Leaf.insert Leaf.with_entries
leaf_inserted l key ref h =
    let pos = lower_bound l.keys key in
    ground (
      arith,
      sync_entries-kept (Leaf.with_entries l (insert_at l.keys pos key) (insert_at l.refs pos ref)),
    )

-- One leaf of a tree is another one now, and nothing else of its pages.
abbrev pub Changed : BTree → ℕ → LeafNode → BTree → Type 0
Changed t id l t' =
    (t'.leaves ≡ replace id l t.leaves) × (t'.internals ≡ t.internals) × (t'.root_id ≡ t.root_id)

pub place_unique : {o : Outcome Place} {a b : Place} → o ≡ returned a → o ≡ returned b → a ≡ b
place_unique h k = cc

pub endless_not : {A : Type 0} {a : A} → endless ≡ returned a → ⊥
endless_not h = cc

pub thrown_not : {A : Type 0} {a : A} → thrown ≡ returned a → ⊥
thrown_not h = cc

pub failed_not : {A : Type 0} {a : A} {c : Code} → failed c ≡ returned a → ⊥
failed_not h = cc

place_eq :
    {id i : ℕ} {path : SearchPath} {place : Place}
    → returned (record { leaf_id = id; index = i; path = path }) ≡ returned place
    → id ≡ place.leaf_id
place_eq h = let e = returned_value h in ap (λ p. p.leaf_id) e
  where
    returned_value : {A : Type 0} {a b : A} → returned a ≡ returned b → a ≡ b
    returned_value k = cc

pub some_eq : {A : Type 0} {a b : A} {o : Option A} → o ≡ some a → o ≡ some b → a ≡ b
some_eq h k = cc

module _ (t t' : BTree) (key : Key) (value : PageReference) (id : ℕ) (l l' : LeafNode)
    (there : lookup id t.leaves ≡ some l) (counts : length l.refs ≡ length l.keys)
    (changed : Changed t id l' t') (ks : l'.keys ≡ insert_at l.keys (lower_bound l.keys key) key)
    (rs : l'.refs ≡ insert_at l.refs (lower_bound l.keys key) value) where
  leaf_now : lookup id t'.leaves ≡ some l'
  leaf_now = rw changed.0 (lookup-replace_same id l l' t.leaves there)

  other_now : (other : ℕ) → (id == other) ≡ false → lookup other t'.leaves ≡ lookup other t.leaves
  other_now other d = rw changed.0 (lookup-replace_other id other l' t.leaves d)

  none_now : (other : ℕ) → lookup other t.leaves ≡ none → lookup other t'.leaves ≡ none
  none_now other h = elim (Bool-cases (id == other)) [
    | inr d ↦ other_now other d ∙ h
    | inl e ↦
        let one : id ≡ other = ==→eq id other e in
        let h' : lookup id t.leaves ≡ none = rw one h in cc
  ]

  none_before : (other : ℕ) → lookup other t'.leaves ≡ none → lookup other t.leaves ≡ none
  none_before other h = elim (Bool-cases (id == other)) [
    | inr d ↦ sym (other_now other d) ∙ h
    | inl e ↦
        let one : id ≡ other = ==→eq id other e in
        let h' : lookup id t'.leaves ≡ none = rw one h in let n = leaf_now in cc
  ]

  pub grown_before :
      (k : Key) (r : PageReference) (page : ℕ)
      → Entry t' k r page
      → Entry t k r page ⊎ ((k ≡ key) × (r ≡ value))
  grown_before k r page (in_leaf _ j m e a b) = elim (Bool-cases (id == page)) [
    | inr d ↦ inl (in_leaf page j m (sym (other_now page d) ∙ e) a b)
    | inl s ↦
        let one : id ≡ page = ==→eq id page s in
        let here : lookup id t'.leaves ≡ some m = rw one e in
        let m_l : m ≡ l' = some_eq here leaf_now in
        let a' : get_elem? (insert_at l.keys (lower_bound l.keys key) key) j ≡ some k =
          ap (λ n. get_elem? n j) (sym (ap (λ n. n.keys) m_l ∙ ks)) ∙ a in
        let b' : get_elem? (insert_at l.refs (lower_bound l.keys key) value) j ≡ some r =
          ap (λ n. get_elem? n j) (sym (ap (λ n. n.refs) m_l ∙ rs)) ∙ b in
        elim (old_or_new key value k r (lower_bound l.keys key) l.keys l.refs j counts a' b') [
          | inl (i, e', f') ↦ inl (rw (sym one) (in_leaf id i l there e' f'))
          | inr new ↦ inr new
        ]
  ]
  grown_before k r page (in_child _ j node child n e c entry) =
      elim (grown_before k r child.page_id entry) [
        | inl old ↦ inl (
            in_child page j node child (none_before page n)
              (sym (ap (λ m. lookup page m) changed.1) ∙ e) c old)
        | inr new ↦ inr new
      ]

  pub pair_now :
      (k : Key) (r : PageReference)
      → IsPair
          (insert_at l.keys (lower_bound l.keys key) key)
          (insert_at l.refs (lower_bound l.keys key) value)
          k
          r
      → Entry t' k r id
  pair_now k r (i, e, f) =
      in_leaf id i l' leaf_now (ap (λ n. get_elem? n i) ks ∙ e) (ap (λ n. get_elem? n i) rs ∙ f)

  pub grown_after : (k : Key) (r : PageReference) (page : ℕ) → Entry t k r page → Entry t' k r page
  grown_after k r page (in_leaf _ j m e a b) = elim (Bool-cases (id == page)) [
    | inr d ↦ in_leaf page j m (other_now page d ∙ e) a b
    | inl s ↦
        let one : id ≡ page = ==→eq id page s in
        let here : lookup id t.leaves ≡ some m = rw one e in
        let m_l : m ≡ l = some_eq here there in
        let a' : get_elem? l.keys j ≡ some k = rw m_l at a in
        let b' : get_elem? l.refs j ≡ some r = rw m_l at b in
        rw (sym one)
          (pair_now k r (old_stays key value k r (lower_bound l.keys key) l.keys l.refs j a' b'))
  ]
  grown_after k r page (in_child _ j node child n e c entry) =
      in_child page j node child (none_now page n) (ap (λ m. lookup page m) changed.1 ∙ e) c
        (grown_after k r child.page_id entry)

  -- What is below the leaf that a descent reaches is below the page that it starts from.
  pub reached :
      (fuel : ℕ) (sought : Key) (page : ℕ) (path : SearchPath) (place : Place) (k : Key)
      (r : PageReference)
      → descend_from fuel t false sought page path ≡ returned place
      → Entry t' k r place.leaf_id
      → Entry t' k r page
  unfolding descend_from place_in is_leaf leaf internal
  reached zero sought page path place k r h entry = elim (Option-cases (lookup page t.leaves)) [
    | inr (m, e) ↦ let same : page ≡ place.leaf_id = place_eq (rw e at h) in rw same entry
    | inl nothing ↦ elim (Option-cases (lookup page t.internals)) [
      | inl missing ↦ absurd (thrown_not (rw (nothing, missing) at h))
      | inr (node, e) ↦ absurd (endless_not (rw (nothing, e) at h))
    ]
  ]
  reached (suc fuel) sought page path place k r h entry =
      elim (Option-cases (lookup page t.leaves)) [
        | inr (m, e) ↦ let same : page ≡ place.leaf_id = place_eq (rw e at h) in rw same entry
        | inl nothing ↦ elim (Option-cases (lookup page t.internals)) [
          | inl missing ↦ absurd (thrown_not (rw (nothing, missing) at h))
          | inr (node, e) ↦
              elim (Option-cases (get_elem? node.children (lower_bound node.keys sought))) [
                | inl outside ↦ absurd (thrown_not (rw (nothing, e, outside) at h))
                | inr (child, c) ↦ elim (Bool-cases (is_valid child)) [
                  | inr invalid ↦ absurd (failed_not (rw (nothing, e, c, invalid) at h))
                  | inl valid ↦
                      in_child page (lower_bound node.keys sought) node child
                        (none_now page nothing) (ap (λ m. lookup page m) changed.1 ∙ e) c
                        (reached fuel sought child.page_id _ place k r
                          (rw (nothing, e, c, valid) at h) entry)
                ]
              ]
        ]
      ]
