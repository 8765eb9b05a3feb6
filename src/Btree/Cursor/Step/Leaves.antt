-- ===== src/Btree/Cursor/Step/Leaves.antt =====
-- Where `advanceToNextLeaf` of Cursor.cpp goes.
use quartz_database_c.Prelude.{
  ℕ, zero, suc, ◌+◌, ◌≤◌, ◌≡◌, true, false, some, List, [], ◌∷◌, length, get_elem?, leb, ◌==◌, All,
  arith, refl, ◌∙◌, ap, take,
}
use quartz_database_c.Outcome.{returned}
use quartz_database_c.Outcome.Action.{Action, ◌>>◌, resume, modify, branch}
use quartz_database_c.Format.{PageReference}
use quartz_database_c.Btree.Internal.{InternalNode}
use quartz_database_c.Btree.Tree.{BTree, lookup, is_empty, is_internal, internal}
use quartz_database_c.Btree.Tree.Shape.{IsWholeInternal}
use quartz_database_c.Btree.Rebalance.Calls.{inside_some}
use quartz_database_c.Btree.Cursor.{Cursor, on_tree, place, leftmost}
use quartz_database_c.Btree.Cursor.Step.{
  child_position, path_to_leaf, next_leaf, advance_to_next_leaf,
}

-- None of the children is the page.
abbrev pub AreOther : ℕ → List PageReference → Type 0
AreOther id = All (λ c. (c.page_id == id) ≡ false)

position-none :
    (count : ℕ) (children : List PageReference) (id i : ℕ)
    → count ≤ length children
    → AreOther id children
    → child_position count children id i ≡ returned 0
unfolding child_position
position-none zero children id i h a = refl
position-none (suc count) [] id i h a = absurd (omega arith)
position-none (suc count) (c ∷ cs) id i h a =
    rw a.0 (position-none count cs id (i + 1) (omega arith) a.1)

position-some :
    (count : ℕ) (children : List PageReference) (id i k : ℕ) (child : PageReference)
    → suc k ≤ count
    → AreOther id (take k children)
    → get_elem? children k ≡ some child
    → child.page_id ≡ id
    → child_position count children id i ≡ returned (i + k)
unfolding child_position
position-some zero children id i k child h a e s = absurd (omega arith)
position-some (suc count) [] id i k child h a e s = cc
position-some (suc count) (c ∷ cs) id i zero child h a e s =
    let one : c ≡ child = cc in
    let here : (child.page_id == id) ≡ true = ground arith in
    let sum : i + 0 ≡ i = omega arith in rw (one, here, sum) refl
position-some (suc count) (c ∷ cs) id i (suc k) child h a e s =
    let sum : i + 1 + k ≡ i + suc k = omega arith in
    rw a.0 (position-some count cs id (i + 1) k child (omega arith) a.1 e s ∙ ap returned sum)

-- The cursor after a step to a leaf.
abbrev pub moved : Cursor → ℕ → Cursor
moved c id = record c { leaf_id = id; index = 0; at_end = false }

-- A call, and a number of calls after it.
abbrev pub repeat : ℕ → Action Cursor (Unit {0}) → Action Cursor (Unit {0})
repeat zero m = m
repeat (suc n) m = m >> repeat n m

module _ (t : BTree) (root : InternalNode) (some_tree : is_empty t ≡ false)
    (at_root : lookup t.root_id t.internals ≡ some root) where
  step :
      (c : Cursor) (i id : ℕ) (child : PageReference)
      → c.target ≡ on_tree (some t)
      → (t.root_id == c.leaf_id) ≡ false
      → child_position (root.node.page.key_count + 1) root.children c.leaf_id 0 ≡ returned i
      → i + 1 ≤ root.node.page.key_count
      → get_elem? root.children (i + 1) ≡ some child
      → leftmost (length t.internals) t child.page_id ≡ returned id
      → advance_to_next_leaf c ≡ (returned tt, moved c id)
  unfolding advance_to_next_leaf path_to_leaf next_leaf is_internal internal place modify branch
  step c i id child on apart position more next down =
      let here : leb (i + 1) root.node.page.key_count ≡ true = ground arith in
      rw (on, some_tree, apart, at_root, position) (rw (at_root, here, next) (rw down refl))

  -- From a leaf that is a child of the root, the first one with its id, and not the last child, the cursor
  -- goes to the leftmost leaf under the next child, at its first entry.
  pub advance_to_next_leaf-moved :
      (c : Cursor) (k id : ℕ) (child next : PageReference)
      → IsWholeInternal root
      → c.target ≡ on_tree (some t)
      → (t.root_id == c.leaf_id) ≡ false
      → AreOther c.leaf_id (take k root.children)
      → get_elem? root.children k ≡ some child
      → child.page_id ≡ c.leaf_id
      → get_elem? root.children (k + 1) ≡ some next
      → leftmost (length t.internals) t next.page_id ≡ returned id
      → advance_to_next_leaf c ≡ (returned tt, moved c id)
  advance_to_next_leaf-moved c k id child next whole on apart others e same n down =
      let inside = inside_some root.children (k + 1) next n in
      let zero_k : 0 + k ≡ k = omega arith in
      step c k id next on apart
        (position-some (root.node.page.key_count + 1) root.children c.leaf_id 0 k child
            (omega arith) others e same
          ∙ ap returned zero_k)
        (omega arith) n down

  jump :
      (c : Cursor) (id : ℕ) (second : PageReference)
      → IsWholeInternal root
      → c.target ≡ on_tree (some t)
      → (t.root_id == c.leaf_id) ≡ false
      → AreOther c.leaf_id root.children
      → get_elem? root.children 1 ≡ some second
      → leftmost (length t.internals) t second.page_id ≡ returned id
      → advance_to_next_leaf c ≡ (returned tt, moved c id)
  jump c id second whole on apart others e down =
      let inside = inside_some root.children 1 second e in
      step c 0 id second on apart
        (position-none (root.node.page.key_count + 1) root.children c.leaf_id 0 (omega arith)
          others)
        (omega arith) e down

  -- In a tree in which neither the cursor's leaf nor the leftmost leaf under the root's second child is
  -- itself a child of the root, as in any tree of three levels or more, going to the next leaf never comes to
  -- an end: however often it is done, it returns, and the cursor is at the start of that same leaf.
  pub advance_to_next_leaf_never_ends :
      (c : Cursor) (id n : ℕ) (second : PageReference)
      → IsWholeInternal root
      → c.target ≡ on_tree (some t)
      → (t.root_id == c.leaf_id) ≡ false
      → (t.root_id == id) ≡ false
      → AreOther c.leaf_id root.children
      → AreOther id root.children
      → get_elem? root.children 1 ≡ some second
      → leftmost (length t.internals) t second.page_id ≡ returned id
      → repeat n advance_to_next_leaf c ≡ (returned tt, moved c id)
  unfolding ◌>>◌ resume
  advance_to_next_leaf_never_ends c id zero second whole on apart apart' others others' e down =
      jump c id second whole on apart others e down
  advance_to_next_leaf_never_ends c id (suc n) second whole on apart apart' others others' e down =
      rw (jump c id second whole on apart others e down) (
        advance_to_next_leaf_never_ends (moved c id) id n second whole on apart' apart' others'
          others' e down)
