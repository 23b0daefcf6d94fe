-- ===== src/Delete/Balance.antt =====
-- `balancetree` of src/btree.h: a leaf with too few pairs is merged or borrows.
use ccpbtree.Base.{ℕ, zero, suc, ◌+◌, ◌-◌, not, ◌&&◌, ◌==◌, ltb, if◌then◌else◌, pos, negsuc}
use ccpbtree.Store.{
  Ptr, null, LeafNode, assertion, slot, Traits, Cmd, pure, fail, lift, ◌>>=◌, ◌>>◌, get_tree,
  load_leaf, load_inner, up_key_count,
}
use ccpbtree.Leaf
use ccpbtree.Leaf.{find_key_equal, insert_leaf_pair, delete_leaf_pair}
use ccpbtree.Inner.{key_at, find_inner_node_loc, replace_key}
use ccpbtree.Delete.Removal.{delete_inner_node}

module _ {K V : Type 0} (p : Traits K V) where
  open p use {leafslots, nodeslots, key_garbage}

  delete_from_parent : Ptr → K → Ptr → Cmd K V (Unit {0})
  unfolding delete_inner_node
  delete_from_parent q k c = do t ← get_tree; delete_inner_node p (t.brk + 1) q k c; pure tt

  -- The loops of `balancetree` that move all pairs of a leaf to a neighbour.
  move_pairs : Ptr → LeafNode K V → ℕ → ℕ → Cmd K V (Unit {0})
  unfolding insert_leaf_pair
  move_pairs q l i zero = pure tt
  move_pairs q l i (suc rounds) = do
    insert_leaf_pair p q (l.key_slots i) (l.data_slots i)
    move_pairs q l (i + 1) rounds

  -- `balancetree`, a leaf and its previous neighbour merge. Behind the last child the key to delete
  -- is not initialised.
  merge_prev_leaf : Ptr → LeafNode K V → Ptr → ℕ → Cmd K V (Unit {0})
  unfolding find_inner_node_loc move_pairs load_inner delete_from_parent
  merge_prev_leaf q l prev parentloc = do
    loc ← find_inner_node_loc p l.parent q
    move_pairs prev l 0 l.slots_in_use
    elim loc [
      | negsuc i ↦ fail assertion
      | pos i ↦ do
        n ← load_inner l.parent
        k ←
            (if parentloc == n.num_children
              then pure (key_garbage 0)
              else lift (key_at p n (parentloc - 1)))
        delete_from_parent l.parent k q
    ]

  -- `balancetree`, a leaf takes the last pair of its previous neighbour.
  borrow_prev_leaf : Ptr → LeafNode K V → Ptr → LeafNode K V → ℕ → Cmd K V (Unit {0})
  unfolding insert_leaf_pair load_inner load_leaf replace_key delete_leaf_pair up_key_count
  borrow_prev_leaf q l prev m parentloc =
      if not (ltb l.slots_in_use m.slots_in_use) then fail assertion else do
        let last = m.slots_in_use - 1
        insert_leaf_pair p q (m.key_slots last) (m.data_slots last)
        n ← load_inner l.parent
        replacee ← lift (key_at p n (parentloc - 1))
        l' ← load_leaf q
        first ← lift (slot leafslots l'.key_slots 0)
        replace_key p l.parent replacee first
        delete_leaf_pair p prev (m.key_slots last) (m.data_slots last)
        up_key_count

  -- `balancetree`, a leaf and its next neighbour merge.
  merge_next_leaf : Ptr → LeafNode K V → Ptr → Cmd K V (Unit {0})
  unfolding find_inner_node_loc move_pairs load_inner delete_from_parent
  merge_next_leaf q l next = do
    move_pairs next l 0 l.slots_in_use
    loc ← find_inner_node_loc p l.parent q
    elim loc [
      | negsuc i ↦ fail assertion
      | pos i ↦ do
        n ← load_inner l.parent
        k ← lift (if ltb i n.num_children then key_at p n i else key_at p n (i + 1))
        delete_from_parent l.parent k q
    ]

  -- `balancetree`, a leaf takes the first pair of its next neighbour.
  borrow_next_leaf : Ptr → LeafNode K V → Ptr → LeafNode K V → Cmd K V (Unit {0})
  unfolding insert_leaf_pair replace_key delete_leaf_pair up_key_count
  borrow_next_leaf q l next m =
      if not (ltb l.slots_in_use m.slots_in_use) then fail assertion else do
        insert_leaf_pair p q (m.key_slots 0) (m.data_slots 0)
        second ← lift (slot leafslots m.key_slots 1)
        replace_key p m.parent (m.key_slots 0) second
        delete_leaf_pair p next (m.key_slots 0) (m.data_slots 0)
        up_key_count

  -- `balancetree`
  unfoldable pub balance_tree : Ptr → Cmd K V (Unit {0})
  unfolding load_leaf find_inner_node_loc merge_prev_leaf borrow_prev_leaf merge_next_leaf
      borrow_next_leaf
  balance_tree q = do
    l ← load_leaf q
    found ← find_inner_node_loc p l.parent q
    let parentloc : ℕ = elim found [ pos i ↦ i | negsuc i ↦ 0 ]
    if not (Leaf.is_underflow p l)
        then pure tt
        else if not (l.prev_leaf == null) && ltb 0 parentloc
        then (do
          m ← load_leaf l.prev_leaf
          if ltb (m.slots_in_use + l.slots_in_use) leafslots
              then merge_prev_leaf q l l.prev_leaf parentloc
              else borrow_prev_leaf q l l.prev_leaf m parentloc)
        else if l.next_leaf == null
        then pure tt
        else (do
          m ← load_leaf l.next_leaf
          if ltb (m.slots_in_use + l.slots_in_use) leafslots
              then merge_next_leaf q l l.next_leaf
              else borrow_next_leaf q l l.next_leaf m)
