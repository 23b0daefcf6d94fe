-- ===== src/Iterator.antt =====
-- The iterators of src/btree.h: `begin`, `end` and the steps of `iterator`.
pub mod Steps
pub mod Stale
use ccpbtree.Base.{ℕ, ◌+◌, ◌-◌, Bool, ◌&&◌, ◌||◌, not, ◌==◌, ltb, if◌then◌else◌}
use ccpbtree.Store.{
  Ptr, null, out_of_bounds, down16, slot, Traits, Tree, Cmd, pure, lift, ◌>>=◌, get_tree, load_leaf,
}

-- `currnode` and `currslot`.
pub record Iterator : Type 0 where
  pub curr_node : Ptr
  pub curr_slot : ℕ

abbrev pub at : Ptr → ℕ → Iterator
at q i = record { curr_node = q; curr_slot = i }

-- `operator==`
abbrev pub same : Iterator → Iterator → Bool
same a b = (a.curr_node == b.curr_node) && (a.curr_slot == b.curr_slot)

-- `operator!=`
abbrev pub differ : Iterator → Iterator → Bool
differ a b = not (a.curr_node == b.curr_node) || not (a.curr_slot == b.curr_slot)

module _ {K V : Type 0} (p : Traits K V) where
  open p use {leafslots}

  -- `begin`
  unfoldable pub begin : Cmd K V Iterator
  begin = do t ← get_tree; pure (at t.head_leaf 0)

  -- `end`
  unfoldable pub end : Cmd K V Iterator
  unfolding load_leaf
  end = do
    t ← get_tree
    if t.tail_leaf == null
        then pure (at null 0)
        else (do l ← load_leaf t.tail_leaf; pure (at t.tail_leaf l.slots_in_use))

  -- `operator++`, on the iterator.
  unfoldable pub forward : Iterator → Cmd K V Iterator
  unfolding load_leaf
  forward it = do
    l ← load_leaf it.curr_node
    pure (
        if ltb (it.curr_slot + 1) l.slots_in_use
        then at it.curr_node (it.curr_slot + 1)
        else if l.next_leaf == null
        then at it.curr_node l.slots_in_use
        else at l.next_leaf 0)

  -- `operator++(int)`: the old iterator and the new one.
  unfoldable pub post_forward : Iterator → Cmd K V (Iterator × Iterator)
  unfolding forward
  post_forward it = do new ← forward it; pure (it, new)

  -- `operator--`, on the iterator.
  unfoldable pub backward : Iterator → Cmd K V Iterator
  unfolding load_leaf
  backward it = if ltb 0 it.curr_slot then pure (at it.curr_node (it.curr_slot - 1)) else do
    l ← load_leaf it.curr_node
    if l.prev_leaf == null
        then pure (at it.curr_node 0)
        else (do m ← load_leaf l.prev_leaf; pure (at l.prev_leaf (down16 m.slots_in_use)))

  -- `operator--(int)`: the old iterator and the new one.
  unfoldable pub post_backward : Iterator → Cmd K V (Iterator × Iterator)
  unfolding backward
  post_backward it = do new ← backward it; pure (it, new)

  -- `key` and `data`.
  unfoldable pub key : Iterator → Cmd K V K
  unfolding load_leaf
  key it = do l ← load_leaf it.curr_node; lift (slot leafslots l.key_slots it.curr_slot)

  unfoldable pub datum : Iterator → Cmd K V V
  unfolding load_leaf
  datum it = do l ← load_leaf it.curr_node; lift (slot leafslots l.data_slots it.curr_slot)

  -- `operator*` and `operator->` read both.
  unfoldable pub deref : Iterator → Cmd K V (K × V)
  unfolding key datum
  deref it = do k ← key it; d ← datum it; pure (k, d)
