-- ===== src/Delete.antt =====
-- Deletion in src/btree.h: `erase` and `delete_pair`.
pub mod Removal
pub mod Balance
pub mod Root
pub mod Erase
pub mod Pair
pub mod Fits
pub mod Target
use ccpbtree.Base.{
  ℕ, zero, suc, ◌+◌, ◌-◌, Bool, true, false, not, ◌&&◌, ◌||◌, ◌==◌, ltb, leb, if◌then◌else◌, put,
  shift_down, ℤ, pos, negsuc, minus_one, decrement,
}
use ccpbtree.Store.{
  Ptr, null, InnerNode, LeafNode, Node, leaf, inner, Tree, out_of_bounds, negative_count, assertion,
  no_fuel, Out, ok, fault, down16, slot, Traits, Cmd, pure, fail, lift, ◌>>=◌, ◌>>◌, get_tree, load,
  load_leaf, load_inner, save_leaf, save_inner, write, free_node, up_key_count, down_key_count,
  set_root, is_leaf, as_root, with_parent, modify, modify_leaf,
}
use ccpbtree.KeyOrder.{key_equal}
use ccpbtree.Leaf
use ccpbtree.Leaf.{find_key_equal, insert_leaf_pair, delete_leaf_pair}
use ccpbtree.Inner
use ccpbtree.Inner.{
  key_at, child_at, get_child, find_inner_node_loc, find_inner_node_key, insert_inner_node_key_at,
  insert_inner_node_child_at, link_leaves, replace_key,
}
use ccpbtree.Find.{find}
use ccpbtree.Delete.Balance.{balance_tree}

module _ {K V : Type 0} (p : Traits K V) where
  open p use {leafslots, nodeslots, key_garbage}

  -- `delete_pair`
  unfoldable pub delete_pair : K → V → Cmd K V ℤ
  delete_pair k datum = do
    q ← find p k
    if q == null then pure minus_one else do
      loc ← delete_leaf_pair p q k datum
      elim loc [ negsuc i ↦ pure minus_one | pos i ↦ do balance_tree p q; pure (pos i) ]

  -- `erase(k)`: the keys behind the one that goes move down; the data stays. The slot that
  -- `findKeyEqual` returns is read also when no key in use is equal.
  unfoldable pub erase : K → Cmd K V ℤ
  erase k = do
    q ← find p k
    if q == null then pure minus_one else do
      found ← find_key_equal p q k
      elim found [
        | negsuc i ↦ pure (negsuc i)
        | pos loc ↦ do
          l ← load_leaf q
          there ← lift (slot leafslots l.key_slots loc)
          if key_equal p k there
              then (do
                save_leaf q (record l {
                  key_slots = shift_down l.key_slots loc (l.slots_in_use - 1 - loc);
                  slots_in_use = down16 l.slots_in_use;
                })
                down_key_count
                if l.is_root_node then pure tt else balance_tree p q
                pure (pos loc))
              else pure minus_one
      ]
