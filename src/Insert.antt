-- ===== src/Insert.antt =====
-- Insertion in src/btree.h: `insert` and `makeroot`.
pub mod Split
pub mod Parent
pub mod Root
pub mod Empty
pub mod Slots
pub mod Target
pub mod Halved
pub mod Row
pub mod Ascending
pub mod Grown
pub mod Spread
pub mod Built
use ccpbtree.Base.{
  ℕ, zero, suc, ◌+◌, ◌-◌, ◌*◌, ◌/◌, Bool, true, false, not, ◌&&◌, ◌==◌, ltb, leb, if◌then◌else◌, ℤ,
  pos, negsuc, minus_one, minus_two,
}
use ccpbtree.Store.{
  Ptr, null, InnerNode, LeafNode, Node, leaf, inner, Tree, negative_count, assertion, no_fuel, Out,
  ok, fault, then_out, down16, slot, Traits, Cmd, pure, fail, lift, ◌>>=◌, ◌>>◌, get_tree, load,
  load_leaf, load_inner, save_leaf, save_inner, alloc, free_node, up_key_count, set_root, is_leaf,
}
use ccpbtree.KeyOrder.{key_greater}
use ccpbtree.Leaf.{new_leaf, insert_leaf_data_at, insert_leaf_key_at, insert_leaf_pair}
use ccpbtree.Inner.{
  new_inner, key_at, child_at, link_leaves, insert_inner_node_key_at, insert_inner_node_child_at,
  insert_inner_node_pair,
}
use ccpbtree.Find.{find}
use ccpbtree.Insert.Split.{split_leaf}
use ccpbtree.Insert.Parent.{insert_in_parent}

module _ {K V : Type 0} (p : Traits K V) where
  open p use {leafslots, nodeslots, key_garbage}

  -- `makeroot`
  unfoldable pub make_root : K → V → Cmd K V (Unit {0})
  make_root k datum = do
    l ← alloc (leaf (record (new_leaf p) { is_root_node = true }))
    insert_leaf_pair p l k datum
    (λ t. ok (tt, record t { head_leaf = l; root = l }))

  -- The part of `insert` that splits the full leaf `n`.
  unfoldable pub insert_split : Ptr → K → V → Cmd K V ℤ
  insert_split q k datum = do
    n ← load_leaf q
    ln ← alloc (leaf (new_leaf p))
    lp ← alloc (leaf (new_leaf p))
    s ← lift (split_leaf p n k datum)
    kp ← lift (slot leafslots s.high.key_slots 0)
    up_key_count
    save_leaf ln (record s.low { next_leaf = lp })
    save_leaf lp (record s.high { prev_leaf = ln })
    t ← get_tree
    insert_in_parent p (t.brk + 1) n.parent ln kp lp
    free_node q
    pure (pos 1)

  -- `insert`. A full leaf is split only if it holds as many keys as an inner node has slots.
  unfoldable pub insert : K → V → Cmd K V ℤ
  insert k datum = do
    t ← get_tree
    if t.root == null then (do make_root k datum; up_key_count; pure (pos 1)) else do
      found ← find p k
      n ← (if found == null then alloc (leaf (new_leaf p)) else pure found)
      out ← insert_leaf_pair p n k datum
      elim out [
        | negsuc (suc zero) ↦ pure minus_two
        | negsuc zero ↦ do
          l ← load_leaf n
          if l.slots_in_use == nodeslots
              then insert_split n k datum
              else (do up_key_count; pure (pos 1))
        | _ ↦ do up_key_count; pure (pos 1)
      ]
