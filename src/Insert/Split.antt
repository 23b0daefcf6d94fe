-- ===== src/Insert/Split.antt =====
-- The split of a full leaf, in `insert` of src/btree.h.
pub mod Rounds
pub mod Parts
pub mod Halves
pub mod Full
use ccpbtree.Base.{
  ℕ, zero, suc, ◌+◌, ◌*◌, ◌/◌, Bool, true, false, ◌&&◌, ◌==◌, ltb, leb, if◌then◌else◌, pos,
}
use ccpbtree.Store.{LeafNode, no_fuel, Out, ok, fault, then_out, slot, Traits}
use ccpbtree.KeyOrder.{key_greater}
use ccpbtree.Leaf.{new_leaf, insert_leaf_data_at, insert_leaf_key_at}

-- The variables of the loop that distributes a full leaf over `ln` and `lp`.
pub record LeafSplit (K V : Type 0) : Type 0 where
  pub low : LeafNode K V
  pub high : LeafNode K V
  pub j : ℕ
  pub added : Bool

module _ {K V : Type 0} (p : Traits K V) where
  open p use {leafslots, nodeslots, key_garbage}

  -- `insertleafKeyAt` and `insertleafDataAt` on a new leaf.
  unfoldable pub put_pair : LeafNode K V → K → V → ℕ → Out (LeafNode K V)
  unfolding insert_leaf_key_at insert_leaf_data_at
  put_pair l k datum i =
      then_out (insert_leaf_key_at p l k (pos i))
        (λ (r, l'). ok (insert_leaf_data_at p l' datum (pos i)).1)

  pub put_low : LeafSplit K V → K → V → ℕ → Out (LeafSplit K V)
  unfolding put_pair
  put_low s k datum i = then_out (put_pair s.low k datum i) (λ l. ok (record s { low = l }))

  pub put_high : LeafSplit K V → K → V → Out (LeafSplit K V)
  unfolding put_pair
  put_high s k datum =
      then_out (put_pair s.high k datum s.j) (λ l. ok (record s { high = l; j = s.j + 1 }))

  -- A read of an array of the old leaf.
  abbrev pub read_slot : {A : Type 0} → (ℕ → A) → ℕ → Out A
  read_slot a i = slot leafslots a i

  -- The loop that splits the leaf `n`. After the new key, `i` stays where it is, unless it is 0. The
  -- loop makes at most one round more than there are keys, so it ends within its fuel.
  unfoldable pub split_loop : ℕ → LeafNode K V → K → V → ℕ → ℕ → LeafSplit K V → Out (LeafSplit K V)
  unfolding put_low put_high
  split_loop zero n k datum i slot s = fault no_fuel
  split_loop (suc fuel) n k datum i slot s =
      let half = n.slots_in_use / 2 in
      let new_key =
        then_out (if ltb i half then put_low s k datum slot else put_high s k datum) (λ s'.
          split_loop fuel n k datum (if i == 0 then 1 else i) (slot + 1)
            (record s' { added = true })) in
      let old_key : K → Out (LeafSplit K V) = λ old.
        then_out (read_slot n.data_slots i) (λ old_datum.
          then_out (if ltb i half then put_low s old old_datum slot else put_high s old old_datum)
            (λ s'. split_loop fuel n k datum (i + 1) (slot + 1) s')) in
      if leb n.slots_in_use i
      then ok s
      else then_out (read_slot n.key_slots i)
          (λ old. if key_greater p old k && (slot == i) then new_key else old_key old)

  -- The loop, and the new key at the end if no key was greater.
  unfoldable pub split_leaf : LeafNode K V → K → V → Out (LeafSplit K V)
  unfolding split_loop new_leaf put_high
  split_leaf n k datum =
      let start : LeafSplit K V = record {
        low = new_leaf p;
        high = new_leaf p;
        j = 0;
        added = false;
      } in
      then_out (split_loop (2 * n.slots_in_use + 2) n k datum 0 0 start)
        (λ s. if s.added then ok s else put_high s k datum)
