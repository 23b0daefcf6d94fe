-- ===== src/Insert/Root/Lookup.antt =====
-- `get` after `insert`, on a tree whose root is a leaf with room.
use ccpbtree.Base.{◌+◌, ◌<◌, ◌≡◌, true, arith, pos}
use ccpbtree.Store.{LeafNode, Tree, Traits, ok}
use ccpbtree.Store.Points.{load_leaf-ok}
use ccpbtree.KeyOrder.{IsTotal, key_equal, key_equal_iff}
use ccpbtree.Leaf.{scan, find_key_loc}
use ccpbtree.Leaf.Scan.{scan_unique}
use ccpbtree.Leaf.Keys.{opened, opened-at, find_key_loc-place}
use ccpbtree.Leaf.Pair.{Holds, insert_leaf_pair-Inserted}
use ccpbtree.Delete.Root.{find-RootLeaf}
use ccpbtree.Find.{get}
use ccpbtree.Insert.{insert}
use ccpbtree.Insert.Root.{SortedRoot, SortedRoot-Room, stored, insert-stored, stored-SortedRoot}

module _ {K V : Type 0} (p : Traits K V) (o : IsTotal p) where
  open p use {keyless, leafslots}

  -- No key before the place of the new one is equal to it.
  first-opened :
      (l : LeafNode K V) (k : K)
      → scan p
          (λ s. key_equal p s k)
          (opened p l.key_slots l.slots_in_use (find_key_loc p l k) k)
          (l.slots_in_use + 1)
          0
        ≡ find_key_loc p l k
  first-opened l k =
      let (inside, below, above) = find_key_loc-place p l k in
      scan_unique p (λ s. key_equal p s k)
        (opened p l.key_slots l.slots_in_use (find_key_loc p l k) k) (l.slots_in_use + 1) 0
        (find_key_loc p l k) (omega arith) (omega arith)
        (λ j a b.
          ground
            (arith, opened-at p l.key_slots l.slots_in_use (find_key_loc p l k) k j, below j b))
        (λ h.
          (key_equal_iff o
              (opened p l.key_slots l.slots_in_use (find_key_loc p l k) k (find_key_loc p l k)) k).1
            (ground (
              arith,
              opened-at p l.key_slots l.slots_in_use (find_key_loc p l k) k (find_key_loc p l k),
            )))

  -- `insert` of a pair that the root leaf does not hold, where that leaf is in order, has no
  -- successor and has room, and then `get` of its key give the data of that pair, also if the
  -- leaf held the key with other data. The keys are totally ordered.
  pub insert-get :
      {t : Tree K V} {l : LeafNode K V} (r : SortedRoot p t l) (k : K) (d : V)
      → l.slots_in_use < leafslots
      → ¬ Holds p l k d
      → (t' : Tree K V) × (insert p k d t ≡ ok (pos 1, t')) × (get p k t' ≡ ok ((d, true), t'))
  unfolding get
  insert-get {t} {l} r k d room new =
      let (l', run, after) = insert_leaf_pair-Inserted p k (SortedRoot-Room p r k room) d o new in
      let root = stored-SortedRoot p r o k d l' room after in
      let at : scan p (λ s. key_equal p s k) l'.key_slots l'.slots_in_use 0 ≡ find_key_loc p l k =
        rw (after.key_slots, after.count) (first-opened l k) in
      let datum : l'.data_slots (find_key_loc p l k) ≡ d = rw after.data_slots (ground arith) in
      (
        stored p r l',
        insert-stored p r k d l' run,
        ground (
          arith,
          root.root.here.ne_null,
          find-RootLeaf p root.root k,
          load_leaf-ok root.root.here,
          at,
          datum,
          after.count,
          (find_key_loc-place p l k).0,
        ),
      )
