-- ===== src/Insert/Root/Data.antt =====
-- What `get` gives for the keys behind the place of a new one, before and after `insert`.
use ccpbtree.Base.{ℕ, ◌+◌, ◌-◌, ◌<◌, ◌≡◌, ◌≢◌, true, false, arith, pos}
use native.Mathlib.Decide.{dec_lt}
use ccpbtree.Store.{LeafNode, Tree, Traits, ok}
use ccpbtree.Store.Points.{load_leaf-ok}
use ccpbtree.KeyOrder.{IsTotal, key_equal, key_equal_ne}
use ccpbtree.Leaf.{scan, find_key_loc}
use ccpbtree.Leaf.Scan.{scan_unique}
use ccpbtree.Leaf.Keys.{opened, opened-at, find_key_loc-place}
use ccpbtree.Leaf.Pair.{Holds, insert_leaf_pair-Inserted}
use ccpbtree.Delete.Root.{RootLeaf, find-RootLeaf}
use ccpbtree.Find.{get}
use ccpbtree.Insert.{insert}
use ccpbtree.Insert.Root.{SortedRoot, SortedRoot-Room, stored, insert-stored, stored-SortedRoot}

module _ {K V : Type 0} (p : Traits K V) (o : IsTotal p) where
  open p use {keyless, leafslots}

  equal : (a : K) → key_equal p a a ≡ true
  equal a = rw (o.irreflexive a)

  -- `get` of the key of a slot of a root leaf that is the first with that key.
  get-RootLeaf :
      {t : Tree K V} {l : LeafNode K V} (r : RootLeaf p t l) (a : K) (i : ℕ)
      → i < l.slots_in_use
      → scan p (λ s. key_equal p s a) l.key_slots l.slots_in_use 0 ≡ i
      → get p a t ≡ ok ((l.data_slots i, true), t)
  unfolding get
  get-RootLeaf {t} {l} r a i inside found =
      ground
        (arith, r.here.ne_null, find-RootLeaf p r a, load_leaf-ok r.here, found, r.valid.in_use_le)

  module _ (l : LeafNode K V) (k : K) (i : ℕ) (inside : i < l.slots_in_use)
      (first : (j : ℕ) → j < i → l.key_slots j ≢ l.key_slots i)
      (behind : keyless k (l.key_slots i) ≡ true) where
    place_le : find_key_loc p l k < i + 1
    place_le = elim (dec_lt i (find_key_loc p l k)) [
      | yes before ↦ cc (
        o.transitive (l.key_slots i) k (l.key_slots i) ((find_key_loc-place p l k).1 i before)
            behind,
        o.irreflexive (l.key_slots i),
      )
      | no done ↦ omega arith
    ]

    new_different : key_equal p k (l.key_slots i) ≡ false
    new_different = ground (arith, behind)

    first-old : scan p (λ s. key_equal p s (l.key_slots i)) l.key_slots l.slots_in_use 0 ≡ i
    first-old =
        scan_unique p (λ s. key_equal p s (l.key_slots i)) l.key_slots l.slots_in_use 0 i
          (omega arith) (omega arith)
          (λ j a b. key_equal_ne o (l.key_slots j) (l.key_slots i) (first j b))
          (λ h. equal (l.key_slots i))

    old_before : (j : ℕ) → j < i → key_equal p (l.key_slots j) (l.key_slots i) ≡ false
    old_before j h = key_equal_ne o (l.key_slots j) (l.key_slots i) (first j h)

    first-new :
        scan p
          (λ s. key_equal p s (l.key_slots i))
          (opened p l.key_slots l.slots_in_use (find_key_loc p l k) k)
          (l.slots_in_use + 1)
          0
        ≡ i + 1
    first-new =
        scan_unique p (λ s. key_equal p s (l.key_slots i))
          (opened p l.key_slots l.slots_in_use (find_key_loc p l k) k) (l.slots_in_use + 1) 0
          (i + 1) (omega arith) (omega arith)
          (λ j a b.
            rw
              (opened-at p l.key_slots l.slots_in_use (find_key_loc p l k) k j
                (find_key_loc-place p l k).0 (omega arith))
              (ground (arith, place_le, new_different, old_before j, old_before (j - 1))))
          (λ h.
            rw
              (opened-at p l.key_slots l.slots_in_use (find_key_loc p l k) k (i + 1)
                (find_key_loc-place p l k).0 (omega arith))
              (ground (arith, place_le, equal (l.key_slots i))))

  -- Where the root is a leaf in order with room, without successor, and keys are totally ordered:
  -- `insert` of a new pair changes what `get` gives for every key of the leaf that is greater. Before,
  -- it is the data of the first slot with the key; afterwards, what was in the data slot behind it.
  pub get-insert_behind :
      {t : Tree K V} {l : LeafNode K V} (r : SortedRoot p t l) (k : K) (d : V) (i : ℕ)
      → l.slots_in_use < leafslots
      → ¬ Holds p l k d
      → i < l.slots_in_use
      → ((j : ℕ) → j < i → l.key_slots j ≢ l.key_slots i)
      → keyless k (l.key_slots i) ≡ true
      → (get p (l.key_slots i) t ≡ ok ((l.data_slots i, true), t))
        × (t' : Tree K V) × (insert p k d t ≡ ok (pos 1, t'))
        × (get p (l.key_slots i) t' ≡ ok ((l.data_slots (i + 1), true), t'))
  get-insert_behind {t} {l} r k d i room new inside first behind =
      let (l', run, after) = insert_leaf_pair-Inserted p k (SortedRoot-Room p r k room) d o new in
      let root = stored-SortedRoot p r o k d l' room after in
      let at : scan p (λ s. key_equal p s (l.key_slots i)) l'.key_slots l'.slots_in_use 0 ≡ i + 1 =
        rw (after.key_slots, after.count) (first-new l k i inside first behind) in
      let datum : l'.data_slots (i + 1) ≡ l.data_slots (i + 1) =
        rw after.data_slots (ground (arith, place_le l k i inside first behind)) in
      (
        get-RootLeaf r.root (l.key_slots i) i inside (first-old l k i inside first behind),
        stored p r l',
        insert-stored p r k d l' run,
        rw (← datum)
            (get-RootLeaf root.root (l.key_slots i) (i + 1) (omega (arith, after.count)) at),
      )
