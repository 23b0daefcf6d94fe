-- ===== src/Insert/Split/Rounds.antt =====
-- The loop that splits a full leaf ends, whatever the leaf and the key.
use ccpbtree.Base.{
  ℕ, zero, suc, ◌+◌, ◌-◌, ◌*◌, ◌/◌, ◌%◌, ◌≤◌, ◌<◌, ◌≡◌, inl, inr, true, false, ◌&&◌, Bool-cases,
  arith, ltb, leb, ◌==◌, if◌then◌else◌, pos, put,
}
use ccpbtree.Store.{LeafNode, Traits, ok}
use ccpbtree.KeyOrder.{key_greater}
use ccpbtree.Leaf.{new_leaf, insert_leaf_key_at, insert_leaf_data_at}
use ccpbtree.Insert.Split.{LeafSplit, put_pair, put_low, put_high, split_loop, split_leaf}

module _ {K V : Type 0} (p : Traits K V) where
  open p use {leafslots}

  insert_leaf_data_at_keeps :
      (l : LeafNode K V) (v : V) (i : ℕ)
      → (insert_leaf_data_at p l v (pos i)).1.slots_in_use ≡ l.slots_in_use
  unfolding insert_leaf_data_at
  insert_leaf_data_at_keeps l v i = ground arith

  -- A pair put behind the slots in use, or at a slot that the leaf does not have.
  put_pair_total :
      (l : LeafNode K V) (k : K) (v : V) (i : ℕ)
      → l.slots_in_use ≤ i
      → (l' : LeafNode K V) × (put_pair p l k v i ≡ ok l') × (l'.slots_in_use ≤ i + 1)
  unfolding put_pair insert_leaf_key_at
  put_pair_total l k v i h = elim (Bool-cases (leb l.slots i)) [
    | inl beyond ↦ (
      (insert_leaf_data_at p l v (pos i)).1,
      rw beyond,
      omega (arith, insert_leaf_data_at_keeps l v i),
    )
    | inr inside ↦
        let keyed : LeafNode K V = record l {
          key_slots = put l.key_slots i k;
          slots_in_use = (l.slots_in_use + 1) % 65536;
        } in
        (
          (insert_leaf_data_at p keyed v (pos i)).1,
          ground arith,
          omega (arith, insert_leaf_data_at_keeps keyed v i),
        )
  ]

  -- No slot that the loop writes next is in use.
  record Ahead (slot : ℕ) (s : LeafSplit K V) : Type 0 where
    low_le : s.low.slots_in_use ≤ slot
    high_le : s.high.slots_in_use ≤ s.j

  put_low_total :
      (s : LeafSplit K V) (k : K) (v : V) (slot : ℕ)
      → Ahead slot s
      → (s' : LeafSplit K V) × (put_low p s k v slot ≡ ok s') × Ahead (slot + 1) s'
  unfolding put_low
  put_low_total s k v slot a =
      let (l, run, le) = put_pair_total s.low k v slot a.low_le in
      (record s { low = l }, rw run, record { low_le = le; high_le = a.high_le })

  put_high_total :
      (s : LeafSplit K V) (k : K) (v : V) (slot : ℕ)
      → Ahead slot s
      → (s' : LeafSplit K V) × (put_high p s k v ≡ ok s') × Ahead (slot + 1) s'
  unfolding put_high
  put_high_total s k v slot a =
      let (l, run, le) = put_pair_total s.high k v s.j a.high_le in
      (
        record s { high = l; j = s.j + 1 },
        rw run,
        record { low_le = omega (arith, a.low_le); high_le = le },
      )

  -- One pair goes to one half.
  put_total :
      (half i : ℕ) (s : LeafSplit K V) (k : K) (v : V) (slot : ℕ)
      → Ahead slot s
      → (s' : LeafSplit K V) × ((if ltb i half then put_low p s k v slot else put_high p s k v)
          ≡ ok s')
        × Ahead (slot + 1) s'
  put_total half i s k v slot a = elim (Bool-cases (ltb i half)) [
    | inl low ↦ rw low (put_low_total s k v slot a)
    | inr high ↦ rw high (put_high_total s k v slot a)
  ]

  -- The rounds that are left: one for each key, and one for the new key if `slot` is not ahead.
  rounds : LeafNode K V → ℕ → ℕ → ℕ
  rounds n i slot = (n.slots_in_use - i) + (if leb slot i then 1 else 0)

  split_loop_total :
      (fuel : ℕ) (n : LeafNode K V) (k : K) (v : V) (i slot : ℕ) (s : LeafSplit K V)
      → n.slots_in_use ≤ leafslots
      → Ahead slot s
      → rounds n i slot < fuel
      → (s' : LeafSplit K V) × (split_loop p fuel n k v i slot s ≡ ok s')
        × (slot_end : ℕ) × Ahead slot_end s'
  unfolding split_loop rounds
  split_loop_total zero n k v i slot s le a lt = absurd (omega arith)
  split_loop_total (suc fuel) n k v i slot s le a lt = elim (Bool-cases (leb n.slots_in_use i)) [
    | inl done ↦ (s, rw done, slot, a)
    | inr more ↦
        let inside : leb leafslots i ≡ false = ground arith in
        elim (Bool-cases (key_greater p (n.key_slots i) k && (slot == i))) [
          | inl new ↦
              let (s', run, a') = put_total (n.slots_in_use / 2) i s k v slot a in
              let (s'', rest, e, a'') =
                split_loop_total fuel n k v (if i == 0 then 1 else i) (slot + 1)
                  (record s' { added = true }) le
                  (record { low_le = a'.low_le; high_le = a'.high_le }) (ground arith) in
              (s'', rw (more, inside, new, run) rest, e, a'')
          | inr old ↦
              let (s', run, a') =
                put_total (n.slots_in_use / 2) i s (n.key_slots i) (n.data_slots i) slot a in
              let (s'', rest, e, a'') =
                split_loop_total fuel n k v (i + 1) (slot + 1) s' le a' (ground arith) in
              (s'', rw (more, inside, old, run) rest, e, a'')
        ]
  ]

  -- The new key goes to the end if no key was greater.
  finish_total :
      (n : LeafNode K V) (s : LeafSplit K V) (k : K) (v : V) (slot : ℕ)
      → Ahead slot s
      → (s' : LeafSplit K V) × ((if s.added then ok s else put_high p s k v) ≡ ok s')
  finish_total n s k v slot a = elim (Bool-cases s.added) [
    | inl added ↦ (s, rw added)
    | inr not_added ↦ let (s', last, a') = put_high_total s k v slot a in (s', ground (arith, last))
  ]

  -- The split of a leaf whose keys in use are within its arrays, full or not, ends with two leaves for
  -- every key and every data: its loop never runs out of its fuel, and no read or write of a round is
  -- outside the arrays.
  pub split_leaf_total :
      (n : LeafNode K V) (k : K) (v : V)
      → n.slots_in_use ≤ leafslots
      → (s : LeafSplit K V) × (split_leaf p n k v ≡ ok s)
  unfolding split_leaf new_leaf rounds
  split_leaf_total n k v le =
      let start : LeafSplit K V = record {
        low = new_leaf p;
        high = new_leaf p;
        j = 0;
        added = false;
      } in
      let (s, run, e, a) =
        split_loop_total (2 * n.slots_in_use + 2) n k v 0 0 start le
          (record { low_le = omega arith; high_le = omega arith }) (ground arith) in
      let (s', last) = finish_total n s k v e a in (s', rw run last)
