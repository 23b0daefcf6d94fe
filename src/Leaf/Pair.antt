-- ===== src/Leaf/Pair.antt =====
-- `insertleafpair` on a leaf whose successor, if there is one, does not begin with the key.
use ccpbtree.Base.{
  ℕ, zero, suc, ◌+◌, ◌-◌, ◌≤◌, ◌<◌, ◌≡◌, refl, ◌⊎◌, ap, ◌∙◌, true, false, inl, inr, Bool-cases,
  some, arith, put, pos, minus_one, minus_two,
}
use native.Mathlib.Decide.{dec_lt}
use ccpbtree.Store.{Ptr, null, LeafNode, leaf, Tree, Traits, ok, write}
use ccpbtree.Store.Points.{Points, load_leaf-ok}
use ccpbtree.KeyOrder.{IsTotal, key_equal, key_equal_iff}
use ccpbtree.Leaf.{
  same_pair_from, has_duplicate, insert_leaf_pair, find_key_loc, insert_leaf_data_at,
}
use ccpbtree.Leaf.Keys.{
  IsLeaf, IsSorted, keys_of, opened, opened-IsSorted, above_all, find_key_loc-place,
  insert_leaf_key_at-opened,
}
use ccpbtree.Leaf.Sorted.{insert_sorted, opened-insert_sorted}

module _ {K V : Type 0} (p : Traits K V) where
  open p use {keyless, same_data, leafslots}

  same_pair-other :
      (l : LeafNode K V) (k : K) (d : V) (n j : ℕ)
      → key_equal p (l.key_slots j) k ≡ false
      → same_pair_from p l k d n j ≡ false
  unfolding same_pair_from
  same_pair-other l k d zero j h = refl
  same_pair-other l k d (suc n) j h = rw h

  -- A hit of the inner loop is a slot with the pair.
  same_pair_sound :
      (l : LeafNode K V) (k : K) (d : V) (n j : ℕ)
      → same_pair_from p l k d n j ≡ true
      → (m : ℕ) × (m < j + n)
        × (key_equal p (l.key_slots m) k ≡ true)
        × (same_data d (l.data_slots m) ≡ true)
  unfolding same_pair_from
  same_pair_sound l k d zero j h = cc
  same_pair_sound l k d (suc n) j h = elim (Bool-cases (same_data d (l.data_slots j))) [
    | inl hit ↦ (j, omega arith, ground arith, hit)
    | inr miss ↦
        let (m, lt, e, s) = same_pair_sound l k d n (j + 1) (ground arith) in (m, omega arith, e, s)
  ]

  -- The inner loop finds a pair behind equal keys.
  same_pair_complete :
      (l : LeafNode K V) (k : K) (d : V) (n j m : ℕ)
      → j ≤ m
      → m < j + n
      → ((i : ℕ) → j ≤ i → i ≤ m → key_equal p (l.key_slots i) k ≡ true)
      → same_data d (l.data_slots m) ≡ true
      → same_pair_from p l k d n j ≡ true
  unfolding same_pair_from
  same_pair_complete l k d zero j m lo hi equal s = absurd (omega arith)
  same_pair_complete l k d (suc n) j m lo hi equal s =
      rw (equal j (omega arith) lo) (ground (arith, same_pair_complete l k d n (j + 1) m))

  -- A full leaf takes no pair.
  pub insert_leaf_pair-full :
      {t : Tree K V} {q : Ptr} (l : LeafNode K V) (k : K) (d : V)
      → Points t q (leaf l)
      → l.slots_in_use ≡ leafslots
      → insert_leaf_pair p q k d t ≡ ok (minus_one, t)
  unfolding insert_leaf_pair
  insert_leaf_pair-full l k d e full = ground (arith, load_leaf-ok e)

  -- No successor of the leaf begins with the key.
  abbrev pub Ends : Tree K V → LeafNode K V → K → Type 0
  Ends t l k =
      (l.next_leaf ≡ null)
      ⊎ ((m : LeafNode K V) × Points t l.next_leaf (leaf m)
          × (key_equal p (m.key_slots 0) k ≡ false))

  -- A leaf in order, with room for one more pair, at which the search for the key ends.
  pub record Room (t : Tree K V) (q : Ptr) (l : LeafNode K V) (k : K) : Type 0 where
    pub here : Points t q (leaf l)
    pub valid : IsLeaf p l
    pub room : l.slots_in_use < leafslots
    pub last : Ends t l k
    pub sorted : IsSorted p l.key_slots l.slots_in_use
    pub used : 0 < t.brk

  -- Some slot in use holds the key with the same data.
  abbrev pub Holds : LeafNode K V → K → V → Type 0
  Holds l k d =
      (m : ℕ) × (m < l.slots_in_use) × (l.key_slots m ≡ k) × (same_data d (l.data_slots m) ≡ true)

  module _ {t : Tree K V} {q : Ptr} {l : LeafNode K V} (k : K) (r : Room t q l k) (d : V) where
    has_duplicate-next : (fuel : ℕ) → has_duplicate p (suc fuel) l.next_leaf 0 k d t ≡ ok (false, t)
    unfolding has_duplicate
    has_duplicate-next fuel = elim r.last [
      | inl absent ↦ rw absent
      | inr (m, there, other) ↦ ground (arith, there.ne_null, load_leaf-ok there, other, r.room)
    ]

    has_duplicate-last :
        (fuel i : ℕ)
        → i ≤ l.slots_in_use
        → has_duplicate p (suc (suc fuel)) q i k d t
          ≡ ok (same_pair_from p l k d (l.slots_in_use - i) i, t)
    unfolding has_duplicate
    has_duplicate-last fuel i h = ground (
      arith,
      r.here.ne_null,
      load_leaf-ok r.here,
      has_duplicate-next fuel,
      r.room,
      same_pair-other l k d (l.slots_in_use - i) i,
    )

    -- The check from the slot that `findKeyLoc` gives decides whether the pair is there.
    has_duplicate-place :
        has_duplicate p (t.brk + 1) q (find_key_loc p l k) k d t
        ≡ ok (same_pair_from p l k d (l.slots_in_use - find_key_loc p l k) (find_key_loc p l k), t)
    has_duplicate-place =
        ap (λ n. has_duplicate p n q (find_key_loc p l k) k d t) fuel
        ∙ has_duplicate-last (t.brk - 1) (find_key_loc p l k) (find_key_loc-place p l k).0
      where
        fuel : t.brk + 1 ≡ suc (suc (t.brk - 1))
        fuel = omega (arith, r.used)

    module _ (o : IsTotal p) where
      -- A pair that the leaf holds is found from that slot on.
      same_pair-Holds :
          Holds l k d
          → same_pair_from p l k d (l.slots_in_use - find_key_loc p l k) (find_key_loc p l k) ≡ true
      same_pair-Holds (m, lt, e, s) =
          same_pair_complete l k d (l.slots_in_use - loc) loc m first (omega arith) equal s
        where
          loc : ℕ
          loc = find_key_loc p l k

          first : loc ≤ m
          first = elim (dec_lt m loc) [
            | yes before ↦
                cc ((find_key_loc-place p l k).1 m before, ap (λ x. keyless x k) e, o.irreflexive k)
            | no after ↦ omega arith
          ]

          equal : (i : ℕ) → loc ≤ i → i ≤ m → key_equal p (l.key_slots i) k ≡ true
          equal i lo hi =
              (key_equal_iff o (l.key_slots i) k).1 (o.trichotomy (l.key_slots i) k above below)
            where
              above : keyless (l.key_slots i) k ≡ false
              above =
                  above_all p o l.key_slots l.slots_in_use loc k i r.sorted
                    ((find_key_loc-place p l k).2 (omega arith)) lo (omega arith)

              below : keyless k (l.key_slots i) ≡ false
              below = elim (dec_lt i m) [
                | yes less ↦ rw e at (r.sorted i m less lt)
                | no same ↦ let j : i ≡ m = omega arith in rw (j, e) (o.irreflexive k)
              ]

      same_pair-none :
          ¬ Holds l k d
          → same_pair_from p l k d (l.slots_in_use - find_key_loc p l k) (find_key_loc p l k)
            ≡ false
      same_pair-none no_pair =
          elim (Bool-cases
            (same_pair_from p l k d (l.slots_in_use - find_key_loc p l k) (find_key_loc p l k))) [
              | inl hit ↦
                  let (m, lt, e, s) =
                    same_pair_sound l k d (l.slots_in_use - find_key_loc p l k) (find_key_loc p l k)
                      hit in
                  absurd (
                    no_pair (
                      m,
                      omega (arith, (find_key_loc-place p l k).0),
                      (key_equal_iff o (l.key_slots m) k).0 e,
                      s,
                    ))
              | inr miss ↦ miss
            ]

      -- The leaf after the insertion of a pair.
      abbrev pub filled : LeafNode K V
      filled = record l {
        key_slots = opened p l.key_slots l.slots_in_use (find_key_loc p l k) k;
        data_slots = put l.data_slots (find_key_loc p l k) d;
        slots_in_use = l.slots_in_use + 1;
      }

      -- `insertleafpair` of a pair that a leaf holds, where the leaf is in order and
      -- has room and no successor begins with the key, returns -2 and changes nothing. The keys are totally ordered.
      pub insert_leaf_pair-Holds : Holds l k d → insert_leaf_pair p q k d t ≡ ok (minus_two, t)
      unfolding insert_leaf_pair
      insert_leaf_pair-Holds pair =
          ground (arith, load_leaf-ok r.here, r.room, has_duplicate-place, same_pair-Holds pair)

      insert_leaf_pair-filled :
          ¬ Holds l k d → insert_leaf_pair p q k d t ≡ ok (pos 1, write q (some (leaf filled)) t)
      unfolding insert_leaf_pair insert_leaf_data_at
      insert_leaf_pair-filled no_pair = ground (
        arith,
        load_leaf-ok r.here,
        r.room,
        has_duplicate-place,
        same_pair-none no_pair,
        (find_key_loc-place p l k).0,
        insert_leaf_key_at-opened p l k (find_key_loc p l k) r.valid r.room
            (find_key_loc-place p l k).0,
      )

      filled-keys : keys_of p filled ≡ insert_sorted p k (keys_of p l)
      filled-keys =
          let (inside, below, above) = find_key_loc-place p l k in
          opened-insert_sorted p l.key_slots l.slots_in_use (find_key_loc p l k) k inside below
            above

      -- What the insertion of a pair makes of a leaf: the new key stands in its place among the
      -- keys in use, which ascend. Of the data slots only the one at that place is written.
      pub record Inserted (l' : LeafNode K V) : Type 0 where
        pub keys : keys_of p l' ≡ insert_sorted p k (keys_of p l)
        pub key_slots : l'.key_slots ≡ opened p l.key_slots l.slots_in_use (find_key_loc p l k) k
        pub sorted : IsSorted p l'.key_slots l'.slots_in_use
        pub count : l'.slots_in_use ≡ l.slots_in_use + 1
        pub slots_same : l'.slots ≡ l.slots
        pub root_same : l'.is_root_node ≡ l.is_root_node
        pub next_same : l'.next_leaf ≡ l.next_leaf
        pub parent_same : l'.parent ≡ l.parent
        pub data_slots : l'.data_slots ≡ put l.data_slots (find_key_loc p l k) d

      -- `insertleafpair` of a pair that a leaf does not hold, where the leaf is in order and
      -- has room and no successor begins with the key, returns 1 and writes that leaf only: its keys in use are
      -- those before with the new key in its place, in order, and one data slot is written, at
      -- that place. The keys are totally ordered.
      pub insert_leaf_pair-Inserted :
          ¬ Holds l k d
          → (l' : LeafNode K V) × (insert_leaf_pair p q k d t
              ≡ ok (pos 1, write q (some (leaf l')) t))
            × Inserted l'
      insert_leaf_pair-Inserted no_pair = (
        filled,
        insert_leaf_pair-filled no_pair,
        record {
          keys = filled-keys;
          key_slots = refl;
          sorted =
              opened-IsSorted p o l.key_slots l.slots_in_use (find_key_loc p l k) k
                (find_key_loc-place p l k).0 r.sorted (find_key_loc-place p l k).1
                (find_key_loc-place p l k).2;
          count = refl;
          slots_same = refl;
          root_same = refl;
          next_same = refl;
          parent_same = refl;
          data_slots = refl;
        },
      )
