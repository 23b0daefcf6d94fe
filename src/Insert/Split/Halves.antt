-- ===== src/Insert/Split/Halves.antt =====
-- What the split of a full leaf by a key above its first one puts into the two halves.
use ccpbtree.Base.{
  ℕ, zero, suc, ◌+◌, ◌-◌, ◌*◌, ◌/◌, ◌≤◌, ◌<◌, ◌≡◌, ◌≢◌, refl, true, false, ◌&&◌, arith, ltb, leb,
  ◌==◌, if◌then◌else◌, ap, ◌∙◌, le→ltb,
}
use mathlib.Core.Path.{subst}
use native.Mathlib.Decide.{dec_lt, ℕ_discrete}
use ccpbtree.Store.{LeafNode, Traits, ok}
use ccpbtree.KeyOrder.{key_greater}
use ccpbtree.Leaf.{new_leaf}
use ccpbtree.Insert.Split.{LeafSplit, put_high, split_loop, split_leaf}
use ccpbtree.Insert.Split.Parts.{merged, Split, cut, Part, Filled, put_high-Filled, put-Filled}

module _ {K V : Type 0} (p : Traits K V) where
  open p use {keyless, leafslots}

  module _ {n : LeafNode K V} {k : K} {m : ℕ} (g : Split p n k m) (v : V) where
    -- The index of the loop after `x` rounds.
    index : ℕ → ℕ
    index x = if leb x m then x else x - 1

    index_here : (x : ℕ) → x ≡ m → index x ≡ m
    unfolding index
    index_here x here = ground arith

    on_here : (x : ℕ) → x ≡ m → (if index x == 0 then 1 else index x) ≡ index (x + 1)
    unfolding index
    on_here x here = ground (arith, g.place_pos)

    on_other : (x : ℕ) → x ≢ m → index x + 1 ≡ index (x + 1)
    unfolding index
    on_other x other = ground (arith, g.place_pos)

    index_le : (x : ℕ) → x ≤ index x + 1
    unfolding index
    index_le x = ground arith

    flag_other : (x : ℕ) → x ≢ m → ltb m x ≡ ltb m (x + 1)
    flag_other x other = ground arith

    -- A round goes to the first half as long as it is before the cut.
    cut_here : (x : ℕ) → x ≡ m → ltb (index x) (n.slots_in_use / 2) ≡ ltb x (cut p n m)
    unfolding index
    cut_here x here = rw here (ground arith)

    cut_other : (x : ℕ) → x ≢ m → ltb (index x) (n.slots_in_use / 2) ≡ ltb x (cut p n m)
    unfolding index
    cut_other x other = ground (arith, g.place_pos)

    merged_here : {A : Type 0} (a : ℕ → A) (w : A) (x : ℕ) → x ≡ m → w ≡ merged a m w x
    merged_here a w x here = rw here (ground arith)

    merged_other : {A : Type 0} (a : ℕ → A) (w : A) (x : ℕ) → x ≢ m → a (index x) ≡ merged a m w x
    unfolding index
    merged_other a w x other = ground arith

    -- The rounds in all.
    total : ℕ
    total = if ltb m n.slots_in_use then n.slots_in_use + 1 else n.slots_in_use

    total_next : (x : ℕ) → index x < n.slots_in_use → x + 1 ≤ total
    unfolding index total
    total_next x more = ground (arith, g.place_le)

    total_end : (x : ℕ) → ¬ (index x < n.slots_in_use) → x ≤ total → x ≡ total
    unfolding index total
    total_end x done le = ground (arith, g.place_le)

    total_le : total ≤ n.slots_in_use + 1
    unfolding total
    total_le = ground arith

    flag_end : ltb m total ≡ ltb m n.slots_in_use
    unfolding total
    flag_end = ground (arith, g.place_le)

    index_zero : 0 ≡ index 0
    unfolding index
    index_zero = ground arith

    pub cut_bounds : (0 < cut p n m) × (cut p n m ≤ n.slots_in_use)
    cut_bounds = (ground (arith, g.full, g.two), ground (arith, g.full, g.two))

    new_test :
        (x : ℕ)
        → x ≡ m
        → m < n.slots_in_use
        → (key_greater p (n.key_slots (index x)) k && (x == index x)) ≡ true
    new_test x here inside = rw (index_here x here, here) (ground (arith, g.greater inside))

    old_test : (x : ℕ) → x ≢ m → (key_greater p (n.key_slots (index x)) k && (x == index x)) ≡ false
    unfolding index
    old_test x other = ground (arith, g.less x)

    loop-Filled :
        (fuel x : ℕ) (s : LeafSplit K V)
        → Filled p g v x s
        → s.added ≡ ltb m x
        → x ≤ total
        → n.slots_in_use + 1 < fuel + x
        → (s' : LeafSplit K V) × (split_loop p fuel n k v (index x) x s ≡ ok s')
          × Filled p g v total s'
          × (s'.added ≡ ltb m n.slots_in_use)
    unfolding split_loop index
    loop-Filled zero x s f added le lt = absurd (omega (arith, total_le))
    loop-Filled (suc fuel) x s f added le lt = elim (dec_lt (index x) n.slots_in_use) [
      | no done ↦ (
        s,
        ground arith,
        subst (λ (y : ℕ). Filled p g v y s) (total_end x done le) f,
        added ∙ ap (ltb m) (total_end x done le) ∙ flag_end,
      )
      | yes more ↦ elim (ℕ_discrete x m) [
        | yes here ↦
            let (s', run, f', same) =
              put-Filled p g v x (index x) s k v f (omega (arith, index_le x)) (cut_here x here)
                (merged_here n.key_slots k x here) (merged_here n.data_slots v x here) in
            let (s'', rest, f'', end) =
              loop-Filled fuel (x + 1) (record s' { added = true })
                (record {
                  lows = f'.lows;
                  low = f'.low;
                  high = f'.high;
                  lows_eq = f'.lows_eq;
                  j_eq = f'.j_eq;
                })
                (ground arith) (total_next x more) (omega arith) in
            let open_end : leb n.slots_in_use (index x) ≡ false = ground arith in
            let inside : leb leafslots (index x) ≡ false = ground (arith, g.full) in
            let new : (key_greater p (n.key_slots (index x)) k && (x == index x)) ≡ true =
              new_test x here (omega (arith, index_here x here)) in
            let on : (if index x == 0 then 1 else index x) ≡ index (x + 1) = on_here x here in
            (
              s'',
              rw (open_end, inside, new, run)
                  (ap (λ i. split_loop p fuel n k v i (x + 1) (record s' { added = true })) on
                    ∙ rest),
              f'',
              end,
            )
        | no other ↦
            let (s', run, f', same) =
              put-Filled p g v x (index x) s (n.key_slots (index x)) (n.data_slots (index x)) f
                (omega (arith, index_le x)) (cut_other x other) (merged_other n.key_slots k x other)
                (merged_other n.data_slots v x other) in
            let (s'', rest, f'', end) =
              loop-Filled fuel (x + 1) s' f' (same ∙ added ∙ flag_other x other) (total_next x more)
                (omega arith) in
            let open_end : leb n.slots_in_use (index x) ≡ false = ground arith in
            let inside : leb leafslots (index x) ≡ false = ground (arith, g.full) in
            let old : (key_greater p (n.key_slots (index x)) k && (x == index x)) ≡ false =
              old_test x other in
            let on : index x + 1 ≡ index (x + 1) = on_other x other in
            (
              s'',
              rw (open_end, inside, old, run)
                  (ap (λ i. split_loop p fuel n k v i (x + 1) s') on ∙ rest),
              f'',
              end,
            )
      ]
    ]

    -- The new key goes to the end if no key was greater.
    finish-Filled :
        (s : LeafSplit K V)
        → Filled p g v total s
        → s.added ≡ ltb m n.slots_in_use
        → (s' : LeafSplit K V) × ((if s.added then ok s else put_high p s k v) ≡ ok s')
          × Filled p g v (n.slots_in_use + 1) s'
    unfolding total
    finish-Filled s f added = elim (dec_lt m n.slots_in_use) [
      | yes inside ↦
          (s, ground (arith, added), subst (λ (y : ℕ). Filled p g v y s) (ground arith) f)
      | no end ↦
          let here : Filled p g v n.slots_in_use s =
            subst (λ (y : ℕ). Filled p g v y s) (ground arith) f in
          let (s', run, f', same) =
            put_high-Filled p g v n.slots_in_use s k v here
              (ground (arith, g.full, g.two, g.place_le)) (omega arith) (ground (arith, g.place_le))
              (ground (arith, g.place_le)) in
          (s', ground (arith, added, run), f')
    ]

    -- The split of a full leaf of two slots or more and fewer than 65536, by a key whose place
    -- among the keys is not the first, ends with two halves. Of the pairs of the leaf with the new
    -- one at its place, the first half has those before the cut and the second those from it on.
    -- Neither is a root, and neither has a successor yet.
    pub split_leaf-Part :
        (s : LeafSplit K V) × (split_leaf p n k v ≡ ok s)
        × Part p n k v m 0 (cut p n m) s.low
        × Part p n k v m (cut p n m) (n.slots_in_use + 1 - cut p n m) s.high
    unfolding split_leaf new_leaf
    split_leaf-Part =
        let start : LeafSplit K V = record {
          low = new_leaf p;
          high = new_leaf p;
          j = 0;
          added = false;
        } in
        let empty : (from : ℕ) → Part p n k v m from 0 (new_leaf p) = λ from. record {
          slots_eq = refl;
          in_use = refl;
          plain = refl;
          next_null = refl;
          keys = λ i lt. absurd (omega arith);
          data_at = λ i lt. absurd (omega arith);
        } in
        let (s, run, f, added) =
          loop-Filled (2 * n.slots_in_use + 2) 0 start
            (record {
              lows = 0;
              low = empty 0;
              high = empty (cut p n m);
              lows_eq = ground arith;
              j_eq = omega arith;
            })
            (ground arith) (omega arith) (ground (arith, g.full, g.two)) in
        let (s', last, f') = finish-Filled s f added in
        (
          s',
          rw (ap (λ i. split_loop p (2 * n.slots_in_use + 2) n k v i 0 start) index_zero ∙ run)
              last,
          subst (λ (i : ℕ). Part p n k v m 0 i s'.low)
              (f'.lows_eq
                ∙ rw (le→ltb (n.slots_in_use + 1) (cut p n m) (omega (arith, cut_bounds))))
              f'.low,
          subst (λ (i : ℕ). Part p n k v m (cut p n m) i s'.high) f'.j_eq f'.high,
        )
