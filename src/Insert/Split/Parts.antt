-- ===== src/Insert/Split/Parts.antt =====
-- The halves of a split leaf while the rounds of the split fill them.
use ccpbtree.Base.{
  ℕ, ◌+◌, ◌-◌, ◌/◌, ◌≤◌, ◌<◌, ◌≡◌, refl, true, false, arith, ltb, ◌==◌, if◌then◌else◌, put, ap, ◌∙◌,
  lt→ltb, le→ltb,
}
use mathlib.Core.Path.{subst}
use native.Mathlib.Decide.{dec_lt, ℕ_discrete}
use ccpbtree.Store.{LeafNode, Traits, ok, null}
use ccpbtree.Leaf.{insert_leaf_key_at, insert_leaf_data_at}
use ccpbtree.Insert.Split.{LeafSplit, put_pair, put_low, put_high}

-- The array `a` with `v` put in at index `m`.
abbrev pub merged : {A : Type 0} → (ℕ → A) → ℕ → A → ℕ → A
merged a m v i = if ltb i m then a i else if i == m then v else a (i - 1)

module _ {K V : Type 0} (p : Traits K V) where
  open p use {keyless, leafslots}

  -- A pair put behind those of a leaf with room.
  put_pair-room :
      (l : LeafNode K V) (k : K) (v : V) (i : ℕ)
      → l.slots ≡ leafslots
      → l.slots_in_use ≡ i
      → i < leafslots
      → leafslots < 65536
      → put_pair p l k v i
        ≡ ok (record l {
          key_slots = put l.key_slots i k;
          data_slots = put l.data_slots i v;
          slots_in_use = i + 1;
        })
  unfolding put_pair insert_leaf_key_at insert_leaf_data_at
  put_pair-room l k v i slots used inside small = ground arith

  -- The leaf `n` is full and has two keys or more; the place of `k` is `m`, which is not the first.
  pub record Split (n : LeafNode K V) (k : K) (m : ℕ) : Type 0 where
    pub full : n.slots_in_use ≡ leafslots
    pub two : 1 < leafslots
    pub small : leafslots < 65536
    pub place_pos : 0 < m
    pub place_le : m ≤ n.slots_in_use
    pub less : (i : ℕ) → i < m → keyless k (n.key_slots i) ≡ false
    pub greater : m < n.slots_in_use → keyless k (n.key_slots m) ≡ true

  -- As many pairs go to the first half.
  abbrev pub cut : LeafNode K V → ℕ → ℕ
  cut n m = if ltb m (n.slots_in_use / 2) then n.slots_in_use / 2 + 1 else n.slots_in_use / 2

  -- `l` has the pairs `from`, … of the leaf with the new one put in.
  pub record Part (n : LeafNode K V) (k : K) (v : V) (m from count : ℕ) (l : LeafNode K V)
      : Type 0 where
    pub slots_eq : l.slots ≡ leafslots
    pub in_use : l.slots_in_use ≡ count
    pub plain : l.is_root_node ≡ false
    pub next_null : l.next_leaf ≡ null
    pub keys : (i : ℕ) → i < count → l.key_slots i ≡ merged n.key_slots m k (from + i)
    pub data_at : (i : ℕ) → i < count → l.data_slots i ≡ merged n.data_slots m v (from + i)

  Part-put :
      (n : LeafNode K V) (k : K) (v : V) (m from count : ℕ) (l : LeafNode K V)
      → Part n k v m from count l
      → (a : K) (b : V) → a ≡ merged n.key_slots m k (from + count)
      → b ≡ merged n.data_slots m v (from + count)
      → Part n k v m from (count + 1) (record l {
        key_slots = put l.key_slots count a;
        data_slots = put l.data_slots count b;
        slots_in_use = count + 1;
      })
  Part-put n k v m from count l w a b ea eb = record {
    slots_eq = w.slots_eq;
    in_use = refl;
    plain = w.plain;
    next_null = w.next_null;
    keys = λ i lt. elim (ℕ_discrete i count) [
      | yes same ↦ rw same (ground (arith, ea))
      | no other ↦ ground (arith, w.keys i)
    ];
    data_at = λ i lt. elim (ℕ_discrete i count) [
      | yes same ↦ rw same (ground (arith, eb))
      | no other ↦ ground (arith, w.data_at i)
    ];
  }

  module _ {n : LeafNode K V} {k : K} {m : ℕ} (g : Split n k m) (v : V) where
    -- After `x` rounds the first `x` pairs have been put, those behind the cut into the second half.
    pub record Filled (x : ℕ) (s : LeafSplit K V) : Type 0 where
      pub lows : ℕ
      pub low : Part n k v m 0 lows s.low
      pub high : Part n k v m (cut n m) s.j s.high
      pub lows_eq : lows ≡ (if ltb x (cut n m) then x else cut n m)
      pub j_eq : s.j ≡ x - cut n m

    put_low-Filled :
        (x : ℕ) (s : LeafSplit K V) (a : K) (b : V)
        → Filled x s
        → x < cut n m
        → a ≡ merged n.key_slots m k x
        → b ≡ merged n.data_slots m v x
        → (s' : LeafSplit K V) × (put_low p s a b x ≡ ok s')
          × Filled (x + 1) s'
          × (s'.added ≡ s.added)
    unfolding put_low
    put_low-Filled x s a b f lt ea eb =
        let part = subst (λ (i : ℕ). Part n k v m 0 i s.low) (lows_here) f.low in
        (
          record s {
            low = record s.low {
              key_slots = put s.low.key_slots x a;
              data_slots = put s.low.data_slots x b;
              slots_in_use = x + 1;
            };
          },
          rw (
              put_pair-room s.low a b x part.slots_eq part.in_use (ground (arith, g.full, g.two))
                g.small),
          record {
            lows = x + 1;
            low =
                Part-put n k v m 0 x s.low part a b (ea ∙ ap (merged n.key_slots m k) (omega arith))
                  (eb ∙ ap (merged n.data_slots m v) (omega arith));
            high = f.high;
            lows_eq = ground arith;
            j_eq = ground (arith, f.j_eq);
          },
          refl,
        )
      where
        lows_here : f.lows ≡ x
        lows_here = ground (arith, f.lows_eq)

    pub put_high-Filled :
        (x : ℕ) (s : LeafSplit K V) (a : K) (b : V)
        → Filled x s
        → cut n m ≤ x
        → x ≤ n.slots_in_use
        → a ≡ merged n.key_slots m k x
        → b ≡ merged n.data_slots m v x
        → (s' : LeafSplit K V) × (put_high p s a b ≡ ok s')
          × Filled (x + 1) s'
          × (s'.added ≡ s.added)
    unfolding put_high
    put_high-Filled x s a b f le inside ea eb = (
      record s {
        high = record s.high {
          key_slots = put s.high.key_slots s.j a;
          data_slots = put s.high.data_slots s.j b;
          slots_in_use = s.j + 1;
        };
        j = s.j + 1;
      },
      rw (
          put_pair-room s.high a b s.j f.high.slots_eq f.high.in_use
            (ground (arith, g.full, g.two, g.place_pos, f.j_eq)) g.small),
      record {
        lows = f.lows;
        low = f.low;
        high =
            Part-put n k v m (cut n m) s.j s.high f.high a b
              (ea ∙ ap (merged n.key_slots m k) (omega (arith, f.j_eq)))
              (eb ∙ ap (merged n.data_slots m v) (omega (arith, f.j_eq)));
        lows_eq = ground (arith, f.lows_eq);
        j_eq = omega (arith, f.j_eq);
      },
      refl,
    )

    -- One round puts the pair that is next.
    pub put-Filled :
        (x i : ℕ) (s : LeafSplit K V) (a : K) (b : V)
        → Filled x s
        → x ≤ n.slots_in_use
        → ltb i (n.slots_in_use / 2) ≡ ltb x (cut n m)
        → a ≡ merged n.key_slots m k x
        → b ≡ merged n.data_slots m v x
        → (s' : LeafSplit K V) × ((if ltb i (n.slots_in_use / 2)
              then put_low p s a b x
              else put_high p s a b)
            ≡ ok s')
          × Filled (x + 1) s'
          × (s'.added ≡ s.added)
    put-Filled x i s a b f inside same ea eb = elim (dec_lt x (cut n m)) [
      | yes low ↦ rw (same, lt→ltb x (cut n m) low) (put_low-Filled x s a b f low ea eb)
      | no high ↦
          rw (same, le→ltb x (cut n m) (omega arith))
            (put_high-Filled x s a b f (omega arith) inside ea eb)
    ]
