-- ===== src/Insert/Split/Full.antt =====
-- A full leaf and a new key: the order of its keys with the new one, and what its halves hold.
use ccpbtree.Base.{
  ℕ, ◌+◌, ◌-◌, ◌/◌, refl, le→ltb, ◌≤◌, ◌<◌, ◌≡◌, ◌≢◌, ap, ◌∙◌, ◌⊎◌, ◌↔◌, inl, inr, Bool-cases, true,
  false, none, some, arith,
}
use native.Mathlib.Decide.{dec_lt, ℕ_discrete}
use ccpbtree.Store.{Ptr, LeafNode, leaf, Tree, Traits}
use ccpbtree.Store.Points.{Points}
use ccpbtree.KeyOrder.{IsTotal, asymmetric}
use ccpbtree.Leaf.{find_key_loc}
use ccpbtree.Leaf.Keys.{IsStrict, find_key_loc-place, find_key_loc-last}
use ccpbtree.Find.Shape.{LeafShape, InLeaf}
use ccpbtree.Insert.Split.Parts.{merged, Split, cut, Part}

-- A full leaf in strict order; the key is above its first one and not among the others.
pub record FullLeaf {K V : Type 0} (p : Traits K V) (l : LeafNode K V) (k : K) : Type 0 where
  pub small : p.leafslots < 65536
  pub full : l.slots_in_use ≡ p.leafslots
  pub two : 1 < p.leafslots
  pub strict :
      (i j : ℕ) → i < j → j < l.slots_in_use → p.keyless (l.key_slots i) (l.key_slots j) ≡ true
  pub first : p.keyless (l.key_slots 0) k ≡ true
  pub absent : (i : ℕ) → i < l.slots_in_use → l.key_slots i ≢ k

module _ {K V : Type 0} (p : Traits K V) (o : IsTotal p) {l : LeafNode K V} {k : K}
    (f : FullLeaf p l k) where
  open p use {keyless, leafslots, nodeslots}

  pub place : ℕ
  place = find_key_loc p l k

  place_less : (i : ℕ) → i < place → keyless (l.key_slots i) k ≡ true
  unfolding place
  place_less i h = (find_key_loc-place p l k).1 i h

  pub place_le : place ≤ l.slots_in_use
  unfolding place
  place_le = (find_key_loc-place p l k).0

  place_greater : place < l.slots_in_use → keyless k (l.key_slots place) ≡ true
  unfolding place
  place_greater h = elim (Bool-cases (keyless k (l.key_slots place))) [
    | inl less ↦ less
    | inr other ↦ absurd (
        f.absent place h
          (o.trichotomy (l.key_slots place) k ((find_key_loc-place p l k).2 h) other))
  ]

  above : (i : ℕ) → place ≤ i → i < l.slots_in_use → keyless k (l.key_slots i) ≡ true
  above i h g = elim (dec_lt place i) [
    | yes later ↦
        o.transitive k (l.key_slots place) (l.key_slots i) (place_greater (omega arith))
          (f.strict place i later g)
    | no same ↦ let e : i ≡ place = omega arith in rw e (place_greater (omega arith))
  ]

  place_pos : 0 < place
  place_pos = elim (dec_lt 0 place) [
    | yes done ↦ done
    | no zero_place ↦ cc (
      above 0 (omega arith) (omega (arith, f.full, f.two)),
      asymmetric o (l.key_slots 0) k f.first,
    )
  ]

  pub FullLeaf-Split : Split p l k place
  FullLeaf-Split = record {
    full = f.full;
    two = f.two;
    small = f.small;
    place_pos = place_pos;
    place_le = place_le;
    less = λ i h. asymmetric o (l.key_slots i) k (place_less i h);
    greater = place_greater;
  }

  -- The keys with the new one at its place ascend strictly.
  pub merged_less :
      (i j : ℕ)
      → i < j
      → j ≤ l.slots_in_use
      → keyless (merged l.key_slots place k i) (merged l.key_slots place k j) ≡ true
  merged_less i j less inside = ground (
    arith,
    f.strict i j,
    f.strict i (j - 1),
    f.strict (i - 1) (j - 1),
    place_less i,
    above (j - 1),
    place_le,
  )

  pub merged_le :
      (i j : ℕ)
      → i ≤ j
      → j ≤ l.slots_in_use
      → keyless (merged l.key_slots place k j) (merged l.key_slots place k i) ≡ false
  merged_le i j le inside = elim (dec_lt i j) [
    | yes less ↦
        asymmetric o (merged l.key_slots place k i) (merged l.key_slots place k j)
          (merged_less i j less inside)
    | no same ↦ let e : i ≡ j = omega arith in rw e (o.irreflexive (merged l.key_slots place k j))
  ]

  pub Part-IsStrict :
      {d : V} {from count : ℕ} {x : LeafNode K V}
      → Part p l k d place from count x
      → from + count ≤ l.slots_in_use + 1
      → IsStrict p x
  Part-IsStrict {d} {from} w le i j less inside =
      rw (w.keys i (omega (arith, w.in_use)), w.keys j (omega (arith, w.in_use)))
        (merged_less (from + i) (from + j) (omega arith) (omega (arith, w.in_use)))

  Part-sorted :
      {d : V} {from count : ℕ} {x : LeafNode K V}
      → Part p l k d place from count x
      → from + count ≤ l.slots_in_use + 1
      → (i j : ℕ) → i < j
      → j < count
      → keyless (x.key_slots j) (x.key_slots i) ≡ false
  Part-sorted {d} {from} w le i j less inside =
      rw (w.keys i (omega arith), w.keys j inside)
        (merged_le (from + i) (from + j) (omega arith) (omega arith))

  -- The pairs of the leaf with the new one at its place.
  abbrev Among : V → K → V → Type 0
  Among d a v =
      (i : ℕ) × (i ≤ l.slots_in_use)
      × (merged l.key_slots place k i ≡ a)
      × (merged l.data_slots place d i ≡ v)

  Among-iff : (d : V) (a : K) (v : V) → Among d a v ↔ (((a ≡ k) × (v ≡ d)) ⊎ InLeaf l a v)
  Among-iff d a v = (
    λ (i, inside, e, g). elim (ℕ_discrete i place) [
      | yes same ↦ inl (ground (arith, e), ground (arith, g))
      | no other ↦ elim (dec_lt i place) [
        | yes before ↦ inr (i, omega (arith, place_le), ground (arith, e), ground (arith, g))
        | no behind ↦ inr (i - 1, omega arith, ground (arith, e), ground (arith, g))
      ]
    ],
    λ s. elim s [
      | inl (e, g) ↦ (place, place_le, ground (arith, e), ground (arith, g))
      | inr (i, inside, e, g) ↦ elim (dec_lt i place) [
        | yes before ↦ (i, omega arith, ground (arith, e), ground (arith, g))
        | no behind ↦ (i + 1, omega arith, ground (arith, e), ground (arith, g))
      ]
    ],
  )

  Part-Among :
      {d : V} {from count : ℕ} {x : LeafNode K V} {a : K} {v : V}
      → Part p l k d place from count x
      → from + count ≤ l.slots_in_use + 1
      → InLeaf x a v
      → Among d a v
  Part-Among {d} {from} {count} w le (i, inside, e, g) =
      let lt : i < count = omega (arith, w.in_use, inside) in
      (from + i, omega (arith, w.in_use), cc (w.keys i lt, e), cc (w.data_at i lt, g))

  abbrev pub middle : ℕ
  middle = cut p l place

  pub middle_bounds : (0 < middle) × (middle ≤ l.slots_in_use)
  middle_bounds = (ground (arith, f.full, f.two), ground (arith, f.full, f.two))

  -- The first key stays the first one.
  pub Part-first :
      {d : V} {x : LeafNode K V} → Part p l k d place 0 middle x → x.key_slots 0 ≡ l.key_slots 0
  Part-first w = w.keys 0 (omega (arith, middle_bounds)) ∙ ground (arith, place_pos)

  -- A key above all others goes behind them, and the lower half keeps half of the slots.
  module _ (less_all : (i : ℕ) → i < l.slots_in_use → keyless (l.key_slots i) k ≡ true) where
    pub place-last : place ≡ l.slots_in_use
    unfolding place
    place-last = find_key_loc-last p l k less_all

    pub middle-last : middle ≡ leafslots / 2
    middle-last =
        rw (place-last, le→ltb l.slots_in_use (l.slots_in_use / 2) (omega arith), f.full) refl

  module _ {d : V} {x y : LeafNode K V} (low : Part p l k d place 0 middle x)
      (high : Part p l k d place middle (l.slots_in_use + 1 - middle) y) where
    pub first_key : y.key_slots 0 ≡ merged l.key_slots place k middle
    first_key =
        high.keys 0 (omega (arith, middle_bounds)) ∙ ap (merged l.key_slots place k) (omega arith)

    pub low_below : (i : ℕ) → i < middle → keyless (x.key_slots i) (y.key_slots 0) ≡ true
    low_below i h =
        rw (low.keys i h, first_key)
          (merged_less (0 + i) middle (omega arith) (omega (arith, middle_bounds)))

    pub high_least :
        (i : ℕ) → i < l.slots_in_use + 1 - middle → keyless (y.key_slots i) (y.key_slots 0) ≡ false
    high_least i h =
        rw (high.keys i h, first_key)
          (merged_le middle (middle + i) (omega arith) (omega (arith, middle_bounds)))

    pub high_shape :
        (t' : Tree K V) (q r : Ptr)
        → LeafShape p t' (record y { parent = r; prev_leaf = q }) (some (y.key_slots 0)) none
    high_shape t' q r = record {
      in_use_le = omega (arith, high.in_use, middle_bounds, f.full);
      sorted = λ i j less inside.
          Part-sorted high (omega (arith, middle_bounds)) i j less (omega (arith, high.in_use));
      at_least = λ i inside. high_least i (omega (arith, high.in_use));
      below = λ i inside. tt;
      next = inl high.next_null;
    }

    pub low_shape :
        {t' : Tree K V} {q r a : Ptr}
        → Points t' q (leaf (record y { parent = r; prev_leaf = a }))
        → LeafShape p t' (record x { parent = r; next_leaf = q }) none (some (y.key_slots 0))
    low_shape {q = q} {r = r} {a = a} e = record {
      in_use_le = omega (arith, low.in_use, middle_bounds, f.full);
      sorted = λ i j less inside.
          Part-sorted low (omega (arith, middle_bounds)) i j less (omega (arith, low.in_use));
      at_least = λ i inside. tt;
      below = λ i inside. low_below i (omega (arith, low.in_use));
      next = inr (record {
        node = record y { parent = r; prev_leaf = a };
        here = e;
        in_use_pos = omega (arith, high.in_use, middle_bounds);
        beyond = λ i inside. high_least i (omega (arith, high.in_use));
      });
    }

    pub halves_iff :
        (a : K) (v : V) → (InLeaf x a v ⊎ InLeaf y a v) ↔ (((a ≡ k) × (v ≡ d)) ⊎ InLeaf l a v)
    halves_iff a v = (
      λ s. elim s [
        | inl held ↦ (Among-iff d a v).0 (Part-Among low (omega (arith, middle_bounds)) held)
        | inr held ↦ (Among-iff d a v).0 (Part-Among high (omega (arith, middle_bounds)) held)
      ],
      λ s.
          let (i, inside, e, g) = (Among-iff d a v).1 s in
          elim (dec_lt i middle) [
            | yes before ↦
                let back : 0 + i ≡ i = omega arith in
                inl (
                  i,
                  omega (arith, low.in_use),
                  cc (low.keys i before, e, ap (merged l.key_slots place k) back),
                  cc (low.data_at i before, g, ap (merged l.data_slots place d) back),
                )
            | no behind ↦
                let j : ℕ = i - middle in
                let lt : j < l.slots_in_use + 1 - middle = omega arith in
                let back : middle + j ≡ i = omega arith in
                inr (
                  j,
                  omega (arith, high.in_use),
                  cc (high.keys j lt, e, ap (merged l.key_slots place k) back),
                  cc (high.data_at j lt, g, ap (merged l.data_slots place d) back),
                )
          ],
    )
