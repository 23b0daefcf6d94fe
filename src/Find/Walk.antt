-- ===== src/Find/Walk.antt =====
-- The walk of `find` over the leaves ends at a leaf with the same pairs for the key.
use ccpbtree.Base.{
  ℕ, suc, ◌<◌, ◌≡◌, ◌≢◌, ap, ◌∙◌, ◌↔◌, ◌⊎◌, true, false, inl, inr, Bool-cases, some, none, Option,
  arith,
}
use native.Mathlib.Decide.{dec_lt}
use ccpbtree.Store.{Ptr, null, LeafNode, leaf, Tree, Traits, ok}
use ccpbtree.Store.Points.{Points, load_leaf-ok}
use ccpbtree.KeyOrder.{IsTotal, key_greater_equal, lt_le_trans, asymmetric}
use ccpbtree.Leaf.{scan, is_full}
use ccpbtree.Leaf.Scan.{scan-before, scan_unique}
use ccpbtree.Find.{walk}
use ccpbtree.Find.Shape.{Below, Beyond, Successor, LeafShape, InLeaf}

module _ {K V : Type 0} (p : Traits K V) where
  open p use {keyless}

  -- The first slot with a key at least `k`, or the number of slots in use.
  abbrev pub reach : LeafNode K V → K → ℕ
  reach l k = scan p (λ s. key_greater_equal p s k) l.key_slots l.slots_in_use 0

  module _ (o : IsTotal p) where
    passed : (l : LeafNode K V) (k : K) (v : V) → ¬ (reach l k < l.slots_in_use) → ¬ InLeaf l k v
    passed l k v past (m, inside, e, d) = cc (
      scan-before p (λ s. key_greater_equal p s k) l.key_slots l.slots_in_use 0 m (omega arith)
          (omega arith),
      ap (λ x. keyless x k) e,
      o.irreflexive k,
    )

    pub Beyond-ne : (hi : Option K) (k a : K) → Below p hi k → Beyond p hi a → keyless k a ≡ true
    Beyond-ne none k a b c = absurd c
    Beyond-ne (some h) k a b c = lt_le_trans o k h a b c

-- A walk that ends at `q` from the leaf `l`: a leaf with the same pairs for the key.
abbrev pub Ended : {K V : Type 0} → Tree K V → LeafNode K V → K → Ptr → Type 0
Ended {K} {V} t l k q =
    (m : LeafNode K V) × Points t q (leaf m) × ((v : V) → InLeaf m k v ↔ InLeaf l k v)

module _ {K V : Type 0} (p : Traits K V) {t : Tree K V} where
  open p use {keyless}

  pub walk-stop :
      (fuel : ℕ) {q : Ptr} (l : LeafNode K V) (k : K)
      → Points t q (leaf l)
      → (reach p l k < l.slots_in_use) ⊎ (l.next_leaf ≡ null)
      → walk p (suc fuel) q k t ≡ ok (q, t)
  unfolding walk
  walk-stop fuel l k e stop = ground (arith, e.ne_null, load_leaf-ok e)

  walk-full :
      (fuel : ℕ) {q : Ptr} (l : LeafNode K V) (k : K)
      → Points t q (leaf l)
      → ¬ (reach p l k < l.slots_in_use)
      → l.next_leaf ≢ null
      → is_full p l ≡ true
      → walk p (suc fuel) q k t ≡ walk p fuel l.next_leaf k t
  unfolding walk
  walk-full fuel l k e past there full = ground (arith, e.ne_null, load_leaf-ok e)

  pub walk-room :
      (fuel : ℕ) {q : Ptr} (l : LeafNode K V) (k : K)
      → Points t q (leaf l)
      → is_full p l ≡ false
      → walk p (suc fuel) q k t ≡ ok (q, t)
  unfolding walk
  walk-room fuel l k e room = ground (arith, e.ne_null, load_leaf-ok e)

  module _ (o : IsTotal p) where
    jump :
        (fuel : ℕ) (l : LeafNode K V) (hi : Option K) (k : K)
        → Below p hi k
        → ¬ (reach p l k < l.slots_in_use)
        → Successor p t l.next_leaf hi
        → Ended t l k l.next_leaf × (walk p (suc fuel) l.next_leaf k t ≡ ok (l.next_leaf, t))
    jump fuel l hi k b past s = (
      (
        m,
        s.here,
        λ v. (
          λ (i, inside, e, d). absurd (cc (above i inside, o.irreflexive k)),
          λ held. absurd (passed p o l k v past held),
        ),
      ),
      walk-stop fuel m k s.here (inl (rw first s.in_use_pos)),
    )
      where
        m : LeafNode K V
        m = s.node

        above : (i : ℕ) → i < m.slots_in_use → keyless k (m.key_slots i) ≡ true
        above i inside = Beyond-ne p o hi k (m.key_slots i) b (s.beyond i inside)

        first : reach p m k ≡ 0
        first =
            scan_unique p (λ s. key_greater_equal p s k) m.key_slots m.slots_in_use 0 0
              (omega arith) (omega arith) (λ j g h. absurd (omega arith))
              (λ g. rw (asymmetric o k (m.key_slots 0) (above 0 s.in_use_pos)))

    -- The walk ends at a leaf that has the same pairs for the key as the leaf that it starts from.
    pub walk-Ended :
        (fuel : ℕ) {q : Ptr} (l : LeafNode K V) (lo hi : Option K) (k : K)
        → Points t q (leaf l)
        → LeafShape p t l lo hi
        → Below p hi k
        → (r : Ptr) × Ended t l k r × (walk p (suc (suc fuel)) q k t ≡ ok (r, t))
    walk-Ended fuel {q} l lo hi k e s b = elim s.next [
      | inl absent ↦ (q, stay, walk-stop (suc fuel) l k e (inr absent))
      | inr next ↦ elim (dec_lt (reach p l k) l.slots_in_use) [
        | yes hit ↦ (q, stay, walk-stop (suc fuel) l k e (inl hit))
        | no past ↦ elim (Bool-cases (is_full p l)) [
          | inl full ↦
              let (ended, run) = jump fuel l hi k b past next in
              (l.next_leaf, ended, walk-full (suc fuel) l k e past next.here.ne_null full ∙ run)
          | inr room ↦ (q, stay, walk-room (suc fuel) l k e room)
        ]
      ]
    ]
      where
        stay : Ended t l k q
        stay = (l, e, λ v. (λ held. held, λ held. held))
