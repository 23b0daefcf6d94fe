-- ===== src/Find/Bounds.antt =====
-- The bounds of the children of an inner node, and those of the node.
use ccpbtree.Base.{
  ℕ, zero, suc, ◌≤◌, ◌<◌, ◌≡◌, true, false, some, none, Option, arith, lt→ltb, le→ltb,
}
use native.Mathlib.Decide.{dec_lt}
use ccpbtree.Store.{InnerNode, Traits}
use ccpbtree.KeyOrder.{IsTotal, le_trans}
use ccpbtree.Find.Shape.{AtLeast, Below, lower, upper, InnerShape}

module _ {K V : Type 0} (p : Traits K V) where
  open p use {keyless}

  pub lower_of :
      (n : InnerNode K) (lo : Option K) (k : K) (i : ℕ)
      → ((j : ℕ) → j < i → keyless k (n.key_slots j) ≡ false)
      → AtLeast p lo k
      → AtLeast p (lower p n lo i) k
  lower_of n lo k zero before h = h
  lower_of n lo k (suc i) before h = before i (omega arith)

  pub upper_of :
      (n : InnerNode K) (hi : Option K) (k : K) (i : ℕ)
      → (i < n.slots_in_use → keyless k (n.key_slots i) ≡ true)
      → Below p hi k
      → Below p (upper p n hi i) k
  upper_of n hi k i hit h = elim (dec_lt i n.slots_in_use) [
    | yes inside ↦ rw (lt→ltb i n.slots_in_use inside) (hit inside)
    | no outside ↦ rw (le→ltb i n.slots_in_use (omega arith)) h
  ]

  module _ (o : IsTotal p) where
    pub AtLeast-trans :
        (lo : Option K) (a b : K) → AtLeast p lo a → keyless b a ≡ false → AtLeast p lo b
    AtLeast-trans none a b h g = tt
    AtLeast-trans (some c) a b h g = le_trans o c a b h g

    pub Below-trans : (hi : Option K) (a b : K) → Below p hi a → keyless b a ≡ true → Below p hi b
    Below-trans none a b h g = tt
    Below-trans (some c) a b h g = o.transitive b a c g h

    pub lower_back :
        (n : InnerNode K) (lo hi : Option K) (k : K) (i : ℕ)
        → InnerShape p n lo hi
        → i ≤ n.slots_in_use
        → AtLeast p (lower p n lo i) k
        → AtLeast p lo k
    lower_back n lo hi k zero s le h = h
    lower_back n lo hi k (suc i) s le h = AtLeast-trans lo (n.key_slots i) k (s.at_least i le) h

    pub upper_back :
        (n : InnerNode K) (lo hi : Option K) (k : K) (i : ℕ)
        → InnerShape p n lo hi
        → Below p (upper p n hi i) k
        → Below p hi k
    upper_back n lo hi k i s h = elim (dec_lt i n.slots_in_use) [
      | yes inside ↦
          Below-trans hi (n.key_slots i) k (s.below i inside)
            (rw (lt→ltb i n.slots_in_use inside) at h)
      | no outside ↦ rw (le→ltb i n.slots_in_use (omega arith)) at h
    ]

    -- A key at the lower bound of child `i` is not below any key before that child.
    pub lower_all :
        (n : InnerNode K) (lo hi : Option K) (k : K) (i j : ℕ)
        → InnerShape p n lo hi
        → i ≤ n.slots_in_use
        → AtLeast p (lower p n lo i) k
        → j < i
        → keyless k (n.key_slots j) ≡ false
    lower_all n lo hi k zero j s inside h lt = absurd (omega arith)
    lower_all n lo hi k (suc i) j s inside h lt = elim (dec_lt j i) [
      | yes less ↦ le_trans o (n.key_slots j) (n.key_slots i) k (s.sorted j i less inside) h
      | no same ↦ let e : j ≡ i = omega arith in rw e h
    ]

  pub upper_hit :
      (n : InnerNode K) (hi : Option K) (k : K) (i : ℕ)
      → Below p (upper p n hi i) k
      → i < n.slots_in_use
      → keyless k (n.key_slots i) ≡ true
  upper_hit n hi k i h inside = rw (lt→ltb i n.slots_in_use inside) at h
