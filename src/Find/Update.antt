-- ===== src/Find/Update.antt =====
-- The leaf at the end of the descent is written: the tree is a search tree again.
use ccpbtree.Base.{le→ltb, ℕ, zero, suc, ◌≤◌, ◌<◌, ◌≡◌, ◌≢◌, ◌⊎◌, true, Option, arith, lt→ltb, sym}
use mathlib.Core.Path.{subst}
use native.Mathlib.Decide.{dec_lt, ℕ_discrete}
use ccpbtree.Store.{Ptr, null, LeafNode, InnerNode, leaf, Tree, Traits}
use ccpbtree.Store.Points.{Points}
use ccpbtree.KeyOrder.{IsTotal, le_trans, lt_le_trans}
use ccpbtree.Leaf.Keys.{IsSorted}
use ccpbtree.Find.Shape.{
  AtLeast, Below, Beyond, lower, upper, Successor, LeafShape, InnerShape, Subtree, leaf_at,
  inner_at,
}
use ccpbtree.Find.Descend.{choice}
use ccpbtree.Find.Route.{Route, stop, down, choice_inside, choice-before, Route-bounds}
use ccpbtree.Find.Replace.{
  Replaced, new_here, Points-inner, Covered, Covered-all, Away, right, left, Under, Below-not,
  first-Beyond, next-Replaced, frame,
}

module _ {K V : Type 0} (p : Traits K V) where
  open p use {keyless, leafslots}

  -- The leaf that is written: in order, in bounds, with the same successor.
  pub record Written (k : K) (l l' : LeafNode K V) : Type 0 where
    pub covered : Covered p k l l'
    pub in_use_le : l'.slots_in_use ≤ leafslots
    pub sorted : IsSorted p l'.key_slots l'.slots_in_use
    pub next_same : l'.next_leaf ≡ l.next_leaf

  module _ (o : IsTotal p) where
    -- The key at child `j`, if `a` is not below the lower bound of a later child.
    Beyond-before :
        (n : InnerNode K) (lo hi : Option K) (a : K) (i j : ℕ)
        → InnerShape p n lo hi
        → i ≤ n.slots_in_use
        → AtLeast p (lower p n lo i) a
        → j < i
        → Beyond p (upper p n hi j) a
    Beyond-before n lo hi a zero j s inside h lt = absurd (omega arith)
    Beyond-before n lo hi a (suc i) j s inside h lt =
        rw (lt→ltb j n.slots_in_use (omega arith)) (elim (dec_lt j i) [
          | yes less ↦ le_trans o (n.key_slots j) (n.key_slots i) a (s.sorted j i less inside) h
          | no same ↦ let e : j ≡ i = omega arith in rw e h
        ])

    -- The key before child `j`, if `a` is below the upper bound of an earlier child.
    Under-after :
        (n : InnerNode K) (lo hi : Option K) (a : K) (i j : ℕ)
        → InnerShape p n lo hi
        → j ≤ n.slots_in_use
        → Below p (upper p n hi i) a
        → i < j
        → Under p (lower p n lo j) a
    Under-after n lo hi a i zero s inside h lt = absurd (omega arith)
    Under-after n lo hi a i (suc j) s inside h lt =
        let b : keyless a (n.key_slots i) ≡ true =
          rw (lt→ltb i n.slots_in_use (omega arith)) at h in
        elim (dec_lt i j) [
          | yes less ↦ lt_le_trans o a (n.key_slots i) (n.key_slots j) b (s.sorted i j less inside)
          | no same ↦ let e : j ≡ i = omega arith in rw e b
        ]

    -- `a` below the upper bounds of an earlier child is below that of a later one.
    Below-after :
        (n : InnerNode K) (lo hi : Option K) (a : K) (i j : ℕ)
        → InnerShape p n lo hi
        → Below p hi a
        → Below p (upper p n hi i) a
        → i < j
        → Below p (upper p n hi j) a
    Below-after n lo hi a i j s b h lt = elim (dec_lt j n.slots_in_use) [
      | yes inside ↦ rw (lt→ltb j n.slots_in_use inside) (
          lt_le_trans o a (n.key_slots i) (n.key_slots j)
            (rw (lt→ltb i n.slots_in_use (omega arith)) at h) (s.sorted i j lt inside))
      | no outside ↦ rw (le→ltb j n.slots_in_use (omega arith)) b
    ]

    module _ {t t' : Tree K V} {k : K} {q : Ptr} {l l' : LeafNode K V} (c : Replaced t t' q l l')
        (w : Written k l l') where
      -- Every child but the chosen one is away from the leaf.
      other-Away :
          (n : InnerNode K) (lo hi : Option K) (j : ℕ)
          → InnerShape p n lo hi
          → j ≤ n.slots_in_use
          → j ≢ choice p n k
          → AtLeast p (lower p n lo (choice p n k)) (l.key_slots 0)
          → Below p (upper p n hi (choice p n k)) (l.key_slots 0)
          → Below p hi (l.key_slots 0)
          → Away p k (l.key_slots 0) (lower p n lo j) (upper p n hi j)
      other-Away n lo hi j s inside different above below top = elim (dec_lt j (choice p n k)) [
        | yes before ↦
            right
              (Beyond-before n lo hi (l.key_slots 0) (choice p n k) j s (choice_inside p n k) above
                before)
              (rw (lt→ltb j n.slots_in_use (omega (arith, choice_inside p n k)))
                (choice-before p n k j before))
        | no after ↦
            left (Under-after n lo hi (l.key_slots 0) (choice p n k) j s inside below (omega arith))
              (Below-after n lo hi (l.key_slots 0) (choice p n k) j s top below (omega arith))
      ]

      leaf-Written :
          {lo hi : Option K}
          → LeafShape p t l lo hi
          → AtLeast p lo k
          → Below p hi k
          → LeafShape p t' l' lo hi
      leaf-Written {lo} {hi} s a b = record {
        in_use_le = w.in_use_le;
        sorted = w.sorted;
        at_least = Covered-all p (AtLeast p lo) w.covered a s.at_least;
        below = Covered-all p (Below p hi) w.covered b s.below;
        next =
            subst (λ (r : Ptr). (r ≡ null) ⊎ Successor p t' r hi) (sym w.next_same)
              (next-Replaced p o c w.covered l
                (λ succ same. absurd (
                  Below-not p o hi (l.key_slots 0) (s.below 0 w.covered.used)
                    (first-Beyond p o c w.covered l.next_leaf hi same succ)))
                s.next);
      }

      pub Route-Subtree :
          {h : ℕ} {r : Ptr} {lo hi : Option K} → Route p t k q l h r lo hi → Subtree p t' h r lo hi
      Route-Subtree {lo = lo} {hi = hi} (stop {r} same s a b) =
          leaf_at l' (subst (λ (y : Ptr). Points t' y (leaf l')) (sym same) (new_here c))
            (leaf-Written s a b)
      Route-Subtree {lo = lo} {hi = hi} (down {h = height} n e s sub rest) =
          inner_at n (Points-inner c e) s (λ j inside. elim (ℕ_discrete j (choice p n k)) [
            | yes same ↦
                subst
                  (λ (i : ℕ).
                    Subtree p t' height (n.first_child i) (lower p n lo i) (upper p n hi i))
                  (sym same) (Route-Subtree rest)
            | no different ↦ frame p o c w.covered (sub j inside) (
                other-Away n lo hi j s inside different (Route-bounds p o 0 w.covered.used rest).0
                  (Route-bounds p o 0 w.covered.used rest).1
                  (Route-bounds p o 0 w.covered.used (down n e s sub rest)).1)
          ])
