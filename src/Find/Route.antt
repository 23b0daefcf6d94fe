-- ===== src/Find/Route.antt =====
-- The way of the descent of `find` to a leaf of a search tree.
use ccpbtree.Base.{ℕ, zero, suc, ◌≤◌, ◌<◌, ◌≡◌, false, true, Option, arith}
use mathlib.Core.Path.{subst}
use ccpbtree.Store.{Ptr, LeafNode, InnerNode, leaf, inner, Tree, Traits, ok}
use ccpbtree.Store.Points.{Points, load-ok}
use ccpbtree.KeyOrder.{IsTotal, key_greater}
use ccpbtree.Leaf.Scan.{scan_bounds, scan-before, scan-hit}
use ccpbtree.Find.{descend}
use ccpbtree.Find.Bounds.{lower_of, upper_of, lower_back, upper_back}
use ccpbtree.Find.Shape.{
  AtLeast, Below, lower, upper, LeafShape, InnerShape, Subtree, leaf_at, inner_at,
}
use ccpbtree.Find.Descend.{choice, next_node-choice, not_null, leaf_unique}

module _ {K V : Type 0} (p : Traits K V) where
  open p use {keyless}

  -- The descent with the key `k`, in a tree of the given height between the given bounds, ends at
  -- `q`, where the leaf `l` is.
  pub data Route (t : Tree K V) (k : K) (q : Ptr) (l : LeafNode K V)
      : ℕ → Ptr → Option K → Option K → Type 0 where
    stop :
        {r : Ptr} {lo hi : Option K}
        → r ≡ q
        → LeafShape p t l lo hi
        → AtLeast p lo k
        → Below p hi k
        → Route t k q l zero r lo hi
    down :
        {h : ℕ} {r : Ptr} {lo hi : Option K} (n : InnerNode K)
        → Points t r (inner n)
        → InnerShape p n lo hi
        → ((i : ℕ)
            → i ≤ n.slots_in_use
            → Subtree p t h (n.first_child i) (lower p n lo i) (upper p n hi i))
        → Route t k q l h
            (n.first_child (choice p n k))
            (lower p n lo (choice p n k))
            (upper p n hi (choice p n k))
        → Route t k q l (suc h) r lo hi

  pub choice_inside : (n : InnerNode K) (k : K) → choice p n k ≤ n.slots_in_use
  choice_inside n k =
      omega (arith, scan_bounds p (λ s. key_greater p s k) n.key_slots n.slots_in_use 0)

  -- No key before the chosen child is greater than `k`.
  pub choice-before :
      (n : InnerNode K) (k : K) (j : ℕ) → j < choice p n k → keyless k (n.key_slots j) ≡ false
  choice-before n k j g =
      scan-before p (λ s. key_greater p s k) n.key_slots n.slots_in_use 0 j (omega arith) g

  -- The key at the chosen child is.
  pub choice-hit :
      (n : InnerNode K) (k : K)
      → choice p n k < n.slots_in_use
      → keyless k (n.key_slots (choice p n k)) ≡ true
  choice-hit n k g = scan-hit p (λ s. key_greater p s k) n.key_slots n.slots_in_use 0 (omega arith)

  -- The leaf at the end has the shape of a leaf between some bounds, and so has the key.
  pub record End (t : Tree K V) (k : K) (l : LeafNode K V) : Type 0 where
    pub low : Option K
    pub high : Option K
    pub shape : LeafShape p t l low high
    pub above : AtLeast p low k
    pub below : Below p high k

  module _ {t : Tree K V} {k : K} {q : Ptr} {l : LeafNode K V} where
    pub descend-Route :
        (fuel : ℕ) {h : ℕ} {r : Ptr} {lo hi : Option K}
        → Subtree p t h r lo hi
        → Points t q (leaf l)
        → AtLeast p lo k
        → Below p hi k
        → descend p fuel r k t ≡ ok (q, t)
        → Route t k q l h r lo hi
    unfolding descend
    descend-Route zero s here a b run = cc run
    descend-Route (suc fuel) {h} {r} {lo} {hi} (leaf_at m e s) here a b run =
        let same : r ≡ q = cc (rw (load-ok e) at run) in
        stop same
          (subst (λ (x : LeafNode K V). LeafShape p t x lo hi)
            (leaf_unique p (subst (λ (x : Ptr). Points t x (leaf m)) same e) here) s)
          a b
    descend-Route (suc fuel) {h} {r} {lo} {hi} (inner_at n e s c) here a b run = down n e s c (
        descend-Route fuel (c (choice p n k) (choice_inside n k)) here
          (lower_of p n lo k (choice p n k) (choice-before n k) a)
          (upper_of p n hi k (choice p n k) (choice-hit n k) b)
          (rw
            (
              load-ok e,
              next_node-choice p r n k s.children
                  (not_null p (c (choice p n k) (choice_inside n k))),
            )
            at run))

    pub Route-End : {h : ℕ} {r : Ptr} {lo hi : Option K} → Route t k q l h r lo hi → End t k l
    Route-End {h} {r} {lo} {hi} (stop same s a b) = record {
      low = lo;
      high = hi;
      shape = s;
      above = a;
      below = b;
    }
    Route-End (down n e s c rest) = Route-End rest

    -- A key in use of that leaf lies between the bounds of the tree.
    pub Route-bounds :
        (o : IsTotal p) {h : ℕ} {r : Ptr} {lo hi : Option K} (i : ℕ)
        → i < l.slots_in_use
        → Route t k q l h r lo hi
        → AtLeast p lo (l.key_slots i) × Below p hi (l.key_slots i)
    Route-bounds o i inside (stop same s a b) = (s.at_least i inside, s.below i inside)
    Route-bounds o {h} {r} {lo} {hi} i inside (down n e s c rest) =
        let (above, below) = Route-bounds o i inside rest in
        (
          lower_back p o n lo hi (l.key_slots i) (choice p n k) s (choice_inside n k) above,
          upper_back p o n lo hi (l.key_slots i) (choice p n k) s below,
        )
