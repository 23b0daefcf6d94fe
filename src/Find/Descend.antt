-- ===== src/Find/Descend.antt =====
-- The descent of `find` goes to the one leaf that can hold the key.
use ccpbtree.Base.{ℕ, zero, suc, ◌+◌, ◌≤◌, ◌<◌, ◌≡◌, ◌≢◌, sym, ◌↔◌, Bool, Option, arith}
use mathlib.Core.Path.{subst}
use ccpbtree.Store.{Ptr, null, LeafNode, InnerNode, leaf, inner, Tree, Traits, ok}
use ccpbtree.Store.Points.{Points, load-ok}
use ccpbtree.KeyOrder.{IsTotal, key_greater}
use ccpbtree.Leaf.{scan}
use ccpbtree.Leaf.Scan.{scan_bounds, scan-before, scan-hit, scan_unique}
use ccpbtree.Find.{next_node, descend}
use ccpbtree.Find.Bounds.{lower_of, upper_of, lower_back, upper_back, lower_all, upper_hit}
use ccpbtree.Find.Shape.{
  AtLeast, Below, lower, upper, LeafShape, InnerShape, Subtree, leaf_at, inner_at, InLeaf, Has,
  in_leaf, in_child,
}

module _ {K V : Type 0} (p : Traits K V) where
  -- The child that the inner loop of `find` chooses.
  abbrev pub choice : InnerNode K → K → ℕ
  choice n k = scan p (λ s. key_greater p s k) n.key_slots n.slots_in_use 0

-- A leaf that holds exactly the pairs with the key that the tree of height `h` from `q` on holds.
pub record Landed {K V : Type 0} (p : Traits K V) (t : Tree K V) (h : ℕ) (q : Ptr) (k : K)
    : Type 0 where
  pub leaf_ptr : Ptr
  pub node : LeafNode K V
  pub low : Option K
  pub high : Option K
  pub here : Points t leaf_ptr (leaf node)
  pub shape : LeafShape p t node low high
  pub below_high : Below p high k
  pub only : (v : V) → Has t k v h q ↔ InLeaf node k v

module _ {K V : Type 0} (p : Traits K V) {t : Tree K V} where
  open p use {keyless}

  pub leaf_unique :
      {q : Ptr} {l m : LeafNode K V} → Points t q (leaf l) → Points t q (leaf m) → l ≡ m
  leaf_unique a b = cc (a.holds, b.holds)

  pub inner_unique :
      {q : Ptr} {l m : InnerNode K} → Points t q (inner l) → Points t q (inner m) → l ≡ m
  inner_unique a b = cc (a.holds, b.holds)

  pub not_null : {h : ℕ} {q : Ptr} {lo hi : Option K} → Subtree p t h q lo hi → q ≢ null
  not_null (leaf_at l e s) = e.ne_null
  not_null (inner_at n e s c) = e.ne_null

  pub next_node-choice :
      (here : Ptr) (n : InnerNode K) (k : K)
      → n.num_children ≡ n.slots_in_use + 1
      → n.first_child (choice p n k) ≢ null
      → next_node p here n k t ≡ ok (n.first_child (choice p n k), t)
  unfolding next_node
  next_node-choice here n k children there =
      ground (arith, scan_bounds p (λ s. key_greater p s k) n.key_slots n.slots_in_use 0)

  leaf_of :
      {k : K} {v : V} {q : Ptr} (l : LeafNode K V)
      → Points t q (leaf l)
      → Has t k v zero q
      → InLeaf l k v
  leaf_of {k} {v} l e (in_leaf m e' h) =
      subst (λ (x : LeafNode K V). InLeaf x k v) (leaf_unique e' e) h

  child_of :
      {k : K} {v : V} {h : ℕ} {q : Ptr} (n : InnerNode K)
      → Points t q (inner n)
      → Has t k v (suc h) q
      → (i : ℕ) × (i ≤ n.slots_in_use) × Has t k v h (n.first_child i)
  child_of {k} {v} {h} n e (in_child m i e' inside has) =
      subst (λ (x : InnerNode K). (i : ℕ) × (i ≤ x.slots_in_use) × Has t k v h (x.first_child i))
        (inner_unique e' e) (i, inside, has)

  module _ (o : IsTotal p) where
    -- A pair of a search tree has its key between the bounds.
    Has-bounds :
        {h : ℕ} {q : Ptr} {lo hi : Option K} (k : K) (v : V)
        → Subtree p t h q lo hi
        → Has t k v h q
        → AtLeast p lo k × Below p hi k
    Has-bounds {lo} {hi} k v (leaf_at l e s) has =
        let (i, inside, at, d) = leaf_of l e has in
        (subst (AtLeast p lo) at (s.at_least i inside), subst (Below p hi) at (s.below i inside))
    Has-bounds {lo} {hi} k v (inner_at n e s c) has =
        let (i, inside, below) = child_of n e has in
        let b = Has-bounds k v (c i inside) below in
        (lower_back p o n lo hi k i s inside b.0, upper_back p o n lo hi k i s b.1)

    -- The child that is chosen is the only one with the key.
    only_choice :
        {h : ℕ} {lo hi : Option K} (n : InnerNode K) (k : K) (v : V) (i : ℕ)
        → InnerShape p n lo hi
        → i ≤ n.slots_in_use
        → Subtree p t h (n.first_child i) (lower p n lo i) (upper p n hi i)
        → Has t k v h (n.first_child i)
        → i ≡ choice p n k
    only_choice {lo} {hi} n k v i s inside sub has =
        let (above, below) = Has-bounds k v sub has in
        sym (
          scan_unique p (λ s. key_greater p s k) n.key_slots n.slots_in_use 0 i (omega arith)
            (omega arith) (λ j a b. lower_all p o n lo hi k i j s inside above b)
            (λ g. upper_hit p n hi k i below (omega arith)))

    -- The descent from the node whose chosen child has been searched.
    through :
        {h : ℕ} {q : Ptr} {lo hi : Option K} (n : InnerNode K) (k : K)
        → Points t q (inner n)
        → InnerShape p n lo hi
        → ((i : ℕ)
            → i ≤ n.slots_in_use
            → Subtree p t h (n.first_child i) (lower p n lo i) (upper p n hi i))
        → choice p n k ≤ n.slots_in_use
        → Landed p t h (n.first_child (choice p n k)) k
        → Landed p t (suc h) q k
    through {h} n k e s c inside end = record {
      leaf_ptr = end.leaf_ptr;
      node = end.node;
      low = end.low;
      high = end.high;
      here = end.here;
      shape = end.shape;
      below_high = end.below_high;
      only = λ v. (
        λ has.
            (let (i, le, below) = child_of n e has in
              (end.only v).0 (
                subst (λ (x : ℕ). Has t k v h (n.first_child x))
                  (only_choice n k v i s le (c i le) below) below)),
        λ held. in_child n (choice p n k) e inside ((end.only v).1 held),
      );
    }

    -- The descent reaches the leaf that holds exactly the pairs of the tree with this key.
    pub descend-Landed :
        (fuel : ℕ) (k : K) {h : ℕ} {q : Ptr} {lo hi : Option K}
        → Subtree p t h q lo hi
        → AtLeast p lo k
        → Below p hi k
        → h < fuel
        → (end : Landed p t h q k) × (descend p fuel q k t ≡ ok (end.leaf_ptr, t))
    unfolding descend through
    descend-Landed zero k sub a b lt = absurd (omega arith)
    descend-Landed (suc fuel) k {q} {lo} {hi} (leaf_at l e s) a b lt = (
      record {
        leaf_ptr = q;
        node = l;
        low = lo;
        high = hi;
        here = e;
        shape = s;
        below_high = b;
        only = λ v. (leaf_of l e, λ held. in_leaf l e held);
      },
      rw (load-ok e),
    )
    descend-Landed (suc fuel) k {q} {lo} {hi} (inner_at n e s c) a b lt =
        let (end, run) =
          descend-Landed fuel k (c i inside)
            (lower_of p n lo k i
              (λ j g. scan-before p test n.key_slots n.slots_in_use 0 j (omega arith) g) a)
            (upper_of p n hi k i (λ g. scan-hit p test n.key_slots n.slots_in_use 0 (omega arith))
              b)
            (omega arith) in
        (
          through n k e s c inside end,
          rw (load-ok e, next_node-choice q n k s.children (not_null (c i inside))) run,
        )
      where
        test : K → Bool
        test s = key_greater p s k

        i : ℕ
        i = choice p n k

        inside : i ≤ n.slots_in_use
        inside = omega (arith, scan_bounds p test n.key_slots n.slots_in_use 0)
