-- ===== src/Insert/Parent/TwoLeaves.antt =====
-- A tree of two leaves under a root as a search tree, and the pairs that it holds.
use ccpbtree.Base.{ℕ, zero, suc, ◌≤◌, ◌<◌, ◌≡◌, ap, ◌⊎◌, ◌↔◌, inl, inr, none, some, arith}
use mathlib.Core.Path.{subst}
use ccpbtree.Store.{Ptr, LeafNode, InnerNode, leaf, Tree, Traits}
use ccpbtree.Store.Points.{Points}
use ccpbtree.Find.Shape.{
  lower, upper, LeafShape, InnerShape, Subtree, leaf_at, inner_at, InLeaf, Has, in_leaf, in_child,
  IsTree,
}
use ccpbtree.Find.Descend.{leaf_unique, inner_unique}
use ccpbtree.Insert.Parent.NewRoot.{TwoLeaves}

module _ {K V : Type 0} (p : Traits K V) {t : Tree K V} {a b : Ptr} {k : K} {la lb : LeafNode K V}
    (w : TwoLeaves p t a b k la lb) where
  open p use {nodeslots}

  abbrev left_leaf : LeafNode K V
  left_leaf = record la { parent = t.root; next_leaf = b }

  abbrev right_leaf : LeafNode K V
  right_leaf = record lb { parent = t.root; prev_leaf = a }

  -- Two leaves in order with the key between them make a search tree.
  pub TwoLeaves-IsTree :
      LeafShape p t left_leaf none (some k)
      → LeafShape p t right_leaf (some k) none
      → 0 < nodeslots
      → 0 < t.brk
      → IsTree p t 1
  TwoLeaves-IsTree low high some_slots used = record {
    shape = inner_at w.node w.here node_shape children;
    height_le = used;
    brk_pos = used;
  }
    where
      node_shape : InnerShape p w.node none none
      node_shape = record {
        in_use_le = omega (arith, w.in_use);
        children = omega (arith, w.in_use, w.children);
        sorted = λ i j less inside. absurd (omega (arith, w.in_use));
        at_least = λ i h. tt;
        below = λ i h. tt;
      }

      children :
          (i : ℕ)
          → i ≤ w.node.slots_in_use
          → Subtree p t 0 (w.node.first_child i) (lower p w.node none i) (upper p w.node none i)
      children zero h = rw (w.first, w.in_use, w.key_eq) (leaf_at left_leaf w.left low)
      children (suc zero) h = rw (w.second, w.in_use, w.key_eq) (leaf_at right_leaf w.right high)
      children (suc (suc i)) h = absurd (omega (arith, w.in_use))

  -- Such a tree holds the pairs of the two leaves.
  pub Has-TwoLeaves : (x : K) (v : V) → Has t x v 1 t.root ↔ (InLeaf la x v ⊎ InLeaf lb x v)
  Has-TwoLeaves x v = (forth, back)
    where
      at_child :
          (n : InnerNode K) (i : ℕ)
          → n ≡ w.node
          → i ≤ n.slots_in_use
          → Has t x v 0 (n.first_child i)
          → InLeaf la x v ⊎ InLeaf lb x v
      at_child n zero same inside (in_leaf l e held) = inl (
          subst (λ (y : LeafNode K V). InLeaf y x v)
            (leaf_unique p (subst (λ (q : Ptr). Points t q (leaf l)) (rw same w.first) e) w.left)
            held)
      at_child n (suc zero) same inside (in_leaf l e held) = inr (
          subst (λ (y : LeafNode K V). InLeaf y x v)
            (leaf_unique p (subst (λ (q : Ptr). Points t q (leaf l)) (rw same w.second) e) w.right)
            held)
      at_child n (suc (suc i)) same inside has =
          absurd (omega (arith, w.in_use, ap (λ (y : InnerNode K). y.slots_in_use) same))

      forth : Has t x v 1 t.root → InLeaf la x v ⊎ InLeaf lb x v
      forth (in_child n i e inside has) = at_child n i (inner_unique p e w.here) inside has

      back : InLeaf la x v ⊎ InLeaf lb x v → Has t x v 1 t.root
      back (inl held) =
          in_child w.node 0 w.here (omega arith) (rw w.first (in_leaf left_leaf w.left held))
      back (inr held) =
          in_child w.node 1 w.here (omega (arith, w.in_use))
            (rw w.second (in_leaf right_leaf w.right held))
