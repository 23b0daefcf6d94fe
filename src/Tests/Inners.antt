-- ===== src/Tests/Inners.antt =====
-- The split of an inner node of four slots over five linked leaves.
use ccpbtree.Base.{true, ℕ, ◌+◌, ◌-◌, ◌≤◌, ◌≡◌, refl, none, some, arith, ltb, ◌==◌, if◌then◌else◌}
use ccpbtree.Store.{null, LeafNode, InnerNode, leaf, Tree, ok}
use ccpbtree.Store.Points.{Points}
use ccpbtree.Insert.Parent.{split_inner}
use ccpbtree.Insert.Parent.Widening.{Widening, InnerHalves}
use ccpbtree.Insert.Parent.SplitInner.{split_inner-InnerHalves}
use ccpbtree.Tests.Trees.{four, leaf_up}

-- The leaf at the address `j + 1`.
abbrev kid : ℕ → LeafNode ℕ ℕ
kid j = record (leaf_up 2) { next_leaf = j + 1 + 1; parent = 9 }

abbrev full_inner : InnerNode ℕ
full_inner = record {
  slots = 4;
  slots_in_use = 4;
  is_root_node = true;
  parent = null;
  key_slots = λ i. 10 + i;
  first_child = λ i. i + 1;
  num_children = 5;
}

abbrev tree_of_kids : Tree ℕ ℕ
tree_of_kids = record {
  heap = λ x.
      if x == 0
      then none
      else if ltb x 6
      then some (leaf (kid (x - 1)))
      else if ltb x 8
      then some (leaf (leaf_up 3))
      else none;
  brk = 10;
  root = 9;
  tail_leaf = null;
  head_leaf = null;
  total_key_count = 0;
}

kids_here : (j : ℕ) → j ≤ 4 → Points tree_of_kids (j + 1) (leaf (kid j))
kids_here j le = record { ne_null = omega arith; holds = ground (arith, le) }

kids_Widening : Widening four tree_of_kids full_inner kid 55 6 7 (leaf_up 3) (leaf_up 3)
kids_Widening = record {
  inner_full = record {
    full = refl;
    three = omega arith;
    small = omega arith;
    base_there = omega arith;
    child_old = λ j le. omega arith;
    apart = λ i j h g same. omega (arith, same);
    next = λ j less. refl;
  };
  kids_here = kids_here;
  left = record { ne_null = omega arith; holds = refl };
  right = record { ne_null = omega arith; holds = refl };
  left_old = omega arith;
  right_old = omega arith;
  apart = omega arith;
  left_new = λ j le. omega arith;
  right_new = λ j le. omega arith;
  above = λ j less. ground (arith, less);
}

split_inner-InnerHalves_example :
    (t' : Tree ℕ ℕ) × (split_inner four full_inner 6 55 7 tree_of_kids ≡ ok ((10, 12, 11), t'))
    × InnerHalves four kids_Widening t'
split_inner-InnerHalves_example = split_inner-InnerHalves four kids_Widening
