-- ===== src/Tests/Searches.antt =====
-- The theorems on search and insertion in src/btree.h at a tree of two leaves under a root.
use ccpbtree.Base.{
  ◌≢◌, [], ◌∷◌, ◌%◌, ◌^◌, ◌+◌, ◌-◌, ℕ, zero, suc, ◌+◌, ◌*◌, ◌≤◌, ◌<◌, ◌≡◌, refl, ◌⊎◌, ◌↔◌, Bool,
  true, false, none, some, arith, ltb, ◌==◌, if◌then◌else◌, pos, inl, inr,
}
use ccpbtree.Store.{Ptr, null, LeafNode, InnerNode, leaf, inner, Tree, ok}
use ccpbtree.Store.Points.{Points}
use ccpbtree.Leaf.Pair.{Holds}
use ccpbtree.Find.{find, exists, get, descend, next_node, walk}
use ccpbtree.Find.Shape.{lower, upper, Subtree, leaf_at, inner_at, IsTree, Has}
use ccpbtree.Find.Lookup.{Found, find-Found, exists_iff, get-Has}
use ccpbtree.Insert.{insert}
use ccpbtree.Iterator.{Iterator, at, forward, backward}
use ccpbtree.Iterator.Steps.{Linked, forward-backward}
use ccpbtree.Insert.Target.{insert-IsTree, insert-keys, insert-append, get-insert}
use ccpbtree.Find.Target.{Target}
use ccpbtree.Delete.{erase}
use ccpbtree.Leaf.Keys.{keys_of}
use ccpbtree.Delete.Target.{Removable, erase-IsTree, erase-keys}
use ccpbtree.Tests.Trees.{four, four_IsTotal, leaf_up}

-- Two leaves, of 10 and 20 and of 30, 40 and 50, under a root.
abbrev low_leaf : LeafNode ℕ ℕ
low_leaf = record (leaf_up 2) { is_root_node = false; parent = 3; next_leaf = 2 }

abbrev high_leaf : LeafNode ℕ ℕ
high_leaf = record low_leaf {
  slots_in_use = 3;
  key_slots = λ i. 30 + i * 10;
  data_slots = λ i. 130 + i * 10;
  next_leaf = null;
  prev_leaf = 1;
}

abbrev two_root : InnerNode ℕ
two_root = record {
  slots = 4;
  slots_in_use = 1;
  is_root_node = true;
  parent = null;
  key_slots = λ i. 30 + i * 10;
  first_child = λ i. i + 1;
  num_children = 2;
}

abbrev two : Tree ℕ ℕ
two = record {
  heap = λ q.
      if q == 1
      then some (leaf low_leaf)
      else if q == 2
      then some (leaf high_leaf)
      else if q == 3
      then some (inner two_root)
      else none;
  brk = 4;
  root = 3;
  tail_leaf = null;
  head_leaf = 1;
  total_key_count = 5;
}

two_low : Points two 1 (leaf low_leaf)
two_low = record { ne_null = omega arith; holds = refl }

two_high : Points two 2 (leaf high_leaf)
two_high = record { ne_null = omega arith; holds = refl }

two_children :
    (i : ℕ)
    → i ≤ 1
    → Subtree four two 0
        (two_root.first_child i)
        (lower four two_root none i)
        (upper four two_root none i)
two_children zero h = leaf_at low_leaf two_low (record {
  in_use_le = omega arith;
  sorted = λ i j a b. ground arith;
  at_least = λ i a. tt;
  below = λ i a. ground arith;
  next = inr (record {
    node = high_leaf;
    here = two_high;
    in_use_pos = omega arith;
    beyond = λ i a. ground arith;
  });
})
two_children (suc zero) h = leaf_at high_leaf two_high (record {
  in_use_le = omega arith;
  sorted = λ i j a b. ground arith;
  at_least = λ i a. ground arith;
  below = λ i a. tt;
  next = inl refl;
})
two_children (suc (suc i)) h = absurd (omega arith)

two_IsTree : IsTree four two 1
two_IsTree = record {
  shape =
      inner_at two_root (record { ne_null = omega arith; holds = refl })
        (record {
          in_use_le = omega arith;
          children = refl;
          sorted = λ i j a b. ground arith;
          at_least = λ i a. tt;
          below = λ i a. tt;
        })
        two_children;
  height_le = omega arith;
  brk_pos = omega arith;
}

find-Found_example :
    (r : Ptr) × Found four four_IsTotal two_IsTree 20 r × (find four 20 two ≡ ok (r, two))
find-Found_example = find-Found four four_IsTotal two_IsTree 20

exists_iff_example :
    (b : Bool) × (exists four 35 two ≡ ok (b, two)) × ((b ≡ true) ↔ ((v : ℕ) × Has two 35 v 1 3))
exists_iff_example = exists_iff four four_IsTotal two_IsTree 35

get-Has_example :
    ((v : ℕ) × Has two 40 v 1 3 × (get four 40 two ≡ ok ((v, true), two)))
    ⊎ ((get four 40 two ≡ ok ((0, false), two)) × ((v : ℕ) → ¬ Has two 40 v 1 3))
get-Has_example = get-Has four four_IsTotal two_IsTree 40

two-Linked : Linked two 1 2 low_leaf high_leaf
two-Linked = record {
  first = two_low;
  second = two_high;
  next = refl;
  prev = refl;
  first_pos = omega arith;
  second_pos = omega arith;
  small = omega arith;
}

forward-backward_example :
    (it : Iterator) × (forward four (at 1 1) two ≡ ok (it, two))
    × (it ≡ at 2 0)
    × (backward four it two ≡ ok (at 1 1, two))
forward-backward_example = forward-backward four two-Linked 1 (omega arith)

-- The key 60 goes into the second leaf, which has room and ends before it.
two_Target : Target four two 60 2 high_leaf
unfolding descend next_node
two_Target = record {
  down = refl;
  here = two_high;
  valid = record { slots_eq = refl; in_use_le = omega arith; small = omega arith };
  used = omega arith;
  room = omega arith;
}

two_new : (d : ℕ) → ¬ Holds four high_leaf 60 d
two_new d (m, lt, e, s) = absurd (omega arith)

two_less : (i : ℕ) → i < 3 → ltb (30 + i * 10) 60 ≡ true
two_less i h = ground arith

get_sixty : get four 60 two ≡ ok ((0, false), two)
unfolding get find descend next_node walk
get_sixty = refl

two_absent : (v : ℕ) → ¬ Has two 60 v 1 3
two_absent v has = elim (get-Has four four_IsTotal two_IsTree 60) [
  | inl (u, there, got) ↦ cc (got, get_sixty)
  | inr (got, absent) ↦ absent v has
]

insert-IsTree_example :
    (t' : Tree ℕ ℕ) × (insert four 60 160 two ≡ ok (pos 1, t'))
    × IsTree four t' 1
    × (t'.total_key_count ≡ 6)
insert-IsTree_example = insert-IsTree four four_IsTotal two_IsTree two_Target 160 (two_new 160)

insert-keys_example :
    (t' : Tree ℕ ℕ) × (insert four 60 160 two ≡ ok (pos 1, t'))
    × ((a : ℕ) → ((v : ℕ) × Has t' a v 1 t'.root) ↔ ((a ≡ 60) ⊎ ((v : ℕ) × Has two a v 1 3)))
insert-keys_example = insert-keys four four_IsTotal two_IsTree two_Target 160 (two_new 160)

insert-append_example :
    (t' : Tree ℕ ℕ) × (insert four 60 160 two ≡ ok (pos 1, t'))
    × ((a : ℕ) (v : ℕ) → Has t' a v 1 t'.root ↔ (((a ≡ 60) × (v ≡ 160)) ⊎ Has two a v 1 3))
insert-append_example =
    insert-append four four_IsTotal two_IsTree two_Target 160 (two_new 160) two_less

get-insert_example :
    (t' : Tree ℕ ℕ) × (insert four 60 160 two ≡ ok (pos 1, t'))
    × (get four 60 t' ≡ ok ((160, true), t'))
get-insert_example = get-insert four four_IsTotal two_IsTree two_Target 160 (two_new 160) two_absent

-- The key 40 is in the middle of the second leaf, which still has two keys without it.
mid_Target : Target four two 40 2 high_leaf
unfolding descend next_node
mid_Target = record {
  down = refl;
  here = two_high;
  valid = record { slots_eq = refl; in_use_le = omega arith; small = omega arith };
  used = omega arith;
  room = omega arith;
}

mid_Removable : Removable four two high_leaf 40 1
mid_Removable = record {
  inside = omega arith;
  at = refl;
  before = λ j h. omega arith;
  not_root = refl;
  two = omega arith;
  fits = omega arith;
  parent = record {
    node = two_root;
    here = record { ne_null = omega arith; holds = refl };
    in_use_le = omega arith;
    children = refl;
    last = high_leaf;
    last_here = two_high;
  };
}

erase-IsTree_example :
    (t' : Tree ℕ ℕ) × (erase four 40 two ≡ ok (pos 1, t'))
    × IsTree four t' 1
    × (t'.total_key_count ≡ (5 + (2 ^ 32 - 1)) % 2 ^ 32)
erase-IsTree_example = erase-IsTree four four_IsTotal two_IsTree mid_Target 1 mid_Removable

erase-keys_example :
    (t' : Tree ℕ ℕ) × (l' : LeafNode ℕ ℕ) × (erase four 40 two ≡ ok (pos 1, t'))
    × Points t' 2 (leaf l')
    × (keys_of four l' ≡ 30 ∷ 50 ∷ [])
    × ((a : ℕ) → a ≢ 40 → ((v : ℕ) × Has t' a v 1 t'.root) ↔ ((v : ℕ) × Has two a v 1 3))
erase-keys_example = erase-keys four four_IsTotal two_IsTree mid_Target 1 mid_Removable
