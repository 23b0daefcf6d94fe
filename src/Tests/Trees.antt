-- ===== src/Tests/Trees.antt =====
-- The theorems on the tree of src/btree.h at small trees: keys and data are numbers, four slots to
-- a node.
use ccpbtree.Base.{
  segment, ℕ, ◌+◌, ◌*◌, ◌-◌, ◌%◌, ◌^◌, ◌≤◌, ◌≡◌, refl, ◌⊎◌, ◌↔◌, true, none, some, arith, ltb, ◌==◌,
  if◌then◌else◌, [], ◌∷◌, pos, minus_one, minus_two,
}
use ccpbtree.Store.{null, LeafNode, leaf, Tree, Traits, ok, fault, out_of_bounds, write}
use ccpbtree.KeyOrder.{IsTotal}
use ccpbtree.Leaf.{insert_leaf_pair, delete_leaf_pair}
use ccpbtree.Leaf.Keys.{keys_of}
use ccpbtree.Leaf.Sorted.{insert_sorted}
use ccpbtree.Leaf.Pair.{Room, Holds, Inserted, insert_leaf_pair-Inserted}
use ccpbtree.Find.{get}
use ccpbtree.Find.Shape.{IsTree, Has, InLeaf}
use ccpbtree.Insert.{insert}
use ccpbtree.Insert.Empty.{insert-first}
use ccpbtree.Insert.Root.{
  SortedRoot, SortedRoot-Room, insert-Holds, insert-insert_sorted, insert-dropped,
}
use ccpbtree.Delete.{erase, delete_pair}
use ccpbtree.Delete.Pair.{tree_cleared, delete_leaf_pair-all, delete_pair-keys_of}
use ccpbtree.Delete.Root.{RootLeaf}
use ccpbtree.Delete.Erase.{erase-keys_of, erase-absent_full, erase-absent_other, erase-absent_stale}
use ccpbtree.Insert.Root.Data.{get-insert_behind}
use ccpbtree.Insert.Root.Split.{FullRoot, insert-FullRoot}
use ccpbtree.Insert.Split.{LeafSplit, split_leaf}
use ccpbtree.Insert.Split.Parts.{Split, Part}
use ccpbtree.Insert.Split.Halves.{split_leaf-Part}
use ccpbtree.Insert.Split.Rounds.{split_leaf_total}

-- Leaves and inner nodes of `n` slots; the second number is for trees that never split.
abbrev slots_of : ℕ → ℕ → Traits ℕ ℕ
slots_of n m = record {
  keyless = ltb;
  same_data = λ a b. a == b;
  leafslots = n;
  nodeslots = m;
  key_garbage = λ i. 0;
  blank = 0;
}

abbrev pub four : Traits ℕ ℕ
four = slots_of 4 4

abbrev uneven : Traits ℕ ℕ
uneven = slots_of 4 3

pub four_IsTotal : IsTotal four
four_IsTotal = record {
  irreflexive = λ a. ground arith;
  transitive = λ a b c h g. ground arith;
  trichotomy = λ a b h g. ground arith;
}

-- A root leaf with the keys 10, 20, … in use; the slots behind them hold the keys that follow.
abbrev pub leaf_up : ℕ → LeafNode ℕ ℕ
leaf_up n = record {
  slots = 4;
  slots_in_use = n;
  is_root_node = true;
  parent = null;
  key_slots = λ i. 10 + i * 10;
  data_slots = λ i. 110 + i * 10;
  next_leaf = null;
  prev_leaf = null;
}

abbrev tree_up : ℕ → Tree ℕ ℕ
tree_up n = record {
  heap = λ q. if q == 1 then some (leaf (leaf_up n)) else none;
  brk = 2;
  root = 1;
  tail_leaf = null;
  head_leaf = 1;
  total_key_count = n;
}

up_SortedRoot : (m n : ℕ) → n ≤ 4 → SortedRoot (slots_of 4 m) (tree_up n) (leaf_up n)
up_SortedRoot m n h = record {
  root = record {
    here = record { ne_null = omega arith; holds = refl };
    valid = record { slots_eq = refl; in_use_le = h; small = omega arith };
    is_root = refl;
    last = refl;
  };
  sorted = λ i j a b. ground arith;
  used = omega arith;
}

up_Room : (k : ℕ) → Room four (tree_up 2) 1 (leaf_up 2) k
up_Room k = SortedRoot-Room four (up_SortedRoot 4 2 (omega arith)) k (omega arith)

up_Holds : Holds four (leaf_up 2) 20 120
up_Holds = (1, omega arith, refl, refl)

up_new : ¬ Holds four (leaf_up 2) 15 7
up_new (m, lt, e, s) = absurd (omega arith)

up_other : ¬ Holds four (leaf_up 2) 20 7
up_other (m, lt, e, s) = ground (arith, lt, e, s)

insert_leaf_pair-Inserted_example :
    (l' : LeafNode ℕ ℕ) × (insert_leaf_pair four 1 15 7 (tree_up 2)
      ≡ ok (pos 1, write 1 (some (leaf l')) (tree_up 2)))
    × Inserted four 15 (up_Room 15) 7 four_IsTotal l'
insert_leaf_pair-Inserted_example =
    insert_leaf_pair-Inserted four 15 (up_Room 15) 7 four_IsTotal up_new

insert-Holds_example : insert four 20 120 (tree_up 2) ≡ ok (minus_two, tree_up 2)
insert-Holds_example =
    insert-Holds four (up_SortedRoot 4 2 (omega arith)) four_IsTotal 20 120 (omega arith) up_Holds

insert-insert_sorted_example :
    (t' : Tree ℕ ℕ) × (l' : LeafNode ℕ ℕ) × (insert four 15 7 (tree_up 2) ≡ ok (pos 1, t'))
    × SortedRoot four t' l'
    × (keys_of four l' ≡ insert_sorted four 15 (keys_of four (leaf_up 2)))
    × (l'.slots_in_use ≡ 3)
    × (t'.total_key_count ≡ 3)
insert-insert_sorted_example =
    insert-insert_sorted four (up_SortedRoot 4 2 (omega arith)) four_IsTotal 15 7 (omega arith)
      up_new

-- A tree as its constructor leaves it.
abbrev bare : Tree ℕ ℕ
bare = record {
  heap = λ q. none;
  brk = 1;
  root = null;
  tail_leaf = null;
  head_leaf = null;
  total_key_count = 0;
}

insert-first_example :
    (t' : Tree ℕ ℕ) × (l' : LeafNode ℕ ℕ) × (insert four 15 7 bare ≡ ok (pos 1, t'))
    × SortedRoot four t' l'
    × (keys_of four l' ≡ 15 ∷ [])
    × (t'.total_key_count ≡ 1)
insert-first_example =
    insert-first four bare four_IsTotal 15 7 refl (omega arith) (omega arith) (omega arith)

insert-dropped_example :
    insert uneven 15 7 (tree_up 4) ≡ ok (pos 1, record (tree_up 4) { total_key_count = 5 })
insert-dropped_example =
    insert-dropped uneven (up_SortedRoot 3 4 (omega arith)) 15 7 refl (omega arith)

up_RootLeaf : (n : ℕ) → n ≤ 4 → RootLeaf four (tree_up n) (leaf_up n)
up_RootLeaf n h = (up_SortedRoot 4 n h).root

erase-keys_of_example :
    (t' : Tree ℕ ℕ) × (l' : LeafNode ℕ ℕ) × (erase four 20 (tree_up 3) ≡ ok (pos 1, t'))
    × RootLeaf four t' l'
    × (keys_of four l' ≡ 10 ∷ 30 ∷ [])
    × (l'.data_slots ≡ (leaf_up 3).data_slots)
    × (t'.total_key_count ≡ (3 + (2 ^ 32 - 1)) % 2 ^ 32)
erase-keys_of_example =
    erase-keys_of four four_IsTotal (up_RootLeaf 3 (omega arith)) 20 1 (omega arith) refl
      (λ j h. omega arith)

erase-absent_full_example : erase four 99 (tree_up 4) ≡ fault out_of_bounds
erase-absent_full_example =
    erase-absent_full four four_IsTotal (up_RootLeaf 4 (omega arith)) 99 (λ j h. omega arith) refl

erase-absent_other_example : erase four 99 (tree_up 3) ≡ ok (minus_one, tree_up 3)
erase-absent_other_example =
    erase-absent_other four four_IsTotal (up_RootLeaf 3 (omega arith)) 99 (λ j h. omega arith)
      (omega arith) (omega arith)

-- The leaf holds 10 and 20, and 30 behind them: `erase` of 30 drops 20.
erase-absent_stale_example :
    (t' : Tree ℕ ℕ) × (l' : LeafNode ℕ ℕ) × (erase four 30 (tree_up 2) ≡ ok (pos 2, t'))
    × RootLeaf four t' l'
    × (l'.slots_in_use ≡ 1)
    × (keys_of four l' ≡ 10 ∷ [])
erase-absent_stale_example =
    erase-absent_stale four four_IsTotal (up_RootLeaf 2 (omega arith)) 30 (λ j h. omega arith)
      (omega arith) (omega arith) refl

-- The full leaf of 10, 20, 30 and 40 is split by 25.
up_Split : Split four (leaf_up 4) 25 2
up_Split = record {
  full = refl;
  two = omega arith;
  small = omega arith;
  place_pos = omega arith;
  place_le = omega arith;
  less = λ i h. ground arith;
  greater = λ h. refl;
}

split_leaf-Part_example :
    (s : LeafSplit ℕ ℕ) × (split_leaf four (leaf_up 4) 25 7 ≡ ok s)
    × Part four (leaf_up 4) 25 7 2 0 2 s.low
    × Part four (leaf_up 4) 25 7 2 2 3 s.high
split_leaf-Part_example = split_leaf-Part four up_Split 7

split_leaf_total_example : (s : LeafSplit ℕ ℕ) × (split_leaf four (leaf_up 4) 5 7 ≡ ok s)
split_leaf_total_example = split_leaf_total four (leaf_up 4) 5 7 (omega arith)

up_FullRoot : FullRoot four (tree_up 4) (leaf_up 4) 25
up_FullRoot = record {
  root = up_RootLeaf 4 (omega arith);
  orphan = refl;
  fresh = omega arith;
  slots_same = refl;
  split = record {
    small = omega arith;
    full = refl;
    two = omega arith;
    strict = λ i j less h. ground arith;
    first = refl;
    absent = λ i h. omega arith;
  };
}

insert-FullRoot_example :
    (t' : Tree ℕ ℕ) × (insert four 25 7 (tree_up 4) ≡ ok (pos 1, t'))
    × IsTree four t' 1
    × ((a v : ℕ) → Has t' a v 1 t'.root ↔ (((a ≡ 25) × (v ≡ 7)) ⊎ InLeaf (leaf_up 4) a v))
    × (t'.total_key_count ≡ 5)
insert-FullRoot_example = insert-FullRoot four four_IsTotal up_FullRoot 7

-- 20 has the datum 120 before, and 130 after 15 has been put in before it.
get-insert_behind_example :
    (get four 20 (tree_up 3) ≡ ok ((120, true), tree_up 3))
    × (t' : Tree ℕ ℕ) × (insert four 15 7 (tree_up 3) ≡ ok (pos 1, t'))
    × (get four 20 t' ≡ ok ((130, true), t'))
get-insert_behind_example =
    get-insert_behind four four_IsTotal (up_SortedRoot 4 3 (omega arith)) 15 7 1 (omega arith)
      (λ (m, lt, e, s). omega arith) (omega arith) (λ j h. omega arith) refl

delete_leaf_pair-all_example :
    delete_leaf_pair four 1 20 7 (tree_up 3) ≡ ok (pos 1, tree_cleared (tree_up 3) 1 (leaf_up 3) 1)
delete_leaf_pair-all_example =
    delete_leaf_pair-all four four_IsTotal (up_RootLeaf 3 (omega arith)).here
      (up_RootLeaf 3 (omega arith)).valid 20 1 (omega arith) (omega arith) (λ j h. ground arith)
      (λ h. refl) 7

-- The datum of 20 is 120; the call asks for 7.
delete_pair-keys_of_example :
    (t' : Tree ℕ ℕ) × (l' : LeafNode ℕ ℕ) × (delete_pair four 20 7 (tree_up 3) ≡ ok (pos 1, t'))
    × RootLeaf four t' l'
    × (keys_of four l' ≡ 10 ∷ 30 ∷ [])
    × (segment l'.data_slots 0 l'.slots_in_use ≡ 110 ∷ 130 ∷ [])
    × (t'.total_key_count ≡ (3 + (2 ^ 32 - 1)) % 2 ^ 32)
delete_pair-keys_of_example =
    delete_pair-keys_of four four_IsTotal (up_RootLeaf 3 (omega arith)) refl 20 1 (omega arith) refl
      (λ j h. ground arith) 7
