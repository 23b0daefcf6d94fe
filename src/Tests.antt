-- ===== src/Tests.antt =====
-- Runs of the tree of src/btree.h on small inputs, and the theorems at concrete inputs.
pub mod Trees
mod Searches
mod Sequences
mod Inners
mod Indexes
mod Handles
mod Sessions
use ccpbtree.Base.{
  ℕ, zero, suc, ◌+◌, ◌≡◌, refl, Bool, true, false, ltb, ◌==◌, List, [], ◌∷◌, shift_down, ℤ, pos,
  negsuc,
}
use ccpbtree.Store.{
  Traits, Tree, alloc, up_key_count, down_key_count, free_node, Out, ok, fault, bad_pointer, Cmd,
  pure, ◌>>=◌, ◌>>◌, new_tree,
}
use ccpbtree.Find.{descend, walk, keys_from, find, get, exists, printleaves}
use ccpbtree.Insert.{insert, make_root, insert_split}
use ccpbtree.Insert.Split.{split_leaf}
use ccpbtree.Insert.Parent.{insert_in_parent}
use ccpbtree.Leaf.{new_leaf, insert_leaf_pair, find_key_equal}
use ccpbtree.Delete.{erase, delete_pair}

abbrev four : Traits ℕ ℕ
four = record {
  keyless = ltb;
  same_data = λ a b. a == b;
  leafslots = 4;
  nodeslots = 4;
  key_garbage = λ i. 0;
  blank = 0;
}

abbrev run_on : {A : Type 0} → Cmd ℕ ℕ A → Out A
run_on c = elim (c new_tree) [ ok (a, t) ↦ ok a | fault e ↦ fault e ]

-- Inserts `n` keys from `i` up, each with a datum of its own.
insert_up : ℕ → ℕ → Cmd ℕ ℕ (Unit {0})
insert_up i zero = pure tt
insert_up i (suc n) = do insert four i (i + 100); insert_up (i + 1) n

-- Five keys in ascending order split the leaf.
insert-five : run_on (insert_up 1 5 >> printleaves four 0) ≡ ok (1 ∷ 2 ∷ 3 ∷ 4 ∷ 5 ∷ [])
unfolding new_tree insert_up insert make_root alloc insert_leaf_pair new_leaf up_key_count find
    descend walk insert_split split_leaf insert_in_parent free_node printleaves keys_from
insert-five = refl

-- Each datum is found after splits of leaves and of inner nodes.
get-thirty : run_on (insert_up 0 30 >> get four 17) ≡ ok (117, true)
unfolding new_tree insert_up insert make_root alloc insert_leaf_pair new_leaf up_key_count find
    descend walk insert_split split_leaf insert_in_parent free_node get
get-thirty = refl

-- A second `erase` of the greatest key takes the one before.
erase-twice :
    run_on (insert_up 1 3 >> erase four 3 >> erase four 3 >> printleaves four 0) ≡ ok (1 ∷ [])
unfolding new_tree insert_up insert make_root alloc insert_leaf_pair new_leaf up_key_count find
    descend walk insert_split split_leaf insert_in_parent free_node erase find_key_equal
    down_key_count shift_down printleaves keys_from
erase-twice = refl

-- A key below all others in a full leaf is written twice by the split, and 1 is lost.
split-lowest :
    run_on (insert_up 1 4 >> insert four 0 7 >> printleaves four 0) ≡ ok (0 ∷ 0 ∷ 2 ∷ 3 ∷ 4 ∷ [])
unfolding new_tree insert_up insert make_root alloc insert_leaf_pair new_leaf up_key_count find
    descend walk insert_split split_leaf insert_in_parent free_node printleaves keys_from
split-lowest = refl
