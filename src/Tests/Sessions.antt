-- ===== src/Tests/Sessions.antt =====
-- The theorems on `get` of bptree.cc at a small tree.
use ccpbtree.Base.{
  true, false, ℕ, ◌+◌, ◌*◌, ◌≤◌, ◌≡◌, refl, ◌⊎◌, inl, none, some, arith, ltb, ◌==◌, if◌then◌else◌,
  [], ◌∷◌, pos, ℤ,
}
use ccpbtree.Store.{null, LeafNode, leaf, Tree, Traits, bad_pointer, ok, fault}
use ccpbtree.KeyOrder.{IsTotal}
use ccpbtree.Server.{int, int_key, zero_key, success, Text, text_eq, Record}
use ccpbtree.Find.Shape.{leaf_at, IsTree, Has, in_leaf}
use ccpbtree.Catalog.{Strings, Catalog, IdxState, returns, find_link, set_threads, close_index}
use ccpbtree.Session.{TxnState, code, length, int_tree, Trees, with_key_data, get}
use ccpbtree.Session.Lookup.{get-success, get-close_index}

abbrev words : Traits ℕ Text
words = record {
  keyless = ltb;
  same_data = text_eq;
  leafslots = 4;
  nodeslots = 4;
  key_garbage = λ i. 0;
  blank = [];
}

words_IsTotal : IsTotal words
words_IsTotal = record {
  irreflexive = λ a. ground arith;
  transitive = λ a b c h g. ground arith;
  trichotomy = λ a b h g. ground arith;
}

-- The keys 10 and 20, each with the payload "a".
abbrev word_leaf : LeafNode ℕ Text
word_leaf = record {
  slots = 4;
  slots_in_use = 2;
  is_root_node = true;
  parent = null;
  key_slots = λ i. 10 + i * 10;
  data_slots = λ i. 97 ∷ [];
  next_leaf = null;
  prev_leaf = null;
}

abbrev word_tree : Tree ℕ Text
word_tree = record {
  heap = λ q. if q == 1 then some (leaf word_leaf) else none;
  brk = 2;
  root = 1;
  tail_leaf = null;
  head_leaf = 1;
  total_key_count = 2;
}

word_tree-IsTree : IsTree words word_tree 0
word_tree-IsTree = record {
  shape =
      leaf_at word_leaf (record { ne_null = omega arith; holds = refl })
        (record {
          in_use_le = omega arith;
          sorted = λ i j a b. ground arith;
          at_least = λ i a. tt;
          below = λ i a. tt;
          next = inl refl;
        });
  height_le = omega arith;
  brk_pos = omega arith;
}

payload_short : (v : Text) → Has word_tree 20 v 0 1 → length v ≤ 100
payload_short v (in_leaf l here (m, inside, e, d)) = rw (← d, ← held) (omega arith)
  where
    held : word_leaf ≡ l
    held = ground (arith, here.holds)

abbrev open_state : IdxState
open_state = record {
  nbt = some 1;
  type = int;
  db_name = 1;
  tid = 0;
  last_key = zero_key;
  key_not_found = 0;
  in_use = 0;
}

abbrev begun : TxnState
begun = record { status = pos 1; tid = 5 }

abbrev wanted : Record
wanted = record { key = int_key (pos 20) (λ i. 0); payload = [] }

abbrev forest : Trees ℕ ℕ
forest q = if q == 1 then some (int_tree word_tree) else none

get-success_example :
    (v : Text) × (get words words 0 20 open_state begun wanted forest
      ≡ ok ((code success, open_state, record (with_key_data wanted) { payload = v }), forest))
    × (Has word_tree 20 v 0 1 ⊎ ((v ≡ []) × ((u : Text) → ¬ Has word_tree 20 u 0 1)))
get-success_example =
    get-success words words words_IsTotal word_tree-IsTree 0 20 open_state begun wanted forest 1
      refl refl refl (omega arith) payload_short

-- The index "a" after its one `openIndex`.
abbrev strings : Strings
strings q = if q == 1 then some (97 ∷ []) else none

abbrev opened : ℤ → Catalog
opened n = record {
  links = record { name = 1; nbt = 1; type = int; num_open_threads = n; in_use = 0 } ∷ [];
  locked = false;
  error_log = true;
  next_tree = 2;
}

closed :
    close_index strings open_state (opened (pos 1))
    ≡ returns success (record open_state { nbt = none }) (opened (pos 0))
unfolding close_index find_link set_threads
closed = refl

get-close_index_example :
    get words words 0 20 (record open_state { nbt = none }) begun wanted forest ≡ fault bad_pointer
get-close_index_example =
    get-close_index words words strings open_state (record open_state { nbt = none })
      (opened (pos 1)) (opened (pos 0)) 0 20 begun wanted forest refl closed
