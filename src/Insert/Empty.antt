-- ===== src/Insert/Empty.antt =====
-- `insert` on an empty tree: `makeroot`.
use ccpbtree.Base.{inl, ◌+◌, ◌%◌, ◌^◌, ◌<◌, ◌≡◌, refl, true, some, arith, put, [], ◌∷◌, pos}
use ccpbtree.Store.{null, LeafNode, leaf, Tree, Traits, ok, write, alloc, up_key_count}
use ccpbtree.KeyOrder.{IsTotal}
use ccpbtree.Leaf.{new_leaf, insert_leaf_pair}
use ccpbtree.Leaf.Keys.{keys_of}
use ccpbtree.Leaf.Sorted.{insert_sorted}
use ccpbtree.Leaf.Pair.{Room, Holds, insert_leaf_pair-Inserted}
use ccpbtree.Insert.{insert, make_root}
use ccpbtree.Insert.Root.{SortedRoot}

module _ {K V : Type 0} (p : Traits K V) where
  open p use {leafslots}

  -- The leaf that `makeroot` allocates, and the memory with it.
  abbrev pub first_leaf : LeafNode K V
  first_leaf = record (new_leaf p) { is_root_node = true }

  abbrev pub with_leaf : Tree K V → Tree K V
  with_leaf t = record t { heap = put t.heap t.brk (some (leaf first_leaf)); brk = t.brk + 1 }

  abbrev pub rooted : Tree K V → LeafNode K V → Tree K V
  rooted t l = record t {
    heap = put (with_leaf t).heap t.brk (some (leaf l));
    brk = t.brk + 1;
    root = t.brk;
    head_leaf = t.brk;
    total_key_count = (t.total_key_count + 1) % 2 ^ 32;
  }

  pub with_leaf-Room :
      (t : Tree K V)
      → 0 < t.brk
      → 0 < leafslots
      → leafslots < 65536
      → (k : K) → Room p (with_leaf t) t.brk first_leaf k
  unfolding new_leaf
  with_leaf-Room t used some_slot small k = record {
    here = record { ne_null = omega arith; holds = ground arith };
    valid = record { slots_eq = refl; in_use_le = omega arith; small = small };
    room = some_slot;
    last = inl refl;
    sorted = λ i j a b. absurd (omega arith);
    used = omega arith;
  }

  pub first-new : (k : K) (d : V) → ¬ Holds p first_leaf k d
  unfolding new_leaf
  first-new k d (m, lt, e, s) = absurd (omega arith)

  pub insert-rooted :
      (t : Tree K V) (k : K) (d : V) (l : LeafNode K V)
      → t.root ≡ null
      → insert_leaf_pair p t.brk k d (with_leaf t)
        ≡ ok (pos 1, write t.brk (some (leaf l)) (with_leaf t))
      → insert p k d t ≡ ok (pos 1, rooted t l)
  unfolding insert make_root alloc up_key_count
  insert-rooted t k d l e run = ground (arith, run)

  -- `insert` of a pair into a tree without a root, where a leaf has at least one slot and
  -- fewer than 65536, returns 1 and counts the key. The root is then a leaf in order, and its
  -- only key in use is the new one. The keys are totally ordered.
  pub insert-first :
      (t : Tree K V) (o : IsTotal p) (k : K) (d : V)
      → t.root ≡ null
      → 0 < t.brk
      → 0 < leafslots
      → leafslots < 65536
      → (t' : Tree K V) × (l' : LeafNode K V) × (insert p k d t ≡ ok (pos 1, t'))
        × SortedRoot p t' l'
        × (keys_of p l' ≡ k ∷ [])
        × (t'.total_key_count ≡ (t.total_key_count + 1) % 2 ^ 32)
  unfolding new_leaf insert_sorted
  insert-first t o k d e used some_slot small =
      let r = with_leaf-Room t used some_slot small k in
      let (l', run, after) = insert_leaf_pair-Inserted p k r d o (first-new k d) in
      (
        rooted t l',
        l',
        insert-rooted t k d l' e run,
        record {
          root = record {
            here = record { ne_null = omega (arith, used); holds = ground arith };
            valid = record {
              slots_eq = after.slots_same;
              in_use_le = omega (arith, after.count, some_slot);
              small = small;
            };
            is_root = after.root_same;
            last = after.next_same;
          };
          sorted = after.sorted;
          used = omega arith;
        },
        after.keys,
        refl,
      )
