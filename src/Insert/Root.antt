-- ===== src/Insert/Root.antt =====
-- `insert` on a tree whose root is a leaf.
pub mod Lookup
pub mod Data
pub mod Split
use ccpbtree.Base.{inl, ◌+◌, ◌%◌, ◌^◌, ◌<◌, ◌≡◌, refl, ◌≢◌, ◌∙◌, some, arith, put, pos, minus_two}
use ccpbtree.Store.{LeafNode, leaf, Tree, Traits, ok, write, up_key_count}
use ccpbtree.Store.Points.{load_leaf-ok}
use ccpbtree.KeyOrder.{IsTotal}
use ccpbtree.Leaf.{insert_leaf_pair}
use ccpbtree.Leaf.Keys.{IsSorted, keys_of}
use ccpbtree.Leaf.Sorted.{insert_sorted}
use ccpbtree.Leaf.Pair.{
  Room, Holds, Inserted, insert_leaf_pair-Holds, insert_leaf_pair-Inserted, insert_leaf_pair-full,
}
use ccpbtree.Delete.Root.{RootLeaf, find-RootLeaf}
use ccpbtree.Insert.{insert}

-- The root is a leaf in order, without successor.
pub record SortedRoot {K V : Type 0} (p : Traits K V) (t : Tree K V) (l : LeafNode K V)
    : Type 0 where
  pub root : RootLeaf p t l
  pub sorted : IsSorted p l.key_slots l.slots_in_use
  pub used : 0 < t.brk

module _ {K V : Type 0} (p : Traits K V) where
  open p use {keyless, leafslots, nodeslots}

  module _ {t : Tree K V} {l : LeafNode K V} (r : SortedRoot p t l) where
    -- Such a root with a slot left is a leaf to insert into.
    pub SortedRoot-Room : (k : K) → l.slots_in_use < leafslots → Room p t t.root l k
    SortedRoot-Room k room = record {
      here = r.root.here;
      valid = r.root.valid;
      room = room;
      last = inl r.root.last;
      sorted = r.sorted;
      used = r.used;
    }

    abbrev pub stored : LeafNode K V → Tree K V
    stored l' = record t {
      heap = put t.heap t.root (some (leaf l'));
      total_key_count = (t.total_key_count + 1) % 2 ^ 32;
    }

    pub insert-stored :
        (k : K) (d : V) (l' : LeafNode K V)
        → insert_leaf_pair p t.root k d t ≡ ok (pos 1, write t.root (some (leaf l')) t)
        → insert p k d t ≡ ok (pos 1, stored l')
    unfolding insert up_key_count
    insert-stored k d l' run = ground (arith, r.root.here.ne_null, find-RootLeaf p r.root k, run)

    insert-refused :
        (k : K) (d : V)
        → insert_leaf_pair p t.root k d t ≡ ok (minus_two, t)
        → insert p k d t ≡ ok (minus_two, t)
    unfolding insert
    insert-refused k d run = ground (arith, r.root.here.ne_null, find-RootLeaf p r.root k, run)

    module _ (o : IsTotal p) (k : K) (d : V) where
      pub stored-SortedRoot :
          (l' : LeafNode K V) (room : l.slots_in_use < leafslots)
          → Inserted p k (SortedRoot-Room k room) d o l'
          → SortedRoot p (stored l') l'
      stored-SortedRoot l' room after = record {
        root = record {
          here = record { ne_null = r.root.here.ne_null; holds = ground arith };
          valid = record {
            slots_eq = after.slots_same ∙ r.root.valid.slots_eq;
            in_use_le = omega (arith, after.count);
            small = r.root.valid.small;
          };
          is_root = after.root_same ∙ r.root.is_root;
          last = after.next_same ∙ r.root.last;
        };
        sorted = after.sorted;
        used = r.used;
      }

      -- `insert` of a pair that the root leaf holds, where that leaf is in order, has no
      -- successor and has room, returns -2 and changes nothing. The keys are totally ordered.
      pub insert-Holds :
          l.slots_in_use < leafslots → Holds p l k d → insert p k d t ≡ ok (minus_two, t)
      insert-Holds room pair =
          insert-refused k d (insert_leaf_pair-Holds p k (SortedRoot-Room k room) d o pair)

      -- `insert` of a pair that the root leaf does not hold, where that leaf is in order, has
      -- no successor and has room, returns 1 and counts the key. The root is then such a leaf
      -- again, and its keys are those before with the new one inserted in the ascending list.
      -- The keys are totally ordered.
      pub insert-insert_sorted :
          l.slots_in_use < leafslots
          → ¬ Holds p l k d
          → (t' : Tree K V) × (l' : LeafNode K V) × (insert p k d t ≡ ok (pos 1, t'))
            × SortedRoot p t' l'
            × (keys_of p l' ≡ insert_sorted p k (keys_of p l))
            × (l'.slots_in_use ≡ l.slots_in_use + 1)
            × (t'.total_key_count ≡ (t.total_key_count + 1) % 2 ^ 32)
      insert-insert_sorted room new =
          let (l', run, after) = insert_leaf_pair-Inserted p k (SortedRoot-Room k room) d o new in
          (
            stored l',
            l',
            insert-stored k d l' run,
            stored-SortedRoot l' room after,
            after.keys,
            after.count,
            refl,
          )

    -- A full root leaf without successor is split only if it has as many keys as an inner node
    -- has slots: where leaves have another number of slots than inner nodes, `insert` returns
    -- 1 and counts the key, and changes nothing else.
    pub insert-dropped :
        (k : K) (d : V)
        → l.slots_in_use ≡ leafslots
        → leafslots ≢ nodeslots
        → insert p k d t
          ≡ ok (pos 1, record t { total_key_count = (t.total_key_count + 1) % 2 ^ 32 })
    unfolding insert up_key_count
    insert-dropped k d full differ = ground (
      arith,
      r.root.here.ne_null,
      find-RootLeaf p r.root k,
      load_leaf-ok r.root.here,
      insert_leaf_pair-full p l k d r.root.here full,
    )
