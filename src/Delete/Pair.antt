-- ===== src/Delete/Pair.antt =====
-- `deleteleafpair`, and `delete_pair` on a tree whose root is a leaf.
use ccpbtree.Base.{
  ℕ, ◌+◌, ◌-◌, ◌%◌, ◌^◌, ◌≤◌, ◌<◌, ◌≡◌, refl, ◌∙◌, true, false, some, arith, put, shift_down,
  segment, ◌++◌, pos, minus_one, ltb, if◌then◌else◌,
}
use ccpbtree.Store.{
  Ptr, null, LeafNode, leaf, Tree, Traits, ok, fault, out_of_bounds, down_key_count,
}
use ccpbtree.Store.Points.{Points, load_leaf-ok}
use ccpbtree.KeyOrder.{IsTotal, key_equal, key_less_equal}
use ccpbtree.Leaf.{scan, find_lowerkey, delete_leaf_pair}
use ccpbtree.Leaf.Scan.{scan_unique}
use ccpbtree.Leaf.Keys.{IsLeaf, keys_of}
use ccpbtree.Inner.{find_inner_node_loc}
use ccpbtree.Delete.{delete_pair}
use ccpbtree.Delete.Balance.{balance_tree}
use ccpbtree.Delete.Root.{RootLeaf, find-RootLeaf}
use ccpbtree.Delete.Erase.{keys-shrunk}

module _ {K V : Type 0} where
  -- The leaf and the tree without the pair in slot `i`.
  abbrev pub cleared : LeafNode K V → ℕ → LeafNode K V
  cleared l i = record l {
    key_slots = shift_down l.key_slots i (l.slots_in_use - 1 - i);
    data_slots = shift_down l.data_slots i (l.slots_in_use - 1 - i);
    slots_in_use = l.slots_in_use - 1;
  }

  abbrev pub tree_cleared : Tree K V → Ptr → LeafNode K V → ℕ → Tree K V
  tree_cleared t q l i = record t {
    heap = put t.heap q (some (leaf (cleared l i)));
    total_key_count = (t.total_key_count + (2 ^ 32 - 1)) % 2 ^ 32;
  }

module _ {K V : Type 0} (p : Traits K V) (o : IsTotal p) where
  open p use {keyless, leafslots}

  module _ {t : Tree K V} {q : Ptr} {l : LeafNode K V} (e : Points t q (leaf l))
      (valid : IsLeaf p l) (k : K) (i : ℕ) (inside : i ≤ l.slots_in_use) (used : 0 < l.slots_in_use)
      (less : (j : ℕ) → j < i → keyless (l.key_slots j) k ≡ true)
      (least : i < l.slots_in_use → keyless (l.key_slots i) k ≡ false) where
    lower_here : scan p (λ s. key_less_equal p k s) l.key_slots l.slots_in_use 0 ≡ i
    lower_here =
        scan_unique p (λ s. key_less_equal p k s) l.key_slots l.slots_in_use 0 i (omega arith)
          (omega arith) (λ j a b. ground (arith, less j b))
          (λ h. ground (arith, least (omega arith)))

    find_lowerkey-here : find_lowerkey p l k ≡ (if ltb i l.slots_in_use then pos i else minus_one)
    unfolding find_lowerkey
    find_lowerkey-here = ground (arith, lower_here)

    -- `deleteleafpair` on a leaf that is not empty, where `i` is the first slot in use whose key is not
    -- less, or the number of slots in use: it removes the pair in that slot, whatever data it is
    -- called with, and returns the slot, if the key is equal; it returns -1 and changes nothing if the
    -- key is greater; and it reads outside the keys if all keys are less. The leaf has no more keys
    -- than slots, fewer than 65536, and the keys are totally ordered.
    pub delete_leaf_pair-all :
        (d : V)
        → delete_leaf_pair p q k d t ≡ (
            if ltb i l.slots_in_use
            then (if key_equal p k (l.key_slots i)
                then ok (pos i, tree_cleared t q l i)
                else ok (minus_one, t))
            else fault out_of_bounds)
    unfolding delete_leaf_pair down_key_count
    delete_leaf_pair-all d =
        ground (arith, load_leaf-ok e, find_lowerkey-here, valid.in_use_le, valid.small, used)

  balance_tree-orphan :
      {t : Tree K V} {q : Ptr} {l : LeafNode K V}
      → Points t q (leaf l)
      → l.parent ≡ null
      → l.next_leaf ≡ null
      → balance_tree p q t ≡ ok (tt, t)
  unfolding balance_tree find_inner_node_loc
  balance_tree-orphan e orphan last = ground (arith, load_leaf-ok e, orphan, last)

  module _ {t : Tree K V} {l : LeafNode K V} (r : RootLeaf p t l) (orphan : l.parent ≡ null) where
    -- `delete_pair` of a key that the root leaf holds, where that leaf has no successor and no parent
    -- and the keys before are less, removes the first slot with the key and its data, whatever the
    -- data that it was asked to remove, returns that slot, and counts one key less modulo 2 ^ 32. The
    -- root is such a leaf again. The keys are totally ordered.
    pub delete_pair-keys_of :
        (k : K) (i : ℕ)
        → i < l.slots_in_use
        → l.key_slots i ≡ k
        → ((j : ℕ) → j < i → keyless (l.key_slots j) k ≡ true)
        → (d : V)
        → (t' : Tree K V) × (l' : LeafNode K V) × (delete_pair p k d t ≡ ok (pos i, t'))
          × RootLeaf p t' l'
          × (keys_of p l'
              ≡ segment l.key_slots 0 i ++ segment l.key_slots (i + 1) (l.slots_in_use - 1 - i))
          × (segment l'.data_slots 0 l'.slots_in_use
              ≡ segment l.data_slots 0 i ++ segment l.data_slots (i + 1) (l.slots_in_use - 1 - i))
          × (t'.total_key_count ≡ (t.total_key_count + (2 ^ 32 - 1)) % 2 ^ 32)
    unfolding delete_pair
    delete_pair-keys_of k i inside at less d = (
      tree_cleared t t.root l i,
      cleared l i,
      ground (
        arith,
        find-RootLeaf p r k,
        r.here.ne_null,
        deleted,
        balance_tree-orphan here orphan r.last,
      ),
      record {
        here = here;
        valid = record {
          slots_eq = r.valid.slots_eq;
          in_use_le = omega (arith, r.valid.in_use_le);
          small = r.valid.small;
        };
        is_root = r.is_root;
        last = r.last;
      },
      keys-shrunk p o l.key_slots l.slots_in_use i inside,
      keys-shrunk p o l.data_slots l.slots_in_use i inside,
      refl,
    )
      where
        here : Points (tree_cleared t t.root l i) t.root (leaf (cleared l i))
        here = record { ne_null = r.here.ne_null; holds = ground arith }

        equal : key_equal p k (l.key_slots i) ≡ true
        equal = rw (at, o.irreflexive k)

        deleted : delete_leaf_pair p t.root k d t ≡ ok (pos i, tree_cleared t t.root l i)
        deleted =
            delete_leaf_pair-all r.here r.valid k i (omega arith) (omega arith) less
              (λ h. rw (at, o.irreflexive k)) d
            ∙ ground (arith, equal)
