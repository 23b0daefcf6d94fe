-- ===== src/Delete/Root.antt =====
-- `erase` on a tree whose root is a leaf.
use ccpbtree.Base.{
  ℕ, suc, ◌+◌, ◌-◌, ◌%◌, ◌^◌, ◌<◌, ◌≡◌, ap, ◌∙◌, true, inr, some, arith, put, shift_down, pos,
}
use ccpbtree.Store.{null, LeafNode, leaf, Tree, Traits, ok, down_key_count}
use ccpbtree.Store.Points.{Points, load_leaf-ok, load-ok}
use ccpbtree.KeyOrder.{key_equal}
use ccpbtree.Leaf.{find_key_equal, find_key_equal_at}
use ccpbtree.Leaf.Keys.{IsLeaf}
use ccpbtree.Find.Walk.{walk-stop}
use ccpbtree.Find.{find, descend, walk}
use ccpbtree.Delete.{erase}

-- The root is a leaf without successor.
pub record RootLeaf {K V : Type 0} (p : Traits K V) (t : Tree K V) (l : LeafNode K V) : Type 0 where
  pub here : Points t t.root (leaf l)
  pub valid : IsLeaf p l
  pub is_root : l.is_root_node ≡ true
  pub last : l.next_leaf ≡ null

module _ {K V : Type 0} (p : Traits K V) {t : Tree K V} {l : LeafNode K V}
    (r : RootLeaf p t l) where
  open p use {keyless, leafslots}

  descend-RootLeaf : (fuel : ℕ) (k : K) → descend p (suc fuel) t.root k t ≡ ok (t.root, t)
  unfolding descend
  descend-RootLeaf fuel k = rw (load-ok r.here)

  -- Every search ends at the root.
  pub find-RootLeaf : (k : K) → find p k t ≡ ok (t.root, t)
  unfolding find
  find-RootLeaf k = ground (arith, r.here.ne_null, down, across)
    where
      more : t.brk + 1 ≡ suc t.brk
      more = omega arith

      down : descend p (t.brk + 1) t.root k t ≡ ok (t.root, t)
      down = ap (λ n. descend p n t.root k t) more ∙ descend-RootLeaf t.brk k

      across : walk p (t.brk + 1) t.root k t ≡ ok (t.root, t)
      across = ap (λ n. walk p n t.root k t) more ∙ walk-stop p t.brk l k r.here (inr r.last)

  pub find_key_equal-ok :
      (k : K) → find_key_equal p t.root k t ≡ ok (pos (find_key_equal_at p l k), t)
  unfolding find_key_equal
  find_key_equal-ok k = ground (arith, r.here.ne_null, load_leaf-ok r.here)

  -- The leaf when slot `i` has been erased: the keys behind it move down, and no data does.
  abbrev pub shrunk : ℕ → LeafNode K V
  shrunk i = record l {
    key_slots = shift_down l.key_slots i (l.slots_in_use - 1 - i);
    slots_in_use = l.slots_in_use - 1;
  }

  abbrev pub erased : ℕ → Tree K V
  erased i = record t {
    heap = put t.heap t.root (some (leaf (shrunk i)));
    total_key_count = (t.total_key_count + (2 ^ 32 - 1)) % 2 ^ 32;
  }

  -- A read of an equal key at the slot that `findKeyEqual` returns is what makes `erase` act.
  pub erase-at :
      (k : K) (i : ℕ)
      → find_key_equal_at p l k ≡ i
      → i < leafslots
      → key_equal p k (l.key_slots i) ≡ true
      → 0 < l.slots_in_use
      → erase p k t ≡ ok (pos i, erased i)
  unfolding erase down_key_count
  erase-at k i e small same used = ground (
    arith,
    find-RootLeaf k,
    r.here.ne_null,
    find_key_equal-ok k,
    load_leaf-ok r.here,
    r.is_root,
    r.valid,
  )

  pub RootLeaf-erased : (i : ℕ) → RootLeaf p (erased i) (shrunk i)
  RootLeaf-erased i = record {
    here = record { ne_null = r.here.ne_null; holds = ground arith };
    valid = record {
      slots_eq = r.valid.slots_eq;
      in_use_le = omega (arith, r.valid);
      small = r.valid.small;
    };
    is_root = r.is_root;
    last = r.last;
  }
