-- ===== src/Delete/Target.antt =====
-- `erase` on a search tree of any height, where the leaf for the key does not become too small.
use ccpbtree.Base.{
  ℕ, ◌+◌, ◌-◌, ◌/◌, ◌%◌, ◌^◌, ◌≤◌, ◌<◌, ◌≡◌, refl, ap, ◌∙◌, sym, ◌≢◌, ◌↔◌, inl, inr, false, true,
  some, arith, put, shift_down, shift_down-at, segment, ◌++◌, pos, if◌then◌else◌, ltb, leb, ◌==◌,
}
use native.Mathlib.Decide.{dec_lt}
use ccpbtree.Store.{Ptr, null, LeafNode, leaf, Tree, Traits, ok, pure, down_key_count}
use ccpbtree.Store.Points.{Points, load_leaf-ok}
use ccpbtree.KeyOrder.{IsTotal, key_equal}
use ccpbtree.Leaf.{find_key_equal}
use ccpbtree.Leaf.Keys.{keys_of, IsSorted}
use ccpbtree.Find.Shape.{Has, InLeaf, IsTree}
use ccpbtree.Find.Replace.{Replaced, new_here}
use ccpbtree.Find.Route.{Route-End}
use ccpbtree.Find.Update.{Written, Route-Subtree}
use ccpbtree.Find.Members.{Has-forth, Has-back, Route-Has, Route-Has_new}
use ccpbtree.Find.Target.{Target, find-Target, Target-Route}
use ccpbtree.Delete.{erase}
use ccpbtree.Delete.Balance.{balance_tree}
use ccpbtree.Delete.Erase.{find_key_equal_at-first, keys-shrunk}
use ccpbtree.Delete.Fits.{Parented, balance_tree-fits, Parented-Replaced}

module _ {K V : Type 0} (p : Traits K V) where
  open p use {keyless, leafslots, nodeslots}

  -- The leaf without slot `i`: the keys behind it move down, and no data does.
  abbrev pub without : LeafNode K V → ℕ → LeafNode K V
  without l i = record l {
    key_slots = shift_down l.key_slots i (l.slots_in_use - 1 - i);
    slots_in_use = l.slots_in_use - 1;
  }

  abbrev pub tree_without : Tree K V → Ptr → LeafNode K V → ℕ → Tree K V
  tree_without t q l i = record t {
    heap = put t.heap q (some (leaf (without l i)));
    total_key_count = (t.total_key_count + (2 ^ 32 - 1)) % 2 ^ 32;
  }

  without-key :
      (l : LeafNode K V) (i j : ℕ)
      → i < l.slots_in_use
      → j < l.slots_in_use - 1
      → (without l i).key_slots j ≡ (if ltb j i then l.key_slots j else l.key_slots (j + 1))
  without-key l i j inside at =
      ground (arith, shift_down-at l.key_slots i (l.slots_in_use - 1 - i) j)

  without-IsSorted :
      (l : LeafNode K V) (i : ℕ)
      → i < l.slots_in_use
      → IsSorted p l.key_slots l.slots_in_use
      → IsSorted p (without l i).key_slots (l.slots_in_use - 1)
  without-IsSorted l i inside s a b less at =
      rw (without-key l i a inside (omega arith), without-key l i b inside at)
        (ground (arith, s a b, s a (b + 1), s (a + 1) (b + 1)))

  -- Slot `i` is the first with the key in a leaf that is no root and large enough without it.
  pub record Removable (t : Tree K V) (l : LeafNode K V) (k : K) (i : ℕ) : Type 0 where
    pub inside : i < l.slots_in_use
    pub at : l.key_slots i ≡ k
    pub before : (j : ℕ) → j < i → l.key_slots j ≢ k
    pub not_root : l.is_root_node ≡ false
    pub two : 1 < l.slots_in_use
    pub fits : leafslots / 2 ≤ l.slots_in_use - 1
    pub parent : Parented p t l

  module _ (o : IsTotal p) {t : Tree K V} {h : ℕ} {k : K} {q : Ptr} {l : LeafNode K V}
      (tree : IsTree p t h) (e : Target p t k q l) (i : ℕ) (m : Removable t l k i) where
    open m use {inside, at, before, not_root, two, fits, parent}

    without-Replaced : Replaced t (tree_without t q l i) q l (without l i)
    without-Replaced = record { here = e.here; heap_eq = refl }

    balanced : balance_tree p q (tree_without t q l i) ≡ ok (tt, tree_without t q l i)
    balanced =
        balance_tree-fits p (new_here without-Replaced)
          (Parented-Replaced p without-Replaced refl parent) (omega (arith, e.room)) fits

    found : find_key_equal p q k t ≡ ok (pos i, t)
    unfolding find_key_equal
    found = ground (
      arith,
      e.here.ne_null,
      load_leaf-ok e.here,
      find_key_equal_at-first p o l k i (omega arith) before (λ h. at),
    )

    then_balanced :
        (if l.is_root_node then pure tt else balance_tree p q) (tree_without t q l i)
        ≡ ok (tt, tree_without t q l i)
    then_balanced =
        ap (λ b. (if b then pure tt else balance_tree p q) (tree_without t q l i)) not_root
        ∙ balanced

    erase-without : erase p k t ≡ ok (pos i, tree_without t q l i)
    unfolding erase down_key_count
    erase-without =
        let there : (q == null) ≡ false = ground (arith, e.here.ne_null) in
        let slot_in : leb leafslots i ≡ false = ground (arith, e.room) in
        let same : key_equal p k (l.key_slots i) ≡ true = rw (at, o.irreflexive k) in
        let down : (l.slots_in_use + 65535) % 65536 ≡ l.slots_in_use - 1 =
          ground (arith, e.valid.in_use_le, e.valid.small) in
        rw (
          find-Target p tree e,
          there,
          found,
          load_leaf-ok e.here,
          slot_in,
          same,
          down,
          then_balanced,
        )

    erased_among :
        (j : ℕ)
        → j < l.slots_in_use - 1
        → (n : ℕ) × (n < l.slots_in_use) × ((without l i).key_slots j ≡ l.key_slots n)
    erased_among j lt = elim (dec_lt j i) [
      | yes less ↦ (j, omega arith, ground (arith, without-key l i j inside lt))
      | no behind ↦ (j + 1, omega arith, ground (arith, without-key l i j inside lt))
    ]

    without-Written : Written p k l (without l i)
    without-Written = record {
      covered = record {
        used = e.used;
        used' = omega (arith, two);
        among = λ j lt. inr (erased_among j lt);
      };
      in_use_le = omega (arith, e.room);
      sorted = without-IsSorted l i inside (Route-End p (Target-Route p tree e)).shape.sorted;
      next_same = refl;
    }

    -- `erase` on a search tree of any height, where the leaf at which the descent ends has room, is
    -- no root, holds the key and without it is not empty and does not underflow, and its parent is
    -- an inner node over leaves with one more child than keys, returns the first slot of the leaf
    -- with the key and counts one key less modulo 2 ^ 32. The tree is a search tree of the same
    -- height again. The keys are totally ordered.
    pub erase-IsTree :
        (t' : Tree K V) × (erase p k t ≡ ok (pos i, t'))
        × IsTree p t' h
        × (t'.total_key_count ≡ (t.total_key_count + (2 ^ 32 - 1)) % 2 ^ 32)
    erase-IsTree = (
      tree_without t q l i,
      erase-without,
      record {
        shape = Route-Subtree p o without-Replaced without-Written (Target-Route p tree e);
        height_le = tree.height_le;
        brk_pos = tree.brk_pos;
      },
      refl,
    )

    kept : (a : K) (v : V) → a ≢ k → InLeaf l a v → (u : V) × InLeaf (without l i) a u
    kept a v other (j, lt, g, f) = elim (dec_lt j i) [
      | yes less ↦ (
        l.data_slots j,
        (j, omega arith, ground (arith, without-key l i j inside (omega arith), g), refl),
      )
      | no behind ↦
          let different : j ≢ i = λ same. other (sym g ∙ ap l.key_slots same ∙ at) in
          let near : j - 1 < l.slots_in_use - 1 = omega (arith, different) in
          let back : j - 1 + 1 ≡ j = omega (arith, different) in
          (
            l.data_slots (j - 1),
            (
              j - 1,
              near,
              ground (arith, without-key l i (j - 1) inside near, ap l.key_slots back, g),
              refl,
            ),
          )
    ]

    old : (a : K) (v : V) → InLeaf (without l i) a v → (u : V) × InLeaf l a u
    old a v (j, lt, g, f) =
        let (n, inside, same) = erased_among j lt in
        (l.data_slots n, (n, inside, sym same ∙ g, refl))

    -- `erase` on a search tree of any height, where the leaf at which the descent ends has room, is
    -- no root, holds the key and without it is not empty and does not underflow, and its parent is
    -- an inner node over leaves with one more child than keys, takes the first slot with the key
    -- from the keys of that leaf. Every other key is in the tree afterwards exactly if it was
    -- before. The keys are totally ordered.
    pub erase-keys :
        (t' : Tree K V) × (l' : LeafNode K V) × (erase p k t ≡ ok (pos i, t'))
        × Points t' q (leaf l')
        × (keys_of p l'
            ≡ segment l.key_slots 0 i ++ segment l.key_slots (i + 1) (l.slots_in_use - 1 - i))
        × ((a : K) → a ≢ k → ((v : V) × Has t' a v h t'.root) ↔ ((v : V) × Has t a v h t.root))
    erase-keys = (
      tree_without t q l i,
      without l i,
      erase-without,
      new_here without-Replaced,
      keys-shrunk p o l.key_slots l.slots_in_use i inside,
      λ a other. (
        λ (v, has). elim (Has-back p without-Replaced has) [
          | inl there ↦ (v, there)
          | inr held ↦
              let (u, was) = old a v held in
              (u, Route-Has p without-Replaced (Target-Route p tree e) was)
        ],
        λ (v, has). elim (Has-forth p without-Replaced has) [
          | inl there ↦ (v, there)
          | inr held ↦
              let (u, is) = kept a v other held in
              (u, Route-Has_new p without-Replaced (Target-Route p tree e) is)
        ],
      ),
    )
