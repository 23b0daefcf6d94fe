-- ===== src/Insert/Row/Start.antt =====
-- The row of two leaves that the split of the root makes.
use ccpbtree.Base.{
  ap, ◌∙◌, [], ◌∷◌, ◌++◌, ℕ, zero, suc, ◌+◌, ◌≤◌, ◌<◌, ◌≡◌, refl, sym, ◌⊎◌, ◌↔◌, inl, inr, true,
  arith,
}
use mathlib.Core.Path.{subst}
use ccpbtree.Store.{Ptr, LeafNode, leaf, Tree, Traits}
use ccpbtree.Store.Points.{Points}
use ccpbtree.KeyOrder.{IsTotal}
use mathlib.Core.List.{append-nil}
use ccpbtree.Insert.Row.Keys.{keys_after, keys_of-halves}
use ccpbtree.Leaf.Keys.{keys_of, IsLeaf, IsStrict}
use ccpbtree.Find.Shape.{InLeaf}
use ccpbtree.Insert.Split.{LeafSplit}
use ccpbtree.Insert.Split.Full.{middle, middle_bounds, Part-IsStrict, low_below, halves_iff}
use ccpbtree.Insert.Root.Split.{FullRoot, Halves}
use ccpbtree.Insert.Row.{Row, InRow}
use ccpbtree.Insert.Row.Leaves.{with_last, with_last-all}

module _ {K V : Type 0} (p : Traits K V) (o : IsTotal p) {t : Tree K V} {l : LeafNode K V} {k : K}
    (f : FullRoot p t l k) {d : V} {s : LeafSplit K V} {t' : Tree K V}
    (h : Halves p o f d s t') where
  open p use {keyless, leafslots, nodeslots}

  abbrev pub low_leaf : LeafNode K V
  low_leaf = record s.low { parent = t'.root; next_leaf = t.brk + 1 }

  abbrev pub high_leaf : LeafNode K V
  high_leaf = record s.high { parent = t'.root; prev_leaf = t.brk }

  abbrev pub both : ℕ → LeafNode K V
  both = with_last (λ i. low_leaf) 1 high_leaf

  -- What holds of both leaves.
  both-all :
      (P : ℕ → LeafNode K V → Type 0)
      → P 0 low_leaf
      → P 1 high_leaf
      → (i : ℕ) → i ≤ 1
      → P i (both i)
  both-all P a b =
      with_last-all (λ i. low_leaf) 1 high_leaf P b
        (λ i less. let e : 0 ≡ i = omega arith in subst (λ (x : ℕ). P x low_leaf) e a)

  bounds : (0 < middle p o f.split) × (middle p o f.split ≤ leafslots)
  bounds = let (a, b) = middle_bounds p o f.split in (a, omega (arith, f.split.full))

  children_at :
      (P : ℕ → Ptr → Type 0)
      → P 0 t.brk
      → P 1 (t.brk + 1)
      → (i : ℕ) → i ≤ 1
      → P i (h.two.node.first_child i)
  children_at P a b zero le = subst (P 0) (sym h.two.first) a
  children_at P a b (suc zero) le = subst (P 1) (sym h.two.second) b
  children_at P a b (suc (suc i)) le = absurd (omega arith)

  separator : (i : ℕ) → i < 1 → h.two.node.key_slots i ≡ (both (i + 1)).key_slots 0
  separator zero less = h.two.key_eq
  separator (suc i) less = absurd (omega arith)

  pub Halves-Row : Row p t' 1 h.two.node both
  Halves-Row = record {
    here = h.two.here;
    slots_eq = h.two.slots_eq;
    in_use = h.two.in_use;
    children = h.two.children;
    some_keys = omega arith;
    fits = omega (arith, f.split.two, f.slots_same);
    root_old = omega (arith, h.root_new, h.brk_new);
    spare = omega (arith, h.brk_new);
    leaf_here =
        both-all (λ i x. Points t' (h.two.node.first_child i) (leaf x))
          (subst (λ (q : Ptr). Points t' q (leaf low_leaf)) (sym h.two.first) h.two.left)
          (subst (λ (q : Ptr). Points t' q (leaf high_leaf)) (sym h.two.second) h.two.right);
    old = children_at (λ i x. x < t'.brk) (omega (arith, h.brk_new)) (omega (arith, h.brk_new));
    apart = λ i j le le'.
        children_at (λ i x. (j : ℕ) → j ≤ 1 → x ≡ h.two.node.first_child j → i ≡ j)
          (children_at (λ j x. t.brk ≡ x → 0 ≡ j) (λ e. refl) (λ e. absurd (omega (arith, e))))
          (children_at (λ j x. t.brk + 1 ≡ x → 1 ≡ j) (λ e. absurd (omega (arith, e))) (λ e. refl))
          i le j le';
    parent = both-all (λ i x. x.parent ≡ t'.root) refl refl;
    next = λ i less.
        both-all (λ i x. i < 1 → x.next_leaf ≡ h.two.node.first_child (i + 1))
          (λ less. sym h.two.second) (λ less. absurd (omega arith)) i (omega arith) less;
    last = h.high.next_null;
    valid =
        both-all (λ i x. IsLeaf p x)
          (record {
            slots_eq = h.low.slots_eq;
            in_use_le = omega (arith, h.low.in_use, bounds);
            small = f.split.small;
          })
          (record {
            slots_eq = h.high.slots_eq;
            in_use_le = omega (arith, h.high.in_use, bounds, f.split.full);
            small = f.split.small;
          });
    used =
        both-all (λ i x. 0 < x.slots_in_use) (omega (arith, h.low.in_use, bounds))
          (omega (arith, h.high.in_use, bounds, f.split.full));
    strict =
        both-all (λ i x. IsStrict p x)
          (Part-IsStrict p o f.split h.low (omega (arith, bounds, f.split.full)))
          (Part-IsStrict p o f.split h.high (omega (arith, bounds, f.split.full)));
    below = λ i less.
        both-all
          (λ i x.
            i < 1
            → (a : ℕ) → a < x.slots_in_use
            → keyless (x.key_slots a) (h.two.node.key_slots i) ≡ true)
          (λ less a inside.
            rw h.two.key_eq (low_below p o f.split h.low h.high a (omega (arith, h.low.in_use))))
          (λ less. absurd (omega arith)) i (omega arith) less;
    separator = separator;
  }

  pub InRow-Halves : (a : K) (v : V) → InRow both 1 a v ↔ (((a ≡ k) × (v ≡ d)) ⊎ InLeaf l a v)
  InRow-Halves a v = (
    λ (i, le, held). (halves_iff p o f.split h.low h.high a v).0 (
        both-all (λ i x. InLeaf x a v → InLeaf s.low a v ⊎ InLeaf s.high a v) (λ x. inl x)
          (λ x. inr x) i le held),
    λ new. elim ((halves_iff p o f.split h.low h.high a v).1 new) [
      | inl held ↦ (0, omega arith, held)
      | inr held ↦ (1, omega arith, held)
    ],
  )

  -- The keys of both leaves, if the new key is above all others.
  pub keys-Halves :
      ((i : ℕ) → i < l.slots_in_use → keyless (l.key_slots i) k ≡ true)
      → keys_after p both 0 2 ≡ keys_of p l ++ k ∷ []
  keys-Halves less =
      ap (λ x. keys_of p s.low ++ x) (append-nil (keys_of p s.high))
      ∙ keys_of-halves p o f.split less h.low h.high
