-- ===== src/Delete/Fits.antt =====
-- `balancetree` on a leaf that is large enough.
use ccpbtree.Base.{ℕ, ◌+◌, ◌/◌, ◌≤◌, ◌<◌, ◌≡◌, sym, false, arith, ℤ, pos, minus_one, if◌then◌else◌}
use mathlib.Core.Path.{subst}
use native.Mathlib.Decide.{dec_lt, ℕ_discrete}
use ccpbtree.Store.{Ptr, LeafNode, InnerNode, leaf, inner, Tree, Traits, ok, load_leaf}
use ccpbtree.Store.Points.{Points, load-ok, load_leaf-ok, load_inner-ok}
use ccpbtree.KeyOrder.{key_equal, key_greater}
use ccpbtree.Leaf.{scan, is_underflow}
use ccpbtree.Leaf.Scan.{scan_bounds}
use ccpbtree.Inner.{find_inner_node_loc}
use ccpbtree.Find.Replace.{Replaced, new_here, Points-inner, Points-other}
use ccpbtree.Delete.Balance.{balance_tree}

-- The parent of the leaf is an inner node over leaves.
pub record Parented {K V : Type 0} (p : Traits K V) (t : Tree K V) (l : LeafNode K V) : Type 0 where
  pub node : InnerNode K
  pub here : Points t l.parent (inner node)
  pub in_use_le : node.slots_in_use ≤ p.nodeslots
  pub children : node.num_children ≡ node.slots_in_use + 1
  pub last : LeafNode K V
  pub last_here : Points t (node.first_child node.slots_in_use) (leaf last)

module _ {K V : Type 0} (p : Traits K V) where
  open p use {keyless, leafslots, nodeslots}

  -- The first key of the parent that is greater than the first key of the leaf.
  abbrev position : LeafNode K V → InnerNode K → ℕ
  position l n = scan p (λ s. key_greater p s (l.key_slots 0)) n.key_slots n.slots_in_use 0

  load-last :
      {t : Tree K V} {l : LeafNode K V} (m : Parented p t l)
      → ¬ (position l m.node < m.node.slots_in_use)
      → (position l m.node ≡ m.node.slots_in_use)
        × (load_leaf (m.node.first_child (position l m.node)) t ≡ ok (m.last, t))
  load-last {l = l} m outside =
      let same : position l m.node ≡ m.node.slots_in_use = omega (
        arith,
        scan_bounds p (λ s. key_greater p s (l.key_slots 0)) m.node.key_slots m.node.slots_in_use 0,
      ) in
      (same, rw same (load_leaf-ok m.last_here))

  -- `findInnerNodeLoc` ends.
  find_inner_node_loc-Parented :
      {t : Tree K V} {q : Ptr} {l : LeafNode K V}
      → Points t q (leaf l)
      → Parented p t l
      → 0 < leafslots
      → (r : ℤ) × (find_inner_node_loc p l.parent q t ≡ ok (r, t))
  unfolding find_inner_node_loc
  find_inner_node_loc-Parented {t} {q} {l} e m some_slots =
      elim (dec_lt (position l m.node) m.node.slots_in_use) [
        | yes inside ↦ (
          pos (position l m.node),
          ground (arith, e.ne_null, m.here.ne_null, load-ok e, load_inner-ok m.here),
        )
        | no outside ↦ (
          if key_equal p (m.last.key_slots 0) (l.key_slots 0)
              then pos (position l m.node)
              else minus_one,
          ground (
            arith,
            e.ne_null,
            m.here.ne_null,
            load-ok e,
            load_inner-ok m.here,
            m.children,
            m.in_use_le,
            (load-last m outside).0,
            (load-last m outside).1,
          ),
        )
      ]

  -- A leaf that does not underflow is left alone.
  pub balance_tree-fits :
      {t : Tree K V} {q : Ptr} {l : LeafNode K V}
      → Points t q (leaf l)
      → Parented p t l
      → 0 < leafslots
      → leafslots / 2 ≤ l.slots_in_use
      → balance_tree p q t ≡ ok (tt, t)
  unfolding balance_tree
  balance_tree-fits {l = l} e m some_slots fits =
      let (r, run) = find_inner_node_loc-Parented e m some_slots in
      let enough : is_underflow p l ≡ false = ground arith in rw (load_leaf-ok e, run, enough)

  pub Parented-Replaced :
      {t t' : Tree K V} {q : Ptr} {l l' : LeafNode K V}
      → Replaced t t' q l l'
      → l'.parent ≡ l.parent
      → Parented p t l
      → Parented p t' l'
  Parented-Replaced {t} {t'} {q} {l} {l'} c same m =
      let here : Points t' l'.parent (inner m.node) =
        subst (λ (y : Ptr). Points t' y (inner m.node)) (sym same) (Points-inner c m.here) in
      elim (ℕ_discrete (m.node.first_child m.node.slots_in_use) q) [
        | yes itself ↦ record {
          node = m.node;
          here = here;
          in_use_le = m.in_use_le;
          children = m.children;
          last = l';
          last_here = subst (λ (y : Ptr). Points t' y (leaf l')) (sym itself) (new_here c);
        }
        | no another ↦ record {
          node = m.node;
          here = here;
          in_use_le = m.in_use_le;
          children = m.children;
          last = m.last;
          last_here = Points-other c m.last_here another;
        }
      ]
