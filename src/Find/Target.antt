-- ===== src/Find/Target.antt =====
-- A leaf with a key and room at which the descent for a key ends, and what `find` returns there.
use ccpbtree.Base.{ℕ, suc, ◌+◌, ◌<◌, ◌≡◌, false, none, arith, ap, ◌∙◌}
use ccpbtree.Store.{Ptr, LeafNode, leaf, Tree, Traits, ok}
use ccpbtree.Store.Points.{Points}
use ccpbtree.Leaf.{is_full}
use ccpbtree.Leaf.Keys.{IsLeaf}
use ccpbtree.Find.{find, descend, walk}
use ccpbtree.Find.Shape.{IsTree}
use ccpbtree.Find.Descend.{not_null}
use ccpbtree.Find.Walk.{walk-room}
use ccpbtree.Find.Route.{Route, descend-Route}

-- The descent of `find` with the key `k` ends at the leaf `l`, at `q`, which has a key and room.
pub record Target {K V : Type 0} (p : Traits K V) (t : Tree K V) (k : K) (q : Ptr)
    (l : LeafNode K V) : Type 0 where
  pub down : descend p (t.brk + 1) t.root k t ≡ ok (q, t)
  pub here : Points t q (leaf l)
  pub valid : IsLeaf p l
  pub used : 0 < l.slots_in_use
  pub room : l.slots_in_use < p.leafslots

module _ {K V : Type 0} (p : Traits K V) {t : Tree K V} {h : ℕ} {k : K} {q : Ptr} {l : LeafNode K V}
    (tree : IsTree p t h) (e : Target p t k q l) where
  pub find-Target : find p k t ≡ ok (q, t)
  unfolding find
  find-Target = ground (arith, not_null p tree.shape, e.down, across)
    where
      full : is_full p l ≡ false
      full = ground (arith, e.room)

      more : t.brk + 1 ≡ suc t.brk
      more = omega arith

      across : walk p (t.brk + 1) q k t ≡ ok (q, t)
      across = ap (λ n. walk p n q k t) more ∙ walk-room p t.brk l k e.here full

  pub Target-Route : Route p t k q l h t.root none none
  Target-Route = descend-Route p (t.brk + 1) tree.shape e.here tt tt e.down
