-- ===== src/Find/Lookup.antt =====
-- On a search tree `find`, `exists` and `get` answer by the pairs that the tree holds.
use ccpbtree.Base.{
  ℕ, suc, ◌+◌, ◌-◌, ◌<◌, ◌≡◌, refl, ap, ◌∙◌, ◌↔◌, ◌⊎◌, Bool, true, false, inl, inr, arith, ne→==,
}
use native.Mathlib.Decide.{dec_lt}
use ccpbtree.Store.{Ptr, null, LeafNode, leaf, Tree, Traits, ok}
use ccpbtree.Store.Points.{Points, load_leaf-ok}
use ccpbtree.KeyOrder.{IsTotal, key_equal, key_equal_iff}
use ccpbtree.Leaf.{scan}
use ccpbtree.Leaf.Scan.{scan-before, scan-hit}
use ccpbtree.Find.{find, exists, get, walk}
use ccpbtree.Find.Shape.{IsTree, InLeaf, Has}
use ccpbtree.Find.Descend.{descend-Landed, not_null}
use ccpbtree.Find.Walk.{walk-Ended}

module _ {K V : Type 0} (p : Traits K V) where
  open p use {blank}

  -- The first slot with an equal key, or the number of slots in use.
  abbrev pub first_equal : LeafNode K V → K → ℕ
  first_equal m k = scan p (λ s. key_equal p s k) m.key_slots m.slots_in_use 0

module _ {K V : Type 0} (p : Traits K V) (o : IsTotal p) {t : Tree K V} {h : ℕ}
    (tree : IsTree p t h) where
  open p use {blank}

  -- The result of `find`: a leaf that holds exactly the pairs of the tree with the key.
  pub record Found (k : K) (r : Ptr) : Type 0 where
    pub node : LeafNode K V
    pub here : Points t r (leaf node)
    pub only : (v : V) → Has t k v h t.root ↔ InLeaf node k v

  -- On a search tree of any height `find` ends without a fault, changes nothing, and returns a
  -- leaf that holds exactly the pairs of the whole tree with the key. The keys are totally
  -- ordered.
  pub find-Found : (k : K) → (r : Ptr) × Found k r × (find p k t ≡ ok (r, t))
  unfolding find
  find-Found k =
      let (end, down) =
        descend-Landed p o (t.brk + 1) k tree.shape tt tt (omega (arith, tree.height_le)) in
      let (r, (m, here, same), across) =
        walk-Ended p o (t.brk - 1) end.node end.low end.high k end.here end.shape end.below_high in
      (
        r,
        record {
          node = m;
          here = here;
          only = λ v.
              (λ has. (same v).1 ((end.only v).0 has), λ held. (end.only v).1 ((same v).0 held));
        },
        rw (ne→== t.root null (not_null p tree.shape), down)
            (ap (λ n. walk p n end.leaf_ptr k t) fuel ∙ across),
      )
    where
      fuel : t.brk + 1 ≡ suc (suc (t.brk - 1))
      fuel = omega (arith, tree.brk_pos)

  module _ (k : K) (m : LeafNode K V) where
    -- The scan of `exists` and `get` over the leaf.
    hit-InLeaf : first_equal p m k < m.slots_in_use → InLeaf m k (m.data_slots (first_equal p m k))
    hit-InLeaf inside = (
      first_equal p m k,
      inside,
      (key_equal_iff o (m.key_slots (first_equal p m k)) k).0
          (scan-hit p (λ s. key_equal p s k) m.key_slots m.slots_in_use 0 (omega arith)),
      refl,
    )

    miss-InLeaf : ¬ (first_equal p m k < m.slots_in_use) → (v : V) → ¬ InLeaf m k v
    miss-InLeaf outside v (i, inside, e, d) = cc (
      scan-before p (λ s. key_equal p s k) m.key_slots m.slots_in_use 0 i (omega arith)
          (omega arith),
      (key_equal_iff o (m.key_slots i) k).1 e,
    )

  -- On a search tree of any height `exists` ends without a fault, changes nothing, and is true
  -- exactly when some leaf of the tree holds the key. The keys are totally ordered.
  pub exists_iff :
      (k : K)
      → (b : Bool) × (exists p k t ≡ ok (b, t)) × ((b ≡ true) ↔ ((v : V) × Has t k v h t.root))
  unfolding exists
  exists_iff k =
      let (r, found, run) = find-Found k in
      elim (dec_lt (first_equal p found.node k) found.node.slots_in_use) [
        | yes inside ↦ (
          true,
          ground (arith, run, found.here.ne_null, load_leaf-ok found.here),
          (
            λ e. (
              found.node.data_slots (first_equal p found.node k),
              (found.only _).1 (hit-InLeaf k found.node inside),
            ),
            λ has. refl,
          ),
        )
        | no outside ↦ (
          false,
          ground (arith, run, found.here.ne_null, load_leaf-ok found.here),
          (λ e. cc, λ (v, has). absurd (miss-InLeaf k found.node outside v ((found.only v).0 has))),
        )
      ]

  -- On a search tree of any height `get` ends without a fault and changes nothing. It returns
  -- data that the tree holds under the key, or says that there is none, when no leaf holds the
  -- key. The keys are totally ordered.
  pub get-Has :
      (k : K)
      → ((v : V) × Has t k v h t.root × (get p k t ≡ ok ((v, true), t)))
        ⊎ ((get p k t ≡ ok ((blank, false), t)) × ((v : V) → ¬ Has t k v h t.root))
  unfolding get
  get-Has k =
      let (r, found, run) = find-Found k in
      elim (dec_lt (first_equal p found.node k) found.node.slots_in_use) [
        | yes inside ↦ inl (
          found.node.data_slots (first_equal p found.node k),
          (found.only _).1 (hit-InLeaf k found.node inside),
          ground (arith, run, found.here.ne_null, load_leaf-ok found.here),
        )
        | no outside ↦ inr (
          ground (arith, run, found.here.ne_null, load_leaf-ok found.here),
          λ v has. miss-InLeaf k found.node outside v ((found.only v).0 has),
        )
      ]
