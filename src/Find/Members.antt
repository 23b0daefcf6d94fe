-- ===== src/Find/Members.antt =====
-- What the trees before and after the write of one leaf hold.
use ccpbtree.Base.{ℕ, ◌⊎◌, inl, inr, sym, Option}
use mathlib.Core.Path.{subst}
use native.Mathlib.Decide.{ℕ_discrete}
use ccpbtree.Store.{Ptr, LeafNode, leaf, Tree, Traits}
use ccpbtree.Store.Points.{Points}
use ccpbtree.Find.Shape.{InLeaf, Has, in_leaf, in_child}
use ccpbtree.Find.Descend.{choice, leaf_unique}
use ccpbtree.Find.Route.{Route, stop, down, choice_inside}
use ccpbtree.Find.Replace.{
  Replaced, new_here, Points-other, Points-inner, Points-back, Points-inner_back,
}

module _ {K V : Type 0} (p : Traits K V) {t t' : Tree K V} {q : Ptr} {l l' : LeafNode K V}
    (c : Replaced t t' q l l') where
  -- A pair of the old tree is in the new one, or in the old leaf.
  pub Has-forth : {a : K} {v : V} {h : ℕ} {r : Ptr} → Has t a v h r → Has t' a v h r ⊎ InLeaf l a v
  Has-forth {a} {v} {h} {r} (in_leaf m e held) = elim (ℕ_discrete r q) [
    | yes same ↦ inr (
        subst (λ (y : LeafNode K V). InLeaf y a v)
          (leaf_unique p (subst (λ (y : Ptr). Points t y (leaf m)) same e) c.here) held)
    | no different ↦ inl (in_leaf m (Points-other c e different) held)
  ]
  Has-forth (in_child n i e inside has) = elim (Has-forth has) [
    | inl there ↦ inl (in_child n i (Points-inner c e) inside there)
    | inr held ↦ inr held
  ]

  -- A pair of the new tree is in the old one, or in the new leaf.
  pub Has-back : {a : K} {v : V} {h : ℕ} {r : Ptr} → Has t' a v h r → Has t a v h r ⊎ InLeaf l' a v
  Has-back {a} {v} {h} {r} (in_leaf m e held) = elim (ℕ_discrete r q) [
    | yes same ↦ inr (
        subst (λ (y : LeafNode K V). InLeaf y a v)
          (leaf_unique p (subst (λ (y : Ptr). Points t' y (leaf m)) same e) (new_here c)) held)
    | no different ↦ inl (in_leaf m (Points-back c e different) held)
  ]
  Has-back (in_child n i e inside has) = elim (Has-back has) [
    | inl there ↦ inl (in_child n i (Points-inner_back c e) inside there)
    | inr held ↦ inr held
  ]

  -- The tree holds what the leaf at the end of the descent holds, before and after.
  pub Route-Has :
      {k a : K} {v : V} {h : ℕ} {r : Ptr} {lo hi : Option K}
      → Route p t k q l h r lo hi
      → InLeaf l a v
      → Has t a v h r
  Route-Has (stop same s above below) held =
      in_leaf l (subst (λ (y : Ptr). Points t y (leaf l)) (sym same) c.here) held
  Route-Has {k} (down n e s sub rest) held =
      in_child n (choice p n k) e (choice_inside p n k) (Route-Has rest held)

  pub Route-Has_new :
      {k a : K} {v : V} {h : ℕ} {r : Ptr} {lo hi : Option K}
      → Route p t k q l h r lo hi
      → InLeaf l' a v
      → Has t' a v h r
  Route-Has_new (stop same s above below) held =
      in_leaf l' (subst (λ (y : Ptr). Points t' y (leaf l')) (sym same) (new_here c)) held
  Route-Has_new {k} (down n e s sub rest) held =
      in_child n (choice p n k) (Points-inner c e) (choice_inside p n k) (Route-Has_new rest held)
