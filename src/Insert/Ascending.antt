-- ===== src/Insert/Ascending.antt =====
-- Sequences of `insert` with ascending keys, from the empty tree on.
use ccpbtree.Base.{
  ℕ, ◌+◌, ◌<◌, ◌≡◌, refl, ◌∙◌, ◌⊎◌, ◌↔◌, inl, inr, true, arith, List, [], ◌∷◌, ◌++◌, ap, ℤ, pos,
}
use ccpbtree.Store.{null, LeafNode, Tree, Traits, Cmd, pure, ◌>>=◌}
use ccpbtree.KeyOrder.{IsTotal}
use ccpbtree.Leaf.{find_key_loc}
use ccpbtree.Leaf.Keys.{keys_of, IsStrict, find_key_loc-last}
use ccpbtree.Leaf.Pair.{Room, Holds, Inserted}
use ccpbtree.Find.Shape.{InLeaf}
use ccpbtree.Insert.{insert}
use ccpbtree.Insert.Slots.{InLeaf-append, Inserted-IsStrict, keys_of-append}

module _ {K V : Type 0} (p : Traits K V) where
  open p use {keyless, leafslots, nodeslots, blank}

  -- The pairs of a sequence, the last one first.
  abbrev pub In : K → V → List (K × V) → Type 0
  In a v [] = ⊥
  In a v ((k, d) ∷ ps) = ((a ≡ k) × (v ≡ d)) ⊎ In a v ps

  abbrev pub count_of : List (K × V) → ℕ
  count_of [] = 0
  count_of (x ∷ ps) = count_of ps + 1

  -- The keys, the first one first.
  abbrev pub keys_up : List (K × V) → List K
  keys_up [] = []
  keys_up ((k, d) ∷ ps) = keys_up ps ++ k ∷ []

  -- Each key is greater than those before it.
  abbrev pub Ascending : List (K × V) → Type 0
  Ascending [] = Unit
  Ascending ((k, d) ∷ ps) = ((a : K) (v : V) → In a v ps → keyless a k ≡ true) × Ascending ps

  -- The inserts one after the other, and what they return.
  unfoldable pub insert_all : List (K × V) → Cmd K V (List ℤ)
  unfolding insert
  insert_all [] = pure []
  insert_all ((k, d) ∷ ps) = do rs ← insert_all ps; r ← insert p k d; pure (r ∷ rs)

  abbrev pub ones : List (K × V) → List ℤ
  ones [] = []
  ones (x ∷ ps) = pos 1 ∷ ones ps

  -- A leaf with the pairs of the sequence, its keys in strict order.
  pub record Stacked (ps : List (K × V)) (l : LeafNode K V) : Type 0 where
    pub orphan : l.parent ≡ null
    pub strict : IsStrict p l
    pub count : l.slots_in_use ≡ count_of ps
    pub holds : (a : K) (v : V) → InLeaf l a v ↔ In a v ps
    pub listed : keys_of p l ≡ keys_up ps

  pub Stacked-greater :
      {ps : List (K × V)} {l : LeafNode K V} {k : K}
      → Stacked ps l
      → ((a : K) (v : V) → In a v ps → keyless a k ≡ true)
      → (i : ℕ) → i < l.slots_in_use
      → keyless (l.key_slots i) k ≡ true
  Stacked-greater {l = l} s above i inside =
      above (l.key_slots i) (l.data_slots i)
        ((s.holds (l.key_slots i) (l.data_slots i)).0 (i, inside, refl, refl))

  module _ (o : IsTotal p) where
    pub Stacked-absent :
        {ps : List (K × V)} {l : LeafNode K V} {k : K} (d : V)
        → Stacked ps l
        → ((a : K) (v : V) → In a v ps → keyless a k ≡ true)
        → ¬ Holds p l k d
    Stacked-absent {k = k} d s above (m, lt, e, same) =
        cc (Stacked-greater s above m lt, e, o.irreflexive k)

    -- One more pair, with the greatest key.
    pub Stacked-Inserted :
        {ps : List (K × V)} {t : Tree K V} {q : ℕ} {l l' : LeafNode K V} {k : K} {d : V}
        {r : Room p t q l k}
        → Inserted p k r d o l'
        → Stacked ps l
        → ((a : K) (v : V) → In a v ps → keyless a k ≡ true)
        → Stacked ((k, d) ∷ ps) l'
    Stacked-Inserted {ps} {t} {q} {l} {l'} {k} {d} after s above = record {
      orphan = after.parent_same ∙ s.orphan;
      strict = Inserted-IsStrict p o after s.strict (Stacked-greater s above);
      count = omega (arith, after.count, s.count);
      holds = λ a v. (
        λ h. elim ((InLeaf-append p o after end).0 h) [
          | inl new ↦ inl new
          | inr old ↦ inr ((s.holds a v).0 old)
        ],
        λ h. elim h [
          | inl new ↦ (InLeaf-append p o after end).1 (inl new)
          | inr old ↦ (InLeaf-append p o after end).1 (inr ((s.holds a v).1 old))
        ],
      );
      listed = keys_of-append p o after (Stacked-greater s above) ∙ ap (λ x. x ++ k ∷ []) s.listed;
    }
      where
        end : find_key_loc p l k ≡ l.slots_in_use
        end = find_key_loc-last p l k (Stacked-greater s above)
