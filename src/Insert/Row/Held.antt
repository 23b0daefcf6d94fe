-- ===== src/Insert/Row/Held.antt =====
-- The pairs and the keys of a row after the split of its last leaf.
use ccpbtree.Base.{
  suc, [], ◌∷◌, ◌++◌, ap₂, ℕ, ◌+◌, ◌≤◌, ◌<◌, ◌≡◌, sym, ap, ◌∙◌, ◌⊎◌, ◌↔◌, inl, inr, arith,
}
use mathlib.Core.Path.{subst}
use native.Mathlib.Decide.{ℕ_discrete}
use ccpbtree.Store.{LeafNode, InnerNode, Tree, Traits}
use ccpbtree.KeyOrder.{IsTotal}
use mathlib.Core.List.{append_assoc}
use ccpbtree.Insert.Row.Keys.{keys_after, keys_after-last, keys_after-ext, keys_of-halves}
use ccpbtree.Leaf.Keys.{keys_of}
use ccpbtree.Find.Shape.{InLeaf}
use ccpbtree.Insert.Split.{LeafSplit}
use ccpbtree.Insert.Split.Full.{halves_iff}
use ccpbtree.Insert.Row.{InRow}
use ccpbtree.Insert.Row.Split.{FullRow, Widened, last_FullLeaf}
use ccpbtree.Insert.Row.Wider.{wider, previous_leaf, low_leaf, high_leaf, wider-all}

module _ {K V : Type 0} (p : Traits K V) (o : IsTotal p) {t : Tree K V} {i : ℕ} {n : InnerNode K}
    {leaves : ℕ → LeafNode K V} {k : K} (f : FullRow p t i n leaves k) {d : V} {s : LeafSplit K V}
    {before : Tree K V} (w : Widened p o f d s before) where
  open p use {keyless, leafslots, nodeslots}

  -- The halves have the pairs of the last leaf and the new one.
  pub InRow-wider :
      (a : K) (v : V)
      → InRow (wider p o f w) (i + 1 + 1) a v ↔ (((a ≡ k) × (v ≡ d)) ⊎ InRow leaves (i + 1) a v)
  InRow-wider a v = (
    λ (j, h, held).
        wider-all p o f w (λ j x. InLeaf x a v → ((a ≡ k) × (v ≡ d)) ⊎ InRow leaves (i + 1) a v)
          (λ j h held. inr (j, omega arith, held)) (λ held. inr (i, omega arith, held))
          (λ held. from_halves (inl held)) (λ held. from_halves (inr held)) j h held,
    λ new. elim new [
      | inl pair ↦ to_halves (inl pair)
      | inr (j, h, held) ↦ elim (ℕ_discrete j (i + 1)) [
        | yes last ↦ to_halves (inr (subst (λ (x : ℕ). InLeaf (leaves x) a v) last held))
        | no other ↦ to_wider j (omega arith) held
      ]
    ],
  )
    where
      halves :
          (InLeaf s.low a v ⊎ InLeaf s.high a v)
          ↔ (((a ≡ k) × (v ≡ d)) ⊎ InLeaf (leaves (i + 1)) a v)
      halves = halves_iff p o (last_FullLeaf p o f) w.low w.high a v

      from_halves :
          InLeaf s.low a v ⊎ InLeaf s.high a v → ((a ≡ k) × (v ≡ d)) ⊎ InRow leaves (i + 1) a v
      from_halves held = elim (halves.0 held) [
        | inl pair ↦ inl pair
        | inr old ↦ inr (i + 1, omega arith, old)
      ]

      at :
          (j : ℕ) (l : LeafNode K V)
          → j ≤ i + 1 + 1
          → InLeaf l a v
          → l ≡ wider p o f w j
          → InRow (wider p o f w) (i + 1 + 1) a v
      at j l h held e = (j, h, subst (λ (x : LeafNode K V). InLeaf x a v) e held)

      to_halves :
          ((a ≡ k) × (v ≡ d)) ⊎ InLeaf (leaves (i + 1)) a v → InRow (wider p o f w) (i + 1 + 1) a v
      to_halves new = elim (halves.1 new) [
        | inl low ↦ at (i + 1) (low_leaf p o f w) (omega arith) low (ground arith)
        | inr high ↦ at (i + 1 + 1) (high_leaf p o f w) (omega arith) high (ground arith)
      ]

      to_wider : (j : ℕ) → j < i + 1 → InLeaf (leaves j) a v → InRow (wider p o f w) (i + 1 + 1) a v
      to_wider j h held = elim (ℕ_discrete j i) [
        | yes same ↦
            at i (previous_leaf p o f w) (omega arith)
              (subst (λ (x : ℕ). InLeaf (leaves x) a v) same held) (ground arith)
        | no other ↦ at j (leaves j) (omega arith) held (ground (arith, other))
      ]

  pub keys-wider :
      keys_after p (wider p o f w) 0 (suc (i + 1 + 1))
      ≡ keys_after p leaves 0 (suc (i + 1)) ++ k ∷ []
  keys-wider =
      keys_after-last p (wider p o f w) 0 (i + 1 + 1)
      ∙ ap₂ ◌++◌ behind (ap (keys_of p) at_high)
      ∙ append_assoc (keys_after p leaves 0 (i + 1)) (keys_of p s.low) (keys_of p s.high)
      ∙ ap (λ x. keys_after p leaves 0 (i + 1) ++ x)
          (keys_of-halves p o (last_FullLeaf p o f) (f.above (i + 1) (omega arith)) w.low w.high)
      ∙ sym (append_assoc (keys_after p leaves 0 (i + 1)) (keys_of p (leaves (i + 1))) (k ∷ []))
      ∙ ap (λ x. keys_after p leaves 0 (i + 1) ++ keys_of p (leaves x) ++ k ∷ []) (omega arith)
      ∙ ap (λ x. x ++ k ∷ []) (sym (keys_after-last p leaves 0 (i + 1)))
    where
      at_previous : wider p o f w i ≡ previous_leaf p o f w
      at_previous = ground arith

      at_low : wider p o f w (0 + (i + 1)) ≡ low_leaf p o f w
      at_low = ground arith

      at_high : wider p o f w (0 + (i + 1 + 1)) ≡ high_leaf p o f w
      at_high = ground arith

      at_other : (x : ℕ) → x < i → wider p o f w x ≡ leaves x
      at_other x h = ground (arith, h)

      same : (x : ℕ) → x < 0 + (i + 1) → keys_of p (wider p o f w x) ≡ keys_of p (leaves x)
      same x h = elim (ℕ_discrete x i) [
        | yes e ↦ rw e (ap (keys_of p) at_previous)
        | no other ↦ ap (keys_of p) (at_other x (omega arith))
      ]

      behind :
          keys_after p (wider p o f w) 0 (i + 1 + 1)
          ≡ keys_after p leaves 0 (i + 1) ++ keys_of p s.low
      behind =
          let e : i + 1 + 1 ≡ suc (i + 1) = omega arith in
          ap (keys_after p (wider p o f w) 0) e
          ∙ keys_after-last p (wider p o f w) 0 (i + 1)
          ∙ ap₂ ◌++◌ (keys_after-ext p (wider p o f w) leaves 0 (i + 1) same)
              (ap (keys_of p) at_low)
