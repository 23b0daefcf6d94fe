-- ===== src/Insert/Row/Keys.antt =====
-- The keys of the leaves of a row, in their order.
use ccpbtree.Base.{
  ℕ, zero, suc, ◌+◌, ◌-◌, ◌<◌, ◌≡◌, refl, sym, ap, ap₂, ◌∙◌, true, arith, List, [], ◌∷◌, ◌++◌,
  segment, segment-ext, segment-append,
}
use mathlib.Core.List.{append_assoc, append-nil}
use ccpbtree.Store.{LeafNode, Traits}
use ccpbtree.KeyOrder.{IsTotal}
use ccpbtree.Leaf.Keys.{keys_of}
use ccpbtree.Insert.Split.Parts.{merged, Part}
use ccpbtree.Insert.Split.Full.{FullLeaf, place, middle, middle_bounds, place-last}

module _ {K V : Type 0} (p : Traits K V) where
  open p use {keyless, leafslots}

  -- The keys of `r` leaves from leaf `j` on.
  abbrev pub keys_after : (ℕ → LeafNode K V) → ℕ → ℕ → List K
  keys_after leaves j zero = []
  keys_after leaves j (suc r) = keys_of p (leaves j) ++ keys_after leaves (j + 1) r

  pub keys_after-last :
      (leaves : ℕ → LeafNode K V) (j r : ℕ)
      → keys_after leaves j (suc r) ≡ keys_after leaves j r ++ keys_of p (leaves (j + r))
  keys_after-last leaves j zero =
      append-nil (keys_of p (leaves j)) ∙ ap (λ (x : ℕ). keys_of p (leaves x)) (omega arith)
  keys_after-last leaves j (suc r) =
      ap (λ x. keys_of p (leaves j) ++ x) (keys_after-last leaves (j + 1) r)
      ∙ sym (
          append_assoc (keys_of p (leaves j)) (keys_after leaves (j + 1) r)
            (keys_of p (leaves (j + 1 + r))))
      ∙ ap (λ (x : ℕ). keys_of p (leaves j) ++ keys_after leaves (j + 1) r ++ keys_of p (leaves x))
          (omega arith)

  pub keys_after-ext :
      (leaves others : ℕ → LeafNode K V) (j r : ℕ)
      → ((x : ℕ) → x < j + r → keys_of p (leaves x) ≡ keys_of p (others x))
      → keys_after leaves j r ≡ keys_after others j r
  keys_after-ext leaves others j zero same = refl
  keys_after-ext leaves others j (suc r) same =
      ap₂ ◌++◌ (same j (omega arith))
        (keys_after-ext leaves others (j + 1) r (λ x h. same x (omega arith)))

  -- The halves of a full leaf, split by a key above all others.
  module _ (o : IsTotal p) {l : LeafNode K V} {k : K} {d : V} (f : FullLeaf p l k)
      (less : (i : ℕ) → i < l.slots_in_use → keyless (l.key_slots i) k ≡ true) {x y : LeafNode K V}
      (low : Part p l k d (place p o f) 0 (middle p o f) x)
      (high : Part p l k d (place p o f) (middle p o f) (l.slots_in_use + 1 - middle p o f) y) where
    abbrev both_keys : ℕ → K
    both_keys = merged l.key_slots (place p o f) k

    both_keys-before : (i : ℕ) → i < l.slots_in_use → both_keys i ≡ l.key_slots i
    both_keys-before i h = ground (arith, place-last p o f less, h)

    both_keys-last : both_keys l.slots_in_use ≡ k
    both_keys-last = ground (arith, place-last p o f less)

    keys_of-low : keys_of p x ≡ segment both_keys 0 (middle p o f)
    keys_of-low =
        ap (segment x.key_slots 0) low.in_use
        ∙ segment-ext x.key_slots both_keys 0 0 (middle p o f)
            (λ m h. low.keys (0 + m) (omega (arith, h)) ∙ ap both_keys (omega arith))

    keys_of-high :
        keys_of p y ≡ segment both_keys (0 + middle p o f) (l.slots_in_use + 1 - middle p o f)
    keys_of-high =
        ap (segment y.key_slots 0) high.in_use
        ∙ segment-ext y.key_slots both_keys 0 (0 + middle p o f) (l.slots_in_use + 1 - middle p o f)
            (λ m h. high.keys (0 + m) (omega (arith, h)) ∙ ap both_keys (omega arith))

    pub keys_of-halves : keys_of p x ++ keys_of p y ≡ keys_of p l ++ k ∷ []
    keys_of-halves =
        ap₂ ◌++◌ keys_of-low keys_of-high
        ∙ sym (segment-append both_keys 0 (middle p o f) (l.slots_in_use + 1 - middle p o f))
        ∙ ap (segment both_keys 0) (omega (arith, middle_bounds p o f))
        ∙ segment-append both_keys 0 l.slots_in_use 1
        ∙ ap₂ ◌++◌
            (segment-ext both_keys l.key_slots 0 0 l.slots_in_use
              (λ m h. both_keys-before (0 + m) (omega (arith, h))))
            (ap (λ z. z ∷ []) (ap both_keys (omega arith) ∙ both_keys-last))
