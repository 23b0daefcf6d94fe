-- ===== src/Leaf/Sorted.antt =====
-- The reference for insertion into a leaf: insertion into an ascending list, before the first key
-- that is not less.
use ccpbtree.Base.{
  ℕ, zero, suc, ◌+◌, ◌-◌, ◌≤◌, ◌<◌, ◌≡◌, refl, ap, sym, ◌∙◌, true, false, arith, if◌then◌else◌,
  segment, List, [], ◌∷◌, ◌++◌,
}
use native.Mathlib.Nat.{add-zero, zero-add, suc-add}
use ccpbtree.Store.{Traits}
use ccpbtree.Leaf.Keys.{opened, segment-opened}

module _ {K V : Type 0} (p : Traits K V) where
  open p use {keyless}

  unfoldable pub insert_sorted : K → List K → List K
  insert_sorted k [] = k ∷ []
  insert_sorted k (x ∷ xs) = if keyless x k then x ∷ insert_sorted k xs else k ∷ x ∷ xs

  insert_sorted-first :
      (keys : ℕ → K) (start r : ℕ) (k : K)
      → (0 < r → keyless (keys start) k ≡ false)
      → insert_sorted k (segment keys start r) ≡ k ∷ segment keys start r
  unfolding insert_sorted
  insert_sorted-first keys start zero k above = refl
  insert_sorted-first keys start (suc r) k above = rw (above (omega arith))

  -- On a segment whose first `i` keys alone are less, the new key goes behind those.
  pub insert_sorted-segment :
      (keys : ℕ → K) (start i r : ℕ) (k : K)
      → ((j : ℕ) → start ≤ j → j < start + i → keyless (keys j) k ≡ true)
      → (0 < r → keyless (keys (start + i)) k ≡ false)
      → insert_sorted k (segment keys start (i + r))
        ≡ segment keys start i ++ k ∷ segment keys (start + i) r
  unfolding insert_sorted
  insert_sorted-segment keys start zero r k below above =
      rw (zero-add, add-zero) (insert_sorted-first keys start r k (rw add-zero at above))
  insert_sorted-segment keys start (suc i) r k below above =
      rw (suc-add, below start (omega arith) (omega arith))
        (ap (λ s. keys start ∷ s)
          (insert_sorted-segment keys (start + 1) i r k
              (λ j h g. below j (omega arith) (omega arith)) (λ h. rw (← e) at (above h))
            ∙ ap (λ m. segment keys (start + 1) i ++ k ∷ segment keys m r) e))
    where
      e : start + 1 + i ≡ start + suc i
      e = omega arith

  -- Opening the place of the new key in the array is insertion into the list of the keys in use.
  pub opened-insert_sorted :
      (keys : ℕ → K) (n i : ℕ) (k : K)
      → i ≤ n
      → ((j : ℕ) → j < i → keyless (keys j) k ≡ true)
      → (i < n → keyless (keys i) k ≡ false)
      → segment (opened p keys n i k) 0 (n + 1) ≡ insert_sorted k (segment keys 0 n)
  opened-insert_sorted keys n i k h below above =
      segment-opened p keys n i k h
      ∙ sym (
          ap (λ m. insert_sorted k (segment keys 0 m)) split
          ∙ insert_sorted-segment keys 0 i (n - i) k (λ j lo hi. below j (omega arith))
              (λ g. rw zero-add (above (omega arith)))
          ∙ ap (λ m. segment keys 0 i ++ k ∷ segment keys m (n - i)) (zero-add i))
    where
      split : n ≡ i + (n - i)
      split = omega arith
