-- ===== src/Leaf/Scan.antt =====
-- The search loops of `findKeyLoc`, `findKeyEqual` and `find`: the first slot that passes a test.
use ccpbtree.Base.{
  ℕ, zero, suc, ◌+◌, ◌≤◌, ◌<◌, ◌≡◌, refl, Bool, true, false, inl, inr, Bool-cases, arith,
}
use ccpbtree.Store.{Traits}
use ccpbtree.Leaf.{scan}

module _ {K V : Type 0} (p : Traits K V) (test : K → Bool) (keys : ℕ → K) where
  pub scan_bounds : (n i : ℕ) → (i ≤ scan p test keys n i) × (scan p test keys n i ≤ i + n)
  unfolding scan
  scan_bounds zero i = omega arith
  scan_bounds (suc n) i = ground (arith, scan_bounds n (i + 1))

  pub scan-none : (n i : ℕ) → n ≡ 0 → scan p test keys n i ≡ i
  unfolding scan
  scan-none zero i h = refl
  scan-none (suc n) i h = absurd (omega arith)

  -- No slot before the result passes.
  pub scan-before : (n i j : ℕ) → i ≤ j → j < scan p test keys n i → test (keys j) ≡ false
  unfolding scan
  scan-before zero i j h g = absurd (omega arith)
  scan-before (suc n) i j h g = elim (Bool-cases (test (keys i))) [
    | inl hit ↦ absurd (omega (arith, rw hit at g))
    | inr miss ↦ ground (arith, scan-before n (i + 1) j)
  ]

  -- A result inside the range passes.
  pub scan-hit :
      (n i : ℕ) → scan p test keys n i < i + n → test (keys (scan p test keys n i)) ≡ true
  unfolding scan
  scan-hit zero i h = absurd (omega arith)
  scan-hit (suc n) i h = elim (Bool-cases (test (keys i))) [
    | inl hit ↦ rw (hit, hit)
    | inr miss ↦ ground (arith, scan-hit n (i + 1))
  ]

  -- The result is the only slot with these two properties.
  pub scan_unique :
      (n i m : ℕ)
      → i ≤ m
      → m ≤ i + n
      → ((j : ℕ) → i ≤ j → j < m → test (keys j) ≡ false)
      → (m < i + n → test (keys m) ≡ true)
      → scan p test keys n i ≡ m
  unfolding scan
  scan_unique zero i m lo hi before at = omega arith
  scan_unique (suc n) i m lo hi before at = elim (Bool-cases (test (keys i))) [
    | inl hit ↦ rw hit (ground (arith, before i))
    | inr miss ↦
        let later : i + 1 ≤ m = ground (arith, at) in
        rw miss (
          scan_unique n (i + 1) m later (omega arith) (λ j a b. before j (omega arith) b)
            (λ h. at (omega arith)))
  ]
