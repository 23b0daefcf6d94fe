-- ===== src/Base/Arrays.antt =====
-- C arrays as functions of the index. Bounds are checked by the code that indexes.
use Prim.Native.Nat.{ℕ, zero, suc, ◌+◌, ◌-◌, ◌≤◌, ◌<◌}
use mathlib.Core.Path.{◌≡◌, refl, ap, ap₂, ◌∙◌}
use mathlib.Core.Bool.{◌&&◌}
use mathlib.Core.List.{List, [], ◌∷◌, ◌++◌}
use native.Mathlib.Nat.{add-zero, zero-add, add_assoc, suc-add}
use native.Mathlib.Omega.{arith}
use ccpbtree.Base.Tests.{◌==◌, ltb, leb, if◌then◌else◌}

module _ {ℓ} {A : Type ℓ} where
  -- `a[i] = v`
  abbrev pub put : (ℕ → A) → ℕ → A → ℕ → A
  put a i v j = if j == i then v else a j

  -- `for (i = from; n rounds; i--) a[i] = a[i - 1];`
  unfoldable pub shift_up : (ℕ → A) → ℕ → ℕ → ℕ → A
  shift_up a from zero = a
  shift_up a from (suc n) = shift_up (put a from (a (from - 1))) (from - 1) n

  -- `for (i = from; n rounds; i++) a[i] = a[i + 1];`
  unfoldable pub shift_down : (ℕ → A) → ℕ → ℕ → ℕ → A
  shift_down a from zero = a
  shift_down a from (suc n) = shift_down (put a from (a (from + 1))) (from + 1) n

  -- The `n` values from index `i` on.
  abbrev pub segment : (ℕ → A) → ℕ → ℕ → List A
  segment a i zero = []
  segment a i (suc n) = a i ∷ segment a (i + 1) n

module _ {A : Type 0} where
  pub put-same : (a : ℕ → A) (i : ℕ) (v : A) (j : ℕ) → j ≡ i → put a i v j ≡ v
  put-same a i v j same = ground (arith, same)

  pub put-other : (a : ℕ → A) (i : ℕ) (v : A) (j : ℕ) → ¬ (j ≡ i) → put a i v j ≡ a j
  put-other a i v j other = ground (arith, other)

  pub shift_up-at :
      (a : ℕ → A) (from n j : ℕ)
      → n ≤ from
      → shift_up a from n j ≡ (if ltb (from - n) j && leb j from then a (j - 1) else a j)
  unfolding shift_up
  shift_up-at a from zero j h = ground arith
  shift_up-at a from (suc n) j h =
      ground (arith, shift_up-at (put a from (a (from - 1))) (from - 1) n j)

  pub shift_up-none : (a : ℕ → A) (from n : ℕ) → n ≡ 0 → shift_up a from n ≡ a
  unfolding shift_up
  shift_up-none a from zero h = refl
  shift_up-none a from (suc n) h = absurd (omega arith)

  pub shift_down-at :
      (a : ℕ → A) (from n j : ℕ)
      → shift_down a from n j ≡ (if leb from j && ltb j (from + n) then a (j + 1) else a j)
  unfolding shift_down
  shift_down-at a from zero j = ground arith
  shift_down-at a from (suc n) j =
      ground (arith, shift_down-at (put a from (a (from + 1))) (from + 1) n j)

  -- Two segments with the same values, perhaps at other places.
  pub segment-ext :
      (a b : ℕ → A) (i j n : ℕ)
      → ((m : ℕ) → m < n → a (i + m) ≡ b (j + m))
      → segment a i n ≡ segment b j n
  segment-ext a b i j zero h = refl
  segment-ext a b i j (suc n) h =
      ap₂ ◌∷◌ (simp add-zero at (h 0 (omega arith))) (
        segment-ext a b (i + 1) (j + 1) n
          λ m p. rw (add_assoc, add_assoc) (h (1 + m) (omega arith)))

  -- A segment in two parts.
  pub segment-append :
      (a : ℕ → A) (i m n : ℕ) → segment a i (m + n) ≡ segment a i m ++ segment a (i + m) n
  segment-append a i zero n = rw (add-zero, zero-add)
  segment-append a i (suc m) n = rw (suc-add) (
      ap (λ r. a i ∷ r)
        (segment-append a (i + 1) m n
          ∙ ap (λ k. segment a (i + 1) m ++ segment a k n) (omega arith)))
