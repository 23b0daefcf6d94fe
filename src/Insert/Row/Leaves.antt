-- ===== src/Insert/Row/Leaves.antt =====
-- The leaves of a row, with another last one.
use ccpbtree.Base.{ℕ, ◌≤◌, ◌<◌, ◌≡◌, sym, arith, ◌==◌, if◌then◌else◌}
use mathlib.Core.Path.{subst}
use native.Mathlib.Decide.{ℕ_discrete}
use ccpbtree.Store.{LeafNode}

-- The last of the leaves is replaced.
abbrev pub with_last : {K V : Type 0} → (ℕ → LeafNode K V) → ℕ → LeafNode K V → ℕ → LeafNode K V
with_last leaves m l i = if i == m then l else leaves i

-- What holds of the new last leaf and of the others holds of all.
pub with_last-all :
    {K V : Type 0} (leaves : ℕ → LeafNode K V) (m : ℕ) (l : LeafNode K V)
    (P : ℕ → LeafNode K V → Type 0)
    → P m l
    → ((i : ℕ) → i < m → P i (leaves i))
    → (i : ℕ) → i ≤ m
    → P i (with_last leaves m l i)
with_last-all {K} {V} leaves m l P a b i h = elim (ℕ_discrete i m) [
  | yes same ↦
      let e : with_last leaves m l i ≡ l = ground (arith, same) in
      subst (P i) (sym e) (subst (λ (x : ℕ). P x l) (sym same) a)
  | no other ↦
      let e : with_last leaves m l i ≡ leaves i = ground (arith, other) in
      subst (P i) (sym e) (b i (omega arith))
]
