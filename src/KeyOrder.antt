-- ===== src/KeyOrder.antt =====
-- The key comparisons of src/btree.h that are derived from `keyless`.
use ccpbtree.Base.{Bool, true, false, not, ◌&&◌, ◌≡◌, ◌≢◌, ◌↔◌, inl, inr, Bool-cases, arith}
use ccpbtree.Store.{Traits}

module _ {K V : Type 0} (p : Traits K V) where
  -- `keylessequal`
  abbrev pub key_less_equal : K → K → Bool
  key_less_equal a b = not (p.keyless b a)

  -- `keygreater`
  abbrev pub key_greater : K → K → Bool
  key_greater a b = p.keyless b a

  -- `keygreaterequal`
  abbrev pub key_greater_equal : K → K → Bool
  key_greater_equal a b = not (p.keyless a b)

  -- `keyequal`
  abbrev pub key_equal : K → K → Bool
  key_equal a b = not (p.keyless a b) && not (p.keyless b a)

-- What the comment of `keyequal` asks of `keyless`: a strict total order.
pub record IsTotal {K V : Type 0} (p : Traits K V) : Type 0 where
  pub irreflexive : (a : K) → p.keyless a a ≡ false
  pub transitive : (a b c : K) → p.keyless a b ≡ true → p.keyless b c ≡ true → p.keyless a c ≡ true
  pub trichotomy : (a b : K) → p.keyless a b ≡ false → p.keyless b a ≡ false → a ≡ b

module _ {K V : Type 0} {p : Traits K V} (o : IsTotal p) where
  pub asymmetric : (a b : K) → p.keyless a b ≡ true → p.keyless b a ≡ false
  asymmetric a b h = elim (Bool-cases (p.keyless b a)) [
    | inl back ↦ cc (o.transitive a b a h back, o.irreflexive a)
    | inr done ↦ done
  ]

  -- a <= b and b < c give a < c
  pub le_lt_trans :
      (a b c : K) → p.keyless b a ≡ false → p.keyless b c ≡ true → p.keyless a c ≡ true
  le_lt_trans a b c h g = elim (Bool-cases (p.keyless a b)) [
    | inl less ↦ o.transitive a b c less g
    | inr same ↦ rw (o.trichotomy a b same h) g
  ]

  -- a < b and b <= c give a < c
  pub lt_le_trans :
      (a b c : K) → p.keyless a b ≡ true → p.keyless c b ≡ false → p.keyless a c ≡ true
  lt_le_trans a b c h g = elim (Bool-cases (p.keyless b c)) [
    | inl less ↦ o.transitive a b c h less
    | inr same ↦ rw (← o.trichotomy b c same g) h
  ]

  -- `<=` is transitive.
  pub le_trans : (a b c : K) → p.keyless b a ≡ false → p.keyless c b ≡ false → p.keyless c a ≡ false
  le_trans a b c h g = elim (Bool-cases (p.keyless c a)) [
    | inl back ↦ cc (lt_le_trans c a b back h, g)
    | inr done ↦ done
  ]

  pub key_equal_iff : (a b : K) → (key_equal p a b ≡ true) ↔ (a ≡ b)
  key_equal_iff a b =
      (λ h. o.trichotomy a b (ground arith) (ground arith), λ e. rw (e, o.irreflexive b))

  pub key_equal_ne : (a b : K) → a ≢ b → key_equal p a b ≡ false
  key_equal_ne a b different = elim (Bool-cases (key_equal p a b)) [
    | inl same ↦ absurd (different ((key_equal_iff a b).0 same))
    | inr done ↦ done
  ]
