-- ===== src/Insert/Slots.antt =====
-- The pairs of a leaf before and after `insertleafpair`.
use ccpbtree.Base.{
  [], ◌∷◌, ◌++◌, segment, segment-ext, segment-append, ap₂, ℕ, ◌+◌, ◌-◌, ◌≤◌, ◌<◌, ◌≡◌, refl, true,
  ◌≢◌, ◌⊎◌, ◌↔◌, inl, inr, arith, sym, ap, ◌∙◌,
}
use native.Mathlib.Decide.{dec_lt, ℕ_discrete}
use ccpbtree.Store.{Ptr, LeafNode, Tree, Traits}
use ccpbtree.KeyOrder.{IsTotal}
use ccpbtree.Leaf.{find_key_loc}
use ccpbtree.Leaf.Keys.{keys_of, IsStrict, find_key_loc-last, opened-at, find_key_loc-place}
use ccpbtree.Leaf.Pair.{Room, Inserted}
use ccpbtree.Find.Shape.{InLeaf}

module _ {K V : Type 0} (p : Traits K V) {t : Tree K V} {q : Ptr} {l : LeafNode K V} {k : K}
    {r : Room p t q l k} {d : V} (o : IsTotal p) {l' : LeafNode K V}
    (after : Inserted p k r d o l') where
  open p use {keyless, leafslots}

  -- The slots of the new leaf: those before the place, the place, and those behind it.
  pub key-before : (i : ℕ) → i < find_key_loc p l k → l'.key_slots i ≡ l.key_slots i
  key-before i lt = rw after.key_slots (
      ground (
        arith,
        opened-at p l.key_slots l.slots_in_use (find_key_loc p l k) k i,
        (find_key_loc-place p l k).0,
      ))

  pub key-place : l'.key_slots (find_key_loc p l k) ≡ k
  key-place = rw after.key_slots (
      ground (
        arith,
        opened-at p l.key_slots l.slots_in_use (find_key_loc p l k) k (find_key_loc p l k),
        (find_key_loc-place p l k).0,
      ))

  key-behind :
      (i : ℕ) → find_key_loc p l k < i → i ≤ l.slots_in_use → l'.key_slots i ≡ l.key_slots (i - 1)
  key-behind i lt le = rw after.key_slots (
      ground (
        arith,
        opened-at p l.key_slots l.slots_in_use (find_key_loc p l k) k i,
        (find_key_loc-place p l k).0,
      ))

  datum-place : l'.data_slots (find_key_loc p l k) ≡ d
  datum-place = rw after.data_slots (ground arith)

  datum-other : (i : ℕ) → i ≢ find_key_loc p l k → l'.data_slots i ≡ l.data_slots i
  datum-other i different = rw after.data_slots (ground arith)

  -- A key in use of the new leaf is the new key or one of the old leaf.
  pub Inserted-among :
      (i : ℕ)
      → i < l'.slots_in_use
      → (l'.key_slots i ≡ k) ⊎ ((j : ℕ) × (j < l.slots_in_use) × (l'.key_slots i ≡ l.key_slots j))
  Inserted-among i inside = elim (dec_lt i (find_key_loc p l k)) [
    | yes before ↦ inr (i, omega (arith, (find_key_loc-place p l k).0), key-before i before)
    | no after_place ↦ elim (ℕ_discrete i (find_key_loc p l k)) [
      | yes same ↦ inl (ap l'.key_slots same ∙ key-place)
      | no different ↦ inr (
        i - 1,
        omega (arith, after.count),
        key-behind i (omega arith) (omega (arith, after.count)),
      )
    ]
  ]

  pub InLeaf-back : {a : K} {v : V} → InLeaf l' a v → (a ≡ k) ⊎ ((u : V) × InLeaf l a u)
  InLeaf-back {a} {v} (m, inside, e, held) = elim (Inserted-among m inside) [
    | inl same ↦ inl (sym e ∙ same)
    | inr (j, at, same) ↦ inr (l.data_slots j, (j, at, sym same ∙ e, refl))
  ]

  pub InLeaf-forth : {a : K} {v : V} → InLeaf l a v → (u : V) × InLeaf l' a u
  InLeaf-forth {a} {v} (m, inside, e, held) = elim (dec_lt m (find_key_loc p l k)) [
    | yes before ↦ (l'.data_slots m, (m, omega (arith, after.count), key-before m before ∙ e, refl))
    | no behind ↦ (
      l'.data_slots (m + 1),
      (
        m + 1,
        omega (arith, after.count),
        key-behind (m + 1) (omega arith) (omega arith) ∙ ap l.key_slots (omega arith) ∙ e,
        refl,
      ),
    )
  ]

  pub InLeaf-new : InLeaf l' k d
  InLeaf-new = (
    find_key_loc p l k,
    omega (arith, after.count, (find_key_loc-place p l k).0),
    key-place,
    datum-place,
  )

  -- The new key stands in one slot only, if it was in none.
  pub InLeaf-only : ((v : V) → ¬ InLeaf l k v) → {v : V} → InLeaf l' k v → v ≡ d
  InLeaf-only absent {v} (m, inside, e, held) = elim (ℕ_discrete m (find_key_loc p l k)) [
    | yes same ↦ sym held ∙ ap l'.data_slots same ∙ datum-place
    | no different ↦ elim (dec_lt m (find_key_loc p l k)) [
      | yes before ↦ absurd (
          absent (l.data_slots m)
            (m, omega (arith, (find_key_loc-place p l k).0), sym (key-before m before) ∙ e, refl))
      | no behind ↦ absurd (
          absent (l.data_slots (m - 1)) (
            m - 1,
            omega (arith, after.count),
            sym (key-behind m (omega arith) (omega (arith, after.count))) ∙ e,
            refl,
          ))
    ]
  ]

  -- Where the new key goes behind all others, the pairs are the old ones and the new one.
  pub InLeaf-append :
      find_key_loc p l k ≡ l.slots_in_use
      → {a : K} {v : V} → InLeaf l' a v ↔ ((a ≡ k) × (v ≡ d)) ⊎ InLeaf l a v
  InLeaf-append last {a} {v} = (
    λ (m, inside, e, held). elim (ℕ_discrete m (find_key_loc p l k)) [
      | yes same ↦
          inl (
            sym e ∙ ap l'.key_slots same ∙ key-place,
            sym held ∙ ap l'.data_slots same ∙ datum-place,
          )
      | no different ↦ inr (
        m,
        omega (arith, after.count),
        sym (key-before m (omega (arith, after.count))) ∙ e,
        sym (datum-other m different) ∙ held,
      )
    ],
    λ h. elim h [
      | inl (same, datum) ↦ (
        find_key_loc p l k,
        omega (arith, after.count),
        key-place ∙ sym same,
        datum-place ∙ sym datum,
      )
      | inr (m, inside, e, held) ↦ (
        m,
        omega (arith, after.count),
        key-before m (omega arith) ∙ e,
        datum-other m (omega arith) ∙ held,
      )
    ],
  )

  -- A key greater than those of a leaf in strict order leaves it in strict order.
  pub Inserted-IsStrict :
      IsStrict p l
      → ((i : ℕ) → i < l.slots_in_use → keyless (l.key_slots i) k ≡ true)
      → IsStrict p l'
  Inserted-IsStrict strict greater i j less inside = elim (dec_lt j l.slots_in_use) [
    | yes older ↦
        rw (key-before i (omega (arith, end)), key-before j (omega (arith, end)))
          (strict i j less older)
    | no new ↦
        let e : j ≡ find_key_loc p l k = omega (arith, end, after.count) in
        rw (key-before i (omega (arith, end, after.count)), e, key-place)
          (greater i (omega (arith, after.count)))
  ]
    where
      end : find_key_loc p l k ≡ l.slots_in_use
      end = find_key_loc-last p l k greater

  -- A key above all others stands at the end.
  pub keys_of-append :
      ((i : ℕ) → i < l.slots_in_use → keyless (l.key_slots i) k ≡ true)
      → keys_of p l' ≡ keys_of p l ++ k ∷ []
  keys_of-append less =
      ap (segment l'.key_slots 0) after.count
      ∙ segment-append l'.key_slots 0 l.slots_in_use 1
      ∙ ap₂ ◌++◌
          (segment-ext l'.key_slots l.key_slots 0 0 l.slots_in_use
            (λ m h. key-before (0 + m) (omega (arith, end))))
          (ap (λ x. x ∷ []) (ap l'.key_slots (omega (arith, end)) ∙ key-place))
    where
      end : find_key_loc p l k ≡ l.slots_in_use
      end = find_key_loc-last p l k less
