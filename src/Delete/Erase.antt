-- ===== src/Delete/Erase.antt =====
-- What `erase` does to a tree whose root is a leaf, for a key that is there and for one that is not.
use ccpbtree.Base.{
  ℕ, ◌+◌, ◌-◌, ◌%◌, ◌^◌, ◌≤◌, ◌<◌, ◌≡◌, refl, ◌≢◌, ap, ap₂, sym, ◌∙◌, arith, shift_down,
  shift_down-at, segment, segment-ext, segment-append, ◌++◌, pos, minus_one,
}
use ccpbtree.Store.{LeafNode, Tree, Traits, ok, fault, out_of_bounds}
use ccpbtree.Store.Points.{load_leaf-ok}
use ccpbtree.KeyOrder.{IsTotal, key_equal, key_equal_iff, key_equal_ne}
use ccpbtree.Leaf.{scan, find_key_equal_at}
use ccpbtree.Leaf.Scan.{scan_unique}
use ccpbtree.Leaf.Keys.{keys_of}
use ccpbtree.Delete.{erase}
use ccpbtree.Delete.Root.{
  RootLeaf, find-RootLeaf, find_key_equal-ok, shrunk, erased, erase-at, RootLeaf-erased,
}

module _ {K V : Type 0} (p : Traits K V) (o : IsTotal p) where
  open p use {keyless, leafslots}

  first_equal :
      (keys : ℕ → K) (n : ℕ) (k : K) (i : ℕ)
      → i ≤ n
      → ((j : ℕ) → j < i → keys j ≢ k)
      → (i < n → keys i ≡ k)
      → scan p (λ s. key_equal p s k) keys n 0 ≡ i
  first_equal keys n k i le before at =
      scan_unique p (λ s. key_equal p s k) keys n 0 i (omega arith) (omega arith)
        (λ j a b. key_equal_ne o (keys j) k (before j b))
        (λ h. (key_equal_iff o (keys i) k).1 (at (omega arith)))

  -- `findKeyEqual` returns the first slot in use with the key, or the first slot not in use.
  pub find_key_equal_at-first :
      (l : LeafNode K V) (k : K) (i : ℕ)
      → i ≤ l.slots_in_use
      → ((j : ℕ) → j < i → l.key_slots j ≢ k)
      → (i < l.slots_in_use → l.key_slots i ≡ k)
      → find_key_equal_at p l k ≡ i
  unfolding find_key_equal_at
  find_key_equal_at-first l k i le before at =
      ground (arith, first_equal l.key_slots l.slots_in_use k i le before at)

  -- The keys that are left when slot `i` has gone.
  pub keys-shrunk :
      {A : Type 0} (keys : ℕ → A) (n i : ℕ)
      → i < n
      → segment (shift_down keys i (n - 1 - i)) 0 (n - 1)
        ≡ segment keys 0 i ++ segment keys (i + 1) (n - 1 - i)
  keys-shrunk {A} keys n i h =
      ap (λ m. segment new 0 m) split ∙ segment-append new 0 i (n - 1 - i) ∙ ap₂ ◌++◌ front back
    where
      new : ℕ → A
      new = shift_down keys i (n - 1 - i)

      split : n - 1 ≡ i + (n - 1 - i)
      split = omega arith

      front : segment new 0 i ≡ segment keys 0 i
      front =
          segment-ext new keys 0 0 i λ m g. ground (arith, shift_down-at keys i (n - 1 - i) (0 + m))

      back : segment new (0 + i) (n - 1 - i) ≡ segment keys (i + 1) (n - 1 - i)
      back = segment-ext new keys (0 + i) (i + 1) (n - 1 - i) λ m g.
          let e : 0 + i + m + 1 ≡ i + 1 + m = omega arith in
          ground (arith, shift_down-at keys i (n - 1 - i) (0 + i + m), ap keys e)

  module _ {t : Tree K V} {l : LeafNode K V} (r : RootLeaf p t l) where
    -- `erase` of a key that the root leaf holds, where that leaf has no successor, removes the
    -- first slot with that key from the keys in use, returns that slot, and counts one key
    -- less. The data slots stay as they are. The keys are totally ordered.
    pub erase-keys_of :
        (k : K) (i : ℕ)
        → i < l.slots_in_use
        → l.key_slots i ≡ k
        → ((j : ℕ) → j < i → l.key_slots j ≢ k)
        → (t' : Tree K V) × (l' : LeafNode K V) × (erase p k t ≡ ok (pos i, t'))
          × RootLeaf p t' l'
          × (keys_of p l'
              ≡ segment l.key_slots 0 i ++ segment l.key_slots (i + 1) (l.slots_in_use - 1 - i))
          × (l'.data_slots ≡ l.data_slots)
          × (t'.total_key_count ≡ (t.total_key_count + (2 ^ 32 - 1)) % 2 ^ 32)
    erase-keys_of k i inside e before = (
      erased p r i,
      shrunk p r i,
      erase-at p r k i (find_key_equal_at-first l k i (omega arith) before (λ h. e))
          (omega (arith, r.valid)) ((key_equal_iff o k (l.key_slots i)).1 (sym e)) (omega arith),
      RootLeaf-erased p r i,
      keys-shrunk l.key_slots l.slots_in_use i inside,
      refl,
      refl,
    )

    module _ (k : K) (none_equal : (j : ℕ) → j < l.slots_in_use → l.key_slots j ≢ k) where
      absent-slot : find_key_equal_at p l k ≡ l.slots_in_use
      absent-slot =
          find_key_equal_at-first l k l.slots_in_use (omega arith) none_equal
            (λ h. absurd (omega arith))

      -- `erase` of a key that the root leaf does not hold, where that leaf is full and has no
      -- successor, reads behind the array of keys. The keys are totally ordered.
      pub erase-absent_full : l.slots_in_use ≡ leafslots → erase p k t ≡ fault out_of_bounds
      unfolding erase
      erase-absent_full full = ground (
        arith,
        find-RootLeaf p r k,
        r.here.ne_null,
        find_key_equal-ok p r k,
        load_leaf-ok r.here,
        absent-slot,
      )

      -- `erase` of a key that the root leaf does not hold, where that leaf has no successor
      -- and has room, and the first slot not in use does not hold the key either, returns -1
      -- and changes nothing. The keys are totally ordered.
      pub erase-absent_other :
          l.slots_in_use < leafslots
          → l.key_slots l.slots_in_use ≢ k
          → erase p k t ≡ ok (minus_one, t)
      unfolding erase
      erase-absent_other room other = ground (
        arith,
        find-RootLeaf p r k,
        r.here.ne_null,
        find_key_equal-ok p r k,
        load_leaf-ok r.here,
        absent-slot,
        key_equal_ne o k (l.key_slots l.slots_in_use) (λ e. other (sym e)),
      )

      -- `erase` of a key that the root leaf does not hold, where that leaf has no successor,
      -- has room and has a key, but the first slot not in use still holds the key, returns
      -- that slot as if it had found the key, and drops the last key in use. The keys are
      -- totally ordered.
      pub erase-absent_stale :
          0 < l.slots_in_use
          → l.slots_in_use < leafslots
          → l.key_slots l.slots_in_use ≡ k
          → (t' : Tree K V) × (l' : LeafNode K V) × (erase p k t ≡ ok (pos l.slots_in_use, t'))
            × RootLeaf p t' l'
            × (l'.slots_in_use ≡ l.slots_in_use - 1)
            × (keys_of p l' ≡ segment l.key_slots 0 (l.slots_in_use - 1))
      erase-absent_stale used room stale = (
        erased p r l.slots_in_use,
        shrunk p r l.slots_in_use,
        erase-at p r k l.slots_in_use absent-slot room
            ((key_equal_iff o k (l.key_slots l.slots_in_use)).1 (sym stale)) used,
        RootLeaf-erased p r l.slots_in_use,
        refl,
        segment-ext _ l.key_slots 0 0 (l.slots_in_use - 1) λ m g. ground (
          arith,
          shift_down-at l.key_slots l.slots_in_use (l.slots_in_use - 1 - l.slots_in_use) (0 + m),
        ),
      )
