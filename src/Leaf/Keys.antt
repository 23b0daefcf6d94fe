-- ===== src/Leaf/Keys.antt =====
-- What `findKeyLoc` and `insertleafKeyAt` do to the keys of a leaf.
use ccpbtree.Base.{
  ℕ, suc, ◌+◌, ◌-◌, ◌≤◌, ◌<◌, ◌≡◌, ap, ap₂, ◌∙◌, Bool, true, false, arith, ◌==◌, ltb, if◌then◌else◌,
  put, shift_up, shift_up-at, shift_up-none, segment, segment-ext, segment-append, List, ◌∷◌, ◌++◌,
  pos,
}
use native.Mathlib.Decide.{dec_lt}
use ccpbtree.Store.{LeafNode, Traits, ok}
use ccpbtree.KeyOrder.{IsTotal, asymmetric, le_trans, key_greater_equal}
use ccpbtree.Leaf.{scan, find_key_loc, insert_leaf_key_at}
use ccpbtree.Leaf.Scan.{scan_bounds, scan-none, scan-before, scan-hit}

module _ {K V : Type 0} (p : Traits K V) where
  open p use {keyless, leafslots}

  -- The keys of the first `n` slots ascend.
  abbrev pub IsSorted : (ℕ → K) → ℕ → Type 0
  IsSorted keys n = (i j : ℕ) → i < j → j < n → keyless (keys j) (keys i) ≡ false

  -- The keys in use of the leaf ascend strictly.
  abbrev pub IsStrict : LeafNode K V → Type 0
  IsStrict l =
      (i j : ℕ) → i < j → j < l.slots_in_use → keyless (l.key_slots i) (l.key_slots j) ≡ true

  -- A leaf as `initialize` and the insertions leave it: no more keys than slots.
  pub record IsLeaf (l : LeafNode K V) : Type 0 where
    pub slots_eq : l.slots ≡ leafslots
    pub in_use_le : l.slots_in_use ≤ leafslots
    pub small : leafslots < 65536

  abbrev pub keys_of : LeafNode K V → List K
  keys_of l = segment l.key_slots 0 l.slots_in_use

  -- The keys of a leaf after an insertion at slot `i`.
  abbrev pub opened : (ℕ → K) → ℕ → ℕ → K → ℕ → K
  opened keys n i k = put (shift_up keys n (n - i)) i k

  pub opened-at :
      (keys : ℕ → K) (n i : ℕ) (k : K) (j : ℕ)
      → i ≤ n
      → j ≤ n
      → opened keys n i k j ≡ (if ltb j i then keys j else if j == i then k else keys (j - 1))
  opened-at keys n i k j h g = ground (arith, shift_up-at keys n (n - i) j)

  -- `insertleafKeyAt` with room in the leaf.
  pub insert_leaf_key_at-opened :
      (l : LeafNode K V) (k : K) (i : ℕ)
      → IsLeaf l
      → l.slots_in_use < leafslots
      → i ≤ l.slots_in_use
      → insert_leaf_key_at p l k (pos i)
        ≡ ok (
          pos 1,
          record l {
            key_slots = opened l.key_slots l.slots_in_use i k;
            slots_in_use = l.slots_in_use + 1;
          },
        )
  unfolding insert_leaf_key_at
  insert_leaf_key_at-opened l k i v room h =
      ground (arith, shift_up-none l.key_slots l.slots_in_use (l.slots_in_use - i))

  -- The keys in use after an insertion: the new one stands between those before slot `i` and the
  -- rest.
  pub segment-opened :
      (keys : ℕ → K) (n i : ℕ) (k : K)
      → i ≤ n
      → segment (opened keys n i k) 0 (n + 1) ≡ segment keys 0 i ++ k ∷ segment keys i (n - i)
  segment-opened keys n i k h = cut ∙ ap₂ ◌++◌ front (ap₂ ◌∷◌ middle back)
    where
      new : ℕ → K
      new = opened keys n i k

      cut : segment new 0 (n + 1) ≡ segment new 0 i ++ new (0 + i) ∷ segment new (0 + i + 1) (n - i)
      cut = ap (λ m. segment new 0 m) (omega arith) ∙ segment-append new 0 i (suc (n - i))

      front : segment new 0 i ≡ segment keys 0 i
      front = segment-ext new keys 0 0 i λ m g. ground (arith, opened-at keys n i k (0 + m))

      middle : new (0 + i) ≡ k
      middle = ground (arith, opened-at keys n i k (0 + i))

      back : segment new (0 + i + 1) (n - i) ≡ segment keys i (n - i)
      back =
          segment-ext new keys (0 + i + 1) i (n - i)
            λ m g. ground (arith, opened-at keys n i k (0 + i + 1 + m))

  module _ (o : IsTotal p) where
    pub above_all :
        (keys : ℕ → K) (n i : ℕ) (k : K) (j : ℕ)
        → IsSorted keys n
        → keyless (keys i) k ≡ false
        → i ≤ j
        → j < n
        → keyless (keys j) k ≡ false
    above_all keys n i k j s first h g = elim (dec_lt i j) [
      | yes later ↦ le_trans o k (keys i) (keys j) first (s i j later g)
      | no same ↦ let e : j ≡ i = omega arith in rw e first
    ]

    -- Insertion before the first key that is not less keeps the keys ascending.
    pub opened-IsSorted :
        (keys : ℕ → K) (n i : ℕ) (k : K)
        → i ≤ n
        → IsSorted keys n
        → ((j : ℕ) → j < i → keyless (keys j) k ≡ true)
        → (i < n → keyless (keys i) k ≡ false)
        → IsSorted (opened keys n i k) (n + 1)
    opened-IsSorted keys n i k h s below above a b less inside =
        rw (opened-at keys n i k b h (omega arith), opened-at keys n i k a h (omega arith))
          (ground (
            arith,
            s a b,
            s a (b - 1),
            s (a - 1) (b - 1),
            λ (g : a < i). asymmetric o (keys a) k (below a g),
            λ (g : i < n). above_all keys n i k (b - 1) s (above g),
          ))

  find_key_loc-eq-scan :
      (l : LeafNode K V) (k : K)
      → find_key_loc p l k ≡ scan p (λ s. key_greater_equal p s k) l.key_slots l.slots_in_use 0
  unfolding find_key_loc
  find_key_loc-eq-scan l k =
      ground (arith, scan-none p (λ s. key_greater_equal p s k) l.key_slots l.slots_in_use 0)

  -- `findKeyLoc` finds that place.
  pub find_key_loc-place :
      (l : LeafNode K V) (k : K)
      → (find_key_loc p l k ≤ l.slots_in_use)
        × ((j : ℕ) → j < find_key_loc p l k → keyless (l.key_slots j) k ≡ true)
        × (find_key_loc p l k < l.slots_in_use
            → keyless (l.key_slots (find_key_loc p l k)) k ≡ false)
  find_key_loc-place l k = rw (find_key_loc-eq-scan l k) (
    omega (arith, scan_bounds p test keys n 0),
    λ j h. ground (arith, scan-before p test keys n 0 j),
    λ h. ground (arith, scan-hit p test keys n 0),
  )
    where
      open l use {key_slots as keys, slots_in_use as n}

      test : K → Bool
      test s = key_greater_equal p s k

  -- A key greater than all others goes to the end.
  pub find_key_loc-last :
      (l : LeafNode K V) (k : K)
      → ((i : ℕ) → i < l.slots_in_use → keyless (l.key_slots i) k ≡ true)
      → find_key_loc p l k ≡ l.slots_in_use
  find_key_loc-last l k greater = elim (dec_lt (find_key_loc p l k) l.slots_in_use) [
    | yes inside ↦ cc (greater (find_key_loc p l k) inside, (find_key_loc-place l k).2 inside)
    | no end ↦ omega (arith, (find_key_loc-place l k).0)
  ]
