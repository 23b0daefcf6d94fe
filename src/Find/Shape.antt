-- ===== src/Find/Shape.antt =====
-- Search trees in memory, and the pairs that they hold: the reference for the searches.
use ccpbtree.Base.{
  ℕ, zero, suc, ◌+◌, ◌≤◌, ◌<◌, ◌≡◌, ◌⊎◌, true, false, none, some, Option, ltb, if◌then◌else◌,
}
use ccpbtree.Store.{Ptr, null, LeafNode, InnerNode, leaf, inner, Tree, Traits}
use ccpbtree.Store.Points.{Points}
use ccpbtree.Leaf.Keys.{IsSorted}

module _ {K V : Type 0} (p : Traits K V) where
  open p use {keyless, leafslots, nodeslots}

  -- A bound that may be absent: `lo <= k` and `k < hi`.
  abbrev pub AtLeast : Option K → K → Type 0
  AtLeast none k = Unit
  AtLeast (some b) k = keyless k b ≡ false

  abbrev pub Below : Option K → K → Type 0
  Below none k = Unit
  Below (some b) k = keyless k b ≡ true

  -- No key below `hi` reaches a key of the successor.
  abbrev pub Beyond : Option K → K → Type 0
  Beyond none k = ⊥
  Beyond (some b) k = keyless k b ≡ false

  -- The bounds of child `i`: the keys on either side of it, or those of the node.
  abbrev pub lower : InnerNode K → Option K → ℕ → Option K
  lower n lo zero = lo
  lower n lo (suc i) = some (n.key_slots i)

  abbrev pub upper : InnerNode K → Option K → ℕ → Option K
  upper n hi i = if ltb i n.slots_in_use then some (n.key_slots i) else hi

  -- The successor of a leaf is absent, or a leaf whose keys are at least the leaf's upper bound.
  pub record Successor (t : Tree K V) (q : Ptr) (hi : Option K) : Type 0 where
    pub node : LeafNode K V
    pub here : Points t q (leaf node)
    pub in_use_pos : 0 < node.slots_in_use
    pub beyond : (i : ℕ) → i < node.slots_in_use → Beyond hi (node.key_slots i)

  pub record LeafShape (t : Tree K V) (l : LeafNode K V) (lo hi : Option K) : Type 0 where
    pub in_use_le : l.slots_in_use ≤ leafslots
    pub sorted : IsSorted p l.key_slots l.slots_in_use
    pub at_least : (i : ℕ) → i < l.slots_in_use → AtLeast lo (l.key_slots i)
    pub below : (i : ℕ) → i < l.slots_in_use → Below hi (l.key_slots i)
    pub next : (l.next_leaf ≡ null) ⊎ Successor t l.next_leaf hi

  pub record InnerShape (n : InnerNode K) (lo hi : Option K) : Type 0 where
    pub in_use_le : n.slots_in_use ≤ nodeslots
    pub children : n.num_children ≡ n.slots_in_use + 1
    pub sorted : IsSorted p n.key_slots n.slots_in_use
    pub at_least : (i : ℕ) → i < n.slots_in_use → AtLeast lo (n.key_slots i)
    pub below : (i : ℕ) → i < n.slots_in_use → Below hi (n.key_slots i)

  -- From `q` on stands a search tree of the given height whose keys lie between the bounds.
  pub data Subtree (t : Tree K V) : ℕ → Ptr → Option K → Option K → Type 0 where
    leaf_at :
        {q : Ptr} {lo hi : Option K} (l : LeafNode K V)
        → Points t q (leaf l)
        → LeafShape t l lo hi
        → Subtree t zero q lo hi
    inner_at :
        {h : ℕ} {q : Ptr} {lo hi : Option K} (n : InnerNode K)
        → Points t q (inner n)
        → InnerShape n lo hi
        → ((i : ℕ)
            → i ≤ n.slots_in_use
            → Subtree t h (n.first_child i) (lower n lo i) (upper n hi i))
        → Subtree t (suc h) q lo hi

module _ {K V : Type 0} where
  -- The leaf `l` holds the pair in a slot in use.
  abbrev pub InLeaf : LeafNode K V → K → V → Type 0
  InLeaf l k v = (m : ℕ) × (m < l.slots_in_use) × (l.key_slots m ≡ k) × (l.data_slots m ≡ v)

  -- The tree of the given height from `q` on holds the pair, in whatever leaf.
  pub data Has (t : Tree K V) (k : K) (v : V) : ℕ → Ptr → Type 0 where
    in_leaf : {q : Ptr} (l : LeafNode K V) → Points t q (leaf l) → InLeaf l k v → Has t k v zero q
    in_child :
        {h : ℕ} {q : Ptr} (n : InnerNode K) (i : ℕ)
        → Points t q (inner n)
        → i ≤ n.slots_in_use
        → Has t k v h (n.first_child i)
        → Has t k v (suc h) q

module _ {K V : Type 0} (p : Traits K V) where
  -- A tree as `find` needs it. No tree has more levels than there are addresses in use.
  pub record IsTree (t : Tree K V) (h : ℕ) : Type 0 where
    pub shape : Subtree p t h t.root none none
    pub height_le : h ≤ t.brk
    pub brk_pos : 0 < t.brk
