-- ===== src/Iterator/Steps.antt =====
-- The steps of the iterator inside a leaf and across two linked leaves.
use ccpbtree.Base.{ℕ, ◌+◌, ◌<◌, ◌≡◌, refl, arith, ◌==◌, if◌then◌else◌}
use ccpbtree.Store.{Ptr, LeafNode, leaf, Tree, Traits, ok}
use ccpbtree.Store.Points.{Points, load_leaf-ok}
use ccpbtree.Iterator.{Iterator, at, forward, backward}

-- Two neighbouring leaves, linked both ways, each with a pair.
pub record Linked {K V : Type 0} (t : Tree K V) (q r : Ptr) (l m : LeafNode K V) : Type 0 where
  pub first : Points t q (leaf l)
  pub second : Points t r (leaf m)
  pub next : l.next_leaf ≡ r
  pub prev : m.prev_leaf ≡ q
  pub first_pos : 0 < l.slots_in_use
  pub second_pos : 0 < m.slots_in_use
  pub small : l.slots_in_use < 65536

module _ {K V : Type 0} (p : Traits K V) {t : Tree K V} {q r : Ptr} {l m : LeafNode K V} where
  -- For a leaf and its successor, linked both ways and neither empty, the first with fewer than
  -- 65536 pairs: from every slot in use of the first, `++` goes to the next pair in the order of
  -- the leaves, and `--` comes back.
  pub forward-backward :
      Linked t q r l m
      → (i : ℕ) → i < l.slots_in_use
      → (it : Iterator) × (forward p (at q i) t ≡ ok (it, t))
        × (it ≡ (if i + 1 == l.slots_in_use then at r 0 else at q (i + 1)))
        × (backward p it t ≡ ok (at q i, t))
  unfolding forward backward
  forward-backward k i h = (
    if i + 1 == l.slots_in_use then at r 0 else at q (i + 1),
    ground (arith, load_leaf-ok k.first, k.next, k.second.ne_null),
    refl,
    ground (arith, load_leaf-ok k.first, load_leaf-ok k.second, k.prev, k.first.ne_null),
  )
