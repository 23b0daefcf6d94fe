-- ===== src/Find.antt =====
-- The searches of src/btree.h: `find`, `exists`, `get` and `printleaves`.
pub mod Shape
pub mod Bounds
pub mod Descend
pub mod Route
pub mod Replace
pub mod Members
pub mod Update
pub mod Target
pub mod Walk
pub mod Lookup
use ccpbtree.Base.{
  ℕ, zero, suc, ◌+◌, ◌-◌, Bool, true, false, ◌==◌, ltb, leb, if◌then◌else◌, List, [], ◌∷◌, ◌++◌,
  segment, ℤ, pos, negsuc, decrement,
}
use ccpbtree.Store.{
  Ptr, null, InnerNode, LeafNode, Node, leaf, inner, assertion, no_fuel, Traits, Cmd, pure, fail,
  ◌>>=◌, get_tree, load, load_leaf, empty,
}
use ccpbtree.KeyOrder.{key_greater, key_greater_equal, key_equal}
use ccpbtree.Leaf
use ccpbtree.Leaf.{scan}
use ccpbtree.Inner.{get_child}

module _ {K V : Type 0} (p : Traits K V) where
  open p use {blank}

  -- What the inner loop of `find` decides at one inner node: the next node. A node with no more
  -- children than keys is not left, when a greater key is found.
  unfoldable pub next_node : Ptr → InnerNode K → K → Cmd K V Ptr
  unfolding scan
  next_node here n k =
      let i = scan p (λ s. key_greater p s k) n.key_slots n.slots_in_use 0 in
      if ltb i n.slots_in_use
      then if ltb n.slots_in_use n.num_children
        then (let first = get_child p n (pos i) in
            let next =
              if first == null then get_child p n (decrement (pos n.num_children)) else first in
            if next == null then fail assertion else pure next)
        else pure here
      else pure (get_child p n (pos n.slots_in_use))

  -- The descent of `find` to a leaf.
  unfoldable pub descend : ℕ → Ptr → K → Cmd K V Ptr
  unfolding load next_node
  descend zero here k = fail no_fuel
  descend (suc fuel) here k = do
    n ← load here
    elim n [ leaf l ↦ pure here | inner m ↦ do next ← next_node here m k; descend fuel next k ]

  -- The walk of `find` over the leaves: a full leaf with lesser keys only is left, if it has a
  -- successor.
  unfoldable pub walk : ℕ → Ptr → K → Cmd K V Ptr
  unfolding load_leaf scan
  walk zero here k = fail no_fuel
  walk (suc fuel) here k = elim (here == null) [
    | true ↦ pure here
    | false ↦ do
      l ← load_leaf here
      let rest = walk fuel l.next_leaf k
      if ltb (scan p (λ s. key_greater_equal p s k) l.key_slots l.slots_in_use 0) l.slots_in_use
          then pure here
          else if Leaf.is_full p l
          then (if l.next_leaf == null then pure here else rest)
          else pure here
  ]

  -- `find`: the leaf where the key is, or would go; NULL in an empty tree. No path of the tree is
  -- longer than the number of nodes that were ever made.
  unfoldable pub find : K → Cmd K V Ptr
  unfolding empty
  find k = do
    t ← get_tree
    if empty t then pure null else do here ← descend (t.brk + 1) t.root k; walk (t.brk + 1) here k

  -- `exists`
  unfoldable pub exists : K → Cmd K V Bool
  exists k = do
    ret ← find k
    if ret == null then pure false else do
      l ← load_leaf ret
      pure (ltb (scan p (λ s. key_equal p s k) l.key_slots l.slots_in_use 0) l.slots_in_use)

  -- `get`: the data in the first slot with the key.
  unfoldable pub get : K → Cmd K V (V × Bool)
  get k = do
    ret ← find k
    if ret == null then pure (blank, false) else do
      l ← load_leaf ret
      let i = scan p (λ s. key_equal p s k) l.key_slots l.slots_in_use 0
      if ltb i l.slots_in_use then pure (l.data_slots i, true) else pure (blank, false)

  -- The loop of `printleaves`, which prints the keys in use from a leaf on.
  unfoldable pub keys_from : ℕ → Ptr → Cmd K V (List K)
  unfolding load_leaf
  keys_from zero here = fail no_fuel
  keys_from (suc fuel) here = elim (here == null) [
    | true ↦ pure []
    | false ↦ do
      l ← load_leaf here
      rest ← keys_from fuel l.next_leaf
      pure (segment l.key_slots 0 l.slots_in_use ++ rest)
  ]

  -- `printleaves`, with the key 0 as an argument and the printed keys as its result.
  unfoldable pub printleaves : K → Cmd K V (List K)
  printleaves zero_key = do l ← find zero_key; t ← get_tree; keys_from (t.brk + 1) l
