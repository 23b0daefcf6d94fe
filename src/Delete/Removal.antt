-- ===== src/Delete/Removal.antt =====
-- `deleteInnerNode` of src/btree.h: a child leaves its inner node, which is then rebalanced.
use ccpbtree.Base.{
  ℕ, zero, suc, ◌+◌, ◌-◌, Bool, true, false, not, ◌&&◌, ◌==◌, ltb, leb, if◌then◌else◌, put,
  shift_down, ℤ, pos, negsuc, decrement,
}
use ccpbtree.Store.{
  Ptr, null, InnerNode, out_of_bounds, negative_count, no_fuel, Out, fault, down16, Traits, Cmd,
  pure, fail, lift, ◌>>=◌, ◌>>◌, load, load_leaf, load_inner, save_inner, free_node, set_root,
  is_leaf, as_root, with_parent, modify, modify_leaf,
}
use ccpbtree.Inner
use ccpbtree.Inner.{
  key_at, child_at, get_child, find_inner_node_loc, find_inner_node_key, insert_inner_node_key_at,
  insert_inner_node_child_at, link_leaves, replace_key,
}

module _ {K V : Type 0} (p : Traits K V) where
  open p use {leafslots, nodeslots, key_garbage}

  -- The leaf at slot `i` after a shift, linked with the leaf before it. At slot 0 its `prevLeaf`
  -- is reset in the loop, and left alone after it.
  relink : Bool → (ℕ → Ptr) → ℕ → Cmd K V (Unit {0})
  unfolding load link_leaves
  relink reset children i = do
    n ← load (children i)
    if is_leaf n
        then (if i == 0
            then (if reset
                then modify_leaf (children i) (λ l. record l { prev_leaf = null })
                else pure tt)
            else link_leaves p (children (i - 1)) (children i))
        else pure tt

  -- The loop of `deleteInnerNode` that shifts the children from slot `i` down.
  shift_children : (ℕ → Ptr) → ℕ → ℕ → Cmd K V (ℕ → Ptr)
  unfolding relink
  shift_children children i zero = pure children
  shift_children children i (suc rounds) = do
    let shifted = put children i (children (i + 1))
    relink true shifted i
    shift_children shifted (i + 1) rounds

  -- `deleteInnerNode` up to its rebalancing: the child at slot `loc` and the key at slot `keyloc`
  -- leave the node.
  unfoldable pub remove_child : Ptr → InnerNode K → ℕ → ℕ → Cmd K V (Unit {0})
  unfolding load load_leaf free_node shift_children relink shift_down
  remove_child q n loc keyloc = do
    gone ← load (n.first_child loc)
    if ltb 0 loc && is_leaf gone
        then (do
          cur ← load_leaf (n.first_child loc)
          modify_leaf (n.first_child (loc - 1)) (λ l. record l { next_leaf = cur.next_leaf }))
        else pure tt
    free_node (n.first_child loc)
    let keys = shift_down n.key_slots keyloc (n.slots_in_use - 1 - keyloc)
    children ← shift_children n.first_child loc (n.slots_in_use - 1 - loc)
    let i = loc + (n.slots_in_use - 1 - loc)
    children' ←
        (if ltb n.slots_in_use n.num_children && ltb (loc + 1) n.num_children
          then if leb (nodeslots + 1) (i + 1) then fail out_of_bounds else (do
            let last = put (put children i (children (i + 1))) (i + 1) null
            relink false last i
            pure last)
          else pure children)
    save_inner q (record n {
      key_slots = keys;
      first_child = children';
      slots_in_use = down16 n.slots_in_use;
      num_children = n.num_children - 1;
    })

  -- The root with one child is replaced by that child.
  unfoldable pub shrink_root : Ptr → InnerNode K → Cmd K V (Unit {0})
  unfolding load free_node
  shrink_root q n = do
    modify (n.first_child 0) (λ m. as_root (with_parent null m))
    set_root (n.first_child 0)
    free_node q

  -- The loop that puts the entries of `child` in front of those of its next neighbour.
  prepend_entries : Ptr → InnerNode K → ℕ → Cmd K V (Unit {0})
  unfolding insert_inner_node_key_at insert_inner_node_child_at
  prepend_entries next child zero = pure tt
  prepend_entries next child (suc i) = do
    insert_inner_node_key_at p next (child.key_slots i) (pos 0)
    insert_inner_node_child_at p next (child.first_child i) (pos 0)
    prepend_entries next child i

  -- The loop that puts the entries of `child` behind those of its previous neighbour.
  append_entries : Ptr → InnerNode K → ℕ → ℕ → Cmd K V (Unit {0})
  unfolding insert_inner_node_key_at insert_inner_node_child_at load_inner
  append_entries prev child i zero = pure tt
  append_entries prev child i (suc rounds) = do
    m ← load_inner prev
    insert_inner_node_key_at p prev (child.key_slots i) (pos m.slots_in_use)
    insert_inner_node_child_at p prev (child.first_child (i + 1)) (pos m.num_children)
    append_entries prev child (i + 1) rounds

  -- An inner node that has too few children takes the first child of its next neighbour.
  unfoldable pub borrow_next : Ptr → K → Ptr → Cmd K V (Unit {0})
  unfolding load_inner insert_inner_node_key_at insert_inner_node_child_at replace_key shift_down
  borrow_next q k next = do
    n ← load_inner q
    m ← load_inner next
    insert_inner_node_key_at p q k (pos n.slots_in_use)
    insert_inner_node_child_at p q (m.first_child 0) (pos n.num_children)
    first ← lift (key_at p m 0)
    replace_key p m.parent k first
    m' ← load_inner next
    let i = m'.slots_in_use - 1
    let children = shift_down m'.first_child 0 i
    if m'.num_children == 0
        then fail negative_count
        else save_inner next (record m' {
          key_slots = shift_down m'.key_slots 0 i;
          first_child =
              if ltb m'.slots_in_use m'.num_children
              then put children i (m'.first_child (i + 1))
              else children;
          slots_in_use = down16 m'.slots_in_use;
          num_children = m'.num_children - 1;
        })

  -- The same from the previous neighbour. There is no next neighbour on this path, and its parent
  -- is asked for.
  unfoldable pub borrow_prev : Ptr → K → Ptr → Ptr → Cmd K V (Unit {0})
  unfolding load_inner insert_inner_node_key_at insert_inner_node_child_at replace_key
  borrow_prev q k prev next = do
    n ← load_inner q
    m ← load_inner prev
    insert_inner_node_key_at p q k (pos n.slots_in_use)
    moved ←
        (if m.num_children == 0
          then fail out_of_bounds
          else lift (child_at p m (m.num_children - 1)))
    insert_inner_node_child_at p q moved (pos 0)
    other ← load_inner next
    last ← lift (key_at p m (m.slots_in_use - 1))
    replace_key p other.parent k last
    save_inner prev (record m {
      first_child = put m.first_child (m.num_children - 1) null;
      num_children = m.num_children - 1;
      slots_in_use = down16 m.slots_in_use;
    })

  -- The neighbours of the child at slot `loc`.
  abbrev pub prev_child : InnerNode K → ℤ → Ptr
  prev_child n (pos (suc i)) = n.first_child i
  prev_child n i = null

  abbrev pub next_child : InnerNode K → ℤ → Ptr
  next_child n (pos i) = if ltb (i + 1) n.num_children then n.first_child (i + 1) else null
  next_child n (negsuc zero) = if ltb 0 n.num_children then n.first_child 0 else null
  next_child n (negsuc (suc i)) = null

  -- The key of the parent at the slot that `loc` has after its correction for a last child.
  abbrev pub corrected : InnerNode K → ℤ → ℤ
  corrected n (pos i) = if i + 1 == n.num_children then decrement (pos i) else pos i
  corrected n (negsuc zero) = if n.num_children == 0 then negsuc 1 else negsuc 0
  corrected n (negsuc (suc i)) = negsuc (suc i)

  abbrev pub key_of : InnerNode K → ℤ → Out K
  key_of n (pos i) = key_at p n i
  key_of n (negsuc i) = fault out_of_bounds

  -- The inner node at `q` is merged with its next neighbour, and leaves its parent by `up`.
  merge_next : (Ptr → K → Ptr → Cmd K V ℤ) → Ptr → InnerNode K → Ptr → K → Cmd K V (Unit {0})
  unfolding insert_inner_node_key_at insert_inner_node_child_at prepend_entries load_inner
  merge_next up q n next k = do
    insert_inner_node_key_at p next k (pos 0)
    insert_inner_node_child_at p next (get_child p n (decrement (pos n.num_children))) (pos 0)
    prepend_entries next n n.slots_in_use
    n' ← load_inner q
    up n'.parent k q
    pure tt

  -- The inner node at `q` is merged with its previous neighbour, and leaves its parent by `up`.
  merge_prev : (Ptr → K → Ptr → Cmd K V ℤ) → Ptr → InnerNode K → Ptr → K → Cmd K V (Unit {0})
  unfolding insert_inner_node_key_at insert_inner_node_child_at append_entries load_inner
  merge_prev up q n prev k = do
    m ← load_inner prev
    insert_inner_node_key_at p prev k (pos m.slots_in_use)
    insert_inner_node_child_at p prev (n.first_child 0) (pos m.num_children)
    append_entries prev n 0 n.slots_in_use
    n' ← load_inner q
    up n'.parent k q
    pure tt

  -- The rebalancing of `deleteInnerNode`, for the inner node `n` at `q` with too few children.
  unfoldable pub rebalance : (Ptr → K → Ptr → Cmd K V ℤ) → Ptr → InnerNode K → Cmd K V ℤ
  unfolding find_inner_node_loc load_inner merge_next merge_prev borrow_next borrow_prev
  rebalance up q n = do
    found ← find_inner_node_loc p n.parent q
    parent ← load_inner n.parent
    let prev = prev_child parent found
    let next = next_child parent found
    let loc = corrected parent found
    if not (next == null)
        then (do
          k ← lift (key_of parent loc)
          m ← load_inner next
          if leb (m.num_children + n.num_children) (nodeslots + 1)
              then merge_next up q n next k
              else borrow_next q k next
          pure loc)
        else if not (prev == null)
        then (do
          k ← lift (key_of parent loc)
          m ← load_inner prev
          if leb (m.num_children + n.num_children) (nodeslots + 1)
              then merge_prev up q n prev k
              else borrow_prev q k prev next
          pure loc)
        else pure loc

  -- `deleteInnerNode`. It goes up one level with each call of itself.
  unfoldable pub delete_inner_node : ℕ → Ptr → K → Ptr → Cmd K V ℤ
  unfolding find_inner_node_loc find_inner_node_key load_inner remove_child shrink_root rebalance
  delete_inner_node zero q k c = fail no_fuel
  delete_inner_node (suc fuel) q k c = do
    loc ← find_inner_node_loc p q c
    let up = delete_inner_node fuel
    elim loc [
      | negsuc i ↦ pure (negsuc i)
      | pos i ↦ do
        n ← load_inner q
        keyloc ← (elim (find_inner_node_key p n k) [
          | negsuc j ↦ fail out_of_bounds
          | pos j ↦ pure j
        ])
        if ltb i n.num_children then remove_child q n i keyloc else pure tt
        n' ← load_inner q
        if n'.is_root_node
            then (if n'.num_children == 1 then shrink_root q n' >> pure (pos 1) else pure (pos i))
            else if Inner.is_underflow p n'
            then rebalance up q n'
            else pure (pos i)
    ]
