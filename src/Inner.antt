-- ===== src/Inner.antt =====
-- The operations on one inner node of src/btree.h: `struct innerNode`, `findInnerNodeLoc`,
-- `findInnerNodeKey`, `getChild`, `insertInnerNodeKeyAt`, `insertInnerNodeChildAt`,
-- `insertinnernodepair`, `freeInnerNode`, `deleteinnerpair` and `replacekey`.
use ccpbtree.Base.{
  ℕ, zero, suc, ◌+◌, ◌-◌, ◌/◌, Bool, false, ◌||◌, ◌==◌, ltb, leb, if◌then◌else◌, put, shift_up, ℤ,
  pos, negsuc, minus_one,
}
use ccpbtree.Store.{
  Ptr, null, InnerNode, leaf, inner, out_of_bounds, assertion, negative_count, Out, ok, fault, up16,
  down16, slot, Traits, Cmd, pure, fail, lift, ◌>>=◌, ◌>>◌, load, load_leaf, load_inner, save_inner,
  free_node, is_leaf, with_parent, modify, modify_leaf,
}
use ccpbtree.KeyOrder.{key_greater, key_equal}
use ccpbtree.Leaf.{scan}

module _ {K V : Type 0} (p : Traits K V) where
  open p use {leafslots, nodeslots, key_garbage}

  -- `innerNode::initialize` on a new node.
  unfoldable pub new_inner : InnerNode K
  new_inner = record {
    slots = nodeslots;
    slots_in_use = 0;
    is_root_node = false;
    parent = null;
    key_slots = key_garbage;
    first_child = λ i. null;
    num_children = 0;
  }

  -- `innerNode::isunderflow`
  abbrev pub is_underflow : InnerNode K → Bool
  is_underflow n = ltb n.num_children (nodeslots / 2 + 1)

  -- `innerNode::isfull`
  abbrev pub is_full : InnerNode K → Bool
  is_full n = n.slots_in_use == nodeslots

  -- The key slots and the child pointers, at a checked index.
  abbrev pub key_at : InnerNode K → ℕ → Out K
  key_at n i = slot nodeslots n.key_slots i

  abbrev pub child_at : InnerNode K → ℕ → Out Ptr
  child_at n i = slot (nodeslots + 1) n.first_child i

  -- `findInnerNodeLoc`: the first slot with a key above the child's first key. Behind all keys, the
  -- last child is compared if the child is a leaf, and the slot after the keys is returned.
  unfoldable pub find_inner_node_loc : Ptr → Ptr → Cmd K V ℤ
  unfolding load load_leaf load_inner scan
  find_inner_node_loc n c = if c == null || n == null then pure minus_one else do
    child ← load c
    parent ← load_inner n
    elim child [
      | leaf l ↦ do
        k ← lift (slot leafslots l.key_slots 0)
        let i = scan p (λ s. key_greater p s k) parent.key_slots parent.slots_in_use 0
        if ltb i parent.slots_in_use
            then pure (pos i)
            else if ltb i parent.num_children
            then (do
              q ← lift (child_at parent i)
              last ← load_leaf q
              last_key ← lift (slot leafslots last.key_slots 0)
              if key_equal p last_key k then pure (pos i) else pure minus_one)
            else pure minus_one
      | inner m ↦ do
        k ← lift (key_at m 0)
        let i = scan p (λ s. key_greater p s k) parent.key_slots parent.slots_in_use 0
        if ltb i parent.slots_in_use
            then pure (pos i)
            else if ltb i parent.num_children
            then (do
              q ← lift (child_at parent (parent.num_children - 1))
              last ← load_inner q
              _ ← lift (key_at last 0)
              pure (pos i))
            else pure (pos i)
    ]

  -- `findInnerNodeKey` behind its NULL test.
  unfoldable pub find_inner_node_key : InnerNode K → K → ℤ
  unfolding scan
  find_inner_node_key n k =
      let i = scan p (λ s. key_equal p s k) n.key_slots n.slots_in_use 0 in
      if ltb i n.slots_in_use then pos i else minus_one

  -- `getChild`: NULL for an index outside `0 .. slotsinuse`.
  abbrev pub get_child : InnerNode K → ℤ → Ptr
  get_child n (negsuc i) = null
  get_child n (pos i) = if ltb n.slots_in_use i then null else n.first_child i

  -- `insertInnerNodeKeyAt` on the node's fields.
  unfoldable pub with_key_at : InnerNode K → K → ℤ → Out (ℤ × InnerNode K)
  unfolding shift_up
  with_key_at n k (negsuc i) = ok (minus_one, n)
  with_key_at n k (pos i) =
      if leb n.slots i
      then ok (minus_one, n)
      else if n.slots_in_use == 0 || leb n.slots_in_use i
      then ok
          (pos 1, record n { key_slots = put n.key_slots i k; slots_in_use = up16 n.slots_in_use })
      else if leb nodeslots n.slots_in_use
      then fault out_of_bounds
      else ok (
        pos 1,
        record n {
          key_slots = put (shift_up n.key_slots n.slots_in_use (n.slots_in_use - i)) i k;
          slots_in_use = up16 n.slots_in_use;
        },
      )

  -- `insertInnerNodeKeyAt`
  unfoldable pub insert_inner_node_key_at : Ptr → K → ℤ → Cmd K V ℤ
  unfolding load_inner with_key_at
  insert_inner_node_key_at q k index = do
    n ← load_inner q
    (r, n') ← lift (with_key_at n k index)
    save_inner q n'
    pure r

  -- The child array of `insertInnerNodeChildAt`: the children from the index on move up.
  unfoldable pub with_child_at : InnerNode K → Ptr → ℕ → Out (InnerNode K)
  unfolding shift_up
  with_child_at d c i =
      if ltb i d.num_children
      then if ltb nodeslots d.num_children
        then fault out_of_bounds
        else ok (record d {
          first_child = put (shift_up d.first_child d.num_children (d.num_children - i)) i c;
          num_children = d.num_children + 1;
        })
      else ok (record d { first_child = put d.first_child i c; num_children = d.num_children + 1 })

  -- `prev->nextLeaf = next; next->prevLeaf = prev`
  unfoldable pub link_leaves : Ptr → Ptr → Cmd K V (Unit {0})
  unfolding load_leaf
  link_leaves prev next = do
    modify_leaf next (λ l. record l { prev_leaf = prev })
    modify_leaf prev (λ l. record l { next_leaf = next })

  -- The neighbours of a leaf that has been put at index `i`.
  unfoldable pub link_at : InnerNode K → Ptr → ℕ → Cmd K V (Unit {0})
  unfolding link_leaves
  link_at d c i = do
    if ltb 0 i then (do q ← lift (child_at d (i - 1)); link_leaves q c) else pure tt
    if ltb (i + 1) d.num_children
        then (do q ← lift (child_at d (i + 1)); link_leaves c q)
        else pure tt

  -- `insertInnerNodeChildAt`: the child is put at the index and given its parent; a leaf is linked
  -- with its neighbours in the node.
  unfoldable pub insert_inner_node_child_at : Ptr → Ptr → ℤ → Cmd K V ℤ
  unfolding load load_inner with_child_at link_at
  insert_inner_node_child_at dest c (negsuc i) = load_inner dest >> pure minus_one
  insert_inner_node_child_at dest c (pos i) = do
    d ← load_inner dest
    if ltb d.slots i then pure minus_one else do
      d' ← lift (with_child_at d c i)
      save_inner dest d'
      modify c (with_parent dest)
      child ← load c
      if is_leaf child then link_at d' c i else pure tt
      pure (pos 0)

  -- The loop of `insertinnernodepair`: it has no break, so the last match stays.
  unfoldable pub last_greater : (ℕ → K) → K → ℕ → ℕ → ℕ → ℕ
  last_greater keys k zero i loc = loc
  last_greater keys k (suc rounds) i loc =
      last_greater keys k rounds (i + 1) (if key_greater p (keys i) k then i else loc)

  -- `insertinnernodepair`
  unfoldable pub insert_inner_node_pair : Ptr → K → Ptr → Cmd K V ℤ
  unfolding load_inner last_greater insert_inner_node_key_at insert_inner_node_child_at
  insert_inner_node_pair q k child = if child == null then pure minus_one else do
    n ← load_inner q
    if leb n.slots n.slots_in_use then fail assertion else do
      let loc = last_greater n.key_slots k n.slots_in_use 0 n.slots_in_use
      insert_inner_node_key_at q k (pos loc)
      insert_inner_node_child_at q child (pos loc)
      pure (pos loc)

  -- `delete` of NULL does nothing.
  delete_pointer : Ptr → Cmd K V (Unit {0})
  unfolding free_node
  delete_pointer q = if q == null then pure tt else free_node q

  delete_children : InnerNode K → ℕ → ℕ → Cmd K V (Unit {0})
  unfolding delete_pointer
  delete_children n zero i = pure tt
  delete_children n (suc rounds) i = do
    delete_pointer (n.first_child i)
    delete_children n rounds (i + 1)

  -- `freeInnerNode`: deletes as many children as there are keys, so not the last child.
  free_inner_node : Ptr → Cmd K V (Unit {0})
  unfolding load_inner delete_children
  free_inner_node q = do n ← load_inner q; delete_children n n.slots_in_use 0

  -- The inner loop of `deleteinnerpair`: its condition does not change, so it runs until it leaves
  -- the child array. The fuel is the room behind the slot.
  unfoldable pub delete_shift : ℕ → InnerNode K → ℕ → Out (InnerNode K × ℕ)
  delete_shift zero n j = fault out_of_bounds
  delete_shift (suc room) n j =
      if leb (nodeslots + 1) (j + 1)
      then fault out_of_bounds
      else if leb nodeslots (j + 1)
      then fault out_of_bounds
      else delete_shift room
          (record n {
            first_child = put n.first_child j (n.first_child (j + 1));
            key_slots = put n.key_slots j (n.key_slots (j + 1));
          })
          (j + 1)

  -- `deleteinnerpair`, at the first slot with an equal key. Only at the last key does its inner
  -- loop end: at once.
  unfoldable pub delete_inner_pair : Ptr → K → Ptr → Cmd K V ℤ
  unfolding load_inner scan delete_shift
  delete_inner_pair q k c = do
    n ← load_inner q
    if ltb n.slots_in_use 1 then pure minus_one else do
      let i = scan p (λ s. key_equal p k s) n.key_slots n.slots_in_use 0
      if leb n.slots_in_use i then pure minus_one else do
        (n', j) ←
            lift
              (if ltb i (n.slots_in_use - 1) then delete_shift (nodeslots + 2) n i else ok (n, i))
        n'' ← lift (
            if j + 2 == n'.num_children
            then if leb (nodeslots + 1) (j + 2)
              then fault out_of_bounds
              else ok
                  (record n' { first_child = put n'.first_child (j + 1) (n'.first_child (j + 2)) })
            else ok n')
        if n''.num_children == 0 then fail negative_count else do
          save_inner q (record n'' {
            slots_in_use = down16 n''.slots_in_use;
            num_children = n''.num_children - 1;
          })
          pure (pos i)

  -- `replacekey`
  unfoldable pub replace_key : Ptr → K → K → Cmd K V ℤ
  unfolding load_inner scan
  replace_key q replacee replacer = if q == null then pure minus_one else do
    n ← load_inner q
    let i = scan p (λ s. key_equal p s replacee) n.key_slots n.slots_in_use 0
    if leb n.slots_in_use i
        then pure minus_one
        else do save_inner q (record n { key_slots = put n.key_slots i replacer }); pure (pos 1)
