-- ===== src/Insert/Parent.antt =====
-- `insert_in_parent` of src/btree.h, with the split of a full inner node.
pub mod Steps
pub mod Last
pub mod Kids
pub mod Put
pub mod Halving
pub mod Distribute
pub mod Inner
pub mod Widening
pub mod SplitInner
pub mod NewRoot
pub mod TwoLeaves
use ccpbtree.Base.{
  ℕ, zero, suc, ◌+◌, ◌-◌, ◌*◌, ◌/◌, Bool, true, false, ◌&&◌, ◌==◌, ltb, leb, if◌then◌else◌, pos,
}
use ccpbtree.Store.{
  Ptr, null, InnerNode, inner, negative_count, assertion, no_fuel, down16, slot, Traits, Cmd, pure,
  fail, lift, ◌>>=◌, ◌>>◌, load, load_inner, save_inner, alloc, set_root, is_leaf,
}
use ccpbtree.KeyOrder.{key_greater}
use ccpbtree.Inner.{
  new_inner, key_at, child_at, link_leaves, insert_inner_node_key_at, insert_inner_node_child_at,
  insert_inner_node_pair,
}

-- The variables of the loop that distributes a full inner node over `pNode` and `ppNode`.
pub record InnerSplit (K : Type 0) : Type 0 where
  pub i : ℕ
  pub j : ℕ
  pub added : Bool
  pub middle : K

module _ {K V : Type 0} (p : Traits K V) where
  open p use {leafslots, nodeslots, key_garbage}

  -- The inner keys and children move to the two new nodes by the same calls at either of them.
  pub put_entry : Ptr → K → Ptr → ℕ → Cmd K V (Unit {0})
  unfolding insert_inner_node_key_at insert_inner_node_child_at
  put_entry q k c i = do
    insert_inner_node_key_at p q k (pos i)
    insert_inner_node_child_at p q c (pos i)
    pure tt

  -- The branch of the split loop for the new key. In the second half it still writes to `pNode`.
  put_new : Ptr → Ptr → K → Ptr → ℕ → ℕ → ℕ → InnerSplit K → Cmd K V (InnerSplit K)
  unfolding put_entry
  put_new p_node n k n' half i slot s =
      if ltb i (half + 1)
      then (do
        put_entry p_node k n slot
        insert_inner_node_child_at p p_node n' (pos (slot + 1))
        pure (record s { i = i - 1; added = true }))
      else (do
        put_entry p_node k n s.j
        insert_inner_node_child_at p p_node n' (pos (s.j + 1))
        pure (record s { i = i - 1; j = s.j + 1; added = true }))

  -- The last branch of the split loop: the middle key is taken out of `pNode`, and the leaves on
  -- either side of the cut are linked.
  pub cut_middle : Ptr → InnerNode K → ℕ → InnerSplit K → Cmd K V (InnerSplit K)
  unfolding load load_inner link_leaves
  cut_middle p_node old i s = do
    m ← load_inner p_node
    kp ← lift (key_at p m (i - 1))
    save_inner p_node (record m { slots_in_use = down16 m.slots_in_use })
    c ← lift (child_at p old i)
    child ← load c
    if is_leaf child then (do q ← lift (child_at p old (i - 1)); link_leaves p q c) else pure tt
    pure (record s { middle = kp })

  -- One round of the split loop, at `s.i`; `slot` counts the rounds.
  pub split_round :
      Ptr → Ptr → InnerNode K → K → Ptr → Ptr → ℕ → InnerSplit K → Cmd K V (InnerSplit K)
  unfolding put_new put_entry cut_middle
  split_round p_node pp_node old k n n' slot s = do
    let half = old.slots_in_use / 2
    s' ←
        (if key_greater p (old.key_slots s.i) k && (slot == s.i)
          then put_new p_node n k n' half s.i slot s
          else pure s)
    if ltb s'.i (half + 1) && (slot == s'.i)
        then put_entry p_node (old.key_slots s'.i) (old.first_child s'.i) slot
        else pure tt
    s'' ←
        (if ltb half s'.i
          then (do
            put_entry pp_node (old.key_slots s'.i) (old.first_child s'.i) s'.j
            pure (record s' { j = s'.j + 1 }))
          else pure s')
    if s''.i == half + 1 then cut_middle p_node old s''.i s'' else pure s''

  -- The loop that splits the inner node `old`. Only the round that adds the new key leaves `i`
  -- where it is, so the loop ends within its fuel.
  pub split_rounds :
      ℕ → Ptr → Ptr → InnerNode K → K → Ptr → Ptr → ℕ → InnerSplit K → Cmd K V (InnerSplit K)
  unfolding split_round
  split_rounds zero p_node pp_node old k n n' slot s = fail no_fuel
  split_rounds (suc fuel) p_node pp_node old k n n' slot s = elim (leb old.slots_in_use s.i) [
    | true ↦ pure s
    | false ↦ do
      s' ← split_round p_node pp_node old k n n' slot s
      split_rounds fuel p_node pp_node old k n n' (slot + 1) (record s' { i = s'.i + 1 })
  ]

  -- The split of a full inner node: the two new nodes and the key between them.
  unfoldable pub split_inner : InnerNode K → Ptr → K → Ptr → Cmd K V (Ptr × K × Ptr)
  unfolding alloc new_inner split_rounds insert_inner_node_child_at insert_inner_node_key_at
      load_inner
  split_inner old n k n' = do
    p_node ← alloc (inner (new_inner p))
    pp_node ← alloc (inner (new_inner p))
    s ←
        split_rounds (2 * old.slots_in_use + 2) p_node pp_node old k n n' 0
          (record { i = 0; j = 0; added = false; middle = key_garbage 0 })
    last ← lift (child_at p old s.i)
    if last == null then pure tt else insert_inner_node_child_at p pp_node last (pos s.j) >> pure tt
    if s.added then pure tt else (do
      m ← load_inner pp_node
      if m.num_children == 0
          then fail negative_count
          else save_inner pp_node (record m { num_children = m.num_children - 1 })
      insert_inner_node_child_at p pp_node n (pos s.j)
      insert_inner_node_key_at p pp_node k (pos s.j)
      insert_inner_node_child_at p pp_node n' (pos (s.j + 1))
      if n' == null then fail assertion else pure tt)
    low ← load_inner p_node
    _ ← lift (key_at p low low.slots_in_use)
    pure (p_node, s.middle, pp_node)

  -- `insert_in_parent`, which goes up one level with each call of itself.
  unfoldable pub insert_in_parent : ℕ → Ptr → Ptr → K → Ptr → Cmd K V (Unit {0})
  unfolding load_inner insert_inner_node_pair insert_inner_node_child_at insert_inner_node_key_at
      split_inner alloc new_inner
  insert_in_parent zero parent n k n' = fail no_fuel
  insert_in_parent (suc fuel) parent n k n' = elim (parent == null) [
    | true ↦ do
      t_node ← alloc (inner (record (new_inner p) { is_root_node = true }))
      insert_inner_node_key_at p t_node k (pos 0)
      insert_inner_node_child_at p t_node n (pos 0)
      insert_inner_node_child_at p t_node n' (pos 1)
      set_root t_node
    | false ↦ do
      m ← load_inner parent
      if ltb m.num_children (nodeslots + 1)
          then if m.num_children == 0 then fail negative_count else (do
            save_inner parent (record m { num_children = m.num_children - 1 })
            loc ← insert_inner_node_pair p parent k n
            elim loc [
              | pos (suc i) ↦ insert_inner_node_child_at p parent n' (pos (suc i + 1)) >> pure tt
              | _ ↦ pure tt
            ])
          else (do
            (low, middle, high) ← split_inner m n k n'
            insert_in_parent fuel m.parent low middle high)
  ]
