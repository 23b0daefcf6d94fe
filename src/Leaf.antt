-- ===== src/Leaf.antt =====
-- The operations on one leaf node of src/btree.h: `struct leafNode`, `findKeyLoc`, `findKeyEqual`,
-- `find_lowerkey`, `insertleafKeyAt`, `insertleafDataAt`, `insertleafpair` and `deleteleafpair`.
-- Loops over the slots in use stay inside the arrays as long as `slotsinuse <= slots`; an access at
-- any other index is checked.
pub mod Scan
pub mod Keys
pub mod Sorted
pub mod Pair
use ccpbtree.Base.{
  ℕ, zero, suc, ◌+◌, ◌-◌, ◌/◌, Bool, true, false, ◌&&◌, ◌||◌, ◌==◌, ltb, leb, if◌then◌else◌, put,
  shift_up, shift_down, ℤ, pos, negsuc, minus_one, minus_two,
}
use ccpbtree.Store.{
  Ptr, null, LeafNode, Node, leaf, Tree, out_of_bounds, no_fuel, Out, ok, fault, then_out, up16,
  down16, slot, Traits, Cmd, pure, fail, lift, and_then, ◌>>=◌, ◌>>◌, get_tree, load_leaf,
  save_leaf, down_key_count,
}
use ccpbtree.KeyOrder.{key_less_equal, key_greater_equal, key_equal}

module _ {K V : Type 0} (p : Traits K V) where
  open p use {same_data, leafslots, key_garbage, blank}

  -- `leafNode::initialize` on a new node.
  unfoldable pub new_leaf : LeafNode K V
  new_leaf = record {
    slots = leafslots;
    slots_in_use = 0;
    is_root_node = false;
    parent = null;
    key_slots = key_garbage;
    data_slots = λ i. blank;
    next_leaf = null;
    prev_leaf = null;
  }

  -- `leafNode::isfull`
  abbrev pub is_full : LeafNode K V → Bool
  is_full l = l.slots_in_use == leafslots

  -- `leafNode::isfew`
  abbrev pub is_few : LeafNode K V → Bool
  is_few l = leb l.slots_in_use (leafslots / 2)

  -- `leafNode::isunderflow`
  abbrev pub is_underflow : LeafNode K V → Bool
  is_underflow l = ltb l.slots_in_use (leafslots / 2)

  -- The first slot from `i` on, of the next `rounds`, whose key passes the test; else the slot
  -- after them.
  unfoldable pub scan : (K → Bool) → (ℕ → K) → ℕ → ℕ → ℕ
  scan test keys zero i = i
  scan test keys (suc rounds) i = if test (keys i) then i else scan test keys rounds (i + 1)

  -- `findKeyLoc`: the first slot with a key at least `k`, or the first slot not in use.
  unfoldable pub find_key_loc : LeafNode K V → K → ℕ
  unfolding scan
  find_key_loc l k =
      if l.slots_in_use == 0
      then 0
      else scan (λ s. key_greater_equal p s k) l.key_slots l.slots_in_use 0

  -- `findKeyEqual` behind its NULL test.
  unfoldable pub find_key_equal_at : LeafNode K V → K → ℕ
  unfolding scan
  find_key_equal_at l k =
      if l.slots_in_use == 0 then 0 else scan (λ s. key_equal p s k) l.key_slots l.slots_in_use 0

  -- `findKeyEqual`
  unfoldable pub find_key_equal : Ptr → K → Cmd K V ℤ
  unfolding find_key_equal_at load_leaf
  find_key_equal q k =
      if q == null then pure minus_one else do l ← load_leaf q; pure (pos (find_key_equal_at l k))

  -- `find_lowerkey`: the first slot with a key at least `k`; -1 if all are less.
  unfoldable pub find_lowerkey : LeafNode K V → K → ℤ
  unfolding scan
  find_lowerkey l k =
      if l.slots_in_use == 0
      then pos 0
      else (let i = scan (λ s. key_less_equal p k s) l.key_slots l.slots_in_use 0 in
          if ltb i l.slots_in_use then pos i else minus_one)

  -- `insertleafDataAt`: overwrites one data slot, and moves none.
  unfoldable pub insert_leaf_data_at : LeafNode K V → V → ℤ → ℤ × LeafNode K V
  insert_leaf_data_at l datum (negsuc i) = (minus_one, l)
  insert_leaf_data_at l datum (pos i) =
      if leb leafslots i
      then (minus_one, l)
      else (pos i, record l { data_slots = put l.data_slots i datum })

  -- `insertleafKeyAt`: moves the keys from the index on up by one slot, and puts the new key there.
  unfoldable pub insert_leaf_key_at : LeafNode K V → K → ℤ → Out (ℤ × LeafNode K V)
  unfolding shift_up
  insert_leaf_key_at l k (negsuc i) = ok (minus_one, l)
  insert_leaf_key_at l k (pos i) =
      if leb l.slots i
      then ok (minus_one, l)
      else if l.slots_in_use == 0 || leb l.slots_in_use i
      then ok
          (pos 1, record l { key_slots = put l.key_slots i k; slots_in_use = up16 l.slots_in_use })
      else if leb leafslots l.slots_in_use
      then fault out_of_bounds
      else ok (
        pos 1,
        record l {
          key_slots = put (shift_up l.key_slots l.slots_in_use (l.slots_in_use - i)) i k;
          slots_in_use = up16 l.slots_in_use;
        },
      )

  -- The inner loop of the duplicate check: from slot `j` on, as long as the keys equal `k`, is the
  -- data there?
  unfoldable pub same_pair_from : LeafNode K V → K → V → ℕ → ℕ → Bool
  same_pair_from l k datum zero j = false
  same_pair_from l k datum (suc rounds) j =
      key_equal p (l.key_slots j) k
      && (same_data datum (l.data_slots j) || same_pair_from l k datum rounds (j + 1))

  -- The duplicate check of `insertleafpair`, along the chain of leaves. The key at slot `j` is read
  -- before `j` is compared with the slots in use. The fuel bounds the leaves visited.
  unfoldable pub has_duplicate : ℕ → Ptr → ℕ → K → V → Cmd K V Bool
  unfolding same_pair_from load_leaf
  has_duplicate zero cur j k datum = fail no_fuel
  has_duplicate (suc fuel) cur j k datum = elim (cur == null) [
    | true ↦ pure false
    | false ↦ do
      l ← load_leaf cur
      first ← lift (slot leafslots l.key_slots j)
      let rest = has_duplicate fuel l.next_leaf 0 k datum
      if key_equal p first k
          then (if same_pair_from l k datum (l.slots_in_use - j) j then pure true else rest)
          else pure false
  ]

  -- `insertleafpair`: -1 if the leaf is full, -2 if the pair is there, else 1.
  unfoldable pub insert_leaf_pair : Ptr → K → V → Cmd K V ℤ
  unfolding load_leaf find_key_loc has_duplicate insert_leaf_key_at insert_leaf_data_at
  insert_leaf_pair q k datum = do
    l ← load_leaf q
    if is_full l then pure minus_one else do
      let loc = find_key_loc l k
      t ← get_tree
      found ← has_duplicate (t.brk + 1) q loc k datum
      if found then pure minus_two else do
        (_, keyed) ← lift (insert_leaf_key_at l k (pos loc))
        let filled = insert_leaf_data_at keyed datum (pos loc)
        save_leaf q filled.1
        pure (pos 1)

  -- `deleteleafpair`: removes the first pair whose key is at least `k`, if that key equals `k`. The
  -- data is not looked at. A key above all others makes it read slot -1.
  unfoldable pub delete_leaf_pair : Ptr → K → V → Cmd K V ℤ
  unfolding load_leaf find_lowerkey shift_down down_key_count
  delete_leaf_pair q k datum = do
    l ← load_leaf q
    if ltb l.slots_in_use 1 then pure minus_one else elim (find_lowerkey l k) [
      | negsuc i ↦ fail out_of_bounds
      | pos loc ↦ do
        found ← lift (slot leafslots l.key_slots loc)
        if key_equal p k found
            then (do
              save_leaf q (record l {
                key_slots = shift_down l.key_slots loc (l.slots_in_use - 1 - loc);
                data_slots = shift_down l.data_slots loc (l.slots_in_use - 1 - loc);
                slots_in_use = down16 l.slots_in_use;
              })
              down_key_count
              pure (pos loc))
            else pure minus_one
    ]
