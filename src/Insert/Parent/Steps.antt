-- ===== src/Insert/Parent/Steps.antt =====
-- Steps of `insert_in_parent` that put a key and a child at the end of an inner node.
use ccpbtree.Base.{
  ℕ, zero, false, suc, ◌+◌, ◌≤◌, ◌<◌, ◌≡◌, ◌≢◌, refl, Option, some, arith, put, pos, leb, ◌==◌,
}
use ccpbtree.Store.{
  Ptr, null, LeafNode, InnerNode, Node, leaf, inner, Tree, Traits, ok, pure, ◌>>◌, write, up16,
}
use ccpbtree.Store.Points.{Points, load-ok, load_leaf-ok, load_inner-ok}
use ccpbtree.Inner.{
  insert_inner_node_pair, last_greater, with_key_at, insert_inner_node_key_at, with_child_at,
  insert_inner_node_child_at, link_at, link_leaves,
}
use ccpbtree.KeyOrder.{key_greater}

module _ {K V : Type 0} (p : Traits K V) where
  open p use {nodeslots, key_garbage}

  -- A write, seen from another address and from its own.
  pub Points-write_other :
      {t : Tree K V} {q r : Ptr} {m : Node K V} (c : Option (Node K V))
      → Points t q m
      → q ≢ r
      → Points (write r c t) q m
  Points-write_other c e different = record { ne_null = e.ne_null; holds = ground (arith, e.holds) }

  pub Points-write :
      (t : Tree K V) {q : Ptr} (n : Node K V) → q ≢ null → Points (write q (some n) t) q n
  Points-write t n there = record { ne_null = there; holds = ground arith }

  -- A leaf put behind the children of a node, before the links to its neighbours.
  pub child_at-last :
      {t : Tree K V} {q c : Ptr} {n : InnerNode K} {l : LeafNode K V} (i : ℕ)
      → Points t q (inner n)
      → Points t c (leaf l)
      → n.num_children ≡ i
      → i ≤ n.slots
      → insert_inner_node_child_at p q c (pos i) t
        ≡ (link_at p
                (record n {
                  first_child = put n.first_child i c;
                  num_children = n.num_children + 1;
                })
                c
                i
              >> pure (pos 0))
            (write c (some (leaf (record l { parent = q }))) (
              write q
                (some (
                  inner (record n {
                    first_child = put n.first_child i c;
                    num_children = n.num_children + 1;
                  })))
                t))
  unfolding insert_inner_node_child_at with_child_at
  child_at-last {t} {q} {c} {n} {l} i e f count inside =
      ground (arith, load_inner-ok e, load-ok old, load-ok new)
    where
      n' : InnerNode K
      n' = record n { first_child = put n.first_child i c; num_children = n.num_children + 1 }

      different : c ≢ q
      different same = cc (same, e.holds, f.holds)

      old : Points (write q (some (inner n')) t) c (leaf l)
      old = Points-write_other (some (inner n')) f different

      new :
          Points
            (write c (some (leaf (record l { parent = q }))) (write q (some (inner n')) t))
            c
            (leaf (record l { parent = q }))
      new = Points-write _ (leaf (record l { parent = q })) f.ne_null

  pub link_leaves-ok :
      {t : Tree K V} {a b : Ptr} {l m : LeafNode K V}
      → Points t a (leaf l)
      → Points t b (leaf m)
      → a ≢ b
      → link_leaves p a b t
        ≡ ok (
          tt,
          write a
              (some (leaf (record l { next_leaf = b })))
              (write b (some (leaf (record m { prev_leaf = a }))) t),
        )
  unfolding link_leaves
  link_leaves-ok {a = a} {l = l} {m = m} e f different = rw (
    load_leaf-ok f,
    load_leaf-ok (Points-write_other (some (leaf (record m { prev_leaf = a }))) e different),
  )

  -- No key of the node is greater: the pair goes to the end.
  last_greater-none :
      (keys : ℕ → K) (k : K) (rounds i loc : ℕ)
      → ((j : ℕ) → i ≤ j → j < i + rounds → key_greater p (keys j) k ≡ false)
      → last_greater p keys k rounds i loc ≡ loc
  unfolding last_greater
  last_greater-none keys k zero i loc less = refl
  last_greater-none keys k (suc rounds) i loc less =
      let here : key_greater p (keys i) k ≡ false = less i (omega arith) (omega arith) in
      rw here
        (last_greater-none keys k rounds (i + 1) loc (λ j a b. less j (omega arith) (omega arith)))

  -- A key put behind those of a node.
  module _ (n : InnerNode K) (k : K) (slots : n.slots ≡ nodeslots)
      (room : n.slots_in_use < nodeslots) (small : nodeslots < 65536) where
    abbrev pub with_last_key : InnerNode K
    with_last_key = record n {
      key_slots = put n.key_slots n.slots_in_use k;
      slots_in_use = n.slots_in_use + 1;
    }

    with_key_at-last : with_key_at p n k (pos n.slots_in_use) ≡ ok (pos 1, with_last_key)
    unfolding with_key_at
    with_key_at-last =
        let up : up16 n.slots_in_use ≡ n.slots_in_use + 1 = omega (arith, small, room) in
        ground (arith, slots, room, up)

    pub insert_inner_node_key_at-last :
        {t : Tree K V} {q : Ptr}
        → Points t q (inner n)
        → insert_inner_node_key_at p q k (pos n.slots_in_use) t
          ≡ ok (pos 1, write q (some (inner with_last_key)) t)
    unfolding insert_inner_node_key_at
    insert_inner_node_key_at-last e = rw (load_inner-ok e, with_key_at-last) refl

    pub insert_inner_node_pair-last :
        {t : Tree K V} {q c : Ptr}
        → Points t q (inner n)
        → c ≢ null
        → ((i : ℕ) → i < n.slots_in_use → key_greater p (n.key_slots i) k ≡ false)
        → insert_inner_node_pair p q k c t
          ≡ (insert_inner_node_child_at p q c (pos n.slots_in_use) >> pure (pos n.slots_in_use))
              (write q (some (inner with_last_key)) t)
    unfolding insert_inner_node_pair
    insert_inner_node_pair-last {t} {q} {c} e there less =
        let inside : leb n.slots n.slots_in_use ≡ false = ground (arith, slots, room) in
        let some_child : (c == null) ≡ false = ground (arith, there) in
        rw
          (
            some_child,
            load_inner-ok e,
            inside,
            last_greater-none n.key_slots k n.slots_in_use 0 n.slots_in_use
                (λ j a b. less j (omega (arith, b))),
            insert_inner_node_key_at-last e,
          )
          refl
