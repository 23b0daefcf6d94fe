-- ===== src/Insert/Parent/NewRoot.antt =====
-- `insert_in_parent` for two leaves without a parent: a new root over them.
use ccpbtree.Base.{ℕ, suc, ◌+◌, ◌<◌, ◌≡◌, ◌≢◌, refl, ◌∙◌, true, some, none, arith, put, pos}
use ccpbtree.Store.{Ptr, null, LeafNode, InnerNode, leaf, inner, Tree, Traits, ok, write, alloc}
use ccpbtree.Store.Points.{Points, load_inner-ok}
use ccpbtree.Inner.{
  new_inner, with_key_at, insert_inner_node_key_at, insert_inner_node_child_at, link_at,
}
use ccpbtree.Insert.Parent.{insert_in_parent}
use ccpbtree.Insert.Parent.Steps.{Points-write_other, Points-write, child_at-last, link_leaves-ok}

module _ {K V : Type 0} (p : Traits K V) where
  open p use {nodeslots, key_garbage}

  -- The root is an inner node with the one key `k` over the leaves `la` and `lb`, which are linked.
  pub record TwoLeaves (t : Tree K V) (a b : Ptr) (k : K) (la lb : LeafNode K V) : Type 0 where
    pub node : InnerNode K
    pub here : Points t t.root (inner node)
    pub slots_eq : node.slots ≡ nodeslots
    pub in_use : node.slots_in_use ≡ 1
    pub children : node.num_children ≡ 2
    pub key_eq : node.key_slots 0 ≡ k
    pub first : node.first_child 0 ≡ a
    pub second : node.first_child 1 ≡ b
    pub left : Points t a (leaf (record la { parent = t.root; next_leaf = b }))
    pub right : Points t b (leaf (record lb { parent = t.root; prev_leaf = a }))

  -- A new root over two leaves.
  module _ {t : Tree K V} {a b : Ptr} {la lb : LeafNode K V} (k : K) (ea : Points t a (leaf la))
      (eb : Points t b (leaf lb)) (less_a : a < t.brk) (less_b : b < t.brk) (different : a ≢ b)
      (some_slots : 0 < nodeslots) where
    abbrev root_0 : InnerNode K
    root_0 = record (new_inner p) { is_root_node = true }

    abbrev root_1 : InnerNode K
    root_1 = record root_0 { key_slots = put key_garbage 0 k; slots_in_use = 1 }

    abbrev root_2 : InnerNode K
    root_2 = record root_1 { first_child = put root_1.first_child 0 a; num_children = 1 }

    abbrev root_3 : InnerNode K
    root_3 = record root_2 { first_child = put root_2.first_child 1 b; num_children = 2 }

    abbrev tree_0 : Tree K V
    tree_0 = record t { heap = put t.heap t.brk (some (inner root_0)); brk = t.brk + 1 }

    abbrev tree_1 : Tree K V
    tree_1 = write t.brk (some (inner root_1)) tree_0

    abbrev tree_2 : Tree K V
    tree_2 =
        write a (some (leaf (record la { parent = t.brk })))
          (write t.brk (some (inner root_2)) tree_1)

    abbrev tree_3 : Tree K V
    tree_3 =
        write b (some (leaf (record lb { parent = t.brk })))
          (write t.brk (some (inner root_3)) tree_2)

    abbrev tree_4 : Tree K V
    tree_4 =
        write a (some (leaf (record la { parent = t.brk; next_leaf = b })))
          (write b (some (leaf (record lb { parent = t.brk; prev_leaf = a }))) tree_3)

    root_there : t.brk ≢ null
    root_there = omega (arith, less_a)

    put_key : insert_inner_node_key_at p t.brk k (pos 0) tree_0 ≡ ok (pos 1, tree_1)
    unfolding insert_inner_node_key_at with_key_at new_inner
    put_key = ground (arith, load_inner-ok (Points-write p t (inner root_0) root_there), some_slots)

    left_0 : Points tree_0 a (leaf la)
    left_0 = record { ne_null = ea.ne_null; holds = ground (arith, ea.holds, less_a) }

    right_0 : Points tree_0 b (leaf lb)
    right_0 = record { ne_null = eb.ne_null; holds = ground (arith, eb.holds, less_b) }

    left_1 : Points tree_1 a (leaf la)
    left_1 = Points-write_other p (some (inner root_1)) left_0 (omega (arith, less_a))

    put_first : insert_inner_node_child_at p t.brk a (pos 0) tree_1 ≡ ok (pos 0, tree_2)
    unfolding link_at new_inner
    put_first =
        child_at-last p 0 (Points-write p tree_0 (inner root_1) root_there) left_1 refl
          (omega arith)

    root_here : Points tree_2 t.brk (inner root_2)
    root_here =
        Points-write_other p (some (leaf (record la { parent = t.brk })))
          (Points-write p tree_1 (inner root_2) root_there) (omega (arith, less_a))

    left_2 : Points tree_2 a (leaf (record la { parent = t.brk }))
    left_2 =
        Points-write p (write t.brk (some (inner root_2)) tree_1)
          (leaf (record la { parent = t.brk })) ea.ne_null

    right_2 : Points tree_2 b (leaf lb)
    right_2 = record { ne_null = eb.ne_null; holds = ground (arith, eb.holds, less_b, different) }

    left_3 : Points tree_3 a (leaf (record la { parent = t.brk }))
    left_3 =
        Points-write_other p (some (leaf (record lb { parent = t.brk })))
          (Points-write_other p (some (inner root_3)) left_2 (omega (arith, less_a))) different

    right_3 : Points tree_3 b (leaf (record lb { parent = t.brk }))
    right_3 =
        Points-write p (write t.brk (some (inner root_3)) tree_2)
          (leaf (record lb { parent = t.brk })) eb.ne_null

    link_second : link_at p root_3 b 1 tree_3 ≡ ok (tt, tree_4)
    unfolding link_at new_inner
    link_second = ground (arith, link_leaves-ok p left_3 right_3 different, some_slots)

    put_second : insert_inner_node_child_at p t.brk b (pos 1) tree_2 ≡ ok (pos 0, tree_4)
    unfolding link_at new_inner
    put_second = child_at-last p 1 root_here right_2 refl some_slots ∙ rw link_second

    pub insert_in_parent-TwoLeaves :
        (fuel : ℕ)
        → (t' : Tree K V) × (insert_in_parent p (suc fuel) null a k b t ≡ ok (tt, t'))
          × TwoLeaves t' a b k la lb
          × (t'.root ≡ t.brk)
          × (t'.brk ≡ t.brk + 1)
          × (t'.total_key_count ≡ t.total_key_count)
          × (t'.head_leaf ≡ t.head_leaf)
          × ((x : Ptr) → x < t.brk → x ≢ a → x ≢ b → t'.heap x ≡ t.heap x)
    unfolding insert_in_parent alloc
    insert_in_parent-TwoLeaves fuel = (
      record tree_4 { root = t.brk },
      rw (put_key, put_first, put_second),
      record {
        node = root_3;
        here = record { ne_null = root_there; holds = ground (arith, less_a, less_b) };
        slots_eq = refl;
        in_use = refl;
        children = refl;
        key_eq = refl;
        first = refl;
        second = refl;
        left = record { ne_null = ea.ne_null; holds = ground arith };
        right = record { ne_null = eb.ne_null; holds = ground (arith, different) };
      },
      refl,
      refl,
      refl,
      refl,
      λ x old other_a other_b. ground arith,
    )

  -- The free of another node leaves them.
  pub TwoLeaves-free :
      {t : Tree K V} {a b : Ptr} {k : K} {la lb : LeafNode K V} (q : Ptr)
      → TwoLeaves t a b k la lb
      → a ≢ q
      → b ≢ q
      → t.root ≢ q
      → TwoLeaves (write q none t) a b k la lb
  TwoLeaves-free q w other_a other_b other_root = record {
    node = w.node;
    here = Points-write_other p none w.here other_root;
    slots_eq = w.slots_eq;
    in_use = w.in_use;
    children = w.children;
    key_eq = w.key_eq;
    first = w.first;
    second = w.second;
    left = Points-write_other p none w.left other_a;
    right = Points-write_other p none w.right other_b;
  }
