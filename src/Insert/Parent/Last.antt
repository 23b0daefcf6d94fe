-- ===== src/Insert/Parent/Last.antt =====
-- `insert_in_parent` for two leaves that replace the last child of an inner node with room.
use ccpbtree.Base.{
  ℕ, true, suc, ◌+◌, ◌-◌, ◌≤◌, ◌<◌, ◌≡◌, ◌≢◌, refl, sym, ap, ◌∙◌, false, some, arith, put, pos, ltb,
  lt→ltb, ne→==, ◌==◌,
}
use ccpbtree.Store.{
  Ptr, null, LeafNode, InnerNode, leaf, inner, Tree, Traits, ok, pure, ◌>>◌, write,
}
use ccpbtree.Store.Points.{Points, load_inner-ok}
use ccpbtree.KeyOrder.{key_greater}
use ccpbtree.Inner.{insert_inner_node_pair, insert_inner_node_child_at, link_at}
use ccpbtree.Insert.Parent.{insert_in_parent}
use ccpbtree.Insert.Parent.Steps.{
  Points-write_other, Points-write, child_at-last, link_leaves-ok, with_last_key,
  insert_inner_node_pair-last,
}

-- The leaf `b` has become the last child of `q`, whose child before it is the leaf `a`.
pub record LastChild {K V : Type 0} (t t' : Tree K V) (q : Ptr) (n : InnerNode K) (i : ℕ)
    (a b : Ptr) (la lb : LeafNode K V) : Type 0 where
  pub parent_here : Points t' q (
      inner
        (record n { first_child = put n.first_child (i + 1) b; num_children = n.num_children + 1 }))
  pub left : Points t' a (leaf (record la { next_leaf = b }))
  pub right : Points t' b (leaf (record lb { parent = q; prev_leaf = a }))
  pub root_same : t'.root ≡ t.root
  pub brk_same : t'.brk ≡ t.brk
  pub count_same : t'.total_key_count ≡ t.total_key_count
  pub head_same : t'.head_leaf ≡ t.head_leaf
  pub frame : (x : Ptr) → x ≢ q → x ≢ a → x ≢ b → t'.heap x ≡ t.heap x

module _ {K V : Type 0} (p : Traits K V) where
  open p use {nodeslots}

  pub child_at-LastChild :
      {t : Tree K V} {q a b : Ptr} {n : InnerNode K} {la lb : LeafNode K V} (i : ℕ)
      → Points t q (inner n)
      → Points t a (leaf la)
      → Points t b (leaf lb)
      → a ≢ b
      → n.first_child i ≡ a
      → n.num_children ≡ i + 1
      → n.slots ≡ nodeslots
      → i + 1 ≤ nodeslots
      → (t' : Tree K V) × (insert_inner_node_child_at p q b (pos (i + 1)) t ≡ ok (pos 0, t'))
        × LastChild t t' q n i a b la lb
  unfolding link_at
  child_at-LastChild {t} {q} {a} {b} {n} {la} {lb} i e ea eb different at count slots inside =
      let n' : InnerNode K = record n {
        first_child = put n.first_child (i + 1) b;
        num_children = n.num_children + 1;
      } in
      let lb' : LeafNode K V = record lb { parent = q } in
      let t0 : Tree K V = write q (some (inner n')) t in
      let t1 : Tree K V = write b (some (leaf lb')) t0 in
      let a_q : a ≢ q = λ same. cc (same, e.holds, ea.holds) in
      let b_q : b ≢ q = λ same. cc (same, e.holds, eb.holds) in
      let ea1 : Points t1 a (leaf la) =
        Points-write_other p (some (leaf lb')) (Points-write_other p (some (inner n')) ea a_q)
          different in
      let eb1 : Points t1 b (leaf lb') = Points-write p t0 (leaf lb') eb.ne_null in
      let t2 : Tree K V =
        write a (some (leaf (record la { next_leaf = b })))
          (write b (some (leaf (record lb' { prev_leaf = a }))) t1) in
      let linked : link_at p n' b (i + 1) t1 ≡ ok (tt, t2) =
        ground (arith, link_leaves-ok p ea1 eb1 different, at, count, inside) in
      (
        t2,
        child_at-last p (i + 1) e eb count (omega (arith, slots, inside)) ∙ rw linked refl,
        record {
          parent_here = record { ne_null = e.ne_null; holds = ground (arith, a_q, b_q) };
          left = record { ne_null = ea.ne_null; holds = ground arith };
          right = record { ne_null = eb.ne_null; holds = ground (arith, different) };
          root_same = refl;
          brk_same = refl;
          count_same = refl;
          head_same = refl;
          frame = λ x other_q other_a other_b. ground arith;
        },
      )

-- The leaves `a` and `b` with `k` between them are the last children of `q`, behind the leaf `c`.
pub record Extended {K V : Type 0} (t t' : Tree K V) (q : Ptr) (n : InnerNode K) (k : K)
    (c a b : Ptr) (lc la lb : LeafNode K V) : Type 0 where
  pub node : InnerNode K
  pub here : Points t' q (inner node)
  pub slots_same : node.slots ≡ n.slots
  pub keys : node.key_slots ≡ put n.key_slots n.slots_in_use k
  pub in_use : node.slots_in_use ≡ n.slots_in_use + 1
  pub children : node.num_children ≡ n.num_children + 1
  pub child_slots :
      node.first_child ≡ put (put n.first_child n.slots_in_use a) (n.slots_in_use + 1) b
  pub previous : Points t' c (leaf (record lc { next_leaf = a }))
  pub left : Points t' a (leaf (record la { parent = q; prev_leaf = c; next_leaf = b }))
  pub right : Points t' b (leaf (record lb { parent = q; prev_leaf = a }))
  pub root_same : t'.root ≡ t.root
  pub brk_same : t'.brk ≡ t.brk
  pub count_same : t'.total_key_count ≡ t.total_key_count
  pub head_same : t'.head_leaf ≡ t.head_leaf
  pub frame : (x : Ptr) → x ≢ q → x ≢ c → x ≢ a → x ≢ b → t'.heap x ≡ t.heap x

module _ {K V : Type 0} (p : Traits K V) {t : Tree K V} {q c a b : Ptr} {n : InnerNode K}
    {lc la lb : LeafNode K V} (i : ℕ) (k : K) (e : Points t q (inner n)) (ec : Points t c (leaf lc))
    (ea : Points t a (leaf la)) (eb : Points t b (leaf lb)) (c_a : c ≢ a) (c_b : c ≢ b)
    (a_b : a ≢ b) (in_use : n.slots_in_use ≡ i + 1) (children : n.num_children ≡ i + 1 + 1)
    (slots : n.slots ≡ p.nodeslots) (room : n.slots_in_use < p.nodeslots)
    (small : p.nodeslots < 65536) (before : n.first_child i ≡ c)
    (less : (j : ℕ) → j < n.slots_in_use → key_greater p (n.key_slots j) k ≡ false) where
  open p use {nodeslots}

  -- The node with one child fewer, then with the key, then with the first leaf.
  abbrev node_0 : InnerNode K
  node_0 = record n { num_children = n.num_children - 1 }

  abbrev node_1 : InnerNode K
  node_1 = with_last_key p node_0 k slots room small

  abbrev node_2 : InnerNode K
  node_2 = record node_1 {
    first_child = put n.first_child (i + 1) a;
    num_children = node_1.num_children + 1;
  }

  abbrev tree_1 : Tree K V
  tree_1 = write q (some (inner node_1)) (write q (some (inner node_0)) t)

  leaf_1 : {x : Ptr} {l : LeafNode K V} → Points t x (leaf l) → Points tree_1 x (leaf l)
  leaf_1 {x} ex =
      let other : x ≢ q = λ same. cc (same, e.holds, ex.holds) in
      Points-write_other p (some (inner node_1))
        (Points-write_other p (some (inner node_0)) ex other) other

  put_first :
      (t' : Tree K V) × (insert_inner_node_child_at p q a (pos (i + 1)) tree_1 ≡ ok (pos 0, t'))
      × LastChild tree_1 t' q node_1 i c a lc la
  put_first =
      child_at-LastChild p i
        (Points-write p (write q (some (inner node_0)) t) (inner node_1) e.ne_null) (leaf_1 ec)
        (leaf_1 ea) c_a before (omega (arith, children)) slots (omega (arith, in_use, room))

  put_second :
      {t1 : Tree K V}
      → LastChild tree_1 t1 q node_1 i c a lc la
      → (t' : Tree K V) × (insert_inner_node_child_at p q b (pos (i + 1 + 1)) t1 ≡ ok (pos 0, t'))
        × LastChild t1 t' q node_2 (i + 1) a b (record la { parent = q; prev_leaf = c }) lb
  put_second {t1} w =
      let eb1 : Points t1 b (leaf lb) = record {
        ne_null = eb.ne_null;
        holds =
            w.frame b (λ same. cc (same, e.holds, eb.holds)) (λ same. c_b (sym same))
              (λ same. a_b (sym same))
            ∙ (leaf_1 eb).holds;
      } in
      child_at-LastChild p (i + 1) w.parent_here w.right eb1 a_b (ground arith)
        (omega (arith, children)) slots (omega (arith, in_use, room))

  Extended-both :
      {t1 t2 : Tree K V}
      → LastChild tree_1 t1 q node_1 i c a lc la
      → LastChild t1 t2 q node_2 (i + 1) a b (record la { parent = q; prev_leaf = c }) lb
      → Extended t t2 q n k c a b lc la lb
  Extended-both {t1} {t2} w v = record {
    node = record node_2 {
      first_child = put node_2.first_child (i + 1 + 1) b;
      num_children = node_2.num_children + 1;
    };
    here = v.parent_here;
    slots_same = refl;
    keys = refl;
    in_use = refl;
    children = omega (arith, children);
    child_slots = ap (λ (j : ℕ). put (put n.first_child j a) (j + 1) b) (sym in_use);
    previous = record {
      ne_null = ec.ne_null;
      holds = v.frame c (λ same. cc (same, e.holds, ec.holds)) c_a c_b ∙ w.left.holds;
    };
    left = v.left;
    right = v.right;
    root_same = v.root_same ∙ w.root_same;
    brk_same = v.brk_same ∙ w.brk_same;
    count_same = v.count_same ∙ w.count_same;
    head_same = v.head_same ∙ w.head_same;
    frame = λ x other_q other_c other_a other_b.
        v.frame x other_q other_a other_b ∙ w.frame x other_q other_c other_a ∙ ground arith;
  }

  put_pair :
      {t1 : Tree K V} (x : ℕ)
      → x ≡ i + 1
      → insert_inner_node_child_at p q a (pos (i + 1)) tree_1 ≡ ok (pos 0, t1)
      → (insert_inner_node_child_at p q a (pos x) >> pure (pos x)) tree_1 ≡ ok (pos (suc i), t1)
  put_pair {t1} x same run =
      let g : i + 1 ≡ suc i = omega arith in rw (same, run) (ap (λ (y : ℕ). ok (pos y, t1)) g)

  some_children : (n.num_children == 0) ≡ false
  some_children = ground (arith, children)

  inside : ltb n.num_children (nodeslots + 1) ≡ true
  inside = lt→ltb n.num_children (nodeslots + 1) (omega (arith, children, in_use, room))

  pub insert_in_parent-Extended :
      (fuel : ℕ)
      → (t' : Tree K V) × (insert_in_parent p (suc fuel) q a k b t ≡ ok (tt, t'))
        × Extended t t' q n k c a b lc la lb
  unfolding insert_in_parent
  insert_in_parent-Extended fuel =
      let (t1, run, w) = put_first in
      let (t2, go, v) = put_second w in
      let pair : insert_inner_node_pair p q k a (write q (some (inner node_0)) t)
          ≡ ok (pos (suc i), t1) =
        insert_inner_node_pair-last p node_0 k slots room small
          (Points-write p t (inner node_0) e.ne_null) ea.ne_null less
        ∙ put_pair n.slots_in_use in_use run in
      let second : insert_inner_node_child_at p q b (pos (suc i + 1)) t1 ≡ ok (pos 0, t2) =
        ap (λ (y : ℕ). insert_inner_node_child_at p q b (pos (y + 1)) t1) (omega arith) ∙ go in
      (
        t2,
        rw
            (
              insert_in_parent,
              ne→== q null e.ne_null,
              load_inner-ok e,
              inside,
              some_children,
              pair,
              second,
            )
            refl,
        Extended-both w v,
      )
