-- ===== src/Insert/Parent/Inner.antt =====
-- The split of a full inner node over leaves, for a key above all others: the entries behind the loop.
use ccpbtree.Base.{ℕ, ◌+◌, ◌-◌, ◌<◌, ◌≡◌, ◌≢◌, sym, ap, ◌∙◌, some, arith, put, pos}
use ccpbtree.Store.{Ptr, LeafNode, InnerNode, leaf, inner, Tree, Traits, ok, write}
use ccpbtree.Store.Points.{Points}
use ccpbtree.Inner.{insert_inner_node_child_at, insert_inner_node_key_at}
use ccpbtree.Insert.Parent.Steps.{Points-write_other, Points-write, insert_inner_node_key_at-last}
use ccpbtree.Insert.Parent.Last.{LastChild, child_at-LastChild}

-- The upper node `q` ends with the leaf `x`. Behind it, at the place `j + 1`, the old leaf `c` is put
-- and replaced by the leaf `a`; then the key and the leaf `b` follow.
pub record Tail {K V : Type 0} (p : Traits K V) (t : Tree K V) (q x c a b : Ptr) (m : InnerNode K)
    (lx lc la lb : LeafNode K V) (j : ℕ) : Type 0 where
  pub node_here : Points t q (inner m)
  pub x_here : Points t x (leaf lx)
  pub c_here : Points t c (leaf lc)
  pub a_here : Points t a (leaf la)
  pub b_here : Points t b (leaf lb)
  pub x_c : x ≢ c
  pub x_a : x ≢ a
  pub x_b : x ≢ b
  pub c_a : c ≢ a
  pub c_b : c ≢ b
  pub a_b : a ≢ b
  pub at : m.first_child j ≡ x
  pub in_use : m.slots_in_use ≡ j + 1
  pub children : m.num_children ≡ j + 1
  pub slots : m.slots ≡ p.nodeslots
  pub room : j + 1 < p.nodeslots
  pub small : p.nodeslots < 65536

module _ {K V : Type 0} (p : Traits K V) {t : Tree K V} {q x c a b : Ptr} {m : InnerNode K}
    {lx lc la lb : LeafNode K V} {j : ℕ} (g : Tail p t q x c a b m lx lc la lb j) (k : K) where
  open p use {nodeslots}

  leaf_other : {y : Ptr} {l : LeafNode K V} → Points t y (leaf l) → y ≢ q
  leaf_other ey same = cc (same, g.node_here.holds, ey.holds)

  -- After the first leaf.
  abbrev pub node_1 : InnerNode K
  node_1 = record m { first_child = put m.first_child (j + 1) c; num_children = m.num_children + 1 }

  abbrev pub node_2 : InnerNode K
  node_2 = record node_1 { num_children = node_1.num_children - 1 }

  abbrev pub node_3 : InnerNode K
  node_3 = record node_2 {
    first_child = put node_2.first_child (j + 1) a;
    num_children = node_2.num_children + 1;
  }

  abbrev pub node_4 : InnerNode K
  node_4 = record node_3 {
    key_slots = put m.key_slots m.slots_in_use k;
    slots_in_use = m.slots_in_use + 1;
  }

  pub put_old :
      (t' : Tree K V) × (insert_inner_node_child_at p q c (pos (j + 1)) t ≡ ok (pos 0, t'))
      × LastChild t t' q m j x c lx lc
  put_old =
      child_at-LastChild p j g.node_here g.x_here g.c_here g.x_c g.at g.children g.slots
        (omega (arith, g.room))

  module _ {t1 : Tree K V} (w : LastChild t t1 q m j x c lx lc) where
    abbrev pub tree_2 : Tree K V
    tree_2 = write q (some (inner node_2)) t1

    kept :
        {y : Ptr} {l : LeafNode K V}
        → Points t y (leaf l)
        → y ≢ x
        → y ≢ c
        → Points tree_2 y (leaf l)
    kept {y} {l} ey not_x not_c =
        let e1 : Points t1 y (leaf l) = record {
          ne_null = ey.ne_null;
          holds = w.frame y (leaf_other ey) not_x not_c ∙ ey.holds;
        } in
        Points-write_other p (some (inner node_2)) e1 (leaf_other ey)

    pub put_low :
        (t' : Tree K V) × (insert_inner_node_child_at p q a (pos (j + 1)) tree_2 ≡ ok (pos 0, t'))
        × LastChild tree_2 t' q node_2 j x a (record lx { next_leaf = c }) la
    put_low =
        child_at-LastChild p j (Points-write p t1 (inner node_2) g.node_here.ne_null)
          (Points-write_other p (some (inner node_2)) w.left (leaf_other g.x_here))
          (kept g.a_here (λ s. g.x_a (sym s)) (λ s. g.c_a (sym s))) g.x_a (ground (arith, g.at))
          (omega (arith, g.children)) g.slots (omega (arith, g.room))

    module _ {t3 : Tree K V}
        (v : LastChild tree_2 t3 q node_2 j x a (record lx { next_leaf = c }) la) where
      abbrev pub tree_4 : Tree K V
      tree_4 = write q (some (inner node_4)) t3

      pub put_key : insert_inner_node_key_at p q k (pos (j + 1)) t3 ≡ ok (pos 1, tree_4)
      put_key =
          ap (λ (i : ℕ). insert_inner_node_key_at p q k (pos i) t3) (sym g.in_use)
          ∙ insert_inner_node_key_at-last p node_3 k g.slots (omega (arith, g.in_use, g.room))
              g.small v.parent_here

      other_kept :
          {y : Ptr} {l : LeafNode K V}
          → Points t y (leaf l)
          → y ≢ x
          → y ≢ c
          → y ≢ a
          → t3.heap y ≡ some (leaf l)
      other_kept {y} ey not_x not_c not_a =
          v.frame y (leaf_other ey) not_x not_a ∙ (kept ey not_x not_c).holds

      pub put_high :
          (t' : Tree K V) × (insert_inner_node_child_at p q b (pos (j + 1 + 1)) tree_4
            ≡ ok (pos 0, t'))
          × LastChild tree_4 t' q node_4 (j + 1) a b (record la { parent = q; prev_leaf = x }) lb
      put_high =
          child_at-LastChild p (j + 1) (Points-write p t3 (inner node_4) g.node_here.ne_null)
            (Points-write_other p (some (inner node_4)) v.right (leaf_other g.a_here))
            (Points-write_other p (some (inner node_4))
              (record {
                ne_null = g.b_here.ne_null;
                holds =
                    other_kept g.b_here (λ s. g.x_b (sym s)) (λ s. g.c_b (sym s))
                      (λ s. g.a_b (sym s));
              })
              (leaf_other g.b_here))
            g.a_b (ground arith) (omega (arith, g.children)) g.slots (omega (arith, g.room))

      module _ {t5 : Tree K V}
          (u : LastChild tree_4 t5 q node_4
            (j + 1)
            a
            b
            (record la { parent = q; prev_leaf = x })
            lb) where
        pub last_frame : (y : Ptr) → y ≢ q → y ≢ x → y ≢ c → y ≢ a → y ≢ b → t5.heap y ≡ t.heap y
        last_frame y not_q not_x not_c not_a not_b =
            let four : tree_4.heap y ≡ t3.heap y = ground (arith, not_q) in
            let two : tree_2.heap y ≡ t1.heap y = ground (arith, not_q) in
            u.frame y not_q not_a not_b
            ∙ four
            ∙ v.frame y not_q not_x not_a
            ∙ two
            ∙ w.frame y not_q not_x not_c

        pub previous_here : Points t5 x (leaf (record lx { next_leaf = a }))
        previous_here = record {
          ne_null = g.x_here.ne_null;
          holds =
              u.frame x (leaf_other g.x_here) g.x_a g.x_b
              ∙ (Points-write_other p (some (inner node_4)) v.left (leaf_other g.x_here)).holds;
        }
