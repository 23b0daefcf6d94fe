-- ===== src/Insert/Parent/SplitInner.antt =====
-- The split of a full inner node over leaves, for a key above all others.
use ccpbtree.Base.{
  ℕ, ◌+◌, ◌-◌, ◌*◌, ◌≤◌, ◌<◌, ◌≡◌, refl, sym, ap, ◌∙◌, false, arith, put, put-same, put-other, pos,
  leb, ◌==◌, ne→==, ℤ,
}
use ccpbtree.Store.{Ptr, null, LeafNode, InnerNode, leaf, inner, Tree, Traits, ok, alloc}
use ccpbtree.Store.Points.{Points, load_inner-ok}
use ccpbtree.Inner.{insert_inner_node_child_at, insert_inner_node_key_at}
use ccpbtree.Insert.Parent.{InnerSplit, split_rounds, split_inner}
use ccpbtree.Insert.Parent.Kids.{Moved, dest}
use ccpbtree.Insert.Parent.Halving.{Halving, round_state}
use ccpbtree.Insert.Parent.Distribute.{rounds-low}
use ccpbtree.Insert.Parent.Inner.{
  node_1, tree_2, tree_4, node_4, put_old, put_low, put_key, put_high, last_frame, previous_here,
}
use ccpbtree.Insert.Parent.Kids.{child_other}
use ccpbtree.Insert.Parent.Widening.{
  Widening, start, start-Halving, half, last_place, last_child, before_last, place_eq, upper_Tail,
  right_place, InnerHalves,
}

module _ {K V : Type 0} (p : Traits K V) {t : Tree K V} {old : InnerNode K}
    {kids : ℕ → LeafNode K V} {k : K} {a b : Ptr} {la lb : LeafNode K V}
    (f : Widening p t old kids k a b la lb) where
  open p use {nodeslots, key_garbage}

  module _ {t1 : Tree K V}
      (h : Halving p f.inner_full k f.above
        (start p f)
        t1
        nodeslots
        (half p f)
        ((half p f) + 1)
        (nodeslots - ((half p f) + 1)))
      (run : split_rounds p
          (2 * old.slots_in_use + 2)
          t.brk
          (t.brk + 1)
          old
          k
          a
          b
          0
          (round_state 0 0 (key_garbage 0))
          (start p f)
        ≡ ok (
          round_state nodeslots (nodeslots - ((half p f) + 1)) (old.key_slots (half p f)),
          t1,
        )) where
    -- The calls at the place behind the loop's entries.
    at_place :
        (q c : Ptr) (t2 : Tree K V) {t3 : Tree K V} {r : ℤ}
        → insert_inner_node_child_at p q c (pos ((last_place p f) + 1)) t2 ≡ ok (r, t3)
        → insert_inner_node_child_at p q c (pos (nodeslots - ((half p f) + 1))) t2 ≡ ok (r, t3)
    at_place q c t2 go =
        ap (λ (x : ℕ). insert_inner_node_child_at p q c (pos x) t2) (place_eq p f h) ∙ go

    at_next :
        (q c : Ptr) (t2 : Tree K V) {t3 : Tree K V} {r : ℤ}
        → insert_inner_node_child_at p q c (pos ((last_place p f) + 1 + 1)) t2 ≡ ok (r, t3)
        → insert_inner_node_child_at p q c (pos (nodeslots - ((half p f) + 1) + 1)) t2 ≡ ok (r, t3)
    at_next q c t2 go =
        ap (λ (x : ℕ). insert_inner_node_child_at p q c (pos (x + 1)) t2) (place_eq p f h) ∙ go

    key_at_place :
        (q : Ptr) (t2 : Tree K V) {t3 : Tree K V} {r : ℤ}
        → insert_inner_node_key_at p q k (pos ((last_place p f) + 1)) t2 ≡ ok (r, t3)
        → insert_inner_node_key_at p q k (pos (nodeslots - ((half p f) + 1))) t2 ≡ ok (r, t3)
    key_at_place q t2 go =
        ap (λ (x : ℕ). insert_inner_node_key_at p q k (pos x) t2) (place_eq p f h) ∙ go

    last_inside : leb (nodeslots + 1) nodeslots ≡ false
    last_inside = ground arith

    low_inside : leb nodeslots h.low_node.slots_in_use ≡ false
    low_inside = ground (arith, h.low.in_use, f.inner_full.three)

    last_there : ((last_child p f) == null) ≡ false
    last_there = ne→== (last_child p f) null (f.kids_here nodeslots (omega arith)).ne_null

    some_children : (h.high_node.num_children + 1 == 0) ≡ false
    some_children = ground arith

    right_there : (b == null) ≡ false
    right_there = ne→== b null f.right.ne_null

    split_inner-run :
        {lx : LeafNode K V} (ex : Points t1 (before_last p f) (leaf lx))
        → Moved (dest p f.inner_full (nodeslots - 1)) (kids (nodeslots - 1)) lx
        → (t' : Tree K V) × (split_inner p old a k b t
            ≡ ok ((t.brk, old.key_slots (half p f), t.brk + 1), t'))
          × InnerHalves p f t'
    unfolding split_inner alloc
    split_inner-run {lx} ex mx =
        let g = upper_Tail p f h ex in
        let (t2, run_old, w) = put_old p g k in
        let (t3, run_low, v) = put_low p g k w in
        let run_key = put_key p g k w v in
        let (t5, run_high, u) = put_high p g k w v in
        let old_in = at_place (t.brk + 1) (last_child p f) t1 run_old in
        let low_in = at_place (t.brk + 1) a (tree_2 p g k w) run_low in
        let key_in = key_at_place (t.brk + 1) t3 run_key in
        let high_in = at_next (t.brk + 1) b (tree_4 p g k w v) run_high in
        let child_less : (j : ℕ) → j ≤ nodeslots → old.first_child j < t.brk =
          f.inner_full.child_old in
        let low_5 : Points t5 t.brk (inner h.low_node) = record {
          ne_null = h.low_here.ne_null;
          holds =
              last_frame p g k w v u t.brk (omega arith)
                (omega (arith, child_less (nodeslots - 1) (omega arith)))
                (omega (arith, child_less nodeslots (omega arith))) (omega (arith, f.left_old))
                (omega (arith, f.right_old))
              ∙ h.low_here.holds;
        } in
        (
          t5,
          rw
              (
                run,
                last_inside,
                last_there,
                old_in,
                load_inner-ok w.parent_here,
                some_children,
                low_in,
                key_in,
                high_in,
                right_there,
                load_inner-ok low_5,
                low_inside,
              )
              refl,
          record {
            low_node = h.low_node;
            low_here = low_5;
            low = h.low;
            high_node = record (node_4 p g k) {
              first_child = put (node_4 p g k).first_child ((last_place p f) + 1 + 1) b;
              num_children = (node_4 p g k).num_children + 1;
            };
            high_here = u.parent_here;
            high_in_use = omega (arith, h.high.in_use, f.inner_full.three);
            high_children = omega (arith, h.high.count, f.inner_full.three);
            high_keys = λ j less.
                put-other h.high_node.key_slots h.high_node.slots_in_use k j
                  (omega (arith, h.high.in_use, less))
                ∙ h.high.key_at j less;
            high_kids = λ j less.
                put-other (node_4 p g k).first_child ((last_place p f) + 1 + 1) b j
                  (omega (arith, place_eq p f h, less))
                ∙ put-other (node_1 p g k).first_child ((last_place p f) + 1) a j
                    (omega (arith, place_eq p f h, less))
                ∙ put-other h.high_node.first_child ((last_place p f) + 1) (last_child p f) j
                    (omega (arith, place_eq p f h, less))
                ∙ h.high.child_at j less;
            key_eq =
                put-same h.high_node.key_slots h.high_node.slots_in_use k
                  (nodeslots - ((half p f) + 1)) (sym h.high.in_use);
            left_at =
                put-other (node_4 p g k).first_child ((last_place p f) + 1 + 1) b
                  (nodeslots - ((half p f) + 1)) (omega (arith, place_eq p f h))
                ∙ put-same (node_1 p g k).first_child ((last_place p f) + 1) a
                    (nodeslots - ((half p f) + 1)) (place_eq p f h);
            right_at =
                put-same (node_4 p g k).first_child ((last_place p f) + 1 + 1) b
                  (nodeslots - (half p f)) (right_place p f h);
            moved = λ j less.
                let (l, el, ml) = h.kids_moved.moved j (omega (arith, less)) in
                (
                  l,
                  record {
                    ne_null = el.ne_null;
                    holds =
                        last_frame p g k w v u (old.first_child j)
                          (omega (arith, child_less j (omega arith)))
                          (child_other p f.inner_full j (nodeslots - 1) (omega arith) (omega arith)
                            (omega arith))
                          (child_other p f.inner_full j nodeslots (omega arith) (omega arith)
                            (omega arith))
                          (f.left_new j (omega arith)) (f.right_new j (omega arith))
                        ∙ el.holds;
                  },
                  ml,
                );
            previous = (lx, previous_here p g k w v u, mx);
            left_here = u.left;
            right_here = u.right;
            root_same = u.root_same ∙ v.root_same ∙ w.root_same ∙ h.kids_moved.root_same;
            brk_new = u.brk_same ∙ v.brk_same ∙ w.brk_same ∙ h.kids_moved.brk_same;
            count_same = u.count_same ∙ v.count_same ∙ w.count_same ∙ h.kids_moved.count_same;
            head_same = u.head_same ∙ v.head_same ∙ w.head_same ∙ h.kids_moved.head_same;
          },
        )

  -- `split_inner` of a full inner node of three keys or more, fewer than 65536, whose children are
  -- leaves linked forwards, with a key above all others: it returns the two new nodes and the key in
  -- the middle. The lower node has the keys and the children before that key. The upper one has those
  -- behind it, without the last child, and then the two given leaves with the new key between them.
  -- Every other leaf keeps its keys, its data and its successor and has the new node as its parent;
  -- the one before the given leaves is linked to them. The children and the given leaves stand at
  -- different addresses that were allocated before.
  pub split_inner-InnerHalves :
      (t' : Tree K V) × (split_inner p old a k b t
        ≡ ok ((t.brk, old.key_slots (half p f), t.brk + 1), t'))
      × InnerHalves p f t'
  split_inner-InnerHalves =
      let (t1, s, run, ended) =
        rounds-low p f.inner_full k f.above (start p f) a b (2 * old.slots_in_use + 2) 0
          (key_garbage 0) (omega arith) (omega (arith, f.inner_full.full)) (start-Halving p f) in
      let h = ended.halving in
      let (lx, ex, mx) = h.kids_moved.moved (nodeslots - 1) (omega (arith, f.inner_full.three)) in
      split_inner-run h (run ∙ ap (λ (x : InnerSplit K). ok (x, t1)) ended.state_eq) ex mx
