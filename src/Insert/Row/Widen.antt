-- ===== src/Insert/Row/Widen.antt =====
-- The row after the split of its last leaf has one leaf more.
use ccpbtree.Base.{
  suc, none, [], ◌∷◌, ◌++◌, ℕ, pos, ◌/◌, ◌+◌, ◌-◌, ◌<◌, ◌≡◌, refl, sym, ap, ◌∙◌, ◌⊎◌, ◌↔◌, arith,
  ◌%◌, ◌^◌,
}
use mathlib.Core.Path.{subst}
use ccpbtree.Insert.{insert}
use ccpbtree.Store.{ok, Ptr, null, LeafNode, InnerNode, inner, Tree, Traits}
use ccpbtree.Store.Points.{Points}
use ccpbtree.Store.Points.{Keeps}
use ccpbtree.KeyOrder.{IsTotal}
use ccpbtree.Insert.Row.Keys.{keys_after}
use ccpbtree.Insert.Row.Held.{InRow-wider, keys-wider}
use ccpbtree.Insert.Halved.{halved-old}
use ccpbtree.Leaf.Keys.{IsLeaf, IsStrict}
use ccpbtree.Insert.Split.{LeafSplit}
use ccpbtree.Insert.Split.Full.{middle-last, middle, Part-IsStrict}
use ccpbtree.Insert.Row.{Row, InRow}
use ccpbtree.Insert.Row.Split.{
  FullRow, Widened, last_FullLeaf, insert-Widened, last_here, fresh, some_slots,
}
use ccpbtree.Insert.Row.Wider.{
  wider, wider_tree, high_leaf, node, wider-all, bounds, children-all, root_same, brk_new,
  wider-here, wider-leaf, wider-apart, wider-next, wider-below, wider-separator,
}

module _ {K V : Type 0} (p : Traits K V) (o : IsTotal p) {t : Tree K V} {i : ℕ} {n : InnerNode K}
    {leaves : ℕ → LeafNode K V} {k : K} (f : FullRow p t i n leaves k) {d : V} {s : LeafSplit K V}
    {before : Tree K V} (w : Widened p o f d s before) where
  open p use {keyless, leafslots, nodeslots}

  pub Row-wider : Row p (wider_tree p o f w) (i + 1 + 1) (node p o f w) (wider p o f w)
  Row-wider = record {
    here =
        subst (λ (q : Ptr). Points (wider_tree p o f w) q (inner (node p o f w)))
          (sym (root_same p o f w)) (wider-here p o f w);
    slots_eq = w.wide.slots_same ∙ f.row.slots_eq;
    in_use = w.wide.in_use ∙ ap (λ (x : ℕ). x + 1) f.row.in_use;
    children = w.wide.children ∙ ap (λ (x : ℕ). x + 1) f.row.children;
    some_keys = omega arith;
    fits = omega (arith, f.room);
    root_old = omega (arith, (root_same p o f w), (brk_new p o f w), f.row.root_old);
    spare = omega (arith, brk_new p o f w, f.row.spare);
    leaf_here = wider-leaf p o f w;
    old =
        children-all p o f w (λ j x. x < before.brk)
          (λ j h. omega (arith, (brk_new p o f w), f.row.old j (omega arith)))
          (omega (arith, (brk_new p o f w))) (omega (arith, (brk_new p o f w)));
    apart = wider-apart p o f w;
    parent =
        wider-all p o f w (λ j x. x.parent ≡ before.root)
          (λ j h. f.row.parent j (omega arith) ∙ sym (root_same p o f w))
          (f.row.parent i (omega arith) ∙ sym (root_same p o f w)) (sym (root_same p o f w))
          (sym (root_same p o f w));
    next = λ j h. wider-next p o f w j (omega arith) h;
    last =
        wider-all p o f w (λ j x. j ≡ i + 1 + 1 → x.next_leaf ≡ null)
          (λ j h e. absurd (omega arith)) (λ e. absurd (omega arith)) (λ e. absurd (omega arith))
          (λ e. w.high.next_null) (i + 1 + 1) (omega arith) refl;
    valid =
        wider-all p o f w (λ j x. IsLeaf p x) (λ j h. f.row.valid j (omega arith))
          (record {
            slots_eq = (f.row.valid i (omega arith)).slots_eq;
            in_use_le = (f.row.valid i (omega arith)).in_use_le;
            small = f.small;
          })
          (record {
            slots_eq = w.low.slots_eq;
            in_use_le = omega (arith, w.low.in_use, (bounds p o f w));
            small = f.small;
          })
          (record {
            slots_eq = w.high.slots_eq;
            in_use_le = omega (arith, w.high.in_use, (bounds p o f w));
            small = f.small;
          });
    used =
        wider-all p o f w (λ j x. 0 < x.slots_in_use) (λ j h. f.row.used j (omega arith))
          (f.row.used i (omega arith)) (omega (arith, w.low.in_use, (bounds p o f w)))
          (omega (arith, w.high.in_use, (bounds p o f w)));
    strict =
        wider-all p o f w (λ j x. IsStrict p x) (λ j h. f.row.strict j (omega arith))
          (f.row.strict i (omega arith))
          (Part-IsStrict p o (last_FullLeaf p o f) w.low (omega (arith, (bounds p o f w))))
          (Part-IsStrict p o (last_FullLeaf p o f) w.high (omega (arith, (bounds p o f w))));
    below = λ j h. wider-below p o f w j (omega arith) h;
    separator = λ j h. wider-separator p o f w (j + 1) (omega arith) j refl;
  }

  gone-before : (x : Ptr) → x < t.brk → t.heap x ≡ none → before.heap x ≡ none
  gone-before x old none_there =
      w.wide.frame x (λ e. cc (e, none_there, f.row.here.holds))
        (λ e. cc (e, none_there, (f.row.leaf_here i (omega arith)).holds)) (omega (arith, old))
        (omega (arith, old))
      ∙ halved-old p k d (last_here p o f) (fresh p o f) (some_slots p o f) s w.run x old
      ∙ none_there

  Keeps-wider : Keeps t (wider_tree p o f w)
  Keeps-wider = record {
    head_same = w.wide.head_same;
    brk_le = omega (arith, brk_new p o f w);
    gone = λ x old none_there. ground (arith, gone-before x old none_there);
  }

module _ {K V : Type 0} (p : Traits K V) (o : IsTotal p) {t : Tree K V} {i : ℕ} {n : InnerNode K}
    {leaves : ℕ → LeafNode K V} {k : K} (f : FullRow p t i n leaves k) where
  open p use {leafslots}

  pub insert-Widen :
      (d : V)
      → (t' : Tree K V) × (n' : InnerNode K) × (leaves' : ℕ → LeafNode K V) × (insert p k d t
          ≡ ok (pos 1, t'))
        × Row p t' (i + 1 + 1) n' leaves'
        × ((a : K) (v : V)
            → InRow leaves' (i + 1 + 1) a v ↔ (((a ≡ k) × (v ≡ d)) ⊎ InRow leaves (i + 1) a v))
        × ((leaves' (i + 1 + 1)).slots_in_use ≡ leafslots + 1 - leafslots / 2)
        × (keys_after p leaves' 0 (suc (i + 1 + 1)) ≡ keys_after p leaves 0 (suc (i + 1)) ++ k ∷ [])
        × Keeps t t'
        × (t'.total_key_count ≡ (t.total_key_count + 1) % 2 ^ 32)
  insert-Widen d =
      let (before, s, run, w) = insert-Widened p o f d in
      let cut_at : middle p o (last_FullLeaf p o f) ≡ leafslots / 2 =
        middle-last p o (last_FullLeaf p o f) (f.above (i + 1) (omega arith)) in
      let last : wider p o f w (i + 1 + 1) ≡ high_leaf p o f w = ground arith in
      (
        wider_tree p o f w,
        node p o f w,
        wider p o f w,
        run,
        Row-wider p o f w,
        InRow-wider p o f w,
        ap (λ (x : LeafNode K V). x.slots_in_use) last
            ∙ w.high.in_use
            ∙ ap (λ (x : ℕ). (leaves (i + 1)).slots_in_use + 1 - x) cut_at
            ∙ ap (λ (x : ℕ). x + 1 - leafslots / 2) f.full,
        keys-wider p o f w,
        Keeps-wider p o f w,
        w.wide.count_same,
      )
