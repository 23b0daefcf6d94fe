-- ===== src/Insert/Parent/Widening.antt =====
-- A full inner node over leaves at whose end a split puts two new leaves, and its two halves.
use ccpbtree.Base.{
  ℕ, ◌+◌, ◌-◌, ◌/◌, ◌≤◌, ◌<◌, ◌≡◌, ◌≢◌, refl, sym, ap, ◌∙◌, false, some, arith, put,
}
use ccpbtree.Store.{Ptr, LeafNode, InnerNode, Node, leaf, inner, Tree, Traits}
use ccpbtree.Store.Points.{Points}
use ccpbtree.KeyOrder.{key_greater}
use ccpbtree.Inner.{new_inner}
use ccpbtree.Insert.Parent.Kids.{FullInner, Half, Moved, dest}
use ccpbtree.Insert.Parent.Halving.{Halving}
use ccpbtree.Insert.Parent.Inner.{Tail}

-- A full node over leaves, at the end of which the leaf `b` is to follow the leaf `a`, which replaces
-- the last child.
pub record Widening {K V : Type 0} (p : Traits K V) (t : Tree K V) (old : InnerNode K)
    (kids : ℕ → LeafNode K V) (k : K) (a b : Ptr) (la lb : LeafNode K V) : Type 0 where
  pub inner_full : FullInner p old kids t.brk
  pub kids_here : (j : ℕ) → j ≤ p.nodeslots → Points t (old.first_child j) (leaf (kids j))
  pub left : Points t a (leaf la)
  pub right : Points t b (leaf lb)
  pub left_old : a < t.brk
  pub right_old : b < t.brk
  pub apart : a ≢ b
  pub left_new : (j : ℕ) → j ≤ p.nodeslots → old.first_child j ≢ a
  pub right_new : (j : ℕ) → j ≤ p.nodeslots → old.first_child j ≢ b
  pub above : (j : ℕ) → j < old.slots_in_use → key_greater p (old.key_slots j) k ≡ false

module _ {K V : Type 0} (p : Traits K V) {t : Tree K V} {old : InnerNode K}
    {kids : ℕ → LeafNode K V} {k : K} {a b : Ptr} {la lb : LeafNode K V}
    (f : Widening p t old kids k a b la lb) where
  open p use {nodeslots, key_garbage}

  -- The tree with the two new nodes.
  abbrev pub start : Tree K V
  start = record t {
    heap =
        put (put t.heap t.brk (some (inner (new_inner p)))) (t.brk + 1)
          (some (inner (new_inner p)));
    brk = t.brk + 1 + 1;
  }

  start_old : {x : Ptr} {c : Node K V} → x < t.brk → Points t x c → Points start x c
  start_old less e = record { ne_null = e.ne_null; holds = ground (arith, e.holds, less) }

  pub start-Halving : Halving p f.inner_full k f.above start start 0 0 0 0
  unfolding new_inner
  start-Halving = record {
    kids_moved = record {
      moved = λ j less. absurd (omega arith);
      rest = λ j le h. start_old (f.inner_full.child_old j h) (f.kids_here j h);
      root_same = refl;
      brk_same = refl;
      count_same = refl;
      head_same = refl;
      frame = λ x not_low not_high others. refl;
    };
    low_node = new_inner p;
    low_here = record { ne_null = omega (arith, f.left_old); holds = ground arith };
    low = record {
      slots_eq = refl;
      in_use = refl;
      count = refl;
      key_at = λ j less. absurd (omega arith);
      child_at = λ j less. absurd (omega arith);
    };
    high_node = new_inner p;
    high_here = record { ne_null = omega (arith, f.left_old); holds = ground arith };
    high = record {
      slots_eq = refl;
      in_use = refl;
      count = refl;
      key_at = λ j less. absurd (omega arith);
      child_at = λ j less. absurd (omega arith);
    };
  }

  -- The place behind the entries that the loop puts into the upper node, less one.
  abbrev pub half : ℕ
  half = nodeslots / 2

  abbrev pub last_place : ℕ
  last_place = nodeslots - (half + 1) - 1

  abbrev pub last_child : Ptr
  last_child = old.first_child nodeslots

  abbrev pub before_last : Ptr
  before_last = old.first_child (nodeslots - 1)

  module _ {t1 : Tree K V}
      (h : Halving p f.inner_full k f.above start t1 nodeslots half
        (half + 1)
        (nodeslots - (half + 1))) where
    high_last : h.high_node.first_child last_place ≡ before_last
    high_last =
        h.high.child_at last_place (omega (arith, f.inner_full.three))
        ∙ ap old.first_child (omega (arith, f.inner_full.three))

    new_leaf_kept :
        {x : Ptr} {l : LeafNode K V}
        → Points t x (leaf l)
        → x < t.brk
        → ((j : ℕ) → j ≤ nodeslots → old.first_child j ≢ x)
        → Points t1 x (leaf l)
    new_leaf_kept {x} e less other = record {
      ne_null = e.ne_null;
      holds =
          h.kids_moved.frame x (omega (arith, less)) (omega (arith, less))
            (λ j le same. other j le (sym same))
          ∙ (start_old less e).holds;
    }

    pub place_eq : nodeslots - (half + 1) ≡ last_place + 1
    place_eq = omega (arith, f.inner_full.three)

    pub upper_Tail :
        {lx : LeafNode K V}
        → Points t1 before_last (leaf lx)
        → Tail p t1
            (t.brk + 1)
            before_last
            last_child
            a
            b
            h.high_node
            lx
            (kids nodeslots)
            la
            lb
            last_place
    upper_Tail ex = record {
      node_here = h.high_here;
      x_here = ex;
      c_here = h.kids_moved.rest nodeslots (omega arith) (omega arith);
      a_here = new_leaf_kept f.left f.left_old f.left_new;
      b_here = new_leaf_kept f.right f.right_old f.right_new;
      x_c = λ same. absurd (
          omega (
            arith,
            f.inner_full.three,
            f.inner_full.apart (nodeslots - 1) nodeslots (omega arith) (omega arith) same,
          ));
      x_a = f.left_new (nodeslots - 1) (omega arith);
      x_b = f.right_new (nodeslots - 1) (omega arith);
      c_a = f.left_new nodeslots (omega arith);
      c_b = f.right_new nodeslots (omega arith);
      a_b = f.apart;
      at = high_last;
      in_use = h.high.in_use ∙ place_eq;
      children = h.high.count ∙ place_eq;
      slots = h.high.slots_eq;
      room = omega (arith, f.inner_full.three);
      small = f.inner_full.small;
    }

    pub right_place : nodeslots - half ≡ last_place + 1 + 1
    right_place = omega (arith, f.inner_full.three)

  -- The tree after the split: the lower node keeps half of the keys, the key behind them goes up, and
  -- the upper node gets the others, with the new key and the two leaves at its end.
  pub record InnerHalves (t' : Tree K V) : Type 0 where
    pub low_node : InnerNode K
    pub low_here : Points t' t.brk (inner low_node)
    pub low : Half p old 0 half (half + 1) low_node
    pub high_node : InnerNode K
    pub high_here : Points t' (t.brk + 1) (inner high_node)
    pub high_in_use : high_node.slots_in_use ≡ nodeslots - half
    pub high_children : high_node.num_children ≡ nodeslots - half + 1
    pub high_keys :
        (j : ℕ) → j < nodeslots - (half + 1) → high_node.key_slots j ≡ old.key_slots (half + 1 + j)
    pub high_kids :
        (j : ℕ)
        → j < nodeslots - (half + 1)
        → high_node.first_child j ≡ old.first_child (half + 1 + j)
    pub key_eq : high_node.key_slots (nodeslots - (half + 1)) ≡ k
    pub left_at : high_node.first_child (nodeslots - (half + 1)) ≡ a
    pub right_at : high_node.first_child (nodeslots - half) ≡ b
    pub moved :
        (j : ℕ)
        → j < nodeslots - 1
        → (l : LeafNode K V) × Points t' (old.first_child j) (leaf l)
          × Moved (dest p f.inner_full j) (kids j) l
    pub previous :
        (l : LeafNode K V) × Points t' before_last (leaf (record l { next_leaf = a }))
        × Moved (dest p f.inner_full (nodeslots - 1)) (kids (nodeslots - 1)) l
    pub left_here :
        Points t' a
          (leaf (record la { parent = t.brk + 1; prev_leaf = before_last; next_leaf = b }))
    pub right_here : Points t' b (leaf (record lb { parent = t.brk + 1; prev_leaf = a }))
    pub root_same : t'.root ≡ t.root
    pub brk_new : t'.brk ≡ t.brk + 1 + 1
    pub count_same : t'.total_key_count ≡ t.total_key_count
    pub head_same : t'.head_leaf ≡ t.head_leaf
