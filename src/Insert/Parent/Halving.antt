-- ===== src/Insert/Parent/Halving.antt =====
-- The rounds of the split of a full inner node over leaves, for a key above all others.
use ccpbtree.Base.{
  ℕ, ◌+◌, ◌-◌, ◌/◌, ◌≤◌, ◌<◌, ◌≡◌, ◌≢◌, refl, ap, ◌∙◌, true, false, some, arith, ltb, leb, ◌==◌,
  ◌&&◌,
}
use mathlib.Core.Path.{subst}
use ccpbtree.Store.{Ptr, LeafNode, InnerNode, Node, leaf, inner, Tree, Traits, ok, write, down16}
use ccpbtree.Store.Points.{Points, load_inner-ok, load-ok}
use ccpbtree.KeyOrder.{key_greater}
use ccpbtree.Inner.{link_leaves}
use ccpbtree.Insert.Parent.{InnerSplit, cut_middle, split_round}
use ccpbtree.Insert.Parent.Steps.{Points-write_other, link_leaves-ok}
use ccpbtree.Insert.Parent.Kids.{FullInner, Moved, Half, dest, Kids, Step, Kids-Step, child_other}
use ccpbtree.Insert.Parent.Put.{Half-more, put_entry-Placed, node', Moved-next}

-- The variables of the loop in round `i`.
abbrev pub round_state : {K : Type 0} → ℕ → ℕ → K → InnerSplit K
round_state i j mid = record { i = i; j = j; added = false; middle = mid }

module _ {K V : Type 0} (p : Traits K V) {old : InnerNode K} {kids : ℕ → LeafNode K V} {base : Ptr}
    (f : FullInner p old kids base) (k : K)
    (above : (j : ℕ) → j < old.slots_in_use → key_greater p (old.key_slots j) k ≡ false)
    (start : Tree K V) where
  open p use {nodeslots, key_garbage}

  abbrev pub half : ℕ
  half = nodeslots / 2

  -- After `i` rounds the lower node has `keys` keys of `lows` entries, the upper one the others.
  pub record Halving (t : Tree K V) (i keys lows highs : ℕ) : Type 0 where
    pub kids_moved : Kids p f start t i
    pub low_node : InnerNode K
    pub low_here : Points t base (inner low_node)
    pub low : Half p old 0 keys lows low_node
    pub high_node : InnerNode K
    pub high_here : Points t (base + 1) (inner high_node)
    pub high : Half p old (half + 1) highs highs high_node

  pub not_new : (i : ℕ) → i < nodeslots → (key_greater p (old.key_slots i) k && (i == i)) ≡ false
  not_new i inside = rw (above i (omega (arith, f.full, inside))) refl

  -- A write to one of the new nodes leaves the other.
  pub other_node :
      {t t' : Tree K V} {i : ℕ} {q x : Ptr} {c : Node K V}
      → Step p f t t' q i
      → i ≤ nodeslots
      → base ≤ x
      → x ≢ q
      → Points t x c
      → Points t' x c
  other_node {i = i} v inside le other e = record {
    ne_null = e.ne_null;
    holds =
        v.frame _ other (omega (arith, f.child_old i inside, le))
          (λ j last. omega (arith, f.child_old j (omega arith), le))
        ∙ e.holds;
  }

  module _ {t : Tree K V} {i : ℕ} (n n' : Ptr) (mid : K) where
    -- A round before the cut.
    pub round-low :
        Halving t i i i 0
        → i < half + 1
        → (t' : Tree K V) × (split_round p base (base + 1) old k n n' i (round_state i 0 mid) t
            ≡ ok (round_state i 0 mid, t'))
          × Halving t' (i + 1) (i + 1) (i + 1) 0
    unfolding split_round
    round-low h before =
        let inside : i < nodeslots = omega (arith, before, f.three) in
        let at : dest p f i ≡ base = ground (arith, before) in
        let sum : 0 + i ≡ i = omega arith in
        let (t', run, v) = put_entry-Placed p f h.kids_moved inside at h.low_here h.low sum in
        let first : (ltb i (old.slots_in_use / 2 + 1) && (i == i)) ≡ true =
          ground (arith, f.full, before) in
        let second : ltb (old.slots_in_use / 2) i ≡ false = ground (arith, f.full, before) in
        let cut : (i == old.slots_in_use / 2 + 1) ≡ false = ground (arith, f.full, before) in
        (
          t',
          rw (not_new i inside, first, run, second, cut) refl,
          record {
            kids_moved =
                Kids-Step p f h.kids_moved (omega arith) (omega arith) v.step (omega arith)
                  (omega arith) (omega arith);
            low_node = node' p f h.kids_moved inside at h.low_here h.low sum;
            low_here = v.here;
            low = Half-more p f h.kids_moved inside at h.low_here h.low sum;
            high_node = h.high_node;
            high_here = other_node v.step (omega arith) (omega arith) (omega arith) h.high_here;
            high = h.high;
          },
        )

    -- A round behind the cut.
    pub round-high :
        Halving t i half (half + 1) (i - (half + 1))
        → half + 1 < i
        → i < nodeslots
        → (t' : Tree K V) × (split_round p base
              (base + 1)
              old
              k
              n
              n'
              i
              (round_state i (i - (half + 1)) mid)
              t
            ≡ ok (round_state i (i - (half + 1) + 1) mid, t'))
          × Halving t' (i + 1) half (half + 1) (i - (half + 1) + 1)
    unfolding split_round
    round-high h behind inside =
        let at : dest p f i ≡ base + 1 = ground (arith, behind) in
        let sum : half + 1 + (i - (half + 1)) ≡ i = omega arith in
        let (t', run, v) = put_entry-Placed p f h.kids_moved inside at h.high_here h.high sum in
        let first : (ltb i (old.slots_in_use / 2 + 1) && (i == i)) ≡ false =
          ground (arith, f.full, behind) in
        let second : ltb (old.slots_in_use / 2) i ≡ true = ground (arith, f.full, behind) in
        let cut : (i == old.slots_in_use / 2 + 1) ≡ false = ground (arith, f.full, behind) in
        (
          t',
          rw (not_new i inside, first, second, run, cut) refl,
          record {
            kids_moved =
                Kids-Step p f h.kids_moved (omega arith) (omega arith) v.step (omega arith)
                  (omega arith) (omega arith);
            low_node = h.low_node;
            low_here = other_node v.step (omega arith) (omega arith) (omega arith) h.low_here;
            low = h.low;
            high_node = node' p f h.kids_moved inside at h.high_here h.high sum;
            high_here = v.here;
            high = Half-more p f h.kids_moved inside at h.high_here h.high sum;
          },
        )

  -- The cut takes the middle key out of the lower node, and links the leaves on either side of it.
  module _ {t : Tree K V} {m : InnerNode K} (w : Kids p f start t (half + 1 + 1))
      (e : Points t base (inner m)) (h : Half p old 0 (half + 1) (half + 1) m) where
    abbrev pub cut_node : InnerNode K
    cut_node = record m { slots_in_use = down16 m.slots_in_use }

    pub Half-cut : Half p old 0 half (half + 1) cut_node
    Half-cut = record {
      slots_eq = h.slots_eq;
      in_use = omega (arith, h.in_use, f.small);
      count = h.count;
      key_at = λ j less. h.key_at j (omega arith);
      child_at = h.child_at;
    }

    pub cut_middle-Step :
        (s : InnerSplit K)
        → (t' : Tree K V) × (cut_middle p base old (half + 1) s t
            ≡ ok (record s { middle = m.key_slots (half + 1 - 1) }, t'))
          × Points t' base (inner cut_node)
          × Step p f t t' base (half + 1)
    unfolding cut_middle
    cut_middle-Step s =
        let (la, ea, ma) = w.moved half (omega arith) in
        let (lb, eb, mb) = w.moved (half + 1) (omega arith) in
        let t1 : Tree K V = write base (some (inner cut_node)) t in
        let ea1 : Points t1 (old.first_child half) (leaf la) =
          Points-write_other p (some (inner cut_node)) ea
            (omega (arith, f.child_old half (omega arith))) in
        let eb1 : Points t1 (old.first_child (half + 1)) (leaf lb) =
          Points-write_other p (some (inner cut_node)) eb
            (omega (arith, f.child_old (half + 1) (omega (arith, f.three)))) in
        let different : old.first_child half ≢ old.first_child (half + 1) =
          child_other p f half (half + 1) (omega arith) (omega (arith, f.three)) (omega arith) in
        let back : half + 1 - 1 ≡ half = omega arith in
        let inside : leb nodeslots (half + 1 - 1) ≡ false = ground (arith, f.three) in
        let inside_c : leb (nodeslots + 1) (half + 1) ≡ false = ground (arith, f.three) in
        let inside_q : leb (nodeslots + 1) (half + 1 - 1) ≡ false = ground (arith, f.three) in
        let t3 : Tree K V =
          write (old.first_child half)
            (some (leaf (record la { next_leaf = old.first_child (half + 1) })))
            (write (old.first_child (half + 1))
              (some (leaf (record lb { prev_leaf = old.first_child half }))) t1) in
        let a_base : base ≢ old.first_child half = omega (arith, f.child_old half (omega arith)) in
        let b_base : base ≢ old.first_child (half + 1) =
          omega (arith, f.child_old (half + 1) (omega (arith, f.three))) in
        let linked : link_leaves p (old.first_child (half + 1 - 1)) (old.first_child (half + 1)) t1
            ≡ ok (tt, t3) =
          ap (λ (x : ℕ). link_leaves p (old.first_child x) (old.first_child (half + 1)) t1) back
          ∙ link_leaves-ok p ea1 eb1 different in
        (
          t3,
          rw (load_inner-ok e, inside, inside_c, load-ok eb1, inside_q, linked) refl,
          record { ne_null = e.ne_null; holds = ground (arith, a_base, b_base) },
          record {
            child = (
              record lb { prev_leaf = old.first_child half },
              record { ne_null = eb.ne_null; holds = ground (arith, different) },
              ap (λ (y : LeafNode K V). record y { prev_leaf = old.first_child half }) mb,
            );
            before = λ j last.
                let same : half ≡ j = omega arith in
                subst
                  (λ (x : ℕ).
                    (l' : LeafNode K V) × Points t3 (old.first_child x) (leaf l')
                    × Moved (dest p f x) (kids x) l')
                  same
                  (
                    record la { next_leaf = old.first_child (half + 1) },
                    record { ne_null = ea.ne_null; holds = ground arith },
                    Moved-next p f (dest p f half) (kids half) la (old.first_child (half + 1)) ma
                        (f.next half (omega arith)),
                  );
            root_same = refl;
            brk_same = refl;
            count_same = refl;
            head_same = refl;
            frame = λ x other_q other_child other_before.
                ground (arith, other_q, other_child, other_before half (omega arith));
          },
        )
