-- ===== src/Insert/Row/Split.antt =====
-- `insert` of a key above all others into a row whose last leaf is full: the run of the split.
use ccpbtree.Base.{ℕ, suc, ◌+◌, ◌-◌, ◌≤◌, ◌<◌, ◌≡◌, refl, ap, ◌∙◌, true, none, arith, pos}
use native.Mathlib.Decide.{dec_lt}
use ccpbtree.Store.{Ptr, LeafNode, InnerNode, Node, leaf, Tree, Traits, ok, write}
use ccpbtree.Store.Points.{Points}
use ccpbtree.KeyOrder.{IsTotal, asymmetric}
use ccpbtree.Insert.{insert}
use ccpbtree.Insert.Halved.{
  halved, low_here, high_here, halved-old, insert-insert_split, insert_split-climb,
}
use ccpbtree.Insert.Split.{LeafSplit, split_leaf}
use ccpbtree.Insert.Split.Parts.{Part}
use ccpbtree.Insert.Split.Halves.{split_leaf-Part}
use ccpbtree.Insert.Split.Full.{
  FullLeaf, FullLeaf-Split, place, middle, middle_bounds, Part-first, low_below,
}
use ccpbtree.Insert.Parent.{insert_in_parent}
use ccpbtree.Insert.Parent.Last.{Extended, insert_in_parent-Extended}
use ccpbtree.Insert.Row.{Row, find-Row, separators}

-- The last leaf of a row is full, the root is not, and the key is above all others.
pub record FullRow {K V : Type 0} (p : Traits K V) (t : Tree K V) (i : ℕ) (n : InnerNode K)
    (leaves : ℕ → LeafNode K V) (k : K) : Type 0 where
  pub row : Row p t (i + 1) n leaves
  pub above :
      (j : ℕ)
      → j ≤ i + 1
      → (a : ℕ) → a < (leaves j).slots_in_use
      → p.keyless ((leaves j).key_slots a) k ≡ true
  pub full : (leaves (i + 1)).slots_in_use ≡ p.leafslots
  pub two : 1 < p.leafslots
  pub small : p.leafslots < 65536
  pub slots_same : p.leafslots ≡ p.nodeslots
  pub room : i + 1 < p.nodeslots

module _ {K V : Type 0} (p : Traits K V) (o : IsTotal p) {t : Tree K V} {i : ℕ} {n : InnerNode K}
    {leaves : ℕ → LeafNode K V} {k : K} (f : FullRow p t i n leaves k) where
  open p use {keyless, leafslots, nodeslots}

  pub last_FullLeaf : FullLeaf p (leaves (i + 1)) k
  last_FullLeaf = record {
    small = f.small;
    full = f.full;
    two = f.two;
    strict = f.row.strict (i + 1) (omega arith);
    first = f.above (i + 1) (omega arith) 0 (f.row.used (i + 1) (omega arith));
    absent = λ a inside e. cc (f.above (i + 1) (omega arith) a inside, e, o.irreflexive k);
  }

  pub last_here : Points t (n.first_child (i + 1)) (leaf (leaves (i + 1)))
  last_here = f.row.leaf_here (i + 1) (omega arith)

  pub fresh : n.first_child (i + 1) < t.brk
  fresh = f.row.old (i + 1) (omega arith)

  pub some_slots : 0 < leafslots
  some_slots = omega (arith, f.two)

  -- The tree before the old leaf is freed, with the halves behind the leaf `i`.
  pub record Widened (d : V) (s : LeafSplit K V) (before : Tree K V) : Type 0 where
    pub run : split_leaf p (leaves (i + 1)) k d ≡ ok s
    pub wide :
        Extended
          (halved p k d last_here fresh some_slots s run)
          before
          t.root
          n
          (s.high.key_slots 0)
          (n.first_child i)
          t.brk
          (t.brk + 1)
          (leaves i)
          (record s.low { next_leaf = t.brk + 1 })
          (record s.high { prev_leaf = t.brk })
    pub low :
        Part p (leaves (i + 1)) k d (place p o last_FullLeaf) 0 (middle p o last_FullLeaf) s.low
    pub high :
        Part p
          (leaves (i + 1))
          k
          d
          (place p o last_FullLeaf)
          (middle p o last_FullLeaf)
          ((leaves (i + 1)).slots_in_use + 1 - middle p o last_FullLeaf)
          s.high

  module _ {d : V} (s : LeafSplit K V)
      (low : Part p
        (leaves (i + 1))
        k
        d
        (place p o last_FullLeaf)
        0
        (middle p o last_FullLeaf)
        s.low)
      (high : Part p
        (leaves (i + 1))
        k
        d
        (place p o last_FullLeaf)
        (middle p o last_FullLeaf)
        ((leaves (i + 1)).slots_in_use + 1 - middle p o last_FullLeaf)
        s.high) where
    last_separator : keyless (n.key_slots i) (s.high.key_slots 0) ≡ true
    last_separator =
        rw (f.row.separator i (omega arith), ← Part-first p o last_FullLeaf low)
          (low_below p o last_FullLeaf low high 0 (middle_bounds p o last_FullLeaf).0)

    separators_below : (j : ℕ) → j < i + 1 → keyless (n.key_slots j) (s.high.key_slots 0) ≡ true
    separators_below j h = elim (dec_lt j i) [
      | yes before ↦
          o.transitive (n.key_slots j) (n.key_slots i) (s.high.key_slots 0)
            (separators p o f.row j i before (omega arith)) last_separator
      | no end ↦ let e : j ≡ i = omega arith in rw e last_separator
    ]

  leaf_halved :
      (d : V) (s : LeafSplit K V) (run : split_leaf p (leaves (i + 1)) k d ≡ ok s) {x : Ptr}
      {c : Node K V}
      → x < t.brk
      → Points t x c
      → Points (halved p k d last_here fresh some_slots s run) x c
  leaf_halved d s run {x} old e = record {
    ne_null = e.ne_null;
    holds = halved-old p k d last_here fresh some_slots s run x old ∙ e.holds;
  }

  pub insert-Widened :
      (d : V)
      → (before : Tree K V) × (s : LeafSplit K V) × (insert p k d t
          ≡ ok (pos 1, write (n.first_child (i + 1)) none before))
        × Widened d s before
  insert-Widened d =
      let (s, run, low, high) = split_leaf-Part p (FullLeaf-Split p o last_FullLeaf) d in
      let t0 : Tree K V = halved p k d last_here fresh some_slots s run in
      let lc : n.first_child i < t.brk = f.row.old i (omega arith) in
      let (t1, up, wide) =
        insert_in_parent-Extended p i (s.high.key_slots 0)
          (leaf_halved d s run f.row.root_old f.row.here)
          (leaf_halved d s run lc (f.row.leaf_here i (omega arith)))
          (low_here p k d last_here fresh some_slots s run)
          (high_here p k d last_here fresh some_slots s run) (omega (arith, lc)) (omega (arith, lc))
          (omega arith) f.row.in_use f.row.children f.row.slots_eq
          (omega (arith, f.row.in_use, f.room)) (omega (arith, f.small, f.slots_same)) refl
          (λ j less.
            asymmetric o (n.key_slots j) (s.high.key_slots 0)
              (separators_below s low high j (omega (arith, f.row.in_use, less))))
          (t.brk + 1 + 1) in
      let old : Points t1 (n.first_child (i + 1)) (leaf (leaves (i + 1))) = record {
        ne_null = last_here.ne_null;
        holds =
            wide.frame (n.first_child (i + 1))
              (λ same. cc (same, f.row.here.holds, last_here.holds))
              (λ same.
                absurd (omega (arith, f.row.apart (i + 1) i (omega arith) (omega arith) same)))
              (omega (arith, fresh)) (omega (arith, fresh))
            ∙ halved-old p k d last_here fresh some_slots s run (n.first_child (i + 1)) fresh
            ∙ last_here.holds;
      } in
      let climb : insert_in_parent p (suc (t.brk + 1 + 1)) (leaves (i + 1)).parent t.brk
            (s.high.key_slots 0) (t.brk + 1) t0
          ≡ ok (tt, t1) =
        ap
          (λ (r : Ptr).
            insert_in_parent p (suc (t.brk + 1 + 1)) r t.brk (s.high.key_slots 0) (t.brk + 1) t0)
          (f.row.parent (i + 1) (omega arith))
        ∙ up in
      (
        t1,
        s,
        insert-insert_split p k d last_here f.row.here.ne_null (find-Row p o f.row k f.above) f.full
              f.slots_same
            ∙ insert_split-climb p k d last_here fresh some_slots s run climb old,
        record { run = run; wide = wide; low = low; high = high },
      )
