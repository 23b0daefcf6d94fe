-- ===== src/Insert/Spread.antt =====
-- The trees of two levels that `insert` with ascending keys builds, until the root is full.
use ccpbtree.Base.{
  ◌≢◌, ap, suc, none, ◌++◌, ℕ, ◌+◌, ◌-◌, ◌*◌, ◌/◌, ◌%◌, ◌^◌, ◌≤◌, ◌<◌, ◌≡◌, refl, ◌∙◌, ◌⊎◌, ◌↔◌,
  inl, inr, true, arith, List, [], ◌∷◌, pos,
}
use native.Mathlib.Decide.{dec_lt}
use native.Mathlib.Nat.{add-mul, lt_of_mul-lt-mul_right}
use ccpbtree.Store.{null, LeafNode, InnerNode, Tree, Traits, ok, new_tree}
use ccpbtree.KeyOrder.{IsTotal}
use ccpbtree.Insert.{insert}
use ccpbtree.Insert.Split.Full.{middle, middle-last}
use ccpbtree.Insert.Root.Split.{FullRoot, insert-Halves}
use ccpbtree.Insert.Row.{Row, InRow}
use ccpbtree.Store.Points.{Keeps}
use ccpbtree.Insert.Row.Keys.{keys_after}
use ccpbtree.Insert.Row.Leaves.{with_last}
use ccpbtree.Insert.Row.Append.{insert-Append}
use ccpbtree.Insert.Row.Start.{keys-Halves, both, Halves-Row, InRow-Halves}
use ccpbtree.Insert.Row.Split.{FullRow}
use ccpbtree.Insert.Row.Widen.{insert-Widen}
use ccpbtree.Insert.Ascending.{keys_up, In, count_of, Ascending, insert_all, ones, Stacked-greater}
use ccpbtree.Insert.Grown.{Grown, Grown-all}

-- One more pair on either side.
↔-more : {A B C D : Type 0} → (A ↔ (C ⊎ B)) → (B ↔ D) → A ↔ (C ⊎ D)
↔-more f g = (
  λ a. elim (f.0 a) [ inl c ↦ inl c | inr b ↦ inr (g.0 b) ],
  λ s. elim s [ inl c ↦ f.1 (inl c) | inr d ↦ f.1 (inr (g.1 d)) ],
)

module _ {K V : Type 0} (p : Traits K V) where
  open p use {keyless, leafslots, nodeslots}

  -- A row with the pairs of the sequence: all leaves but the last are half full.
  pub record Spread (ps : List (K × V)) (t : Tree K V) : Type 0 where
    pub i : ℕ
    pub node : InnerNode K
    pub leaves : ℕ → LeafNode K V
    pub row : Row p t (i + 1) node leaves
    pub holds : (a : K) (v : V) → InRow leaves (i + 1) a v ↔ In p a v ps
    pub size : count_of p ps ≡ (i + 1) * (leafslots / 2) + (leaves (i + 1)).slots_in_use
    pub listed : keys_after p leaves 0 (suc (i + 1)) ≡ keys_up p ps
    pub head_old : t.head_leaf < t.brk
    pub head_there : t.head_leaf ≢ null
    pub head_gone : t.heap t.head_leaf ≡ none
    pub total : t.total_key_count ≡ count_of p ps % 2 ^ 32

  Spread-greater :
      {ps : List (K × V)} {t : Tree K V} {k : K} (s : Spread ps t)
      → ((a : K) (v : V) → In p a v ps → keyless a k ≡ true)
      → (j : ℕ) → j ≤ s.i + 1
      → (a : ℕ) → a < (s.leaves j).slots_in_use
      → keyless ((s.leaves j).key_slots a) k ≡ true
  Spread-greater s above j h a inside =
      above ((s.leaves j).key_slots a) ((s.leaves j).data_slots a) (
        (s.holds ((s.leaves j).key_slots a) ((s.leaves j).data_slots a)).0
          (j, h, (a, inside, refl, refl)))

  Keeps-head :
      {ps : List (K × V)} {t t' : Tree K V} (s : Spread ps t)
      → Keeps t t'
      → t'.heap t'.head_leaf ≡ none
  Keeps-head s kept = rw kept.head_same (kept.gone _ s.head_old s.head_gone)

  module _ (o : IsTotal p) (two : 1 < leafslots) (small : leafslots < 65536)
      (same : leafslots ≡ nodeslots) where
    Grown-FullRoot :
        {ps : List (K × V)} {t : Tree K V} (g : Grown p ps t) (k : K)
        → count_of p ps ≡ leafslots
        → ((a : K) (v : V) → In p a v ps → keyless a k ≡ true)
        → FullRoot p t g.node k
    Grown-FullRoot g k full above = record {
      root = g.root.root;
      orphan = g.stacked.orphan;
      fresh = g.fresh;
      slots_same = same;
      split = record {
        small = small;
        full = g.stacked.count ∙ full;
        two = two;
        strict = g.stacked.strict;
        first = Stacked-greater p g.stacked above 0 (omega (arith, g.stacked.count));
        absent = λ i inside e. cc (Stacked-greater p g.stacked above i inside, o.irreflexive k, e);
      };
    }

    -- The pair that splits the root.
    Spread-first :
        {ps : List (K × V)} {t : Tree K V} (g : Grown p ps t) (k : K) (d : V)
        → FullRoot p t g.node k
        → count_of p ps ≡ leafslots
        → ((a : K) (v : V) → In p a v ps → keyless a k ≡ true)
        → (t' : Tree K V) × (insert p k d t ≡ ok (pos 1, t')) × Spread ((k, d) ∷ ps) t'
    Spread-first {ps} {t} g k d f full above =
        let (t', s, run, h) = insert-Halves p o f d in
        let cut_at : middle p o f.split ≡ leafslots / 2 =
          middle-last p o f.split (Stacked-greater p g.stacked above) in
        let last : (both p o f h 1).slots_in_use ≡ g.node.slots_in_use + 1 - middle p o f.split =
          h.high.in_use in
        (
          t',
          run,
          record {
            i = 0;
            node = h.two.node;
            leaves = both p o f h;
            row = Halves-Row p o f h;
            holds = λ a v. ↔-more (InRow-Halves p o f h a v) (g.stacked.holds a v);
            listed =
                keys-Halves p o f h (Stacked-greater p g.stacked above)
                ∙ ap (λ x. x ++ k ∷ []) g.stacked.listed;
            head_old = omega (arith, h.head_same, g.head, g.fresh, h.brk_new);
            head_there = rw (h.head_same, g.head) g.root.root.here.ne_null;
            head_gone = rw (h.head_same, g.head) h.gone;
            size = omega (arith, full, last, cut_at, f.split.full);
            total = omega (arith, h.count, g.total);
          },
        )

    -- The last leaf has room.
    Spread-room :
        {ps : List (K × V)} {t : Tree K V} (s : Spread ps t) (k : K) (d : V)
        → ((a : K) (v : V) → In p a v ps → keyless a k ≡ true)
        → (s.leaves (s.i + 1)).slots_in_use < leafslots
        → (t' : Tree K V) × (insert p k d t ≡ ok (pos 1, t')) × Spread ((k, d) ∷ ps) t'
    Spread-room {ps} {t} s k d above room =
        let (t', l, run, row, holds, more, keys, kept, count) =
          insert-Append p o s.row k d (Spread-greater s above) room in
        let last : with_last s.leaves (s.i + 1) l (s.i + 1) ≡ l = ground arith in
        (
          t',
          run,
          record {
            i = s.i;
            node = s.node;
            leaves = with_last s.leaves (s.i + 1) l;
            row = row;
            holds = λ a v. ↔-more (holds a v) (s.holds a v);
            listed = keys ∙ ap (λ x. x ++ k ∷ []) s.listed;
            head_old = omega (arith, kept.head_same, kept.brk_le, s.head_old);
            head_there = rw kept.head_same s.head_there;
            head_gone = Keeps-head s kept;
            size = rw last (omega (arith, more, s.size));
            total = omega (arith, count, s.total);
          },
        )

    -- The last leaf is full, the root is not.
    Spread-full :
        {ps : List (K × V)} {t : Tree K V} (s : Spread ps t) (k : K) (d : V)
        → ((a : K) (v : V) → In p a v ps → keyless a k ≡ true)
        → (s.leaves (s.i + 1)).slots_in_use ≡ leafslots
        → s.i + 1 < nodeslots
        → (t' : Tree K V) × (insert p k d t ≡ ok (pos 1, t')) × Spread ((k, d) ∷ ps) t'
    Spread-full {ps} {t} s k d above full room =
        let f : FullRow p t s.i s.node s.leaves k = record {
          row = s.row;
          above = Spread-greater s above;
          full = full;
          two = two;
          small = small;
          slots_same = same;
          room = room;
        } in
        let (t', n, leaves, run, row, holds, last, keys, kept, count) = insert-Widen p o f d in
        (
          t',
          run,
          record {
            i = s.i + 1;
            node = n;
            leaves = leaves;
            row = row;
            holds = λ a v. ↔-more (holds a v) (s.holds a v);
            listed = keys ∙ ap (λ x. x ++ k ∷ []) s.listed;
            head_old = omega (arith, kept.head_same, kept.brk_le, s.head_old);
            head_there = rw kept.head_same s.head_there;
            head_gone = Keeps-head s kept;
            size = omega (arith, s.size, full, last, add-mul (s.i + 1) 1 (leafslots / 2));
            total = omega (arith, count, s.total);
          },
        )

    -- A further pair, while the root has room for one more key or the last leaf for one more pair.
    Spread-next :
        {ps : List (K × V)} {t : Tree K V} (s : Spread ps t) (k : K) (d : V)
        → ((a : K) (v : V) → In p a v ps → keyless a k ≡ true)
        → count_of p ps < nodeslots * (leafslots / 2) + leafslots
        → (t' : Tree K V) × (insert p k d t ≡ ok (pos 1, t')) × Spread ((k, d) ∷ ps) t'
    Spread-next s k d above fits = elim (dec_lt (s.leaves (s.i + 1)).slots_in_use leafslots) [
      | yes room ↦ Spread-room s k d above room
      | no other ↦
          let le : (s.leaves (s.i + 1)).slots_in_use ≤ leafslots =
            (s.row.valid (s.i + 1) (omega arith)).in_use_le in
          let full : (s.leaves (s.i + 1)).slots_in_use ≡ leafslots = omega arith in
          let less : (s.i + 1) * (leafslots / 2) < nodeslots * (leafslots / 2) =
            omega (arith, s.size) in
          Spread-full s k d above full (lt_of_mul-lt-mul_right (leafslots / 2) less)
    ]

    pub Spread-all :
        (k : K) (d : V) (ps : List (K × V))
        → Ascending p ((k, d) ∷ ps)
        → leafslots ≤ count_of p ps
        → count_of p ps < nodeslots * (leafslots / 2) + leafslots
        → (t : Tree K V) × (insert_all p ((k, d) ∷ ps) new_tree ≡ ok (ones p ((k, d) ∷ ps), t))
          × Spread ((k, d) ∷ ps) t
    unfolding insert_all
    Spread-all k d [] up many fits = absurd (omega arith)
    Spread-all k d ((k', d') ∷ ps) (above, up) many fits = elim (dec_lt (count_of p ps) leafslots) [
      | yes first ↦
          let (t, run, g) = Grown-all p o two small k' d' ps up first in
          let full : count_of p ((k', d') ∷ ps) ≡ leafslots = omega arith in
          let (t', run', s) = Spread-first g k d (Grown-FullRoot g k full above) full above in
          (t', rw (run, run'), s)
      | no later ↦
          let (t, run, s) = Spread-all k' d' ps up (omega arith) (omega arith) in
          let (t', run', s') = Spread-next s k d above (omega arith) in (t', rw (run, run'), s')
    ]
