-- ===== src/Insert/Row/Wider.antt =====
-- The root and the leaves of a row after the split of its last leaf.
use ccpbtree.Base.{ℕ, ◌+◌, ◌≤◌, ◌<◌, ◌≡◌, ◌≢◌, refl, sym, ap, ◌∙◌, true, none, arith}
use mathlib.Core.Path.{subst}
use native.Mathlib.Decide.{dec_lt, ℕ_discrete}
use ccpbtree.Store.{Ptr, LeafNode, InnerNode, Node, leaf, inner, Tree, Traits, write}
use ccpbtree.Store.Points.{Points}
use ccpbtree.KeyOrder.{IsTotal}
use ccpbtree.Insert.Halved.{halved-old}
use ccpbtree.Insert.Parent.Steps.{Points-write_other}
use ccpbtree.Insert.Split.{LeafSplit}
use ccpbtree.Insert.Split.Full.{middle, middle_bounds, Part-first, low_below}
use ccpbtree.Insert.Row.Leaves.{with_last, with_last-all}
use ccpbtree.Insert.Row.Split.{FullRow, Widened, last_FullLeaf, last_here, fresh, some_slots}

module _ {K V : Type 0} (p : Traits K V) (o : IsTotal p) {t : Tree K V} {i : ℕ} {n : InnerNode K}
    {leaves : ℕ → LeafNode K V} {k : K} (f : FullRow p t i n leaves k) {d : V} {s : LeafSplit K V}
    {before : Tree K V} (w : Widened p o f d s before) where
  open p use {keyless, leafslots, nodeslots}

  abbrev pub previous_leaf : LeafNode K V
  previous_leaf = record (leaves i) { next_leaf = t.brk }

  abbrev pub low_leaf : LeafNode K V
  low_leaf = record s.low { parent = t.root; prev_leaf = n.first_child i; next_leaf = t.brk + 1 }

  abbrev pub high_leaf : LeafNode K V
  high_leaf = record s.high { parent = t.root; prev_leaf = t.brk }

  abbrev pub wider : ℕ → LeafNode K V
  wider =
      with_last (with_last (with_last leaves i previous_leaf) (i + 1) low_leaf) (i + 1 + 1)
        high_leaf

  abbrev pub wider_tree : Tree K V
  wider_tree = write (n.first_child (i + 1)) none before

  -- What holds of the three leaves and of the others holds of all.
  pub wider-all :
      (P : ℕ → LeafNode K V → Type 0)
      → ((j : ℕ) → j < i → P j (leaves j))
      → P i previous_leaf
      → P (i + 1) low_leaf
      → P (i + 1 + 1) high_leaf
      → (j : ℕ) → j ≤ i + 1 + 1
      → P j (wider j)
  wider-all P others previous low high =
      with_last-all (with_last (with_last leaves i previous_leaf) (i + 1) low_leaf) (i + 1 + 1)
        high_leaf P high
        (λ j h.
          with_last-all (with_last leaves i previous_leaf) (i + 1) low_leaf P low
            (λ j h. with_last-all leaves i previous_leaf P previous others j (omega arith)) j
            (omega arith))

  pub bounds :
      (0 < middle p o (last_FullLeaf p o f))
      × (middle p o (last_FullLeaf p o f) ≤ leafslots)
      × ((leaves (i + 1)).slots_in_use ≡ leafslots)
  bounds =
      let (a, b) = middle_bounds p o (last_FullLeaf p o f) in (a, omega (arith, f.full), f.full)

  -- The children and keys of the root.
  abbrev pub node : InnerNode K
  node = w.wide.node

  child-before : (j : ℕ) → j ≤ i → node.first_child j ≡ n.first_child j
  child-before j h = rw w.wide.child_slots (ground (arith, f.row.in_use))

  child-low : node.first_child (i + 1) ≡ t.brk
  child-low = rw w.wide.child_slots (ground (arith, f.row.in_use))

  child-high : node.first_child (i + 1 + 1) ≡ t.brk + 1
  child-high = rw w.wide.child_slots (ground (arith, f.row.in_use))

  key-before : (j : ℕ) → j ≤ i → node.key_slots j ≡ n.key_slots j
  key-before j h = rw w.wide.keys (ground (arith, f.row.in_use))

  key-last : node.key_slots (i + 1) ≡ s.high.key_slots 0
  key-last = rw w.wide.keys (ground (arith, f.row.in_use))

  -- What holds of the children holds at the indices.
  pub children-all :
      (P : ℕ → Ptr → Type 0)
      → ((j : ℕ) → j ≤ i → P j (n.first_child j))
      → P (i + 1) t.brk
      → P (i + 1 + 1) (t.brk + 1)
      → (j : ℕ) → j ≤ i + 1 + 1
      → P j (node.first_child j)
  children-all P others low high j h = elim (dec_lt i j) [
    | no old ↦ subst (P j) (sym (child-before j (omega arith))) (others j (omega arith))
    | yes later ↦ elim (ℕ_discrete j (i + 1)) [
      | yes same ↦
          subst (λ (x : ℕ). P x (node.first_child x)) (sym same)
            (subst (P (i + 1)) (sym child-low) low)
      | no other ↦
          let e : j ≡ i + 1 + 1 = omega arith in
          subst (λ (x : ℕ). P x (node.first_child x)) (sym e)
            (subst (P (i + 1 + 1)) (sym child-high) high)
    ]
  ]

  pub root_same : before.root ≡ t.root
  root_same = w.wide.root_same

  pub brk_new : before.brk ≡ t.brk + 1 + 1
  brk_new = w.wide.brk_same

  -- The free of the old leaf leaves the other nodes.
  other_leaf :
      {x : Ptr} {c : Node K V}
      → Points before x c
      → x ≢ n.first_child (i + 1)
      → Points wider_tree x c
  other_leaf e other = Points-write_other p none e other

  not_last : (j : ℕ) → j ≤ i → n.first_child j ≢ n.first_child (i + 1)
  not_last j h same = absurd (omega (arith, f.row.apart j (i + 1) (omega arith) (omega arith) same))

  root_other : (j : ℕ) → j ≤ i + 1 → n.first_child j ≢ t.root
  root_other j h same = cc (same, f.row.here.holds, (f.row.leaf_here j h).holds)

  pub wider-here : Points wider_tree t.root (inner node)
  wider-here = other_leaf w.wide.here (λ same. root_other (i + 1) (omega arith) (sym same))

  wider-before : (j : ℕ) → j < i → Points wider_tree (n.first_child j) (leaf (leaves j))
  wider-before j h =
      let old : n.first_child j < t.brk = f.row.old j (omega arith) in
      let e : Points t (n.first_child j) (leaf (leaves j)) = f.row.leaf_here j (omega arith) in
      other_leaf
        (record {
          ne_null = e.ne_null;
          holds =
              w.wide.frame (n.first_child j) (root_other j (omega arith))
                (λ same. absurd (omega (arith, f.row.apart j i (omega arith) (omega arith) same)))
                (omega (arith, old)) (omega (arith, old))
              ∙ halved-old p k d (last_here p o f) (fresh p o f) (some_slots p o f) s w.run
                  (n.first_child j) old
              ∙ e.holds;
        })
        (not_last j (omega arith))

  pub wider-leaf : (j : ℕ) → j ≤ i + 1 + 1 → Points wider_tree (node.first_child j) (leaf (wider j))
  wider-leaf =
      wider-all (λ j x. Points wider_tree (node.first_child j) (leaf x))
        (λ j h.
          subst (λ (q : Ptr). Points wider_tree q (leaf (leaves j)))
            (sym (child-before j (omega arith))) (wider-before j h))
        (subst (λ (q : Ptr). Points wider_tree q (leaf previous_leaf))
          (sym (child-before i (omega arith)))
          (other_leaf w.wide.previous (not_last i (omega arith))))
        (subst (λ (q : Ptr). Points wider_tree q (leaf low_leaf)) (sym child-low)
          (other_leaf w.wide.left (omega (arith, fresh p o f))))
        (subst (λ (q : Ptr). Points wider_tree q (leaf high_leaf)) (sym child-high)
          (other_leaf w.wide.right (omega (arith, fresh p o f))))

  pub wider-apart :
      (a b : ℕ) → a ≤ i + 1 + 1 → b ≤ i + 1 + 1 → node.first_child a ≡ node.first_child b → a ≡ b
  wider-apart a b h g =
      children-all (λ a x. (b : ℕ) → b ≤ i + 1 + 1 → x ≡ node.first_child b → a ≡ b)
        (λ a h.
          children-all (λ b y. n.first_child a ≡ y → a ≡ b)
            (λ b g e. f.row.apart a b (omega arith) (omega arith) e)
            (λ e. absurd (omega (arith, e, f.row.old a (omega arith))))
            (λ e. absurd (omega (arith, e, f.row.old a (omega arith)))))
        (children-all (λ b y. t.brk ≡ y → i + 1 ≡ b)
          (λ b g e. absurd (omega (arith, e, f.row.old b (omega arith)))) (λ e. refl)
          (λ e. absurd (omega (arith, e))))
        (children-all (λ b y. t.brk + 1 ≡ y → i + 1 + 1 ≡ b)
          (λ b g e. absurd (omega (arith, e, f.row.old b (omega arith))))
          (λ e. absurd (omega (arith, e))) (λ e. refl))
        a h b g

  pub wider-next :
      (j : ℕ) → j ≤ i + 1 + 1 → j < i + 1 + 1 → (wider j).next_leaf ≡ node.first_child (j + 1)
  wider-next =
      wider-all (λ j x. j < i + 1 + 1 → x.next_leaf ≡ node.first_child (j + 1))
        (λ j h g. f.row.next j (omega arith) ∙ sym (child-before (j + 1) (omega arith)))
        (λ g. sym child-low) (λ g. sym child-high) (λ g. absurd (omega arith))

  pub wider-below :
      (j : ℕ)
      → j ≤ i + 1 + 1
      → j < i + 1 + 1
      → (a : ℕ) → a < (wider j).slots_in_use
      → keyless ((wider j).key_slots a) (node.key_slots j) ≡ true
  wider-below =
      wider-all
        (λ j x.
          j < i + 1 + 1
          → (a : ℕ) → a < x.slots_in_use
          → keyless (x.key_slots a) (node.key_slots j) ≡ true)
        (λ j h g a inside. rw (key-before j (omega arith)) (f.row.below j (omega arith) a inside))
        (λ g a inside. rw (key-before i (omega arith)) (f.row.below i (omega arith) a inside))
        (λ g a inside. rw key-last (
          low_below p o (last_FullLeaf p o f) w.low w.high a (omega (arith, w.low.in_use, inside))))
        (λ g. absurd (omega arith))

  pub wider-separator :
      (x : ℕ) → x ≤ i + 1 + 1 → (j : ℕ) → j + 1 ≡ x → node.key_slots j ≡ (wider x).key_slots 0
  wider-separator =
      wider-all (λ x y. (j : ℕ) → j + 1 ≡ x → node.key_slots j ≡ y.key_slots 0)
        (λ x h j e.
          key-before j (omega arith)
          ∙ f.row.separator j (omega arith)
          ∙ ap (λ a. (leaves a).key_slots 0) e)
        (λ j e.
          key-before j (omega arith)
          ∙ f.row.separator j (omega arith)
          ∙ ap (λ a. (leaves a).key_slots 0) e)
        (λ j e.
          let g : j ≡ i = omega arith in
          key-before j (omega arith)
          ∙ f.row.separator j (omega arith)
          ∙ ap (λ a. (leaves (a + 1)).key_slots 0) g
          ∙ sym (Part-first p o (last_FullLeaf p o f) w.low))
        (λ j e. let g : j ≡ i + 1 = omega arith in rw g key-last)
