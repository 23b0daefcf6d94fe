-- ===== src/Insert/Row.antt =====
-- A root over leaves that are linked from the first to the last: the tree that ascending insertions
-- make until the root is full.
pub mod Keys
pub mod Leaves
pub mod Append
pub mod Start
pub mod Split
pub mod Wider
pub mod Held
pub mod Widen
pub mod Print
use ccpbtree.Base.{
  ℕ, zero, suc, ◌+◌, ◌-◌, ◌≤◌, ◌<◌, ◌≡◌, ◌≢◌, refl, sym, ap, ◌∙◌, ◌⊎◌, ◌↔◌, inl, inr, true, false,
  none, some, Option, arith, lt→ltb, le→ltb,
}
use mathlib.Core.Path.{subst}
use native.Mathlib.Decide.{dec_lt, ℕ_discrete}
use ccpbtree.Store.{Ptr, null, LeafNode, InnerNode, leaf, inner, Tree, Traits, ok}
use ccpbtree.Store.Points.{Points, load-ok}
use ccpbtree.KeyOrder.{IsTotal, asymmetric, key_greater, key_greater_equal}
use ccpbtree.Leaf.Keys.{IsLeaf, IsSorted, IsStrict}
use ccpbtree.Leaf.Scan.{scan_unique}
use ccpbtree.Find.{find, next_node, descend, walk}
use ccpbtree.Find.Shape.{
  AtLeast, Below, Beyond, lower, upper, Successor, LeafShape, InnerShape, Subtree, leaf_at,
  inner_at, InLeaf, Has, in_leaf, in_child, IsTree,
}
use ccpbtree.Find.Descend.{choice, leaf_unique, inner_unique, next_node-choice}
use ccpbtree.Find.Walk.{reach, walk-stop}

-- The root `n` has the keys `0`, …, `m - 1` and the children `0`, …, `m`, which are the `leaves`.
pub record Row {K V : Type 0} (p : Traits K V) (t : Tree K V) (m : ℕ) (n : InnerNode K)
    (leaves : ℕ → LeafNode K V) : Type 0 where
  pub here : Points t t.root (inner n)
  pub slots_eq : n.slots ≡ p.nodeslots
  pub in_use : n.slots_in_use ≡ m
  pub children : n.num_children ≡ m + 1
  pub some_keys : 0 < m
  pub fits : m ≤ p.nodeslots
  pub root_old : t.root < t.brk
  pub spare : m + 1 < t.brk
  pub leaf_here : (i : ℕ) → i ≤ m → Points t (n.first_child i) (leaf (leaves i))
  pub old : (i : ℕ) → i ≤ m → n.first_child i < t.brk
  pub apart : (i j : ℕ) → i ≤ m → j ≤ m → n.first_child i ≡ n.first_child j → i ≡ j
  pub parent : (i : ℕ) → i ≤ m → (leaves i).parent ≡ t.root
  pub next : (i : ℕ) → i < m → (leaves i).next_leaf ≡ n.first_child (i + 1)
  pub last : (leaves m).next_leaf ≡ null
  pub valid : (i : ℕ) → i ≤ m → IsLeaf p (leaves i)
  pub used : (i : ℕ) → i ≤ m → 0 < (leaves i).slots_in_use
  pub strict : (i : ℕ) → i ≤ m → IsStrict p (leaves i)
  pub below :
      (i : ℕ)
      → i < m
      → (a : ℕ) → a < (leaves i).slots_in_use
      → p.keyless ((leaves i).key_slots a) (n.key_slots i) ≡ true
  pub separator : (i : ℕ) → i < m → n.key_slots i ≡ (leaves (i + 1)).key_slots 0

-- One of the leaves `0`, …, `m` holds the pair.
abbrev pub InRow : {K V : Type 0} → (ℕ → LeafNode K V) → ℕ → K → V → Type 0
InRow leaves m a v = (i : ℕ) × (i ≤ m) × InLeaf (leaves i) a v

module _ {K V : Type 0} (p : Traits K V) (o : IsTotal p) {t : Tree K V} {m : ℕ} {n : InnerNode K}
    {leaves : ℕ → LeafNode K V} (r : Row p t m n leaves) where
  open p use {keyless, leafslots, nodeslots}

  -- A leaf that is not the first has no key below the separator before it.
  least :
      (i : ℕ)
      → i < m
      → (a : ℕ) → a < (leaves (i + 1)).slots_in_use
      → keyless ((leaves (i + 1)).key_slots a) (n.key_slots i) ≡ false
  least i h a inside = rw (r.separator i h) (elim (dec_lt 0 a) [
    | yes later ↦
        asymmetric o ((leaves (i + 1)).key_slots 0) ((leaves (i + 1)).key_slots a)
          (r.strict (i + 1) (omega arith) 0 a later inside)
    | no first ↦ let e : a ≡ 0 = omega arith in rw e (o.irreflexive ((leaves (i + 1)).key_slots 0))
  ])

  pub separator-next : (j : ℕ) → j + 1 < m → keyless (n.key_slots j) (n.key_slots (j + 1)) ≡ true
  separator-next j h =
      rw (r.separator j (omega arith)) (r.below (j + 1) h 0 (r.used (j + 1) (omega arith)))

  pub separators : (i j : ℕ) → i < j → j < m → keyless (n.key_slots i) (n.key_slots j) ≡ true
  separators i zero less h = absurd (omega arith)
  separators i (suc j) less h =
      let e : j + 1 ≡ suc j = omega arith in
      let step : keyless (n.key_slots j) (n.key_slots (suc j)) ≡ true =
        subst (λ (x : ℕ). keyless (n.key_slots j) (n.key_slots x) ≡ true) e
          (separator-next j (omega arith)) in
      elim (dec_lt i j) [
        | yes before ↦
            o.transitive (n.key_slots i) (n.key_slots j) (n.key_slots (suc j))
              (separators i j before (omega arith)) step
        | no same ↦
            let g : i ≡ j = omega arith in
            subst (λ (x : ℕ). keyless (n.key_slots x) (n.key_slots (suc j)) ≡ true) (sym g) step
      ]

  leaf_least :
      (i : ℕ)
      → i ≤ m
      → (a : ℕ) → a < (leaves i).slots_in_use
      → AtLeast p (lower p n none i) ((leaves i).key_slots a)
  leaf_least zero h a inside = tt
  leaf_least (suc i) h a inside =
      let e : i + 1 ≡ suc i = omega arith in
      subst
        (λ (x : ℕ).
          a < (leaves x).slots_in_use → keyless ((leaves x).key_slots a) (n.key_slots i) ≡ false)
        e (least i (omega arith) a) inside

  leaf-Below :
      (i : ℕ)
      → i ≤ m
      → (a : ℕ) → a < (leaves i).slots_in_use
      → Below p (upper p n none i) ((leaves i).key_slots a)
  leaf-Below i h a inside = elim (dec_lt i m) [
    | yes before ↦ rw (r.in_use, lt→ltb i m before) (r.below i before a inside)
    | no last ↦ rw (r.in_use, le→ltb i m (omega arith)) tt
  ]

  leaf_next :
      (i : ℕ)
      → i ≤ m
      → ((leaves i).next_leaf ≡ null) ⊎ Successor p t (leaves i).next_leaf (upper p n none i)
  leaf_next i h = elim (dec_lt i m) [
    | yes before ↦ inr (
        rw (r.next i before, r.in_use, lt→ltb i m before)
          (record {
            node = leaves (i + 1);
            here = r.leaf_here (i + 1) (omega arith);
            in_use_pos = r.used (i + 1) (omega arith);
            beyond = λ a inside. least i before a inside;
          }))
    | no end ↦ let e : i ≡ m = omega arith in inl (rw e r.last)
  ]

  leaf_shape : (i : ℕ) → i ≤ m → LeafShape p t (leaves i) (lower p n none i) (upper p n none i)
  leaf_shape i h = record {
    in_use_le = (r.valid i h).in_use_le;
    sorted = λ a b less inside.
        asymmetric o ((leaves i).key_slots a) ((leaves i).key_slots b)
          (r.strict i h a b less inside);
    at_least = leaf_least i h;
    below = leaf-Below i h;
    next = leaf_next i h;
  }

  pub Row-IsTree : IsTree p t 1
  Row-IsTree = record {
    shape =
        inner_at n r.here
          (record {
            in_use_le = omega (arith, r.in_use, r.fits);
            children = omega (arith, r.in_use, r.children);
            sorted = λ i j less inside.
                asymmetric o (n.key_slots i) (n.key_slots j)
                  (separators i j less (omega (arith, r.in_use)));
            at_least = λ i h. tt;
            below = λ i h. tt;
          })
          (λ i h.
            let le : i ≤ m = omega (arith, r.in_use) in
            leaf_at (leaves i) (r.leaf_here i le) (leaf_shape i le));
    height_le = omega (arith, r.root_old);
    brk_pos = omega (arith, r.root_old);
  }

  -- The pairs of the leaves.
  pub Has-Row : (a : K) (v : V) → Has t a v 1 t.root ↔ InRow leaves m a v
  Has-Row a v = (
    forth,
    λ (i, h, held).
        in_child n i r.here (omega (arith, r.in_use)) (in_leaf (leaves i) (r.leaf_here i h) held),
  )
    where
      at_child :
          (c : InnerNode K) (i : ℕ)
          → c ≡ n
          → i ≤ c.slots_in_use
          → Has t a v 0 (c.first_child i)
          → InRow leaves m a v
      at_child c i same inside (in_leaf l e held) =
          let le : i ≤ m =
            omega (arith, r.in_use, ap (λ (y : InnerNode K). y.slots_in_use) same, inside) in
          (
            i,
            le,
            subst (λ (y : LeafNode K V). InLeaf y a v)
                (leaf_unique p
                  (subst (λ (q : Ptr). Points t q (leaf l))
                    (ap (λ (y : InnerNode K). y.first_child i) same) e)
                  (r.leaf_here i le))
                held,
          )

      forth : Has t a v 1 t.root → InRow leaves m a v
      forth (in_child c i e inside has) = at_child c i (inner_unique p e r.here) inside has

  -- The descent to a leaf at which the walk stops.
  module _ (k : K) (j : ℕ) (inside : j ≤ m) (chosen : choice p n k ≡ j) where
    next-choice : next_node p t.root n k t ≡ ok (n.first_child j, t)
    next-choice =
        subst (λ (i : ℕ). next_node p t.root n k t ≡ ok (n.first_child i, t)) chosen
          (next_node-choice p t.root n k (omega (arith, r.children, r.in_use))
            (subst (λ (i : ℕ). n.first_child i ≢ null) (sym chosen) (r.leaf_here j inside).ne_null))

    descend-choice : (fuel : ℕ) → descend p (suc (suc fuel)) t.root k t ≡ ok (n.first_child j, t)
    unfolding descend
    descend-choice fuel = rw (load-ok r.here, next-choice, load-ok (r.leaf_here j inside))

    pub find-choice :
        (reach p (leaves j) k < (leaves j).slots_in_use) ⊎ ((leaves j).next_leaf ≡ null)
        → find p k t ≡ ok (n.first_child j, t)
    unfolding find
    find-choice stop =
        let two : t.brk + 1 ≡ suc (suc (t.brk - 1)) = omega (arith, r.root_old) in
        let one : t.brk + 1 ≡ suc t.brk = omega arith in
        let down : descend p (t.brk + 1) t.root k t ≡ ok (n.first_child j, t) =
          ap (λ f. descend p f t.root k t) two ∙ descend-choice (t.brk - 1) in
        let across : walk p (t.brk + 1) (n.first_child j) k t ≡ ok (n.first_child j, t) =
          ap (λ f. walk p f (n.first_child j) k t) one
          ∙ walk-stop p t.brk (leaves j) k (r.leaf_here j inside) stop in
        ground (arith, r.here.ne_null, down, across)

  -- The descent with a key above all others ends at the last leaf, and so does the walk.
  module _ (k : K)
      (above : (i : ℕ)
        → i ≤ m
        → (a : ℕ) → a < (leaves i).slots_in_use
        → keyless ((leaves i).key_slots a) k ≡ true) where
    above_separators : (i : ℕ) → i < m → keyless (n.key_slots i) k ≡ true
    above_separators i h =
        rw (r.separator i h) (above (i + 1) (omega arith) 0 (r.used (i + 1) (omega arith)))

    choice-last : choice p n k ≡ m
    choice-last =
        scan_unique p (λ s. key_greater p s k) n.key_slots n.slots_in_use 0 m (omega arith)
          (omega (arith, r.in_use)) (λ j a b. asymmetric o (n.key_slots j) k (above_separators j b))
          (λ h. absurd (omega (arith, r.in_use)))

    pub find-Row : find p k t ≡ ok (n.first_child m, t)
    find-Row = find-choice k m (omega arith) choice-last (inr r.last)
