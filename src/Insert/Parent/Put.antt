-- ===== src/Insert/Parent/Put.antt =====
-- A round of the split of a full inner node puts a key and a leaf at the end of a new node.
use ccpbtree.Base.{
  ℕ, ◌+◌, ◌-◌, ◌≤◌, ◌<◌, ◌≡◌, ◌≢◌, refl, sym, ap, ◌∙◌, false, some, arith, put, pos, ltb,
}
use mathlib.Core.Path.{subst}
use native.Mathlib.Decide.{ℕ_discrete}
use ccpbtree.Store.{Ptr, LeafNode, InnerNode, leaf, inner, Tree, Traits, ok, write}
use ccpbtree.Store.Points.{Points}
use ccpbtree.Inner.{insert_inner_node_key_at, insert_inner_node_child_at, link_at}
use ccpbtree.Insert.Parent.{put_entry}
use ccpbtree.Insert.Parent.Steps.{
  Points-write_other, Points-write, child_at-last, insert_inner_node_key_at-last,
}
use ccpbtree.Insert.Parent.Last.{child_at-LastChild}
use ccpbtree.Insert.Parent.Kids.{FullInner, Moved, Half, dest, Kids, Step, child_other}

module _ {K V : Type 0} (p : Traits K V) {old : InnerNode K} {kids : ℕ → LeafNode K V} {base : Ptr}
    (f : FullInner p old kids base) where
  open p use {nodeslots}

  -- The link to the next leaf stays as it was.
  pub Moved-next :
      (x : Ptr) (l l' : LeafNode K V) (next : Ptr)
      → Moved x l l'
      → l.next_leaf ≡ next
      → Moved x l (record l' { next_leaf = next })
  Moved-next x l l' next m e =
      ap (λ (y : LeafNode K V). record y { next_leaf = next }) m
      ∙ ap (λ (y : Ptr). record l { parent = x; prev_leaf = l'.prev_leaf; next_leaf = y }) (sym e)

  -- The step that puts an entry at the end of one of the new nodes.
  module _ {start t : Tree K V} {i : ℕ} (w : Kids p f start t i) (inside : i < nodeslots) {q : Ptr}
      (at : dest p f i ≡ q) {m : InnerNode K} (e : Points t q (inner m)) {from c : ℕ}
      (h : Half p old from c c m) (sum : from + c ≡ i) where
    abbrev pub node' : InnerNode K
    node' = record m {
      key_slots = put m.key_slots m.slots_in_use (old.key_slots i);
      slots_in_use = m.slots_in_use + 1;
      first_child = put m.first_child c (old.first_child i);
      num_children = m.num_children + 1;
    }

    index : (j : ℕ) → j ≡ c → i ≡ from + j
    index j same = omega (arith, sum)

    pub Half-more : Half p old from (c + 1) (c + 1) node'
    Half-more = record {
      slots_eq = h.slots_eq;
      in_use = ap (λ (x : ℕ). x + 1) h.in_use;
      count = ap (λ (x : ℕ). x + 1) h.count;
      key_at = λ j less. elim (ℕ_discrete j c) [
        | yes same ↦ ground (arith, h.in_use, ap old.key_slots (index j same))
        | no other ↦ ground (arith, h.in_use, other) ∙ h.key_at j (omega arith)
      ];
      child_at = λ j less. elim (ℕ_discrete j c) [
        | yes same ↦ ground (arith, same, ap old.first_child (index j same))
        | no other ↦ ground (arith, other) ∙ h.child_at j (omega arith)
      ];
    }

    abbrev with_key : InnerNode K
    with_key = record m {
      key_slots = put m.key_slots m.slots_in_use (old.key_slots i);
      slots_in_use = m.slots_in_use + 1;
    }

    abbrev tree_1 : Tree K V
    tree_1 = write q (some (inner with_key)) t

    q_bounds : (base ≤ q) × (q ≤ base + 1)
    q_bounds = (ground (arith, at), ground (arith, at))

    put_key : insert_inner_node_key_at p q (old.key_slots i) (pos c) t ≡ ok (pos 1, tree_1)
    put_key =
        ap (λ (x : ℕ). insert_inner_node_key_at p q (old.key_slots i) (pos x) t) (sym h.in_use)
        ∙ insert_inner_node_key_at-last p m (old.key_slots i) h.slots_eq
            (omega (arith, h.in_use, sum, inside)) f.small e

    child_1 :
        (j : ℕ) {l : LeafNode K V}
        → j ≤ nodeslots
        → Points t (old.first_child j) (leaf l)
        → Points tree_1 (old.first_child j) (leaf l)
    child_1 j le ej =
        Points-write_other p (some (inner with_key)) ej (omega (arith, f.child_old j le, q_bounds))

    here_1 : Points tree_1 q (inner with_key)
    here_1 = Points-write p t (inner with_key) e.ne_null

    -- What the step leaves.
    pub record Placed (t' : Tree K V) : Type 0 where
      pub here : Points t' q (inner node')
      pub step : Step p f t t' q i

    put_later :
        (b : ℕ)
        → c ≡ b + 1
        → (t' : Tree K V) × (insert_inner_node_child_at p q (old.first_child i) (pos (b + 1)) tree_1
            ≡ ok (pos 0, t'))
          × Placed t'
    put_later b later =
        let less : from + b < i = omega (arith, sum) in
        let (l', el, ml) = w.moved (from + b) less in
        let at_b : m.first_child b ≡ old.first_child (from + b) = h.child_at b (omega arith) in
        let (t', run, v) =
          child_at-LastChild p b here_1 (child_1 (from + b) (omega arith) el)
            (child_1 i (omega arith) (w.rest i (omega arith) (omega arith)))
            (child_other p f (from + b) i (omega arith) (omega arith) (omega arith)) at_b
            (omega (arith, h.count)) h.slots_eq (omega (arith, sum)) in
        (
          t',
          run,
          record {
            here =
                subst
                  (λ (x : ℕ). Points t' q (
                    inner (record with_key {
                      first_child = put m.first_child x (old.first_child i);
                      num_children = m.num_children + 1;
                    })))
                  (sym later) v.parent_here;
            step = record {
              child = (
                record (kids i) { parent = q; prev_leaf = old.first_child (from + b) },
                v.right,
                ap
                    (λ (x : Ptr). record (kids i) {
                      parent = x;
                      prev_leaf = old.first_child (from + b);
                    })
                    (sym at),
              );
              before = λ j last.
                  let same : from + b ≡ j = omega (arith, sum) in
                  subst
                    (λ (x : ℕ).
                      (l' : LeafNode K V) × Points t' (old.first_child x) (leaf l')
                      × Moved (dest p f x) (kids x) l')
                    same
                    (
                      record l' { next_leaf = old.first_child i },
                      v.left,
                      Moved-next (dest p f (from + b)) (kids (from + b)) l' (old.first_child i) ml
                          (f.next (from + b) (omega arith) ∙ ap old.first_child (omega arith)),
                    );
              root_same = v.root_same;
              brk_same = v.brk_same;
              count_same = v.count_same;
              head_same = v.head_same;
              frame = λ x other_q other_child other_before.
                  v.frame x other_q (other_before (from + b) (omega arith)) other_child
                  ∙ ground (arith, other_q);
            };
          },
        )

    put_first :
        c ≡ 0
        → (t' : Tree K V) × (insert_inner_node_child_at p q (old.first_child i) (pos 0) tree_1
            ≡ ok (pos 0, t'))
          × Placed t'
    unfolding link_at
    put_first first =
        let here : Points t (old.first_child i) (leaf (kids i)) =
          w.rest i (omega arith) (omega arith) in
        let with_child : InnerNode K = record with_key {
          first_child = put m.first_child 0 (old.first_child i);
          num_children = m.num_children + 1;
        } in
        let moved_kid : LeafNode K V = record (kids i) { parent = q } in
        let alone : ltb (0 + 1) (m.num_children + 1) ≡ false = ground (arith, h.count, first) in
        let different : old.first_child i ≢ q =
          omega (arith, f.child_old i (omega arith), q_bounds) in
        (
          write (old.first_child i) (some (leaf moved_kid))
              (write q (some (inner with_child)) tree_1),
          child_at-last p 0 here_1 (child_1 i (omega arith) here) (omega (arith, h.count, first))
                (omega arith)
              ∙ rw alone refl,
          record {
            here =
                subst
                  (λ (x : ℕ).
                    Points
                      (write (old.first_child i) (some (leaf moved_kid))
                        (write q (some (inner with_child)) tree_1))
                      q
                      (inner (record with_key {
                        first_child = put m.first_child x (old.first_child i);
                        num_children = m.num_children + 1;
                      })))
                  (sym first)
                  (Points-write_other p (some (leaf moved_kid))
                    (Points-write p tree_1 (inner with_child) e.ne_null)
                    (λ same. different (sym same)));
            step = record {
              child = (
                moved_kid,
                Points-write p (write q (some (inner with_child)) tree_1) (leaf moved_kid)
                    here.ne_null,
                ap (λ (x : Ptr). record (kids i) { parent = x }) (sym at),
              );
              before = λ j last.
                  let (l', el, ml) = w.moved j (omega arith) in
                  (
                    l',
                    Points-write_other p (some (leaf moved_kid))
                        (Points-write_other p (some (inner with_child)) (child_1 j (omega arith) el)
                          (omega (arith, f.child_old j (omega arith), q_bounds)))
                        (child_other p f j i (omega arith) (omega arith) (omega arith)),
                    ml,
                  );
              root_same = refl;
              brk_same = refl;
              count_same = refl;
              head_same = refl;
              frame = λ x other_q other_child other_before. ground (arith, other_q, other_child);
            };
          },
        )

    pub put_entry-Placed :
        (t' : Tree K V) × (put_entry p q (old.key_slots i) (old.first_child i) c t ≡ ok (tt, t'))
        × Placed t'
    unfolding put_entry
    put_entry-Placed = elim (ℕ_discrete c 0) [
      | yes first ↦
          let (t', run, v) = put_first first in
          (
            t',
            rw put_key (
                rw
                  (ap (λ (x : ℕ). insert_inner_node_child_at p q (old.first_child i) (pos x) tree_1)
                      first
                    ∙ run)
                  refl),
            v,
          )
      | no more ↦
          let later : c ≡ c - 1 + 1 = omega arith in
          let (t', run, v) = put_later (c - 1) later in
          (
            t',
            rw put_key (
                rw
                  (ap (λ (x : ℕ). insert_inner_node_child_at p q (old.first_child i) (pos x) tree_1)
                      later
                    ∙ run)
                  refl),
            v,
          )
    ]
