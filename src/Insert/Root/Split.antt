-- ===== src/Insert/Root/Split.antt =====
-- `insert` on a full root leaf: the split, and the first tree of two levels.
use ccpbtree.Base.{suc, ◌+◌, ◌-◌, ◌%◌, ◌^◌, ◌<◌, ◌≡◌, ap, ◌∙◌, ◌⊎◌, ◌↔◌, none, arith, pos}
use ccpbtree.Store.{Ptr, null, LeafNode, leaf, Tree, Traits, ok, write}
use ccpbtree.Store.Points.{Points}
use ccpbtree.KeyOrder.{IsTotal}
use ccpbtree.Find.Shape.{InLeaf, Has, IsTree}
use ccpbtree.Delete.Root.{RootLeaf, find-RootLeaf}
use ccpbtree.Insert.{insert}
use ccpbtree.Insert.Halved.{
  halved, low_here, high_here, halved-old, insert-insert_split, insert_split-climb,
}
use ccpbtree.Insert.Split.Parts.{Part}
use ccpbtree.Insert.Split.{LeafSplit}
use ccpbtree.Insert.Split.Halves.{split_leaf-Part}
use ccpbtree.Insert.Parent.{insert_in_parent}
use ccpbtree.Insert.Parent.NewRoot.{TwoLeaves, insert_in_parent-TwoLeaves, TwoLeaves-free}
use ccpbtree.Insert.Parent.TwoLeaves.{TwoLeaves-IsTree, Has-TwoLeaves}
use ccpbtree.Insert.Split.Full.{
  FullLeaf, place, middle, FullLeaf-Split, low_shape, high_shape, halves_iff,
}

-- The root is a full leaf, with as many slots as an inner node.
pub record FullRoot {K V : Type 0} (p : Traits K V) (t : Tree K V) (l : LeafNode K V) (k : K)
    : Type 0 where
  pub root : RootLeaf p t l
  pub orphan : l.parent ≡ null
  pub fresh : t.root < t.brk
  pub slots_same : p.leafslots ≡ p.nodeslots
  pub split : FullLeaf p l k

module _ {K V : Type 0} (p : Traits K V) (o : IsTotal p) {t : Tree K V} {l : LeafNode K V} {k : K}
    (f : FullRoot p t l k) where
  open p use {keyless, leafslots, nodeslots}

  -- The tree after the split: the two halves and the key between them.
  pub record Halves (d : V) (s : LeafSplit K V) (t' : Tree K V) : Type 0 where
    pub two :
        TwoLeaves p t' t.brk
          (t.brk + 1)
          (s.high.key_slots 0)
          (record s.low { next_leaf = t.brk + 1 })
          (record s.high { prev_leaf = t.brk })
    pub root_new : t'.root ≡ t.brk + 1 + 1
    pub brk_new : t'.brk ≡ t.brk + 1 + 1 + 1
    pub count : t'.total_key_count ≡ (t.total_key_count + 1) % 2 ^ 32
    pub head_same : t'.head_leaf ≡ t.head_leaf
    pub gone : t'.heap t.root ≡ none
    pub low : Part p l k d (place p o f.split) 0 (middle p o f.split) s.low
    pub high :
        Part p l k d
          (place p o f.split)
          (middle p o f.split)
          (l.slots_in_use + 1 - middle p o f.split)
          s.high

  pub insert-Halves :
      (d : V)
      → (t' : Tree K V) × (s : LeafSplit K V) × (insert p k d t ≡ ok (pos 1, t')) × Halves d s t'
  insert-Halves d =
      let (s, run, low, high) = split_leaf-Part p (FullLeaf-Split p o f.split) d in
      let here = f.root.here in
      let some_slots : 0 < leafslots = omega (arith, f.split.two) in
      let (t', up, two, rooted, brk_eq, count, head, frame) =
        insert_in_parent-TwoLeaves p (s.high.key_slots 0)
          (low_here p k d here f.fresh some_slots s run)
          (high_here p k d here f.fresh some_slots s run) (omega arith) (omega arith) (omega arith)
          (omega (arith, f.slots_same, f.split.two)) (t.brk + 1 + 1) in
      let old : Points t' t.root (leaf l) = record {
        ne_null = here.ne_null;
        holds =
            frame t.root (omega (arith, f.fresh)) (omega (arith, f.fresh)) (omega (arith, f.fresh))
            ∙ halved-old p k d here f.fresh some_slots s run t.root f.fresh
            ∙ here.holds;
      } in
      let climb : insert_in_parent p (suc (t.brk + 1 + 1)) l.parent t.brk (s.high.key_slots 0)
            (t.brk + 1) (halved p k d here f.fresh some_slots s run)
          ≡ ok (tt, t') =
        ap
          (λ (r : Ptr).
            insert_in_parent p (suc (t.brk + 1 + 1)) r t.brk (s.high.key_slots 0) (t.brk + 1)
              (halved p k d here f.fresh some_slots s run))
          f.orphan
        ∙ up in
      (
        write t.root none t',
        s,
        insert-insert_split p k d here here.ne_null (find-RootLeaf p f.root k) f.split.full
              f.slots_same
            ∙ insert_split-climb p k d here f.fresh some_slots s run climb old,
        record {
          two =
              TwoLeaves-free p t.root two (omega (arith, f.fresh)) (omega (arith, f.fresh))
                (omega (arith, f.fresh, rooted));
          root_new = rooted;
          brk_new = brk_eq;
          count = count;
          head_same = head;
          gone = ground arith;
          low = low;
          high = high;
        },
      )

  -- `insert` into a tree whose root is a full leaf in strict order without successor and without a
  -- parent, of two slots or more, fewer than 65536, and as many as an inner node has, with a new
  -- key above the first one, splits the root. It returns 1, counts the key modulo 2 ^ 32, and
  -- leaves a search tree of two levels that holds the new pair and those of the leaf, and no other.
  -- The keys are totally ordered, and the root was allocated.
  pub insert-FullRoot :
      (d : V)
      → (t' : Tree K V) × (insert p k d t ≡ ok (pos 1, t'))
        × IsTree p t' 1
        × ((a : K) (v : V) → Has t' a v 1 t'.root ↔ (((a ≡ k) × (v ≡ d)) ⊎ InLeaf l a v))
        × (t'.total_key_count ≡ (t.total_key_count + 1) % 2 ^ 32)
  insert-FullRoot d =
      let (t', s, run, h) = insert-Halves d in
      (
        t',
        run,
        TwoLeaves-IsTree p h.two (low_shape p o f.split h.low h.high h.two.right)
            (high_shape p o f.split h.low h.high t' t.brk t'.root)
            (omega (arith, f.split.two, f.slots_same)) (omega (arith, h.brk_new)),
        λ a v. (
          λ has. (halves_iff p o f.split h.low h.high a v).0 ((Has-TwoLeaves p h.two a v).0 has),
          λ held. (Has-TwoLeaves p h.two a v).1 ((halves_iff p o f.split h.low h.high a v).1 held),
        ),
        h.count,
      )
