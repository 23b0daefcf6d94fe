-- ===== src/Insert/Halved.antt =====
-- `insert` into a full leaf: the two new leaves, the climb to the parent, and the free of the old leaf.
use ccpbtree.Base.{
  suc, ◌+◌, ◌%◌, ◌^◌, ◌<◌, ◌≡◌, ◌≢◌, refl, ap, ◌∙◌, false, none, some, arith, put, leb, pos,
}
use ccpbtree.Store.{
  Ptr, null, LeafNode, leaf, Tree, Traits, ok, write, alloc, up_key_count, free_node,
}
use ccpbtree.Store.Points.{Points, load-ok, load_leaf-ok}
use ccpbtree.Leaf.{new_leaf}
use ccpbtree.Leaf.Pair.{insert_leaf_pair-full}
use ccpbtree.Find.{find}
use ccpbtree.Insert.{insert, insert_split}
use ccpbtree.Insert.Split.{LeafSplit, split_leaf}
use ccpbtree.Insert.Parent.{insert_in_parent}

module _ {K V : Type 0} (p : Traits K V) {t : Tree K V} {q : Ptr} {l : LeafNode K V} (k : K) (d : V)
    (here : Points t q (leaf l)) where
  open p use {leafslots, nodeslots}

  pub insert-insert_split :
      t.root ≢ null
      → find p k t ≡ ok (q, t)
      → l.slots_in_use ≡ leafslots
      → leafslots ≡ nodeslots
      → insert p k d t ≡ insert_split p q k d t
  unfolding insert
  insert-insert_split rooted found full slots_same = ground (
    arith,
    rooted,
    found,
    here.ne_null,
    load_leaf-ok here,
    insert_leaf_pair-full p l k d here full,
    full,
    slots_same,
  )

  module _ (fresh : q < t.brk) (some_slots : 0 < leafslots) (s : LeafSplit K V)
      (run : split_leaf p l k d ≡ ok s) where
    -- The tree before the climb to the parent.
    abbrev pub halved : Tree K V
    halved = record t {
      heap =
          put
            (put
              (put (put t.heap t.brk (some (leaf (new_leaf p)))) (t.brk + 1)
                (some (leaf (new_leaf p))))
              t.brk (some (leaf (record s.low { next_leaf = t.brk + 1 }))))
            (t.brk + 1) (some (leaf (record s.high { prev_leaf = t.brk })));
      brk = t.brk + 1 + 1;
      total_key_count = (t.total_key_count + 1) % 2 ^ 32;
    }

    pub low_here : Points halved t.brk (leaf (record s.low { next_leaf = t.brk + 1 }))
    low_here = record { ne_null = omega (arith, fresh); holds = ground arith }

    pub high_here : Points halved (t.brk + 1) (leaf (record s.high { prev_leaf = t.brk }))
    high_here = record { ne_null = omega arith; holds = ground arith }

    pub halved-old : (x : Ptr) → x < t.brk → halved.heap x ≡ t.heap x
    halved-old x h = ground (arith, h)

    -- The split ends as its climb does.
    pub insert_split-climb :
        {t' : Tree K V}
        → insert_in_parent p
            (suc (t.brk + 1 + 1))
            l.parent
            t.brk
            (s.high.key_slots 0)
            (t.brk + 1)
            halved
          ≡ ok (tt, t')
        → Points t' q (leaf l)
        → insert_split p q k d t ≡ ok (pos 1, write q none t')
    unfolding insert_split alloc up_key_count free_node
    insert_split-climb {t'} up old =
        let more : halved.brk + 1 ≡ suc halved.brk = omega arith in
        let climb : insert_in_parent p (halved.brk + 1) l.parent t.brk (s.high.key_slots 0)
              (t.brk + 1) halved
            ≡ ok (tt, t') =
          ap (λ n. insert_in_parent p n l.parent t.brk (s.high.key_slots 0) (t.brk + 1) halved) more
          ∙ up in
        let inside : leb leafslots 0 ≡ false = ground (arith, some_slots) in
        rw (load_leaf-ok here, run, inside, climb, load-ok old) refl
