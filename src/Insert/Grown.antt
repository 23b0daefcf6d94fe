-- ===== src/Insert/Grown.antt =====
-- The root leaf that `insert` with ascending keys fills, from the empty tree on.
use ccpbtree.Base.{◌<◌, ◌≡◌, refl, true, arith, List, [], ◌∷◌, pos}
use ccpbtree.Store.{LeafNode, Tree, Traits, ok, new_tree}
use ccpbtree.KeyOrder.{IsTotal}
use ccpbtree.Leaf.{new_leaf}
use ccpbtree.Leaf.Pair.{insert_leaf_pair-Inserted}
use ccpbtree.Insert.{insert}
use ccpbtree.Insert.Root.{SortedRoot, SortedRoot-Room, stored, insert-stored, stored-SortedRoot}
use ccpbtree.Insert.Empty.{first_leaf, with_leaf-Room, first-new, rooted, insert-rooted}
use ccpbtree.Insert.Ascending.{
  In, count_of, Ascending, insert_all, ones, Stacked, Stacked-absent, Stacked-Inserted,
}

module _ {K V : Type 0} (p : Traits K V) where
  open p use {keyless, leafslots, nodeslots, blank}

  -- The root is a leaf with the pairs of the sequence.
  pub record Grown (ps : List (K × V)) (t : Tree K V) : Type 0 where
    pub node : LeafNode K V
    pub root : SortedRoot p t node
    pub fresh : t.root < t.brk
    pub head : t.head_leaf ≡ t.root
    pub stacked : Stacked p ps node
    pub total : t.total_key_count ≡ count_of p ps

  module _ (o : IsTotal p) (two : 1 < leafslots) (small : leafslots < 65536) where
    first_leaf-Stacked : Stacked p [] (first_leaf p)
    unfolding new_leaf
    first_leaf-Stacked = record {
      orphan = refl;
      strict = λ i j less inside. absurd (omega arith);
      count = refl;
      holds = λ a v. (λ (i, lt, e, g). absurd (omega arith), λ h. absurd h);
      listed = refl;
    }

    -- The first pair.
    Grown-first :
        (k : K) (d : V)
        → (t : Tree K V) × (insert p k d new_tree ≡ ok (pos 1, t)) × Grown ((k, d) ∷ []) t
    unfolding new_tree new_leaf
    Grown-first k d =
        let r = with_leaf-Room p new_tree (omega arith) (omega arith) small k in
        let (l, run, after) = insert_leaf_pair-Inserted p k r d o (first-new p k d) in
        (
          rooted p new_tree l,
          insert-rooted p new_tree k d l refl run,
          record {
            node = l;
            root = record {
              root = record {
                here = record { ne_null = omega arith; holds = ground arith };
                valid = record {
                  slots_eq = after.slots_same;
                  in_use_le = omega (arith, after.count);
                  small = small;
                };
                is_root = after.root_same;
                last = after.next_same;
              };
              sorted = after.sorted;
              used = omega arith;
            };
            fresh = omega arith;
            head = refl;
            stacked = Stacked-Inserted p o after first_leaf-Stacked (λ a v h. absurd h);
            total = refl;
          },
        )

    -- A further pair, while the leaf has room.
    Grown-next :
        {ps : List (K × V)} {t : Tree K V} (g : Grown ps t) (k : K) (d : V)
        → count_of p ps < leafslots
        → ((a : K) (v : V) → In p a v ps → keyless a k ≡ true)
        → (t' : Tree K V) × (insert p k d t ≡ ok (pos 1, t')) × Grown ((k, d) ∷ ps) t'
    Grown-next {ps} {t} g k d room above =
        let inside : g.node.slots_in_use < leafslots = omega (arith, g.stacked.count) in
        let (l, run, after) =
          insert_leaf_pair-Inserted p k (SortedRoot-Room p g.root k inside) d o
            (Stacked-absent p o d g.stacked above) in
        (
          stored p g.root l,
          insert-stored p g.root k d l run,
          record {
            node = l;
            root = stored-SortedRoot p g.root o k d l inside after;
            fresh = g.fresh;
            head = g.head;
            stacked = Stacked-Inserted p o after g.stacked above;
            total = omega (arith, g.total);
          },
        )

    pub Grown-all :
        (k : K) (d : V) (ps : List (K × V))
        → Ascending p ((k, d) ∷ ps)
        → count_of p ps < leafslots
        → (t : Tree K V) × (insert_all p ((k, d) ∷ ps) new_tree ≡ ok (ones p ((k, d) ∷ ps), t))
          × Grown ((k, d) ∷ ps) t
    unfolding insert_all
    Grown-all k d [] up room = let (t, run, g) = Grown-first k d in (t, rw run, g)
    Grown-all k d ((k', d') ∷ ps) (above, up) room =
        let (t, run, g) = Grown-all k' d' ps up (omega arith) in
        let (t', run', g') = Grown-next g k d room above in (t', rw (run, run'), g')
