-- ===== src/Insert/Built.antt =====
-- The search trees that `insert` with ascending keys builds, from the empty one to a full root.
use ccpbtree.Base.{
  suc, ◌-◌, ap, refl, ◌++◌, ℕ, ◌+◌, ◌*◌, ◌/◌, ◌%◌, ◌^◌, ◌≤◌, ◌<◌, ◌≡◌, sym, ◌∙◌, ◌↔◌, inl, inr,
  true, false, arith, List, [], ◌∷◌,
}
use mathlib.Core.Path.{subst}
use native.Mathlib.Decide.{dec_lt}
use native.Mathlib.Nat.{mul-le-mul}
use ccpbtree.Store.{LeafNode, Tree, Traits, ok, new_tree}
use ccpbtree.KeyOrder.{IsTotal}
use mathlib.Core.List.{append-nil}
use ccpbtree.Leaf.Keys.{keys_of}
use ccpbtree.Delete.Root.{find-RootLeaf}
use ccpbtree.Insert.Row.Print.{keys_from-last, printleaves-Row}
use ccpbtree.Find.{get, keys_from, printleaves}
use ccpbtree.Find.Lookup.{get-Has}
use ccpbtree.Find.Shape.{InLeaf, Has, IsTree, leaf_at, in_leaf}
use ccpbtree.Find.Descend.{leaf_unique}
use ccpbtree.Insert.Ascending.{keys_up, In, count_of, Ascending, insert_all, ones}
use ccpbtree.Insert.Grown.{Grown, Grown-all}
use ccpbtree.Insert.Row.{Row-IsTree, Has-Row}
use ccpbtree.Insert.Spread.{Spread, Spread-all}

module _ {K V : Type 0} (p : Traits K V) where
  open p use {keyless, leafslots, nodeslots, blank}

  -- A search tree that holds the pairs of the sequence, and no other.
  pub record Built (ps : List (K × V)) (t : Tree K V) : Type 0 where
    pub height : ℕ
    pub tree : IsTree p t height
    pub holds : (a : K) (v : V) → Has t a v height t.root ↔ In p a v ps
    pub total : t.total_key_count ≡ count_of p ps % 2 ^ 32
    pub printed :
        (z : K)
        → ((a : K) (v : V) → In p a v ps → keyless a z ≡ false)
        → printleaves p z t ≡ ok (keys_up p ps, t)

  module _ (o : IsTotal p) where
    printleaves-Grown :
        {ps : List (K × V)} {t : Tree K V} (z : K)
        → Grown p ps t
        → printleaves p z t ≡ ok (keys_up p ps, t)
    unfolding printleaves
    printleaves-Grown {ps} {t} z g =
        let enough : t.brk + 1 ≡ suc (suc (t.brk - 1)) = omega (arith, g.root.used) in
        let run : keys_from p (t.brk + 1) t.root t ≡ ok (keys_of p g.node ++ [], t) =
          ap (λ n. keys_from p n t.root t) enough
          ∙ keys_from-last p (t.brk - 1) g.root.root.here g.root.root.last in
        rw (find-RootLeaf p g.root.root z, run)
          (ap (λ x. ok (x, t)) (append-nil (keys_of p g.node) ∙ g.stacked.listed))

    printleaves-Spread :
        {ps : List (K × V)} {t : Tree K V} (z : K) (s : Spread p ps t)
        → ((a : K) (v : V) → In p a v ps → keyless a z ≡ false)
        → printleaves p z t ≡ ok (keys_up p ps, t)
    printleaves-Spread {ps} {t} z s least =
        printleaves-Row p o s.row z (λ j h a inside.
          least ((s.leaves j).key_slots a) ((s.leaves j).data_slots a) (
            (s.holds ((s.leaves j).key_slots a) ((s.leaves j).data_slots a)).0
              (j, h, (a, inside, refl, refl))))
        ∙ ap (λ x. ok (x, t)) s.listed

    Grown-Built :
        {ps : List (K × V)} {t : Tree K V} → Grown p ps t → count_of p ps < 2 ^ 32 → Built ps t
    Grown-Built {ps} {t} g few = record {
      height = 0;
      tree = record {
        shape = leaf_at g.node g.root.root.here (record {
          in_use_le = g.root.root.valid.in_use_le;
          sorted = g.root.sorted;
          at_least = λ i h. tt;
          below = λ i h. tt;
          next = inl g.root.root.last;
        });
        height_le = omega arith;
        brk_pos = g.root.used;
      };
      holds = λ a v. (
        λ has. elim has [
          | in_leaf l e held ↦
              (g.stacked.holds a v).0
                (subst (λ (y : LeafNode K V). InLeaf y a v) (leaf_unique p e g.root.root.here) held)
        ],
        λ held. in_leaf g.node g.root.root.here ((g.stacked.holds a v).1 held),
      );
      total = omega (arith, g.total, few);
      printed = λ z least. printleaves-Grown z g;
    }

    Spread-Built : {ps : List (K × V)} {t : Tree K V} → Spread p ps t → Built ps t
    Spread-Built s = record {
      height = 1;
      tree = Row-IsTree p o s.row;
      holds = λ a v. (
        λ has. (s.holds a v).0 ((Has-Row p o s.row a v).0 has),
        λ held. (Has-Row p o s.row a v).1 ((s.holds a v).1 held),
      );
      total = s.total;
      printed = λ z least. printleaves-Spread z s least;
    }

    insert_all-Built :
        1 < leafslots
        → leafslots < 65536
        → leafslots ≡ nodeslots
        → (k : K) (d : V) (ps : List (K × V)) → Ascending p ((k, d) ∷ ps)
        → count_of p ps < nodeslots * (leafslots / 2) + leafslots
        → (t : Tree K V) × (insert_all p ((k, d) ∷ ps) new_tree ≡ ok (ones p ((k, d) ∷ ps), t))
          × Built ((k, d) ∷ ps) t
    insert_all-Built two small same k d ps up fits = elim (dec_lt (count_of p ps) leafslots) [
      | yes room ↦
          let (t, run, g) = Grown-all p o two small k d ps up room in
          (t, run, Grown-Built g (omega arith))
      | no full ↦
          let (t, run, s) = Spread-all p o two small same k d ps up (omega arith) fits in
          (t, run, Spread-Built s)
    ]

    -- A key of an ascending sequence stands there once.
    In-unique :
        (ps : List (K × V)) → Ascending p ps → (a : K) (u v : V) → In p a u ps → In p a v ps → u ≡ v
    In-unique [] up a u v x y = absurd x
    In-unique ((k, d) ∷ ps) (above, up) a u v (inl (e, f)) (inl (e', f')) = f ∙ sym f'
    In-unique ((k, d) ∷ ps) (above, up) a u v (inl (e, f)) (inr y) =
        cc (above a v y, e, o.irreflexive k)
    In-unique ((k, d) ∷ ps) (above, up) a u v (inr x) (inl (e, f)) =
        cc (above a u x, e, o.irreflexive k)
    In-unique ((k, d) ∷ ps) (above, up) a u v (inr x) (inr y) = In-unique ps up a u v x y

    -- What `get` gives on such a tree.
    get-Built :
        {ps : List (K × V)} {t : Tree K V}
        → Ascending p ps
        → Built ps t
        → ((a : K) (v : V) → In p a v ps → get p a t ≡ ok ((v, true), t))
          × ((a : K) → ((v : V) → ¬ In p a v ps) → get p a t ≡ ok ((blank, false), t))
    get-Built {ps} {t} up b = (
      λ a v held. elim (get-Has p o b.tree a) [
        | inl (u, has, got) ↦ rw (In-unique ps up a v u held ((b.holds a u).0 has)) got
        | inr (got, absent) ↦ absurd (absent v ((b.holds a v).1 held))
      ],
      λ a none_held. elim (get-Has p o b.tree a) [
        | inl (u, has, got) ↦ absurd (none_held u ((b.holds a u).0 has))
        | inr (got, absent) ↦ got
      ],
    )

    -- The pairs of a full tree of two levels are fewer than 2 ^ 32.
    total-Built :
        {ps : List (K × V)} {t : Tree K V}
        → leafslots < 65536
        → leafslots ≡ nodeslots
        → Built ps t
        → count_of p ps ≤ nodeslots * (leafslots / 2) + leafslots
        → t.total_key_count ≡ count_of p ps
    total-Built {ps} small same b few =
        let most : nodeslots * (leafslots / 2) ≤ 65535 * 32767 =
          mul-le-mul {n₁ = nodeslots} {m₁ = leafslots / 2} {n₂ = 65535} {m₂ = 32767}
            (omega (arith, small, same)) (omega (arith, small)) in
        omega (arith, b.total, most)

    -- `insert` of a sequence of pairs with strictly ascending keys into the empty tree, at most as
    -- many as a leaf has slots and half as many more, rounded down, for each slot of an inner node:
    -- every call returns 1, and then the tree counts the pairs, `get` gives for each key its data,
    -- and reports for every other key that there is none. Leaves have as many slots as inner nodes,
    -- at least 2 and fewer than 65536. The keys are totally ordered.
    pub get-insert_all :
        (k : K) (d : V) (ps : List (K × V))
        → 1 < leafslots
        → leafslots < 65536
        → leafslots ≡ nodeslots
        → Ascending p ((k, d) ∷ ps)
        → count_of p ps < nodeslots * (leafslots / 2) + leafslots
        → (t : Tree K V) × (insert_all p ((k, d) ∷ ps) new_tree ≡ ok (ones p ((k, d) ∷ ps), t))
          × (t.total_key_count ≡ count_of p ps + 1)
          × ((a : K) (v : V) → In p a v ((k, d) ∷ ps) → get p a t ≡ ok ((v, true), t))
          × ((a : K) → ((v : V) → ¬ In p a v ((k, d) ∷ ps)) → get p a t ≡ ok ((blank, false), t))
    get-insert_all k d ps two small same up fits =
        let (t, run, b) = insert_all-Built two small same k d ps up fits in
        let (held, absent) = get-Built up b in
        (t, run, total-Built small same b (omega arith), held, absent)

    -- `insert` of a sequence of pairs with strictly ascending keys into the empty tree, at most as
    -- many as a leaf has slots and half as many more, rounded down, for each slot of an inner node:
    -- every call returns 1, and then `printleaves` prints the keys of the sequence, each once and in
    -- its order. None of the keys is less than the key 0 from which `printleaves` starts. Leaves have
    -- as many slots as inner nodes, at least 2 and fewer than 65536. The keys are totally ordered.
    pub printleaves-insert_all :
        (k : K) (d : V) (ps : List (K × V)) (zero_key : K)
        → 1 < leafslots
        → leafslots < 65536
        → leafslots ≡ nodeslots
        → Ascending p ((k, d) ∷ ps)
        → count_of p ps < nodeslots * (leafslots / 2) + leafslots
        → ((a : K) (v : V) → In p a v ((k, d) ∷ ps) → keyless a zero_key ≡ false)
        → (t : Tree K V) × (insert_all p ((k, d) ∷ ps) new_tree ≡ ok (ones p ((k, d) ∷ ps), t))
          × (printleaves p zero_key t ≡ ok (keys_up p ((k, d) ∷ ps), t))
    printleaves-insert_all k d ps zero_key two small same up fits least =
        let (t, run, b) = insert_all-Built two small same k d ps up fits in
        (t, run, b.printed zero_key least)
