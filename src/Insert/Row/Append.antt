-- ===== src/Insert/Row/Append.antt =====
-- `insert` of a key above all others into a row whose last leaf has room.
use ccpbtree.Base.{
  suc, [], ◌∷◌, ◌++◌, ap₂, ℕ, ◌+◌, ◌%◌, ◌^◌, ◌≤◌, ◌<◌, ◌≡◌, refl, sym, ap, ◌∙◌, ◌⊎◌, ◌↔◌, inl, inr,
  true, arith, pos,
}
use mathlib.Core.Path.{subst}
use native.Mathlib.Decide.{ℕ_discrete}
use ccpbtree.Store.{null, LeafNode, InnerNode, leaf, Tree, Traits, ok}
use ccpbtree.Store.Points.{Points, Keeps}
use ccpbtree.KeyOrder.{IsTotal, asymmetric}
use ccpbtree.Leaf.{find_key_loc}
use mathlib.Core.List.{append_assoc}
use ccpbtree.Insert.Row.Keys.{keys_after, keys_after-last, keys_after-ext}
use ccpbtree.Leaf.Keys.{keys_of, IsLeaf, IsStrict, find_key_loc-last}
use ccpbtree.Leaf.Pair.{Room, Holds, Inserted, insert_leaf_pair-Inserted}
use ccpbtree.Find.Shape.{InLeaf}
use ccpbtree.Find.Replace.{Replaced, new_here, Points-other, Points-inner}
use ccpbtree.Insert.{insert}
use ccpbtree.Insert.Row.{Row, InRow, find-Row}
use ccpbtree.Insert.Row.Leaves.{with_last, with_last-all}
use ccpbtree.Insert.Slots.{keys_of-append, InLeaf-append, Inserted-IsStrict, key-before}
use ccpbtree.Insert.Target.{with_leaf_at, insert-with_leaf_at}

module _ {K V : Type 0} (p : Traits K V) (o : IsTotal p) {t : Tree K V} {m : ℕ} {n : InnerNode K}
    {leaves : ℕ → LeafNode K V} (r : Row p t m n leaves) (k : K) (d : V)
    (above : (i : ℕ)
      → i ≤ m
      → (a : ℕ) → a < (leaves i).slots_in_use
      → p.keyless ((leaves i).key_slots a) k ≡ true) where
  open p use {keyless, leafslots, nodeslots}

  abbrev last_leaf : LeafNode K V
  last_leaf = leaves m

  last_absent : ¬ Holds p last_leaf k d
  last_absent (a, lt, e, same) = cc (above m (omega arith) a lt, e, o.irreflexive k)

  module _ (room : (leaves m).slots_in_use < p.leafslots) where
    pub last_Room : Room p t (n.first_child m) last_leaf k
    last_Room = record {
      here = r.leaf_here m (omega arith);
      valid = r.valid m (omega arith);
      room = room;
      last = inl r.last;
      sorted = λ i j less inside.
          asymmetric o (last_leaf.key_slots i) (last_leaf.key_slots j)
            (r.strict m (omega arith) i j less inside);
      used = omega (arith, r.root_old);
    }

    module _ {l' : LeafNode K V} (after : Inserted p k last_Room d o l') where
      abbrev tree' : Tree K V
      tree' = with_leaf_at p t (n.first_child m) l'

      replaced : Replaced t tree' (n.first_child m) last_leaf l'
      replaced = record { here = r.leaf_here m (omega arith); heap_eq = refl }

      first_kept : l'.key_slots 0 ≡ last_leaf.key_slots 0
      first_kept = key-before p o after 0 (
          omega (
            arith,
            r.used m (omega arith),
            find_key_loc-last p last_leaf k (above m (omega arith)),
          ))

      pub Row-Append : Row p tree' m n (with_last leaves m l')
      Row-Append = record {
        here = Points-inner replaced r.here;
        slots_eq = r.slots_eq;
        in_use = r.in_use;
        children = r.children;
        some_keys = r.some_keys;
        fits = r.fits;
        root_old = r.root_old;
        spare = r.spare;
        leaf_here =
            all (λ i x. Points tree' (n.first_child i) (leaf x)) (new_here replaced)
              (λ i h.
                Points-other replaced (r.leaf_here i (omega arith))
                  (λ same. absurd (omega (arith, r.apart i m (omega arith) (omega arith) same))));
        old = r.old;
        apart = r.apart;
        parent =
            all (λ i x. x.parent ≡ t.root) (after.parent_same ∙ r.parent m (omega arith))
              (λ i h. r.parent i (omega arith));
        next = λ i h.
            all (λ i x. i < m → x.next_leaf ≡ n.first_child (i + 1)) (λ h. absurd (omega arith))
              (λ i h g. r.next i h) i (omega arith) h;
        last =
            all (λ i x. i ≡ m → x.next_leaf ≡ null) (λ e. after.next_same ∙ r.last)
              (λ i h e. absurd (omega arith)) m (omega arith) refl;
        valid =
            all (λ i x. IsLeaf p x)
              (record {
                slots_eq = after.slots_same ∙ (r.valid m (omega arith)).slots_eq;
                in_use_le = omega (arith, after.count, room);
                small = (r.valid m (omega arith)).small;
              })
              (λ i h. r.valid i (omega arith));
        used =
            all (λ i x. 0 < x.slots_in_use) (omega (arith, after.count))
              (λ i h. r.used i (omega arith));
        strict =
            all (λ i x. IsStrict p x)
              (Inserted-IsStrict p o after (r.strict m (omega arith)) (above m (omega arith)))
              (λ i h. r.strict i (omega arith));
        below = λ i h.
            all
              (λ i x.
                i < m
                → (a : ℕ) → a < x.slots_in_use
                → keyless (x.key_slots a) (n.key_slots i) ≡ true)
              (λ h. absurd (omega arith)) (λ i h g. r.below i h) i (omega arith) h;
        separator = λ i h.
            all (λ j x. (i : ℕ) → i + 1 ≡ j → n.key_slots i ≡ x.key_slots 0)
              (λ i e.
                r.separator i (omega arith) ∙ ap (λ j. (leaves j).key_slots 0) e ∙ sym first_kept)
              (λ j h i e. r.separator i (omega arith) ∙ ap (λ j. (leaves j).key_slots 0) e) (i + 1)
              (omega arith) i refl;
      }
        where
          all :
              (P : ℕ → LeafNode K V → Type 0)
              → P m l'
              → ((i : ℕ) → i < m → P i (leaves i))
              → (i : ℕ) → i ≤ m
              → P i (with_last leaves m l' i)
          all = with_last-all leaves m l'

      InRow-Append :
          (a : K) (v : V)
          → InRow (with_last leaves m l') m a v ↔ (((a ≡ k) × (v ≡ d)) ⊎ InRow leaves m a v)
      InRow-Append a v = (
        λ (i, h, held).
            with_last-all leaves m l'
              (λ i x. InLeaf x a v → ((a ≡ k) × (v ≡ d)) ⊎ InRow leaves m a v)
              (λ held. elim ((InLeaf-append p o after end).0 held) [
                | inl new ↦ inl new
                | inr there ↦ inr (m, omega arith, there)
              ])
              (λ i h held. inr (i, omega arith, held)) i h held,
        λ s. elim s [
          | inl new ↦ in_last ((InLeaf-append p o after end).1 (inl new))
          | inr (i, h, held) ↦ elim (ℕ_discrete i m) [
            | yes same ↦ in_last (
                (InLeaf-append p o after end).1
                  (inr (subst (λ (j : ℕ). InLeaf (leaves j) a v) same held)))
            | no other ↦
                let e : leaves i ≡ with_last leaves m l' i = ground (arith, other) in
                (i, h, subst (λ (x : LeafNode K V). InLeaf x a v) e held)
          ]
        ],
      )
        where
          end : find_key_loc p last_leaf k ≡ last_leaf.slots_in_use
          end = find_key_loc-last p last_leaf k (above m (omega arith))

          at_last : l' ≡ with_last leaves m l' m
          at_last = ground arith

          in_last : InLeaf l' a v → InRow (with_last leaves m l') m a v
          in_last held = (m, omega arith, subst (λ (x : LeafNode K V). InLeaf x a v) at_last held)

      keys-Append :
          keys_after p (with_last leaves m l') 0 (suc m) ≡ keys_after p leaves 0 (suc m) ++ k ∷ []
      keys-Append =
          let new : with_last leaves m l' (0 + m) ≡ l' = ground arith in
          keys_after-last p (with_last leaves m l') 0 m
          ∙ ap₂ ◌++◌ (keys_after-ext p (with_last leaves m l') leaves 0 m others)
              (ap (keys_of p) new ∙ keys_of-append p o after (above m (omega arith)))
          ∙ sym (append_assoc (keys_after p leaves 0 m) (keys_of p last_leaf) (k ∷ []))
          ∙ ap (λ x. keys_after p leaves 0 m ++ keys_of p (leaves x) ++ k ∷ []) (omega arith)
          ∙ ap (λ x. x ++ k ∷ []) (sym (keys_after-last p leaves 0 m))
        where
          others : (x : ℕ) → x < 0 + m → keys_of p (with_last leaves m l' x) ≡ keys_of p (leaves x)
          others x h =
              let e : with_last leaves m l' x ≡ leaves x = ground (arith, h) in ap (keys_of p) e

      Keeps-Append : Keeps t tree'
      Keeps-Append = record {
        head_same = refl;
        brk_le = omega arith;
        gone = λ x old none_there. ground (arith, none_there, (r.leaf_here m (omega arith)).holds);
      }

    -- The last leaf takes the pair.
    pub insert-Append :
        (t' : Tree K V) × (l' : LeafNode K V) × (insert p k d t ≡ ok (pos 1, t'))
        × Row p t' m n (with_last leaves m l')
        × ((a : K) (v : V)
            → InRow (with_last leaves m l') m a v ↔ (((a ≡ k) × (v ≡ d)) ⊎ InRow leaves m a v))
        × (l'.slots_in_use ≡ (leaves m).slots_in_use + 1)
        × (keys_after p (with_last leaves m l') 0 (suc m) ≡ keys_after p leaves 0 (suc m) ++ k ∷ [])
        × Keeps t t'
        × (t'.total_key_count ≡ (t.total_key_count + 1) % 2 ^ 32)
    insert-Append =
        let (l', run, after) = insert_leaf_pair-Inserted p k last_Room d o last_absent in
        (
          with_leaf_at p t (n.first_child m) l',
          l',
          insert-with_leaf_at p k d l' r.here.ne_null (r.leaf_here m (omega arith)).ne_null
              (find-Row p o r k above) run,
          Row-Append after,
          InRow-Append after,
          after.count,
          keys-Append after,
          Keeps-Append after,
          refl,
        )
