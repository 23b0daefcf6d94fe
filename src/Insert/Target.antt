-- ===== src/Insert/Target.antt =====
-- `insert` on a search tree of any height, where the leaf for the key has room.
use ccpbtree.Base.{
  ℕ, ◌+◌, ◌%◌, ◌^◌, ◌<◌, ◌≡◌, refl, ◌≢◌, ◌⊎◌, ◌↔◌, inl, inr, true, some, arith, put, pos,
}
use ccpbtree.Store.{Ptr, null, LeafNode, leaf, Tree, Traits, ok, write, up_key_count}
use ccpbtree.KeyOrder.{IsTotal}
use ccpbtree.Leaf.{insert_leaf_pair, find_key_loc}
use ccpbtree.Leaf.Keys.{find_key_loc-last}
use ccpbtree.Leaf.Pair.{Room, Ends, Holds, Inserted, insert_leaf_pair-Inserted}
use ccpbtree.Find.{find, get}
use ccpbtree.Find.Shape.{Has, IsTree}
use ccpbtree.Find.Descend.{not_null}
use ccpbtree.Find.Walk.{Beyond-ne}
use ccpbtree.Find.Route.{Route-End}
use ccpbtree.Find.Replace.{Replaced}
use ccpbtree.Find.Update.{Written, Route-Subtree}
use ccpbtree.Find.Members.{Has-forth, Has-back, Route-Has, Route-Has_new}
use ccpbtree.Find.Lookup.{get-Has}
use ccpbtree.Insert.{insert}
use ccpbtree.Insert.Slots.{
  Inserted-among, InLeaf-back, InLeaf-forth, InLeaf-new, InLeaf-only, InLeaf-append,
}
use ccpbtree.Find.Target.{Target, find-Target, Target-Route}

module _ {K V : Type 0} (p : Traits K V) where
  open p use {keyless, leafslots, blank}

  -- The tree after the pair has gone into the leaf at `q`.
  abbrev pub with_leaf_at : Tree K V → Ptr → LeafNode K V → Tree K V
  with_leaf_at t q l = record t {
    heap = put t.heap q (some (leaf l));
    total_key_count = (t.total_key_count + 1) % 2 ^ 32;
  }

  -- `insert` into a leaf that takes the pair.
  pub insert-with_leaf_at :
      {t : Tree K V} {q : Ptr} (k : K) (d : V) (l' : LeafNode K V)
      → t.root ≢ null
      → q ≢ null
      → find p k t ≡ ok (q, t)
      → insert_leaf_pair p q k d t ≡ ok (pos 1, write q (some (leaf l')) t)
      → insert p k d t ≡ ok (pos 1, with_leaf_at t q l')
  unfolding insert up_key_count
  insert-with_leaf_at k d l' rooted there found run = ground (arith, found, run)

  module _ (o : IsTotal p) {t : Tree K V} {h : ℕ} {k : K} {q : Ptr} {l : LeafNode K V}
      (tree : IsTree p t h) (e : Target p t k q l) where
    Target-Ends : Ends p t l k
    Target-Ends =
        let end = Route-End p (Target-Route p tree e) in
        elim end.shape.next [
          | inl absent ↦ inl absent
          | inr s ↦ inr (
            s.node,
            s.here,
            let less : keyless k (s.node.key_slots 0) ≡ true =
                  Beyond-ne p o end.high k (s.node.key_slots 0) end.below
                    (s.beyond 0 s.in_use_pos) in
                ground (arith, less),
          )
        ]

    Target-Room : Room p t q l k
    Target-Room = record {
      here = e.here;
      valid = e.valid;
      room = e.room;
      last = Target-Ends;
      sorted = (Route-End p (Target-Route p tree e)).shape.sorted;
      used = tree.brk_pos;
    }

    module _ (d : V) {l' : LeafNode K V} (after : Inserted p k Target-Room d o l') where
      with_leaf_at-Replaced : Replaced t (with_leaf_at t q l') q l l'
      with_leaf_at-Replaced = record { here = e.here; heap_eq = refl }

      Inserted-Written : Written p k l l'
      Inserted-Written = record {
        covered = record {
          used = e.used;
          used' = omega (arith, after.count);
          among = Inserted-among p o after;
        };
        in_use_le = omega (arith, after.count, e.room);
        sorted = after.sorted;
        next_same = after.next_same;
      }

      with_leaf_at-IsTree : IsTree p (with_leaf_at t q l') h
      with_leaf_at-IsTree = record {
        shape = Route-Subtree p o with_leaf_at-Replaced Inserted-Written (Target-Route p tree e);
        height_le = tree.height_le;
        brk_pos = tree.brk_pos;
      }

      keys-with_leaf_at :
          (a : K)
          → ((v : V) × Has (with_leaf_at t q l') a v h t.root)
            ↔ ((a ≡ k) ⊎ ((v : V) × Has t a v h t.root))
      keys-with_leaf_at a = (
        λ (v, has). elim (Has-back p with_leaf_at-Replaced has) [
          | inl there ↦ inr (v, there)
          | inr held ↦ elim (InLeaf-back p o after held) [
            | inl same ↦ inl same
            | inr (u, old) ↦ inr (u, Route-Has p with_leaf_at-Replaced (Target-Route p tree e) old)
          ]
        ],
        λ s. elim s [
          | inl same ↦ (
            d,
            rw same (
                Route-Has_new p with_leaf_at-Replaced (Target-Route p tree e)
                  (InLeaf-new p o after)),
          )
          | inr (v, has) ↦ elim (Has-forth p with_leaf_at-Replaced has) [
            | inl there ↦ (v, there)
            | inr held ↦
                let (u, new) = InLeaf-forth p o after held in
                (u, Route-Has_new p with_leaf_at-Replaced (Target-Route p tree e) new)
          ]
        ],
      )

      only-with_leaf_at :
          ((v : V) → ¬ Has t k v h t.root)
          → {v : V} → Has (with_leaf_at t q l') k v h t.root
          → v ≡ d
      only-with_leaf_at absent {v} has = elim (Has-back p with_leaf_at-Replaced has) [
        | inl there ↦ absurd (absent v there)
        | inr held ↦
            InLeaf-only p o after
              (λ u old. absent u (Route-Has p with_leaf_at-Replaced (Target-Route p tree e) old))
              held
      ]

      append-with_leaf_at :
          find_key_loc p l k ≡ l.slots_in_use
          → (a : K) (v : V)
          → Has (with_leaf_at t q l') a v h t.root ↔ (((a ≡ k) × (v ≡ d)) ⊎ Has t a v h t.root)
      append-with_leaf_at last a v = (
        λ has. elim (Has-back p with_leaf_at-Replaced has) [
          | inl there ↦ inr there
          | inr held ↦ elim ((InLeaf-append p o after last).0 held) [
            | inl new ↦ inl new
            | inr old ↦ inr (Route-Has p with_leaf_at-Replaced (Target-Route p tree e) old)
          ]
        ],
        λ s. elim s [
          | inl new ↦
              Route-Has_new p with_leaf_at-Replaced (Target-Route p tree e)
                ((InLeaf-append p o after last).1 (inl new))
          | inr has ↦ elim (Has-forth p with_leaf_at-Replaced has) [
            | inl there ↦ there
            | inr held ↦
                Route-Has_new p with_leaf_at-Replaced (Target-Route p tree e)
                  ((InLeaf-append p o after last).1 (inr held))
          ]
        ],
      )

    module _ (d : V) (new : ¬ Holds p l k d) where
      insert-Target :
          (l' : LeafNode K V) × (insert p k d t ≡ ok (pos 1, with_leaf_at t q l'))
          × Inserted p k Target-Room d o l'
      insert-Target =
          let (l', run, after) = insert_leaf_pair-Inserted p k Target-Room d o new in
          (
            l',
            insert-with_leaf_at k d l' (not_null p tree.shape) e.here.ne_null (find-Target p tree e)
                run,
            after,
          )

      -- `insert` of a pair into a search tree of any height, where keys are in a total order and
      -- the leaf at which the descent ends has a key, room and fewer than 65536 slots, and does not
      -- hold the pair, returns 1 and counts the key modulo 2 ^ 32. The tree is a search tree of the
      -- same height again.
      pub insert-IsTree :
          (t' : Tree K V) × (insert p k d t ≡ ok (pos 1, t'))
          × IsTree p t' h
          × (t'.total_key_count ≡ (t.total_key_count + 1) % 2 ^ 32)
      insert-IsTree =
          let (l', run, after) = insert-Target in
          (with_leaf_at t q l', run, with_leaf_at-IsTree d after, refl)

      -- `insert` of a pair into a search tree of any height, where keys are in a total order and
      -- the leaf at which the descent ends has a key, room and fewer than 65536 slots, and does not
      -- hold the pair, returns 1. It adds its key to those that the tree holds, and no other, and
      -- loses none.
      pub insert-keys :
          (t' : Tree K V) × (insert p k d t ≡ ok (pos 1, t'))
          × ((a : K)
              → ((v : V) × Has t' a v h t'.root) ↔ ((a ≡ k) ⊎ ((v : V) × Has t a v h t.root)))
      insert-keys =
          let (l', run, after) = insert-Target in
          (with_leaf_at t q l', run, keys-with_leaf_at d after)

      -- `insert` of a pair into a search tree of any height, where keys are in a total order and
      -- the leaf at which the descent ends has a key, room and fewer than 65536 slots, and does not
      -- hold the pair, and whose keys are all less than the new one, returns 1. It adds its pair to
      -- those that the tree holds, and changes no other pair.
      pub insert-append :
          ((i : ℕ) → i < l.slots_in_use → keyless (l.key_slots i) k ≡ true)
          → (t' : Tree K V) × (insert p k d t ≡ ok (pos 1, t'))
            × ((a : K) (v : V) → Has t' a v h t'.root ↔ (((a ≡ k) × (v ≡ d)) ⊎ Has t a v h t.root))
      insert-append greater =
          let (l', run, after) = insert-Target in
          (with_leaf_at t q l', run, append-with_leaf_at d after (find_key_loc-last p l k greater))

      -- `insert` of a pair into a search tree of any height, where keys are in a total order and
      -- the leaf at which the descent ends has a key, room and fewer than 65536 slots, and does not
      -- hold the pair, returns 1. If the tree did not hold the key, `get` of it then ends with the
      -- data of the pair.
      pub get-insert :
          ((v : V) → ¬ Has t k v h t.root)
          → (t' : Tree K V) × (insert p k d t ≡ ok (pos 1, t')) × (get p k t' ≡ ok ((d, true), t'))
      get-insert absent =
          let (l', run, after) = insert-Target in
          (
            with_leaf_at t q l',
            run,
            elim (get-Has p o (with_leaf_at-IsTree d after) k) [
              | inl (v, has, got) ↦ rw (← only-with_leaf_at d after absent has) got
              | inr (got, none_held) ↦ absurd (
                  none_held d (
                    Route-Has_new p (with_leaf_at-Replaced d after) (Target-Route p tree e)
                      (InLeaf-new p o after)))
            ],
          )
