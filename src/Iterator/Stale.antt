-- ===== src/Iterator/Stale.antt =====
-- `begin` after the root has been split: `headleaf` is set by `makeroot` only, and the split frees
-- that leaf.
use ccpbtree.Base.{◌+◌, ◌*◌, ◌/◌, ◌≤◌, ◌<◌, ◌≡◌, ◌≢◌, refl, List, ◌∷◌, arith, none}
use ccpbtree.Store.{Ptr, null, Tree, Traits, ok, fault, bad_pointer, new_tree, load, load_leaf}
use ccpbtree.KeyOrder.{IsTotal}
use ccpbtree.Iterator.{at, begin, deref, key, forward}
use ccpbtree.Insert.Ascending.{count_of, Ascending, insert_all, ones}
use ccpbtree.Insert.Spread.{Spread-all}

module _ {K V : Type 0} (p : Traits K V) where
  open p use {leafslots, nodeslots}

  load_leaf-gone : (t : Tree K V) (q : Ptr) → t.heap q ≡ none → load_leaf q t ≡ fault bad_pointer
  unfolding load_leaf load
  load_leaf-gone t q e = ground (arith, e)

  deref-gone : (t : Tree K V) (q : Ptr) → t.heap q ≡ none → deref p (at q 0) t ≡ fault bad_pointer
  unfolding deref key
  deref-gone t q e = rw (load_leaf-gone t q e) refl

  forward-gone :
      (t : Tree K V) (q : Ptr) → t.heap q ≡ none → forward p (at q 0) t ≡ fault bad_pointer
  unfolding forward
  forward-gone t q e = rw (load_leaf-gone t q e) refl

  -- `insert` of a sequence of pairs with strictly ascending keys into the empty tree, more than a
  -- leaf has slots, and at most half as many more, rounded down, for each slot of an inner node:
  -- every call returns 1, and then `begin` gives an iterator at a pointer that is not NULL and whose
  -- leaf has been freed, so that its `operator*` and its `operator++` use a bad pointer. Leaves have
  -- as many slots as inner nodes, at least 2 and fewer than 65536. The keys are totally ordered.
  pub begin-insert_all :
      IsTotal p
      → (k : K) (d : V) (ps : List (K × V)) → 1 < leafslots
      → leafslots < 65536
      → leafslots ≡ nodeslots
      → Ascending p ((k, d) ∷ ps)
      → leafslots ≤ count_of p ps
      → count_of p ps < nodeslots * (leafslots / 2) + leafslots
      → (t : Tree K V) × (q : Ptr) × (insert_all p ((k, d) ∷ ps) new_tree
          ≡ ok (ones p ((k, d) ∷ ps), t))
        × (begin p t ≡ ok (at q 0, t))
        × (q ≢ null)
        × (deref p (at q 0) t ≡ fault bad_pointer)
        × (forward p (at q 0) t ≡ fault bad_pointer)
  unfolding begin
  begin-insert_all o k d ps two small same up many fits =
      let (t, run, s) = Spread-all p o two small same k d ps up many fits in
      (
        t,
        t.head_leaf,
        run,
        refl,
        s.head_there,
        deref-gone t t.head_leaf s.head_gone,
        forward-gone t t.head_leaf s.head_gone,
      )
