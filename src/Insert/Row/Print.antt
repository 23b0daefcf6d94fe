-- ===== src/Insert/Row/Print.antt =====
-- `printleaves` on a row.
use ccpbtree.Base.{
  ℕ, zero, suc, ◌+◌, ◌≤◌, ◌<◌, ◌≡◌, refl, ap, ◌∙◌, inl, true, false, arith, List, [], ◌++◌,
}
use ccpbtree.Store.{Ptr, null, LeafNode, InnerNode, leaf, Tree, Traits, ok}
use ccpbtree.Store.Points.{Points, load_leaf-ok}
use ccpbtree.KeyOrder.{IsTotal, le_lt_trans, key_greater, key_greater_equal}
use ccpbtree.Leaf.Keys.{keys_of}
use ccpbtree.Leaf.Scan.{scan_unique}
use ccpbtree.Find.{find, keys_from, printleaves}
use ccpbtree.Find.Descend.{choice}
use ccpbtree.Find.Walk.{reach}
use ccpbtree.Insert.Row.{Row, find-choice}
use ccpbtree.Insert.Row.Keys.{keys_after}

module _ {K V : Type 0} (p : Traits K V) where
  open p use {keyless}

  -- The loop of `printleaves` on a leaf without successor.
  pub keys_from-last :
      {t : Tree K V} {q : Ptr} {l : LeafNode K V} (fuel : ℕ)
      → Points t q (leaf l)
      → l.next_leaf ≡ null
      → keys_from p (suc (suc fuel)) q t ≡ ok (keys_of p l ++ [], t)
  unfolding keys_from
  keys_from-last fuel e last = ground (arith, e.ne_null, load_leaf-ok e, last)

  keys_from-next :
      {t : Tree K V} {q : Ptr} {l : LeafNode K V} {rest : List K} (fuel : ℕ)
      → Points t q (leaf l)
      → keys_from p fuel l.next_leaf t ≡ ok (rest, t)
      → keys_from p (suc fuel) q t ≡ ok (keys_of p l ++ rest, t)
  unfolding keys_from
  keys_from-next fuel e run = ground (arith, e.ne_null, load_leaf-ok e, run)

  module _ (o : IsTotal p) {t : Tree K V} {m : ℕ} {n : InnerNode K} {leaves : ℕ → LeafNode K V}
      (r : Row p t m n leaves) where
    keys_from-Row :
        (fuel j left : ℕ)
        → j + left ≡ m
        → left < fuel
        → keys_from p (suc fuel) (n.first_child j) t ≡ ok (keys_after p leaves j (suc left), t)
    keys_from-Row zero j left sum enough = absurd (omega arith)
    keys_from-Row (suc fuel) j zero sum enough =
        let e : j ≡ m = omega arith in
        keys_from-last fuel (r.leaf_here j (omega arith)) (rw e r.last)
    keys_from-Row (suc fuel) j (suc left) sum enough =
        keys_from-next (suc fuel) (r.leaf_here j (omega arith)) (
          ap (λ (q : Ptr). keys_from p (suc fuel) q t) (r.next j (omega arith))
          ∙ keys_from-Row fuel (j + 1) left (omega arith) (omega arith))

    -- A key that no key is less than is sought in the first leaf.
    module _ (z : K)
        (none_less : (i : ℕ)
          → i ≤ m
          → (a : ℕ) → a < (leaves i).slots_in_use
          → keyless ((leaves i).key_slots a) z ≡ false) where
      separator_greater : keyless z (n.key_slots 0) ≡ true
      separator_greater =
          le_lt_trans o z ((leaves 0).key_slots 0) (n.key_slots 0)
            (none_less 0 (omega arith) 0 (r.used 0 (omega arith)))
            (r.below 0 r.some_keys 0 (r.used 0 (omega arith)))

      choice-first : choice p n z ≡ 0
      choice-first =
          scan_unique p (λ s. key_greater p s z) n.key_slots n.slots_in_use 0 0 (omega arith)
            (omega arith) (λ j a b. absurd (omega arith)) (λ h. separator_greater)

      reach-first : reach p (leaves 0) z ≡ 0
      reach-first =
          scan_unique p (λ s. key_greater_equal p s z) (leaves 0).key_slots (leaves 0).slots_in_use
            0 0 (omega arith) (omega arith) (λ j a b. absurd (omega arith))
            (λ h. rw (none_less 0 (omega arith) 0 (r.used 0 (omega arith))) refl)

      find-first : find p z t ≡ ok (n.first_child 0, t)
      find-first =
          find-choice p o r z 0 (omega arith) choice-first
            (inl (rw reach-first (r.used 0 (omega arith))))

      pub printleaves-Row : printleaves p z t ≡ ok (keys_after p leaves 0 (suc m), t)
      unfolding printleaves
      printleaves-Row =
          let enough : t.brk + 1 ≡ suc t.brk = omega arith in
          let run : keys_from p (t.brk + 1) (n.first_child 0) t
              ≡ ok (keys_after p leaves 0 (suc m), t) =
            ap (λ f. keys_from p f (n.first_child 0) t) enough
            ∙ keys_from-Row t.brk 0 m (omega arith) (omega (arith, r.spare)) in
          rw (find-first, run) refl
