-- ===== src/Tests/Sequences.antt =====
-- The theorem on sequences of `insert` at the twelve pairs that fill a tree of two levels whose nodes
-- have four slots.
use ccpbtree.Base.{◌≢◌, ℕ, ◌≡◌, refl, List, [], ◌∷◌, true, false, arith}
use ccpbtree.Store.{Ptr, null, fault, bad_pointer, Tree, ok, new_tree}
use ccpbtree.Iterator.{at, begin, deref, forward}
use ccpbtree.Iterator.Stale.{begin-insert_all}
use ccpbtree.Find.{get, printleaves}
use ccpbtree.Insert.Ascending.{keys_up, In, Ascending, insert_all, ones}
use ccpbtree.Insert.Built.{printleaves-insert_all, get-insert_all}
use ccpbtree.Tests.Trees.{four, four_IsTotal}

abbrev eleven_pairs : List (ℕ × ℕ)
eleven_pairs =
    (11, 111)
    ∷ (10, 110)
    ∷ (9, 109)
    ∷ (8, 108)
    ∷ (7, 107)
    ∷ (6, 106)
    ∷ (5, 105)
    ∷ (4, 104)
    ∷ (3, 103)
    ∷ (2, 102)
    ∷ (1, 101)
    ∷ []

abbrev twelve_pairs : List (ℕ × ℕ)
twelve_pairs = (12, 112) ∷ eleven_pairs

twelve_Ascending : Ascending four twelve_pairs
twelve_Ascending = (
  λ a v h. ground (arith, h),
  (
    λ a v h. ground (arith, h),
    (
      λ a v h. ground (arith, h),
      (
        λ a v h. ground (arith, h),
        (
          λ a v h. ground (arith, h),
          (
            λ a v h. ground (arith, h),
            (
              λ a v h. ground (arith, h),
              (
                λ a v h. ground (arith, h),
                (
                  λ a v h. ground (arith, h),
                  (
                    λ a v h. ground (arith, h),
                    (λ a v h. ground (arith, h), (λ a v h. absurd h, tt)),
                  ),
                ),
              ),
            ),
          ),
        ),
      ),
    ),
  ),
)

get-insert_all_example :
    (t : Tree ℕ ℕ) × (insert_all four twelve_pairs new_tree ≡ ok (ones four twelve_pairs, t))
    × (t.total_key_count ≡ 12)
    × ((a v : ℕ) → In four a v twelve_pairs → get four a t ≡ ok ((v, true), t))
    × ((a : ℕ) → ((v : ℕ) → ¬ In four a v twelve_pairs) → get four a t ≡ ok ((0, false), t))
get-insert_all_example =
    get-insert_all four four_IsTotal 12 112 eleven_pairs (omega arith) (omega arith) refl
      twelve_Ascending (omega arith)

printleaves-insert_all_example :
    (t : Tree ℕ ℕ) × (insert_all four twelve_pairs new_tree ≡ ok (ones four twelve_pairs, t))
    × (printleaves four 0 t ≡ ok (keys_up four twelve_pairs, t))
printleaves-insert_all_example =
    printleaves-insert_all four four_IsTotal 12 112 eleven_pairs 0 (omega arith) (omega arith) refl
      twelve_Ascending (omega arith) (λ a v h. ground arith)

begin-insert_all_example :
    (t : Tree ℕ ℕ) × (q : Ptr) × (insert_all four twelve_pairs new_tree
      ≡ ok (ones four twelve_pairs, t))
    × (begin four t ≡ ok (at q 0, t))
    × (q ≢ null)
    × (deref four (at q 0) t ≡ fault bad_pointer)
    × (forward four (at q 0) t ≡ fault bad_pointer)
begin-insert_all_example =
    begin-insert_all four four_IsTotal 12 112 eleven_pairs (omega arith) (omega arith) refl
      twelve_Ascending (omega arith) (omega arith)
