-- ===== src/Catalog/Links.antt =====
-- The searches and the writes of the list of indexes of bptree.cc.
use ccpbtree.Base.{
  ℕ, ◌≡◌, refl, ◌⊎◌, true, false, inl, inr, Bool-cases, Option, none, some, List, [], ◌∷◌, ◌++◌,
  arith, ℤ,
}
use ccpbtree.Server.{Text, text_eq}
use ccpbtree.Catalog.{Strings, DbLink, found, at_end, find_link, look_up, set_threads}

pub text_eq_refl : (s : Text) → text_eq s s ≡ true
text_eq_refl [] = refl
text_eq_refl (x ∷ xs) = ground (arith, text_eq_refl xs)

pub eq_of_text_eq : (s u : Text) → text_eq s u ≡ true → s ≡ u
eq_of_text_eq [] [] h = refl
eq_of_text_eq [] (y ∷ ys) h = cc
eq_of_text_eq (x ∷ xs) [] h = cc
eq_of_text_eq (x ∷ xs) (y ∷ ys) h = ground (arith, eq_of_text_eq xs ys)

pub Option-cases : {A : Type 0} (o : Option A) → (o ≡ none) ⊎ ((a : A) × (o ≡ some a))
Option-cases none = inl refl
Option-cases (some a) = inr (a, refl)

pub look_up_read :
    (b : Strings) (q : ℕ) (name : Text) (ls : List DbLink)
    → b q ≡ some name
    → look_up b q ls ≡ find_link b name ls
unfolding find_link
look_up_read b q name [] h = refl
look_up_read b q name (l ∷ ls) h = ground (arith, h)

-- A link that is appended is found by its name, if none had it, and no other search changes.
pub find_link-append :
    (b : Strings) (name : Text) (ls : List DbLink) (l : DbLink)
    → find_link b name ls ≡ at_end
    → b l.name ≡ some name
    → find_link b name (ls ++ l ∷ []) ≡ found l
unfolding find_link
find_link-append b name [] l h e = ground (arith, e, text_eq_refl name)
find_link-append b name (k ∷ ls) l h e = ground (arith, find_link-append b name ls l)

pub find_link-append_other :
    (b : Strings) (key name : Text) (ls : List DbLink) (l : DbLink)
    → b l.name ≡ some name
    → text_eq key name ≡ false
    → find_link b key (ls ++ l ∷ []) ≡ find_link b key ls
unfolding find_link
find_link-append_other b key name [] l e f = ground (arith, e, f)
find_link-append_other b key name (k ∷ ls) l e f =
    ground (arith, find_link-append_other b key name ls l)

-- The count of one index is written, and no other is.
pub find_link-set_threads :
    (b : Strings) (q : ℕ) (name : Text) (n : ℤ) (ls : List DbLink) (l : DbLink)
    → b q ≡ some name
    → find_link b name ls ≡ found l
    → find_link b name (set_threads b q n ls) ≡ found (record l { num_open_threads = n })
unfolding find_link set_threads
find_link-set_threads b q name n [] l e h = cc
find_link-set_threads b q name n (k ∷ ls) l e h =
    ground (arith, find_link-set_threads b q name n ls l)

pub find_link-set_threads_other :
    (b : Strings) (q : ℕ) (name key : Text) (n : ℤ) (ls : List DbLink)
    → b q ≡ some name
    → text_eq key name ≡ false
    → find_link b key (set_threads b q n ls) ≡ find_link b key ls
unfolding find_link set_threads
find_link-set_threads_other b q name key n [] e h = refl
find_link-set_threads_other b q name key n (k ∷ ls) e h = elim (Option-cases (b k.name)) [
  | inl absent ↦ ground (arith, e, absent)
  | inr (s, there) ↦ elim (Bool-cases (text_eq name s)) [
    | inl hit ↦
        let f : text_eq key s ≡ false = rw (← eq_of_text_eq name s hit) h in
        ground (arith, e, there, hit, f)
    | inr miss ↦ ground (arith, find_link-set_threads_other b q name key n ls e h)
  ]
]

pub set_threads-set_threads :
    (b : Strings) (q : ℕ) (m n : ℤ) (ls : List DbLink)
    → set_threads b q n (set_threads b q m ls) ≡ set_threads b q n ls
unfolding set_threads find_link
set_threads-set_threads b q m n [] = refl
set_threads-set_threads b q m n (k ∷ ls) = ground (arith, set_threads-set_threads b q m n ls)

pub set_threads_same :
    (b : Strings) (q : ℕ) (name : Text) (ls : List DbLink) (l : DbLink)
    → b q ≡ some name
    → find_link b name ls ≡ found l
    → set_threads b q l.num_open_threads ls ≡ ls
unfolding find_link set_threads
set_threads_same b q name [] l e h = refl
set_threads_same b q name (k ∷ ls) l e h = ground (arith, set_threads_same b q name ls l)
