-- ===== src/Catalog/Order.antt =====
-- The trees and the counts in a list of indexes of bptree.cc, whatever the names are.
use ccpbtree.Base.{
  ℕ, ◌+◌, ◌≤◌, ◌<◌, ◌≡◌, refl, sym, ◌∙◌, ◌⊎◌, inl, inr, some, List, [], ◌∷◌, ◌++◌, arith, ℤ, pos,
  ap,
}
use mathlib.Core.Path.{subst}
use ccpbtree.Server.{Text}
use ccpbtree.Catalog.{Strings, DbLink, found, find_link, set_threads}
use ccpbtree.Catalog.Links.{eq_of_text_eq, Option-cases}

-- The tree of a link was made, and its count is from 0 to the greatest `int`.
pub record Fine (next : ℕ) (l : DbLink) : Type 0 where
  pub made : l.nbt < next
  pub opens : ℕ
  pub count : l.num_open_threads ≡ pos opens
  pub small : opens ≤ 0x7FFFFFFF

abbrev pub Above : ℕ → List DbLink → Type 0
Above n [] = Unit {0}
Above n (l ∷ ls) = (n < l.nbt) × Above n ls

-- Every link is fine, and the trees stand in the order in which they were made.
abbrev pub Sorted : ℕ → List DbLink → Type 0
Sorted next [] = Unit {0}
Sorted next (l ∷ ls) = Fine next l × Above l.nbt ls × Sorted next ls

Above-append :
    (n : ℕ) (ls : List DbLink) (l : DbLink) → Above n ls → n < l.nbt → Above n (ls ++ l ∷ [])
Above-append n [] l a lt = (lt, tt)
Above-append n (k ∷ ls) l (first, rest) lt = (first, Above-append n ls l rest lt)

pub Sorted-append :
    (next : ℕ) (ls : List DbLink) (l : DbLink)
    → Sorted next ls
    → l.nbt ≡ next
    → l.num_open_threads ≡ pos 0
    → Sorted (next + 1) (ls ++ l ∷ [])
Sorted-append next [] l s new count =
    (record { made = omega arith; opens = 0; count = count; small = omega arith }, tt, tt)
Sorted-append next (k ∷ ls) l (fine, above, rest) new count = (
  record {
    made = omega (arith, fine.made);
    opens = fine.opens;
    count = fine.count;
    small = fine.small;
  },
  Above-append k.nbt ls l above (omega (arith, fine.made)),
  Sorted-append next ls l rest new count,
)

set_threads-cases :
    (b : Strings) (q : ℕ) (n : ℤ) (l : DbLink) (ls : List DbLink)
    → (set_threads b q n (l ∷ ls) ≡ record l { num_open_threads = n } ∷ ls)
      ⊎ (set_threads b q n (l ∷ ls) ≡ l ∷ set_threads b q n ls)
unfolding set_threads find_link
set_threads-cases b q n l ls = ground arith

Above-set_threads :
    (b : Strings) (q : ℕ) (n : ℤ) (m : ℕ) (ls : List DbLink)
    → Above m ls
    → Above m (set_threads b q n ls)
unfolding set_threads
Above-set_threads b q n m [] a = tt
Above-set_threads b q n m (l ∷ ls) (first, rest) = elim (set_threads-cases b q n l ls) [
  | inl here ↦ subst (Above m) (sym here) (first, rest)
  | inr other ↦ subst (Above m) (sym other) (first, Above-set_threads b q n m ls rest)
]

pub Sorted-set_threads :
    (b : Strings) (q n next : ℕ) (ls : List DbLink)
    → n ≤ 0x7FFFFFFF
    → Sorted next ls
    → Sorted next (set_threads b q (pos n) ls)
unfolding set_threads
Sorted-set_threads b q n next [] small s = tt
Sorted-set_threads b q n next (l ∷ ls) small (fine, above, rest) =
    elim (set_threads-cases b q (pos n) l ls) [
      | inl here ↦
          subst (Sorted next) (sym here)
            (record { made = fine.made; opens = n; count = refl; small = small }, above, rest)
      | inr other ↦ subst (Sorted next) (sym other) (
        fine,
        Above-set_threads b q (pos n) l.nbt ls above,
        Sorted-set_threads b q n next ls small rest,
      )
    ]

-- The link that is found is the first, or found behind it.
find_link-cases :
    (b : Strings) (name : Text) (k : DbLink) (ls : List DbLink) (l : DbLink)
    → find_link b name (k ∷ ls) ≡ found l
    → ((b k.name ≡ some name) × (l ≡ k)) ⊎ (find_link b name ls ≡ found l)
unfolding find_link
find_link-cases b name k ls l h = elim (Option-cases (b k.name)) [
  | inl absent ↦ ground (arith, absent)
  | inr (s, there) ↦ ground (arith, there, eq_of_text_eq name s)
]

pub find_link-Fine :
    (b : Strings) (name : Text) (next : ℕ) (ls : List DbLink) (l : DbLink)
    → Sorted next ls
    → find_link b name ls ≡ found l
    → Fine next l
unfolding find_link
find_link-Fine b name next [] l s h = cc
find_link-Fine b name next (k ∷ ls) l (fine, above, rest) h =
    elim (find_link-cases b name k ls l h) [
      | inl (e, same) ↦ subst (Fine next) (sym same) fine
      | inr later ↦ find_link-Fine b name next ls l rest later
    ]

find_link-Above :
    (b : Strings) (name : Text) (n : ℕ) (ls : List DbLink) (l : DbLink)
    → Above n ls
    → find_link b name ls ≡ found l
    → n < l.nbt
unfolding find_link
find_link-Above b name n [] l a h = cc
find_link-Above b name n (k ∷ ls) l (first, rest) h = elim (find_link-cases b name k ls l h) [
  | inl (e, same) ↦ rw same first
  | inr later ↦ find_link-Above b name n ls l rest later
]

some-inj : {A : Type 0} {x y : A} → some x ≡ some y → x ≡ y
some-inj h = cc

pub find_link-apart :
    (b : Strings) (x y : Text) (next : ℕ) (ls : List DbLink) (l m : DbLink)
    → Sorted next ls
    → find_link b x ls ≡ found l
    → find_link b y ls ≡ found m
    → l.nbt ≡ m.nbt
    → x ≡ y
unfolding find_link
find_link-apart b x y next [] l m s h g same = cc
find_link-apart b x y next (k ∷ ls) l m (fine, above, rest) h g same =
    elim (find_link-cases b x k ls l h) [
      | inl (e, first) ↦ elim (find_link-cases b y k ls m g) [
        | inl (e', first') ↦ some-inj (sym e ∙ e')
        | inr later ↦ absurd (
            omega (
              arith,
              find_link-Above b y k.nbt ls m above later,
              same,
              ap (λ (x : DbLink). x.nbt) first,
            ))
      ]
      | inr later ↦ elim (find_link-cases b y k ls m g) [
        | inl (e', first') ↦ absurd (
            omega (
              arith,
              find_link-Above b x k.nbt ls l above later,
              same,
              ap (λ (x : DbLink). x.nbt) first',
            ))
        | inr later' ↦ find_link-apart b x y next ls l m rest later later' same
      ]
    ]
