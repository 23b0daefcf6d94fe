-- ===== src/Catalog/Reach.antt =====
-- The catalogs that calls of `create`, `openIndex` and `closeIndex` lead to, in any order, from the
-- empty one. The strings may hold something else at each call.
use ccpbtree.Base.{
  ℕ, zero, suc, ◌+◌, ◌≤◌, ◌≡◌, refl, sym, ◌∙◌, ◌⊎◌, ◌↔◌, inl, inr, Bool, Bool-cases, Option, some,
  List, [], ◌∷◌, ◌++◌, arith, ℤ, pos, decrement, ap,
}
use ccpbtree.Server.{ErrCode, KeyType, Text, text_eq}
use ccpbtree.Catalog.{
  Strings, DbLink, Catalog, IdxState, returns, empty_catalog, Walk, found, at_end, bad_name,
  find_link, look_up, count_up, count_down, create, open_index, close_index, at_least_zero,
}
use ccpbtree.Catalog.Calls.{added, new_link, with_count}
use ccpbtree.Catalog.Links.{
  eq_of_text_eq, Option-cases, look_up_read, find_link-set_threads, find_link-set_threads_other,
}
use ccpbtree.Catalog.Order.{
  Fine, Sorted, Sorted-append, Sorted-set_threads, find_link-Fine, find_link-apart,
}

-- A call that returns, whatever it returns, where the strings hold `b`.
pub data Step (b : Strings) (c c' : Catalog) : Type 0 where
  creates :
      (log_opens : Bool) (type : KeyType) (q : ℕ) (e : ErrCode)
      → create log_opens type b q c ≡ returns e tt c'
      → Step b c c'
  opens :
      (q : ℕ) (e : ErrCode) (s : Option IdxState) → open_index b q c ≡ returns e s c' → Step b c c'
  closes :
      (s : IdxState) (e : ErrCode) (s' : IdxState)
      → close_index b s c ≡ returns e s' c'
      → Step b c c'

pub data Reachable : Catalog → Type 0 where
  start : Reachable empty_catalog
  then_step : {c c' : Catalog} (b : Strings) → Reachable c → Step b c c' → Reachable c'

pub Walk-cases : (w : Walk) → (w ≡ at_end) ⊎ (w ≡ bad_name) ⊎ ((l : DbLink) × (w ≡ found l))
Walk-cases at_end = inl refl
Walk-cases bad_name = inr (inl refl)
Walk-cases (found l) = inr (inr (l, refl))

-- A name that is found was read.
pub look_up-cases :
    (b : Strings) (q : ℕ) (ls : List DbLink) (l : DbLink)
    → look_up b q ls ≡ found l
    → (name : Text) × (b q ≡ some name) × (find_link b name ls ≡ found l)
look_up-cases b q [] l h = cc
look_up-cases b q (k ∷ ls) l h = elim (Option-cases (b q)) [
  | inl absent ↦ ground (arith, absent)
  | inr (name, read) ↦ (name, read, sym (look_up_read b q name (k ∷ ls) read) ∙ h)
]

-- What a call that returns does to the list: nothing, a new index, or a new count of one.
pub data Change (b : Strings) (c : Catalog) : Catalog → Type 0 where
  unchanged : {c' : Catalog} → c'.links ≡ c.links → c'.next_tree ≡ c.next_tree → Change b c c'
  index_added : {c' : Catalog} (type : KeyType) (q : ℕ) → c' ≡ added c type q → Change b c c'
  count_set :
      {c' : Catalog} (q : ℕ) (l : DbLink) (n : ℤ)
      → look_up b q c.links ≡ found l
      → ((m : ℕ)
          → l.num_open_threads ≡ pos m
          → m ≤ 0x7FFFFFFF
          → (k : ℕ) × (n ≡ pos k) × (k ≤ 0x7FFFFFFF))
      → c' ≡ with_count b c q n
      → Change b c c'

count_up_pos :
    (i n : ℤ)
    → count_up i ≡ some n
    → (m : ℕ) → i ≡ pos m
    → m ≤ 0x7FFFFFFF
    → (k : ℕ) × (n ≡ pos k) × (k ≤ 0x7FFFFFFF)
count_up_pos i n h m e le = (m + 1, ground (arith, e, h), ground (arith, e, h))

at_least_zero-decrement :
    (m : ℕ)
    → m ≤ 0x7FFFFFFF
    → (k : ℕ) × (at_least_zero (decrement (pos m)) ≡ pos k) × (k ≤ 0x7FFFFFFF)
at_least_zero-decrement zero le = (0, refl, omega arith)
at_least_zero-decrement (suc m) le = (m, refl, omega arith)

count_down_pos :
    (i n : ℤ)
    → count_down i ≡ some n
    → (m : ℕ) → i ≡ pos m
    → m ≤ 0x7FFFFFFF
    → (k : ℕ) × (at_least_zero n ≡ pos k) × (k ≤ 0x7FFFFFFF)
count_down_pos i n h m e le =
    let (k, same, small) = at_least_zero-decrement m le in
    let down : n ≡ decrement (pos m) = cc (h, ap count_down e) in
    (k, ap at_least_zero down ∙ same, small)

create-cases :
    (log_opens : Bool) (type : KeyType) (b : Strings) (q : ℕ) (e : ErrCode) (c c' : Catalog)
    → create log_opens type b q c ≡ returns e tt c'
    → ((c'.links ≡ c.links) × (c'.next_tree ≡ c.next_tree)) ⊎ (c' ≡ added c type q)
unfolding create
create-cases log_opens type b q e c c' h = ground arith

create-Change :
    (log_opens : Bool) (type : KeyType) (b : Strings) (q : ℕ) (e : ErrCode) (c c' : Catalog)
    → create log_opens type b q c ≡ returns e tt c'
    → Change b c c'
create-Change log_opens type b q e c c' h = elim (create-cases log_opens type b q e c c' h) [
  | inl (links, next) ↦ unchanged links next
  | inr eq ↦ index_added type q eq
]

open_index-Change :
    (b : Strings) (q : ℕ) (e : ErrCode) (s : Option IdxState) (c c' : Catalog)
    → open_index b q c ≡ returns e s c'
    → Change b c c'
unfolding open_index
open_index-Change b q e s c c' h = elim (Walk-cases (look_up b q c.links)) [
  | inl absent ↦ unchanged (ground (arith, absent)) (ground (arith, absent))
  | inr (inl bad) ↦ ground (arith, bad)
  | inr (inr (l, there)) ↦ elim (Option-cases (count_up l.num_open_threads)) [
    | inl over ↦ ground (arith, there, over)
    | inr (n, up) ↦
        count_set q l n there (count_up_pos l.num_open_threads n up) (ground (arith, there, up))
  ]
]

close_index-Change :
    (b : Strings) (s : IdxState) (e : ErrCode) (s' : IdxState) (c c' : Catalog)
    → close_index b s c ≡ returns e s' c'
    → Change b c c'
unfolding close_index
close_index-Change b s e s' c c' h = elim (Walk-cases (look_up b s.db_name c.links)) [
  | inl absent ↦ unchanged (ground (arith, absent)) (ground (arith, absent))
  | inr (inl bad) ↦ ground (arith, bad)
  | inr (inr (l, there)) ↦ elim (Option-cases (count_down l.num_open_threads)) [
    | inl over ↦ ground (arith, there, over)
    | inr (n, down) ↦
        count_set s.db_name l (at_least_zero n) there (count_down_pos l.num_open_threads n down)
          (ground (arith, there, down))
  ]
]

pub Step-Change : {b : Strings} {c c' : Catalog} → Step b c c' → Change b c c'
Step-Change {b} {c} {c'} (creates log type q e h) = create-Change log type b q e c c' h
Step-Change {b} {c} {c'} (opens q e s h) = open_index-Change b q e s c c' h
Step-Change {b} {c} {c'} (closes s e s' h) = close_index-Change b s e s' c c' h

Change-Sorted :
    {b : Strings} {c c' : Catalog}
    → Change b c c'
    → Sorted c.next_tree c.links
    → Sorted c'.next_tree c'.links
Change-Sorted (unchanged links next) s = rw (links, next) s
Change-Sorted {b} {c} (index_added type q e) s =
    rw e (Sorted-append c.next_tree c.links (new_link c type q) s refl refl)
Change-Sorted {b} {c} (count_set q l n there keeps e) s =
    let (name, read, linked) = look_up-cases b q c.links l there in
    let fine = find_link-Fine b name c.next_tree c.links l s linked in
    let (k, same, small) = keeps fine.opens fine.count fine.small in
    rw (e, same) (Sorted-set_threads b q k c.next_tree c.links small s)

Reachable-Sorted : {c : Catalog} → Reachable c → Sorted c.next_tree c.links
Reachable-Sorted start = tt
Reachable-Sorted (then_step b r s) = Change-Sorted (Step-Change s) (Reachable-Sorted r)

-- Whatever calls of `create`, `openIndex` and `closeIndex` return, in whatever order, from the empty
-- list on, where the strings that the names point to may change between two calls: by whatever the
-- strings hold in the end, a link that is found has a tree that was made and a count from 0 to the
-- greatest `int`, and two names that are found have the same tree exactly when they are the same. (A
-- call whose count would leave the `int` range does not return.)
pub Reachable-Fine :
    {c : Catalog} (b : Strings) (x y : Text) (l m : DbLink)
    → Reachable c
    → find_link b x c.links ≡ found l
    → find_link b y c.links ≡ found m
    → Fine c.next_tree l × ((l.nbt ≡ m.nbt) ↔ (x ≡ y))
Reachable-Fine {c} b x y l m r h g = (
  find_link-Fine b x c.next_tree c.links l (Reachable-Sorted r) h,
  (
    λ same. find_link-apart b x y c.next_tree c.links l m (Reachable-Sorted r) h g same,
    λ same. cc (same, h, g),
  ),
)

find_link-found_append :
    (b : Strings) (name : Text) (ls : List DbLink) (l k : DbLink)
    → find_link b name ls ≡ found l
    → find_link b name (ls ++ k ∷ []) ≡ found l
unfolding find_link
find_link-found_append b name [] l k h = cc
find_link-found_append b name (m ∷ ls) l k h = ground (arith, find_link-found_append b name ls l k)

-- The index of a name, once there, keeps its tree and its key type through every call that returns,
-- as long as the strings keep their contents.
pub Change-find :
    {b : Strings} {c c' : Catalog}
    → Change b c c'
    → (name : Text) (l : DbLink) → find_link b name c.links ≡ found l
    → (m : DbLink) × (find_link b name c'.links ≡ found m) × (m.nbt ≡ l.nbt) × (m.type ≡ l.type)
Change-find (unchanged links next) name l h = (l, rw links h, refl, refl)
Change-find {b} {c} (index_added type q e) name l h =
    (l, rw e (find_link-found_append b name c.links l (new_link c type q) h), refl, refl)
Change-find {b} {c} (count_set q k n there keeps e) name l h =
    let (key, read, linked) = look_up-cases b q c.links k there in
    elim (Bool-cases (text_eq name key)) [
      | inl same ↦
          let eq : name ≡ key = eq_of_text_eq name key same in
          (
            record k { num_open_threads = n },
            rw (e, eq) (find_link-set_threads b q key n c.links k read linked),
            cc (linked, h, eq),
            cc (linked, h, eq),
          )
      | inr different ↦ (
        l,
        rw e (find_link-set_threads_other b q key name n c.links read different ∙ h),
        refl,
        refl,
      )
    ]
