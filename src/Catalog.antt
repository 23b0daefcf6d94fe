-- ===== src/Catalog.antt =====
-- The list of indexes of bptree.cc behind its mutex: `create`, `openIndex`, `closeIndex`.
-- A call that finds the mutex taken waits for it: `blocked`. The names are the callers' own strings:
-- the list and the handles keep the pointers, and each call reads what the strings hold at the time.
pub mod Links
pub mod Calls
pub mod Order
pub mod Reach
pub mod Handles
use ccpbtree.Base.{
  ℕ, zero, suc, ◌+◌, ◌==◌, Bool, true, false, not, ◌&&◌, Option, none, some, List, [], ◌∷◌, ◌++◌,
  if◌then◌else◌, ℤ, pos, negsuc, increment, decrement,
}
use ccpbtree.Server.{
  ErrCode, success, db_dne, db_exists, failure, KeyType, short, int, varchar, other, Text, text_eq,
  Key, zero_key,
}

-- What the strings at the callers' addresses hold during a call; none at an address without a string.
abbrev pub Strings : Type 0
Strings = ℕ → Option Text

-- `struct DBLink`, less its link. `name` is the pointer that `create` was given; `nbt` names the tree
-- that was made for the index.
pub record DbLink : Type 0 where
  pub name : ℕ
  pub nbt : ℕ
  pub type : KeyType
  pub num_open_threads : ℤ
  pub in_use : ℕ

-- `dbLookup` as the list of its links, the mutex, whether `stderrfile` is open, and the name of the
-- next tree.
pub record Catalog : Type 0 where
  pub links : List DbLink
  pub locked : Bool
  pub error_log : Bool
  pub next_tree : ℕ

-- `struct STXDBState`, the handle of a thread; no `nbt` is NULL. `db_name` is the pointer that
-- `openIndex` was given.
pub record IdxState : Type 0 where
  pub nbt : Option ℕ
  pub type : KeyType
  pub db_name : ℕ
  pub tid : ℕ
  pub last_key : Key
  pub key_not_found : ℕ
  pub in_use : ℕ

-- What a call comes to. `crashed`: its behaviour is undefined, since it reads a name that is not there,
-- writes to an error log that is not open, or takes a count of threads out of the `int` range.
pub data Reply (A : Type 0) : Type 0 where
  returns : ErrCode → A → Catalog → Reply A
  blocked crashed : Reply A

abbrev pub empty_catalog : Catalog
empty_catalog = record { links = []; locked = false; error_log = false; next_tree = 1 }

-- The walk along the links: it stops at the link with the name, ends behind the last one, or reads a
-- name that is not there.
pub data Walk : Type 0 where
  found : DbLink → Walk
  at_end bad_name : Walk

-- `strcmp(name, link->name) == 0`, if the link's name is there.
abbrev pub has_name : Strings → Text → DbLink → Option Bool
has_name b name l = elim (b l.name) [ none ↦ none | some s ↦ some (text_eq name s) ]

unfoldable pub find_link : Strings → Text → List DbLink → Walk
find_link b name [] = at_end
find_link b name (l ∷ ls) = elim (has_name b name l) [
  | none ↦ bad_name
  | some true ↦ found l
  | some false ↦ find_link b name ls
]

-- The walk for the name at `q`, which an empty list does not read.
abbrev pub look_up : Strings → ℕ → List DbLink → Walk
look_up b q [] = at_end
look_up b q (l ∷ ls) = elim (b q) [ none ↦ bad_name | some name ↦ find_link b name (l ∷ ls) ]

-- A write to the link that the walk for the name at `q` stops at.
unfoldable pub set_threads : Strings → ℕ → ℤ → List DbLink → List DbLink
set_threads b q n [] = []
set_threads b q n (l ∷ ls) = elim (look_up b q (l ∷ [])) [
  | found m ↦ record l { num_open_threads = n } ∷ ls
  | _ ↦ l ∷ set_threads b q n ls
]

-- `i++` and `i--` on an `int` of 32 bits, where the result is one.
abbrev pub count_up : ℤ → Option ℤ
count_up (pos n) = if n == 0x7FFFFFFF then none else some (pos (n + 1))
count_up (negsuc n) = some (increment (negsuc n))

abbrev pub count_down : ℤ → Option ℤ
count_down (pos n) = some (decrement (pos n))
count_down (negsuc n) = if n == 0x7FFFFFFF then none else some (negsuc (n + 1))

-- Does the `switch` of `create` make a tree for the type?
abbrev pub has_tree : KeyType → Bool
has_tree (other n) = false
has_tree short = true
has_tree int = true
has_tree varchar = true

-- `create`. `log_opens` says whether `fopen` can open the error log. The branch for an unknown type
-- returns with the mutex held.
unfoldable pub create : Bool → KeyType → Strings → ℕ → Catalog → Reply (Unit {0})
unfolding find_link
create log_opens type b name c = if c.locked then blocked else elim (look_up b name c.links) [
  | bad_name ↦ crashed
  | found l ↦ returns db_exists tt c
  | at_end ↦
      if not c.error_log && not log_opens
      then returns failure tt c
      else if not (has_tree type)
      then returns failure tt (record c { locked = true; error_log = true })
      else returns success tt (record c {
        error_log = true;
        next_tree = c.next_tree + 1;
        links =
            c.links
            ++ (record {
              name = name;
              nbt = c.next_tree;
              type = type;
              num_open_threads = pos 0;
              in_use = 0;
            }
                ∷ []);
      })
]

-- `openIndex`: the thread count goes up before it is compared with 1.
unfoldable pub open_index : Strings → ℕ → Catalog → Reply (Option IdxState)
unfolding find_link set_threads
open_index b name c = if c.locked then blocked else elim (look_up b name c.links) [
  | bad_name ↦ crashed
  | at_end ↦ returns db_dne none c
  | found l ↦ elim (count_up l.num_open_threads) [
    | none ↦ crashed
    | some n ↦
        let c' = record c { links = set_threads b name n c.links } in
        elim n [
          | pos (suc zero) ↦
              returns success
                (some (record {
                  nbt = some l.nbt;
                  type = l.type;
                  db_name = name;
                  tid = 0;
                  last_key = zero_key;
                  key_not_found = 0;
                  in_use = 0;
                }))
                c'
          | _ ↦ returns failure none c'
        ]
  ]
]

-- A count below 0 is reset to 0.
abbrev pub at_least_zero : ℤ → ℤ
at_least_zero (pos n) = pos n
at_least_zero (negsuc n) = pos 0

-- `closeIndex`: the handle loses its tree.
unfoldable pub close_index : Strings → IdxState → Catalog → Reply IdxState
unfolding find_link set_threads
close_index b s c = if c.locked then blocked else elim (look_up b s.db_name c.links) [
  | bad_name ↦ crashed
  | at_end ↦ if c.error_log then returns db_dne s c else crashed
  | found l ↦ elim (count_down l.num_open_threads) [
    | none ↦ crashed
    | some n ↦
        returns success (record s { nbt = none })
          (record c { links = set_threads b s.db_name (at_least_zero n) c.links })
  ]
]
