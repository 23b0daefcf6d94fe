-- ===== src/Tests/Handles.antt =====
-- The theorems on sequences of calls of bptree.cc at a short one.
use ccpbtree.Base.{
  ℕ, ◌≡◌, ◌≢◌, refl, ap, ◌↔◌, true, false, none, some, [], ◌∷◌, pos, ◌==◌, if◌then◌else◌, arith,
}
use ccpbtree.Server.{success, db_dne, int, varchar, Text, zero_key}
use ccpbtree.Catalog.{
  Strings, Catalog, DbLink, IdxState, returns, found, at_end, empty_catalog, find_link, set_threads,
  create, open_index, close_index,
}
use ccpbtree.Catalog.Reach.{creates, closes, Reachable, start, then_step, Reachable-Fine}
use ccpbtree.Catalog.Order.{Fine}
use ccpbtree.Catalog.Handles.{Steps, done, more, open_index-apart, create-renamed}

abbrev first_name : Text
first_name = 97 ∷ []

abbrev second_name : Text
second_name = 98 ∷ []

-- The strings at 1 and 2 hold the two names.
abbrev strings : Strings
strings q = if q == 1 then some first_name else if q == 2 then some second_name else none

-- The strings at 1 and 2 hold each other's names.
abbrev swapped : Strings
swapped q = if q == 1 then some second_name else if q == 2 then some first_name else none

abbrev first_link : DbLink
first_link = record { name = 1; nbt = 1; type = int; num_open_threads = pos 0; in_use = 0 }

abbrev second_link : DbLink
second_link = record { name = 2; nbt = 2; type = varchar; num_open_threads = pos 0; in_use = 0 }

abbrev with_links : DbLink → DbLink → Catalog
with_links l m = record { links = l ∷ m ∷ []; locked = false; error_log = true; next_tree = 3 }

abbrev one_index : Catalog
one_index = record { links = first_link ∷ []; locked = false; error_log = true; next_tree = 2 }

abbrev two_indexes : Catalog
two_indexes = with_links first_link second_link

abbrev first_open : Catalog
first_open = with_links (record first_link { num_open_threads = pos 1 }) second_link

abbrev both_open : Catalog
both_open = with_links first_link (record second_link { num_open_threads = pos 1 })

abbrev first_handle : IdxState
first_handle = record {
  nbt = some 1;
  type = int;
  db_name = 1;
  tid = 0;
  last_key = zero_key;
  key_not_found = 0;
  in_use = 0;
}

abbrev second_handle : IdxState
second_handle = record first_handle { nbt = some 2; type = varchar; db_name = 2 }

two_Reachable : Reachable two_indexes
unfolding create find_link
two_Reachable =
    then_step {c = one_index} strings
      (then_step {c = empty_catalog} strings start (creates true int 1 success refl))
      (creates true varchar 2 success refl)

found_first : find_link strings first_name two_indexes.links ≡ found first_link
unfolding find_link
found_first = refl

found_second : find_link strings second_name two_indexes.links ≡ found second_link
unfolding find_link
found_second = refl

Reachable-Fine_example :
    Fine 3 first_link × ((first_link.nbt ≡ second_link.nbt) ↔ (first_name ≡ second_name))
Reachable-Fine_example =
    Reachable-Fine strings first_name second_name first_link second_link two_Reachable found_first
      found_second

opened_first : open_index strings 1 two_indexes ≡ returns success (some first_handle) first_open
unfolding open_index find_link set_threads
opened_first = refl

closed_first : Steps strings first_open two_indexes
unfolding close_index find_link set_threads
closed_first =
    more {c' = first_open} done
      (closes first_handle success (record first_handle { nbt = none }) refl)

opened_second : open_index strings 2 two_indexes ≡ returns success (some second_handle) both_open
unfolding open_index find_link set_threads
opened_second = refl

open_index-apart_example : (first_handle.nbt ≡ second_handle.nbt) ↔ (first_name ≡ second_name)
open_index-apart_example =
    open_index-apart strings 1 2 first_name second_name success success first_handle second_handle
      two_Reachable refl refl opened_first closed_first opened_second

made_first : create true int strings 1 empty_catalog ≡ returns success tt one_index
unfolding create
made_first = refl

no_link : (name : Text) → find_link swapped name empty_catalog.links ≡ at_end
unfolding find_link
no_link name = refl

names_differ : first_name ≢ second_name
names_differ = λ e. absurd (omega (arith, ap head e))
  where
    head : Text → ℕ
    head [] = 0
    head (x ∷ xs) = x

-- The index is created and opened by the name at 1, which then becomes the other one.
create-renamed_example :
    (s u : IdxState) × (c₁ c₂ : Catalog) × (open_index strings 1 one_index
      ≡ returns success (some s) c₁)
    × (close_index strings s c₁ ≡ returns success (record s { nbt = none }) one_index)
    × (open_index swapped 1 one_index ≡ returns success (some u) c₂)
    × (u.nbt ≡ s.nbt)
    × (open_index swapped 2 one_index ≡ returns db_dne none one_index)
create-renamed_example =
    create-renamed true int strings swapped 1 2 first_name second_name empty_catalog one_index refl
      made_first refl refl names_differ (no_link second_name) (no_link first_name)
