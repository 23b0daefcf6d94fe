-- ===== src/Tests/Indexes.antt =====
-- The theorems on the indexes and keys of bptree.cc at small values.
use ccpbtree.Base.{
  ℕ, ◌≡◌, refl, ◌↔◌, Bool, true, false, none, some, [], ◌∷◌, if◌then◌else◌, ◌==◌, pos, negsuc,
  arith, inl,
}
use ccpbtree.Server.{success, db_exists, failure, KeyType, int, short, other, Text, text_eq}
use ccpbtree.KeyBytes.{short_bytes, int_bytes}
use ccpbtree.KeyBytes.Order.{bytes_less, Less, short_bytes_order}
use ccpbtree.KeyBytes.Long.{int_bytes_order}
use ccpbtree.Catalog.{
  Strings, DbLink, Catalog, IdxState, returns, blocked, empty_catalog, find_link, create,
  open_index, close_index,
}
use ccpbtree.Catalog.Calls.{
  Counted, create-create, create-other, open_index-close_index, open_index-leaks,
}

abbrev name : Text
name = 97 ∷ 98 ∷ []

-- The string at 1 holds the name, and no other is there.
abbrev strings : Strings
strings q = if q == 1 then some name else none

abbrev made_link : DbLink
made_link = record { name = 1; nbt = 1; type = int; num_open_threads = pos 0; in_use = 0 }

abbrev made : Catalog
made = record { links = made_link ∷ []; locked = false; error_log = true; next_tree = 2 }

made-create : create true int strings 1 empty_catalog ≡ returns success tt made
unfolding create
made-create = refl

made_Counted : Counted strings made 1 name (pos 0)
unfolding find_link
made_Counted = record { read = refl; free = refl; link = made_link; linked = refl; count = refl }

create-create_example :
    Counted strings made 1 name (pos 0)
    × (create true short strings 1 made ≡ returns db_exists tt made)
    × ((key : Text)
        → find_link strings key made.links ≡ (
            if text_eq key name
            then find_link strings name made.links
            else find_link strings key empty_catalog.links))
create-create_example =
    create-create true true int short strings 1 name empty_catalog made refl made-create

create-other_example :
    (c' : Catalog) × (create true (other 7) strings 1 empty_catalog ≡ returns failure tt c')
    × ((log : Bool) (type : KeyType) (d : Strings) (key : ℕ) → create log type d key c' ≡ blocked)
    × ((d : Strings) (key : ℕ) → open_index d key c' ≡ blocked)
    × ((d : Strings) (s : IdxState) → close_index d s c' ≡ blocked)
create-other_example = create-other true 7 strings 1 empty_catalog refl refl (inl refl)

open_index-close_index_example :
    (s : IdxState) × (c' : Catalog) × (open_index strings 1 made ≡ returns success (some s) c')
    × (s.nbt ≡ some 1)
    × (close_index strings s c' ≡ returns success (record s { nbt = none }) made)
unfolding made_Counted
open_index-close_index_example = open_index-close_index strings made 1 name made_Counted

open_index-leaks_example :
    (s : IdxState) × (c₁ : Catalog) × (c₂ : Catalog) × (c₃ : Catalog) × (c₄ : Catalog) × (open_index
        strings 1 made
      ≡ returns success (some s) c₁)
    × (open_index strings 1 c₁ ≡ returns failure none c₂)
    × (close_index strings s c₂ ≡ returns success (record s { nbt = none }) c₃)
    × (open_index strings 1 c₃ ≡ returns failure none c₄)
open_index-leaks_example = open_index-leaks strings made 1 name made_Counted

-- -5 is less than 3.
short_bytes_order_example :
    (bytes_less (short_bytes (negsuc 4)) (short_bytes (pos 3)) ≡ true) ↔ Less (negsuc 4) (pos 3)
short_bytes_order_example = short_bytes_order (negsuc 4) (pos 3) (omega arith) (omega arith)

-- -6000000000 is less than 5.
int_bytes_order_example :
    (bytes_less (int_bytes (negsuc 5999999999)) (int_bytes (pos 5)) ≡ true)
    ↔ Less (negsuc 5999999999) (pos 5)
int_bytes_order_example = int_bytes_order (negsuc 5999999999) (pos 5) (omega arith) (omega arith)
