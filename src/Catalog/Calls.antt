-- ===== src/Catalog/Calls.antt =====
-- What sequences of calls of `create`, `openIndex` and `closeIndex` come to, where the strings hold
-- their contents from one call to the next.
use ccpbtree.Base.{
  ℕ, suc, ◌+◌, ◌≡◌, refl, ◌⊎◌, ap, sym, ◌∙◌, Bool, true, false, inl, inr, Bool-cases, none, some,
  [], ◌∷◌, ◌++◌, if◌then◌else◌, arith, ℤ, pos, ◌<◌,
}
use ccpbtree.Server.{success, db_exists, failure, KeyType, other, Text, text_eq, zero_key}
use ccpbtree.Catalog.{
  Strings, DbLink, Catalog, IdxState, returns, blocked, found, at_end, find_link, look_up,
  set_threads, create, open_index, close_index,
}
use ccpbtree.Catalog.Links.{
  eq_of_text_eq, look_up_read, find_link-append, find_link-append_other, find_link-set_threads,
  set_threads-set_threads, set_threads_same,
}

-- The string at `q` is the name; an index of the name is there, the mutex is free, and `n` opens are
-- counted.
pub record Counted (b : Strings) (c : Catalog) (q : ℕ) (name : Text) (n : ℤ) : Type 0 where
  pub read : b q ≡ some name
  pub free : c.locked ≡ false
  pub link : DbLink
  pub linked : find_link b name c.links ≡ found link
  pub count : link.num_open_threads ≡ n

abbrev pub new_link : Catalog → KeyType → ℕ → DbLink
new_link c type q = record {
  name = q;
  nbt = c.next_tree;
  type = type;
  num_open_threads = pos 0;
  in_use = 0;
}

abbrev pub added : Catalog → KeyType → ℕ → Catalog
added c type q = record c {
  error_log = true;
  next_tree = c.next_tree + 1;
  links = c.links ++ (new_link c type q ∷ []);
}

pub create-added :
    (log_opens : Bool) (type : KeyType) (b : Strings) (q : ℕ) (c c' : Catalog)
    → create log_opens type b q c ≡ returns success tt c'
    → (c.locked ≡ false) × (look_up b q c.links ≡ at_end) × (c' ≡ added c type q)
unfolding create
create-added log_opens type b q c c' h = ground arith

pub added-Counted :
    (type : KeyType) (b : Strings) (q : ℕ) (name : Text) (c : Catalog)
    → b q ≡ some name
    → c.locked ≡ false
    → find_link b name c.links ≡ at_end
    → Counted b (added c type q) q name (pos 0)
added-Counted type b q name c read free absent = record {
  read = read;
  free = free;
  link = new_link c type q;
  linked = find_link-append b name c.links (new_link c type q) absent read;
  count = refl;
}

by_name :
    (type : KeyType) (b : Strings) (q : ℕ) (key name : Text) (c : Catalog)
    → b q ≡ some name
    → find_link b key (added c type q).links ≡ (
        if text_eq key name
        then find_link b name (added c type q).links
        else find_link b key c.links)
by_name type b q key name c read = elim (Bool-cases (text_eq key name)) [
  | inl same ↦ rw (same, eq_of_text_eq key name same)
  | inr different ↦
      rw different (find_link-append_other b key name c.links (new_link c type q) read different)
]

-- A name that is there is refused.
create-found :
    (log_opens : Bool) (type : KeyType) (b : Strings) (q : ℕ) (name : Text) (c : Catalog) (n : ℤ)
    → Counted b c q name n
    → create log_opens type b q c ≡ returns db_exists tt c
unfolding create
create-found log_opens type b q name c n k =
    ground (arith, k.free, k.linked, look_up_read b q name c.links k.read)

-- After a successful `create` with a string that is there, while the strings keep their contents:
-- the index is there with no opens, a second `create` of the name is refused with DB_EXISTS and
-- changes nothing, and every other index is as before.
pub create-create :
    (log_opens again : Bool) (type type' : KeyType) (b : Strings) (q : ℕ) (name : Text)
    (c c' : Catalog)
    → b q ≡ some name
    → create log_opens type b q c ≡ returns success tt c'
    → Counted b c' q name (pos 0)
      × (create again type' b q c' ≡ returns db_exists tt c')
      × ((key : Text)
          → find_link b key c'.links
            ≡ (if text_eq key name then find_link b name c'.links else find_link b key c.links))
create-create log_opens again type type' b q name c c' read h =
    let (free, absent, e) = create-added log_opens type b q c c' h in
    let none_yet = sym (look_up_read b q name c.links read) ∙ absent in
    let there = added-Counted type b q name c read free none_yet in
    rw e (
      there,
      create-found again type' b q name (added c type q) (pos 0) there,
      λ key. by_name type b q key name c read,
    )

-- `create` of a new name with a number that is no `KeyType`, where the mutex is free and the
-- error log is open or can be opened, fails with the mutex taken: no later call of `create`,
-- `openIndex` or `closeIndex` returns, whatever the strings hold by then.
pub create-other :
    (log_opens : Bool) (n : ℕ) (b : Strings) (q : ℕ) (c : Catalog)
    → c.locked ≡ false
    → look_up b q c.links ≡ at_end
    → (log_opens ≡ true) ⊎ (c.error_log ≡ true)
    → (c' : Catalog) × (create log_opens (other n) b q c ≡ returns failure tt c')
      × ((log : Bool) (type : KeyType) (d : Strings) (key : ℕ) → create log type d key c' ≡ blocked)
      × ((d : Strings) (key : ℕ) → open_index d key c' ≡ blocked)
      × ((d : Strings) (s : IdxState) → close_index d s c' ≡ blocked)
unfolding create open_index close_index
create-other log_opens n b q c free absent log = (
  record c { locked = true; error_log = true },
  ground arith,
  λ log type d key. refl,
  λ d key. refl,
  λ d s. refl,
)

abbrev pub with_count : Strings → Catalog → ℕ → ℤ → Catalog
with_count b c q n = record c { links = set_threads b q n c.links }

with_count-Counted :
    (b : Strings) (c : Catalog) (q : ℕ) (name : Text) (m n : ℤ)
    → Counted b c q name m
    → Counted b (with_count b c q n) q name n
with_count-Counted b c q name m n k = record {
  read = k.read;
  free = k.free;
  link = record k.link { num_open_threads = n };
  linked = find_link-set_threads b q name n c.links k.link k.read k.linked;
  count = refl;
}

abbrev handle : DbLink → ℕ → IdxState
handle l q = record {
  nbt = some l.nbt;
  type = l.type;
  db_name = q;
  tid = 0;
  last_key = zero_key;
  key_not_found = 0;
  in_use = 0;
}

-- The first `openIndex` of an index succeeds.
open_index-first :
    (b : Strings) (c : Catalog) (q : ℕ) (name : Text) (k : Counted b c q name (pos 0))
    → open_index b q c ≡ returns success (some (handle k.link q)) (with_count b c q (pos 1))
unfolding open_index
open_index-first b c q name k =
    ground (arith, k.free, k.linked, k.count, look_up_read b q name c.links k.read)

-- While a count stands, `openIndex` fails, and counts all the same.
open_index-busy :
    (b : Strings) (c : Catalog) (q : ℕ) (name : Text) (n : ℕ)
    → suc n < 0x7FFFFFFF
    → Counted b c q name (pos (suc n))
    → open_index b q c ≡ returns failure none (with_count b c q (pos (suc (suc n))))
unfolding open_index
open_index-busy b c q name n small k =
    ground (arith, k.free, k.linked, k.count, look_up_read b q name c.links k.read)

close_index-count :
    (b : Strings) (c : Catalog) (s : IdxState) (name : Text) (n : ℕ)
    → Counted b c s.db_name name (pos (suc n))
    → close_index b s c
      ≡ returns success (record s { nbt = none }) (with_count b c s.db_name (pos n))
unfolding close_index
close_index-count b c s name n k =
    ground (arith, k.free, k.linked, k.count, look_up_read b s.db_name name c.links k.read)

-- For an index without opens, where the mutex is free and the strings keep their contents: the
-- first `openIndex` succeeds with a handle of the tree that the list has for the index, and
-- `closeIndex` of that handle takes the list of indexes back to what it was.
pub open_index-close_index :
    (b : Strings) (c : Catalog) (q : ℕ) (name : Text) (k : Counted b c q name (pos 0))
    → (s : IdxState) × (c' : Catalog) × (open_index b q c ≡ returns success (some s) c')
      × (s.nbt ≡ some k.link.nbt)
      × (close_index b s c' ≡ returns success (record s { nbt = none }) c)
open_index-close_index b c q name k = (
  handle k.link q,
  with_count b c q (pos 1),
  open_index-first b c q name k,
  refl,
  close_index-count b (with_count b c q (pos 1)) (handle k.link q) name 0
        (with_count-Counted b c q name (pos 0) (pos 1) k)
      ∙ ap
          (λ ls.
            returns success (record (handle k.link q) { nbt = none }) (record c { links = ls }))
          (set_threads-set_threads b q (pos 1) (pos 0) c.links
            ∙ ap (λ n. set_threads b q n c.links) (sym k.count)
            ∙ set_threads_same b q name c.links k.link k.read k.linked),
)

-- For an index without opens, where the mutex is free and the strings keep their contents: a second
-- `openIndex` fails but is counted, so that when the one handle has been closed, the index still
-- cannot be opened.
pub open_index-leaks :
    (b : Strings) (c : Catalog) (q : ℕ) (name : Text)
    → Counted b c q name (pos 0)
    → (s : IdxState) × (c₁ : Catalog) × (c₂ : Catalog) × (c₃ : Catalog) × (c₄ : Catalog)
      × (open_index b q c ≡ returns success (some s) c₁)
      × (open_index b q c₁ ≡ returns failure none c₂)
      × (close_index b s c₂ ≡ returns success (record s { nbt = none }) c₃)
      × (open_index b q c₃ ≡ returns failure none c₄)
open_index-leaks b c q name k =
    let k₁ = with_count-Counted b c q name (pos 0) (pos 1) k in
    let k₂ = with_count-Counted b (with_count b c q (pos 1)) q name (pos 1) (pos 2) k₁ in
    let k₃ =
      with_count-Counted b (with_count b (with_count b c q (pos 1)) q (pos 2)) q name (pos 2)
        (pos 1) k₂ in
    (
      handle k.link q,
      with_count b c q (pos 1),
      with_count b (with_count b c q (pos 1)) q (pos 2),
      with_count b (with_count b (with_count b c q (pos 1)) q (pos 2)) q (pos 1),
      with_count b (with_count b (with_count b (with_count b c q (pos 1)) q (pos 2)) q (pos 1)) q
          (pos 2),
      open_index-first b c q name k,
      open_index-busy b (with_count b c q (pos 1)) q name 0 (omega arith) k₁,
      close_index-count b (with_count b (with_count b c q (pos 1)) q (pos 2)) (handle k.link q) name
          1 k₂,
      open_index-busy b (with_count b (with_count b (with_count b c q (pos 1)) q (pos 2)) q (pos 1))
          q name 0 (omega arith) k₃,
    )
