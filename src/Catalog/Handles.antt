-- ===== src/Catalog/Handles.antt =====
-- The handles of `openIndex` over the life of the list of indexes.
use ccpbtree.Base.{
  ℕ, ◌≡◌, ◌≢◌, refl, sym, ◌∙◌, ◌↔◌, Bool, false, Bool-cases, none, some, arith, inl, inr, pos, ap,
}
use ccpbtree.Server.{ErrCode, success, db_dne, KeyType, Text, text_eq}
use ccpbtree.Catalog.{
  Strings, DbLink, Catalog, IdxState, returns, found, at_end, find_link, look_up, count_up, create,
  open_index, close_index,
}
use ccpbtree.Catalog.Calls.{
  Counted, new_link, added, create-added, added-Counted, open_index-close_index,
}
use ccpbtree.Catalog.Links.{
  eq_of_text_eq, Option-cases, look_up_read, find_link-append, find_link-append_other,
}
use ccpbtree.Catalog.Reach.{
  Step, opens, Reachable, then_step, Reachable-Fine, Step-Change, Change-find, Walk-cases,
}

-- Calls that return, one after the other, while the strings hold `b`.
pub data Steps (b : Strings) (c : Catalog) : Catalog → Type 0 where
  done : Steps b c c
  more : {c' c'' : Catalog} → Steps b c c' → Step b c' c'' → Steps b c c''

Reachable-Steps : {b : Strings} {c c' : Catalog} → Reachable c → Steps b c c' → Reachable c'
Reachable-Steps r done = r
Reachable-Steps {b} r (more steps s) = then_step b (Reachable-Steps r steps) s

-- The index of a name, once there, keeps its tree.
Steps-find :
    {b : Strings} {c c' : Catalog}
    → Steps b c c'
    → (name : Text) (l : DbLink) → find_link b name c.links ≡ found l
    → (m : DbLink) × (find_link b name c'.links ≡ found m) × (m.nbt ≡ l.nbt)
Steps-find done name l h = (l, h, refl)
Steps-find (more steps s) name l h =
    let (m, there, same) = Steps-find steps name l h in
    let (m', there', same', type) = Change-find (Step-Change s) name m there in
    (m', there', same' ∙ same)

-- A handle has the tree of its index.
open_index-handle :
    (b : Strings) (q : ℕ) (name : Text) (e : ErrCode) (s : IdxState) (c c' : Catalog)
    → b q ≡ some name
    → open_index b q c ≡ returns e (some s) c'
    → (l : DbLink) × (find_link b name c.links ≡ found l) × (s.nbt ≡ some l.nbt)
unfolding open_index
open_index-handle b q name e s c c' read h = elim (Walk-cases (look_up b q c.links)) [
  | inl absent ↦ ground (arith, absent)
  | inr (inl bad) ↦ ground (arith, bad)
  | inr (inr (l, there)) ↦ elim (Option-cases (count_up l.num_open_threads)) [
    | inl over ↦ ground (arith, there, over)
    | inr (n, up) ↦ (l, sym (look_up_read b q name c.links read) ∙ there, ground (arith, there, up))
  ]
]

-- From the empty list on, whatever calls of `create`, `openIndex` and `closeIndex` return before the
-- first, the strings changing as they may, and whatever calls return between the two, while the
-- strings keep their contents: two calls of `openIndex` that give handles give the same tree to the
-- same name, and different trees to different names.
pub open_index-apart :
    {c c₁ c₂ c₃ : Catalog} (b : Strings) (q r : ℕ) (x y : Text) (e f : ErrCode) (s u : IdxState)
    → Reachable c
    → b q ≡ some x
    → b r ≡ some y
    → open_index b q c ≡ returns e (some s) c₁
    → Steps b c₁ c₂
    → open_index b r c₂ ≡ returns f (some u) c₃
    → (s.nbt ≡ u.nbt) ↔ (x ≡ y)
open_index-apart {c} {c₁} {c₂} {c₃} b q r x y e f s u reach read read' first steps second =
    let (l, there, tree) = open_index-handle b q x e s c c₁ read first in
    let (m, there', tree') = open_index-handle b r y f u c₂ c₃ read' second in
    let step : Step b c c₁ = opens q e (some s) first in
    let (l₁, kept₁, same₁, type) = Change-find (Step-Change step) x l there in
    let (l₂, kept₂, same₂) = Steps-find steps x l₁ kept₁ in
    let reached = Reachable-Steps (then_step b reach step) steps in
    let (fine, (apart, alike)) = Reachable-Fine b x y l₂ m reached kept₂ there' in
    (
      λ same. apart (cc (same, tree, tree', same₁, same₂)),
      λ same. cc (same, kept₂, there', tree, tree', same₁, same₂),
    )

-- A name that no link has.
open_index-absent :
    (b : Strings) (r : ℕ) (name : Text) (c : Catalog)
    → b r ≡ some name
    → c.locked ≡ false
    → find_link b name c.links ≡ at_end
    → open_index b r c ≡ returns db_dne none c
unfolding open_index
open_index-absent b r name c read free absent =
    ground (arith, free, absent, look_up_read b r name c.links read)

found-inj : {l m : DbLink} → found l ≡ found m → l ≡ m
found-inj h = cc

added-link :
    (type : KeyType) (b : Strings) (q : ℕ) (name : Text) (c : Catalog)
    → b q ≡ some name
    → find_link b name c.links ≡ at_end
    → (k : Counted b (added c type q) q name (pos 0)) → k.link ≡ new_link c type q
added-link type b q name c read absent k =
    found-inj (sym k.linked ∙ find_link-append b name c.links (new_link c type q) absent read)

-- `create` keeps the caller's pointer and not the name. After a successful `create` with a string at
-- `q`, an `openIndex` with it and a `closeIndex`, let that string be overwritten with another name,
-- where no older link has the new name or the old one by then: `openIndex` of the new name gives a
-- handle of the very tree that the first handle had, and `openIndex` of the old one, in a string of
-- its own, returns DB_DNE.
pub create-renamed :
    (log_opens : Bool) (type : KeyType) (b d : Strings) (q r : ℕ) (name new : Text) (c c' : Catalog)
    → b q ≡ some name
    → create log_opens type b q c ≡ returns success tt c'
    → d q ≡ some new
    → d r ≡ some name
    → name ≢ new
    → find_link d new c.links ≡ at_end
    → find_link d name c.links ≡ at_end
    → (s u : IdxState) × (c₁ c₂ : Catalog) × (open_index b q c' ≡ returns success (some s) c₁)
      × (close_index b s c₁ ≡ returns success (record s { nbt = none }) c')
      × (open_index d q c' ≡ returns success (some u) c₂)
      × (u.nbt ≡ s.nbt)
      × (open_index d r c' ≡ returns db_dne none c')
create-renamed log_opens type b d q r name new c c' read h read' old different no_new no_old =
    let (free, unknown, e) = create-added log_opens type b q c c' h in
    let absent = sym (look_up_read b q name c.links read) ∙ unknown in
    let k = added-Counted type b q name c read free absent in
    let k' = added-Counted type d q new c read' free no_new in
    let (s, c₁, opened, tree, closed) = open_index-close_index b (added c type q) q name k in
    let (u, c₂, opened', tree', closed') = open_index-close_index d (added c type q) q new k' in
    let apart : text_eq name new ≡ false = elim (Bool-cases (text_eq name new)) [
      | inl same ↦ absurd (different (eq_of_text_eq name new same))
      | inr other ↦ other
    ] in
    let gone : find_link d name (added c type q).links ≡ at_end =
      find_link-append_other d name new c.links (new_link c type q) read' apart ∙ no_old in
    let nbt = ap (λ (l : DbLink). some l.nbt) (added-link type b q name c read absent k) in
    let nbt' = ap (λ (l : DbLink). some l.nbt) (added-link type d q new c read' no_new k') in
    rw e (
      s,
      u,
      c₁,
      c₂,
      opened,
      closed,
      opened',
      tree' ∙ nbt' ∙ sym (tree ∙ nbt),
      open_index-absent d r name (added c type q) old free gone,
    )
