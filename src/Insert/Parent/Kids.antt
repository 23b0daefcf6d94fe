-- ===== src/Insert/Parent/Kids.antt =====
-- The leaves under a full inner node while its split moves them to the two new nodes.
use ccpbtree.Base.{ℕ, ◌+◌, ◌/◌, ◌≤◌, ◌<◌, ◌≡◌, ◌≢◌, sym, ◌∙◌, arith, ltb, if◌then◌else◌}
use mathlib.Core.Path.{subst}
use native.Mathlib.Decide.{dec_lt, ℕ_discrete}
use ccpbtree.Store.{Ptr, LeafNode, InnerNode, leaf, Tree, Traits}
use ccpbtree.Store.Points.{Points}

-- The node `old` is full; its children are the leaves `kids`, each followed by the next one. The new
-- nodes are to stand at `base` and behind it.
pub record FullInner {K V : Type 0} (p : Traits K V) (old : InnerNode K) (kids : ℕ → LeafNode K V)
    (base : Ptr) : Type 0 where
  pub full : old.slots_in_use ≡ p.nodeslots
  pub three : 2 < p.nodeslots
  pub small : p.nodeslots < 65536
  pub base_there : 0 < base
  pub child_old : (j : ℕ) → j ≤ p.nodeslots → old.first_child j < base
  pub apart :
      (i j : ℕ) → i ≤ p.nodeslots → j ≤ p.nodeslots → old.first_child i ≡ old.first_child j → i ≡ j
  pub next : (j : ℕ) → j < p.nodeslots → (kids j).next_leaf ≡ old.first_child (j + 1)

-- A leaf has another parent, and perhaps another predecessor.
abbrev pub Moved : {K V : Type 0} → Ptr → LeafNode K V → LeafNode K V → Type 0
Moved dest l l' = l' ≡ record l { parent = dest; prev_leaf = l'.prev_leaf }

-- The node has the keys and the children of `old` from index `from` on.
pub record Half {K V : Type 0} (p : Traits K V) (old : InnerNode K) (from keys children : ℕ)
    (m : InnerNode K) : Type 0 where
  pub slots_eq : m.slots ≡ p.nodeslots
  pub in_use : m.slots_in_use ≡ keys
  pub count : m.num_children ≡ children
  pub key_at : (j : ℕ) → j < keys → m.key_slots j ≡ old.key_slots (from + j)
  pub child_at : (j : ℕ) → j < children → m.first_child j ≡ old.first_child (from + j)

module _ {K V : Type 0} (p : Traits K V) {old : InnerNode K} {kids : ℕ → LeafNode K V} {base : Ptr}
    (f : FullInner p old kids base) where
  open p use {nodeslots}

  -- The new parent of a child.
  abbrev pub dest : ℕ → Ptr
  dest j = if ltb j (nodeslots / 2 + 1) then base else base + 1

  -- The children before `i` have moved, the others have not.
  pub record Kids (start t : Tree K V) (i : ℕ) : Type 0 where
    pub moved :
        (j : ℕ)
        → j < i
        → (l' : LeafNode K V) × Points t (old.first_child j) (leaf l') × Moved (dest j) (kids j) l'
    pub rest : (j : ℕ) → i ≤ j → j ≤ nodeslots → Points t (old.first_child j) (leaf (kids j))
    pub root_same : t.root ≡ start.root
    pub brk_same : t.brk ≡ start.brk
    pub count_same : t.total_key_count ≡ start.total_key_count
    pub head_same : t.head_leaf ≡ start.head_leaf
    pub frame :
        (x : Ptr)
        → x ≢ base
        → x ≢ base + 1
        → ((j : ℕ) → j ≤ nodeslots → x ≢ old.first_child j)
        → t.heap x ≡ start.heap x

  -- A step that writes to a new node, to the child `i` and perhaps to the child before it.
  pub record Step (t t' : Tree K V) (q : Ptr) (i : ℕ) : Type 0 where
    pub child :
        (l' : LeafNode K V) × Points t' (old.first_child i) (leaf l') × Moved (dest i) (kids i) l'
    pub before :
        (j : ℕ)
        → j + 1 ≡ i
        → (l' : LeafNode K V) × Points t' (old.first_child j) (leaf l') × Moved (dest j) (kids j) l'
    pub root_same : t'.root ≡ t.root
    pub brk_same : t'.brk ≡ t.brk
    pub count_same : t'.total_key_count ≡ t.total_key_count
    pub head_same : t'.head_leaf ≡ t.head_leaf
    pub frame :
        (x : Ptr)
        → x ≢ q
        → x ≢ old.first_child i
        → ((j : ℕ) → j + 1 ≡ i → x ≢ old.first_child j)
        → t'.heap x ≡ t.heap x

  pub child_other :
      (i j : ℕ) → i ≤ nodeslots → j ≤ nodeslots → i ≢ j → old.first_child i ≢ old.first_child j
  child_other i j h g other same = other (f.apart i j h g same)

  pub Kids-Step :
      {start t t' : Tree K V} {q : Ptr} {i c : ℕ}
      → Kids start t c
      → i ≤ c
      → c ≤ i + 1
      → Step t t' q i
      → i ≤ nodeslots
      → base ≤ q
      → q ≤ base + 1
      → Kids start t' (i + 1)
  Kids-Step {start} {t} {t'} {q} {i} {c} w least most v inside low high = record {
    moved = λ j less. elim (ℕ_discrete j i) [
      | yes same ↦ same_child j same
      | no other ↦ elim (ℕ_discrete (j + 1) i) [
        | yes last ↦ v.before j last
        | no earlier ↦
            let (l', e, m) = w.moved j (omega arith) in
            (l', kept j (omega arith) other earlier e, m)
      ]
    ];
    rest = λ j le h. kept j h (omega arith) (omega arith) (w.rest j (omega arith) h);
    root_same = v.root_same ∙ w.root_same;
    brk_same = v.brk_same ∙ w.brk_same;
    count_same = v.count_same ∙ w.count_same;
    head_same = v.head_same ∙ w.head_same;
    frame = λ x a b others.
        v.frame x
          (λ e. elim (dec_lt base q) [
            | yes above ↦ b (omega (arith, e))
            | no below ↦ a (omega (arith, e))
          ])
          (others i inside) (λ j e. others j (omega arith))
        ∙ w.frame x a b others;
  }
    where
      same_child :
          (j : ℕ)
          → j ≡ i
          → (l' : LeafNode K V) × Points t' (old.first_child j) (leaf l')
            × Moved (dest j) (kids j) l'
      same_child j same =
          subst
            (λ (x : ℕ).
              (l' : LeafNode K V) × Points t' (old.first_child x) (leaf l')
              × Moved (dest x) (kids x) l')
            (sym same) v.child

      kept :
          {l : LeafNode K V} (j : ℕ)
          → j ≤ nodeslots
          → j ≢ i
          → j + 1 ≢ i
          → Points t (old.first_child j) (leaf l)
          → Points t' (old.first_child j) (leaf l)
      kept j h other earlier e = record {
        ne_null = e.ne_null;
        holds =
            v.frame (old.first_child j) (omega (arith, f.child_old j h))
              (child_other j i h inside other)
              (λ x g. child_other j x h (omega arith) (λ same. earlier (omega (arith, same, g))))
            ∙ e.holds;
      }
