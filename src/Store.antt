-- ===== src/Store.antt =====
-- The memory of src/btree.h: nodes at addresses, the fields of `class btree`, and commands that
-- read and write them. What C++ leaves undefined, and a failed assert, is a fault.
pub mod Points
use ccpbtree.Base.{
  ℕ, zero, suc, ◌+◌, ◌-◌, ◌%◌, ◌^◌, Bool, true, false, Option, none, some, ◌==◌, leb, if◌then◌else◌,
  put,
}

-- An address; 0 is NULL.
abbrev pub Ptr : Type 0
Ptr = ℕ

abbrev pub null : Ptr
null = 0

-- The base `struct node` and what `struct innerNode` adds to it.
pub record InnerNode (K : Type 0) : Type 0 where
  pub slots : ℕ
  pub slots_in_use : ℕ
  pub is_root_node : Bool
  pub parent : Ptr
  pub key_slots : ℕ → K
  pub first_child : ℕ → Ptr
  pub num_children : ℕ

-- The base `struct node` and what `struct leafNode` adds to it.
pub record LeafNode (K V : Type 0) : Type 0 where
  pub slots : ℕ
  pub slots_in_use : ℕ
  pub is_root_node : Bool
  pub parent : Ptr
  pub key_slots : ℕ → K
  pub data_slots : ℕ → V
  pub next_leaf : Ptr
  pub prev_leaf : Ptr

-- A node; `isleafnode` says which constructor.
pub data Node (K V : Type 0) : Type 0 where
  leaf : LeafNode K V → Node K V
  inner : InnerNode K → Node K V

-- The fields of `class btree`, and the memory behind its pointers. `brk` is the next unused address.
pub record Tree (K V : Type 0) : Type 0 where
  pub heap : Ptr → Option (Node K V)
  pub brk : Ptr
  pub root : Ptr
  pub tail_leaf : Ptr
  pub head_leaf : Ptr
  pub total_key_count : ℕ

-- Undefined behaviour met by a run: a NULL, freed or wild pointer; a node cast to the other kind;
-- an index outside an array; a negative child count. Or an assert that fails, or a loop that did
-- not end within its fuel.
pub data Fault : Type 0 where
  bad_pointer bad_cast out_of_bounds negative_count assertion no_fuel : Fault

pub data Out (A : Type 0) : Type 0 where
  ok : A → Out A
  fault : Fault → Out A

abbrev pub then_out : {A B : Type 0} → Out A → (A → Out B) → Out B
then_out (ok a) k = k a
then_out (fault e) k = fault e

-- `slotsinuse++` and `slotsinuse--` on an unsigned short.
abbrev pub up16 : ℕ → ℕ
up16 n = (n + 1) % 65536

abbrev pub down16 : ℕ → ℕ
down16 n = (n + 65535) % 65536

-- An access to slot `i` of an array of `size` slots.
abbrev pub slot : {A : Type 0} → ℕ → (ℕ → A) → ℕ → Out A
slot size a i = if leb size i then fault out_of_bounds else ok (a i)

-- What the template arguments of `class btree` decide, and what fresh memory holds:
-- `keyless` (the `_Compare` functor), `operator==` of the data, `_leafslots`, `_nodeslots`, the
-- unspecified content of the key array of a new node, and the default-constructed data.
pub record Traits (K V : Type 0) : Type 0 where
  pub keyless : K → K → Bool
  pub same_data : V → V → Bool
  pub leafslots : ℕ
  pub nodeslots : ℕ
  pub key_garbage : ℕ → K
  pub blank : V

-- A step of the program: from a state to its result and the next state, or a fault.
abbrev pub Cmd : Type 0 → Type 0 → Type 0 → Type 0
Cmd K V A = Tree K V → Out (A × Tree K V)

module _ {K V : Type 0} where
  abbrev pub pure : {A : Type 0} → A → Cmd K V A
  pure a t = ok (a, t)

  abbrev pub fail : {A : Type 0} → Fault → Cmd K V A
  fail e t = fault e

  abbrev pub lift : {A : Type 0} → Out A → Cmd K V A
  lift (ok a) t = ok (a, t)
  lift (fault e) t = fault e

  abbrev pub and_then : {A B : Type 0} → Out (A × Tree K V) → (A → Cmd K V B) → Out (B × Tree K V)
  and_then (ok (a, t)) k = k a t
  and_then (fault e) k = fault e

  infixl 5 ◌>>=◌ ◌>>◌
  abbrev pub ◌>>=◌ : {A B : Type 0} → Cmd K V A → (A → Cmd K V B) → Cmd K V B
  m >>= k = λ t. and_then (m t) k

  abbrev pub ◌>>◌ : {A B : Type 0} → Cmd K V A → Cmd K V B → Cmd K V B
  m >> n = m >>= λ _. n

  abbrev pub get_tree : Cmd K V (Tree K V)
  get_tree t = ok (t, t)

  abbrev pub write : Ptr → Option (Node K V) → Tree K V → Tree K V
  write p c t = record t { heap = put t.heap p c }

  -- `*p`
  unfoldable pub load : Ptr → Cmd K V (Node K V)
  load p t =
      if p == null
      then fault bad_pointer
      else elim (t.heap p) [ none ↦ fault bad_pointer | some n ↦ ok (n, t) ]

  abbrev pub as_leaf : Node K V → Out (LeafNode K V)
  as_leaf (leaf l) = ok l
  as_leaf (inner n) = fault bad_cast

  abbrev pub as_inner : Node K V → Out (InnerNode K)
  as_inner (leaf l) = fault bad_cast
  as_inner (inner n) = ok n

  -- `*static_cast<leafNode*>(p)`
  unfoldable pub load_leaf : Ptr → Cmd K V (LeafNode K V)
  unfolding load
  load_leaf p = do n ← load p; lift (as_leaf n)

  -- `*static_cast<innerNode*>(p)`
  unfoldable pub load_inner : Ptr → Cmd K V (InnerNode K)
  unfolding load
  load_inner p = do n ← load p; lift (as_inner n)

  -- Writes back a node that the caller has loaded or allocated.
  abbrev pub save_leaf : Ptr → LeafNode K V → Cmd K V (Unit {0})
  save_leaf p l t = ok (tt, write p (some (leaf l)) t)

  abbrev pub save_inner : Ptr → InnerNode K → Cmd K V (Unit {0})
  save_inner p n t = ok (tt, write p (some (inner n)) t)

  -- `new`: an address that no node has had.
  unfoldable pub alloc : Node K V → Cmd K V Ptr
  alloc n t = ok (t.brk, record t { heap = put t.heap t.brk (some n); brk = t.brk + 1 })

  -- `freeNode`: `delete` on the node, by its kind.
  unfoldable pub free_node : Ptr → Cmd K V (Unit {0})
  unfolding load
  free_node p = do n ← load p; (λ t. ok (tt, write p none t))

  -- `upkeycount`, on an unsigned int.
  unfoldable pub up_key_count : Cmd K V (Unit {0})
  up_key_count t = ok (tt, record t { total_key_count = (t.total_key_count + 1) % 2 ^ 32 })

  -- `downkeycount`
  unfoldable pub down_key_count : Cmd K V (Unit {0})
  down_key_count t =
      ok (tt, record t { total_key_count = (t.total_key_count + (2 ^ 32 - 1)) % 2 ^ 32 })

  abbrev pub set_root : Ptr → Cmd K V (Unit {0})
  set_root p t = ok (tt, record t { root = p })

  -- The fields of the base `struct node`, whatever the kind.
  abbrev pub is_leaf : Node K V → Bool
  is_leaf (leaf l) = true
  is_leaf (inner n) = false

  abbrev pub is_root : Node K V → Bool
  is_root (leaf l) = l.is_root_node
  is_root (inner n) = n.is_root_node

  abbrev pub with_parent : Ptr → Node K V → Node K V
  with_parent q (leaf l) = leaf (record l { parent = q })
  with_parent q (inner n) = inner (record n { parent = q })

  abbrev pub as_root : Node K V → Node K V
  as_root (leaf l) = leaf (record l { is_root_node = true })
  as_root (inner n) = inner (record n { is_root_node = true })

  abbrev pub modify : Ptr → (Node K V → Node K V) → Cmd K V (Unit {0})
  modify p f = do n ← load p; (λ t. ok (tt, write p (some (f n)) t))

  abbrev pub modify_leaf : Ptr → (LeafNode K V → LeafNode K V) → Cmd K V (Unit {0})
  modify_leaf p f = do l ← load_leaf p; save_leaf p (f l)

  abbrev pub modify_inner : Ptr → (InnerNode K → InnerNode K) → Cmd K V (Unit {0})
  modify_inner p f = do n ← load_inner p; save_inner p (f n)

  -- The constructor `btree()`.
  unfoldable pub new_tree : Tree K V
  new_tree = record {
    heap = λ p. none;
    brk = 1;
    root = null;
    tail_leaf = null;
    head_leaf = null;
    total_key_count = 0;
  }

  -- `size`
  unfoldable pub size : Tree K V → ℕ
  size t = t.total_key_count

  -- `empty`
  unfoldable pub empty : Tree K V → Bool
  empty t = t.root == null
