-- ===== src/Session/Lookup.antt =====
-- `get` of bptree.cc, on an index with INT keys and on a handle that has been closed.
use ccpbtree.Base.{
  ℕ, ◌≤◌, ◌≡◌, refl, ◌∙◌, ap, ◌⊎◌, inl, inr, Bool, true, false, le→ltb, none, some, put, arith,
}
use std.Path.{fun_ext}
use ccpbtree.Store.{bad_pointer, Tree, Traits, ok, fault}
use ccpbtree.KeyOrder.{IsTotal}
use ccpbtree.Server.{success, int, Text, Record}
use ccpbtree.Find
use ccpbtree.Find.Shape.{IsTree, Has}
use ccpbtree.Find.Lookup.{get-Has}
use ccpbtree.Catalog.{
  Strings, Catalog, IdxState, returns, look_up, count_down, has_tree, close_index,
}
use ccpbtree.Catalog.Links.{Option-cases}
use ccpbtree.Catalog.Reach.{Walk-cases}
use ccpbtree.Session.{TxnState, code, length, int_tree, Trees, with_key_data, fetch, get}

put_self : {A : Type 0} (f : ℕ → A) (i : ℕ) (v : A) → f i ≡ v → put f i v ≡ f
put_self f i v h = fun_ext (λ j. ground (arith, h))

fetch-run :
    {K : Type 0} (p : Traits K Text) (k : K) (t : Tree K Text) (r : Record) (found : Bool)
    (v : Text)
    → length v ≤ 100
    → Find.get p k t ≡ ok ((v, found), t)
    → fetch p k t r ≡ ok (record r { payload = v }, t)
unfolding fetch
fetch-run p k t r found v le run = rw (run, le→ltb 100 (length v) le) refl

-- `closeIndex` with SUCCESS takes the tree away from the handle, and nothing else.
closed-handle :
    (b : Strings) (s s' : IdxState) (c c' : Catalog)
    → close_index b s c ≡ returns success s' c'
    → s' ≡ record s { nbt = none }
unfolding close_index
closed-handle b s s' c c' h = elim (Walk-cases (look_up b s.db_name c.links)) [
  | inl absent ↦ ground (arith, absent)
  | inr (inl bad) ↦ ground (arith, bad)
  | inr (inr (l, there)) ↦ elim (Option-cases (count_down l.num_open_threads)) [
    | inl over ↦ ground (arith, there, over)
    | inr (n, down) ↦ ground (arith, there, down)
  ]
]

module _ {S I : Type 0} (p_short : Traits S Text) (p_int : Traits I Text) where
  open p_int use {blank}

  get-run :
      (k_short : S) (k : I) (state : IdxState) (txn : TxnState) (r r' : Record) (trees : Trees S I)
      (q : ℕ) (t : Tree I Text)
      → state.type ≡ int
      → state.nbt ≡ some q
      → trees q ≡ some (int_tree t)
      → fetch p_int k t (with_key_data r) ≡ ok (r', t)
      → get p_short p_int k_short k state txn r trees ≡ ok ((code success, state, r'), trees)
  unfolding get
  get-run k_short k state txn r r' trees q t e handle there run =
      let wrote : get p_short p_int k_short k state txn r trees
          ≡ ok ((code success, state, r'), put trees q (some (int_tree t))) =
        ground (arith, e, handle, there, run) in
      wrote
      ∙ ap (λ ts. ok ((code success, state, r'), ts)) (put_self trees q (some (int_tree t)) there)

  -- `get` with an INT handle that has a tree of INT keys, a search tree, where no payload under `k` is
  -- too long for the record, nor the default one, returns SUCCESS; handle and trees stay as they are,
  -- and the record keeps its key with the bytes of `p_setKeyDataFromKey` written behind it. `k` is what
  -- the uninitialised local variable of `get` holds, which the record's key does not decide: the
  -- payload is one that the tree holds under `k`; if it holds none, the payload is the default one, and
  -- the code is the same.
  pub get-success :
      {t : Tree I Text} {h : ℕ} (o : IsTotal p_int) (tree : IsTree p_int t h) (k_short : S) (k : I)
      (state : IdxState) (txn : TxnState) (r : Record) (trees : Trees S I) (q : ℕ)
      → state.type ≡ int
      → state.nbt ≡ some q
      → trees q ≡ some (int_tree t)
      → length blank ≤ 100
      → ((v : Text) → Has t k v h t.root → length v ≤ 100)
      → (v : Text) × (get p_short p_int k_short k state txn r trees
          ≡ ok ((code success, state, record (with_key_data r) { payload = v }), trees))
        × (Has t k v h t.root ⊎ ((v ≡ blank) × ((u : Text) → ¬ Has t k u h t.root)))
  get-success {t} o tree k_short k state txn r trees q e handle there empty_short small =
      elim (get-Has p_int o tree k) [
        | inl (v, has, run) ↦ (
          v,
          get-run k_short k state txn r (record (with_key_data r) { payload = v }) trees q t e
              handle there (fetch-run p_int k t (with_key_data r) true v (small v has) run),
          inl has,
        )
        | inr (run, none_held) ↦ (
          blank,
          get-run k_short k state txn r (record (with_key_data r) { payload = blank }) trees q t e
              handle there (fetch-run p_int k t (with_key_data r) false blank empty_short run),
          inr (refl, none_held),
        )
      ]

  -- A handle without a tree.
  get-no_tree :
      (k_short : S) (k : I) (state : IdxState) (txn : TxnState) (r : Record) (trees : Trees S I)
      → state.nbt ≡ none
      → has_tree state.type ≡ true
      → get p_short p_int k_short k state txn r trees ≡ fault bad_pointer
  unfolding get
  get-no_tree k_short k state txn r trees closed typed = ground (arith, closed)

  -- After a `closeIndex` with SUCCESS, `get` with the closed handle, of any of the three key types,
  -- follows a NULL or an unset pointer, whatever the trees, the transaction and the record are: it
  -- does not check that the handle is open.
  pub get-close_index :
      (b : Strings) (s s' : IdxState) (c c' : Catalog) (k_short : S) (k : I) (txn : TxnState)
      (r : Record) (trees : Trees S I)
      → has_tree s.type ≡ true
      → close_index b s c ≡ returns success s' c'
      → get p_short p_int k_short k s' txn r trees ≡ fault bad_pointer
  get-close_index b s s' c c' k_short k txn r trees typed h =
      let closed = closed-handle b s s' c c' h in
      rw closed (get-no_tree k_short k (record s { nbt = none }) txn r trees refl typed)
