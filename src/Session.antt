-- ===== src/Session.antt =====
-- The transactions of bptree.cc, and its `get`. The local `k` of `get` is handed to
-- `p_setKeyDataFromKey` by value, so the search is for what the variable held, which the record's key
-- does not decide: an argument here.
pub mod Lookup
use ccpbtree.Base.{
  ℕ, suc, ◌==◌, ltb, if◌then◌else◌, [], ◌∷◌, ℤ, pos, negsuc, Option, none, some, put,
}
use ccpbtree.Server.{ErrCode, success, failure, short, int, varchar, other, Text, Record}
use ccpbtree.Store.{out_of_bounds, bad_pointer, bad_cast, Tree, Out, ok, fault, then_out, Traits}
use ccpbtree.KeyBytes.{set_key_data_from_key}
use ccpbtree.Catalog.{IdxState}
use ccpbtree.Find

-- `TXNState`, less its cursors, which nothing uses.
pub record TxnState : Type 0 where
  pub status : ℤ
  pub tid : ℕ

-- `beginTransaction`; `rand` is what `rand()` returns.
unfoldable pub begin_transaction : ℕ → ErrCode × TxnState
begin_transaction rand = (success, record { status = pos 1; tid = rand })

-- `abortTransaction`
unfoldable pub abort_transaction : TxnState → ErrCode × TxnState
abort_transaction txn = (success, record txn { status = negsuc 0 })

-- `commitTransaction`
unfoldable pub commit_transaction : TxnState → ErrCode × TxnState
commit_transaction txn = (success, record txn { status = negsuc 0 })

-- What `get` returns: a code, or nothing, where it runs off the end of its body.
pub data Returned : Type 0 where
  code : ErrCode → Returned
  no_value : Returned

abbrev pub length : Text → ℕ
length [] = 0
length (x ∷ xs) = suc (length xs)

-- `strcpy(record->payload, …)` into `MAX_PAYLOAD_LEN + 1` bytes.
abbrev pub copy_payload : Record → Text → Out Record
copy_payload r s = if ltb 100 (length s) then fault out_of_bounds else ok (record r { payload = s })

-- A tree as `create` makes it, for keys of the C types `short` and `int`, and for strings.
pub data AnyTree (S I : Type 0) : Type 0 where
  short_tree : Tree S Text → AnyTree S I
  int_tree : Tree I Text → AnyTree S I
  text_tree : Tree Text Text → AnyTree S I

-- The trees by the names that the handles have for them.
abbrev pub Trees : Type 0 → Type 0 → Type 0
Trees S I = ℕ → Option (AnyTree S I)

-- The record with its key as `p_setKeyDataFromKey` leaves it.
abbrev pub with_key_data : Record → Record
with_key_data r = record r { key = (set_key_data_from_key r.key).0 }

-- The search of the tree, and the copy of what it finds.
unfoldable pub fetch :
    {K : Type 0} → Traits K Text → K → Tree K Text → Record → Out (Record × Tree K Text)
fetch p k t r =
    then_out (Find.get p k t) (λ ((v, found), t'). then_out (copy_payload r v) (λ r'. ok (r', t')))

-- The end of `get`, behind its `switch`.
unfoldable pub note_key : IdxState → TxnState → Record → IdxState
note_key state txn r = record state {
  tid = if txn.tid == state.tid then state.tid else txn.tid;
  last_key = r.key;
  key_not_found = 0;
}

module _ {S I : Type 0} (p_short : Traits S Text) (p_int : Traits I Text) where
  -- `get`. `k_short` and `k_int` are what the local variable `k` of each branch holds; the `k` of the
  -- VARCHAR branch is a pointer that was never set, and is followed. A handle without a tree, or one
  -- that is not of the handle's type, is followed too.
  unfoldable pub get :
      S
      → I
      → IdxState
      → TxnState
      → Record
      → Trees S I
      → Out ((Returned × IdxState × Record) × Trees S I)
  unfolding fetch note_key set_key_data_from_key
  get k_short k_int state txn r trees = elim state.type [
    | short ↦ elim state.nbt [
      | none ↦ fault bad_pointer
      | some q ↦ elim (trees q) [
        | none ↦ fault bad_pointer
        | some (short_tree t) ↦ then_out (fetch p_short k_short t (with_key_data r)) (λ (r', t').
            ok ((no_value, note_key state txn r', r'), put trees q (some (short_tree t'))))
        | some _ ↦ fault bad_cast
      ]
    ]
    | int ↦ elim state.nbt [
      | none ↦ fault bad_pointer
      | some q ↦ elim (trees q) [
        | none ↦ fault bad_pointer
        | some (int_tree t) ↦
            then_out (fetch p_int k_int t (with_key_data r))
              (λ (r', t'). ok ((code success, state, r'), put trees q (some (int_tree t'))))
        | some _ ↦ fault bad_cast
      ]
    ]
    | varchar ↦ fault bad_pointer
    | other n ↦ ok ((code failure, state, r), trees)
  ]
