-- ===== src/Server.antt =====
-- The types of server.h that the implementation in bptree.cc uses.
use ccpbtree.Base.{ℕ, Bool, true, false, ◌&&◌, ◌==◌, List, [], ◌∷◌, ℤ, pos}

-- `ErrCode`
pub data ErrCode : Type 0 where
  success db_dne db_exists db_end key_notfound txn_exists txn_dne : ErrCode
  entry_exists entry_dne deadlock failure : ErrCode

-- `KeyType`. C lets any number through in place of an enumerator: `other`.
pub data KeyType : Type 0 where
  short int varchar : KeyType
  other : ℕ → KeyType

-- A NUL-terminated string, by the bytes before its end.
abbrev pub Text : Type 0
Text = List ℕ

-- `strcmp(a, b) == 0`
abbrev pub text_eq : Text → Text → Bool
text_eq [] [] = true
text_eq (x ∷ xs) (y ∷ ys) = (x == y) && text_eq xs ys
text_eq _ _ = false

-- `Key`: the type, and the member of the union that it selects; behind a number, the bytes that follow
-- it in the union.
pub data Key : Type 0 where
  short_key : ℤ → (ℕ → ℕ) → Key
  int_key : ℤ → (ℕ → ℕ) → Key
  char_key : Text → Key
  other_key : ℕ → Key

-- `memset(&key, 0, sizeof(Key))`: the type is the enumerator 0, SHORT.
abbrev pub zero_key : Key
zero_key = short_key (pos 0) (λ i. 0)

-- `Record`
pub record Record : Type 0 where
  pub key : Key
  pub payload : Text
