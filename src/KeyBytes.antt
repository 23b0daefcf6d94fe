-- ===== src/KeyBytes.antt =====
-- `p_setKeyDataFromKey` of bptree.cc: the bytes that it derives from a number and writes behind it into
-- the key, and its return code. It takes its second argument by value, so its caller sees nothing of
-- what it assigns to it.
pub mod Order
pub mod Long
use Prim.Native.Nat.{bit_xor}
use ccpbtree.Base.{ℕ, zero, suc, ◌+◌, ◌-◌, ◌/◌, ◌%◌, ◌^◌, List, [], ◌∷◌, ℤ, pos, negsuc, minus_one}
use ccpbtree.Server.{Key, short_key, int_key, char_key, other_key}

-- The conversion of a signed integer to an unsigned one of `2 ^ w` values: `m` is `2 ^ w`.
abbrev pub to_unsigned : ℕ → ℤ → ℕ
to_unsigned m (pos n) = n % m
to_unsigned m (negsuc n) = m - 1 - n % m

-- `(i & (0xFF << 8 * n)) >> 8 * n` stored in a byte.
abbrev pub byte_of : ℕ → ℕ → ℕ
byte_of i n = i / 256 ^ n % 256

-- The four bytes of a SHORT key: `data[0]` to `data[3]`.
unfoldable pub short_bytes : ℤ → List ℕ
short_bytes k =
    let i = to_unsigned (2 ^ 32) k in
    bit_xor (byte_of i 3) 0x80 ∷ byte_of i 2 ∷ byte_of i 1 ∷ byte_of i 0 ∷ []

-- The eight bytes of an INT key: `data[0]` to `data[7]`.
unfoldable pub int_bytes : ℤ → List ℕ
int_bytes k =
    let i = to_unsigned (2 ^ 64) k in
    bit_xor (byte_of i 7) 0x80
    ∷ byte_of i 6
    ∷ byte_of i 5
    ∷ byte_of i 4
    ∷ byte_of i 3
    ∷ byte_of i 2
    ∷ byte_of i 1
    ∷ byte_of i 0
    ∷ []

-- The bytes written over the first ones of `old`.
abbrev pub overlay : List ℕ → (ℕ → ℕ) → ℕ → ℕ
overlay [] old i = old i
overlay (x ∷ xs) old zero = x
overlay (x ∷ xs) old (suc i) = overlay xs (λ j. old (suc j)) i

-- `p_setKeyDataFromKey`: the key as it leaves it, and the return code.
unfoldable pub set_key_data_from_key : Key → Key × ℤ
unfolding short_bytes int_bytes
set_key_data_from_key (short_key k behind) = (short_key k (overlay (short_bytes k) behind), pos 1)
set_key_data_from_key (int_key k behind) = (int_key k (overlay (int_bytes k) behind), pos 2)
set_key_data_from_key (char_key s) = (char_key s, pos 3)
set_key_data_from_key (other_key t) = (other_key t, minus_one)
