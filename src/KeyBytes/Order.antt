-- ===== src/KeyBytes/Order.antt =====
-- The bytes of the integer keys compare, one after the other, as the integers do.
use Prim.Native.Nat.{bit_xor}
use native.Mathlib.Decide.{dec_lt}
use ccpbtree.Base.{
  if◌then◌else◌, ℕ, zero, suc, ◌+◌, ◌-◌, ◌*◌, ◌%◌, ◌^◌, ◌<◌, ◌≡◌, refl, ◌↔◌, List, [], ◌∷◌, Bool,
  true, false, ◌&&◌, ◌||◌, ℤ, pos, negsuc, arith, ltb, ◌==◌,
}
use ccpbtree.KeyBytes.{byte_of, short_bytes}

-- `memcmp(a, b) < 0` for two arrays of the same length.
unfoldable pub bytes_less : List ℕ → List ℕ → Bool
bytes_less [] ys = false
bytes_less (x ∷ xs) [] = false
bytes_less (x ∷ xs) (y ∷ ys) = ltb x y || ((x == y) && bytes_less xs ys)

-- The order of the integers.
abbrev pub Less : ℤ → ℤ → Type 0
Less (pos a) (pos b) = a < b
Less (pos a) (negsuc b) = ⊥
Less (negsuc a) (pos b) = Unit
Less (negsuc a) (negsuc b) = b < a

-- The values of an `int32_t`.
abbrev pub IsShort : ℤ → Type 0
IsShort (pos n) = n < 2 ^ 31
IsShort (negsuc n) = n < 2 ^ 31

-- Do two functions agree on the numbers below the bound?
agree : (ℕ → ℕ) → (ℕ → ℕ) → ℕ → Bool
agree f g zero = true
agree f g (suc bound) = if f bound == g bound then agree f g bound else false

eq_of_agree : (f g : ℕ → ℕ) (bound : ℕ) → agree f g bound ≡ true → (i : ℕ) → i < bound → f i ≡ g i
unfolding agree
eq_of_agree f g zero table i inside = absurd (omega arith)
eq_of_agree f g (suc bound) table i inside = elim (dec_lt i bound) [
  | yes before ↦ eq_of_agree f g bound (ground arith) i before
  | no last ↦ let same : i ≡ bound = omega arith in rw same (ground arith)
]

-- Flipping the top bit of a byte is adding 128.
pub flip_lem : (i : ℕ) → i < 256 → bit_xor i 0x80 ≡ (i + 128) % 256
unfolding agree
flip_lem i inside = eq_of_agree (λ n. bit_xor n 0x80) (λ n. (n + 128) % 256) 256 refl i inside

-- The number that four bytes stand for, the first the highest.
abbrev pub value : ℕ → ℕ → ℕ → ℕ → ℕ
value a b c d = ((a * 256 + b) * 256 + c) * 256 + d

shifted : ℤ → ℕ
shifted (pos n) = n + 2 ^ 31
shifted (negsuc n) = 2 ^ 31 - 1 - n

pub record IsDigits (bytes : List ℕ) (n : ℕ) : Type 0 where
  pub a : ℕ
  pub b : ℕ
  pub c : ℕ
  pub d : ℕ
  pub eq : bytes ≡ a ∷ b ∷ c ∷ d ∷ []
  pub a_lt : a < 256
  pub b_lt : b < 256
  pub c_lt : c < 256
  pub d_lt : d < 256
  pub sum : value a b c d ≡ n

IsDigits-of :
    (i n : ℕ)
    → i < 2 ^ 32
    → (i + 2 ^ 31) % 2 ^ 32 ≡ n
    → IsDigits (bit_xor (byte_of i 3) 0x80 ∷ byte_of i 2 ∷ byte_of i 1 ∷ byte_of i 0 ∷ []) n
IsDigits-of i n small e = record {
  a = (byte_of i 3 + 128) % 256;
  b = byte_of i 2;
  c = byte_of i 1;
  d = byte_of i 0;
  eq = rw (flip_lem (byte_of i 3) (omega arith));
  a_lt = omega arith;
  b_lt = omega arith;
  c_lt = omega arith;
  d_lt = omega arith;
  sum = omega arith;
}

short_bytes-IsDigits : (k : ℤ) → IsShort k → IsDigits (short_bytes k) (shifted k)
unfolding short_bytes shifted
short_bytes-IsDigits (pos n) h = IsDigits-of (n % 2 ^ 32) (n + 2 ^ 31) (omega arith) (omega arith)
short_bytes-IsDigits (negsuc n) h =
    IsDigits-of (2 ^ 32 - 1 - n % 2 ^ 32) (2 ^ 31 - 1 - n) (omega arith) (omega arith)

pub digits_less :
    (xs ys : List ℕ) (m n : ℕ) → IsDigits xs m → IsDigits ys n → (bytes_less xs ys ≡ true) ↔ (m < n)
unfolding bytes_less
digits_less xs ys m n x y = rw (x.eq, y.eq) (ground arith)

Less-shifted : (a b : ℤ) → IsShort a → IsShort b → Less a b ↔ (shifted a < shifted b)
unfolding shifted
Less-shifted (pos a) (pos b) h g = omega arith
Less-shifted (pos a) (negsuc b) h g = (λ e. absurd e, λ e. absurd (omega arith))
Less-shifted (negsuc a) (pos b) h g = (λ e. omega arith, λ e. tt)
Less-shifted (negsuc a) (negsuc b) h g = omega arith

-- The four bytes made of two SHORT keys, numbers of 32 bits, compare bytewise exactly as the
-- keys do as signed numbers.
pub short_bytes_order :
    (a b : ℤ)
    → IsShort a
    → IsShort b
    → (bytes_less (short_bytes a) (short_bytes b) ≡ true) ↔ Less a b
short_bytes_order a b h g =
    let (to, back) =
      digits_less (short_bytes a) (short_bytes b) (shifted a) (shifted b) (short_bytes-IsDigits a h)
        (short_bytes-IsDigits b g) in
    let (up, down) = Less-shifted a b h g in (λ e. down (to e), λ l. back (up l))
