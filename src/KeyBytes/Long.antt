-- ===== src/KeyBytes/Long.antt =====
-- The bytes of INT keys compare, one after the other, as the integers do: two halves of four bytes.
use Prim.Native.Nat.{bit_xor}
use native.Mathlib.Decide.{dec_lt}
use ccpbtree.Base.{
  ℕ, ◌+◌, ◌-◌, ◌*◌, ◌%◌, ◌^◌, ◌<◌, ◌≡◌, refl, ◌⊎◌, inl, inr, ◌↔◌, List, [], ◌∷◌, ◌++◌, true, ℤ, pos,
  negsuc, arith,
}
use ccpbtree.KeyBytes.{byte_of, int_bytes}
use ccpbtree.KeyBytes.Order.{bytes_less, Less, IsDigits, value, flip_lem, digits_less}

-- The values of an `int64_t`.
abbrev pub IsLong : ℤ → Type 0
IsLong (pos n) = n < 2 ^ 63
IsLong (negsuc n) = n < 2 ^ 63

-- Eight bytes that stand for a number, the first the highest.
record IsWords (bytes : List ℕ) (n : ℕ) : Type 0 where
  xs : List ℕ
  ys : List ℕ
  hi : ℕ
  lo : ℕ
  eq : bytes ≡ xs ++ ys
  high : IsDigits xs hi
  low : IsDigits ys lo
  sum : hi * 2 ^ 32 + lo ≡ n

shifted : ℤ → ℕ
shifted (pos n) = n + 2 ^ 63
shifted (negsuc n) = 2 ^ 63 - 1 - n

IsWords-of :
    (i n : ℕ)
    → i < 2 ^ 64
    → (i + 2 ^ 63) % 2 ^ 64 ≡ n
    → IsWords
        (bit_xor (byte_of i 7) 0x80
          ∷ byte_of i 6
          ∷ byte_of i 5
          ∷ byte_of i 4
          ∷ byte_of i 3
          ∷ byte_of i 2
          ∷ byte_of i 1
          ∷ byte_of i 0
          ∷ [])
        n
IsWords-of i n small e = record {
  xs = bit_xor (byte_of i 7) 0x80 ∷ byte_of i 6 ∷ byte_of i 5 ∷ byte_of i 4 ∷ [];
  ys = byte_of i 3 ∷ byte_of i 2 ∷ byte_of i 1 ∷ byte_of i 0 ∷ [];
  hi = value ((byte_of i 7 + 128) % 256) (byte_of i 6) (byte_of i 5) (byte_of i 4);
  lo = value (byte_of i 3) (byte_of i 2) (byte_of i 1) (byte_of i 0);
  eq = refl;
  high = record {
    a = (byte_of i 7 + 128) % 256;
    b = byte_of i 6;
    c = byte_of i 5;
    d = byte_of i 4;
    eq = rw (flip_lem (byte_of i 7) (omega arith));
    a_lt = omega arith;
    b_lt = omega arith;
    c_lt = omega arith;
    d_lt = omega arith;
    sum = refl;
  };
  low = record {
    a = byte_of i 3;
    b = byte_of i 2;
    c = byte_of i 1;
    d = byte_of i 0;
    eq = refl;
    a_lt = omega arith;
    b_lt = omega arith;
    c_lt = omega arith;
    d_lt = omega arith;
    sum = refl;
  };
  sum = omega arith;
}

-- Equal first halves leave the comparison to the second ones.
digits-append :
    (xs us ys vs : List ℕ) (m n : ℕ)
    → IsDigits xs m
    → IsDigits ys n
    → (bytes_less (xs ++ us) (ys ++ vs) ≡ true) ↔ ((m < n) ⊎ ((m ≡ n) × (bytes_less us vs ≡ true)))
unfolding bytes_less
digits-append xs us ys vs m n x y = rw (x.eq, y.eq) (ground arith)

int_bytes-IsWords : (k : ℤ) → IsLong k → IsWords (int_bytes k) (shifted k)
unfolding int_bytes shifted
int_bytes-IsWords (pos n) h = IsWords-of (n % 2 ^ 64) (n + 2 ^ 63) (omega arith) (omega arith)
int_bytes-IsWords (negsuc n) h =
    IsWords-of (2 ^ 64 - 1 - n % 2 ^ 64) (2 ^ 63 - 1 - n) (omega arith) (omega arith)

IsDigits-bound : {bytes : List ℕ} {n : ℕ} → IsDigits bytes n → n < 2 ^ 32
IsDigits-bound x = omega (arith, x.sum, x.a_lt, x.b_lt, x.c_lt, x.d_lt)

words_less :
    (xs ys : List ℕ) (m n : ℕ) → IsWords xs m → IsWords ys n → (bytes_less xs ys ≡ true) ↔ (m < n)
words_less xs ys m n x y =
    let (to, back) = digits-append x.xs x.ys y.xs y.ys x.hi y.hi x.high y.high in
    let (low, up) = digits_less x.ys y.ys x.lo y.lo x.low y.low in
    let small : x.lo < 2 ^ 32 = IsDigits-bound x.low in
    let small' : y.lo < 2 ^ 32 = IsDigits-bound y.low in
    (
      λ h. elim (to (rw (x.eq, y.eq) at h)) [
        | inl less ↦ omega (arith, less, small, small', x.sum, y.sum)
        | inr (same, rest) ↦ omega (arith, same, low rest, x.sum, y.sum)
      ],
      λ h.
          rw (x.eq, y.eq)
            (back (elim (dec_lt x.hi y.hi) [
              | yes less ↦ inl less
              | no more ↦ inr (
                omega (arith, small, small', x.sum, y.sum),
                up (omega (arith, small, small', x.sum, y.sum)),
              )
            ])),
    )

Less-shifted : (a b : ℤ) → IsLong a → IsLong b → Less a b ↔ (shifted a < shifted b)
unfolding shifted
Less-shifted (pos a) (pos b) h g = omega arith
Less-shifted (pos a) (negsuc b) h g = (λ e. absurd e, λ e. absurd (omega arith))
Less-shifted (negsuc a) (pos b) h g = (λ e. omega arith, λ e. tt)
Less-shifted (negsuc a) (negsuc b) h g = omega arith

-- The eight bytes made of two INT keys, numbers of 64 bits, compare bytewise exactly as the keys do
-- as signed numbers.
pub int_bytes_order :
    (a b : ℤ) → IsLong a → IsLong b → (bytes_less (int_bytes a) (int_bytes b) ≡ true) ↔ Less a b
int_bytes_order a b h g =
    let (to, back) =
      words_less (int_bytes a) (int_bytes b) (shifted a) (shifted b) (int_bytes-IsWords a h)
        (int_bytes-IsWords b g) in
    let (up, down) = Less-shifted a b h g in (λ e. down (to e), λ l. back (up l))
