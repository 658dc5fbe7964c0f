-- ===== src/Marshal/Words.antt =====
-- w_int32, w_int64, r_int32 and r_int64 of marshal.c, on the bits of a C long.
use cobj.Prelude.{
  ℕ, ◌+◌, ◌-◌, ◌*◌, ◌/◌, ◌%◌, ◌^◌, ◌<◌, ◌≡◌, arith, List, [], ◌∷◌, ◌++◌, ltb, if◌then◌else◌,
}
use cobj.Prelude.Int.{ℤ, pos, negsuc, pos_part, neg_part}
use cobj.BigInt.Long.{IsLong}

-- The bits of a long, as an unsigned number, and back.
pub word_of : ℤ → ℕ
word_of v = (2 ^ 64 + pos_part v - neg_part v) % 2 ^ 64

pub long_of : ℕ → ℤ
long_of w = if ltb w (2 ^ 63) then pos w else negsuc (2 ^ 64 - 1 - w)

pub long_of-word_of : (v : ℤ) → IsLong v → long_of (word_of v) ≡ v
unfolding long_of word_of
long_of-word_of (pos n) h = ground arith
long_of-word_of (negsuc n) h = ground arith

pub word_of_small : (n : ℕ) → n < 2 ^ 63 → word_of (pos n) ≡ n
unfolding word_of
word_of_small n h = omega arith

pub word_of_bound : (v : ℤ) → word_of v < 2 ^ 64
unfolding word_of
word_of_bound v = omega arith

-- The four bytes that w_int32 writes, the lowest one first.
unfoldable pub bytes_of_int32 : ℕ → List ℕ
bytes_of_int32 x = x % 256 ∷ x / 2 ^ 8 % 256 ∷ x / 2 ^ 16 % 256 ∷ x / 2 ^ 24 % 256 ∷ []

-- w_int64: the low half and `x >> 32`
unfoldable pub bytes_of_int64 : ℕ → List ℕ
bytes_of_int64 x = bytes_of_int32 x ++ bytes_of_int32 (x / 2 ^ 32)

-- The sum of the four bytes in r_int32
pub int32_of : ℕ → ℕ → ℕ → ℕ → ℕ
int32_of a b c d = a + b * 2 ^ 8 + c * 2 ^ 16 + d * 2 ^ 24

pub int32_of-bytes :
    (x : ℕ)
    → int32_of (x % 256) (x / 2 ^ 8 % 256) (x / 2 ^ 16 % 256) (x / 2 ^ 24 % 256) ≡ x % 2 ^ 32
unfolding int32_of
int32_of-bytes x = omega arith

-- r_int64 on the two halves
pub int64_of : ℕ → ℕ → ℕ
int64_of lo hi = hi * 2 ^ 32 + lo

pub int64_of-halves : (x : ℕ) → x < 2 ^ 64 → int64_of (x % 2 ^ 32) (x / 2 ^ 32 % 2 ^ 32) ≡ x
unfolding int64_of
int64_of-halves x h = omega arith
