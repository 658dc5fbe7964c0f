-- ===== src/StrObject.antt =====
-- objects/strobject.h and objects/strobject.c: strings of bytes. A char is signed, and a byte is
-- kept as the number from 0 to 255 that its bits stand for.
pub mod Hash
pub mod Compare
pub mod Join
pub mod Repr
mod Tests
use cobj.Prelude.{
  ℕ, zero, suc, ◌+◌, ◌-◌, ◌*◌, ◌%◌, ◌^◌, ◌<◌, List, [], ◌∷◌, ◌++◌, length, take, drop, get_or, min,
  All,
}
use cobj.Prelude.{Bool, true, false, ◌&&◌, not, if◌then◌else◌, ltb, leb, ◌==◌}
use cobj.Prelude.Int.{ℤ, pos, negsuc, sub_ℕ, eqb_ℤ, ltb_ℤ, leb_ℤ}
use cobj.Prelude.Result.{Result, ok, raise, undefined, ◌>>=◌, system_error, overflow_error}
use cobj.BigInt.Compare.{CmpOp, lt, le, eq, ne, gt, ge, exc_match}

-- COStrObject: the bits of `co_shash`, and `co_sval` without the zero byte behind it.
pub record StrObject : Type 0 where
  pub co_shash : ℕ
  pub co_sval : List ℕ

abbrev pub IsBytes : List ℕ → Type 0
IsBytes s = All (λ c. c < 256) s

-- The bits of -1, a hash that was not computed yet.
abbrev pub no_hash : ℕ
no_hash = 2 ^ 64 - 1

abbrev pub new_str : List ℕ → StrObject
new_str s = record { co_shash = no_hash; co_sval = s }

-- A char as an unsigned long, with its sign extended.
abbrev pub extended : ℕ → ℕ
extended c = if ltb c 128 then c else c + (2 ^ 64 - 256)

-- `hash = ((hash << 5) + hash) + *arKey++`
pub times_33 : ℕ → ℕ → ℕ
times_33 hash c = (hash * 2 ^ 5 % 2 ^ 64 + hash + extended c) % 2 ^ 64

-- The body of the loop of `str_hash`, which is unrolled eight times.
unfoldable pub hash_eight : List ℕ → ℕ → List ℕ × ℕ
hash_eight (c1 ∷ c2 ∷ c3 ∷ c4 ∷ c5 ∷ c6 ∷ c7 ∷ c8 ∷ s) hash = (
  s,
  times_33
      (times_33
        (times_33 (times_33 (times_33 (times_33 (times_33 (times_33 hash c1) c2) c3) c4) c5) c6) c7)
      c8,
)
hash_eight _ hash = ([], hash)

-- `for (; nKeyLen >= 8; nKeyLen -= 8)`: what is left of nKeyLen, of the key, and the hash.
unfoldable pub hash_loop : ℕ → ℕ → List ℕ → ℕ → ℕ × List ℕ × ℕ
hash_loop zero n s hash = (n, s, hash)
hash_loop (suc fuel) n s hash =
    let (s', hash') = hash_eight s hash in
    let next = hash_loop fuel (n - 8) s' hash' in if leb 8 n then next else (n, s, hash)

-- The switch, whose cases fall through.
unfoldable pub hash_rest : ℕ → List ℕ → ℕ → ℕ
hash_rest (suc n) (c ∷ s) hash = hash_rest n s (times_33 hash c)
hash_rest _ _ hash = hash

-- str_hash; nKeyLen is an unsigned int.
unfoldable pub str_hash : StrObject → ℕ × StrObject
str_hash o =
    let len = length o.co_sval % 2 ^ 32 in
    let (n, s, h) = hash_loop len len o.co_sval 5381 in
    let hash = hash_rest n s h in
    if o.co_shash == no_hash then (hash, record o { co_shash = hash }) else (o.co_shash, o)
