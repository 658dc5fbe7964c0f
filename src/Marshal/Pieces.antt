-- ===== src/Marshal/Pieces.antt =====
-- The pieces of marshal.c that are read as they were written: tags, numbers and texts.
use cobj.Prelude.{
  append_assoc, append-nil, ℕ, suc, ◌+◌, ◌%◌, ◌/◌, ◌^◌, ◌≤◌, ◌<◌, ◌≡◌, refl, sym, ap, ◌∙◌, arith,
  List, [], ◌∷◌, ◌++◌, length,
}
use cobj.Prelude.{take, take-length, drop, false, ◌==◌, lt→ltb, le→leb, length-append}
use cobj.Prelude.Int.{ℤ, pos}
use cobj.Prelude.Result.{ok}
use cobj.Marshal.Objects.{Object, Value, Pairs}
use cobj.Marshal.Words.{
  word_of, word_of_small, word_of_bound, bytes_of_int32, bytes_of_int64, int32_of, int64_of,
  int32_of-bytes, int64_of-halves,
}
use cobj.Marshal.Writer.{WFile, w_byte, w_bytes, w_int64, int_prefix}
use cobj.Marshal.Reader.{
  RFile, r_byte, r_int32, r_int64, c_int, tag_of, read_value, r_object, r_text, complete,
}

pub w_bytes-out : (s : List ℕ) (p : WFile) → (w_bytes s p).out ≡ p.out ++ s
unfolding w_bytes w_byte
w_bytes-out [] p = sym (append-nil p.out)
w_bytes-out (c ∷ s) p = w_bytes-out s (w_byte c p) ∙ append_assoc p.out (c ∷ []) s

pub w_int64-out : (x : ℤ) (p : WFile) → (w_int64 x p).out ≡ p.out ++ bytes_of_int64 (word_of x)
unfolding w_int64
w_int64-out x p = w_bytes-out (bytes_of_int64 (word_of x)) p

-- The reader behind some bytes
abbrev pub behind : RFile → ℕ → List ℕ → RFile
behind q n rest = record q { rest = rest; offset = q.offset + n }

pub r_object_tag :
    (set_item : Pairs → Object → Object → Pairs) (fuel c : ℕ) (s : List ℕ) (q : RFile)
    → q.rest ≡ c ∷ s
    → (c == 255) ≡ false
    → r_object set_item (suc fuel) q
      ≡ read_value set_item (r_object set_item fuel) fuel q.offset (tag_of c) (behind q 1 s)
unfolding r_object r_byte
r_object_tag set_item fuel c s q e h = rw (e, h) refl

r_int32_lem :
    (q : RFile) (a b c d : ℕ) (rest : List ℕ)
    → q.rest ≡ a ∷ b ∷ c ∷ d ∷ rest
    → r_int32 q ≡ ok (int32_of a b c d, behind q 4 rest)
unfolding r_int32
r_int32_lem q a b c d rest e = rw e refl

pub r_int64_lem :
    (q : RFile) (x : ℕ) (rest : List ℕ)
    → x < 2 ^ 64
    → q.rest ≡ bytes_of_int64 x ++ rest
    → r_int64 q ≡ ok (x, behind q 8 rest)
unfolding r_int64 bytes_of_int64 bytes_of_int32
r_int64_lem q x rest h e =
    let y = x / 2 ^ 32 in
    let high = bytes_of_int32 y ++ rest in
    let lo = r_int32_lem q _ _ _ _ high e in
    let hi = r_int32_lem (behind q 4 high) _ _ _ _ rest refl in
    let n : q.offset + 4 + 4 ≡ q.offset + 8 = omega arith in
    let v : int64_of (x % 2 ^ 32) (y % 2 ^ 32) ≡ x = int64_of-halves x h in
    rw (lo, hi, int32_of-bytes x, int32_of-bytes y, v, n) refl

pub r_int64-word_of :
    (q : RFile) (x : ℤ) (rest : List ℕ)
    → q.rest ≡ bytes_of_int64 (word_of x) ++ rest
    → r_int64 q ≡ ok (word_of x, behind q 8 rest)
r_int64-word_of q x rest e = r_int64_lem q (word_of x) rest (word_of_bound x) e

pub r_int64_pos :
    (q : RFile) (n : ℕ) (rest : List ℕ)
    → n < 2 ^ 31
    → q.rest ≡ bytes_of_int64 (word_of (pos n)) ++ rest
    → r_int64 q ≡ ok (n, behind q 8 rest)
r_int64_pos q n rest h e =
    r_int64-word_of q (pos n) rest e
    ∙ ap (λ k. ok (k, behind q 8 rest)) (word_of_small n (omega (arith, h)))

pub c_int_lem : (n : ℕ) → n < 2 ^ 31 → c_int n ≡ ok n
c_int_lem n h = let e : n % 2 ^ 32 ≡ n = omega arith in rw (e, lt→ltb n (2 ^ 31) h) refl

pub length-bytes_of_int64 : (x : ℕ) → length (bytes_of_int64 x) ≡ 8
unfolding bytes_of_int64 bytes_of_int32
length-bytes_of_int64 x = refl

take-append {ℓ} : {A : Type ℓ} (s rest : List A) → take (length s) (s ++ rest) ≡ s
take-append [] rest = refl
take-append (c ∷ s) rest = ap (λ t. c ∷ t) (take-append s rest)

drop-append {ℓ} : {A : Type ℓ} (s rest : List A) → drop (length s) (s ++ rest) ≡ rest
drop-append [] rest = refl
drop-append (c ∷ s) rest = drop-append s rest

pub int_prefix_lem : (s : List ℕ) → length s < 2 ^ 31 → int_prefix s ≡ s
unfolding int_prefix
int_prefix_lem s h =
    let e : length s % 2 ^ 32 ≡ length s = omega arith in
    rw (e, lt→ltb (length s) (2 ^ 31) h) (take-length s)

unfoldable pub text_bytes : List ℕ → List ℕ
text_bytes s = bytes_of_int64 (word_of (pos (length s))) ++ s

pub r_text_lem :
    (make : List ℕ → Value) (offset : ℕ) (s rest : List ℕ) (q : RFile)
    → length s < 2 ^ 31
    → q.rest ≡ text_bytes s ++ rest
    → r_text make offset q ≡ complete offset (make s) (behind q (8 + length s) rest)
unfolding text_bytes
r_text_lem make offset s rest q h e =
    let w = bytes_of_int64 (word_of (pos (length s))) in
    let i = r_int64_pos q (length s) (s ++ rest) h (e ∙ append_assoc w s rest) in
    let long : length s ≤ length (s ++ rest) = omega (arith, length-append s rest) in
    let n : q.offset + 8 + length s ≡ q.offset + (8 + length s) = omega arith in
    rw
      (
        i,
        c_int_lem (length s) h,
        le→leb (length s) (length (s ++ rest)) long,
        take-append s rest,
        drop-append s rest,
        n,
      )
      refl
