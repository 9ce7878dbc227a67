-- ===== src/Applypatch/Words.antt =====
-- applypatch/utils.c: little-endian numbers of 4 and 8 bytes, which Read4 and Read8 take from a
-- buffer and Write4 and Write8 put into a file.
use cot_bootable_recovery_to.Base.{
  ℕ, ◌+◌, ◌*◌, ◌/◌, ◌%◌, ◌^◌, ◌<◌, ◌≡◌, ◌∙◌, ap, [], ◌∷◌, ◌++◌, Bytes, get_or, ltb, if◌then◌else◌,
  arith,
}
use cot_bootable_recovery_to.Base.Int.{ℤ, pos, negsuc, sub_ℕ, to_word}

-- The 4 bytes of a word, and the 8 bytes.
unfoldable pub bytes4 : ℕ → Bytes
bytes4 v = v % 256 ∷ v / 2 ^ 8 % 256 ∷ v / 2 ^ 16 % 256 ∷ v / 2 ^ 24 % 256 ∷ []

unfoldable pub bytes8 : ℕ → Bytes
bytes8 v =
    v % 256
    ∷ v / 2 ^ 8 % 256
    ∷ v / 2 ^ 16 % 256
    ∷ v / 2 ^ 24 % 256
    ∷ v / 2 ^ 32 % 256
    ∷ v / 2 ^ 40 % 256
    ∷ v / 2 ^ 48 % 256
    ∷ v / 2 ^ 56 % 256
    ∷ []

-- Write4 and Write8.
unfoldable pub write4 : ℤ → Bytes
write4 value = bytes4 (to_word 32 value)

unfoldable pub write8 : ℤ → Bytes
write8 value = bytes8 (to_word 64 value)

-- A word as a signed number of `half * 2` values.
unfoldable pub signed : ℕ → ℕ → ℤ
signed half n = if ltb n half then pos n else sub_ℕ n (half * 2)

-- The bytes of a buffer as a word; `|` of shifted bytes is their sum.
unfoldable pub word4 : Bytes → ℕ
word4 p = get_or p 3 0 * 2 ^ 24 + get_or p 2 0 * 2 ^ 16 + get_or p 1 0 * 2 ^ 8 + get_or p 0 0

unfoldable pub word8 : Bytes → ℕ
word8 p =
    get_or p 7 0 * 2 ^ 56
    + get_or p 6 0 * 2 ^ 48
    + get_or p 5 0 * 2 ^ 40
    + get_or p 4 0 * 2 ^ 32
    + get_or p 3 0 * 2 ^ 24
    + get_or p 2 0 * 2 ^ 16
    + get_or p 1 0 * 2 ^ 8
    + get_or p 0 0

-- Read2, Read4 and Read8.
unfoldable pub read2 : Bytes → ℤ
read2 p = pos (get_or p 1 0 * 2 ^ 8 + get_or p 0 0)

unfoldable pub read4 : Bytes → ℤ
read4 p = signed (2 ^ 31) (word4 p)

unfoldable pub read8 : Bytes → ℤ
read8 p = signed (2 ^ 63) (word8 p)

-- The numbers from `-half` to `half - 1`.
abbrev pub IsSigned : ℕ → ℤ → Type 0
IsSigned half (pos n) = n < half
IsSigned half (negsuc n) = n < half

pub word4-bytes4 : (v : ℕ) (rest : Bytes) → v < 2 ^ 32 → word4 (bytes4 v ++ rest) ≡ v
unfolding word4 bytes4
word4-bytes4 v rest h = omega arith

word8-bytes8 : (v : ℕ) (rest : Bytes) → v < 2 ^ 64 → word8 (bytes8 v ++ rest) ≡ v
unfolding word8 bytes8
word8-bytes8 v rest h = omega arith

signed-word4 :
    (x : ℤ) → IsSigned (2 ^ 31) x → (to_word 32 x < 2 ^ 32) × (signed (2 ^ 31) (to_word 32 x) ≡ x)
unfolding to_word signed sub_ℕ
signed-word4 (pos n) h = (omega arith, ground arith)
signed-word4 (negsuc n) h = (omega arith, ground arith)

signed-word8 :
    (x : ℤ) → IsSigned (2 ^ 63) x → (to_word 64 x < 2 ^ 64) × (signed (2 ^ 63) (to_word 64 x) ≡ x)
unfolding to_word signed sub_ℕ
signed-word8 (pos n) h = (omega arith, ground arith)
signed-word8 (negsuc n) h = (omega arith, ground arith)

-- Read4 gives the `int` that Write4 wrote, and Read8 the `long long` that Write8 wrote, whatever
-- follows.
pub read-write :
    (x y : ℤ) (rest : Bytes)
    → IsSigned (2 ^ 31) x
    → IsSigned (2 ^ 63) y
    → (read4 (write4 x ++ rest) ≡ x) × (read8 (write8 y ++ rest) ≡ y)
unfolding read4 write4 read8 write8
read-write x y rest h k =
    let (l, e) = signed-word4 x h in
    let (l', e') = signed-word8 y k in
    (
      ap (signed (2 ^ 31)) (word4-bytes4 (to_word 32 x) rest l) ∙ e,
      ap (signed (2 ^ 63)) (word8-bytes8 (to_word 64 y) rest l') ∙ e',
    )
