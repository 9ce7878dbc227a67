-- ===== src/Applypatch/Offsets.antt =====
-- The eight-byte offsets of a patch: offtin of applypatch/bspatch.c, and offtout of
-- applypatch/bsdiff.c, which writes what offtin reads.
use cot_bootable_recovery_to.Base.{
  ℕ, suc, ◌+◌, ◌*◌, ◌/◌, ◌%◌, ◌^◌, ◌<◌, ◌≡◌, ◌⊎◌, inl, inr, refl, [], ◌∷◌, ◌++◌, Bytes, true, false,
  length, get_or, leb, le→leb, lt→leb, if◌then◌else◌, arith,
}
use cot_bootable_recovery_to.Base.Int.{ℤ, pos, negsuc, sub_ℕ}

-- The number in eight bytes from the last to the first, `buf[7]&0x7F` in front.
unfoldable pub magnitude : Bytes → ℕ
magnitude buf =
    let y = get_or buf 7 0 % 128 in
    let y = y * 256 + get_or buf 6 0 in
    let y = y * 256 + get_or buf 5 0 in
    let y = y * 256 + get_or buf 4 0 in
    let y = y * 256 + get_or buf 3 0 in
    let y = y * 256 + get_or buf 2 0 in let y = y * 256 + get_or buf 1 0 in y * 256 + get_or buf 0 0

-- offtin: `buf[7]&0x80` is the sign.
unfoldable pub offtin : Bytes → ℤ
offtin buf = if leb 128 (get_or buf 7 0) then sub_ℕ 0 (magnitude buf) else pos (magnitude buf)

-- The bytes of a number below 2^63, the top bit of the last one by the sign.
unfoldable pub offset_bytes : ℕ → ℕ → Bytes
offset_bytes sign y0 =
    let y1 = y0 / 256 in
    let y2 = y1 / 256 in
    let y3 = y2 / 256 in
    let y4 = y3 / 256 in
    let y5 = y4 / 256 in
    let y6 = y5 / 256 in
    let y7 = y6 / 256 in
    y0 % 256
    ∷ y1 % 256
    ∷ y2 % 256
    ∷ y3 % 256
    ∷ y4 % 256
    ∷ y5 % 256
    ∷ y6 % 256
    ∷ (y7 % 256 + sign)
    ∷ []

-- offtout. The top bit of `buf[7]` is clear before the sign is put in, so `|=` adds it.
unfoldable pub offtout : ℤ → Bytes
offtout (pos n) = offset_bytes 0 n
offtout (negsuc n) = offset_bytes 128 (suc n)

-- The numbers that have such a form.
abbrev pub IsOffset : ℤ → Type 0
IsOffset (pos n) = n < 2 ^ 63
IsOffset (negsuc n) = suc n < 2 ^ 63

pub length-offtout : (x : ℤ) → length (offtout x) ≡ 8
unfolding offtout offset_bytes
length-offtout (pos n) = refl
length-offtout (negsuc n) = refl

top : (y : ℕ) → y < 2 ^ 63 → y / 256 / 256 / 256 / 256 / 256 / 256 / 256 < 128
top y h = omega arith

top_byte : (sign y : ℕ) → y < 128 → (sign ≡ 0) ⊎ (sign ≡ 128) → (y % 256 + sign) % 128 ≡ y
top_byte sign y h (inl z) = omega arith
top_byte sign y h (inr z) = omega arith

step : (q y : ℕ) → q ≡ y / 256 → q * 256 + y % 256 ≡ y
step q y h = omega arith

magnitude-bytes :
    (sign y : ℕ) (rest : Bytes)
    → y < 2 ^ 63
    → (sign ≡ 0) ⊎ (sign ≡ 128)
    → magnitude (offset_bytes sign y ++ rest) ≡ y
unfolding magnitude offset_bytes
magnitude-bytes sign y rest h s = step _ y (
    step _ (y / 256) (
      step _ (y / 256 / 256) (
        step _ (y / 256 / 256 / 256) (
          step _ (y / 256 / 256 / 256 / 256) (
            step _ (y / 256 / 256 / 256 / 256 / 256)
              (step _ (y / 256 / 256 / 256 / 256 / 256 / 256) (top_byte sign _ (top y h) s)))))))

sign_clear :
    (y : ℕ) (rest : Bytes) → y < 2 ^ 63 → leb 128 (get_or (offset_bytes 0 y ++ rest) 7 0) ≡ false
unfolding offset_bytes
sign_clear y rest h = lt→leb 128 _ (omega (arith, top y h))

sign_set : (y : ℕ) (rest : Bytes) → leb 128 (get_or (offset_bytes 128 y ++ rest) 7 0) ≡ true
unfolding offset_bytes
sign_set y rest = le→leb 128 _ (omega arith)

sub-zero : (n : ℕ) → sub_ℕ 0 (suc n) ≡ negsuc n
unfolding sub_ℕ
sub-zero n = ground arith

-- What offtout writes of a number with less than 64 bits, offtin reads, whatever follows it.
pub offtin-offtout : (x : ℤ) (rest : Bytes) → IsOffset x → offtin (offtout x ++ rest) ≡ x
unfolding offtin offtout
offtin-offtout (pos n) rest h = rw (sign_clear n rest h, magnitude-bytes 0 n rest h (inl refl))
offtin-offtout (negsuc n) rest h =
    rw (sign_set (suc n) rest, magnitude-bytes 128 (suc n) rest h (inr refl)) (sub-zero n)
