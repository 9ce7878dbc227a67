-- ===== src/Minelf/Encoded.antt =====
-- minelf/Retouch.c: the three forms of an entry, written as the decoder reads them.
use cot_bootable_recovery_to.Base.{
  ℕ, ◌+◌, ◌-◌, ◌*◌, ◌/◌, ◌%◌, ◌^◌, ◌≤◌, ◌<◌, ◌==◌, ◌≡◌, ◌≢◌, ◌∙◌, refl, [], ◌∷◌, ◌++◌, Bytes, leb,
  if◌then◌else◌, arith,
}
use cot_bootable_recovery_to.Minelf.Entry.{
  Decoded, sign_extend, big_endian, decode2, decode3, decode8, input_size, decode_in_memory,
}

-- An entry after another one: `step` times 4 bytes on, with contents that differ by a signed number of 13 or 20 bits, here
-- as a word; or an entry with all its bits, where the offset of all ones is -1.
pub data Form : Type 0 where
  two three : ℕ → ℕ → Form
  eight : ℕ → ℕ → Form

-- The bits of a form.
abbrev small : ℕ → ℕ → ℕ
small w delta = if leb (2 ^ 32 - 2 ^ (w - 1)) delta then delta + 2 ^ w - 2 ^ 32 else delta

abbrev bytes_of_word : ℕ → Bytes
bytes_of_word v = v / 2 ^ 24 % 256 ∷ v / 2 ^ 16 % 256 ∷ v / 2 ^ 8 % 256 ∷ v % 256 ∷ []

unfoldable pub encode : Form → Bytes
encode (two step delta) =
    (128 + (step - 1) * 32 + small 13 delta / 2 ^ 8) ∷ small 13 delta % 2 ^ 8 ∷ []
encode (three step delta) =
    (64 + (step - 1) * 16 + small 20 delta / 2 ^ 16)
    ∷ small 20 delta / 2 ^ 8 % 2 ^ 8
    ∷ small 20 delta % 2 ^ 8
    ∷ []
encode (eight offset contents) =
    bytes_of_word (if offset == 2 ^ 32 - 1 then 2 ^ 30 - 1 else offset) ++ bytes_of_word contents

-- A signed number of `w` bits, as a word.
abbrev IsDelta : ℕ → ℕ → Type 0
IsDelta w delta = (delta < 2 ^ 32) × (2 ^ (w - 1) ≤ delta → 2 ^ 32 - 2 ^ (w - 1) ≤ delta)

abbrev pub IsForm : Form → Type 0
IsForm (two step delta) = (0 < step) × (step ≤ 4) × IsDelta 13 delta
IsForm (three step delta) = (0 < step) × (step ≤ 4) × IsDelta 20 delta
IsForm (eight offset contents) = (contents < 2 ^ 32) × (offset ≢ 2 ^ 32 - 1 → offset < 2 ^ 30 - 1)

-- What an entry stands for.
abbrev pub meaning : Decoded → Form → Decoded
meaning prev (two step delta) = record {
  offset = (prev.offset + step * 4) % 2 ^ 32;
  contents = (prev.contents + delta) % 2 ^ 32;
}
meaning prev (three step delta) = record {
  offset = (prev.offset + step * 4) % 2 ^ 32;
  contents = (prev.contents + delta) % 2 ^ 32;
}
meaning prev (eight offset contents) = record { offset = offset; contents = contents }

abbrev pub size_of : Form → ℕ
size_of (two step delta) = 2
size_of (three step delta) = 3
size_of (eight offset contents) = 8

input_size-encode : (x : Form) (rest : Bytes) → IsForm x → input_size (encode x ++ rest) ≡ size_of x
unfolding input_size encode
input_size-encode (two step delta) rest h = ground arith
input_size-encode (three step delta) rest h = ground arith
input_size-encode (eight offset contents) rest h = ground arith

small13 :
    (delta : ℕ)
    → IsDelta 13 delta
    → (small 13 delta < 2 ^ 13) × (sign_extend 13 (small 13 delta) ≡ delta)
unfolding sign_extend
small13 delta h = ground arith

small20 :
    (delta : ℕ)
    → IsDelta 20 delta
    → (small 20 delta < 2 ^ 20) × (sign_extend 20 (small 20 delta) ≡ delta)
unfolding sign_extend
small20 delta h = ground arith

-- The fields of a first byte.
first_of_two :
    (step q : ℕ)
    → 0 < step
    → step ≤ 4
    → q < 2 ^ 13
    → ((128 + (step - 1) * 32 + q / 2 ^ 8) / 2 ^ 5 % 4 + 1 ≡ step)
      × ((128 + (step - 1) * 32 + q / 2 ^ 8) % 2 ^ 5 * 2 ^ 8 + q % 2 ^ 8 ≡ q)
first_of_two step q p l lt = (omega arith, omega arith)

first_of_three :
    (step q : ℕ)
    → 0 < step
    → step ≤ 4
    → q < 2 ^ 20
    → ((64 + (step - 1) * 16 + q / 2 ^ 16) / 2 ^ 4 % 4 + 1 ≡ step)
      × ((64 + (step - 1) * 16 + q / 2 ^ 16) % 2 ^ 4 * 2 ^ 16
            + q / 2 ^ 8 % 2 ^ 8 * 2 ^ 8
            + q % 2 ^ 8
          ≡ q)
first_of_three step q p l lt = (omega arith, omega arith)

-- decode_in_memory by the size.
by_two :
    (prev : Decoded) (input : Bytes)
    → input_size input ≡ 2
    → decode_in_memory prev input ≡ decode2 prev input
unfolding decode_in_memory
by_two prev input e = rw e refl

by_three :
    (prev : Decoded) (input : Bytes)
    → input_size input ≡ 3
    → decode_in_memory prev input ≡ decode3 prev input
unfolding decode_in_memory
by_three prev input e = rw e refl

by_eight :
    (prev : Decoded) (input : Bytes)
    → input_size input ≡ 8
    → decode_in_memory prev input ≡ decode8 input
unfolding decode_in_memory
by_eight prev input e = rw e refl

-- decode_in_memory gives the next entry of each form, in 2, 3 or 8 bytes, whatever follows it.
pub decode-encode :
    (prev : Decoded) (x : Form) (rest : Bytes)
    → IsForm x
    → (input_size (encode x ++ rest) ≡ size_of x)
      × (decode_in_memory prev (encode x ++ rest) ≡ meaning prev x)
unfolding encode decode2 decode3 decode8 big_endian
decode-encode prev (two step delta) rest h =
    let size = input_size-encode (two step delta) rest h in
    let (lt, e) = small13 delta h.2 in
    let (o, c) = first_of_two step (small 13 delta) h.0 h.1 lt in
    (size, by_two prev (encode (two step delta) ++ rest) size ∙ rw (decode2, o, c, e) refl)
decode-encode prev (three step delta) rest h =
    let size = input_size-encode (three step delta) rest h in
    let (lt, e) = small20 delta h.2 in
    let (o, c) = first_of_three step (small 20 delta) h.0 h.1 lt in
    (size, by_three prev (encode (three step delta) ++ rest) size ∙ rw (decode3, o, c, e) refl)
decode-encode prev (eight offset contents) rest h =
    let size = input_size-encode (eight offset contents) rest h in
    (size, by_eight prev (encode (eight offset contents) ++ rest) size ∙ ground arith)
