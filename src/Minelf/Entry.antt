-- ===== src/Minelf/Entry.antt =====
-- minelf/Retouch.c: the decoder of a list of entries (init_compression_state, decode_bytes, decode_in_memory). A word has
-- 32 bits, and so has the offset of an entry, where the word of all ones is -1.
use cot_bootable_recovery_to.Base.{
  ℕ, ◌+◌, ◌-◌, ◌*◌, ◌/◌, ◌%◌, ◌^◌, ◌==◌, Bytes, get_or, leb, if◌then◌else◌,
}

-- `offs_prev` and `cont_prev`, which are also what the last call decoded.
pub record Decoded : Type 0 where
  pub offset : ℕ
  pub contents : ℕ

abbrev pub init_compression_state : Decoded
init_compression_state = record { offset = 0; contents = 0 }

-- A number of `w` bits with its sign bit spread over the word.
unfoldable pub sign_extend : ℕ → ℕ → ℕ
sign_extend w tmp = if leb (2 ^ (w - 1)) tmp then 2 ^ 32 - 2 ^ w + tmp else tmp

abbrev pub byte : Bytes → ℕ → ℕ
byte input i = get_or input i 0

-- Four bytes, the first one the highest.
unfoldable pub big_endian : Bytes → ℕ → ℕ
big_endian input i =
    byte input i * 2 ^ 24
    + byte input (i + 1) * 2 ^ 16
    + byte input (i + 2) * 2 ^ 8
    + byte input (i + 3)

-- decode_bytes for an entry of 2, 3 and 8 bytes.
unfoldable pub decode2 : Decoded → Bytes → Decoded
unfolding sign_extend
decode2 prev input = record {
  offset = (prev.offset + (byte input 0 / 2 ^ 5 % 4 + 1) * 4) % 2 ^ 32;
  contents =
      (prev.contents + sign_extend 13 (byte input 0 % 2 ^ 5 * 2 ^ 8 + byte input 1)) % 2 ^ 32;
}

unfoldable pub decode3 : Decoded → Bytes → Decoded
unfolding sign_extend
decode3 prev input = record {
  offset = (prev.offset + (byte input 0 / 2 ^ 4 % 4 + 1) * 4) % 2 ^ 32;
  contents =
      (prev.contents
        + sign_extend 20 (byte input 0 % 2 ^ 4 * 2 ^ 16 + byte input 1 * 2 ^ 8 + byte input 2))
      % 2 ^ 32;
}

unfoldable pub decode8 : Bytes → Decoded
unfolding big_endian
decode8 input = record {
  offset = if big_endian input 0 == 2 ^ 30 - 1 then 2 ^ 32 - 1 else big_endian input 0;
  contents = big_endian input 4 % 2 ^ 32;
}

-- The number of bytes of an entry, by its first byte: `& 0x80` and `& 0x40`.
unfoldable pub input_size : Bytes → ℕ
input_size input =
    if byte input 0 / 2 ^ 7 % 2 == 1 then 2 else if byte input 0 / 2 ^ 6 % 2 == 1 then 3 else 8

-- decode_in_memory, without the pointer.
unfoldable pub decode_in_memory : Decoded → Bytes → Decoded
unfolding input_size decode2 decode3 decode8
decode_in_memory prev input =
    if input_size input == 2
    then decode2 prev input
    else if input_size input == 3
    then decode3 prev input
    else decode8 input
