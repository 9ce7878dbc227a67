-- ===== src/Minelf/Tests.antt =====
-- Retouching of an object with one entry.
use cot_bootable_recovery_to.Base.{
  ◌^◌, ◌≡◌, ◌++◌, refl, ◌∷◌, Bytes, bytes_eq, codes, length, some, ◌-◌, arith,
}
use cot_bootable_recovery_to.Applypatch.Words.{bytes4, word4}
use cot_bootable_recovery_to.Minelf.Entry.{init_compression_state, input_size, decode_in_memory}
use cot_bootable_recovery_to.Minelf.Encoded.{encode, three, decode-encode}
use cot_bootable_recovery_to.Minelf.Retouch.{matched, retouch_mask_data, read_word, write_word}
use cot_bootable_recovery_to.Minelf.Masked.{Asked, retouch_mask_data-Asked}

-- An address at offset 4, the entry for it, and the two structures.
abbrev object : Bytes
object =
    1
    ∷ 2
    ∷ 3
    ∷ 4
    ∷ 5
    ∷ 6
    ∷ 7
    ∷ 8
    ∷ 128
    ∷ 16
    ∷ (codes "RETOUCH " ++ (2 ∷ 0 ∷ 0 ∷ 0 ∷ 9 ∷ 9 ∷ 9 ∷ 9 ∷ codes "PRE "))

-- 16 + 256 is written at offset 4.
object_masked : retouch_mask_data object (some 256) ≡ (
  matched 256,
  1
      ∷ 2
      ∷ 3
      ∷ 4
      ∷ 16
      ∷ 1
      ∷ 0
      ∷ 0
      ∷ 128
      ∷ 16
      ∷ (codes "RETOUCH " ++ (2 ∷ 0 ∷ 0 ∷ 0 ∷ 9 ∷ 9 ∷ 9 ∷ 9 ∷ codes "PRE ")),
)
unfolding retouch_mask_data bytes_eq bytes4 word4 decode_in_memory input_size read_word write_word
object_masked = refl

retouch_mask_data-Asked_example : Asked 256 (length object) (retouch_mask_data object (some 256))
retouch_mask_data-Asked_example = retouch_mask_data-Asked object 256 (omega arith)

decode-encode_example :
    (input_size (encode (three 2 (2 ^ 32 - 5)) ++ codes "z") ≡ 3)
    × (decode_in_memory init_compression_state (encode (three 2 (2 ^ 32 - 5)) ++ codes "z")
        ≡ record { offset = 8; contents = 2 ^ 32 - 5 })
decode-encode_example =
    decode-encode init_compression_state (three 2 (2 ^ 32 - 5)) (codes "z") (omega arith)
