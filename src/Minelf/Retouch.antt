-- ===== src/Minelf/Retouch.antt =====
-- minelf/Retouch.c: retouch_mask_data. The object is a list of bytes, and has less than 2^31 of them.
use cot_bootable_recovery_to.Base.{
  ℕ, zero, suc, ◌+◌, ◌-◌, ◌%◌, ◌^◌, ◌==◌, Bool, true, false, not, ◌||◌, ◌++◌, Option, none, some,
  Bytes, bytes_eq, codes, length, take, drop, ltb, leb, if◌then◌else◌,
}
use cot_bootable_recovery_to.Applypatch.Words.{bytes4, word4}
use cot_bootable_recovery_to.Minelf.Entry.{
  Decoded, init_compression_state, input_size, decode_in_memory,
}

-- RETOUCH_DATA_ERROR, RETOUCH_DATA_MATCHED with the offset for `retouch_offset`, RETOUCH_DATA_MISMATCHED and
-- RETOUCH_DATA_NOTAPPLICABLE, or a loop that is not given enough rounds.
pub data Status : Type 0 where
  bad mismatched not_applicable out_of_rounds : Status
  matched : ℕ → Status

-- A word of the object.
unfoldable pub read_word : Bytes → ℕ → ℕ
read_word object at = word4 (drop at object)

unfoldable pub write_word : Bytes → ℕ → ℕ → Bytes
write_word object at v = take at object ++ (bytes4 v ++ drop (at + 4) object)

-- The variables of the loop: `offset_candidate`, `offset_set` and `offset_mismatch`.
pub record Inferred : Type 0 where
  pub candidate : ℕ
  pub known : Bool
  pub mismatch : Bool

unfoldable pub infer : Inferred → ℕ → Inferred
infer v this =
    if v.known
    then record v { mismatch = v.mismatch || not (v.candidate == this) }
    else record v { candidate = this; known = true }

-- An entry that is not -1 and below `b_offs` is refused.
unfoldable pub is_outside : ℕ → ℕ → Bool
is_outside b_offs offset =
    if offset == 2 ^ 32 - 1 then false else leb (2 ^ 31) offset || leb b_offs offset

-- Where the value of an entry stands: in the object, or at `p_info->mmap_addr`.
unfoldable pub address_of : ℕ → ℕ → ℕ
address_of p_offs offset = if offset == 2 ^ 32 - 1 then p_offs else offset

-- `*retouch_entry = retouch_original_value + target_offset`
unfoldable pub apply_offset : Option ℕ → Bytes → ℕ → ℕ → Bytes
apply_offset none object at contents = object
apply_offset (some target) object at contents = write_word object at ((contents + target) % 2 ^ 32)

module _ (desired : Option ℕ) (b_offs r_offs p_offs : ℕ) where
  -- An entry of the list.
  unfoldable pub retouch_entry : Decoded → Inferred → Bytes → Bytes × Inferred
  unfolding address_of apply_offset infer
  retouch_entry e v object =
      let at = address_of p_offs e.offset in
      let object' = apply_offset desired object at e.contents in
      (object', infer v ((read_word object' at + 2 ^ 32 - e.contents) % 2 ^ 32))

  -- The end of the function behind the loop.
  unfoldable pub conclude : ℕ → Inferred → Status
  conclude b_ptr v =
      if ltb r_offs b_ptr then bad else if v.mismatch then mismatched else matched v.candidate

  -- The loop; `b_ptr` counts from the start of the object.
  unfoldable pub retouch_loop : ℕ → ℕ → Decoded → Inferred → Bytes → Status × Bytes
  unfolding conclude is_outside retouch_entry
  retouch_loop zero b_ptr prev v object = (out_of_rounds, object)
  retouch_loop (suc rounds) b_ptr prev v object =
      let e = decode_in_memory prev (drop b_ptr object) in
      let (object', v') = retouch_entry e v object in
      let rest = retouch_loop rounds (b_ptr + input_size (drop b_ptr object)) e v' object' in
      if leb r_offs b_ptr
      then (conclude b_ptr v, object)
      else if is_outside b_offs e.offset
      then (bad, object)
      else rest

abbrev pub info_size : ℕ
info_size = 12

abbrev pub prelink_size : ℕ
prelink_size = 8

-- Whether the object ends with the two tags.
unfoldable pub is_retouched : Bytes → Bool
is_retouched object =
    let p_offs = length object - prelink_size in
    let r_offs = p_offs - info_size in
    if ltb (length object) (info_size + prelink_size)
    then false
    else if bytes_eq (take 4 (drop (p_offs + 4) object)) (codes "PRE ")
    then bytes_eq (take 8 (drop r_offs object)) (codes "RETOUCH ")
    else false

abbrev pub asked_offset : Option ℕ → ℕ
asked_offset none = 0
asked_offset (some t) = t

-- retouch_mask_data; offsets are words.
unfoldable pub retouch_mask_data : Bytes → Option ℕ → Status × Bytes
unfolding is_retouched retouch_loop
retouch_mask_data object desired =
    let p_offs = length object - prelink_size in
    let r_offs = p_offs - info_size in
    let b_offs = (r_offs + 2 ^ 32 - read_word object (r_offs + 8)) % 2 ^ 32 in
    if not (is_retouched object)
    then (elim desired [ none ↦ not_applicable | some t ↦ matched t ], object)
    else if leb (2 ^ 31) b_offs
    then (bad, object)
    else retouch_loop desired b_offs r_offs p_offs (suc (length object)) b_offs
        init_compression_state
        (record { candidate = asked_offset desired; known = false; mismatch = false }) object
