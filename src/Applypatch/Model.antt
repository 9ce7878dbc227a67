-- ===== src/Applypatch/Model.antt =====
-- applypatch/bspatch.c, ApplyBSDiffPatchMem. A patch is a list of bytes. Sums of offsets do not
-- overflow, and malloc does not fail.
use cot_bootable_recovery_to.Base.{
  ℕ, zero, suc, ◌+◌, ◌%◌, Bool, not, [], ◌∷◌, ◌++◌, Bytes, codes, bytes_eq, length, get_or, take,
  drop, ltb, leb, if◌then◌else◌,
}
use cot_bootable_recovery_to.Base.Int.{ℤ, pos, negsuc, add_ℤ}
use cot_bootable_recovery_to.Applypatch.Offsets.{offtin}

-- What the function gives: the new data, an error, a read or write outside of a buffer, or
-- `endless` where it does not return, or the model's loop is not given enough rounds.
pub data Patched : Type 0 where
  patched : Bytes → Patched
  corrupt fault endless : Patched

-- What BZ2_bzDecompress gives of compressed data: bytes, and then an error, as behind the end of the
-- stream, or where the compressed data break off before that end, BZ_OK without progress.
pub record Stream : Type 0 where
  pub content : Bytes
  pub broken_off : Bool

-- What is left of the three decompressed streams.
pub record Streams : Type 0 where
  pub control : Stream
  pub diff : Stream
  pub extra : Stream

-- What FillBuffer gives: the bytes with what is left of the stream, -1, or nothing where it does not
-- return.
pub data Filled : Type 0 where
  filled : Bytes → Stream → Filled
  failed : Filled
  waits : Filled

-- FillBuffer: its loop ends with the buffer full or with an error.
unfoldable pub fill_buffer : ℕ → Stream → Filled
fill_buffer size stream =
    if leb size (length stream.content)
    then filled (take size stream.content) (record stream { content = drop size stream.content })
    else if stream.broken_off
    then waits
    else failed

-- `(oldpos+i >= 0) && (oldpos+i < old_size)`, or nothing is added.
unfoldable pub old_byte : Bytes → ℤ → ℕ
old_byte old (pos i) = get_or old i 0
old_byte old (negsuc i) = 0

-- The loop that adds old data to the bytes of the diff stream.
unfoldable pub add_old : Bytes → ℤ → Bytes → Bytes
add_old old oldpos [] = []
add_old old oldpos (d ∷ ds) =
    (d + old_byte old oldpos) % 256 ∷ add_old old (add_ℤ oldpos (pos 1)) ds

-- Reads into the new file: a length is tested only against what is left of it, so a negative one
-- gets through and is taken for the size of the buffer.
unfoldable pub read_part : ℤ → ℕ → ℕ → Stream → (Bytes → Stream → Patched) → Patched
read_part (negsuc n) newpos new_size stream k = fault
read_part (pos n) newpos new_size stream k =
    if ltb new_size (newpos + n) then corrupt else elim (fill_buffer n stream) [
      | filled part rest ↦ k part rest
      | failed ↦ corrupt
      | waits ↦ endless
    ]

-- The loop, with the new data so far.
unfoldable pub patch_loop : ℕ → Bytes → ℕ → Streams → ℤ → Bytes → Patched
patch_loop zero old new_size s oldpos new = endless
patch_loop (suc fuel) old new_size s oldpos new =
    if leb new_size (length new) then patched new else elim (fill_buffer 24 s.control) [
      | failed ↦ corrupt
      | waits ↦ endless
      | filled buf control ↦ read_part (offtin buf) (length new) new_size s.diff (λ part diff.
          let new' = new ++ add_old old oldpos part in
          read_part (offtin (drop 8 buf)) (length new') new_size s.extra (λ more extra.
            patch_loop fuel old new_size (record { control = control; diff = diff; extra = extra })
              (add_ℤ (add_ℤ oldpos (pos (length part))) (offtin (drop 16 buf))) (new' ++ more)))
    ]

-- bzip2, with what it gives of compressed data.
module _ (decompress : Bytes → Stream) where
  -- The three streams behind a header, if they lie in the patch.
  unfoldable pub apply_streams : Bytes → Bytes → ℤ → ℤ → ℤ → Patched
  apply_streams old body (pos ctrl_len) (pos data_len) (pos new_size) =
      let control = decompress (take ctrl_len body) in
      let diff = decompress (take data_len (drop ctrl_len body)) in
      let extra = decompress (drop (ctrl_len + data_len) body) in
      if ltb (length body) (ctrl_len + data_len)
      then fault
      else patch_loop (suc (length control.content)) old new_size
          (record { control = control; diff = diff; extra = extra }) (pos 0) []
  apply_streams old body ctrl_len data_len new_size = corrupt

  -- ApplyBSDiffPatchMem on the patch behind `patch_offset`.
  unfoldable pub apply_patch : Bytes → Bytes → Patched
  apply_patch old patch =
      if ltb (length patch) 8
      then fault
      else if not (bytes_eq (take 8 patch) (codes "BSDIFF40"))
      then corrupt
      else if ltb (length patch) 32
      then fault
      else apply_streams old (drop 32 patch) (offtin (drop 8 patch)) (offtin (drop 16 patch))
          (offtin (drop 24 patch))
