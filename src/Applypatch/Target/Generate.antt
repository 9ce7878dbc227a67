-- ===== src/Applypatch/Target/Generate.antt =====
-- applypatch/applypatch.c: GenerateTarget. bzip2, zlib and SHA-1 are parameters.
use cot_bootable_recovery_to.Applypatch.Model.{Stream}
use cot_bootable_recovery_to.Base.{
  ℕ, ◌*◌, ◌/◌, ◌%◌, ◌^◌, ◌==◌, Bool, true, false, not, ◌&&◌, ◌||◌, [], ◌∷◌, ◌++◌, List, Option,
  none, some, Bytes, bytes_eq, codes, length, take, ltb, leb, starts_with, if◌then◌else◌,
}
use cot_bootable_recovery_to.Applypatch.Digest.{FileContents, cache_temp_source}
use cot_bootable_recovery_to.Applypatch.Target.Calls.{
  Prog, ret, call, ◌>>=◌, statfs, unlink, malloc, open_new, chmod, chown, rename,
}
use cot_bootable_recovery_to.Applypatch.Target.Sinks.{
  Token, to_file, to_memory, Output, Applied, applied, not_applied, broken, apply_bsdiff_patch,
}
use cot_bootable_recovery_to.Applypatch.Target.Space.{make_free_space_on_cache}
use cot_bootable_recovery_to.Applypatch.Target.Save.{
  save_file_contents, wrote, not_wrote, no_stream, write_to_partition,
}
use cot_bootable_recovery_to.Applypatch.Target.Image.{DeflateParameters, apply_image_patch}

-- A `Value` with a patch.
pub record Patch : Type 0 where
  pub is_blob : Bool
  pub bytes : Bytes

-- Where the old data come from: the source file, or the copy of it. With the copy, `source_file` has no data, and a
-- number in its size that nothing has set since the source was refused.
pub data Origin : Type 0 where
  source_file : FileContents → Origin
  copy_file : ℕ → FileContents → Origin

unfoldable pub old_data : Origin → Bytes
old_data (source_file f) = f.bytes
old_data (copy_file stale f) = f.bytes

-- The names and the wanted result.
pub record Request : Type 0 where
  pub source_filename : Bytes
  pub target_filename : Bytes
  pub target_sha1 : Bytes
  pub target_size : ℕ

-- How the function ends: with a number, or in a use of a pointer that is not valid.
pub data Result : Type 0 where
  returned : ℕ → Result
  crashed : Result

unfoldable pub is_partition : Bytes → Bool
is_partition filename = starts_with (codes "MTD:") filename || starts_with (codes "EMMC:") filename

unfoldable pub before_slash : Bytes → Bytes
before_slash [] = []
before_slash (c ∷ cs) = let rest = c ∷ before_slash cs in if c == b'/' then [] else rest

-- The name in front of the first slash that is not the first character.
unfoldable pub target_fs : Bytes → Bytes
unfolding before_slash
target_fs [] = []
target_fs (c ∷ cs) = c ∷ before_slash cs

abbrev pub patch_name : Bytes → Bytes
patch_name target = target ++ codes ".patch"

-- What stands before the patch is applied: `made_copy` and `retry`, or the function returns 1.
pub data Prepared : Type 0 where
  prepared : Bool → Bool → Prepared
  not_prepared : Prepared

-- SaveFileContents(CACHE_TEMP_SOURCE, source_file), with space made for it.
unfoldable pub back_up : Origin → Prog Bool
unfolding make_free_space_on_cache save_file_contents ◌>>=◌
back_up (source_file f) = make_free_space_on_cache (length f.bytes) >>= λ room.
    if not room
    then ret false
    else save_file_contents cache_temp_source (some f.bytes) (length f.bytes)
back_up (copy_file stale f) = make_free_space_on_cache stale >>= λ room.
    if not room then ret false else save_file_contents cache_temp_source none stale

-- Whether there is room for the target; not asked in the second round.
unfoldable pub enough_space : Request → Bool → Prog Bool
unfolding target_fs
enough_space r false = ret false
enough_space r true =
    call (statfs (target_fs r.target_filename))
      λ free_space. ret (ltb (2 ^ 18) free_space && ltb (r.target_size * 3 % 2 ^ 32 / 2) free_space)

-- The source is moved to the cache where there is no room beside it.
unfoldable pub make_room : Request → Origin → Bool → Prog Prepared
unfolding back_up is_partition ◌>>=◌
make_room r (copy_file stale f) made_copy = ret (prepared made_copy false)
make_room r (source_file f) made_copy =
    if is_partition r.source_filename
    then ret not_prepared
    else back_up (source_file f) >>= λ saved.
        if not saved
        then ret not_prepared
        else call (unlink r.source_filename) λ gone.
          call (statfs (target_fs r.target_filename)) λ free_space. ret (prepared true false)

unfoldable pub prepare : Request → Origin → Bool → Bool → Prog Prepared
unfolding back_up enough_space make_room is_partition ◌>>=◌
prepare r origin made_copy retry =
    if is_partition r.target_filename
    then (back_up origin >>= λ saved. ret (if saved then prepared true false else not_prepared))
    else enough_space r retry >>= λ enough.
        if enough then ret (prepared made_copy true) else make_room r origin made_copy

-- The sink: `malloc`, or the file "<target>.patch"; `none` where the function returns 1.
unfoldable pub open_output : Request → Prog (Option Output)
unfolding is_partition
open_output r =
    if is_partition r.target_filename
    then (call (malloc r.target_size) λ allocated. ret (
        if allocated
        then some (record { token = to_memory [] r.target_size; hashed = [] })
        else none))
    else call (open_new (patch_name r.target_filename)) λ opened. ret (
        if opened
        then some (record { token = to_file (patch_name r.target_filename); hashed = [] })
        else none)

-- `outname` is moved over the target.
unfoldable pub replace_target : Request → Prog Bool
replace_target r = call (chmod (patch_name r.target_filename)) λ mode.
    if not mode
    then ret false
    else call (chown (patch_name r.target_filename)) λ owner.
      if not owner
      then ret false
      else call (rename (patch_name r.target_filename) r.target_filename) λ moved. ret moved

-- The copy that this run made is deleted at the end.
unfoldable pub succeed : Bool → Prog Result
succeed made_copy =
    if made_copy
    then (call (unlink cache_temp_source) λ gone. ret (returned 0))
    else ret (returned 0)

-- The output is stored.
unfoldable pub store_output : Request → Bool → Token → Prog Result
unfolding write_to_partition replace_target succeed ◌>>=◌
store_output r made_copy (to_memory buffer size) =
    write_to_partition buffer r.target_filename >>= λ w. elim w as (λ _. Prog Result) [
      | wrote ↦ succeed made_copy
      | not_wrote ↦ ret (returned 1)
      | no_stream ↦ ret crashed
    ]
store_output r made_copy (to_file path) =
    replace_target r >>= λ replaced. if replaced then succeed made_copy else ret (returned 1)

module _ (decompress : Bytes → Stream) (inflate : ℕ → Bytes → Option Bytes)
    (deflate : DeflateParameters → ℕ → Bytes → List Bytes) (sha : Bytes → Bytes) (r : Request)
    (origin : Origin) (patch : Patch) (bonus : Option Bytes) where
  -- The patch is applied; `none` for a format that is not known.
  unfoldable pub apply_to : Output → Option (Prog Applied)
  unfolding old_data apply_bsdiff_patch apply_image_patch
  apply_to out =
      if leb 8 (length patch.bytes) && bytes_eq (take 8 patch.bytes) (codes "BSDIFF40")
      then some (apply_bsdiff_patch decompress (old_data origin) patch.bytes out)
      else if leb 8 (length patch.bytes) && bytes_eq (take 8 patch.bytes) (codes "IMGDIFF2")
      then some
          (apply_image_patch decompress inflate deflate (old_data origin) patch.bytes bonus out)
      else none

  -- What is done with the output behind the loop.
  unfoldable pub check_output : Bool → Output → Prog Result
  unfolding store_output
  check_output made_copy out =
      if bytes_eq (sha out.hashed) r.target_sha1
      then store_output r made_copy out.token
      else ret (returned 1)

  -- A round of the loop behind its preparation. `again` is the next round, which is reached with `retry` only.
  unfoldable pub apply_round : Bool → Bool → Prog Result → Prog Result
  unfolding apply_to check_output open_output ◌>>=◌
  apply_round made_copy retry again =
      if not patch.is_blob
      then ret (returned 1)
      else open_output r >>= λ opened. elim opened as (λ _. Prog Result) [
        | none ↦ ret (returned 1)
        | some out ↦ elim (apply_to out) as (λ _. Prog Result) [
          | none ↦ ret (returned 1)
          | some applying ↦ applying >>= λ a. elim a as (λ _. Prog Result) [
            | applied out' ↦ check_output made_copy out'
            | not_applied out' ↦
                if retry
                then (call (unlink (patch_name r.target_filename)) λ gone. again)
                else ret (returned 1)
            | broken ↦ ret crashed
          ]
        ]
      ]

  -- A round of the loop.
  unfoldable pub loop_round : Bool → Prog Result → Prog Result
  unfolding prepare apply_round ◌>>=◌
  loop_round retry again = prepare r origin false retry >>= λ p. elim p as (λ _. Prog Result) [
    | prepared made_copy retry' ↦ apply_round made_copy retry' again
    | not_prepared ↦ ret (returned 1)
  ]

  -- GenerateTarget: with enough space the loop runs twice at most, without a retry in the second round.
  unfoldable pub generate_target : Prog Result
  unfolding loop_round
  generate_target = loop_round true (loop_round false (ret (returned 1)))
