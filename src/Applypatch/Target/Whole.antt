-- ===== src/Applypatch/Target/Whole.antt =====
-- applypatch/applypatch.c: applypatch as a whole, from the choice of the file on.
use cot_bootable_recovery_to.Applypatch.Model.{Stream}
use cot_bootable_recovery_to.Base.{ℕ, List, Option, none, some, Bytes, get_elem?}
use cot_bootable_recovery_to.Applypatch.Digest.{
  parse_sha1, Choice, up_to_date, refused, from_source, from_copy, applypatch,
}
use cot_bootable_recovery_to.Applypatch.Resume.{target_of}
use cot_bootable_recovery_to.Applypatch.Target.Calls.{Disk, Prog, ret}
use cot_bootable_recovery_to.Applypatch.Target.Image.{DeflateParameters}
use cot_bootable_recovery_to.Applypatch.Target.Generate.{
  Patch, Origin, source_file, copy_file, Request, Result, returned, crashed, generate_target,
}
use cot_bootable_recovery_to.Applypatch.Target.Load.{load_file_contents}

-- The arguments of applypatch. `stale` is what stands in `source_file.size` when the source was refused.
pub record Arguments : Type 0 where
  pub source_filename : Bytes
  pub target_filename : Bytes
  pub target_sha1_str : Bytes
  pub target_size : ℕ
  pub patch_sha1_str : List Bytes
  pub patch_data : List Patch
  pub bonus_data : Option Bytes
  pub stale : ℕ

abbrev pub request_of : Arguments → Bytes → Request
request_of a goal = record {
  source_filename = a.source_filename;
  target_filename = target_of a.source_filename a.target_filename;
  target_sha1 = goal;
  target_size = a.target_size;
}

module _ (decompress : Bytes → Stream) (inflate : ℕ → Bytes → Option Bytes)
    (deflate : DeflateParameters → ℕ → Bytes → List Bytes) (sha : Bytes → Bytes)
    (a : Arguments) where
  -- Which file is patched, on this disk.
  unfoldable pub choice_on : Disk → Choice
  choice_on d =
      applypatch (load_file_contents sha d) a.source_filename a.target_filename a.target_sha1_str
        a.patch_sha1_str

  -- GenerateTarget with the patch of a number.
  unfoldable pub with_patch : Bytes → ℕ → Origin → Prog Result
  with_patch goal i origin = elim (get_elem? a.patch_data i) as (λ _. Prog Result) [
    | none ↦ ret crashed
    | some patch ↦
        generate_target decompress inflate deflate sha (request_of a goal) origin patch a.bonus_data
  ]

  unfoldable pub go_on : Bytes → Choice → Prog Result
  unfolding with_patch
  go_on goal up_to_date = ret (returned 0)
  go_on goal refused = ret (returned 1)
  go_on goal (from_source f i) = with_patch goal i (source_file f)
  go_on goal (from_copy f i) = with_patch goal i (copy_file a.stale f)

  -- applypatch, started on a disk.
  unfoldable pub applypatch_on : Disk → Prog Result
  unfolding choice_on go_on
  applypatch_on d = elim (parse_sha1 a.target_sha1_str) as (λ _. Prog Result) [
    | none ↦ ret (returned 1)
    | some goal ↦ go_on goal (choice_on d)
  ]
