-- ===== src/Applypatch/Target/Load.antt =====
-- applypatch/applypatch.c: LoadFileContents of a file that is no partition. stat, fopen and fread succeed where there is a
-- file. SHA-1 is a parameter.
use cot_bootable_recovery_to.Base.{◌≡◌, ◌∙◌, refl, ap, false, Option, none, some, Bytes}
use cot_bootable_recovery_to.Minelf.Retouch.{
  Status, bad, mismatched, not_applicable, out_of_rounds, matched, is_retouched, retouch_mask_data,
}
use cot_bootable_recovery_to.Minelf.Masked.{retouch_mask_data-untagged}
use cot_bootable_recovery_to.Applypatch.Digest.{FileContents}
use cot_bootable_recovery_to.Applypatch.Target.Calls.{Disk}

module _ (sha : Bytes → Bytes) where
  -- The contents and their digest, if the entries could be masked.
  unfoldable pub masked : Status × Bytes → Option FileContents
  masked (matched offset, bytes) = some (record { sha1 = sha bytes; bytes = bytes })
  masked (bad, bytes) = none
  masked (mismatched, bytes) = none
  masked (not_applicable, bytes) = none
  masked (out_of_rounds, bytes) = none

  unfoldable pub load_contents : Option Bytes → Option FileContents
  unfolding masked
  load_contents none = none
  load_contents (some bytes) = masked (retouch_mask_data bytes (some 0))

  -- LoadFileContents with RETOUCH_DO_MASK.
  unfoldable pub load_file_contents : Disk → Bytes → Option FileContents
  unfolding load_contents
  load_file_contents d filename = load_contents (d.files filename)

  -- A file without retouched entries is loaded as it is.
  pub load_contents-untagged :
      (bytes : Bytes)
      → is_retouched bytes ≡ false
      → load_contents (some bytes) ≡ some (record { sha1 = sha bytes; bytes = bytes })
  unfolding load_contents
  load_contents-untagged bytes e = ap masked (retouch_mask_data-untagged bytes 0 e)

  pub load_file_contents-untagged :
      (d : Disk) (p bytes : Bytes)
      → d.files p ≡ some bytes
      → is_retouched bytes ≡ false
      → load_file_contents d p ≡ some (record { sha1 = sha bytes; bytes = bytes })
  unfolding load_file_contents
  load_file_contents-untagged d p bytes h e = ap load_contents h ∙ load_contents-untagged bytes e

  -- What was loaded was there.
  pub load-some :
      (o : Option Bytes) (f : FileContents)
      → load_contents o ≡ some f
      → (bytes : Bytes) × (o ≡ some bytes)
  unfolding load_contents
  load-some none f e = cc
  load-some (some bytes) f e = (bytes, refl)
