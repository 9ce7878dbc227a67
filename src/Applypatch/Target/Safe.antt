-- ===== src/Applypatch/Target/Safe.antt =====
-- applypatch/applypatch.c, GenerateTarget: its interruption.
use cot_bootable_recovery_to.Applypatch.Model.{Stream}
use cot_bootable_recovery_to.Base.{
  ℕ, ◌≡◌, ◌≢◌, ◌∙◌, inl, inr, refl, sym, ap, Bool, true, false, ◌++◌, List, Option, none, some,
  Bytes, bytes_eq, bytes_eq_refl, codes, drop, drop-append, length, length-append, starts_with,
  arith,
}
use cot_bootable_recovery_to.Applypatch.Digest.{FileContents, cache_temp_source}
use cot_bootable_recovery_to.Applypatch.Target.Calls.{Disk, Prog, ret, Reach}
use cot_bootable_recovery_to.Applypatch.Target.Runs.{
  Always, Always-then, Always-now, Always-Reach, Always-ret,
}
use cot_bootable_recovery_to.Applypatch.Target.Image.{DeflateParameters}
use cot_bootable_recovery_to.Applypatch.Target.Frame.{Holds}
use cot_bootable_recovery_to.Applypatch.Target.Generate.{
  Patch, source_file, copy_file, Request, Result, returned, is_partition, patch_name, Prepared,
  prepared, not_prepared, prepare, apply_round, loop_round, generate_target,
}
use cot_bootable_recovery_to.Applypatch.Target.Replace.{IsNoImage, IsDone, Ended}
use cot_bootable_recovery_to.Applypatch.Target.Attempt.{apply_round-Ended}
use cot_bootable_recovery_to.Applypatch.Target.Room.{
  InEither, Ready, prepare-Ready, Stays, prepare-Stays,
}

-- The output is not written to the copy in the cache.
patch_name-ne-cache : (target : Bytes) → patch_name target ≢ cache_temp_source
unfolding bytes_eq
patch_name-ne-cache target e =
    let l : length (target ++ codes ".patch") ≡ length cache_temp_source = ap length e in
    let m = length-append target (codes ".patch") in
    let k : length target ≡ 11 = omega arith in
    let s : codes ".patch" ≡ drop 11 cache_temp_source =
      sym (drop-append target (codes ".patch"))
      ∙ ap (drop (length target)) e
      ∙ ap (λ n. drop n cache_temp_source) k in
    let t : bytes_eq (codes ".patch") (drop 11 cache_temp_source) ≡ true =
      ap (bytes_eq (codes ".patch")) (sym s) ∙ bytes_eq_refl (codes ".patch") in
    cc

-- What can be found on the disk: the data that are to be patched, in their file or as a copy, or the target that is
-- wanted.
pub data Recoverable (sha : Bytes → Bytes) (r : Request) (source : Option Bytes) (copy : Bytes)
    (d : Disk) : Type 0 where
  in_source :
      (raw : Bytes)
      → source ≡ some raw
      → d.files r.source_filename ≡ some raw
      → Recoverable sha r source copy d
  in_cache : d.files cache_temp_source ≡ some copy → Recoverable sha r source copy d
  finished : IsDone sha r d → Recoverable sha r source copy d

module _ (decompress : Bytes → Stream) (inflate : ℕ → Bytes → Option Bytes)
    (deflate : DeflateParameters → ℕ → Bytes → List Bytes) (sha : Bytes → Bytes) (r : Request)
    (plain : is_partition r.target_filename ≡ false) (other : cache_temp_source ≢ r.target_filename)
    (patch : Patch) (bonus : Option Bytes) (no_image : IsNoImage patch) where
  abbrev Finished : Result → Disk → Type 0
  Finished = Ended sha r

  module _ (f : FileContents) (raw : Bytes)
      (outside : starts_with (codes "/cache/") r.source_filename ≡ false)
      (apart : patch_name r.target_filename ≢ r.source_filename) where
    abbrev FromSource : Disk → Type 0
    FromSource = Recoverable sha r (some raw) f.bytes

    loop_round-Source :
        (retry : Bool) (again : Prog Result) (d : Disk)
        → Holds r.source_filename (some raw) d
        → ((d' : Disk)
            → Holds r.source_filename (some raw) d'
            → Always FromSource Finished again d')
        → Always FromSource Finished
            (loop_round decompress inflate deflate sha r (source_file f) patch bonus retry again)
            d
    unfolding loop_round
    loop_round-Source retry again d i next =
        Always-then (InEither r plain f raw outside) (Ready r plain f raw outside) FromSource
          Finished (prepare r (source_file f) false retry) _ d either
          (prepare-Ready r plain f raw outside retry d i) ready
      where
        either : (d' : Disk) → InEither r plain f raw outside d' → FromSource d'
        either d' (inl h) = in_source raw refl h
        either d' (inr h) = in_cache h

        ready :
            (p : Prepared) (d' : Disk)
            → Ready r plain f raw outside p d'
            → InEither r plain f raw outside d'
            → Always FromSource Finished
                (elim p as (λ _. Prog Result) [
                  | prepared made_copy retry' ↦
                      apply_round decompress inflate deflate sha r
                        (source_file f)
                        patch
                        bonus
                        made_copy
                        retry'
                        again
                  | not_prepared ↦ ret (returned 1)
                ])
                d'
        ready (prepared true retry') d' (h, e) j =
            apply_round-Ended sha r plain other cache_temp_source (some f.bytes)
              (patch_name-ne-cache r.target_filename) FromSource (λ x h. in_cache h)
              (λ x w. finished w) decompress inflate deflate (source_file f) patch bonus no_image
              true retry' again d' h (λ t. cc)
        ready (prepared false retry') d' h j =
            apply_round-Ended sha r plain other r.source_filename (some raw) apart FromSource
              (λ x h. in_source raw refl h) (λ x w. finished w) decompress inflate deflate
              (source_file f) patch bonus no_image false retry' again d' h (λ t. next)
        ready not_prepared d' h j = (either d' j, λ e. absurd (omega arith))

    generate_target-Source :
        (d : Disk)
        → Holds r.source_filename (some raw) d
        → Always FromSource Finished
            (generate_target decompress inflate deflate sha r (source_file f) patch bonus)
            d
    unfolding generate_target
    generate_target-Source d i = loop_round-Source true _ d i (λ d' j.
        loop_round-Source false _ d' j (λ d'' k. (in_source raw refl k, λ e. absurd (omega arith))))

    -- GenerateTarget of a source file, with a target that is a file, may be interrupted at any moment and each of its
    -- calls may fail: the disk holds the source file as it was, or a whole copy of the data that were loaded from it, or a
    -- target with the wanted digest; and a run that returns 0 leaves such a target. The source is outside of /cache, the
    -- output file is not the source, the copy is not the target, and the patch is not an image patch.
    pub generate_target-Recoverable :
        (d : Disk) (m : Prog Result) (d' : Disk)
        → d.files r.source_filename ≡ some raw
        → Reach
            (generate_target decompress inflate deflate sha r (source_file f) patch bonus)
            d
            m
            d'
        → Recoverable sha r (some raw) f.bytes d' × (m ≡ ret (returned 0) → IsDone sha r d')
    generate_target-Recoverable d m d' i reach =
        let now = Always-Reach FromSource Finished reach (generate_target-Source d i) in
        (
          Always-now FromSource Finished m d' now,
          λ e. Always-ret FromSource Finished m (returned 0) d' now e refl,
        )

  module _ (stale : ℕ) (c : FileContents) where
    abbrev FromCopy : Disk → Type 0
    FromCopy = Recoverable sha r none c.bytes

    loop_round-Copy :
        (retry : Bool) (again : Prog Result) (d : Disk)
        → Holds cache_temp_source (some c.bytes) d
        → ((d' : Disk)
            → Holds cache_temp_source (some c.bytes) d'
            → Always FromCopy Finished again d')
        → Always FromCopy Finished
            (loop_round decompress inflate deflate sha r
              (copy_file stale c)
              patch
              bonus
              retry
              again)
            d
    unfolding loop_round
    loop_round-Copy retry again d i next =
        Always-then (Holds cache_temp_source (some c.bytes)) (Stays r plain c) FromCopy Finished
          (prepare r (copy_file stale c) false retry) _ d (λ d' h. in_cache h)
          (prepare-Stays r plain stale c (some c.bytes) retry d i) ready
      where
        ready :
            (p : Prepared) (d' : Disk)
            → Stays r plain c p d'
            → Holds cache_temp_source (some c.bytes) d'
            → Always FromCopy Finished
                (elim p as (λ _. Prog Result) [
                  | prepared made_copy retry' ↦
                      apply_round decompress inflate deflate sha r
                        (copy_file stale c)
                        patch
                        bonus
                        made_copy
                        retry'
                        again
                  | not_prepared ↦ ret (returned 1)
                ])
                d'
        ready (prepared made_copy retry') d' e h =
            apply_round-Ended sha r plain other cache_temp_source (some c.bytes)
              (patch_name-ne-cache r.target_filename) FromCopy (λ x h. in_cache h)
              (λ x w. finished w) decompress inflate deflate (copy_file stale c) patch bonus
              no_image made_copy retry' again d' h (λ t. next)
        ready not_prepared d' e h = (in_cache h, λ e. absurd (omega arith))

    generate_target-Copy :
        (d : Disk)
        → Holds cache_temp_source (some c.bytes) d
        → Always FromCopy Finished
            (generate_target decompress inflate deflate sha r (copy_file stale c) patch bonus)
            d
    unfolding generate_target
    generate_target-Copy d i =
        loop_round-Copy true _ d i
          (λ d' j. loop_round-Copy false _ d' j (λ d'' k. (in_cache k, λ e. absurd (omega arith))))

    -- GenerateTarget of the copy in the cache, with a target that is a file: at each moment, whatever its calls answer, the
    -- copy is as it was or the target has the wanted digest, and a run that returns 0 leaves such a target. The copy is not
    -- the target, and the patch is not an image patch.
    pub generate_target-copy :
        (d : Disk) (m : Prog Result) (d' : Disk)
        → d.files cache_temp_source ≡ some c.bytes
        → Reach
            (generate_target decompress inflate deflate sha r (copy_file stale c) patch bonus)
            d
            m
            d'
        → Recoverable sha r none c.bytes d' × (m ≡ ret (returned 0) → IsDone sha r d')
    generate_target-copy d m d' i reach =
        let now = Always-Reach FromCopy Finished reach (generate_target-Copy d i) in
        (
          Always-now FromCopy Finished m d' now,
          λ e. Always-ret FromCopy Finished m (returned 0) d' now e refl,
        )
