-- ===== src/Applypatch/Target/Attempt.antt =====
-- applypatch/applypatch.c: a round of the loop of GenerateTarget behind its preparation.
use cot_bootable_recovery_to.Base.{
  ℕ, ◌≡◌, ◌≢◌, ◌∙◌, inl, inr, refl, ap, Bool, true, false, ◌&&◌, Bool-cases, [], List, Option, none,
  some, Bytes, bytes_eq, bytes_eq→eq, codes, length, take, leb, if◌then◌else◌,
}
use cot_bootable_recovery_to.Applypatch.Model.{Stream, apply_patch}
use cot_bootable_recovery_to.Applypatch.Digest.{cache_temp_source}
use cot_bootable_recovery_to.Applypatch.Target.Calls.{
  Disk, Effect, Prog, ret, call, ◌>>=◌, open_new, write, unlink,
}
use cot_bootable_recovery_to.Applypatch.Target.Runs.{Always, Always-then}
use cot_bootable_recovery_to.Applypatch.Target.Image.{DeflateParameters}
use cot_bootable_recovery_to.Applypatch.Target.Sinks.{
  to_file, Output, Applied, applied, not_applied, broken, apply_bsdiff_patch,
}
use cot_bootable_recovery_to.Applypatch.Target.Written.{
  HoldsHashed, write_new-HoldsHashed, store_self,
}
use cot_bootable_recovery_to.Applypatch.Target.Frame.{Holds, Untouched-Keeps, as_before}
use cot_bootable_recovery_to.Applypatch.Target.Generate.{
  Patch, Origin, old_data, Request, Result, returned, crashed, is_partition, patch_name,
  open_output, apply_to, check_output, apply_round,
}
use cot_bootable_recovery_to.Applypatch.Target.Replace.{
  IsNoImage, IsDone, Ended, failed, store_output-Ended,
}

module _ (sha : Bytes → Bytes) (r : Request) (plain : is_partition r.target_filename ≡ false)
    (other : cache_temp_source ≢ r.target_filename) (kept : Bytes) (content : Option Bytes)
    (ne : patch_name r.target_filename ≢ kept) (J : Disk → Type 0)
    (of_kept : (d : Disk) → Holds kept content d → J d)
    (of_done : (d : Disk) → IsDone sha r d → J d) where
  abbrev Kept : Disk → Type 0
  Kept = Holds kept content

  abbrev Finished : Result → Disk → Type 0
  Finished = Ended sha r

  stop : (d : Disk) → Kept d → Always J Finished (ret (returned 1)) d
  stop = failed sha r plain other kept content ne J of_kept of_done

  abbrev outname : Bytes
  outname = patch_name r.target_filename

  -- The output file is there, and empty.
  abbrev Opened : Option Output → Disk → Type 0
  Opened none d = Unit {0}
  Opened (some out) d =
      (out ≡ record { token = to_file outname; hashed = [] }) × (d.files outname ≡ some [])

  open_output-Opened : (d : Disk) → Kept d → Always Kept Opened (open_output r) d
  unfolding open_output
  open_output-Opened d i = rw plain (i, opened)
    where
      opened :
          (ok : Bool) (d' : Disk)
          → Effect (open_new outname) d ok d'
          → Always Kept Opened
              (ret (if ok then some (record { token = to_file outname; hashed = [] }) else none))
              d'
      opened false d' e = (as_before kept content d d' i e, tt)
      opened true d' e = (
        Untouched-Keeps kept content (open_new outname) ne d d' true i e,
        (refl, ap (λ (x : Disk). x.files outname) e ∙ store_self d outname (some [])),
      )

  module _ (decompress : Bytes → Stream) (inflate : ℕ → Bytes → Option Bytes)
      (deflate : DeflateParameters → ℕ → Bytes → List Bytes) (origin : Origin) (patch : Patch)
      (bonus : Option Bytes) (no_image : IsNoImage patch) where
    -- The output file holds what was hashed.
    abbrev AppliesWell : Option (Prog Applied) → Disk → Type 0
    AppliesWell none d = Unit {0}
    AppliesWell (some m) d =
        Always Kept
          (HoldsHashed Kept outname (λ b. Untouched-Keeps kept content (write outname (some b)) ne))
          m d

    apply_to-AppliesWell :
        (out : Output) (d : Disk)
        → Opened (some out) d
        → Kept d
        → AppliesWell (apply_to decompress inflate deflate sha r origin patch bonus out) d
    unfolding apply_to apply_bsdiff_patch
    apply_to-AppliesWell out d (e, h) i =
        elim (Bool-cases
          (leb 8 (length patch.bytes) && bytes_eq (take 8 patch.bytes) (codes "BSDIFF40"))) [
            | inl t ↦
                rw (t, e)
                  (write_new-HoldsHashed Kept outname
                    (λ b. Untouched-Keeps kept content (write outname (some b)) ne)
                    (apply_patch decompress (old_data origin) patch.bytes) [] d h i)
            | inr f ↦
                let no : (leb 8 (length patch.bytes)
                      && bytes_eq (take 8 patch.bytes) (codes "IMGDIFF2"))
                    ≡ false =
                  rw no_image (and_false (leb 8 (length patch.bytes))) in
                rw (f, no) tt
          ]
      where
        and_false : (b : Bool) → (b && false) ≡ false
        and_false true = refl
        and_false false = refl

    check_output-Ended :
        (made_copy : Bool) (out : Output) (d : Disk)
        → out.token ≡ to_file outname
        → d.files outname ≡ some out.hashed
        → Kept d
        → Always J Finished
            (check_output decompress inflate deflate sha r origin patch bonus made_copy out)
            d
    unfolding check_output
    check_output-Ended made_copy out d e h i =
        elim (Bool-cases (bytes_eq (sha out.hashed) r.target_sha1)) [
          | inl t ↦
              rw (t, e)
                (store_output-Ended sha r plain other kept content ne J of_kept of_done out.hashed
                  (bytes_eq→eq (sha out.hashed) r.target_sha1 t) made_copy d i h)
          | inr f ↦ rw f (stop d i)
        ]

    -- From a disk where the old data are kept, a round ends well if the next one does.
    pub apply_round-Ended :
        (made_copy retry : Bool) (again : Prog Result) (d : Disk)
        → Kept d
        → (retry ≡ true → (d' : Disk) → Kept d' → Always J Finished again d')
        → Always J Finished
            (apply_round decompress inflate deflate sha r origin patch bonus made_copy retry again)
            d
    unfolding apply_round
    apply_round-Ended made_copy retry again d i next = elim (Bool-cases patch.is_blob) [
      | inl t ↦ rw t (
          Always-then Kept Opened J Finished (open_output r) _ d of_kept (open_output-Opened d i)
            opened)
      | inr f ↦ rw f (stop d i)
    ]
      where
        repeat :
            (b : Bool) (d' : Disk)
            → (b ≡ true → (d'' : Disk) → Kept d'' → Always J Finished again d'')
            → Kept d'
            → Always J Finished
                (if b then (call (unlink outname) λ gone. again) else ret (returned 1))
                d'
        repeat false d' n j = stop d' j
        repeat true d' n j = (
          of_kept d' j,
          λ gone d'' e.
              n refl d'' (Untouched-Keeps kept content (unlink outname) ne d' d'' gone j e),
        )

        ended :
            (a : Applied) (d' : Disk)
            → HoldsHashed Kept outname
                (λ b. Untouched-Keeps kept content (write outname (some b)) ne)
                a
                d'
            → Kept d'
            → Always J Finished
                (elim a as (λ _. Prog Result) [
                  | applied out' ↦
                      check_output decompress inflate deflate sha r origin patch bonus made_copy
                        out'
                  | not_applied out' ↦
                      if retry then (call (unlink outname) λ gone. again) else ret (returned 1)
                  | broken ↦ ret crashed
                ])
                d'
        ended (applied out') d' (e, h) j = check_output-Ended made_copy out' d' e h j
        ended (not_applied out') d' e j = repeat retry d' next j
        ended broken d' e j = (of_kept d' j, tt)

        applying :
            (o : Option (Prog Applied)) (d' : Disk)
            → AppliesWell o d'
            → Kept d'
            → Always J Finished
                (elim o as (λ _. Prog Result) [
                  | none ↦ ret (returned 1)
                  | some applying ↦ applying >>= λ a. elim a as (λ _. Prog Result) [
                    | applied out' ↦
                        check_output decompress inflate deflate sha r origin patch bonus made_copy
                          out'
                    | not_applied out' ↦
                        if retry then (call (unlink outname) λ gone. again) else ret (returned 1)
                    | broken ↦ ret crashed
                  ]
                ])
                d'
        applying none d' w j = stop d' j
        applying (some m) d' w j = Always-then Kept _ J Finished m _ d' of_kept w ended

        opened :
            (o : Option Output) (d' : Disk)
            → Opened o d'
            → Kept d'
            → Always J Finished
                (elim o as (λ _. Prog Result) [
                  | none ↦ ret (returned 1)
                  | some out ↦
                      elim (apply_to decompress inflate deflate sha r origin patch bonus out)
                        as (λ _. Prog Result) [
                          | none ↦ ret (returned 1)
                          | some applying ↦ applying >>= λ a. elim a as (λ _. Prog Result) [
                            | applied out' ↦
                                check_output decompress inflate deflate sha r origin patch bonus
                                  made_copy out'
                            | not_applied out' ↦
                                if retry
                                then (call (unlink outname) λ gone. again)
                                else ret (returned 1)
                            | broken ↦ ret crashed
                          ]
                        ]
                ])
                d'
        opened none d' w j = stop d' j
        opened (some out) d' w j = applying _ d' (apply_to-AppliesWell out d' w j) j
