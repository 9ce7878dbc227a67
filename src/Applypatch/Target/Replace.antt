-- ===== src/Applypatch/Target/Replace.antt =====
-- applypatch/applypatch.c, the end of GenerateTarget, where the target is replaced.
use cot_bootable_recovery_to.Base.{
  ◌≡◌, ◌≢◌, ◌∙◌, refl, ap, Bool, true, false, not, ◌++◌, Option, none, some, Bytes, bytes_eq, codes,
  length, length-append, take, if◌then◌else◌, arith,
}
use cot_bootable_recovery_to.Applypatch.Digest.{cache_temp_source}
use cot_bootable_recovery_to.Applypatch.Target.Calls.{
  Disk, Effect, ret, call, chown, rename, unlink, store,
}
use cot_bootable_recovery_to.Applypatch.Target.Runs.{Always, Always-bind}
use cot_bootable_recovery_to.Applypatch.Target.Sinks.{to_file}
use cot_bootable_recovery_to.Applypatch.Target.Written.{store_self, store_other}
use cot_bootable_recovery_to.Applypatch.Target.Frame.{Holds, Untouched-Keeps, as_before}
use cot_bootable_recovery_to.Applypatch.Target.Generate.{
  Patch, Request, Result, returned, crashed, is_partition, patch_name, replace_target, succeed,
  store_output,
}

-- `.patch` makes another name.
pub patch_name-ne : (target : Bytes) → patch_name target ≢ target
patch_name-ne target e =
    let l : length (target ++ codes ".patch") ≡ length target = ap length e in
    let m = length-append target (codes ".patch") in absurd (omega arith)

-- A patch that is made by bsdiff, or is refused.
abbrev pub IsNoImage : Patch → Type 0
IsNoImage patch = bytes_eq (take 8 patch.bytes) (codes "IMGDIFF2") ≡ false

module _ (sha : Bytes → Bytes) (r : Request) where
  -- The target has the wanted digest.
  abbrev pub IsDone : Disk → Type 0
  IsDone d =
      (content : Bytes) × (d.files r.target_filename ≡ some content) × (sha content ≡ r.target_sha1)

  -- What a result says of the disk.
  abbrev pub Ended : Result → Disk → Type 0
  Ended (returned n) d = n ≡ 0 → IsDone d
  Ended crashed d = Unit {0}

  -- The data that are patched are kept in a file, and what is promised at each moment follows from it or from success.
  module _ (plain : is_partition r.target_filename ≡ false)
      (other : cache_temp_source ≢ r.target_filename) (kept : Bytes) (content : Option Bytes)
      (ne : patch_name r.target_filename ≢ kept) (J : Disk → Type 0)
      (of_kept : (d : Disk) → Holds kept content d → J d)
      (of_done : (d : Disk) → IsDone d → J d) where
    abbrev Kept : Disk → Type 0
    Kept = Holds kept content

    pub failed : (d : Disk) → Kept d → Always J Ended (ret (returned 1)) d
    failed d i = (of_kept d i, λ e. absurd (omega arith))

    -- The name under which the output is written.
    abbrev outname : Bytes
    outname = patch_name r.target_filename

    succeed-Ended : (made_copy : Bool) (d : Disk) → IsDone d → Always J Ended (succeed made_copy) d
    unfolding succeed
    succeed-Ended false d w = (of_done d w, λ e. w)
    succeed-Ended true d (c, h, s) = (
      of_done d (c, h, s),
      λ gone d' e.
          let h' =
            Untouched-Keeps r.target_filename (some c) (unlink cache_temp_source) other d d' gone h
              e in
          (of_done d' (c, h', s), λ e. (c, h', s)),
    )

    renamed :
        (hashed : Bytes) (d d' : Disk)
        → Holds outname (some hashed) d
        → sha hashed ≡ r.target_sha1
        → Effect (rename outname r.target_filename) d true d'
        → IsDone d'
    renamed hashed d d' h s (c, there, e) =
        let same : c ≡ hashed = cc in
        let first = store_self d r.target_filename (some c) in
        let second =
          store_other (store d r.target_filename (some c)) outname r.target_filename none
            (patch_name-ne r.target_filename) in
        (c, ap (λ (x : Disk). x.files r.target_filename) e ∙ second ∙ first, ap sha same ∙ s)

    abbrev Replaced : Bool → Disk → Type 0
    Replaced ok d = ok ≡ true → IsDone d

    module _ (hashed : Bytes) (s : sha hashed ≡ r.target_sha1) where
      moved-Replaced :
          (d : Disk)
          → Kept d
          → Holds outname (some hashed) d
          → Always J Replaced
              (call (rename (patch_name r.target_filename) r.target_filename) λ moved. ret moved)
              d
      moved-Replaced d i h = (of_kept d i, ended)
        where
          ended :
              (moved : Bool) (d' : Disk)
              → Effect (rename outname r.target_filename) d moved d'
              → J d' × (moved ≡ true → IsDone d')
          ended false d' e = (of_kept d' (as_before kept content d d' i e), λ f. cc)
          ended true d' e = let w = renamed hashed d d' h s e in (of_done d' w, λ _. w)

      owned-Replaced :
          (d : Disk)
          → Kept d
          → Holds outname (some hashed) d
          → Always J Replaced
              (call (chown (patch_name r.target_filename)) λ owner.
                if not owner
                then ret false
                else call
                    (rename (patch_name r.target_filename) r.target_filename)
                    λ moved. ret moved)
              d
      owned-Replaced d i h = (of_kept d i, ended)
        where
          ended :
              (owner : Bool) (d' : Disk)
              → d' ≡ d
              → Always J Replaced
                  (if not owner
                    then ret false
                    else call
                        (rename (patch_name r.target_filename) r.target_filename)
                        λ moved. ret moved)
                  d'
          ended false d' e = (of_kept d' (as_before kept content d d' i e), λ f. cc)
          ended true d' e =
              moved-Replaced d' (as_before kept content d d' i e)
                (as_before outname (some hashed) d d' h e)

      replace_target-Replaced :
          (d : Disk)
          → Kept d
          → Holds outname (some hashed) d
          → Always J Replaced (replace_target r) d
      unfolding replace_target
      replace_target-Replaced d i h = (of_kept d i, ended)
        where
          ended :
              (mode : Bool) (d' : Disk)
              → d' ≡ d
              → Always J Replaced
                  (if not mode
                    then ret false
                    else call (chown (patch_name r.target_filename)) λ owner.
                      if not owner
                      then ret false
                      else call
                          (rename (patch_name r.target_filename) r.target_filename)
                          λ moved. ret moved)
                  d'
          ended false d' e = (of_kept d' (as_before kept content d d' i e), λ f. cc)
          ended true d' e =
              owned-Replaced d' (as_before kept content d d' i e)
                (as_before outname (some hashed) d d' h e)

      pub store_output-Ended :
          (made_copy : Bool) (d : Disk)
          → Kept d
          → Holds outname (some hashed) d
          → Always J Ended (store_output r made_copy (to_file outname)) d
      unfolding store_output
      store_output-Ended made_copy d i h =
          Always-bind J Replaced Ended (replace_target r) _ d (replace_target-Replaced d i h) ended
        where
          ended :
              (ok : Bool) (d' : Disk)
              → Replaced ok d'
              → J d'
              → Always J Ended (if ok then succeed made_copy else ret (returned 1)) d'
          ended false d' w j = (j, λ e. absurd (omega arith))
          ended true d' w j = succeed-Ended made_copy d' (w refl)
