-- ===== src/Applypatch/Target/Backup.antt =====
-- applypatch/applypatch.c: the copy of the source file that SaveFileContents and GenerateTarget make, and what holds
-- when the patch is applied.
use cot_bootable_recovery_to.Base.{
  ℕ, ◌==◌, ◌≡◌, ◌≢◌, ◌∙◌, inl, inr, ap, Bool, true, false, not, Bool-cases, [], Option, some, Bytes,
  length, if◌then◌else◌, arith,
}
use cot_bootable_recovery_to.Applypatch.Target.Calls.{
  Disk, Effect, ret, call, ◌>>=◌, open_new, write, chmod, chown,
}
use cot_bootable_recovery_to.Applypatch.Target.Runs.{Always, Always-bind}
use cot_bootable_recovery_to.Applypatch.Target.Sinks.{sink_loop, file_sink}
use cot_bootable_recovery_to.Applypatch.Target.Written.{Ends, sink_loop_lem, store_self}
use cot_bootable_recovery_to.Applypatch.Target.Frame.{Holds, Untouched-Keeps, as_before}
use cot_bootable_recovery_to.Applypatch.Target.Save.{save_file_contents}

-- Files that may not be changed while the file of a path is written.
module _ (kept : Bytes) (content : Option Bytes) (path : Bytes) (ne : path ≢ kept) where
  abbrev Kept : Disk → Type 0
  Kept = Holds kept content

  abbrev pub Saved : Bytes → Bool → Disk → Type 0
  Saved bytes ok d = ok ≡ true → Holds path (some bytes) d

  owned :
      (bytes : Bytes) (d : Disk)
      → Kept d
      → Holds path (some bytes) d
      → Always Kept
          (Saved bytes)
          (call
            (chmod path)
            λ mode. if not mode then ret false else call (chown path) λ owner. ret owner)
          d
  owned bytes d i h = (i, chmoded)
    where
      chmoded :
          (mode : Bool) (d' : Disk)
          → d' ≡ d
          → Always Kept
              (Saved bytes)
              (if not mode then ret false else call (chown path) λ owner. ret owner)
              d'
      chmoded false d' e = (as_before kept content d d' i e, λ f. cc)
      chmoded true d' e =
          let i' = as_before kept content d d' i e in
          (
            i',
            λ owner d'' e'. (
              as_before kept content d' d'' i' e',
              λ f. as_before path (some bytes) d' d'' (as_before path (some bytes) d d' h e) e',
            ),
          )

  -- SaveFileContents that returns 0 stored all bytes, and at each moment another file is as it was.
  pub save_file_contents-Saved :
      (bytes : Bytes) (d : Disk)
      → Kept d
      → Always Kept (Saved bytes) (save_file_contents path (some bytes) (length bytes)) d
  unfolding save_file_contents file_sink
  save_file_contents-Saved bytes d i = (i, opened)
    where
      wrote :
          (n : ℕ) (d' : Disk)
          → Ends Kept path
              (λ b. Untouched-Keeps kept content (write path (some b)) ne)
              0
              []
              bytes
              n
              d'
          → Kept d'
          → Always Kept
              (Saved bytes)
              (if not (n == length bytes)
                then ret false
                else call
                    (chmod path)
                    λ mode. if not mode then ret false else call (chown path) λ owner. ret owner)
              d'
      wrote n d' (le, full) j = elim (Bool-cases (n == length bytes)) [
        | inl t ↦ rw t (owned bytes d' j (full (ground arith)))
        | inr f ↦ rw f (j, λ x. cc)
      ]

      opened :
          (ok : Bool) (d' : Disk)
          → Effect (open_new path) d ok d'
          → Always Kept
              (Saved bytes)
              (if not ok
                then ret false
                else sink_loop (length bytes) path bytes 0 >>= λ n.
                    if not (n == length bytes)
                    then ret false
                    else call (chmod path) λ mode.
                      if not mode then ret false else call (chown path) λ owner. ret owner)
              d'
      opened false d' e = (as_before kept content d d' i e, λ f. cc)
      opened true d' e =
          let there : d'.files path ≡ some [] =
            ap (λ (x : Disk). x.files path) e ∙ store_self d path (some []) in
          let j = Untouched-Keeps kept content (open_new path) ne d d' true i e in
          Always-bind Kept _ (Saved bytes) _ _ d'
            (sink_loop_lem Kept path (λ b. Untouched-Keeps kept content (write path (some b)) ne)
              (length bytes) bytes 0 [] d' (omega arith) there j)
            wrote
