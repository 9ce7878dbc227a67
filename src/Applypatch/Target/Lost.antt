-- ===== src/Applypatch/Target/Lost.antt =====
-- applypatch/applypatch.c, GenerateTarget of the copy in the cache for a partition.
use cot_bootable_recovery_to.Applypatch.Model.{Stream}
use cot_bootable_recovery_to.Base.{
  ℕ, suc, ◌==◌, ◌≡◌, ◌∙◌, ◌⊎◌, inl, inr, refl, ap, Bool, true, false, not, [], List, Option, none,
  some, Bytes, if◌then◌else◌, arith,
}
use cot_bootable_recovery_to.Applypatch.Digest.{FileContents, cache_temp_source}
use cot_bootable_recovery_to.Applypatch.Target.Calls.{
  Disk, Effect, Prog, ret, call, ◌>>=◌, open_new, write, chmod, chown, Reach,
}
use cot_bootable_recovery_to.Applypatch.Target.Runs.{
  Always, Always-then, Always-bind, Always-Reach, Always-now, Always-ret,
}
use cot_bootable_recovery_to.Applypatch.Target.Image.{DeflateParameters}
use cot_bootable_recovery_to.Applypatch.Target.Sinks.{file_sink}
use cot_bootable_recovery_to.Applypatch.Target.Written.{store_self}
use cot_bootable_recovery_to.Applypatch.Target.Frame.{Holds, as_before}
use cot_bootable_recovery_to.Applypatch.Target.Space.{make_free_space_on_cache}
use cot_bootable_recovery_to.Applypatch.Target.Spared.{make_free_space-Holds}
use cot_bootable_recovery_to.Applypatch.Target.Save.{save_file_contents}
use cot_bootable_recovery_to.Applypatch.Target.Generate.{
  Patch, copy_file, Request, Result, returned, is_partition, Prepared, prepared, not_prepared,
  back_up, prepare, apply_round, loop_round, generate_target,
}

module _ (copy : Bytes) where
  -- The copy is as it was, or empty.
  abbrev pub WholeOrEmpty : Disk → Type 0
  WholeOrEmpty d = Holds cache_temp_source (some copy) d ⊎ Holds cache_temp_source (some []) d

  abbrev Refused : Bool → Disk → Type 0
  Refused ok d = ok ≡ false

  no_bytes :
      (size : ℕ) (d : Disk)
      → Holds cache_temp_source (some []) d
      → Always WholeOrEmpty (λ n _. n ≡ 0) (file_sink cache_temp_source none (suc size)) d
  unfolding file_sink
  no_bytes size d h = let ne : (suc size == 0) ≡ false = ground arith in rw ne (inr h, answered)
    where
      answered :
          (wrote : Option ℕ) (d' : Disk)
          → Effect (write cache_temp_source none) d wrote d'
          → Always WholeOrEmpty
              (λ n _. n ≡ 0)
              (elim wrote as (λ _. Prog ℕ) [ none ↦ ret 0 | some n ↦ ret n ])
              d'
      answered none d' e = (inr (as_before cache_temp_source (some []) d d' h e), refl)
      answered (some n) d' e = absurd e

  save_nothing :
      (size : ℕ) (d : Disk)
      → Holds cache_temp_source (some copy) d
      → Always WholeOrEmpty Refused (save_file_contents cache_temp_source none (suc size)) d
  unfolding save_file_contents
  save_nothing size d i = (inl i, opened)
    where
      ended :
          (n : ℕ) (d' : Disk)
          → n ≡ 0
          → WholeOrEmpty d'
          → Always WholeOrEmpty Refused
              (if not (n == suc size)
                then ret false
                else call (chmod cache_temp_source) λ mode.
                  if not mode then ret false else call (chown cache_temp_source) λ owner. ret owner)
              d'
      ended n d' e w = let ne : (n == suc size) ≡ false = ground arith in rw ne (w, refl)

      opened :
          (ok : Bool) (d' : Disk)
          → Effect (open_new cache_temp_source) d ok d'
          → Always WholeOrEmpty Refused
              (if not ok
                then ret false
                else file_sink cache_temp_source none (suc size) >>= λ n.
                    if not (n == suc size)
                    then ret false
                    else call (chmod cache_temp_source) λ mode.
                      if not mode
                      then ret false
                      else call (chown cache_temp_source) λ owner. ret owner)
              d'
      opened false d' e = (inl (as_before cache_temp_source (some copy) d d' i e), refl)
      opened true d' e =
          let h : d'.files cache_temp_source ≡ some [] =
            ap (λ (x : Disk). x.files cache_temp_source) e
            ∙ store_self d cache_temp_source (some []) in
          Always-bind WholeOrEmpty (λ n _. n ≡ 0) Refused
            (file_sink cache_temp_source none (suc size)) _ d' (no_bytes size d' h) ended

module _ (decompress : Bytes → Stream) (inflate : ℕ → Bytes → Option Bytes)
    (deflate : DeflateParameters → ℕ → Bytes → List Bytes) (sha : Bytes → Bytes) (r : Request)
    (partition : is_partition r.target_filename ≡ true) (c : FileContents) (size : ℕ) where
  back_up-Refused :
      (d : Disk)
      → Holds cache_temp_source (some c.bytes) d
      → Always (WholeOrEmpty c.bytes) (Refused c.bytes) (back_up (copy_file (suc size) c)) d
  unfolding back_up
  back_up-Refused d i =
      Always-then (Holds cache_temp_source (some c.bytes)) (λ _ _. Unit {0}) (WholeOrEmpty c.bytes)
        (Refused c.bytes) (make_free_space_on_cache (suc size)) _ d (λ d' h. inl h)
        (make_free_space-Holds (suc size) cache_temp_source (some c.bytes) d (inl refl) i) saved
    where
      saved :
          (room : Bool) (d' : Disk)
          → Unit {0}
          → Holds cache_temp_source (some c.bytes) d'
          → Always
              (WholeOrEmpty c.bytes)
              (Refused c.bytes)
              (if not room then ret false else save_file_contents cache_temp_source none (suc size))
              d'
      saved false d' u h = (inl h, refl)
      saved true d' u h = save_nothing c.bytes size d' h

  abbrev Fails : Result → Disk → Type 0
  Fails x d = x ≡ returned 1

  prepare-Fails :
      (d : Disk)
      → Holds cache_temp_source (some c.bytes) d
      → Always
          (WholeOrEmpty c.bytes)
          (λ p _. p ≡ not_prepared)
          (prepare r (copy_file (suc size) c) false true)
          d
  unfolding prepare
  prepare-Fails d i = rw partition (
      Always-bind (WholeOrEmpty c.bytes) (Refused c.bytes) (λ p _. p ≡ not_prepared)
        (back_up (copy_file (suc size) c)) _ d (back_up-Refused d i)
        (λ saved d' e w. (w, rw e refl)))

  -- GenerateTarget of the copy in the cache never returns 0 for a partition, if the size that is left in `source_file` is
  -- not 0: it returns 1 where it ends, and at each moment the copy is as it was, or was emptied.
  pub generate_target-Lost :
      (patch : Patch) (bonus : Option Bytes) (d : Disk) (m : Prog Result) (d' : Disk)
      → d.files cache_temp_source ≡ some c.bytes
      → Reach
          (generate_target decompress inflate deflate sha r (copy_file (suc size) c) patch bonus)
          d
          m
          d'
      → WholeOrEmpty c.bytes d' × ((x : Result) → m ≡ ret x → x ≡ returned 1)
  unfolding generate_target loop_round
  generate_target-Lost patch bonus d m d' i reach =
      let start =
        Always-bind (WholeOrEmpty c.bytes) (λ p _. p ≡ not_prepared) Fails
          (prepare r (copy_file (suc size) c) false true) _ d (prepare-Fails d i) failed in
      let now = Always-Reach (WholeOrEmpty c.bytes) Fails reach start in
      (
        Always-now (WholeOrEmpty c.bytes) Fails m d' now,
        λ x e. Always-ret (WholeOrEmpty c.bytes) Fails m x d' now e,
      )
    where
      failed :
          (p : Prepared) (e : Disk)
          → p ≡ not_prepared
          → WholeOrEmpty c.bytes e
          → Always
              (WholeOrEmpty c.bytes)
              Fails
              (elim p as (λ _. Prog Result) [
                | prepared made_copy retry' ↦
                    apply_round decompress inflate deflate sha r
                      (copy_file (suc size) c)
                      patch
                      bonus
                      made_copy
                      retry'
                      (loop_round decompress inflate deflate sha r
                        (copy_file (suc size) c)
                        patch
                        bonus
                        false
                        (ret (returned 1)))
                | not_prepared ↦ ret (returned 1)
              ])
              e
      failed p e q w = rw q (w, refl)
