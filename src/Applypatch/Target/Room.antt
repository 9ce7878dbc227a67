-- ===== src/Applypatch/Target/Room.antt =====
-- applypatch/applypatch.c, GenerateTarget before the patch is applied.
use cot_bootable_recovery_to.Base.{
  ℕ, ◌≡◌, ◌≢◌, ◌⊎◌, inl, inr, refl, sym, Bool, true, false, not, Bool-cases, Option, some, Bytes,
  codes, length, starts_with, if◌then◌else◌,
}
use cot_bootable_recovery_to.Applypatch.Digest.{FileContents, cache_temp_source}
use cot_bootable_recovery_to.Applypatch.Target.Calls.{Disk, ret, call, statfs, unlink}
use cot_bootable_recovery_to.Applypatch.Target.Runs.{Always, Always-then, Always-bind}
use cot_bootable_recovery_to.Applypatch.Target.Frame.{Holds, Untouched-Keeps, as_before}
use cot_bootable_recovery_to.Applypatch.Target.Space.{make_free_space_on_cache}
use cot_bootable_recovery_to.Applypatch.Target.Spared.{make_free_space-Holds}
use cot_bootable_recovery_to.Applypatch.Target.Save.{save_file_contents}
use cot_bootable_recovery_to.Applypatch.Target.Backup.{Saved, save_file_contents-Saved}
use cot_bootable_recovery_to.Applypatch.Target.Generate.{
  source_file, copy_file, Request, is_partition, target_fs, Prepared, prepared, not_prepared,
  back_up, enough_space, make_room, prepare,
}

pub cache-ne : (p : Bytes) → starts_with (codes "/cache/") p ≡ false → cache_temp_source ≢ p
unfolding starts_with
cache-ne p f e =
    let t : starts_with (codes "/cache/") cache_temp_source ≡ false = rw (← e) at f in cc

module _ (r : Request) (plain : is_partition r.target_filename ≡ false) where
  -- The free space is only asked for.
  enough_space-Holds :
      (p : Bytes) (content : Option Bytes) (retry : Bool) (d : Disk)
      → Holds p content d
      → Always (Holds p content) (λ _ _. Unit {0}) (enough_space r retry) d
  unfolding enough_space
  enough_space-Holds p content false d i = (i, tt)
  enough_space-Holds p content true d i = (i, λ free d' e. (as_before p content d d' i e, tt))

  module _ (f : FileContents) (raw : Bytes)
      (outside : starts_with (codes "/cache/") r.source_filename ≡ false) where
    abbrev InSource : Disk → Type 0
    InSource = Holds r.source_filename (some raw)

    abbrev InCache : Disk → Type 0
    InCache = Holds cache_temp_source (some f.bytes)

    -- The data that are patched are in one of two files.
    abbrev pub InEither : Disk → Type 0
    InEither d = InSource d ⊎ InCache d

    -- Where they are when the patch is applied. If they were moved there is no second round.
    abbrev pub Ready : Prepared → Disk → Type 0
    Ready (prepared true retry) d = InCache d × (retry ≡ false)
    Ready (prepared false retry) d = InSource d
    Ready not_prepared d = Unit {0}

    back_up-Saved :
        (d : Disk)
        → InSource d
        → Always InSource
            (Saved r.source_filename
              (some raw)
              cache_temp_source
              (cache-ne r.source_filename outside)
              f.bytes)
            (back_up (source_file f))
            d
    unfolding back_up
    back_up-Saved d i =
        Always-bind InSource (λ _ _. Unit {0})
          (Saved r.source_filename (some raw) cache_temp_source (cache-ne r.source_filename outside)
            f.bytes)
          (make_free_space_on_cache (length f.bytes)) _ d
          (make_free_space-Holds (length f.bytes) r.source_filename (some raw) d (inr outside) i)
          saved
      where
        saved :
            (room : Bool) (d' : Disk)
            → Unit {0}
            → InSource d'
            → Always InSource
                (Saved r.source_filename
                  (some raw)
                  cache_temp_source
                  (cache-ne r.source_filename outside)
                  f.bytes)
                (if not room
                  then ret false
                  else save_file_contents cache_temp_source (some f.bytes) (length f.bytes))
                d'
        saved false d' u j = (j, λ e. cc)
        saved true d' u j =
            save_file_contents-Saved r.source_filename (some raw) cache_temp_source
              (cache-ne r.source_filename outside) f.bytes d' j

    make_room-Ready :
        (d : Disk) → InSource d → Always InEither Ready (make_room r (source_file f) false) d
    unfolding make_room
    make_room-Ready d i = elim (Bool-cases (is_partition r.source_filename)) [
      | inl t ↦ rw t (inl i, tt)
      | inr n ↦ rw n (
          Always-then InSource
            (Saved r.source_filename (some raw) cache_temp_source
              (cache-ne r.source_filename outside) f.bytes)
            InEither Ready (back_up (source_file f)) _ d (λ d' j. inl j) (back_up-Saved d i) moved)
    ]
      where
        moved :
            (saved : Bool) (d' : Disk)
            → (saved ≡ true → InCache d')
            → InSource d'
            → Always InEither Ready
                (if not saved
                  then ret not_prepared
                  else call (unlink r.source_filename) λ gone.
                    call
                      (statfs (target_fs r.target_filename))
                      λ free_space. ret (prepared true false))
                d'
        moved false d' h j = (inl j, tt)
        moved true d' h j = (
          inl j,
          λ gone d'' e.
              let c =
                Untouched-Keeps cache_temp_source (some f.bytes) (unlink r.source_filename)
                  (λ x. cache-ne r.source_filename outside (sym x)) d' d'' gone (h refl) e in
              (
                inr c,
                λ free d3 e'.
                    let c' = as_before cache_temp_source (some f.bytes) d'' d3 c e' in
                    (inr c', (c', refl)),
              ),
        )

    pub prepare-Ready :
        (retry : Bool) (d : Disk)
        → InSource d
        → Always InEither Ready (prepare r (source_file f) false retry) d
    unfolding prepare
    prepare-Ready retry d i = rw plain (
        Always-then InSource (λ _ _. Unit {0}) InEither Ready (enough_space r retry) _ d
          (λ d' j. inl j) (enough_space-Holds r.source_filename (some raw) retry d i) roomy)
      where
        roomy :
            (enough : Bool) (d' : Disk)
            → Unit {0}
            → InSource d'
            → Always InEither Ready
                (if enough then ret (prepared false true) else make_room r (source_file f) false)
                d'
        roomy true d' u j = (inl j, j)
        roomy false d' u j = make_room-Ready d' j

  -- With the copy nothing is moved.
  abbrev pub Stays : FileContents → Prepared → Disk → Type 0
  Stays c (prepared made_copy retry) d = made_copy ≡ false
  Stays c not_prepared d = Unit {0}

  pub prepare-Stays :
      (stale : ℕ) (c : FileContents) (content : Option Bytes) (retry : Bool) (d : Disk)
      → Holds cache_temp_source content d
      → Always
          (Holds cache_temp_source content)
          (Stays c)
          (prepare r (copy_file stale c) false retry)
          d
  unfolding prepare make_room
  prepare-Stays stale c content retry d i = rw plain (
      Always-bind (Holds cache_temp_source content) (λ _ _. Unit {0}) (Stays c)
        (enough_space r retry) _ d (enough_space-Holds cache_temp_source content retry d i) roomy)
    where
      roomy :
          (enough : Bool) (d' : Disk)
          → Unit {0}
          → Holds cache_temp_source content d'
          → Always
              (Holds cache_temp_source content)
              (Stays c)
              (if enough then ret (prepared false true) else ret (prepared false false))
              d'
      roomy true d' u j = (j, refl)
      roomy false d' u j = (j, refl)
