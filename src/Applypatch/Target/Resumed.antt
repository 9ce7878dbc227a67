-- ===== src/Applypatch/Target/Resumed.antt =====
-- applypatch/applypatch.c: applypatch, run again after it was interrupted.
use cot_bootable_recovery_to.Applypatch.Model.{Stream}
use cot_bootable_recovery_to.Base.{
  ℕ, ◌≡◌, ◌≢◌, ◌∙◌, inl, inr, refl, sym, ap, false, List, Option, none, some, Bytes, codes,
  get_elem?, starts_with,
}
use cot_bootable_recovery_to.Minelf.Retouch.{is_retouched}
use cot_bootable_recovery_to.Applypatch.Digest.{
  parse_sha1, FileContents, cache_temp_source, Choice, up_to_date, refused, from_source, from_copy,
}
use cot_bootable_recovery_to.Applypatch.Resume.{
  target_of, HasPatch, Chosen, is_up_to_date, is_source, is_copy, applypatch-Chosen,
}
use cot_bootable_recovery_to.Applypatch.Target.Calls.{Disk, Prog, ret, Reach}
use cot_bootable_recovery_to.Applypatch.Target.Runs.{Always-Reach, Always-now, Always-ret}
use cot_bootable_recovery_to.Applypatch.Target.Image.{DeflateParameters}
use cot_bootable_recovery_to.Applypatch.Target.Generate.{
  Patch, source_file, copy_file, Result, returned, crashed, is_partition, patch_name,
  generate_target,
}
use cot_bootable_recovery_to.Applypatch.Target.Replace.{IsNoImage, IsDone}
use cot_bootable_recovery_to.Applypatch.Target.Safe.{
  Recoverable, in_source, in_cache, finished, generate_target-Recoverable, generate_target-copy,
}
use cot_bootable_recovery_to.Applypatch.Target.Load.{
  load_contents, load_file_contents, load_contents-untagged, load_file_contents-untagged, load-some,
}
use cot_bootable_recovery_to.Applypatch.Target.Whole.{
  Arguments, request_of, choice_on, with_patch, go_on, applypatch_on,
}
use cot_bootable_recovery_to.Applypatch.Target.Goes.{goes, is_wanted}

-- The target that is loaded has the wanted digest.
abbrev pub IsWanted : (Bytes → Bytes) → Arguments → Bytes → Disk → Type 0
IsWanted sha a goal d =
    (f : FileContents) × (load_file_contents sha d (target_of a.source_filename a.target_filename)
      ≡ some f)
    × (f.sha1 ≡ goal)

-- A target on the disk that holds no retouched entries.
abbrev pub IsUntagged : Arguments → Disk → Type 0
IsUntagged a d =
    (b : Bytes)
    → d.files (target_of a.source_filename a.target_filename) ≡ some b
    → is_retouched b ≡ false

module _ (decompress : Bytes → Stream) (inflate : ℕ → Bytes → Option Bytes)
    (deflate : DeflateParameters → ℕ → Bytes → List Bytes) (sha : Bytes → Bytes)
    (a : Arguments) where
  -- What is assumed of the files and of the patches.
  pub record IsPlain (goal : Bytes) (d : Disk) : Type 0 where
    pub source_is_file : is_partition a.source_filename ≡ false
    pub target_is_file : is_partition (target_of a.source_filename a.target_filename) ≡ false
    pub copy_is_no_target : cache_temp_source ≢ target_of a.source_filename a.target_filename
    pub source_outside : starts_with (codes "/cache/") a.source_filename ≡ false
    pub output_is_no_source :
        patch_name (target_of a.source_filename a.target_filename) ≢ a.source_filename
    pub no_images :
        (i : ℕ) (patch : Patch) → get_elem? a.patch_data i ≡ some patch → IsNoImage patch
    pub source_untagged : (b : Bytes) → d.files a.source_filename ≡ some b → is_retouched b ≡ false
    pub copy_untagged : (b : Bytes) → d.files cache_temp_source ≡ some b → is_retouched b ≡ false

  module _ (goal : Bytes) (parsed : parse_sha1 a.target_sha1_str ≡ some goal) where
    abbrev Goes : Disk → Type 0
    Goes d = choice_on decompress inflate deflate sha a d ≢ refused

    of_Recoverable :
        (d d' : Disk) (f : FileContents) (i : ℕ) (raw : Bytes) (source : Option Bytes)
        → IsPlain goal d
        → HasPatch (load_file_contents sha d) a.patch_sha1_str f i
        → f ≡ record { sha1 = sha raw; bytes = raw }
        → is_retouched raw ≡ false
        → ((x : Bytes) → source ≡ some x → x ≡ raw)
        → IsUntagged a d'
        → Recoverable sha (request_of a goal) source f.bytes d'
        → Goes d'
    unfolding choice_on
    of_Recoverable d d' f i raw source plain h same untagged is_raw left (in_source x e there) =
        let there' : d'.files a.source_filename ≡ some raw = there ∙ ap some (is_raw x e) in
        let l = load_file_contents-untagged sha d' a.source_filename raw there' untagged in
        goes (load_file_contents sha d') a.source_filename a.target_filename a.target_sha1_str goal
          a.patch_sha1_str f i parsed h (inl (l ∙ ap some (sym same)))
    of_Recoverable d d' f i raw source plain h same untagged is_raw left (in_cache there) =
        let there' : d'.files cache_temp_source ≡ some raw =
          there ∙ ap (λ (x : FileContents). some x.bytes) same in
        let l = load_file_contents-untagged sha d' cache_temp_source raw there' untagged in
        goes (load_file_contents sha d') a.source_filename a.target_filename a.target_sha1_str goal
          a.patch_sha1_str f i parsed h (inr (l ∙ ap some (sym same)))
    of_Recoverable d d' f i raw source plain h same untagged is_raw left
          (finished (content, there, e)) =
        is_wanted (load_file_contents sha d') a.source_filename a.target_filename a.target_sha1_str
          goal a.patch_sha1_str (record { sha1 = sha content; bytes = content }) parsed
          (load_file_contents-untagged sha d' (target_of a.source_filename a.target_filename)
            content there (left content there))
          e

    loaded_raw :
        (d : Disk) (p : Bytes) (f : FileContents)
        → load_file_contents sha d p ≡ some f
        → ((b : Bytes) → d.files p ≡ some b → is_retouched b ≡ false)
        → (raw : Bytes) × (d.files p ≡ some raw)
          × (is_retouched raw ≡ false)
          × (f ≡ record { sha1 = sha raw; bytes = raw })
    unfolding load_file_contents
    loaded_raw d p f l u =
        let (raw, e) = load-some sha (d.files p) f l in
        let direct = load_contents-untagged sha raw (u raw e) in
        let q : some f ≡ some (record { sha1 = sha raw; bytes = raw }) =
          sym l ∙ ap (load_contents sha) e ∙ direct in
        (raw, e, u raw e, cc)

    unmoved :
        (x : Result) (d : Disk) (m : Prog Result) (d' : Disk)
        → Reach (ret x) d m d'
        → (d' ≡ d) × ((y : Result) → m ≡ ret y → x ≡ y)
    unmoved x d m d' r =
        let now = Always-Reach (λ z. z ≡ d) (λ y _. x ≡ y) r (refl, refl) in
        (
          Always-now (λ z. z ≡ d) (λ y _. x ≡ y) m d' now,
          λ y e. Always-ret (λ z. z ≡ d) (λ y _. x ≡ y) m y d' now e,
        )

    of_done :
        (d d' : Disk) → IsUntagged a d' → IsDone sha (request_of a goal) d' → IsWanted sha a goal d'
    of_done d d' left (content, there, e) = (
      record { sha1 = sha content; bytes = content },
      load_file_contents-untagged sha d' (target_of a.source_filename a.target_filename) content
          there (left content there),
      e,
    )

    module _ (d d' : Disk) (m : Prog Result) (plain : IsPlain goal d) (left : IsUntagged a d') where
      -- What is left of a run.
      abbrev Left : Type 0
      Left = (Goes d → Goes d') × (m ≡ ret (returned 0) → IsWanted sha a goal d')

      left_crashed : Reach (ret crashed) d m d' → Left
      left_crashed r =
          let (e, q) = unmoved crashed d m d' r in
          (λ g. rw e g, λ z. let t = q (returned 0) z in cc)

      after_source :
          (f : FileContents) (i : ℕ)
          → load_file_contents sha d a.source_filename ≡ some f
          → HasPatch (load_file_contents sha d) a.patch_sha1_str f i
          → Reach (with_patch decompress inflate deflate sha a goal i (source_file f)) d m d'
          → Left
      unfolding with_patch
      after_source f i l h = patched (get_elem? a.patch_data i) refl
        where
          patched :
              (o : Option Patch)
              → get_elem? a.patch_data i ≡ o
              → Reach
                  (elim o as (λ _. Prog Result) [
                    | none ↦ ret crashed
                    | some patch ↦
                        generate_target decompress inflate deflate sha
                          (request_of a goal)
                          (source_file f)
                          patch
                          a.bonus_data
                  ])
                  d
                  m
                  d'
              → Left
          patched none e r = left_crashed r
          patched (some patch) e r =
              let (raw, there, u, same) =
                loaded_raw d a.source_filename f l plain.source_untagged in
              let (found, done) =
                generate_target-Recoverable decompress inflate deflate sha (request_of a goal)
                  plain.target_is_file plain.copy_is_no_target patch a.bonus_data
                  (plain.no_images i patch e) f raw plain.source_outside plain.output_is_no_source d
                  m d' there r in
              (
                λ _. of_Recoverable d d' f i raw (some raw) plain h same u (λ x e. cc) left found,
                λ z. of_done d d' left (done z),
              )

      after_copy :
          (f : FileContents) (i : ℕ)
          → load_file_contents sha d cache_temp_source ≡ some f
          → HasPatch (load_file_contents sha d) a.patch_sha1_str f i
          → Reach (with_patch decompress inflate deflate sha a goal i (copy_file a.stale f)) d m d'
          → Left
      unfolding with_patch
      after_copy f i l h = patched (get_elem? a.patch_data i) refl
        where
          patched :
              (o : Option Patch)
              → get_elem? a.patch_data i ≡ o
              → Reach
                  (elim o as (λ _. Prog Result) [
                    | none ↦ ret crashed
                    | some patch ↦
                        generate_target decompress inflate deflate sha
                          (request_of a goal)
                          (copy_file a.stale f)
                          patch
                          a.bonus_data
                  ])
                  d
                  m
                  d'
              → Left
          patched none e r = left_crashed r
          patched (some patch) e r =
              let (raw, there, u, same) = loaded_raw d cache_temp_source f l plain.copy_untagged in
              let copied : d.files cache_temp_source ≡ some f.bytes =
                there ∙ ap (λ (x : FileContents). some x.bytes) (sym same) in
              let (found, done) =
                generate_target-copy decompress inflate deflate sha (request_of a goal)
                  plain.target_is_file plain.copy_is_no_target patch a.bonus_data
                  (plain.no_images i patch e) a.stale f d m d' copied r in
              (
                λ _. of_Recoverable d d' f i raw none plain h same u (λ x e. cc) left found,
                λ z. of_done d d' left (done z),
              )

      after :
          (c : Choice)
          → Chosen
              (load_file_contents sha d)
              a.patch_sha1_str
              a.source_filename
              (target_of a.source_filename a.target_filename)
              (parse_sha1 a.target_sha1_str)
              c
          → choice_on decompress inflate deflate sha a d ≡ c
          → Reach (go_on decompress inflate deflate sha a goal c) d m d'
          → Left
      unfolding go_on
      after up_to_date (is_up_to_date f l e) _ r =
          let (same, q) = unmoved (returned 0) d m d' r in
          let wanted : f.sha1 ≡ goal = cc in (λ g. rw same g, λ z. rw same (f, l, wanted))
      after (from_source f i) (is_source _ _ l h) _ r = after_source f i l h r
      after (from_copy f i) (is_copy _ _ l h) _ r = after_copy f i l h r
      after refused _ c r =
          let (same, q) = unmoved (returned 1) d m d' r in
          (λ g. absurd (g c), λ z. let t = q (returned 0) z in absurd (one_ne_zero t))
        where
          one_ne_zero : returned 1 ≢ returned 0
          one_ne_zero e = cc

    -- applypatch may be interrupted at any moment, and each of its calls may fail. If it is not
    -- refused on the disk before, it is not refused on the disk that is left; and where it has
    -- returned 0, the target that is loaded from that disk has the wanted digest. The target
    -- digest can be parsed; the source and the target are files, the source is outside of /cache,
    -- the copy is not the target, and the output file is not the source; the source and the copy on
    -- the disk before, and the target on the disk that is left, hold no retouched entries; and the
    -- patches are no image patches.
    pub applypatch-resumed :
        (d : Disk) (m : Prog Result) (d' : Disk)
        → IsPlain goal d
        → IsUntagged a d'
        → Reach (applypatch_on decompress inflate deflate sha a d) d m d'
        → (choice_on decompress inflate deflate sha a d ≢ refused
            → choice_on decompress inflate deflate sha a d' ≢ refused)
          × (m ≡ ret (returned 0) → IsWanted sha a goal d')
    unfolding applypatch_on choice_on
    applypatch-resumed d m d' plain left r =
        after d d' m plain left (choice_on decompress inflate deflate sha a d)
          (applypatch-Chosen (load_file_contents sha d) a.patch_sha1_str a.source_filename
            a.target_filename a.target_sha1_str)
          refl (rw (applypatch_on, parsed) at r)
