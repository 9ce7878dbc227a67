-- ===== src/Applypatch/Checked.antt =====
-- applypatch/applypatch.c: applypatch after applypatch_check.
use cot_bootable_recovery_to.Base.{
  ℕ, ◌≡◌, ◌≢◌, ◌∙◌, ◌⊎◌, inl, inr, refl, sym, ap, Bool, true, false, Bool-cases, List, ◌∷◌, Option,
  none, some, Bytes, bytes_eq, bytes_eq→eq, if◌then◌else◌,
}
use cot_bootable_recovery_to.Applypatch.Digest.{
  parse_sha1, find_matching_patch, FileContents, cache_temp_source, Choice, up_to_date, refused,
  from_source, from_copy, cache_matches, applypatch_check, choose_copy, choose_source, applypatch,
}
use cot_bootable_recovery_to.Applypatch.Resume.{target_of}

module _ (load : Bytes → Option FileContents) where
  choose_copy-goes :
      (digests : List Bytes)
      → cache_matches load digests ≡ true
      → choose_copy load digests ≢ refused
  unfolding cache_matches choose_copy
  choose_copy-goes digests c = copy (load cache_temp_source) c
    where
      found :
          (f : FileContents) (o : Option ℕ)
          → (elim o as (λ _. Bool) [ none ↦ false | some i ↦ true ]) ≡ true
          → (elim o as (λ _. Choice) [ none ↦ refused | some i ↦ from_copy f i ]) ≢ refused
      found f none c e = cc
      found f (some i) c e = cc

      copy :
          (o : Option FileContents)
          → (elim o as (λ _. Bool) [
            | none ↦ false
            | some f ↦ elim (find_matching_patch f.sha1 digests) [ none ↦ false | some i ↦ true ]
          ])
            ≡ true
          → (elim o as (λ _. Choice) [
            | none ↦ refused
            | some f ↦ elim (find_matching_patch f.sha1 digests) [
              | none ↦ refused
              | some i ↦ from_copy f i
            ]
          ])
            ≢ refused
      copy none c e = cc
      copy (some f) c e = found f (find_matching_patch f.sha1 digests) c e

  choose_source-goes :
      (source s : Bytes) (ss : List Bytes)
      → applypatch_check load source (s ∷ ss) ≡ true
      → choose_source load (s ∷ ss) (load source) ≢ refused
  unfolding applypatch_check choose_source
  choose_source-goes source s ss c = loaded (load source) c
    where
      found :
          (f : FileContents) (o : Option ℕ)
          → (elim o as (λ _. Bool) [ none ↦ cache_matches load (s ∷ ss) | some i ↦ true ]) ≡ true
          → (elim o as (λ _. Choice) [
            | none ↦ choose_copy load (s ∷ ss)
            | some i ↦ from_source f i
          ])
            ≢ refused
      found f none c e = choose_copy-goes (s ∷ ss) c e
      found f (some i) c e = cc

      loaded :
          (o : Option FileContents)
          → (elim o as (λ _. Bool) [
            | none ↦ cache_matches load (s ∷ ss)
            | some f ↦ elim (find_matching_patch f.sha1 (s ∷ ss)) [
              | none ↦ cache_matches load (s ∷ ss)
              | some i ↦ true
            ]
          ])
            ≡ true
          → choose_source load (s ∷ ss) o ≢ refused
      loaded none c e = choose_copy-goes (s ∷ ss) c e
      loaded (some f) c e = found f (find_matching_patch f.sha1 (s ∷ ss)) c e

  applypatch_cases :
      (source target target_sha1 goal : Bytes) (digests : List Bytes)
      → parse_sha1 target_sha1 ≡ some goal
      → (applypatch load source target target_sha1 digests ≡ up_to_date)
        ⊎ (applypatch load source target target_sha1 digests
            ≡ choose_source load digests (load source))
  unfolding applypatch
  applypatch_cases source target target_sha1 goal digests p =
      let chosen : applypatch load source target target_sha1 digests ≡ choice (load name) =
        rw (applypatch, p) refl in
      rw chosen (with_target (load name) refl)
    where
      name : Bytes
      name = target_of source target

      choice : Option FileContents → Choice
      choice o = elim o [
        | none ↦ choose_source load digests (load source)
        | some f ↦
            if bytes_eq f.sha1 goal
            then up_to_date
            else choose_source load digests (if bytes_eq name source then some f else load source)
      ]

      with_target :
          (o : Option FileContents)
          → load name ≡ o
          → (choice o ≡ up_to_date) ⊎ (choice o ≡ choose_source load digests (load source))
      with_target none e = inr refl
      with_target (some f) e = elim (Bool-cases (bytes_eq f.sha1 goal)) [
        | inl t ↦ inl (rw t refl)
        | inr n ↦ elim (Bool-cases (bytes_eq name source)) [
          | inl t ↦
              let l : load source ≡ some f = ap load (sym (bytes_eq→eq name source t)) ∙ e in
              inr (rw (n, t, l) refl)
          | inr m ↦ inr (rw (n, m) refl)
        ]
      ]

  -- If applypatch_check passes for a file and a list of digests that is not empty, and the target's digest can be
  -- parsed, applypatch of this file with these digests is not refused: it has nothing to do, or finds a file and a patch.
  pub applypatch-applypatch_check :
      (source target target_sha1 goal s : Bytes) (ss : List Bytes)
      → parse_sha1 target_sha1 ≡ some goal
      → applypatch_check load source (s ∷ ss) ≡ true
      → applypatch load source target target_sha1 (s ∷ ss) ≢ refused
  applypatch-applypatch_check source target target_sha1 goal s ss p c e =
      elim (applypatch_cases source target target_sha1 goal (s ∷ ss) p) [
        | inl q ↦ let r : up_to_date ≡ refused = sym q ∙ e in cc
        | inr q ↦ choose_source-goes source s ss c (sym q ∙ e)
      ]
