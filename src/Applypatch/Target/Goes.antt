-- ===== src/Applypatch/Target/Goes.antt =====
-- applypatch/applypatch.c: files with which applypatch is not refused.
use cot_bootable_recovery_to.Base.{
  ℕ, ◌≡◌, ◌≢◌, ◌∙◌, ◌⊎◌, inl, inr, refl, sym, Bool, true, List, [], ◌∷◌, Option, none, some, Bytes,
  bytes_eq, bytes_eq_refl,
}
use cot_bootable_recovery_to.Applypatch.Digest.{
  parse_sha1, find_matching_patch, FileContents, cache_temp_source, up_to_date, refused,
  cache_matches, applypatch_check, applypatch,
}
use cot_bootable_recovery_to.Applypatch.Choice.{Matching, no_match, find_matching_patch-Matching}
use cot_bootable_recovery_to.Applypatch.Resume.{target_of, HasPatch}
use cot_bootable_recovery_to.Applypatch.Checked.{applypatch-applypatch_check}

module _ (load : Bytes → Option FileContents) where
  check-source :
      (source : Bytes) (f : FileContents) (s : Bytes) (ss : List Bytes) (i : ℕ)
      → load source ≡ some f
      → find_matching_patch f.sha1 (s ∷ ss) ≡ some i
      → applypatch_check load source (s ∷ ss) ≡ true
  unfolding applypatch_check
  check-source source f s ss i e q = rw (applypatch_check, e, q) refl

  check-copy :
      (source : Bytes) (f : FileContents) (s : Bytes) (ss : List Bytes) (i : ℕ)
      → load cache_temp_source ≡ some f
      → find_matching_patch f.sha1 (s ∷ ss) ≡ some i
      → applypatch_check load source (s ∷ ss) ≡ true
  unfolding applypatch_check cache_matches
  check-copy source f s ss i e q = loaded (load source)
    where
      matches : cache_matches load (s ∷ ss) ≡ true
      matches = rw (cache_matches, e, q) refl

      found :
          (o : Option ℕ)
          → (elim o as (λ _. Bool) [ none ↦ cache_matches load (s ∷ ss) | some j ↦ true ]) ≡ true
      found none = matches
      found (some j) = refl

      loaded :
          (o : Option FileContents)
          → (elim o as (λ _. Bool) [
            | none ↦ cache_matches load (s ∷ ss)
            | some g ↦ elim (find_matching_patch g.sha1 (s ∷ ss)) [
              | none ↦ cache_matches load (s ∷ ss)
              | some j ↦ true
            ]
          ])
            ≡ true
      loaded none = matches
      loaded (some g) = found (find_matching_patch g.sha1 (s ∷ ss))

  find-HasPatch :
      (digests : List Bytes) (f : FileContents) (i : ℕ)
      → HasPatch load digests f i
      → (j : ℕ) × (find_matching_patch f.sha1 digests ≡ some j)
  find-HasPatch digests f i (s, g, p) =
      found (find_matching_patch f.sha1 digests) (find_matching_patch-Matching f.sha1 digests) refl
    where
      found :
          (o : Option ℕ)
          → Matching f.sha1 digests o
          → find_matching_patch f.sha1 digests ≡ o
          → (j : ℕ) × (find_matching_patch f.sha1 digests ≡ some j)
      found (some j) m e = (j, e)
      found none (no_match never) e = absurd (never i s g p)

  -- A file with a matching patch, the source or the copy of it, is taken.
  pub goes :
      (source target target_sha1 goal : Bytes) (digests : List Bytes) (f : FileContents) (i : ℕ)
      → parse_sha1 target_sha1 ≡ some goal
      → HasPatch load digests f i
      → (load source ≡ some f) ⊎ (load cache_temp_source ≡ some f)
      → applypatch load source target target_sha1 digests ≢ refused
  goes source target target_sha1 goal [] f i p (s, g, q) w = cc
  goes source target target_sha1 goal (t ∷ ts) f i p h w =
      let (j, m) = find-HasPatch (t ∷ ts) f i h in
      applypatch-applypatch_check load source target target_sha1 goal t ts p (elim w [
        | inl e ↦ check-source source f t ts j e m
        | inr e ↦ check-copy source f t ts j e m
      ])

  -- So is a target that has the wanted digest already.
  pub is_wanted :
      (source target target_sha1 goal : Bytes) (digests : List Bytes) (f : FileContents)
      → parse_sha1 target_sha1 ≡ some goal
      → load (target_of source target) ≡ some f
      → f.sha1 ≡ goal
      → applypatch load source target target_sha1 digests ≢ refused
  unfolding applypatch
  is_wanted source target target_sha1 goal digests f p l e x =
      let t : bytes_eq f.sha1 goal ≡ true = rw e (bytes_eq_refl goal) in
      let u : applypatch load source target target_sha1 digests ≡ up_to_date =
        rw (applypatch, p, l, t) refl in
      let r : up_to_date ≡ refused = sym u ∙ x in cc
