-- ===== src/Applypatch/Resume.antt =====
-- applypatch/applypatch.c: what applypatch_check promises, and which file applypatch takes.
use cot_bootable_recovery_to.Base.{
  ℕ, ◌≡◌, ◌∙◌, inl, inr, refl, sym, ap, Bool-cases, List, Option, none, some, Bytes, bytes_eq,
  bytes_eq→eq, codes, get_elem?, if◌then◌else◌,
}
use cot_bootable_recovery_to.Applypatch.Digest.{
  parse_sha1, find_matching_patch, FileContents, cache_temp_source, Choice, up_to_date, refused,
  from_source, from_copy, choose_copy, choose_source, applypatch,
}
use cot_bootable_recovery_to.Applypatch.Choice.{Matching, is_match, find_matching_patch-Matching}

-- The file that is the target, where "-" stands for the source.
abbrev pub target_of : Bytes → Bytes → Bytes
target_of source target = if bytes_eq target (codes "-") then source else target

module _ (load : Bytes → Option FileContents) (digests : List Bytes) where
  -- A patch has the digest of a file.
  abbrev pub HasPatch : FileContents → ℕ → Type 0
  HasPatch f i = (s : Bytes) × (get_elem? digests i ≡ some s) × (parse_sha1 s ≡ some f.sha1)

  -- What each way to go on says of the files.
  pub data Chosen (source target : Bytes) (goal : Option Bytes) : Choice → Type 0 where
    is_up_to_date :
        (f : FileContents)
        → load target ≡ some f
        → goal ≡ some f.sha1
        → Chosen source target goal up_to_date
    is_source :
        (f : FileContents) (i : ℕ)
        → load source ≡ some f
        → HasPatch f i
        → Chosen source target goal (from_source f i)
    is_copy :
        (f : FileContents) (i : ℕ)
        → load cache_temp_source ≡ some f
        → HasPatch f i
        → Chosen source target goal (from_copy f i)
    is_refused : Chosen source target goal refused

  find-HasPatch :
      (f : FileContents) (i : ℕ) → find_matching_patch f.sha1 digests ≡ some i → HasPatch f i
  find-HasPatch f i e =
      has (find_matching_patch f.sha1 digests) (find_matching_patch-Matching f.sha1 digests) e
    where
      has : (o : Option ℕ) → Matching f.sha1 digests o → o ≡ some i → HasPatch f i
      has (some k) (is_match _ s g q before) e = let same : k ≡ i = cc in (s, rw (← same) g, q)
      has none m e = cc

  choose_copy-Chosen :
      (source target : Bytes) (goal : Option Bytes)
      → Chosen source target goal (choose_copy load digests)
  unfolding choose_copy
  choose_copy-Chosen source target goal = copy (load cache_temp_source) refl
    where
      found :
          (f : FileContents)
          → load cache_temp_source ≡ some f
          → (o : Option ℕ) → find_matching_patch f.sha1 digests ≡ o
          → Chosen source target goal
              (elim o as (λ _. Choice) [ none ↦ refused | some i ↦ from_copy f i ])
      found f e none q = is_refused
      found f e (some i) q = is_copy f i e (find-HasPatch f i q)

      copy :
          (o : Option FileContents)
          → load cache_temp_source ≡ o
          → Chosen source target goal (elim o as (λ _. Choice) [
            | none ↦ refused
            | some f ↦ elim (find_matching_patch f.sha1 digests) [
              | none ↦ refused
              | some i ↦ from_copy f i
            ]
          ])
      copy none e = is_refused
      copy (some f) e = found f e (find_matching_patch f.sha1 digests) refl

  choose_source-Chosen :
      (source target : Bytes) (goal : Option Bytes) (o : Option FileContents)
      → load source ≡ o
      → Chosen source target goal (choose_source load digests o)
  unfolding choose_source
  choose_source-Chosen source target goal none e = choose_copy-Chosen source target goal
  choose_source-Chosen source target goal (some f) e =
      found (find_matching_patch f.sha1 digests) refl
    where
      found :
          (o : Option ℕ)
          → find_matching_patch f.sha1 digests ≡ o
          → Chosen source target goal (elim o as (λ _. Choice) [
            | none ↦ choose_copy load digests
            | some i ↦ from_source f i
          ])
      found none q = choose_copy-Chosen source target goal
      found (some i) q = is_source f i e (find-HasPatch f i q)

  -- Where applypatch does nothing and succeeds, the target has the wanted digest already. Where a patch is applied, it is
  -- applied to the source file, or the copy of it in the cache, and its digest is that file's.
  pub applypatch-Chosen :
      (source target target_sha1 : Bytes)
      → Chosen source
          (target_of source target)
          (parse_sha1 target_sha1)
          (applypatch load source target target_sha1 digests)
  unfolding applypatch
  applypatch-Chosen source target target_sha1 = wanted (parse_sha1 target_sha1)
    where
      name : Bytes
      name = if bytes_eq target (codes "-") then source else target

      loaded :
          (f : FileContents)
          → load name ≡ some f
          → load source ≡ (if bytes_eq name source then some f else load source)
      loaded f e = elim (Bool-cases (bytes_eq name source)) [
        | inl t ↦ rw t (ap load (sym (bytes_eq→eq name source t)) ∙ e)
        | inr n ↦ rw n refl
      ]

      with_target :
          (goal : Bytes) (o : Option FileContents)
          → load name ≡ o
          → Chosen source name (some goal) (elim o as (λ _. Choice) [
            | none ↦ choose_source load digests (load source)
            | some f ↦
                if bytes_eq f.sha1 goal
                then up_to_date
                else choose_source load digests
                    (if bytes_eq name source then some f else load source)
          ])
      with_target goal none e = choose_source-Chosen source name (some goal) (load source) refl
      with_target goal (some f) e = elim (Bool-cases (bytes_eq f.sha1 goal)) [
        | inl t ↦ rw t (is_up_to_date f e (ap some (sym (bytes_eq→eq f.sha1 goal t))))
        | inr n ↦ rw n (choose_source-Chosen source name (some goal) _ (loaded f e))
      ]

      wanted :
          (o : Option Bytes)
          → Chosen source name o (elim o as (λ _. Choice) [
            | none ↦ refused
            | some goal ↦ elim (load name) [
              | none ↦ choose_source load digests (load source)
              | some f ↦
                  if bytes_eq f.sha1 goal
                  then up_to_date
                  else choose_source load digests
                      (if bytes_eq name source then some f else load source)
            ]
          ])
      wanted none = is_refused
      wanted (some goal) = with_target goal (load name) refl
