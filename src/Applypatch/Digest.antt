-- ===== src/Applypatch/Digest.antt =====
-- applypatch/applypatch.c: SHA-1 digests in hexadecimal (ParseSha1, FindMatchingPatch), and the choice of the
-- file that is patched (applypatch_check, applypatch). LoadFileContents is a parameter.
use cot_bootable_recovery_to.Base.{
  ℕ, zero, suc, ◌+◌, ◌-◌, ◌*◌, Bool, true, false, ◌&&◌, List, [], ◌∷◌, Option, none, some, Bytes,
  bytes_eq, codes, leb, if◌then◌else◌,
}

infixl 5 ◌>>=◌
abbrev ◌>>=◌ : {A B : Type 0} → Option A → (A → Option B) → Option B
none >>= k = none
some a >>= k = k a

-- The value of a digit.
unfoldable pub hex_digit : ℕ → Option ℕ
hex_digit c =
    if leb 48 c && leb c 57
    then some (c - 48)
    else (if leb 97 c && leb c 102
        then some (c - 97 + 10)
        else (if leb 65 c && leb c 70 then some (c - 65 + 10) else none))

-- Pairs of digits, as many as are given, and what follows them.
unfoldable pub parse_pairs : ℕ → Bytes → Option (Bytes × Bytes)
parse_pairs zero s = some ([], s)
parse_pairs (suc n) [] = none
parse_pairs (suc n) (a ∷ []) = none
parse_pairs (suc n) (a ∷ b ∷ s) = do
  high ← hex_digit a
  low ← hex_digit b
  parsed ← parse_pairs n s
  some ((high * 16 + low) ∷ parsed.0, parsed.1)

unfoldable pub at_end : Bytes × Bytes → Option Bytes
at_end (digest, []) = some digest
at_end (digest, c ∷ rest) = none

-- ParseSha1; `none` for -1.
unfoldable pub parse_sha1 : Bytes → Option Bytes
parse_sha1 s = do parsed ← parse_pairs 20 s; at_end parsed

unfoldable pub matches_digest : Bytes → Bytes → Bool
matches_digest sha1 s = elim (parse_sha1 s) [ none ↦ false | some digest ↦ bytes_eq digest sha1 ]

-- FindMatchingPatch; `none` for -1.
unfoldable pub find_matching_patch : Bytes → List Bytes → Option ℕ
find_matching_patch sha1 [] = none
find_matching_patch sha1 (s ∷ ss) =
    let later = find_matching_patch sha1 ss in
    if matches_digest sha1 s then some 0 else elim later [ none ↦ none | some i ↦ some (suc i) ]

-- `FileContents`.
pub record FileContents : Type 0 where
  pub sha1 : Bytes
  pub bytes : Bytes

abbrev pub cache_temp_source : Bytes
cache_temp_source = codes "/cache/saved.file"

-- How applypatch goes on: it returns 0 or 1, or GenerateTarget is called for a file with the patch of a number, for
-- the source file or for the copy of it in the cache.
pub data Choice : Type 0 where
  up_to_date refused : Choice
  from_source from_copy : FileContents → ℕ → Choice

module _ (load : Bytes → Option FileContents) where
  -- applypatch_check gives 0.
  unfoldable pub cache_matches : List Bytes → Bool
  cache_matches digests = elim (load cache_temp_source) [
    | none ↦ false
    | some f ↦ elim (find_matching_patch f.sha1 digests) [ none ↦ false | some i ↦ true ]
  ]

  unfoldable pub applypatch_check : Bytes → List Bytes → Bool
  applypatch_check filename [] = elim (load filename) [ none ↦ cache_matches [] | some f ↦ true ]
  applypatch_check filename (s ∷ ss) = elim (load filename) [
    | none ↦ cache_matches (s ∷ ss)
    | some f ↦ elim (find_matching_patch f.sha1 (s ∷ ss)) [
      | none ↦ cache_matches (s ∷ ss)
      | some i ↦ true
    ]
  ]

  unfoldable pub choose_copy : List Bytes → Choice
  choose_copy digests = elim (load cache_temp_source) [
    | none ↦ refused
    | some f ↦ elim (find_matching_patch f.sha1 digests) [ none ↦ refused | some i ↦ from_copy f i ]
  ]

  unfoldable pub choose_source : List Bytes → Option FileContents → Choice
  choose_source digests none = choose_copy digests
  choose_source digests (some f) = elim (find_matching_patch f.sha1 digests) [
    | none ↦ choose_copy digests
    | some i ↦ from_source f i
  ]

  -- applypatch, up to the call of GenerateTarget.
  unfoldable pub applypatch : Bytes → Bytes → Bytes → List Bytes → Choice
  applypatch source_filename target_filename target_sha1 digests =
      let target =
        if bytes_eq target_filename (codes "-") then source_filename else target_filename in
      let source = load source_filename in
      elim (parse_sha1 target_sha1) [
        | none ↦ refused
        | some goal ↦ elim (load target) [
          | none ↦ choose_source digests source
          | some f ↦
              if bytes_eq f.sha1 goal
              then up_to_date
              else choose_source digests
                  (if bytes_eq target source_filename then some f else source)
        ]
      ]
