-- ===== src/Applypatch/Partition.antt =====
-- applypatch/applypatch.c: LoadPartitionContents. What a partition holds is a parameter, `none` where it is not found or
-- cannot be opened, and so are SHA-1 and qsort. malloc does not fail.
mod Prefix
mod Tests
use cot_bootable_recovery_to.Base.{
  ℕ, zero, suc, ◌+◌, ◌-◌, ◌/◌, ◌==◌, Bool, not, List, [], ◌∷◌, ◌++◌, Option, none, some, Bytes,
  bytes_eq, length, take, drop, if◌then◌else◌,
}
use cot_bootable_recovery_to.Base.Int.{to_word}
use cot_bootable_recovery_to.Edify.Strtol.{strtol}
use cot_bootable_recovery_to.Recovery.Tokens.{tokens}
use cot_bootable_recovery_to.Applypatch.Digest.{parse_sha1, FileContents}

-- A size, and the text of a digest, which is missing where the file name ends.
pub record Pair : Type 0 where
  pub size : ℕ
  pub sha1sum : Option Bytes

-- The pairs of a file name: -1 for a size that is 0, or a string that is not there.
pub data Pairs : Type 0 where
  pairs : List Pair → Pairs
  zero_size no_string : Pairs

-- What is loaded, -1, or a read through NULL or outside of an array.
pub data Loaded : Type 0 where
  loaded : FileContents → Loaded
  not_loaded fault : Loaded

unfoldable pub count_colons : Bytes → ℕ
count_colons [] = 0
count_colons (c ∷ cs) = (if c == b':' then 1 else 0) + count_colons cs

unfoldable pub add_pair : Pair → Pairs → Pairs
add_pair p (pairs ps) = pairs (p ∷ ps)
add_pair p zero_size = zero_size
add_pair p no_string = no_string

-- `size[i]` from a token.
unfoldable pub pair_size : Bytes → ℕ
unfolding strtol
pair_size token = to_word 32 (strtol token).0

-- The loop over the pairs, with the tokens that are left.
unfoldable pub read_pairs : ℕ → List Bytes → Pairs
unfolding add_pair pair_size
read_pairs zero words = pairs []
read_pairs (suc n) [] = no_string
read_pairs (suc n) (size_str ∷ []) =
    let rest = read_pairs n [] in
    if pair_size size_str == 0
    then zero_size
    else add_pair (record { size = pair_size size_str; sha1sum = none }) rest
read_pairs (suc n) (size_str ∷ sum ∷ words) =
    let rest = read_pairs n words in
    if pair_size size_str == 0
    then zero_size
    else add_pair (record { size = pair_size size_str; sha1sum = some sum }) rest

module _ (sha : Bytes → Bytes) where
  -- Whether the bytes read so far have the digest of a pair; a text that is no digest ends the loop.
  unfoldable pub check_pair : Bytes → Option Bytes → Loaded → Loaded
  check_pair so_far none later = fault
  check_pair so_far (some sum) later = elim (parse_sha1 sum) [
    | none ↦ not_loaded
    | some parsed_sha ↦
        if bytes_eq (sha so_far) parsed_sha
        then loaded (record { sha1 = sha so_far; bytes = so_far })
        else later
  ]

  -- The loop over the pairs in the order of their sizes, with the bytes read so far.
  unfoldable pub read_prefixes : List Pair → Bytes → Bytes → Loaded
  unfolding check_pair
  read_prefixes [] so_far content = not_loaded
  read_prefixes (p ∷ ps) so_far content =
      let next = p.size - length so_far in
      let part = take next (drop (length so_far) content) in
      let later = read_prefixes ps (so_far ++ part) content in
      if not (length part == next) then not_loaded else check_pair (so_far ++ part) p.sha1sum later

  module _ (sort : List Pair → List Pair) (partition_contents : Bytes → Bytes → Option Bytes) where
    -- `size[index[pairs - 1]]` is read for the buffer, so there is a pair.
    unfoldable pub read_partition : List Pair → Option Bytes → Loaded
    unfolding read_prefixes
    read_partition [] (some content) = fault
    read_partition (p ∷ ps) (some content) = read_prefixes (sort (p ∷ ps)) [] content
    read_partition ps none = not_loaded

    unfoldable pub load_named : Bytes → Bytes → Pairs → Loaded
    unfolding read_partition
    load_named magic partition (pairs ps) = read_partition ps (partition_contents magic partition)
    load_named magic partition zero_size = not_loaded
    load_named magic partition no_string = fault

    abbrev is_colon : ℕ → Bool
    is_colon c = c == b':'

    unfoldable pub load_words : ℕ → List Bytes → Loaded
    unfolding load_named read_pairs
    load_words colons [] = fault
    load_words colons (magic ∷ []) = fault
    load_words colons (magic ∷ partition ∷ words) =
        load_named magic partition (read_pairs ((colons - 1) / 2) words)

    -- LoadPartitionContents. A number of colons that is wrong is only reported.
    unfoldable pub load_partition_contents : Bytes → Loaded
    unfolding load_words count_colons
    load_partition_contents filename = load_words (count_colons filename) (tokens is_colon filename)
