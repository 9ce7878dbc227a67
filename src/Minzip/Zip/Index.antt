-- ===== src/Minzip/Zip/Index.antt =====
-- minzip/Zip.c: the hash table of the entries. A pointer to an entry is its place in the array.
use Prim.Native.Nat.{◌^◌, Ordering}
use cot_bootable_recovery_to.Base.{
  ℕ, zero, suc, ◌+◌, ◌*◌, ◌%◌, Bool, true, false, ◌&&◌, List, [], ◌∷◌, Option, none, some, Bytes,
  length, ◌==◌,
}
use cot_bootable_recovery_to.Base.Strcmp.{strcmp}
use cot_bootable_recovery_to.Minzip.Hash.Table.{Table, Looked, lookup, create, hash_size}
use cot_bootable_recovery_to.Minzip.Zip.Directory.{
  ZipEntry, Parsed, parsed, bad, fault, open_entries,
}

-- computeHash, with the hash of the characters in front.
unfoldable pub hash_from : ℕ → Bytes → ℕ
hash_from hash [] = hash
hash_from hash (c ∷ cs) = hash_from ((hash * 31 + c) % 2 ^ 32) cs

unfoldable pub compute_hash : Bytes → ℕ
compute_hash name = hash_from 2 name

-- The test that hashcmpZipEntry and hashcmpZipName give 0: the same length, and memcmp gives 0.
unfoldable pub same_name : Bytes → Bytes → Bool
same_name a b =
    length a == length b
    && (elim (strcmp a b) [ Ordering.eq ↦ true | Ordering.lt ↦ false | Ordering.gt ↦ false ])

unfoldable pub name_at : List ZipEntry → ℕ → Bytes
name_at [] i = []
name_at (e ∷ es) zero = e.file_name
name_at (e ∷ es) (suc i) = name_at es i

abbrev pub compare_entries : List ZipEntry → ℕ → ℕ → Bool
compare_entries es found i = same_name (name_at es found) (name_at es i)

abbrev pub compare_name : List ZipEntry → Bytes → ℕ → ℕ → Bool
compare_name es name found i = same_name (name_at es found) name

-- addEntryToHashTable; `none` where the lookup does not end.
unfoldable pub add_to_table : List ZipEntry → Table → ℕ → Option Table
add_to_table es t i = elim (lookup (compare_entries es) t (compute_hash (name_at es i)) i true) [
  | none ↦ none
  | some (t', found) ↦ some t'
]

-- The loop over the sorted entries: `n` of them, from entry `i` on.
unfoldable pub add_all : List ZipEntry → ℕ → ℕ → Table → Option Table
add_all es zero i t = some t
add_all es (suc n) i t = elim (add_to_table es t i) [
  | none ↦ none
  | some t' ↦ add_all es n (i + 1) t'
]

-- `ZipArchive`: the entries and their hash table.
pub record ZipArchive : Type 0 where
  pub entries : List ZipEntry
  pub hash : Table

-- The hash table is made for the number of entries.
unfoldable pub index_entries : List ZipEntry → Option ZipArchive
index_entries es = elim (add_all es (length es) 0 (create (hash_size (length es)))) [
  | none ↦ none
  | some t ↦ some (record { entries = es; hash = t })
]

-- mzOpenZipArchive. A hash table whose loops do not end is a fault.
unfoldable pub open_zip_archive : Bytes → Parsed ZipArchive
open_zip_archive map = elim (open_entries map) [
  | parsed es ↦ elim (index_entries es) [ none ↦ fault | some a ↦ parsed a ]
  | bad ↦ bad
  | fault ↦ fault
]

-- mzFindZipEntry; the outer option is `none` where the lookup does not end.
unfoldable pub find_zip_entry : ZipArchive → Bytes → Looked
find_zip_entry a name = lookup (compare_name a.entries name) a.hash (compute_hash name) 0 false
