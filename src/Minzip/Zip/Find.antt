-- ===== src/Minzip/Zip/Find.antt =====
-- minzip/Zip.c: mzFindZipEntry after mzOpenZipArchive.
use cot_bootable_recovery_to.Base.{
  ℕ, ◌<◌, ◌≡◌, ◌≢◌, Bool, true, ◌&&◌, List, [], ◌∷◌, Option, none, some, Bytes, length, ltb,
}
use cot_bootable_recovery_to.Minzip.Hash.Table.{Table}
use cot_bootable_recovery_to.Minzip.Hash.Place.{Holds}
use cot_bootable_recovery_to.Minzip.Hash.Valid.{IsValid}
use cot_bootable_recovery_to.Minzip.Zip.Directory.{ZipEntry}
use cot_bootable_recovery_to.Minzip.Zip.Open.{IsOpened}
use cot_bootable_recovery_to.Minzip.Zip.Index.{compute_hash, name_at, ZipArchive, find_zip_entry}

-- The table holds the first entry of each name among the first `n`.
pub record IsIndex (es : List ZipEntry) (n : ℕ) (t : Table) : Type 0 where
  pub valid : IsValid t
  pub held :
      (h d : ℕ)
      → Holds t.slots h d
      → (h ≡ compute_hash (name_at es d))
        × (d < n)
        × ((j : ℕ) → j < d → name_at es j ≢ name_at es d)
  pub all :
      (j : ℕ)
      → j < n
      → (d : ℕ) × Holds t.slots (compute_hash (name_at es j)) d × (name_at es d ≡ name_at es j)

-- What mzFindZipEntry gives for a name: the first entry that has it, or NULL if none has it.
pub data Finds (es : List ZipEntry) (t : Table) (name : Bytes)
    : Option (Table × Option ℕ) → Type 0 where
  is_found :
      (d : ℕ)
      → d < length es
      → name_at es d ≡ name
      → ((j : ℕ) → j < d → name_at es j ≢ name)
      → Finds es t name (some (t, some d))
  is_absent : ((j : ℕ) → j < length es → name_at es j ≢ name) → Finds es t name (some (t, none))

-- Whether all numbers are bytes.
abbrev pub are_bytes : Bytes → Bool
are_bytes [] = true
are_bytes (c ∷ cs) = ltb c 256 && are_bytes cs

-- What opening gives: the entries of the directory, and a hash table that finds them.
pub record IsArchive (map : Bytes) (a : ZipArchive) : Type 0 where
  pub opened : IsOpened map a.entries
  pub finds : (name : Bytes) → Finds a.entries a.hash name (find_zip_entry a name)
