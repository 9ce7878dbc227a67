-- ===== src/Applypatch/Target/Space.antt =====
-- applypatch/freecache.c: how space on /cache is made. The descriptors that EliminateOpenFiles reads below /proc are
-- one answer: the paths that are open.
use cot_bootable_recovery_to.Base.{
  ℕ, Bool, true, false, List, [], ◌∷◌, ◌++◌, Option, none, some, map, Bytes, bytes_eq, codes, leb,
  starts_with, if◌then◌else◌,
}
use cot_bootable_recovery_to.Applypatch.Digest.{cache_temp_source}
use cot_bootable_recovery_to.Applypatch.Target.Calls.{
  Prog, ret, call, ◌>>=◌, statfs, list_dir, list_open, stat_regular, unlink,
}

-- The inner loop of EliminateOpenFiles: a file that is open is taken off.
unfoldable pub take_off : Bytes → List (Option Bytes) → List (Option Bytes)
take_off link [] = []
take_off link (none ∷ files) = none ∷ take_off link files
take_off link (some f ∷ files) = (if bytes_eq f link then none else some f) ∷ take_off link files

unfoldable pub eliminate_open_files : List Bytes → List (Option Bytes) → List (Option Bytes)
unfolding take_off
eliminate_open_files [] files = files
eliminate_open_files (link ∷ links) files =
    eliminate_open_files links
      (if starts_with (codes "/cache/") link then take_off link files else files)

-- The loop over the names in a directory, with the files found.
unfoldable pub regular_files : Bytes → List Bytes → List Bytes → Prog (List Bytes)
regular_files dir [] found = ret found
regular_files dir (name ∷ names) found =
    let path = dir ++ (codes "/" ++ name) in
    if bytes_eq path cache_temp_source
    then regular_files dir names found
    else call (stat_regular path)
        λ regular. regular_files dir names (if regular then found ++ (path ∷ []) else found)

-- The loop over the directories.
unfoldable pub files_in : List Bytes → List Bytes → Prog (List Bytes)
unfolding regular_files ◌>>=◌
files_in [] found = ret found
files_in (dir ∷ dirs) found = call (list_dir dir) λ listed.
    elim listed as (λ _. Prog (List Bytes)) [
      | none ↦ files_in dirs found
      | some names ↦ regular_files dir names found >>= λ found'. files_in dirs found'
    ]

abbrev pub expendable_dirs : List Bytes
expendable_dirs = codes "/cache" ∷ codes "/cache/recovery/otatest" ∷ []

-- The files without those that are open; `none` for -1.
unfoldable pub without_open : List Bytes → Prog (Option (List (Option Bytes)))
unfolding eliminate_open_files
without_open found = call list_open λ links.
    elim links as (λ _. Prog (Option (List (Option Bytes)))) [
      | none ↦ ret none
      | some l ↦ ret (some (eliminate_open_files l (map (λ f. some f) found)))
    ]

-- FindExpendableFiles; `none` for -1.
unfoldable pub find_expendable_files : Prog (Option (List (Option Bytes)))
unfolding files_in without_open ◌>>=◌
find_expendable_files = files_in expendable_dirs [] >>= λ found. without_open found

-- The loop that deletes files, with the free space; whether it is enough at last.
unfoldable pub delete_files : List (Option Bytes) → ℕ → ℕ → Prog Bool
delete_files [] needed free = ret (leb needed free)
delete_files (none ∷ names) needed free =
    if leb needed free then ret true else delete_files names needed free
delete_files (some f ∷ names) needed free =
    if leb needed free
    then ret true
    else call (unlink f)
        λ gone. call (statfs (codes "/cache")) λ free'. delete_files names needed free'

unfoldable pub delete_found : ℕ → ℕ → Option (List (Option Bytes)) → Prog Bool
unfolding delete_files
delete_found needed free none = ret false
delete_found needed free (some []) = ret false
delete_found needed free (some (f ∷ names)) = delete_files (f ∷ names) needed free

-- MakeFreeSpaceOnCache; `true` for 0.
unfoldable pub make_free_space_on_cache : ℕ → Prog Bool
unfolding find_expendable_files delete_found ◌>>=◌
make_free_space_on_cache needed = call (statfs (codes "/cache")) λ free.
    if leb needed free
    then ret true
    else find_expendable_files >>= λ found. delete_found needed free found

-- CacheSizeCheck of applypatch/applypatch.c.
unfoldable pub cache_size_check : ℕ → Prog ℕ
unfolding make_free_space_on_cache ◌>>=◌
cache_size_check bytes = make_free_space_on_cache bytes >>= λ ok. ret (if ok then 0 else 1)
