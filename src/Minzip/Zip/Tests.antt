-- ===== src/Minzip/Zip/Tests.antt =====
-- The theorems on zip archives at a fixed archive with two stored files.
use cot_bootable_recovery_to.Base.{
  ◌≡◌, refl, inr, Bool, true, false, List, [], ◌∷◌, ◌++◌, some, none, Bytes, codes, starts_with,
  arith,
}
use cot_bootable_recovery_to.Minzip.Zip.Directory.{
  ZipEntry, Parsed, parsed, bad, fault, open_entries, entry_at, compare_names, bail_if,
  parse_archive, touch, get4le, find_end, parse_directory, get2le, parse_entries, parse_entry,
  valid_filename, printable, compatible, and_next, parse_local, insert_entry, find_target,
  insert_at,
}
use cot_bootable_recovery_to.Minzip.Zip.Order.{IsSorted}
use cot_bootable_recovery_to.Minzip.Zip.Path.{
  PathHelper, IsHelper, with_slash, target_entry_path, Targeted, target_entry_path_lem,
}
use cot_bootable_recovery_to.Minzip.Zip.Extract.{
  Host, Flags, is_symlink, under, zip_path, extract_recursive, extract_entries, new_helper,
  extract_entry, or_break, extract_file, after_extract, called_back, touched,
}
use cot_bootable_recovery_to.Minzip.Zip.Contiguous.{
  entries_under, extract_each, extract_recursive-each,
}
use cot_bootable_recovery_to.Base.Strcmp.{strcmp}

-- The files c and a/b, in this order.
abbrev archive : Bytes
archive =
    80 ∷ 75 ∷ 3 ∷ 4 ∷ 20 ∷ 0 ∷ 0 ∷ 0 ∷ 0 ∷ 0 ∷ 0 ∷ 0 ∷ 0 ∷ 0 ∷ 0 ∷ 0 ∷ 0 ∷ 0 ∷ 2 ∷ 0 ∷ 0 ∷ 0 ∷ 2 ∷ 0
    ∷ 0 ∷ 0 ∷ 1 ∷ 0 ∷ 0 ∷ 0 ∷ 99 ∷ 104 ∷ 105 ∷ 80 ∷ 75 ∷ 3 ∷ 4 ∷ 20 ∷ 0 ∷ 0 ∷ 0 ∷ 0 ∷ 0 ∷ 0 ∷ 0 ∷ 0
    ∷ 0 ∷ 0 ∷ 0 ∷ 0 ∷ 0 ∷ 3 ∷ 0 ∷ 0 ∷ 0 ∷ 3 ∷ 0 ∷ 0 ∷ 0 ∷ 3 ∷ 0 ∷ 0 ∷ 0 ∷ 97 ∷ 47 ∷ 98 ∷ 120 ∷ 121
    ∷ 122 ∷ 80 ∷ 75 ∷ 1 ∷ 2 ∷ 20 ∷ 3 ∷ 20 ∷ 0 ∷ 0 ∷ 0 ∷ 0 ∷ 0 ∷ 0 ∷ 0 ∷ 0 ∷ 0 ∷ 0 ∷ 0 ∷ 0 ∷ 0 ∷ 2
    ∷ 0 ∷ 0 ∷ 0 ∷ 2 ∷ 0 ∷ 0 ∷ 0 ∷ 1 ∷ 0 ∷ 0 ∷ 0 ∷ 0 ∷ 0 ∷ 0 ∷ 0 ∷ 0 ∷ 0 ∷ 0 ∷ 0 ∷ 0 ∷ 0 ∷ 0 ∷ 0 ∷ 0
    ∷ 0 ∷ 99 ∷ 80 ∷ 75 ∷ 1 ∷ 2 ∷ 20 ∷ 3 ∷ 20 ∷ 0 ∷ 0 ∷ 0 ∷ 0 ∷ 0 ∷ 0 ∷ 0 ∷ 0 ∷ 0 ∷ 0 ∷ 0 ∷ 0 ∷ 0 ∷ 3
    ∷ 0 ∷ 0 ∷ 0 ∷ 3 ∷ 0 ∷ 0 ∷ 0 ∷ 3 ∷ 0 ∷ 0 ∷ 0 ∷ 0 ∷ 0 ∷ 0 ∷ 0 ∷ 0 ∷ 0 ∷ 0 ∷ 0 ∷ 0 ∷ 0 ∷ 33 ∷ 0 ∷ 0
    ∷ 0 ∷ 97 ∷ 47 ∷ 98 ∷ 80 ∷ 75 ∷ 5 ∷ 6 ∷ 0 ∷ 0 ∷ 0 ∷ 0 ∷ 2 ∷ 0 ∷ 2 ∷ 0 ∷ 96 ∷ 0 ∷ 0 ∷ 0 ∷ 69 ∷ 0
    ∷ 0 ∷ 0 ∷ 0 ∷ 0 ∷ []

names_of : Parsed (List ZipEntry) → List Bytes
names_of (parsed es) = names es
  where
    names : List ZipEntry → List Bytes
    names [] = []
    names (e ∷ es) = e.file_name ∷ names es
names_of bad = []
names_of fault = []

-- The entries stand in the order of their names.
names_of-archive : names_of (open_entries archive) ≡ codes "a/b" ∷ codes "c" ∷ []
unfolding names_of open_entries bail_if parse_archive touch get4le find_end parse_directory get2le
    parse_entries parse_entry valid_filename printable compatible entry_at and_next parse_local
    insert_entry find_target strcmp compare_names insert_at
names_of-archive = refl

-- A use of the path helper after one for another name.
abbrev used_helper : PathHelper
used_helper = record {
  target_dir = codes "/tmp";
  target_dir_len = 5;
  zip_dir_len = 2;
  buf = codes "/tmp/b";
  buf_len = 18;
}

used_helper-IsHelper : IsHelper (codes "/tmp") 2 used_helper
unfolding with_slash
used_helper-IsHelper = record {
  target = refl;
  zip_dir = refl;
  front = inr (refl, refl, omega arith);
}

target_entry_path_lem_example : Targeted (codes "/tmp") 2 used_helper (codes "a/longer")
target_entry_path_lem_example =
    target_entry_path_lem (codes "/tmp") 2 used_helper (codes "a/longer") used_helper-IsHelper
      (omega arith)

-- A host that notes the paths that it is called back with. Extracting the data of a file fails
-- where the flag says so.
abbrev noting : Bool → Host (List Bytes)
noting good = record {
  make_dirs = λ path strip s. (s, true);
  read_entry = λ e size s. (s, none);
  make_link = λ target path s. (s, true);
  creat = λ path s. (s, some 7);
  extract_to_file = λ e fd s. (s, good);
  close = λ fd s. s;
  touch_file = λ path s. (s, true);
  callback = λ path s. s ++ (path ∷ []);
}

abbrev file_named : Bytes → ZipEntry
file_named name = record {
  file_name = name;
  offset = 0;
  comp_len = 0;
  uncomp_len = 0;
  compression = 0;
  mod_time = 0;
  crc32 = 0;
  version_made_by = 0;
  external_attributes = 0;
}

abbrev three_files : List ZipEntry
three_files = file_named (codes "a/b") ∷ file_named (codes "a/c/") ∷ file_named (codes "b") ∷ []

three_files-IsSorted : IsSorted three_files
unfolding strcmp
three_files-IsSorted = (((λ e. cc), ((λ e. cc), tt)), (((λ e. cc), tt), (tt, tt)))

abbrev no_flags : Flags
no_flags = record { dry_run = false; files_only = false }

extract_recursive-each_example :
    extract_recursive (noting true) no_flags three_files (codes "a") (codes "/x") []
    ≡ some (
        extract_each
          (noting true)
          no_flags
          (zip_path (codes "a"))
          (codes "/x")
          (entries_under (zip_path (codes "a")) three_files)
          [])
extract_recursive-each_example =
    extract_recursive-each (noting true) no_flags three_files (codes "a") (codes "/x") []
      three_files-IsSorted (λ e. omega (arith, e)) refl

-- Both entries of the directory are extracted.
three_files-extracted :
    extract_recursive (noting true) no_flags three_files (codes "a") (codes "/x") []
    ≡ some (codes "/x/b" ∷ codes "/x/c/" ∷ [], true)
unfolding extract_recursive extract_entries under zip_path starts_with target_entry_path new_helper
    with_slash extract_entry or_break is_symlink extract_file after_extract called_back touched
three_files-extracted = refl
