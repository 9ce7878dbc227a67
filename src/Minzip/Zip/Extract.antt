-- ===== src/Minzip/Zip/Extract.antt =====
-- minzip/Zip.c: mzExtractRecursive. Allocations are taken to succeed.
use cot_bootable_recovery_to.Base.{
  ℕ, ◌-◌, ◌/◌, ◌%◌, Bool, true, false, not, ◌&&◌, List, [], ◌∷◌, ◌++◌, Option, none, some, Bytes,
  length, get_or, ltb, ◌==◌, if◌then◌else◌, starts_with,
}
use cot_bootable_recovery_to.Minzip.Zip.Directory.{ZipEntry}
use cot_bootable_recovery_to.Minzip.Zip.Path.{PathHelper, target_entry_path}

-- mzIsZipEntrySymlink: the file system is CENVEM_UNIX, and S_ISLNK of the mode.
unfoldable pub is_symlink : ZipEntry → Bool
is_symlink e =
    let mode = e.external_attributes / 0x10000 in
    if e.version_made_by / 0x100 % 0x100 == 3 then mode / 0x1000 % 0x10 == 0xa else false

-- The calls of mzExtractRecursive on a state `S`, with the timestamp and the labels they are given.
-- The Boolean results say whether a call succeeded. The callback does nothing where it is NULL, and
-- touching nothing succeeds where no timestamp is given.
pub record Host (S : Type 0) : Type 0 where
  pub make_dirs : Bytes → Bool → S → S × Bool
  pub read_entry : ZipEntry → ℕ → S → S × Option Bytes
  pub make_link : Bytes → Bytes → S → S × Bool
  pub creat : Bytes → S → S × Option ℕ
  pub extract_to_file : ZipEntry → ℕ → S → S × Bool
  pub close : ℕ → S → S
  pub touch_file : Bytes → S → S × Bool
  pub callback : Bytes → S → S

-- The flags MZ_EXTRACT_DRY_RUN and MZ_EXTRACT_FILES_ONLY.
pub record Flags : Type 0 where
  pub dry_run : Bool
  pub files_only : Bool

-- How the handling of an entry ends: with the next entry, or by `break` with a value of `ok`.
pub data Step (S : Type 0) : Type 0 where
  goes_on : S → Step S
  breaks : S → Bool → Step S

-- The entry's name begins with the directory.
unfoldable pub under : Bytes → ZipEntry → Bool
under zpath e =
    if ltb (length e.file_name) (length zpath) then false else starts_with zpath e.file_name

-- The path in the archive ends in a slash unless it is empty.
unfoldable pub zip_path : Bytes → Bytes
zip_path zip_dir =
    if length zip_dir == 0
    then []
    else (if get_or zip_dir (length zip_dir - 1) 0 == 47 then zip_dir else zip_dir ++ (47 ∷ []))

unfoldable pub new_helper : Bytes → Bytes → PathHelper
new_helper target_dir zpath = record {
  target_dir = target_dir;
  target_dir_len = length target_dir;
  zip_dir_len = length zpath;
  buf = [];
  buf_len = 0;
}

module _ {S : Type 0} (h : Host S) where
  -- `if (!test) { ok = false; break; }`
  unfoldable pub or_break : S × Bool → (S → Step S) → Step S
  or_break (s, true) k = k s
  or_break (s, false) k = breaks s false

  unfoldable pub called_back : Bytes → S → Step S
  called_back path s = goes_on (h.callback path s)

  unfoldable pub extract_symlink : ZipEntry → Bytes → S → Step S
  extract_symlink e path s =
      if e.uncomp_len == 0
      then breaks s false
      else (let (s1, contents) = h.read_entry e e.uncomp_len s in
          elim contents [
            | none ↦ breaks s1 false
            | some target ↦ or_break (h.make_link target path s1) (called_back path)
          ])

  -- utime in the branch of regular files, where an inner variable `ok` hides the outer one.
  unfoldable pub touched : Bytes → S × Bool → Step S
  touched path (s, true) = called_back path s
  touched path (s, false) = breaks s true

  -- The inner variable `ok` hides the outer one, which stays true when the extraction
  -- fails.
  unfoldable pub after_extract : Bytes → S × Bool → Step S
  after_extract path (s, true) = touched path (h.touch_file path s)
  after_extract path (s, false) = breaks s true

  unfoldable pub extract_file : ZipEntry → Bytes → S → Step S
  extract_file e path s =
      let (s1, opened) = h.creat path s in
      elim opened [
        | none ↦ breaks s1 false
        | some fd ↦
            let (s2, ok) = h.extract_to_file e fd s1 in after_extract path (h.close fd s2, ok)
      ]

  -- One entry that begins with the directory. For an entry without a name the source tests the
  -- byte in front of the name, which is no slash here.
  unfoldable pub extract_entry : Flags → ZipEntry → Bytes → S → Step S
  extract_entry flags e path s =
      let name = e.file_name in
      let link = extract_symlink e path in
      let file = extract_file e path in
      if flags.dry_run
      then called_back path s
      else (if get_or name (length name - 1) 0 == 47
          then (if flags.files_only
              then called_back path s
              else or_break (h.make_dirs path false s) (called_back path))
          else or_break (h.make_dirs path true s)
              (λ s1. if not flags.files_only && is_symlink e then link s1 else file s1))

  -- The loop over the entries; `none` where targetEntryPath writes past its buffer.
  unfoldable pub extract_entries :
      Flags → Bytes → List ZipEntry → PathHelper → Bool → S → Option (S × Bool)
  extract_entries flags zpath [] helper seen s = some (s, true)
  extract_entries flags zpath (e ∷ es) helper seen s =
      let skip = extract_entries flags zpath es helper seen s in
      if not (under zpath e)
      then (if seen then some (s, true) else skip)
      else elim (target_entry_path helper e.file_name) [
        | none ↦ none
        | some (helper', path) ↦ elim (extract_entry flags e path s) [
          | goes_on s1 ↦ extract_entries flags zpath es helper' true s1
          | breaks s1 ok ↦ some (s1, ok)
        ]
      ]

  -- mzExtractRecursive. The strings are tested at index 0, where an empty one has its NUL.
  unfoldable pub extract_recursive : Flags → List ZipEntry → Bytes → Bytes → S → Option (S × Bool)
  extract_recursive flags es zip_dir target_dir s =
      let zpath = zip_path zip_dir in
      let run = extract_entries flags zpath es (new_helper target_dir zpath) false s in
      if get_or zip_dir 0 0 == 47
      then some (s, false)
      else (if get_or target_dir 0 0 == 47 then run else some (s, false))
