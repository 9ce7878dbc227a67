-- ===== src/Minzip/Zip/Directory.antt =====
-- minzip/Zip.c: the central directory. The mapped file is a list of bytes, and addresses are offsets
-- into it; sums of addresses and of `long`s do not overflow, as with 64 bits.
use Prim.Native.Nat.{compare, Ordering}
use cot_bootable_recovery_to.Base.{
  ℕ, zero, suc, ◌+◌, ◌-◌, ◌*◌, ◌/◌, ◌%◌, min, Bool, true, false, not, ◌&&◌, ◌||◌, List, [], ◌∷◌,
  Option, none, some, Bytes, length, get_elem?, get_or, take, drop, ltb, leb, ◌==◌, if◌then◌else◌,
}
use cot_bootable_recovery_to.Base.Strcmp.{strcmp}

-- `ZipEntry`.
pub record ZipEntry : Type 0 where
  pub file_name : Bytes
  pub offset : ℕ
  pub comp_len : ℕ
  pub uncomp_len : ℕ
  pub compression : ℕ
  pub mod_time : ℕ
  pub crc32 : ℕ
  pub version_made_by : ℕ
  pub external_attributes : ℕ

-- get2LE and get4LE of Bits.h.
unfoldable pub get2le : Bytes → ℕ → ℕ
get2le map p = get_or map p 0 + get_or map (p + 1) 0 * 0x100

unfoldable pub get4le : Bytes → ℕ → ℕ
get4le map p =
    get_or map p 0
    + get_or map (p + 1) 0 * 0x100
    + get_or map (p + 2) 0 * 0x10000
    + get_or map (p + 3) 0 * 0x1000000

-- Signatures and sizes of headers. `path_max` is PATH_MAX.
abbrev pub censig : ℕ
censig = 0x02014b50

abbrev pub endsig : ℕ
endsig = 0x06054b50

abbrev pub locsig : ℕ
locsig = 0x04034b50

abbrev pub cenhdr : ℕ
cenhdr = 46

abbrev pub endhdr : ℕ
endhdr = 22

abbrev pub lochdr : ℕ
lochdr = 30

abbrev pub path_max : ℕ
path_max = 4096

-- What a step of the parser gives: a value, `goto bail`, or a read outside of the map.
pub data Parsed {ℓ} (A : Type ℓ) : Type ℓ where
  parsed : A → Parsed A
  bad : Parsed A
  fault : Parsed A

-- The reads that follow touch `size` bytes from `p` on.
unfoldable pub touch : {A : Type 0} → Bytes → ℕ → ℕ → Parsed A → Parsed A
touch map p size k = if ltb (length map) (p + size) then fault else k

-- `if (test) goto bail;`
unfoldable pub bail_if : {A : Type 0} → Bool → Parsed A → Parsed A
bail_if test k = if test then bad else k

-- validFilename.
unfoldable pub printable : Bytes → Bool
printable [] = true
printable (c ∷ cs) = if ltb c 32 || leb 127 c then false else printable cs

unfoldable pub valid_filename : Bytes → Bool
valid_filename name = if leb path_max (length name) then false else printable name

-- `(versionMadeBy & 0xff00)` is 0 or CENVEM_UNIX.
unfoldable pub compatible : ℕ → Bool
compatible version = let high = version / 0x100 % 0x100 * 0x100 in high == 0 || high == 0x300

-- The entry of a central header at `ptr`, with its name and the offset of its data.
unfoldable pub entry_at : Bytes → ℕ → Bytes → ℕ → ZipEntry
entry_at map ptr name offset = record {
  file_name = name;
  offset = offset;
  comp_len = get4le map (ptr + 20);
  uncomp_len = get4le map (ptr + 24);
  compression = get2le map (ptr + 10);
  mod_time = get4le map (ptr + 12);
  crc32 = get4le map (ptr + 16);
  version_made_by = get2le map (ptr + 4);
  external_attributes = get4le map (ptr + 38);
}

-- The local header of an entry: the offset of the data, which must lie in the map.
unfoldable pub parse_local : Bytes → ℕ → ZipEntry → Parsed ZipEntry
parse_local map local e =
    let offset = local + lochdr + get2le map (local + 26) + get2le map (local + 28) in
    bail_if (ltb (length map) (local + lochdr)) (
      touch map local lochdr (
        bail_if (not (get4le map local == locsig)) (
          bail_if (ltb (length map) (offset + e.comp_len))
            (parsed (record e { offset = offset })))))

-- The entry with the place of the next header.
unfoldable pub and_next : ℕ → Parsed ZipEntry → Parsed (ZipEntry × ℕ)
and_next next (parsed e) = parsed (e, next)
and_next next bad = bad
and_next next fault = fault

-- One round of the loop over the central directory: the entry, and where the next header stands.
unfoldable pub parse_entry : Bytes → ℕ → Parsed (ZipEntry × ℕ)
parse_entry map ptr =
    let name_len = get2le map (ptr + 28) in
    let name = take name_len (drop (ptr + cenhdr) map) in
    let next = ptr + (cenhdr + name_len + get2le map (ptr + 30) + get2le map (ptr + 32)) in
    let e = entry_at map ptr name 0 in
    bail_if (ltb (length map) (ptr + cenhdr)) (
      touch map ptr cenhdr (
        bail_if (not (get4le map ptr == censig)) (
          bail_if (ltb (length map) (ptr + cenhdr + name_len)) (
            bail_if (not (valid_filename name)) (
              bail_if (not (compatible e.version_made_by))
                (and_next next (parse_local map (get4le map (ptr + 42)) e)))))))

-- strncmp over the shorter length, and the difference of the lengths where it gives 0.
unfoldable pub compare_names : Bytes → Bytes → Ordering
compare_names a b =
    let shorter = min (length a) (length b) in
    elim (strcmp (take shorter a) (take shorter b)) [
      | Ordering.lt ↦ Ordering.lt
      | Ordering.gt ↦ Ordering.gt
      | Ordering.eq ↦ compare (length a) (length b)
    ]

-- The binary search for the place of a name among the entries so far. `high` is the number after
-- the one in the source, so that it is never negative.
unfoldable pub find_target : ℕ → List ZipEntry → Bytes → ℕ → ℕ → Option ℕ
find_target zero es name low high = none
find_target (suc fuel) es name low high =
    let mid = low + (high - 1 - low) / 2 in
    let right = find_target fuel es name (mid + 1) high in
    let left = find_target fuel es name low mid in
    if ltb low high
    then elim (get_elem? es mid) [
      | none ↦ none
      | some e ↦ elim (compare_names e.file_name name) [
        | Ordering.lt ↦ right
        | Ordering.gt ↦ left
        | Ordering.eq ↦ some (mid + 1)
      ]
    ]
    else some high

-- memmove of the entries from the target on, and the entry put there.
unfoldable pub insert_at : ℕ → ZipEntry → List ZipEntry → List ZipEntry
insert_at zero e es = e ∷ es
insert_at (suc i) e [] = e ∷ []
insert_at (suc i) e (e' ∷ es) = e' ∷ insert_at i e es

-- `none` where the model's search has too few rounds.
unfoldable pub insert_entry : ZipEntry → List ZipEntry → Option (List ZipEntry)
insert_entry e es = elim (find_target (suc (length es)) es e.file_name 0 (length es)) [
  | none ↦ none
  | some i ↦ some (insert_at i e es)
]

-- The loop over `num_entries` headers, with the entries so far.
unfoldable pub parse_entries : ℕ → Bytes → ℕ → List ZipEntry → Parsed (List ZipEntry)
parse_entries zero map ptr es = parsed es
parse_entries (suc n) map ptr es = elim (parse_entry map ptr) [
  | parsed (e, next) ↦ elim (insert_entry e es) [
    | some es' ↦ parse_entries n map next es'
    | none ↦ fault
  ]
  | bad ↦ bad
  | fault ↦ fault
]

-- The backward search for the end-of-central-directory record, from the byte in front of `p` on.
unfoldable pub find_end : ℕ → Bytes → Option ℕ
find_end zero map = none
find_end (suc p) map =
    let before = find_end p map in
    if get_or map p 0 == 0x50 && get4le map p == endsig then some p else before

-- The record's number of entries and offset of the directory.
unfoldable pub parse_directory : Bytes → ℕ → Parsed (List ZipEntry)
parse_directory map ptr =
    let num_entries = get2le map (ptr + 8) in
    let cd_offset = get4le map (ptr + 16) in
    let entries = parse_entries num_entries map cd_offset [] in
    touch map ptr 20 (bail_if (num_entries == 0 || leb (length map) cd_offset) entries)

-- parseZipArchive, up to the hash table.
unfoldable pub parse_archive : Bytes → Parsed (List ZipEntry)
parse_archive map =
    let found : Parsed (List ZipEntry) = elim (find_end (length map - endhdr + 1) map) [
      | none ↦ bad
      | some ptr ↦ parse_directory map ptr
    ] in
    touch map 0 4 (bail_if (get4le map 0 == endsig) (bail_if (not (get4le map 0 == locsig)) found))

-- mzOpenZipArchive tests the size of the file first.
unfoldable pub open_entries : Bytes → Parsed (List ZipEntry)
open_entries map = bail_if (ltb (length map) endhdr) (parse_archive map)
