-- ===== src/Applypatch/Target/Tests.antt =====
-- The theorems on GenerateTarget at a disk of three files, with system calls that succeed.
use cot_bootable_recovery_to.Base.{
  ℕ, zero, suc, ◌≡◌, ◌≢◌, ◌∙◌, ◌≤◌, inl, refl, sym, ap, Bool, true, false, List, [], ◌∷◌, ◌++◌,
  Option, none, some, Bytes, bytes_eq, codes, get_or, get_elem?, length, take, replicate,
  starts_with, if◌then◌else◌, arith,
}
use cot_bootable_recovery_to.Base.Int.{pos}
use cot_bootable_recovery_to.Applypatch.Digest.{
  FileContents, cache_temp_source, parse_sha1, parse_pairs, at_end, hex_digit, find_matching_patch,
  matches_digest, refused, from_source, applypatch, choose_source,
}
use cot_bootable_recovery_to.Applypatch.Layout.{whole, patch_of}
use cot_bootable_recovery_to.Minelf.Retouch.{is_retouched, retouch_mask_data}
use cot_bootable_recovery_to.Applypatch.Target.Calls
use cot_bootable_recovery_to.Applypatch.Target.Calls.{
  Disk, Call, Answer, Effect, Prog, ret, Reach, here, run, put, store, written,
}
use cot_bootable_recovery_to.Applypatch.Target.Runs.{Obeys, Reach-run}
use cot_bootable_recovery_to.Applypatch.Target.Image.{DeflateParameters, apply_image_patch}
use cot_bootable_recovery_to.Applypatch.Target.Sinks.{Output, to_memory, applied}
use cot_bootable_recovery_to.Applypatch.Target.Space.{make_free_space_on_cache, cache_size_check}
use cot_bootable_recovery_to.Applypatch.Target.Spared.{make_free_space-Reach}
use cot_bootable_recovery_to.Applypatch.Target.Generate.{
  Patch, source_file, copy_file, Request, Result, returned, is_partition, generate_target,
}
use cot_bootable_recovery_to.Applypatch.Target.Replace.{IsNoImage, IsDone, patch_name-ne}
use cot_bootable_recovery_to.Applypatch.Target.Chunks.{apply_image_patch-InMemory}
use cot_bootable_recovery_to.Applypatch.Target.Load.{load_file_contents}
use cot_bootable_recovery_to.Applypatch.Words.{read4, signed, word4}
use cot_bootable_recovery_to.Applypatch.Offsets.{offtout, offset_bytes, offtin, magnitude}
use cot_bootable_recovery_to.Applypatch.Model.{
  apply_patch, apply_streams, add_old, patch_loop, fill_buffer, read_part,
}
use cot_bootable_recovery_to.Applypatch.Target.Safe.{
  Recoverable, generate_target-Recoverable, generate_target-copy,
}
use cot_bootable_recovery_to.Applypatch.Target.Lost.{WholeOrEmpty, generate_target-Lost}
use cot_bootable_recovery_to.Applypatch.Target.Whole.{
  Arguments, choice_on, applypatch_on, go_on, with_patch,
}
use cot_bootable_recovery_to.Applypatch.Target.Resumed.{
  IsPlain, IsUntagged, IsWanted, applypatch-resumed,
}

-- Each call succeeds, if it can. The free space is too little for a new file beside the source.
move : Bytes → Bytes → Disk → Option Bytes → Bool × Disk
move old new d none = (false, d)
move old new d (some content) = (true, store (store d new (some content)) old none)

kernel : (c : Call) → Disk → Answer c × Disk
unfolding move
kernel (Calls.statfs path) d = (100000, d)
kernel (Calls.open_new path) d = (true, store d path (some []))
kernel (Calls.write path none) d = (none, d)
kernel (Calls.write path (some bytes)) d =
    (some (length bytes), written d path (take (length bytes) bytes))
kernel (Calls.unlink path) d = (true, store d path none)
kernel (Calls.rename old new) d = move old new d (d.files old)
kernel (Calls.stat_regular path) d = (true, d)
kernel (Calls.close path) d = (true, d)
kernel (Calls.chmod path) d = (true, d)
kernel (Calls.chown path) d = (true, d)
kernel (Calls.list_dir path) d = (some (codes "log" ∷ codes "saved.file" ∷ []), d)
kernel Calls.list_open d = (some [], d)
kernel (Calls.malloc size) d = (true, d)
kernel (Calls.mtd_find name) d = (true, d)
kernel (Calls.mtd_open name) d = (true, d)
kernel (Calls.mtd_write name bytes) d = (length bytes, record d { flash = put d.flash name bytes })
kernel (Calls.mtd_erase name) d = (true, record d { flash = put d.flash name [] })
kernel (Calls.mtd_close name) d = (true, record d { flash = put d.flash name [] })

move-Effect :
    (old new : Bytes) (d : Disk) (o : Option Bytes)
    → d.files old ≡ o
    → Effect (Calls.rename old new) d (move old new d o).0 (move old new d o).1
unfolding move
move-Effect old new d none e = refl
move-Effect old new d (some content) e = (content, e, refl)

kernel-Obeys : Obeys kernel
unfolding kernel
kernel-Obeys (Calls.statfs path) d = refl
kernel-Obeys (Calls.open_new path) d = refl
kernel-Obeys (Calls.write path none) d = refl
kernel-Obeys (Calls.write path (some bytes)) d = (omega arith, refl)
kernel-Obeys (Calls.unlink path) d = refl
kernel-Obeys (Calls.rename old new) d = move-Effect old new d (d.files old) refl
kernel-Obeys (Calls.stat_regular path) d = refl
kernel-Obeys (Calls.close path) d = refl
kernel-Obeys (Calls.chmod path) d = refl
kernel-Obeys (Calls.chown path) d = refl
kernel-Obeys (Calls.list_dir path) d = refl
kernel-Obeys Calls.list_open d = refl
kernel-Obeys (Calls.malloc size) d = refl
kernel-Obeys (Calls.mtd_find name) d = refl
kernel-Obeys (Calls.mtd_open name) d = refl
kernel-Obeys (Calls.mtd_write name bytes) d = (bytes, refl)
kernel-Obeys (Calls.mtd_erase name) d = ([], refl)
kernel-Obeys (Calls.mtd_close name) d = ([], refl)

abbrev same : Bytes → Bytes
same b = b

abbrev inflate_all : ℕ → Bytes → Option Bytes
inflate_all room bytes = some bytes

abbrev deflate_all : DeflateParameters → ℕ → Bytes → List Bytes
deflate_all parameters room bytes = bytes ∷ []

abbrev source_name : Bytes
source_name = codes "/system/a"

abbrev old_text : Bytes
old_text = codes "old"

abbrev new_text : Bytes
new_text = codes "new"

-- A digest that tells three sorts of data apart.
sha : Bytes → Bytes
sha b =
    if bytes_eq b new_text
    then replicate 20 153
    else if bytes_eq b old_text
    then replicate 20 17
    else replicate 20 0

abbrev goal : Bytes
goal = replicate 20 153

abbrev old_file : FileContents
old_file = record { sha1 = replicate 20 17; bytes = old_text }

-- The source, the copy of it, and a third file.
abbrev disk : Disk
disk = record {
  files = λ p.
      if bytes_eq p source_name
      then some old_text
      else if bytes_eq p cache_temp_source
      then some old_text
      else none;
  flash = λ p. [];
}

abbrev patch : Patch
patch = record {
  is_blob = true;
  bytes = patch_of same old_text (record { added = []; inserted = new_text; seek = pos 0 } ∷ []);
}

abbrev request : Request
request = record {
  source_filename = source_name;
  target_filename = source_name;
  target_sha1 = goal;
  target_size = 3;
}

abbrev whole_program : Prog Result
whole_program =
    generate_target whole inflate_all deflate_all sha request (source_file old_file) patch none

-- The run of the model replaces the target.
whole_run :
    ((run kernel whole_program disk).0 ≡ returned 0)
    × ((run kernel whole_program disk).1.files source_name ≡ some new_text)
unfolding run kernel sha generate_target store written starts_with offtout offset_bytes bytes_eq
    apply_patch apply_streams offtin add_old magnitude patch_loop fill_buffer read_part
whole_run = (refl, refl)

abbrev after : Disk
after = (run kernel whole_program disk).1

plain_source : is_partition source_name ≡ false
unfolding is_partition starts_with
plain_source = refl

no_cache : cache_temp_source ≢ source_name
no_cache e = let t = ap (λ (x : Bytes). get_or x 1 0) e in absurd (omega (arith, t))

source_outside : starts_with (codes "/cache/") source_name ≡ false
unfolding starts_with
source_outside = refl

bsdiff : IsNoImage patch
unfolding bytes_eq
bsdiff = refl

source_there : disk.files source_name ≡ some old_text
unfolding bytes_eq
source_there = refl

copy_there : disk.files cache_temp_source ≡ some old_text
unfolding bytes_eq
copy_there = refl

generate_target-Recoverable_example :
    Recoverable sha request (some old_text) old_text after
    × (ret (run kernel whole_program disk).0 ≡ ret (returned 0) → IsDone sha request after)
generate_target-Recoverable_example =
    generate_target-Recoverable whole inflate_all deflate_all sha request plain_source no_cache
      patch none bsdiff old_file old_text source_outside (patch_name-ne source_name) disk
      (ret (run kernel whole_program disk).0) after source_there
      (Reach-run kernel whole_program disk whole_program disk kernel-Obeys here)

abbrev from_saved : Prog Result
from_saved =
    generate_target whole inflate_all deflate_all sha request (copy_file 3 old_file) patch none

generate_target-copy_example :
    Recoverable sha request none old_text (run kernel from_saved disk).1
    × (ret (run kernel from_saved disk).0 ≡ ret (returned 0)
        → IsDone sha request (run kernel from_saved disk).1)
generate_target-copy_example =
    generate_target-copy whole inflate_all deflate_all sha request plain_source no_cache patch none
      bsdiff 3 old_file disk (ret (run kernel from_saved disk).0) (run kernel from_saved disk).1
      copy_there (Reach-run kernel from_saved disk from_saved disk kernel-Obeys here)

abbrev boot : Request
boot = record {
  source_filename = codes "EMMC:/dev/boot:3:11";
  target_filename = codes "EMMC:/dev/boot:3:11";
  target_sha1 = goal;
  target_size = 3;
}

boot_partition : is_partition boot.target_filename ≡ true
unfolding is_partition starts_with
boot_partition = refl

abbrev from_lost : Prog Result
from_lost = generate_target whole inflate_all deflate_all sha boot (copy_file 3 old_file) patch none

-- The copy is empty afterwards.
lost_run :
    ((run kernel from_lost disk).0 ≡ returned 1)
    × ((run kernel from_lost disk).1.files cache_temp_source ≡ some [])
unfolding run kernel generate_target store starts_with bytes_eq
lost_run = (refl, refl)

generate_target-Lost_example :
    WholeOrEmpty old_text (run kernel from_lost disk).1
    × ((x : Result) → ret (run kernel from_lost disk).0 ≡ ret x → x ≡ returned 1)
generate_target-Lost_example =
    generate_target-Lost whole inflate_all deflate_all sha boot boot_partition old_file 2 patch none
      disk (ret (run kernel from_lost disk).0) (run kernel from_lost disk).1 copy_there
      (Reach-run kernel from_lost disk from_lost disk kernel-Obeys here)

make_free_space-Reach_example :
    (run kernel (make_free_space_on_cache 200000) disk).1.files cache_temp_source
    ≡ disk.files cache_temp_source
make_free_space-Reach_example =
    make_free_space-Reach 200000 cache_temp_source disk
      (ret (run kernel (make_free_space_on_cache 200000) disk).0)
      (run kernel (make_free_space_on_cache 200000) disk).1
      (Reach-run kernel (make_free_space_on_cache 200000) disk (make_free_space_on_cache 200000)
        disk kernel-Obeys here)
      (inl refl)

-- 100000 bytes are free, whatever is deleted.
cache_checked :
    ((run kernel (cache_size_check 3) disk).0 ≡ 0)
    × ((run kernel (cache_size_check 200000) disk).0 ≡ 1)
unfolding run kernel cache_size_check bytes_eq starts_with
cache_checked = (refl, refl)

-- A chunk of two bytes as they are.
abbrev image : Bytes
image = codes "IMGDIFF2" ++ (1 ∷ 0 ∷ 0 ∷ 0 ∷ 3 ∷ 0 ∷ 0 ∷ 0 ∷ 2 ∷ 0 ∷ 0 ∷ 0 ∷ codes "ab")

abbrev image_output : Output
image_output = record { token = to_memory (codes "ab") 5; hashed = codes "ab" }

image_applied :
    Reach
      (apply_image_patch whole inflate_all deflate_all old_text image none
        (record { token = to_memory [] 5; hashed = [] }))
      disk
      (ret (applied image_output))
      disk
unfolding apply_image_patch bytes_eq read4 signed word4
image_applied = here

apply_image_patch-InMemory_example : (to_memory (codes "ab") 5 ≡ to_memory (codes "ab") 5) × (2 ≤ 5)
apply_image_patch-InMemory_example =
    apply_image_patch-InMemory 5 whole inflate_all deflate_all old_text image none disk image_output
      disk image_applied

abbrev arguments : Arguments
arguments = record {
  source_filename = source_name;
  target_filename = codes "-";
  target_sha1_str = codes "9999999999999999999999999999999999999999";
  target_size = 3;
  patch_sha1_str = codes "1111111111111111111111111111111111111111" ∷ [];
  patch_data = patch ∷ [];
  bonus_data = none;
  stale = 0;
}

goal_parsed : parse_sha1 arguments.target_sha1_str ≡ some goal
unfolding parse_sha1 parse_pairs at_end hex_digit
goal_parsed = refl

chosen : choice_on whole inflate_all deflate_all sha arguments disk ≡ from_source old_file 0
unfolding choice_on load_file_contents retouch_mask_data sha bytes_eq applypatch parse_sha1
    parse_pairs at_end hex_digit choose_source find_matching_patch matches_digest
chosen = refl

only : (p b : Bytes) → disk.files p ≡ some old_text → disk.files p ≡ some b → is_retouched b ≡ false
unfolding is_retouched
only p b there e = let same : b ≡ old_text = cc in rw same refl

arguments-IsPlain : IsPlain whole inflate_all deflate_all sha arguments goal disk
unfolding bytes_eq
arguments-IsPlain = record {
  source_is_file = plain_source;
  target_is_file = plain_source;
  copy_is_no_target = no_cache;
  source_outside = source_outside;
  output_is_no_source = patch_name-ne source_name;
  no_images = λ i p e. no_image i p e;
  source_untagged = λ b e. only source_name b source_there e;
  copy_untagged = λ b e. only cache_temp_source b copy_there e;
}
  where
    no_image : (i : ℕ) (p : Patch) → get_elem? (patch ∷ []) i ≡ some p → IsNoImage p
    no_image zero p e = let same : patch ≡ p = cc in rw (← same) bsdiff
    no_image (suc i) p e = cc

abbrev first_run : Prog Result
first_run = applypatch_on whole inflate_all deflate_all sha arguments disk

source_not_refused : choice_on whole inflate_all deflate_all sha arguments disk ≢ refused
source_not_refused e = let q : from_source old_file 0 ≡ refused = sym chosen ∙ e in cc

-- The run leaves the new data in the target.
replaced : (run kernel first_run disk).1.files source_name ≡ some new_text
unfolding run kernel sha generate_target store written starts_with offtout offset_bytes bytes_eq
    apply_patch apply_streams offtin add_old magnitude patch_loop fill_buffer read_part
    applypatch_on go_on with_patch choice_on load_file_contents retouch_mask_data applypatch
    parse_sha1 parse_pairs at_end hex_digit choose_source find_matching_patch matches_digest
replaced = refl

target-IsUntagged : IsUntagged arguments (run kernel first_run disk).1
unfolding is_retouched run bytes_eq
target-IsUntagged b e =
    let same : some new_text ≡ some b = sym replaced ∙ e in
    let same_text : b ≡ new_text = cc in rw same_text refl

applypatch-resumed_example :
    (choice_on whole inflate_all deflate_all sha arguments disk ≢ refused
      → choice_on whole inflate_all deflate_all sha arguments (run kernel first_run disk).1
        ≢ refused)
    × (ret (run kernel first_run disk).0 ≡ ret (returned 0)
        → IsWanted sha arguments goal (run kernel first_run disk).1)
applypatch-resumed_example =
    applypatch-resumed whole inflate_all deflate_all sha arguments goal goal_parsed disk
      (ret (run kernel first_run disk).0) (run kernel first_run disk).1 arguments-IsPlain
      target-IsUntagged (Reach-run kernel first_run disk first_run disk kernel-Obeys here)
