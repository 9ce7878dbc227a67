-- ===== src/Applypatch/Tests.antt =====
-- The theorems on patches at a fixed patch, with a compression that changes nothing.
use cot_bootable_recovery_to.Base.{
  ℕ, zero, suc, true, Option, some, none, replicate, bytes_eq, if◌then◌else◌, ◌<◌, ◌^◌, ◌≡◌, ◌≢◌,
  refl, List, [], ◌∷◌, ◌++◌, Bytes, codes, length, drop, arith,
}
use cot_bootable_recovery_to.Base.Int.{pos, negsuc, add_ℤ}
use cot_bootable_recovery_to.Applypatch.Offsets.{
  offtin, offtout, offset_bytes, magnitude, offtin-offtout,
}
use cot_bootable_recovery_to.Applypatch.Model.{Stream, patched, endless, apply_patch}
use cot_bootable_recovery_to.Applypatch.Bounds.{IsWhole, apply_patch_lem}
use cot_bootable_recovery_to.Applypatch.Words.{read4, read8, write4, write8, read-write}
use cot_bootable_recovery_to.Applypatch.Digest.{
  hex_digit, parse_pairs, at_end, parse_sha1, matches_digest, find_matching_patch, FileContents,
  applypatch_check, applypatch, refused,
}
use cot_bootable_recovery_to.Applypatch.Choice.{AreBytes, hex_text}
use cot_bootable_recovery_to.Applypatch.Resume.{Chosen, target_of, applypatch-Chosen}
use cot_bootable_recovery_to.Applypatch.Checked.{applypatch-applypatch_check}
use cot_bootable_recovery_to.Applypatch.Layout.{
  Control, AreControls, whole, streams_of, described, patch_of, apply_patch-patch_of,
}

-- The first two bytes are kept, two are put in, and the last two kept, the last one raised by 1.
abbrev controls : List Control
controls =
    record { added = 0 ∷ 0 ∷ []; inserted = codes "xy"; seek = pos 2 }
    ∷ record { added = 0 ∷ 1 ∷ []; inserted = []; seek = negsuc 0 }
    ∷ []

abbrev same : Bytes → Bytes
same b = b

-- The data come out whole.
abbrev unpack : Bytes → Stream
unpack b = whole b

controls-described : described (codes "abcdef") (pos 0) controls ≡ codes "abxyeg"
unfolding add_ℤ
controls-described = refl

abbrev controls-AreControls : AreControls controls
controls-AreControls = (
  record { few_added = omega arith; few_inserted = omega arith; near = omega arith },
  (record { few_added = omega arith; few_inserted = omega arith; near = omega arith }, tt),
)

control_size : length (streams_of controls).control < 2 ^ 63
unfolding offtout offset_bytes
control_size = omega arith

described_size : length (described (codes "abcdef") (pos 0) controls) < 2 ^ 63
described_size = omega arith

offtin-offtout_example : offtin (offtout (negsuc 299) ++ codes "z") ≡ negsuc 299
offtin-offtout_example = offtin-offtout (negsuc 299) (codes "z") (omega arith)

controls-IsWhole : IsWhole unpack (patch_of same (codes "abcdef") controls)
unfolding offtin offtout offset_bytes magnitude
controls-IsWhole = (refl, refl, refl)

apply_patch_lem_example :
    (apply_patch unpack (codes "abcdef") (patch_of same (codes "abcdef") controls) ≢ endless)
    × ((new : Bytes)
        → apply_patch unpack (codes "abcdef") (patch_of same (codes "abcdef") controls)
          ≡ patched new
        → offtin (drop 24 (patch_of same (codes "abcdef") controls)) ≡ pos (length new))
apply_patch_lem_example =
    apply_patch_lem unpack (codes "abcdef") (patch_of same (codes "abcdef") controls)
      controls-IsWhole

apply_patch-patch_of_example :
    apply_patch unpack (codes "abcdef") (patch_of same (codes "abcdef") controls)
    ≡ patched (described (codes "abcdef") (pos 0) controls)
apply_patch-patch_of_example =
    apply_patch-patch_of unpack same (codes "abcdef") controls (λ b. refl) controls-AreControls
      control_size (omega arith) described_size

read-write_example :
    (read4 (write4 (negsuc 299) ++ codes "z") ≡ negsuc 299)
    × (read8 (write8 (pos 70000) ++ codes "z") ≡ pos 70000)
read-write_example = read-write (negsuc 299) (pos 70000) (codes "z") (omega arith) (omega arith)

-- Twenty bytes 0xab.
abbrev digest : Bytes
digest = replicate 20 171

digest-AreBytes : (n : ℕ) → AreBytes (replicate n 171)
digest-AreBytes zero = tt
digest-AreBytes (suc n) = (omega arith, digest-AreBytes n)

-- The digest in upper case stands behind something that is none.
abbrev two_digests : List Bytes
two_digests = codes "abc" ∷ codes "ABABABABABABABABABABABABABABABABABABABAB" ∷ []

second_found : find_matching_patch digest two_digests ≡ some 1
unfolding find_matching_patch matches_digest parse_sha1 parse_pairs hex_digit at_end bytes_eq
second_found = refl

-- Only the source can be loaded, and it has the digest.
abbrev loads_source : Bytes → Option FileContents
loads_source name =
    if bytes_eq name (codes "/s") then some (record { sha1 = digest; bytes = [] }) else none

applypatch-Chosen_example :
    Chosen loads_source two_digests
      (codes "/s")
      (target_of (codes "/s") (codes "/t"))
      (parse_sha1 (hex_text (replicate 20 0)))
      (applypatch loads_source (codes "/s") (codes "/t") (hex_text (replicate 20 0)) two_digests)
applypatch-Chosen_example =
    applypatch-Chosen loads_source two_digests (codes "/s") (codes "/t") (hex_text (replicate 20 0))

zeros_parsed : parse_sha1 (hex_text (replicate 20 0)) ≡ some (replicate 20 0)
unfolding parse_sha1 parse_pairs hex_digit at_end
zeros_parsed = refl

source_checked : applypatch_check loads_source (codes "/s") two_digests ≡ true
unfolding applypatch_check bytes_eq find_matching_patch matches_digest parse_sha1 parse_pairs
    hex_digit at_end
source_checked = refl

applypatch-applypatch_check_example :
    applypatch loads_source (codes "/s") (codes "-") (hex_text (replicate 20 0)) two_digests
    ≢ refused
applypatch-applypatch_check_example =
    applypatch-applypatch_check loads_source (codes "/s") (codes "-") (hex_text (replicate 20 0))
      (replicate 20 0) (codes "abc") (codes "ABABABABABABABABABABABABABABABABABABABAB" ∷ [])
      zeros_parsed source_checked
