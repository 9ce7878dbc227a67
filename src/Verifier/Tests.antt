-- ===== src/Verifier/Tests.antt =====
-- The theorems on verify_file at one package, with a toy signature scheme.
use cot_bootable_recovery_to.Base.{
  ℕ, ◌≤◌, ◌<◌, ◌≡◌, ◌≢◌, ◌↔◌, inl, inr, refl, append_assoc, append-nil, List, [], ◌∷◌, ◌++◌, Bytes,
  false, some, get_or, take, replicate, ◌==◌, codes, arith,
}
use cot_bootable_recovery_to.Verifier.Model.{
  Mincrypt, success, fault, out_of_fuel, comment_size, marker_at, marker_from, marker_again,
  last_bytes, verify_file,
}
use cot_bootable_recovery_to.Verifier.Marker.{marker_again_iff}
use cot_bootable_recovery_to.Verifier.Verdict.{
  IsFramed, SomeKey, digest_of, verify_file_iff, verify_file_fault,
}
use cot_bootable_recovery_to.Verifier.Signing.{Package, IsLaidOut, layout, record_of, verify-layout}

-- The digest is the data, and a key verifies the signatures that start with it.
abbrev toy : Mincrypt
toy = record {
  Context = Bytes;
  Digest = Bytes;
  PublicKey = ℕ;
  sha_init = [];
  sha_update = λ c b. c ++ b;
  sha_final = λ c. c;
  rsa_verify = λ key signature sha1. get_or signature 0 0 == key;
  update-append = λ c a b. append_assoc c a b;
  update-nil = λ c. append-nil c;
}

abbrev signed_zip : Package
signed_zip = record {
  content = codes "data";
  header = replicate 16 0;
  filler = [];
  signature = replicate 256 7;
  comment_len = (6, 1);
  start = (6, 1);
  size = (6, 1);
}

abbrev no_marker : marker_again (record_of signed_zip) ≡ false
unfolding marker_again marker_from marker_at
no_marker = refl

abbrev signed_zip-IsLaidOut : IsLaidOut signed_zip
signed_zip-IsLaidOut = record {
  header_size = refl;
  signature_size = refl;
  comment = refl;
  room = omega arith;
  once = (marker_again_iff (record_of signed_zip)).0 no_marker;
}

verify-layout_example : verify_file toy (some (layout signed_zip)) (3 ∷ 7 ∷ []) ≡ success
verify-layout_example =
    verify-layout toy signed_zip signed_zip-IsLaidOut (3 ∷ 7 ∷ []) (inr (inl refl))

verify_file_iff_example : (verify_file toy (some (layout signed_zip)) (3 ∷ 7 ∷ []) ≡ success) ↔ (
    IsFramed (layout signed_zip)
    × (240 ≤ comment_size (layout signed_zip))
    × SomeKey toy
        (3 ∷ 7 ∷ [])
        (take 256 (last_bytes 262 (layout signed_zip)))
        (digest_of toy (layout signed_zip)))
verify_file_iff_example = verify_file_iff toy (3 ∷ 7 ∷ []) (layout signed_zip)

-- A record with a comment of six bytes, the footer alone.
abbrev short_file : Bytes
short_file =
    0x50 ∷ 0x4b ∷ 0x05 ∷ 0x06 ∷ (replicate 16 0 ++ (6 ∷ 0 ∷ 6 ∷ 1 ∷ 0xff ∷ 0xff ∷ 6 ∷ 0 ∷ []))

abbrev keys : List ℕ
keys = 7 ∷ []

verify_file_fault_example :
    (verify_file toy (some short_file) keys ≢ out_of_fuel)
    × ((verify_file toy (some short_file) keys ≡ fault)
        ↔ (IsFramed short_file × (comment_size short_file < 240) × (keys ≢ [])))
verify_file_fault_example = verify_file_fault toy keys short_file
