-- ===== src/Verifier/Model.antt =====
-- verifier.c, verify_file: a package is its bytes, `none` if it cannot be opened. Of the reads only
-- those past the end of the file fail.
use cot_bootable_recovery_to.Base.{
  ℕ, zero, suc, ◌+◌, ◌-◌, ◌*◌, ◌≡◌, min, Bool, false, not, ◌&&◌, ◌||◌, Option, none, some, List, [],
  ◌∷◌, ◌++◌, Bytes, length, get_or, take, drop, ltb, ◌==◌, if◌then◌else◌,
}

-- The mincrypt library: SHA-1 over a context, and the check of an RSA signature of a digest.
pub record Mincrypt : Type 1 where
  pub Context : Type 0
  pub Digest : Type 0
  pub PublicKey : Type 0
  pub sha_init : Context
  pub sha_update : Context → Bytes → Context
  pub sha_final : Context → Digest
  pub rsa_verify : PublicKey → Bytes → Digest → Bool
  -- Data may be passed to SHA_update in pieces, and no data changes nothing.
  pub update-append :
      (c : Context) (a b : Bytes) → sha_update (sha_update c a) b ≡ sha_update c (a ++ b)
  pub update-nil : (c : Context) → sha_update c [] ≡ c

-- What verify_file returns, undefined behaviour where it would read in front of its buffer, or
-- `out_of_fuel` where the model's loop is not given enough rounds.
pub data Verdict : Type 0 where
  success failure fault out_of_fuel : Verdict

abbrev pub footer_size : ℕ
footer_size = 6

abbrev pub eocd_header_size : ℕ
eocd_header_size = 22

abbrev pub rsa_num_bytes : ℕ
rsa_num_bytes = 256

abbrev pub buffer_size : ℕ
buffer_size = 4096

-- The last bytes of a file.
abbrev pub last_bytes : ℕ → Bytes → Bytes
last_bytes n file = drop (length file - n) file

-- A byte of the footer, and the two numbers that it holds.
unfoldable pub footer_byte : Bytes → ℕ → ℕ
footer_byte file i = get_or (last_bytes footer_size file) i 0

unfoldable pub comment_size : Bytes → ℕ
comment_size file = footer_byte file 4 + footer_byte file 5 * 256

unfoldable pub signature_start : Bytes → ℕ
signature_start file = footer_byte file 0 + footer_byte file 1 * 256

-- The test for $50 $4b $05 $06 at an offset.
unfoldable pub marker_at : Bytes → ℕ → Bool
marker_at eocd i =
    get_or eocd i 0 == 0x50
    && (get_or eocd (i + 1) 0 == 0x4b
        && (get_or eocd (i + 2) 0 == 0x05 && get_or eocd (i + 3) 0 == 0x06))

-- The loop over `i`, with the number of rounds that are left.
unfoldable pub marker_from : ℕ → ℕ → Bytes → Bool
marker_from zero i eocd = false
marker_from (suc rounds) i eocd = marker_at eocd i || marker_from rounds (i + 1) eocd

-- `for (i = 4; i < eocd_size - 3; ++i)`.
unfoldable pub marker_again : Bytes → Bool
marker_again eocd = marker_from (length eocd - 3 - 4) 4 eocd

module _ (m : Mincrypt) where
  open m use {Context, Digest, PublicKey, sha_init, sha_update, sha_final, rsa_verify}

  -- The loop that hashes the first `signed_len` bytes in pieces of at most BUFFER_SIZE.
  unfoldable pub hash_loop : ℕ → Bytes → ℕ → ℕ → Context → Option Context
  hash_loop zero file signed_len so_far ctx = if ltb so_far signed_len then none else some ctx
  hash_loop (suc fuel) file signed_len so_far ctx =
      let size = min buffer_size (signed_len - so_far) in
      let rest =
        hash_loop fuel file signed_len (so_far + size)
          (sha_update ctx (take size (drop so_far file))) in
      if ltb so_far signed_len then rest else some ctx

  -- The loop over the keys; the signature stands `6 + RSANUMBYTES` bytes in front of the end of
  -- the buffer, if this is not in front of its start.
  unfoldable pub try_keys : List PublicKey → Bytes → Digest → Verdict
  try_keys [] eocd sha1 = failure
  try_keys (key ∷ keys) eocd sha1 =
      let rest = try_keys keys eocd sha1 in
      let signature = take rsa_num_bytes (last_bytes (footer_size + rsa_num_bytes) eocd) in
      if ltb (length eocd) (footer_size + rsa_num_bytes)
      then fault
      else if rsa_verify key signature sha1
      then success
      else rest

  -- The end-of-central-directory record is read, and `signed_len` bytes are in front of its
  -- comment's length.
  unfoldable pub check_digest : List PublicKey → Bytes → Bytes → Verdict
  check_digest keys file eocd =
      let signed_len = (length file - length eocd) + eocd_header_size - 2 in
      elim (hash_loop signed_len file signed_len 0 sha_init) [
        | none ↦ out_of_fuel
        | some ctx ↦ try_keys keys eocd (sha_final ctx)
      ]

  unfoldable pub check_eocd : List PublicKey → Bytes → Bytes → Verdict
  check_eocd keys file eocd =
      if not (marker_at eocd 0)
      then failure
      else if marker_again eocd
      then failure
      else check_digest keys file eocd

  -- `signature_start - FOOTER_SIZE < RSANUMBYTES` is a test of signed numbers.
  unfoldable pub verify_bytes : List PublicKey → Bytes → Verdict
  verify_bytes keys file =
      if ltb (length file) footer_size
      then failure
      else if not (footer_byte file 2 == 0xff) || not (footer_byte file 3 == 0xff)
      then failure
      else if ltb (signature_start file) (rsa_num_bytes + footer_size)
      then failure
      else if ltb (length file) (comment_size file + eocd_header_size)
      then failure
      else check_eocd keys file (last_bytes (comment_size file + eocd_header_size) file)

  unfoldable pub verify_file : Option Bytes → List PublicKey → Verdict
  verify_file none keys = failure
  verify_file (some file) keys = verify_bytes keys file
