-- ===== src/Verifier/Verdict.antt =====
-- verifier.c: the result of verify_file, by its checks.
use cot_bootable_recovery_to.Base.{
  ℕ, ◌+◌, ◌-◌, ◌≤◌, ◌<◌, ◌≡◌, ◌≢◌, ◌↔◌, ◌⊎◌, inl, inr, ◌∙◌, refl, sym, some, List, [], ◌∷◌, Bytes,
  true, false, length, take, length-drop, drop-drop, ltb, le→ltb, ltb→lt, Bool-cases, arith,
}
use cot_bootable_recovery_to.Verifier.Model.{
  Mincrypt, Verdict, success, failure, fault, out_of_fuel, footer_byte, comment_size,
  signature_start, marker_at, marker_again, last_bytes, try_keys, check_digest, check_eocd,
  verify_bytes, verify_file,
}
use cot_bootable_recovery_to.Verifier.Hashing.{hash_loop_lem}
use cot_bootable_recovery_to.Verifier.Marker.{NoMarker, marker_again_iff}

-- The end-of-central-directory record by the size of the comment.
abbrev pub eocd_of : Bytes → Bytes
eocd_of file = last_bytes (comment_size file + 22) file

-- The conditions on the footer and on the record that it leads to.
pub record IsFramed (file : Bytes) : Type 0 where
  pub fits : comment_size file + 22 ≤ length file
  pub ends : (footer_byte file 2 ≡ 255) × (footer_byte file 3 ≡ 255)
  pub room : 262 ≤ signature_start file
  pub starts : marker_at (eocd_of file) 0 ≡ true
  pub once : NoMarker 4 (comment_size file + 19) (eocd_of file)

length-last_bytes : (n : ℕ) (file : Bytes) → n ≤ length file → length (last_bytes n file) ≡ n
length-last_bytes n file h = omega (arith, length-drop (length file - n) file)

last_bytes-last_bytes :
    (k n : ℕ) (file : Bytes)
    → k ≤ n
    → n ≤ length file
    → last_bytes k (last_bytes n file) ≡ last_bytes k file
last_bytes-last_bytes k n file h l =
    let e : (length file - n) + (n - k) ≡ length file - k = omega arith in
    rw (length-last_bytes n file l, drop-drop (length file - n) (n - k) file, e)

module _ (m : Mincrypt) where
  open m use {Digest, PublicKey, sha_init, sha_update, sha_final, rsa_verify}

  abbrev pub SomeKey : List PublicKey → Bytes → Digest → Type 0
  SomeKey [] signature sha1 = ⊥
  SomeKey (key ∷ keys) signature sha1 =
      (rsa_verify key signature sha1 ≡ true) ⊎ SomeKey keys signature sha1

  -- The digest of what stands in front of the comment and its length.
  abbrev pub digest_of : Bytes → Digest
  digest_of file =
      sha_final (sha_update sha_init (take (length file - (comment_size file + 2)) file))

  check_digest_lem :
      (keys : List PublicKey) (file : Bytes)
      → comment_size file + 22 ≤ length file
      → check_digest m keys file (eocd_of file) ≡ try_keys m keys (eocd_of file) (digest_of file)
  unfolding check_digest
  check_digest_lem keys file h =
      let n : length (eocd_of file) ≡ comment_size file + 22 =
        length-last_bytes (comment_size file + 22) file h in
      let e : length file - length (eocd_of file) + 22 - 2 ≡ length file - (comment_size file + 2) =
        omega arith in
      rw (e, hash_loop_lem m file (length file - (comment_size file + 2)), check_digest)

  -- Past the tests of the frame it is left to the keys.
  framed :
      (keys : List PublicKey) (file : Bytes)
      → IsFramed file
      → verify_bytes m keys file ≡ try_keys m keys (eocd_of file) (digest_of file)
  unfolding verify_bytes check_eocd
  framed keys file f =
      let n : length (eocd_of file) - 3 ≡ comment_size file + 19 =
        omega (arith, length-last_bytes (comment_size file + 22) file f.fits) in
      ground (
        arith,
        f.ends,
        f.starts,
        f.room,
        f.fits,
        check_digest_lem keys file f.fits,
        (marker_again_iff (eocd_of file)).1 (rw n f.once),
      )

  -- Otherwise the package is refused.
  verify_bytes-IsFramed :
      (keys : List PublicKey) (file : Bytes) → verify_bytes m keys file ≢ failure → IsFramed file
  unfolding verify_bytes check_eocd
  verify_bytes-IsFramed keys file h =
      let fits : comment_size file + 22 ≤ length file = ground arith in
      let n : length (eocd_of file) - 3 ≡ comment_size file + 19 =
        omega (arith, length-last_bytes (comment_size file + 22) file fits) in
      let alone : marker_again (eocd_of file) ≡ false = ground arith in
      record {
        fits = fits;
        ends = (ground arith, ground arith);
        room = ground arith;
        starts = ground arith;
        once = rw n at ((marker_again_iff (eocd_of file)).0 alone);
      }

  try_keys_short :
      (keys : List PublicKey) (eocd : Bytes) (sha1 : Digest)
      → length eocd < 262
      → try_keys m keys eocd sha1 ≢ success
  unfolding try_keys
  try_keys_short [] eocd sha1 h = cc
  try_keys_short (key ∷ keys) eocd sha1 h = ground arith

  try_keys_iff :
      (keys : List PublicKey) (eocd : Bytes) (sha1 : Digest)
      → 262 ≤ length eocd
      → (try_keys m keys eocd sha1 ≡ success) ↔ SomeKey keys (take 256 (last_bytes 262 eocd)) sha1
  unfolding try_keys
  try_keys_iff [] eocd sha1 h = (λ e. cc, λ e. absurd e)
  try_keys_iff (key ∷ keys) eocd sha1 h =
      let long : ltb (length eocd) 262 ≡ false = le→ltb (length eocd) 262 h in
      let (there, back) = try_keys_iff keys eocd sha1 h in
      elim (Bool-cases (rsa_verify key (take 256 (last_bytes 262 eocd)) sha1)) [
        | inl good ↦ (λ e. inl good, λ e. rw (long, good))
        | inr bad ↦ (
          λ e. inr (there (rw (long, bad) at e)),
          λ e. rw (long, bad) (elim e [ inl good ↦ cc | inr k ↦ back k ]),
        )
      ]

  try_keys_defined :
      (keys : List PublicKey) (eocd : Bytes) (sha1 : Digest)
      → (try_keys m keys eocd sha1 ≢ out_of_fuel)
        × (262 ≤ length eocd → try_keys m keys eocd sha1 ≢ fault)
  unfolding try_keys
  try_keys_defined [] eocd sha1 = (cc, λ h. cc)
  try_keys_defined (key ∷ keys) eocd sha1 =
      let (a, b) = try_keys_defined keys eocd sha1 in (ground arith, λ h. ground (arith, b h))

  -- A package is accepted exactly if its footer and end-of-central-directory record are in order
  -- with no second marker behind the record's own (`IsFramed`), the comment has at least 240 bytes,
  -- so that 262 bytes end the record with its comment, and one of the keys verifies the first 256 of
  -- these 262 bytes as a signature of all that stands in front of the comment and its length. With
  -- less than 262 bytes of comment these 256 bytes begin inside the record's header.
  pub verify_file_iff :
      (keys : List PublicKey) (file : Bytes)
      → (verify_file m (some file) keys ≡ success) ↔ (
          IsFramed file
          × (240 ≤ comment_size file)
          × SomeKey keys (take 256 (last_bytes 262 file)) (digest_of file))
  unfolding verify_file
  verify_file_iff keys file = (accepted, accepting)
    where
      Conditions : Type 0
      Conditions =
          IsFramed file
          × (240 ≤ comment_size file)
          × SomeKey keys (take 256 (last_bytes 262 file)) (digest_of file)

      long : IsFramed file → length (eocd_of file) ≡ comment_size file + 22
      long f = length-last_bytes (comment_size file + 22) file f.fits

      same :
          IsFramed file
          → 240 ≤ comment_size file
          → last_bytes 262 (eocd_of file) ≡ last_bytes 262 file
      same f h = last_bytes-last_bytes 262 (comment_size file + 22) file (omega arith) f.fits

      accepted : verify_bytes m keys file ≡ success → Conditions
      accepted e =
          let f : IsFramed file = verify_bytes-IsFramed keys file (λ k. cc) in
          let t : try_keys m keys (eocd_of file) (digest_of file) ≡ success =
            sym (framed keys file f) ∙ e in
          elim (Bool-cases (ltb (length (eocd_of file)) 262)) [
            | inl short ↦
                absurd (try_keys_short keys (eocd_of file) (digest_of file) (ltb→lt _ 262 short) t)
            | inr enough ↦
                let wide : 262 ≤ length (eocd_of file) = ground arith in
                let key = (try_keys_iff keys (eocd_of file) (digest_of file) wide).0 t in
                let h : 240 ≤ comment_size file = omega (arith, long f) in
                (f, h, rw (same f h) at key)
          ]

      accepting : Conditions → verify_bytes m keys file ≡ success
      accepting (f, h, k) =
          framed keys file f
          ∙ (try_keys_iff keys (eocd_of file) (digest_of file) (rw (long f) (omega arith))).1
              (rw (same f h) k)

  try_keys_fault :
      (keys : List PublicKey) (eocd : Bytes) (sha1 : Digest)
      → length eocd < 262
      → (try_keys m keys eocd sha1 ≡ fault) ↔ (keys ≢ [])
  unfolding try_keys
  try_keys_fault [] eocd sha1 h = (λ e k. cc, λ k. absurd (k refl))
  try_keys_fault (key ∷ keys) eocd sha1 h = (λ e k. cc, λ k. ground arith)

  -- A verdict other than `failure` is the keys' verdict on a framed package.
  verdict_of_keys :
      (keys : List PublicKey) (file : Bytes) (v : Verdict)
      → v ≢ failure
      → verify_bytes m keys file ≡ v
      → IsFramed file × (try_keys m keys (eocd_of file) (digest_of file) ≡ v)
  verdict_of_keys keys file v ne e =
      let f : IsFramed file = verify_bytes-IsFramed keys file (λ k. ne (sym e ∙ k)) in
      (f, sym (framed keys file f) ∙ e)

  -- The model's hashing loop never runs out of fuel, and verify_file reads in front of its buffer exactly
  -- if there is a key to try and a comment of less than 240 bytes in an otherwise good frame.
  pub verify_file_fault :
      (keys : List PublicKey) (file : Bytes)
      → (verify_file m (some file) keys ≢ out_of_fuel)
        × ((verify_file m (some file) keys ≡ fault)
            ↔ (IsFramed file × (comment_size file < 240) × (keys ≢ [])))
  unfolding verify_file
  verify_file_fault keys file = (ends, (wrong, wrongly))
    where
      long : IsFramed file → length (eocd_of file) ≡ comment_size file + 22
      long f = length-last_bytes (comment_size file + 22) file f.fits

      ends : verify_bytes m keys file ≢ out_of_fuel
      ends e =
          let (f, t) = verdict_of_keys keys file out_of_fuel (λ k. cc) e in
          (try_keys_defined keys (eocd_of file) (digest_of file)).0 t

      wrong :
          verify_bytes m keys file ≡ fault → IsFramed file × (comment_size file < 240) × (keys ≢ [])
      wrong e =
          let (f, t) = verdict_of_keys keys file fault (λ k. cc) e in
          let short : length (eocd_of file) < 262 =
            elim (Bool-cases (ltb (length (eocd_of file)) 262)) [
              | inl yes' ↦ ltb→lt _ 262 yes'
              | inr no' ↦
                  absurd
                    ((try_keys_defined keys (eocd_of file) (digest_of file)).1 (ground arith) t)
            ] in
          (
            f,
            omega (arith, long f),
            (try_keys_fault keys (eocd_of file) (digest_of file) short).0 t,
          )

      wrongly :
          IsFramed file × (comment_size file < 240) × (keys ≢ []) → verify_bytes m keys file ≡ fault
      wrongly (f, h, k) =
          framed keys file f
          ∙ (try_keys_fault keys (eocd_of file) (digest_of file) (omega (arith, long f))).1 k
