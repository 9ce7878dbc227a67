-- ===== src/Verifier/Signing.antt =====
-- Packages as a signing tool lays them out for verify_file of verifier.c.
use cot_bootable_recovery_to.Base.{
  ℕ, ◌+◌, ◌-◌, ◌*◌, ◌≤◌, ◌≡◌, ◌∙◌, refl, ap, List, [], ◌∷◌, ◌++◌, append_assoc, Bytes, some, length,
  take, length-append, take-append, drop_add-append, true, arith,
}
use cot_bootable_recovery_to.Verifier.Model.{
  Mincrypt, success, last_bytes, footer_byte, comment_size, signature_start, marker_at, verify_file,
}
use cot_bootable_recovery_to.Verifier.Marker.{NoMarker}
use cot_bootable_recovery_to.Verifier.Verdict.{
  IsFramed, SomeKey, digest_of, eocd_of, verify_file_iff,
}

-- The parts of a signed package.
pub record Package : Type 0 where
  pub content : Bytes
  pub header : Bytes
  pub filler : Bytes
  pub signature : Bytes
  pub comment_len : ℕ × ℕ
  pub start : ℕ × ℕ
  pub size : ℕ × ℕ

-- What is signed: the contents, and the end-of-central-directory record up to its comment length.
abbrev pub signed_part : Package → Bytes
signed_part p = p.content ++ (0x50 ∷ 0x4b ∷ 0x05 ∷ 0x06 ∷ p.header)

abbrev pub footer_of : Package → Bytes
footer_of p = p.start.0 ∷ p.start.1 ∷ 0xff ∷ 0xff ∷ p.size.0 ∷ p.size.1 ∷ []

-- The comment's length, its filler, the signature and the footer.
abbrev pub tail_of : Package → Bytes
tail_of p = p.comment_len.0 ∷ p.comment_len.1 ∷ (p.filler ++ (p.signature ++ footer_of p))

abbrev pub record_of : Package → Bytes
record_of p = (0x50 ∷ 0x4b ∷ 0x05 ∷ 0x06 ∷ p.header) ++ tail_of p

unfoldable pub layout : Package → Bytes
layout p = p.content ++ record_of p

-- The sizes that the tool writes, and that no second marker gets into the comment.
pub record IsLaidOut (p : Package) : Type 0 where
  pub header_size : length p.header ≡ 16
  pub signature_size : length p.signature ≡ 256
  pub comment : p.size.0 + p.size.1 * 256 ≡ length p.filler + 262
  pub room : 262 ≤ p.start.0 + p.start.1 * 256
  pub once : NoMarker 4 (length (record_of p) - 3) (record_of p)

last_bytes-append :
    (n : ℕ) (xs ys : Bytes) → n ≤ length ys → last_bytes n (xs ++ ys) ≡ last_bytes n ys
last_bytes-append n xs ys h =
    let e : length (xs ++ ys) - n ≡ length xs + (length ys - n) =
      omega (arith, length-append xs ys) in
    rw (e, drop_add-append xs ys (length ys - n))

last_bytes_all : (n : ℕ) (xs : Bytes) → length xs ≡ n → last_bytes n xs ≡ xs
last_bytes_all n xs h = let e : length xs - n ≡ 0 = omega arith in rw e

module _ (p : Package) (l : IsLaidOut p) where
  length-tail : length (tail_of p) ≡ length p.filler + 264
  length-tail = omega (
    arith,
    length-append p.filler (p.signature ++ footer_of p),
    length-append p.signature (footer_of p),
    l.signature_size,
  )

  length-record : length (record_of p) ≡ length p.filler + 284
  length-record = omega (
    arith,
    length-append (0x50 ∷ 0x4b ∷ 0x05 ∷ 0x06 ∷ p.header) (tail_of p),
    l.header_size,
    length-tail,
  )

  -- The last bytes of the package that lie in its signature and footer.
  last-layout :
      (n : ℕ) → n ≤ 262 → last_bytes n (layout p) ≡ last_bytes n (p.signature ++ footer_of p)
  unfolding layout
  last-layout n h =
      let s : length (p.signature ++ footer_of p) ≡ 262 =
        omega (arith, length-append p.signature (footer_of p), l.signature_size) in
      let before = p.comment_len.0 ∷ p.comment_len.1 ∷ p.filler in
      last_bytes-append n p.content (record_of p) (omega (arith, length-record))
      ∙ last_bytes-append n (0x50 ∷ 0x4b ∷ 0x05 ∷ 0x06 ∷ p.header) (tail_of p)
          (omega (arith, length-tail))
      ∙ last_bytes-append n before (p.signature ++ footer_of p) (omega arith)

  last-footer : last_bytes 6 (layout p) ≡ footer_of p
  last-footer =
      last-layout 6 (omega arith)
      ∙ last_bytes-append 6 p.signature (footer_of p) (omega arith)
      ∙ last_bytes_all 6 (footer_of p) refl

  last-signature : take 256 (last_bytes 262 (layout p)) ≡ p.signature
  last-signature =
      let s : length (p.signature ++ footer_of p) ≡ 262 =
        omega (arith, length-append p.signature (footer_of p), l.signature_size) in
      rw (last-layout 262 (omega arith), last_bytes_all 262 (p.signature ++ footer_of p) s)
        (rw (← l.signature_size) (take-append p.signature (footer_of p)))

  comment-layout : comment_size (layout p) ≡ length p.filler + 262
  unfolding comment_size footer_byte
  comment-layout = rw last-footer l.comment

  start-layout : signature_start (layout p) ≡ p.start.0 + p.start.1 * 256
  unfolding signature_start footer_byte
  start-layout = rw last-footer

  ends-layout : (footer_byte (layout p) 2 ≡ 255) × (footer_byte (layout p) 3 ≡ 255)
  unfolding footer_byte
  ends-layout = (rw last-footer, rw last-footer)

  eocd-layout : eocd_of (layout p) ≡ record_of p
  unfolding layout
  eocd-layout =
      let n : comment_size (layout p) + 22 ≡ length (record_of p) =
        omega (arith, comment-layout, length-record) in
      rw n (
        last_bytes-append (length (record_of p)) p.content (record_of p) (omega arith)
        ∙ last_bytes_all (length (record_of p)) (record_of p) refl)

  length-layout : length (layout p) ≡ length (signed_part p) + (length p.filler + 264)
  unfolding layout
  length-layout = omega (
    arith,
    length-append p.content (record_of p),
    length-record,
    l.header_size,
    length-append p.content (0x50 ∷ 0x4b ∷ 0x05 ∷ 0x06 ∷ p.header),
  )

  split-layout : layout p ≡ signed_part p ++ tail_of p
  unfolding layout
  split-layout = rw (append_assoc p.content)

  signed-layout :
      take (length (layout p) - (comment_size (layout p) + 2)) (layout p) ≡ signed_part p
  signed-layout =
      let n : length (layout p) - (comment_size (layout p) + 2) ≡ length (signed_part p) =
        omega (arith, length-layout, comment-layout) in
      rw (n, split-layout) (take-append (signed_part p) (tail_of p))

  first-marker : marker_at (record_of p) 0 ≡ true
  unfolding marker_at
  first-marker = refl

  length-signed : 20 ≤ length (signed_part p)
  length-signed =
      omega (arith, length-append p.content (0x50 ∷ 0x4b ∷ 0x05 ∷ 0x06 ∷ p.header), l.header_size)

  layout-IsFramed : IsFramed (layout p)
  layout-IsFramed =
      let n : length (record_of p) - 3 ≡ comment_size (layout p) + 19 =
        omega (arith, comment-layout, length-record) in
      record {
        fits = omega (arith, length-layout, comment-layout, length-signed);
        ends = ends-layout;
        room = rw start-layout l.room;
        starts = rw eocd-layout first-marker;
        once = rw eocd-layout (rw n at l.once);
      }

module _ (m : Mincrypt) (p : Package) (l : IsLaidOut p) where
  open m use {PublicKey, sha_init, sha_update, sha_final}

  -- A package laid out by the signing tool is accepted if one of the keys verifies its signature of
  -- its signed part.
  pub verify-layout :
      (keys : List PublicKey)
      → SomeKey m keys p.signature (sha_final (sha_update sha_init (signed_part p)))
      → verify_file m (some (layout p)) keys ≡ success
  verify-layout keys k =
      let d : digest_of m (layout p) ≡ sha_final (sha_update sha_init (signed_part p)) =
        ap (λ (b : Bytes). sha_final (sha_update sha_init b)) (signed-layout p l) in
      (verify_file_iff m keys (layout p)).1
        (layout-IsFramed p l, omega (arith, comment-layout p l), rw (last-signature p l, d) k)
