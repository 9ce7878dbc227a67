-- ===== src/Applypatch/Choice.antt =====
-- applypatch/applypatch.c: which file is patched, and with which patch.
use cot_bootable_recovery_to.Base.{
  ℕ, zero, suc, ◌+◌, ◌*◌, ◌/◌, ◌%◌, ◌<◌, ◌≡◌, ◌≢◌, inl, inr, refl, ap, Bool, true, false,
  Bool-cases, List, [], ◌∷◌, Option, none, some, Bytes, bytes_eq, bytes_eq→eq, bytes_eq_refl,
  length, get_elem?, ltb, if◌then◌else◌, arith,
}
use cot_bootable_recovery_to.Applypatch.Digest.{
  hex_digit, parse_pairs, at_end, parse_sha1, matches_digest, find_matching_patch,
}

-- The digits of a byte, and of a digest, in lower case.
abbrev digit_of : ℕ → ℕ
digit_of n = if ltb n 10 then 48 + n else 87 + n

abbrev pub hex_text : Bytes → Bytes
hex_text [] = []
hex_text (b ∷ bs) = digit_of (b / 16) ∷ digit_of (b % 16) ∷ hex_text bs

abbrev pub AreBytes : Bytes → Type 0
AreBytes [] = Unit
AreBytes (b ∷ bs) = (b < 256) × AreBytes bs

hex_digit-digit_of : (n : ℕ) → n < 16 → hex_digit (digit_of n) ≡ some n
unfolding hex_digit
hex_digit-digit_of n h = ground arith

parse_pairs-hex_text :
    (bytes : Bytes)
    → AreBytes bytes
    → parse_pairs (length bytes) (hex_text bytes) ≡ some (bytes, [])
unfolding parse_pairs
parse_pairs-hex_text [] a = refl
parse_pairs-hex_text (b ∷ bs) a =
    let e : b / 16 * 16 + b % 16 ≡ b = omega arith in
    rw
      (
        hex_digit-digit_of (b / 16) (omega (arith, a.0)),
        hex_digit-digit_of (b % 16) (omega arith),
        parse_pairs-hex_text bs a.1,
        e,
      )
      refl

-- ParseSha1 gives the 20 bytes that were written with 40 digits.
pub parse_sha1-hex_text :
    (digest : Bytes)
    → AreBytes digest
    → length digest ≡ 20
    → parse_sha1 (hex_text digest) ≡ some digest
unfolding parse_sha1 at_end
parse_sha1-hex_text digest a l =
    let e : parse_pairs 20 (hex_text digest) ≡ some (digest, []) =
      rw (← l) (parse_pairs-hex_text digest a) in
    rw e refl

-- What a search for a digest gives, by what ParseSha1 gives.
pub data Matching (sha1 : Bytes) (digests : List Bytes) : Option ℕ → Type 0 where
  is_match :
      (i : ℕ) (s : Bytes)
      → get_elem? digests i ≡ some s
      → parse_sha1 s ≡ some sha1
      → ((j : ℕ) (t : Bytes) → j < i → get_elem? digests j ≡ some t → parse_sha1 t ≢ some sha1)
      → Matching sha1 digests (some i)
  no_match :
      ((j : ℕ) (t : Bytes) → get_elem? digests j ≡ some t → parse_sha1 t ≢ some sha1)
      → Matching sha1 digests none

module _ (sha1 : Bytes) where
  matches_digest-eq : (s : Bytes) → matches_digest sha1 s ≡ true → parse_sha1 s ≡ some sha1
  unfolding matches_digest
  matches_digest-eq s e = same (parse_sha1 s) e
    where
      same :
          (o : Option Bytes)
          → (elim o as (λ _. Bool) [ none ↦ false | some digest ↦ bytes_eq digest sha1 ]) ≡ true
          → o ≡ some sha1
      same none e = cc
      same (some digest) e = ap some (bytes_eq→eq digest sha1 e)

  matches_digest_self : (s : Bytes) → parse_sha1 s ≡ some sha1 → matches_digest sha1 s ≡ true
  unfolding matches_digest
  matches_digest_self s e = rw (matches_digest, e) (bytes_eq_refl sha1)

  matches_digest-ne : (s : Bytes) → matches_digest sha1 s ≡ false → parse_sha1 s ≢ some sha1
  matches_digest-ne s e q = let t = matches_digest_self s q in cc

  find-first :
      (s : Bytes) (ss : List Bytes)
      → matches_digest sha1 s ≡ true
      → find_matching_patch sha1 (s ∷ ss) ≡ some 0
  unfolding find_matching_patch
  find-first s ss e = rw e refl

  find-later :
      (s : Bytes) (ss : List Bytes) (i : ℕ)
      → matches_digest sha1 s ≡ false
      → find_matching_patch sha1 ss ≡ some i
      → find_matching_patch sha1 (s ∷ ss) ≡ some (suc i)
  unfolding find_matching_patch
  find-later s ss i e q = rw (e, q) refl

  find-never :
      (s : Bytes) (ss : List Bytes)
      → matches_digest sha1 s ≡ false
      → find_matching_patch sha1 ss ≡ none
      → find_matching_patch sha1 (s ∷ ss) ≡ none
  unfolding find_matching_patch
  find-never s ss e q = rw (e, q) refl

  find_by :
      (s : Bytes) (ss : List Bytes) (o : Option ℕ)
      → find_matching_patch sha1 ss ≡ o
      → Matching sha1 ss o
      → Matching sha1 (s ∷ ss) (find_matching_patch sha1 (s ∷ ss))
  find_by s ss o q m = elim (Bool-cases (matches_digest sha1 s)) [
    | inl t ↦
        rw (find-first s ss t)
          (is_match 0 s refl (matches_digest-eq s t) (λ j u lt. absurd (omega arith)))
    | inr f ↦ behind f o q m
  ]
    where
      first :
          matches_digest sha1 s ≡ false → (u : Bytes) → some s ≡ some u → parse_sha1 u ≢ some sha1
      first f u e = let same : s ≡ u = cc in rw (← same) (matches_digest-ne s f)

      shifted :
          matches_digest sha1 s ≡ false
          → (i : ℕ)
          → ((j : ℕ) (u : Bytes) → j < i → get_elem? ss j ≡ some u → parse_sha1 u ≢ some sha1)
          → (j : ℕ) (u : Bytes) → j < suc i
          → get_elem? (s ∷ ss) j ≡ some u
          → parse_sha1 u ≢ some sha1
      shifted f i before zero u lt g = first f u g
      shifted f i before (suc j) u lt g = before j u (omega (arith, lt)) g

      shifted_all :
          matches_digest sha1 s ≡ false
          → ((j : ℕ) (u : Bytes) → get_elem? ss j ≡ some u → parse_sha1 u ≢ some sha1)
          → (j : ℕ) (u : Bytes) → get_elem? (s ∷ ss) j ≡ some u
          → parse_sha1 u ≢ some sha1
      shifted_all f never zero u g = first f u g
      shifted_all f never (suc j) u g = never j u g

      behind :
          matches_digest sha1 s ≡ false
          → (o : Option ℕ) → find_matching_patch sha1 ss ≡ o
          → Matching sha1 ss o
          → Matching sha1 (s ∷ ss) (find_matching_patch sha1 (s ∷ ss))
      behind f (some i) q (is_match _ t g e before) =
          rw (find-later s ss i f q) (is_match (suc i) t g e (shifted f i before))
      behind f none q (no_match never) = rw (find-never s ss f q) (no_match (shifted_all f never))

  pub find_matching_patch-Matching :
      (digests : List Bytes) → Matching sha1 digests (find_matching_patch sha1 digests)
  unfolding find_matching_patch
  find_matching_patch-Matching [] = no_match (λ j t e. cc)
  find_matching_patch-Matching (s ∷ ss) =
      find_by s ss (find_matching_patch sha1 ss) refl (find_matching_patch-Matching ss)
