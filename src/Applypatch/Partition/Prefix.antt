-- ===== src/Applypatch/Partition/Prefix.antt =====
-- applypatch/applypatch.c: lemmas on the prefixes that LoadPartitionContents tries.
use cot_bootable_recovery_to.Base.{
  ℕ, ◌+◌, ◌-◌, ◌≤◌, ◌<◌, ◌==◌, ◌≡◌, ◌∙◌, ◌⊎◌, ◌↔◌, inl, inr, refl, sym, ap, true, false, Bool-cases,
  List, [], ◌∷◌, ◌++◌, Option, none, some, Bytes, bytes_eq, bytes_eq→eq, bytes_eq_refl, length,
  length-take, length-drop, take, take_add, drop, if◌then◌else◌, arith,
}
use cot_bootable_recovery_to.Applypatch.Digest.{parse_sha1, FileContents}
use cot_bootable_recovery_to.Applypatch.Partition.{
  Pair, Loaded, loaded, not_loaded, fault, check_pair, read_prefixes, read_partition,
}

abbrev pub In : Pair → List Pair → Type 0
In p [] = ⊥
In p (q ∷ qs) = (p ≡ q) ⊎ In p qs

-- A pair's prefix has its digest.
abbrev pub Matches : (Bytes → Bytes) → Bytes → Pair → Type 0
Matches sha content p =
    (sum : Bytes) × (p.sha1sum ≡ some sum) × (parse_sha1 sum ≡ some (sha (take p.size content)))

abbrev pub AllFrom : ℕ → List Pair → Type 0
AllFrom n [] = Unit
AllFrom n (p ∷ ps) = (n ≤ p.size) × AllFrom n ps

abbrev pub Ascending : List Pair → Type 0
Ascending [] = Unit
Ascending (p ∷ ps) = AllFrom p.size ps × Ascending ps

-- What is loaded is the prefix of a pair that matches, and no shorter one does.
pub record IsShortest (sha : Bytes → Bytes) (content : Bytes) (ps : List Pair) (f : FileContents)
    : Type 0 where
  pub of_pair : Pair
  pub listed : In of_pair ps
  pub fits : of_pair.size ≤ length content
  pub is_prefix : f.bytes ≡ take of_pair.size content
  pub has_digest : f.sha1 ≡ sha f.bytes
  pub matches : Matches sha content of_pair
  pub shortest : (q : Pair) → In q ps → q.size < of_pair.size → ¬ Matches sha content q

module _ (sha : Bytes → Bytes) (content : Bytes) where
  AllFrom-In : (n : ℕ) (ps : List Pair) (q : Pair) → AllFrom n ps → In q ps → n ≤ q.size
  AllFrom-In n [] q a i = absurd i
  AllFrom-In n (p ∷ ps) q (le, a) (inl e) = rw e le
  AllFrom-In n (p ∷ ps) q (le, a) (inr i) = AllFrom-In n ps q a i

  -- The first pair decides: it is a fault, an error, or a match, or the others are tried.
  pub data Checked (p : Pair) (later : Loaded) : Loaded → Type 0 where
    is_fault : Checked p later fault
    is_error : Checked p later not_loaded
    is_match :
        (f : FileContents)
        → f.bytes ≡ take p.size content
        → f.sha1 ≡ sha f.bytes
        → Matches sha content p
        → Checked p later (loaded f)
    is_later : ¬ Matches sha content p → Checked p later later

  check_pair-Checked :
      (p : Pair) (so_far : Bytes) (later : Loaded)
      → so_far ≡ take p.size content
      → Checked p later (check_pair sha so_far p.sha1sum later)
  unfolding check_pair
  check_pair-Checked p so_far later e = by_sum p.sha1sum refl
    where
      parsed :
          (sum : Bytes)
          → p.sha1sum ≡ some sum
          → (o : Option Bytes) → parse_sha1 sum ≡ o
          → Checked p later (elim o as (λ _. Loaded) [
            | none ↦ not_loaded
            | some parsed_sha ↦
                if bytes_eq (sha so_far) parsed_sha
                then loaded (record { sha1 = sha so_far; bytes = so_far })
                else later
          ])
      parsed sum s none q = is_error
      parsed sum s (some digest) q = elim (Bool-cases (bytes_eq (sha so_far) digest)) [
        | inl t ↦
            let d : digest ≡ sha (take p.size content) =
              sym (bytes_eq→eq (sha so_far) digest t) ∙ ap sha e in
            rw t (
              is_match (record { sha1 = sha so_far; bytes = so_far }) e refl
                (sum, s, q ∙ ap some d))
        | inr f ↦ rw f (is_later λ m. other sum s digest q f m)
      ]
        where
          other :
              (sum : Bytes)
              → p.sha1sum ≡ some sum
              → (digest : Bytes) → parse_sha1 sum ≡ some digest
              → bytes_eq (sha so_far) digest ≡ false
              → Matches sha content p
              → ⊥
          other sum s digest q f (sum', s', q') =
              let same : digest ≡ sha so_far = cc (ap sha e) in
              let t : bytes_eq (sha so_far) digest ≡ true = rw same (bytes_eq_refl (sha so_far)) in
              cc

      by_sum : (o : Option Bytes) → p.sha1sum ≡ o → Checked p later (check_pair sha so_far o later)
      by_sum none s = is_fault
      by_sum (some sum) s = parsed sum s (parse_sha1 sum) refl

  IsShortest-first :
      (p : Pair) (ps : List Pair) (f : FileContents)
      → AllFrom p.size ps
      → p.size ≤ length content
      → f.bytes ≡ take p.size content
      → f.sha1 ≡ sha f.bytes
      → Matches sha content p
      → IsShortest sha content (p ∷ ps) f
  IsShortest-first p ps f a le b d m = record {
    of_pair = p;
    listed = inl refl;
    fits = le;
    is_prefix = b;
    has_digest = d;
    matches = m;
    shortest = λ q i lt. none_shorter q i lt;
  }
    where
      none_shorter : (q : Pair) → In q (p ∷ ps) → q.size < p.size → ¬ Matches sha content q
      none_shorter q (inl e) lt m =
          let l : q.size ≡ p.size = ap (λ (x : Pair). x.size) e in absurd (omega arith)
      none_shorter q (inr i) lt m = let l = AllFrom-In p.size ps q a i in absurd (omega arith)

  IsShortest-later :
      (p : Pair) (ps : List Pair) (f : FileContents)
      → ¬ Matches sha content p
      → IsShortest sha content ps f
      → IsShortest sha content (p ∷ ps) f
  IsShortest-later p ps f other s = record {
    of_pair = s.of_pair;
    listed = inr s.listed;
    fits = s.fits;
    is_prefix = s.is_prefix;
    has_digest = s.has_digest;
    matches = s.matches;
    shortest = λ q i lt. none_shorter q i lt;
  }
    where
      none_shorter : (q : Pair) → In q (p ∷ ps) → q.size < s.of_pair.size → ¬ Matches sha content q
      none_shorter q (inl e) lt m = other (rw e at m)
      none_shorter q (inr i) lt m = s.shortest q i lt m

  of_Checked :
      (p : Pair) (ps : List Pair) (later r : Loaded) (f : FileContents)
      → AllFrom p.size ps
      → p.size ≤ length content
      → Checked p later r
      → r ≡ loaded f
      → (later ≡ loaded f → IsShortest sha content ps f)
      → IsShortest sha content (p ∷ ps) f
  of_Checked p ps later fault f a le is_fault e rec = cc
  of_Checked p ps later not_loaded f a le is_error e rec = cc
  of_Checked p ps later (loaded g) f a le (is_match _ b d m) e rec =
      let same : g ≡ f = cc in
      IsShortest-first p ps f a le (ap (λ (x : FileContents). x.bytes) (sym same) ∙ b)
        (ap (λ (x : FileContents). x.sha1) (sym same)
          ∙ d
          ∙ ap (λ (x : FileContents). sha x.bytes) same)
        m
  of_Checked p ps later _ f a le (is_later other) e rec = IsShortest-later p ps f other (rec e)

  read_prefixes-IsShortest :
      (n : ℕ) (ps : List Pair) (so_far : Bytes) (f : FileContents)
      → so_far ≡ take n content
      → n ≤ length content
      → AllFrom n ps
      → Ascending ps
      → read_prefixes sha ps so_far content ≡ loaded f
      → IsShortest sha content ps f
  unfolding read_prefixes
  read_prefixes-IsShortest n [] so_far f b le a s e = cc
  read_prefixes-IsShortest n (p ∷ ps) so_far f b le (from, a) (first, s) e =
      let l : length so_far ≡ n = ap length b ∙ omega (arith, length-take n content) in
      let part = take (p.size - length so_far) (drop (length so_far) content) in
      let size_part = length-take (p.size - length so_far) (drop (length so_far) content) in
      let rest = length-drop (length so_far) content in
      elim (Bool-cases (length part == p.size - length so_far)) [
        | inr few ↦ let stop : not_loaded ≡ loaded f = rw few at e in cc
        | inl all ↦
            let enough : p.size ≤ length content = ground arith in
            let whole : so_far ++ part ≡ take p.size content = joined l in
            of_Checked p ps _ _ f first enough (check_pair-Checked p (so_far ++ part) _ whole)
              (rw all at e)
              (λ q. read_prefixes-IsShortest p.size ps (so_far ++ part) f whole enough first s q)
      ]
    where
      joined :
          length so_far ≡ n
          → so_far ++ take (p.size - length so_far) (drop (length so_far) content)
            ≡ take p.size content
      joined l =
          let k : n + (p.size - n) ≡ p.size = omega arith in
          rw (l, b) (sym (take_add n (p.size - n) content) ∙ ap (λ m. take m content) k)

-- qsort: the same pairs, by their sizes.
pub record IsSort (sort : List Pair → List Pair) : Type 0 where
  pub ascending : (ps : List Pair) → Ascending (sort ps)
  pub same_pairs : (ps : List Pair) (p : Pair) → In p (sort ps) ↔ In p ps

-- If LoadPartitionContents loads data of a partition, they are the prefix whose size and digest are a pair of the file
-- name, and no pair with a smaller size has the digest of its prefix.
pub read_partition-IsShortest :
    (sha : Bytes → Bytes) (sort : List Pair → List Pair)
    (partition_contents : Bytes → Bytes → Option Bytes) (content : Bytes) (ps : List Pair)
    (f : FileContents)
    → IsSort sort
    → read_partition sha sort partition_contents ps (some content) ≡ loaded f
    → IsShortest sha content ps f
unfolding read_partition
read_partition-IsShortest sha sort partition_contents content [] f s e = cc
read_partition-IsShortest sha sort partition_contents content (p ∷ ps) f s e =
    let found =
      read_prefixes-IsShortest sha content 0 (sort (p ∷ ps)) [] f refl (omega arith)
        (from_zero (sort (p ∷ ps))) (s.ascending (p ∷ ps)) e in
    record {
      of_pair = found.of_pair;
      listed = (s.same_pairs (p ∷ ps) found.of_pair).0 found.listed;
      fits = found.fits;
      is_prefix = found.is_prefix;
      has_digest = found.has_digest;
      matches = found.matches;
      shortest = λ q i lt. found.shortest q ((s.same_pairs (p ∷ ps) q).1 i) lt;
    }
  where
    from_zero : (qs : List Pair) → AllFrom 0 qs
    from_zero [] = tt
    from_zero (q ∷ qs) = (omega arith, from_zero qs)
