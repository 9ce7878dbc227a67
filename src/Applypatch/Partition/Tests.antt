-- ===== src/Applypatch/Partition/Tests.antt =====
-- LoadPartitionContents at a partition of five bytes, with an insertion sort for qsort.
use cot_bootable_recovery_to.Base.{
  ℕ, ◌≤◌, ◌≡◌, ◌↔◌, inl, inr, refl, Bool-cases, List, [], ◌∷◌, Option, some, Bytes, bytes_eq, codes,
  leb, length, replicate, if◌then◌else◌, arith,
}
use cot_bootable_recovery_to.Edify.Strtol.{
  strtol, skip_spaces, is_space, read_signed, read_number, read_digits, is_digit, saturate,
}
use cot_bootable_recovery_to.Base.Int.{to_word}
use cot_bootable_recovery_to.Recovery.Tokens.{tokens, tokens_from, flush}
use cot_bootable_recovery_to.Applypatch.Digest.{parse_sha1, parse_pairs, at_end, hex_digit}
use cot_bootable_recovery_to.Applypatch.Partition.{
  Pair, loaded, read_partition, load_partition_contents,
}
use cot_bootable_recovery_to.Applypatch.Partition.Prefix.{
  In, AllFrom, Ascending, IsSort, IsShortest, read_partition-IsShortest,
}

insert : Pair → List Pair → List Pair
insert p [] = p ∷ []
insert p (q ∷ qs) = if leb p.size q.size then p ∷ q ∷ qs else q ∷ insert p qs

sort : List Pair → List Pair
unfolding insert
sort [] = []
sort (p ∷ ps) = insert p (sort ps)

insert-AllFrom :
    (n : ℕ) (p : Pair) (qs : List Pair) → n ≤ p.size → AllFrom n qs → AllFrom n (insert p qs)
unfolding insert
insert-AllFrom n p [] le a = (le, tt)
insert-AllFrom n p (q ∷ qs) le (b, a) = elim (Bool-cases (leb p.size q.size)) [
  | inl t ↦ rw t (le, (b, a))
  | inr f ↦ rw f (b, insert-AllFrom n p qs le a)
]

AllFrom-weaken : (n m : ℕ) (qs : List Pair) → n ≤ m → AllFrom m qs → AllFrom n qs
AllFrom-weaken n m [] le a = tt
AllFrom-weaken n m (q ∷ qs) le (b, a) = (omega (arith, b), AllFrom-weaken n m qs le a)

insert-Ascending : (p : Pair) (qs : List Pair) → Ascending qs → Ascending (insert p qs)
unfolding insert
insert-Ascending p [] s = (tt, tt)
insert-Ascending p (q ∷ qs) (a, s) = elim (Bool-cases (leb p.size q.size)) [
  | inl t ↦
      let le : p.size ≤ q.size = ground arith in
      rw t ((le, AllFrom-weaken p.size q.size qs le a), (a, s))
  | inr f ↦
      let le : q.size ≤ p.size = ground arith in
      rw f (insert-AllFrom q.size p qs le a, insert-Ascending p qs s)
]

sort-Ascending : (ps : List Pair) → Ascending (sort ps)
unfolding sort
sort-Ascending [] = tt
sort-Ascending (p ∷ ps) = insert-Ascending p (sort ps) (sort-Ascending ps)

behind-In :
    (p q : Pair) (qs rs : List Pair) (x : Pair)
    → In x rs ↔ In x (p ∷ qs)
    → In x (q ∷ rs) ↔ In x (p ∷ q ∷ qs)
behind-In p q qs rs x rec = (behind, front)
  where
    behind : In x (q ∷ rs) → In x (p ∷ q ∷ qs)
    behind (inl e) = inr (inl e)
    behind (inr i) = elim (rec.0 i) [ inl e ↦ inl e | inr j ↦ inr (inr j) ]

    front : In x (p ∷ q ∷ qs) → In x (q ∷ rs)
    front (inl e) = inr (rec.1 (inl e))
    front (inr (inl e)) = inl e
    front (inr (inr j)) = inr (rec.1 (inr j))

insert-In : (p : Pair) (qs : List Pair) (x : Pair) → In x (insert p qs) ↔ In x (p ∷ qs)
unfolding insert
insert-In p [] x = (λ i. i, λ i. i)
insert-In p (q ∷ qs) x = elim (Bool-cases (leb p.size q.size)) [
  | inl t ↦ rw t (λ i. i, λ i. i)
  | inr f ↦ rw f (behind-In p q qs (insert p qs) x (insert-In p qs x))
]

cons-In :
    (p : Pair) (qs rs : List Pair) (x : Pair) → (In x qs → In x rs) → In x (p ∷ qs) → In x (p ∷ rs)
cons-In p qs rs x h (inl e) = inl e
cons-In p qs rs x h (inr i) = inr (h i)

sort-In : (ps : List Pair) (x : Pair) → In x (sort ps) ↔ In x ps
unfolding sort
sort-In [] x = (λ i. i, λ i. i)
sort-In (p ∷ ps) x =
    let (to, from) = insert-In p (sort ps) x in
    let (there, back) = sort-In ps x in
    (λ i. cons-In p (sort ps) ps x there (to i), λ i. from (cons-In p ps (sort ps) x back i))

sort-IsSort : IsSort sort
sort-IsSort = record { ascending = sort-Ascending; same_pairs = sort-In }

abbrev content : Bytes
content = codes "abcde"

-- A digest that counts.
sha : Bytes → Bytes
sha b = replicate 20 (length b)

abbrev contents_of : Bytes → Bytes → Option Bytes
contents_of magic partition = some content

abbrev two_pairs : List Pair
two_pairs =
    record { size = 4; sha1sum = some (codes "0404040404040404040404040404040404040404") }
    ∷ record { size = 2; sha1sum = some (codes "0202020202020202020202020202020202020202") }
    ∷ []

-- The shorter prefix is found, though it is named last.
short_loaded :
    read_partition sha sort contents_of two_pairs (some content)
    ≡ loaded (record { sha1 = replicate 20 2; bytes = codes "ab" })
unfolding read_partition sort insert sha parse_sha1 parse_pairs at_end hex_digit bytes_eq
short_loaded = refl

by_name :
    load_partition_contents sha sort contents_of (
      codes
        "MTD:boot:4:0404040404040404040404040404040404040404:2:0202020202020202020202020202020202020202")
    ≡ loaded (record { sha1 = replicate 20 2; bytes = codes "ab" })
unfolding load_partition_contents sort insert sha parse_sha1 parse_pairs at_end hex_digit bytes_eq
    strtol skip_spaces is_space read_signed read_number read_digits is_digit saturate tokens
    tokens_from flush to_word
by_name = refl

read_partition-IsShortest_example :
    IsShortest sha content two_pairs (record { sha1 = replicate 20 2; bytes = codes "ab" })
read_partition-IsShortest_example =
    read_partition-IsShortest sha sort contents_of content two_pairs
      (record { sha1 = replicate 20 2; bytes = codes "ab" }) sort-IsSort short_loaded
