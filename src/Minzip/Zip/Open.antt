-- ===== src/Minzip/Zip/Open.antt =====
-- minzip/Zip.c: what opening an archive gives.
use native.Mathlib.Decide.{ℕ_discrete}
use cot_bootable_recovery_to.Base.{
  ℕ, zero, suc, ◌+◌, ◌-◌, ◌≤◌, ◌<◌, ◌≡◌, refl, Bool, true, false, ◌&&◌, Bool-cases, inl, inr, List,
  Option, none, some, Bytes, length, get_or, ◌==◌, if◌then◌else◌, arith,
}
use cot_bootable_recovery_to.Minzip.Zip.Directory.{
  ZipEntry, get2le, get4le, Parsed, parsed, bad, fault, find_end, parse_directory, parse_archive,
  open_entries, endsig,
}
use cot_bootable_recovery_to.Minzip.Zip.Parse.{
  Yields, is_parsed, is_bad, bail_if-Yields, touch-Yields, Directory, parse_entries-Directory,
  not_over,
}

-- The record that ends the directory is the last place with its signature.
pub record IsEnd (map : Bytes) (top ptr : ℕ) : Type 0 where
  pub inside : ptr < top
  pub signature : get4le map ptr ≡ endsig
  pub last :
      (q : ℕ) → ptr < q → q < top → (get_or map q 0 == 0x50 && get4le map q == endsig) ≡ false

find_end-IsEnd : (top : ℕ) (map : Bytes) (ptr : ℕ) → find_end top map ≡ some ptr → IsEnd map top ptr
unfolding find_end
find_end-IsEnd zero map ptr e = cc
find_end-IsEnd (suc p) map ptr e =
    elim (Bool-cases (get_or map p 0 == 0x50 && get4le map p == endsig)) [
      | inl here ↦ top_end here e
      | inr not_here ↦
          let r = find_end-IsEnd p map ptr (below not_here e) in
          record {
            inside = omega (arith, r.inside);
            signature = r.signature;
            last = λ q lt lt'. elim (ℕ_discrete q p) [
              | yes same ↦ rw same not_here
              | no ne ↦ r.last q lt (omega arith)
            ];
          }
    ]
  where
    below :
        {b : Bool} {rest : Option ℕ}
        → b ≡ false
        → (if b then some p else rest) ≡ some ptr
        → rest ≡ some ptr
    below {b = true} h e = cc
    below {b = false} h e = e

    top_end :
        (get_or map p 0 == 0x50 && get4le map p == endsig) ≡ true
        → (if get_or map p 0 == 0x50 && get4le map p == endsig then some p else find_end p map)
          ≡ some ptr
        → IsEnd map (suc p) ptr
    top_end here e =
        let same : p ≡ ptr = ground arith in
        let signature : get4le map p ≡ endsig = ground arith in
        rw (← same) (record {
          inside = omega arith;
          signature = signature;
          last = λ q lt lt'. absurd (omega arith);
        })

-- The entries of the directory that the last record announces.
pub record IsOpened (map : Bytes) (es : List ZipEntry) : Type 0 where
  pub ptr : ℕ
  pub ended : IsEnd map (length map - 21) ptr
  pub directory : Directory map (get4le map (ptr + 16)) (get2le map (ptr + 8)) es

parse_directory-IsOpened :
    (map : Bytes) (ptr : ℕ)
    → 22 ≤ length map
    → IsEnd map (length map - 21) ptr
    → Yields (IsOpened map) (parse_directory map ptr)
unfolding parse_directory
parse_directory-IsOpened map ptr big ended =
    touch-Yields (IsOpened map) map ptr 20 _ (omega (arith, ended.inside)) (
      bail_if-Yields (IsOpened map) _ _ (λ known.
        opened _ (parse_entries-Directory (get2le map (ptr + 8)) map (get4le map (ptr + 16)))))
  where
    opened :
        (r : Parsed (List ZipEntry))
        → Yields (Directory map (get4le map (ptr + 16)) (get2le map (ptr + 8))) r
        → Yields (IsOpened map) r
    opened (parsed es) (is_parsed d) =
        is_parsed (record { ptr = ptr; ended = ended; directory = d })
    opened bad y = is_bad
    opened fault y = elim y [ ]

-- Opening an archive reads no byte outside of the file. What it gives are the entries of
-- as many headers as the last end record says, which stand one behind the other from the place that
-- it says, in the order of their names, each with a short printable name, from a compatible system,
-- and with its data inside the file.
pub open_entries-IsOpened : (map : Bytes) → Yields (IsOpened map) (open_entries map)
unfolding open_entries parse_archive
open_entries-IsOpened map = bail_if-Yields (IsOpened map) _ _ (λ big.
    touch-Yields (IsOpened map) map 0 4 _ (within_four _ (not_over _ _ big)) (
      bail_if-Yields (IsOpened map) _ _ (λ some_entry. bail_if-Yields (IsOpened map) _ _ (λ local.
        found (find_end (length map - 22 + 1) map) (λ ptr e.
          parse_directory-IsOpened map ptr (not_over _ _ big)
            (rw (top (length map) (not_over _ _ big)) (find_end-IsEnd _ map ptr e)))))))
  where
    within_four : (n : ℕ) → 22 ≤ n → 0 + 4 ≤ n
    within_four n h = omega arith

    top : (n : ℕ) → 22 ≤ n → n - 21 ≡ n - 22 + 1
    top n h = omega arith

    found :
        (o : Option ℕ)
        → ((ptr : ℕ) → o ≡ some ptr → Yields (IsOpened map) (parse_directory map ptr))
        → Yields (IsOpened map) (elim o as (λ _. Parsed (List ZipEntry)) [
          | none ↦ bad
          | some ptr ↦ parse_directory map ptr
        ])
    found none k = is_bad
    found (some ptr) k = k ptr refl
