-- ===== src/Minzip/Zip/Contiguous.antt =====
-- minzip/Zip.c: mzExtractRecursive handles exactly the entries of the directory.
use cot_bootable_recovery_to.Base.{
  ◌≤◌, ◌≡◌, ◌≢◌, ◌∙◌, ◌⊎◌, inl, inr, refl, sym, Bool, true, false, Bool-cases, List, [], ◌∷◌, ◌++◌,
  Option, some, Bytes, length, get_or, drop, ◌==◌, if◌then◌else◌, starts_with, arith,
}
use cot_bootable_recovery_to.Base.Strcmp.{strcmp}
use cot_bootable_recovery_to.Minzip.Zip.Directory.{ZipEntry}
use cot_bootable_recovery_to.Minzip.Zip.Order.{LeName, AllAbove, IsSorted}
use cot_bootable_recovery_to.Minzip.Zip.Path.{
  PathHelper, with_slash, IsHelper, target_entry_path_lem,
}
use cot_bootable_recovery_to.Minzip.Zip.Extract.{
  Host, Flags, Step, goes_on, breaks, extract_entry, under, extract_entries, zip_path, new_helper,
  extract_recursive,
}

-- What stands between two names with a prefix has it too.
between :
    (p a b c : Bytes)
    → LeName a b
    → LeName b c
    → starts_with p a ≡ true
    → starts_with p c ≡ true
    → starts_with p b ≡ true
unfolding starts_with strcmp
between [] a b c h k s t = refl
between (x ∷ p) [] b c h k s t = cc
between (x ∷ p) (y ∷ a) b [] h k s t = cc
between (x ∷ p) (y ∷ a) [] (w ∷ c) h k s t = absurd (h refl)
between (x ∷ p) (y ∷ a) (z ∷ b) (w ∷ c) h k s t = ground (arith, between p a b c)

starts_with-length : (p a : Bytes) → starts_with p a ≡ true → length p ≤ length a
unfolding starts_with
starts_with-length [] a h = omega arith
starts_with-length (x ∷ p) [] h = cc
starts_with-length (x ∷ p) (y ∷ a) h = ground (arith, starts_with-length p a)

under-starts_with : (zpath : Bytes) (e : ZipEntry) → under zpath e ≡ starts_with zpath e.file_name
unfolding under
under-starts_with zpath e = elim (Bool-cases (starts_with zpath e.file_name)) [
  | inl t ↦ let l = starts_with-length zpath e.file_name t in ground arith
  | inr f ↦ ground arith
]

-- The entries of a directory, in their order.
abbrev pub entries_under : Bytes → List ZipEntry → List ZipEntry
entries_under zpath [] = []
entries_under zpath (e ∷ es) =
    let rest = entries_under zpath es in if under zpath e then e ∷ rest else rest

none_under :
    (zpath first x : Bytes) (es : List ZipEntry)
    → starts_with zpath first ≡ true
    → LeName first x
    → starts_with zpath x ≡ false
    → AllAbove x es
    → entries_under zpath es ≡ []
none_under zpath first x [] s l f a = refl
none_under zpath first x (e ∷ es) s l f a =
    rw (out (Bool-cases (under zpath e))) (none_under zpath first x es s l f a.1)
  where
    out : (under zpath e ≡ true) ⊎ (under zpath e ≡ false) → under zpath e ≡ false
    out (inr g) = g
    out (inl g) =
        let t : starts_with zpath e.file_name ≡ true = sym (under-starts_with zpath e) ∙ g in
        let q = between zpath first x e.file_name l a.0 s t in cc

module _ {S : Type 0} (h : Host S) (flags : Flags) (zpath dir : Bytes) where
  -- One entry after the other, until one of them ends the loop.
  abbrev pub extract_each : List ZipEntry → S → S × Bool
  extract_each [] s = (s, true)
  extract_each (e ∷ es) s =
      elim (extract_entry h flags e (with_slash dir ++ drop (length zpath) e.file_name) s) [
        | goes_on s1 ↦ extract_each es s1
        | breaks s1 ok ↦ (s1, ok)
      ]

  -- An entry of the directory came before the others.
  abbrev Seen : Bool → List ZipEntry → Type 0
  Seen false es = Unit
  Seen true es = (e : ZipEntry) × (starts_with zpath e.file_name ≡ true) × AllAbove e.file_name es

  each_step :
      (r : Step S) (helper : PathHelper) (here es : List ZipEntry)
      → ((s1 : S) → extract_entries h flags zpath es helper true s1 ≡ some (extract_each here s1))
      → (elim r as (λ _. Option (S × Bool)) [
        | goes_on s1 ↦ extract_entries h flags zpath es helper true s1
        | breaks s1 ok ↦ some (s1, ok)
      ])
        ≡ some (elim r as (λ _. S × Bool) [
          | goes_on s1 ↦ extract_each here s1
          | breaks s1 ok ↦ (s1, ok)
        ])
  each_step (goes_on s1) helper here es k = k s1
  each_step (breaks s1 ok) helper here es k = refl

  extract_entries_lem :
      (es : List ZipEntry) (helper : PathHelper) (seen : Bool) (s : S)
      → IsSorted es
      → IsHelper dir (length zpath) helper
      → Seen seen es
      → extract_entries h flags zpath es helper seen s
        ≡ some (extract_each (entries_under zpath es) s)
  unfolding extract_entries
  extract_entries_lem [] helper seen s o v w = refl
  extract_entries_lem (e ∷ es) helper seen s o v w = elim (Bool-cases (under zpath e)) [
    | inl t ↦
        let u = sym (under-starts_with zpath e) ∙ t in
        let long = starts_with-length zpath e.file_name u in
        let g = target_entry_path_lem dir (length zpath) helper e.file_name v long in
        let path = with_slash dir ++ drop (length zpath) e.file_name in
        rw (t, g.result)
          (each_step (extract_entry h flags e path s) g.next (entries_under zpath es) es
            (λ s1. extract_entries_lem es g.next true s1 o.1 g.again (e, u, o.0)))
    | inr f ↦ rw f (
        miss seen w (sym (under-starts_with zpath e) ∙ f)
          (extract_entries_lem es helper false s o.1 v tt))
  ]
    where
      miss :
          (seen : Bool)
          → Seen seen (e ∷ es)
          → starts_with zpath e.file_name ≡ false
          → extract_entries h flags zpath es helper false s
            ≡ some (extract_each (entries_under zpath es) s)
          → (if seen then some (s, true) else extract_entries h flags zpath es helper seen s)
            ≡ some (extract_each (entries_under zpath es) s)
      miss false w f r = r
      miss true (first, t, l) f r =
          rw (none_under zpath first.file_name e.file_name es t l.0 f o.0) refl

-- On sorted entries, for a relative directory of the archive and an absolute target, mzExtractRecursive handles
-- the entries that begin with the directory, all of them and no others, in their order and until one ends the loop, each
-- with the target directory, a slash and the rest of its name as its path.
pub extract_recursive-each :
    {S : Type 0} (h : Host S) (flags : Flags) (es : List ZipEntry) (zip_dir dir : Bytes) (s : S)
    → IsSorted es
    → get_or zip_dir 0 0 ≢ 47
    → get_or dir 0 0 ≡ 47
    → extract_recursive h flags es zip_dir dir s
      ≡ some (extract_each h flags (zip_path zip_dir) dir (entries_under (zip_path zip_dir) es) s)
unfolding extract_recursive new_helper
extract_recursive-each h flags es zip_dir dir s o rel abs =
    let r =
      extract_entries_lem h flags (zip_path zip_dir) dir es (new_helper dir (zip_path zip_dir))
        false s o (record { target = refl; zip_dir = refl; front = inl (refl, refl) }) tt in
    let n : (get_or zip_dir 0 0 == 47) ≡ false = ground arith in rw (n, abs) r
