-- ===== src/Applypatch/Target/Expendable.antt =====
-- applypatch/freecache.c: the files that FindExpendableFiles may list.
use cot_bootable_recovery_to.Base.{
  ◌≡◌, ◌≢◌, inl, inr, refl, true, Bool-cases, List, [], ◌∷◌, ◌++◌, Option, none, some, map, Bytes,
  bytes_eq, codes, starts_with,
}
use cot_bootable_recovery_to.Applypatch.Digest.{cache_temp_source}
use cot_bootable_recovery_to.Applypatch.Target.Space.{
  take_off, eliminate_open_files, expendable_dirs,
}

-- A file that may be deleted.
abbrev pub Expendable : Bytes → Type 0
Expendable q = (q ≢ cache_temp_source) × (starts_with (codes "/cache/") q ≡ true)

abbrev pub All : List Bytes → Type 0
All [] = Unit
All (q ∷ qs) = Expendable q × All qs

abbrev pub AllLeft : List (Option Bytes) → Type 0
AllLeft [] = Unit
AllLeft (none ∷ qs) = AllLeft qs
AllLeft (some q ∷ qs) = Expendable q × AllLeft qs

pub All-append : (qs : List Bytes) (q : Bytes) → All qs → Expendable q → All (qs ++ q ∷ [])
All-append [] q a e = (e, tt)
All-append (x ∷ qs) q (b, a) e = (b, All-append qs q a e)

pub AllLeft-map : (qs : List Bytes) → All qs → AllLeft (map (λ f. some f) qs)
AllLeft-map [] a = tt
AllLeft-map (q ∷ qs) (e, a) = (e, AllLeft-map qs a)

pub take_off-AllLeft :
    (link : Bytes) (qs : List (Option Bytes)) → AllLeft qs → AllLeft (take_off link qs)
unfolding take_off
take_off-AllLeft link [] a = tt
take_off-AllLeft link (none ∷ qs) a = take_off-AllLeft link qs a
take_off-AllLeft link (some q ∷ qs) (e, a) = elim (Bool-cases (bytes_eq q link)) [
  | inl t ↦ rw t (take_off-AllLeft link qs a)
  | inr f ↦ rw f (e, take_off-AllLeft link qs a)
]

pub eliminate-AllLeft :
    (links : List Bytes) (qs : List (Option Bytes))
    → AllLeft qs
    → AllLeft (eliminate_open_files links qs)
unfolding eliminate_open_files
eliminate-AllLeft [] qs a = a
eliminate-AllLeft (link ∷ links) qs a = elim (Bool-cases (starts_with (codes "/cache/") link)) [
  | inl t ↦ rw t (eliminate-AllLeft links (take_off link qs) (take_off-AllLeft link qs a))
  | inr f ↦ rw f (eliminate-AllLeft links qs a)
]

abbrev pub IsExpendableDir : Bytes → Type 0
IsExpendableDir dir =
    (name : Bytes) → starts_with (codes "/cache/") (dir ++ (codes "/" ++ name)) ≡ true

abbrev pub AllDirs : List Bytes → Type 0
AllDirs [] = Unit
AllDirs (dir ∷ dirs) = IsExpendableDir dir × AllDirs dirs

pub expendable_dirs-AllDirs : AllDirs expendable_dirs
unfolding starts_with
expendable_dirs-AllDirs = (λ name. refl, (λ name. refl, tt))
