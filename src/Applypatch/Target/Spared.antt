-- ===== src/Applypatch/Target/Spared.antt =====
-- applypatch/freecache.c: lemmas on MakeFreeSpaceOnCache.
use cot_bootable_recovery_to.Base.{
  ℕ, ◌≡◌, ◌≢◌, ◌⊎◌, inl, inr, refl, Bool, true, false, Bool-cases, List, [], ◌∷◌, ◌++◌, Option,
  none, some, map, Bytes, bytes_eq, bytes_eq_refl, codes, leb, starts_with, if◌then◌else◌,
}
use cot_bootable_recovery_to.Applypatch.Digest.{cache_temp_source}
use cot_bootable_recovery_to.Applypatch.Target.Calls.{Disk, Prog, ret, ◌>>=◌, Reach}
use cot_bootable_recovery_to.Applypatch.Target.Runs.{
  Always, Makes, Makes-bind, Always-Reach, Always-now,
}
use cot_bootable_recovery_to.Applypatch.Target.Frame.{Holds, Untouched, Untouched-Always}
use cot_bootable_recovery_to.Applypatch.Target.Space.{
  eliminate_open_files, regular_files, files_in, expendable_dirs, without_open,
  find_expendable_files, delete_files, delete_found, make_free_space_on_cache,
}
use cot_bootable_recovery_to.Applypatch.Target.Expendable.{
  Expendable, All, AllLeft, All-append, AllLeft-map, eliminate-AllLeft, IsExpendableDir, AllDirs,
  expendable_dirs-AllDirs,
}

-- A file that is not expendable.
module _ (p : Bytes) (spared : (q : Bytes) → Expendable q → q ≢ p) where
  regular_files-Untouched :
      (dir : Bytes) (names found : List Bytes)
      → IsExpendableDir dir
      → All found
      → Makes (Untouched p) All (regular_files dir names found)
  unfolding regular_files
  regular_files-Untouched dir [] found x a = a
  regular_files-Untouched dir (name ∷ names) found x a =
      elim (Bool-cases (bytes_eq (dir ++ (codes "/" ++ name)) cache_temp_source)) [
        | inl t ↦ rw t (regular_files-Untouched dir names found x a)
        | inr f ↦ rw f (tt, λ regular. regular_files-Untouched dir names _ x (kept f regular))
      ]
    where
      kept :
          bytes_eq (dir ++ (codes "/" ++ name)) cache_temp_source ≡ false
          → (regular : Bool)
          → All (if regular then found ++ ((dir ++ (codes "/" ++ name)) ∷ []) else found)
      kept f true = All-append found _ a (
        λ e.
            let t = bytes_eq_refl cache_temp_source in
            let u : bytes_eq cache_temp_source cache_temp_source ≡ false = rw (e) at f in cc,
        x name,
      )
      kept f false = a

  files_in-Untouched :
      (dirs found : List Bytes)
      → AllDirs dirs
      → All found
      → Makes (Untouched p) All (files_in dirs found)
  unfolding files_in
  files_in-Untouched [] found x a = a
  files_in-Untouched (dir ∷ dirs) found (x, xs) a =
      (tt, listed (λ found'. files_in-Untouched dirs found' xs))
    where
      listed :
          ((found' : List Bytes) → All found' → Makes (Untouched p) All (files_in dirs found'))
          → (names : Option (List Bytes))
          → Makes (Untouched p) All (elim names as (λ _. Prog (List Bytes)) [
            | none ↦ files_in dirs found
            | some names ↦ regular_files dir names found >>= λ found'. files_in dirs found'
          ])
      listed rec none = rec found a
      listed rec (some names) =
          Makes-bind (Untouched p) All All _ _ (regular_files-Untouched dir names found x a) rec

  abbrev AllFound : Option (List (Option Bytes)) → Type 0
  AllFound none = Unit
  AllFound (some qs) = AllLeft qs

  without_open-Untouched :
      (found : List Bytes) → All found → Makes (Untouched p) AllFound (without_open found)
  unfolding without_open
  without_open-Untouched found a = (tt, left)
    where
      left :
          (links : Option (List Bytes))
          → Makes (Untouched p) AllFound (elim links as (λ _. Prog (Option (List (Option Bytes)))) [
            | none ↦ ret none
            | some l ↦ ret (some (eliminate_open_files l (map (λ f. some f) found)))
          ])
      left none = tt
      left (some l) = eliminate-AllLeft l _ (AllLeft-map found a)

  find_expendable_files-Untouched : Makes (Untouched p) AllFound find_expendable_files
  unfolding find_expendable_files
  find_expendable_files-Untouched =
      Makes-bind (Untouched p) All AllFound (files_in expendable_dirs []) without_open
        (files_in-Untouched expendable_dirs [] expendable_dirs-AllDirs tt) without_open-Untouched

  delete_files-Untouched :
      (qs : List (Option Bytes)) (needed free : ℕ)
      → AllLeft qs
      → Makes (Untouched p) (λ _. Unit {0}) (delete_files qs needed free)
  unfolding delete_files
  delete_files-Untouched [] needed free a = tt
  delete_files-Untouched (none ∷ qs) needed free a = elim (Bool-cases (leb needed free)) [
    | inl t ↦ rw t tt
    | inr f ↦ rw f (delete_files-Untouched qs needed free a)
  ]
  delete_files-Untouched (some q ∷ qs) needed free (e, a) = elim (Bool-cases (leb needed free)) [
    | inl t ↦ rw t tt
    | inr f ↦ rw f (spared q e, λ gone. (tt, λ free'. delete_files-Untouched qs needed free' a))
  ]

  delete_found-Untouched :
      (needed free : ℕ) (found : Option (List (Option Bytes)))
      → AllFound found
      → Makes (Untouched p) (λ _. Unit {0}) (delete_found needed free found)
  unfolding delete_found
  delete_found-Untouched needed free none a = tt
  delete_found-Untouched needed free (some []) a = tt
  delete_found-Untouched needed free (some (q ∷ qs)) a =
      delete_files-Untouched (q ∷ qs) needed free a

  pub make_free_space-Untouched :
      (needed : ℕ) → Makes (Untouched p) (λ _. Unit {0}) (make_free_space_on_cache needed)
  unfolding make_free_space_on_cache
  make_free_space-Untouched needed = (tt, enough)
    where
      enough :
          (free : ℕ)
          → Makes
              (Untouched p)
              (λ _. Unit {0})
              (if leb needed free
                then ret true
                else find_expendable_files >>= λ found. delete_found needed free found)
      enough free = elim (Bool-cases (leb needed free)) [
        | inl t ↦ rw t tt
        | inr f ↦ rw f (
            Makes-bind (Untouched p) AllFound (λ _. Unit {0}) find_expendable_files
              (delete_found needed free) find_expendable_files-Untouched
              (delete_found-Untouched needed free))
      ]

-- A file that is left alone.
abbrev pub IsSpared : Bytes → Type 0
IsSpared p = (p ≡ cache_temp_source) ⊎ (starts_with (codes "/cache/") p ≡ false)

Expendable-ne : (p : Bytes) → IsSpared p → (q : Bytes) → Expendable q → q ≢ p
Expendable-ne p (inl e) q (ne, c) x = ne (rw x e)
Expendable-ne p (inr f) q (ne, c) x =
    let t : starts_with (codes "/cache/") p ≡ true = rw x at c in cc

pub make_free_space-Holds :
    (needed : ℕ) (p : Bytes) (content : Option Bytes) (d : Disk)
    → IsSpared p
    → Holds p content d
    → Always (Holds p content) (λ _ _. Unit {0}) (make_free_space_on_cache needed) d
make_free_space-Holds needed p content d s h =
    Untouched-Always p content (λ _. Unit {0}) (make_free_space_on_cache needed) d
      (make_free_space-Untouched p (Expendable-ne p s) needed) h

-- At each moment of MakeFreeSpaceOnCache, whatever its calls answer, the saved copy of a source file and all files
-- outside of /cache are as they were.
pub make_free_space-Reach :
    (needed : ℕ) (p : Bytes) (d : Disk) (m : Prog Bool) (d' : Disk)
    → Reach (make_free_space_on_cache needed) d m d'
    → (p ≡ cache_temp_source) ⊎ (starts_with (codes "/cache/") p ≡ false)
    → d'.files p ≡ d.files p
make_free_space-Reach needed p d m d' r s =
    Always-now (Holds p (d.files p)) (λ _ _. Unit {0}) m d'
      (Always-Reach (Holds p (d.files p)) (λ _ _. Unit {0}) r
        (make_free_space-Holds needed p (d.files p) d s refl))
