-- ===== src/Minzip/Zip/Order.antt =====
-- minzip/Zip.c: the order of the entries.
use Prim.Native.Nat.{Ordering}
use cot_bootable_recovery_to.Base.{
  ℕ, zero, suc, ◌+◌, min, ◌≡◌, ◌≢◌, ◌∙◌, refl, sym, List, [], ◌∷◌, some, Bytes, length, get_elem?,
  take, drop, arith,
}
use cot_bootable_recovery_to.Base.Strcmp.{strcmp, strcmp_refl}
use cot_bootable_recovery_to.Minzip.Zip.Directory.{ZipEntry, compare_names}

-- The comparison of the source is the order of the names as strings.
pub compare_names_lem : (a b : Bytes) → compare_names a b ≡ strcmp a b
unfolding compare_names strcmp
compare_names_lem [] [] = refl
compare_names_lem [] (y ∷ ys) = ground arith
compare_names_lem (x ∷ xs) [] = ground arith
compare_names_lem (x ∷ xs) (y ∷ ys) =
    let m : min (length (x ∷ xs)) (length (y ∷ ys)) ≡ suc (min (length xs) (length ys)) =
      omega arith in
    rw (m, compare_names) (ground (arith, compare_names_lem xs ys))

-- `a` does not stand behind `b`.
abbrev pub LeName : Bytes → Bytes → Type 0
LeName a b = strcmp a b ≢ Ordering.gt

pub LeName-refl : (a : Bytes) → LeName a a
LeName-refl a e = let q : Ordering.eq ≡ Ordering.gt = sym (strcmp_refl a) ∙ e in cc

LeName-trans : (a b c : Bytes) → LeName a b → LeName b c → LeName a c
unfolding strcmp
LeName-trans [] [] c h k = k
LeName-trans [] (y ∷ ys) [] h k = λ e. cc
LeName-trans [] (y ∷ ys) (z ∷ zs) h k = λ e. cc
LeName-trans (x ∷ xs) [] c h k = absurd (h refl)
LeName-trans (x ∷ xs) (y ∷ ys) [] h k = absurd (k refl)
LeName-trans (x ∷ xs) (y ∷ ys) (z ∷ zs) h k = ground (arith, LeName-trans xs ys zs)

-- Every entry's name comes in front of a name, or behind it, or is the same.
abbrev pub AllBelow : Bytes → List ZipEntry → Type 0
AllBelow name [] = Unit
AllBelow name (e ∷ es) = LeName e.file_name name × AllBelow name es

abbrev pub AllAbove : Bytes → List ZipEntry → Type 0
AllAbove name [] = Unit
AllAbove name (e ∷ es) = LeName name e.file_name × AllAbove name es

abbrev pub IsSorted : List ZipEntry → Type 0
IsSorted [] = Unit
IsSorted (e ∷ es) = AllAbove e.file_name es × IsSorted es

pub AllAbove-trans : (a b : Bytes) (es : List ZipEntry) → LeName a b → AllAbove b es → AllAbove a es
AllAbove-trans a b [] h k = tt
AllAbove-trans a b (e ∷ es) h k = (LeName-trans a b e.file_name h k.0, AllAbove-trans a b es h k.1)

-- What an entry that is not behind a name, or not in front of it, says of the others.
pub below_upto :
    (es : List ZipEntry) (i : ℕ) (e : ZipEntry) (name : Bytes)
    → IsSorted es
    → get_elem? es i ≡ some e
    → LeName e.file_name name
    → AllBelow name (take (suc i) es)
below_upto [] i e name s g h = tt
below_upto (x ∷ es) zero e name s g h = let q : x ≡ e = cc in (rw q h, tt)
below_upto (x ∷ es) (suc i) e name s g h = (
  LeName-trans x.file_name e.file_name name (above_at es i e x.file_name s.0 g) h,
  below_upto es i e name s.1 g h,
)
  where
    above_at :
        (es : List ZipEntry) (i : ℕ) (e : ZipEntry) (name : Bytes)
        → AllAbove name es
        → get_elem? es i ≡ some e
        → LeName name e.file_name
    above_at [] i e name a g = cc
    above_at (x ∷ es) zero e name a g = let q : x ≡ e = cc in rw (← q) a.0
    above_at (x ∷ es) (suc i) e name a g = above_at es i e name a.1 g

pub above_from :
    (es : List ZipEntry) (i : ℕ) (e : ZipEntry) (name : Bytes)
    → IsSorted es
    → get_elem? es i ≡ some e
    → LeName name e.file_name
    → AllAbove name (drop i es)
above_from [] i e name s g h = cc
above_from (x ∷ es) zero e name s g h =
    let q : x ≡ e = cc in
    let h' : LeName name x.file_name = rw q h in (h', AllAbove-trans name x.file_name es h' s.0)
above_from (x ∷ es) (suc i) e name s g h = above_from es i e name s.1 g h

pub LeName-swap : (a b : Bytes) → strcmp a b ≢ Ordering.lt → LeName b a
unfolding strcmp
LeName-swap [] [] h = λ e. cc
LeName-swap [] (y ∷ ys) h = absurd (h refl)
LeName-swap (x ∷ xs) [] h = λ e. cc
LeName-swap (x ∷ xs) (y ∷ ys) h = ground (arith, LeName-swap xs ys)

pub above_behind :
    (es : List ZipEntry) (i : ℕ) (e : ZipEntry) (name : Bytes)
    → IsSorted es
    → get_elem? es i ≡ some e
    → LeName name e.file_name
    → AllAbove name (drop (i + 1) es)
above_behind [] i e name s g h = cc
above_behind (x ∷ es) zero e name s g h =
    let q : x ≡ e = cc in AllAbove-trans name x.file_name es (rw q h) s.0
above_behind (x ∷ es) (suc i) e name s g h =
    let n : suc i + 1 ≡ suc (i + 1) = omega arith in rw n (above_behind es i e name s.1 g h)
