-- ===== src/Minzip/Zip/Sorted.antt =====
-- minzip/Zip.c: inserting an entry keeps the order.
use Prim.Native.Nat.{Ordering}
use cot_bootable_recovery_to.Base.{
  ℕ, zero, suc, ◌+◌, ◌-◌, ◌/◌, ◌≤◌, ◌<◌, ◌≡◌, ◌∙◌, ◌⊎◌, inl, inr, refl, ap, true, false, List, [],
  ◌∷◌, Option, some, Bytes, length, get_elem?, take, drop, ltb, arith, Bool-cases, ltb→lt,
}
use cot_bootable_recovery_to.Base.Strcmp.{strcmp, strcmp→eq}
use cot_bootable_recovery_to.Minzip.Zip.Directory.{
  ZipEntry, compare_names, find_target, insert_at, insert_entry,
}
use cot_bootable_recovery_to.Minzip.Zip.Order.{
  compare_names_lem, LeName, LeName-refl, AllBelow, AllAbove, IsSorted, below_upto, above_from,
  LeName-swap, above_behind,
}

-- Putting an entry between those that are not behind it and those that are not in front of it.
AllAbove-insert_at :
    (i : ℕ) (name : Bytes) (e : ZipEntry) (es : List ZipEntry)
    → LeName name e.file_name
    → AllAbove name es
    → AllAbove name (insert_at i e es)
unfolding insert_at
AllAbove-insert_at zero name e es h a = (h, a)
AllAbove-insert_at (suc i) name e [] h a = (h, tt)
AllAbove-insert_at (suc i) name e (x ∷ es) h a = (a.0, AllAbove-insert_at i name e es h a.1)

insert_at-IsSorted :
    (i : ℕ) (e : ZipEntry) (es : List ZipEntry)
    → IsSorted es
    → AllBelow e.file_name (take i es)
    → AllAbove e.file_name (drop i es)
    → IsSorted (insert_at i e es)
unfolding insert_at
insert_at-IsSorted zero e es s b a = (a, s)
insert_at-IsSorted (suc i) e [] s b a = (tt, tt)
insert_at-IsSorted (suc i) e (x ∷ es) s b a =
    (AllAbove-insert_at i x.file_name e es b.0 s.0, insert_at-IsSorted i e es s.1 b.1 a)

pub length-insert_at :
    (i : ℕ) (e : ZipEntry) (es : List ZipEntry) → length (insert_at i e es) ≡ suc (length es)
unfolding insert_at
length-insert_at zero e es = refl
length-insert_at (suc i) e [] = refl
length-insert_at (suc i) e (x ∷ es) = ap suc (length-insert_at i e es)

get_elem?-some :
    (es : List ZipEntry) (i : ℕ) → i < length es → (e : ZipEntry) × (get_elem? es i ≡ some e)
get_elem?-some [] i h = absurd (omega arith)
get_elem?-some (e ∷ es) zero h = (e, refl)
get_elem?-some (e ∷ es) (suc i) h = get_elem?-some es i (omega arith)

-- A place for a name.
pub record Target (es : List ZipEntry) (name : Bytes) (r : Option ℕ) : Type 0 where
  pub place : ℕ
  pub found : r ≡ some place
  pub below : AllBelow name (take place es)
  pub above : AllAbove name (drop place es)

Ordering-cases : (o : Ordering) → (o ≡ Ordering.lt) ⊎ ((o ≡ Ordering.eq) ⊎ (o ≡ Ordering.gt))
Ordering-cases Ordering.lt = inl refl
Ordering-cases Ordering.eq = inr (inl refl)
Ordering-cases Ordering.gt = inr (inr refl)

Target-eq :
    {es : List ZipEntry} {name : Bytes} {r r' : Option ℕ}
    → r ≡ r'
    → Target es name r'
    → Target es name r
Target-eq e t = record { place = t.place; found = e ∙ t.found; below = t.below; above = t.above }

module _ (fuel : ℕ) (es : List ZipEntry) (name : Bytes) (low high : ℕ) where
  -- The element that a round looks at.
  abbrev middle : ℕ
  middle = low + (high - 1 - low) / 2

  find_target-stop : ltb low high ≡ false → find_target (suc fuel) es name low high ≡ some high
  unfolding find_target
  find_target-stop h = rw h

  find_target-right :
      (e : ZipEntry)
      → ltb low high ≡ true
      → get_elem? es middle ≡ some e
      → compare_names e.file_name name ≡ Ordering.lt
      → find_target (suc fuel) es name low high ≡ find_target fuel es name (middle + 1) high
  unfolding find_target
  find_target-right e h g o = rw (h, g, o)

  find_target-left :
      (e : ZipEntry)
      → ltb low high ≡ true
      → get_elem? es middle ≡ some e
      → compare_names e.file_name name ≡ Ordering.gt
      → find_target (suc fuel) es name low high ≡ find_target fuel es name low middle
  unfolding find_target
  find_target-left e h g o = rw (h, g, o)

  find_target-same :
      (e : ZipEntry)
      → ltb low high ≡ true
      → get_elem? es middle ≡ some e
      → compare_names e.file_name name ≡ Ordering.eq
      → find_target (suc fuel) es name low high ≡ some (middle + 1)
  unfolding find_target
  find_target-same e h g o = rw (h, g, o)

module _ (es : List ZipEntry) (name : Bytes) (s : IsSorted es) where
  find_target_lem :
      (fuel low high : ℕ)
      → high - low < fuel
      → low ≤ high
      → high ≤ length es
      → AllBelow name (take low es)
      → AllAbove name (drop high es)
      → Target es name (find_target fuel es name low high)
  find_target_lem zero low high f o l b a = absurd (omega arith)
  find_target_lem (suc fuel) low high f o l b a = elim (Bool-cases (ltb low high)) [
    | inr stop ↦
        let e : low ≡ high = ground arith in
        Target-eq (find_target-stop fuel es name low high stop)
          (record { place = high; found = refl; below = rw (← e) b; above = a })
    | inl go ↦
        let mid = middle fuel es name low high in
        let lt = ltb→lt low high go in
        let (e, g) = get_elem?-some es mid (omega arith) in
        let c = compare_names_lem e.file_name name in
        let n : mid + 1 ≡ suc mid = omega arith in
        elim (Ordering-cases (strcmp e.file_name name)) [
          | inl before ↦ Target-eq (find_target-right fuel es name low high e go g (c ∙ before)) (
              find_target_lem fuel (mid + 1) high (omega arith) (omega arith) l
                (rw n (below_upto es mid e name s g (λ q. cc))) a)
          | inr (inl same) ↦
              let q : e.file_name ≡ name = strcmp→eq e.file_name name same in
              Target-eq (find_target-same fuel es name low high e go g (c ∙ same)) (record {
                place = mid + 1;
                found = refl;
                below = rw n (below_upto es mid e name s g (λ q. cc));
                above = above_behind es mid e name s g (rw q (LeName-refl name));
              })
          | inr (inr behind) ↦
              Target-eq (find_target-left fuel es name low high e go g (c ∙ behind)) (
                find_target_lem fuel low mid (omega arith) (omega arith) (omega arith) b
                  (above_from es mid e name s g (LeName-swap e.file_name name (λ q. cc))))
        ]
  ]

-- Inserting an entry in the order of the names.
pub insert_entry_lem :
    (e : ZipEntry) (es : List ZipEntry)
    → IsSorted es
    → (i : ℕ) × (insert_entry e es ≡ some (insert_at i e es)) × IsSorted (insert_at i e es)
unfolding insert_entry
insert_entry_lem e es s =
    let n : drop (length es) es ≡ [] = drop_length es in
    let t =
      find_target_lem es e.file_name s (suc (length es)) 0 (length es) (omega arith) (omega arith)
        (omega arith) tt (rw n tt) in
    (t.place, rw (t.found, insert_entry) refl, insert_at-IsSorted t.place e es s t.below t.above)
  where
    drop_length : (l : List ZipEntry) → drop (length l) l ≡ []
    drop_length [] = refl
    drop_length (x ∷ l) = drop_length l
