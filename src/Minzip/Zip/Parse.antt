-- ===== src/Minzip/Zip/Parse.antt =====
-- minzip/Zip.c: what parsing a central directory gives.
use mathlib.Core.Path.{subst}
use mathlib.Core.List.{Perm, perm_middle}
use mathlib.Core.List.Perm
use cot_bootable_recovery_to.Base.{
  ℕ, zero, suc, ◌+◌, ◌≤◌, ◌<◌, ◌≡◌, refl, sym, ◌==◌, ◌++◌, append-nil, Bool, true, false, not, List,
  [], ◌∷◌, none, some, Bytes, length, take, drop, ltb, le→ltb, arith,
}
use cot_bootable_recovery_to.Minzip.Zip.Directory.{
  ZipEntry, get2le, Parsed, parsed, bad, fault, touch, printable, valid_filename, compatible,
  entry_at, bail_if, and_next, parse_local, parse_entry, insert_at, insert_entry, parse_entries,
  path_max, get4le, censig, locsig, lochdr,
}
use cot_bootable_recovery_to.Minzip.Zip.Order.{IsSorted}
use cot_bootable_recovery_to.Minzip.Zip.Sorted.{insert_entry_lem, length-insert_at}

-- The name's characters are printable and it is shorter than PATH_MAX, and the data lies in the map.
pub record IsEntry (map : Bytes) (e : ZipEntry) : Type 0 where
  pub short : length e.file_name < path_max
  pub clean : printable e.file_name ≡ true
  pub within : e.offset + e.comp_len ≤ length map
  pub known : compatible e.version_made_by ≡ true

abbrev pub AreEntries : Bytes → List ZipEntry → Type 0
AreEntries map [] = Unit
AreEntries map (e ∷ es) = IsEntry map e × AreEntries map es

-- A result that is no fault, with a property of what it gives.
pub data Yields {A : Type 0} (P : A → Type 0) : Parsed A → Type 0 where
  is_parsed : {a : A} → P a → Yields P (parsed a)
  is_bad : Yields P bad

module _ {A : Type 0} (P : A → Type 0) where
  pub bail_if-Yields : (b : Bool) (r : Parsed A) → (b ≡ false → Yields P r) → Yields P (bail_if b r)
  unfolding bail_if
  bail_if-Yields true r h = is_bad
  bail_if-Yields false r h = h refl

  pub touch-Yields :
      (map : Bytes) (p size : ℕ) (r : Parsed A)
      → p + size ≤ length map
      → Yields P r
      → Yields P (touch map p size r)
  unfolding touch
  touch-Yields map p size r h y = rw (le→ltb (length map) (p + size) h) y

-- Where the data of a local header stand.
abbrev pub data_at : Bytes → ℕ → ℕ
data_at map local = local + lochdr + get2le map (local + 26) + get2le map (local + 28)

-- The central header at a place says of an entry what it has, down to the place of its data behind
-- the local header.
pub record IsHeader (map : Bytes) (ptr : ℕ) (e : ZipEntry) : Type 0 where
  pub central : get4le map ptr ≡ 0x02014b50
  pub name : e.file_name ≡ take (get2le map (ptr + 28)) (drop (ptr + 46) map)
  pub made_by : e.version_made_by ≡ get2le map (ptr + 4)
  pub method : e.compression ≡ get2le map (ptr + 10)
  pub time : e.mod_time ≡ get4le map (ptr + 12)
  pub checksum : e.crc32 ≡ get4le map (ptr + 16)
  pub compressed : e.comp_len ≡ get4le map (ptr + 20)
  pub uncompressed : e.uncomp_len ≡ get4le map (ptr + 24)
  pub attributes : e.external_attributes ≡ get4le map (ptr + 38)
  pub local : get4le map (get4le map (ptr + 42)) ≡ 0x04034b50
  pub start : e.offset ≡ data_at map (get4le map (ptr + 42))

-- Behind a header stand its name, extra field and comment.
abbrev pub next_header : Bytes → ℕ → ℕ
next_header map ptr =
    ptr + (46 + get2le map (ptr + 28) + get2le map (ptr + 30) + get2le map (ptr + 32))

-- The entries of the headers that stand one behind the other from a place on.
abbrev pub Headers : Bytes → ℕ → List ZipEntry → Type 0
Headers map ptr [] = Unit
Headers map ptr (e ∷ es) = IsHeader map ptr e × Headers map (next_header map ptr) es

-- The entry keeps its other fields, and its data lies in the map behind the local header.
abbrev Located : Bytes → ℕ → ZipEntry → ZipEntry → Type 0
Located map local e e' =
    (e' ≡ record e { offset = data_at map local })
    × (data_at map local + e.comp_len ≤ length map)
    × (get4le map local ≡ locsig)

pub not_over : (a b : ℕ) → ltb a b ≡ false → b ≤ a
not_over a b h = ground arith

not-differs : (a b : ℕ) → not (a == b) ≡ false → a ≡ b
not-differs a b h = ground arith

parse_local-Located :
    (map : Bytes) (local : ℕ) (e : ZipEntry)
    → Yields (Located map local e) (parse_local map local e)
unfolding parse_local
parse_local-Located map local e =
    let P = Located map local e in
    bail_if-Yields P _ _ (λ fits. touch-Yields P map local 30 _ (not_over _ _ fits) (
      bail_if-Yields P _ _ (λ right.
        bail_if-Yields P _ _
          (λ within. is_parsed (refl, not_over _ _ within, not-differs _ _ right)))))

valid-short :
    (name : Bytes)
    → not (valid_filename name) ≡ false
    → (length name < path_max) × (printable name ≡ true)
unfolding valid_filename
valid-short name h = (ground arith, ground arith)

not-false : (b : Bool) → not b ≡ false → b ≡ true
not-false true h = refl
not-false false h = cc

abbrev OfEntry : Bytes → ℕ → ZipEntry × ℕ → Type 0
OfEntry map ptr p = IsEntry map p.0 × IsHeader map ptr p.0 × (p.1 ≡ next_header map ptr)

-- The name in a central header.
abbrev name_of : Bytes → ℕ → Bytes
name_of map ptr = take (get2le map (ptr + 28)) (drop (ptr + 46) map)

module _ (map : Bytes) (ptr : ℕ) (central : get4le map ptr ≡ censig)
    (short : length (name_of map ptr) < path_max) (clean : printable (name_of map ptr) ≡ true)
    (known : compatible (get2le map (ptr + 4)) ≡ true) where
  located_entry :
      data_at map (get4le map (ptr + 42)) + get4le map (ptr + 20) ≤ length map
      → get4le map (get4le map (ptr + 42)) ≡ locsig
      → OfEntry map ptr (
        entry_at map ptr (name_of map ptr) (data_at map (get4le map (ptr + 42))),
        next_header map ptr,
      )
  unfolding entry_at
  located_entry within sig = (
    record { short = short; clean = clean; within = within; known = known },
    record {
      central = central;
      name = refl;
      made_by = refl;
      method = refl;
      time = refl;
      checksum = refl;
      compressed = refl;
      uncompressed = refl;
      attributes = refl;
      local = sig;
      start = refl;
    },
    refl,
  )

  and_next-OfEntry :
      (r : Parsed ZipEntry)
      → Yields (Located map (get4le map (ptr + 42)) (entry_at map ptr (name_of map ptr) 0)) r
      → Yields (OfEntry map ptr) (and_next (next_header map ptr) r)
  unfolding and_next entry_at
  and_next-OfEntry (parsed e') (is_parsed (q, w, sig)) = is_parsed (
      subst (λ (x : ZipEntry). OfEntry map ptr (x, next_header map ptr)) (sym q)
        (located_entry w sig))
  and_next-OfEntry bad y = is_bad
  and_next-OfEntry fault y = elim y [ ]

parse_entry-OfEntry : (map : Bytes) (ptr : ℕ) → Yields (OfEntry map ptr) (parse_entry map ptr)
unfolding parse_entry entry_at
parse_entry-OfEntry map ptr =
    let P = OfEntry map ptr in
    bail_if-Yields P _ _ (λ fits. touch-Yields P map ptr 46 _ (not_over _ _ fits) (
      bail_if-Yields P _ _ (λ right. bail_if-Yields P _ _ (λ named. bail_if-Yields P _ _ (λ valid.
        let (short, clean) = valid-short _ valid in
        bail_if-Yields P _ _ (λ known.
          and_next-OfEntry map ptr (not-differs _ _ right) short clean (not-false _ known) _
            (parse_local-Located map _ _)))))))

AreEntries-insert_at :
    (map : Bytes) (i : ℕ) (e : ZipEntry) (es : List ZipEntry)
    → IsEntry map e
    → AreEntries map es
    → AreEntries map (insert_at i e es)
unfolding insert_at
AreEntries-insert_at map zero e es h a = (h, a)
AreEntries-insert_at map (suc i) e [] h a = (h, tt)
AreEntries-insert_at map (suc i) e (x ∷ es) h a = (a.0, AreEntries-insert_at map i e es h a.1)

insert_at-perm : (i : ℕ) (e : ZipEntry) (es : List ZipEntry) → Perm (insert_at i e es) (e ∷ es)
unfolding insert_at
insert_at-perm zero e es = Perm.rfl
insert_at-perm (suc i) e [] = Perm.rfl
insert_at-perm (suc i) e (x ∷ es) =
    Perm.trans (Perm.cons x (insert_at-perm i e es)) (Perm.swap e x es)

-- The entries of an archive: those of `n` headers from a place on, in the order of their names.
pub record Directory (map : Bytes) (start n : ℕ) (es : List ZipEntry) : Type 0 where
  pub listed : List ZipEntry
  pub headers : Headers map start listed
  pub same : Perm es listed
  pub count : length es ≡ n
  pub sorted : IsSorted es
  pub entries : AreEntries map es

-- The same after some entries were there.
pub record Gathered (map : Bytes) (ptr n : ℕ) (before es : List ZipEntry) : Type 0 where
  pub listed : List ZipEntry
  pub headers : Headers map ptr listed
  pub same : Perm es (listed ++ before)
  pub count : length es ≡ n + length before
  pub sorted : IsSorted es
  pub entries : AreEntries map es

Gathered-step :
    (map : Bytes) (ptr n i : ℕ) (e : ZipEntry) (before es : List ZipEntry)
    → IsHeader map ptr e
    → Gathered map (next_header map ptr) n (insert_at i e before) es
    → Gathered map ptr (suc n) before es
Gathered-step map ptr n i e before es h g = record {
  listed = e ∷ g.listed;
  headers = (h, g.headers);
  same = Perm.trans g.same (
      Perm.trans (Perm.append_left g.listed (insert_at-perm i e before))
        (perm_middle g.listed before));
  count = omega (arith, g.count, length-insert_at i e before);
  sorted = g.sorted;
  entries = g.entries;
}

Gathered-Yields :
    (map : Bytes) (ptr n i : ℕ) (e : ZipEntry) (before : List ZipEntry) (r : Parsed (List ZipEntry))
    → IsHeader map ptr e
    → Yields (Gathered map (next_header map ptr) n (insert_at i e before)) r
    → Yields (Gathered map ptr (suc n) before) r
Gathered-Yields map ptr n i e before (parsed es) h (is_parsed g) =
    is_parsed (Gathered-step map ptr n i e before es h g)
Gathered-Yields map ptr n i e before bad h y = is_bad
Gathered-Yields map ptr n i e before fault h y = elim y [ ]

parse_entries-Gathered :
    (n : ℕ) (map : Bytes) (ptr : ℕ) (es : List ZipEntry)
    → IsSorted es
    → AreEntries map es
    → Yields (Gathered map ptr n es) (parse_entries n map ptr es)
unfolding parse_entries
parse_entries-Gathered zero map ptr es s a = is_parsed (record {
  listed = [];
  headers = tt;
  same = Perm.rfl;
  count = omega arith;
  sorted = s;
  entries = a;
})
parse_entries-Gathered (suc n) map ptr es s a =
    round (parse_entry map ptr) (parse_entry-OfEntry map ptr) (λ e next h k q.
      let (i, r, s') = insert_entry_lem e es s in
      rw (r, q)
        (Gathered-Yields map ptr n i e es _ k (
          parse_entries-Gathered n map (next_header map ptr) (insert_at i e es) s'
            (AreEntries-insert_at map i e es h a))))
  where
    round :
        (r : Parsed (ZipEntry × ℕ))
        → Yields (OfEntry map ptr) r
        → ((e : ZipEntry) (next : ℕ)
            → IsEntry map e
            → IsHeader map ptr e
            → next ≡ next_header map ptr
            → Yields
                (Gathered map ptr (suc n) es)
                (elim (insert_entry e es) as (λ _. Parsed (List ZipEntry)) [
                  | some es' ↦ parse_entries n map next es'
                  | none ↦ fault
                ]))
        → Yields (Gathered map ptr (suc n) es) (elim r as (λ _. Parsed (List ZipEntry)) [
          | parsed (e, next) ↦ elim (insert_entry e es) [
            | some es' ↦ parse_entries n map next es'
            | none ↦ fault
          ]
          | bad ↦ bad
          | fault ↦ fault
        ])
    round (parsed (e, next)) (is_parsed (y, h, q)) k = k e next y h q
    round bad y k = is_bad
    round fault y k = elim y [ ]

pub parse_entries-Directory :
    (n : ℕ) (map : Bytes) (ptr : ℕ) → Yields (Directory map ptr n) (parse_entries n map ptr [])
parse_entries-Directory n map ptr =
    from_nothing (parse_entries n map ptr []) (parse_entries-Gathered n map ptr [] tt tt)
  where
    from_nothing :
        (r : Parsed (List ZipEntry))
        → Yields (Gathered map ptr n []) r
        → Yields (Directory map ptr n) r
    from_nothing (parsed es) (is_parsed g) = is_parsed (record {
      listed = g.listed;
      headers = g.headers;
      same = rw (append-nil g.listed) at g.same;
      count = omega (arith, g.count);
      sorted = g.sorted;
      entries = g.entries;
    })
    from_nothing bad y = is_bad
    from_nothing fault y = elim y [ ]
