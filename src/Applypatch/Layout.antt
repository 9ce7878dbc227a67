-- ===== src/Applypatch/Layout.antt =====
-- Patches as bsdiff lays them out for ApplyBSDiffPatchMem of applypatch/bspatch.c.
use cot_bootable_recovery_to.Base.{
  ℕ, zero, suc, ◌+◌, ◌≤◌, ◌<◌, ◌^◌, ◌≡◌, ◌∙◌, refl, sym, ap, List, [], ◌∷◌, ◌++◌, append_assoc,
  append-nil, Bytes, codes, bytes_eq, none, some, get_elem?, ◌%◌, false, inl, inr, Bool-cases,
  length, drop, length-append, take-append, drop-append, drop-drop, drop_add-append, leb, leb→le,
  le→ltb, le→leb, arith,
}
use cot_bootable_recovery_to.Base.Int.{ℤ, pos, negsuc, add_ℤ, sub_ℕ}
use cot_bootable_recovery_to.Applypatch.Offsets.{
  offtin, offtout, IsOffset, length-offtout, offtin-offtout,
}
use cot_bootable_recovery_to.Applypatch.Model.{
  Stream, Patched, patched, Streams, fill_buffer, add_old, read_part, patch_loop, apply_streams,
  apply_patch, filled, old_byte,
}
use cot_bootable_recovery_to.Applypatch.Bounds.{length-add_old}

-- One triple of the control block, with its bytes of the other blocks.
pub record Control : Type 0 where
  pub added : Bytes
  pub inserted : Bytes
  pub seek : ℤ

-- The numbers of the triple fit in eight bytes.
pub record IsControl (c : Control) : Type 0 where
  pub few_added : length c.added < 2 ^ 63
  pub few_inserted : length c.inserted < 2 ^ 63
  pub near : IsOffset c.seek

abbrev pub AreControls : List Control → Type 0
AreControls [] = Unit
AreControls (c ∷ cs) = IsControl c × AreControls cs

abbrev pub triple : Control → Bytes
triple c = offtout (pos (length c.added)) ++ (offtout (pos (length c.inserted)) ++ offtout c.seek)

-- The three blocks, before they are compressed.
pub record Blocks : Type 0 where
  pub control : Bytes
  pub diff : Bytes
  pub extra : Bytes

abbrev pub streams_of : List Control → Blocks
streams_of [] = record { control = []; diff = []; extra = [] }
streams_of (c ∷ cs) = record {
  control = triple c ++ (streams_of cs).control;
  diff = c.added ++ (streams_of cs).diff;
  extra = c.inserted ++ (streams_of cs).extra;
}

-- A stream that ends whole behind these bytes.
abbrev pub whole : Bytes → Stream
whole content = record { content = content; broken_off = false }

abbrev decompressed : Blocks → Streams
decompressed b = record { control = whole b.control; diff = whole b.diff; extra = whole b.extra }

-- A byte of the old data, 0 in front of them and behind them.
abbrev pub old_at : Bytes → ℤ → ℕ
old_at old (pos i) = elim (get_elem? old i) [ some b ↦ b | none ↦ 0 ]
old_at old (negsuc i) = 0

-- The bytes of the diff block from the one with number `i` on, each with the byte of the old data
-- that is as far behind `start` added to it modulo 256.
abbrev pub sums : Bytes → ℤ → ℕ → Bytes → Bytes
sums old start i [] = []
sums old start i (d ∷ ds) = (d + old_at old (add_ℤ start (pos i))) % 256 ∷ sums old start (i + 1) ds

-- The new data that triples describe, with the place in the old data where the first one starts:
-- sums, inserted bytes, and the data of the other triples from the place that the seek leads to.
abbrev pub described : Bytes → ℤ → List Control → Bytes
described old start [] = []
described old start (c ∷ cs) =
    sums old start 0 c.added
    ++ (c.inserted ++ described old (add_ℤ (add_ℤ start (pos (length c.added))) c.seek) cs)

old_byte-old_at : (old : Bytes) (p : ℤ) → old_byte old p ≡ old_at old p
unfolding old_byte
old_byte-old_at old (negsuc i) = refl
old_byte-old_at [] (pos i) = refl
old_byte-old_at (x ∷ old) (pos zero) = refl
old_byte-old_at (x ∷ old) (pos (suc i)) = old_byte-old_at old (pos i)

add-one : (p : ℤ) (i : ℕ) → add_ℤ (add_ℤ p (pos i)) (pos 1) ≡ add_ℤ p (pos (i + 1))
unfolding add_ℤ sub_ℕ
add-one (pos a) i = ap pos (omega arith)
add-one (negsuc a) i = ground arith

add-zero : (p : ℤ) → add_ℤ p (pos 0) ≡ p
unfolding add_ℤ sub_ℕ
add-zero (pos a) = ap pos (omega arith)
add-zero (negsuc a) = ground arith

add_old-sums :
    (old : Bytes) (start : ℤ) (i : ℕ) (ds : Bytes)
    → add_old old (add_ℤ start (pos i)) ds ≡ sums old start i ds
unfolding add_old
add_old-sums old start i [] = refl
add_old-sums old start i (d ∷ ds) =
    rw (
      old_byte-old_at old (add_ℤ start (pos i)),
      add-one start i,
      add_old-sums old start (i + 1) ds,
    )

-- The loop adds what is described.
add_old-described :
    (old : Bytes) (start : ℤ) (ds : Bytes) → add_old old start ds ≡ sums old start 0 ds
add_old-described old start ds = rw (add-zero start) at (add_old-sums old start 0 ds)

fill_buffer-append :
    (size : ℕ) (a b : Bytes)
    → length a ≡ size
    → fill_buffer size (whole (a ++ b)) ≡ filled a (whole b)
unfolding fill_buffer
fill_buffer-append size a b e = rw (
  ← e,
  le→leb (length a) (length (a ++ b)) (omega (arith, length-append a b)),
  take-append a b,
  drop-append a b,
)

read_part-append :
    (newpos new_size : ℕ) (x : ℤ) (a b : Bytes) (k : Bytes → Stream → Patched)
    → x ≡ pos (length a)
    → newpos + length a ≤ new_size
    → read_part x newpos new_size (whole (a ++ b)) k ≡ k a (whole b)
unfolding read_part
read_part-append newpos new_size x a b k e h =
    rw (e, le→ltb new_size (newpos + length a) h, fill_buffer-append (length a) a b refl)

length-triple : (c : Control) → length (triple c) ≡ 24
length-triple c = omega (
  arith,
  length-append (offtout (pos (length c.added)))
      (offtout (pos (length c.inserted)) ++ offtout c.seek),
  length-append (offtout (pos (length c.inserted))) (offtout c.seek),
  length-offtout (pos (length c.added)),
  length-offtout (pos (length c.inserted)),
  length-offtout c.seek,
)

drop8 : (x : ℤ) (rest : Bytes) → drop 8 (offtout x ++ rest) ≡ rest
drop8 x rest = rw (length-offtout x) at (drop-append (offtout x) rest)

triple-numbers :
    (c : Control)
    → IsControl c
    → (offtin (triple c) ≡ pos (length c.added))
      × (offtin (drop 8 (triple c)) ≡ pos (length c.inserted))
      × (offtin (drop 16 (triple c)) ≡ c.seek)
triple-numbers c w =
    let second = offtout (pos (length c.inserted)) ++ offtout c.seek in
    let d : drop 8 (triple c) ≡ second = drop8 (pos (length c.added)) second in
    let d' : drop 16 (triple c) ≡ offtout c.seek ++ [] =
      sym (drop-drop 8 8 (triple c))
      ∙ ap (drop 8) d
      ∙ drop8 (pos (length c.inserted)) (offtout c.seek)
      ∙ sym (append-nil (offtout c.seek)) in
    (
      offtin-offtout (pos (length c.added)) second w.few_added,
      rw d (offtin-offtout (pos (length c.inserted)) (offtout c.seek) w.few_inserted),
      rw d' (offtin-offtout c.seek [] w.near),
    )

-- The data that the loop makes of triples.
abbrev made : Bytes → ℤ → List Control → Bytes
made old oldpos [] = []
made old oldpos (c ∷ cs) =
    add_old old oldpos c.added
    ++ (c.inserted ++ made old (add_ℤ (add_ℤ oldpos (pos (length c.added))) c.seek) cs)

made-described :
    (old : Bytes) (oldpos : ℤ) (cs : List Control) → made old oldpos cs ≡ described old oldpos cs
made-described old oldpos [] = refl
made-described old oldpos (c ∷ cs) = rw (
  add_old-described old oldpos c.added,
  made-described old (add_ℤ (add_ℤ oldpos (pos (length c.added))) c.seek) cs,
)

nothing-made :
    (old : Bytes) (oldpos : ℤ) (cs : List Control)
    → length (made old oldpos cs) ≡ 0
    → made old oldpos cs ≡ []
nothing-made old oldpos cs e = nil_of (made old oldpos cs) e
  where
    nil_of : (l : Bytes) → length l ≡ 0 → l ≡ []
    nil_of [] e = refl
    nil_of (x ∷ l) e = absurd (omega arith)

-- The loop turns the blocks of triples into the data that it makes of them.
patch_loop-made :
    (fuel n : ℕ) (old : Bytes) (cs : List Control) (oldpos : ℤ) (new : Bytes)
    → AreControls cs
    → length cs < fuel
    → n ≡ length new + length (made old oldpos cs)
    → patch_loop fuel old n (decompressed (streams_of cs)) oldpos new
      ≡ patched (new ++ made old oldpos cs)
unfolding patch_loop
patch_loop-made zero n old cs oldpos new w f e = absurd (omega arith)
patch_loop-made (suc fuel) n old [] oldpos new w f e =
    rw (le→leb n (length new) (omega arith), append-nil new)
patch_loop-made (suc fuel) n old (c ∷ cs) oldpos new w f e =
    elim (Bool-cases (leb n (length new))) [
      | inl full ↦
          let none_left : made old oldpos (c ∷ cs) ≡ [] =
            nothing-made old oldpos (c ∷ cs) (omega (arith, leb→le n (length new) full)) in
          rw (full, none_left, append-nil new)
      | inr more ↦
          let oldpos' = add_ℤ (add_ℤ oldpos (pos (length c.added))) c.seek in
          let one = add_old old oldpos c.added in
          let one_size = length-add_old old oldpos c.added in
          let rest = made old oldpos' cs in
          let (x, y, z) = triple-numbers c w.0 in
          let size : n ≡ length new + (length c.added + (length c.inserted + length rest)) = omega (
            arith,
            e,
            length-append one (c.inserted ++ rest),
            length-append c.inserted rest,
            one_size,
          ) in
          let size' : length (new ++ one) ≡ length new + length c.added =
            omega (arith, length-append new one, one_size) in
          let size'' : length ((new ++ one) ++ c.inserted)
              ≡ length new + (length c.added + length c.inserted) =
            omega (arith, size', length-append (new ++ one) c.inserted) in
          let first = fill_buffer-append 24 (triple c) (streams_of cs).control (length-triple c) in
          rw (more, first, patch_loop)
            (read_part-append (length new) n (offtin (triple c)) c.added (streams_of cs).diff _ x
                (omega arith)
              ∙ read_part-append (length (new ++ one)) n (offtin (drop 8 (triple c))) c.inserted
                  (streams_of cs).extra _ y (omega arith)
              ∙ ap
                  (λ p.
                    patch_loop fuel old n (decompressed (streams_of cs))
                      (add_ℤ (add_ℤ oldpos (pos (length c.added))) p) ((new ++ one) ++ c.inserted))
                  z
              ∙ patch_loop-made fuel n old cs oldpos' ((new ++ one) ++ c.inserted) w.1 (omega arith)
                  (omega arith)
              ∙ ap patched (
                  append_assoc (new ++ one) c.inserted rest
                  ∙ append_assoc new one (c.inserted ++ rest)))
    ]

length-controls : (cs : List Control) → length cs ≤ length (streams_of cs).control
length-controls [] = omega arith
length-controls (c ∷ cs) =
    omega
      (arith, length-append (triple c) (streams_of cs).control, length-triple c, length-controls cs)

-- A patch for new data that is as long as the described data.
abbrev pub patch_of : (Bytes → Bytes) → Bytes → List Control → Bytes
patch_of compress old cs =
    let control = compress (streams_of cs).control in
    let diff = compress (streams_of cs).diff in
    codes "BSDIFF40"
    ++ (offtout (pos (length control))
        ++ (offtout (pos (length diff))
            ++ (offtout (pos (length (described old (pos 0) cs)))
                ++ (control ++ (diff ++ compress (streams_of cs).extra)))))

module _ (decompress : Bytes → Stream) where
  apply_streams-parts :
      (old control diff extra : Bytes) (n : ℕ)
      → apply_streams decompress old
          (control ++ (diff ++ extra))
          (pos (length control))
          (pos (length diff))
          (pos n)
        ≡ patch_loop
            (suc (length (decompress control).content))
            old
            n
            (record {
              control = decompress control;
              diff = decompress diff;
              extra = decompress extra;
            })
            (pos 0)
            []
  unfolding apply_streams
  apply_streams-parts old control diff extra n =
      let l : length control + length diff ≤ length (control ++ (diff ++ extra)) =
        omega (arith, length-append control (diff ++ extra), length-append diff extra) in
      rw (
        le→ltb (length (control ++ (diff ++ extra))) (length control + length diff) l,
        take-append control (diff ++ extra),
        drop-append control (diff ++ extra),
        take-append diff extra,
        drop_add-append control (diff ++ extra) (length diff),
        drop-append diff extra,
      )

  apply_patch-parts :
      (old body : Bytes) (a b n : ℕ)
      → a < 2 ^ 63
      → b < 2 ^ 63
      → n < 2 ^ 63
      → apply_patch decompress old
          (codes "BSDIFF40" ++ (offtout (pos a) ++ (offtout (pos b) ++ (offtout (pos n) ++ body))))
        ≡ apply_streams decompress old body (pos a) (pos b) (pos n)
  unfolding apply_patch bytes_eq
  apply_patch-parts old body a b n h k l =
      let third = offtout (pos n) ++ body in
      let second = offtout (pos b) ++ third in
      let first = offtout (pos a) ++ second in
      let long : 32 ≤ length (codes "BSDIFF40" ++ first) = omega (
        arith,
        length-append (offtout (pos a)) second,
        length-append (offtout (pos b)) third,
        length-append (offtout (pos n)) body,
        length-offtout (pos a),
        length-offtout (pos b),
        length-offtout (pos n),
      ) in
      let d16 : drop 16 (codes "BSDIFF40" ++ first) ≡ second = drop8 (pos a) second in
      let d24 : drop 24 (codes "BSDIFF40" ++ first) ≡ third =
        sym (drop-drop 8 8 first) ∙ ap (drop 8) (drop8 (pos a) second) ∙ drop8 (pos b) third in
      let d32 : drop 32 (codes "BSDIFF40" ++ first) ≡ body =
        sym (drop-drop 8 24 (codes "BSDIFF40" ++ first))
        ∙ sym (drop-drop 16 8 first)
        ∙ ap (drop 8) d24
        ∙ drop8 (pos n) body in
      let patch = codes "BSDIFF40" ++ first in
      rw (
        le→ltb (length patch) 8 (omega arith),
        le→ltb (length patch) 32 long,
        d16,
        d24,
        d32,
        offtin-offtout (pos a) second h,
        offtin-offtout (pos b) third k,
        offtin-offtout (pos n) body l,
      )

  -- A patch laid out as bsdiff does it, of triples whose numbers fit, applies to the old data and
  -- gives the data that the triples describe: byte by byte the sum of diff and old data modulo 256,
  -- with nothing added outside of the old data, then the inserted bytes, and so on from the place in
  -- the old data that the seek leads to. bzip2 restores what was compressed, and the sizes of the
  -- first two compressed blocks and of the new data fit in eight bytes.
  pub apply_patch-patch_of :
      (compress : Bytes → Bytes) (old : Bytes) (cs : List Control)
      → ((b : Bytes) → decompress (compress b) ≡ whole b)
      → AreControls cs
      → length (compress (streams_of cs).control) < 2 ^ 63
      → length (compress (streams_of cs).diff) < 2 ^ 63
      → length (described old (pos 0) cs) < 2 ^ 63
      → apply_patch decompress old (patch_of compress old cs) ≡ patched (described old (pos 0) cs)
  apply_patch-patch_of compress old cs inverse w h k l =
      let s = streams_of cs in
      let n = length (described old (pos 0) cs) in
      let same = made-described old (pos 0) cs in
      apply_patch-parts old (compress s.control ++ (compress s.diff ++ compress s.extra)) _ _ n h k
        l
      ∙ apply_streams-parts old (compress s.control) (compress s.diff) (compress s.extra) n
      ∙ rw (inverse s.control, inverse s.diff, inverse s.extra)
          (patch_loop-made _ n old cs (pos 0) [] w (omega (arith, length-controls cs))
              (omega (arith, ap (λ (l : Bytes). length l) (sym same)))
            ∙ ap patched same)
