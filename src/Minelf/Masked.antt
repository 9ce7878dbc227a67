-- ===== src/Minelf/Masked.antt =====
-- minelf/Retouch.c: lemmas on retouch_mask_data with an offset that is asked for.
use cot_bootable_recovery_to.Base.{
  ℕ, zero, suc, ◌+◌, ◌-◌, ◌%◌, ◌^◌, ◌≤◌, ◌<◌, ◌==◌, ◌≡◌, ◌∙◌, inl, inr, refl, sym, ap, true, false,
  Bool-cases, ◌++◌, some, Bytes, length, length-append, length-take, length-drop, take, drop,
  drop-append, ltb, leb, arith,
}
use cot_bootable_recovery_to.Applypatch.Words.{bytes4, word4, word4-bytes4}
use cot_bootable_recovery_to.Minelf.Entry.{
  Decoded, init_compression_state, input_size, decode_in_memory, decode2, decode3, decode8,
}
use cot_bootable_recovery_to.Minelf.Retouch.{
  Status, bad, mismatched, not_applicable, out_of_rounds, matched, read_word, write_word, Inferred,
  infer, is_outside, address_of, apply_offset, retouch_entry, conclude, retouch_loop, info_size,
  prelink_size, is_retouched, retouch_mask_data,
}

contents-lt : (prev : Decoded) (input : Bytes) → (decode_in_memory prev input).contents < 2 ^ 32
unfolding decode_in_memory decode2 decode3 decode8
contents-lt prev input = elim (Bool-cases (input_size input == 2)) [
  | inl t ↦ rw t (omega arith)
  | inr f ↦ elim (Bool-cases (input_size input == 3)) [
    | inl t ↦ rw (f, t) (omega arith)
    | inr g ↦ rw (f, g) (omega arith)
  ]
]

input_size-pos : (input : Bytes) → 0 < input_size input
unfolding input_size
input_size-pos input = ground arith

length-write_word :
    (object : Bytes) (at v : ℕ)
    → at + 4 ≤ length object
    → length (write_word object at v) ≡ length object
unfolding write_word bytes4
length-write_word object at v h = omega (
  arith,
  length-append (take at object) (bytes4 v ++ drop (at + 4) object),
  length-append (bytes4 v) (drop (at + 4) object),
  length-take at object,
  length-drop (at + 4) object,
)

-- A word that was written is read again.
read_word-write_word :
    (object : Bytes) (at v : ℕ)
    → at + 4 ≤ length object
    → v < 2 ^ 32
    → read_word (write_word object at v) at ≡ v
unfolding read_word write_word
read_word-write_word object at v h lt =
    let l : length (take at object) ≡ at = omega (arith, length-take at object) in
    let e : drop at (take at object ++ (bytes4 v ++ drop (at + 4) object))
        ≡ bytes4 v ++ drop (at + 4) object =
      ap (λ n. drop n (take at object ++ (bytes4 v ++ drop (at + 4) object))) (sym l)
      ∙ drop-append (take at object) (bytes4 v ++ drop (at + 4) object) in
    ap word4 e ∙ word4-bytes4 v (drop (at + 4) object) lt

-- The object keeps its size, a loop has enough rounds, and where the function says that it matched, it matched the
-- offset that was asked for.
abbrev pub Asked : ℕ → ℕ → Status × Bytes → Type 0
Asked t n (bad, object) = length object ≡ n
Asked t n (matched w, object) = (w ≡ t) × (length object ≡ n)
Asked t n (mismatched, object) = ⊥
Asked t n (not_applicable, object) = ⊥
Asked t n (out_of_rounds, object) = ⊥

module _ (t b_offs r_offs p_offs : ℕ) (lt : t < 2 ^ 32) (n : ℕ) where
  -- No other offset was met so far.
  abbrev AsAsked : Inferred → Type 0
  AsAsked v = (v.mismatch ≡ false) × (v.candidate ≡ t)

  infer-AsAsked : (v : Inferred) (this : ℕ) → AsAsked v → this ≡ t → AsAsked (infer v this)
  unfolding infer
  infer-AsAsked v this (m, c) e = elim (Bool-cases v.known) [
    | inl k ↦ rw (k) (ground arith, c)
    | inr k ↦ rw (k) (m, e)
  ]

  entry-fits :
      (b_ptr offset : ℕ)
      → p_offs + 8 ≡ n
      → r_offs + 12 ≡ p_offs
      → b_offs ≤ b_ptr
      → leb r_offs b_ptr ≡ false
      → is_outside b_offs offset ≡ false
      → address_of p_offs offset + 4 ≤ n
  unfolding is_outside address_of
  entry-fits b_ptr offset p r b more good = ground arith

  retouch_entry-AsAsked :
      (e : Decoded) (v : Inferred) (object : Bytes)
      → e.contents < 2 ^ 32
      → AsAsked v
      → length object ≡ n
      → address_of p_offs e.offset + 4 ≤ n
      → (length (retouch_entry (some t) b_offs r_offs p_offs e v object).0 ≡ n)
        × AsAsked (retouch_entry (some t) b_offs r_offs p_offs e v object).1
  unfolding retouch_entry apply_offset
  retouch_entry-AsAsked e v object c a l fits =
      let word = (e.contents + t) % 2 ^ 32 in
      let at = address_of p_offs e.offset in
      let back = read_word-write_word object at word (omega arith) (omega arith) in
      (
        length-write_word object at word (omega arith) ∙ l,
        infer-AsAsked v _ a (ap (λ (x : ℕ). (x + 2 ^ 32 - e.contents) % 2 ^ 32) back ∙ omega arith),
      )

  conclude-Asked :
      (b_ptr : ℕ) (v : Inferred) (object : Bytes)
      → AsAsked v
      → length object ≡ n
      → Asked t n (conclude (some t) b_offs r_offs p_offs b_ptr v, object)
  unfolding conclude
  conclude-Asked b_ptr v object (m, c) l = elim (Bool-cases (ltb r_offs b_ptr)) [
    | inl far ↦ rw far l
    | inr near ↦ rw (near, m) (c, l)
  ]

  retouch_loop-Asked :
      (rounds b_ptr : ℕ) (prev : Decoded) (v : Inferred) (object : Bytes)
      → p_offs + 8 ≡ n
      → r_offs + 12 ≡ p_offs
      → b_offs ≤ b_ptr
      → 0 < rounds
      → r_offs < rounds + b_ptr
      → AsAsked v
      → length object ≡ n
      → Asked t n (retouch_loop (some t) b_offs r_offs p_offs rounds b_ptr prev v object)
  unfolding retouch_loop
  retouch_loop-Asked zero b_ptr prev v object p r b pos enough a l = absurd (omega arith)
  retouch_loop-Asked (suc rounds) b_ptr prev v object p r b pos enough a l =
      let input = drop b_ptr object in
      let e : Decoded = decode_in_memory prev input in
      let size = input_size-pos input in
      elim (Bool-cases (leb r_offs b_ptr)) [
        | inl stop ↦ rw stop (conclude-Asked b_ptr v object a l)
        | inr more ↦ elim (Bool-cases (is_outside b_offs e.offset)) [
          | inl refused ↦ rw (more, refused) l
          | inr good ↦
              let (l', a') =
                retouch_entry-AsAsked e v object (contents-lt prev input) a l
                  (entry-fits b_ptr e.offset p r b more good) in
              let gap : b_ptr < r_offs = ground arith in
              rw (more, good)
                (retouch_loop-Asked rounds _ e _ _ p r (omega arith) (omega arith) (omega arith) a'
                  l')
        ]
      ]

-- An object without the tags is left as it is.
pub retouch_mask_data-untagged :
    (object : Bytes) (t : ℕ)
    → is_retouched object ≡ false
    → retouch_mask_data object (some t) ≡ (matched t, object)
unfolding retouch_mask_data
retouch_mask_data-untagged object t e = rw e refl

is_retouched-le : (object : Bytes) → is_retouched object ≡ true → 20 ≤ length object
unfolding is_retouched
is_retouched-le object e = elim (Bool-cases (ltb (length object) (info_size + prelink_size))) [
  | inl short ↦ let f : is_retouched object ≡ false = rw (is_retouched, short) refl in absurd (cc)
  | inr long ↦ ground arith
]

-- With an offset that is asked for, retouch_mask_data keeps the size of the object and ends within its rounds. It does
-- not say that the entries are mismatched, and if it says that they match, the offset that it reports is the one asked for.
pub retouch_mask_data-Asked :
    (object : Bytes) (t : ℕ)
    → t < 2 ^ 32
    → Asked t (length object) (retouch_mask_data object (some t))
unfolding retouch_mask_data
retouch_mask_data-Asked object t lt = elim (Bool-cases (is_retouched object)) [
  | inr no_tags ↦ rw no_tags (refl, refl)
  | inl tags ↦ elim (Bool-cases (leb (2 ^ 31) b_offs)) [
    | inl negative ↦ rw (tags, negative) refl
    | inr good ↦
        let le = is_retouched-le object tags in
        rw (tags, good)
          (retouch_loop-Asked t b_offs r_offs p_offs lt (length object) (suc (length object)) b_offs
            init_compression_state (record { candidate = t; known = false; mismatch = false })
            object (omega arith) (omega arith) (omega arith) (omega arith) (omega arith)
            (refl, refl) refl)
  ]
]
  where
    p_offs : ℕ
    p_offs = length object - prelink_size

    r_offs : ℕ
    r_offs = p_offs - info_size

    b_offs : ℕ
    b_offs = (r_offs + 2 ^ 32 - read_word object (r_offs + 8)) % 2 ^ 32
