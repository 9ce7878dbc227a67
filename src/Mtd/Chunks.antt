-- ===== src/Mtd/Chunks.antt =====
-- mtdutils/mtdutils.c: mtd_write_data cuts what it is given into blocks.
use cot_bootable_recovery_to.Base.{
  ℕ, zero, suc, ◌+◌, ◌-◌, ◌*◌, ◌≤◌, ◌<◌, ◌≡◌, ◌∙◌, refl, ap, true, false, ◌||◌, [], ◌∷◌, ◌++◌,
  Bytes, length, take, drop, ltb, leb, ◌==◌, arith, length-append, length-take, length-drop,
  take_all, drop_all, take_add-append, drop_add-append, append-nil, lt→leb, le→leb, le→ltb, ==_iff,
}
use cot_bootable_recovery_to.Mtd.Device.{
  Driver, MtdPartition, Outcome, done, failed, endless, and_then,
}
use cot_bootable_recovery_to.Mtd.Write.{
  Chip, write_block, write_whole, flush_full, write_loop, mtd_write_data,
}

module _ (d : Driver) (p : MtdPartition) where
  -- The first `n` blocks of some bytes are written, and the other bytes are left.
  abbrev pub put_blocks : ℕ → Chip d p → Bytes → Outcome (Chip d p) (Chip d p × Bytes)
  put_blocks zero c all = done (c, all)
  put_blocks (suc n) c all =
      and_then (write_block d p c (take p.erase_size all))
        (λ c'. put_blocks n c' (drop p.erase_size all))

  and_then_assoc :
      {A B C : Type 0} (o : Outcome (Chip d p) A) (f : A → Outcome (Chip d p) B)
      (g : B → Outcome (Chip d p) C)
      → and_then (and_then o f) g ≡ and_then o (λ a. and_then (f a) g)
  unfolding and_then
  and_then_assoc (done a) f g = refl
  and_then_assoc (failed e) f g = refl
  and_then_assoc endless f g = refl

  and_then-cong :
      {A B : Type 0} (o : Outcome (Chip d p) A) (f g : A → Outcome (Chip d p) B)
      → ((a : A) → f a ≡ g a)
      → and_then o f ≡ and_then o g
  unfolding and_then
  and_then-cong (done a) f g h = h a
  and_then-cong (failed e) f g h = refl
  and_then-cong endless f g h = refl

  module _ (positive : 0 < p.erase_size) where
    -- With an empty buffer the inner loop writes all whole blocks.
    write_whole_lem :
        (n fuel : ℕ) (c : Chip d p) (left : Bytes)
        → n < fuel
        → n * p.erase_size ≤ length left
        → length left < suc n * p.erase_size
        → write_whole d p fuel c [] left ≡ put_blocks n c left
    unfolding write_whole
    write_whole_lem n zero c left f l u = absurd (omega arith)
    write_whole_lem zero (suc fuel) c left f l u =
        let few : leb p.erase_size (length left) ≡ false =
          lt→leb p.erase_size (length left) (grind arith) in
        rw few
    write_whole_lem (suc n) (suc fuel) c left f l u =
        let many : leb p.erase_size (length left) ≡ true =
          le→leb p.erase_size (length left) (grind arith) in
        rw many (
          and_then-cong (write_block d p c (take p.erase_size left)) _ _ (λ c'.
            write_whole_lem n fuel c' (drop p.erase_size left) (omega arith)
              (grind (arith, length-drop p.erase_size left))
              (grind (arith, length-drop p.erase_size left))))

    write_loop-nil :
        (fuel : ℕ) (c : Chip d p) (buffer : Bytes)
        → write_loop d p (suc fuel) c buffer [] ≡ done (c, buffer)
    unfolding write_loop
    write_loop-nil fuel c buffer = refl

    flush_full-part :
        (c : Chip d p) (buffer : Bytes)
        → length buffer < p.erase_size
        → flush_full d p c buffer ≡ done (c, buffer)
    unfolding flush_full
    flush_full-part c buffer h =
        let n : (length buffer == p.erase_size) ≡ false = ground arith in rw n

    flush_full-whole :
        (c : Chip d p) (buffer : Bytes)
        → length buffer ≡ p.erase_size
        → flush_full d p c buffer ≡ and_then (write_block d p c buffer) (λ c'. done (c', []))
    unfolding flush_full
    flush_full-whole c buffer h = rw ((==_iff (length buffer) p.erase_size).1 h)

    write_whole-nil :
        (fuel : ℕ) (c : Chip d p) (buffer : Bytes)
        → write_whole d p (suc fuel) c buffer [] ≡ done (c, [])
    unfolding write_whole
    write_whole-nil fuel c buffer =
        let n : leb p.erase_size 0 ≡ false = lt→leb p.erase_size 0 positive in ground (arith, n)

    -- A round that copies to the buffer.
    write_loop-copies :
        (fuel : ℕ) (c : Chip d p) (buffer left : Bytes)
        → 0 < length left
        → (ltb 0 (length buffer) || ltb (length left) p.erase_size) ≡ true
        → write_loop d p (suc fuel) c buffer left
          ≡ and_then
              (flush_full d p c (buffer ++ take (p.erase_size - length buffer) left))
              (λ (r : Chip d p × Bytes).
                and_then
                  (write_whole d p
                    (suc (length (drop (p.erase_size - length buffer) left)))
                    r.0
                    r.1
                    (drop (p.erase_size - length buffer) left))
                  (λ (r' : Chip d p × Bytes). write_loop d p fuel r'.0 r.1 r'.1))
    unfolding write_loop
    write_loop-copies fuel c buffer left h t =
        let n : (length left == 0) ≡ false = ground arith in rw (n, t)

    -- What fits in the buffer without filling it is kept there.
    write_loop_small :
        (fuel : ℕ) (c : Chip d p) (buffer left : Bytes)
        → 2 ≤ fuel
        → length buffer + length left < p.erase_size
        → write_loop d p fuel c buffer left ≡ done (c, buffer ++ left)
    unfolding and_then
    write_loop_small zero c buffer left f h = absurd (omega arith)
    write_loop_small (suc zero) c buffer left f h = absurd (omega arith)
    write_loop_small (suc (suc fuel)) c buffer [] f h =
        rw (write_loop-nil (suc fuel) c buffer, append-nil buffer) refl
    write_loop_small (suc (suc fuel)) c buffer (x ∷ left) f h =
        let avail = p.erase_size - length buffer in
        let all : take avail (x ∷ left) ≡ x ∷ left = take_all avail (x ∷ left) (omega arith) in
        let rest : drop avail (x ∷ left) ≡ [] = drop_all avail (x ∷ left) (omega arith) in
        let t : (ltb 0 (length buffer) || ltb (length (x ∷ left)) p.erase_size) ≡ true =
          ground arith in
        let l = length-append buffer (x ∷ left) in
        let kept = flush_full-part c (buffer ++ x ∷ left) (omega (arith, h, l)) in
        let r = write_loop-copies (suc fuel) c buffer (x ∷ left) (omega arith) t in
        r
        ∙ rw
            (
              all,
              rest,
              kept,
              write_whole-nil 0 c (buffer ++ x ∷ left),
              write_loop-nil fuel c (buffer ++ x ∷ left),
            )
            refl

    -- The rest behind the last whole block goes to the empty buffer.
    put_blocks-rest :
        (n fuel : ℕ) (c : Chip d p) (left : Bytes)
        → 2 ≤ fuel
        → n * p.erase_size ≤ length left
        → length left < suc n * p.erase_size
        → and_then (put_blocks n c left) (λ (r : Chip d p × Bytes). write_loop d p fuel r.0 [] r.1)
          ≡ put_blocks n c left
    unfolding and_then
    put_blocks-rest zero fuel c left f l u = write_loop_small fuel c [] left f (omega (arith, u))
    put_blocks-rest (suc n) fuel c left f l u =
        and_then_assoc (write_block d p c (take p.erase_size left)) _ _
        ∙ and_then-cong (write_block d p c (take p.erase_size left)) _ _ (λ c'.
          put_blocks-rest n fuel c' (drop p.erase_size left) f
            (grind (arith, length-drop p.erase_size left))
            (grind (arith, length-drop p.erase_size left)))

    -- Whole blocks from an empty buffer, and the rest.
    write_rest :
        (n fuel : ℕ) (c : Chip d p) (left : Bytes)
        → 2 ≤ fuel
        → n * p.erase_size ≤ length left
        → length left < suc n * p.erase_size
        → and_then
            (write_whole d p (suc (length left)) c [] left)
            (λ (r : Chip d p × Bytes). write_loop d p fuel r.0 [] r.1)
          ≡ put_blocks n c left
    write_rest n fuel c left f l u =
        rw (write_whole_lem n (suc (length left)) c left (grind arith) l u)
          (put_blocks-rest n fuel c left f l u)

    -- A round that does not copy, from an empty buffer.
    write_loop-direct :
        (fuel : ℕ) (c : Chip d p) (left : Bytes)
        → p.erase_size ≤ length left
        → write_loop d p (suc fuel) c [] left
          ≡ and_then
              (write_whole d p (suc (length left)) c [] left)
              (λ (r : Chip d p × Bytes). write_loop d p fuel r.0 [] r.1)
    unfolding write_loop and_then
    write_loop-direct fuel c left h =
        let some_left : (length left == 0) ≡ false = ground arith in
        let direct : ltb (length left) p.erase_size ≡ false = le→ltb (length left) p.erase_size h in
        rw (some_left, direct, flush_full-part c [] positive) refl

    -- A round that fills the buffer.
    fill_buffer_lem :
        (n fuel : ℕ) (c : Chip d p) (buffer left : Bytes)
        → 2 ≤ fuel
        → length buffer < p.erase_size
        → 0 < length left
        → (ltb 0 (length buffer) || ltb (length left) p.erase_size) ≡ true
        → suc n * p.erase_size ≤ length buffer + length left
        → length buffer + length left < suc (suc n) * p.erase_size
        → write_loop d p (suc fuel) c buffer left ≡ put_blocks (suc n) c (buffer ++ left)
    unfolding and_then
    fill_buffer_lem n fuel c buffer left f b h t l u =
        let avail = p.erase_size - length buffer in
        let e : p.erase_size ≡ length buffer + avail = omega arith in
        let front : take p.erase_size (buffer ++ left) ≡ buffer ++ take avail left =
          ap (λ k. take k (buffer ++ left)) e ∙ take_add-append buffer left avail in
        let rest : drop p.erase_size (buffer ++ left) ≡ drop avail left =
          ap (λ k. drop k (buffer ++ left)) e ∙ drop_add-append buffer left avail in
        let size : length (buffer ++ take avail left) ≡ p.erase_size =
          grind (arith, length-append buffer (take avail left), length-take avail left) in
        write_loop-copies fuel c buffer left h t
        ∙ rw (flush_full-whole c (buffer ++ take avail left) size, front, rest)
            (and_then_assoc (write_block d p c (buffer ++ take avail left)) _ _
              ∙ and_then-cong (write_block d p c (buffer ++ take avail left)) _ _ (λ c'.
                write_rest n fuel c' (drop avail left) f (grind (arith, length-drop avail left))
                  (grind (arith, length-drop avail left))))

    -- mtd_write_data writes the stored bytes and the new ones in whole blocks, in order, until less than
    -- a block is left, which is stored; it never runs out of rounds.
    pub mtd_write_data_lem :
        (n : ℕ) (c : Chip d p) (buffer bytes : Bytes)
        → length buffer < p.erase_size
        → n * p.erase_size ≤ length buffer + length bytes
        → length buffer + length bytes < suc n * p.erase_size
        → mtd_write_data d p c buffer bytes ≡ put_blocks n c (buffer ++ bytes)
    unfolding mtd_write_data
    mtd_write_data_lem zero c buffer bytes b l u =
        write_loop_small (suc (suc (length bytes))) c buffer bytes (omega arith) (omega (arith, u))
    mtd_write_data_lem (suc n) c (x ∷ buffer) bytes b l u =
        let h : 0 < length bytes = grind arith in
        let t : (ltb 0 (length (x ∷ buffer)) || ltb (length bytes) p.erase_size) ≡ true =
          ground arith in
        fill_buffer_lem n (suc (length bytes)) c (x ∷ buffer) bytes (omega arith) b h t l u
    mtd_write_data_lem (suc n) c [] bytes b l u =
        let h : p.erase_size ≤ length bytes = grind arith in
        write_loop-direct (suc (length bytes)) c bytes h
        ∙ write_rest (suc n) (suc (length bytes)) c bytes (omega arith) (omega (arith, l))
            (omega (arith, u))
