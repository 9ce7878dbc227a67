-- ===== src/Mtd/RoundTrip.antt =====
-- mtdutils/mtdutils.c: what mtd_write_data wrote is read again.
use cot_bootable_recovery_to.Base.{
  ℕ, zero, suc, ◌+◌, ◌-◌, ◌*◌, ◌≤◌, ◌<◌, ◌≡◌, ◌∙◌, refl, sym, ap, true, false, [], ◌++◌, Bytes,
  length, take, drop, leb, le→leb, lt→leb, ◌==◌, arith, length-take, length-drop, take_all,
  take_add, drop-nil, take-nil,
}
use cot_bootable_recovery_to.Mtd.Device.{
  Driver, MtdPartition, Outcome, done, failed, endless, and_then,
}
use cot_bootable_recovery_to.Mtd.Write.{Chip, write_block, mtd_write_data}
use cot_bootable_recovery_to.Mtd.Read.{Reader, read_block, read_whole, read_loop, mtd_read_data}
use cot_bootable_recovery_to.Mtd.Chunks.{put_blocks, mtd_write_data_lem}
use cot_bootable_recovery_to.Mtd.Sound.{
  IsSound, NextGood, NextGood-le, write_block-Wrote, read_block-NextGood,
}

module _ (d : Driver) (p : MtdPartition) (s : IsSound d p) where
  open d use {Flash}

  -- A reader at a block's beginning.
  abbrev pub reader_at : Flash → ℕ → Reader d p
  reader_at f pos = record { source = f; place = pos; unread = [] }

  -- What a sequence of writes did.
  record WroteAll (n : ℕ) (c : Chip d p) (all : Bytes) (c' : Chip d p) : Type 0 where
    read_again :
        (fuel : ℕ)
        → n < fuel
        → read_whole d p fuel (reader_at c'.flash c.pos) (n * p.erase_size)
          ≡ done (reader_at c'.flash c'.pos, take (n * p.erase_size) all)
    keeps :
        (other : ℕ)
        → other + p.erase_size ≤ c.pos
        → s.contents c'.flash other ≡ s.contents c.flash other

  and_then-done :
      {A B : Type 0} (o : Outcome (Chip d p) A) (k : A → Outcome (Chip d p) B) (b : B)
      → and_then o k ≡ done b
      → (a : A) × (o ≡ done a) × (k a ≡ done b)
  unfolding and_then
  and_then-done (done a) k b e = (a, refl, e)
  and_then-done (failed c) k b e = cc
  and_then-done endless k b e = cc

  same_chip :
      (o : Outcome (Chip d p) (Chip d p × Bytes)) (c c' : Chip d p) (all rest : Bytes)
      → o ≡ done (c, all)
      → o ≡ done (c', rest)
      → c ≡ c'
  same_chip o c c' all rest e e' = cc

  module _ (positive : 0 < p.erase_size) where
    read_whole-none :
        (fuel : ℕ) (r : Reader d p) → 0 < fuel → read_whole d p fuel r 0 ≡ done (r, [])
    unfolding read_whole
    read_whole-none zero r h = absurd (omega arith)
    read_whole-none (suc fuel) r h =
        let n : leb p.erase_size 0 ≡ false = lt→leb p.erase_size 0 positive in ground (arith, n)

    read_whole-more :
        (fuel wanted : ℕ) (f : Flash) (pos : ℕ)
        → p.erase_size ≤ wanted
        → read_whole d p (suc fuel) (reader_at f pos) wanted
          ≡ and_then (read_block d p (reader_at f pos)) (λ (b : Reader d p × Bytes).
            and_then
              (read_whole d p fuel b.0 (wanted - p.erase_size))
              (λ (rest : Reader d p × Bytes). done (rest.0, b.1 ++ rest.1)))
    unfolding read_whole
    read_whole-more fuel wanted f pos h = rw (le→leb p.erase_size wanted h) refl

    read_whole-next :
        (n fuel : ℕ) (f : Flash) (pos good : ℕ) (block : Bytes) (more : Reader d p × Bytes)
        → read_block d p (reader_at f pos) ≡ done (reader_at f good, block)
        → read_whole d p fuel (reader_at f good) (n * p.erase_size) ≡ done more
        → read_whole d p (suc fuel) (reader_at f pos) (suc n * p.erase_size)
          ≡ done (more.0, block ++ more.1)
    unfolding and_then
    read_whole-next n fuel f pos good block more e e' =
        let k : suc n * p.erase_size - p.erase_size ≡ n * p.erase_size = grind arith in
        read_whole-more fuel (suc n * p.erase_size) f pos (grind arith) ∙ rw (k, e, e') refl

    total : (n : ℕ) → suc n * p.erase_size ≡ p.erase_size + n * p.erase_size
    total n = grind arith

    -- One more block in front of those that are read again.
    read_whole-again :
        (n : ℕ) (f : Flash) (pos good next end : ℕ) (all : Bytes)
        → NextGood d p s pos good
        → s.contents f good ≡ take p.erase_size all
        → next ≡ good + p.erase_size
        → ((fuel : ℕ)
            → n < fuel
            → read_whole d p fuel (reader_at f next) (n * p.erase_size)
              ≡ done (reader_at f end, take (n * p.erase_size) (drop p.erase_size all)))
        → (fuel : ℕ) → suc n < fuel
        → read_whole d p fuel (reader_at f pos) (suc n * p.erase_size)
          ≡ done (reader_at f end, take (suc n * p.erase_size) all)
    read_whole-again n f pos good next end all g held place more zero h = absurd (omega arith)
    read_whole-again n f pos good next end all g held place more (suc fuel) h =
        let joined : take (suc n * p.erase_size) all
            ≡ take p.erase_size all ++ take (n * p.erase_size) (drop p.erase_size all) =
          rw (total n) (take_add p.erase_size (n * p.erase_size) all) in
        let block : read_block d p (reader_at f pos)
            ≡ done (reader_at f next, take p.erase_size all) =
          rw (place, ← held) (read_block-NextGood d p s f pos good positive g) in
        rw joined (
          read_whole-next n fuel f pos next (take p.erase_size all) _ block
            (more fuel (omega arith)))

    put_blocks-WroteAll :
        (n : ℕ) (c c' : Chip d p) (all rest : Bytes)
        → n * p.erase_size ≤ length all
        → put_blocks d p n c all ≡ done (c', rest)
        → WroteAll n c all c'
    put_blocks-WroteAll zero c c' all rest l e =
        let q : c ≡ c' = same_chip _ c c' all rest refl e in
        let z : 0 * p.erase_size ≡ 0 = omega arith in
        rw (← q) (record {
          read_again = λ fuel h. rw z (read_whole-none fuel (reader_at c.flash c.pos) h);
          keeps = λ other h. refl;
        })
    put_blocks-WroteAll (suc n) c c' all rest l e =
        let (c1, written, e') =
          and_then-done (write_block d p c (take p.erase_size all)) _ (c', rest) e in
        let size : length (take p.erase_size all) ≡ p.erase_size =
          grind (arith, length-take p.erase_size all) in
        let w = write_block-Wrote d p s c c1 (take p.erase_size all) size written in
        let left : n * p.erase_size ≤ length (drop p.erase_size all) =
          grind (arith, length-drop p.erase_size all) in
        let ws = put_blocks-WroteAll n c1 c' (drop p.erase_size all) rest left e' in
        let held : s.contents c'.flash w.good ≡ take p.erase_size all =
          ws.keeps w.good (omega (arith, w.place)) ∙ w.holds in
        record {
          read_again =
              read_whole-again n c'.flash c.pos w.good c1.pos c'.pos all w.first held w.place
                ws.read_again;
          keeps = λ other h.
              ws.keeps other (omega (arith, h, w.place, NextGood-le d p s w.first))
              ∙ w.keeps other h;
        }

    -- A first round of mtd_read_data that reads all.
    read_loop-whole :
        (fuel wanted : ℕ) (f : Flash) (pos : ℕ) (r : Reader d p) (bytes : Bytes)
        → length bytes ≡ wanted
        → 0 < wanted
        → read_whole d p (suc wanted) (reader_at f pos) wanted ≡ done (r, bytes)
        → read_loop d p (suc fuel) (reader_at f pos) wanted [] ≡ done (r, bytes)
    unfolding read_loop and_then
    read_loop-whole fuel wanted f pos r bytes l some_bytes e =
        let some_left : (wanted == 0) ≡ false = ground arith in
        let all : wanted - 0 ≡ wanted = omega arith in
        let none_left : (wanted - length bytes == 0) ≡ true = ground (arith, l) in
        rw (some_left, take-nil {A = ℕ} wanted, drop-nil {A = ℕ} wanted, all, e, none_left) refl

    -- On flash on which nothing fails but marked blocks, where mtd_write_data, with an empty buffer, has written whole
    -- blocks and succeeded, mtd_read_data from the place where the writing began gives these bytes again.
    pub mtd_read_data-mtd_write_data :
        (n : ℕ) (c c' : Chip d p) (bytes rest : Bytes)
        → 0 < n
        → length bytes ≡ n * p.erase_size
        → mtd_write_data d p c [] bytes ≡ done (c', rest)
        → mtd_read_data d p (reader_at c'.flash c.pos) (length bytes)
          ≡ done (reader_at c'.flash c'.pos, bytes)
    unfolding mtd_read_data
    mtd_read_data-mtd_write_data n c c' bytes rest h l e =
        let chunks =
          mtd_write_data_lem d p positive n c [] bytes positive (omega (arith, l))
            (grind (arith, l)) in
        let w = put_blocks-WroteAll n c c' bytes rest (omega (arith, l)) (sym chunks ∙ e) in
        let whole : take (n * p.erase_size) bytes ≡ bytes =
          take_all (n * p.erase_size) bytes (omega (arith, l)) in
        let read : read_whole d p (suc (length bytes)) (reader_at c'.flash c.pos) (length bytes)
            ≡ done (reader_at c'.flash c'.pos, bytes) =
          rw l (
            w.read_again (suc (n * p.erase_size)) (grind arith)
            ∙ ap (λ b. done (reader_at c'.flash c'.pos, b)) whole) in
        read_loop-whole (length bytes) (length bytes) c'.flash c.pos (reader_at c'.flash c'.pos)
          bytes refl (grind (arith, l)) read
