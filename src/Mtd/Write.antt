-- ===== src/Mtd/Write.antt =====
-- mtdutils/mtdutils.c: writing and erasing blocks of a partition. Positions are offsets in the
-- partition; `lseek` does not fail, and allocations succeed.
use cot_bootable_recovery_to.Base.{
  ℕ, zero, suc, ◌+◌, ◌-◌, ◌/◌, Bool, true, false, ◌&&◌, ◌||◌, List, [], ◌∷◌, ◌++◌, Option, none,
  some, Bytes, bytes_eq, length, take, drop, replicate, ltb, leb, ◌==◌, if◌then◌else◌,
}
use cot_bootable_recovery_to.Mtd.Device.{
  Driver, MtdPartition, good_block, bad_block, unsupported, unknown, Outcome, done, failed, endless,
  and_then,
}

module _ (d : Driver) (p : MtdPartition) where
  open d use {Flash, block_state, erase, program, fetch}

  -- What the file descriptor and the list of bad blocks of a context are.
  pub record Chip : Type 0 where
    pub flash : Flash
    pub pos : ℕ
    pub bad_blocks : List ℕ

  -- The comparison with what is read back.
  unfoldable pub verify_block : Bytes → Flash × Option Bytes → Flash × Bool
  verify_block block (f, none) = (f, false)
  verify_block block (f, some v) = (f, bytes_eq block v)

  -- One round of the loop over `retry`: whether the block holds the data afterwards.
  unfoldable pub attempt : Flash → ℕ → Bytes → Flash × Bool
  attempt f pos block =
      let (f1, erased) = erase f pos in
      let (f2, _) = program f1 pos block in
      let verified = verify_block block (fetch f2 pos p.erase_size) in
      if erased then verified else (f1, false)

  unfoldable pub attempts : Flash → ℕ → Bytes → Flash × Bool
  attempts f pos block =
      let (f1, first) = attempt f pos block in
      let second = attempt f1 pos block in if first then (f1, true) else second

  -- write_block, from a position on.
  unfoldable pub write_from : ℕ → Chip → Bytes → Outcome Chip Chip
  write_from zero c block = endless
  write_from (suc fuel) c block =
      let skipped : Chip = record c {
        pos = c.pos + p.erase_size;
        bad_blocks = c.bad_blocks ++ (c.pos ∷ []);
      } in
      let (f1, written) = attempts c.flash c.pos block in
      let (f2, _) = erase f1 c.pos in
      let marked = write_from fuel skipped block in
      let given_up = write_from fuel (record skipped { flash = f2 }) block in
      let tried =
        if written then done (record c { flash = f1; pos = c.pos + p.erase_size }) else given_up in
      if ltb p.size (c.pos + p.erase_size) then failed c else elim (block_state c.flash c.pos) [
        | bad_block ↦ marked
        | unknown ↦ marked
        | good_block ↦ tried
        | unsupported ↦ tried
      ]

  unfoldable pub write_block : Chip → Bytes → Outcome Chip Chip
  write_block c block = write_from (suc p.size) c block

  -- `while (ctx->stored == 0 && len - wrote >= erase_size)`: the chip and the data that are left.
  unfoldable pub write_whole : ℕ → Chip → Bytes → Bytes → Outcome Chip (Chip × Bytes)
  write_whole zero c buffer left = endless
  write_whole (suc fuel) c buffer left =
      if length buffer == 0 && leb p.erase_size (length left)
      then and_then (write_block c (take p.erase_size left))
          (λ c'. write_whole fuel c' buffer (drop p.erase_size left))
      else done (c, left)

  -- A complete block of the buffer is written, and the buffer is empty then.
  unfoldable pub flush_full : Chip → Bytes → Outcome Chip (Chip × Bytes)
  flush_full c buffer =
      if length buffer == p.erase_size
      then and_then (write_block c buffer) (λ c'. done (c', []))
      else done (c, buffer)

  -- The loop of mtd_write_data: the chip, and the buffer's stored bytes.
  unfoldable pub write_loop : ℕ → Chip → Bytes → Bytes → Outcome Chip (Chip × Bytes)
  write_loop zero c buffer left = endless
  write_loop (suc fuel) c buffer left =
      let avail = p.erase_size - length buffer in
      let copies = ltb 0 (length buffer) || ltb (length left) p.erase_size in
      let buffer1 = if copies then buffer ++ take avail left else buffer in
      let left1 = if copies then drop avail left else left in
      if length left == 0
      then done (c, buffer)
      else and_then (flush_full c buffer1) (λ (r : Chip × Bytes).
        and_then (write_whole (suc (length left1)) r.0 r.1 left1)
          (λ (r' : Chip × Bytes). write_loop fuel r'.0 r.1 r'.1))

  unfoldable pub mtd_write_data : Chip → Bytes → Bytes → Outcome Chip (Chip × Bytes)
  mtd_write_data c buffer bytes = write_loop (suc (suc (length bytes))) c buffer bytes

  -- mtd_erase_blocks, with `none` for -1 blocks: the chip, and the position behind the last block.
  unfoldable pub erase_from : ℕ → Flash → ℕ → Flash × ℕ
  erase_from zero f pos = (f, pos)
  erase_from (suc n) f pos =
      let (f1, _) = erase f pos in
      let erased = erase_from n f1 (pos + p.erase_size) in
      let passed = erase_from n f (pos + p.erase_size) in
      elim (block_state f pos) [ bad_block ↦ passed | _ ↦ erased ]

  -- The stored bytes are padded with zeros to a whole block.
  unfoldable pub write_pending : Chip → Bytes → Outcome Chip Chip
  write_pending c buffer =
      if ltb 0 (length buffer)
      then write_block c (buffer ++ replicate (p.erase_size - length buffer) 0)
      else done c

  unfoldable pub mtd_erase_blocks : Chip → Bytes → Option ℕ → Outcome Chip (Chip × ℕ)
  mtd_erase_blocks c buffer blocks = and_then (write_pending c buffer) (λ c1.
      let total = (p.size - c1.pos) / p.erase_size in
      let count : ℕ = elim blocks [ none ↦ total | some n ↦ n ] in
      let (f, pos) = erase_from count c1.flash c1.pos in
      if ltb total count then failed c1 else done (record c1 { flash = f }, pos))

  -- mtd_write_close; closing the file descriptor does not fail.
  unfoldable pub mtd_write_close : Chip → Bytes → Outcome Chip Chip
  mtd_write_close c buffer =
      and_then (mtd_erase_blocks c buffer (some 0)) (λ (r : Chip × ℕ). done r.0)

  unfoldable pub mtd_find_write_start : List ℕ → ℕ → ℕ
  mtd_find_write_start [] pos = pos
  mtd_find_write_start (b ∷ bs) pos =
      let behind = mtd_find_write_start bs (pos + p.erase_size) in
      let further = mtd_find_write_start bs pos in
      if b == pos then behind else (if ltb pos b then pos else further)
