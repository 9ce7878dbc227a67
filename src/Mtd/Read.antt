-- ===== src/Mtd/Read.antt =====
-- mtdutils/mtdutils.c: reading blocks of a partition.
use cot_bootable_recovery_to.Base.{
  ℕ, zero, suc, ◌+◌, ◌-◌, not, ◌&&◌, [], ◌++◌, none, some, Bytes, length, take, drop, ltb, leb,
  ◌==◌, if◌then◌else◌,
}
use cot_bootable_recovery_to.Mtd.Device.{
  Driver, MtdPartition, good_block, Outcome, done, failed, endless, and_then,
}

module _ (d : Driver) (p : MtdPartition) where
  open d use {Flash, block_state, fetch, ecc_failed}

  -- `MtdReadContext`, with the bytes of the buffer that are not consumed.
  pub record Reader : Type 0 where
    pub source : Flash
    pub place : ℕ
    pub unread : Bytes

  -- read_block, from a position on; `before` are the failures that were counted last.
  unfoldable pub read_from : ℕ → ℕ → Flash → ℕ → Outcome Flash (Reader × Bytes)
  read_from zero before f pos = endless
  read_from (suc fuel) before f pos =
      let (f1, got) = fetch f pos p.erase_size in
      let next = pos + p.erase_size in
      let further = λ (count : ℕ). read_from fuel count f1 next in
      if ltb p.size next then failed f else elim got [
        | none ↦ further before
        | some bytes ↦ elim (ecc_failed f1) [
          | none ↦ failed f1
          | some after ↦
              if not (after == before) then further after else elim (block_state f1 pos) [
                | good_block ↦ done (record { source = f1; place = next; unread = [] }, bytes)
                | _ ↦ further before
              ]
        ]
      ]

  unfoldable pub read_block : Reader → Outcome Flash (Reader × Bytes)
  read_block r = elim (ecc_failed r.source) [
    | none ↦ failed r.source
    | some before ↦ read_from (suc p.size) before r.source r.place
  ]

  -- `while (ctx->consumed == erase_size && len - read >= erase_size)`: the reader, and what was read.
  unfoldable pub read_whole : ℕ → Reader → ℕ → Outcome Flash (Reader × Bytes)
  read_whole zero r wanted = endless
  read_whole (suc fuel) r wanted =
      if length r.unread == 0 && leb p.erase_size wanted
      then and_then (read_block r) (λ (b : Reader × Bytes).
        and_then (read_whole fuel b.0 (wanted - p.erase_size))
          (λ (rest : Reader × Bytes). done (rest.0, b.1 ++ rest.1)))
      else done (r, [])

  -- The next block is read into the buffer.
  unfoldable pub refill : Reader → Outcome Flash Reader
  refill r =
      if length r.unread == 0
      then and_then (read_block r) (λ (b : Reader × Bytes). done (record b.0 { unread = b.1 }))
      else done r

  -- The loop of mtd_read_data, with what was read so far.
  unfoldable pub read_loop : ℕ → Reader → ℕ → Bytes → Outcome Flash (Reader × Bytes)
  read_loop zero r wanted out = endless
  read_loop (suc fuel) r wanted out =
      let copied = take wanted r.unread in
      let wanted1 = wanted - length copied in
      let r1 : Reader = record r { unread = drop wanted r.unread } in
      if wanted == 0
      then done (r, out)
      else and_then (read_whole (suc wanted1) r1 wanted1) (λ (w : Reader × Bytes).
        let wanted2 = wanted1 - length w.1 in
        let out2 = out ++ copied ++ w.1 in
        if wanted2 == 0
        then done (w.0, out2)
        else and_then (refill w.0) (λ r3. read_loop fuel r3 wanted2 out2))

  unfoldable pub mtd_read_data : Reader → ℕ → Outcome Flash (Reader × Bytes)
  mtd_read_data r wanted = read_loop (suc wanted) r wanted []
