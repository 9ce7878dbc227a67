-- ===== src/Mtd/Tests.antt =====
-- The theorems on flash partitions at a small partition with a bad block.
use cot_bootable_recovery_to.Base.{
  ℕ, ◌+◌, ◌≤◌, ◌≡◌, refl, true, [], ◌∷◌, some, Bytes, if◌then◌else◌, ◌==◌, ==_iff, arith, bytes_eq,
}
use cot_bootable_recovery_to.Mtd.Device.{
  Driver, MtdPartition, BlockState, good_block, bad_block, unsupported, done, and_then,
}
use cot_bootable_recovery_to.Mtd.Write.{
  Chip, write_block, mtd_write_data, mtd_find_write_start, write_loop, flush_full, write_whole,
  write_from, attempts, attempt, verify_block,
}
use cot_bootable_recovery_to.Mtd.Read.{read_block, mtd_read_data}
use cot_bootable_recovery_to.Mtd.Chunks.{put_blocks, mtd_write_data_lem}
use cot_bootable_recovery_to.Mtd.Verified.{
  WriteEnds, write_block-WriteEnds, mtd_find_write_start_lem,
}
use cot_bootable_recovery_to.Mtd.Sound.{IsSound}
use cot_bootable_recovery_to.Mtd.RoundTrip.{reader_at, mtd_read_data-mtd_write_data}
use cot_bootable_recovery_to.Mtd.Unsupported.{Fails, read_block-Fails}

-- Flash as what each block holds, with the state of the block at 2.
abbrev flash_with : BlockState → BlockState → Driver
flash_with others second = record {
  Flash = ℕ → Bytes;
  block_state = λ f pos. if pos == 2 then second else others;
  erase = λ f pos. (f, true);
  program = λ f pos block. ((λ q. if q == pos then block else f q), true);
  fetch = λ f pos size. (f, some (f pos));
  ecc_failed = λ f. some 0;
}

-- The second of four blocks of two bytes is bad.
abbrev one_bad : Driver
one_bad = flash_with good_block bad_block

abbrev small : MtdPartition
small = record { size = 8; erase_size = 2 }

one_bad-IsSound : IsSound one_bad small
one_bad-IsSound = record {
  marked = λ pos. pos == 2;
  contents = λ f pos. f pos;
  state_of = λ f pos. refl;
  fetched = λ f pos. refl;
  counted = λ f. refl;
  erased = λ f pos m. refl;
  stored = λ f pos block m l. rw ((==_iff pos pos).1 refl) refl;
  kept = λ f pos other block h. other_block f pos other block h;
}
  where
    other_block :
        (f : ℕ → Bytes) (pos other : ℕ) (block : Bytes)
        → other + 2 ≤ pos
        → (if other == pos then block else f other) ≡ f other
    other_block f pos other block h = ground arith

abbrev fresh : Chip one_bad small
fresh = record { flash = λ pos. 255 ∷ 255 ∷ []; pos = 0; bad_blocks = [] }

abbrev four_bytes : Bytes
four_bytes = 1 ∷ 2 ∷ 3 ∷ 4 ∷ []

abbrev written : Chip one_bad small
written = record {
  flash = λ q. if q == 4 then 3 ∷ 4 ∷ [] else (if q == 0 then 1 ∷ 2 ∷ [] else 255 ∷ 255 ∷ []);
  pos = 6;
  bad_blocks = 2 ∷ [];
}

-- The bad block is skipped.
four_bytes-written : mtd_write_data one_bad small fresh [] four_bytes ≡ done (written, [])
unfolding mtd_write_data write_loop and_then flush_full write_whole write_block write_from attempts
    attempt verify_block bytes_eq
four_bytes-written = refl

mtd_read_data-mtd_write_data_example :
    mtd_read_data one_bad small (reader_at one_bad small one_bad-IsSound written.flash 0) 4
    ≡ done (reader_at one_bad small one_bad-IsSound written.flash 6, four_bytes)
mtd_read_data-mtd_write_data_example =
    mtd_read_data-mtd_write_data one_bad small one_bad-IsSound (omega arith) 2 fresh written
      four_bytes [] (omega arith) refl four_bytes-written

mtd_write_data_lem_example :
    mtd_write_data one_bad small fresh (9 ∷ []) four_bytes
    ≡ put_blocks one_bad small 2 fresh (9 ∷ four_bytes)
mtd_write_data_lem_example =
    mtd_write_data_lem one_bad small (omega arith) 2 fresh (9 ∷ []) four_bytes (omega arith)
      (omega arith) (omega arith)

write_block-WriteEnds_example :
    WriteEnds one_bad small
      (record fresh { pos = 2 })
      (1 ∷ 2 ∷ [])
      (write_block one_bad small (record fresh { pos = 2 }) (1 ∷ 2 ∷ []))
write_block-WriteEnds_example =
    write_block-WriteEnds one_bad small (record fresh { pos = 2 }) (1 ∷ 2 ∷ []) (omega arith)

abbrev skipping : Chip one_bad small
skipping = record fresh { pos = 2 }

abbrev behind_bad : Chip one_bad small
behind_bad = record {
  flash = λ q. if q == 4 then 1 ∷ 2 ∷ [] else 255 ∷ 255 ∷ [];
  pos = 6;
  bad_blocks = 2 ∷ [];
}

one_block_written : write_block one_bad small skipping (1 ∷ 2 ∷ []) ≡ done behind_bad
unfolding write_block write_from attempts attempt verify_block bytes_eq
one_block_written = refl

mtd_find_write_start_lem_example :
    mtd_find_write_start one_bad small behind_bad.bad_blocks 2 + 2 ≡ 6
mtd_find_write_start_lem_example =
    mtd_find_write_start_lem one_bad small skipping behind_bad (1 ∷ 2 ∷ []) (omega arith) refl
      one_block_written

abbrev no_bad_blocks : Driver
no_bad_blocks = record (flash_with good_block good_block) { block_state = λ f pos. unsupported }

read_block-Fails_example :
    Fails (
      read_block no_bad_blocks small
        (record { source = λ pos. 1 ∷ 2 ∷ []; place = 0; unread = [] }))
read_block-Fails_example =
    read_block-Fails no_bad_blocks small (λ f pos. refl) (omega arith)
      (record { source = λ pos. 1 ∷ 2 ∷ []; place = 0; unread = [] })
