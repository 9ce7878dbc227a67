-- ===== src/Mtd/Device.antt =====
-- mtdutils/mtdutils.c: what reading and writing of partitions share. The calls of the kernel's MTD
-- driver are an interface.
use cot_bootable_recovery_to.Base.{ℕ, Bool, Option, Bytes}

-- What MEMGETBADBLOCK says: 0, a positive number, -1 with EOPNOTSUPP, or -1 with another error.
pub data BlockState : Type 0 where
  good_block bad_block unsupported unknown : BlockState

-- The driver's calls on the flash: MEMGETBADBLOCK, MEMERASE, `write`, `read` of a number of bytes, and the failures that
-- ECCGETSTATS counts.
pub record Driver : Type 1 where
  pub Flash : Type 0
  pub block_state : Flash → ℕ → BlockState
  pub erase : Flash → ℕ → Flash × Bool
  pub program : Flash → ℕ → Bytes → Flash × Bool
  pub fetch : Flash → ℕ → ℕ → Flash × Option Bytes
  pub ecc_failed : Flash → Option ℕ

-- `MtdPartition`.
pub record MtdPartition : Type 0 where
  pub size : ℕ
  pub erase_size : ℕ

-- A result, -1 with the state it leaves, or a loop of the model that has no round left.
pub data Outcome (E A : Type 0) : Type 0 where
  done : A → Outcome E A
  failed : E → Outcome E A
  endless : Outcome E A

unfoldable pub and_then : {E A B : Type 0} → Outcome E A → (A → Outcome E B) → Outcome E B
and_then (done a) k = k a
and_then (failed e) k = failed e
and_then endless k = endless
