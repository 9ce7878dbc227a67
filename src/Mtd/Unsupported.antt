-- ===== src/Mtd/Unsupported.antt =====
-- mtdutils/mtdutils.c: flash whose driver has no notion of bad blocks.
use cot_bootable_recovery_to.Base.{
  ℕ, zero, suc, ◌+◌, ◌-◌, ◌<◌, ◌≡◌, inl, inr, not, Bool-cases, Option, none, some, Bytes, ltb,
  if◌then◌else◌, ◌==◌, arith,
}
use cot_bootable_recovery_to.Mtd.Device.{
  Driver, MtdPartition, BlockState, good_block, bad_block, unsupported, unknown, Outcome, failed,
}
use cot_bootable_recovery_to.Mtd.Read.{Reader, read_from, read_block}

-- The call gives -1.
pub data Fails {E A : Type 0} : Outcome E A → Type 0 where
  is_failed : {e : E} → Fails (failed e)

module _ (d : Driver) (p : MtdPartition) where
  open d use {Flash, block_state, fetch, ecc_failed}

  module _ (never : (f : Flash) (pos : ℕ) → block_state f pos ≡ unsupported)
      (positive : 0 < p.erase_size) where
    state-Fails :
        (s : BlockState) (good further : Outcome Flash (Reader d p × Bytes))
        → s ≡ unsupported
        → Fails further
        → Fails (elim s as (λ _. Outcome Flash (Reader d p × Bytes)) [
          | good_block ↦ good
          | _ ↦ further
        ])
    state-Fails good_block good further e w = cc
    state-Fails bad_block good further e w = w
    state-Fails unsupported good further e w = w
    state-Fails unknown good further e w = w

    counted-Fails :
        (before : ℕ) (count : Option ℕ) (f : Flash) (good : Outcome Flash (Reader d p × Bytes))
        (further : ℕ → Outcome Flash (Reader d p × Bytes)) (s : BlockState)
        → s ≡ unsupported
        → ((n : ℕ) → Fails (further n))
        → Fails (elim count as (λ _. Outcome Flash (Reader d p × Bytes)) [
          | none ↦ failed f
          | some after ↦
              if not (after == before)
              then further after
              else elim s as (λ _. Outcome Flash (Reader d p × Bytes)) [
                | good_block ↦ good
                | _ ↦ further before
              ]
        ])
    counted-Fails before none f good further s e w = is_failed
    counted-Fails before (some after) f good further s e w =
        elim (Bool-cases (not (after == before))) [
          | inl t ↦ rw t (w after)
          | inr t ↦ rw t (state-Fails s good (further before) e (w before))
        ]

    got-Fails :
        (got : Option Bytes) (missed : Outcome Flash (Reader d p × Bytes))
        (read : Bytes → Outcome Flash (Reader d p × Bytes))
        → Fails missed
        → ((bytes : Bytes) → Fails (read bytes))
        → Fails (elim got as (λ _. Outcome Flash (Reader d p × Bytes)) [
          | none ↦ missed
          | some bytes ↦ read bytes
        ])
    got-Fails none missed read m r = m
    got-Fails (some bytes) missed read m r = r bytes

    read_from-Fails :
        (fuel before : ℕ) (f : Flash) (pos : ℕ)
        → p.size - pos < fuel
        → Fails (read_from d p fuel before f pos)
    unfolding read_from
    read_from-Fails zero before f pos h = absurd (omega arith)
    read_from-Fails (suc fuel) before f pos h =
        elim (Bool-cases (ltb p.size (pos + p.erase_size))) [
          | inl t ↦ rw t is_failed
          | inr t ↦
              let f1 = (fetch f pos p.erase_size).0 in
              rw t (
                let again = λ (count : ℕ).
                  read_from-Fails fuel count f1 (pos + p.erase_size) (ground arith) in
                got-Fails (fetch f pos p.erase_size).1 _ _ (again before) (λ bytes.
                  counted-Fails before (ecc_failed f1) f1 _ _ (block_state f1 pos) (never f1 pos)
                    again))
        ]

    -- If the driver does not support MEMGETBADBLOCK, read_block gives -1, wherever it is called.
    pub read_block-Fails : (r : Reader d p) → Fails (read_block d p r)
    unfolding read_block
    read_block-Fails r = counted (ecc_failed r.source)
      where
        counted :
            (count : Option ℕ)
            → Fails (elim count as (λ _. Outcome Flash (Reader d p × Bytes)) [
              | none ↦ failed r.source
              | some before ↦ read_from d p (suc p.size) before r.source r.place
            ])
        counted none = is_failed
        counted (some before) = read_from-Fails (suc p.size) before r.source r.place (omega arith)
