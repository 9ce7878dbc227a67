-- ===== src/Mtd/Sound.antt =====
-- mtdutils/mtdutils.c: flash on which nothing fails but blocks that are marked as bad.
use cot_bootable_recovery_to.Base.{
  ℕ, zero, suc, ◌+◌, ◌-◌, ◌≤◌, ◌<◌, ◌≡◌, ◌∙◌, inl, inr, refl, sym, ap, Bool, true, false,
  Bool-cases, [], ◌∷◌, ◌++◌, Option, some, Bytes, bytes_eq_refl, length, ltb, le→ltb, if◌then◌else◌,
  arith,
}
use cot_bootable_recovery_to.Mtd.Device.{
  Driver, MtdPartition, good_block, bad_block, Outcome, done, failed,
}
use cot_bootable_recovery_to.Mtd.Write.{
  Chip, verify_block, attempt, attempts, write_from, write_block,
}
use cot_bootable_recovery_to.Mtd.Read.{read_from, read_block}

module _ (d : Driver) (p : MtdPartition) where
  open d use {Flash, block_state, erase, program, fetch, ecc_failed}

  -- Reading gives what a block holds and counts no failures; a block that is not marked can be erased
  -- and then programmed, and that changes no other block.
  pub record IsSound : Type 0 where
    pub marked : ℕ → Bool
    pub contents : Flash → ℕ → Bytes
    pub state_of :
        (f : Flash) (pos : ℕ) → block_state f pos ≡ (if marked pos then bad_block else good_block)
    pub fetched : (f : Flash) (pos : ℕ) → fetch f pos p.erase_size ≡ (f, some (contents f pos))
    pub counted : (f : Flash) → ecc_failed f ≡ some 0
    pub erased : (f : Flash) (pos : ℕ) → marked pos ≡ false → (erase f pos).1 ≡ true
    pub stored :
        (f : Flash) (pos : ℕ) (block : Bytes)
        → marked pos ≡ false
        → length block ≡ p.erase_size
        → contents (program (erase f pos).0 pos block).0 pos ≡ block
    pub kept :
        (f : Flash) (pos other : ℕ) (block : Bytes)
        → other + p.erase_size ≤ pos
        → contents (program (erase f pos).0 pos block).0 other ≡ contents f other

  module _ (s : IsSound) where
    -- The first block from a position on that is not marked.
    pub data NextGood : ℕ → ℕ → Type 0 where
      is_good : {pos : ℕ} → s.marked pos ≡ false → pos + p.erase_size ≤ p.size → NextGood pos pos
      is_behind :
          {pos q : ℕ}
          → s.marked pos ≡ true
          → pos + p.erase_size ≤ p.size
          → NextGood (pos + p.erase_size) q
          → NextGood pos q

    pub NextGood-le : {pos q : ℕ} → NextGood pos q → pos ≤ q
    NextGood-le (is_good m h) = omega arith
    NextGood-le (is_behind m h g) = omega (arith, NextGood-le g)

    -- What a block that is programmed leaves.
    abbrev programmed : Flash → ℕ → Bytes → Flash
    programmed f pos block = (program (erase f pos).0 pos block).0

    attempt-programmed :
        (f : Flash) (pos : ℕ) (block : Bytes)
        → s.marked pos ≡ false
        → length block ≡ p.erase_size
        → attempt d p f pos block ≡ (programmed f pos block, true)
    unfolding attempt verify_block
    attempt-programmed f pos block m l =
        rw
          (
            s.erased f pos m,
            s.fetched (programmed f pos block) pos,
            s.stored f pos block m l,
            bytes_eq_refl block,
          )
          refl

    attempts-programmed :
        (f : Flash) (pos : ℕ) (block : Bytes)
        → s.marked pos ≡ false
        → length block ≡ p.erase_size
        → attempts d p f pos block ≡ (programmed f pos block, true)
    unfolding attempts
    attempts-programmed f pos block m l = rw (attempt-programmed f pos block m l) refl

    -- What a successful write did.
    pub record Wrote (c : Chip d p) (block : Bytes) (c' : Chip d p) : Type 0 where
      pub good : ℕ
      pub first : NextGood c.pos good
      pub place : c'.pos ≡ good + p.erase_size
      pub holds : s.contents c'.flash good ≡ block
      pub keeps :
          (other : ℕ)
          → other + p.erase_size ≤ c.pos
          → s.contents c'.flash other ≡ s.contents c.flash other

    fetched_flash : (f : Flash) (pos : ℕ) → (fetch f pos p.erase_size).0 ≡ f
    fetched_flash f pos = ap (λ (r : Flash × Option Bytes). r.0) (s.fetched f pos)

    fetched_bytes : (f : Flash) (pos : ℕ) → (fetch f pos p.erase_size).1 ≡ some (s.contents f pos)
    fetched_bytes f pos = ap (λ (r : Flash × Option Bytes). r.1) (s.fetched f pos)

    read_from-NextGood :
        (fuel : ℕ) (f : Flash) (pos q : ℕ)
        → 0 < p.erase_size
        → p.size - pos < fuel
        → NextGood pos q
        → read_from d p fuel 0 f pos
          ≡ done (record { source = f; place = q + p.erase_size; unread = [] }, s.contents f q)
    unfolding read_from
    read_from-NextGood zero f pos q e h g = absurd (omega arith)
    read_from-NextGood (suc fuel) f pos _ e h (is_good m room) =
        let r : ltb p.size (pos + p.erase_size) ≡ false = le→ltb p.size (pos + p.erase_size) room in
        rw
          (
            fetched_bytes f pos,
            s.counted (fetch f pos p.erase_size).0,
            fetched_flash f pos,
            s.state_of f pos,
            m,
            r,
            fetched_flash f pos,
          )
          refl
    read_from-NextGood (suc fuel) f pos q e h (is_behind m room g) =
        let r : ltb p.size (pos + p.erase_size) ≡ false = le→ltb p.size (pos + p.erase_size) room in
        let rest = read_from-NextGood fuel f (pos + p.erase_size) q e (omega arith) g in
        rw
          (
            fetched_bytes f pos,
            s.counted (fetch f pos p.erase_size).0,
            fetched_flash f pos,
            s.state_of f pos,
            m,
            r,
            fetched_flash f pos,
          )
          rest

    pub read_block-NextGood :
        (f : Flash) (pos q : ℕ)
        → 0 < p.erase_size
        → NextGood pos q
        → read_block d p (record { source = f; place = pos; unread = [] })
          ≡ done (record { source = f; place = q + p.erase_size; unread = [] }, s.contents f q)
    unfolding read_block
    read_block-NextGood f pos q e g =
        rw (read_block, s.counted f) (read_from-NextGood (suc p.size) f pos q e (omega arith) g)

    module _ (fuel : ℕ) (c : Chip d p) (block : Bytes) where
      -- The chip after a block was skipped.
      abbrev behind : Chip d p
      behind = record c { pos = c.pos + p.erase_size; bad_blocks = c.bad_blocks ++ (c.pos ∷ []) }

      write_from-full :
          ltb p.size (c.pos + p.erase_size) ≡ true → write_from d p (suc fuel) c block ≡ failed c
      unfolding write_from
      write_from-full r = rw r refl

      write_from-marked :
          ltb p.size (c.pos + p.erase_size) ≡ false
          → s.marked c.pos ≡ true
          → write_from d p (suc fuel) c block ≡ write_from d p fuel behind block
      unfolding write_from
      write_from-marked r m = rw (r, s.state_of c.flash c.pos, m) refl

      write_from-good :
          ltb p.size (c.pos + p.erase_size) ≡ false
          → s.marked c.pos ≡ false
          → length block ≡ p.erase_size
          → write_from d p (suc fuel) c block
            ≡ done (record c { flash = programmed c.flash c.pos block; pos = c.pos + p.erase_size })
      unfolding write_from
      write_from-good r m l =
          rw (r, s.state_of c.flash c.pos, m, attempts-programmed c.flash c.pos block m l) refl

    done-eq :
        (o : Outcome (Chip d p) (Chip d p)) (x c' : Chip d p) → o ≡ done x → o ≡ done c' → x ≡ c'
    done-eq o x c' e e' = cc

    not_failed :
        (o : Outcome (Chip d p) (Chip d p)) (x c' : Chip d p)
        → o ≡ failed x
        → o ≡ done c'
        → true ≡ false
    not_failed o x c' e e' = cc

    write_from-Wrote :
        (fuel : ℕ) (c c' : Chip d p) (block : Bytes)
        → length block ≡ p.erase_size
        → write_from d p fuel c block ≡ done c'
        → Wrote c block c'
    unfolding write_from
    write_from-Wrote zero c c' block l e = cc
    write_from-Wrote (suc fuel) c c' block l e =
        elim (Bool-cases (ltb p.size (c.pos + p.erase_size))) [
          | inl full ↦ let q = not_failed _ c c' (write_from-full fuel c block full) e in cc
          | inr room ↦ elim (Bool-cases (s.marked c.pos)) [
            | inl m ↦
                let w =
                  write_from-Wrote fuel (behind fuel c block) c' block l
                    (sym (write_from-marked fuel c block room m) ∙ e) in
                record {
                  good = w.good;
                  first = is_behind m (ground arith) w.first;
                  place = w.place;
                  holds = w.holds;
                  keeps = λ other h. w.keeps other (omega arith);
                }
            | inr m ↦
                let q = done-eq _ _ c' (write_from-good fuel c block room m l) e in
                rw (← q) (record {
                  good = c.pos;
                  first = is_good m (ground arith);
                  place = refl;
                  holds = s.stored c.flash c.pos block m l;
                  keeps = λ other h. s.kept c.flash c.pos other block h;
                })
          ]
        ]

    pub write_block-Wrote :
        (c c' : Chip d p) (block : Bytes)
        → length block ≡ p.erase_size
        → write_block d p c block ≡ done c'
        → Wrote c block c'
    unfolding write_block
    write_block-Wrote c c' block l e = write_from-Wrote (suc p.size) c c' block l e
