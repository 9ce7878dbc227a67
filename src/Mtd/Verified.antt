-- ===== src/Mtd/Verified.antt =====
-- mtdutils/mtdutils.c: what write_block has done when it succeeds, with any driver.
use cot_bootable_recovery_to.Base.{
  ℕ, zero, suc, ◌+◌, ◌-◌, ◌*◌, ◌≤◌, ◌<◌, ◌≡◌, ◌∙◌, inl, inr, refl, sym, ap, Bool, true, false,
  Bool-cases, List, [], ◌∷◌, ◌++◌, Option, none, some, Bytes, bytes_eq→eq, ==_iff, ◌==◌, ltb,
  ltb→lt, if◌then◌else◌, arith, append-nil, append_assoc,
}
use cot_bootable_recovery_to.Mtd.Device.{
  Driver, MtdPartition, BlockState, good_block, bad_block, unsupported, unknown, Outcome, done,
  failed, endless,
}
use cot_bootable_recovery_to.Mtd.Write.{
  Chip, verify_block, attempt, attempts, write_from, write_block, mtd_find_write_start,
}

module _ (d : Driver) (p : MtdPartition) where
  open d use {Flash, block_state, erase, program, fetch}

  -- The positions of `k` blocks from a position on.
  abbrev pub positions : ℕ → ℕ → List ℕ
  positions zero pos = []
  positions (suc k) pos = pos ∷ positions k (pos + p.erase_size)

  -- The block is the one behind `k` that were skipped and noted, it lies in the partition, and
  -- its data was read back last.
  pub record IsVerified (c : Chip d p) (block : Bytes) (c' : Chip d p) : Type 0 where
    pub skipped : ℕ
    pub place : c'.pos ≡ c.pos + suc skipped * p.erase_size
    pub inside : c'.pos ≤ p.size
    pub noted : c'.bad_blocks ≡ c.bad_blocks ++ positions skipped c.pos
    pub before : Flash
    pub read_back :
        fetch before (c.pos + skipped * p.erase_size) p.erase_size ≡ (c'.flash, some block)

  -- A call that fails has left too little room.
  pub data WriteEnds (c : Chip d p) (block : Bytes) : Outcome (Chip d p) (Chip d p) → Type 0 where
    verified : {c' : Chip d p} → IsVerified c block c' → WriteEnds c block (done c')
    no_room : {c' : Chip d p} → p.size < c'.pos + p.erase_size → WriteEnds c block (failed c')

  verify_block_lem :
      (block : Bytes) (r : Flash × Option Bytes) (f' : Flash)
      → verify_block d p block r ≡ (f', true)
      → r ≡ (f', some block)
  unfolding verify_block
  verify_block_lem block (f, none) f' e =
      let q : false ≡ true = ap (λ (x : Flash × Bool). x.1) e in cc
  verify_block_lem block (f, some v) f' e =
      let q = ap (λ (x : Flash × Bool). x.0) e in
      let same = bytes_eq→eq block v (ap (λ (x : Flash × Bool). x.1) e) in rw (q, same) refl

  then_taken :
      (b : Bool) (f : Flash) (r : Flash × Bool) (f' : Flash)
      → (if b then r else (f, false)) ≡ (f', true)
      → r ≡ (f', true)
  then_taken true f r f' e = e
  then_taken false f r f' e = let q : false ≡ true = ap (λ (x : Flash × Bool). x.1) e in cc

  attempt-fetch :
      (f f' : Flash) (pos : ℕ) (block : Bytes)
      → attempt d p f pos block ≡ (f', true)
      → (f0 : Flash) × (fetch f0 pos p.erase_size ≡ (f', some block))
  unfolding attempt
  attempt-fetch f f' pos block e =
      let f1 = (erase f pos).0 in
      let f2 = (program f1 pos block).0 in
      let taken =
        then_taken (erase f pos).1 f1 (verify_block d p block (fetch f2 pos p.erase_size)) f' e in
      (f2, verify_block_lem block (fetch f2 pos p.erase_size) f' taken)

  attempts-fetch :
      (f f' : Flash) (pos : ℕ) (block : Bytes)
      → attempts d p f pos block ≡ (f', true)
      → (f0 : Flash) × (fetch f0 pos p.erase_size ≡ (f', some block))
  unfolding attempts
  attempts-fetch f f' pos block e = again (attempt d p f pos block) refl e
    where
      again :
          (r : Flash × Bool)
          → attempt d p f pos block ≡ r
          → (if r.1 then (r.0, true) else attempt d p r.0 pos block) ≡ (f', true)
          → (f0 : Flash) × (fetch f0 pos p.erase_size ≡ (f', some block))
      again (f1, true) q e = attempt-fetch f f' pos block (q ∙ e)
      again (f1, false) q e = attempt-fetch f1 f' pos block e

  -- One more block was skipped.
  skip-WriteEnds :
      (c : Chip d p) (f : Flash) (block : Bytes) (r : Outcome (Chip d p) (Chip d p))
      → WriteEnds
          (record c {
            flash = f;
            pos = c.pos + p.erase_size;
            bad_blocks = c.bad_blocks ++ (c.pos ∷ []);
          })
          block
          r
      → WriteEnds c block r
  skip-WriteEnds c f block (done c') (verified v) =
      let e : c.pos + suc v.skipped * p.erase_size
          ≡ c.pos + p.erase_size + v.skipped * p.erase_size =
        grind arith in
      verified (record {
        skipped = suc v.skipped;
        place = grind (arith, v.place);
        inside = v.inside;
        noted =
            v.noted
            ∙ append_assoc c.bad_blocks (c.pos ∷ []) (positions v.skipped (c.pos + p.erase_size));
        before = v.before;
        read_back = ap (λ k. fetch v.before k p.erase_size) e ∙ v.read_back;
      })
  skip-WriteEnds c f block (failed c') (no_room h) = no_room h
  skip-WriteEnds c f block endless w = elim w [ ]

  tried-WriteEnds :
      (c : Chip d p) (block : Bytes) (r : Flash × Bool) (given_up : Outcome (Chip d p) (Chip d p))
      → attempts d p c.flash c.pos block ≡ r
      → c.pos + p.erase_size ≤ p.size
      → WriteEnds c block given_up
      → WriteEnds c block
          (if r.1 then done (record c { flash = r.0; pos = c.pos + p.erase_size }) else given_up)
  tried-WriteEnds c block (f, true) given_up e room w =
      let (before, back) = attempts-fetch c.flash f c.pos block e in
      let here : c.pos + 0 * p.erase_size ≡ c.pos = omega arith in
      verified (record {
        skipped = 0;
        place = grind arith;
        inside = room;
        noted = sym (append-nil c.bad_blocks);
        before = before;
        read_back = ap (λ k. fetch before k p.erase_size) here ∙ back;
      })
  tried-WriteEnds c block (f, false) given_up e room w = w

  state-WriteEnds :
      (c : Chip d p) (block : Bytes) (s : BlockState) (marked tried : Outcome (Chip d p) (Chip d p))
      → WriteEnds c block marked
      → WriteEnds c block tried
      → WriteEnds c block (elim s as (λ _. Outcome (Chip d p) (Chip d p)) [
        | bad_block ↦ marked
        | unknown ↦ marked
        | good_block ↦ tried
        | unsupported ↦ tried
      ])
  state-WriteEnds c block bad_block marked tried m t = m
  state-WriteEnds c block unknown marked tried m t = m
  state-WriteEnds c block good_block marked tried m t = t
  state-WriteEnds c block unsupported marked tried m t = t

  room-WriteEnds :
      (c : Chip d p) (block : Bytes) (r : Outcome (Chip d p) (Chip d p))
      → (c.pos + p.erase_size ≤ p.size → WriteEnds c block r)
      → WriteEnds c block (if ltb p.size (c.pos + p.erase_size) then failed c else r)
  room-WriteEnds c block r k = elim (Bool-cases (ltb p.size (c.pos + p.erase_size))) [
    | inl full ↦ rw full (no_room (ltb→lt p.size (c.pos + p.erase_size) full))
    | inr room ↦ rw room (k (ground arith))
  ]

  write_from-WriteEnds :
      (fuel : ℕ) (c : Chip d p) (block : Bytes)
      → 0 < p.erase_size
      → p.size - c.pos < fuel
      → WriteEnds c block (write_from d p fuel c block)
  unfolding write_from
  write_from-WriteEnds zero c block pos h = absurd (omega arith)
  write_from-WriteEnds (suc fuel) c block pos h =
      let f1 = (attempts d p c.flash c.pos block).0 in
      let skip : Flash → Chip d p = λ f. record {
        flash = f;
        pos = c.pos + p.erase_size;
        bad_blocks = c.bad_blocks ++ (c.pos ∷ []);
      } in
      room-WriteEnds c block _ (λ room.
        let further = λ (f : Flash).
          skip-WriteEnds c f block _ (write_from-WriteEnds fuel (skip f) block pos (omega arith)) in
        state-WriteEnds c block (block_state c.flash c.pos) _ _ (further c.flash) (
          tried-WriteEnds c block (attempts d p c.flash c.pos block) _ refl room
            (further (erase f1 c.pos).0)))

  -- With any driver a call of write_block ends. Where it succeeds, it has skipped and noted the blocks in front of
  -- the one it wrote, which lies in the partition, and its last read gave the data back. Where it fails, no
  -- whole block is left in the partition.
  pub write_block-WriteEnds :
      (c : Chip d p) (block : Bytes)
      → 0 < p.erase_size
      → WriteEnds c block (write_block d p c block)
  unfolding write_block
  write_block-WriteEnds c block pos = write_from-WriteEnds (suc p.size) c block pos (omega arith)

  mtd_find_write_start-positions :
      (k pos : ℕ) → mtd_find_write_start d p (positions k pos) pos ≡ pos + k * p.erase_size
  unfolding mtd_find_write_start
  mtd_find_write_start-positions zero pos = omega arith
  mtd_find_write_start-positions (suc k) pos =
      let here : (pos == pos) ≡ true = (==_iff pos pos).1 refl in
      let e : pos + p.erase_size + k * p.erase_size ≡ pos + suc k * p.erase_size = grind arith in
      rw here (mtd_find_write_start-positions k (pos + p.erase_size) ∙ e)

  -- After the first write of a context mtd_find_write_start gives, from the place where the writing began, the
  -- place of the block that was written, whatever blocks were skipped.
  pub mtd_find_write_start_lem :
      (c c' : Chip d p) (block : Bytes)
      → 0 < p.erase_size
      → c.bad_blocks ≡ []
      → write_block d p c block ≡ done c'
      → mtd_find_write_start d p c'.bad_blocks c.pos + p.erase_size ≡ c'.pos
  mtd_find_write_start_lem c c' block positive fresh e =
      let v = ended (write_block d p c block) (write_block-WriteEnds c block positive) e in
      let noted : c'.bad_blocks ≡ positions v.skipped c.pos = rw fresh at v.noted in
      let start = mtd_find_write_start-positions v.skipped c.pos in
      rw noted (grind (arith, start, v.place))
    where
      ended :
          (r : Outcome (Chip d p) (Chip d p))
          → WriteEnds c block r
          → r ≡ done c'
          → IsVerified c block c'
      ended (done c1) (verified v) e = let q : c1 ≡ c' = cc in rw (← q) v
      ended (failed c1) w e = cc
      ended endless w e = cc
