-- ===== src/Minzip/Hash/Probe.antt =====
-- minzip/Hash.c: where the probing loops end.
use native.Mathlib.Nat.{mod-add-mod, mod-eq_of_lt, mod-lt, mod_self}
use native.Mathlib.Decide.{ℕ_discrete}
use cot_bootable_recovery_to.Base.{
  ℕ, zero, suc, ◌+◌, ◌-◌, ◌%◌, ◌≤◌, ◌<◌, ◌≡◌, ◌∙◌, sym, ap, Bool, true, false, Bool-cases, inl, inr,
  List, some, get_or, ◌==◌, ==_iff, if◌then◌else◌, arith,
}
use cot_bootable_recovery_to.Minzip.Hash.Table.{Slot, vacant, Table, at, stops, probe, find_vacant}

-- The slot that is `k` steps behind that of `start` in an array of `n` slots.
abbrev pub slot_at : List Slot → ℕ → ℕ → ℕ → Slot
slot_at slots n start k = get_or slots ((start + k) % n) vacant

-- One step of a probing loop.
pub step_mod :
    (n start k : ℕ)
    → 0 < n
    → (start + suc k) % n ≡ (if (start + k) % n + 1 == n then 0 else (start + k) % n + 1)
step_mod n start k h =
    let i = (start + k) % n in
    let e : (start + suc k) % n ≡ (i + 1) % n =
      sym (mod-add-mod (start + k) n 1 ∙ ap (λ x. x % n) (omega arith)) in
    e ∙ elim (Bool-cases (i + 1 == n)) [
      | inl last ↦
          let q : i + 1 ≡ n = (==_iff (i + 1) n).0 last in rw last (ap (λ x. x % n) q ∙ mod_self n)
      | inr more ↦ let below : i < n = mod-lt (start + k) h in rw more (mod-eq_of_lt (ground arith))
    ]

-- The loop passes over `k` slots and ends at the next one.
pub record Stopped (test : ℕ → ℕ → Bool) (slots : List Slot) (n start : ℕ) : Type 0 where
  pub steps : ℕ
  pub within : steps < n
  pub passed : (j : ℕ) → j < steps → stops test (slot_at slots n start j) ≡ false
  pub stopped : stops test (slot_at slots n start steps) ≡ true

module _ (test : ℕ → ℕ → Bool) (slots : List Slot) (n start v : ℕ) (lt : v < n)
    (free : slot_at slots n start v ≡ vacant) where
  -- No loop passes the vacant slot.
  at_most : (k : ℕ) → k ≤ v → stops test (slot_at slots n start k) ≡ false → k < v
  unfolding stops
  at_most k le h = elim (ℕ_discrete k v) [ yes e ↦ absurd (go (rw e at h)) | no ne ↦ omega arith ]
    where
      go : stops test (slot_at slots n start v) ≡ false → ⊥
      go h = ground arith

  not_passed :
      (k : ℕ)
      → ((j : ℕ) → j < k → stops test (slot_at slots n start j) ≡ false)
      → stops test (slot_at slots n start k) ≡ false
      → (j : ℕ) → j < suc k
      → stops test (slot_at slots n start j) ≡ false
  not_passed k before here j le = elim (ℕ_discrete j k) [
    | yes e ↦ rw e here
    | no ne ↦ before j (omega arith)
  ]

if_index :
    {A : Type 0} (f : ℕ → A) (b : Bool) (i j : ℕ) {r : A}
    → f (if b then i else j) ≡ r
    → (if b then f i else f j) ≡ r
if_index f true i j h = h
if_index f false i j h = h

module _ (test : ℕ → ℕ → Bool) (t : Table) (start v : ℕ) (lt : v < t.table_size)
    (free : slot_at t.slots t.table_size start v ≡ vacant) where
  probe_from :
      (fuel k : ℕ)
      → k ≤ v
      → v - k < fuel
      → ((j : ℕ) → j < k → stops test (slot_at t.slots t.table_size start j) ≡ false)
      → (f : Stopped test t.slots t.table_size start) × (probe fuel test t
            ((start + k) % t.table_size)
          ≡ at ((start + f.steps) % t.table_size))
  unfolding probe
  probe_from zero k le lt' before = absurd (omega arith)
  probe_from (suc fuel) k le lt' before =
      elim (Bool-cases (stops test (slot_at t.slots t.table_size start k))) [
        | inl stop ↦
            (record { steps = k; within = omega arith; passed = before; stopped = stop }, rw stop)
        | inr pass ↦
            let n = t.table_size in
            let further : k < v = at_most test t.slots n start v lt free k le pass in
            let (f, e) =
              probe_from fuel (suc k) (omega arith) (omega arith)
                (not_passed test t.slots n start v lt free k before pass) in
            let several : (n == 1) ≡ false = ground arith in
            let e' : probe fuel test t (if (start + k) % n + 1 == n then 0 else (start + k) % n + 1)
                ≡ at ((start + f.steps) % n) =
              rw (step_mod n start k (omega arith)) at e in
            (f, rw (pass, several) (if_index (probe fuel test t) _ 0 _ e'))
      ]

  -- If some slot is vacant, a probing loop ends at the first slot that stops it, from the start round
  -- the array.
  pub probe_lem :
      (f : Stopped test t.slots t.table_size start) × (probe t.table_size test t
          (start % t.table_size)
        ≡ at ((start + f.steps) % t.table_size))
  probe_lem =
      let (f, e) =
        probe_from t.table_size 0 (omega arith) (omega arith) (λ j h. absurd (omega arith)) in
      let z : start + 0 ≡ start = omega arith in (f, rw z at e)

-- Only vacant slots stop the loop of resizeHash.
abbrev pub no_match : ℕ → ℕ → Bool
no_match hash item = false

module _ (slots : List Slot) (n start v : ℕ) (lt : v < n)
    (free : slot_at slots n start v ≡ vacant) where
  find_vacant_stop :
      (fuel i : ℕ)
      → stops no_match (get_or slots i vacant) ≡ true
      → find_vacant (suc fuel) n slots i ≡ some i
  unfolding find_vacant stops
  find_vacant_stop fuel i h = ground arith

  find_vacant_pass :
      (fuel i : ℕ)
      → stops no_match (get_or slots i vacant) ≡ false
      → find_vacant (suc fuel) n slots i ≡ find_vacant fuel n slots ((i + 1) % n)
  unfolding find_vacant stops
  find_vacant_pass fuel i h = ground arith

  find_vacant_from :
      (fuel k : ℕ)
      → k ≤ v
      → v - k < fuel
      → ((j : ℕ) → j < k → stops no_match (slot_at slots n start j) ≡ false)
      → (f : Stopped no_match slots n start) × (find_vacant fuel n slots ((start + k) % n)
          ≡ some ((start + f.steps) % n))
  find_vacant_from zero k le lt' before = absurd (omega arith)
  find_vacant_from (suc fuel) k le lt' before =
      elim (Bool-cases (stops no_match (slot_at slots n start k))) [
        | inl stop ↦ (
          record { steps = k; within = omega arith; passed = before; stopped = stop },
          find_vacant_stop fuel ((start + k) % n) stop,
        )
        | inr pass ↦
            let further : k < v = at_most no_match slots n start v lt free k le pass in
            let (f, e) =
              find_vacant_from fuel (suc k) (omega arith) (omega arith)
                (not_passed no_match slots n start v lt free k before pass) in
            let i : ((start + k) % n + 1) % n ≡ (start + suc k) % n =
              mod-add-mod (start + k) n 1 ∙ ap (λ x. x % n) (omega arith) in
            (f, find_vacant_pass fuel ((start + k) % n) pass ∙ rw i e)
      ]

  pub find_vacant_lem :
      (f : Stopped no_match slots n start) × (find_vacant n n slots (start % n)
        ≡ some ((start + f.steps) % n))
  find_vacant_lem =
      let (f, e) = find_vacant_from n 0 (omega arith) (omega arith) (λ j h. absurd (omega arith)) in
      let z : start + 0 ≡ start = omega arith in (f, rw z at e)
