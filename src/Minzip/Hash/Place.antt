-- ===== src/Minzip/Hash/Place.antt =====
-- minzip/Hash.c: which entries can be reached from the slot of their hash.
use native.Mathlib.Nat.{mod-lt}
use native.Mathlib.Decide.{ℕ_discrete}
use cot_bootable_recovery_to.Base.{
  ℕ, ◌+◌, ◌%◌, ◌<◌, ◌≡◌, ◌≢◌, ◌∙◌, ◌⊎◌, ◌↔◌, inl, inr, sym, ap, false, List, length, get_or, set,
  get_or-set_self, get_or-set_ne, Bool, arith,
}
use cot_bootable_recovery_to.Minzip.Hash.Table.{Slot, vacant, tombstone, entry, stops}
use cot_bootable_recovery_to.Minzip.Hash.Probe.{slot_at, Stopped}

-- The table holds an item under a hash.
abbrev pub Holds : List Slot → ℕ → ℕ → Type 0
Holds slots h d = (i : ℕ) × (get_or slots i vacant ≡ entry h d)

-- No vacant slot stands between the slot of the hash and slot `i`.
pub record Reached (slots : List Slot) (n h i : ℕ) : Type 0 where
  pub steps : ℕ
  pub within : steps < n
  pub ends : (h + steps) % n ≡ i
  pub used : (j : ℕ) → j < steps → slot_at slots n h j ≢ vacant

abbrev pub IsReachable : List Slot → ℕ → Type 0
IsReachable slots n = (i h d : ℕ) → get_or slots i vacant ≡ entry h d → Reached slots n h i

pub entry_of_passed : (test : ℕ → ℕ → Bool) (s : Slot) → stops test s ≡ false → s ≢ vacant
unfolding stops
entry_of_passed test s h e = ground arith

set-used :
    (slots : List Slot) (p j : ℕ) (s : Slot)
    → s ≢ vacant
    → p < length slots
    → get_or slots j vacant ≢ vacant
    → get_or (set slots p s) j vacant ≢ vacant
set-used slots p j s ns l h = elim (ℕ_discrete p j) [
  | yes e ↦ rw (← e, get_or-set_self slots p s vacant l) ns
  | no ne ↦ rw (get_or-set_ne slots p j s vacant ne) h
]

Reached-set :
    (slots : List Slot) (n h i p : ℕ) (s : Slot)
    → s ≢ vacant
    → p < length slots
    → Reached slots n h i
    → Reached (set slots p s) n h i
Reached-set slots n h i p s ns l r = record {
  steps = r.steps;
  within = r.within;
  ends = r.ends;
  used = λ j k. set-used slots p ((h + j) % n) s ns l (r.used j k);
}

module _ (test : ℕ → ℕ → Bool) (slots : List Slot) (n hash item : ℕ) (sized : length slots ≡ n)
    (f : Stopped test slots n hash) where
  -- The slot at which the probe ended.
  abbrev pub place : ℕ
  place = (hash + f.steps) % n

  pub place-lt : place < length slots
  place-lt = rw sized (mod-lt (hash + f.steps) (omega (arith, f.within)))

  pub place-IsReachable : IsReachable slots n → IsReachable (set slots place (entry hash item)) n
  place-IsReachable r i h d e = elim (ℕ_discrete place i) [
    | yes q ↦
        let same : entry h d ≡ entry hash item =
          sym e
          ∙ ap (λ k. get_or (set slots place (entry hash item)) k vacant) (sym q)
          ∙ get_or-set_self slots place (entry hash item) vacant place-lt in
        let hh : h ≡ hash = cc in
        rw hh (record {
          steps = f.steps;
          within = f.within;
          ends = q;
          used = λ j k.
              set-used slots place ((hash + j) % n) (entry hash item) (λ v. cc) place-lt
                (entry_of_passed test (slot_at slots n hash j) (f.passed j k));
        })
    | no ne ↦
        Reached-set slots n h i place (entry hash item) (λ v. cc) place-lt
          (r i h d (sym (get_or-set_ne slots place i (entry hash item) vacant ne) ∙ e))
  ]

  -- What the table holds after an entry is put into a vacant slot.
  pub place-Holds :
      (h d : ℕ)
      → get_or slots place vacant ≡ vacant
      → Holds (set slots place (entry hash item)) h d
        ↔ (Holds slots h d ⊎ ((h ≡ hash) × (d ≡ item)))
  place-Holds h d free = (there, back)
    where
      there :
          Holds (set slots place (entry hash item)) h d
          → Holds slots h d ⊎ ((h ≡ hash) × (d ≡ item))
      there (i, e) = elim (ℕ_discrete place i) [
        | yes q ↦
            let same : entry h d ≡ entry hash item =
              sym e
              ∙ ap (λ k. get_or (set slots place (entry hash item)) k vacant) (sym q)
              ∙ get_or-set_self slots place (entry hash item) vacant place-lt in
            inr (cc, cc)
        | no ne ↦ inl (i, sym (get_or-set_ne slots place i (entry hash item) vacant ne) ∙ e)
      ]

      back :
          Holds slots h d ⊎ ((h ≡ hash) × (d ≡ item))
          → Holds (set slots place (entry hash item)) h d
      back (inl (i, e)) =
          let ne : place ≢ i = λ q. cc (ap (λ k. get_or slots k vacant) q) in
          (i, get_or-set_ne slots place i (entry hash item) vacant ne ∙ e)
      back (inr (q, q')) =
          (place, get_or-set_self slots place (entry hash item) vacant place-lt ∙ cc)

-- A tombstone in the place of an entry.
pub bury-IsReachable :
    (slots : List Slot) (n p : ℕ)
    → p < length slots
    → IsReachable slots n
    → IsReachable (set slots p tombstone) n
bury-IsReachable slots n p l r i h d e = elim (ℕ_discrete p i) [
  | yes q ↦
      let t : get_or (set slots p tombstone) i vacant ≡ tombstone =
        ap (λ k. get_or (set slots p tombstone) k vacant) (sym q)
        ∙ get_or-set_self slots p tombstone vacant l in
      cc
  | no ne ↦
      Reached-set slots n h i p tombstone (λ v. cc) l
        (r i h d (sym (get_or-set_ne slots p i tombstone vacant ne) ∙ e))
]
