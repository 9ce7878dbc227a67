-- ===== src/Minzip/Hash/Load.antt =====
-- minzip/Hash.c: how many slots are in use, and which are vacant.
use native.Mathlib.Nat.{mod-add-mod, mod-eq_of_lt, mod-lt, add-mod_right}
use native.Mathlib.Decide.{dec_le}
use cot_bootable_recovery_to.Base.{
  ℕ, zero, suc, ◌+◌, ◌-◌, ◌%◌, ◌<◌, ◌≡◌, ◌∙◌, refl, sym, ap, List, [], ◌∷◌, length, get_or, set,
  replicate, arith,
}
use cot_bootable_recovery_to.Minzip.Hash.Table.{Slot, vacant, tombstone, entry}
use cot_bootable_recovery_to.Minzip.Hash.Probe.{slot_at}

abbrev pub count_entries : List Slot → ℕ
count_entries [] = 0
count_entries (entry h d ∷ slots) = suc (count_entries slots)
count_entries (vacant ∷ slots) = count_entries slots
count_entries (tombstone ∷ slots) = count_entries slots

abbrev pub count_dead : List Slot → ℕ
count_dead [] = 0
count_dead (tombstone ∷ slots) = suc (count_dead slots)
count_dead (vacant ∷ slots) = count_dead slots
count_dead (entry h d ∷ slots) = count_dead slots

vacancy :
    (slots : List Slot)
    → count_entries slots + count_dead slots < length slots
    → (i : ℕ) × (i < length slots) × (get_or slots i vacant ≡ vacant)
vacancy [] h = absurd (omega arith)
vacancy (vacant ∷ slots) h = (0, omega arith, refl)
vacancy (tombstone ∷ slots) h =
    let (i, l, e) = vacancy slots (omega arith) in (suc i, omega arith, e)
vacancy (entry hash d ∷ slots) h =
    let (i, l, e) = vacancy slots (omega arith) in (suc i, omega arith, e)

-- Every slot is some steps behind any start.
steps_to : (n start i : ℕ) → i < n → (v : ℕ) × (v < n) × ((start + v) % n ≡ i)
steps_to n start i h =
    let s = start % n in
    let below : s < n = mod-lt start (omega arith) in
    elim (dec_le s i) [
      | yes le ↦
          let e : s + (i - s) ≡ i = omega arith in
          (
            i - s,
            omega arith,
            sym (mod-add-mod start n (i - s)) ∙ ap (λ x. x % n) e ∙ mod-eq_of_lt h,
          )
      | no nle ↦
          let e : s + (i + n - s) ≡ i + n = omega arith in
          (
            i + n - s,
            omega arith,
            sym (mod-add-mod start n (i + n - s))
                ∙ ap (λ x. x % n) e
                ∙ add-mod_right i n
                ∙ mod-eq_of_lt h,
          )
    ]

-- From every start the probing comes to a vacant slot, while the entries and tombstones are fewer
-- than the slots.
pub vacancy_from :
    (slots : List Slot) (start : ℕ)
    → count_entries slots + count_dead slots < length slots
    → (v : ℕ) × (v < length slots) × (slot_at slots (length slots) start v ≡ vacant)
vacancy_from slots start h =
    let (i, l, e) = vacancy slots h in
    let (v, k, q) = steps_to (length slots) start i l in (v, k, rw q e)

-- Putting an entry into a vacant slot, and a tombstone into the slot of an entry.
pub count-set_entry :
    (slots : List Slot) (i h d : ℕ)
    → i < length slots
    → get_or slots i vacant ≡ vacant
    → (count_entries (set slots i (entry h d)) ≡ suc (count_entries slots))
      × (count_dead (set slots i (entry h d)) ≡ count_dead slots)
count-set_entry [] i h d l e = absurd (omega arith)
count-set_entry (vacant ∷ slots) zero h d l e = (refl, refl)
count-set_entry (tombstone ∷ slots) zero h d l e = cc
count-set_entry (entry h' d' ∷ slots) zero h d l e = cc
count-set_entry (vacant ∷ slots) (suc i) h d l e = count-set_entry slots i h d (omega arith) e
count-set_entry (tombstone ∷ slots) (suc i) h d l e =
    let (a, b) = count-set_entry slots i h d (omega arith) e in (a, ap suc b)
count-set_entry (entry h' d' ∷ slots) (suc i) h d l e =
    let (a, b) = count-set_entry slots i h d (omega arith) e in (ap suc a, b)

pub count-set_tombstone :
    (slots : List Slot) (i h d : ℕ)
    → get_or slots i vacant ≡ entry h d
    → (suc (count_entries (set slots i tombstone)) ≡ count_entries slots)
      × (count_dead (set slots i tombstone) ≡ suc (count_dead slots))
count-set_tombstone [] i h d e = cc
count-set_tombstone (vacant ∷ slots) zero h d e = cc
count-set_tombstone (tombstone ∷ slots) zero h d e = cc
count-set_tombstone (entry h' d' ∷ slots) zero h d e = (refl, refl)
count-set_tombstone (vacant ∷ slots) (suc i) h d e = count-set_tombstone slots i h d e
count-set_tombstone (tombstone ∷ slots) (suc i) h d e =
    let (a, b) = count-set_tombstone slots i h d e in (a, ap suc b)
count-set_tombstone (entry h' d' ∷ slots) (suc i) h d e =
    let (a, b) = count-set_tombstone slots i h d e in (ap suc a, b)

pub count-replicate :
    (n : ℕ) → (count_entries (replicate n vacant) ≡ 0) × (count_dead (replicate n vacant) ≡ 0)
count-replicate zero = (refl, refl)
count-replicate (suc n) = count-replicate n
