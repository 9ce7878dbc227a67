-- ===== src/Minzip/Hash/Remove.antt =====
-- minzip/Hash.c: mzHashTableCreate, and mzHashTableRemove and mzHashTableClear on a valid table.
use native.Mathlib.Decide.{ℕ_discrete}
use cot_bootable_recovery_to.Base.{
  ℕ, suc, ◌+◌, ◌-◌, ◌%◌, ◌<◌, ◌≤◌, ◌≡◌, ◌≢◌, ◌∙◌, ◌⊎◌, inl, inr, refl, sym, ap, Bool, true, false,
  some, length, get_or, set, length-set, length-replicate, get_or-set_self, get_or-set_ne, ◌==◌,
  ==_iff, arith,
}
use cot_bootable_recovery_to.Minzip.Hash.Table.{
  vacant, tombstone, entry, Table, at, probe, same_item, remove, remove_at, clear, create,
  round_up_power2, hash_size, add_entry,
}
use cot_bootable_recovery_to.Minzip.Hash.Load.{count-set_tombstone, count-replicate}
use cot_bootable_recovery_to.Minzip.Hash.Place.{Holds, bury-IsReachable, place-lt}
use cot_bootable_recovery_to.Minzip.Hash.Valid.{
  IsValid, probe_ends, Holds-vacant, stored, add_entry_fits,
}
use cot_bootable_recovery_to.Minzip.Hash.Lookup.{passed_all, slot_cases}

-- One entry of the item less, and the other items untouched.
pub record Removed (t t' : Table) (item : ℕ) : Type 0 where
  pub valid : IsValid t'
  pub was_there : (h : ℕ) × Holds t.slots h item
  pub one_less : suc t'.num_entries ≡ t.num_entries
  pub nothing_new : (h d : ℕ) → Holds t'.slots h d → Holds t.slots h d
  pub others_kept : (h d : ℕ) → d ≢ item → Holds t.slots h d → Holds t'.slots h d

-- The table with a tombstone in slot `i`.
abbrev buried : Table → ℕ → Table
buried t i = record t {
  num_entries = t.num_entries - 1;
  num_dead_entries = t.num_dead_entries + 1;
  slots = set t.slots i tombstone;
}

remove_at_entry :
    (t : Table) (i h d : ℕ)
    → get_or t.slots i vacant ≡ entry h d
    → remove_at t i ≡ (buried t i, true)
unfolding remove_at
remove_at_entry t i h d e = rw (e, remove_at) refl

remove_at_vacant :
    (t : Table) (i : ℕ) → get_or t.slots i vacant ≡ vacant → remove_at t i ≡ (t, false)
unfolding remove_at
remove_at_vacant t i e = rw (e, remove_at) refl

remove_stop :
    (t : Table) (hash item i : ℕ) {r : Table × Bool}
    → probe t.table_size (same_item item) t (hash % t.table_size) ≡ at i
    → remove_at t i ≡ r
    → remove t hash item ≡ some r
unfolding remove
remove_stop t hash item i e e' = rw (e, remove) (ap some e')

module _ (t : Table) (i h item : ℕ) (v : IsValid t) (l : i < length t.slots)
    (q : get_or t.slots i vacant ≡ entry h item) where
  unburied : (h' d : ℕ) → Holds (set t.slots i tombstone) h' d → Holds t.slots h' d
  unburied h' d (j, e) = elim (ℕ_discrete i j) [
    | yes p ↦
        let clash : tombstone ≡ entry h' d =
          sym (get_or-set_self t.slots i tombstone vacant l)
          ∙ ap (λ k. get_or (set t.slots i tombstone) k vacant) p
          ∙ e in
        cc
    | no ne ↦ (j, sym (get_or-set_ne t.slots i j tombstone vacant ne) ∙ e)
  ]

  kept : (h' d : ℕ) → d ≢ item → Holds t.slots h' d → Holds (set t.slots i tombstone) h' d
  kept h' d other (j, e) = elim (ℕ_discrete i j) [
    | yes p ↦
        let clash : entry h item ≡ entry h' d = sym q ∙ ap (λ k. get_or t.slots k vacant) p ∙ e in
        absurd (other cc)
    | no ne ↦ (j, get_or-set_ne t.slots i j tombstone vacant ne ∙ e)
  ]

  buried-Removed : Removed t (buried t i) item
  buried-Removed =
      let (less, more) = count-set_tombstone t.slots i h item q in
      record {
        valid = record {
          positive = v.positive;
          sized = length-set t.slots i tombstone ∙ v.sized;
          entries = omega (arith, v.entries, less);
          dead = omega (arith, v.dead, more);
          load = omega (arith, v.load, v.entries, less);
          reach = bury-IsReachable t.slots t.table_size i l v.reach;
        };
        was_there = (h, (i, q));
        one_less = omega (arith, v.entries, less);
        nothing_new = unburied;
        others_kept = kept;
      }

-- A call on a valid table ends. Either it takes out one entry of the item, or the table has no
-- entry of the item under the hash and stays as it is.
pub remove_lem :
    (t : Table) (hash item : ℕ)
    → IsValid t
    → ((t' : Table) × (remove t hash item ≡ some (t', true)) × Removed t t' item)
      ⊎ ((remove t hash item ≡ some (t, false)) × ¬ Holds t.slots hash item)
remove_lem t hash item v =
    let (f, e) = probe_ends (same_item item) t hash v in
    let i = (hash + f.steps) % t.table_size in
    elim (slot_cases (same_item item) _ f.stopped) [
      | inl free ↦ inr (
        remove_stop t hash item i e (remove_at_vacant t i free),
        λ h.
            let differs : (item == item) ≡ false =
              passed_all (same_item item) t hash v f free item h in
            ground arith,
      )
      | inr (h, d, q, m) ↦
          let same : d ≡ item = (==_iff d item).0 m in
          inl (
            buried t i,
            remove_stop t hash item i e (remove_at_entry t i h d q),
            buried-Removed t i h item v
                (place-lt (same_item item) t.slots t.table_size hash item v.sized f)
                (q ∙ ap (entry h) same),
          )
    ]

-- Clearing a valid table leaves a valid one that holds nothing.
pub clear-IsValid :
    (t : Table) → IsValid t → IsValid (clear t) × ((h d : ℕ) → ¬ Holds (clear t).slots h d)
unfolding clear
clear-IsValid t v =
    let (no_entries, no_dead) = count-replicate (length t.slots) in
    (
      record {
        positive = v.positive;
        sized = length-replicate (length t.slots) vacant ∙ v.sized;
        entries = sym no_entries;
        dead = sym no_dead;
        load = omega arith;
        reach = λ i h d e. absurd (Holds-vacant (length t.slots) h d (i, e));
      },
      Holds-vacant (length t.slots),
    )

-- A new table is valid and holds nothing, where its rounded size did not wrap around to 0.
pub create-IsValid :
    (initial_size : ℕ)
    → 0 < round_up_power2 initial_size
    → IsValid (create initial_size) × ((h d : ℕ) → ¬ Holds (create initial_size).slots h d)
unfolding create
create-IsValid initial_size pos =
    let n = round_up_power2 initial_size in
    let (no_entries, no_dead) = count-replicate n in
    (
      record {
        positive = pos;
        sized = length-replicate n vacant;
        entries = sym no_entries;
        dead = sym no_dead;
        load = omega arith;
        reach = λ i h d e. absurd (Holds-vacant n h d (i, e));
      },
      Holds-vacant n,
    )

-- A table with the size that mzHashSize gives for `n` items, or a larger one, takes up to `n` of
-- them, tombstones counted, without a resize.
pub hash_size_lem :
    (n : ℕ) (t : Table) (i hash item : ℕ)
    → hash_size n ≤ t.table_size
    → t.num_entries + 1 + t.num_dead_entries ≤ n
    → (t' : Table) × (add_entry t i hash item ≡ some t') × (t'.table_size ≡ t.table_size)
unfolding hash_size
hash_size_lem n t i hash item h k =
    (stored t i hash item, add_entry_fits t i hash item (omega arith), refl)
