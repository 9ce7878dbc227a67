-- ===== src/Minzip/Hash/Tests.antt =====
-- The theorems on hash tables at fixed tables.
use cot_bootable_recovery_to.Base.{
  ℕ, zero, suc, ◌+◌, ◌%◌, ◌≤◌, ◌<◌, ◌≡◌, ◌≢◌, ◌⊎◌, refl, Bool, true, false, [], ◌∷◌, some, get_or,
  replicate, ◌==◌, arith,
}
use cot_bootable_recovery_to.Minzip.Hash.Table.{
  vacant, tombstone, entry, Table, lookup, hash_size, round_up_power2, remove, clear,
}
use cot_bootable_recovery_to.Minzip.Hash.Place.{Holds, IsReachable}
use cot_bootable_recovery_to.Minzip.Hash.Valid.{IsValid}
use cot_bootable_recovery_to.Minzip.Hash.Lookup.{IsMatch, Missed, lookup_lem}
use cot_bootable_recovery_to.Minzip.Hash.Remove.{Removed, remove_lem, clear-IsValid}

-- Four slots, in which 11 has moved on from the slot of its hash.
abbrev two_items : Table
two_items = record {
  table_size = 4;
  num_entries = 2;
  num_dead_entries = 0;
  slots = vacant ∷ entry 5 10 ∷ entry 9 11 ∷ vacant ∷ [];
}

reach_two : IsReachable two_items.slots 4
reach_two zero h d e = cc
reach_two (suc zero) h d e =
    let q : h ≡ 5 = cc in
    rw q
      (record { steps = 0; within = omega arith; ends = refl; used = λ j l. absurd (omega arith) })
reach_two (suc (suc zero)) h d e =
    let q : h ≡ 9 = cc in
    rw q (record { steps = 1; within = omega arith; ends = refl; used = first })
  where
    first : (j : ℕ) → j < 1 → get_or two_items.slots ((9 + j) % 4) vacant ≢ vacant
    first zero l e = cc
    first (suc j) l e = absurd (omega arith)
reach_two (suc (suc (suc zero))) h d e = cc
reach_two (suc (suc (suc (suc i)))) h d e = cc

abbrev two_items-IsValid : IsValid two_items
two_items-IsValid = record {
  positive = omega arith;
  sized = refl;
  entries = refl;
  dead = refl;
  load = omega arith;
  reach = reach_two;
}

lookup_lem_example :
    ((d : ℕ) × IsMatch (λ a b. a == b) two_items 9 11 d
      × ((add : Bool) → lookup (λ a b. a == b) two_items 9 11 add ≡ some (two_items, some d)))
    ⊎ Missed (λ a b. a == b) two_items 9 11
lookup_lem_example = lookup_lem (λ a b. a == b) two_items 9 11 two_items-IsValid

remove_lem_example :
    ((t' : Table) × (remove two_items 9 11 ≡ some (t', true)) × Removed two_items t' 11)
    ⊎ ((remove two_items 9 11 ≡ some (two_items, false)) × ¬ Holds two_items.slots 9 11)
remove_lem_example = remove_lem two_items 9 11 two_items-IsValid

none_there : IsReachable (replicate 4 vacant) 4
unfolding clear
none_there i h d e = absurd ((clear-IsValid two_items two_items-IsValid).1 h d (i, e))

rounded : 0 < round_up_power2 5
unfolding round_up_power2
rounded = omega arith

abbrev eight_slots : Table
eight_slots = record {
  table_size = 8;
  num_entries = 2;
  num_dead_entries = 1;
  slots = entry 8 10 ∷ entry 1 11 ∷ tombstone ∷ replicate 5 vacant;
}

four_items : hash_size 4 ≤ 8
unfolding hash_size
four_items = omega arith
