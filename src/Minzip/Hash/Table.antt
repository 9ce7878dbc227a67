-- ===== src/Minzip/Hash/Table.antt =====
-- minzip/Hash.c and Hash.h. An item is a pointer, which is a number here. The table's size is a
-- power of two, so `hash & (size - 1)` is written as the remainder.
use Prim.Native.Nat.{◌^◌, bit_or}
use cot_bootable_recovery_to.Base.{
  ℕ, zero, suc, ◌+◌, ◌-◌, ◌*◌, ◌/◌, ◌%◌, Bool, true, false, ◌&&◌, List, [], ◌∷◌, Option, none, some,
  length, get_or, set, replicate, ltb, ◌==◌, if◌then◌else◌,
}

-- `HashEntry`: `data` is NULL, HASH_TOMBSTONE or an item.
pub data Slot : Type 0 where
  vacant tombstone : Slot
  entry : ℕ → ℕ → Slot

-- `HashTable`, with the array behind `pEntries`.
pub record Table : Type 0 where
  pub table_size : ℕ
  pub num_entries : ℕ
  pub num_dead_entries : ℕ
  pub slots : List Slot

abbrev pub load_numer : ℕ
load_numer = 5

abbrev pub load_denom : ℕ
load_denom = 8

-- mzHashSize.
unfoldable pub hash_size : ℕ → ℕ
hash_size size = size * load_denom / load_numer + 1

-- roundUpPower2, on 32-bit unsigned numbers.
unfoldable pub round_up_power2 : ℕ → ℕ
round_up_power2 val =
    let less = (val + 2 ^ 32 - 1) % 2 ^ 32 in
    let by1 = bit_or less (less / 2) in
    let by2 = bit_or by1 (by1 / 2 ^ 2) in
    let by4 = bit_or by2 (by2 / 2 ^ 4) in
    let by8 = bit_or by4 (by4 / 2 ^ 8) in
    let by16 = bit_or by8 (by8 / 2 ^ 16) in (by16 + 1) % 2 ^ 32

-- mzHashTableCreate, where there is memory for the table.
unfoldable pub create : ℕ → Table
create initial_size = record {
  table_size = round_up_power2 initial_size;
  num_entries = 0;
  num_dead_entries = 0;
  slots = replicate (round_up_power2 initial_size) vacant;
}

-- Where a probing loop ends: at a slot, behind the array of a table with one slot, or never.
pub data Probe : Type 0 where
  at : ℕ → Probe
  off_end endless : Probe

-- Whether a loop ends at a slot: at a vacant one, or at an entry that passes the loop's test.
unfoldable pub stops : (ℕ → ℕ → Bool) → Slot → Bool
stops test vacant = true
stops test tombstone = false
stops test (entry hash item) = test hash item

-- `while (pEntry->data != NULL) { if (test) break; pEntry++; … }` of mzHashTableLookup,
-- mzHashTableRemove and countProbes, from slot `i`.
unfoldable pub probe : ℕ → (ℕ → ℕ → Bool) → Table → ℕ → Probe
probe zero test t i = endless
probe (suc fuel) test t i =
    let again = probe fuel test t 0 in
    let further = probe fuel test t (i + 1) in
    let wrapped = if t.table_size == 1 then off_end else again in
    let next = if i + 1 == t.table_size then wrapped else further in
    if stops test (get_or t.slots i vacant) then at i else next

-- The loop of resizeHash that looks for a vacant slot of the new array.
unfoldable pub find_vacant : ℕ → ℕ → List Slot → ℕ → Option ℕ
find_vacant zero size slots i = none
find_vacant (suc fuel) size slots i =
    let next = find_vacant fuel size slots ((i + 1) % size) in
    elim (get_or slots i vacant) [ vacant ↦ some i | _ ↦ next ]

-- The loop of resizeHash over the old array.
unfoldable pub rehash : ℕ → List Slot → List Slot → Option (List Slot)
rehash size [] new = some new
rehash size (vacant ∷ old) new = rehash size old new
rehash size (tombstone ∷ old) new = rehash size old new
rehash size (entry hash item ∷ old) new = elim (find_vacant size size new (hash % size)) [
  | none ↦ none
  | some i ↦ rehash size old (set new i (entry hash item))
]

-- resizeHash; `none` where a loop does not end. calloc gives vacant slots.
unfoldable pub resize_hash : Table → ℕ → Option Table
resize_hash t size = elim (rehash size t.slots (replicate size vacant)) [
  | none ↦ none
  | some new ↦ some (record t { slots = new; table_size = size; num_dead_entries = 0 })
]

-- The new entry is stored, and the table doubled if it gets too close to full.
unfoldable pub add_entry : Table → ℕ → ℕ → ℕ → Option Table
add_entry t i hash item =
    let added : Table = record t {
      num_entries = t.num_entries + 1;
      slots = set t.slots i (entry hash item);
    } in
    let grown = resize_hash added (t.table_size * 2) in
    if ltb (t.table_size * load_numer) ((t.num_entries + 1 + t.num_dead_entries) * load_denom)
    then grown
    else some added

-- What a call of mzHashTableLookup gives: the table and the result, or a loop that does not end or
-- leaves the array.
abbrev pub Looked : Type 0
Looked = Option (Table × Option ℕ)

unfoldable pub lookup_at : Table → ℕ → ℕ → Bool → ℕ → Looked
lookup_at t hash item do_add i = elim (get_or t.slots i vacant) [
  | vacant ↦
      if do_add
      then elim (add_entry t i hash item) [ none ↦ none | some t' ↦ some (t', some item) ]
      else some (t, none)
  | tombstone ↦ some (t, none)
  | entry h found ↦ some (t, some found)
]

module _ (compare : ℕ → ℕ → Bool) where
  -- The test for a match: the same hash, and `cmpFunc(data, item) == 0`.
  abbrev pub matches : ℕ → ℕ → ℕ → ℕ → Bool
  matches hash item h found = h == hash && compare found item

  -- mzHashTableLookup.
  unfoldable pub lookup : Table → ℕ → ℕ → Bool → Looked
  lookup t hash item do_add =
      elim (probe t.table_size (matches hash item) t (hash % t.table_size)) [
        | at i ↦ lookup_at t hash item do_add i
        | off_end ↦ none
        | endless ↦ none
      ]

-- mzHashTableRemove finds the entry by the pointer.
abbrev pub same_item : ℕ → ℕ → ℕ → Bool
same_item item h found = found == item

unfoldable pub remove_at : Table → ℕ → Table × Bool
remove_at t i = elim (get_or t.slots i vacant) [
  | vacant ↦ (t, false)
  | tombstone ↦ (t, false)
  | entry h found ↦ (
    record t {
      num_entries = t.num_entries - 1;
      num_dead_entries = t.num_dead_entries + 1;
      slots = set t.slots i tombstone;
    },
    true,
  )
]

unfoldable pub remove : Table → ℕ → ℕ → Option (Table × Bool)
remove t hash item = elim (probe t.table_size (same_item item) t (hash % t.table_size)) [
  | at i ↦ some (remove_at t i)
  | off_end ↦ some (t, false)
  | endless ↦ none
]

-- mzHashTableClear.
unfoldable pub clear : Table → Table
clear t = record t {
  num_entries = 0;
  num_dead_entries = 0;
  slots = replicate (length t.slots) vacant;
}

-- mzHashForeach: the first result of `func` that is not 0 ends the loop.
unfoldable pub for_each : (ℕ → ℕ) → List Slot → ℕ
for_each func [] = 0
for_each func (entry hash item ∷ slots) =
    let rest = for_each func slots in if func item == 0 then rest else func item
for_each func (_ ∷ slots) = for_each func slots
