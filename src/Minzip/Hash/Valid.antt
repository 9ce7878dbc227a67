-- ===== src/Minzip/Hash/Valid.antt =====
-- minzip/Hash.c: the invariant of a hash table, for resizing and for adding an entry.
use native.Mathlib.Decide.{dec_le}
use cot_bootable_recovery_to.Base.{
  ℕ, zero, suc, ◌+◌, ◌*◌, ◌%◌, ◌≤◌, ◌<◌, ◌≡◌, ◌∙◌, ◌⊎◌, ◌↔◌, inl, inr, refl, sym, Bool, List, some,
  length, get_or, set, replicate, length-set, length-replicate, le→ltb, lt→ltb, arith,
}
use cot_bootable_recovery_to.Minzip.Hash.Table.{
  Slot, vacant, entry, Table, at, probe, resize_hash, add_entry, rehash,
}
use cot_bootable_recovery_to.Minzip.Hash.Probe.{Stopped, probe_lem}
use cot_bootable_recovery_to.Minzip.Hash.Load.{
  count_entries, count_dead, count-set_entry, count-replicate,
}
use cot_bootable_recovery_to.Minzip.Hash.Place.{
  Holds, IsReachable, place, place-lt, place-IsReachable, place-Holds,
}
use cot_bootable_recovery_to.Minzip.Hash.Resize.{sized_vacancy, rehash_lem}

-- The counters are right, at most 5/8 of the slots are in use, and each entry can be found.
pub record IsValid (t : Table) : Type 0 where
  pub positive : 0 < t.table_size
  pub sized : length t.slots ≡ t.table_size
  pub entries : t.num_entries ≡ count_entries t.slots
  pub dead : t.num_dead_entries ≡ count_dead t.slots
  pub load : (t.num_entries + t.num_dead_entries) * 8 ≤ t.table_size * 5
  pub reach : IsReachable t.slots t.table_size

-- In a valid table every probing loop ends at a slot.
pub probe_ends :
    (test : ℕ → ℕ → Bool) (t : Table) (start : ℕ)
    → IsValid t
    → (f : Stopped test t.slots t.table_size start) × (probe t.table_size test t
          (start % t.table_size)
        ≡ at ((start + f.steps) % t.table_size))
probe_ends test t start v =
    let (k, lt, free) =
      sized_vacancy t.slots t.table_size start v.sized
        (omega (arith, v.positive, v.entries, v.dead, v.load)) in
    probe_lem test t start k lt free

get-vacant : (n i : ℕ) → get_or (replicate n vacant) i vacant ≡ vacant
get-vacant zero i = refl
get-vacant (suc n) zero = refl
get-vacant (suc n) (suc i) = get-vacant n i

pub Holds-vacant : (n h d : ℕ) → ¬ Holds (replicate n vacant) h d
Holds-vacant n h d (i, e) = let q : vacant ≡ entry h d = sym (get-vacant n i) ∙ e in cc

-- The entries are the same ones.
pub record Grown (t t' : Table) : Type 0 where
  pub valid : IsValid t'
  pub holds : (h d : ℕ) → Holds t'.slots h d ↔ Holds t.slots h d
  pub as_many : t'.num_entries ≡ t.num_entries

resize_of :
    (t : Table) (size : ℕ) (out : List Slot)
    → rehash size t.slots (replicate size vacant) ≡ some out
    → resize_hash t size ≡ some (record t { slots = out; table_size = size; num_dead_entries = 0 })
unfolding resize_hash
resize_of t size out e = rw (e, resize_hash) refl

-- If the count of entries is right and at most 5/8 of the new size, resizeHash ends with a valid
-- table that holds the same items.
pub resize_hash_lem :
    (t : Table) (size : ℕ)
    → t.num_entries ≡ count_entries t.slots
    → t.num_entries * 8 ≤ size * 5
    → 0 < size
    → (t' : Table) × (resize_hash t size ≡ some t') × Grown t t'
resize_hash_lem t size c room pos =
    let (none_there, no_dead) = count-replicate size in
    let (out, e, r) =
      rehash_lem size t.slots (replicate size vacant) (length-replicate size vacant)
        (λ i h d e. absurd (Holds-vacant size h d (i, e))) no_dead (omega (arith, none_there)) in
    (
      record t { slots = out; table_size = size; num_dead_entries = 0 },
      resize_of t size out e,
      record {
        valid = record {
          positive = pos;
          sized = r.sized;
          entries = omega (arith, r.all_entries, none_there);
          dead = sym r.none_dead;
          load = omega arith;
          reach = r.reach;
        };
        holds = λ h d. (
          λ x. elim ((r.holds h d).0 x) [ inl o ↦ o | inr w ↦ absurd (Holds-vacant size h d w) ],
          λ x. (r.holds h d).1 (inl x),
        );
        as_many = refl;
      },
    )

-- One more entry.
pub record Added (t t' : Table) (hash item : ℕ) : Type 0 where
  pub valid : IsValid t'
  pub holds : (h d : ℕ) → Holds t'.slots h d ↔ (Holds t.slots h d ⊎ ((h ≡ hash) × (d ≡ item)))
  pub one_more : t'.num_entries ≡ suc t.num_entries

module _ (t : Table) (i hash item : ℕ) where
  -- The table before it is grown.
  abbrev pub stored : Table
  stored = record t { num_entries = t.num_entries + 1; slots = set t.slots i (entry hash item) }

  add_entry_full :
      {t' : Table}
      → t.table_size * 5 < (t.num_entries + 1 + t.num_dead_entries) * 8
      → resize_hash stored (t.table_size * 2) ≡ some t'
      → add_entry t i hash item ≡ some t'
  unfolding add_entry
  add_entry_full h e =
      rw (lt→ltb (t.table_size * 5) ((t.num_entries + 1 + t.num_dead_entries) * 8) h, add_entry) e

  pub add_entry_fits :
      (t.num_entries + 1 + t.num_dead_entries) * 8 ≤ t.table_size * 5
      → add_entry t i hash item ≡ some stored
  unfolding add_entry
  add_entry_fits h =
      rw (le→ltb (t.table_size * 5) ((t.num_entries + 1 + t.num_dead_entries) * 8) h, add_entry)
        refl

module _ (test : ℕ → ℕ → Bool) (t : Table) (hash item : ℕ) (v : IsValid t)
    (f : Stopped test t.slots t.table_size hash)
    (free : get_or t.slots ((hash + f.steps) % t.table_size) vacant ≡ vacant) where
  -- An entry added where the probe ended.
  pub add_entry_lem :
      (t' : Table) × (add_entry t ((hash + f.steps) % t.table_size) hash item ≡ some t')
      × Added t t' hash item
  add_entry_lem =
      let p = place test t.slots t.table_size hash item v.sized f in
      let below = place-lt test t.slots t.table_size hash item v.sized f in
      let (entries, dead) = count-set_entry t.slots p hash item below free in
      let holds = λ (h d : ℕ). place-Holds test t.slots t.table_size hash item v.sized f h d free in
      let count : t.num_entries + 1 ≡ count_entries (set t.slots p (entry hash item)) =
        omega (arith, entries, v.entries) in
      elim (dec_le ((t.num_entries + 1 + t.num_dead_entries) * 8) (t.table_size * 5)) [
        | yes fits ↦ (
          stored t p hash item,
          add_entry_fits t p hash item fits,
          record {
            valid = record {
              positive = v.positive;
              sized = length-set t.slots p (entry hash item) ∙ v.sized;
              entries = count;
              dead = v.dead ∙ sym dead;
              load = fits;
              reach = place-IsReachable test t.slots t.table_size hash item v.sized f v.reach;
            };
            holds = holds;
            one_more = omega arith;
          },
        )
        | no full ↦
            let (t', e, g) =
              resize_hash_lem (stored t p hash item) (t.table_size * 2) count
                (omega (arith, v.load, v.positive)) (omega (arith, v.positive)) in
            (
              t',
              add_entry_full t p hash item (omega arith) e,
              record {
                valid = g.valid;
                holds = λ h d. (
                  λ x. (holds h d).0 ((g.holds h d).0 x),
                  λ x. (g.holds h d).1 ((holds h d).1 x),
                );
                one_more = g.as_many ∙ omega arith;
              },
            )
      ]
