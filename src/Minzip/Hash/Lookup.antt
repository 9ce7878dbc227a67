-- ===== src/Minzip/Hash/Lookup.antt =====
-- minzip/Hash.c: mzHashTableLookup on a valid table.
use native.Mathlib.Decide.{dec_le, ℕ_discrete}
use cot_bootable_recovery_to.Base.{
  ℕ, suc, ◌+◌, ◌%◌, ◌<◌, ◌≡◌, ◌∙◌, ◌⊎◌, inl, inr, refl, sym, ap, Bool, true, false, Option, none,
  some, get_or, arith,
}
use cot_bootable_recovery_to.Minzip.Hash.Table.{
  Slot, vacant, tombstone, entry, Table, at, stops, probe, matches, lookup, lookup_at, add_entry,
}
use cot_bootable_recovery_to.Minzip.Hash.Probe.{slot_at, Stopped}
use cot_bootable_recovery_to.Minzip.Hash.Place.{Holds}
use cot_bootable_recovery_to.Minzip.Hash.Valid.{IsValid, probe_ends, Added, add_entry_lem}

-- A probe that ends at a vacant slot has passed every entry with its hash.
module _ (test : ℕ → ℕ → Bool) (t : Table) (hash : ℕ) (v : IsValid t)
    (f : Stopped test t.slots t.table_size hash)
    (free : get_or t.slots ((hash + f.steps) % t.table_size) vacant ≡ vacant) where
  pub passed_all : (d : ℕ) → Holds t.slots hash d → test hash d ≡ false
  unfolding stops
  passed_all d (i, e) =
      let r = v.reach i hash d e in
      let here : slot_at t.slots t.table_size hash r.steps ≡ entry hash d =
        ap (λ k. get_or t.slots k vacant) r.ends ∙ e in
      elim (ℕ-compare r.steps f.steps) [
        | inl before ↦ ap (stops test) (sym here) ∙ f.passed r.steps before
        | inr (inl same) ↦
            let clash : entry hash d ≡ vacant =
              sym here ∙ ap (slot_at t.slots t.table_size hash) same ∙ free in
            cc
        | inr (inr after) ↦ absurd (r.used f.steps after free)
      ]
    where
      ℕ-compare : (a b : ℕ) → (a < b) ⊎ ((a ≡ b) ⊎ (b < a))
      ℕ-compare a b = elim (dec_le (suc a) b) [
        | yes h ↦ inl h
        | no h ↦ elim (ℕ_discrete a b) [ yes e ↦ inr (inl e) | no ne ↦ inr (inr (omega arith)) ]
      ]

-- Where the slot is, and that the loop's test accepts it.
pub slot_cases :
    (test : ℕ → ℕ → Bool) (s : Slot)
    → stops test s ≡ true
    → (s ≡ vacant) ⊎ ((h d : ℕ) × (s ≡ entry h d) × (test h d ≡ true))
unfolding stops
slot_cases test vacant e = inl refl
slot_cases test tombstone e = cc
slot_cases test (entry h d) e = inr (h, d, refl, e)

lookup_at_entry :
    (t : Table) (hash item i h d : ℕ) (add : Bool)
    → get_or t.slots i vacant ≡ entry h d
    → lookup_at t hash item add i ≡ some (t, some d)
unfolding lookup_at
lookup_at_entry t hash item i h d add e = rw (e, lookup_at) refl

lookup_at_vacant :
    (t : Table) (hash item i : ℕ)
    → get_or t.slots i vacant ≡ vacant
    → lookup_at t hash item false i ≡ some (t, none)
unfolding lookup_at
lookup_at_vacant t hash item i e = rw (e, lookup_at) refl

lookup_at_add :
    (t t' : Table) (hash item i : ℕ)
    → get_or t.slots i vacant ≡ vacant
    → add_entry t i hash item ≡ some t'
    → lookup_at t hash item true i ≡ some (t', some item)
unfolding lookup_at
lookup_at_add t t' hash item i e e' = rw (e, e', lookup_at) refl

module _ (compare : ℕ → ℕ → Bool) (t : Table) (hash item : ℕ) where
  -- The table holds `d` under the hash, and it compares equal to the item.
  abbrev pub IsMatch : ℕ → Type 0
  IsMatch d = Holds t.slots hash d × (compare d item ≡ true)

  -- What one call gives where no entry matches.
  pub record Missed : Type 0 where
    pub absent : (d : ℕ) → Holds t.slots hash d → compare d item ≡ false
    pub not_found : lookup compare t hash item false ≡ some (t, none)
    pub grown : Table
    pub found_new : lookup compare t hash item true ≡ some (grown, some item)
    pub added : Added t grown hash item

  lookup_stop :
      (i : ℕ) (add : Bool) {r : Option (Table × Option ℕ)}
      → probe t.table_size (matches compare hash item) t (hash % t.table_size) ≡ at i
      → lookup_at t hash item add i ≡ r
      → lookup compare t hash item add ≡ r
  unfolding lookup
  lookup_stop i add e e' = rw (e, lookup) e'

  same_hash :
      (h d : ℕ) → matches compare hash item h d ≡ true → (h ≡ hash) × (compare d item ≡ true)
  same_hash h d e = (ground arith, ground arith)

  no_compare : (d : ℕ) → matches compare hash item hash d ≡ false → compare d item ≡ false
  no_compare d e = ground arith

  -- A call on a valid table ends. It gives a matching entry and leaves the table alone if there is
  -- one. Otherwise it gives nothing, or adds the item to the table, which is grown where it has to be.
  pub lookup_lem :
      IsValid t
      → ((d : ℕ) × IsMatch d × ((add : Bool) → lookup compare t hash item add ≡ some (t, some d)))
        ⊎ Missed
  lookup_lem v =
      let (f, e) = probe_ends (matches compare hash item) t hash v in
      let i = (hash + f.steps) % t.table_size in
      elim (slot_cases (matches compare hash item) _ f.stopped) [
        | inl free ↦
            let (t', e', a) = add_entry_lem (matches compare hash item) t hash item v f free in
            inr (record {
              absent =
                  λ d h. no_compare d (passed_all (matches compare hash item) t hash v f free d h);
              not_found = lookup_stop i false e (lookup_at_vacant t hash item i free);
              grown = t';
              found_new = lookup_stop i true e (lookup_at_add t t' hash item i free e');
              added = a;
            })
        | inr (h, d, q, m) ↦
            let (same, eq) = same_hash h d m in
            inl (
              d,
              ((i, q ∙ ap (λ k. entry k d) same), eq),
              λ add. lookup_stop i add e (lookup_at_entry t hash item i h d add q),
            )
      ]
