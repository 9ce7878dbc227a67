-- ===== src/Minzip/Hash/Resize.antt =====
-- minzip/Hash.c: the loop of resizeHash over the old array.
use cot_bootable_recovery_to.Base.{
  ℕ, zero, suc, ◌+◌, ◌%◌, ◌<◌, ◌≡◌, ◌≢◌, ◌∙◌, ◌⊎◌, ◌↔◌, inl, inr, refl, sym, ap, true, List, [],
  ◌∷◌, Option, some, length, get_or, set, length-set, subst, arith,
}
use cot_bootable_recovery_to.Minzip.Hash.Table.{
  Slot, vacant, tombstone, entry, stops, find_vacant, rehash,
}
use cot_bootable_recovery_to.Minzip.Hash.Probe.{slot_at, no_match, find_vacant_lem}
use cot_bootable_recovery_to.Minzip.Hash.Load.{
  count_entries, count_dead, vacancy_from, count-set_entry,
}
use cot_bootable_recovery_to.Minzip.Hash.Place.{
  Holds, IsReachable, place, place-lt, place-IsReachable, place-Holds,
}

-- An array of `n` slots that holds what `old` and `new` hold.
pub record Rehashed (n : ℕ) (old new out : List Slot) : Type 0 where
  pub sized : length out ≡ n
  pub reach : IsReachable out n
  pub none_dead : count_dead out ≡ 0
  pub all_entries : count_entries out ≡ count_entries old + count_entries new
  pub holds : (h d : ℕ) → Holds out h d ↔ (Holds old h d ⊎ Holds new h d)

Holds-skip :
    (s : Slot) (slots : List Slot) (h d : ℕ)
    → s ≢ entry h d
    → Holds (s ∷ slots) h d ↔ Holds slots h d
Holds-skip s slots h d ne = (there, λ (i, e). (suc i, e))
  where
    there : Holds (s ∷ slots) h d → Holds slots h d
    there (zero, e) = absurd (ne e)
    there (suc i, e) = (i, e)

Holds-cons :
    (h' d' : ℕ) (slots : List Slot) (h d : ℕ)
    → Holds (entry h' d' ∷ slots) h d ↔ (((h ≡ h') × (d ≡ d')) ⊎ Holds slots h d)
Holds-cons h' d' slots h d = (there, back)
  where
    there : Holds (entry h' d' ∷ slots) h d → ((h ≡ h') × (d ≡ d')) ⊎ Holds slots h d
    there (zero, e) = inl (cc, cc)
    there (suc i, e) = inr (i, e)

    back : ((h ≡ h') × (d ≡ d')) ⊎ Holds slots h d → Holds (entry h' d' ∷ slots) h d
    back (inl (p, q)) = (zero, cc)
    back (inr (i, e)) = (suc i, e)

pub Holds-nil : (h d : ℕ) → ¬ Holds [] h d
Holds-nil h d (i, e) = cc

-- How the parts of the three disjunctions below fit together.
regroup : {A B D E F G : Type 0} → A ↔ (B ⊎ D) → D ↔ (E ⊎ F) → G ↔ (F ⊎ B) → A ↔ (G ⊎ E)
regroup p q r = (
  λ a. elim (p.0 a) [
    | inl b ↦ inl (r.1 (inr b))
    | inr d ↦ elim (q.0 d) [ inl e ↦ inr e | inr f ↦ inl (r.1 (inl f)) ]
  ],
  λ x. elim x [
    | inl g ↦ elim (r.0 g) [ inl f ↦ p.1 (inr (q.1 (inr f))) | inr b ↦ p.1 (inl b) ]
    | inr e ↦ p.1 (inr (q.1 (inl e)))
  ],
)

pub vacant_of_stop : (s : Slot) → stops no_match s ≡ true → s ≡ vacant
unfolding stops
vacant_of_stop s h = ground arith

skip-Rehashed :
    (n : ℕ) (s : Slot) (old new out : List Slot)
    → ((h d : ℕ) → s ≢ entry h d)
    → count_entries (s ∷ old) ≡ count_entries old
    → Rehashed n old new out
    → Rehashed n (s ∷ old) new out
skip-Rehashed n s old new out ne c r = record {
  sized = r.sized;
  reach = r.reach;
  none_dead = r.none_dead;
  all_entries = r.all_entries ∙ ap (λ k. k + count_entries new) (sym c);
  holds = λ h d.
      let (there, back) = r.holds h d in
      let (off, on) = Holds-skip s old h d (ne h d) in
      (
        λ x. elim (there x) [ inl o ↦ inl (on o) | inr w ↦ inr w ],
        λ x. back (elim x [ inl o ↦ inl (off o) | inr w ↦ inr w ]),
      );
}

rehash_entry :
    (n hash item : ℕ) (old new : List Slot) (p : ℕ) {out : Option (List Slot)}
    → find_vacant n n new (hash % n) ≡ some p
    → rehash n old (set new p (entry hash item)) ≡ out
    → rehash n (entry hash item ∷ old) new ≡ out
unfolding rehash
rehash_entry n hash item old new p e e' = rw (e, rehash) e'

-- Where the array has `n` slots.
pub sized_vacancy :
    (slots : List Slot) (n start : ℕ)
    → length slots ≡ n
    → count_entries slots + count_dead slots < n
    → (v : ℕ) × (v < n) × (slot_at slots n start v ≡ vacant)
sized_vacancy slots n start l h =
    subst (λ k. (v : ℕ) × (v < k) × (slot_at slots k start v ≡ vacant)) l
      (vacancy_from slots start (rw l h))

-- The loop of resizeHash over the old array ends, if the new one has no tombstones, its entries can
-- be reached, and it has more slots than there are entries to hold. It then holds the entries of
-- both, can still find each, and has no tombstones and the right number of entries.
pub rehash_lem :
    (n : ℕ) (old new : List Slot)
    → length new ≡ n
    → IsReachable new n
    → count_dead new ≡ 0
    → count_entries old + count_entries new < n
    → (out : List Slot) × (rehash n old new ≡ some out) × Rehashed n old new out
unfolding rehash
rehash_lem n [] new l r z c = (
  new,
  refl,
  record {
    sized = l;
    reach = r;
    none_dead = z;
    all_entries = omega arith;
    holds = λ h d. (λ x. inr x, λ x. elim x [ inl o ↦ absurd (Holds-nil h d o) | inr w ↦ w ]);
  },
)
rehash_lem n (vacant ∷ old) new l r z c =
    let (out, e, q) = rehash_lem n old new l r z c in
    (out, e, skip-Rehashed n vacant old new out (λ h d k. cc) refl q)
rehash_lem n (tombstone ∷ old) new l r z c =
    let (out, e, q) = rehash_lem n old new l r z c in
    (out, e, skip-Rehashed n tombstone old new out (λ h d k. cc) refl q)
rehash_lem n (entry hash item ∷ old) new l r z c =
    let (v, lt, free) = sized_vacancy new n hash l (omega (arith, z)) in
    let (f, e) = find_vacant_lem new n hash v lt free in
    let p = place no_match new n hash item l f in
    let new' = set new p (entry hash item) in
    let below : p < length new = place-lt no_match new n hash item l f in
    let empty : get_or new p vacant ≡ vacant = vacant_of_stop _ f.stopped in
    let (entries, dead) = count-set_entry new p hash item below empty in
    let (out, e', q) =
      rehash_lem n old new' (length-set new p (entry hash item) ∙ l)
        (place-IsReachable no_match new n hash item l f r) (dead ∙ z) (omega arith) in
    (
      out,
      rehash_entry n hash item old new p e e',
      record {
        sized = q.sized;
        reach = q.reach;
        none_dead = q.none_dead;
        all_entries = omega (arith, q.all_entries, entries);
        holds = λ h d.
            regroup (q.holds h d) (place-Holds no_match new n hash item l f h d empty)
              (Holds-cons hash item old h d);
      },
    )
