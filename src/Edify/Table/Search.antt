-- ===== src/Edify/Table/Search.antt =====
-- The C library's qsort and bsearch over named entries ordered by strcmp (fn_entry_compare).
use Prim.Native.Nat.{Ordering}
use cot_bootable_recovery_to.Base.{
  ℕ, zero, suc, ◌/◌, ◌≤◌, ◌<◌, ◌≡◌, refl, ap, ◌≢◌, ◌∙◌, sym, List, [], ◌∷◌, Bytes, Option, none,
  some, length, take, drop, get_elem?, length-take, length-drop, Option-cases, inl, inr, arith,
}
use cot_bootable_recovery_to.Base.Strcmp.{strcmp, strcmp_refl, strcmp→eq, strcmp_swap, strcmp_trans}

-- `NamedFunction`.
pub record NamedFunction (F : Type 0) : Type 0 where
  pub name : Bytes
  pub fn : F

module _ {F : Type 0} where
  unfoldable pub insert_sorted : NamedFunction F → List (NamedFunction F) → List (NamedFunction F)
  insert_sorted e [] = e ∷ []
  insert_sorted e (x ∷ xs) = elim (strcmp e.name x.name) [
    | Ordering.gt ↦ x ∷ insert_sorted e xs
    | _ ↦ e ∷ (x ∷ xs)
  ]

  -- qsort, as an insertion sort.
  unfoldable pub qsort : List (NamedFunction F) → List (NamedFunction F)
  unfolding insert_sorted strcmp
  qsort [] = []
  qsort (x ∷ xs) = insert_sorted x (qsort xs)

  -- bsearch in a window of the array; `fuel` is at least its length.
  unfoldable pub bsearch : ℕ → Bytes → List (NamedFunction F) → Option F
  unfolding strcmp
  bsearch zero key window = none
  bsearch (suc fuel) key window = elim (get_elem? window (length window / 2)) [
    | none ↦ none
    | some e ↦ elim (strcmp key e.name) [
      | Ordering.eq ↦ some e.fn
      | Ordering.gt ↦ bsearch fuel key (drop (suc (length window / 2)) window)
      | Ordering.lt ↦ bsearch fuel key (take (length window / 2) window)
    ]
  ]

  -- The function that the first entry of this name holds.
  unfoldable pub lookup : Bytes → List (NamedFunction F) → Option F
  unfolding strcmp
  lookup key [] = none
  lookup key (e ∷ es) =
      let rest = lookup key es in elim (strcmp key e.name) [ Ordering.eq ↦ some e.fn | _ ↦ rest ]

  abbrev pub AllAbove : Bytes → List (NamedFunction F) → Type 0
  AllAbove key [] = Unit
  AllAbove key (e ∷ es) = (strcmp key e.name ≡ Ordering.lt) × AllAbove key es

  abbrev pub AllBelow : Bytes → List (NamedFunction F) → Type 0
  AllBelow key [] = Unit
  AllBelow key (e ∷ es) = (strcmp key e.name ≡ Ordering.gt) × AllBelow key es

  -- Strictly rising names.
  abbrev pub IsSorted : List (NamedFunction F) → Type 0
  IsSorted [] = Unit
  IsSorted (e ∷ es) = AllAbove e.name es × IsSorted es

  abbrev pub IsFresh : Bytes → List (NamedFunction F) → Type 0
  IsFresh key [] = Unit
  IsFresh key (e ∷ es) = (strcmp key e.name ≢ Ordering.eq) × IsFresh key es

  -- No two entries share a name.
  abbrev pub IsDistinct : List (NamedFunction F) → Type 0
  IsDistinct [] = Unit
  IsDistinct (e ∷ es) = IsFresh e.name es × IsDistinct es

module _ {F : Type 0} where
  AllAbove-trans :
      (a b : Bytes) (es : List (NamedFunction F))
      → strcmp a b ≡ Ordering.lt
      → AllAbove b es
      → AllAbove a es
  AllAbove-trans a b [] h k = tt
  AllAbove-trans a b (e ∷ es) h k = (strcmp_trans a b e.name h k.0, AllAbove-trans a b es h k.1)

  AllAbove-insert :
      (key : Bytes) (x : NamedFunction F) (es : List (NamedFunction F))
      → strcmp key x.name ≡ Ordering.lt
      → AllAbove key es
      → AllAbove key (insert_sorted x es)
  unfolding insert_sorted
  AllAbove-insert key x [] h k = (h, tt)
  AllAbove-insert key x (e ∷ es) h k = ground (arith, AllAbove-insert key x es)

  IsFresh-insert :
      (key : Bytes) (x : NamedFunction F) (es : List (NamedFunction F))
      → strcmp key x.name ≢ Ordering.eq
      → IsFresh key es
      → IsFresh key (insert_sorted x es)
  unfolding insert_sorted
  IsFresh-insert key x [] h k = (h, tt)
  IsFresh-insert key x (e ∷ es) h k = ground (arith, IsFresh-insert key x es)

  IsFresh-qsort :
      (key : Bytes) (es : List (NamedFunction F)) → IsFresh key es → IsFresh key (qsort es)
  unfolding qsort
  IsFresh-qsort key [] k = tt
  IsFresh-qsort key (e ∷ es) k = IsFresh-insert key e (qsort es) k.0 (IsFresh-qsort key es k.1)

  insert-IsSorted :
      (x : NamedFunction F) (es : List (NamedFunction F))
      → IsFresh x.name es
      → IsSorted es
      → IsSorted (insert_sorted x es)
  unfolding insert_sorted
  insert-IsSorted x [] f k = (tt, tt)
  insert-IsSorted x (e ∷ es) f k = ground (
    arith,
    insert-IsSorted x es,
    AllAbove-insert e.name x es,
    strcmp_swap x.name e.name,
    AllAbove-trans x.name e.name es,
  )

  length-insert :
      (x : NamedFunction F) (es : List (NamedFunction F))
      → length (insert_sorted x es) ≡ suc (length es)
  unfolding insert_sorted
  length-insert x [] = refl
  length-insert x (e ∷ es) = ground (arith, length-insert x es)

  pub length-qsort : (es : List (NamedFunction F)) → length (qsort es) ≡ length es
  unfolding qsort
  length-qsort [] = refl
  length-qsort (e ∷ es) = length-insert e (qsort es) ∙ ap suc (length-qsort es)

  pub qsort-IsSorted : (es : List (NamedFunction F)) → IsDistinct es → IsSorted (qsort es)
  unfolding qsort
  qsort-IsSorted [] d = tt
  qsort-IsSorted (e ∷ es) d =
      insert-IsSorted e (qsort es) (IsFresh-qsort e.name es d.0) (qsort-IsSorted es d.1)

  lookup-insert :
      (key : Bytes) (x : NamedFunction F) (es : List (NamedFunction F))
      → lookup key (insert_sorted x es) ≡ lookup key (x ∷ es)
  unfolding insert_sorted lookup
  lookup-insert key x [] = refl
  lookup-insert key x (e ∷ es) = ground (
    arith,
    lookup-insert key x es,
    strcmp→eq key x.name,
    strcmp→eq key e.name,
    strcmp_refl key,
    strcmp_refl e.name,
  )

  pub lookup-qsort :
      (key : Bytes) (es : List (NamedFunction F)) → lookup key (qsort es) ≡ lookup key es
  unfolding qsort lookup
  lookup-qsort key [] = refl
  lookup-qsort key (e ∷ es) = lookup-insert key e (qsort es) ∙ ground (arith, lookup-qsort key es)

  lookup_above :
      (key : Bytes) (es : List (NamedFunction F)) → AllAbove key es → lookup key es ≡ none
  unfolding lookup
  lookup_above key [] h = refl
  lookup_above key (e ∷ es) h = ground (arith, lookup_above key es h.1)

  AllAbove-get :
      (key : Bytes) (es : List (NamedFunction F)) (i : ℕ) (m : NamedFunction F)
      → AllAbove key es
      → get_elem? es i ≡ some m
      → strcmp key m.name ≡ Ordering.lt
  AllAbove-get key [] i m h g = cc
  AllAbove-get key (e ∷ es) zero m h g = ground arith
  AllAbove-get key (e ∷ es) (suc i) m h g = AllAbove-get key es i m h.1 g

  AllAbove-take :
      (key : Bytes) (n : ℕ) (es : List (NamedFunction F))
      → AllAbove key es
      → AllAbove key (take n es)
  AllAbove-take key zero es h = tt
  AllAbove-take key (suc n) [] h = tt
  AllAbove-take key (suc n) (e ∷ es) h = (h.0, AllAbove-take key n es h.1)

  take-IsSorted : (n : ℕ) (es : List (NamedFunction F)) → IsSorted es → IsSorted (take n es)
  take-IsSorted zero es h = tt
  take-IsSorted (suc n) [] h = tt
  take-IsSorted (suc n) (e ∷ es) h = (AllAbove-take e.name n es h.0, take-IsSorted n es h.1)

  drop-IsSorted : (n : ℕ) (es : List (NamedFunction F)) → IsSorted es → IsSorted (drop n es)
  drop-IsSorted zero es h = h
  drop-IsSorted (suc n) [] h = tt
  drop-IsSorted (suc n) (e ∷ es) h = drop-IsSorted n es h.1

  -- The three outcomes of a comparison with the entry at `i` of a sorted window.
  lookup_right :
      (key : Bytes) (es : List (NamedFunction F)) (i : ℕ) (m : NamedFunction F)
      → IsSorted es
      → get_elem? es i ≡ some m
      → strcmp key m.name ≡ Ordering.gt
      → lookup key es ≡ lookup key (drop (suc i) es)
  unfolding lookup
  lookup_right key [] i m h g c = cc
  lookup_right key (e ∷ es) zero m h g c = ground arith
  lookup_right key (e ∷ es) (suc i) m h g c = ground (
    arith,
    lookup_right key es i m h.1 g c,
    strcmp→eq key e.name,
    AllAbove-get e.name es i m h.0 g,
  )

  lookup_left :
      (key : Bytes) (es : List (NamedFunction F)) (i : ℕ) (m : NamedFunction F)
      → IsSorted es
      → get_elem? es i ≡ some m
      → strcmp key m.name ≡ Ordering.lt
      → lookup key es ≡ lookup key (take i es)
  unfolding lookup
  lookup_left key [] i m h g c = cc
  lookup_left key (e ∷ es) zero m h g c =
      ground (arith, lookup_above key es, AllAbove-trans key e.name es)
  lookup_left key (e ∷ es) (suc i) m h g c = ground (arith, lookup_left key es i m h.1 g c)

  lookup_here :
      (key : Bytes) (es : List (NamedFunction F)) (i : ℕ) (m : NamedFunction F)
      → IsSorted es
      → get_elem? es i ≡ some m
      → strcmp key m.name ≡ Ordering.eq
      → lookup key es ≡ some m.fn
  unfolding lookup
  lookup_here key [] i m h g c = cc
  lookup_here key (e ∷ es) zero m h g c = ground arith
  lookup_here key (e ∷ es) (suc i) m h g c = ground (
    arith,
    lookup_here key es i m h.1 g c,
    strcmp→eq key e.name,
    AllAbove-get e.name es i m h.0 g,
  )

  get_elem?-none : (es : List (NamedFunction F)) (i : ℕ) → i < length es → get_elem? es i ≢ none
  get_elem?-none [] i h = absurd (omega arith)
  get_elem?-none (e ∷ es) zero h = cc
  get_elem?-none (e ∷ es) (suc i) h = get_elem?-none es i (omega arith)

  get_elem?_lt :
      (es : List (NamedFunction F)) (i : ℕ) (m : NamedFunction F)
      → get_elem? es i ≡ some m
      → i < length es
  get_elem?_lt [] i m h = cc
  get_elem?_lt (e ∷ es) zero m h = omega arith
  get_elem?_lt (e ∷ es) (suc i) m h = omega (arith, get_elem?_lt es i m h)

  lookup_empty :
      (key : Bytes) (es : List (NamedFunction F))
      → get_elem? es (length es / 2) ≡ none
      → lookup key es ≡ none
  unfolding lookup
  lookup_empty key [] h = refl
  lookup_empty key (e ∷ es) h =
      absurd (get_elem?-none (e ∷ es) (length (e ∷ es) / 2) (omega arith) h)

  -- On a sorted window the search by halving finds what a search from the front finds.
  pub bsearch_lem :
      (fuel : ℕ) (key : Bytes) (es : List (NamedFunction F))
      → IsSorted es
      → length es ≤ fuel
      → bsearch fuel key es ≡ lookup key es
  unfolding bsearch
  bsearch_lem zero key [] h f = sym (lookup_empty key [] refl)
  bsearch_lem zero key (e ∷ es) h f = absurd (omega arith)
  bsearch_lem (suc fuel) key es h f =
      let i = length es / 2 in
      elim (Option-cases (get_elem? es i)) [
        | inl g ↦ ground (arith, lookup_empty key es g)
        | inr (m, g) ↦ ground (
          arith,
          lookup_here key es i m h g,
          lookup_right key es i m h g,
          lookup_left key es i m h g,
          bsearch_lem fuel key (drop (suc i) es) (drop-IsSorted (suc i) es h),
          bsearch_lem fuel key (take i es) (take-IsSorted i es h),
          length-drop (suc i) es,
          length-take i es,
          get_elem?_lt es i m g,
        )
      ]
