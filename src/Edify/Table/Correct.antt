-- ===== src/Edify/Table/Correct.antt =====
-- edify/expr.c: the table of functions as a whole, from registering to finding.
use native.Mathlib.Numerals.{add-one}
use cot_bootable_recovery_to.Base.{
  ℕ, suc, ◌≤◌, ◌<◌, ◌≡◌, refl, ap, subst, ◌∙◌, sym, List, [], ◌∷◌, ◌++◌, map, Bytes, Option, none,
  some, append_assoc, append-nil, length, take, drop, replicate, length-append, length-set,
  length-drop, length-map, length-replicate, arith,
}
use cot_bootable_recovery_to.Edify.Table.Search.{
  NamedFunction, qsort, lookup, IsDistinct, qsort-IsSorted, lookup-qsort, bsearch_lem, length-qsort,
}
use cot_bootable_recovery_to.Edify.Table.Slots.{
  written, IsFilled, IsFilled-append, take-append_filled, set-IsFilled, written-set, length-written,
  map-IsFilled, written-map,
}
use cot_bootable_recovery_to.Edify.Table.Registry.{
  Table, empty, entries, reserve, append_entry, register_function, finish_registration,
  find_function, register_all,
}

-- The array has `fn_size` slots, and the first `fn_entries` are initialised.
pub record IsValid {F : Type 0} (t : Table F) : Type 0 where
  pub within : t.fn_entries ≤ t.fn_size
  pub sized : length t.fn_table ≡ t.fn_size
  pub filled : IsFilled t.fn_entries t.fn_table

module _ {F : Type 0} where
  pub empty-IsValid : IsValid (empty {F = F})
  unfolding empty
  empty-IsValid = record { within = omega arith; sized = refl; filled = tt }

  reserve-IsValid :
      (t : Table F) → IsValid t → IsValid (reserve t) × (t.fn_entries < (reserve t).fn_size)
  unfolding reserve
  reserve-IsValid t v =
      let more : ℕ = suc t.fn_size in
      ground (
        arith,
        length-append t.fn_table (replicate more none),
        length-replicate {A = Option (NamedFunction F)} more none,
        IsFilled-append t.fn_entries t.fn_table (replicate more none) v.filled,
      )

  fn_entries-reserve : (t : Table F) → (reserve t).fn_entries ≡ t.fn_entries
  unfolding reserve
  fn_entries-reserve t = ground arith

  entries-reserve : (t : Table F) → IsValid t → entries (reserve t) ≡ entries t
  unfolding reserve entries
  entries-reserve t v =
      ground (
        arith,
        take-append_filled t.fn_entries t.fn_table (replicate (suc t.fn_size) none) v.filled,
      )

  append_entry-IsValid :
      (e : NamedFunction F) (t : Table F)
      → IsValid t
      → t.fn_entries < t.fn_size
      → IsValid (append_entry e t) × (entries (append_entry e t) ≡ entries t ++ (e ∷ []))
  unfolding append_entry entries
  append_entry-IsValid e t v h = (
    record {
      within = omega (arith, v.within);
      sized = length-set t.fn_table t.fn_entries (some e) ∙ v.sized;
      filled =
          rw add-one (set-IsFilled t.fn_entries t.fn_table e v.filled (omega (arith, v.sized)));
    },
    rw add-one (written-set t.fn_entries t.fn_table e v.filled (omega (arith, v.sized))),
  )

  -- Registering keeps the array valid, growing it where it is full, and puts the function behind
  -- those that are there.
  pub register_function-IsValid :
      (name : Bytes) (fn : F) (t : Table F)
      → IsValid t
      → IsValid (register_function name fn t)
        × (entries (register_function name fn t)
            ≡ entries t ++ (record { name = name; fn = fn } ∷ []))
  unfolding register_function
  register_function-IsValid name fn t v =
      let (v', room) = reserve-IsValid t v in
      let (w, e) =
        append_entry-IsValid (record { name = name; fn = fn }) (reserve t) v'
          (rw fn_entries-reserve room) in
      (w, e ∙ rw (entries-reserve t v))

  register_all-IsValid :
      (es : List (NamedFunction F)) (t : Table F)
      → IsValid t
      → IsValid (register_all es t) × (entries (register_all es t) ≡ entries t ++ es)
  unfolding register_all
  register_all-IsValid [] t v = (v, sym (append-nil (entries t)))
  register_all-IsValid (e ∷ es) t v =
      let (v', p) = register_function-IsValid e.name e.fn t v in
      let (w, q) = register_all-IsValid es (register_function e.name e.fn t) v' in
      (w, q ∙ rw (p, append_assoc (entries t)))

  length-entries : (t : Table F) → IsValid t → length (entries t) ≡ t.fn_entries
  unfolding entries
  length-entries t v = length-written t.fn_entries t.fn_table v.filled

  entries-finish :
      (t : Table F)
      → length (qsort (entries t)) ≡ t.fn_entries
      → entries (finish_registration t) ≡ qsort (entries t)
  unfolding entries finish_registration
  entries-finish t n =
      let sorted = qsort (entries t) in
      let rest = drop t.fn_entries t.fn_table in
      subst (λ k. written (take k (map Option.some sorted ++ rest)) ≡ sorted) n
        (written-map sorted rest)

  finish-IsValid :
      (t : Table F)
      → IsValid t
      → IsValid (finish_registration t) × (entries (finish_registration t) ≡ qsort (entries t))
  unfolding finish_registration
  finish-IsValid t v =
      let sorted = qsort (entries t) in
      let rest = drop t.fn_entries t.fn_table in
      let n : length sorted ≡ t.fn_entries = length-qsort (entries t) ∙ length-entries t v in
      (
        record {
          within = v.within;
          sized = omega (
            arith,
            length-append (map Option.some sorted) rest,
            length-map Option.some sorted,
            length-drop t.fn_entries t.fn_table,
            v.sized,
            v.within,
          );
          filled = rw n at (map-IsFilled sorted rest);
        },
        entries-finish t n,
      )

  entries-empty : entries (empty {F = F}) ≡ []
  unfolding entries empty
  entries-empty = refl

  -- After registering functions under distinct names and finishing, every name is found exactly if
  -- it was registered, with its own function.
  pub find_function_lem :
      (es : List (NamedFunction F)) (key : Bytes)
      → IsDistinct es
      → find_function key (finish_registration (register_all es empty)) ≡ lookup key es
  unfolding find_function
  find_function_lem es key d =
      let (v, e) = register_all-IsValid es empty empty-IsValid in
      let (w, f) = finish-IsValid (register_all es empty) v in
      let s : entries (finish_registration (register_all es empty)) ≡ qsort es =
        f ∙ ap qsort (rw entries-empty at e) in
      rw s (
        bsearch_lem _ key (qsort es) (qsort-IsSorted es d)
          (omega (arith, length-entries _ w, ap length s))
        ∙ lookup-qsort key es)
