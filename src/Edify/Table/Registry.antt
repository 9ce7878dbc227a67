-- ===== src/Edify/Table/Registry.antt =====
-- RegisterFunction, FinishRegistration, FindFunction and RegisterBuiltins of edify/expr.c.
-- `fn_table` is an array of `fn_size` slots, of which the first `fn_entries` are written; `none` is
-- a slot that malloc has not initialised.
use cot_bootable_recovery_to.Base.{
  ℕ, suc, ◌+◌, ◌*◌, List, [], ◌∷◌, ◌++◌, map, Bytes, codes, Option, none, some, take, drop, set,
  replicate, leb, if◌then◌else◌,
}
use cot_bootable_recovery_to.Edify.Machine.{Function}
use cot_bootable_recovery_to.Edify.Builtins.{
  if_else_fn, abort_fn, assert_fn, concat_fn, substring_fn, stdout_fn, sleep_fn, less_than_int_fn,
  greater_than_int_fn,
}
use cot_bootable_recovery_to.Edify.Table.Slots.{written}
use cot_bootable_recovery_to.Edify.Table.Search.{NamedFunction, qsort, bsearch}

pub record Table (F : Type 0) : Type 0 where
  pub fn_entries : ℕ
  pub fn_size : ℕ
  pub fn_table : List (Option (NamedFunction F))

module _ {F : Type 0} where
  unfoldable pub empty : Table F
  empty = record { fn_entries = 0; fn_size = 0; fn_table = [] }

  unfoldable pub entries : Table F → List (NamedFunction F)
  unfolding written
  entries t = written (take t.fn_entries t.fn_table)

  -- realloc to `fn_size * 2 + 1` slots where the array is full.
  unfoldable pub reserve : Table F → Table F
  reserve t =
      let more = suc t.fn_size in
      if leb t.fn_size t.fn_entries
      then record t { fn_size = t.fn_size * 2 + 1; fn_table = t.fn_table ++ replicate more none }
      else t

  unfoldable pub append_entry : NamedFunction F → Table F → Table F
  append_entry e t = record t {
    fn_entries = t.fn_entries + 1;
    fn_table = set t.fn_table t.fn_entries (some e);
  }

  unfoldable pub register_function : Bytes → F → Table F → Table F
  register_function name fn t = append_entry (record { name = name; fn = fn }) (reserve t)

  -- The first `fn_entries` slots in order, the others as they were.
  unfoldable pub finish_registration : Table F → Table F
  finish_registration t = record t {
    fn_table = map Option.some (qsort (entries t)) ++ drop t.fn_entries t.fn_table;
  }

  unfoldable pub find_function : Bytes → Table F → Option F
  find_function name t = bsearch t.fn_entries name (entries t)

  unfoldable pub register_all : List (NamedFunction F) → Table F → Table F
  register_all [] t = t
  register_all (e ∷ es) t = register_all es (register_function e.name e.fn t)

abbrev pub builtins : {C : Type 0} → List (NamedFunction (Function C))
builtins =
    record { name = codes "ifelse"; fn = if_else_fn }
    ∷ record { name = codes "abort"; fn = abort_fn }
    ∷ record { name = codes "assert"; fn = assert_fn }
    ∷ record { name = codes "concat"; fn = concat_fn }
    ∷ record { name = codes "is_substring"; fn = substring_fn }
    ∷ record { name = codes "stdout"; fn = stdout_fn }
    ∷ record { name = codes "sleep"; fn = sleep_fn }
    ∷ record { name = codes "less_than_int"; fn = less_than_int_fn }
    ∷ record { name = codes "greater_than_int"; fn = greater_than_int_fn }
    ∷ []

unfoldable pub register_builtins : {C : Type 0} → Table (Function C) → Table (Function C)
unfolding register_all
register_builtins t = register_all builtins t
