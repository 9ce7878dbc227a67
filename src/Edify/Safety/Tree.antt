-- ===== src/Edify/Safety/Tree.antt =====
-- Whole scripts: trees whose nodes call built-in functions with enough operands, or functions of
-- the host that are safe themselves.
use cot_bootable_recovery_to.Base.{ℕ, suc, ◌≤◌, ◌≡◌, ◌≢◌, ◌⊎◌, inl, inr, refl, ap, Bytes, length}
use cot_bootable_recovery_to.Edify.Machine.{fault, State, Function}
use cot_bootable_recovery_to.Edify.Builtins.{
  concat_fn, if_else_fn, abort_fn, assert_fn, sleep_fn, stdout_fn, logical_and_fn, logical_or_fn,
  logical_not_fn, substring_fn, equality_fn, inequality_fn, sequence_fn, less_than_int_fn,
  greater_than_int_fn, literal,
}
use cot_bootable_recovery_to.Edify.Expr.{Expr, Exprs, node, nil, cons, to_arg, to_args, eval}
use cot_bootable_recovery_to.Edify.Safety.Rules.{IsSafeArg, AreSafe}
use cot_bootable_recovery_to.Edify.Safety.Calls.{
  IsSafeAt, literal-IsSafeAt, and-IsSafeAt, or-IsSafeAt, not-IsSafeAt, substring-IsSafeAt,
  equality-IsSafeAt, inequality-IsSafeAt, sequence-IsSafeAt, sleep-IsSafeAt, concat-IsSafeAt,
  stdout-IsSafeAt, assert-IsSafeAt, abort-IsSafeAt, if_else-IsSafeAt, less_than-IsSafeAt,
  greater_than-IsSafeAt,
}

-- The built-in functions with the numbers of operands that they can take.
pub data IsBuiltinCall {C : Type 0} : Function C → ℕ → Type 0 where
  is_literal : (n : ℕ) → IsBuiltinCall literal n
  is_concat : (n : ℕ) → IsBuiltinCall concat_fn n
  is_if_else : (n : ℕ) → IsBuiltinCall if_else_fn n
  is_abort : (n : ℕ) → IsBuiltinCall abort_fn n
  is_assert : (n : ℕ) → IsBuiltinCall assert_fn n
  is_stdout : (n : ℕ) → IsBuiltinCall stdout_fn n
  is_less_than : (n : ℕ) → IsBuiltinCall less_than_int_fn n
  is_greater_than : (n : ℕ) → IsBuiltinCall greater_than_int_fn n
  is_sleep : (n : ℕ) → 1 ≤ n → IsBuiltinCall sleep_fn n
  is_not : (n : ℕ) → 1 ≤ n → IsBuiltinCall logical_not_fn n
  is_and : (n : ℕ) → 2 ≤ n → IsBuiltinCall logical_and_fn n
  is_or : (n : ℕ) → 2 ≤ n → IsBuiltinCall logical_or_fn n
  is_substring : (n : ℕ) → 2 ≤ n → IsBuiltinCall substring_fn n
  is_equality : (n : ℕ) → 2 ≤ n → IsBuiltinCall equality_fn n
  is_inequality : (n : ℕ) → 2 ≤ n → IsBuiltinCall inequality_fn n
  is_sequence : (n : ℕ) → 2 ≤ n → IsBuiltinCall sequence_fn n

abbrev pub count : {C : Type 0} → Exprs C → ℕ
count nil = 0
count (cons e es) = suc (count es)

-- Every node is such a call, or one of a host function that is safe at its number of operands, and
-- its range lies in the script.
abbrev mutual
  pub IsWellFormed : {C : Type 0} → Bytes → Expr C → Type 0
  IsWellFormed script (node fn name argv start end) =
      (IsBuiltinCall fn (count argv) ⊎ IsSafeAt script fn (count argv))
      × (start ≤ end)
      × (end ≤ length script)
      × AreWellFormed script argv

  pub AreWellFormed : {C : Type 0} → Bytes → Exprs C → Type 0
  AreWellFormed script nil = Unit
  AreWellFormed script (cons e es) = IsWellFormed script e × AreWellFormed script es

builtin-IsSafeAt :
    {C : Type 0} (script : Bytes) {fn : Function C} {n : ℕ}
    → IsBuiltinCall fn n
    → IsSafeAt script fn n
builtin-IsSafeAt script (is_literal n) = literal-IsSafeAt script n
builtin-IsSafeAt script (is_concat n) = concat-IsSafeAt script n
builtin-IsSafeAt script (is_if_else n) = if_else-IsSafeAt script n
builtin-IsSafeAt script (is_abort n) = abort-IsSafeAt script n
builtin-IsSafeAt script (is_assert n) = assert-IsSafeAt script n
builtin-IsSafeAt script (is_stdout n) = stdout-IsSafeAt script n
builtin-IsSafeAt script (is_less_than n) = less_than-IsSafeAt script n
builtin-IsSafeAt script (is_greater_than n) = greater_than-IsSafeAt script n
builtin-IsSafeAt script (is_sleep n h) = sleep-IsSafeAt script n h
builtin-IsSafeAt script (is_not n h) = not-IsSafeAt script n h
builtin-IsSafeAt script (is_and n h) = and-IsSafeAt script n h
builtin-IsSafeAt script (is_or n h) = or-IsSafeAt script n h
builtin-IsSafeAt script (is_substring n h) = substring-IsSafeAt script n h
builtin-IsSafeAt script (is_equality n h) = equality-IsSafeAt script n h
builtin-IsSafeAt script (is_inequality n h) = inequality-IsSafeAt script n h
builtin-IsSafeAt script (is_sequence n h) = sequence-IsSafeAt script n h

call-IsSafeAt :
    {C : Type 0} (script : Bytes) {fn : Function C} {n : ℕ}
    → IsBuiltinCall fn n ⊎ IsSafeAt script fn n
    → IsSafeAt script fn n
call-IsSafeAt script (inl b) = builtin-IsSafeAt script b
call-IsSafeAt script (inr h) = h

length-to_args : {C : Type 0} (es : Exprs C) → length (to_args es) ≡ count es
unfolding to_args
length-to_args nil = refl
length-to_args (cons e es) = ap suc (length-to_args es)

mutual
  unfolding to_arg to_args

  to_arg-IsSafe :
      {C : Type 0} (script : Bytes) (e : Expr C)
      → IsWellFormed script e
      → IsSafeArg script (to_arg e)
  to_arg-IsSafe script (node fn name argv start end) w = record {
    safe =
        call-IsSafeAt script w.0 name (to_args argv) (length-to_args argv)
          (to_args-AreSafe script argv w.3);
    ordered = w.1;
    inside = w.2;
  }

  to_args-AreSafe :
      {C : Type 0} (script : Bytes) (es : Exprs C)
      → AreWellFormed script es
      → AreSafe script (to_args es)
  to_args-AreSafe script nil w = tt
  to_args-AreSafe script (cons e es) w = (to_arg-IsSafe script e w.0, to_args-AreSafe script es w.1)

-- Evaluating a well-formed tree never reads past argv or the script, and keeps the script.
pub eval_safe :
    {C : Type 0} (e : Expr C) (s : State C)
    → IsWellFormed s.script e
    → ((eval e s).0 ≢ fault) × ((eval e s).1.script ≡ s.script)
unfolding eval
eval_safe e s w = let r = (to_arg-IsSafe s.script e w).safe s refl in (r.defined, r.kept)
