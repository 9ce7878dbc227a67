-- ===== src/Edify/Args.antt =====
-- edify/expr.c: Evaluate and the functions that evaluate a row of arguments.
use cot_bootable_recovery_to.Base.{ℕ, zero, suc, List, [], ◌∷◌, Bytes, codes}
use cot_bootable_recovery_to.Edify.Machine.{
  Value, string, blob, fault, Action, Arg, ◌>>=◌, pure, lift, error_abort,
}

-- Evaluate's test of the type; VAL_BLOB is 2.
unfoldable pub as_string : {C : Type 0} → Value → Action C Bytes
unfolding error_abort
as_string (string b) = pure b
as_string (blob b) = error_abort (codes "expecting string, got value type 2")

unfoldable pub evaluate_value : {C : Type 0} → Arg C → Action C Value
evaluate_value a = a.run

unfoldable pub evaluate : {C : Type 0} → Arg C → Action C Bytes
unfolding as_string
evaluate a = a.run >>= as_string

unfoldable pub read_args : {C : Type 0} → List (Arg C) → ℕ → Action C (List Bytes)
unfolding evaluate
read_args args zero = pure []
read_args [] (suc n) = lift fault
read_args (a ∷ args) (suc n) = do s ← evaluate a; rest ← read_args args n; pure (s ∷ rest)

unfoldable pub read_value_args : {C : Type 0} → List (Arg C) → ℕ → Action C (List Value)
unfolding evaluate_value
read_value_args args zero = pure []
read_value_args [] (suc n) = lift fault
read_value_args (a ∷ args) (suc n) = do
  v ← evaluate_value a
  rest ← read_value_args args n
  pure (v ∷ rest)

unfoldable pub read_var_args : {C : Type 0} → List (Arg C) → Action C (List Bytes)
unfolding evaluate
read_var_args [] = pure []
read_var_args (a ∷ args) = do s ← evaluate a; rest ← read_var_args args; pure (s ∷ rest)

unfoldable pub read_value_var_args : {C : Type 0} → List (Arg C) → Action C (List Value)
unfolding evaluate_value
read_value_var_args [] = pure []
read_value_var_args (a ∷ args) = do
  v ← evaluate_value a
  rest ← read_value_var_args args
  pure (v ∷ rest)
