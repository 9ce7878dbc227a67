-- ===== src/Edify/Safety/Calls.antt =====
-- The built-in functions of edify/expr.c called with enough safe arguments.
use cot_bootable_recovery_to.Base.{
  codes, le→leb, ℕ, ◌≤◌, ◌<◌, ◌≡◌, refl, List, [], ◌∷◌, Bytes, length, arith, ◌==◌, ◌||◌,
}
use cot_bootable_recovery_to.Edify.Machine.{
  Value, string, Outcome, ok, null, fault, State, Action, Arg, Function, ◌>>=◌, lift, fail_with,
  arg,
}
use cot_bootable_recovery_to.Edify.Args.{evaluate, evaluate_value, read_var_args}
use cot_bootable_recovery_to.Edify.Builtins.{
  concat_fn, if_else_fn, abort_fn, assert_fn, assert_failed, sleep_fn, sleep_for, stdout_fn,
  put_string, logical_and_fn, logical_or_fn, logical_not_fn, substring_fn, equality_fn,
  inequality_fn, sequence_fn, less_than_int_fn, greater_than_int_fn, literal, boolean_string,
  join_strings, compare_ints,
}
use cot_bootable_recovery_to.Edify.Concat.{join_strings_lem}
use cot_bootable_recovery_to.Edify.Safety.Rules.{
  Ended, IsSafe, IsSafeArg, AreSafe, pure-IsSafe, fail_with-IsSafe, if-IsSafe, bind-IsSafe,
  evaluate-IsSafe, evaluate_value-IsSafe, arg-IsSafe, read_args_then-IsSafe, if_eq-IsSafe,
  read_var_args-IsSafe,
}

-- Calls of `fn` with `n` safe arguments are safe.
abbrev pub IsSafeAt : {C : Type 0} → Bytes → Function C → ℕ → Type 0
IsSafeAt {C = C} script fn n =
    (name : Bytes) (args : List (Arg C))
    → length args ≡ n
    → AreSafe script args
    → IsSafe script (fn name args)

module _ {C : Type 0} (script : Bytes) where
  pub literal-IsSafeAt : (n : ℕ) → IsSafeAt {C = C} script literal n
  unfolding literal
  literal-IsSafeAt n name args e h = pure-IsSafe (string name)

  -- Evaluating `argv[i]` as a string, and going on.
  string_at :
      {A : Type 0} (args : List (Arg C)) (i : ℕ) (k : Bytes → Action C A)
      → AreSafe script args
      → i < length args
      → ((t : Bytes) → IsSafe script (k t))
      → IsSafe script ((arg args i >>= evaluate) >>= k)
  string_at args i k h lt =
      bind-IsSafe (arg args i >>= evaluate) k (arg-IsSafe args i evaluate h lt evaluate-IsSafe)

  value_at :
      (args : List (Arg C)) (i : ℕ)
      → AreSafe script args
      → i < length args
      → IsSafe script (arg args i >>= evaluate_value)
  value_at args i h lt = arg-IsSafe args i evaluate_value h lt evaluate_value-IsSafe

  pub and-IsSafeAt : (n : ℕ) → 2 ≤ n → IsSafeAt {C = C} script logical_and_fn n
  unfolding logical_and_fn
  and-IsSafeAt n le name args e h = string_at args 0 _ h (omega arith) λ left.
      if-IsSafe (boolean_string left) (value_at args 1 h (omega arith)) (pure-IsSafe (string left))

  pub or-IsSafeAt : (n : ℕ) → 2 ≤ n → IsSafeAt {C = C} script logical_or_fn n
  unfolding logical_or_fn
  or-IsSafeAt n le name args e h = string_at args 0 _ h (omega arith) λ left.
      if-IsSafe (boolean_string left) (pure-IsSafe (string left)) (value_at args 1 h (omega arith))

  pub not-IsSafeAt : (n : ℕ) → 1 ≤ n → IsSafeAt {C = C} script logical_not_fn n
  unfolding logical_not_fn
  not-IsSafeAt n le name args e h = string_at args 0 _ h (omega arith) λ val. pure-IsSafe _

  pub substring-IsSafeAt : (n : ℕ) → 2 ≤ n → IsSafeAt {C = C} script substring_fn n
  unfolding substring_fn
  substring-IsSafeAt n le name args e h =
      string_at args 0 _ h (omega arith)
        λ needle. string_at args 1 _ h (omega arith) λ haystack. pure-IsSafe _

  pub equality-IsSafeAt : (n : ℕ) → 2 ≤ n → IsSafeAt {C = C} script equality_fn n
  unfolding equality_fn
  equality-IsSafeAt n le name args e h =
      string_at args 0 _ h (omega arith)
        λ left. string_at args 1 _ h (omega arith) λ right. pure-IsSafe _

  pub inequality-IsSafeAt : (n : ℕ) → 2 ≤ n → IsSafeAt {C = C} script inequality_fn n
  unfolding inequality_fn
  inequality-IsSafeAt n le name args e h =
      string_at args 0 _ h (omega arith)
        λ left. string_at args 1 _ h (omega arith) λ right. pure-IsSafe _

  pub sequence-IsSafeAt : (n : ℕ) → 2 ≤ n → IsSafeAt {C = C} script sequence_fn n
  unfolding sequence_fn
  sequence-IsSafeAt n le name args e h =
      bind-IsSafe (arg args 0 >>= evaluate_value) _ (value_at args 0 h (omega arith))
        (λ _. value_at args 1 h (omega arith))

  pub sleep-IsSafeAt : (n : ℕ) → 1 ≤ n → IsSafeAt {C = C} script sleep_fn n
  unfolding sleep_fn
  sleep-IsSafeAt n le name args e h = string_at args 0 _ h (omega arith) λ val.
      bind-IsSafe (sleep_for val) _ (λ s k. record { defined = cc; kept = k })
        (λ _. pure-IsSafe (string val))

  pub concat-IsSafeAt : (n : ℕ) → IsSafeAt {C = C} script concat_fn n
  unfolding concat_fn
  concat-IsSafeAt n name [] e h = pure-IsSafe (string [])
  concat-IsSafeAt n name (a ∷ args) e h =
      bind-IsSafe (read_var_args (a ∷ args)) _ (read_var_args-IsSafe (a ∷ args) h) λ strings.
        bind-IsSafe (lift (join_strings strings)) _
          (λ s k. record { defined = rw (join_strings_lem strings) cc; kept = k })
          (λ t. pure-IsSafe (string t))

  pub stdout-IsSafeAt : (n : ℕ) → IsSafeAt {C = C} script stdout_fn n
  unfolding stdout_fn
  stdout-IsSafeAt n name [] e h = pure-IsSafe (string [])
  stdout-IsSafeAt n name (a ∷ args) e h = bind-IsSafe (evaluate a) _ (evaluate-IsSafe a h.0) λ v.
      bind-IsSafe (put_string v) _ (λ s k. record { defined = cc; kept = k })
        (λ _. stdout-IsSafeAt (length args) name args refl h.1)

  -- The range of a safe operand lies in the script, so its text can be copied.
  assert_failed-IsSafe : (a : Arg C) → IsSafeArg script a → IsSafe script (assert_failed a)
  unfolding assert_failed
  assert_failed-IsSafe a h s k =
      let inside : a.end ≤ length s.script = rw k h.inside in
      rw (le→leb a.start a.end h.ordered, le→leb a.end (length s.script) inside)
        (record { defined = cc; kept = k })

  pub assert-IsSafeAt : (n : ℕ) → IsSafeAt {C = C} script assert_fn n
  unfolding assert_fn
  assert-IsSafeAt n name [] e h = pure-IsSafe (string [])
  assert-IsSafeAt n name (a ∷ args) e h = bind-IsSafe (evaluate a) _ (evaluate-IsSafe a h.0) λ v.
      if-IsSafe (boolean_string v) (assert-IsSafeAt (length args) name args refl h.1)
        (assert_failed-IsSafe a h.0)

  pub abort-IsSafeAt : (n : ℕ) → IsSafeAt {C = C} script abort_fn n
  unfolding abort_fn
  abort-IsSafeAt n name [] e h s k = record { defined = cc; kept = k }
  abort-IsSafeAt n name (a ∷ args) e h s k =
      aborted (evaluate a s).0 (evaluate a s).1 (evaluate-IsSafe a h.0 s k)
    where
      aborted :
          (o : Outcome Bytes) (s' : State C)
          → Ended script (o, s')
          → Ended {C = C} script {A = Value} (elim o [
            | ok msg ↦ fail_with msg s'
            | null ↦ fail_with (codes "called abort()") s'
            | fault ↦ (fault, s')
          ])
      aborted (ok msg) s' e = record { defined = cc; kept = e.kept }
      aborted null s' e = record { defined = cc; kept = e.kept }
      aborted fault s' e = absurd (e.defined refl)

  pub if_else-IsSafeAt : (n : ℕ) → IsSafeAt {C = C} script if_else_fn n
  unfolding if_else_fn
  if_else-IsSafeAt n name args e h =
      if_eq-IsSafe (length args == 2 || length args == 3)
        (λ two. string_at args 0 _ h (ground arith) λ test.
          if-IsSafe (boolean_string test) (value_at args 1 h (ground arith)) (
            if_eq-IsSafe (length args == 3) (λ three. value_at args 2 h (ground arith))
              (λ _. pure-IsSafe (string test))))
        (λ _. fail_with-IsSafe _)

  pub less_than-IsSafeAt : (n : ℕ) → IsSafeAt {C = C} script less_than_int_fn n
  unfolding less_than_int_fn compare_ints
  less_than-IsSafeAt n name args e h =
      if_eq-IsSafe (length args == 2)
        (λ two. read_args_then-IsSafe args 2 _ h (ground arith) compared) (λ _. fail_with-IsSafe _)
    where
      compared :
          (strings : List Bytes)
          → length strings ≡ 2
          → IsSafe {C = C} script (lift (compare_ints strings))
      compared [] l = absurd (omega arith)
      compared (left ∷ []) l = absurd (omega arith)
      compared (left ∷ right ∷ rest) l = pure-IsSafe _

  pub greater_than-IsSafeAt : (n : ℕ) → IsSafeAt {C = C} script greater_than_int_fn n
  unfolding greater_than_int_fn
  greater_than-IsSafeAt n name args e h =
      if_eq-IsSafe (length args == 2)
        (λ two. arg-IsSafe args 1 _ h (ground arith) λ second p.
          arg-IsSafe args 0 _ h (ground arith)
            λ first q. less_than-IsSafeAt 2 name (second ∷ first ∷ []) refl (p, (q, tt)))
        (λ _. fail_with-IsSafe _)
