-- ===== src/Edify/Builtins.antt =====
-- edify/expr.c: the functions that scripts call and the operators are built from.
use cot_bootable_recovery_to.Base.{
  ℕ, ◌+◌, ◌-◌, Bool, true, false, not, ◌&&◌, ◌||◌, Option, none, some, List, [], ◌∷◌, ◌++◌, Bytes,
  codes, bytes_eq, contains, length, take, drop, replicate, leb, ◌==◌, if◌then◌else◌,
}
use cot_bootable_recovery_to.Base.Int.{ℤ, lt_ℤ, to_word}
use cot_bootable_recovery_to.Edify.Machine.{
  Value, string, Outcome, ok, null, fault, Action, Arg, Function, ◌>>=◌, ◌>>◌, pure, lift,
  fail_with, arg,
}
use cot_bootable_recovery_to.Edify.Strtol.{strtol}
use cot_bootable_recovery_to.Edify.Args.{evaluate, evaluate_value, read_args, read_var_args}

-- BooleanString.
unfoldable pub boolean_string : Bytes → Bool
boolean_string [] = false
boolean_string (c ∷ cs) = true

-- The string "t" or "" that stands for a truth value.
abbrev pub truth : Bool → Value
truth b = string (if b then codes "t" else [])

-- The buffer of ConcatFn: a write of `text` at `p`, which must stay inside.
unfoldable pub write_at : Bytes → ℕ → Bytes → Outcome Bytes
write_at buffer p text =
    if leb (p + length text) (length buffer)
    then ok (take p buffer ++ (text ++ drop (p + length text) buffer))
    else fault

-- The second loop of ConcatFn: strcpy of each string and its NUL, then `result[p] = 0`. The result
-- is what stands before that NUL.
unfoldable pub copy_strings : Bytes → ℕ → List Bytes → Outcome Bytes
copy_strings buffer p [] = elim (write_at buffer p (0 ∷ [])) [
  | ok b ↦ ok (take p b)
  | null ↦ null
  | fault ↦ fault
]
copy_strings buffer p (s ∷ rest) = elim (write_at buffer p (s ++ (0 ∷ []))) [
  | ok b ↦ copy_strings b (p + length s) rest
  | null ↦ null
  | fault ↦ fault
]

abbrev pub total_length : List Bytes → ℕ
total_length [] = 0
total_length (s ∷ rest) = length s + total_length rest

-- The strings that were read, joined in a fresh buffer of `length + 1` bytes.
unfoldable pub join_strings : List Bytes → Outcome Bytes
unfolding copy_strings write_at
join_strings strings = copy_strings (replicate (total_length strings + 1) 0) 0 strings

module _ {C : Type 0} where
  unfoldable pub concat_fn : Function C
  unfolding join_strings read_var_args
  concat_fn name [] = pure (string [])
  concat_fn name (a ∷ args) = do
    strings ← read_var_args (a ∷ args)
    result ← lift (join_strings strings)
    pure (string result)

  unfoldable pub if_else_fn : Function C
  unfolding arg evaluate evaluate_value boolean_string
  if_else_fn name args =
      if length args == 2 || length args == 3
      then (do
        test ← arg args 0 >>= evaluate
        if boolean_string test
            then arg args 1 >>= evaluate_value
            else if length args == 3
            then arg args 2 >>= evaluate_value
            else pure (string test))
      else fail_with (codes "ifelse expects 2 or 3 arguments")

  -- A NULL message is replaced by the default one.
  unfoldable pub abort_fn : Function C
  unfolding evaluate
  abort_fn name [] s = fail_with (codes "called abort()") s
  abort_fn name (a ∷ args) s = elim (evaluate a s).0 [
    | ok msg ↦ fail_with msg (evaluate a s).1
    | null ↦ fail_with (codes "called abort()") (evaluate a s).1
    | fault ↦ (fault, (evaluate a s).1)
  ]

  -- The copy of `len = end - start` bytes of the script behind the prefix; the pointer of a range
  -- outside the script is invalid.
  unfoldable pub assert_failed : Arg C → Action C Value
  assert_failed a s =
      if leb a.start a.end && leb a.end (length s.script)
      then fail_with (codes "assert failed: " ++ take (a.end - a.start) (drop a.start s.script)) s
      else (fault, s)

  unfoldable pub assert_fn : Function C
  unfolding evaluate boolean_string assert_failed
  assert_fn name [] = pure (string [])
  assert_fn name (a ∷ args) = do
    v ← evaluate a
    let rest = assert_fn name args
    if boolean_string v then rest else assert_failed a

  -- `int v = strtol(…); sleep(v);` with sleep's unsigned argument.
  unfoldable pub sleep_for : Bytes → Action C (Unit {0})
  sleep_for val s = (ok tt, record s { slept = s.slept ++ (to_word 32 (strtol val).0 ∷ []) })

  unfoldable pub sleep_fn : Function C
  unfolding sleep_for arg evaluate
  sleep_fn name args = do val ← arg args 0 >>= evaluate; sleep_for val; pure (string val)

  unfoldable pub put_string : Bytes → Action C (Unit {0})
  put_string text s = (ok tt, record s { out = s.out ++ text })

  unfoldable pub stdout_fn : Function C
  unfolding evaluate put_string
  stdout_fn name [] = pure (string [])
  stdout_fn name (a ∷ args) = do v ← evaluate a; put_string v; stdout_fn name args

  unfoldable pub logical_and_fn : Function C
  unfolding arg evaluate evaluate_value boolean_string
  logical_and_fn name args = do
    left ← arg args 0 >>= evaluate
    if boolean_string left then arg args 1 >>= evaluate_value else pure (string left)

  unfoldable pub logical_or_fn : Function C
  unfolding arg evaluate evaluate_value boolean_string
  logical_or_fn name args = do
    left ← arg args 0 >>= evaluate
    if boolean_string left then pure (string left) else arg args 1 >>= evaluate_value

  unfoldable pub logical_not_fn : Function C
  unfolding arg evaluate boolean_string
  logical_not_fn name args = do
    val ← arg args 0 >>= evaluate
    pure (truth (not (boolean_string val)))

  unfoldable pub substring_fn : Function C
  unfolding arg evaluate contains
  substring_fn name args = do
    needle ← arg args 0 >>= evaluate
    haystack ← arg args 1 >>= evaluate
    pure (truth (contains haystack needle))

  unfoldable pub equality_fn : Function C
  unfolding arg evaluate bytes_eq
  equality_fn name args = do
    left ← arg args 0 >>= evaluate
    right ← arg args 1 >>= evaluate
    pure (truth (bytes_eq left right))

  unfoldable pub inequality_fn : Function C
  unfolding arg evaluate bytes_eq
  inequality_fn name args = do
    left ← arg args 0 >>= evaluate
    right ← arg args 1 >>= evaluate
    pure (truth (not (bytes_eq left right)))

  unfoldable pub sequence_fn : Function C
  unfolding arg evaluate_value
  sequence_fn name args = do left ← arg args 0 >>= evaluate_value; arg args 1 >>= evaluate_value

-- The integer that a whole text spells, by the tests of LessThanIntFn.
unfoldable pub parse_int : Bytes → Option ℤ
parse_int [] = none
parse_int (c ∷ cs) = let (n, end) = strtol (c ∷ cs) in elim end [ [] ↦ some n | _ ∷ _ ↦ none ]

unfoldable pub less_than_text : Bytes → Bytes → Bool
less_than_text left right = elim (parse_int left) [
  | none ↦ false
  | some l ↦ elim (parse_int right) [ none ↦ false | some r ↦ lt_ℤ l r ]
]

-- What is left to do with the two strings that ReadArgs stored.
unfoldable pub compare_ints : List Bytes → Outcome Value
compare_ints (left ∷ right ∷ _) = ok (truth (less_than_text left right))
compare_ints _ = fault

module _ {C : Type 0} where
  unfoldable pub less_than_int_fn : Function C
  less_than_int_fn name args =
      if length args == 2
      then (do strings ← read_args args 2; lift (compare_ints strings))
      else fail_with (codes "less_than_int expects 2 arguments")

  -- The two arguments are swapped.
  unfoldable pub greater_than_int_fn : Function C
  unfolding less_than_int_fn arg
  greater_than_int_fn name args =
      if length args == 2
      then (do second ← arg args 1; first ← arg args 0; less_than_int_fn name (second ∷ first ∷ []))
      else fail_with (codes "greater_than_int expects 2 arguments")

  unfoldable pub literal : Function C
  literal name args = pure (string name)
