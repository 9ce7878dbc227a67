-- ===== src/Edify/Machine.antt =====
-- edify/expr.h: values, the state of a script, and what a call of a Function does.
-- A `Function` gets its arguments unevaluated (`Expr* argv[]`) and reads of each only what
-- EvaluateValue gives and the source range, so an argument is a record of these.
use cot_bootable_recovery_to.Base.{ℕ, Option, none, some, List, Bytes, take, get_elem?}

-- `Value`: the type tag is the constructor, and `size` the length of the list.
pub data Value : Type 0 where
  string : Bytes → Value
  blob : Bytes → Value

-- What a call gives: a pointer to a result, NULL, or undefined behaviour, as where argv is read
-- past argc.
pub data Outcome {ℓ} (A : Type ℓ) : Type ℓ where
  ok : A → Outcome A
  null : Outcome A
  fault : Outcome A

-- `State`, over the type of what `cookie` points to, with what stdout() wrote and the seconds
-- for which sleep() was called, oldest first.
pub record State (C : Type 0) : Type 0 where
  pub cookie : C
  pub script : Bytes
  pub errmsg : Option Bytes
  pub out : Bytes
  pub slept : List ℕ

abbrev pub Action : Type 0 → Type 0 → Type 0
Action C A = State C → Outcome A × State C

-- An element of argv.
pub record Arg (C : Type 0) : Type 0 where
  pub run : Action C Value
  pub start : ℕ
  pub end : ℕ

-- `Value* (*Function)(const char* name, State* state, int argc, Expr* argv[])`.
abbrev pub Function : Type 0 → Type 0
Function C = Bytes → List (Arg C) → Action C Value

abbrev pub after : {C A B : Type 0} → Outcome A × State C → (A → Action C B) → Outcome B × State C
after r f = elim r.0 [ ok a ↦ f a r.1 | null ↦ (null, r.1) | fault ↦ (fault, r.1) ]

-- `x = e; if (x == NULL) return NULL;`
infixl 5 ◌>>=◌ ◌>>◌
abbrev pub ◌>>=◌ : {C A B : Type 0} → Action C A → (A → Action C B) → Action C B
◌>>=◌ m f s = after (m s) f

abbrev pub ◌>>◌ : {C A B : Type 0} → Action C A → Action C B → Action C B
m >> k = m >>= λ _. k

abbrev pub pure : {C A : Type 0} → A → Action C A
pure a s = (ok a, s)

-- A result that needs no state.
abbrev pub lift : {C A : Type 0} → Outcome A → Action C A
lift r s = (r, s)

-- `free(state->errmsg); state->errmsg = msg; return NULL;`
abbrev pub fail_with : {C A : Type 0} → Bytes → Action C A
fail_with msg s = (null, record s { errmsg = some msg })

-- ErrorAbort, given the formatted message: a buffer of 4096 bytes holds it and its NUL.
unfoldable pub error_abort : {C A : Type 0} → Bytes → Action C A
error_abort msg = fail_with (take 4095 msg)

-- `argv[i]`.
unfoldable pub arg : {C : Type 0} → List (Arg C) → ℕ → Action C (Arg C)
arg args i s = elim (get_elem? args i) [ some a ↦ (ok a, s) | none ↦ (fault, s) ]
