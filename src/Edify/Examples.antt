-- ===== src/Edify/Examples.antt =====
-- The theorems on edify at fixed scripts and tables.
use mathlib.Core.List.{flatten}
use cot_bootable_recovery_to.Base.{
  ℕ, ◌≤◌, ◌≡◌, ◌≢◌, inl, refl, none, some, List, [], ◌∷◌, Bytes, length, codes, arith,
}
use cot_bootable_recovery_to.Base.Int.{pos, negsuc, lt_ℤ}
use cot_bootable_recovery_to.Base.Strcmp.{strcmp}
use cot_bootable_recovery_to.Edify.Machine.{string, ok, null, fault, State}
use cot_bootable_recovery_to.Edify.Args.{evaluate}
use cot_bootable_recovery_to.Edify.Builtins.{
  concat_fn, abort_fn, assert_fn, less_than_int_fn, greater_than_int_fn, literal, truth,
}
use cot_bootable_recovery_to.Edify.Expr.{Expr, node, nil, cons, eval, build, to_arg}
use cot_bootable_recovery_to.Edify.Assert.{Gives, done, pass, failed_at, assert_lem, concat_lem}
use cot_bootable_recovery_to.Edify.Decimal.{spelled, less_than_int_lem}
use cot_bootable_recovery_to.Edify.Safety.Tree.{IsWellFormed, is_literal, is_concat, eval_safe}
use cot_bootable_recovery_to.Edify.Table.Search.{NamedFunction, lookup, IsDistinct, IsSorted}
use cot_bootable_recovery_to.Edify.Table.Registry.{
  empty, register_all, finish_registration, find_function,
}
use cot_bootable_recovery_to.Edify.Table.Correct.{find_function_lem}

abbrev start : State ℕ
start = record { cookie = 0; script = codes "a + b"; errmsg = none; out = []; slept = [] }

abbrev word : Bytes → Expr ℕ
word text = node literal text nil 0 1

abbrev loc : ℕ × ℕ
loc = (0, 5)

abbrev yes : Expr ℕ
yes = word (codes "t")

abbrev no : Expr ℕ
no = word []

yes-runs : evaluate (to_arg yes) start ≡ (ok (codes "t"), start)
unfolding eval literal evaluate to_arg
yes-runs = refl

no-runs : evaluate (to_arg no) start ≡ (ok [], start)
unfolding eval literal evaluate to_arg
no-runs = refl

no-range : ((to_arg no).start ≤ (to_arg no).end) × ((to_arg no).end ≤ length start.script)
unfolding to_arg
no-range = (omega arith, omega arith)

assert_lem_example :
    (assert_fn [] (to_arg yes ∷ []) start ≡ (ok (string []), start))
    × (assert_fn [] (to_arg yes ∷ to_arg no ∷ to_arg yes ∷ []) start
        ≡ (null, failed_at (to_arg no) start))
assert_lem_example =
    assert_lem [] (pass 116 [] yes-runs done) (to_arg no) (to_arg yes ∷ []) start no-runs no-range.0
      no-range.1

less_than_int_lem_example :
    (eval
        (build less_than_int_fn loc (cons (spelled (negsuc 6)) (cons (spelled (pos 5)) nil)))
        start
      ≡ (ok (truth (lt_ℤ (negsuc 6) (pos 5))), start))
    × (eval
          (build greater_than_int_fn loc (cons (spelled (negsuc 6)) (cons (spelled (pos 5)) nil)))
          start
        ≡ (ok (truth (lt_ℤ (pos 5) (negsuc 6))), start))
less_than_int_lem_example =
    less_than_int_lem (negsuc 6) (pos 5) loc start (omega arith) (omega arith)

abbrev sum : Expr ℕ
sum = build concat_fn loc (cons yes (cons no nil))

word-IsWellFormed : (text : Bytes) → IsWellFormed (codes "a + b") (word text)
word-IsWellFormed text = (inl (is_literal 0), omega arith, omega arith, tt)

-- abort() as an operand.
abbrev stopping : Expr ℕ
stopping = node abort_fn (codes "abort") nil 0 5

abbrev aborted : State ℕ
aborted = record start { errmsg = some (codes "called abort()") }

stopping-stops : evaluate (to_arg stopping) start ≡ (null, aborted)
unfolding evaluate to_arg abort_fn
stopping-stops = refl

concat_lem_example :
    (concat_fn [] (to_arg yes ∷ to_arg yes ∷ []) start
      ≡ (ok (string (flatten (codes "t" ∷ codes "t" ∷ []))), start))
    × (concat_fn [] (to_arg yes ∷ to_arg yes ∷ to_arg stopping ∷ to_arg yes ∷ []) start
        ≡ (null, aborted))
concat_lem_example =
    concat_lem [] (Gives.give yes-runs (Gives.give yes-runs Gives.done)) (to_arg stopping)
      (to_arg yes ∷ []) aborted stopping-stops

sum-IsWellFormed : IsWellFormed (codes "a + b") sum
unfolding build
sum-IsWellFormed = (
  inl (is_concat 2),
  omega arith,
  omega arith,
  (word-IsWellFormed (codes "t"), (word-IsWellFormed [], tt)),
)

eval_safe_example : ((eval sum start).0 ≢ fault) × ((eval sum start).1.script ≡ codes "a + b")
eval_safe_example = eval_safe sum start sum-IsWellFormed

abbrev three : List (NamedFunction ℕ)
three =
    record { name = codes "sleep"; fn = 1 }
    ∷ record { name = codes "abort"; fn = 2 }
    ∷ record { name = codes "assert"; fn = 3 }
    ∷ []

three-IsDistinct : IsDistinct three
unfolding strcmp
three-IsDistinct = ((λ e. cc, (λ e. cc, tt)), ((λ e. cc, tt), (tt, tt)))

find_function_lem_example :
    find_function (codes "assert") (finish_registration (register_all three empty))
    ≡ lookup (codes "assert") three
find_function_lem_example = find_function_lem three (codes "assert") three-IsDistinct

abbrev one : ℕ
one = 1

abbrev in_order : List (NamedFunction ℕ)
in_order = record { name = codes "abort"; fn = 2 } ∷ record { name = codes "sleep"; fn = 1 } ∷ []

in_order-IsSorted : IsSorted in_order
unfolding strcmp
in_order-IsSorted = ((refl, tt), (tt, tt))
