-- ===== src/Edify/Expr.antt =====
-- edify/expr.h and expr.c: the tree of a parsed script, and its evaluation.
use cot_bootable_recovery_to.Base.{ℕ, List, [], ◌∷◌, Bytes, codes}
use cot_bootable_recovery_to.Edify.Machine.{Value, Action, Arg, Function}

-- `Expr`: fn, name, argv (argc is its length), start, end.
mutual
  pub data Expr (C : Type 0) : Type 0 where
    node : Function C → Bytes → Exprs C → ℕ → ℕ → Expr C

  pub data Exprs (C : Type 0) : Type 0 where
    nil : Exprs C
    cons : Expr C → Exprs C → Exprs C

-- A tree as an element of argv: `expr->fn(expr->name, state, expr->argc, expr->argv)`.
unfoldable mutual
  pub to_arg : {C : Type 0} → Expr C → Arg C
  to_arg (node fn name argv start end) = record {
    run = fn name (to_args argv);
    start = start;
    end = end;
  }

  pub to_args : {C : Type 0} → Exprs C → List (Arg C)
  to_args nil = []
  to_args (cons e es) = to_arg e ∷ to_args es

-- EvaluateValue on a tree.
unfoldable pub eval : {C : Type 0} → Expr C → Action C Value
unfolding to_arg
eval e = (to_arg e).run

-- Build, with the operands as a list; `loc` is the pair of offsets.
unfoldable pub build : {C : Type 0} → Function C → ℕ × ℕ → Exprs C → Expr C
build fn loc argv = node fn (codes "(operator)") argv loc.0 loc.1
