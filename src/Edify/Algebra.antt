-- ===== src/Edify/Algebra.antt =====
-- edify/expr.c: equations between trees of operators. Two trees are compared by result, error message
-- and effects.
use cot_bootable_recovery_to.Base.{ℕ, ◌≡◌, arith}
use cot_bootable_recovery_to.Edify.Machine.{State}
use cot_bootable_recovery_to.Edify.Builtins.{
  logical_and_fn, logical_or_fn, logical_not_fn, if_else_fn, equality_fn, inequality_fn,
  sequence_fn,
}
use cot_bootable_recovery_to.Edify.Expr.{Expr, nil, cons, eval, build}

module _ {C : Type 0} (l : ℕ × ℕ) where
  abbrev pub not_of : Expr C → Expr C
  not_of a = build logical_not_fn l (cons a nil)

  abbrev pub and_of : Expr C → Expr C → Expr C
  and_of a b = build logical_and_fn l (cons a (cons b nil))

  abbrev pub or_of : Expr C → Expr C → Expr C
  or_of a b = build logical_or_fn l (cons a (cons b nil))

  abbrev pub seq_of : Expr C → Expr C → Expr C
  seq_of a b = build sequence_fn l (cons a (cons b nil))

  abbrev pub eq_of : Expr C → Expr C → Expr C
  eq_of a b = build equality_fn l (cons a (cons b nil))

  abbrev pub ne_of : Expr C → Expr C → Expr C
  ne_of a b = build inequality_fn l (cons a (cons b nil))

  abbrev pub if_of : Expr C → Expr C → Expr C
  if_of a b = build if_else_fn l (cons a (cons b nil))

  abbrev pub if_else_of : Expr C → Expr C → Expr C → Expr C
  if_else_of a b c = build if_else_fn l (cons a (cons b (cons c nil)))

module _ {C : Type 0} (l : ℕ × ℕ) (a b c : Expr C) (s : State C) where
  -- `!(a && b)` and `!a || !b` give the same result, error and effects from every state, and so do
  -- `!(a || b)` and `!a && !b`.
  pub de_morgan :
      (eval (not_of l (and_of l a b)) s ≡ eval (or_of l (not_of l a) (not_of l b)) s)
      × (eval (not_of l (or_of l a b)) s ≡ eval (and_of l (not_of l a) (not_of l b)) s)
  unfolding eval build logical_not_fn logical_and_fn logical_or_fn
  de_morgan = (ground arith, ground arith)

  -- `&&` and `||` are associative, and so is `;`, as evaluations from every state.
  pub operators_assoc :
      (eval (and_of l (and_of l a b) c) s ≡ eval (and_of l a (and_of l b c)) s)
      × (eval (or_of l (or_of l a b) c) s ≡ eval (or_of l a (or_of l b c)) s)
      × (eval (seq_of l (seq_of l a b) c) s ≡ eval (seq_of l a (seq_of l b c)) s)
  unfolding eval build logical_and_fn logical_or_fn sequence_fn
  operators_assoc = (ground arith, ground arith, ground arith)

  -- `if a then b endif` evaluates as `a && b` does, `if !a then b else c endif` as
  -- `if a then c else b endif` does, and `!(a == b)` as `a != b` does.
  pub if_else_laws :
      (eval (if_of l a b) s ≡ eval (and_of l a b) s)
      × (eval (if_else_of l (not_of l a) b c) s ≡ eval (if_else_of l a c b) s)
      × (eval (not_of l (eq_of l a b)) s ≡ eval (ne_of l a b) s)
  unfolding eval build if_else_fn logical_and_fn logical_not_fn equality_fn inequality_fn
  if_else_laws = (ground arith, ground arith, ground arith)
