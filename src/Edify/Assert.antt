-- ===== src/Edify/Assert.antt =====
-- What assert() and concat() do with a row of operands.
use mathlib.Core.List.{flatten}
use cot_bootable_recovery_to.Base.{
  ℕ, ◌-◌, ◌≤◌, ◌≡◌, refl, List, [], ◌∷◌, ◌++◌, Bytes, codes, some, length, take, drop, le→leb,
}
use cot_bootable_recovery_to.Edify.Machine.{string, ok, null, State, Arg}
use cot_bootable_recovery_to.Edify.Args.{evaluate, read_var_args}
use cot_bootable_recovery_to.Edify.Builtins.{assert_fn, assert_failed, boolean_string, concat_fn}
use cot_bootable_recovery_to.Edify.Concat.{join_strings_lem}

-- All operands in turn give a string that is not empty; the state goes from the first to the last.
pub data Passes {C : Type 0} : List (Arg C) → State C → State C → Type 0 where
  done : {s : State C} → Passes [] s s
  pass :
      {a : Arg C} {args : List (Arg C)} {s t u : State C} (c : ℕ) (cs : Bytes)
      → evaluate a s ≡ (ok (c ∷ cs), t)
      → Passes args t u
      → Passes (a ∷ args) s u

-- All operands in turn give these strings; the state goes from the first to the last.
pub data Gives {C : Type 0} : List (Arg C) → List Bytes → State C → State C → Type 0 where
  done : {s : State C} → Gives [] [] s s
  give :
      {a : Arg C} {args : List (Arg C)} {text : Bytes} {texts : List Bytes} {s t u : State C}
      → evaluate a s ≡ (ok text, t)
      → Gives args texts t u
      → Gives (a ∷ args) (text ∷ texts) s u

module _ {C : Type 0} where
  -- If all operands pass, assert() gives "" in the state that they leave.
  assert-Passes :
      (name : Bytes) {args : List (Arg C)} {s t : State C}
      → Passes args s t
      → assert_fn name args s ≡ (ok (string []), t)
  unfolding assert_fn boolean_string
  assert-Passes name done = refl
  assert-Passes name (pass c cs e p) = rw e (assert-Passes name p)

  -- The state that a failed assert() leaves.
  abbrev pub failed_at : Arg C → State C → State C
  failed_at a u = record u {
    errmsg = some (codes "assert failed: " ++ take (a.end - a.start) (drop a.start u.script));
  }

  assert_failed_lem :
      (a : Arg C) (u : State C)
      → a.start ≤ a.end
      → a.end ≤ length u.script
      → assert_failed a u ≡ (null, failed_at a u)
  unfolding assert_failed
  assert_failed_lem a u h k = rw (le→leb _ _ h, le→leb _ _ k)

  assert-fails :
      (name : Bytes) {args : List (Arg C)} {s t : State C}
      → Passes args s t
      → (a : Arg C) (later : List (Arg C)) (u : State C) → evaluate a t ≡ (ok [], u)
      → a.start ≤ a.end
      → a.end ≤ length u.script
      → assert_fn name (args ++ (a ∷ later)) s ≡ (null, failed_at a u)
  unfolding assert_fn boolean_string
  assert-fails name done a later u e h k = rw e (assert_failed_lem a u h k)
  assert-fails name (pass c cs d p) a later u e h k = rw d (assert-fails name p a later u e h k)

  -- At the first operand that gives "" assert() fails, later operands are not evaluated, and the
  -- error message is "assert failed: " and the operand's text in the script.
  pub assert_lem :
      (name : Bytes) {args : List (Arg C)} {s t : State C}
      → Passes args s t
      → (a : Arg C) (later : List (Arg C)) (u : State C) → evaluate a t ≡ (ok [], u)
      → a.start ≤ a.end
      → a.end ≤ length u.script
      → (assert_fn name args s ≡ (ok (string []), t))
        × (assert_fn name (args ++ (a ∷ later)) s ≡ (null, failed_at a u))
  assert_lem name p a later u e h k = (assert-Passes name p, assert-fails name p a later u e h k)

  read-Gives :
      {args : List (Arg C)} {texts : List Bytes} {s t : State C}
      → Gives args texts s t
      → read_var_args args s ≡ (ok texts, t)
  unfolding read_var_args
  read-Gives done = refl
  read-Gives (give e p) = rw (e, read-Gives p) refl

  read-stops :
      {args : List (Arg C)} {texts : List Bytes} {s t : State C}
      → Gives args texts s t
      → (a : Arg C) (later : List (Arg C)) (u : State C) → evaluate a t ≡ (null, u)
      → read_var_args (args ++ (a ∷ later)) s ≡ (null, u)
  unfolding read_var_args
  read-stops done a later u e = rw e refl
  read-stops (give d p) a later u e = rw (d, read-stops p a later u e) refl

  concat_read :
      (name : Bytes) (a : Arg C) (args : List (Arg C)) (s t : State C) (texts : List Bytes)
      → read_var_args (a ∷ args) s ≡ (ok texts, t)
      → concat_fn name (a ∷ args) s ≡ (ok (string (flatten texts)), t)
  unfolding concat_fn
  concat_read name a args s t texts e = rw (concat_fn, e, join_strings_lem texts) refl

  concat_stopped :
      (name : Bytes) (a : Arg C) (args : List (Arg C)) (s t : State C)
      → read_var_args (a ∷ args) s ≡ (null, t)
      → concat_fn name (a ∷ args) s ≡ (null, t)
  unfolding concat_fn
  concat_stopped name a args s t e = rw (concat_fn, e) refl

  concat_none : (name : Bytes) (s : State C) → concat_fn name [] s ≡ (ok (string (flatten [])), s)
  unfolding concat_fn flatten
  concat_none name s = refl

  concat-Gives :
      (name : Bytes) {args : List (Arg C)} {texts : List Bytes} {s t : State C}
      → Gives args texts s t
      → concat_fn name args s ≡ (ok (string (flatten texts)), t)
  concat-Gives name {s = s} done = concat_none name s
  concat-Gives name {s = s} {t = u} (give {a} {args} {text} {texts} e p) =
      concat_read name a args s u (text ∷ texts) (
        read-Gives {args = a ∷ args} {texts = text ∷ texts} {s = s} {t = u}
          (Gives.give {a = a} {args = args} {text = text} {texts = texts} e p))

  concat-stops :
      (name : Bytes) {args : List (Arg C)} {texts : List Bytes} {s t : State C}
      → Gives args texts s t
      → (a : Arg C) (later : List (Arg C)) (u : State C) → evaluate a t ≡ (null, u)
      → concat_fn name (args ++ (a ∷ later)) s ≡ (null, u)
  concat-stops name {s = s} done a later u e =
      concat_stopped name a later s u (read-stops {s = s} done a later u e)
  concat-stops name {s = s} {t = t} (give {a = first} {args} {text} {texts} d p) a later u e =
      concat_stopped name first (args ++ (a ∷ later)) s u (
        read-stops {args = first ∷ args} {texts = text ∷ texts} {s = s} {t = t}
          (Gives.give {a = first} {args = args} {text = text} {texts = texts} d p) a later u e)

  -- Where each operand in turn, from left to right, gives a string in the state that the one
  -- before it left, concat() gives the strings joined in this order, in the last state. Where the
  -- next operand then gives NULL, concat() with it and any later operands gives NULL in the state
  -- that this operand left: the later operands are not evaluated.
  pub concat_lem :
      (name : Bytes) {args : List (Arg C)} {texts : List Bytes} {s t : State C}
      → Gives args texts s t
      → (a : Arg C) (later : List (Arg C)) (u : State C) → evaluate a t ≡ (null, u)
      → (concat_fn name args s ≡ (ok (string (flatten texts)), t))
        × (concat_fn name (args ++ (a ∷ later)) s ≡ (null, u))
  concat_lem name p a later u e = (concat-Gives name p, concat-stops name p a later u e)
