-- ===== src/Edify/Safety/Rules.antt =====
-- An action is safe over a script if it ends without undefined behaviour from every state that holds
-- this script, and leaves the script as it was.
use cot_bootable_recovery_to.Base.{
  ℕ, zero, suc, ◌≤◌, ◌<◌, ◌≡◌, ◌≢◌, refl, List, [], ◌∷◌, Bytes, Bool, true, false, if◌then◌else◌,
  length, arith,
}
use cot_bootable_recovery_to.Edify.Machine.{
  Value, string, blob, Outcome, ok, null, fault, State, Action, Arg, after, ◌>>=◌, pure, fail_with,
  arg,
}
use cot_bootable_recovery_to.Edify.Args.{
  evaluate, evaluate_value, as_string, read_args, read_var_args,
}

module _ {C : Type 0} (script : Bytes) where
  pub record Ended {A : Type 0} (r : Outcome A × State C) : Type 0 where
    pub defined : r.0 ≢ fault
    pub kept : r.1.script ≡ script

  abbrev pub IsSafe : {A : Type 0} → Action C A → Type 0
  IsSafe m = (s : State C) → s.script ≡ script → Ended (m s)

  -- An operand that is safe, with its range inside the script.
  pub record IsSafeArg (a : Arg C) : Type 0 where
    pub safe : IsSafe a.run
    pub ordered : a.start ≤ a.end
    pub inside : a.end ≤ length script

  abbrev pub AreSafe : List (Arg C) → Type 0
  AreSafe [] = Unit
  AreSafe (a ∷ args) = IsSafeArg a × AreSafe args

module _ {C A : Type 0} {script : Bytes} where
  pub pure-IsSafe : (x : A) → IsSafe {C = C} script (pure x)
  pure-IsSafe x s h = record { defined = cc; kept = h }

  pub fail_with-IsSafe : (msg : Bytes) → IsSafe {C = C} script (fail_with {A = A} msg)
  fail_with-IsSafe msg s h = record { defined = cc; kept = h }

  pub if-IsSafe :
      (b : Bool) {m k : Action C A}
      → IsSafe script m
      → IsSafe script k
      → IsSafe script (if b then m else k)
  if-IsSafe true p q = p
  if-IsSafe false p q = q

  pub if_eq-IsSafe :
      (b : Bool) {m k : Action C A}
      → (b ≡ true → IsSafe script m)
      → (b ≡ false → IsSafe script k)
      → IsSafe script (if b then m else k)
  if_eq-IsSafe true p q = p refl
  if_eq-IsSafe false p q = q refl

module _ {C A B : Type 0} {script : Bytes} where
  after-Ended :
      (o : Outcome A) (s : State C) (f : A → Action C B)
      → Ended script (o, s)
      → ((x : A) → IsSafe script (f x))
      → Ended script (after (o, s) f)
  after-Ended (ok x) s f e h = h x s e.kept
  after-Ended null s f e h = record { defined = cc; kept = e.kept }
  after-Ended fault s f e h = absurd (e.defined refl)

  pub bind-IsSafe :
      (m : Action C A) (f : A → Action C B)
      → IsSafe script m
      → ((x : A) → IsSafe script (f x))
      → IsSafe script (m >>= f)
  bind-IsSafe m f p h s e = after-Ended (m s).0 (m s).1 f (p s e) h

module _ {C A B D : Type 0} where
  bind_assoc :
      (o : Outcome A) (s : State C) (f : A → Action C B) (k : B → Action C D)
      → after (after (o, s) f) k ≡ after (o, s) (λ x. f x >>= k)
  bind_assoc (ok x) s f k = refl
  bind_assoc null s f k = refl
  bind_assoc fault s f k = refl

module _ {C : Type 0} {script : Bytes} where
  pub as_string-IsSafe : (v : Value) → IsSafe {C = C} script (as_string v)
  unfolding as_string
  as_string-IsSafe (string b) s h = record { defined = cc; kept = h }
  as_string-IsSafe (blob b) s h = record { defined = cc; kept = h }

  pub evaluate-IsSafe : (a : Arg C) → IsSafeArg script a → IsSafe script (evaluate a)
  unfolding evaluate
  evaluate-IsSafe a h = bind-IsSafe a.run as_string h.safe as_string-IsSafe

  pub evaluate_value-IsSafe : (a : Arg C) → IsSafeArg script a → IsSafe script (evaluate_value a)
  unfolding evaluate_value
  evaluate_value-IsSafe a h = h.safe

  -- Reading `argv[i]` below argc gives a safe operand.
  pub arg-IsSafe :
      {B : Type 0} (args : List (Arg C)) (i : ℕ) (f : Arg C → Action C B)
      → AreSafe script args
      → i < length args
      → ((a : Arg C) → IsSafeArg script a → IsSafe script (f a))
      → IsSafe script (arg args i >>= f)
  unfolding arg
  arg-IsSafe [] i f h lt g = absurd (omega arith)
  arg-IsSafe (a ∷ args) zero f h lt g = g a h.0
  arg-IsSafe (a ∷ args) (suc i) f h lt g = arg-IsSafe args i f h.1 (omega arith) g

  -- Going on with the `n` strings that ReadArgs gives.
  pub read_args_then-IsSafe :
      {B : Type 0} (args : List (Arg C)) (n : ℕ) (k : List Bytes → Action C B)
      → AreSafe script args
      → n ≤ length args
      → ((strings : List Bytes) → length strings ≡ n → IsSafe script (k strings))
      → IsSafe script (read_args args n >>= k)
  unfolding read_args
  read_args_then-IsSafe args zero k h le g s e = g [] refl s e
  read_args_then-IsSafe [] (suc n) k h le g s e = absurd (omega arith)
  read_args_then-IsSafe (a ∷ args) (suc n) k h le g s e =
      rw (bind_assoc (evaluate a s).0 (evaluate a s).1 _ k) (
        bind-IsSafe (evaluate a) (λ t. (read_args args n >>= λ rest. pure (t ∷ rest)) >>= k)
          (evaluate-IsSafe a h.0)
          (λ t s' e'. rw (bind_assoc (read_args args n s').0 (read_args args n s').1 _ k) (
            read_args_then-IsSafe args n (λ rest. k (t ∷ rest)) h.1 (omega arith)
              (λ rest l. g (t ∷ rest) (omega arith)) s' e'))
          s e)

  pub read_var_args-IsSafe :
      (args : List (Arg C)) → AreSafe script args → IsSafe script (read_var_args args)
  unfolding read_var_args
  read_var_args-IsSafe [] h = pure-IsSafe []
  read_var_args-IsSafe (a ∷ args) h = bind-IsSafe (evaluate a) _ (evaluate-IsSafe a h.0) (λ t.
      bind-IsSafe (read_var_args args) _ (read_var_args-IsSafe args h.1)
        (λ rest. pure-IsSafe (t ∷ rest)))
