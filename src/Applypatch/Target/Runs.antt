-- ===== src/Applypatch/Target/Runs.antt =====
-- Reasoning on programs that make system calls: what holds at each moment of a run, and at its end.
use cot_bootable_recovery_to.Base.{◌≡◌}
use cot_bootable_recovery_to.Applypatch.Target.Calls.{
  Disk, Call, Answer, Effect, Prog, ret, call, ◌>>=◌, Step, answered, Reach, here, next, run,
}

-- `I` holds at each moment from now on, and `Q` of the result and the disk at the end.
abbrev pub Always : {A : Type 0} → (Disk → Type 0) → (A → Disk → Type 0) → Prog A → Disk → Type 0
Always I Q (ret a) d = I d × Q a d
Always {A} I Q (call c k) d =
    I d × ((a : Answer c) (d' : Disk) → Effect c d a d' → Always I Q (k a) d')

-- Every call of a program is one of these, and so is its result.
abbrev pub Makes : {A : Type 0} → (Call → Type 0) → (A → Type 0) → Prog A → Type 0
Makes P R (ret a) = R a
Makes P R (call c k) = P c × ((a : Answer c) → Makes P R (k a))

-- A call keeps `I`, whatever it answers.
abbrev pub Keeps : (Disk → Type 0) → Call → Type 0
Keeps I c = (d d' : Disk) (a : Answer c) → I d → Effect c d a d' → I d'

-- A kernel that answers as calls may be answered.
abbrev pub Obeys : ((c : Call) → Disk → Answer c × Disk) → Type 0
Obeys kernel = (c : Call) (d : Disk) → Effect c d (kernel c d).0 (kernel c d).1

module _ {A : Type 0} (I : Disk → Type 0) (Q : A → Disk → Type 0) where
  pub Always-now : (m : Prog A) (d : Disk) → Always I Q m d → I d
  Always-now (ret a) d h = h.0
  Always-now (call c k) d h = h.0

  Always-Step : {m m' : Prog A} {d d' : Disk} → Step m d m' d' → Always I Q m d → Always I Q m' d'
  Always-Step (answered c k a e) h = h.1 a _ e

  pub Always-Reach :
      {m : Prog A} {d : Disk} {m' : Prog A} {d' : Disk}
      → Reach m d m' d'
      → Always I Q m d
      → Always I Q m' d'
  Always-Reach here h = h
  Always-Reach (next r s) h = Always-Step s (Always-Reach r h)

  pub Always-ret : (m : Prog A) (a : A) (d : Disk) → Always I Q m d → m ≡ ret a → Q a d
  Always-ret m a d h e = let last : Always I Q (ret a) d = rw e at h in last.1

  pub Always-weaken :
      (J : Disk → Type 0) (R : A → Disk → Type 0) (m : Prog A) (d : Disk)
      → ((d' : Disk) → I d' → J d')
      → ((a : A) (d' : Disk) → I d' → Q a d' → R a d')
      → Always I Q m d
      → Always J R m d
  Always-weaken J R (ret a) d i q h = (i d h.0, q a d h.0 h.1)
  Always-weaken J R (call c k) d i q h =
      (i d h.0, λ a d' e. Always-weaken J R (k a) d' i q (h.1 a d' e))

  -- What follows a program may keep less.
  pub Always-then :
      {B : Type 0} (J : Disk → Type 0) (R : B → Disk → Type 0) (m : Prog A) (f : A → Prog B)
      (d : Disk)
      → ((d' : Disk) → I d' → J d')
      → Always I Q m d
      → ((a : A) (d' : Disk) → Q a d' → I d' → Always J R (f a) d')
      → Always J R (m >>= f) d
  unfolding ◌>>=◌
  Always-then J R (ret a) f d w h g = g a d h.1 h.0
  Always-then J R (call c k) f d w h g =
      (w d h.0, λ a d' e. Always-then J R (k a) f d' w (h.1 a d' e) g)

  pub Always-bind :
      {B : Type 0} (R : B → Disk → Type 0) (m : Prog A) (f : A → Prog B) (d : Disk)
      → Always I Q m d
      → ((a : A) (d' : Disk) → Q a d' → I d' → Always I R (f a) d')
      → Always I R (m >>= f) d
  Always-bind R m f d h g = Always-then I R m f d (λ d' i. i) h g

module _ {A : Type 0} where
  pub Makes-Always :
      (I : Disk → Type 0) (R : A → Type 0) (m : Prog A) (d : Disk)
      → Makes (Keeps I) R m
      → I d
      → Always I (λ a _. R a) m d
  Makes-Always I R (ret a) d r i = (i, r)
  Makes-Always I R (call c k) d (keep, later) i =
      (i, λ a d' e. Makes-Always I R (k a) d' (later a) (keep d d' a i e))

  pub Makes-bind :
      {B : Type 0} (P : Call → Type 0) (R : A → Type 0) (S : B → Type 0) (m : Prog A)
      (f : A → Prog B)
      → Makes P R m
      → ((a : A) → R a → Makes P S (f a))
      → Makes P S (m >>= f)
  unfolding ◌>>=◌
  Makes-bind P R S (ret a) f r h = h a r
  Makes-bind P R S (call c k) f (p, later) h = (p, λ a. Makes-bind P R S (k a) f (later a) h)

  pub Makes-weaken :
      (P P' : Call → Type 0) (R : A → Type 0) (m : Prog A)
      → ((c : Call) → P c → P' c)
      → Makes P R m
      → Makes P' R m
  Makes-weaken P P' R (ret a) h r = r
  Makes-weaken P P' R (call c k) h (p, later) = (h c p, λ a. Makes-weaken P P' R (k a) h (later a))

-- A run with given answers is one of the runs that are possible.
pub Reach-run :
    {A : Type 0} (kernel : (c : Call) → Disk → Answer c × Disk) (start : Prog A) (first : Disk)
    (m : Prog A) (d : Disk)
    → Obeys kernel
    → Reach start first m d
    → Reach start first (ret (run kernel m d).0) (run kernel m d).1
unfolding run
Reach-run kernel start first (ret a) d o r = r
Reach-run kernel start first (call c k) d o r =
    let (a, d') = kernel c d in
    Reach-run kernel start first (k a) d' o (next r (answered c k a (o c d)))
