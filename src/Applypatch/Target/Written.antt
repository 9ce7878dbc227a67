-- ===== src/Applypatch/Target/Written.antt =====
-- applypatch/applypatch.c: lemmas on FileSink and ApplyBSDiffPatch.
use cot_bootable_recovery_to.Base.{
  ℕ, zero, suc, ◌+◌, ◌≤◌, ◌==◌, ◌≡◌, ◌≢◌, ◌∙◌, refl, sym, ap, inl, inr, Bool-cases, [], ◌∷◌, ◌++◌,
  append_assoc, append-nil, Option, none, some, Bytes, bytes_eq, bytes_eq_refl, bytes_eq→eq, length,
  length-drop, take, take-append-drop, drop, ltb, if◌then◌else◌, arith,
}
use cot_bootable_recovery_to.Applypatch.Model.{Patched, patched, corrupt, fault, endless}
use cot_bootable_recovery_to.Applypatch.Target.Calls.{
  Disk, Effect, Prog, ret, write, put, store, written, append_to,
}
use cot_bootable_recovery_to.Applypatch.Target.Runs.{Always, Keeps, Always-bind, Always-weaken}
use cot_bootable_recovery_to.Applypatch.Target.Sinks.{
  sink_loop, file_sink, Token, to_file, sink, Applied, applied, not_applied, broken, if_short,
  write_new,
}

pub put_self : {A : Type 0} (f : Bytes → A) (p : Bytes) (v : A) → put f p v p ≡ v
unfolding put
put_self f p v = rw (bytes_eq_refl p) refl

pub put_other : {A : Type 0} (f : Bytes → A) (p q : Bytes) (v : A) → p ≢ q → put f p v q ≡ f q
unfolding put
put_other f p q v ne = elim (Bool-cases (bytes_eq p q)) [
  | inl t ↦ absurd (ne (bytes_eq→eq p q t))
  | inr n ↦ rw n refl
]

pub store_self : (d : Disk) (p : Bytes) (v : Option Bytes) → (store d p v).files p ≡ v
unfolding store
store_self d p v = put_self d.files p v

pub store_other :
    (d : Disk) (p q : Bytes) (v : Option Bytes) → p ≢ q → (store d p v).files q ≡ d.files q
unfolding store
store_other d p q v ne = put_other d.files p q v ne

pub written_other :
    (d : Disk) (p q : Bytes) (bytes : Bytes) → p ≢ q → (written d p bytes).files q ≡ d.files q
unfolding written
written_other d p q bytes ne = store_other d p q _ ne

written_self :
    (d : Disk) (p old bytes : Bytes)
    → d.files p ≡ some old
    → (written d p bytes).files p ≡ some (old ++ bytes)
unfolding written append_to
written_self d p old bytes e = store_self d p _ ∙ rw e refl

module _ (I : Disk → Type 0) (p : Bytes)
    (keep : (bytes : Bytes) → Keeps I (write p (some bytes))) where
  -- How a loop of writes ends: it wrote at most what it was given, and if it wrote as much, it wrote this.
  abbrev pub Ends : ℕ → Bytes → Bytes → ℕ → Disk → Type 0
  Ends done old rest n d =
      (n ≤ done + length rest) × (n ≡ done + length rest → d.files p ≡ some (old ++ rest))

  stopped :
      (done : ℕ) (old : Bytes) (b : ℕ) (rest : Bytes) (d : Disk) → Ends done old (b ∷ rest) done d
  stopped done old b rest d = (omega arith, λ e. absurd (omega arith))

  goes_on :
      (done n : ℕ) (old rest : Bytes) (m : ℕ) (d : Disk)
      → n ≤ length rest
      → Ends (done + n) (old ++ take n rest) (drop n rest) m d
      → Ends done old rest m d
  goes_on done n old rest m d le (few, full) =
      let l = length-drop n rest in
      let e : (old ++ take n rest) ++ drop n rest ≡ old ++ rest =
        append_assoc old (take n rest) (drop n rest)
        ∙ ap (λ r. old ++ r) (take-append-drop n rest) in
      (omega arith, λ q. full (omega arith) ∙ ap some e)

  pub sink_loop_lem :
      (fuel : ℕ) (rest : Bytes) (done : ℕ) (old : Bytes) (d : Disk)
      → length rest ≤ fuel
      → d.files p ≡ some old
      → I d
      → Always I (Ends done old rest) (sink_loop fuel p rest done) d
  unfolding sink_loop
  sink_loop_lem fuel [] done old d h e i =
      (i, (omega arith, λ _. e ∙ ap some (sym (append-nil old))))
  sink_loop_lem zero (b ∷ rest) done old d h e i = absurd (omega arith)
  sink_loop_lem (suc fuel) (b ∷ rest) done old d h e i =
      (i, after λ n. sink_loop_lem fuel (drop n (b ∷ rest)) (done + n) (old ++ take n (b ∷ rest)))
    where
      after :
          ((n : ℕ) (d' : Disk)
            → length (drop n (b ∷ rest)) ≤ fuel
            → d'.files p ≡ some (old ++ take n (b ∷ rest))
            → I d'
            → Always I
                (Ends (done + n) (old ++ take n (b ∷ rest)) (drop n (b ∷ rest)))
                (sink_loop fuel p (drop n (b ∷ rest)) (done + n))
                d')
          → (wrote : Option ℕ) (d' : Disk) → Effect (write p (some (b ∷ rest))) d wrote d'
          → Always I
              (Ends done old (b ∷ rest))
              (elim wrote as (λ _. Prog ℕ) [
                | none ↦ ret done
                | some n ↦
                    if n == 0 then ret done else sink_loop fuel p (drop n (b ∷ rest)) (done + n)
              ])
              d'
      after rec none d' f = (keep (b ∷ rest) d d' none i f, stopped done old b rest d')
      after rec (some n) d' (le, f) = elim (Bool-cases (n == 0)) [
        | inl t ↦ rw t (keep (b ∷ rest) d d' (some n) i (le, f), stopped done old b rest d')
        | inr m ↦
            let l = length-drop n (b ∷ rest) in
            let there : d'.files p ≡ some (old ++ take n (b ∷ rest)) =
              ap (λ (x : Disk). x.files p) f ∙ written_self d p old (take n (b ∷ rest)) e in
            rw m (
              Always-weaken I (Ends (done + n) (old ++ take n (b ∷ rest)) (drop n (b ∷ rest))) I
                (Ends done old (b ∷ rest)) _ d' (λ _ j. j)
                (λ w x _ q. goes_on done n old (b ∷ rest) w x le q)
                (rec n d' (ground arith) there (keep (b ∷ rest) d d' (some n) i (le, f))))
      ]

  -- ApplyBSDiffPatch that returns 0 left in the file what it hashed.
  abbrev pub HoldsHashed : Applied → Disk → Type 0
  HoldsHashed (applied out) d = (out.token ≡ to_file p) × (d.files p ≡ some out.hashed)
  HoldsHashed (not_applied out) d = out.token ≡ to_file p
  HoldsHashed broken d = Unit {0}

  sink-to_file :
      (new old : Bytes) (d : Disk)
      → d.files p ≡ some old
      → I d
      → Always I
          (λ r d'.
            (n : ℕ) × (r ≡ (some n, to_file p))
            × (n ≤ length new)
            × (n ≡ length new → d'.files p ≡ some (old ++ new)))
          (sink new (to_file p))
          d
  unfolding sink file_sink
  sink-to_file new old d e i =
      Always-bind I (Ends 0 old new) _ _ _ d
        (sink_loop_lem (length new) new 0 old d (omega arith) e i)
        (λ n d' q j. (j, (n, refl, omega (arith, q.0), λ w. q.1 (omega arith))))

  pub write_new-HoldsHashed :
      (o : Patched) (hashed : Bytes) (d : Disk)
      → d.files p ≡ some hashed
      → I d
      → Always I HoldsHashed (write_new o (record { token = to_file p; hashed = hashed })) d
  unfolding write_new if_short
  write_new-HoldsHashed (patched new) hashed d e i =
      Always-bind I _ _ _ _ d (sink-to_file new hashed d e i) (λ r d' q j. (j, took r d' q))
    where
      took :
          (r : Option ℕ × Token) (d' : Disk)
          → (n : ℕ) × (r ≡ (some n, to_file p))
            × (n ≤ length new)
            × (n ≡ length new → d'.files p ≡ some (hashed ++ new))
          → HoldsHashed
              (if_short r.0 new
                (not_applied (record { token = r.1; hashed = hashed }))
                (applied (record { token = r.1; hashed = hashed ++ new })))
              d'
      took r d' (n, e, le, full) = rw e (elim (Bool-cases (ltb n (length new))) [
        | inl t ↦ rw t refl
        | inr f ↦ rw f (refl, full (ground arith))
      ])
  write_new-HoldsHashed corrupt hashed d e i = (i, refl)
  write_new-HoldsHashed fault hashed d e i = (i, tt)
  write_new-HoldsHashed endless hashed d e i = (i, tt)
