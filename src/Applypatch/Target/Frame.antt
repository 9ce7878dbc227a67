-- ===== src/Applypatch/Target/Frame.antt =====
-- Lemmas on programs whose calls concern other files than one.
use cot_bootable_recovery_to.Base.{
  ◌≡◌, ◌≢◌, ◌∙◌, refl, ap, true, false, [], Option, none, some, Bytes, take,
}
use cot_bootable_recovery_to.Applypatch.Target.Calls
use cot_bootable_recovery_to.Applypatch.Target.Calls.{Disk, Call, Prog, store, written}
use cot_bootable_recovery_to.Applypatch.Target.Runs.{
  Always, Makes, Keeps, Makes-Always, Makes-weaken,
}
use cot_bootable_recovery_to.Applypatch.Target.Written.{store_other, written_other}

-- What the file of a path holds.
abbrev pub Holds : Bytes → Option Bytes → Disk → Type 0
Holds p content d = d.files p ≡ content

-- A call does not name a path as one that it changes.
abbrev pub Untouched : Bytes → Call → Type 0
Untouched p (Calls.open_new q) = q ≢ p
Untouched p (Calls.write q buffer) = q ≢ p
Untouched p (Calls.unlink q) = q ≢ p
Untouched p (Calls.rename old new) = (old ≢ p) × (new ≢ p)
Untouched p (Calls.statfs q) = Unit
Untouched p (Calls.stat_regular q) = Unit
Untouched p (Calls.close q) = Unit
Untouched p (Calls.chmod q) = Unit
Untouched p (Calls.chown q) = Unit
Untouched p (Calls.list_dir q) = Unit
Untouched p Calls.list_open = Unit
Untouched p (Calls.malloc size) = Unit
Untouched p (Calls.mtd_find name) = Unit
Untouched p (Calls.mtd_open name) = Unit
Untouched p (Calls.mtd_erase name) = Unit
Untouched p (Calls.mtd_close name) = Unit
Untouched p (Calls.mtd_write name bytes) = Unit

module _ (p : Bytes) (content : Option Bytes) where
  pub as_before : (d d' : Disk) → Holds p content d → d' ≡ d → Holds p content d'
  as_before d d' i e = ap (λ (x : Disk). x.files p) e ∙ i

  with_flash :
      (d d' : Disk) (flash : Bytes → Bytes)
      → Holds p content d
      → d' ≡ record d { flash = flash }
      → Holds p content d'
  with_flash d d' flash i e = ap (λ (x : Disk). x.files p) e ∙ i

  beside_store :
      (d d' : Disk) (q : Bytes) (v : Option Bytes)
      → q ≢ p
      → Holds p content d
      → d' ≡ store d q v
      → Holds p content d'
  beside_store d d' q v ne i e = ap (λ (x : Disk). x.files p) e ∙ store_other d q p v ne ∙ i

  beside_written :
      (d d' : Disk) (q bytes : Bytes)
      → q ≢ p
      → Holds p content d
      → d' ≡ written d q bytes
      → Holds p content d'
  beside_written d d' q bytes ne i e =
      ap (λ (x : Disk). x.files p) e ∙ written_other d q p bytes ne ∙ i

  pub Untouched-Keeps : (c : Call) → Untouched p c → Keeps (Holds p content) c
  Untouched-Keeps (Calls.open_new q) u d d' true i e = beside_store d d' q (some []) u i e
  Untouched-Keeps (Calls.open_new q) u d d' false i e = as_before d d' i e
  Untouched-Keeps (Calls.write q none) u d d' none i e = as_before d d' i e
  Untouched-Keeps (Calls.write q none) u d d' (some n) i e = absurd e
  Untouched-Keeps (Calls.write q (some bytes)) u d d' none i e = as_before d d' i e
  Untouched-Keeps (Calls.write q (some bytes)) u d d' (some n) i (le, e) =
      beside_written d d' q (take n bytes) u i e
  Untouched-Keeps (Calls.unlink q) u d d' true i e = beside_store d d' q none u i e
  Untouched-Keeps (Calls.unlink q) u d d' false i e = as_before d d' i e
  Untouched-Keeps (Calls.rename old new) (u, v) d d' true i (moved, there, e) =
      beside_store (store d new (some moved)) d' old none u
        (beside_store d (store d new (some moved)) new (some moved) v i refl) e
  Untouched-Keeps (Calls.rename old new) u d d' false i e = as_before d d' i e
  Untouched-Keeps (Calls.mtd_write name bytes) u d d' n i (v, e) = with_flash d d' _ i e
  Untouched-Keeps (Calls.mtd_erase name) u d d' ok i (v, e) = with_flash d d' _ i e
  Untouched-Keeps (Calls.mtd_close name) u d d' ok i (v, e) = with_flash d d' _ i e
  Untouched-Keeps (Calls.statfs q) u d d' a i e = as_before d d' i e
  Untouched-Keeps (Calls.stat_regular q) u d d' a i e = as_before d d' i e
  Untouched-Keeps (Calls.close q) u d d' a i e = as_before d d' i e
  Untouched-Keeps (Calls.chmod q) u d d' a i e = as_before d d' i e
  Untouched-Keeps (Calls.chown q) u d d' a i e = as_before d d' i e
  Untouched-Keeps (Calls.list_dir q) u d d' a i e = as_before d d' i e
  Untouched-Keeps Calls.list_open u d d' a i e = as_before d d' i e
  Untouched-Keeps (Calls.malloc size) u d d' a i e = as_before d d' i e
  Untouched-Keeps (Calls.mtd_find name) u d d' a i e = as_before d d' i e
  Untouched-Keeps (Calls.mtd_open name) u d d' a i e = as_before d d' i e

  -- A program all of whose calls leave a file alone.
  pub Untouched-Always :
      {A : Type 0} (R : A → Type 0) (m : Prog A) (d : Disk)
      → Makes (Untouched p) R m
      → Holds p content d
      → Always (Holds p content) (λ a _. R a) m d
  Untouched-Always R m d u i =
      Makes-Always (Holds p content) R m d
        (Makes-weaken (Untouched p) (Keeps (Holds p content)) R m Untouched-Keeps u) i
