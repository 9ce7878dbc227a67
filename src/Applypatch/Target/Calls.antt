-- ===== src/Applypatch/Target/Calls.antt =====
-- The system calls of applypatch/applypatch.c and applypatch/freecache.c, and programs that make them. A disk is what
-- the files hold, by their paths, and what the flash partitions hold, by their names. What a call may answer and do to
-- the disk is a relation: each call that can fail may fail. Data that were written stay written, as after fsync.
use cot_bootable_recovery_to.Base.{
  ℕ, ◌≤◌, ◌≡◌, Bool, true, false, List, [], ◌++◌, Option, none, some, Bytes, bytes_eq, length, take,
  if◌then◌else◌,
}

pub record Disk : Type 0 where
  pub files : Bytes → Option Bytes
  pub flash : Bytes → Bytes

-- A buffer is `none` where the pointer is NULL.
pub data Call : Type 0 where
  statfs open_new stat_regular close chmod chown unlink list_dir : Bytes → Call
  list_open : Call
  malloc : ℕ → Call
  write : Bytes → Option Bytes → Call
  rename : Bytes → Bytes → Call
  mtd_find mtd_open mtd_erase mtd_close : Bytes → Call
  mtd_write : Bytes → Bytes → Call

-- A number of bytes, `none` for -1; a list of names, `none` where it cannot be read; or whether the call succeeded.
abbrev pub Answer : Call → Type 0
Answer (statfs path) = ℕ
Answer (list_dir path) = Option (List Bytes)
Answer list_open = Option (List Bytes)
Answer (write path buffer) = Option ℕ
Answer (mtd_write name bytes) = ℕ
Answer (open_new path) = Bool
Answer (stat_regular path) = Bool
Answer (close path) = Bool
Answer (chmod path) = Bool
Answer (chown path) = Bool
Answer (unlink path) = Bool
Answer (malloc size) = Bool
Answer (rename old new) = Bool
Answer (mtd_find name) = Bool
Answer (mtd_open name) = Bool
Answer (mtd_erase name) = Bool
Answer (mtd_close name) = Bool

unfoldable pub put : {A : Type 0} → (Bytes → A) → Bytes → A → Bytes → A
put f path v p = if bytes_eq path p then v else f p

-- The file has these bytes, or there is none.
unfoldable pub store : Disk → Bytes → Option Bytes → Disk
unfolding put
store d path content = record d { files = put d.files path content }

unfoldable pub append_to : Option Bytes → Bytes → Option Bytes
append_to none bytes = none
append_to (some old) bytes = some (old ++ bytes)

unfoldable pub written : Disk → Bytes → Bytes → Disk
unfolding store append_to
written d path bytes = store d path (append_to (d.files path) bytes)

-- What a call may answer, and the disk after it.
abbrev pub Effect : (c : Call) → Disk → Answer c → Disk → Type 0
Effect (open_new path) d true d' = d' ≡ store d path (some [])
Effect (open_new path) d false d' = d' ≡ d
Effect (write path none) d none d' = d' ≡ d
Effect (write path none) d (some n) d' = ⊥
Effect (write path (some bytes)) d none d' = d' ≡ d
Effect (write path (some bytes)) d (some n) d' =
    (n ≤ length bytes) × (d' ≡ written d path (take n bytes))
Effect (unlink path) d true d' = d' ≡ store d path none
Effect (unlink path) d false d' = d' ≡ d
Effect (rename old new) d true d' =
    (content : Bytes) × (d.files old ≡ some content)
    × (d' ≡ store (store d new (some content)) old none)
Effect (rename old new) d false d' = d' ≡ d
Effect (mtd_write name bytes) d n d' =
    (content : Bytes) × (d' ≡ record d { flash = put d.flash name content })
Effect (mtd_erase name) d ok d' =
    (content : Bytes) × (d' ≡ record d { flash = put d.flash name content })
Effect (mtd_close name) d ok d' =
    (content : Bytes) × (d' ≡ record d { flash = put d.flash name content })
Effect (statfs path) d a d' = d' ≡ d
Effect (stat_regular path) d a d' = d' ≡ d
Effect (close path) d a d' = d' ≡ d
Effect (chmod path) d a d' = d' ≡ d
Effect (chown path) d a d' = d' ≡ d
Effect (list_dir path) d a d' = d' ≡ d
Effect list_open d a d' = d' ≡ d
Effect (malloc size) d a d' = d' ≡ d
Effect (mtd_find name) d a d' = d' ≡ d
Effect (mtd_open name) d a d' = d' ≡ d

-- A program: a result, or a call and what is done with its answer.
pub data Prog (A : Type 0) : Type 0 where
  ret : A → Prog A
  call : (c : Call) → (Answer c → Prog A) → Prog A

infixl 5 ◌>>=◌
unfoldable pub ◌>>=◌ : {A B : Type 0} → Prog A → (A → Prog B) → Prog B
ret a >>= f = f a
call c k >>= f = call c (λ a. k a >>= f)

abbrev pub ask : (c : Call) → Prog (Answer c)
ask c = call c (λ a. ret a)

-- A program at work on a disk. The environment chooses among the answers of a call.
pub data Step {A : Type 0} : Prog A → Disk → Prog A → Disk → Type 0 where
  answered :
      (c : Call) (k : Answer c → Prog A) {d d' : Disk} (a : Answer c)
      → Effect c d a d'
      → Step (call c k) d (k a) d'

-- What a program can come to; it may be interrupted in each such state.
pub data Reach {A : Type 0} (m : Prog A) (d : Disk) : Prog A → Disk → Type 0 where
  here : Reach m d m d
  next : {n n' : Prog A} {e e' : Disk} → Reach m d n e → Step n e n' e' → Reach m d n' e'

-- A run with given answers.
unfoldable pub run : {A : Type 0} → ((c : Call) → Disk → Answer c × Disk) → Prog A → Disk → A × Disk
run kernel (ret a) d = (a, d)
run kernel (call c k) d = let (a, d') = kernel c d in run kernel (k a) d'
