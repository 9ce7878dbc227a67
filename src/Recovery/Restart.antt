-- ===== src/Recovery/Restart.antt =====
-- recovery.c: the arguments of a run after a reboot, and after finish_recovery.
use cot_bootable_recovery_to.Base.{
  suc, ◌+◌, ◌-◌, ◌≤◌, ◌<◌, ◌≡◌, ◌≢◌, ◌∙◌, refl, sym, ap, true, false, inl, inr, Bool-cases, ◌&&◌,
  if◌then◌else◌, List, [], ◌∷◌, ◌++◌, append_assoc, append-nil, none, some, Bytes, codes, length,
  take, drop, length-append, length-take, take_all, leb, lt→leb, ◌==◌, arith,
}
use cot_bootable_recovery_to.Recovery.Message.{
  Message, command_size, recovery_size, zeroed, strlcpy, strlcat, terminate,
}
use cot_bootable_recovery_to.Recovery.Tokens.{flush, tokens, tokens_from, is_newline}
use cot_bootable_recovery_to.Recovery.Args.{
  Environment, initial_message, args_of_lines, message_args, args_from_message, args_from_file,
  append_args, message_for, get_args, finish_recovery, Cleanup, max_args,
}

-- An argument that a line can hold.
abbrev pub HasNoNewline : Bytes → Type 0
HasNoNewline [] = Unit
HasNoNewline (c ∷ cs) = (c ≢ 10) × HasNoNewline cs

abbrev pub AreLines : List Bytes → Type 0
AreLines [] = Unit
AreLines (arg ∷ args) = (arg ≢ []) × HasNoNewline arg × AreLines args

-- The arguments, each with a newline.
abbrev pub lines_of : List Bytes → Bytes
lines_of [] = []
lines_of (arg ∷ args) = arg ++ (10 ∷ lines_of args)

-- A line without a newline is one token, if it is not empty.
tokens_line :
    (current arg rest : Bytes)
    → HasNoNewline arg
    → tokens_from is_newline current (arg ++ (10 ∷ rest))
      ≡ flush (current ++ arg) (tokens_from is_newline [] rest)
unfolding tokens_from
tokens_line current [] rest h = rw (append-nil current)
tokens_line current (c ∷ cs) rest h =
    let other : (c == 10) ≡ false = ground (arith, h.0) in
    rw other (tokens_line (current ++ (c ∷ [])) cs rest h.1 ∙ rw (append_assoc current))

flush_token : (arg : Bytes) (rest : List Bytes) → arg ≢ [] → flush arg rest ≡ arg ∷ rest
unfolding flush
flush_token [] rest h = absurd (h refl)
flush_token (c ∷ cs) rest h = refl

tokens_from_nil : tokens_from is_newline [] [] ≡ []
unfolding tokens_from flush
tokens_from_nil = refl

tokens-lines_of : (args : List Bytes) → AreLines args → tokens is_newline (lines_of args) ≡ args
unfolding tokens
tokens-lines_of [] h = tokens_from_nil
tokens-lines_of (arg ∷ args) h =
    tokens_line [] arg (lines_of args) h.1
    ∙ flush_token arg (tokens_from is_newline [] (lines_of args)) h.0
    ∙ ap (λ (l : List Bytes). arg ∷ l) (tokens-lines_of args h.2)

strlcat_fits :
    (dst src : Bytes)
    → length dst + length src < recovery_size
    → strlcat dst src recovery_size ≡ dst ++ src
unfolding strlcat
strlcat_fits dst src h = rw (take_all (recovery_size - 1 - length dst) src (omega arith))

append_args_lem :
    (text : Bytes) (args : List Bytes)
    → length text + length (lines_of args) < recovery_size
    → append_args text args ≡ text ++ lines_of args
unfolding append_args
append_args_lem text [] h = sym (append-nil text)
append_args_lem text (arg ∷ args) h =
    let n : length (lines_of (arg ∷ args)) ≡ length arg + suc (length (lines_of args)) =
      length-append arg (10 ∷ lines_of args) in
    let m = length-append text arg in
    rw (strlcat_fits text arg (omega arith), strlcat_fits (text ++ arg) (codes "\n") (omega arith))
      (append_args_lem ((text ++ arg) ++ codes "\n") args
          (omega (arith, length-append (text ++ arg) (codes "\n")))
        ∙ rw (append_assoc (text ++ arg), append_assoc text))

-- strlcat never lets the string outgrow the array.
length-strlcat :
    (dst src : Bytes)
    → length dst < recovery_size
    → length (strlcat dst src recovery_size) < recovery_size
unfolding strlcat
length-strlcat dst src h = omega (
  arith,
  length-append dst (take (recovery_size - 1 - length dst) src),
  length-take (recovery_size - 1 - length dst) src,
)

length-append_args :
    (text : Bytes) (args : List Bytes)
    → length text < recovery_size
    → length (append_args text args) < recovery_size
unfolding append_args
length-append_args text [] h = h
length-append_args text (arg ∷ args) h =
    length-append_args (strlcat (strlcat text arg recovery_size) (codes "\n") recovery_size) args
      (length-strlcat (strlcat text arg recovery_size) (codes "\n") (length-strlcat text arg h))

-- Whatever the arguments, the strings of the message fit in its arrays with their NUL, and the
-- command makes the next boot a recovery run.
pub message_for_bounds :
    (boot : Message) (argv : List Bytes)
    → (length (message_for boot argv).recovery < recovery_size)
      × (length (message_for boot argv).command < command_size)
      × ((message_for boot argv).command ≡ codes "boot-recovery")
      × ((message_for boot argv).status ≡ boot.status)
unfolding message_for strlcpy
message_for_bounds boot argv =
    (length-append_args (codes "recovery\n") (drop 1 argv) (omega arith), omega arith, refl, refl)

-- The message for arguments that are lines and fit in its array gives these arguments back.
pub message_args-message_for :
    (boot : Message) (prog : Bytes) (args : List Bytes)
    → AreLines args
    → length (lines_of args) ≤ 1014
    → message_args (message_for boot (prog ∷ args))
      ≡ some (codes "recovery" ∷ take (max_args - 1) args)
unfolding message_args message_for strlcpy terminate args_of_lines
message_args-message_for boot prog args h l =
    let e : append_args (codes "recovery\n") args ≡ lines_of (codes "recovery" ∷ args) =
      append_args_lem (codes "recovery\n") args (omega arith) in
    let t : tokens is_newline (lines_of (codes "recovery" ∷ args)) ≡ codes "recovery" ∷ args =
      tokens-lines_of (codes "recovery" ∷ args) (λ e. cc, omega arith, h) in
    rw (e, take_all 1023 (lines_of (codes "recovery" ∷ args)) (omega arith), t)

-- The next boot, with the message that get_args stored.
abbrev pub rebooted : Environment → Message → Environment
rebooted env boot = record env { stored = some boot }

args_from_stored :
    (env : Environment) (boot : Message) (prog prog' : Bytes) (args : List Bytes)
    → env.has_message ≡ true
    → env.ignore_message ≡ false
    → AreLines args
    → length (lines_of args) ≤ 1014
    → args_from_message (rebooted env (message_for boot (prog ∷ args))) (prog' ∷ [])
      ≡ codes "recovery" ∷ take (max_args - 1) args
unfolding args_from_message initial_message
args_from_stored env boot prog prog' args m i h l =
    rw (m, i, message_args-message_for boot prog args h l)

stored-again :
    (env : Environment) (boot : Message) (prog prog' : Bytes) (args : List Bytes)
    → env.has_message ≡ true
    → message_for (initial_message (rebooted env (message_for boot (prog ∷ args)))) (prog' ∷ args)
      ≡ message_for boot (prog ∷ args)
unfolding initial_message message_for
stored-again env boot prog prog' args m = rw m

-- With arguments on the command line the command file is not read.
args_from_file_skip :
    (env : Environment) (first second : Bytes) (rest : List Bytes)
    → args_from_file env (first ∷ second ∷ rest) ≡ first ∷ second ∷ rest
unfolding args_from_file
args_from_file_skip env first second rest =
    let e : leb (suc (suc (length rest))) 1 ≡ false = lt→leb _ _ (omega arith) in rw e

-- A run that got arguments stores a message with which a reboot, given no arguments of its own,
-- gets the same arguments and stores the same message: the run can be interrupted at any point. The
-- arguments must be lines that fit in the message's array together, at most 99 of them, and the
-- message must be readable and not be ignored.
pub get_args_restart :
    (env : Environment) (argv : List Bytes) (prog prog' arg : Bytes) (args : List Bytes)
    → env.has_message ≡ true
    → env.ignore_message ≡ false
    → (get_args env argv).0 ≡ prog ∷ arg ∷ args
    → AreLines (arg ∷ args)
    → length (lines_of (arg ∷ args)) ≤ 1014
    → length (arg ∷ args) ≤ 99
    → get_args (rebooted env (get_args env argv).1) (prog' ∷ [])
      ≡ (codes "recovery" ∷ arg ∷ args, (get_args env argv).1)
unfolding get_args
get_args_restart env argv prog prog' arg args m i e h l n =
    let boot = initial_message env in
    let found : args_from_message (rebooted env (message_for boot (prog ∷ arg ∷ args))) (prog' ∷ [])
        ≡ codes "recovery" ∷ arg ∷ args =
      args_from_stored env boot prog prog' (arg ∷ args) m i h l
      ∙ ap (λ (t : List Bytes). codes "recovery" ∷ t) (take_all 99 (arg ∷ args) n) in
    rw e (
      rw (found, args_from_file_skip _ (codes "recovery") arg args)
        (rw (stored-again env boot prog (codes "recovery") (arg ∷ args) m)))

message_args-zeroed : message_args zeroed ≡ none
unfolding message_args terminate tokens tokens_from flush args_of_lines
message_args-zeroed = refl

module _ (calls : Cleanup) (env : Environment)
    (reads : calls.reads_after zeroed ≡ some zeroed) where
  initial-finish_recovery : initial_message (finish_recovery calls env) ≡ zeroed
  unfolding initial_message finish_recovery
  initial-finish_recovery = rw reads (ground arith)

  no_message :
      (prog : Bytes) → args_from_message (finish_recovery calls env) (prog ∷ []) ≡ prog ∷ []
  unfolding args_from_message
  no_message prog = rw (initial-finish_recovery, message_args-zeroed) (ground arith)

  file_left :
      (prog : Bytes)
      → args_from_file (finish_recovery calls env) (prog ∷ [])
        ≡ (if calls.mounts && calls.unlinks then prog ∷ [] else args_from_file env (prog ∷ []))
  unfolding args_from_file finish_recovery
  file_left prog = elim (Bool-cases (calls.mounts && calls.unlinks)) [
    | inl gone ↦ rw gone refl
    | inr left ↦ rw left refl
  ]

  -- After finish_recovery, where the zeroed message that it set is read back, a run that is given
  -- no arguments finds none if the command file's volume could be mounted and the file removed;
  -- else it finds those of the command file again.
  pub get_args-finish_recovery :
      (prog : Bytes)
      → (get_args (finish_recovery calls env) (prog ∷ [])).0
        ≡ (if calls.mounts && calls.unlinks then prog ∷ [] else args_from_file env (prog ∷ []))
  unfolding get_args
  get_args-finish_recovery prog = rw (no_message prog) (file_left prog)
