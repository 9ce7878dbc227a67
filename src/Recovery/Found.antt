-- ===== src/Recovery/Found.antt =====
-- What get_args finds on its own, in the message or in the command file.
use cot_bootable_recovery_to.Base.{
  ℕ, zero, suc, ◌-◌, ◌≤◌, ◌<◌, ◌≡◌, ◌≢◌, refl, ap, Bool, true, false, not, ◌&&◌, Bool-cases, inl,
  inr, Option-cases, subst, List, [], ◌∷◌, ◌++◌, Option, none, some, Bytes, codes, length, take,
  drop, length-take, leb, if◌then◌else◌, arith,
}
use cot_bootable_recovery_to.Recovery.Message.{terminate}
use cot_bootable_recovery_to.Recovery.Tokens.{
  flush, tokens, tokens_from, is_newline, is_line_end, c_string, take_line, fgets,
}
use cot_bootable_recovery_to.Recovery.Args.{
  Environment, initial_message, args_of_lines, message_args, first_token, file_args,
  args_from_message, args_from_file, get_args, max_args, max_arg_length,
}
use cot_bootable_recovery_to.Recovery.Restart.{
  HasNoNewline, AreLines, lines_of, rebooted, get_args_restart,
}

HasNoNewline-append : (cs ds : Bytes) → HasNoNewline cs → HasNoNewline ds → HasNoNewline (cs ++ ds)
HasNoNewline-append [] ds h k = k
HasNoNewline-append (c ∷ cs) ds h k = (h.0, HasNoNewline-append cs ds h.1 k)

flush-AreLines :
    (current : Bytes) (rest : List Bytes)
    → HasNoNewline current
    → AreLines rest
    → AreLines (flush current rest)
unfolding flush
flush-AreLines [] rest h k = k
flush-AreLines (c ∷ cs) rest h k = ((λ e. cc), h, k)

-- Tokens are lines, if a newline is among the delimiters.
tokens_from-AreLines :
    (is_delim : ℕ → Bool) (current text : Bytes)
    → is_delim 10 ≡ true
    → HasNoNewline current
    → AreLines (tokens_from is_delim current text)
unfolding tokens_from
tokens_from-AreLines is_delim current [] d h = flush-AreLines current [] h tt
tokens_from-AreLines is_delim current (c ∷ cs) d h = elim (Bool-cases (is_delim c)) [
  | inl stop ↦ rw stop (flush-AreLines current _ h (tokens_from-AreLines is_delim [] cs d tt))
  | inr more ↦
      let ne : c ≢ 10 = λ e. cc (ap is_delim e) in
      rw more (
        tokens_from-AreLines is_delim (current ++ (c ∷ [])) cs d
          (HasNoNewline-append current (c ∷ []) h (ne, tt)))
]

take-AreLines : (n : ℕ) (args : List Bytes) → AreLines args → AreLines (take n args)
take-AreLines zero args h = tt
take-AreLines (suc n) [] h = tt
take-AreLines (suc n) (arg ∷ args) h = (h.0, h.1, take-AreLines n args h.2)

-- The line that fgets reads is not empty and leaves less of the file.
length-take_line : (room : ℕ) (file : Bytes) → length (take_line room file).1 ≤ length file
unfolding take_line
length-take_line zero file = omega arith
length-take_line (suc room) [] = omega arith
length-take_line (suc room) (c ∷ cs) = ground (arith, length-take_line room cs)

take_line-lt : (room c : ℕ) (cs : Bytes) → length (take_line (suc room) (c ∷ cs)).1 ≤ length cs
unfolding take_line
take_line-lt room c cs = ground (arith, length-take_line room cs)

fgets-lt :
    (file line rest : Bytes)
    → fgets max_arg_length file ≡ some (line, rest)
    → length rest < length file
unfolding fgets
fgets-lt [] line rest h = cc
fgets-lt (c ∷ cs) line rest h = ground (arith, take_line-lt 4094 c cs)

first_of :
    (ts : List Bytes) (t : Bytes)
    → AreLines ts
    → elim ts [ [] ↦ none | u ∷ us ↦ some u ] ≡ some t
    → (t ≢ []) × HasNoNewline t
first_of [] t h e = cc
first_of (u ∷ us) t h e = let q : u ≡ t = cc in subst (λ v. (v ≢ []) × HasNoNewline v) q (h.0, h.1)

first_token-AreLines : (line t : Bytes) → first_token line ≡ some t → (t ≢ []) × HasNoNewline t
unfolding first_token tokens
first_token-AreLines line t h =
    first_of (tokens is_line_end (c_string line)) t
      (tokens_from-AreLines is_line_end [] (c_string line) refl tt) h

-- The loop over the command file puts only lines that are not empty into argv, and no more of them
-- than there are places.
pub file_args-AreLines :
    (fuel places : ℕ) (file : Bytes)
    → AreLines (file_args fuel places file) × (length (file_args fuel places file) ≤ places)
unfolding file_args
file_args-AreLines zero places file = (tt, omega arith)
file_args-AreLines (suc fuel) zero file = (tt, omega arith)
file_args-AreLines (suc fuel) (suc places) file = elim (Option-cases (fgets max_arg_length file)) [
  | inl end ↦ rw (end, file_args) (tt, omega arith)
  | inr ((line, rest), e) ↦
      rw (e, file_args)
        (elim (Option-cases (first_token line)) [
          | inl blank ↦ rw (blank, file_args) (file_args-AreLines fuel (suc places) rest)
          | inr (t, k) ↦
              let (ne, clean) = first_token-AreLines line t k in
              let (all, few) = file_args-AreLines fuel places rest in
              rw (k, file_args) ((ne, clean, all), omega arith)
        ])
]

fgets_end : (places : ℕ) → file_args 1 (suc places) [] ≡ []
unfolding file_args fgets
fgets_end places = refl

-- With at least as much fuel as the file has bytes, one more round of the loop over the command
-- file changes nothing.
pub file_args-fuel :
    (fuel places : ℕ) (file : Bytes)
    → length file ≤ fuel
    → file_args (suc fuel) places file ≡ file_args fuel places file
unfolding file_args
file_args-fuel zero zero file h = refl
file_args-fuel zero (suc places) [] h = fgets_end places
file_args-fuel zero (suc places) (c ∷ cs) h = absurd (omega arith)
file_args-fuel (suc fuel) zero file h = refl
file_args-fuel (suc fuel) (suc places) file h = elim (Option-cases (fgets max_arg_length file)) [
  | inl end ↦ rw (end, file_args)
  | inr ((line, rest), e) ↦
      let l : length rest ≤ fuel = omega (arith, fgets-lt file line rest e) in
      rw (e, file_args)
        (elim (Option-cases (first_token line)) [
          | inl blank ↦ rw (blank, file_args) (file_args-fuel fuel (suc places) rest l)
          | inr (t, k) ↦
              rw (k, file_args)
                (ap (λ (ts : List Bytes). t ∷ ts) (file_args-fuel fuel places rest l))
        ])
]

-- At most MAX_ARGS entries, with lines behind the first.
abbrev pub IsFound : List Bytes → Type 0
IsFound args = AreLines (drop 1 args) × (length args ≤ max_args)

args_of_lines-AreLines :
    (ts args : List Bytes) → AreLines ts → args_of_lines ts ≡ some args → IsFound args
unfolding args_of_lines
args_of_lines-AreLines [] args h e = cc
args_of_lines-AreLines (t ∷ ts) args h e =
    let q : t ∷ take 99 ts ≡ args = ground arith in
    subst IsFound q (take-AreLines 99 ts h.2, omega (arith, length-take 99 ts))

if-IsFound :
    (b : Bool) (found other : List Bytes)
    → IsFound found
    → IsFound other
    → IsFound (if b then found else other)
if-IsFound true found other h k = h
if-IsFound false found other h k = k

message_or :
    (o : Option (List Bytes)) (prog : Bytes)
    → ((args : List Bytes) → o ≡ some args → IsFound args)
    → IsFound (elim o [ some args ↦ args | none ↦ prog ∷ [] ])
message_or none prog h = (tt, omega arith)
message_or (some args) prog h = h args refl

args_from_message-IsFound :
    (env : Environment) (prog : Bytes) → IsFound (args_from_message env (prog ∷ []))
unfolding args_from_message message_args tokens
args_from_message-IsFound env prog =
    if-IsFound (leb 1 1 && not env.ignore_message) _ _
      (message_or (message_args (initial_message env)) prog λ args e.
        args_of_lines-AreLines (tokens is_newline (terminate (initial_message env)).recovery) args
          (tokens_from-AreLines is_newline [] (terminate (initial_message env)).recovery refl tt) e)
      (tt, omega arith)

drop-AreLines : (args : List Bytes) → AreLines args → AreLines (drop 1 args)
drop-AreLines [] h = tt
drop-AreLines (arg ∷ args) h = h.2

behind_program :
    (args found : List Bytes)
    → AreLines found × (length found ≤ 99)
    → IsFound (take 1 args ++ found)
behind_program [] found (h, k) = (drop-AreLines found h, omega arith)
behind_program (arg ∷ args) found (h, k) = (h, omega arith)

file_or :
    (o : Option Bytes) (args : List Bytes)
    → IsFound args
    → IsFound (elim o [
      | none ↦ args
      | some file ↦ take 1 args ++ file_args (length file) (max_args - 1) file
    ])
file_or none args h = h
file_or (some file) args h =
    behind_program args (file_args (length file) 99 file) (file_args-AreLines (length file) 99 file)

args_from_file-IsFound :
    (env : Environment) (args : List Bytes) → IsFound args → IsFound (args_from_file env args)
unfolding args_from_file
args_from_file-IsFound env args h =
    if-IsFound (leb (length args) 1) _ _ (file_or env.command_file args h) h

-- What get_args finds when the command line has no arguments: at most MAX_ARGS entries, and behind
-- the program's name only lines that are not empty.
pub get_args-IsFound : (env : Environment) (prog : Bytes) → IsFound (get_args env (prog ∷ [])).0
unfolding get_args
get_args-IsFound env prog =
    args_from_file-IsFound env (args_from_message env (prog ∷ []))
      (args_from_message-IsFound env prog)

-- A recovery run that was given no arguments and found some, in the message or in the command file,
-- stores a message with which a reboot finds the same arguments and stores the same message, if
-- they fit in the message together and the message can be read and is not to be ignored.
pub get_args-reboot :
    (env : Environment) (prog prog' : Bytes)
    → env.has_message ≡ true
    → env.ignore_message ≡ false
    → drop 1 (get_args env (prog ∷ [])).0 ≢ []
    → length (lines_of (drop 1 (get_args env (prog ∷ [])).0)) ≤ 1014
    → get_args (rebooted env (get_args env (prog ∷ [])).1) (prog' ∷ [])
      ≡ (codes "recovery" ∷ drop 1 (get_args env (prog ∷ [])).0, (get_args env (prog ∷ [])).1)
get_args-reboot env prog prog' m i ne l =
    by_shape (get_args env (prog ∷ [])).0 refl (get_args-IsFound env prog) ne l
  where
    by_shape :
        (args : List Bytes)
        → (get_args env (prog ∷ [])).0 ≡ args
        → IsFound args
        → drop 1 args ≢ []
        → length (lines_of (drop 1 args)) ≤ 1014
        → get_args (rebooted env (get_args env (prog ∷ [])).1) (prog' ∷ [])
          ≡ (codes "recovery" ∷ drop 1 args, (get_args env (prog ∷ [])).1)
    by_shape [] e f ne l = absurd (ne refl)
    by_shape (first ∷ []) e f ne l = absurd (ne refl)
    by_shape (first ∷ arg ∷ args) e f ne l =
        get_args_restart env (prog ∷ []) first prog' arg args m i e f.0 l (omega (arith, f.1))
