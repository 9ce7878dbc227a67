-- ===== src/Recovery/Args.antt =====
-- recovery.c: get_args and what finish_recovery leaves for the next run.
use cot_bootable_recovery_to.Base.{
  ℕ, zero, suc, ◌-◌, Bool, not, ◌&&◌, List, [], ◌∷◌, ◌++◌, Option, none, some, Bytes, codes,
  bytes_eq, length, take, drop, leb, if◌then◌else◌,
}
use cot_bootable_recovery_to.Recovery.Message.{
  Message, command_size, recovery_size, zeroed, strlcpy, strlcat, terminate,
}
use cot_bootable_recovery_to.Recovery.Tokens.{tokens, is_newline, is_line_end, c_string, fgets}

abbrev pub max_args : ℕ
max_args = 100

abbrev pub max_arg_length : ℕ
max_arg_length = 4096

-- What get_args finds: whether the flash is of type MTD or MMC, what get_bootloader_message reads
-- (`none` if it fails), whether /tmp/.ignorebootmessage exists, and the command file.
pub record Environment : Type 0 where
  pub has_message : Bool
  pub stored : Option Message
  pub ignore_message : Bool
  pub command_file : Option Bytes

-- A failed read leaves the zeroed structure.
unfoldable pub initial_message : Environment → Message
initial_message env =
    if env.has_message then elim env.stored [ some boot ↦ boot | none ↦ zeroed ] else zeroed

-- The arguments in a message: its lines, if the first one is "recovery".
unfoldable pub args_of_lines : List Bytes → Option (List Bytes)
unfolding bytes_eq
args_of_lines [] = none
args_of_lines (first ∷ rest) =
    if bytes_eq first (codes "recovery") then some (first ∷ take (max_args - 1) rest) else none

unfoldable pub message_args : Message → Option (List Bytes)
message_args boot = args_of_lines (tokens is_newline (terminate boot).recovery)

-- The first token of a line, if it has one.
unfoldable pub first_token : Bytes → Option Bytes
unfolding tokens c_string
first_token line = elim (tokens is_line_end (c_string line)) [ [] ↦ none | t ∷ ts ↦ some t ]

-- The loop over the lines of the command file, with the number of free places in argv. A line
-- without a token takes no place. `fuel` is at least the length of the file.
unfoldable pub file_args : ℕ → ℕ → Bytes → List Bytes
unfolding first_token fgets
file_args zero places file = []
file_args (suc fuel) zero file = []
file_args (suc fuel) (suc places) file = elim (fgets max_arg_length file) [
  | none ↦ []
  | some (line, rest) ↦ elim (first_token line) [
    | some t ↦ t ∷ file_args fuel places rest
    | none ↦ file_args fuel (suc places) rest
  ]
]

-- First the command line, else the message, else the command file.
unfoldable pub args_from_message : Environment → List Bytes → List Bytes
args_from_message env argv =
    if leb (length argv) 1 && not env.ignore_message
    then elim (message_args (initial_message env)) [ some args ↦ args | none ↦ argv ]
    else argv

unfoldable pub args_from_file : Environment → List Bytes → List Bytes
args_from_file env argv =
    if leb (length argv) 1
    then elim env.command_file [
      | none ↦ argv
      | some file ↦ take 1 argv ++ file_args (length file) (max_args - 1) file
    ]
    else argv

-- The loop of strlcat calls.
unfoldable pub append_args : Bytes → List Bytes → Bytes
append_args text [] = text
append_args text (arg ∷ args) =
    append_args (strlcat (strlcat text arg recovery_size) (codes "\n") recovery_size) args

-- The message that get_args writes back, to find the same arguments after a reboot.
unfoldable pub message_for : Message → List Bytes → Message
message_for boot argv = record boot {
  command = strlcpy (codes "boot-recovery") command_size;
  recovery = append_args (strlcpy (codes "recovery\n") recovery_size) (drop 1 argv);
}

-- get_args: the arguments, and the message handed to set_bootloader_message.
unfoldable pub get_args : Environment → List Bytes → List Bytes × Message
get_args env argv =
    let args = args_from_file env (args_from_message env argv) in
    (args, message_for (initial_message env) args)

-- What the calls of finish_recovery come to, none of which stops it: what get_bootloader_message
-- reads after set_bootloader_message was called with a message, whether the command file's volume
-- can be mounted, and whether unlink succeeds or fails with ENOENT.
pub record Cleanup : Type 0 where
  pub reads_after : Message → Option Message
  pub mounts : Bool
  pub unlinks : Bool

-- finish_recovery hands over a zeroed message. It tries to remove the command file if its volume is
-- mounted, and only warns where this fails.
unfoldable pub finish_recovery : Cleanup → Environment → Environment
finish_recovery calls env = record env {
  stored = calls.reads_after zeroed;
  command_file = if calls.mounts && calls.unlinks then none else env.command_file;
}
