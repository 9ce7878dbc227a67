-- ===== src/Recovery/Tests.antt =====
-- The theorems on the arguments of recovery at fixed inputs.
use cot_bootable_recovery_to.Base.{
  ◌≡◌, refl, true, false, List, [], ◌∷◌, Bytes, some, drop, codes, arith,
}
use cot_bootable_recovery_to.Recovery.Message.{terminate}
use cot_bootable_recovery_to.Recovery.Tokens.{
  tokens, tokens_from, flush, c_string, take_line, fgets,
}
use cot_bootable_recovery_to.Recovery.Args.{
  Environment, message_args, args_of_lines, first_token, file_args, args_from_message,
  args_from_file, initial_message, get_args, finish_recovery, Cleanup,
}
use cot_bootable_recovery_to.Recovery.Restart.{
  AreLines, rebooted, get_args_restart, get_args-finish_recovery,
}
use cot_bootable_recovery_to.Recovery.Found.{
  IsFound, get_args-IsFound, get_args-reboot, file_args-AreLines,
}

-- The command file holds an argument, an empty line and another argument.
abbrev command_file : Bytes
command_file = codes "--wipe_data\r\n\n--locale=en\n"

abbrev env : Environment
env = record {
  has_message = true;
  stored = some (record { command = []; status = codes "OKAY"; recovery = [] });
  ignore_message = false;
  command_file = some command_file;
}

abbrev args : List Bytes
args = codes "--wipe_data" ∷ codes "--locale=en" ∷ []

abbrev prog : Bytes
prog = codes "/sbin/recovery"

env-args : (get_args env (prog ∷ [])).0 ≡ prog ∷ args
unfolding get_args args_from_file args_from_message message_args initial_message args_of_lines
    tokens tokens_from flush c_string take_line fgets first_token file_args terminate
env-args = refl

abbrev args-AreLines : AreLines args
unfolding file_args first_token fgets take_line tokens tokens_from flush c_string
args-AreLines = (file_args-AreLines 27 99 command_file).0

get_args_restart_example :
    get_args (rebooted env (get_args env (prog ∷ [])).1) (prog ∷ [])
    ≡ (codes "recovery" ∷ args, (get_args env (prog ∷ [])).1)
get_args_restart_example =
    get_args_restart env (prog ∷ []) prog prog (codes "--wipe_data") (codes "--locale=en" ∷ []) refl
      refl env-args args-AreLines (omega arith) (omega arith)

-- The message is stored, but the command file cannot be removed.
abbrev stuck : Cleanup
stuck = record { reads_after = λ m. some m; mounts = true; unlinks = false }

get_args-finish_recovery_example :
    (get_args (finish_recovery stuck env) (prog ∷ [])).0 ≡ args_from_file env (prog ∷ [])
get_args-finish_recovery_example = get_args-finish_recovery stuck env refl prog

get_args-IsFound_example : IsFound (get_args env (prog ∷ [])).0
get_args-IsFound_example = get_args-IsFound env prog

get_args-reboot_example :
    get_args (rebooted env (get_args env (prog ∷ [])).1) (prog ∷ [])
    ≡ (codes "recovery" ∷ drop 1 (get_args env (prog ∷ [])).0, (get_args env (prog ∷ [])).1)
get_args-reboot_example =
    get_args-reboot env prog prog refl refl (rw env-args (λ e. cc)) (rw env-args (omega arith))
