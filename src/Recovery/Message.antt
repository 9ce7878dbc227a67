-- ===== src/Recovery/Message.antt =====
-- bootloader.h: the message in the misc partition. A field is the string that its array holds, the
-- bytes in front of the first NUL, or all of the array where there is none.
use cot_bootable_recovery_to.Base.{ℕ, ◌-◌, [], ◌++◌, Bytes, codes, length, take}

-- `struct bootloader_message`.
pub record Message : Type 0 where
  pub command : Bytes
  pub status : Bytes
  pub recovery : Bytes

-- The sizes of the arrays `command` and `recovery`.
abbrev pub command_size : ℕ
command_size = 32

abbrev pub recovery_size : ℕ
recovery_size = 1024

-- memset to zero.
abbrev pub zeroed : Message
zeroed = record { command = []; status = []; recovery = [] }

-- The C library's strlcpy and strlcat: the string in an array of `size` bytes afterwards.
unfoldable pub strlcpy : Bytes → ℕ → Bytes
strlcpy src size = take (size - 1) src

unfoldable pub strlcat : Bytes → Bytes → ℕ → Bytes
strlcat dst src size = dst ++ take (size - 1 - length dst) src

-- `recovery[sizeof(recovery) - 1] = 0`.
unfoldable pub terminate : Message → Message
terminate boot = record boot { recovery = take (recovery_size - 1) boot.recovery }

-- set_sdcard_update_bootloader_message.
unfoldable pub sdcard_update_message : Message
unfolding strlcpy
sdcard_update_message = record zeroed {
  command = strlcpy (codes "boot-recovery") command_size;
  recovery = strlcpy (codes "recovery\n") recovery_size;
}
