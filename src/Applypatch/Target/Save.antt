-- ===== src/Applypatch/Target/Save.antt =====
-- applypatch/applypatch.c: SaveFileContents and WriteToPartition. fsync, and calls of close whose result is not looked
-- at, are left out. mtd_scan_partitions was called before mtd_find_partition_by_name.
use cot_bootable_recovery_to.Base.{
  ℕ, ◌==◌, Bool, false, not, List, [], ◌∷◌, Option, some, Bytes, bytes_eq, codes, length,
  if◌then◌else◌,
}
use cot_bootable_recovery_to.Recovery.Tokens.{tokens}
use cot_bootable_recovery_to.Applypatch.Target.Calls.{
  Prog, ret, call, ◌>>=◌, open_new, close, chmod, chown, mtd_find, mtd_open, mtd_write, mtd_erase,
  mtd_close,
}
use cot_bootable_recovery_to.Applypatch.Target.Sinks.{file_sink}

-- SaveFileContents of `size` bytes at a pointer; `true` for 0.
unfoldable pub save_file_contents : Bytes → Option Bytes → ℕ → Prog Bool
unfolding file_sink ◌>>=◌
save_file_contents filename buffer size = call (open_new filename) λ opened.
    if not opened
    then ret false
    else file_sink filename buffer size >>= λ n.
        if not (n == size)
        then ret false
        else call (chmod filename)
            λ mode. if not mode then ret false else call (chown filename) λ owner. ret owner

-- What WriteToPartition gives: 0, -1, or a write to a file that was not opened.
pub data PartitionWrite : Type 0 where
  wrote not_wrote no_stream : PartitionWrite

abbrev done_if : Bool → PartitionWrite
done_if ok = if ok then wrote else not_wrote

-- The case of MTD. A context that is there is closed on every path; after a failure the result is not looked at.
unfoldable pub write_mtd : Bytes → Bytes → Prog PartitionWrite
write_mtd bytes partition = call (mtd_find partition) λ found.
    if not found
    then ret not_wrote
    else call (mtd_open partition) λ opened.
      if not opened
      then ret not_wrote
      else call (mtd_write partition bytes) λ written.
        if not (written == length bytes)
        then (call (mtd_close partition) λ closed. ret not_wrote)
        else call (mtd_erase partition) λ erased.
          if not erased
          then (call (mtd_close partition) λ closed. ret not_wrote)
          else call (mtd_close partition) λ closed. ret (done_if closed)

-- The case of EMMC. The result of fopen is not looked at.
unfoldable pub write_emmc : Bytes → Bytes → Prog PartitionWrite
unfolding file_sink ◌>>=◌
write_emmc bytes partition = call (open_new partition) λ opened.
    if not opened
    then ret no_stream
    else file_sink partition (some bytes) (length bytes) >>= λ n.
        if not (n == length bytes)
        then ret not_wrote
        else call (close partition) λ closed. ret (done_if closed)

abbrev is_colon : ℕ → Bool
is_colon c = c == 58

unfoldable pub write_named : Bytes → List Bytes → Prog PartitionWrite
unfolding write_mtd write_emmc
write_named bytes [] = ret no_stream
write_named bytes (magic ∷ []) = ret not_wrote
write_named bytes (magic ∷ partition ∷ rest) =
    if bytes_eq magic (codes "MTD")
    then write_mtd bytes partition
    else if bytes_eq magic (codes "EMMC")
    then write_emmc bytes partition
    else ret not_wrote

-- WriteToPartition. Without a token there is no string that strcmp can read.
unfoldable pub write_to_partition : Bytes → Bytes → Prog PartitionWrite
unfolding write_named
write_to_partition bytes target = write_named bytes (tokens is_colon target)
