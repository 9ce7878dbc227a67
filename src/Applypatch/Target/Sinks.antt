-- ===== src/Applypatch/Target/Sinks.antt =====
-- applypatch/applypatch.c: FileSink and MemorySink, and applypatch/bspatch.c: ApplyBSDiffPatch, which writes the new
-- data to one of them. A file descriptor is the path of the file that was opened and emptied, so that what is written is
-- put behind what the file holds.
use cot_bootable_recovery_to.Base.{
  ℕ, zero, suc, ◌+◌, ◌-◌, ◌==◌, [], ◌∷◌, ◌++◌, Option, none, some, Bytes, length, drop, ltb,
  if◌then◌else◌,
}
use cot_bootable_recovery_to.Applypatch.Model.{
  Stream, Patched, patched, corrupt, fault, endless, apply_patch,
}
use cot_bootable_recovery_to.Applypatch.Target.Calls.{Prog, ret, call, write, ◌>>=◌}

-- The loop of FileSink over what is left, with the number of bytes done. A round writes a byte at least, or is the last.
unfoldable pub sink_loop : ℕ → Bytes → Bytes → ℕ → Prog ℕ
sink_loop fuel path [] done = ret done
sink_loop zero path (b ∷ rest) done = ret done
sink_loop (suc fuel) path (b ∷ rest) done = call (write path (some (b ∷ rest))) λ wrote.
    elim wrote as (λ _. Prog ℕ) [
      | none ↦ ret done
      | some n ↦ if n == 0 then ret done else sink_loop fuel path (drop n (b ∷ rest)) (done + n)
    ]

-- FileSink of a buffer, or of `size` bytes at NULL, which no kernel takes.
unfoldable pub file_sink : Bytes → Option Bytes → ℕ → Prog ℕ
unfolding sink_loop
file_sink path (some bytes) size = sink_loop (length bytes) path bytes 0
file_sink path none size =
    if size == 0
    then ret 0
    else call (write path none)
        λ wrote. elim wrote as (λ _. Prog ℕ) [ none ↦ ret 0 | some n ↦ ret n ]

-- The token of a sink: a file, or a `MemorySinkInfo` with the first `pos` bytes of the buffer and its size.
pub data Token : Type 0 where
  to_file : Bytes → Token
  to_memory : Bytes → ℕ → Token

-- MemorySink; `none` for -1.
unfoldable pub memory_sink : Bytes → Bytes → ℕ → Option ℕ × Bytes
memory_sink bytes buffer size =
    if ltb (size - length buffer) (length bytes)
    then (none, buffer)
    else (some (length bytes), buffer ++ bytes)

-- What a sink gives, and its token.
unfoldable pub sink : Bytes → Token → Prog (Option ℕ × Token)
unfolding file_sink memory_sink ◌>>=◌
sink bytes (to_file path) =
    file_sink path (some bytes) (length bytes) >>= λ n. ret (some n, to_file path)
sink bytes (to_memory buffer size) =
    let (n, buffer') = memory_sink bytes buffer size in ret (n, to_memory buffer' size)

-- Where the output goes, and the bytes that were hashed (`ctx`).
pub record Output : Type 0 where
  pub token : Token
  pub hashed : Bytes

-- What applying a patch gives: 0, another number, or a read or write outside of a buffer.
pub data Applied : Type 0 where
  applied not_applied : Output → Applied
  broken : Applied

-- Whether the sink did not take all bytes.
unfoldable pub if_short : Option ℕ → Bytes → Applied → Applied → Applied
if_short none bytes then_this else_this = then_this
if_short (some n) bytes then_this else_this = if ltb n (length bytes) then then_this else else_this

-- ApplyBSDiffPatch after the new data are there.
unfoldable pub write_new : Patched → Output → Prog Applied
unfolding sink if_short ◌>>=◌
write_new (patched new) out = sink new out.token >>= λ answer.
    let (n, token) = answer in
    ret (
      if_short n new (not_applied (record out { token = token }))
        (applied (record { token = token; hashed = out.hashed ++ new })))
write_new corrupt out = ret (not_applied out)
write_new fault out = ret broken
write_new endless out = ret broken

-- ApplyBSDiffPatch.
unfoldable pub apply_bsdiff_patch : (Bytes → Stream) → Bytes → Bytes → Output → Prog Applied
unfolding write_new
apply_bsdiff_patch decompress old patch out = write_new (apply_patch decompress old patch) out
