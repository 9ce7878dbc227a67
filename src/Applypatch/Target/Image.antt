-- ===== src/Applypatch/Target/Image.antt =====
-- applypatch/imgpatch.c: ApplyImagePatch. bzip2 and zlib are parameters. A `size_t` has 32 bits. Data that the source
-- reads outside of a buffer make the run `broken`, also where only the pointer leaves the buffer.
use cot_bootable_recovery_to.Base.{
  ℕ, zero, suc, ◌+◌, ◌-◌, ◌%◌, ◌^◌, ◌==◌, Bool, false, not, List, [], ◌∷◌, ◌++◌, Option, none, some,
  Bytes, bytes_eq, codes, length, take, drop, ltb, if◌then◌else◌,
}
use cot_bootable_recovery_to.Base.Int.{ℤ, pos, negsuc}
use cot_bootable_recovery_to.Applypatch.Words.{read4, word8}
use cot_bootable_recovery_to.Applypatch.Model.{
  Stream, Patched, patched, corrupt, fault, endless, apply_patch,
}
use cot_bootable_recovery_to.Applypatch.Target.Calls.{Prog, ret, ask, malloc, ◌>>=◌}
use cot_bootable_recovery_to.Applypatch.Target.Sinks.{
  sink, Output, Applied, applied, not_applied, broken, apply_bsdiff_patch,
}

-- What a chunk gives: the patch behind it, an error, or a read outside of a buffer.
pub data Chunk : Type 0 where
  chunk_done : Bytes → Output → Chunk
  chunk_failed : Output → Chunk
  chunk_broken : Chunk

-- The arguments of deflateInit2.
pub record DeflateParameters : Type 0 where
  pub level : ℤ
  pub method : ℤ
  pub window_bits : ℤ
  pub mem_level : ℤ
  pub strategy : ℤ

-- `size_t x = Read8(p)`.
unfoldable pub read_size : Bytes → ℕ
read_size p = word8 p % 2 ^ 32

-- The bytes from a start on, if they lie in the old data.
unfoldable pub slice : Bytes → ℕ → ℕ → Option Bytes
slice old start len =
    if ltb (length old) (start + len) then none else some (take len (drop start old))

-- `sink(p, n, token) != n`
unfoldable pub took_all : Option ℕ → Bytes → Bool
took_all none bytes = false
took_all (some n) bytes = n == length bytes

-- Bytes that are hashed before they are written.
unfoldable pub hash_then_write : Bytes → Bytes → Output → Prog Chunk
unfolding took_all sink ◌>>=◌
hash_then_write bytes rest out = sink bytes out.token >>= λ answer.
    let (n, token) = answer in
    let out' : Output = record { token = token; hashed = out.hashed ++ bytes } in
    ret (if took_all n bytes then chunk_done rest out' else chunk_failed out')

-- The loop over what deflate gives: the pieces are written, then hashed.
unfoldable pub write_pieces : List Bytes → Bytes → Output → Prog Chunk
unfolding took_all sink ◌>>=◌
write_pieces [] rest out = ret (chunk_done rest out)
write_pieces (piece ∷ pieces) rest out = sink piece out.token >>= λ answer.
    let (n, token) = answer in
    let more = write_pieces pieces rest (record { token = token; hashed = out.hashed ++ piece }) in
    if took_all n piece then more else ret (chunk_failed (record out { token = token }))

-- CHUNK_RAW
unfoldable pub raw_chunk : Bytes → Output → Prog Chunk
unfolding hash_then_write
raw_chunk rest out =
    if ltb (length rest) 4 then ret (chunk_failed out) else elim (read4 rest) as (λ _. Prog Chunk) [
      | negsuc n ↦ ret chunk_broken
      | pos n ↦
          if ltb (length (drop 4 rest)) n
          then ret (chunk_failed out)
          else hash_then_write (take n (drop 4 rest)) (drop n (drop 4 rest)) out
    ]

module _ (decompress : Bytes → Stream) (inflate : ℕ → Bytes → Option Bytes)
    (deflate : DeflateParameters → ℕ → Bytes → List Bytes) (old patch : Bytes)
    (bonus : Option Bytes) where
  -- CHUNK_NORMAL; what ApplyBSDiffPatch returns is not looked at.
  unfoldable pub normal_chunk : Bytes → Output → Prog Chunk
  unfolding read_size slice ◌>>=◌ apply_bsdiff_patch
  normal_chunk rest out =
      if ltb (length rest) 24
      then ret (chunk_failed out)
      else if ltb (length patch) (read_size (drop 16 rest))
      then ret chunk_broken
      else elim (slice old (read_size rest) (read_size (drop 8 rest))) as (λ _. Prog Chunk) [
        | none ↦ ret chunk_broken
        | some source ↦
            apply_bsdiff_patch decompress source (drop (read_size (drop 16 rest)) patch) out
            >>= λ a. ret (elim a [
              | applied out' ↦ chunk_done (drop 24 rest) out'
              | not_applied out' ↦ chunk_done (drop 24 rest) out'
              | broken ↦ chunk_broken
            ])
      ]

  unfoldable pub bonus_of : ℕ → Bytes
  bonus_of i = elim bonus [ none ↦ [] | some b ↦ if i == 1 then b else [] ]

  unfoldable pub parameters_of : Bytes → DeflateParameters
  parameters_of rest = record {
    level = read4 (drop 40 rest);
    method = read4 (drop 44 rest);
    window_bits = read4 (drop 48 rest);
    mem_level = read4 (drop 52 rest);
    strategy = read4 (drop 56 rest);
  }

  -- The new data of a chunk, compressed again.
  unfoldable pub deflate_new : Patched → ℕ → Bytes → Output → Prog Chunk
  unfolding parameters_of write_pieces
  deflate_new (patched new) expanded_len rest out =
      let temp_size = if ltb expanded_len 32768 then 32768 else expanded_len in
      write_pieces (deflate (parameters_of rest) temp_size new) (drop 60 rest) out
  deflate_new corrupt expanded_len rest out = ret (chunk_failed out)
  deflate_new fault expanded_len rest out = ret chunk_broken
  deflate_new endless expanded_len rest out = ret chunk_broken

  -- The part of CHUNK_DEFLATE with the source data inflated.
  unfoldable pub patch_inflated : ℕ → ℕ → Option Bytes → Bytes → Output → Prog Chunk
  unfolding bonus_of deflate_new read_size
  patch_inflated i expanded_len none rest out = ret (chunk_failed out)
  patch_inflated i expanded_len (some bytes) rest out =
      if not (expanded_len - length bytes == length (bonus_of i))
      then ret (chunk_failed out)
      else if ltb (length patch) (read_size (drop 16 rest))
      then ret chunk_broken
      else deflate_new
          (apply_patch decompress (bytes ++ bonus_of i) (drop (read_size (drop 16 rest)) patch))
          expanded_len rest out

  -- CHUNK_DEFLATE
  unfoldable pub deflate_chunk : ℕ → Bytes → Output → Prog Chunk
  unfolding read_size slice ◌>>=◌ patch_inflated
  deflate_chunk i rest out =
      let expanded_len = read_size (drop 24 rest) in
      if ltb (length rest) 60
      then ret (chunk_failed out)
      else ask (malloc expanded_len) >>= λ allocated.
          if not allocated
          then ret (chunk_failed out)
          else elim (slice old (read_size rest) (read_size (drop 8 rest))) as (λ _. Prog Chunk) [
            | none ↦ ret chunk_broken
            | some source ↦ patch_inflated i expanded_len (inflate expanded_len source) rest out
          ]

  -- A chunk with its type.
  unfoldable pub apply_chunk : ℕ → Bytes → Output → Prog Chunk
  unfolding normal_chunk raw_chunk deflate_chunk
  apply_chunk i rest out =
      if ltb (length rest) 4
      then ret (chunk_failed out)
      else elim (read4 rest) as (λ _. Prog Chunk) [
        | negsuc n ↦ ret (chunk_failed out)
        | pos n ↦
            if n == 0
            then normal_chunk (drop 4 rest) out
            else if n == 3
            then raw_chunk (drop 4 rest) out
            else if n == 2
            then deflate_chunk i (drop 4 rest) out
            else ret (chunk_failed out)
      ]

  -- The loop over the chunks that are left, from number `i` on.
  unfoldable pub chunk_loop : ℕ → ℕ → Bytes → Output → Prog Applied
  unfolding apply_chunk ◌>>=◌
  chunk_loop zero i rest out = ret (applied out)
  chunk_loop (suc left) i rest out = apply_chunk i rest out >>= λ r. elim r as (λ _. Prog Applied) [
    | chunk_done rest' out' ↦ chunk_loop left (i + 1) rest' out'
    | chunk_failed out' ↦ ret (not_applied out')
    | chunk_broken ↦ ret broken
  ]

  -- ApplyImagePatch.
  unfoldable pub apply_image_patch : Output → Prog Applied
  unfolding chunk_loop
  apply_image_patch out =
      if ltb (length patch) 12
      then ret (not_applied out)
      else if not (bytes_eq (take 8 patch) (codes "IMGDIFF2"))
      then ret (not_applied out)
      else elim (read4 (drop 8 patch)) as (λ _. Prog Applied) [
        | negsuc n ↦ ret (applied out)
        | pos n ↦ chunk_loop n 0 (drop 12 patch) out
      ]
