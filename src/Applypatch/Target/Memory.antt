-- ===== src/Applypatch/Target/Memory.antt =====
-- applypatch/imgpatch.c and applypatch/bspatch.c with MemorySink.
use cot_bootable_recovery_to.Base.{
  ℕ, ◌-◌, ◌≤◌, ◌==◌, ◌≡◌, refl, inl, inr, true, false, Bool-cases, List, [], ◌∷◌, ◌++◌, Option,
  none, some, Bytes, length, length-append, take, drop, ltb, if◌then◌else◌, arith,
}
use cot_bootable_recovery_to.Base.Int.{ℤ, pos, negsuc}
use cot_bootable_recovery_to.Applypatch.Words.{read4}
use cot_bootable_recovery_to.Applypatch.Model.{
  Stream, Patched, patched, corrupt, fault, endless, apply_patch,
}
use cot_bootable_recovery_to.Applypatch.Target.Calls.{Call, Prog, ret, ◌>>=◌}
use cot_bootable_recovery_to.Applypatch.Target.Runs.{Makes, Makes-bind}
use cot_bootable_recovery_to.Applypatch.Target.Sinks.{
  to_memory, memory_sink, sink, Output, Applied, applied, not_applied, broken, if_short, write_new,
  apply_bsdiff_patch,
}
use cot_bootable_recovery_to.Applypatch.Target.Image.{
  Chunk, chunk_done, chunk_failed, chunk_broken, DeflateParameters, read_size, slice, took_all,
  hash_then_write, write_pieces, raw_chunk, normal_chunk,
}

abbrev pub Any : Call → Type 0
Any c = Unit {0}

module _ (size : ℕ) where
  abbrev pub in_memory : Bytes → Output
  in_memory bytes = record { token = to_memory bytes size; hashed = bytes }

  -- The buffer holds what was hashed, and has room for it.
  abbrev pub InMemory : Output → Type 0
  InMemory out = (out.token ≡ to_memory out.hashed size) × (length out.hashed ≤ size)

  -- So it is where the patch was applied, and after an error of a sink.
  abbrev pub AppliedInMemory : Applied → Type 0
  AppliedInMemory (applied out) = InMemory out
  AppliedInMemory (not_applied out) = Unit {0}
  AppliedInMemory broken = Unit {0}

  abbrev pub Whole : Applied → Type 0
  Whole (applied out) = InMemory out
  Whole (not_applied out) = InMemory out
  Whole broken = Unit {0}

  abbrev pub DoneInMemory : Chunk → Type 0
  DoneInMemory (chunk_done rest out) = InMemory out
  DoneInMemory (chunk_failed out) = Unit {0}
  DoneInMemory chunk_broken = Unit {0}

  fits :
      (h new : Bytes)
      → length h ≤ size
      → ltb (size - length h) (length new) ≡ false
      → length (h ++ new) ≤ size
  fits h new le f = let l = length-append h new in ground arith

  pub write_new-Whole :
      (o : Patched) (out : Output) → InMemory out → Makes Any Whole (write_new o out)
  unfolding write_new sink memory_sink if_short ◌>>=◌
  write_new-Whole (patched new) out (t, le) =
      elim (Bool-cases (ltb (size - length out.hashed) (length new))) [
        | inl full ↦ rw (t, full) (refl, le)
        | inr room ↦
            let same : ltb (length new) (length new) ≡ false = ground arith in
            rw (t, room, same) (refl, fits out.hashed new le room)
      ]
  write_new-Whole corrupt out m = m
  write_new-Whole fault out m = tt
  write_new-Whole endless out m = tt

  hash_then_write-Done :
      (bytes rest : Bytes) (out : Output)
      → InMemory out
      → Makes Any DoneInMemory (hash_then_write bytes rest out)
  unfolding hash_then_write sink memory_sink took_all ◌>>=◌
  hash_then_write-Done bytes rest out (t, le) =
      elim (Bool-cases (ltb (size - length out.hashed) (length bytes))) [
        | inl full ↦ rw (t, full) tt
        | inr room ↦
            let same : (length bytes == length bytes) ≡ true = ground arith in
            rw (t, room, same) (refl, fits out.hashed bytes le room)
      ]

  pub write_pieces-Done :
      (pieces : List Bytes) (rest : Bytes) (out : Output)
      → InMemory out
      → Makes Any DoneInMemory (write_pieces pieces rest out)
  unfolding write_pieces sink memory_sink took_all ◌>>=◌
  write_pieces-Done [] rest out m = m
  write_pieces-Done (piece ∷ pieces) rest out (t, le) =
      elim (Bool-cases (ltb (size - length out.hashed) (length piece))) [
        | inl full ↦ rw (t, full) tt
        | inr room ↦
            let same : (length piece == length piece) ≡ true = ground arith in
            rw (t, room, same)
              (write_pieces-Done pieces rest
                (record {
                  token = to_memory (out.hashed ++ piece) size;
                  hashed = out.hashed ++ piece;
                })
                (refl, fits out.hashed piece le room))
      ]

  pub raw_chunk-Done :
      (rest : Bytes) (out : Output) → InMemory out → Makes Any DoneInMemory (raw_chunk rest out)
  unfolding raw_chunk
  raw_chunk-Done rest out m = elim (Bool-cases (ltb (length rest) 4)) [
    | inl few ↦ rw few tt
    | inr enough ↦ rw enough (sized (read4 rest))
  ]
    where
      sized :
          (n : ℤ)
          → Makes Any DoneInMemory (elim n as (λ _. Prog Chunk) [
            | negsuc n ↦ ret chunk_broken
            | pos n ↦
                if ltb (length (drop 4 rest)) n
                then ret (chunk_failed out)
                else hash_then_write (take n (drop 4 rest)) (drop n (drop 4 rest)) out
          ])
      sized (negsuc n) = tt
      sized (pos n) = elim (Bool-cases (ltb (length (drop 4 rest)) n)) [
        | inl few ↦ rw few tt
        | inr enough ↦
            rw enough (hash_then_write-Done (take n (drop 4 rest)) (drop n (drop 4 rest)) out m)
      ]

  module _ (decompress : Bytes → Stream) (inflate : ℕ → Bytes → Option Bytes)
      (deflate : DeflateParameters → ℕ → Bytes → List Bytes) (old patch : Bytes)
      (bonus : Option Bytes) where
    pub normal_chunk-Done :
        (rest : Bytes) (out : Output)
        → InMemory out
        → Makes Any DoneInMemory (normal_chunk decompress inflate deflate old patch bonus rest out)
    unfolding normal_chunk apply_bsdiff_patch
    normal_chunk-Done rest out m = elim (Bool-cases (ltb (length rest) 24)) [
      | inl few ↦ rw few tt
      | inr enough ↦ elim (Bool-cases (ltb (length patch) (read_size (drop 16 rest)))) [
        | inl beyond ↦ rw (enough, beyond) tt
        | inr inside ↦
            rw (enough, inside) (sourced (slice old (read_size rest) (read_size (drop 8 rest))))
      ]
    ]
      where
        ended :
            (a : Applied)
            → Whole a
            → Makes Any DoneInMemory (
                ret (elim a as (λ _. Chunk) [
                  | applied out' ↦ chunk_done (drop 24 rest) out'
                  | not_applied out' ↦ chunk_done (drop 24 rest) out'
                  | broken ↦ chunk_broken
                ]))
        ended (applied out') w = w
        ended (not_applied out') w = w
        ended broken w = tt

        sourced :
            (o : Option Bytes)
            → Makes Any DoneInMemory (elim o as (λ _. Prog Chunk) [
              | none ↦ ret chunk_broken
              | some source ↦
                  write_new
                    (apply_patch decompress source (drop (read_size (drop 16 rest)) patch))
                    out
                  >>= λ a. ret (elim a as (λ _. Chunk) [
                    | applied out' ↦ chunk_done (drop 24 rest) out'
                    | not_applied out' ↦ chunk_done (drop 24 rest) out'
                    | broken ↦ chunk_broken
                  ])
            ])
        sourced none = tt
        sourced (some source) =
            Makes-bind Any Whole DoneInMemory
              (write_new (apply_patch decompress source (drop (read_size (drop 16 rest)) patch))
                out)
              _ (write_new-Whole _ out m) ended
