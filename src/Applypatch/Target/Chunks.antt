-- ===== src/Applypatch/Target/Chunks.antt =====
-- applypatch/imgpatch.c: ApplyImagePatch as a whole with MemorySink.
use cot_bootable_recovery_to.Base.{
  ℕ, zero, suc, ◌+◌, ◌-◌, ◌≤◌, ◌==◌, ◌≡◌, refl, inl, inr, Bool, true, false, not, Bool-cases, List,
  [], Option, none, some, Bytes, bytes_eq, codes, length, take, drop, ltb, if◌then◌else◌, arith,
}
use cot_bootable_recovery_to.Base.Int.{ℤ, pos, negsuc}
use cot_bootable_recovery_to.Applypatch.Words.{read4}
use cot_bootable_recovery_to.Applypatch.Model.{Stream, Patched, patched, corrupt, fault, endless}
use cot_bootable_recovery_to.Applypatch.Target.Calls.{Disk, Prog, ret, ◌>>=◌, Reach}
use cot_bootable_recovery_to.Applypatch.Target.Runs.{
  Makes, Makes-bind, Makes-Always, Makes-weaken, Keeps, Always-Reach, Always-ret,
}
use cot_bootable_recovery_to.Applypatch.Target.Sinks.{
  to_memory, Output, Applied, applied, not_applied, broken,
}
use cot_bootable_recovery_to.Applypatch.Target.Image.{
  Chunk, chunk_done, chunk_failed, chunk_broken, DeflateParameters, read_size, slice, raw_chunk,
  normal_chunk, bonus_of, deflate_new, patch_inflated, deflate_chunk, apply_chunk, chunk_loop,
  apply_image_patch,
}
use cot_bootable_recovery_to.Applypatch.Target.Memory.{
  Any, InMemory, AppliedInMemory, DoneInMemory, write_pieces-Done, raw_chunk-Done,
  normal_chunk-Done,
}

module _ (size : ℕ) (decompress : Bytes → Stream) (inflate : ℕ → Bytes → Option Bytes)
    (deflate : DeflateParameters → ℕ → Bytes → List Bytes) (old patch : Bytes)
    (bonus : Option Bytes) where
  deflate_new-Done :
      (o : Patched) (expanded_len : ℕ) (rest : Bytes) (out : Output)
      → InMemory size out
      → Makes Any
          (DoneInMemory size)
          (deflate_new decompress inflate deflate old patch bonus o expanded_len rest out)
  unfolding deflate_new
  deflate_new-Done (patched new) expanded_len rest out m =
      write_pieces-Done size _ (drop 60 rest) out m
  deflate_new-Done corrupt expanded_len rest out m = tt
  deflate_new-Done fault expanded_len rest out m = tt
  deflate_new-Done endless expanded_len rest out m = tt

  patch_inflated-Done :
      (i expanded_len : ℕ) (o : Option Bytes) (rest : Bytes) (out : Output)
      → InMemory size out
      → Makes Any
          (DoneInMemory size)
          (patch_inflated decompress inflate deflate old patch bonus i expanded_len o rest out)
  unfolding patch_inflated
  patch_inflated-Done i expanded_len none rest out m = tt
  patch_inflated-Done i expanded_len (some bytes) rest out m =
      elim (Bool-cases (
        expanded_len - length bytes
        == length (bonus_of decompress inflate deflate old patch bonus i))) [
          | inr other ↦ rw other tt
          | inl exact ↦ elim (Bool-cases (ltb (length patch) (read_size (drop 16 rest)))) [
            | inl beyond ↦ rw (exact, beyond) tt
            | inr inside ↦ rw (exact, inside) (deflate_new-Done _ expanded_len rest out m)
          ]
        ]

  deflate_chunk-Done :
      (i : ℕ) (rest : Bytes) (out : Output)
      → InMemory size out
      → Makes Any
          (DoneInMemory size)
          (deflate_chunk decompress inflate deflate old patch bonus i rest out)
  unfolding deflate_chunk ◌>>=◌
  deflate_chunk-Done i rest out m = elim (Bool-cases (ltb (length rest) 60)) [
    | inl few ↦ rw few tt
    | inr enough ↦ rw enough (tt, allocated)
  ]
    where
      expanded_len : ℕ
      expanded_len = read_size (drop 24 rest)

      sourced :
          (o : Option Bytes)
          → Makes Any (DoneInMemory size) (elim o as (λ _. Prog Chunk) [
            | none ↦ ret chunk_broken
            | some source ↦
                patch_inflated decompress inflate deflate old patch bonus i
                  (read_size (drop 24 rest))
                  (inflate (read_size (drop 24 rest)) source)
                  rest
                  out
          ])
      sourced none = tt
      sourced (some source) = patch_inflated-Done i (read_size (drop 24 rest)) _ rest out m

      allocated :
          (ok : Bool)
          → Makes Any (DoneInMemory size) (
              if not ok
              then ret (chunk_failed out)
              else elim (slice old (read_size rest) (read_size (drop 8 rest)))
                  as (λ _. Prog Chunk) [
                    | none ↦ ret chunk_broken
                    | some source ↦
                        patch_inflated decompress inflate deflate old patch bonus i
                          (read_size (drop 24 rest))
                          (inflate (read_size (drop 24 rest)) source)
                          rest
                          out
                  ])
      allocated false = tt
      allocated true = sourced (slice old (read_size rest) (read_size (drop 8 rest)))

  apply_chunk-Done :
      (i : ℕ) (rest : Bytes) (out : Output)
      → InMemory size out
      → Makes Any
          (DoneInMemory size)
          (apply_chunk decompress inflate deflate old patch bonus i rest out)
  unfolding apply_chunk
  apply_chunk-Done i rest out m = elim (Bool-cases (ltb (length rest) 4)) [
    | inl few ↦ rw few tt
    | inr enough ↦ rw enough (typed (read4 rest))
  ]
    where
      typed :
          (type : ℤ)
          → Makes Any (DoneInMemory size) (elim type as (λ _. Prog Chunk) [
            | negsuc n ↦ ret (chunk_failed out)
            | pos n ↦
                if n == 0
                then normal_chunk decompress inflate deflate old patch bonus (drop 4 rest) out
                else if n == 3
                then raw_chunk (drop 4 rest) out
                else if n == 2
                then deflate_chunk decompress inflate deflate old patch bonus i (drop 4 rest) out
                else ret (chunk_failed out)
          ])
      typed (negsuc n) = tt
      typed (pos n) = elim (Bool-cases (n == 0)) [
        | inl a ↦
            rw a (
              normal_chunk-Done size decompress inflate deflate old patch bonus (drop 4 rest) out m)
        | inr a ↦ elim (Bool-cases (n == 3)) [
          | inl b ↦ rw (a, b) (raw_chunk-Done size (drop 4 rest) out m)
          | inr b ↦ elim (Bool-cases (n == 2)) [
            | inl c ↦ rw (a, b, c) (deflate_chunk-Done i (drop 4 rest) out m)
            | inr c ↦ rw (a, b, c) tt
          ]
        ]
      ]

  chunk_loop-InMemory :
      (left i : ℕ) (rest : Bytes) (out : Output)
      → InMemory size out
      → Makes Any
          (AppliedInMemory size)
          (chunk_loop decompress inflate deflate old patch bonus left i rest out)
  unfolding chunk_loop
  chunk_loop-InMemory zero i rest out m = m
  chunk_loop-InMemory (suc left) i rest out m =
      Makes-bind Any (DoneInMemory size) (AppliedInMemory size)
        (apply_chunk decompress inflate deflate old patch bonus i rest out) _
        (apply_chunk-Done i rest out m)
        (ended λ rest' out' m'. chunk_loop-InMemory left (i + 1) rest' out' m')
    where
      ended :
          ((rest' : Bytes) (out' : Output)
            → InMemory size out'
            → Makes Any
                (AppliedInMemory size)
                (chunk_loop decompress inflate deflate old patch bonus left (i + 1) rest' out'))
          → (c : Chunk) → DoneInMemory size c
          → Makes Any (AppliedInMemory size) (elim c as (λ _. Prog Applied) [
            | chunk_done rest' out' ↦
                chunk_loop decompress inflate deflate old patch bonus left (i + 1) rest' out'
            | chunk_failed out' ↦ ret (not_applied out')
            | chunk_broken ↦ ret broken
          ])
      ended rec (chunk_done rest' out') w = rec rest' out' w
      ended rec (chunk_failed out') w = tt
      ended rec chunk_broken w = tt

  apply_image_patch-Makes :
      (out : Output)
      → InMemory size out
      → Makes Any
          (AppliedInMemory size)
          (apply_image_patch decompress inflate deflate old patch bonus out)
  unfolding apply_image_patch
  apply_image_patch-Makes out m = elim (Bool-cases (ltb (length patch) 12)) [
    | inl few ↦ rw few tt
    | inr enough ↦ elim (Bool-cases (bytes_eq (take 8 patch) (codes "IMGDIFF2"))) [
      | inr other ↦ rw (enough, other) tt
      | inl magic ↦ rw (enough, magic) (counted (read4 (drop 8 patch)))
    ]
  ]
    where
      counted :
          (n : ℤ)
          → Makes Any (AppliedInMemory size) (elim n as (λ _. Prog Applied) [
            | negsuc n ↦ ret (applied out)
            | pos n ↦ chunk_loop decompress inflate deflate old patch bonus n 0 (drop 12 patch) out
          ])
      counted (negsuc n) = m
      counted (pos n) = chunk_loop-InMemory n 0 (drop 12 patch) out m

  -- Where ApplyImagePatch returns 0 for a buffer of the target's size, whatever malloc answers, the buffer holds the bytes
  -- that were hashed, and not more than its size.
  pub apply_image_patch-InMemory :
      (d : Disk) (out : Output) (d' : Disk)
      → Reach
          (apply_image_patch decompress inflate deflate old patch bonus
            (record { token = to_memory [] size; hashed = [] }))
          d
          (ret (applied out))
          d'
      → (out.token ≡ to_memory out.hashed size) × (length out.hashed ≤ size)
  apply_image_patch-InMemory d out d' r =
      let made =
        apply_image_patch-Makes (record { token = to_memory [] size; hashed = [] })
          (refl, omega arith) in
      let always =
        Makes-Always (λ _. Unit {0}) (AppliedInMemory size) _ d
          (Makes-weaken Any (Keeps (λ _. Unit {0})) (AppliedInMemory size) _ (λ c u x y z w v. tt)
            made)
          tt in
      Always-ret (λ _. Unit {0}) (λ a _. AppliedInMemory size a) _ (applied out) d'
        (Always-Reach (λ _. Unit {0}) (λ a _. AppliedInMemory size a) r always) refl
