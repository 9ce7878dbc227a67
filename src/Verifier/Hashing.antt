-- ===== src/Verifier/Hashing.antt =====
-- verifier.c: the loop that hashes the signed part of the file.
use cot_bootable_recovery_to.Base.{
  ℕ, zero, suc, ◌+◌, ◌-◌, ◌≤◌, ◌<◌, ◌≡◌, ◌∙◌, sym, ap, min, Option, some, Bytes, take, drop,
  take_add, drop-drop, ltb, le→ltb, ltb→lt, Bool-cases, inl, inr, arith,
}
use cot_bootable_recovery_to.Verifier.Model.{Mincrypt, hash_loop, buffer_size}

module _ (m : Mincrypt) where
  open m use {Context, sha_init, sha_update, update-append, update-nil}

  nothing_left :
      (file : Bytes) (signed_len so_far : ℕ) (ctx : Context)
      → signed_len ≤ so_far
      → ctx ≡ sha_update ctx (take (signed_len - so_far) (drop so_far file))
  nothing_left file signed_len so_far ctx h =
      let e : signed_len - so_far ≡ 0 = omega arith in rw e (sym (update-nil ctx))

  hash_loop-rest :
      (fuel : ℕ) (file : Bytes) (signed_len so_far : ℕ) (ctx : Context)
      → signed_len - so_far ≤ fuel
      → hash_loop m fuel file signed_len so_far ctx
        ≡ some (sha_update ctx (take (signed_len - so_far) (drop so_far file)))
  unfolding hash_loop
  hash_loop-rest zero file signed_len so_far ctx h =
      rw (le→ltb so_far signed_len (omega arith))
        (ap Option.some (nothing_left file signed_len so_far ctx (omega arith)))
  hash_loop-rest (suc fuel) file signed_len so_far ctx h =
      elim (Bool-cases (ltb so_far signed_len)) [
        | inl more ↦
            let size = min buffer_size (signed_len - so_far) in
            let left = signed_len - (so_far + size) in
            let so_far-lt : so_far < signed_len = ltb→lt so_far signed_len more in
            let piece = take size (drop so_far file) in
            let whole : size + left ≡ signed_len - so_far = omega arith in
            rw more (
              hash_loop-rest fuel file signed_len (so_far + size) (sha_update ctx piece)
                (omega arith)
              ∙ rw (update-append, ← drop-drop so_far size file, ← take_add size left, whole))
        | inr over ↦
            rw over (ap Option.some (nothing_left file signed_len so_far ctx (ground arith)))
      ]

  -- With one round for each byte the loop ends, and the context is that of the first `signed_len`
  -- bytes, passed at once.
  pub hash_loop_lem :
      (file : Bytes) (signed_len : ℕ)
      → hash_loop m signed_len file signed_len 0 sha_init
        ≡ some (sha_update sha_init (take signed_len file))
  hash_loop_lem file signed_len =
      let e : signed_len - 0 ≡ signed_len = omega arith in
      rw e at (hash_loop-rest signed_len file signed_len 0 sha_init (omega arith))
