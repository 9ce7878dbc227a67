-- ===== src/Applypatch/Bounds.antt =====
-- applypatch/bspatch.c: the length of the data that ApplyBSDiffPatchMem gives.
use cot_bootable_recovery_to.Base.{
  ℕ, zero, suc, ◌+◌, ◌≤◌, ◌<◌, ◌≡◌, ◌≢◌, ◌∙◌, refl, sym, ap, [], ◌∷◌, ◌++◌, Bytes, inl, inr, Bool,
  true, false, if◌then◌else◌, Bool-cases, length, take, drop, length-append, length-take,
  length-drop, ltb, leb, leb→le, arith,
}
use cot_bootable_recovery_to.Base.Int.{ℤ, pos, negsuc, add_ℤ}
use cot_bootable_recovery_to.Applypatch.Offsets.{offtin}
use cot_bootable_recovery_to.Applypatch.Model.{
  Stream, Patched, patched, corrupt, fault, endless, Streams, Filled, filled, failed, waits,
  fill_buffer, add_old, read_part, patch_loop, apply_streams, apply_patch,
}

-- The result is an error, or new data of `n` bytes; and it is there if the streams are whole.
pub data Sized (n : ℕ) (whole : Type 0) : Patched → Type 0 where
  is_patched : (new : Bytes) → length new ≡ n → Sized n whole (patched new)
  is_corrupt : Sized n whole corrupt
  is_fault : Sized n whole fault
  is_endless : ¬ whole → Sized n whole endless

-- What a read gives.
data Fills (size : ℕ) (stream : Stream) : Filled → Type 0 where
  is_filled :
      (part : Bytes) (rest : Stream)
      → length part ≡ size
      → length rest.content + size ≡ length stream.content
      → rest.broken_off ≡ stream.broken_off
      → Fills size stream (filled part rest)
  is_failed : Fills size stream failed
  is_waiting : stream.broken_off ≡ true → Fills size stream waits

fill_buffer_lem : (size : ℕ) (stream : Stream) → Fills size stream (fill_buffer size stream)
unfolding fill_buffer
fill_buffer_lem size stream = elim (Bool-cases (leb size (length stream.content))) [
  | inl fits ↦
      let le = leb→le size (length stream.content) fits in
      rw fits (
        is_filled _ _ (omega (arith, length-take size stream.content))
          (omega (arith, length-drop size stream.content)) refl)
  | inr short ↦ rw short (unfilled stream.broken_off refl)
]
  where
    unfilled : (b : Bool) → stream.broken_off ≡ b → Fills size stream (if b then waits else failed)
    unfilled true off = is_waiting off
    unfilled false on = is_failed

pub length-add_old :
    (old : Bytes) (oldpos : ℤ) (ds : Bytes) → length (add_old old oldpos ds) ≡ length ds
unfolding add_old
length-add_old old oldpos [] = refl
length-add_old old oldpos (d ∷ ds) = ap suc (length-add_old old (add_ℤ oldpos (pos 1)) ds)

module _ (n : ℕ) (whole : Type 0) where
  read_part-Sized :
      (newpos new_size : ℕ) (x : ℤ) (stream : Stream) (k : Bytes → Stream → Patched)
      → (whole → stream.broken_off ≡ false)
      → ((part : Bytes) (rest : Stream)
          → newpos + length part ≤ new_size
          → rest.broken_off ≡ stream.broken_off
          → Sized n whole (k part rest))
      → Sized n whole (read_part x newpos new_size stream k)
  unfolding read_part
  read_part-Sized newpos new_size (negsuc x) stream k w h = is_fault
  read_part-Sized newpos new_size (pos x) stream k w h =
      elim (Bool-cases (ltb new_size (newpos + x))) [
        | inl over ↦ rw over is_corrupt
        | inr fits ↦ rw fits (
            read (fill_buffer x stream) (fill_buffer_lem x stream)
              (not_over (newpos + x) new_size fits))
      ]
    where
      not_over : (a b : ℕ) → ltb b a ≡ false → a ≤ b
      not_over a b e = ground arith

      read :
          (r : Filled)
          → Fills x stream r
          → newpos + x ≤ new_size
          → Sized n whole (elim r as (λ _. Patched) [
            | filled part rest ↦ k part rest
            | failed ↦ corrupt
            | waits ↦ endless
          ])
      read (filled _ _) (is_filled part rest e l same) le = h part rest (omega arith) same
      read failed f le = is_corrupt
      read waits (is_waiting off) le = is_endless (λ v. let on = w v in cc)

  patch_loop-Sized :
      (fuel : ℕ) (old : Bytes) (s : Streams) (oldpos : ℤ) (new : Bytes)
      → length s.control.content < fuel
      → length new ≤ n
      → (whole
          → (s.control.broken_off ≡ false)
            × (s.diff.broken_off ≡ false)
            × (s.extra.broken_off ≡ false))
      → Sized n whole (patch_loop fuel old n s oldpos new)
  unfolding patch_loop
  patch_loop-Sized zero old s oldpos new f h w = absurd (omega arith)
  patch_loop-Sized (suc fuel) old s oldpos new f h w = elim (Bool-cases (leb n (length new))) [
    | inl full ↦ rw (full, patch_loop) (is_patched new (omega (arith, leb→le n (length new) full)))
    | inr more ↦
        rw (more, patch_loop)
          (round (λ s' oldpos' new' f' h' w'. patch_loop-Sized fuel old s' oldpos' new' f' h' w')
            (fill_buffer 24 s.control) (fill_buffer_lem 24 s.control))
  ]
    where
      round :
          ((s' : Streams) (oldpos' : ℤ) (new' : Bytes)
            → length s'.control.content < fuel
            → length new' ≤ n
            → (whole
                → (s'.control.broken_off ≡ false)
                  × (s'.diff.broken_off ≡ false)
                  × (s'.extra.broken_off ≡ false))
            → Sized n whole (patch_loop fuel old n s' oldpos' new'))
          → (r : Filled) → Fills 24 s.control r
          → Sized n whole (elim r as (λ _. Patched) [
            | failed ↦ corrupt
            | waits ↦ endless
            | filled buf control ↦ read_part (offtin buf) (length new) n s.diff (λ part diff.
                let new' = new ++ add_old old oldpos part in
                read_part (offtin (drop 8 buf)) (length new') n s.extra (λ more extra.
                  patch_loop fuel old n
                    (record { control = control; diff = diff; extra = extra })
                    (add_ℤ (add_ℤ oldpos (pos (length part))) (offtin (drop 16 buf)))
                    (new' ++ more)))
          ])
      round again failed c = is_corrupt
      round again waits (is_waiting off) = is_endless (λ v. let on = (w v).0 in cc)
      round again (filled _ _) (is_filled buf control e l same) =
          read_part-Sized (length new) n (offtin buf) s.diff _ (λ v. (w v).1)
            (λ part diff p d.
              let new' = new ++ add_old old oldpos part in
              read_part-Sized (length new') n (offtin (drop 8 buf)) s.extra _ (λ v. (w v).2)
                (λ more extra q x.
                  again (record { control = control; diff = diff; extra = extra })
                    (add_ℤ (add_ℤ oldpos (pos (length part))) (offtin (drop 16 buf))) (new' ++ more)
                    (omega arith) (omega (arith, length-append new' more))
                    (λ v. (same ∙ (w v).0, d ∙ (w v).1, x ∙ (w v).2))))

Sized-ends : {n : ℕ} {whole : Type 0} {r : Patched} → Sized n whole r → whole → r ≢ endless
Sized-ends (is_patched new e) w q = cc
Sized-ends is_corrupt w q = cc
Sized-ends is_fault w q = cc
Sized-ends (is_endless not_whole) w q = not_whole w

Sized-length :
    {n : ℕ} {whole : Type 0} {r : Patched} {new : Bytes}
    → Sized n whole r
    → r ≡ patched new
    → n ≡ length new
Sized-length (is_patched new e) q = let p : new ≡ _ = cc in sym e ∙ ap length p
Sized-length is_corrupt q = cc
Sized-length is_fault q = cc
Sized-length (is_endless not_whole) q = cc

module _ (decompress : Bytes → Stream) where
  -- None of the three compressed blocks, of these lengths, breaks off.
  abbrev pub AreWhole : Bytes → ℤ → ℤ → Type 0
  AreWhole body (pos ctrl_len) (pos data_len) =
      ((decompress (take ctrl_len body)).broken_off ≡ false)
      × ((decompress (take data_len (drop ctrl_len body))).broken_off ≡ false)
      × ((decompress (drop (ctrl_len + data_len) body)).broken_off ≡ false)
  AreWhole body (pos ctrl_len) (negsuc n) = Unit
  AreWhole body (negsuc n) data_len = Unit

  -- The same of a patch, by the lengths in its header.
  abbrev pub IsWhole : Bytes → Type 0
  IsWhole patch = AreWhole (drop 32 patch) (offtin (drop 8 patch)) (offtin (drop 16 patch))

  apply_streams-Sized :
      (old body : Bytes) (a b : ℤ) (n : ℕ)
      → Sized n (AreWhole body a b) (apply_streams decompress old body a b (pos n))
  unfolding apply_streams
  apply_streams-Sized old body (negsuc a) b n = is_corrupt
  apply_streams-Sized old body (pos a) (negsuc b) n = is_corrupt
  apply_streams-Sized old body (pos a) (pos b) n = elim (Bool-cases (ltb (length body) (a + b))) [
    | inl over ↦ rw over is_fault
    | inr fits ↦
        rw fits (patch_loop-Sized n _ _ old _ (pos 0) [] (omega arith) (omega arith) (λ w. w))
  ]

  -- The result for some size, the one in the header where new data is given.
  abbrev Sound : Type 0 → ℤ → Patched → Type 0
  Sound whole size r =
      (whole → r ≢ endless) × ((new : Bytes) → r ≡ patched new → size ≡ pos (length new))

  fault-Sound : (whole : Type 0) (size : ℤ) → Sound whole size fault
  fault-Sound whole size = (λ w e. cc, λ new e. cc)

  corrupt-Sound : (whole : Type 0) (size : ℤ) → Sound whole size corrupt
  corrupt-Sound whole size = (λ w e. cc, λ new e. cc)

  streams-Sound :
      (old body : Bytes) (a b size : ℤ)
      → Sound (AreWhole body a b) size (apply_streams decompress old body a b size)
  unfolding apply_streams
  streams-Sound old body a b (pos n) =
      let s = apply_streams-Sized old body a b n in
      (Sized-ends s, λ new e. ap pos (Sized-length s e))
  streams-Sound old body (pos a) (pos b) (negsuc n) = corrupt-Sound _ (negsuc n)
  streams-Sound old body (pos a) (negsuc b) (negsuc n) = corrupt-Sound _ (negsuc n)
  streams-Sound old body (negsuc a) b (negsuc n) = corrupt-Sound _ (negsuc n)

  if-Sound :
      (whole : Type 0) (size : ℤ) (b : Bool) (r r' : Patched)
      → Sound whole size r
      → Sound whole size r'
      → Sound whole size (if b then r else r')
  if-Sound whole size true r r' h k = h
  if-Sound whole size false r r' h k = k

  -- Applying a patch of which no compressed block breaks off before the end of its stream ends,
  -- whatever the data are that it is applied to and whatever else is wrong with it; and where new
  -- data are given, they have the size that the header of the patch gives.
  pub apply_patch_lem :
      (old patch : Bytes)
      → IsWhole patch
      → (apply_patch decompress old patch ≢ endless)
        × ((new : Bytes)
            → apply_patch decompress old patch ≡ patched new
            → offtin (drop 24 patch) ≡ pos (length new))
  unfolding apply_patch
  apply_patch_lem old patch w =
      let size = offtin (drop 24 patch) in
      let whole = IsWhole patch in
      let (ends, sized) = if-Sound whole size _ _ _ (fault-Sound whole size) (
        if-Sound whole size _ _ _ (corrupt-Sound whole size) (
          if-Sound whole size _ _ _ (fault-Sound whole size) (
            streams-Sound old (drop 32 patch) (offtin (drop 8 patch)) (offtin (drop 16 patch))
              size))) in
      (ends w, sized)
