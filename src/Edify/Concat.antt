-- ===== src/Edify/Concat.antt =====
-- edify/expr.c: the buffer of ConcatFn.
use mathlib.Core.List.{flatten}
use cot_bootable_recovery_to.Base.{
  ℕ, suc, ◌+◌, ◌≤◌, ◌≡◌, ◌∙◌, refl, List, [], ◌∷◌, ◌++◌, Bytes, append_assoc, append-nil, length,
  drop, replicate, length-append, length-replicate, length-drop, take-append, le→leb,
  drop_add-append, leb, true, arith,
}
use cot_bootable_recovery_to.Edify.Machine.{ok}
use cot_bootable_recovery_to.Edify.Builtins.{write_at, copy_strings, total_length, join_strings}

-- A write behind a prefix that is as long as the position, with room for it.
write_at-append :
    (done room text : Bytes)
    → length text ≤ length room
    → write_at (done ++ room) (length done) text ≡ ok (done ++ (text ++ drop (length text) room))
unfolding write_at
write_at-append done room text h =
    let fits : leb (length done + length text) (length (done ++ room)) ≡ true =
      le→leb _ _ (omega (arith, length-append done room)) in
    rw (fits, take-append done room, drop_add-append done room (length text))

-- The write leaves the string in place and its NUL in front of the room that is left.
write_at-string :
    (done room s : Bytes)
    → suc (length s) ≤ length room
    → write_at (done ++ room) (length done) (s ++ (0 ∷ []))
      ≡ ok ((done ++ s) ++ (0 ∷ drop (suc (length s)) room))
write_at-string done room s h =
    let n : length (s ++ (0 ∷ [])) ≡ suc (length s) = omega (arith, length-append s (0 ∷ [])) in
    write_at-append done room (s ++ (0 ∷ [])) (omega arith)
    ∙ rw (n, append_assoc s, ← append_assoc done)

copy_strings_lem :
    (strings : List Bytes) (done room : Bytes) (p : ℕ)
    → p ≡ length done
    → suc (total_length strings) ≤ length room
    → copy_strings (done ++ room) p strings ≡ ok (done ++ flatten strings)
unfolding copy_strings flatten
copy_strings_lem [] done room p e h =
    rw (e, write_at-append done room (0 ∷ []) (omega arith), copy_strings)
      (rw (e, take-append done, append-nil done))
copy_strings_lem (s ∷ strings) done room p e h =
    rw (e, write_at-string done room s (omega arith), copy_strings)
      (copy_strings_lem strings (done ++ s) (0 ∷ drop (suc (length s)) room) (p + length s)
          (omega (arith, length-append done s)) (omega (arith, length-drop (suc (length s)) room))
        ∙ rw (append_assoc done s))

-- The strings that ConcatFn read are joined in order, and no write leaves the buffer.
pub join_strings_lem : (strings : List Bytes) → join_strings strings ≡ ok (flatten strings)
unfolding join_strings
join_strings_lem strings =
    copy_strings_lem strings [] (replicate (total_length strings + 1) 0) 0 refl
      (omega (arith, length-replicate {A = ℕ} (total_length strings + 1) 0))
