-- ===== src/Base/Strcmp.antt =====
-- The C library's strcmp as an order on strings.
use Prim.Native.Nat.{compare, Ordering}
use cot_bootable_recovery_to.Base.{◌≡◌, refl, [], ◌∷◌, Bytes, arith}

-- The sign of `strcmp(a, b)`.
unfoldable pub strcmp : Bytes → Bytes → Ordering
strcmp [] [] = Ordering.eq
strcmp [] (y ∷ ys) = Ordering.lt
strcmp (x ∷ xs) [] = Ordering.gt
strcmp (x ∷ xs) (y ∷ ys) =
    let rest = strcmp xs ys in
    elim (compare x y) [
      | Ordering.lt ↦ Ordering.lt
      | Ordering.gt ↦ Ordering.gt
      | Ordering.eq ↦ rest
    ]

pub strcmp_refl : (a : Bytes) → strcmp a a ≡ Ordering.eq
unfolding strcmp
strcmp_refl [] = refl
strcmp_refl (x ∷ xs) = ground (arith, strcmp_refl xs)

pub strcmp→eq : (a b : Bytes) → strcmp a b ≡ Ordering.eq → a ≡ b
unfolding strcmp
strcmp→eq [] [] h = refl
strcmp→eq [] (y ∷ ys) h = cc
strcmp→eq (x ∷ xs) [] h = cc
strcmp→eq (x ∷ xs) (y ∷ ys) h = ground (arith, strcmp→eq xs ys)

pub strcmp_swap : (a b : Bytes) → strcmp a b ≡ Ordering.gt → strcmp b a ≡ Ordering.lt
unfolding strcmp
strcmp_swap [] [] h = cc
strcmp_swap [] (y ∷ ys) h = cc
strcmp_swap (x ∷ xs) [] h = refl
strcmp_swap (x ∷ xs) (y ∷ ys) h = ground (arith, strcmp_swap xs ys)

pub strcmp_trans :
    (a b c : Bytes) → strcmp a b ≡ Ordering.lt → strcmp b c ≡ Ordering.lt → strcmp a c ≡ Ordering.lt
unfolding strcmp
strcmp_trans [] [] c h k = cc
strcmp_trans [] (y ∷ ys) [] h k = cc
strcmp_trans [] (y ∷ ys) (z ∷ zs) h k = refl
strcmp_trans (x ∷ xs) [] c h k = cc
strcmp_trans (x ∷ xs) (y ∷ ys) [] h k = cc
strcmp_trans (x ∷ xs) (y ∷ ys) (z ∷ zs) h k = ground (arith, strcmp_trans xs ys zs)
