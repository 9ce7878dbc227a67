-- ===== src/Edify/Decimal.antt =====
-- less_than_int and greater_than_int on the decimal spelling of integers.
use cot_bootable_recovery_to.Base.{
  ℕ, zero, suc, ◌+◌, ◌-◌, ◌*◌, ◌/◌, ◌%◌, ◌≤◌, ◌<◌, ◌≡◌, refl, ap, ◌∙◌, [], ◌∷◌, Bytes, Bool, true,
  false, some, ltb, leb, ◌==◌, if◌then◌else◌, Bool-cases, inl, inr, arith, le→leb, ltb→lt,
}
use cot_bootable_recovery_to.Base.Int.{ℤ, pos, negsuc, lt_ℤ}
use cot_bootable_recovery_to.Edify.Machine.{ok, State}
use cot_bootable_recovery_to.Edify.Args.{read_args}
use cot_bootable_recovery_to.Edify.Strtol.{
  is_space, is_digit, skip_spaces, read_digits, saturate, read_number, read_signed, strtol,
  long_max,
}
use cot_bootable_recovery_to.Edify.Builtins.{
  compare_ints, parse_int, less_than_text, less_than_int_fn, greater_than_int_fn, literal, truth,
}
use cot_bootable_recovery_to.Edify.Expr.{Expr, node, nil, cons, eval, build}

-- The decimal digits of `n` in front of `tail`; `fuel` above `n` is enough.
unfoldable pub show_digits : ℕ → ℕ → Bytes → Bytes
show_digits zero n tail = tail
show_digits (suc fuel) n tail =
    let longer = show_digits fuel (n / 10) ((48 + n % 10) ∷ tail) in
    if ltb n 10 then (48 + n) ∷ tail else longer

unfoldable pub show_ℕ : ℕ → Bytes
unfolding show_digits
show_ℕ n = show_digits (suc n) n []

unfoldable pub show_ℤ : ℤ → Bytes
show_ℤ (pos n) = show_ℕ n
show_ℤ (negsuc n) = b'-' ∷ show_ℕ (suc n)

-- What a 32-bit `long` holds.
abbrev pub IsLong : ℤ → Type 0
IsLong (pos n) = n ≤ long_max
IsLong (negsuc n) = n ≤ long_max

read_digit :
    (acc d : ℕ) (tail : Bytes)
    → d < 10
    → read_digits acc ((48 + d) ∷ tail) ≡ read_digits (acc * 10 + d) tail
unfolding read_digits is_digit
read_digit acc d tail h =
    let lo : leb 48 (48 + d) ≡ true = le→leb _ _ (omega arith) in
    let hi : leb (48 + d) 57 ≡ true = le→leb _ _ (omega arith) in
    rw (lo, hi) (ap (λ k. read_digits (acc * 10 + k) tail) (omega arith))

read-show_digits :
    (fuel n : ℕ) (tail : Bytes)
    → n < fuel
    → read_digits 0 (show_digits fuel n tail) ≡ read_digits n tail
unfolding show_digits
read-show_digits zero n tail h = absurd (omega arith)
read-show_digits (suc fuel) n tail h = elim (Bool-cases (ltb n 10)) [
  | inl small ↦
      rw small
        (read_digit 0 n tail (ltb→lt n 10 small) ∙ ap (λ k. read_digits k tail) (omega arith))
  | inr large ↦ rw large (
      read-show_digits fuel (n / 10) ((48 + n % 10) ∷ tail) (ground arith)
      ∙ read_digit (n / 10) (n % 10) tail (omega arith)
      ∙ ap (λ k. read_digits k tail) (omega arith))
]

read_digits-nil : (n : ℕ) → read_digits n [] ≡ (n, [])
unfolding read_digits
read_digits-nil n = refl

-- The first byte of a spelling is a digit.
show_digits-head :
    (fuel n : ℕ) (tail : Bytes)
    → n < fuel
    → (c : ℕ) × (rest : Bytes) × (show_digits fuel n tail ≡ c ∷ rest) × (is_digit c ≡ true)
unfolding show_digits is_digit
show_digits-head zero n tail h = absurd (omega arith)
show_digits-head (suc fuel) n tail h = elim (Bool-cases (ltb n 10)) [
  | inl small ↦
      let small' : n < 10 = ltb→lt n 10 small in (48 + n, tail, rw small refl, ground arith)
  | inr large ↦ rw large (show_digits-head fuel (n / 10) ((48 + n % 10) ∷ tail) (ground arith))
]

record Spelling (n : ℕ) (text : Bytes) : Type 0 where
  head : ℕ
  rest : Bytes
  shape : text ≡ head ∷ rest
  digit : is_digit head ≡ true
  value : read_digits 0 (head ∷ rest) ≡ (n, [])

show_ℕ-Spelling : (n : ℕ) → Spelling n (show_ℕ n)
unfolding show_ℕ
show_ℕ-Spelling n =
    let (c, rest, e, d) = show_digits-head (suc n) n [] (omega arith) in
    record {
      head = c;
      rest = rest;
      shape = e;
      digit = d;
      value = rw (← e) (read-show_digits (suc n) n [] (omega arith) ∙ read_digits-nil n);
    }

read_number-show :
    (neg : Bool) (n : ℕ) (text : Bytes)
    → Spelling n text
    → read_number neg text ≡ some (saturate neg n, [])
unfolding read_number
read_number-show neg n text s = rw (s.shape, s.digit, s.value)

-- A digit is no white space and no sign.
digit-tests :
    (c : ℕ)
    → is_digit c ≡ true
    → (is_space c ≡ false) × ((c == b'-') ≡ false) × ((c == b'+') ≡ false)
unfolding is_digit is_space
digit-tests c h = (ground arith, ground arith, ground arith)

strtol-Spelling : (n : ℕ) (text : Bytes) → Spelling n text → strtol text ≡ (saturate false n, [])
unfolding strtol skip_spaces read_signed
strtol-Spelling n text s =
    let (space, minus, plus) = digit-tests s.head s.digit in
    let e : read_number false (s.head ∷ s.rest) ≡ some (saturate false n, []) =
      rw s.shape at (read_number-show false n text s) in
    rw (s.shape, space, minus, plus, e, strtol)

strtol-minus : (n : ℕ) (text : Bytes) → Spelling n text → strtol (45 ∷ text) ≡ (saturate true n, [])
unfolding strtol skip_spaces is_space read_signed
strtol-minus n text s = rw (read_number-show true n text s, strtol)

saturate-neg : (n : ℕ) → n ≤ long_max → saturate true (suc n) ≡ negsuc n
unfolding saturate
saturate-neg n h =
    let small : leb (suc n) (long_max + 1) ≡ true = le→leb _ _ (omega arith) in
    let pred : suc n - 1 ≡ n = omega arith in rw (small, pred) (ground arith)

-- strtol reads back the spelling of every long, to its end.
strtol-show : (a : ℤ) → IsLong a → strtol (show_ℤ a) ≡ (a, [])
unfolding show_ℤ saturate
strtol-show (pos n) h = strtol-Spelling n (show_ℕ n) (show_ℕ-Spelling n) ∙ rw (le→leb n long_max h)
strtol-show (negsuc n) h =
    strtol-minus (suc n) (show_ℕ (suc n)) (show_ℕ-Spelling (suc n)) ∙ rw (saturate-neg n h)

parse_int-cons :
    (c : ℕ) (cs : Bytes) (a : ℤ) → strtol (c ∷ cs) ≡ (a, []) → parse_int (c ∷ cs) ≡ some a
unfolding parse_int
parse_int-cons c cs a h = ground arith

parse_int-show : (a : ℤ) → IsLong a → parse_int (show_ℤ a) ≡ some a
unfolding show_ℤ
parse_int-show (pos n) h =
    let s = show_ℕ-Spelling n in
    let e : strtol (s.head ∷ s.rest) ≡ (pos n, []) = rw s.shape at (strtol-show (pos n) h) in
    rw s.shape (parse_int-cons s.head s.rest (pos n) e)
parse_int-show (negsuc n) h =
    parse_int-cons 45 (show_ℕ (suc n)) (negsuc n) (strtol-show (negsuc n) h)

less_than_text-show :
    (a b : ℤ) → IsLong a → IsLong b → less_than_text (show_ℤ a) (show_ℤ b) ≡ lt_ℤ a b
unfolding less_than_text
less_than_text-show a b h k =
    rw (parse_int-show a h, less_than_text) (rw (parse_int-show b k, less_than_text))

-- A literal of a script.
abbrev pub spelled : {C : Type 0} → ℤ → Expr C
spelled a = node literal (show_ℤ a) nil 0 0

-- On the decimal spellings of two 32-bit integers `less_than_int` answers "t" exactly if the first
-- is less, `greater_than_int` exactly if the second is, and else "", and the state is unchanged.
pub less_than_int_lem :
    {C : Type 0} (a b : ℤ) (loc : ℕ × ℕ) (s : State C)
    → IsLong a
    → IsLong b
    → (eval (build less_than_int_fn loc (cons (spelled a) (cons (spelled b) nil))) s
        ≡ (ok (truth (lt_ℤ a b)), s))
      × (eval (build greater_than_int_fn loc (cons (spelled a) (cons (spelled b) nil))) s
          ≡ (ok (truth (lt_ℤ b a)), s))
unfolding eval build less_than_int_fn greater_than_int_fn literal read_args compare_ints
less_than_int_lem a b loc s h k =
    (rw (less_than_text-show a b h k), rw (less_than_text-show b a k h))
