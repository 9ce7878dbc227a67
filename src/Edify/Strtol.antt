-- ===== src/Edify/Strtol.antt =====
-- The C library's strtol in base 10, as edify/expr.c calls it, for the 32-bit `long` of the device.
use cot_bootable_recovery_to.Base.{
  ℕ, ◌+◌, ◌-◌, ◌*◌, Bool, true, false, ◌&&◌, ◌||◌, [], ◌∷◌, Bytes, Option, none, some, leb, ◌==◌,
  if◌then◌else◌,
}
use cot_bootable_recovery_to.Base.Int.{ℤ, pos, negsuc}

unfoldable pub is_space : ℕ → Bool
is_space c = c == 32 || (leb 9 c && leb c 13)

unfoldable pub is_digit : ℕ → Bool
is_digit c = leb b'0' c && leb c b'9'

unfoldable pub skip_spaces : Bytes → Bytes
skip_spaces [] = []
skip_spaces (c ∷ cs) = if is_space c then skip_spaces cs else c ∷ cs

-- The value of the leading digits, on top of `acc`, and what follows them.
unfoldable pub read_digits : ℕ → Bytes → ℕ × Bytes
read_digits acc [] = (acc, [])
read_digits acc (c ∷ cs) =
    let rest = read_digits (acc * 10 + (c - b'0')) cs in if is_digit c then rest else (acc, c ∷ cs)

-- LONG_MAX.
abbrev pub long_max : ℕ
long_max = 2147483647

unfoldable pub saturate : Bool → ℕ → ℤ
saturate false n = if leb n long_max then pos n else pos long_max
saturate true n =
    if n == 0 then pos 0 else if leb n (long_max + 1) then negsuc (n - 1) else negsuc long_max

-- The digits after an optional sign; `none` if there is none.
unfoldable pub read_number : Bool → Bytes → Option (ℤ × Bytes)
read_number neg [] = none
read_number neg (c ∷ cs) =
    let found : Option (ℤ × Bytes) =
      (let (n, rest) = read_digits 0 (c ∷ cs) in some (saturate neg n, rest)) in
    if is_digit c then found else none

unfoldable pub read_signed : Bytes → Option (ℤ × Bytes)
read_signed [] = none
read_signed (c ∷ cs) =
    if c == b'-'
    then read_number true cs
    else if c == b'+'
    then read_number false cs
    else read_number false (c ∷ cs)

-- The value and what `*end` points to; with no digits the value is 0 and `*end` the whole text.
unfoldable pub strtol : Bytes → ℤ × Bytes
strtol text = elim (read_signed (skip_spaces text)) [ some r ↦ r | none ↦ (pos 0, text) ]
