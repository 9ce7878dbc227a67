-- ===== src/Minzip/Hash/Round.antt =====
-- minzip/Hash.c: the sizes that roundUpPower2 gives.
use Prim.Native.Nat.{max, digits}
use cot_bootable_recovery_to.Base.{ℕ}

abbrev or_digits : ℕ → ℕ → ℕ → ℕ
or_digits n a b = digits (λ b. b) max n a b
