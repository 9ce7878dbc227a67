-- ===== src/Edify/Tests.antt =====
-- Evaluations at fixed inputs.
use cot_bootable_recovery_to.Base.{ℕ, ◌≡◌, refl, none, List, [], codes}
use cot_bootable_recovery_to.Base.Int.{pos, negsuc, lt_ℤ}
use cot_bootable_recovery_to.Edify.Machine.{string, ok, State}
use cot_bootable_recovery_to.Edify.Strtol.{
  strtol, skip_spaces, is_space, read_signed, read_number, read_digits, is_digit, saturate,
}
use cot_bootable_recovery_to.Edify.Args.{read_args}
use cot_bootable_recovery_to.Edify.Builtins.{
  concat_fn, less_than_int_fn, compare_ints, less_than_text, parse_int, literal,
}
use cot_bootable_recovery_to.Edify.Expr.{Expr, node, nil, cons, eval, build}

strtol_signed : strtol (codes "  -12x") ≡ (negsuc 11, codes "x")
unfolding strtol skip_spaces is_space read_signed read_number read_digits is_digit saturate
strtol_signed = refl

strtol_saturates : strtol (codes "99999999999") ≡ (pos 2147483647, [])
unfolding strtol skip_spaces is_space read_signed read_number read_digits is_digit saturate
strtol_saturates = refl

abbrev start : State ℕ
start = record { cookie = 0; script = codes "a + b"; errmsg = none; out = []; slept = [] }

abbrev word : List ℕ → Expr ℕ
word text = node literal text nil 0 1

concat_runs :
    eval (build concat_fn (0, 5) (cons (word (codes "ab")) (cons (word (codes "c")) nil))) start
    ≡ (ok (string (codes "abc")), start)
unfolding eval concat_fn literal build
concat_runs = refl

less_runs :
    eval
      (build less_than_int_fn (0, 5) (cons (word (codes "-7")) (cons (word (codes "5")) nil)))
      start
    ≡ (ok (string (codes "t")), start)
unfolding eval less_than_int_fn read_args compare_ints less_than_text parse_int lt_ℤ literal build
    strtol skip_spaces is_space read_signed read_number read_digits is_digit saturate
less_runs = refl
