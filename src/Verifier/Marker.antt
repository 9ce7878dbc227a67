-- ===== src/Verifier/Marker.antt =====
-- The search for a second marker of the end-of-central-directory record.
use cot_bootable_recovery_to.Base.{
  refl, ℕ, zero, suc, ◌+◌, ◌-◌, ◌≤◌, ◌<◌, ◌≡◌, ◌↔◌, Bytes, false, length, arith,
}
use native.Mathlib.Decide.{ℕ_discrete}
use cot_bootable_recovery_to.Verifier.Model.{marker_at, marker_from, marker_again}

abbrev pub NoMarker : ℕ → ℕ → Bytes → Type 0
NoMarker first end eocd = (i : ℕ) → first ≤ i → i < end → marker_at eocd i ≡ false

marker_from_none :
    (rounds first : ℕ) (eocd : Bytes)
    → marker_from rounds first eocd ≡ false
    → NoMarker first (first + rounds) eocd
unfolding marker_from
marker_from_none zero first eocd h i lo hi = absurd (omega arith)
marker_from_none (suc rounds) first eocd h i lo hi = elim (ℕ_discrete i first) [
  | yes e ↦ rw e (ground arith)
  | no ne ↦ marker_from_none rounds (first + 1) eocd (ground arith) i (omega arith) (omega arith)
]

marker_from_of_none :
    (rounds first : ℕ) (eocd : Bytes)
    → NoMarker first (first + rounds) eocd
    → marker_from rounds first eocd ≡ false
unfolding marker_from
marker_from_of_none zero first eocd h = refl
marker_from_of_none (suc rounds) first eocd h = ground (
  arith,
  h first,
  marker_from_of_none rounds (first + 1) eocd (λ i lo hi. h i (omega arith) (omega arith)),
)

-- The loop finds no marker exactly if there is none at the offsets from 4 to three bytes before
-- the end of the record.
pub marker_again_iff :
    (eocd : Bytes) → marker_again eocd ≡ false ↔ NoMarker 4 (length eocd - 3) eocd
unfolding marker_again
marker_again_iff eocd = (
  λ h i lo hi. marker_from_none (length eocd - 3 - 4) 4 eocd h i lo (omega arith),
  λ h. marker_from_of_none (length eocd - 3 - 4) 4 eocd (λ i lo hi. h i lo (omega arith)),
)
