-- ===== src/Applypatch/Spelled.antt =====
-- applypatch/applypatch.c: digests in hexadecimal, and the search of FindMatchingPatch for one.
use cot_bootable_recovery_to.Base.{
  ℕ, ◌+◌, ◌*◌, ◌≤◌, ◌<◌, ◌≡◌, ◌⊎◌, List, [], ◌∷◌, Option, none, some, Bytes, length, get_elem?,
}

-- A hexadecimal digit of a value, in lower or in upper case.
abbrev IsDigit : ℕ → ℕ → Type 0
IsDigit v c = ((v < 10) × (c ≡ 48 + v)) ⊎ ((10 ≤ v) × (v < 16) × ((c ≡ 87 + v) ⊎ (c ≡ 55 + v)))

-- A text that spells bytes by two digits each, and nothing more.
abbrev pub Spells : Bytes → Bytes → Type 0
Spells [] text = text ≡ []
Spells (x ∷ xs) [] = ⊥
Spells (x ∷ xs) (a ∷ []) = ⊥
Spells (x ∷ xs) (a ∷ b ∷ text) =
    ((h : ℕ) × (l : ℕ) × IsDigit h a × IsDigit l b × (x ≡ h * 16 + l)) × Spells xs text

-- The text of a digest: 40 digits for its 20 bytes.
abbrev pub IsText : Bytes → Bytes → Type 0
IsText digest text = (length digest ≡ 20) × Spells digest text

-- What a search for a digest gives: the first patch whose text is this digest, or none if no patch
-- has such a text.
pub data FirstText (sha1 : Bytes) (digests : List Bytes) : Option ℕ → Type 0 where
  is_first :
      (i : ℕ) (s : Bytes)
      → get_elem? digests i ≡ some s
      → IsText sha1 s
      → ((j : ℕ) (t : Bytes) → j < i → get_elem? digests j ≡ some t → ¬ IsText sha1 t)
      → FirstText sha1 digests (some i)
  is_nowhere :
      ((j : ℕ) (t : Bytes) → get_elem? digests j ≡ some t → ¬ IsText sha1 t)
      → FirstText sha1 digests none
