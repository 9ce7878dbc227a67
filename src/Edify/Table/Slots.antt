-- ===== src/Edify/Table/Slots.antt =====
-- Arrays of which the first slots are initialised.
use cot_bootable_recovery_to.Base.{
  ℕ, zero, suc, ◌<◌, ◌≡◌, refl, ap, List, [], ◌∷◌, ◌++◌, map, Option, none, some, length, take, set,
  arith,
}

-- The entries of the initialised slots.
unfoldable pub written {ℓ} : {A : Type ℓ} → List (Option A) → List A
written [] = []
written (none ∷ slots) = written slots
written (some e ∷ slots) = e ∷ written slots

-- The first `n` slots hold entries.
abbrev pub IsFilled {ℓ} : {A : Type ℓ} → ℕ → List (Option A) → Type 0
IsFilled zero slots = Unit
IsFilled (suc n) [] = ⊥
IsFilled (suc n) (none ∷ slots) = ⊥
IsFilled (suc n) (some e ∷ slots) = IsFilled n slots

module _ {ℓ} {A : Type ℓ} where
  pub IsFilled-append :
      (n : ℕ) (slots more : List (Option A)) → IsFilled n slots → IsFilled n (slots ++ more)
  IsFilled-append zero slots more h = tt
  IsFilled-append (suc n) [] more h = absurd h
  IsFilled-append (suc n) (none ∷ slots) more h = absurd h
  IsFilled-append (suc n) (some e ∷ slots) more h = IsFilled-append n slots more h

  pub take-append_filled :
      (n : ℕ) (slots more : List (Option A))
      → IsFilled n slots
      → take n (slots ++ more) ≡ take n slots
  take-append_filled zero slots more h = refl
  take-append_filled (suc n) [] more h = absurd h
  take-append_filled (suc n) (none ∷ slots) more h = absurd h
  take-append_filled (suc n) (some e ∷ slots) more h =
      ap (λ (l : List (Option A)). some e ∷ l) (take-append_filled n slots more h)

  -- A write to the first free slot.
  pub set-IsFilled :
      (n : ℕ) (slots : List (Option A)) (e : A)
      → IsFilled n slots
      → n < length slots
      → IsFilled (suc n) (set slots n (some e))
  set-IsFilled zero [] e h l = absurd (omega arith)
  set-IsFilled zero (o ∷ slots) e h l = tt
  set-IsFilled (suc n) [] e h l = absurd h
  set-IsFilled (suc n) (none ∷ slots) e h l = absurd h
  set-IsFilled (suc n) (some d ∷ slots) e h l = set-IsFilled n slots e h (omega arith)

  pub written-set :
      (n : ℕ) (slots : List (Option A)) (e : A)
      → IsFilled n slots
      → n < length slots
      → written (take (suc n) (set slots n (some e))) ≡ written (take n slots) ++ (e ∷ [])
  unfolding written
  written-set zero [] e h l = absurd (omega arith)
  written-set zero (o ∷ slots) e h l = refl
  written-set (suc n) [] e h l = absurd h
  written-set (suc n) (none ∷ slots) e h l = absurd h
  written-set (suc n) (some d ∷ slots) e h l =
      ap (λ (r : List A). d ∷ r) (written-set n slots e h (omega arith))

  pub length-written :
      (n : ℕ) (slots : List (Option A)) → IsFilled n slots → length (written (take n slots)) ≡ n
  unfolding written
  length-written zero slots h = refl
  length-written (suc n) [] h = absurd h
  length-written (suc n) (none ∷ slots) h = absurd h
  length-written (suc n) (some d ∷ slots) h = ap suc (length-written n slots h)

  pub map-IsFilled :
      (es : List A) (more : List (Option A)) → IsFilled (length es) (map Option.some es ++ more)
  map-IsFilled [] more = tt
  map-IsFilled (e ∷ es) more = map-IsFilled es more

  pub written-map :
      (es : List A) (more : List (Option A))
      → written (take (length es) (map Option.some es ++ more)) ≡ es
  unfolding written
  written-map [] more = refl
  written-map (e ∷ es) more = ap (λ (r : List A). e ∷ r) (written-map es more)
