-- ===== src/Common/Cases.antt =====
-- The cases of a computed option or list, as equations.
use mathlib.Core.Path.{◌≡◌, refl}
use mathlib.Core.Logic.{◌⊎◌, inl, inr}
use mathlib.Core.Option.{Option, none, some}
use mathlib.Core.List.{List, [], ◌∷◌}

pub option_cases {ℓ} : {A : Type ℓ} (x : Option A) → (x ≡ none) ⊎ ((a : A) × (x ≡ some a))
option_cases none = inl refl
option_cases (some a) = inr (a, refl)

pub list_cases {ℓ} : {A : Type ℓ} (x : List A) → (x ≡ []) ⊎ ((a : A) × (xs : List A) × (x ≡ a ∷ xs))
list_cases [] = inl refl
list_cases (a ∷ xs) = inr (a, xs, refl)

pub some-injective : {A : Type 0} (a b : A) → some a ≡ some b → a ≡ b
some-injective a b h = cc

pub none-ne-some : {A : Type 0} (a : A) → none ≡ some a → ⊥
none-ne-some a h = cc
