-- ===== src/Text/Equality.antt =====
-- The test `=ᵗ` decides equality of texts.
use bc_abe.Common.{Bool, true, ◌&&◌, ◌≡◌, refl, [], ◌∷◌, arith, ==→≡}
use mathlib.Core.Path.{ap₂}
use bc_abe.Text.Defs.{Text, ◌=ᵗ◌}

and_cases : {a b : Bool} → (a && b) ≡ true → (a ≡ true) × (b ≡ true)
and_cases {a} {b} h = ground arith

pub =ᵗ→≡ : (s t : Text) → (s =ᵗ t) ≡ true → s ≡ t
=ᵗ→≡ [] [] h = refl
=ᵗ→≡ [] (d ∷ t) h = cc
=ᵗ→≡ (c ∷ s) [] h = cc
=ᵗ→≡ (c ∷ s) (d ∷ t) h = let (e, r) = and_cases h in ap₂ ◌∷◌ (==→≡ c d e) (=ᵗ→≡ s t r)

pub =ᵗ_self : (s : Text) → (s =ᵗ s) ≡ true
=ᵗ_self [] = refl
=ᵗ_self (c ∷ s) = ground (arith, =ᵗ_self s)
