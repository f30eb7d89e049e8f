-- ===== src/Policy/Compare.antt =====
-- abe/policy.go: `ValidateNumericCompare` against `NumericCompareSatisfied`.
use bc_abe.Common.{
  ℕ, ◌-◌, ◌≤◌, true, false, ◌≡◌, refl, subst, ◌∙◌, arith, inl, inr, ◌⊎◌, Bool-cases, none, ltb, leb,
  ◌==◌,
}
use bc_abe.Text.{Text, codes, trim_space}
use bc_abe.Text.Equality.{=ᵗ→≡}
use bc_abe.Policy.Clause.{numeric_compare_satisfied, validate_numeric_compare, max_value}

-- What an accepted operator and value can be.
abbrev Accepted : Text → ℕ → Type 0
Accepted op value =
    (((op ≡ codes ">=") ⊎ (op ≡ codes "<")) × (1 ≤ value))
    ⊎ ((op ≡ codes "==") ⊎ (op ≡ codes "<="))
    ⊎ (op ≡ codes ">")

Accepted-cases :
    (attr op : Text) (value : ℕ)
    → validate_numeric_compare attr op value ≡ none
    → (value ≤ max_value (trim_space attr)) × Accepted (trim_space op) value
unfolding validate_numeric_compare
Accepted-cases attr op value h = ground (
  arith,
  =ᵗ→≡ (trim_space op) (codes ">="),
  =ᵗ→≡ (trim_space op) (codes "<"),
  =ᵗ→≡ (trim_space op) (codes "=="),
  =ᵗ→≡ (trim_space op) (codes "<="),
  =ᵗ→≡ (trim_space op) (codes ">"),
)

-- The test at each operator, as a test of numbers.
compare_eq : (u value : ℕ) → numeric_compare_satisfied u (codes "==") value ≡ (u == value)
unfolding numeric_compare_satisfied
compare_eq u value = refl

compare_gt : (u value : ℕ) → numeric_compare_satisfied u (codes ">") value ≡ ltb value u
unfolding numeric_compare_satisfied
compare_gt u value = refl

compare_ge : (u value : ℕ) → numeric_compare_satisfied u (codes ">=") value ≡ leb value u
unfolding numeric_compare_satisfied
compare_ge u value = refl

compare_lt : (u value : ℕ) → numeric_compare_satisfied u (codes "<") value ≡ ltb u value
unfolding numeric_compare_satisfied
compare_lt u value = refl

compare_le : (u value : ℕ) → numeric_compare_satisfied u (codes "<=") value ≡ leb u value
unfolding numeric_compare_satisfied
compare_le u value = refl

-- A user value in the range `0` to `m` that meets the comparison.
abbrev pub Satisfiable : ℕ → Text → ℕ → Type 0
Satisfiable m op value = (u : ℕ) × (u ≤ m) × (numeric_compare_satisfied u op value ≡ true)

-- No user value in that range meets it.
abbrev pub Unsatisfiable : ℕ → Text → ℕ → Type 0
Unsatisfiable m op value = (u : ℕ) → u ≤ m → numeric_compare_satisfied u op value ≡ false

Satisfiable-cases :
    (m : ℕ) (op : Text) (value : ℕ)
    → value ≤ m
    → Accepted op value
    → Satisfiable m op value ⊎ ((op ≡ codes ">") × (value ≡ m) × Unsatisfiable m op value)
Satisfiable-cases m op value le (inl (inl e, pos)) =
    inl (value, le, rw e (compare_ge value value ∙ ground arith))
Satisfiable-cases m op value le (inl (inr e, pos)) =
    inl (value - 1, omega arith, rw e (compare_lt (value - 1) value ∙ ground arith))
Satisfiable-cases m op value le (inr (inl (inl e))) =
    inl (value, le, rw e (compare_eq value value ∙ ground arith))
Satisfiable-cases m op value le (inr (inl (inr e))) =
    inl (value, le, rw e (compare_le value value ∙ ground arith))
Satisfiable-cases m op value le (inr (inr e)) = elim (Bool-cases (ltb value m)) [
  | inl lt ↦ inl (m, omega arith, rw e (compare_gt m value ∙ lt))
  | inr ge ↦ inr (e, ground arith, λ u h. rw e (compare_gt u value ∙ ground arith))
]

-- Of a comparison that `ValidateNumericCompare` accepts, with no spaces round its operator: some
-- user value in the attribute's range meets it, unless the operator is `>` and the value is the
-- greatest of the range; such a comparison is accepted too, and no value in the range meets it.
pub validate-Satisfiable :
    (attr op : Text) (value : ℕ)
    → trim_space op ≡ op
    → validate_numeric_compare attr op value ≡ none
    → Satisfiable (max_value (trim_space attr)) op value
      ⊎ ((op ≡ codes ">")
          × (value ≡ max_value (trim_space attr))
          × Unsatisfiable (max_value (trim_space attr)) op value)
validate-Satisfiable attr op value e h =
    let (le, accepted) = Accepted-cases attr op value h in
    Satisfiable-cases (max_value (trim_space attr)) op value le
      (subst (λ o. Accepted o value) e accepted)
