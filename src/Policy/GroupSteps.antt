-- ===== src/Policy/GroupSteps.antt =====
-- `splitPolicyParts` of abe/policy.go satisfies its own equation: it calls itself on the parts of
-- its first group, which are shorter than the policy.
use bc_abe.Common.{
  ℕ, ◌+◌, ◌≤◌, ◌<◌, false, ◌≡◌, refl, List, [], ◌∷◌, ◌++◌, arith, length, length-append, inl, inr,
  Bool-cases, All, All-map, Option, none, some, is_empty,
}
use bc_abe.Common.Measure.{measured_lem, IsLocal}
use bc_abe.Text.{Text, trim_space}
use bc_abe.Text.Trim.{length-trim_space}
use bc_abe.Policy.Lengths.{split-le}
use bc_abe.Policy.Scan.{ℤ, pos, inc, dec, split_at_top_level_joins}
use bc_abe.Policy.Leaves.{
  first_group, split_each, split_top_level, tail_text, split_parts_body, split_policy_parts,
}

length-first_group :
    (d : ℤ) (cur s group : Text)
    → first_group d cur s ≡ some group
    → length group ≤ length cur + length s
unfolding first_group
length-first_group d cur [] group h = cc
length-first_group d cur (c ∷ s) group h = ground (
  arith,
  length-append cur (c ∷ []),
  length-first_group (inc d) (cur ++ c ∷ []) s group,
  length-first_group (dec d) (cur ++ c ∷ []) s group,
  length-first_group d (cur ++ c ∷ []) s group,
)

split_each-congr :
    (f g : Text → Option (List Text)) (ts : List Text)
    → All (λ t. f t ≡ g t) ts
    → split_each f ts ≡ split_each g ts
unfolding split_each
split_each-congr f g [] h = refl
split_each-congr f g (t ∷ ts) (e, h) = rw (e, split_each-congr f g ts h)

split_top_level-congr :
    (f g : Text → Option (List Text)) (n : ℕ) (group : Option Text)
    → ((b : Text) → group ≡ some b → length b < n)
    → ((t : Text) → length t < n → f t ≡ g t)
    → split_top_level f group ≡ split_top_level g group
unfolding split_top_level
split_top_level-congr f g n none small h = refl
split_top_level-congr f g n (some b) small h = split_each-congr f g _ (
    All-map (split_at_top_level_joins (trim_space b)).0
      (λ t lt. h t (omega (arith, small b refl, length-trim_space b))) (split-le (trim_space b)))

length-tail_text : (s : Text) → is_empty s ≡ false → length (tail_text s) < length s
unfolding tail_text
length-tail_text [] h = cc
length-tail_text (c ∷ s) h = omega arith

split_parts_body-IsLocal : IsLocal split_parts_body
unfolding split_parts_body
split_parts_body-IsLocal f g s h = elim (Bool-cases (is_empty (trim_space s))) [
  | inl e ↦ rw e
  | inr n ↦ rw (
    n,
    split_top_level-congr f g (length s) (first_group (pos 1) [] (tail_text (trim_space s)))
        (λ b e. omega (
          arith,
          length-first_group (pos 1) [] (tail_text (trim_space s)) b e,
          length-tail_text (trim_space s) n,
          length-trim_space s,
        ))
        h,
  )
]

pub split_policy_parts_lem :
    (s : Text) → split_policy_parts s ≡ split_parts_body split_policy_parts s
unfolding split_policy_parts
split_policy_parts_lem s = measured_lem split_parts_body split_parts_body-IsLocal _ s
