-- ===== src/Policy/Steps.antt =====
-- The functions of abe/policy.go that call themselves: they satisfy their own equations, and end behind
-- as many calls inside each other as the text has characters.
use mathlib.Core.Path.{ap₂}
use bc_abe.Common.{
  ℕ, suc, ◌<◌, true, ◌≡◌, refl, ap, List, [], ◌∷◌, arith, length, inl, inr, Bool-cases, All,
  All-map, map-congr, flat_map-congr, Option, ltb,
}
use bc_abe.Common.Measure.{measured, on_fuel, on_fuel-enough, measured_lem, IsLocal}
use bc_abe.Text.{Text, trim_space}
use bc_abe.Text.Trim.{length-trim_space}
use bc_abe.Policy.Lengths.{split-shorter, inner_clause-shorter}
use bc_abe.Policy.Scan.{split_at_top_level_joins, is_wrapped_clause, inner_clause}
use bc_abe.Policy.Rewrite.{attr_case_body, normalize_policy_attr_case}
use bc_abe.Policy.Flatten.{
  walk_body, flat_parts, flatten_body, flatten_nested_and_groups, map_parts, cons_part,
}
use bc_abe.Policy.Precedence.{
  precedence_body, any_rewritten, bracketed, normalize_numeric_precedence,
}
use bc_abe.Policy.Leaves.{leaf_body, policy_leaf_clauses}

pub wrapped-pos : (s : Text) → is_wrapped_clause s ≡ true → 0 < length s
unfolding is_wrapped_clause trim_space
wrapped-pos [] h = cc
wrapped-pos (c ∷ s) h = omega arith

ltb→< : (a b : ℕ) → ltb a b ≡ true → a < b
ltb→< a b h = ground arith

module _ {ℓ} {R : Type ℓ} (f g : Text → R) (s : Text) where
  -- What a body may assume of its recursive calls.
  abbrev pub Agree : Type ℓ
  Agree = (t : Text) → length t < length s → f t ≡ g t

  pub agree_inside :
      Agree
      → 0 < length (trim_space s)
      → f (inner_clause (trim_space s)) ≡ g (inner_clause (trim_space s))
  agree_inside h pos =
      h (inner_clause (trim_space s))
        (omega (arith, inner_clause-shorter (trim_space s) pos, length-trim_space s))

  pub agree_parts :
      Agree
      → ltb 1 (length (split_at_top_level_joins (trim_space s)).0) ≡ true
      → All (λ t. f t ≡ g t) (split_at_top_level_joins (trim_space s)).0
  agree_parts h many =
      All-map (split_at_top_level_joins (trim_space s)).0
        (λ t lt. h t (omega (arith, length-trim_space s)))
        (split-shorter (trim_space s) (ltb→< _ _ many))

leaf_body-IsLocal : IsLocal leaf_body
unfolding leaf_body
leaf_body-IsLocal f g s h = elim (Bool-cases (is_wrapped_clause (trim_space s))) [
  | inl w ↦ rw w (agree_inside f g s h (wrapped-pos (trim_space s) w))
  | inr n ↦ rw n (elim (Bool-cases (ltb 1 (length (split_at_top_level_joins (trim_space s)).0))) [
    | inl many ↦ rw many (flat_map-congr f g _ (agree_parts f g s h many))
    | inr one ↦ rw one
  ])
]

pub policy_leaf_clauses_lem : (s : Text) → policy_leaf_clauses s ≡ leaf_body policy_leaf_clauses s
unfolding policy_leaf_clauses
policy_leaf_clauses_lem s = measured_lem leaf_body leaf_body-IsLocal _ s

attr_case_body-IsLocal : IsLocal attr_case_body
unfolding attr_case_body
attr_case_body-IsLocal f g s h = elim (Bool-cases (is_wrapped_clause (trim_space s))) [
  | inl w ↦ rw (w, agree_inside f g s h (wrapped-pos (trim_space s) w))
  | inr n ↦ rw n (elim (Bool-cases (ltb 1 (length (split_at_top_level_joins (trim_space s)).0))) [
    | inl many ↦ rw (many, map-congr f g _ (agree_parts f g s h many))
    | inr one ↦ rw one
  ])
]

pub normalize_policy_attr_case_lem :
    (s : Text) → normalize_policy_attr_case s ≡ attr_case_body normalize_policy_attr_case s
unfolding normalize_policy_attr_case
normalize_policy_attr_case_lem s = measured_lem attr_case_body attr_case_body-IsLocal _ s

map_parts-congr :
    (f g : Text → Option Text) (ts : List Text)
    → All (λ t. f t ≡ g t) ts
    → map_parts f ts ≡ map_parts g ts
unfolding map_parts
map_parts-congr f g [] h = refl
map_parts-congr f g (t ∷ ts) (e, h) = ap₂ cons_part e (map_parts-congr f g ts h)

flatten_body-IsLocal : IsLocal flatten_body
unfolding flatten_body
flatten_body-IsLocal f g s h = elim (Bool-cases (is_wrapped_clause (trim_space s))) [
  | inl w ↦ rw (w, agree_inside f g s h (wrapped-pos (trim_space s) w))
  | inr n ↦ rw n (elim (Bool-cases (ltb 1 (length (split_at_top_level_joins (trim_space s)).0))) [
    | inl many ↦ rw (many, map_parts-congr f g _ (agree_parts f g s h many))
    | inr one ↦ rw one
  ])
]

pub flatten_nested_and_groups_lem :
    (s : Text) → flatten_nested_and_groups s ≡ flatten_body flatten_nested_and_groups s
unfolding flatten_nested_and_groups
flatten_nested_and_groups_lem s = measured_lem flatten_body flatten_body-IsLocal _ s

walk_body-IsLocal : IsLocal walk_body
unfolding walk_body
walk_body-IsLocal f g s h = elim (Bool-cases (is_wrapped_clause (trim_space s))) [
  | inr n ↦ rw n
  | inl w ↦
      let inner : Text = inner_clause (trim_space s) in
      let inside : length (inner_clause (trim_space s)) < length s = omega (
        arith,
        inner_clause-shorter (trim_space s) (wrapped-pos (trim_space s) w),
        length-trim_space s,
      ) in
      rw (w, h _ inside)
        (elim (Bool-cases (ltb 1 (length (split_at_top_level_joins inner).0))) [
          | inr one ↦ rw one
          | inl many ↦ rw (
            many,
            flat_map-congr f g _ (
                All-map (split_at_top_level_joins inner).0 (λ t lt. h t (omega (arith, inside)))
                  (split-shorter inner (ltb→< _ _ many))),
          )
        ])
]

pub flat_parts_lem : (s : Text) → flat_parts s ≡ walk_body flat_parts s
unfolding flat_parts
flat_parts_lem s = measured_lem walk_body walk_body-IsLocal _ s

any_rewritten-congr :
    (f g : Text → Text) (ts : List Text)
    → All (λ t. f (trim_space t) ≡ g (trim_space t)) ts
    → any_rewritten f ts ≡ any_rewritten g ts
unfolding any_rewritten
any_rewritten-congr f g [] h = refl
any_rewritten-congr f g (t ∷ ts) (e, h) = rw (e, any_rewritten-congr f g ts h)

precedence_body-IsLocal : IsLocal precedence_body
unfolding precedence_body
precedence_body-IsLocal f g s h = elim (Bool-cases (is_wrapped_clause (trim_space s))) [
  | inl w ↦ rw (w, agree_inside f g s h (wrapped-pos (trim_space s) w))
  | inr n ↦ rw n (elim (Bool-cases (ltb 1 (length (split_at_top_level_joins (trim_space s)).0))) [
    | inl many ↦
        let same : All (λ t. f (trim_space t) ≡ g (trim_space t))
            (split_at_top_level_joins (trim_space s)).0 =
          All-map (split_at_top_level_joins (trim_space s)).0
            (λ t lt. h (trim_space t) (omega (arith, length-trim_space s, length-trim_space t)))
            (split-shorter (trim_space s) (ltb→< _ _ many)) in
        rw (
          many,
          any_rewritten-congr f g _ same,
          map-congr (λ t. bracketed (f (trim_space t))) (λ t. bracketed (g (trim_space t))) _
              (All-map _ (λ t e. ap bracketed e) same),
        )
    | inr one ↦ rw one
  ])
]

pub normalize_numeric_precedence_lem :
    (s : Text) → normalize_numeric_precedence s ≡ precedence_body normalize_numeric_precedence s
unfolding normalize_numeric_precedence
normalize_numeric_precedence_lem s = measured_lem precedence_body precedence_body-IsLocal _ s

abbrev pub Ends : {R : Type 0} → ((Text → R) → Text → R) → (Text → R) → Text → Type 0
Ends {R} body run s = (base : Text → R) (n : ℕ) → length s < n → on_fuel base body n s ≡ run s

module _ (s : Text) where
  flatten-Ends : Ends flatten_body flatten_nested_and_groups s
  unfolding flatten_nested_and_groups measured
  flatten-Ends base n h =
      on_fuel-enough flatten_body flatten_body-IsLocal base _ n (suc (length s)) s h (omega arith)

  walk-Ends : Ends walk_body flat_parts s
  unfolding flat_parts measured
  walk-Ends base n h =
      on_fuel-enough walk_body walk_body-IsLocal base _ n (suc (length s)) s h (omega arith)

  attr_case-Ends : Ends attr_case_body normalize_policy_attr_case s
  unfolding normalize_policy_attr_case measured
  attr_case-Ends base n h =
      on_fuel-enough attr_case_body attr_case_body-IsLocal base _ n (suc (length s)) s h
        (omega arith)

  precedence-Ends : Ends precedence_body normalize_numeric_precedence s
  unfolding normalize_numeric_precedence measured
  precedence-Ends base n h =
      on_fuel-enough precedence_body precedence_body-IsLocal base _ n (suc (length s)) s h
        (omega arith)

  leaf-Ends : Ends leaf_body policy_leaf_clauses s
  unfolding policy_leaf_clauses measured
  leaf-Ends base n h =
      on_fuel-enough leaf_body leaf_body-IsLocal base _ n (suc (length s)) s h (omega arith)

-- The recursions on policies end: for every text, `flattenNestedAndGroups` and the walk inside it,
-- `normalizePolicyAttrCase`, `normalizeNumericPrecedence` and `PolicyLeafClauses` are what their bodies
-- make of the text when the calls inside each other are cut off at any depth above the length of the
-- text, whatever a call that is cut off is taken to return.
pub recursions_end :
    (s : Text)
    → Ends flatten_body flatten_nested_and_groups s
      × Ends walk_body flat_parts s
      × Ends attr_case_body normalize_policy_attr_case s
      × Ends precedence_body normalize_numeric_precedence s
      × Ends leaf_body policy_leaf_clauses s
recursions_end s = (flatten-Ends s, walk-Ends s, attr_case-Ends s, precedence-Ends s, leaf-Ends s)
