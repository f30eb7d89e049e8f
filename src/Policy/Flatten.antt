-- ===== src/Policy/Flatten.antt =====
-- abe/policy.go: `flattenNestedAndGroups`, which writes nested groups of conjunctions as one.
-- `none` is a panic: `joinPolicyParts(flat, "/\\")` makes a slice of length -1 when `flat` is empty.
use bc_abe.Common.{
  Bool, true, false, ◌&&◌, ◌||◌, not, List, [], ◌∷◌, ltb, if◌then◌else◌, is_empty, length, Option,
  none, some, ◌≡◌, refl,
}
use mathlib.Core.List.{flat_map}
use bc_abe.Common.Measure.{measured}
use bc_abe.Text.{Text, codes, ◌=ᵗ◌, trim_space}
use bc_abe.Policy.Scan.{
  Join, and_join, or_join, split_at_top_level_joins, join_policy_parts, is_wrapped_clause,
  inner_clause, wrap,
}

unfoldable pub is_and : Join → Bool
is_and and_join = true
is_and or_join = false

unfoldable pub all_and : List Join → Bool
unfolding is_and
all_and [] = true
all_and (op ∷ joins) = is_and op && all_and joins

unfoldable pub non_empty_part : Text → List Text
non_empty_part [] = []
non_empty_part (c ∷ s) = (c ∷ s) ∷ []

-- One call of the inner `walk`, with `rec` for its calls of itself. Where the source goes round
-- its loop with `part = inner`, the model calls `rec inner`: `inner` is trimmed, so the trim at the
-- head of `walk` leaves it as it is.
unfoldable pub walk_body : (Text → List Text) → Text → List Text
unfolding non_empty_part all_and
walk_body rec part0 =
    let part = trim_space part0 in
    let inner = inner_clause part in
    let (sub, sub_joins) = split_at_top_level_joins inner in
    if is_wrapped_clause part
    then (if ltb 1 (length sub) && all_and sub_joins then flat_map rec sub else rec inner)
    else non_empty_part part

unfoldable pub flat_parts : Text → List Text
unfolding measured walk_body is_wrapped_clause inner_clause split_at_top_level_joins trim_space
    flat_map
flat_parts = measured (λ s. []) walk_body

unfoldable pub and_joins : List Text → List Join
and_joins [] = []
and_joins (part ∷ parts) = and_join ∷ and_joins parts

-- `joinPolicyParts(flat, "/\\")`
unfoldable pub join_with_and : List Text → Option Text
unfolding and_joins join_policy_parts
join_with_and [] = none
join_with_and (part ∷ parts) = some (join_policy_parts (part ∷ parts) (and_joins parts))

unfoldable pub cons_part : Option Text → Option (List Text) → Option (List Text)
cons_part none rest = none
cons_part (some next) none = none
cons_part (some next) (some rest) = some (next ∷ rest)

-- The calls on the parts, left to right; a panic ends the loop.
unfoldable pub map_parts : (Text → Option Text) → List Text → Option (List Text)
unfolding cons_part
map_parts rec [] = some []
map_parts rec (part ∷ parts) = cons_part (rec part) (map_parts rec parts)

-- `next != part` for some part
unfoldable pub any_changed : List Text → List Text → Bool
any_changed [] nexts = false
any_changed (part ∷ parts) [] = false
any_changed (part ∷ parts) (next ∷ nexts) = not (next =ᵗ part) || any_changed parts nexts

rewrapped : Text → Option Text → Option Text
rewrapped policy none = none
rewrapped policy (some inner) = some (if inner =ᵗ inner_clause policy then policy else wrap inner)

rejoined : Text → List Text → List Join → Option (List Text) → Option Text
unfolding any_changed join_policy_parts
rejoined policy parts joins none = none
rejoined policy parts joins (some nexts) =
    some (if any_changed parts nexts then join_policy_parts nexts joins else policy)

-- One call of `flattenNestedAndGroups`, with `rec` for its calls of itself.
unfoldable pub flatten_body : (Text → Option Text) → Text → Option Text
unfolding rewrapped rejoined map_parts join_with_and all_and
flatten_body rec policy =
    let p = trim_space policy in
    let (parts, joins) = split_at_top_level_joins p in
    let inside = rewrapped p (rec (inner_clause p)) in
    let pieces = rejoined p parts joins (map_parts rec parts) in
    if is_empty p
    then some p
    else if is_wrapped_clause p
    then inside
    else if not (ltb 1 (length parts))
    then some p
    else if all_and joins
    then join_with_and (flat_map flat_parts parts)
    else pieces

unfoldable pub flatten_nested_and_groups : Text → Option Text
unfolding flatten_body measured flat_parts is_wrapped_clause inner_clause split_at_top_level_joins
    trim_space flat_map
flatten_nested_and_groups = measured (λ s. some s) flatten_body

nested : flatten_nested_and_groups (codes "a /\\ (b /\\ (c))") ≡ some (codes "a /\\ b /\\ c")
unfolding flatten_nested_and_groups
nested = refl

-- The brackets round a disjunction are lost.
lost : flatten_nested_and_groups (codes "a /\\ (b \\/ c)") ≡ some (codes "a /\\ b \\/ c")
unfolding flatten_nested_and_groups
lost = refl

no_clause : flatten_nested_and_groups (codes "/\\") ≡ none
unfolding flatten_nested_and_groups
no_clause = refl
