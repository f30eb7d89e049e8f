-- ===== src/Policy/Precedence.antt =====
-- abe/policy.go: `normalizeNumericPrecedence`, which brackets the numeric clauses of a policy that
-- joins several clauses.
use bc_abe.Common.{
  Bool, false, ◌&&◌, ◌||◌, not, List, [], ◌∷◌, map, ltb, if◌then◌else◌, is_empty, length, ◌≡◌, refl,
}
use bc_abe.Common.Measure.{measured}
use bc_abe.Text.{Text, codes, ◌=ᵗ◌, trim_space}
use bc_abe.Policy.Scan.{
  split_at_top_level_joins, join_policy_parts, is_wrapped_clause, inner_clause, wrap,
}
use bc_abe.Policy.Clause.{is_numeric}

-- Does the loop put brackets round what the recursive call returned?
unfoldable pub needs_brackets : Text → Bool
needs_brackets next = is_numeric next && not (is_wrapped_clause next)

-- The part that one round of the loop writes, with `next` the recursive call's result.
unfoldable pub bracketed : Text → Text
unfolding needs_brackets
bracketed next = if needs_brackets next then wrap next else next

-- Does one of the rounds set `changed`?
unfoldable pub any_rewritten : (Text → Text) → List Text → Bool
unfolding needs_brackets bracketed
any_rewritten rec [] = false
any_rewritten rec (part ∷ parts) =
    let next = rec (trim_space part) in
    needs_brackets next || not (bracketed next =ᵗ trim_space part) || any_rewritten rec parts

-- One call of `normalizeNumericPrecedence`, with `rec` for its calls of itself.
unfoldable pub precedence_body : (Text → Text) → Text → Text
unfolding bracketed any_rewritten join_policy_parts
precedence_body rec policy =
    let p = trim_space policy in
    let inner = rec (inner_clause p) in
    let (parts, joins) = split_at_top_level_joins p in
    if is_empty p
    then p
    else if is_wrapped_clause p
    then (if inner =ᵗ inner_clause p then p else wrap inner)
    else if not (ltb 1 (length parts))
    then p
    else if not (any_rewritten rec parts)
    then p
    else join_policy_parts (map (λ part. bracketed (rec (trim_space part))) parts) joins

unfoldable pub normalize_numeric_precedence : Text → Text
unfolding precedence_body measured is_numeric is_wrapped_clause inner_clause
    split_at_top_level_joins trim_space
normalize_numeric_precedence = measured (λ s. s) precedence_body

brackets :
    normalize_numeric_precedence (codes "hour@auth1 == 17 /\\ V@a")
    ≡ codes "(hour@auth1 == 17) /\\ V@a"
unfolding normalize_numeric_precedence
brackets = refl
