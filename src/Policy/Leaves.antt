-- ===== src/Policy/Leaves.antt =====
-- abe/policy.go: the clauses of a policy, by `policyLeafClauses` for the keys and by
-- `parsePolicyClauses` for the checks of a policy that a user enters.
use mathlib.Core.List.{flat_map}
use bc_abe.Common.{
  ℕ, true, false, not, List, [], ◌∷◌, ◌++◌, map, ltb, if◌then◌else◌, is_empty, length, Option, none,
  some, ◌≡◌, refl,
}
use bc_abe.Common.Measure.{measured}
use bc_abe.Text.{Text, codes, trim_space, atoi}
use bc_abe.Policy.Scan.{
  ℤ, pos, inc, dec, is_zero, bracket, open_bracket, close_bracket, no_bracket,
  split_at_top_level_joins, is_wrapped_clause, inner_clause, starts_open,
}
use bc_abe.Policy.Clause.{NumericMatch, find_numeric}

unfoldable pub leaf : Text → List Text
leaf [] = []
leaf (c ∷ s) = (c ∷ s) ∷ []

-- One call of the inner `walk` of `policyLeafClauses`. Where the source goes round the loop that
-- takes brackets off, the model calls `rec`, whose trim finds nothing to do.
unfoldable pub leaf_body : (Text → List Text) → Text → List Text
unfolding leaf
leaf_body rec p0 =
    let p = trim_space p0 in
    let (parts, joins) = split_at_top_level_joins p in
    if is_wrapped_clause p
    then rec (inner_clause p)
    else if ltb 1 (length parts)
    then flat_map rec parts
    else leaf p

unfoldable pub policy_leaf_clauses : Text → List Text
unfolding measured leaf_body is_wrapped_clause inner_clause split_at_top_level_joins trim_space
    flat_map
policy_leaf_clauses = measured (λ s. []) leaf_body

-- The loop of `splitPolicyParts` behind the first `(`: the text up to the `)` that closes it.
unfoldable pub first_group : ℤ → Text → Text → Option Text
first_group depth cur [] = none
first_group depth cur (c ∷ s) = elim (bracket c) [
  | open_bracket ↦ first_group (inc depth) (cur ++ c ∷ []) s
  | no_bracket ↦ first_group depth (cur ++ c ∷ []) s
  | close_bracket ↦ elim (is_zero (dec depth)) [
    | true ↦ some cur
    | false ↦ first_group (dec depth) (cur ++ c ∷ []) s
  ]
]

unfoldable pub append_parts : Option (List Text) → Option (List Text) → Option (List Text)
append_parts none r = none
append_parts (some a) none = none
append_parts (some a) (some b) = some (a ++ b)

-- `splitTopLevel`: its loop cuts as that of `splitAtTopLevelJoins`, and a part that is not empty is
-- split in turn.
unfoldable pub split_each : (Text → Option (List Text)) → List Text → Option (List Text)
unfolding append_parts
split_each rec [] = some []
split_each rec (part ∷ parts) =
    if is_empty part then split_each rec parts else append_parts (rec part) (split_each rec parts)

unfoldable pub split_top_level : (Text → Option (List Text)) → Option Text → Option (List Text)
unfolding split_each split_at_top_level_joins
split_top_level rec none = none
split_top_level rec (some group) = split_each rec ((split_at_top_level_joins (trim_space group)).0)

unfoldable pub tail_text : Text → Text
tail_text [] = []
tail_text (c ∷ s) = s

-- One call of `splitPolicyParts`. `none` is the error of unmatched brackets.
unfoldable pub split_parts_body : (Text → Option (List Text)) → Text → Option (List Text)
unfolding split_top_level starts_open tail_text
split_parts_body rec policy =
    let p = trim_space policy in
    let inside = split_top_level rec (first_group (pos 1) [] (tail_text p)) in
    if is_empty p then some [] else if not (starts_open p) then some (p ∷ []) else inside

unfoldable pub split_policy_parts : Text → Option (List Text)
unfolding measured split_parts_body first_group bracket inc dec is_zero trim_space
split_policy_parts = measured (λ s. none) split_parts_body

pub record PolicyClause : Type 0 where
  pub raw : Text
  pub attr : Text
  pub op : Text
  pub value : ℕ

unfoldable pub clause_of : Text → Option NumericMatch → PolicyClause
unfolding atoi
clause_of part none = record { raw = part; attr = []; op = []; value = 0 }
clause_of part (some m) = record { raw = part; attr = m.attr; op = m.op; value = atoi m.value }

-- The clause that `parsePolicyClauses` reads from one part.
unfoldable pub read_clause : Text → PolicyClause
unfolding clause_of find_numeric trim_space
read_clause part = let part' = trim_space part in clause_of part' (find_numeric part')

unfoldable pub or_whole : Text → Option (List Text) → List Text
or_whole policy none = policy ∷ []
or_whole policy (some parts) = parts

unfoldable pub parse_policy_clauses : Text → List PolicyClause
unfolding or_whole split_policy_parts read_clause trim_space
parse_policy_clauses policy =
    let p = trim_space policy in
    if is_empty p then [] else map read_clause (or_whole p (split_policy_parts p))

leaves_of_nested :
    policy_leaf_clauses (codes "((a@x == 1) \\/ (b@y /\\ c@z))")
    ≡ codes "a@x == 1" ∷ codes "b@y" ∷ codes "c@z" ∷ []
unfolding policy_leaf_clauses
leaves_of_nested = refl

raws : List PolicyClause → List Text
raws [] = []
raws (c ∷ cs) = c.raw ∷ raws cs

-- Only the first group of a policy is read.
clauses_of_groups :
    raws (parse_policy_clauses (codes "(a@x > 1) /\\ (b@y > 2)")) ≡ codes "a@x > 1" ∷ []
unfolding parse_policy_clauses raws
clauses_of_groups = refl
