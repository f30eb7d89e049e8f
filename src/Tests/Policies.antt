-- ===== src/Tests/Policies.antt =====
-- Policies of abe/policy_test.go, and the theorems on policies at concrete ones.
use bc_abe.Common.{Bool, true, false, ◌≡◌, ◌↔◌, refl, [], ◌∷◌, none, some, All, arith, ◌⊎◌}
use bc_abe.Text.{Text, codes, ◌=ᵗ◌, trim_space}
use bc_abe.Policy.Scan.{split_at_top_level_joins, join_policy_parts, is_wrapped_clause, wrap}
use bc_abe.Policy.Clause.{validate_numeric_compare, max_value}
use bc_abe.Policy.Flatten.{flatten_nested_and_groups, flatten_body, walk_body, flat_parts}
use bc_abe.Policy.Rewrite.{attr_case_body, normalize_policy_attr_case}
use bc_abe.Policy.Precedence.{precedence_body, normalize_numeric_precedence}
use bc_abe.Policy.Normalize.{normalize_policy_syntax}
use bc_abe.Policy.Leaves.{policy_leaf_clauses, leaf_body, parse_policy_clauses, read_clause}
use bc_abe.Policy.Keys.{
  KeyIssueSpec, specs, key_issue_specs_from_policy, too_many_numeric, validate_ui_policy,
  two_numeric_clauses, bad_compare,
}
use bc_abe.Policy.Clause.{ge_zero}
use bc_abe.Policy.Plain.{IsPlain}
use bc_abe.Policy.FirstGroup.{group_then, parse-first_group}
use bc_abe.Policy.KeyLaws.{Fresh, AskedBy, Granted, key_issue_specs_lem}
use bc_abe.Policy.Wrapped.{Balanced, is_wrapped_clause_iff}
use bc_abe.Policy.Rejoin.{split-join-split}
use bc_abe.Policy.Compare.{Satisfiable, Unsatisfiable, validate-Satisfiable}
use bc_abe.Policy.Steps.{Ends, recursions_end}

abbrev vitality : Text
vitality = codes "Vitality@auth1"

abbrev school : Text
school = codes "locschool@auth1"

abbrev score : Text
score = codes "score@auth0 > 34"

score-IsPlain : IsPlain score
unfolding trim_space
score-IsPlain = record { clean = omega arith; trimmed = refl; non_empty = omega arith }

-- A user at school, with nothing else.
abbrev at_school : Text → Bool
at_school t = t =ᵗ school

-- The inputs of `TestValidateUIPolicy`, with a grammar that accepts every text.
abbrev any_text : Text → Bool
any_text t = true

accepted :
    (validate_ui_policy any_text any_text
        (codes "hour@auth1 == 17 /\\ (Vitality@auth1 /\\ locschool@auth1)")
      ≡ none)
    × (validate_ui_policy any_text any_text (codes "(hour@auth1 == 17 /\\ locschool@auth1)") ≡ none)
unfolding validate_ui_policy
accepted = (refl, refl)

refused :
    (validate_ui_policy any_text any_text (codes "(score@auth0 > 34 /\\ hour@auth0 == 20)")
      ≡ some two_numeric_clauses)
    × (validate_ui_policy any_text any_text (codes "score@auth0 >= 0") ≡ some (bad_compare ge_zero))
unfolding validate_ui_policy
refused = (refl, refl)

-- Without the outer brackets the same two clauses are accepted, and an hour of 99 too.
not_refused :
    validate_ui_policy any_text any_text (codes "score@auth0 > 34 /\\ hour@auth0 == 99") ≡ none
unfolding validate_ui_policy
not_refused = refl

parse-first_group_example :
    (parse_policy_clauses (group_then score (codes " /\\ (hour@auth0 == 99)"))
      ≡ read_clause score ∷ [])
    × (too_many_numeric (parse_policy_clauses (group_then score (codes " /\\ (hour@auth0 == 99)")))
        ≡ false)
parse-first_group_example = parse-first_group score (codes " /\\ (hour@auth0 == 99)") score-IsPlain

-- A policy of joins alone panics.
joins_alone : normalize_policy_syntax (codes " /\\ ") ≡ none
unfolding normalize_policy_syntax
joins_alone = refl

abbrev user_policy : Text
user_policy = codes "Hour@auth1 = 16 and (Vitality@auth1 /\\ (hour@auth1 == 16))"

abbrev normalized : Text
normalized = codes "(hour@auth1 == 16) /\\ Vitality@auth1 /\\ (hour@auth1 == 16)"

abbrev hour_spec : KeyIssueSpec
hour_spec = record {
  issue_attr = codes "hour=16@auth1";
  display_label = codes "hour@auth1 == 16";
  auth_name = codes "auth1";
}

abbrev vitality_spec : KeyIssueSpec
vitality_spec = record {
  issue_attr = vitality;
  display_label = vitality;
  auth_name = codes "auth1";
}

user_policy-normalized : normalize_policy_syntax user_policy ≡ some normalized
unfolding normalize_policy_syntax
user_policy-normalized = refl

user_policy_specs : key_issue_specs_from_policy user_policy ≡ specs (hour_spec ∷ vitality_spec ∷ [])
unfolding key_issue_specs_from_policy
user_policy_specs = refl

key_issue_specs_example :
    Fresh [] (hour_spec ∷ vitality_spec ∷ [])
    × All (AskedBy (policy_leaf_clauses normalized)) (hour_spec ∷ vitality_spec ∷ [])
    × All (Granted [] (hour_spec ∷ vitality_spec ∷ [])) (policy_leaf_clauses normalized)
key_issue_specs_example =
    key_issue_specs_lem user_policy normalized (hour_spec ∷ vitality_spec ∷ [])
      user_policy-normalized user_policy_specs

is_wrapped_clause_example :
    (is_wrapped_clause (codes " (a) \\/ (b) ") ≡ true)
    ↔ ((a : Text) × Balanced a × (trim_space (codes " (a) \\/ (b) ") ≡ wrap a))
is_wrapped_clause_example = is_wrapped_clause_iff (codes " (a) \\/ (b) ")

split-join-split_example :
    split_at_top_level_joins (
      join_policy_parts
        (split_at_top_level_joins normalized).0
        (split_at_top_level_joins normalized).1)
    ≡ split_at_top_level_joins normalized
split-join-split_example = split-join-split normalized

late_hour : validate_numeric_compare (codes "hour") (codes ">") 23 ≡ none
unfolding validate_numeric_compare
late_hour = refl

gt_trimmed : trim_space (codes ">") ≡ codes ">"
unfolding trim_space
gt_trimmed = refl

validate-Satisfiable_example :
    Satisfiable (max_value (trim_space (codes "hour"))) (codes ">") 23
    ⊎ ((codes ">" ≡ codes ">")
        × (23 ≡ max_value (trim_space (codes "hour")))
        × Unsatisfiable (max_value (trim_space (codes "hour"))) (codes ">") 23)
validate-Satisfiable_example =
    validate-Satisfiable (codes "hour") (codes ">") 23 gt_trimmed late_hour

recursions_end_example :
    Ends flatten_body flatten_nested_and_groups normalized
    × Ends walk_body flat_parts normalized
    × Ends attr_case_body normalize_policy_attr_case normalized
    × Ends precedence_body normalize_numeric_precedence normalized
    × Ends leaf_body policy_leaf_clauses normalized
recursions_end_example = recursions_end normalized
