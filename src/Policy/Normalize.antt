-- ===== src/Policy/Normalize.antt =====
-- abe/policy.go: `NormalizePolicySyntax`, the rewrites in their order. `none` is a panic.
use bc_abe.Common.{◌≡◌, refl, Option, none, some}
use bc_abe.Text.{Text, codes, trim_space}
use bc_abe.Policy.Rewrite.{
  replace_all, hour_single_eq, policy_and, policy_or, loc_underscore, normalize_policy_attr_case,
}
use bc_abe.Policy.Flatten.{flatten_nested_and_groups}
use bc_abe.Policy.Precedence.{normalize_numeric_precedence}

-- The rewrites by regular expressions, and the case of the attributes.
unfoldable pub rewrite_syntax : Text → Text
unfolding replace_all hour_single_eq policy_and policy_or loc_underscore normalize_policy_attr_case
    trim_space
rewrite_syntax policy = normalize_policy_attr_case (
    replace_all loc_underscore (
      replace_all policy_or
        (replace_all policy_and (replace_all hour_single_eq (trim_space policy)))))

bracket_numeric : Option Text → Option Text
unfolding normalize_numeric_precedence trim_space
bracket_numeric none = none
bracket_numeric (some p) = some (trim_space (normalize_numeric_precedence p))

unfoldable pub normalize_policy_syntax : Text → Option Text
unfolding rewrite_syntax flatten_nested_and_groups bracket_numeric
normalize_policy_syntax policy = bracket_numeric (flatten_nested_and_groups (rewrite_syntax policy))

-- The inputs of `TestNormalizeNumericPrecedence` and of `TestFlattenNestedAndGroups`.
hour_with_group :
    normalize_policy_syntax (codes "hour@auth1 == 17 /\\ (Vitality@auth1 /\\ locschool@auth1)")
    ≡ some (codes "(hour@auth1 == 17) /\\ Vitality@auth1 /\\ locschool@auth1")
unfolding normalize_policy_syntax
hour_with_group = refl

group_with_group :
    normalize_policy_syntax (codes "(hour@auth1 == 16) /\\ (Vitality@auth1 /\\ locschool@auth1)")
    ≡ some (codes "(hour@auth1 == 16) /\\ Vitality@auth1 /\\ locschool@auth1")
unfolding normalize_policy_syntax
group_with_group = refl
