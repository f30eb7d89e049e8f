-- ===== src/Keys/Issue.antt =====
-- user_client/service/key_service.go: who may ask for the key of an attribute, and the attributes of
-- which keys are asked for without being named.
use bc_abe.Common.{
  not, ◌==◌, ℕ, Bool, true, false, ◌||◌, List, [], ◌∷◌, ◌++◌, if◌then◌else◌, is_empty, Option, none,
  some,
}
use bc_abe.Text.{◌=ᵗ◌, cut_last, up_to, Text, trim_space, equal_fold}
use bc_abe.Policy.Clause.{is_space_or_tab, NumericClause, parse_numeric_clause}
use bc_abe.Policy.Keys.{is_seen}
use bc_abe.Keys.Result.{
  other_authority, KeyError, not_owned, Result, returned, refused, error_of, ◌>>=◌,
}
use bc_abe.Keys.Account.{auth_name_for_org, Config, UserAccount, user_attributes}
use bc_abe.Keys.Format.{AttrSpec, is_policy_style_key_attr, hour_attr_spec, loc_attr_spec}
use bc_abe.Keys.Parse.{parse_attr_spec}
use bc_abe.Keys.Numeric.{resolve_attr_spec_for_user}

-- `authFromAttr`
unfoldable pub auth_from_attr : Text → Text
unfolding cut_last up_to is_space_or_tab trim_space
auth_from_attr s = elim (cut_last (λ c. c == b'@') s) [
  | none ↦ []
  | some (base, tail) ↦ up_to is_space_or_tab (trim_space tail)
]

unfoldable pub validate_issue_attr_org : Config → Text → Text → Option KeyError
unfolding auth_from_attr auth_name_for_org
validate_issue_attr_org cfg org_name issue_attr =
    let attr_auth = auth_from_attr issue_attr in
    if is_empty attr_auth
    then none
    else if not (attr_auth =ᵗ auth_name_for_org cfg org_name)
    then some (other_authority attr_auth org_name)
    else none

issues : Text → Result AttrSpec → Bool
unfolding equal_fold
issues issue_attr (refused e) = false
issues issue_attr (returned sp) = equal_fold sp.issue_attr issue_attr

owns_one : Config → Text → Text → List Text → Bool
unfolding issues parse_attr_spec equal_fold trim_space
owns_one cfg org_name issue_attr [] = false
owns_one cfg org_name issue_attr (owned ∷ rest) =
    equal_fold (trim_space owned) issue_attr
    || issues issue_attr (parse_attr_spec cfg owned org_name)
    || owns_one cfg org_name issue_attr rest

unfoldable pub user_owns_issue_attr : Config → UserAccount → Text → Bool
unfolding owns_one user_attributes trim_space
user_owns_issue_attr cfg user issue_attr0 =
    let issue_attr = trim_space issue_attr0 in
    if is_empty issue_attr
    then false
    else owns_one cfg user.org_name issue_attr (user_attributes cfg user)

-- What `authorizeKeyIssue` decides behind its first two tests.
authorize_clause : Config → UserAccount → AttrSpec → Text → Option NumericClause → Option KeyError
unfolding user_owns_issue_attr resolve_attr_spec_for_user error_of
authorize_clause cfg user spec policy_leaf (some nc) =
    error_of (resolve_attr_spec_for_user cfg user policy_leaf spec.issue_attr)
authorize_clause cfg user spec policy_leaf none =
    if user_owns_issue_attr cfg user spec.issue_attr
    then none
    else some (not_owned spec.display_label)

-- `none` is the `nil` error.
unfoldable pub authorize_key_issue : Config → UserAccount → AttrSpec → Text → Option KeyError
unfolding authorize_clause validate_issue_attr_org is_policy_style_key_attr parse_numeric_clause
    trim_space
authorize_key_issue cfg user spec policy_leaf =
    let decided =
      authorize_clause cfg user spec policy_leaf (parse_numeric_clause (trim_space policy_leaf)) in
    elim (validate_issue_attr_org cfg user.org_name spec.issue_attr) [
      | some e ↦ some e
      | none ↦ if is_policy_style_key_attr spec.issue_attr then none else decided
    ]

-- The checks of `RequestKey` before the key is asked for, and of `issueAndStore`.
unfoldable pub request_spec : Config → UserAccount → Text → Result AttrSpec
unfolding parse_attr_spec authorize_key_issue validate_issue_attr_org
request_spec cfg user attribute = do
  spec ← parse_attr_spec cfg attribute user.org_name
  elim (authorize_key_issue cfg user spec spec.display_label) [
    | some e ↦ refused e
    | none ↦ elim (validate_issue_attr_org cfg user.org_name spec.issue_attr) [
      | some e ↦ refused e
      | none ↦ returned spec
    ]
  ]

-- `add` of `autoAttributeSpecs`, over all that is added; `seen` is the map.
unfoldable pub add_new : List Text → List AttrSpec → List AttrSpec
unfolding is_seen
add_new seen [] = []
add_new seen (spec ∷ specs) = elim (is_empty spec.issue_attr || is_seen spec.issue_attr seen) [
  | true ↦ add_new seen specs
  | false ↦ spec ∷ add_new (spec.issue_attr ∷ seen) specs
]

readable : Config → Text → List Text → List AttrSpec
unfolding parse_attr_spec
readable cfg org_name [] = []
readable cfg org_name (attr ∷ attrs) =
    let rest = readable cfg org_name attrs in
    elim (parse_attr_spec cfg attr org_name) [ refused e ↦ rest | returned sp ↦ sp ∷ rest ]

unfoldable pub auto_attribute_specs : Config → UserAccount → Text → ℕ → Text → List AttrSpec
unfolding add_new readable user_attributes hour_attr_spec loc_attr_spec
auto_attribute_specs cfg user location hour hour_op = add_new [] (
    readable cfg user.org_name (user_attributes cfg user)
    ++ hour_attr_spec cfg user.org_name hour hour_op
      ∷ loc_attr_spec cfg user.org_name location
      ∷ [])
