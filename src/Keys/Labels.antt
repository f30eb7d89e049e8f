-- ===== src/Keys/Labels.antt =====
-- user_client/service/attr_format.go: the labels under which a user's keys for a clause are stored.
use bc_abe.Common.{
  true, false, ◌||◌, not, List, [], ◌∷◌, ◌++◌, if◌then◌else◌, is_empty, Option, none, some,
}
use bc_abe.Text.{Text, codes, ◌=ᵗ◌, trim_space, to_lower, equal_fold}
use bc_abe.Policy.Clause.{NumericClause, parse_numeric_clause}
use bc_abe.Policy.Keys.{KeyIssueSpec, is_seen}
use bc_abe.Keys.Result.{Result, returned, refused}
use bc_abe.Keys.Account.{Config, UserAccount, user_attributes, auth_name_for_org}
use bc_abe.Keys.Format.{AttrSpec, LegacyMatch, numeric_legacy}
use bc_abe.Keys.Parse.{parse_attr_spec, auth_or}
use bc_abe.Keys.Numeric.{resolve_attr_spec_for_user}

-- The loop of `dedupeLabels`; `seen` is the map.
unfoldable pub dedupe_from : List Text → List Text → List Text
unfolding is_seen trim_space
dedupe_from seen [] = []
dedupe_from seen (l0 ∷ labels) =
    let l = trim_space l0 in
    elim (is_empty l || is_seen l seen) [
      | true ↦ dedupe_from seen labels
      | false ↦ l ∷ dedupe_from (l ∷ seen) labels
    ]

unfoldable pub dedupe_labels : List Text → List Text
unfolding dedupe_from
dedupe_labels = dedupe_from []

-- The registered attributes that are issued as `issue_attr` is.
same_issue : Config → Text → Text → List Text → List Text
unfolding parse_attr_spec
same_issue cfg org_name issue_attr [] = []
same_issue cfg org_name issue_attr (raw ∷ raws) =
    let rest = same_issue cfg org_name issue_attr raws in
    elim (parse_attr_spec cfg raw org_name) [
      | refused e ↦ rest
      | returned sp ↦ if sp.issue_attr =ᵗ issue_attr then raw ∷ sp.display_label ∷ rest else rest
    ]

-- The registered attributes of one name, and those that cannot be read.
same_name : Config → Text → Text → List Text → List Text
unfolding parse_attr_spec numeric_legacy equal_fold
same_name cfg org_name attr [] = []
same_name cfg org_name attr (raw ∷ raws) =
    let rest = same_name cfg org_name attr raws in
    elim (parse_attr_spec cfg raw org_name) [
      | refused e ↦ raw ∷ rest
      | returned sp ↦ elim (numeric_legacy sp.issue_attr) [
        | none ↦ rest
        | some m ↦
            if equal_fold m.name attr then raw ∷ sp.display_label ∷ sp.issue_attr ∷ rest else rest
      ]
    ]

spec_labels : Result AttrSpec → List Text
spec_labels (refused e) = []
spec_labels (returned sp) = sp.display_label ∷ sp.issue_attr ∷ []

-- `else if sp, err := resolveAttrSpecForUser(...); err == nil`
or_resolved : Result AttrSpec → Result AttrSpec → Result AttrSpec
or_resolved (returned sp) r = returned sp
or_resolved (refused e) r = r

compared_labels : Config → UserAccount → Result AttrSpec → List Text
unfolding dedupe_labels same_issue user_attributes
compared_labels cfg user (refused e) = []
compared_labels cfg user (returned sp) = dedupe_labels (
    sp.display_label
    ∷ sp.issue_attr
    ∷ same_issue cfg user.org_name sp.issue_attr (user_attributes cfg user))

plain_labels : Config → UserAccount → KeyIssueSpec → List Text → List Text
unfolding dedupe_labels spec_labels or_resolved parse_attr_spec resolve_attr_spec_for_user
plain_labels cfg user spec registered = dedupe_labels (
    spec.display_label
    ∷ spec.issue_attr
    ∷ (spec_labels (
          or_resolved (parse_attr_spec cfg spec.display_label user.org_name)
            (resolve_attr_spec_for_user cfg user spec.display_label spec.issue_attr))
        ++ registered))

clause_labels : Config → UserAccount → KeyIssueSpec → Option NumericClause → List Text
unfolding plain_labels compared_labels same_name user_attributes resolve_attr_spec_for_user
clause_labels cfg user spec none = plain_labels cfg user spec []
clause_labels cfg user spec (some nc) =
    if not (nc.op =ᵗ codes "==")
    then compared_labels cfg user
        (resolve_attr_spec_for_user cfg user spec.display_label spec.issue_attr)
    else plain_labels cfg user spec (same_name cfg user.org_name nc.attr (user_attributes cfg user))

unfoldable pub key_labels_for_policy_spec : Config → UserAccount → KeyIssueSpec → List Text
unfolding clause_labels parse_numeric_clause
key_labels_for_policy_spec cfg user spec =
    clause_labels cfg user spec (parse_numeric_clause spec.display_label)

base_of_match : Text → Option LegacyMatch → Text
unfolding to_lower auth_or
base_of_match own none = []
base_of_match own (some m) = to_lower m.name ++ b'@' ∷ auth_or own m.auth

base_of_spec : Config → Text → Result AttrSpec → Text
unfolding base_of_match numeric_legacy auth_name_for_org
base_of_spec cfg org_name (refused e) = []
base_of_spec cfg org_name (returned sp) =
    base_of_match (auth_name_for_org cfg org_name) (numeric_legacy sp.issue_attr)

unfoldable pub numeric_key_base : Config → Text → Text → Text
unfolding base_of_spec parse_attr_spec
numeric_key_base cfg label org_name = base_of_spec cfg org_name (parse_attr_spec cfg label org_name)
