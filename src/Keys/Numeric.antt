-- ===== src/Keys/Numeric.antt =====
-- user_client/service/attr_format.go: the registered value of a numeric attribute, and the
-- specification that a clause of a policy stands for with a given user.
use bc_abe.Common.{ℕ, not, List, [], ◌∷◌, if◌then◌else◌, Option, none, some, ◌≡◌, refl}
use bc_abe.Text.{Text, codes, ◌=ᵗ◌, trim_space, to_lower}
use bc_abe.Policy.Clause.{NumericClause, parse_numeric_clause, numeric_compare_satisfied}
use bc_abe.Keys.Result.{Result, returned, refused, not_registered, not_satisfied}
use bc_abe.Keys.Account.{Config, UserAccount, user_attributes, auth_name_for_org, sample_config}
use bc_abe.Keys.Format.{AttrSpec, LegacyMatch, numeric_legacy, parse_int}
use bc_abe.Keys.Parse.{parse_attr_spec, auth_or}

-- The match of the attribute to issue, or of the registered text.
unfoldable pub match_spec : AttrSpec → Text → Option LegacyMatch
unfolding numeric_legacy
match_spec sp raw = elim (numeric_legacy sp.issue_attr) [
  | some m ↦ some m
  | none ↦ numeric_legacy raw
]

-- The value of a match that is for the attribute and the authority.
unfoldable pub value_of_match : Text → Text → Text → Option LegacyMatch → Option ℕ
unfolding to_lower auth_or parse_int
value_of_match own attr_base auth none = none
value_of_match own attr_base auth (some m) =
    if not (to_lower m.name =ᵗ attr_base)
    then none
    else if not (auth_or own m.auth =ᵗ auth)
    then none
    else parse_int m.value

-- One round of the loop of `findUserNumericAttr`: `none` where the source goes on.
unfoldable pub numeric_of : Config → Text → Text → Text → Text → Option (ℕ × AttrSpec)
unfolding match_spec value_of_match parse_attr_spec auth_name_for_org
numeric_of cfg org_name attr_base auth raw = elim (parse_attr_spec cfg raw org_name) [
  | refused e ↦ none
  | returned sp ↦
      elim (value_of_match (auth_name_for_org cfg org_name) attr_base auth (match_spec sp raw)) [
        | none ↦ none
        | some v ↦ some (v, sp)
      ]
]

unfoldable pub first_numeric : Config → Text → Text → Text → List Text → Option (ℕ × AttrSpec)
unfolding numeric_of
first_numeric cfg org_name attr_base auth [] = none
first_numeric cfg org_name attr_base auth (raw ∷ raws) =
    elim (numeric_of cfg org_name attr_base auth raw) [
      | some found ↦ some found
      | none ↦ first_numeric cfg org_name attr_base auth raws
    ]

unfoldable pub find_user_numeric_attr : Config → UserAccount → Text → Text → Option (ℕ × AttrSpec)
unfolding first_numeric user_attributes trim_space to_lower
find_user_numeric_attr cfg user attr_base auth =
    first_numeric cfg user.org_name (to_lower (trim_space attr_base)) (trim_space auth)
      (user_attributes cfg user)

-- `parseAttrSpec`, or the specification at hand where it fails.
unfoldable pub or_fallback : Text → Text → Result AttrSpec → Result AttrSpec
or_fallback display_label fallback_issue (returned sp) = returned sp
or_fallback display_label fallback_issue (refused e) =
    returned (record { issue_attr = fallback_issue; display_label = display_label })

-- The comparison of the value that was found.
unfoldable pub satisfied_spec : Text → NumericClause → Option (ℕ × AttrSpec) → Result AttrSpec
unfolding numeric_compare_satisfied
satisfied_spec display_label nc none = refused (not_registered nc.attr nc.auth)
satisfied_spec display_label nc (some (user_val, sp)) =
    if numeric_compare_satisfied user_val nc.op nc.value
    then returned sp
    else refused (not_satisfied nc.attr user_val display_label)

unfoldable pub resolve_clause :
    Config → UserAccount → Text → Text → Option NumericClause → Result AttrSpec
unfolding or_fallback parse_attr_spec satisfied_spec find_user_numeric_attr
resolve_clause cfg user display_label fallback_issue none =
    or_fallback display_label fallback_issue (parse_attr_spec cfg display_label user.org_name)
resolve_clause cfg user display_label fallback_issue (some nc) =
    if nc.op =ᵗ codes "=="
    then or_fallback display_label fallback_issue (parse_attr_spec cfg display_label user.org_name)
    else satisfied_spec display_label nc (find_user_numeric_attr cfg user nc.attr nc.auth)

unfoldable pub resolve_attr_spec_for_user : Config → UserAccount → Text → Text → Result AttrSpec
unfolding resolve_clause parse_numeric_clause
resolve_attr_spec_for_user cfg user display_label fallback_issue =
    resolve_clause cfg user display_label fallback_issue (parse_numeric_clause display_label)

abbrev pub sample_user : UserAccount
sample_user = record {
  username = codes "alice";
  org_name = codes "org1";
  attributes = codes "Cry=20,Vitality";
}

cry_18 :
    resolve_attr_spec_for_user sample_config sample_user
      (codes "cry@auth0 > 18")
      (codes "cry=18@auth0")
    ≡ returned
        (record { issue_attr = codes "cry=20@auth0"; display_label = codes "Cry@auth0 == 20" })
unfolding resolve_attr_spec_for_user
cry_18 = refl
