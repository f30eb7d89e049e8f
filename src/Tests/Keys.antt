-- ===== src/Tests/Keys.antt =====
-- The theorems on user_client/service at a configuration and at users of the repository's tests.
use bc_abe.Common.{true, ◌≡◌, refl, List, [], ◌∷◌, All, none, ℕ}
use bc_abe.Text.{codes, Text, trim_space, to_lower, cut_last, up_to}
use bc_abe.Policy.Clause.{is_space_or_tab, parse_numeric_clause, numeric_compare_satisfied}
use bc_abe.Keys.Account.{sample_config, auth_name_for_org, user_attributes}
use bc_abe.Keys.Format.{AttrSpec}
use bc_abe.Keys.Parse.{parse_attr_spec, validate_attr_org_auth}
use bc_abe.Keys.OwnAuthority.{IsAuthName, parse_attr_spec-Own}
use bc_abe.Keys.Numeric.{sample_user, resolve_attr_spec_for_user}
use bc_abe.Keys.Labels.{dedupe_labels}
use bc_abe.Keys.LabelLaws.{Distinct, Kept, Covered, dedupe_labels_lem}
use bc_abe.Keys.Issue.{validate_issue_attr_org}
use bc_abe.Keys.SameCheck.{validate_issue_attr_org_lem}
use bc_abe.Keys.Registered.{Any, Holds, resolve-registered}

auth0-IsAuthName : IsAuthName (auth_name_for_org sample_config (codes "org1"))
unfolding auth_name_for_org trim_space cut_last up_to is_space_or_tab
auth0-IsAuthName = record { no_at = refl; trimmed = refl; one_word = refl }

abbrev cry_spec : AttrSpec
cry_spec = record { issue_attr = codes "cry=20@auth0"; display_label = codes "Cry@auth0 == 20" }

parse_attr_spec-Own_example :
    validate_attr_org_auth sample_config (codes "org1") (codes "cry=20@auth0") ≡ none
parse_attr_spec-Own_example =
    parse_attr_spec-Own sample_config (codes "org1") auth0-IsAuthName (codes " Cry=20 ") cry_spec
      (unfold parse_attr_spec in refl)

abbrev some_labels : List Text
some_labels = codes "a" ∷ codes " " ∷ codes " a" ∷ codes "b" ∷ []

dedupe_labels_example :
    Distinct [] (dedupe_labels some_labels)
    × All (Kept some_labels) (dedupe_labels some_labels)
    × All (Covered [] (dedupe_labels some_labels)) some_labels
dedupe_labels_example = dedupe_labels_lem some_labels

resolve-registered_example :
    (v : ℕ) × (numeric_compare_satisfied v (codes ">") 18 ≡ true)
    × Any
        (Holds sample_config
          (codes "org1")
          (to_lower (trim_space (codes "cry")))
          (trim_space (codes "auth0"))
          v
          cry_spec)
        (user_attributes sample_config sample_user)
resolve-registered_example =
    resolve-registered sample_config sample_user (codes "cry@auth0 > 18") (codes "cry=18@auth0")
      (record {
        attr = codes "cry";
        auth = codes "auth0";
        op = codes ">";
        value = 18;
        raw = codes "cry@auth0 > 18";
      })
      cry_spec (unfold parse_numeric_clause in refl) refl
      (unfold resolve_attr_spec_for_user in refl)

validate_issue_attr_org_example :
    validate_issue_attr_org sample_config (codes "org1") (codes "cry=20@auth1")
    ≡ validate_attr_org_auth sample_config (codes "org1") (codes "cry=20@auth1")
validate_issue_attr_org_example =
    validate_issue_attr_org_lem sample_config (codes "org1") (codes "cry=20@auth1")
