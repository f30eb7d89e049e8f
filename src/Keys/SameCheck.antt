-- ===== src/Keys/SameCheck.antt =====
-- user_client/service: the check of an attribute's authority in attr_format.go and that in
-- key_service.go.
use bc_abe.Common.{
  Bool, true, false, option_cases, inl, inr, ◌≡◌, refl, none, some, if◌then◌else◌, is_empty, not,
  ◌&&◌, ◌==◌,
}
use bc_abe.Text.{Text, cut_last}
use bc_abe.Keys.Result.{KeyError}
use bc_abe.Keys.Account.{Config}
use bc_abe.Keys.Format.{auth_from_attr_string, auth_of_cut}
use bc_abe.Keys.Parse.{validate_attr_org_auth}
use bc_abe.Keys.Issue.{auth_from_attr, validate_issue_attr_org}

auth_from_attr_lem : (s : Text) → auth_from_attr s ≡ auth_from_attr_string s
unfolding auth_from_attr auth_from_attr_string auth_of_cut
auth_from_attr_lem s = elim (option_cases (cut_last (λ c. c == b'@') s)) [
  | inl n ↦ rw (auth_from_attr, n)
  | inr ((base, tail), n) ↦ rw (auth_from_attr, n)
]

-- `validateIssueAttrOrg`, which `issueAndStore` calls, and `validateAttrOrgAuth`, which `parseAttrSpec`
-- calls, give the same error, or none, for every organisation and every attribute.
pub validate_issue_attr_org_lem :
    (cfg : Config) (org_name attr : Text)
    → validate_issue_attr_org cfg org_name attr ≡ validate_attr_org_auth cfg org_name attr
unfolding validate_issue_attr_org validate_attr_org_auth
validate_issue_attr_org_lem cfg org_name attr =
    rw (auth_from_attr_lem attr) (same_tests (is_empty (auth_from_attr_string attr)) _ _)
  where
    same_tests :
        (a b : Bool) (e : KeyError)
        → (if a then none else if not b then some e else none)
          ≡ (if not a && not b then some e else none)
    same_tests true b e = refl
    same_tests false b e = refl
