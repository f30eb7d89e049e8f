-- ===== src/Keys/Ensure.antt =====
-- user_client/service/key_service.go: `EnsureKeysForPolicy`, which asks for the keys of a policy that
-- the user lacks. `none` is a panic.
use bc_abe.Common.{
  Bool, true, false, ◌&&◌, ◌||◌, not, List, [], ◌∷◌, ◌++◌, if◌then◌else◌, is_empty, Option, none,
  some,
}
use bc_abe.Text.{Text, codes, ◌=ᵗ◌}
use bc_abe.Apperr.{Error, other, wrapped}
use bc_abe.Apperr.Answer.{Answer, answer, raise}
use bc_abe.Policy.Normalize.{normalize_policy_syntax}
use bc_abe.Policy.Keys.{
  KeyIssueSpec, SpecError, Specs, specs, failed as no_specs, panics, no_attributes, no_authority,
  is_seen, key_issue_specs_from_policy,
}
use bc_abe.Authority.Engine.{Mosaic}
use bc_abe.Msp.PrivateKey.{KeyPem}
use bc_abe.Keys.Result.{Result, returned, refused}
use bc_abe.Keys.Account.{Config, auth_name_for_org}
use bc_abe.Keys.Accounts.{Account}
use bc_abe.Keys.Format.{AttrSpec}
use bc_abe.Keys.Numeric.{resolve_attr_spec_for_user}
use bc_abe.Keys.Issue.{authorize_key_issue}
use bc_abe.Keys.Table.{KeyTable}
use bc_abe.Keys.Issuing.{Network, Ports, AutoKeyResult, user_of, issue_and_store, auto_key_result}
use bc_abe.Keys.Merge.{missing_attrs}

-- Some specification is for another organisation's authority.
unfoldable pub names_other_authority : Text → List KeyIssueSpec → Bool
names_other_authority user_auth [] = false
names_other_authority user_auth (spec ∷ sps) =
    (not (is_empty spec.auth_name) && not (spec.auth_name =ᵗ user_auth))
    || names_other_authority user_auth sps

-- One of the attributes is among the others.
unfoldable pub any_among : List Text → List Text → Bool
unfolding is_seen
any_among [] missing = false
any_among (attr ∷ attrs) missing = is_seen attr missing || any_among attrs missing

-- How a call ends: the table, which keeps what was stored before an error; the results; the error.
pub record Ensured (S : Type 0) : Type 0 where
  pub state : S
  pub issued : List AutoKeyResult
  pub error : Option Error

-- The errors whose text is only told.
abbrev pub resolve_failed : Error
resolve_failed = other (codes "resolve")

abbrev pub not_authorized : Error
not_authorized = other (codes "authorize")

abbrev pub other_organization : Error
other_organization = other (codes "策略含其他组织属性")

abbrev pub still_missing : Error
still_missing = other (codes "仍缺少策略属性密钥")

unfoldable pub specs_error : SpecError → Option Error
specs_error panics = none
specs_error no_attributes = some (other (codes "no attributes"))
specs_error (no_authority part) = some (other part)

-- `expansion` is `IssueAttributeExpansion`, and `policy_vars` is `mosaic.PolicyVars`.
module _ (expansion policy_vars : Text → List Text) (mosaic : Mosaic) (keys : KeyPem)
    (net : Network) (cfg : Config) (ports : Ports) (table : KeyTable) where
  open table use {State}

  resolved_among : Result AttrSpec → List Text → Bool
  unfolding any_among
  resolved_among (refused e) missing = false
  resolved_among (returned spec) missing = any_among (expansion spec.issue_attr) missing

  unfoldable pub spec_needs_issue : Account → KeyIssueSpec → List Text → Bool
  unfolding resolved_among any_among is_seen resolve_attr_spec_for_user user_of
  spec_needs_issue user spec missing =
      not (is_empty missing)
      && (resolved_among
            (resolve_attr_spec_for_user cfg (user_of user) spec.display_label spec.issue_attr)
            missing
          || any_among (expansion spec.issue_attr) missing
          || is_seen spec.issue_attr missing
          || is_seen spec.display_label missing)

  -- The end behind the loop.
  unfoldable pub end_of : State → List AutoKeyResult → List Text → Ensured State
  end_of s issued missing = record {
    state = s;
    issued = issued;
    error = if is_empty missing then none else some still_missing;
  }

  abbrev stop : State → List AutoKeyResult → Error → Option (Ensured State)
  stop s issued e = some (record { state = s; issued = issued; error = some e })

  -- The key for one specification: the table and the result, or the error that ends the loop.
  unfoldable pub issue_for : Account → KeyIssueSpec → State → Answer (State × AutoKeyResult)
  unfolding resolve_attr_spec_for_user authorize_key_issue issue_and_store auto_key_result user_of
  issue_for user spec s =
      elim (resolve_attr_spec_for_user cfg (user_of user) spec.display_label spec.issue_attr) [
        | refused e ↦ raise resolve_failed
        | returned attr_spec ↦
            elim (authorize_key_issue cfg (user_of user) attr_spec spec.display_label) [
              | some e ↦ raise not_authorized
              | none ↦ elim (issue_and_store keys net cfg ports table user attr_spec s) [
                | raise e ↦ raise (wrapped e (codes "申请"))
                | answer r ↦ answer (r.0, auto_key_result keys net cfg ports table user attr_spec r)
              ]
            ]
      ]

  -- The loop over the specifications.
  unfoldable pub ensure_each :
      Text
      → Account
      → List KeyIssueSpec
      → List Text
      → State
      → List AutoKeyResult
      → Option (Ensured State)
  unfolding end_of spec_needs_issue issue_for missing_attrs
  ensure_each policy user [] missing s issued = some (end_of s issued missing)
  ensure_each policy user (spec ∷ sps) missing s issued =
      elim (spec_needs_issue user spec missing) [
        | false ↦ ensure_each policy user sps missing s issued
        | true ↦ elim (issue_for user spec s) [
          | raise e ↦ stop s issued e
          | answer (s', result) ↦ elim (missing_attrs mosaic table cfg policy_vars policy user s') [
            | none ↦ none
            | some [] ↦ some (end_of s' (issued ++ result ∷ []) [])
            | some (attr ∷ attrs) ↦
                ensure_each policy user sps (attr ∷ attrs) s' (issued ++ result ∷ [])
          ]
        ]
      ]

  unfoldable pub ensure_specs : Text → Account → List KeyIssueSpec → State → Option (Ensured State)
  unfolding ensure_each names_other_authority missing_attrs auth_name_for_org
  ensure_specs policy user sps s =
      elim (names_other_authority (auth_name_for_org cfg user.org_name) sps) [
        | true ↦ stop s [] other_organization
        | false ↦ elim (missing_attrs mosaic table cfg policy_vars policy user s) [
          | none ↦ none
          | some [] ↦ some (end_of s [] [])
          | some (attr ∷ attrs) ↦ ensure_each policy user sps (attr ∷ attrs) s []
        ]
      ]

  unfoldable pub ensure_of_specs : Text → Account → State → Specs → Option (Ensured State)
  unfolding ensure_specs specs_error
  ensure_of_specs policy user s (specs sps) = ensure_specs policy user sps s
  ensure_of_specs policy user s (no_specs e) = elim (specs_error e) [
    | none ↦ none
    | some err ↦ stop s [] err
  ]

  unfoldable pub ensure_keys_for_policy : Account → Text → State → Option (Ensured State)
  unfolding ensure_of_specs normalize_policy_syntax key_issue_specs_from_policy
  ensure_keys_for_policy user policy s = elim (normalize_policy_syntax policy) [
    | none ↦ none
    | some p ↦ ensure_of_specs p user s (key_issue_specs_from_policy p)
  ]
