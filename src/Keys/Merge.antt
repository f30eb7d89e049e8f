-- ===== src/Keys/Merge.antt =====
-- user_client/service/key_service.go: the keys that a user has for a policy, `MergeUserKeysForPolicy`,
-- and `ListUserKeys`. `none` is a panic, or a nil pointer of pkg/mosaic.
use mathlib.Core.List.{flat_map}
use bc_abe.Common.{
  ℕ, Bool, true, false, ◌&&◌, ◌||◌, not, List, [], ◌∷◌, if◌then◌else◌, is_empty, Option, none, some,
}
use bc_abe.Text.{Text, trim_space}
use bc_abe.Chaincode.Stub.{Reply, ok, failed}
use bc_abe.Policy.Normalize.{normalize_policy_syntax}
use bc_abe.Policy.Keys.{
  KeyIssueSpec, Specs, specs, failed as no_specs, panics, no_attributes, no_authority, is_seen,
  key_issue_specs_from_policy,
}
use bc_abe.Policy.Missing.{policy_missing_user_keys}
use bc_abe.Authority.Engine.{Mosaic, merge_user_keys}
use bc_abe.Keys.Account.{Config}
use bc_abe.Keys.Accounts.{Account}
use bc_abe.Keys.Labels.{key_labels_for_policy_spec, numeric_key_base}
use bc_abe.Keys.Issuing.{user_of}
use bc_abe.Keys.Table.{UserAbeKey, KeyTable}

pub record UserKeyRecord : Type 0 where
  pub attribute : Text
  pub version : ℕ
  pub keys : ℕ

-- The rows of `Find`, whose error the merge does not read.
unfoldable pub found_rows : Reply (List UserAbeKey) → List UserAbeKey
found_rows (ok rows) = rows
found_rows (failed t) = []

-- The loop of `ListUserKeys`, without the time of creation.
unfoldable pub list_from : (Text → ℕ) → List Text → List UserAbeKey → List UserKeyRecord
unfolding is_seen
list_from count seen [] = []
list_from count seen (row ∷ rows) = elim (is_seen row.attribute seen) [
  | true ↦ list_from count seen rows
  | false ↦
      record { attribute = row.attribute; version = row.version; keys = count row.user_key_json }
      ∷ list_from count (row.attribute ∷ seen) rows
]

unfoldable pub labels_of_spec : Config → Option Account → KeyIssueSpec → List Text
unfolding key_labels_for_policy_spec user_of
labels_of_spec cfg none spec = spec.display_label ∷ spec.issue_attr ∷ []
labels_of_spec cfg (some user) spec = key_labels_for_policy_spec cfg (user_of user) spec

unfoldable pub labels_of_specs : Config → Option Account → Specs → Option (List Text)
unfolding flat_map labels_of_spec
labels_of_specs cfg user (specs sps) = some (flat_map (labels_of_spec cfg user) sps)
labels_of_specs cfg user (no_specs panics) = none
labels_of_specs cfg user (no_specs no_attributes) = some []
labels_of_specs cfg user (no_specs (no_authority t)) = some []

-- The keys of the map `want`, for the user that is given or found.
unfoldable pub wanted_labels : Config → Option Account → Text → Option (List Text)
unfolding labels_of_specs normalize_policy_syntax key_issue_specs_from_policy trim_space
wanted_labels cfg user policy = elim (is_empty (trim_space policy)) [
  | true ↦ some []
  | false ↦ elim (normalize_policy_syntax policy) [
    | none ↦ none
    | some p ↦ labels_of_specs cfg user (key_issue_specs_from_policy p)
  ]
]

unfoldable pub org_of_user : Option Account → Text
org_of_user none = []
org_of_user (some user) = user.org_name

unfoldable pub base_of : Config → Text → Text → Text
unfolding numeric_key_base
base_of cfg org_name attribute =
    if is_empty org_name then [] else numeric_key_base cfg attribute org_name

-- The tests of the loop that pass over a row.
unfoldable pub passed_over : List Text → List Text → List Text → Text → Text → Bool
unfolding is_seen
passed_over want seen numeric_merged base attribute =
    is_seen attribute seen
    || (not (is_empty want) && not (is_seen attribute want))
    || (not (is_empty base) && is_seen base numeric_merged)

unfoldable pub add_base : Text → List Text → List Text
add_base [] numeric_merged = numeric_merged
add_base (c ∷ base) numeric_merged = (c ∷ base) ∷ numeric_merged

-- The rows that the loop merges, in its order.
unfoldable pub merged_rows :
    Config → Text → List Text → List Text → List Text → List UserAbeKey → List UserAbeKey
unfolding passed_over base_of add_base
merged_rows cfg org_name want seen numeric_merged [] = []
merged_rows cfg org_name want seen numeric_merged (row ∷ rows) =
    let base = base_of cfg org_name row.attribute in
    elim (passed_over want seen numeric_merged base row.attribute) [
      | true ↦ merged_rows cfg org_name want seen numeric_merged rows
      | false ↦
          row
          ∷ merged_rows cfg org_name want (row.attribute ∷ seen) (add_base base numeric_merged) rows
    ]

module _ (mosaic : Mosaic) where
  open mosaic use {
    UserAttrs, user_attrs_of_json, no_user_attrs, userkey_names, coeff_names, set_user,
    set_no_coeff,
  }

  unfoldable pub merge_rows : Option UserAttrs → List UserAbeKey → Option UserAttrs
  unfolding merge_user_keys
  merge_rows merged [] = merged
  merge_rows merged (row ∷ rows) =
      merge_rows (merge_user_keys mosaic merged (user_attrs_of_json row.user_key_json)) rows

  -- `if _, ok := merged.Coeff[attr]; !ok { merged.Coeff[attr] = []int{} }`
  unfoldable pub fill_coeff : List Text → UserAttrs → UserAttrs
  unfolding is_seen
  fill_coeff [] m = m
  fill_coeff (attr ∷ attrs) m =
      fill_coeff attrs (if is_seen attr (coeff_names m) then m else set_no_coeff attr m)

  unfoldable pub finish_merge : Text → Option UserAttrs → UserAttrs
  unfolding fill_coeff
  finish_merge username none = no_user_attrs username
  finish_merge username (some m) = let m' = set_user username m in fill_coeff (userkey_names m') m'

  module _ (table : KeyTable) (cfg : Config) where
    open table use {State, of_user}

    -- `user` is the account that the caller gives, or the one of `user_id` that is found in its place.
    unfoldable pub merge_user_keys_for_policy :
        ℕ → Text → Text → Option Account → State → Option UserAttrs
    unfolding finish_merge merge_rows merged_rows wanted_labels org_of_user found_rows
    merge_user_keys_for_policy user_id username policy user s =
        elim (wanted_labels cfg user policy) [
          | none ↦ none
          | some want ↦ some (
              finish_merge username (
                merge_rows none
                  (merged_rows cfg (org_of_user user) want [] [] (found_rows (of_user user_id s)))))
        ]

    -- `missingAttrsSet` on what is merged.
    unfoldable pub missing_attrs : (Text → List Text) → Text → Account → State → Option (List Text)
    unfolding merge_user_keys_for_policy policy_missing_user_keys
    missing_attrs policy_vars policy user s =
        elim (merge_user_keys_for_policy user.id user.username policy (some user) s) [
          | none ↦ none
          | some merged ↦ policy_missing_user_keys policy_vars policy (some (userkey_names merged))
        ]
