-- ===== src/Keys/Parse.antt =====
-- user_client/service/attr_format.go: `parseAttrSpec`.
use bc_abe.Common.{
  ℕ, ◌&&◌, not, [], ◌∷◌, ltb, if◌then◌else◌, is_empty, Option, none, some, ◌≡◌, refl,
}
use bc_abe.Text.{Text, codes, ◌=ᵗ◌, trim_space, equal_fold, contains}
use bc_abe.Keys.Result.{
  KeyError, empty_attribute, bad_hour, bad_number, other_authority, Result, returned, refused,
  unless,
}
use bc_abe.Keys.Account.{Config, auth_name_for_org, sample_config}
use bc_abe.Keys.Format.{
  AttrSpec, HourMatch, LegacyMatch, hour_policy, hour_legacy, numeric_legacy, parse_int, hour_spec,
  numeric_attr_spec, normalize_hour_op, auth_from_attr_string, append_auth_suffix,
}

-- `strconv.Atoi` and the range of an hour.
unfoldable pub parse_hour : Text → Option ℕ
unfolding parse_int
parse_hour s = elim (parse_int s) [
  | none ↦ none
  | some hour ↦ if ltb 23 hour then none else some hour
]

-- The authority of a legacy text: its own, or that of the organisation where it names none.
unfoldable pub auth_or : Text → Text → Text
auth_or auth [] = auth
auth_or auth (c ∷ an) = c ∷ an

-- `if an != auth { return attrSpec{}, ... }`
unfoldable pub own_spec : Text → Text → Text → AttrSpec → Result AttrSpec
own_spec auth org_name an sp =
    if an =ᵗ auth then returned sp else refused (other_authority an org_name)

unfoldable pub read_hour : Text → Text → Text → Text → Option ℕ → Result AttrSpec
unfolding own_spec hour_spec
read_hour auth org_name an op none = refused bad_hour
read_hour auth org_name an op (some hour) = own_spec auth org_name an (hour_spec an op hour)

unfoldable pub read_number : Text → Text → Text → Text → Option ℕ → Result AttrSpec
unfolding own_spec numeric_attr_spec
read_number auth org_name an name none = refused bad_number
read_number auth org_name an name (some value) =
    own_spec auth org_name an (numeric_attr_spec name value an)

unfoldable pub validate_attr_org_auth : Config → Text → Text → Option KeyError
unfolding auth_from_attr_string auth_name_for_org
validate_attr_org_auth cfg org_name attr =
    let attr_auth = auth_from_attr_string attr in
    if not (is_empty attr_auth) && not (attr_auth =ᵗ auth_name_for_org cfg org_name)
    then some (other_authority attr_auth org_name)
    else none

unfoldable pub read_plain : Config → Text → Text → Result AttrSpec
unfolding unless validate_attr_org_auth append_auth_suffix contains
read_plain cfg input org_name =
    let issue = append_auth_suffix cfg input org_name in
    unless (validate_attr_org_auth cfg org_name issue) (record {
      issue_attr = issue;
      display_label = if contains input (codes " ") then input else issue;
    })

-- What is read by the first expression that matches.
unfoldable pub by_match :
    Config
    → Text
    → Text
    → Option HourMatch
    → Option LegacyMatch
    → Option LegacyMatch
    → Result AttrSpec
unfolding read_hour read_number read_plain auth_or parse_hour parse_int auth_name_for_org
    normalize_hour_op trim_space equal_fold
by_match cfg input org_name (some m) _ _ =
    read_hour (auth_name_for_org cfg org_name) org_name (trim_space m.auth)
      (normalize_hour_op (trim_space m.op)) (parse_hour m.hour)
by_match cfg input org_name none (some m) _ =
    let auth = auth_name_for_org cfg org_name in
    read_hour auth org_name (auth_or auth m.auth) (codes "==") (parse_hour m.value)
by_match cfg input org_name none none (some m) =
    let auth = auth_name_for_org cfg org_name in
    if equal_fold m.name (codes "hour")
    then refused bad_hour
    else read_number auth org_name (auth_or auth m.auth) m.name (parse_int m.value)
by_match cfg input org_name none none none = read_plain cfg input org_name

unfoldable pub parse_attr_spec : Config → Text → Text → Result AttrSpec
unfolding by_match hour_policy hour_legacy numeric_legacy trim_space
parse_attr_spec cfg input0 org_name =
    let input = trim_space input0 in
    if is_empty input
    then refused empty_attribute
    else by_match cfg input org_name (hour_policy input) (hour_legacy input) (numeric_legacy input)

hour_9 :
    parse_attr_spec sample_config (codes "Hour@auth1 >= 9") (codes "org2")
    ≡ returned
        (record { issue_attr = codes "hour=9@auth1"; display_label = codes "hour@auth1 >= 9" })
unfolding parse_attr_spec
hour_9 = refl

cry_20 :
    parse_attr_spec sample_config (codes "Cry=20") (codes "org1")
    ≡ returned
        (record { issue_attr = codes "cry=20@auth0"; display_label = codes "Cry@auth0 == 20" })
unfolding parse_attr_spec
cry_20 = refl

other_org :
    parse_attr_spec sample_config (codes "Vit@auth0") (codes "org2")
    ≡ refused (other_authority (codes "auth0") (codes "org2"))
unfolding parse_attr_spec
other_org = refl
