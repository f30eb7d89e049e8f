-- ===== src/Keys/OwnAuthority.antt =====
-- user_client/service/attr_format.go: no user is given a specification of another organisation.
use bc_abe.Common.{
  ℕ, ◌≡◌, refl, subst, arith, inl, inr, ◌∷◌, ◌++◌, append_assoc, Option, none, some, ◌==◌, is_empty,
  Bool-cases,
}
use bc_abe.Text.{Text, codes, trim_space, cut_last, up_to, equal_fold, print_nat, to_lower}
use bc_abe.Text.Equality.{=ᵗ→≡, =ᵗ_self}
use bc_abe.Text.Cuts.{cut_last-append}
use bc_abe.Policy.Clause.{is_space_or_tab}
use bc_abe.Keys.Result.{KeyError, returned, unless}
use bc_abe.Keys.Account.{Config, auth_name_for_org}
use bc_abe.Keys.Format.{
  AttrSpec, HourMatch, LegacyMatch, hour_policy, hour_legacy, numeric_legacy, parse_int, hour_spec,
  numeric_attr_spec, value_attr, auth_of_cut, auth_from_attr_string, append_auth_suffix,
}
use bc_abe.Keys.Parse.{
  own_spec, parse_hour, read_hour, read_number, read_plain, by_match, validate_attr_org_auth,
  parse_attr_spec,
}

-- A name that `authFromAttrString` reads back: one word, without `@`.
pub record IsAuthName (a : Text) : Type 0 where
  pub no_at : cut_last (λ c. c == b'@') a ≡ none
  pub trimmed : trim_space a ≡ a
  pub one_word : up_to is_space_or_tab a ≡ a

written_auth : (x a : Text) → IsAuthName a → auth_from_attr_string (x ++ b'@' ∷ a) ≡ a
unfolding auth_from_attr_string auth_of_cut
written_auth x a h = rw (cut_last-append x a h.no_at, h.trimmed, h.one_word)

-- The test that `own_spec` makes.
own_spec-inv :
    (auth org_name an : Text) (sp sp' : AttrSpec)
    → own_spec auth org_name an sp ≡ returned sp'
    → (an ≡ auth) × (sp' ≡ sp)
unfolding own_spec
own_spec-inv auth org_name an sp sp' e = ground (arith, =ᵗ→≡ an auth)

unless-inv :
    (e : Option KeyError) (sp sp' : AttrSpec) → unless e sp ≡ returned sp' → (e ≡ none) × (sp' ≡ sp)
unfolding unless
unless-inv none sp sp' r = (refl, cc)
unless-inv (some e) sp sp' r = cc

module _ (cfg : Config) (org_name : Text) (h : IsAuthName (auth_name_for_org cfg org_name)) where
  abbrev Own : AttrSpec → Type 0
  Own sp = validate_attr_org_auth cfg org_name sp.issue_attr ≡ none

  own_suffix :
      (x : Text)
      → validate_attr_org_auth cfg org_name (x ++ b'@' ∷ auth_name_for_org cfg org_name) ≡ none
  unfolding validate_attr_org_auth
  own_suffix x =
      rw
        (
          written_auth x (auth_name_for_org cfg org_name) h,
          =ᵗ_self (auth_name_for_org cfg org_name),
        )
        (ground arith)

  own_value :
      (name : Text) (value : ℕ)
      → validate_attr_org_auth cfg org_name (value_attr name value (auth_name_for_org cfg org_name))
        ≡ none
  unfolding value_attr
  own_value name value =
      subst (λ t. validate_attr_org_auth cfg org_name t ≡ none)
        (append_assoc name (b'=' ∷ print_nat value) (b'@' ∷ auth_name_for_org cfg org_name))
        (own_suffix (name ++ b'=' ∷ print_nat value))

  hour-Own :
      (an op : Text) (value : Option ℕ) (sp : AttrSpec)
      → read_hour (auth_name_for_org cfg org_name) org_name an op value ≡ returned sp
      → Own sp
  unfolding read_hour hour_spec
  hour-Own an op none sp r = cc
  hour-Own an op (some hour) sp r =
      let (e, same) = own_spec-inv _ org_name an (hour_spec an op hour) sp r in
      rw (same, e) (own_value (codes "hour") hour)

  number-Own :
      (an name : Text) (value : Option ℕ) (sp : AttrSpec)
      → read_number (auth_name_for_org cfg org_name) org_name an name value ≡ returned sp
      → Own sp
  unfolding read_number numeric_attr_spec
  number-Own an name none sp r = cc
  number-Own an name (some v) sp r =
      let (e, same) = own_spec-inv _ org_name an (numeric_attr_spec name v an) sp r in
      rw (same, e) (own_value (to_lower name) v)

  plain-Own : (input : Text) (sp : AttrSpec) → read_plain cfg input org_name ≡ returned sp → Own sp
  unfolding read_plain
  plain-Own input sp r =
      let (valid, same) =
        unless-inv (validate_attr_org_auth cfg org_name (append_auth_suffix cfg input org_name)) _
          sp r in
      rw same valid

  match-Own :
      (input : Text) (a : Option HourMatch) (b c : Option LegacyMatch) (sp : AttrSpec)
      → by_match cfg input org_name a b c ≡ returned sp
      → Own sp
  unfolding by_match
  match-Own input (some m) b c sp r = hour-Own _ _ (parse_hour m.hour) sp r
  match-Own input none (some m) c sp r = hour-Own _ (codes "==") (parse_hour m.value) sp r
  match-Own input none none (some m) sp r = elim (Bool-cases (equal_fold m.name (codes "hour"))) [
    | inl t ↦ let r' = rw t at r in cc
    | inr f ↦ number-Own _ m.name (parse_int m.value) sp (rw f at r)
  ]
  match-Own input none none none sp r = plain-Own input sp r

  -- Where the name of the organisation's authority is one word without `@`: whatever specification
  -- `parseAttrSpec` returns, `validateAttrOrgAuth` accepts the attribute that is to be issued.
  pub parse_attr_spec-Own :
      (input : Text) (sp : AttrSpec)
      → parse_attr_spec cfg input org_name ≡ returned sp
      → validate_attr_org_auth cfg org_name sp.issue_attr ≡ none
  unfolding parse_attr_spec
  parse_attr_spec-Own input sp r = elim (Bool-cases (is_empty (trim_space input))) [
    | inl t ↦ let r' = rw t at r in cc
    | inr f ↦
        match-Own (trim_space input) (hour_policy (trim_space input))
          (hour_legacy (trim_space input)) (numeric_legacy (trim_space input)) sp (rw f at r)
  ]
