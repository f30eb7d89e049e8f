-- ===== src/Policy/Keys.antt =====
-- abe/policy.go: `KeyIssueSpecsFromPolicy` and `ValidateUIPolicy`. The checks of pkg/mosaic are
-- parameters.
use bc_abe.Common.{
  ℕ, Bool, true, false, ◌||◌, not, List, [], ◌∷◌, ◌++◌, ltb, if◌then◌else◌, is_empty, length,
  Option, none, some,
}
use bc_abe.Text.{Text, codes, ◌=ᵗ◌, trim_space, to_lower, print_nat, atoi, contains}
use bc_abe.Policy.Clause.{
  NumericMatch, find_numeric, auth_name_from_clause, CompareError, validate_numeric_compare,
}
use bc_abe.Policy.Normalize.{normalize_policy_syntax}
use bc_abe.Policy.Leaves.{PolicyClause, policy_leaf_clauses, parse_policy_clauses}

pub record KeyIssueSpec : Type 0 where
  pub issue_attr : Text
  pub display_label : Text
  pub auth_name : Text

pub data SpecError : Type 0 where
  panics : SpecError
  no_attributes : SpecError
  no_authority : Text → SpecError

pub data Specs : Type 0 where
  specs : List KeyIssueSpec → Specs
  failed : SpecError → Specs

-- What one round of the loop makes of its leaf, before it looks whether the attribute was seen.
pub data Leaf : Type 0 where
  skipped : Leaf
  bad_leaf : Text → Leaf
  found : KeyIssueSpec → Leaf

-- `fmt.Sprintf("%s=%d@%s", strings.ToLower(m[1]), value, auth)`
unfoldable pub issue_text : Text → ℕ → Text → Text
unfolding to_lower print_nat
issue_text attr value auth = to_lower attr ++ b'=' ∷ (print_nat value ++ b'@' ∷ auth)

numeric_leaf : Text → Text → NumericMatch → Leaf
unfolding issue_text atoi
numeric_leaf part auth m =
    if is_empty auth
    then bad_leaf part
    else found (record {
      issue_attr = issue_text m.attr (atoi m.value) auth;
      display_label = part;
      auth_name = auth;
    })

leaf_of_match : Text → Option NumericMatch → Leaf
unfolding numeric_leaf auth_name_from_clause
leaf_of_match part (some m) = numeric_leaf part (auth_name_from_clause part) m
leaf_of_match part none =
    if is_empty part
    then skipped
    else found
        (record { issue_attr = part; display_label = part; auth_name = auth_name_from_clause part })

unfoldable pub read_leaf : Text → Leaf
unfolding leaf_of_match find_numeric trim_space
read_leaf part0 = let part = trim_space part0 in leaf_of_match part (find_numeric part)

-- `seen[s]`
unfoldable pub is_seen : Text → List Text → Bool
is_seen s [] = false
is_seen s (t ∷ seen) = s =ᵗ t || is_seen s seen

unfoldable pub add_spec : KeyIssueSpec → Specs → Specs
add_spec sp (specs sps) = specs (sp ∷ sps)
add_spec sp (failed e) = failed e

-- The loop over the leaves.
unfoldable pub collect_specs : List Text → List Text → Specs
unfolding add_spec
collect_specs seen [] = specs []
collect_specs seen (part ∷ parts) = elim (read_leaf part) [
  | skipped ↦ collect_specs seen parts
  | bad_leaf s ↦ failed (no_authority s)
  | found sp ↦ elim (is_seen sp.issue_attr seen) [
    | true ↦ collect_specs seen parts
    | false ↦ add_spec sp (collect_specs (sp.issue_attr ∷ seen) parts)
  ]
]

unfoldable pub non_empty_specs : Specs → Specs
non_empty_specs (specs []) = failed no_attributes
non_empty_specs (specs (sp ∷ sps)) = specs (sp ∷ sps)
non_empty_specs (failed e) = failed e

unfoldable pub specs_of_normalized : Option Text → Specs
unfolding policy_leaf_clauses collect_specs read_leaf is_seen non_empty_specs
specs_of_normalized none = failed panics
specs_of_normalized (some p) = non_empty_specs (collect_specs [] (policy_leaf_clauses p))

-- A policy with no leaf fails by the first test of the source, and by `len(specs) == 0` here.
unfoldable pub key_issue_specs_from_policy : Text → Specs
unfolding specs_of_normalized normalize_policy_syntax
key_issue_specs_from_policy policy = specs_of_normalized (normalize_policy_syntax policy)

pub data PolicyError : Type 0 where
  panics : PolicyError
  empty_policy : PolicyError
  bad_compare : CompareError → PolicyError
  two_numeric_clauses : PolicyError
  not_encryptable : PolicyError
  bad_syntax : PolicyError

unfoldable pub numeric_clauses : List PolicyClause → List PolicyClause
numeric_clauses [] = []
numeric_clauses (c ∷ cs) = if is_empty c.op then numeric_clauses cs else c ∷ numeric_clauses cs

-- `validatePolicyComposition` returns an error.
unfoldable pub too_many_numeric : List PolicyClause → Bool
unfolding numeric_clauses
too_many_numeric cs = ltb 1 (length (numeric_clauses cs))

unfoldable pub first_compare_error : List PolicyClause → Option CompareError
unfolding validate_numeric_compare
first_compare_error [] = none
first_compare_error (c ∷ cs) =
    if is_empty c.op
    then first_compare_error cs
    else elim (validate_numeric_compare c.attr c.op c.value) [
      | none ↦ first_compare_error cs
      | some e ↦ some e
    ]

-- `mosaic.CheckPolicyEncryptable` and `mosaic.ValidateAccessPolicy` return no error.
module _ (encryptable valid : Text → Bool) where
  check_composition : Text → List PolicyClause → Option CompareError → Option PolicyError
  unfolding too_many_numeric
  check_composition p cs (some e) = some (bad_compare e)
  check_composition p cs none =
      if too_many_numeric cs
      then some two_numeric_clauses
      else if not (encryptable p)
      then some not_encryptable
      else if not (valid p)
      then some bad_syntax
      else none

  validate_normalized : Option Text → Option PolicyError
  unfolding check_composition parse_policy_clauses first_compare_error trim_space
  validate_normalized none = some panics
  validate_normalized (some p) =
      let cs = parse_policy_clauses p in
      if is_empty (trim_space p)
      then some empty_policy
      else check_composition p cs (first_compare_error cs)

  -- `none` is the `nil` error.
  unfoldable pub validate_ui_policy : Text → Option PolicyError
  unfolding validate_normalized normalize_policy_syntax
  validate_ui_policy policy = validate_normalized (normalize_policy_syntax policy)

pub data EncryptError : Type 0 where
  panics : EncryptError
  bad_structure cannot_encrypt : Text → EncryptError

-- The error that `CheckPolicyEncryptable` makes of one of pkg/mosaic.
unfoldable pub encrypt_error : Option Text → Option EncryptError
unfolding contains
encrypt_error none = none
encrypt_error (some message) =
    if contains message (codes "matrix mismatch")
    then some (bad_structure message)
    else some (cannot_encrypt message)

-- `check` is `mosaic.CheckPolicyEncryptable`.
unfoldable pub check_policy_encryptable : (Text → Option Text) → Text → Option EncryptError
unfolding encrypt_error normalize_policy_syntax
check_policy_encryptable check policy = elim (normalize_policy_syntax policy) [
  | none ↦ some panics
  | some p ↦ encrypt_error (check p)
]

issue_attrs : Specs → List Text
issue_attrs (failed e) = []
issue_attrs (specs []) = []
issue_attrs (specs (sp ∷ sps)) = sp.issue_attr ∷ issue_attrs (specs sps)
