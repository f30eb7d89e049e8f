-- ===== src/Keys/Format.antt =====
-- user_client/service/attr_format.go: the three expressions by which an attribute is read, and the
-- texts that are written for it.
use bc_abe.Common.{
  ℕ, Bool, ◌||◌, ◌==◌, [], ◌∷◌, ◌++◌, ltb, if◌then◌else◌, is_empty, Option, none, some,
}
use bc_abe.Text.{
  Text, codes, ◌=ᵗ◌, trim_space, to_lower, has_prefix, cut_last, up_to, contains, decimal, max_int,
  print_nat,
}
use bc_abe.Policy.Clause.{
  span, skip_blanks, read_op, is_digit, is_word_fold, is_letter_fold, is_space_or_tab,
}
use bc_abe.Policy.Rewrite.{match_word, some_of, ◌>>=◌}
use bc_abe.Keys.Account.{Config, auth_name_for_org}

pub record AttrSpec : Type 0 where
  pub issue_attr : Text
  pub display_label : Text

-- `(==|=|>=|<=|>|<)`
unfoldable pub read_hour_op : Text → Option (Text × Text)
unfolding read_op match_word
read_hour_op s = elim (read_op s) [ some m ↦ some m | none ↦ match_word (codes "=") s ]

-- `\s*$`
unfoldable pub at_end : Text → Option (Unit {0})
unfolding skip_blanks
at_end s = if is_empty (skip_blanks s) then some tt else none

pub record HourMatch : Type 0 where
  pub auth : Text
  pub op : Text
  pub hour : Text

-- `reHourPolicy`
unfoldable pub hour_policy : Text → Option HourMatch
unfolding match_word some_of read_hour_op skip_blanks at_end is_word_fold is_digit
hour_policy s = do
  (_, s1) ← match_word (codes "hour@") s
  (auth, s2) ← some_of is_word_fold s1
  (op, s3) ← read_hour_op (skip_blanks s2)
  (value, s4) ← some_of is_digit (skip_blanks s3)
  _ ← at_end s4
  some (record { auth = auth; op = op; hour = value })

pub record LegacyMatch : Type 0 where
  pub name : Text
  pub value : Text
  -- empty where the group took no part in the match
  pub auth : Text

-- `(@([a-zA-Z0-9_]+))?`: the name, and the text behind it.
unfoldable pub optional_auth : Text → Text × Text
unfolding match_word some_of is_word_fold
optional_auth s = elim (match_word (codes "@") s >>= (λ m. some_of is_word_fold m.1)) [
  | none ↦ ([], s)
  | some m ↦ m
]

-- `=(\d+)(@([a-zA-Z0-9_]+))?\s*$`
unfoldable pub legacy_value : Text → Text → Option LegacyMatch
unfolding match_word some_of optional_auth at_end is_digit
legacy_value name s = do
  (_, s1) ← match_word (codes "=") s
  (value, s2) ← some_of is_digit s1
  let (auth, s3) = optional_auth s2
  _ ← at_end s3
  some (record { name = name; value = value; auth = auth })

-- `reHourLegacy`
unfoldable pub hour_legacy : Text → Option LegacyMatch
unfolding match_word legacy_value
hour_legacy s = do (name, s1) ← match_word (codes "hour") s; legacy_value name s1

-- `reNumericLegacy`
unfoldable pub numeric_legacy : Text → Option LegacyMatch
unfolding span legacy_value is_letter_fold is_word_fold
numeric_legacy [] = none
numeric_legacy (c ∷ s) =
    let (name, rest) = span is_word_fold s in
    if is_letter_fold c then legacy_value (c ∷ name) rest else none

-- `strconv.Atoi` on digits; `none` is its error on a value out of range.
unfoldable pub parse_int : Text → Option ℕ
unfolding decimal
parse_int s = if ltb max_int (decimal s) then none else some (decimal s)

-- `fmt.Sprintf("%s=%d@%s", name, value, auth)`
unfoldable pub value_attr : Text → ℕ → Text → Text
unfolding print_nat
value_attr name value auth = name ++ b'=' ∷ (print_nat value ++ b'@' ∷ auth)

-- `fmt.Sprintf("%s@%s %s %d", name, auth, op, value)`
unfoldable pub clause_label : Text → Text → Text → ℕ → Text
unfolding print_nat
clause_label name auth op value = name ++ b'@' ∷ (auth ++ b' ' ∷ (op ++ b' ' ∷ print_nat value))

unfoldable pub normalize_hour_op : Text → Text
unfolding trim_space
normalize_hour_op op0 =
    let op = trim_space op0 in
    if op =ᵗ codes "==" || op =ᵗ codes "="
    then codes "=="
    else if op =ᵗ codes ">=" || op =ᵗ codes "<=" || op =ᵗ codes ">" || op =ᵗ codes "<"
    then op
    else codes "=="

unfoldable pub normalize_location : Text → Text
unfolding trim_space
normalize_location location0 =
    let location = trim_space location0 in
    if is_empty location || location =ᵗ codes "其他" || location =ᵗ codes "others"
    then codes "others"
    else if location =ᵗ codes "学校" || location =ᵗ codes "school"
    then codes "school"
    else if location =ᵗ codes "家" || location =ᵗ codes "home"
    then codes "home"
    else location

unfoldable pub hour_spec : Text → Text → ℕ → AttrSpec
unfolding value_attr clause_label
hour_spec auth op hour = record {
  issue_attr = value_attr (codes "hour") hour auth;
  display_label = clause_label (codes "hour") auth op hour;
}

unfoldable pub hour_attr_spec : Config → Text → ℕ → Text → AttrSpec
unfolding hour_spec normalize_hour_op auth_name_for_org
hour_attr_spec cfg org_name hour op =
    hour_spec (auth_name_for_org cfg org_name) (normalize_hour_op op) hour

unfoldable pub loc_attr_spec : Config → Text → Text → AttrSpec
unfolding normalize_location auth_name_for_org
loc_attr_spec cfg org_name location =
    let name = codes "loc" ++ normalize_location location in
    let attr = name ++ b'@' ∷ auth_name_for_org cfg org_name in
    record { issue_attr = attr; display_label = attr }

unfoldable pub numeric_attr_spec : Text → ℕ → Text → AttrSpec
unfolding to_lower value_attr clause_label
numeric_attr_spec name value auth = record {
  issue_attr = value_attr (to_lower name) value auth;
  display_label = clause_label name auth (codes "==") value;
}

unfoldable pub auth_of_cut : Option (Text × Text) → Text
unfolding up_to is_space_or_tab trim_space
auth_of_cut none = []
auth_of_cut (some (_, tail)) = up_to is_space_or_tab (trim_space tail)

-- `authFromAttrString`
unfoldable pub auth_from_attr_string : Text → Text
unfolding auth_of_cut cut_last
auth_from_attr_string s = auth_of_cut (cut_last (λ c. c == b'@') s)

unfoldable pub append_auth_suffix : Config → Text → Text → Text
unfolding trim_space contains auth_name_for_org
append_auth_suffix cfg attribute0 org_name =
    let attribute = trim_space attribute0 in
    if is_empty attribute
    then []
    else if contains attribute (codes "@")
    then attribute
    else attribute ++ b'@' ∷ auth_name_for_org cfg org_name

unfoldable pub is_policy_style_key_attr : Text → Bool
unfolding to_lower has_prefix
is_policy_style_key_attr issue_attr =
    has_prefix (to_lower issue_attr) (codes "hour=")
    || has_prefix (to_lower issue_attr) (codes "loc")
