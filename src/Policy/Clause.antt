-- ===== src/Policy/Clause.antt =====
-- abe/policy.go: the numeric clauses of a policy, `attr@auth op value`, and their checks.
-- A match of a regular expression is a scanner: in these expressions no class holds a character
-- that may follow it, so the greedy match of each part is the only one.
use bc_abe.Common.{
  ℕ, Bool, true, false, ◌&&◌, ◌||◌, not, [], ◌∷◌, ltb, leb, ◌==◌, if◌then◌else◌, is_empty, Option,
  none, some, ◌≡◌, refl,
}
use bc_abe.Text.{Text, codes, ◌=ᵗ◌, trim_space, equal_fold, cut_first, up_to, atoi, has_prefix}

unfoldable pub is_letter : ℕ → Bool
is_letter c = (leb b'a' c && leb c b'z') || (leb b'A' c && leb c b'Z')

-- `\d`
unfoldable pub is_digit : ℕ → Bool
is_digit c = leb b'0' c && leb c b'9'

-- `[a-zA-Z0-9_]`
unfoldable pub is_word : ℕ → Bool
unfolding is_letter is_digit
is_word c = is_letter c || is_digit c || c == b'_'

-- Under `(?i)` the letters that fold to s and k, U+017F and U+212A, belong to `[a-zA-Z]` too.
unfoldable pub is_letter_fold : ℕ → Bool
unfolding is_letter
is_letter_fold c = is_letter c || c == 0x17F || c == 0x212A

unfoldable pub is_word_fold : ℕ → Bool
unfolding is_letter_fold is_digit
is_word_fold c = is_letter_fold c || is_digit c || c == b'_'

-- `\s`
unfoldable pub is_blank : ℕ → Bool
is_blank c = c == 0x20 || c == 9 || c == 10 || c == 12 || c == 13

-- The longest prefix of characters that pass the test, and the rest.
unfoldable pub span : (ℕ → Bool) → Text → Text × Text
span test [] = ([], [])
span test (c ∷ s) = if test c then (let (a, b) = span test s in (c ∷ a, b)) else ([], c ∷ s)

-- `\s*`
unfoldable pub skip_blanks : Text → Text
unfolding is_blank
skip_blanks [] = []
skip_blanks (c ∷ s) = if is_blank c then skip_blanks s else c ∷ s

-- `(==|>=|<=|>|<)`
unfoldable pub read_op : Text → Option (Text × Text)
unfolding has_prefix
read_op [] = none
read_op (c ∷ []) = if c == b'>' || c == b'<' then some (c ∷ [], []) else none
read_op (c ∷ d ∷ s) =
    if (c == b'=' || c == b'>' || c == b'<') && d == b'='
    then some (c ∷ d ∷ [], s)
    else if c == b'>' || c == b'<'
    then some (c ∷ [], d ∷ s)
    else none

-- The groups of `rePolicyNumericClause`.
pub record NumericMatch : Type 0 where
  pub attr : Text
  pub auth : Text
  pub op : Text
  pub value : Text

-- `(\d+)\s*$`
match_value : Text → Text → Text → Text → Option NumericMatch
unfolding span skip_blanks is_digit
match_value attr auth op s =
    let (value, rest) = span is_digit (skip_blanks s) in
    if not (is_empty value) && is_empty (skip_blanks rest)
    then some (record { attr = attr; auth = auth; op = op; value = value })
    else none

match_op : Text → Text → Option (Text × Text) → Option NumericMatch
unfolding match_value
match_op attr auth none = none
match_op attr auth (some (op, s)) = match_value attr auth op s

-- `([a-zA-Z0-9_]+)\s*(==|>=|<=|>|<)\s*(\d+)\s*$`
match_auth : Text → Text → Option NumericMatch
unfolding match_op read_op span skip_blanks is_word_fold
match_auth attr s =
    let (auth, rest) = span is_word_fold s in
    if is_empty auth then none else match_op attr auth (read_op (skip_blanks rest))

match_at_sign : Text → Text → Option NumericMatch
unfolding match_auth
match_at_sign attr [] = none
match_at_sign attr (c ∷ s) = if c == b'@' then match_auth attr s else none

-- `rePolicyNumericClause` at the start of a text.
unfoldable pub match_numeric : Text → Option NumericMatch
unfolding match_at_sign span is_letter_fold is_word_fold
match_numeric [] = none
match_numeric (c ∷ s) =
    let (name, rest) = span is_word_fold s in
    if is_letter_fold c then match_at_sign (c ∷ name) rest else none

unfoldable pub or_else : Option NumericMatch → Option NumericMatch → Option NumericMatch
or_else none n = n
or_else (some m) n = some m

-- `rePolicyNumericClause.FindStringSubmatch`: the leftmost match.
unfoldable pub find_numeric : Text → Option NumericMatch
unfolding match_numeric or_else
find_numeric [] = none
find_numeric (c ∷ s) = or_else (match_numeric (c ∷ s)) (find_numeric s)

-- `rePolicyNumericClause.MatchString`
unfoldable pub is_numeric : Text → Bool
unfolding find_numeric
is_numeric s = elim (find_numeric s) [ none ↦ false | some m ↦ true ]

pub record NumericClause : Type 0 where
  pub attr : Text
  pub auth : Text
  pub op : Text
  pub value : ℕ
  pub raw : Text

clause_of_match : Text → Option NumericMatch → Option NumericClause
unfolding atoi
clause_of_match part none = none
clause_of_match part (some m) =
    some (record { attr = m.attr; auth = m.auth; op = m.op; value = atoi m.value; raw = part })

unfoldable pub parse_numeric_clause : Text → Option NumericClause
unfolding clause_of_match find_numeric trim_space
parse_numeric_clause part =
    let part' = trim_space part in clause_of_match part' (find_numeric part')

unfoldable pub numeric_compare_satisfied : ℕ → Text → ℕ → Bool
numeric_compare_satisfied user op threshold =
    if op =ᵗ codes "=="
    then user == threshold
    else if op =ᵗ codes ">"
    then ltb threshold user
    else if op =ᵗ codes ">="
    then leb threshold user
    else if op =ᵗ codes "<"
    then ltb user threshold
    else if op =ᵗ codes "<="
    then leb user threshold
    else false

abbrev pub policy_int_min : ℕ
policy_int_min = 0

abbrev pub policy_int_max : ℕ
policy_int_max = 65535

abbrev pub policy_hour_max : ℕ
policy_hour_max = 23

all_words : Text → Bool
unfolding is_word
all_words [] = true
all_words (c ∷ s) = is_word c && all_words s

-- `rePolicyAttrName.MatchString`
unfoldable pub is_attr_name : Text → Bool
unfolding all_words is_letter
is_attr_name [] = false
is_attr_name (c ∷ s) = is_letter c && all_words s

pub data CompareError : Type 0 where
  bad_attr_name out_of_range ge_zero lt_zero bad_operator : CompareError

abbrev pub hour : Text
hour = codes "hour"

-- The greatest value that a clause on the attribute may name.
unfoldable pub max_value : Text → ℕ
unfolding equal_fold
max_value attr = if equal_fold attr hour then policy_hour_max else policy_int_max

-- `none` is the `nil` error. A value is read from digits and is no negative number.
unfoldable pub validate_numeric_compare : Text → Text → ℕ → Option CompareError
unfolding is_attr_name max_value trim_space
validate_numeric_compare attr op value =
    let attr' = trim_space attr in
    let op' = trim_space op in
    if not (is_attr_name attr')
    then some bad_attr_name
    else if ltb value policy_int_min || ltb (max_value attr') value
    then some out_of_range
    else if op' =ᵗ codes ">="
    then (if ltb value 1 then some ge_zero else none)
    else if op' =ᵗ codes "<"
    then (if ltb value 1 then some lt_zero else none)
    else if op' =ᵗ codes "==" || op' =ᵗ codes "<=" || op' =ᵗ codes ">"
    then none
    else some bad_operator

unfoldable pub is_space_or_tab : ℕ → Bool
is_space_or_tab c = c == 0x20 || c == 9

auth_of_tail : Option (Text × Text) → Text
unfolding up_to is_space_or_tab trim_space
auth_of_tail none = []
auth_of_tail (some (_, tail)) = up_to is_space_or_tab (trim_space tail)

-- From the first `@` to a space or a tab.
unfoldable pub auth_name_from_clause : Text → Text
unfolding auth_of_tail cut_first trim_space
auth_name_from_clause raw = auth_of_tail (cut_first (λ c. c == b'@') (trim_space raw))

parse_cry :
    parse_numeric_clause (codes " Cry@auth0 > 18 ")
    ≡ some (record {
      attr = codes "Cry";
      auth = codes "auth0";
      op = codes ">";
      value = 18;
      raw = codes "Cry@auth0 > 18";
    })
unfolding parse_numeric_clause
parse_cry = refl

hour_24 : validate_numeric_compare (codes "hour") (codes "==") 24 ≡ some out_of_range
unfolding validate_numeric_compare
hour_24 = refl

auth_of_hour : auth_name_from_clause (codes "hour@auth1 == 17") ≡ codes "auth1"
unfolding auth_name_from_clause
auth_of_hour = refl
