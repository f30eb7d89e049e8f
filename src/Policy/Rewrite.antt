-- ===== src/Policy/Rewrite.antt =====
-- abe/policy.go: the regular expressions that `NormalizePolicySyntax` rewrites by, and
-- `normalizePolicyAttrCase`.
use bc_abe.Common.{
  ℕ, zero, suc, ◌-◌, Bool, true, false, [], ◌∷◌, ◌++◌, map, ltb, ◌==◌, if◌then◌else◌, is_empty,
  length, Option, none, some, ◌≡◌, refl,
}
use bc_abe.Common.Measure.{measured}
use bc_abe.Text.{Text, codes, ◌=ᵗ◌, trim_space, to_lower, fold}
use bc_abe.Policy.Scan.{
  split_at_top_level_joins, join_policy_parts, is_wrapped_clause, inner_clause, wrap,
}
use bc_abe.Policy.Clause.{
  NumericMatch, find_numeric, span, skip_blanks, is_blank, is_digit, is_word_fold,
}

-- What a match at the start of a text is replaced by, and the text behind it.
abbrev pub Rule : Type 0
Rule = Text → Option (Text × Text)

-- `ReplaceAllString`: a match is replaced, and its characters are passed over.
unfoldable pub replace_from : Rule → ℕ → Text → Text
replace_from rule skip [] = []
replace_from rule (suc skip) (c ∷ s) = replace_from rule skip s
replace_from rule zero (c ∷ s) = elim (rule (c ∷ s)) [
  | none ↦ c ∷ replace_from rule zero s
  | some (text, rest) ↦ text ++ replace_from rule (length s - length rest) s
]

unfoldable pub replace_all : Rule → Text → Text
unfolding replace_from
replace_all rule s = replace_from rule zero s

-- A word of small letters at the start of a text, whatever the case: its characters, and the rest.
unfoldable pub match_word : Text → Text → Option (Text × Text)
unfolding fold
match_word [] s = some ([], s)
match_word (d ∷ w) [] = none
match_word (d ∷ w) (c ∷ s) = elim (fold c == d) [
  | false ↦ none
  | true ↦ elim (match_word w s) [ none ↦ none | some (a, b) ↦ some (c ∷ a, b) ]
]

infixl 5 ◌>>=◌
abbrev pub ◌>>=◌ {ℓ κ} : {A : Type ℓ} {B : Type κ} → Option A → (A → Option B) → Option B
none >>= f = none
some a >>= f = f a

-- One or more characters that pass the test.
unfoldable pub some_of : (ℕ → Bool) → Text → Option (Text × Text)
unfolding span
some_of test s = let (a, b) = span test s in if is_empty a then none else some (a, b)

-- `(hour@[a-zA-Z0-9_]+)\s*=\s*(\d+)` by `${1} == ${2}`
unfoldable pub hour_single_eq : Rule
unfolding match_word some_of skip_blanks is_word_fold is_digit
hour_single_eq s = do
  (name, s1) ← match_word (codes "hour@") s
  (auth, s2) ← some_of is_word_fold s1
  (_, s3) ← match_word (codes "=") (skip_blanks s2)
  (value, s4) ← some_of is_digit (skip_blanks s3)
  some (name ++ auth ++ codes " == " ++ value, s4)

-- `\s+word\s+` by a join
join_word : Text → Text → Rule
unfolding match_word some_of is_blank
join_word word join s = do
  (_, s1) ← some_of is_blank s
  (_, s2) ← match_word word s1
  (_, s3) ← some_of is_blank s2
  some (join, s3)

unfoldable pub policy_and : Rule
unfolding join_word
policy_and = join_word (codes "and") (codes " /\\ ")

unfoldable pub policy_or : Rule
unfolding join_word
policy_or = join_word (codes "or") (codes " \\/ ")

first_word : Option (Text × Text) → Option (Text × Text) → Option (Text × Text)
first_word none n = n
first_word (some m) n = some m

-- `loc_(school|home|others)@` by `loc$1@`
unfoldable pub loc_underscore : Rule
unfolding match_word first_word
loc_underscore s = do
  (_, s1) ← match_word (codes "loc_") s
  (place, s2) ←
      first_word (match_word (codes "school") s1)
        (first_word (match_word (codes "home") s1) (match_word (codes "others") s1))
  (_, s3) ← match_word (codes "@") s2
  some (codes "loc" ++ place ++ codes "@", s3)

-- `strings.ToLower(m[1]) + "@" + m[2] + " " + m[3] + " " + m[4]`
unfoldable pub write_numeric : NumericMatch → Text
unfolding to_lower
write_numeric m = to_lower m.attr ++ b'@' ∷ (m.auth ++ b' ' ∷ (m.op ++ b' ' ∷ m.value))

case_of_leaf : Text → Option NumericMatch → Text
unfolding write_numeric
case_of_leaf policy none = policy
case_of_leaf policy (some m) = write_numeric m

-- One call of `normalizePolicyAttrCase`, with `rec` for its calls of itself.
unfoldable pub attr_case_body : (Text → Text) → Text → Text
unfolding case_of_leaf split_at_top_level_joins join_policy_parts find_numeric
attr_case_body rec policy =
    let p = trim_space policy in
    let inner = rec (inner_clause p) in
    let (parts, joins) = split_at_top_level_joins p in
    if is_empty p
    then p
    else if is_wrapped_clause p
    then (if inner =ᵗ inner_clause p then p else wrap inner)
    else if ltb 1 (length parts)
    then join_policy_parts (map rec parts) joins
    else case_of_leaf p (find_numeric p)

unfoldable pub normalize_policy_attr_case : Text → Text
unfolding measured attr_case_body is_wrapped_clause inner_clause trim_space
normalize_policy_attr_case = measured (λ s. s) attr_case_body

and_test : replace_all policy_and (codes "a@x  AND b@y and and c") ≡ codes "a@x /\\ b@y /\\ and c"
unfolding replace_all policy_and
and_test = refl

hour_test :
    replace_all hour_single_eq (codes "Hour@a1=7 hour@b == 8") ≡ codes "Hour@a1 == 7 hour@b == 8"
unfolding replace_all hour_single_eq
hour_test = refl

loc_test : replace_all loc_underscore (codes "LOC_school@a1") ≡ codes "locschool@a1"
unfolding replace_all loc_underscore
loc_test = refl

case_test :
    normalize_policy_attr_case (codes "(Cry@auth0>18) /\\ Vit@a")
    ≡ codes "(cry@auth0 > 18) /\\ Vit@a"
unfolding normalize_policy_attr_case
case_test = refl
