-- ===== src/Policy/Missing.antt =====
-- abe/policy.go: which keys a user lacks for a policy, and the names of attributes in keys and
-- ciphertexts. `mosaic.PolicyVars` is a parameter; `none` is a panic. A map of Go is the list of its
-- entries in the order in which the loop meets them.
use bc_abe.Common.{
  ℕ, suc, Bool, false, ◌&&◌, ◌||◌, not, ◌≡◌, refl, List, [], ◌∷◌, ◌++◌, ◌==◌, leb, if◌then◌else◌,
  is_empty, Option, none, some,
}
use bc_abe.Text.{
  Text, codes, ◌=ᵗ◌, to_lower, equal_fold, has_prefix, has_suffix, cut_first, cut_last,
}
use bc_abe.Text.Cuts.{is_at_sign}
use bc_abe.Policy.Clause.{
  NumericClause, parse_numeric_clause, span, is_digit, is_letter_fold, is_word_fold,
}
use bc_abe.Policy.Rewrite.{match_word, some_of, ◌>>=◌}
use bc_abe.Policy.Normalize.{normalize_policy_syntax}
use bc_abe.Policy.Leaves.{policy_leaf_clauses}
use bc_abe.Policy.Keys.{is_seen}

-- The keys of the map `userattrs.Userkey` with both the prefix and the suffix, in small letters.
unfoldable pub count_keys : Text → Text → List Text → ℕ
unfolding to_lower has_prefix has_suffix
count_keys prefix suffix [] = 0
count_keys prefix suffix (a ∷ keys) =
    let low = to_lower a in
    let n = count_keys prefix suffix keys in
    if has_prefix low prefix && has_suffix low suffix then suc n else n

unfoldable pub user_has_numeric_bit_keys : List Text → Text → Text → Bool
unfolding count_keys to_lower
user_has_numeric_bit_keys keys attr_base auth =
    leb 32 (count_keys (to_lower attr_base ++ codes "-") (b'@' ∷ auth) keys)

-- The clause is an inequality on the attribute of the authority.
unfoldable pub compares : Text → Text → Option NumericClause → Bool
unfolding equal_fold
compares attr_name auth none = false
compares attr_name auth (some nc) =
    not (nc.op =ᵗ codes "==") && equal_fold nc.attr attr_name && nc.auth =ᵗ auth

unfoldable pub any_compares : Text → Text → List Text → Bool
unfolding compares parse_numeric_clause
any_compares attr_name auth [] = false
any_compares attr_name auth (part ∷ parts) =
    compares attr_name auth (parse_numeric_clause part) || any_compares attr_name auth parts

-- The name before the first `-` of the text before the last `@`, and the text behind that.
unfoldable pub bit_name : Text → Option (Text × Text)
unfolding cut_first cut_last
bit_name attr = elim (cut_last is_at_sign attr) [
  | none ↦ none
  | some (base, auth) ↦ elim (cut_first (λ c. c == b'-') base) [
    | none ↦ none
    | some (attr_name, _) ↦ if is_empty attr_name then none else some (attr_name, auth)
  ]
]

-- The loop over the leaves returns at the first that compares the attribute.
unfoldable pub should_skip_numeric_compare_var : Text → Text → List Text → Bool
unfolding bit_name any_compares policy_leaf_clauses user_has_numeric_bit_keys
should_skip_numeric_compare_var policy attr keys = elim (bit_name attr) [
  | none ↦ false
  | some (attr_name, auth) ↦
      any_compares attr_name auth (policy_leaf_clauses policy)
      && user_has_numeric_bit_keys keys attr_name auth
]

unfoldable pub missing_of : Text → List Text → List Text → List Text
unfolding should_skip_numeric_compare_var is_seen
missing_of policy keys [] = []
missing_of policy keys (attr ∷ attrs) =
    let rest = missing_of policy keys attrs in
    if should_skip_numeric_compare_var policy attr keys || is_seen attr keys
    then rest
    else attr ∷ rest

module _ (mosaic_policy_vars : Text → List Text) where
  unfoldable pub policy_vars : Text → Option (List Text)
  unfolding normalize_policy_syntax
  policy_vars policy = do p ← normalize_policy_syntax policy; some (mosaic_policy_vars p)

  -- The keys are those of `userattrs.Userkey`; `none` is a nil `userattrs` or a nil map.
  unfoldable pub policy_missing_user_keys : Text → Option (List Text) → Option (List Text)
  unfolding policy_vars missing_of normalize_policy_syntax
  policy_missing_user_keys policy keys = do
    p ← normalize_policy_syntax policy
    vars ← policy_vars p
    some (elim keys [ none ↦ vars | some ks ↦ missing_of p ks vars ])

-- `reBitAttrName.MatchString`
unfoldable pub is_bit_attr_name : Text → Bool
unfolding span some_of match_word is_letter_fold is_word_fold is_digit
is_bit_attr_name [] = false
is_bit_attr_name (c ∷ s) =
    is_letter_fold c
    && (elim (match_word (codes "-") ((span is_word_fold s).1)
        >>= (λ m1. some_of is_digit m1.1)
        >>= (λ m2. match_word (codes "-") m2.1)
        >>= (λ m3. some_of is_digit m3.1)) [ none ↦ false | some m ↦ is_empty m.1 ])

unfoldable pub normalized_cut : Text → Option (Text × Text) → Text
unfolding is_bit_attr_name to_lower
normalized_cut attr none = attr
normalized_cut attr (some (base, auth)) =
    if is_empty base
    then attr
    else if not (is_bit_attr_name base)
    then attr
    else to_lower base ++ b'@' ∷ auth

unfoldable pub normalize_attr_name : Text → Text
unfolding normalized_cut cut_last
normalize_attr_name attr = normalized_cut attr (cut_last is_at_sign attr)

module _ {V : Type 0} where
  -- `m[k] = v`
  unfoldable pub set_entry : Text → V → List (Text × V) → List (Text × V)
  set_entry k v [] = (k, v) ∷ []
  set_entry k v ((j, w) ∷ m) = if j =ᵗ k then (k, v) ∷ m else (j, w) ∷ set_entry k v m

  -- The loop that fills the new map, over the entries of the old.
  unfoldable pub normalized_names : List (Text × V) → List (Text × V) → List (Text × V)
  unfolding set_entry normalize_attr_name
  normalized_names new [] = new
  normalized_names new ((k, v) ∷ old) =
      normalized_names (set_entry (normalize_attr_name k) v new) old

-- What `NormalizeCiphertext` reads and writes of a ciphertext.
pub record CiphertextNames (V : Type 0) : Type 0 where
  pub policy : Text
  pub c : List (Text × V)

-- A map without entries stays as it is, as the loop leaves it. `none` is a panic.
unfoldable pub normalize_ciphertext : {V : Type 0} → CiphertextNames V → Option (CiphertextNames V)
unfolding normalized_names normalize_policy_syntax
normalize_ciphertext ct = do
  p ← normalize_policy_syntax ct.policy
  some (record { policy = p; c = normalized_names [] ct.c })

vit_31 : normalize_attr_name (codes "Cry-31-1@Auth0") ≡ codes "cry-31-1@Auth0"
unfolding normalize_attr_name
vit_31 = refl

plain_name : normalize_attr_name (codes "Vit@auth0") ≡ codes "Vit@auth0"
unfolding normalize_attr_name
plain_name = refl
