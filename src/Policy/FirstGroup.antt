-- ===== src/Policy/FirstGroup.antt =====
-- What `parsePolicyClauses` of abe/policy.go reads of a policy that begins with a bracket.
use bc_abe.Common.{
  ◌<◌, false, ◌≡◌, refl, ap, ◌∙◌, sym, [], ◌∷◌, ◌++◌, arith, length, append-nil, append_assoc, some,
  is_empty,
}
use bc_abe.Text.{Text, is_space, trim_space, trim_left, trim_right, before_trimmed}
use bc_abe.Text.Solid.{trim_right-append}
use bc_abe.Policy.Scan.{
  pos, dec, is_zero, bracket, split_at_top_level_joins, join_policy_parts, write_rest, starts_open,
}
use bc_abe.Policy.Leaves.{
  PolicyClause, first_group, append_parts, split_each, split_top_level, tail_text, split_parts_body,
  split_policy_parts, or_whole, read_clause, parse_policy_clauses,
}
use bc_abe.Policy.Keys.{too_many_numeric, numeric_clauses}
use bc_abe.Policy.GroupSteps.{split_policy_parts_lem}
use bc_abe.Policy.Rejoin.{split-join}
use bc_abe.Policy.Run.{space}
use bc_abe.Policy.Plain.{IsPlain, NoBrackets, plain-NoBrackets, plain-run, starts_plain}

-- `(x)` and whatever stands behind it.
abbrev pub group_then : Text → Text → Text
group_then x rest = b'(' ∷ (x ++ b')' ∷ rest)

close_kept : (t : Text) → before_trimmed b')' t ≡ b')' ∷ t
unfolding before_trimmed is_space
close_kept [] = refl
close_kept (c ∷ t) = refl

trim_group : (x rest : Text) → trim_space (group_then x rest) ≡ group_then x (trim_right rest)
unfolding trim_space trim_left trim_right is_space
trim_group x rest =
    trim_right-append (b'(' ∷ x) (b')' ∷ rest) (rw (close_kept (trim_right rest)) (omega arith))
    ∙ ap (λ t. b'(' ∷ (x ++ t)) (close_kept (trim_right rest))

first_group-plain :
    (cur x rest : Text)
    → NoBrackets x
    → first_group (pos 1) cur (x ++ b')' ∷ rest) ≡ some (cur ++ x)
unfolding first_group bracket dec is_zero
first_group-plain cur [] rest h = rw append-nil
first_group-plain cur (c ∷ x) rest (e, h) =
    rw (e, first_group)
      (first_group-plain (cur ++ c ∷ []) x rest h ∙ ap some (append_assoc cur (c ∷ []) x))

one_clause : (c : PolicyClause) → too_many_numeric (c ∷ []) ≡ false
unfolding too_many_numeric numeric_clauses
one_clause c = ground arith

split-plain : (x : Text) → IsPlain x → split_at_top_level_joins x ≡ (x ∷ [], [])
unfolding join_policy_parts write_rest
split-plain x h =
    ap split_at_top_level_joins (sym (append-nil x))
    ∙ split-join (x ∷ []) [] (h.trimmed, (pos 0, plain-run (pos 0) x space h.clean))

not_empty : (x : Text) → 0 < length x → is_empty x ≡ false
not_empty [] h = absurd (omega arith)
not_empty (c ∷ x) h = refl

split_policy_parts-plain : (x : Text) → IsPlain x → split_policy_parts x ≡ some (x ∷ [])
unfolding split_parts_body
split_policy_parts-plain x h =
    rw (split_policy_parts_lem x, h.trimmed, not_empty x h.non_empty, starts_plain x h)

split_policy_parts-group :
    (x rest : Text) → IsPlain x → split_policy_parts (group_then x rest) ≡ some (x ∷ [])
unfolding split_parts_body starts_open tail_text split_top_level split_each append_parts
split_policy_parts-group x rest h = rw (
  split_policy_parts_lem (group_then x rest),
  trim_group x rest,
  first_group-plain [] x (trim_right rest) (plain-NoBrackets x h.clean),
  h.trimmed,
  split-plain x h,
  not_empty x h.non_empty,
  split_policy_parts-plain x h,
)

parse-group :
    (x rest : Text) → IsPlain x → parse_policy_clauses (group_then x rest) ≡ read_clause x ∷ []
unfolding parse_policy_clauses or_whole
parse-group x rest h = rw (trim_group x rest, split_policy_parts-group x (trim_right rest) h)

-- For a plain clause `x` and any text behind `(x)`: `parsePolicyClauses` returns the clause `x`
-- alone, and `validatePolicyComposition` finds no second numeric clause.
pub parse-first_group :
    (x rest : Text)
    → IsPlain x
    → (parse_policy_clauses (group_then x rest) ≡ read_clause x ∷ [])
      × (too_many_numeric (parse_policy_clauses (group_then x rest)) ≡ false)
parse-first_group x rest h =
    (parse-group x rest h, rw (parse-group x rest h) (one_clause (read_clause x)))
