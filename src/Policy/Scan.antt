-- ===== src/Policy/Scan.antt =====
-- abe/policy.go: the scanners that find the brackets and the joins of a policy.
-- `for i, ch := range s` and `for i := 0; ...; i++` are recursions on the rest of the text; a depth
-- is an `int`, which a stray `)` takes below zero.
use bc_abe.Common.{
  ℕ, zero, suc, Bool, true, false, ◌&&◌, not, List, [], ◌∷◌, ◌++◌, ◌==◌, if◌then◌else◌, is_empty,
  Option, none, some,
}
use bc_abe.Text.{Text, codes, trim_space}

pub data ℤ : Type 0 where
  pos : ℕ → ℤ
  negsuc : ℕ → ℤ

-- `depth++`
unfoldable pub inc : ℤ → ℤ
inc (pos n) = pos (suc n)
inc (negsuc zero) = pos 0
inc (negsuc (suc n)) = negsuc n

-- `depth--`
unfoldable pub dec : ℤ → ℤ
dec (pos zero) = negsuc 0
dec (pos (suc n)) = pos n
dec (negsuc n) = negsuc (suc n)

-- `depth == 0`
unfoldable pub is_zero : ℤ → Bool
is_zero (pos zero) = true
is_zero (pos (suc n)) = false
is_zero (negsuc n) = false

pub data Bracket : Type 0 where
  open_bracket close_bracket no_bracket : Bracket

unfoldable pub bracket : ℕ → Bracket
bracket c = if c == b'(' then open_bracket else if c == b')' then close_bracket else no_bracket

-- The two operators that join clauses, `/\` and `\/`.
pub data Join : Type 0 where
  and_join or_join : Join

unfoldable pub join_text : Join → Text
join_text and_join = codes "/\\"
join_text or_join = codes "\\/"

-- The operator that two adjacent characters spell.
unfoldable pub read_join : ℕ → ℕ → Option Join
read_join c d =
    if c == b'/' && d == b'\\'
    then some and_join
    else if c == b'\\' && d == b'/'
    then some or_join
    else none

-- What the scanner does at a character with another one behind it.
pub data Move : Type 0 where
  enter leave stay : Move
  cut : Join → Move

-- At depth zero a join cuts the text.
unfoldable pub cut_at_zero : Bool → Option Join → Move
cut_at_zero true (some op) = cut op
cut_at_zero true none = stay
cut_at_zero false op = stay

unfoldable pub bracket_move : Bracket → Bool → Option Join → Move
unfolding cut_at_zero
bracket_move open_bracket at_zero op = enter
bracket_move close_bracket at_zero op = leave
bracket_move no_bracket at_zero op = cut_at_zero at_zero op

unfoldable pub move : ℤ → ℕ → ℕ → Move
unfolding bracket_move bracket read_join is_zero
move depth c d = bracket_move (bracket c) (is_zero depth) (read_join c d)

abbrev pub Parts : Type 0
Parts = List Text × List Join

abbrev pub add_part : Text → Join → Parts → Parts
add_part s op (parts, joins) = (trim_space s ∷ parts, op ∷ joins)

-- The loop of `splitAtTopLevelJoins`; the second argument is `policy[last:i]`.
unfoldable pub scan_joins : ℤ → Text → Text → Parts
scan_joins depth cur [] = (trim_space cur ∷ [], [])
scan_joins depth cur (c ∷ []) = (trim_space (cur ++ c ∷ []) ∷ [], [])
scan_joins depth cur (c ∷ d ∷ s) = elim (move depth c d) [
  | enter ↦ scan_joins (inc depth) (cur ++ c ∷ []) (d ∷ s)
  | leave ↦ scan_joins (dec depth) (cur ++ c ∷ []) (d ∷ s)
  | stay ↦ scan_joins depth (cur ++ c ∷ []) (d ∷ s)
  | cut op ↦ add_part cur op (scan_joins depth [] s)
]

unfoldable pub split_at_top_level_joins : Text → Parts
unfolding scan_joins move inc dec trim_space
split_at_top_level_joins policy = scan_joins (pos 0) [] policy

-- `" " + join + " " + part` for each further part of `joinPolicyParts` and of
-- `normalizeNumericPrecedence`.
unfoldable pub write_rest : List Text → List Join → Text
unfolding join_text
write_rest [] joins = []
write_rest (part ∷ parts) [] = []
write_rest (part ∷ parts) (op ∷ joins) =
    b' ' ∷ (join_text op ++ b' ' ∷ (part ++ write_rest parts joins))

-- `joinPolicyParts(parts, joins)`. A missing join would be an index out of range; the callers pass
-- one join less than parts.
unfoldable pub join_policy_parts : List Text → List Join → Text
unfolding write_rest
join_policy_parts [] joins = []
join_policy_parts (part ∷ parts) joins = part ++ write_rest parts joins

-- The loop of `isWrappedClause`.
unfoldable pub scan_wrapped : ℤ → Text → Bool
scan_wrapped depth [] = is_zero depth
scan_wrapped depth (c ∷ s) = elim (bracket c) [
  | open_bracket ↦ scan_wrapped (inc depth) s
  | close_bracket ↦ elim (is_zero (dec depth) && not (is_empty s)) [
    | true ↦ false
    | false ↦ scan_wrapped (dec depth) s
  ]
  | no_bracket ↦ scan_wrapped depth s
]

unfoldable pub starts_open : Text → Bool
starts_open [] = false
starts_open (c ∷ s) = c == b'('

unfoldable pub ends_close : Text → Bool
ends_close [] = false
ends_close (c ∷ []) = c == b')'
ends_close (c ∷ d ∷ s) = ends_close (d ∷ s)

unfoldable pub trimmed_is_wrapped : Text → Bool
unfolding scan_wrapped starts_open ends_close bracket inc dec is_zero
trimmed_is_wrapped s = starts_open s && ends_close s && scan_wrapped (pos 0) s

-- `len(s) < 2` holds of no text that starts with `(` and ends with `)`.
unfoldable pub is_wrapped_clause : Text → Bool
unfolding trimmed_is_wrapped
is_wrapped_clause s = trimmed_is_wrapped (trim_space s)

unfoldable pub drop_last : Text → Text
drop_last [] = []
drop_last (c ∷ []) = []
drop_last (c ∷ d ∷ s) = c ∷ drop_last (d ∷ s)

-- `strings.TrimSpace(s[1 : len(s)-1])` of a wrapped clause.
unfoldable pub inner_clause : Text → Text
unfolding drop_last
inner_clause [] = []
inner_clause (c ∷ s) = trim_space (drop_last s)

-- `"(" + s + ")"`
abbrev pub wrap : Text → Text
wrap s = b'(' ∷ (s ++ b')' ∷ [])
