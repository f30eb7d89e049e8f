-- ===== src/Policy/LostBrackets.antt =====
-- What `flattenNestedAndGroups` of abe/policy.go makes of a disjunction inside a conjunction.
use bc_abe.Common.{List, [], ◌∷◌}
use bc_abe.Text.{Text}
use bc_abe.Text.Solid.{Solid}
use bc_abe.Policy.Scan.{Join, and_join, or_join, join_policy_parts, wrap}

-- Solid texts for the other parts, a join for each.
abbrev Rest : List Text → List Join → Type 0
Rest [] joins = Unit
Rest (q ∷ ps) [] = ⊥
Rest (q ∷ ps) (op ∷ joins) = Solid q × Rest ps joins

-- `b \/ c`
abbrev pub either : Text → Text → Text
either b c = join_policy_parts (b ∷ c ∷ []) (or_join ∷ [])

-- `a /\ (b \/ c)`
abbrev pub both_either : Text → Text → Text → Text
both_either a b c = join_policy_parts (a ∷ wrap (either b c) ∷ []) (and_join ∷ [])

-- `a /\ b \/ c`
abbrev pub unbracketed : Text → Text → Text → Text
unbracketed a b c = join_policy_parts (a ∷ b ∷ c ∷ []) (and_join ∷ or_join ∷ [])
