-- ===== src/Policy/Meaning.antt =====
-- What a policy means: the reading of its text by the grammar pkg/mosaic/abe/Policy.g4, where `/\`
-- and `\/` bind equally and group to the left. It is the specification for the rewrites of
-- abe/policy.go.
use mathlib.Core.List.{map}
use bc_abe.Common.{
  Bool, false, ◌&&◌, ◌||◌, ◌≡◌, ap, ◌∙◌, sym, List, [], ◌∷◌, length, map-congr, inl, inr,
  Bool-cases, ltb, if◌then◌else◌, append-nil, ltb_one,
}
use bc_abe.Common.Measure.{measured, measured_lem, IsLocal}
use bc_abe.Text.{Text, trim_space}
use bc_abe.Text.Solid.{Solid}
use bc_abe.Policy.Scan.{
  pos, Join, and_join, or_join, split_at_top_level_joins, join_policy_parts, write_rest,
  is_wrapped_clause, inner_clause, wrap,
}
use bc_abe.Policy.Steps.{wrapped-pos, agree_inside, agree_parts}
use bc_abe.Policy.Rejoin.{Good, split-join}
use bc_abe.Policy.Run.{space}
use bc_abe.Policy.Plain.{
  IsPlain, NoBrackets, plain-run, plain-not-wrapped, wrap-Solid, wrap-wrapped, inner_clause-wrap,
}

-- Left to right, each operator on what stands before it.
unfoldable pub fold_joins : Bool → List Bool → List Join → Bool
fold_joins acc [] joins = acc
fold_joins acc (b ∷ bs) [] = acc
fold_joins acc (b ∷ bs) (and_join ∷ joins) = fold_joins (acc && b) bs joins
fold_joins acc (b ∷ bs) (or_join ∷ joins) = fold_joins (acc || b) bs joins

unfoldable pub combine : List Bool → List Join → Bool
unfolding fold_joins
combine [] joins = false
combine (b ∷ bs) joins = fold_joins b bs joins

-- Does a policy hold of a user for whom `v` says which clauses hold?
module _ (v : Text → Bool) where
  unfoldable pub meaning_body : (Text → Bool) → Text → Bool
  unfolding combine
  meaning_body rec policy =
      let p = trim_space policy in
      let inside = rec (inner_clause p) in
      let (parts, joins) = split_at_top_level_joins p in
      if is_wrapped_clause p
      then inside
      else if ltb 1 (length parts)
      then combine (map rec parts) joins
      else v p

  unfoldable pub meaning : Text → Bool
  unfolding measured meaning_body is_wrapped_clause inner_clause split_at_top_level_joins trim_space
  meaning = measured (λ s. false) meaning_body

  meaning_body-IsLocal : IsLocal meaning_body
  unfolding meaning_body
  meaning_body-IsLocal f g s h = elim (Bool-cases (is_wrapped_clause (trim_space s))) [
    | inl w ↦ rw (w, agree_inside f g s h (wrapped-pos (trim_space s) w))
    | inr n ↦ rw n (elim (Bool-cases (ltb 1 (length (split_at_top_level_joins (trim_space s)).0))) [
      | inl many ↦ rw (many, map-congr f g _ (agree_parts f g s h many))
      | inr one ↦ rw one
    ])
  ]

  meaning_lem : (s : Text) → meaning s ≡ meaning_body meaning s
  unfolding meaning
  meaning_lem s = measured_lem meaning_body meaning_body-IsLocal _ s

  pub meaning-plain : (t : Text) → IsPlain t → meaning t ≡ v t
  unfolding meaning_body join_policy_parts write_rest
  meaning-plain t h =
      let alone : split_at_top_level_joins t ≡ (t ∷ [], []) =
        ap split_at_top_level_joins (sym (append-nil t))
        ∙ split-join (t ∷ []) [] (h.trimmed, (pos 0, plain-run (pos 0) t space h.clean)) in
      rw (meaning_lem t, h.trimmed, plain-not-wrapped t h, alone)

  pub meaning-wrap : (t : Text) → NoBrackets t → trim_space t ≡ t → meaning (wrap t) ≡ meaning t
  unfolding meaning_body
  meaning-wrap t h e =
      rw (meaning_lem (wrap t), (wrap-Solid t).0, wrap-wrapped t h, inner_clause-wrap t e)

  pub meaning-join :
      (p q : Text) (ps : List Text) (joins : List Join)
      → Good (p ∷ q ∷ ps) joins
      → Solid (join_policy_parts (p ∷ q ∷ ps) joins)
      → is_wrapped_clause (join_policy_parts (p ∷ q ∷ ps) joins) ≡ false
      → meaning (join_policy_parts (p ∷ q ∷ ps) joins) ≡ combine (map meaning (p ∷ q ∷ ps)) joins
  unfolding meaning_body
  meaning-join p q ps joins g (e, _) w = rw (
    meaning_lem (join_policy_parts (p ∷ q ∷ ps) joins),
    e,
    w,
    split-join (p ∷ q ∷ ps) joins g,
    ltb_one (length ps),
  )
