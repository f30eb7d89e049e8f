-- ===== src/Policy/KeyLaws.antt =====
-- abe/policy.go: what `KeyIssueSpecsFromPolicy` returns, against the clauses of the policy.
use bc_abe.Common.{
  true, false, ◌≡◌, refl, sym, subst, ◌∙◌, arith, inl, inr, ◌⊎◌, List, [], ◌∷◌, All, All-map,
  Bool-cases, some,
}
use bc_abe.Text.{Text}
use bc_abe.Text.Equality.{=ᵗ_self}
use bc_abe.Policy.Normalize.{normalize_policy_syntax}
use bc_abe.Policy.Leaves.{policy_leaf_clauses}
use bc_abe.Policy.Keys.{
  KeyIssueSpec, SpecError, Specs, specs, failed, Leaf, skipped, bad_leaf, found, read_leaf, is_seen,
  add_spec, collect_specs, non_empty_specs, specs_of_normalized, key_issue_specs_from_policy,
  no_authority,
}

-- The attributes of the specifications are new: none is among `seen`, nor among those before it.
abbrev pub Fresh : List Text → List KeyIssueSpec → Type 0
Fresh seen [] = Unit
Fresh seen (sp ∷ sps) = (is_seen sp.issue_attr seen ≡ false) × Fresh (sp.issue_attr ∷ seen) sps

-- The specification is what one of the clauses asks for.
abbrev pub AskedBy : List Text → KeyIssueSpec → Type 0
AskedBy [] sp = ⊥
AskedBy (leaf ∷ leaves) sp = (read_leaf leaf ≡ found sp) ⊎ AskedBy leaves sp

abbrev pub attrs_of : List KeyIssueSpec → List Text
attrs_of [] = []
attrs_of (sp ∷ sps) = sp.issue_attr ∷ attrs_of sps

-- What the clause asks for is among the specifications, or was seen before.
abbrev pub Granted : List Text → List KeyIssueSpec → Text → Type 0
Granted seen sps leaf =
    (sp : KeyIssueSpec)
    → read_leaf leaf ≡ found sp
    → (is_seen sp.issue_attr (attrs_of sps) ≡ true) ⊎ (is_seen sp.issue_attr seen ≡ true)

add_spec-inv :
    (sp : KeyIssueSpec) (r : Specs) (sps : List KeyIssueSpec)
    → add_spec sp r ≡ specs sps
    → (rest : List KeyIssueSpec) × (r ≡ specs rest) × (sps ≡ sp ∷ rest)
unfolding add_spec
add_spec-inv sp (specs rest) sps h = (rest, refl, cc)
add_spec-inv sp (failed e) sps h = cc

failed-ne-specs : (e : SpecError) (sps : List KeyIssueSpec) → failed e ≡ specs sps → ⊥
failed-ne-specs e sps h = cc

Leaf-cases :
    (l : Leaf)
    → (l ≡ skipped) ⊎ ((s : Text) × (l ≡ bad_leaf s)) ⊎ ((sp : KeyIssueSpec) × (l ≡ found sp))
Leaf-cases skipped = inl refl
Leaf-cases (bad_leaf s) = inr (inl (s, refl))
Leaf-cases (found sp) = inr (inr (sp, refl))

skipped-ne-found : (sp : KeyIssueSpec) → skipped ≡ found sp → ⊥
skipped-ne-found sp h = cc

found-injective : (sp other : KeyIssueSpec) → found sp ≡ found other → sp ≡ other
found-injective sp other h = cc

specs_nil :
    (seen : List Text) (sps : List KeyIssueSpec) → collect_specs seen [] ≡ specs sps → [] ≡ sps
unfolding collect_specs
specs_nil seen sps h = cc

-- The three ways in which a round of the loop goes on.
abbrev Round : List Text → Text → List Text → List KeyIssueSpec → Type 0
Round seen leaf leaves sps =
    ((read_leaf leaf ≡ skipped) × (collect_specs seen leaves ≡ specs sps))
    ⊎ ((sp : KeyIssueSpec) × (read_leaf leaf ≡ found sp)
        × (is_seen sp.issue_attr seen ≡ true)
        × (collect_specs seen leaves ≡ specs sps))
    ⊎ ((sp : KeyIssueSpec) × (rest : List KeyIssueSpec) × (read_leaf leaf ≡ found sp)
        × (is_seen sp.issue_attr seen ≡ false)
        × (collect_specs (sp.issue_attr ∷ seen) leaves ≡ specs rest)
        × (sps ≡ sp ∷ rest))

round :
    (seen : List Text) (leaf : Text) (leaves : List Text) (sps : List KeyIssueSpec)
    → collect_specs seen (leaf ∷ leaves) ≡ specs sps
    → Round seen leaf leaves sps
unfolding collect_specs
round seen leaf leaves sps h = elim (Leaf-cases (read_leaf leaf)) [
  | inl e ↦ inl (e, rw (e, collect_specs) at h)
  | inr (inl (s, e)) ↦ absurd (failed-ne-specs (no_authority s) sps (rw (e, collect_specs) at h))
  | inr (inr (sp, e)) ↦ elim (Bool-cases (is_seen sp.issue_attr seen)) [
    | inl old ↦ inr (inl (sp, e, old, rw (e, collect_specs, old) at h))
    | inr new ↦
        let (rest, r, eq) =
          add_spec-inv sp (collect_specs (sp.issue_attr ∷ seen) leaves) sps
            (rw (e, collect_specs, new) at h) in
        inr (inr (sp, rest, e, new, r, eq))
  ]
]

collect-Fresh :
    (seen leaves : List Text) (sps : List KeyIssueSpec)
    → collect_specs seen leaves ≡ specs sps
    → Fresh seen sps
collect-Fresh seen [] sps h = subst (Fresh seen) (specs_nil seen sps h) tt
collect-Fresh seen (leaf ∷ leaves) sps h = elim (round seen leaf leaves sps h) [
  | inl (_, r) ↦ collect-Fresh seen leaves sps r
  | inr (inl (sp, _, _, r)) ↦ collect-Fresh seen leaves sps r
  | inr (inr (sp, rest, _, new, r, eq)) ↦
      rw eq (new, collect-Fresh (sp.issue_attr ∷ seen) leaves rest r)
]

collect-AskedBy :
    (seen leaves : List Text) (sps : List KeyIssueSpec)
    → collect_specs seen leaves ≡ specs sps
    → All (AskedBy leaves) sps
collect-AskedBy seen [] sps h = subst (All (AskedBy [])) (specs_nil seen sps h) tt
collect-AskedBy seen (leaf ∷ leaves) sps h = elim (round seen leaf leaves sps h) [
  | inl (_, r) ↦ All-map sps (λ sp a. inr a) (collect-AskedBy seen leaves sps r)
  | inr (inl (sp, _, _, r)) ↦ All-map sps (λ sp a. inr a) (collect-AskedBy seen leaves sps r)
  | inr (inr (sp, rest, e, new, r, eq)) ↦
      rw eq
        (inl e, All-map rest (λ sp a. inr a) (collect-AskedBy (sp.issue_attr ∷ seen) leaves rest r))
]

-- A clause that was granted behind one more specification.
Granted-later :
    (seen : List Text) (sp : KeyIssueSpec) (rest : List KeyIssueSpec) (leaf : Text)
    → Granted (sp.issue_attr ∷ seen) rest leaf
    → Granted seen (sp ∷ rest) leaf
unfolding is_seen
Granted-later seen sp rest leaf g other e = ground (arith, g other e)

collect-Granted :
    (seen leaves : List Text) (sps : List KeyIssueSpec)
    → collect_specs seen leaves ≡ specs sps
    → All (Granted seen sps) leaves
collect-Granted seen [] sps h = tt
collect-Granted seen (leaf ∷ leaves) sps h = elim (round seen leaf leaves sps h) [
  | inl (e, r) ↦
      (λ sp f. absurd (skipped-ne-found sp (sym e ∙ f)), collect-Granted seen leaves sps r)
  | inr (inl (sp, e, old, r)) ↦ (
    λ other f.
        inr (
          subst (λ x. is_seen x.issue_attr seen ≡ true) (found-injective sp other (sym e ∙ f)) old),
    collect-Granted seen leaves sps r,
  )
  | inr (inr (sp, rest, e, new, r, eq)) ↦
      subst (λ l. All (Granted seen l) (leaf ∷ leaves)) (sym eq)
        (
          λ other f. inl (
              subst (λ x. is_seen x.issue_attr (sp.issue_attr ∷ attrs_of rest) ≡ true)
                (found-injective sp other (sym e ∙ f))
                (unfold is_seen in rw (=ᵗ_self sp.issue_attr))),
          All-map leaves (λ l g. Granted-later seen sp rest l g)
              (collect-Granted (sp.issue_attr ∷ seen) leaves rest r),
        )
]

normalized_specs :
    (leaves : List Text) (sps : List KeyIssueSpec)
    → non_empty_specs (collect_specs [] leaves) ≡ specs sps
    → collect_specs [] leaves ≡ specs sps
unfolding non_empty_specs
normalized_specs leaves sps h = ground arith

-- Where `KeyIssueSpecsFromPolicy` returns specifications, with `p` the normalised policy: no two
-- of them have one attribute, each is what a clause of `p` asks for, and what any clause of `p` asks
-- for has its attribute among them.
pub key_issue_specs_lem :
    (policy p : Text) (sps : List KeyIssueSpec)
    → normalize_policy_syntax policy ≡ some p
    → key_issue_specs_from_policy policy ≡ specs sps
    → Fresh [] sps
      × All (AskedBy (policy_leaf_clauses p)) sps
      × All (Granted [] sps) (policy_leaf_clauses p)
unfolding key_issue_specs_from_policy specs_of_normalized
key_issue_specs_lem policy p sps n h =
    let r : collect_specs [] (policy_leaf_clauses p) ≡ specs sps =
      normalized_specs (policy_leaf_clauses p) sps (rw (n, specs_of_normalized) at h) in
    (
      collect-Fresh [] (policy_leaf_clauses p) sps r,
      collect-AskedBy [] (policy_leaf_clauses p) sps r,
      collect-Granted [] (policy_leaf_clauses p) sps r,
    )
