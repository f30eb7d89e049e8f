-- ===== src/Keys/Registered.antt =====
-- user_client/service: what a key for a clause asks of the registered attributes of a user.
use bc_abe.Common.{
  option_cases, list_cases, refl, ◌≢◌, sym, ℕ, true, false, ◌≡◌, ap, subst, ◌∙◌, inl, inr, ◌⊎◌,
  List, [], ◌∷◌, Option, none, some, Bool-cases,
}
use bc_abe.Text.{Text, codes, ◌=ᵗ◌, trim_space, to_lower}
use bc_abe.Text.Equality.{=ᵗ→≡}
use bc_abe.Policy.Clause.{NumericClause, parse_numeric_clause, numeric_compare_satisfied}
use bc_abe.Keys.Result.{result_cases, returned}
use bc_abe.Keys.Account.{Config, UserAccount, user_attributes, auth_name_for_org}
use bc_abe.Keys.Format.{AttrSpec, LegacyMatch, numeric_legacy, parse_int}
use bc_abe.Keys.Parse.{parse_attr_spec, auth_or}
use bc_abe.Keys.Numeric.{
  match_spec, value_of_match, numeric_of, first_numeric, find_user_numeric_attr, satisfied_spec,
  resolve_clause, resolve_attr_spec_for_user,
}

-- One of the texts has the property.
abbrev pub Any : (Text → Type 0) → List Text → Type 0
Any P [] = ⊥
Any P (t ∷ ts) = P t ⊎ Any P ts

-- What `reNumericLegacy` finds in the attribute to issue of the specification or, where it finds
-- nothing there, in the registered text.
abbrev pub FoundIn : AttrSpec → Text → LegacyMatch → Type 0
FoundIn sp raw m =
    (numeric_legacy sp.issue_attr ≡ some m)
    ⊎ ((numeric_legacy sp.issue_attr ≡ none) × (numeric_legacy raw ≡ some m))

-- The authority that the match names, or the organisation's own where it names none.
abbrev pub IsOf : Text → LegacyMatch → Text → Type 0
IsOf own m auth = ((m.auth ≡ []) × (own ≡ auth)) ⊎ ((m.auth ≢ []) × (m.auth ≡ auth))

-- The registered text is read as the specification, and a match in it has the name, without regard to
-- case, the authority and the value.
abbrev pub Holds : Config → Text → Text → Text → ℕ → AttrSpec → Text → Type 0
Holds cfg org_name attr_base auth v sp raw =
    (parse_attr_spec cfg raw org_name ≡ returned sp)
    × (m : LegacyMatch) × FoundIn sp raw m
    × (to_lower m.name ≡ attr_base)
    × IsOf (auth_name_for_org cfg org_name) m auth
    × (parse_int m.value ≡ some v)

match_spec-inv :
    (sp : AttrSpec) (raw : Text) (m : LegacyMatch) → match_spec sp raw ≡ some m → FoundIn sp raw m
unfolding match_spec
match_spec-inv sp raw m h = elim (option_cases (numeric_legacy sp.issue_attr)) [
  | inl n ↦ inr (n, rw (match_spec, n) at h)
  | inr (m', e) ↦ inl (e ∙ rw (match_spec, e) at h)
]

auth_or-IsOf :
    (own : Text) (m : LegacyMatch) (auth : Text) → auth_or own m.auth ≡ auth → IsOf own m auth
unfolding auth_or
auth_or-IsOf own m auth h = elim (list_cases m.auth) [
  | inl e ↦ inl (e, rw (auth_or, e) at h)
  | inr (c, rest, e) ↦ inr (λ n. cons-ne-nil c rest (sym e ∙ n), e ∙ rw (auth_or, e) at h)
]
  where
    cons-ne-nil : (c : ℕ) (t : Text) → ◌≢◌ {A = Text} (c ∷ t) []
    cons-ne-nil c t h = cc

-- What the tests of the loop let through.
value_of_match-inv :
    (own attr_base auth : Text) (found : Option LegacyMatch) (v : ℕ)
    → value_of_match own attr_base auth found ≡ some v
    → (m : LegacyMatch) × (found ≡ some m)
      × (to_lower m.name ≡ attr_base)
      × IsOf own m auth
      × (parse_int m.value ≡ some v)
unfolding value_of_match
value_of_match-inv own attr_base auth none v h = cc
value_of_match-inv own attr_base auth (some m) v h =
    elim (Bool-cases (to_lower m.name =ᵗ attr_base)) [
      | inr f ↦ let r = rw (value_of_match, f) at h in cc
      | inl t ↦ elim (Bool-cases (auth_or own m.auth =ᵗ auth)) [
        | inr f ↦ let r = rw (value_of_match, t, f) at h in cc
        | inl u ↦ (
          m,
          refl,
          =ᵗ→≡ _ _ t,
          auth_or-IsOf own m auth (=ᵗ→≡ _ _ u),
          rw (value_of_match, t, u) at h,
        )
      ]
    ]

abbrev found_at : ℕ → AttrSpec → Option (ℕ × AttrSpec)
found_at v sp = some (v, sp)

some_pair-injective :
    (v' v : ℕ) (sp' sp : AttrSpec) → found_at v' sp' ≡ found_at v sp → (v' ≡ v) × (sp' ≡ sp)
some_pair-injective v' v sp' sp h = (cc, cc)

numeric_of-inv :
    (cfg : Config) (org_name attr_base auth raw : Text) (v : ℕ) (sp : AttrSpec)
    → numeric_of cfg org_name attr_base auth raw ≡ some (v, sp)
    → Holds cfg org_name attr_base auth v sp raw
unfolding numeric_of
numeric_of-inv cfg org_name attr_base auth raw v sp h =
    elim (result_cases (parse_attr_spec cfg raw org_name)) [
      | inl (e, p) ↦ let r = rw (numeric_of, p) at h in cc
      | inr (sp', p) ↦
          elim (option_cases
            (value_of_match (auth_name_for_org cfg org_name) attr_base auth (match_spec sp' raw))) [
              | inl n ↦ let r = rw (numeric_of, p, n) at h in cc
              | inr (v', q) ↦
                  let r : found_at v' sp' ≡ found_at v sp = rw (numeric_of, p, q) at h in
                  let (same_v, same) = some_pair-injective v' v sp' sp r in
                  let (m, at, name, of, value) =
                    value_of_match-inv (auth_name_for_org cfg org_name) attr_base auth
                      (match_spec sp' raw) v' q in
                  (
                    p ∙ ap returned same,
                    m,
                    subst (λ x. FoundIn x raw m) same (match_spec-inv sp' raw m at),
                    name,
                    of,
                    value ∙ ap some same_v,
                  )
            ]
    ]

first_numeric-inv :
    (cfg : Config) (org_name attr_base auth : Text) (raws : List Text) (v : ℕ) (sp : AttrSpec)
    → first_numeric cfg org_name attr_base auth raws ≡ some (v, sp)
    → Any (Holds cfg org_name attr_base auth v sp) raws
unfolding first_numeric
first_numeric-inv cfg org_name attr_base auth [] v sp h = cc
first_numeric-inv cfg org_name attr_base auth (raw ∷ raws) v sp h =
    elim (option_cases (numeric_of cfg org_name attr_base auth raw)) [
      | inl e ↦
          inr (first_numeric-inv cfg org_name attr_base auth raws v sp (rw (first_numeric, e) at h))
      | inr (found, e) ↦
          inl (numeric_of-inv cfg org_name attr_base auth raw v sp (e ∙ rw (first_numeric, e) at h))
    ]

satisfied_spec-inv :
    (label : Text) (nc : NumericClause) (found : Option (ℕ × AttrSpec)) (sp : AttrSpec)
    → satisfied_spec label nc found ≡ returned sp
    → (v : ℕ) × (found ≡ some (v, sp)) × (numeric_compare_satisfied v nc.op nc.value ≡ true)
unfolding satisfied_spec
satisfied_spec-inv label nc none sp h = cc
satisfied_spec-inv label nc (some (v, sp')) sp h =
    elim (Bool-cases (numeric_compare_satisfied v nc.op nc.value)) [
      | inl t ↦ let r = rw t at h in (v, cc, t)
      | inr f ↦ let r = rw f at h in cc
    ]

-- For a clause whose operator is not `==`: where `resolveAttrSpecForUser` returns a specification,
-- one of the user's registered attributes is read as that specification; what `reNumericLegacy` finds
-- in it has the clause's name, without regard to case, names the clause's authority or, where that is
-- the organisation's own, none, and has a value that meets the comparison.
pub resolve-registered :
    (cfg : Config) (user : UserAccount) (label fallback : Text) (nc : NumericClause) (sp : AttrSpec)
    → parse_numeric_clause label ≡ some nc
    → (nc.op =ᵗ codes "==") ≡ false
    → resolve_attr_spec_for_user cfg user label fallback ≡ returned sp
    → (v : ℕ) × (numeric_compare_satisfied v nc.op nc.value ≡ true)
      × Any
          (Holds cfg user.org_name (to_lower (trim_space nc.attr)) (trim_space nc.auth) v sp)
          (user_attributes cfg user)
unfolding resolve_attr_spec_for_user resolve_clause find_user_numeric_attr
resolve-registered cfg user label fallback nc sp e ne h =
    let (v, found, ok) =
      satisfied_spec-inv label nc (find_user_numeric_attr cfg user nc.attr nc.auth) sp
        (rw (e, resolve_clause, ne) at h) in
    (v, ok, first_numeric-inv cfg user.org_name _ _ (user_attributes cfg user) v sp found)
