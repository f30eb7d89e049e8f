-- ===== src/Keys/Ensured.antt =====
-- user_client/service/key_service.go: what `EnsureKeysForPolicy` leaves in the table of keys.
use bc_abe.Common.{
  list_cases, option_cases, some-injective, none-ne-some, ℕ, ◌≡◌, refl, sym, ap, subst, ◌∙◌, inl,
  inr, List, [], ◌∷◌, ◌++◌, append_assoc, All, All-append, none, some, Bool-cases,
}
use bc_abe.Text.{Text}
use bc_abe.Apperr.{Error, other}
use bc_abe.Apperr.Answer.{
  answer_cases, answer, raise, or_raise, bind-answer, or_raise-answer, answer-injective,
}
use bc_abe.Policy.Normalize.{normalize_policy_syntax}
use bc_abe.Policy.Keys.{KeyIssueSpec, Specs, specs, failed as no_specs, key_issue_specs_from_policy}
use bc_abe.Authority.Engine.{Mosaic}
use bc_abe.Msp.PrivateKey.{KeyPem}
use bc_abe.Keys.Result.{result_cases}
use bc_abe.Keys.Account.{Config, auth_name_for_org}
use bc_abe.Keys.Accounts.{Account}
use bc_abe.Keys.Format.{AttrSpec}
use bc_abe.Keys.Numeric.{resolve_attr_spec_for_user}
use bc_abe.Keys.Issue.{authorize_key_issue}
use bc_abe.Keys.Table.{UserAbeKey, KeyTable, KeyTableLaws, next_row, store_key}
use bc_abe.Keys.Issuing.{Network, Ports, AutoKeyResult, user_of, issue, issue_and_store}
use bc_abe.Keys.Merge.{missing_attrs}
use bc_abe.Keys.Ensure.{
  Ensured, names_other_authority, spec_needs_issue, issue_for, end_of, ensure_each, ensure_specs,
  ensure_of_specs, ensure_keys_for_policy, specs_error,
}

module _ (table : KeyTable) where
  -- The rows of the one table are those of the other and new ones of the user, in front.
  abbrev pub Grown : ℕ → table.State → table.State → Type 0
  Grown user_id s s' =
      (new : List UserAbeKey) × (table.rows s' ≡ new ++ table.rows s)
      × All (λ row. row.user_id ≡ user_id) new

  same-Grown : (u : ℕ) (s : table.State) → Grown u s s
  same-Grown u s = ([], refl, tt)

  Grown-trans : (u : ℕ) (s t v : table.State) → Grown u s t → Grown u t v → Grown u s v
  Grown-trans u s t v (a, ea, ha) (b, eb, hb) = (
    b ++ a,
    eb ∙ ap (λ x. b ++ x) ea ∙ sym (append_assoc b a (table.rows s)),
    All-append _ b a hb ha,
  )

module _ (expansion policy_vars : Text → List Text) (mosaic : Mosaic) (keys : KeyPem)
    (net : Network) (cfg : Config) (ports : Ports) (table : KeyTable)
    (laws : KeyTableLaws table) where
  open table use {State}

  issue_and_store-Grown :
      (user : Account) (spec : AttrSpec) (s : State) (r : State × ℕ)
      → issue_and_store keys net cfg ports table user spec s ≡ answer r
      → Grown table user.id s r.0
  unfolding issue_and_store store_key
  issue_and_store-Grown user spec s r h =
      let (text, e1, h1) = bind-answer (issue keys net cfg ports user spec) _ r h in
      let (s', e2, h2) =
        bind-answer
          (or_raise other (store_key table user.id spec.display_label spec.issue_attr text s)) _ r
          h1 in
      subst (λ (x : State × ℕ). Grown table user.id s x.0)
        (answer-injective (s', net.key_count text) r h2)
        (
          next_row table user.id spec.display_label spec.issue_attr text s ∷ [],
          laws.rows-create _ s s' (or_raise-answer other _ s' e2),
          (unfold next_row in refl, tt),
        )

  raise-ne-answer : {A : Type 0} (e : Error) (a : A) → raise e ≡ answer a → ⊥
  raise-ne-answer e a h = cc

  issue_for-Grown :
      (user : Account) (spec : KeyIssueSpec) (s : State) (r : State × AutoKeyResult)
      → issue_for expansion policy_vars mosaic keys net cfg ports table user spec s ≡ answer r
      → Grown table user.id s r.0
  unfolding issue_for
  issue_for-Grown user spec s r h =
      elim (result_cases
        (resolve_attr_spec_for_user cfg (user_of user) spec.display_label spec.issue_attr)) [
          | inl (e, p) ↦ absurd (raise-ne-answer _ r (rw (issue_for, p) at h))
          | inr (a, p) ↦
              elim (option_cases (authorize_key_issue cfg (user_of user) a spec.display_label)) [
                | inr (e, q) ↦ absurd (raise-ne-answer _ r (rw (issue_for, p, q) at h))
                | inl q ↦ elim (answer_cases (issue_and_store keys net cfg ports table user a s)) [
                  | inl (e, i) ↦ absurd (raise-ne-answer _ r (rw (issue_for, p, q, i) at h))
                  | inr (x, i) ↦
                      subst (λ (y : State × AutoKeyResult). Grown table user.id s y.0)
                        (answer-injective (x.0, _) r (rw (issue_for, p, q, i) at h))
                        (issue_and_store-Grown user a s x i)
                ]
              ]
        ]

  -- What is promised of an end: the table has grown, and nothing is missing where there is no error.
  abbrev Promise : Text → Account → State → Ensured State → Type 0
  Promise policy user s r =
      Grown table user.id s r.state
      × (r.error ≡ none → missing_attrs mosaic table cfg policy_vars policy user r.state ≡ some [])

  end-Promise :
      (policy : Text) (user : Account) (s t : State) (issued : List AutoKeyResult)
      (missing : List Text)
      → Grown table user.id s t
      → missing_attrs mosaic table cfg policy_vars policy user t ≡ some missing
      → Promise policy user s
          (end_of expansion policy_vars mosaic keys net cfg ports table t issued missing)
  unfolding end_of
  end-Promise policy user s t issued [] g e = (g, λ n. e)
  end-Promise policy user s t issued (attr ∷ attrs) g e = (g, λ n. cc)

  stop-Promise :
      (policy : Text) (user : Account) (s t : State) (issued : List AutoKeyResult) (e : Error)
      → Grown table user.id s t
      → Promise policy user s (record { state = t; issued = issued; error = some e })
  stop-Promise policy user s t issued e g = (g, λ n. cc)

  ends :
      (policy : Text) (user : Account) (s : State) (r r' : Ensured State)
      → Promise policy user s r
      → some r ≡ some r'
      → Promise policy user s r'
  ends policy user s r r' g h = subst (Promise policy user s) (some-injective r r' h) g

  each-Promise :
      (policy : Text) (user : Account) (s0 : State) (sps : List KeyIssueSpec) (missing : List Text)
      (s : State) (issued : List AutoKeyResult) (r : Ensured State)
      → Grown table user.id s0 s
      → missing_attrs mosaic table cfg policy_vars policy user s ≡ some missing
      → ensure_each expansion policy_vars mosaic keys net cfg ports table policy user sps missing s
          issued
        ≡ some r
      → Promise policy user s0 r
  unfolding ensure_each
  each-Promise policy user s0 [] missing s issued r g e h =
      ends policy user s0 _ r (end-Promise policy user s0 s issued missing g e) h
  each-Promise policy user s0 (spec ∷ sps) missing s issued r g e h =
      elim (Bool-cases (
        spec_needs_issue expansion policy_vars mosaic keys net cfg ports table user spec missing)) [
          | inr f ↦
              each-Promise policy user s0 sps missing s issued r g e (rw (ensure_each, f) at h)
          | inl t ↦
              elim (answer_cases
                (issue_for expansion policy_vars mosaic keys net cfg ports table user spec s)) [
                  | inl (err, i) ↦
                      ends policy user s0 _ r (stop-Promise policy user s0 s issued err g)
                        (rw (ensure_each, t, i) at h)
                  | inr ((s', result), i) ↦
                      let g' =
                        Grown-trans table user.id s0 s s' g
                          (issue_for-Grown user spec s (s', result) i) in
                      elim (option_cases
                        (missing_attrs mosaic table cfg policy_vars policy user s')) [
                          | inl n ↦ absurd (none-ne-some r (rw (ensure_each, t, i, n) at h))
                          | inr (m, n) ↦ elim (list_cases m) [
                            | inl z ↦
                                ends policy user s0 _ r
                                  (end-Promise policy user s0 s' (issued ++ result ∷ []) [] g'
                                    (n ∙ ap some z))
                                  (rw (ensure_each, t, i, n ∙ ap some z) at h)
                            | inr (attr, attrs, z) ↦
                                each-Promise policy user s0 sps (attr ∷ attrs) s'
                                  (issued ++ result ∷ []) r g' (n ∙ ap some z)
                                  (rw (ensure_each, t, i, n ∙ ap some z) at h)
                          ]
                        ]
                ]
        ]

  specs-Promise :
      (policy : Text) (user : Account) (s : State) (sps : List KeyIssueSpec) (r : Ensured State)
      → ensure_specs expansion policy_vars mosaic keys net cfg ports table policy user sps s
        ≡ some r
      → Promise policy user s r
  unfolding ensure_specs
  specs-Promise policy user s sps r h =
      let same = same-Grown table user.id s in
      elim (Bool-cases (names_other_authority (auth_name_for_org cfg user.org_name) sps)) [
        | inl t ↦
            ends policy user s _ r (stop-Promise policy user s s [] _ same)
              (rw (ensure_specs, t) at h)
        | inr f ↦ elim (option_cases (missing_attrs mosaic table cfg policy_vars policy user s)) [
          | inl n ↦ absurd (none-ne-some r (rw (ensure_specs, f, n) at h))
          | inr (m, n) ↦ elim (list_cases m) [
            | inl z ↦
                ends policy user s _ r (end-Promise policy user s s [] [] same (n ∙ ap some z))
                  (rw (ensure_specs, f, n ∙ ap some z) at h)
            | inr (attr, attrs, z) ↦
                each-Promise policy user s sps (attr ∷ attrs) s [] r same (n ∙ ap some z)
                  (rw (ensure_specs, f, n ∙ ap some z) at h)
          ]
        ]
      ]

  of_specs-Promise :
      (policy : Text) (user : Account) (s : State) (sps : Specs) (r : Ensured State)
      → ensure_of_specs expansion policy_vars mosaic keys net cfg ports table policy user s sps
        ≡ some r
      → Promise policy user s r
  unfolding ensure_of_specs
  of_specs-Promise policy user s (specs sps) r h = specs-Promise policy user s sps r h
  of_specs-Promise policy user s (no_specs e) r h = elim (option_cases (specs_error e)) [
    | inl n ↦ absurd (none-ne-some r (rw (ensure_of_specs, n) at h))
    | inr (err, n) ↦
        ends policy user s _ r (stop-Promise policy user s s [] err (same-Grown table user.id s))
          (rw (ensure_of_specs, n) at h)
  ]

  -- However `EnsureKeysForPolicy` ends, with an error or without: the table of keys holds what it held
  -- and new rows of the user alone. If it ends without an error, then the user's keys in the table, as
  -- `MergeUserKeysForPolicy` merges them, lack no attribute of the normalised policy.
  pub ensure_keys_for_policy_lem :
      (user : Account) (policy p : Text) (s : State) (r : Ensured State)
      → normalize_policy_syntax policy ≡ some p
      → ensure_keys_for_policy expansion policy_vars mosaic keys net cfg ports table user policy s
        ≡ some r
      → Grown table user.id s r.state
        × (r.error ≡ none → missing_attrs mosaic table cfg policy_vars p user r.state ≡ some [])
  unfolding ensure_keys_for_policy
  ensure_keys_for_policy_lem user policy p s r n h =
      of_specs-Promise p user s (key_issue_specs_from_policy p) r
        (rw (ensure_keys_for_policy, n) at h)
