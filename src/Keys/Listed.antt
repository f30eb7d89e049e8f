-- ===== src/Keys/Listed.antt =====
-- user_client/service/key_service.go: `ListUserKeys`, which lists the newest version of every attribute.
use bc_abe.Common.{
  ℕ, ◌≤◌, ◌≢◌, ap, ◌∙◌, true, false, ◌≡◌, refl, sym, subst, ◌⊎◌, inl, inr, arith, List, [], ◌∷◌,
  All, All-map, Bool-cases,
}
use bc_abe.Text.{Text, ◌=ᵗ◌}
use bc_abe.Text.Equality.{=ᵗ→≡, =ᵗ_self}
use bc_abe.Chaincode.Stub.{Reply, ok, failed, ok-injective}
use bc_abe.Policy.Keys.{is_seen}
use bc_abe.Keys.Table.{UserAbeKey, KeyTable}
use bc_abe.Keys.Merge.{UserKeyRecord, list_from}

module _ (table : KeyTable) where
  open table use {State, of_user}

  -- `count` is the number of keys of a text, which pkg/mosaic reads.
  unfoldable pub list_user_keys : (Text → ℕ) → ℕ → State → Reply (List UserKeyRecord)
  unfolding list_from
  list_user_keys count user_id s = elim (of_user user_id s) [
    | failed t ↦ failed t
    | ok rows ↦ ok (list_from count [] rows)
  ]

-- No later row of the attribute is newer.
abbrev pub NotNewer : UserAbeKey → UserAbeKey → Type 0
NotNewer row q = q.attribute ≡ row.attribute → q.version ≤ row.version

-- The order `attribute asc, version desc`, as far as it tells the versions of an attribute.
abbrev pub NewestFirst : List UserAbeKey → Type 0
NewestFirst [] = Unit
NewestFirst (row ∷ rows) = All (NotNewer row) rows × NewestFirst rows

-- A record of the attribute whose version is not older.
abbrev pub Listed : UserAbeKey → List UserKeyRecord → Type 0
Listed row [] = ⊥
Listed row (r ∷ out) = ((r.attribute ≡ row.attribute) × (row.version ≤ r.version)) ⊎ Listed row out

abbrev SeenOrListed : List Text → List UserKeyRecord → UserAbeKey → Type 0
SeenOrListed seen out row = (is_seen row.attribute seen ≡ true) ⊎ Listed row out

seen_cases :
    (a b : Text) (seen : List Text)
    → is_seen a (b ∷ seen) ≡ true
    → (a ≡ b) ⊎ (is_seen a seen ≡ true)
unfolding is_seen
seen_cases a b seen h = elim (Bool-cases (a =ᵗ b)) [
  | inl t ↦ inl (=ᵗ→≡ a b t)
  | inr f ↦ inr (rw (is_seen, f) at h)
]

unseen_before :
    (a b : Text) (seen : List Text)
    → is_seen a (b ∷ seen) ≡ false
    → (a ≢ b) × (is_seen a seen ≡ false)
unfolding is_seen
unseen_before a b seen h = elim (Bool-cases (a =ᵗ b)) [
  | inl t ↦ let r = rw (is_seen, t) at h in cc
  | inr f ↦
      (λ e. true-ne-false (sym (=ᵗ_self b) ∙ ap (λ x. x =ᵗ b) (sym e) ∙ f), rw (is_seen, f) at h)
]
  where
    true-ne-false : true ≡ false → ⊥
    true-ne-false e = cc

-- No two records are of one attribute.
abbrev pub OneOfEach : List UserKeyRecord → Type 0
OneOfEach [] = Unit
OneOfEach (r ∷ out) = All (λ q. q.attribute ≢ r.attribute) out × OneOfEach out

module _ (count : Text → ℕ) where
  -- The record of a row.
  abbrev pub record_of : UserAbeKey → UserKeyRecord
  record_of row = record {
    attribute = row.attribute;
    version = row.version;
    keys = count row.user_key_json;
  }

  -- The record is that of a row.
  abbrev pub Taken : List UserAbeKey → UserKeyRecord → Type 0
  Taken [] r = ⊥
  Taken (row ∷ rows) r = (r ≡ record_of row) ⊎ Taken rows r

  -- What is covered behind a row that is listed.
  after_row :
      (seen : List Text) (row : UserAbeKey) (out : List UserKeyRecord) (rows : List UserAbeKey)
      → All (NotNewer row) rows
      → All (SeenOrListed (row.attribute ∷ seen) out) rows
      → All (SeenOrListed seen (record_of row ∷ out)) rows
  after_row seen row out [] n h = tt
  after_row seen row out (q ∷ rows) (n, ns) (inr l, hs) =
      (inr (inr l), after_row seen row out rows ns hs)
  after_row seen row out (q ∷ rows) (n, ns) (inl t, hs) = (
    elim (seen_cases q.attribute row.attribute seen t) [
      | inl e ↦ inr (inl (sym e, n e))
      | inr u ↦ inl u
    ],
    after_row seen row out rows ns hs,
  )

  seen_step :
      (seen : List Text) (row : UserAbeKey) (rows : List UserAbeKey)
      → is_seen row.attribute seen ≡ true
      → list_from count seen (row ∷ rows) ≡ list_from count seen rows
  unfolding list_from
  seen_step seen row rows t = rw (list_from, t)

  new_step :
      (seen : List Text) (row : UserAbeKey) (rows : List UserAbeKey)
      → is_seen row.attribute seen ≡ false
      → list_from count seen (row ∷ rows)
        ≡ record_of row ∷ list_from count (row.attribute ∷ seen) rows
  unfolding list_from
  new_step seen row rows f = rw (list_from, f)

  rows_in_list :
      (seen : List Text) (rows : List UserAbeKey)
      → NewestFirst rows
      → All (SeenOrListed seen (list_from count seen rows)) rows
  rows_in_list seen [] n = tt
  rows_in_list seen (row ∷ rows) (n, ns) = elim (Bool-cases (is_seen row.attribute seen)) [
    | inl t ↦
        subst (λ out. All (SeenOrListed seen out) (row ∷ rows)) (sym (seen_step seen row rows t))
          (inl t, rows_in_list seen rows ns)
    | inr f ↦
        subst (λ out. All (SeenOrListed seen out) (row ∷ rows)) (sym (new_step seen row rows f))
          (
            inr (inl (refl, omega arith)),
            after_row seen row (list_from count (row.attribute ∷ seen) rows) rows n
                (rows_in_list (row.attribute ∷ seen) rows ns),
          )
  ]

  records_of_rows :
      (seen : List Text) (rows : List UserAbeKey) → All (Taken rows) (list_from count seen rows)
  unfolding list_from
  records_of_rows seen [] = tt
  records_of_rows seen (row ∷ rows) = elim (Bool-cases (is_seen row.attribute seen)) [
    | inl t ↦
        subst (λ out. All (Taken (row ∷ rows)) out) (sym (seen_step seen row rows t))
          (All-map (list_from count seen rows) (λ r h. inr h) (records_of_rows seen rows))
    | inr f ↦
        subst (λ out. All (Taken (row ∷ rows)) out) (sym (new_step seen row rows f))
          (
            inl refl,
            All-map (list_from count (row.attribute ∷ seen) rows) (λ r h. inr h)
                (records_of_rows (row.attribute ∷ seen) rows),
          )
  ]

  unlisted :
      (seen : List Text) (rows : List UserAbeKey)
      → All (λ r. is_seen r.attribute seen ≡ false) (list_from count seen rows)
  unfolding list_from
  unlisted seen [] = tt
  unlisted seen (row ∷ rows) = elim (Bool-cases (is_seen row.attribute seen)) [
    | inl t ↦
        subst (All (λ r. is_seen r.attribute seen ≡ false)) (sym (seen_step seen row rows t))
          (unlisted seen rows)
    | inr f ↦ subst (All (λ r. is_seen r.attribute seen ≡ false)) (sym (new_step seen row rows f)) (
      f,
      All-map (list_from count (row.attribute ∷ seen) rows)
          (λ r h. (unseen_before r.attribute row.attribute seen h).1)
          (unlisted (row.attribute ∷ seen) rows),
    )
  ]

  one_of_each : (seen : List Text) (rows : List UserAbeKey) → OneOfEach (list_from count seen rows)
  unfolding list_from
  one_of_each seen [] = tt
  one_of_each seen (row ∷ rows) = elim (Bool-cases (is_seen row.attribute seen)) [
    | inl t ↦ subst OneOfEach (sym (seen_step seen row rows t)) (one_of_each seen rows)
    | inr f ↦ subst OneOfEach (sym (new_step seen row rows f)) (
      All-map (list_from count (row.attribute ∷ seen) rows)
          (λ r h. (unseen_before r.attribute row.attribute seen h).0)
          (unlisted (row.attribute ∷ seen) rows),
      one_of_each (row.attribute ∷ seen) rows,
    )
  ]

  unseen : (out : List UserKeyRecord) (row : UserAbeKey) → SeenOrListed [] out row → Listed row out
  unfolding is_seen
  unseen out row (inl t) = cc
  unseen out row (inr l) = l

module _ (table : KeyTable) where
  -- Where `ListUserKeys` gives no error, and the query returns the versions of each attribute from the
  -- newest on, as it asks for: every row that the query returns has a record of its attribute in the
  -- list, whose version is not older; every record of the list is that of a row; and no two of them are
  -- of one attribute.
  pub list_user_keys_lem :
      (count : Text → ℕ) (user_id : ℕ) (s : table.State) (rows : List UserAbeKey)
      (out : List UserKeyRecord)
      → table.of_user user_id s ≡ ok rows
      → NewestFirst rows
      → list_user_keys table count user_id s ≡ ok out
      → All (λ row. Listed row out) rows × All (Taken count rows) out × OneOfEach out
  unfolding list_user_keys
  list_user_keys_lem count user_id s rows out e n h =
      subst (λ o. All (λ row. Listed row o) rows × All (Taken count rows) o × OneOfEach o)
        (ok-injective (list_from count [] rows) out (rw (list_user_keys, e) at h))
        (
          All-map rows (unseen count (list_from count [] rows)) (rows_in_list count [] rows n),
          records_of_rows count [] rows,
          one_of_each count [] rows,
        )
