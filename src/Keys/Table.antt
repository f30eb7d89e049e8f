-- ===== src/Keys/Table.antt =====
-- The table of keys (`db.UserABEKey`, utils/db/models.go): how key_service.go stores a key under the
-- version after the latest, and reads that version. MySQL is a parameter, with what its queries promise.
use bc_abe.Common.{
  ℕ, ◌≤◌, Bool, true, false, ◌&&◌, ◌≡◌, List, [], ◌∷◌, ◌==◌, All, ◌⊎◌, Option, none, some,
}
use bc_abe.Text.{Text}
use bc_abe.Chaincode.Stub.{Reply, ok, failed}
use bc_abe.Chaincode.Contract.{next_version}
use bc_abe.Policy.Keys.{is_seen}

pub record UserAbeKey : Type 0 where
  pub user_id : ℕ
  pub attribute : Text
  pub version : ℕ
  pub user_key_json : Text

-- `user_id = ?` and `attribute IN ?`
unfoldable pub matches : ℕ → List Text → UserAbeKey → Bool
unfolding is_seen
matches user_id attributes row = row.user_id == user_id && is_seen row.attribute attributes

pub record KeyTable : Type 1 where
  pub State : Type 0
  pub rows : State → List UserAbeKey
  -- `Order("version desc").First` on the rows that match; `ok none` is `gorm.ErrRecordNotFound`.
  pub latest : ℕ → List Text → State → Reply (Option UserAbeKey)
  -- `Order("attribute asc, version desc").Find` on the rows of a user.
  pub of_user : ℕ → State → Reply (List UserAbeKey)
  pub create : UserAbeKey → State → Reply State

-- The row is one of the rows.
abbrev pub Among : UserAbeKey → List UserAbeKey → Type 0
Among row [] = ⊥
Among row (q ∷ rows) = (q ≡ row) ⊎ Among row rows

pub record KeyTableLaws (table : KeyTable) : Type 0 where
  pub rows-create :
      (row : UserAbeKey) (s s' : table.State)
      → table.create row s ≡ ok s'
      → table.rows s' ≡ row ∷ table.rows s
  -- Nothing is found where nothing matches.
  pub latest_none :
      (user_id : ℕ) (attributes : List Text) (s : table.State)
      → table.latest user_id attributes s ≡ ok none
      → All (λ q. matches user_id attributes q ≡ false) (table.rows s)
  -- The row that is found has the greatest version of those that match.
  pub latest_some :
      (user_id : ℕ) (attributes : List Text) (s : table.State) (row : UserAbeKey)
      → table.latest user_id attributes s ≡ ok (some row)
      → All (λ q. matches user_id attributes q ≡ true → q.version ≤ row.version) (table.rows s)
  pub latest_stored :
      (user_id : ℕ) (attributes : List Text) (s : table.State) (row : UserAbeKey)
      → table.latest user_id attributes s ≡ ok (some row)
      → Among row (table.rows s)

-- `version := 1`, and `latest.Version + 1` where the query gives no error of any kind.
unfoldable pub version_after : Reply (Option UserAbeKey) → ℕ
unfolding next_version
version_after (ok (some row)) = next_version row.version
version_after (ok none) = 1
version_after (failed t) = 1

module _ (table : KeyTable) where
  open table use {State, latest, create}

  -- The row that the transaction of `issueAndStore` creates.
  unfoldable pub next_row : ℕ → Text → Text → Text → State → UserAbeKey
  unfolding version_after
  next_row user_id display_label issue_attr user_key_json s = record {
    user_id = user_id;
    attribute = display_label;
    version = version_after (latest user_id (display_label ∷ issue_attr ∷ []) s);
    user_key_json = user_key_json;
  }

  unfoldable pub store_key : ℕ → Text → Text → Text → State → Reply State
  unfolding next_row
  store_key user_id display_label issue_attr user_key_json s =
      create (next_row user_id display_label issue_attr user_key_json s) s

  -- `nVersion`
  unfoldable pub n_version : ℕ → Text → State → ℕ
  n_version user_id attribute s = elim (latest user_id (attribute ∷ []) s) [
    | ok (some row) ↦ row.version
    | ok none ↦ 1
    | failed t ↦ 1
  ]
