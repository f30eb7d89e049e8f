-- ===== src/Db/Seeded.antt =====
-- utils/db/seed.go: what a seed leaves in the table of accounts.
use bc_abe.Common.{ℕ, ◌≡◌, Option, none, some}
use bc_abe.Text.{Text}
use bc_abe.Chaincode.Stub.{ok}
use bc_abe.Apperr.{Error}
use bc_abe.Keys.Accounts.{Account, MspIds}
use bc_abe.Db.Seed.{SeedTable, SeedFiles}

-- A row is found by its name once it has been stored.
pub record SeedLaws (table : SeedTable) : Type 0 where
  pub first_name :
      (n : Text) (s : table.State) (a : Account) → table.first n s ≡ ok (some a) → a.username ≡ n
  pub first-save :
      (a : Account) (s s' : table.State)
      → table.save a s ≡ ok s'
      → table.first a.username s' ≡ ok (some a)
  pub first-create :
      (a : Account) (s s' : table.State)
      → table.create a s ≡ ok s'
      → (n : ℕ) × (table.first a.username s' ≡ ok (some (record a { id = n })))

-- The fields that a seed does not touch.
abbrev pub SameAccount : Account → Account → Type 0
SameAccount old a =
    (a.id ≡ old.id)
    × (a.password_hash ≡ old.password_hash)
    × (a.org_name ≡ old.org_name)
    × (a.attributes ≡ old.attributes)
    × (a.msp_id ≡ old.msp_id)

error_of :
    {S : Type 0} (s s' : S) (e : Error) → ◌≡◌ {A = S × Option Error} (s, some e) (s', none) → ⊥
error_of s s' e h = cc

module _ (table : SeedTable) (files : SeedFiles) (msp_ids : MspIds) (laws : SeedLaws table) where
  open table use {State, first, save, create}

  -- The account of the name, with the certificate and the key, and what it was before.
  abbrev pub Holds : Text → Text → Text → State → State → Type 0
  Holds name cert key s s' =
      (a : Account) × (first name s' ≡ ok (some a))
      × (a.cert_pem ≡ cert)
      × (a.key_pem ≡ key)
      × ((old : Account) → first name s ≡ ok (some old) → SameAccount old a)
