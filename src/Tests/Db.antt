-- ===== src/Tests/Db.antt =====
-- The theorems on utils/db at a name with a backtick, and at a table of accounts in memory.
use bc_abe.Common.{true, ◌≡◌, refl, List, [], ◌∷◌, ◌++◌, Option, none, some, if◌then◌else◌}
use bc_abe.Text.{Text, codes, ◌=ᵗ◌}
use bc_abe.Chaincode.Stub.{ok}
use bc_abe.Keys.Accounts.{Account, MspIds}
use bc_abe.Db.Dsn.{quote_ident}
use bc_abe.Db.Quoted.{read_ident, begins_quoted, read_ident-quote_ident}
use bc_abe.Db.Seed.{FabricUserSpec, SeedTable, SeedFiles}

read_ident-quote_ident_example :
    read_ident (quote_ident (codes "a`; DROP") ++ codes " CHARACTER SET utf8mb4")
    ≡ some (codes "a`; DROP", codes " CHARACTER SET utf8mb4")
read_ident-quote_ident_example =
    read_ident-quote_ident (codes "a`; DROP") (codes " CHARACTER SET utf8mb4")
      (unfold begins_quoted in refl)

unfoldable account_of : Text → List Account → Option Account
account_of n [] = none
account_of n (a ∷ s) = if a.username =ᵗ n then some a else account_of n s

-- The newest row of a name counts.
abbrev accounts : SeedTable
accounts = record {
  State = List Account;
  first = λ n s. ok (account_of n s);
  save = λ a s. ok (a ∷ s);
  create = λ a s. ok (record a { id = 9 } ∷ s);
}

abbrev disk : SeedFiles
disk = record {
  has_dir = λ dir. true;
  load_identity = λ dir. ok (codes "new cert", codes "new key");
  join = λ a b c. a ++ b'/' ∷ (b ++ b'/' ∷ c);
  generate = λ password. ok password;
}

abbrev ids : MspIds
ids = record { msp_id_org1 = codes "Org1MSP"; msp_id_org2 = codes "Org2MSP" }

abbrev user1 : FabricUserSpec
user1 = record {
  username = codes "user1";
  password = codes "user1pw";
  org_name = codes "org1";
  msp_user_dir = codes "users/User1@org1.example.com/msp";
  attributes = codes "member";
}

abbrev before : Account
before = record {
  id = 3;
  username = codes "user1@org1";
  password_hash = codes "changed";
  org_name = codes "org1";
  attributes = codes "member,cry=20";
  cert_pem = codes "old cert";
  key_pem = codes "old key";
  msp_id = codes "Org1MSP";
}

abbrev after : Account
after = record before { cert_pem = codes "new cert"; key_pem = codes "new key" }
