-- ===== src/Db/Seed.antt =====
-- utils/db/seed.go: `seedOneFabricUser` and the loop of `SeedFabricUsers`. The table of accounts, bcrypt
-- and the files of Fabric's network are parameters.
use bc_abe.Common.{Bool, ◌&&◌, List, [], ◌∷◌, ◌++◌, if◌then◌else◌, Option, none, some}
use bc_abe.Text.{Text, codes, ◌=ᵗ◌}
use bc_abe.Chaincode.Stub.{Reply, ok, failed}
use bc_abe.Apperr.{Error, other, wrap, db_connect, invalid_input, not_found}
use bc_abe.Keys.Accounts.{Account, MspIds, msp_id_for_org}

pub record FabricUserSpec : Type 0 where
  pub username : Text
  pub password : Text
  pub org_name : Text
  pub msp_user_dir : Text
  pub attributes : Text

-- The table of accounts. `first` is `ok none` where there is no row of the name, and `create` chooses
-- the identifier.
pub record SeedTable : Type 1 where
  pub State : Type 0
  pub first : Text → State → Reply (Option Account)
  pub save : Account → State → Reply State
  pub create : Account → State → Reply State

-- What a seed reads: the directory of Fabric's network with the certificate and the key of a user, and
-- the hash of a password.
pub record SeedFiles : Type 0 where
  pub has_dir : Text → Bool
  pub load_identity : Text → Reply (Text × Text)
  pub join : Text → Text → Text → Text
  pub generate : Text → Reply Text

-- The four users of the network.
abbrev pub fabric_users : List FabricUserSpec
fabric_users =
    record {
      username = codes "admin";
      password = codes "org1adminpw";
      org_name = codes "org1";
      msp_user_dir = codes "users/Admin@org1.example.com/msp";
      attributes = codes "admin";
    }
    ∷ record {
      username = codes "user1";
      password = codes "user1pw";
      org_name = codes "org1";
      msp_user_dir = codes "users/User1@org1.example.com/msp";
      attributes = codes "member";
    }
    ∷ record {
      username = codes "admin";
      password = codes "org2adminpw";
      org_name = codes "org2";
      msp_user_dir = codes "users/Admin@org2.example.com/msp";
      attributes = codes "admin";
    }
    ∷ record {
      username = codes "user1";
      password = codes "user1pw";
      org_name = codes "org2";
      msp_user_dir = codes "users/User1@org2.example.com/msp";
      attributes = codes "member";
    }
    ∷ []

unfoldable pub org_domain : Text → Text
org_domain org_name =
    if org_name =ᵗ codes "org2" then codes "org2.example.com" else codes "org1.example.com"

-- `fmt.Sprintf("%s@%s", spec.username, spec.orgName)`
unfoldable pub db_username : FabricUserSpec → Text
db_username spec = spec.username ++ b'@' ∷ spec.org_name

module _ (table : SeedTable) (files : SeedFiles) (msp_ids : MspIds) where
  open table use {State, first, save, create}
  open files use {has_dir, load_identity, join, generate}

  -- `Error` or nil, with the table.
  abbrev pub Seeded : Type 0
  Seeded = State × Option Error

  unfoldable pub wrapped_or_stored : Error → State → Reply State → Seeded
  wrapped_or_stored e s (ok s') = (s', none)
  wrapped_or_stored e s (failed t) = (s, some e)

  -- An account that is there has its certificate and its key replaced, where they differ.
  unfoldable pub refresh : Text → Text → Account → State → Seeded
  unfolding wrapped_or_stored
  refresh cert key existing s =
      if cert =ᵗ existing.cert_pem && key =ᵗ existing.key_pem
      then (s, none)
      else wrapped_or_stored (wrap db_connect (codes "refresh fabric user cert")) s
          (save (record existing { cert_pem = cert; key_pem = key }) s)

  unfoldable pub new_user : FabricUserSpec → Text → Text → Text → Account
  unfolding db_username msp_id_for_org
  new_user spec cert key hash = record {
    id = 0;
    username = db_username spec;
    password_hash = hash;
    org_name = spec.org_name;
    attributes = spec.attributes;
    cert_pem = cert;
    key_pem = key;
    msp_id = msp_id_for_org msp_ids spec.org_name;
  }

  unfoldable pub insert : FabricUserSpec → Text → Text → State → Seeded
  unfolding new_user wrapped_or_stored
  insert spec cert key s = elim (generate spec.password) [
    | failed t ↦ (s, some (wrap invalid_input (codes "hash password")))
    | ok hash ↦
        wrapped_or_stored (wrap db_connect (codes "create fabric user")) s
          (create (new_user spec cert key hash) s)
  ]

  unfoldable pub with_identity : FabricUserSpec → Text → Text → State → Seeded
  unfolding refresh insert db_username
  with_identity spec cert key s = elim (first (db_username spec) s) [
    | failed t ↦ (s, some (wrap db_connect (codes "query fabric user")))
    | ok (some existing) ↦ refresh cert key existing s
    | ok none ↦ insert spec cert key s
  ]

  -- `network_dir` is `cfg.FabricNetworkDir`.
  unfoldable pub seed_one_fabric_user : Text → FabricUserSpec → State → Seeded
  unfolding with_identity org_domain
  seed_one_fabric_user network_dir spec s =
      let msp_dir = join network_dir (org_domain spec.org_name) spec.msp_user_dir in
      if has_dir msp_dir
      then elim (load_identity msp_dir) [
        | failed t ↦ (s, some (other t))
        | ok (cert, key) ↦ with_identity spec cert key s
      ]
      else (s, some (wrap not_found (codes "fabric msp dir")))

  first_error : Option Error → Option Error → Option Error
  first_error none e = e
  first_error (some e) later = some e

  -- The loop, which goes on behind an error and returns the first.
  unfoldable pub seed_each : Text → List FabricUserSpec → State → Seeded
  unfolding seed_one_fabric_user first_error
  seed_each network_dir [] s = (s, none)
  seed_each network_dir (spec ∷ specs) s =
      let (s1, e1) = seed_one_fabric_user network_dir spec s in
      let (s2, e2) = seed_each network_dir specs s1 in (s2, first_error e1 e2)

  -- `connected` is `Get() != nil`.
  unfoldable pub seed_fabric_users : Bool → Text → State → Seeded
  unfolding seed_each
  seed_fabric_users connected network_dir s =
      if connected
      then seed_each network_dir fabric_users s
      else (s, some (wrap db_connect (codes "seed fabric users")))
