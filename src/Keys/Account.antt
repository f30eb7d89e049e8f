-- ===== src/Keys/Account.antt =====
-- The user's account (utils/db/models.go), the names of the authorities (utils/config/env.go) and
-- `UserAttributes` of user_client/service/auth_service.go.
use bc_abe.Common.{List, [], ◌∷◌, ◌++◌, if◌then◌else◌, is_empty, ◌≡◌, refl}
use bc_abe.Text.{Text, codes, trim_space, contains, equal_fold, split_on}

-- What the services read of `db.UserAccount`.
pub record UserAccount : Type 0 where
  pub username : Text
  pub org_name : Text
  pub attributes : Text

-- What `AuthNameForOrg` reads of the configuration.
pub record Config : Type 0 where
  pub auth_name_org1 : Text
  pub auth_name_org2 : Text

unfoldable pub auth_name_for_org : Config → Text → Text
unfolding equal_fold
auth_name_for_org cfg org_name =
    if equal_fold org_name (codes "org2") then cfg.auth_name_org2 else cfg.auth_name_org1

with_auth : Text → Text → Text
unfolding contains
with_auth auth p = if contains p (codes "@") then p else p ++ b'@' ∷ auth

-- The loop of `UserAttributes`.
unfoldable pub read_attributes : Text → List Text → List Text
unfolding with_auth trim_space
read_attributes auth [] = []
read_attributes auth (p0 ∷ ps) =
    let p = trim_space p0 in
    let rest = read_attributes auth ps in if is_empty p then rest else with_auth auth p ∷ rest

unfoldable pub user_attributes : Config → UserAccount → List Text
unfolding read_attributes split_on auth_name_for_org
user_attributes cfg user =
    if is_empty user.attributes
    then []
    else read_attributes (auth_name_for_org cfg user.org_name) (split_on b',' [] user.attributes)

abbrev pub sample_config : Config
sample_config = record { auth_name_org1 = codes "auth0"; auth_name_org2 = codes "auth1" }

attributes_of_org2 :
    user_attributes sample_config (record {
      username = codes "alice";
      org_name = codes "Org2";
      attributes = codes "Cry=20, ,Vit@auth0";
    })
    ≡ codes "Cry=20@auth1" ∷ codes "Vit@auth0" ∷ []
unfolding user_attributes
attributes_of_org2 = refl
