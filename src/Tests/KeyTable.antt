-- ===== src/Tests/KeyTable.antt =====
-- The theorems on user_client/service/key_service.go at a table of keys in memory and at a server that
-- answers with the name of the attribute it is asked for. A private key is the text `key`, and what it
-- signs is its own signature.
use bc_abe.Common.{All, true, arith, subst, ◌≡◌, refl, List, [], ◌∷◌, ◌++◌, none, some, inl}
use bc_abe.Text.{Text, codes, ◌=ᵗ◌, trim_space}
use bc_abe.Text.Equality.{=ᵗ_self}
use bc_abe.Chaincode.Stub.{ok, ok-injective}
use bc_abe.Apperr.Answer.{answer}
use bc_abe.Policy.Normalize.{normalize_policy_syntax}
use bc_abe.Authority.Engine.{new_engine}
use bc_abe.Authority.Verify.{IssueKeyReq}
use bc_abe.Authority.Server.{issued, handle_issue_key, has_missing_fields}
use bc_abe.Msp.PrivateKey.{KeyPem, parse_ec_private_key_pem}
use bc_abe.Keys.Account.{sample_config}
use bc_abe.Keys.Accounts.{Account}
use bc_abe.Keys.Table.{UserAbeKey, store_key}
use bc_abe.Keys.Versions.{Unique, Reach, here, next, stored, Reach-Unique}
use bc_abe.Keys.Samples.{list_table, list_table-laws, greatest, of_one_user}
use bc_abe.Keys.Issuing.{Network, Ports, issue_request}
use bc_abe.Keys.Handshake.{Matching, HasPair, handle_issue_key-issue_request}
use bc_abe.Keys.Listed.{list_user_keys, Listed, Taken, OneOfEach, list_user_keys_lem}
use bc_abe.Keys.Merge.{missing_attrs}
use bc_abe.Keys.Ensure.{Ensured, ensure_keys_for_policy}
use bc_abe.Keys.Ensured.{Grown, ensure_keys_for_policy_lem}
use bc_abe.Tests.Authority.{text_mosaic, text_pki, org1, bob_key, bob_key_made}

abbrev pub vit_row : UserAbeKey
vit_row = record {
  user_id = 7;
  attribute = codes "Vit@auth0";
  version = 1;
  user_key_json = codes "Vit@auth0";
}

abbrev vit_again : UserAbeKey
vit_again = record vit_row { version = 2 }

vit_stored :
    store_key list_table 7
      (codes "Vit@auth0")
      (codes "Vit@auth0")
      (codes "Vit@auth0")
      (vit_row ∷ [])
    ≡ ok (vit_again ∷ vit_row ∷ [])
unfolding store_key greatest
vit_stored = refl

vit_Reach : Reach list_table list_table-laws (vit_row ∷ []) 1 (vit_again ∷ vit_row ∷ [])
unfolding greatest
vit_Reach =
    next here (stored 7 (codes "Vit@auth0") (codes "Vit@auth0") (codes "Vit@auth0") vit_stored)

Reach-Unique_example : Unique (vit_again ∷ vit_row ∷ [])
Reach-Unique_example =
    Reach-Unique list_table list_table-laws 1 1 (λ u names s. (_, refl)) (omega arith, tt)
      (omega arith) vit_Reach (tt, tt)

abbrev pub text_keys : KeyPem
text_keys = record {
  PrivateKey = Text;
  decode_block = λ t. some (codes "PRIVATE KEY", t);
  parse_ec = λ bytes. ok bytes;
  parse_pkcs8 = λ bytes. ok (some bytes);
  sign = λ key bytes. ok bytes;
}

abbrev pub text_network : Network
text_network = record {
  sha256 = λ bytes. bytes;
  base64_encode = λ bytes. bytes;
  marshal_issue = λ user attribute. user ++ b':' ∷ attribute;
  post = λ port req. ok (200, req.attribute);
  decode_key = λ t. ok t;
  key_count = λ t. 1;
}

abbrev matching : Matching text_keys text_network text_pki
matching = record {
  public_of = λ key. key;
  same_hash = λ bytes. refl;
  same_body = λ user attribute. refl;
  decode-encode = λ bytes. refl;
  verify-sign = λ key bytes sig h.
      subst (λ x. (bytes =ᵗ x) ≡ true) (ok-injective bytes sig h) (=ᵗ_self bytes);
}

abbrev pub bob : Account
bob = record {
  id = 7;
  username = codes "bob";
  password_hash = [];
  org_name = codes "org1";
  attributes = codes "Vit";
  cert_pem = codes "key";
  key_pem = codes "key";
  msp_id = codes "Org1MSP";
}

abbrev pub ports : Ports
ports = record { auth_admin_org1_port = 8081; auth_admin_org2_port = 8082 }

abbrev bob_asks : IssueKeyReq
bob_asks = record {
  user = codes "bob";
  attribute = codes "Vit@auth0";
  cert_pem = codes "key";
  signature = codes "bob:Vit@auth0";
  body_hash = codes "bob:Vit@auth0";
}

bob-HasPair : HasPair text_keys text_network text_pki matching bob
unfolding parse_ec_private_key_pem
bob-HasPair = record {
  block = codes "key";
  cert = codes "key";
  key = codes "key";
  block_eq = refl;
  cert_eq = refl;
  public_eq = refl;
  key_eq = refl;
}

bob_request :
    issue_request text_keys text_network sample_config ports bob (codes "Vit@auth0")
    ≡ answer bob_asks
unfolding issue_request
bob_request = refl

handle_issue_key-issue_request_example :
    (handle_issue_key text_mosaic text_pki 15 [] []
      (some org1)
      (codes "POST")
      (ok bob_asks)
      (new_engine text_mosaic (codes "seed"))).1
    ≡ issued bob_key
handle_issue_key-issue_request_example =
    handle_issue_key-issue_request text_keys text_network text_pki matching text_mosaic 15 [] []
      org1 (new_engine text_mosaic (codes "seed")) sample_config ports bob (codes "Vit@auth0")
      bob_asks bob_key bob-HasPair (inl refl) bob_request (unfold has_missing_fields in refl)
      bob_key_made

abbrev pub vars_of : Text → List Text
vars_of policy = policy ∷ []

abbrev ensured : Ensured (List UserAbeKey)
ensured = record {
  state = vit_row ∷ [];
  issued = record { attribute = codes "Vit@auth0"; version = 1; keys = 1 } ∷ [];
  error = none;
}

vit_policy : normalize_policy_syntax (codes "Vit@auth0") ≡ some (codes "Vit@auth0")
unfolding normalize_policy_syntax trim_space
vit_policy = refl

vit_ensured :
    ensure_keys_for_policy vars_of vars_of text_mosaic text_keys text_network sample_config ports
      list_table bob
      (codes "Vit@auth0")
      []
    ≡ some ensured
unfolding ensure_keys_for_policy greatest of_one_user trim_space
vit_ensured = refl

ensure_keys_for_policy_example :
    Grown list_table 7 [] (vit_row ∷ [])
    × (ensured.error ≡ none
        → missing_attrs text_mosaic list_table sample_config vars_of
            (codes "Vit@auth0")
            bob
            (vit_row ∷ [])
          ≡ some [])
ensure_keys_for_policy_example =
    ensure_keys_for_policy_lem vars_of vars_of text_mosaic text_keys text_network sample_config
      ports list_table list_table-laws bob (codes "Vit@auth0") (codes "Vit@auth0") [] ensured
      vit_policy vit_ensured

vit_listed :
    list_user_keys list_table (λ t. 1) 7 (vit_again ∷ vit_row ∷ [])
    ≡ ok (record { attribute = codes "Vit@auth0"; version = 2; keys = 1 } ∷ [])
unfolding list_user_keys of_one_user
vit_listed = refl

both_rows : list_table.of_user 7 (vit_again ∷ vit_row ∷ []) ≡ ok (vit_again ∷ vit_row ∷ [])
unfolding of_one_user
both_rows = refl

list_user_keys_example :
    All
      (λ row. Listed row (record { attribute = codes "Vit@auth0"; version = 2; keys = 1 } ∷ []))
      (vit_again ∷ vit_row ∷ [])
    × All
        (Taken (λ t. 1) (vit_again ∷ vit_row ∷ []))
        (record { attribute = codes "Vit@auth0"; version = 2; keys = 1 } ∷ [])
    × OneOfEach (record { attribute = codes "Vit@auth0"; version = 2; keys = 1 } ∷ [])
list_user_keys_example =
    list_user_keys_lem list_table (λ t. 1) 7 (vit_again ∷ vit_row ∷ []) (vit_again ∷ vit_row ∷ [])
      (record { attribute = codes "Vit@auth0"; version = 2; keys = 1 } ∷ []) both_rows
      ((λ e. omega arith, tt), (tt, tt)) vit_listed
