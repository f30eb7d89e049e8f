-- ===== src/Files/Upload.antt =====
-- user_client/service/file_service.go: `putEncrypted`, with `Encrypt` and `Update`, which call it.
use bc_abe.Common.{ℕ, Bool, not, List, [], ◌∷◌, ◌++◌, if◌then◌else◌, is_empty, Option, none, some}
use bc_abe.Text.{Text, codes, trim_space, print_nat}
use bc_abe.Chaincode.Stub.{ok, failed, Stub, Json}
use bc_abe.Chaincode.Contract.{GlobalParams, CiphertextAsset, put_ciphertext}
use bc_abe.Apperr.{
  Error, sentinel, other, wrap, not_found, invalid_input, invalid_policy, gateway_connect,
  fabric_network,
}
use bc_abe.Apperr.Answer.{Answer, answer, raise, check, ◌>>=◌, ◌>>◌}
use bc_abe.Policy.Normalize.{normalize_policy_syntax}
use bc_abe.Policy.Keys.{PolicyError, validate_ui_policy}
use bc_abe.Authority.Engine.{
  Mosaic, Engine, EngineResult, made, not_made, load_org_from_json, new_secret,
}
use bc_abe.Authority.Decrypting.{Filled, filled, not_filled, fill_auth_pubs_from_chain}
use bc_abe.Authority.Encrypting.{Encryption, present, engine_encrypt, sym_key_from_secret}
use bc_abe.Files.Content.{Gcm, aes_encrypt, safe_filename}
use bc_abe.Files.Assets.{FileStore, submitted, get_asset, fetch_org_pub_keys, file_name}

-- A panic ends the request: middleware/recovery.go answers it with the status 500, as this error is.
abbrev pub panic_error : Error
panic_error = other (codes "panic")

unfoldable pub or_fill_error : {A : Type 0} → Filled A → Answer A
or_fill_error (filled a) = answer a
or_fill_error (not_filled e) = raise (other (codes "authority public key"))

unfoldable pub or_engine_error : {A : Type 0} → EngineResult A → Answer A
or_engine_error (made a) = answer a
or_engine_error (not_made e) = raise (other (codes "abe"))

unfoldable pub unless_invalid : Option PolicyError → Answer (Unit {0})
unless_invalid none = answer tt
unless_invalid (some e) = raise (wrap invalid_policy (codes "validate"))

pub record EncryptResult : Type 0 where
  pub asset_id : Text
  pub policy : Text

-- What a call draws and reads of the clock.
pub record Chance (mosaic : Mosaic) : Type 0 where
  pub secret_seed : mosaic.Seed
  pub cipher_seed : mosaic.Seed
  pub nonce : List ℕ
  pub now : Text

-- What is made before the ledger is written.
pub record Prepared : Type 0 where
  pub policy : Text
  pub ciphertext : Text
  pub content : List ℕ

module _ (mosaic : Mosaic) (encryption : Encryption mosaic)
    (json_of_ciphertext : encryption.Ciphertext → Text) (encryptable valid : Text → Bool)
    (gcm : Gcm) (stub : Stub) (params_json : Json GlobalParams) (asset_json : Json CiphertextAsset)
    (ids_json : Json (List Text)) (store : FileStore) where
  open stub use {State}
  open store use {Files, write_file}

  -- What a request changes: the ledger, the files, and the organisation that the engine has loaded.
  pub record Client : Type 0 where
    pub ledger : State
    pub files : Files
    pub engine : Engine mosaic

  -- `SerializeOrg(authPub.Org)`; `none` where there is no organisation.
  unfoldable pub group_text : mosaic.AuthPub → Option Text
  group_text auth_pub = elim (encryption.org_of_auth_pub auth_pub) [
    | none ↦ none
    | some org ↦ some (mosaic.json_of_org org)
  ]

  -- The normalised policy, the keys of its authorities and the text of their group.
  unfoldable pub keys_for_policy :
      Text → List (Text × Text) → Answer (Text × List (Text × mosaic.AuthPub) × Text)
  unfolding unless_invalid or_fill_error group_text validate_ui_policy normalize_policy_syntax
      fill_auth_pubs_from_chain
  keys_for_policy policy0 pub_keys = do
    policy ← present panic_error (normalize_policy_syntax policy0)
    unless_invalid (validate_ui_policy encryptable valid policy)
    again ← present panic_error (normalize_policy_syntax policy)
    let names = encryption.auth_names_of_policy again
    check (wrap invalid_policy (codes "encrypt")) (not (is_empty names))
    table ←
        or_fill_error (fill_auth_pubs_from_chain mosaic.auth_pub_of_json group_text pub_keys names)
    answer (policy, table.0, table.1)

  unfoldable pub pointers : List (Text × mosaic.AuthPub) → List (Text × Option mosaic.AuthPub)
  pointers [] = []
  pointers ((name, auth_pub) ∷ table) = (name, some auth_pub) ∷ pointers table

  -- The secret, the content encrypted by it, and the ciphertext of it.
  unfoldable pub prepare :
      Chance mosaic → Engine mosaic → Text → List (Text × mosaic.AuthPub) → List ℕ → Answer Prepared
  unfolding or_engine_error new_secret sym_key_from_secret aes_encrypt engine_encrypt pointers
  prepare chance e policy table content = do
    secret ← or_engine_error (new_secret mosaic chance.secret_seed e)
    key ← sym_key_from_secret mosaic encryption (some secret)
    ct ←
        engine_encrypt mosaic encryption chance.cipher_seed (some secret) policy
          (some (pointers table))
    answer (record {
      policy = policy;
      ciphertext = json_of_ciphertext ct;
      content = aes_encrypt gcm key chance.nonce content;
    })

  created_of : Text → Answer CiphertextAsset → Text
  created_of now (raise e) = now
  created_of now (answer asset) = if is_empty asset.created_at then now else asset.created_at

  -- `existing` is `existingAssetID`.
  unfoldable pub created_at : Bool → Text → Text → State → Text
  unfolding created_of get_asset
  created_at connected now existing s =
      if is_empty existing
      then now
      else created_of now
          (get_asset stub params_json asset_json ids_json store connected existing s)

  -- The asset that is sent; the contract sets its version.
  unfoldable pub asset_to_put : ℕ → Text → Text → Text → Prepared → CiphertextAsset
  unfolding print_nat
  asset_to_put user_id asset_id created now prepared = record {
    id = asset_id;
    version = 0;
    policy = prepared.policy;
    ciphertext = prepared.ciphertext;
    owner = print_nat user_id;
    created_at = created;
    updated_at = now;
  }

  -- The transaction, and the file behind it. The ledger keeps the asset where the file is not written.
  unfoldable pub put_prepared :
      (CiphertextAsset → Text)
      → Bool
      → Chance mosaic
      → ℕ
      → Text
      → Text
      → Client
      → Prepared
      → Client × Answer EncryptResult
  unfolding put_ciphertext asset_to_put created_at file_name submitted
  put_prepared client_json connected chance user_id asset_id existing c prepared =
      let created = created_at connected chance.now existing c.ledger in
      let asset = asset_to_put user_id asset_id created chance.now prepared in
      elim (submitted (wrap fabric_network (codes "put ciphertext"))
        (put_ciphertext stub params_json asset_json ids_json (client_json asset) c.ledger)) [
          | raise e ↦ (c, raise e)
          | answer s' ↦
              elim (write_file (file_name store.data_dir asset_id) prepared.content c.files) [
                | failed t ↦ (record c { ledger = s' }, raise (other t))
                | ok files' ↦ (
                  record c { ledger = s'; files = files' },
                  answer (record { asset_id = asset_id; policy = prepared.policy }),
                )
              ]
        ]

  -- What is checked before the policy: the user, the organisation and the gateway.
  unfoldable pub checked_keys :
      Bool → Option Text → Text → State → Answer (Text × List (Text × mosaic.AuthPub) × Text)
  unfolding keys_for_policy fetch_org_pub_keys trim_space
  checked_keys connected org policy s = do
    org_json ← present (wrap not_found (codes "organization")) org
    check (other (codes "organization is not initialized")) (not (is_empty (trim_space org_json)))
    check (sentinel gateway_connect) connected
    pub_keys ← fetch_org_pub_keys stub params_json asset_json ids_json store s
    keys_for_policy policy pub_keys

  -- `putEncrypted` behind `GetUser`. `org` is the row of the user's organisation, and `client_json`
  -- the text of the asset that the client sends.
  unfoldable pub put_encrypted :
      (CiphertextAsset → Text)
      → Bool
      → Chance mosaic
      → Option Text
      → ℕ
      → Text
      → List ℕ
      → Text
      → Text
      → Client
      → Client × Answer EncryptResult
  unfolding put_prepared prepare checked_keys load_org_from_json
  put_encrypted client_json connected chance org user_id asset_id content policy0 existing c =
      elim (checked_keys connected org policy0 c.ledger) [
        | raise e ↦ (c, raise e)
        | answer (policy, table, shared) ↦
            let loaded = record c { engine = load_org_from_json mosaic shared c.engine } in
            elim (prepare chance loaded.engine policy table content) [
              | raise e ↦ (loaded, raise e)
              | answer prepared ↦
                  put_prepared client_json connected chance user_id asset_id existing loaded
                    prepared
            ]
      ]

  -- `Encrypt`: `stamp` is `time.Now().UnixNano()` in digits.
  unfoldable pub encrypt_file :
      (CiphertextAsset → Text)
      → Bool
      → Chance mosaic
      → Text
      → Option Text
      → ℕ
      → Text
      → List ℕ
      → Text
      → Client
      → Client × Answer EncryptResult
  unfolding put_encrypted safe_filename
  encrypt_file client_json connected chance stamp org user_id filename content policy c =
      put_encrypted client_json connected chance org user_id
        (stamp ++ b'-' ∷ safe_filename filename) content policy [] c

  unfoldable pub update_file :
      (CiphertextAsset → Text)
      → Bool
      → Chance mosaic
      → Option Text
      → ℕ
      → Text
      → List ℕ
      → Text
      → Client
      → Client × Answer EncryptResult
  unfolding put_encrypted trim_space
  update_file client_json connected chance org user_id asset_id content policy c =
      if is_empty (trim_space asset_id)
      then (c, raise (sentinel invalid_input))
      else put_encrypted client_json connected chance org user_id asset_id content policy asset_id c
