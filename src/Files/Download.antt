-- ===== src/Files/Download.antt =====
-- user_client/service/file_service.go: `Decrypt`. A panic is an error where nothing has changed yet,
-- and `none` behind that.
use bc_abe.Common.{ℕ, Bool, not, List, if◌then◌else◌, is_empty, Option, none, some}
use bc_abe.Text.{Text, codes, trim_space}
use bc_abe.Chaincode.Stub.{Reply, ok, failed, Stub, Json}
use bc_abe.Chaincode.Contract.{GlobalParams, CiphertextAsset}
use bc_abe.Apperr.{Error, sentinel, other, wrap, not_found, unauthorized}
use bc_abe.Apperr.Answer.{Answer, answer, raise, check, ◌>>=◌, ◌>>◌}
use bc_abe.Policy.Normalize.{normalize_policy_syntax}
use bc_abe.Authority.Engine.{Mosaic, Engine, load_org_from_json, serialize_org}
use bc_abe.Authority.Encrypting.{Encryption, present, sym_key_from_secret}
use bc_abe.Authority.Decrypt.{
  CiphertextData, UserKeys, Decrypted, secret, not_decrypted, engine_decrypt,
}
use bc_abe.Msp.PrivateKey.{KeyPem}
use bc_abe.Keys.Account.{Config}
use bc_abe.Keys.Accounts.{Account}
use bc_abe.Keys.Table.{KeyTable}
use bc_abe.Keys.Issuing.{Network, Ports, AutoKeyResult}
use bc_abe.Keys.Merge.{merge_user_keys_for_policy}
use bc_abe.Keys.Ensure.{Ensured, ensure_keys_for_policy}
use bc_abe.Files.Content.{Gcm, aes_decrypt}
use bc_abe.Files.Assets.{FileStore, file_name, get_asset}

pub record DecryptResult : Type 0 where
  pub content : List ℕ
  pub policy : Text
  pub issued_keys : List AutoKeyResult

-- What `Decrypt` uses of pkg/mosaic: a ciphertext with its organisation, the fields of the user's keys
-- that the engine reads, and the functions that the engine calls.
pub record Opening (mosaic : Mosaic) : Type 1 where
  pub CipherPoint : Type 0
  pub Key : Type 0
  pub parse_ciphertext : Text → Option (CiphertextData CipherPoint × Option mosaic.Org)
  pub keys_of_attrs : mosaic.UserAttrs → UserKeys Key
  pub policy_vars : Text → List Text
  pub select : Text → UserKeys Key → UserKeys Key
  pub open_ct : CiphertextData CipherPoint → UserKeys Key → mosaic.Point

unfoldable pub or_wrapped : {A : Type 0} → Error → Answer A → Answer A
or_wrapped e (answer a) = answer a
or_wrapped e (raise e') = raise e

module _ (mosaic : Mosaic) (encryption : Encryption mosaic) (opening : Opening mosaic) where
  open opening use {CipherPoint, Key, parse_ciphertext, keys_of_attrs, policy_vars, select, open_ct}

  -- What is read of the asset: the ciphertext, under the policy that is normalised, and its group.
  pub record Read : Type 0 where
    pub ct : CiphertextData CipherPoint
    pub org_json : Text

  abbrev panicked : Error
  panicked = other (codes "panic")

  -- The policy of the ciphertext, or that of the asset where it is empty.
  unfoldable pub policy_of_asset : Text → Text → Answer Text
  unfolding normalize_policy_syntax
  policy_of_asset ct_policy chain_policy = do
    own ← present panicked (normalize_policy_syntax ct_policy)
    policy ←
        if is_empty own then present panicked (normalize_policy_syntax chain_policy) else answer own
    check (other (codes "密文缺少策略信息")) (not (is_empty policy))
    answer policy

  unfoldable pub read_asset : CiphertextAsset → Answer Read
  unfolding policy_of_asset serialize_org trim_space
  read_asset asset = do
    check (other (codes "empty ciphertext")) (not (is_empty (trim_space asset.ciphertext)))
    parsed ← present panicked (parse_ciphertext asset.ciphertext)
    policy ← policy_of_asset parsed.0.policy asset.policy
    let org_json = serialize_org mosaic parsed.1
    check (other (codes "ciphertext missing ABE group parameters")) (not (is_empty org_json))
    answer (record { ct = record { policy = policy; c = parsed.0.c }; org_json = org_json })

  unfoldable pub or_not_found : Reply (List ℕ) → Answer (List ℕ)
  or_not_found (ok content) = answer content
  or_not_found (failed t) = raise (sentinel not_found)

  -- The content of the file by the secret that the ciphertext holds.
  unfoldable pub open_content : Gcm → Reply (List ℕ) → mosaic.Point → Answer (List ℕ)
  unfolding or_not_found or_wrapped sym_key_from_secret aes_decrypt
  open_content gcm file point = do
    content ← or_not_found file
    key ←
        or_wrapped (wrap unauthorized (codes "derive content key"))
          (sym_key_from_secret mosaic encryption (some point))
    or_wrapped (other (codes "content")) (aes_decrypt gcm key content)

  unfoldable pub of_decrypted : Gcm → Reply (List ℕ) → Decrypted mosaic.Point → Answer (List ℕ)
  unfolding open_content
  of_decrypted gcm file (secret point) = open_content gcm file point
  of_decrypted gcm file (not_decrypted e) = raise (other (codes "ABE 解密失败"))

  module _ (expansion : Text → List Text) (keys : KeyPem) (net : Network) (cfg : Config)
      (ports : Ports) (table : KeyTable) where
    open table use {State}

    -- The keys of the user for the policy open the ciphertext.
    unfoldable pub open_by_keys :
        Gcm
        → Reply (List ℕ)
        → CiphertextData CipherPoint
        → Account
        → State
        → Option (Answer (List ℕ))
    unfolding of_decrypted engine_decrypt merge_user_keys_for_policy
    open_by_keys gcm file ct user s =
        elim (merge_user_keys_for_policy mosaic table cfg user.id user.username ct.policy
          (some user) s) [
            | none ↦ none
            | some merged ↦
                elim (engine_decrypt policy_vars select open_ct (some ct)
                  (some (keys_of_attrs merged))) [
                    | none ↦ none
                    | some decrypted ↦ some (of_decrypted gcm file decrypted)
                  ]
          ]

    result_of : Text → List AutoKeyResult → Answer (List ℕ) → Answer DecryptResult
    result_of policy issued (raise e) = raise e
    result_of policy issued (answer content) =
        answer (record { content = content; policy = policy; issued_keys = issued })

    -- Behind `EnsureKeysForPolicy`: the table of keys stays as that left it.
    unfoldable pub with_keys :
        Gcm
        → Reply (List ℕ)
        → CiphertextData CipherPoint
        → Account
        → Ensured State
        → Option (State × Answer DecryptResult)
    unfolding open_by_keys result_of
    with_keys gcm file ct user ensured = elim ensured.error [
      | some e ↦ some (ensured.state, raise (wrap unauthorized (codes "ensure policy keys")))
      | none ↦ elim (open_by_keys gcm file ct user ensured.state) [
        | none ↦ none
        | some r ↦ some (ensured.state, result_of ct.policy ensured.issued r)
      ]
    ]

    -- The table of keys and the engine, which a request changes.
    unfoldable pub decrypt_read :
        Gcm
        → Reply (List ℕ)
        → Account
        → Read
        → Engine mosaic
        → State
        → Option (Engine mosaic × State × Answer DecryptResult)
    unfolding with_keys ensure_keys_for_policy load_org_from_json
    decrypt_read gcm file user r e s =
        let loaded = load_org_from_json mosaic r.org_json e in
        elim (ensure_keys_for_policy expansion policy_vars mosaic keys net cfg ports table user
          r.ct.policy s) [
            | none ↦ none
            | some ensured ↦ elim (with_keys gcm file r.ct user ensured) [
              | none ↦ none
              | some (s', result) ↦ some (loaded, s', result)
            ]
          ]

    module _ (stub : Stub) (params_json : Json GlobalParams) (asset_json : Json CiphertextAsset)
        (ids_json : Json (List Text)) (store : FileStore) where
      open store use {Files, read_file}

      -- `Decrypt` behind `GetUser`.
      unfoldable pub decrypt_file :
          Bool
          → Gcm
          → Account
          → Text
          → stub.State
          → Files
          → Engine mosaic
          → State
          → Option (Engine mosaic × State × Answer DecryptResult)
      unfolding decrypt_read read_asset get_asset file_name
      decrypt_file connected gcm user asset_id ledger files e s =
          elim (get_asset stub params_json asset_json ids_json store connected asset_id ledger
            >>= read_asset) [
              | raise err ↦ some (e, s, raise err)
              | answer r ↦
                  decrypt_read gcm (read_file (file_name store.data_dir asset_id) files) user r e s
            ]
