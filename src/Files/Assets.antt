-- ===== src/Files/Assets.antt =====
-- user_client/service/file_service.go: the assets on the ledger, read, listed and deleted through the
-- gateway. What the contract returns is decoded by the names of its fields, so it is read as the asset
-- itself.
use bc_abe.Common.{ℕ, ◌≡◌, ◌≢◌, Bool, true, false, ◌&&◌, not, List, [], ◌∷◌, ◌++◌}
use bc_abe.Text.{Text, codes, ◌=ᵗ◌, print_nat}
use bc_abe.Chaincode.Stub.{Reply, ok, failed, Stub, Json}
use bc_abe.Chaincode.Contract.{
  Outcome, done, error, GlobalParams, CiphertextAsset, get_ciphertext, get_global_params,
  delete_ciphertext, list_ciphertext_ids,
}
use bc_abe.Apperr.{
  Error, sentinel, other, wrap, gateway_connect, fabric_network, invalid_input, unauthorized,
}
use bc_abe.Files.Path.{join}
use bc_abe.Apperr.Answer.{Answer, answer, raise, or_raise, check, ◌>>=◌, ◌>>◌}

-- `if err != nil { return ..., apperr.Wrap(...) }` on a transaction.
unfoldable pub submitted : {A : Type 0} → Error → Outcome A → Answer A
submitted e (done a) = answer a
submitted e (error err) = raise e

-- The files that are kept beside the ledger, by their paths, and the directory of the configuration.
pub record FileStore : Type 1 where
  pub data_dir : Text
  pub Files : Type 0
  pub write_file : Text → List ℕ → Files → Reply Files
  pub read_file : Text → Files → Reply (List ℕ)
  pub remove_file : Text → Files → Reply Files

-- A file that is written is read, until it is removed; and the removal of a file leaves the others as
-- they are.
pub record FileLaws (store : FileStore) : Type 0 where
  pub read_file-write_file :
      (path : Text) (content : List ℕ) (files files' : store.Files)
      → store.write_file path content files ≡ ok files'
      → store.read_file path files' ≡ ok content
  pub read_file-remove_file :
      (path : Text) (content : List ℕ) (files files' : store.Files)
      → store.remove_file path files ≡ ok files'
      → store.read_file path files' ≢ ok content
  pub read_other-remove_file :
      (path other_path : Text) (files files' : store.Files)
      → store.remove_file path files ≡ ok files'
      → other_path ≢ path
      → store.read_file other_path files' ≡ store.read_file other_path files

pub record AssetSummary : Type 0 where
  pub asset_id : Text
  pub owner : Text
  pub policy : Text
  pub version : ℕ
  pub created_at : Text
  pub updated_at : Text

-- `filepath.Join(filepath.Join(s.cfg.DataDir, "files"), assetID+".bin")`: since the elements are cleaned,
-- this is the join of the three at once, by which the file is read and removed.
unfoldable pub file_name : Text → Text → Text
unfolding join
file_name data_dir asset_id = join (join data_dir (codes "files")) (asset_id ++ codes ".bin")

-- `_ = os.Remove(...)`
unfoldable pub or_kept : {A : Type 0} → A → Reply A → A
or_kept a (ok b) = b
or_kept a (failed t) = a

module _ (stub : Stub) (params_json : Json GlobalParams) (asset_json : Json CiphertextAsset)
    (ids_json : Json (List Text)) (store : FileStore) where
  open stub use {State}
  open store use {data_dir, Files, remove_file}

  -- `connected` is `gateway.Get() != nil`.
  unfoldable pub get_asset : Bool → Text → State → Answer CiphertextAsset
  unfolding submitted get_ciphertext
  get_asset connected asset_id s = do
    check (sentinel gateway_connect) connected
    submitted (wrap fabric_network (codes "get ciphertext"))
        (get_ciphertext stub params_json asset_json ids_json asset_id s)

  unfoldable pub some_keys : List (Text × Text) → Answer (List (Text × Text))
  some_keys [] = raise (other (codes "global params contains no authority public keys"))
  some_keys (entry ∷ pub_keys) = answer (entry ∷ pub_keys)

  unfoldable pub fetch_org_pub_keys : State → Answer (List (Text × Text))
  unfolding submitted get_global_params some_keys
  fetch_org_pub_keys s = do
    params ←
        submitted (wrap fabric_network (codes "get global params"))
          (get_global_params stub params_json asset_json ids_json s)
    some_keys params.org_pub_keys

  summary_of : Text → CiphertextAsset → AssetSummary
  summary_of id asset = record {
    asset_id = id;
    owner = asset.owner;
    policy = asset.policy;
    version = asset.version;
    created_at = asset.created_at;
    updated_at = asset.updated_at;
  }

  -- The loop of `List`, which passes over an asset that cannot be read.
  unfoldable pub summaries : Bool → Text → List Text → State → List AssetSummary
  unfolding get_asset summary_of
  summaries owned_only owner [] s = []
  summaries owned_only owner (id ∷ ids) s = elim (get_asset true id s) [
    | raise e ↦ summaries owned_only owner ids s
    | answer asset ↦ elim (owned_only && not (asset.owner =ᵗ owner)) [
      | true ↦ summaries owned_only owner ids s
      | false ↦ summary_of id asset ∷ summaries owned_only owner ids s
    ]
  ]

  unfoldable pub list_assets : Bool → ℕ → Bool → State → Answer (List AssetSummary)
  unfolding submitted list_ciphertext_ids summaries print_nat
  list_assets connected user_id owned_only s = do
    check (sentinel gateway_connect) connected
    raw ←
        submitted (wrap fabric_network (codes "list ciphertext ids"))
          (list_ciphertext_ids stub params_json asset_json ids_json s)
    ids ←
        or_raise (λ t. wrap invalid_input (codes "decode ciphertext ids")) (ids_json.unmarshal raw)
    answer (summaries owned_only (print_nat user_id) ids s)

  unfoldable pub delete_asset : Bool → ℕ → Text → State × Files → Answer (State × Files)
  unfolding get_asset submitted delete_ciphertext print_nat file_name or_kept
  delete_asset connected user_id asset_id (s, files) = do
    asset ← get_asset connected asset_id s
    check (sentinel unauthorized) (asset.owner =ᵗ print_nat user_id)
    check (sentinel gateway_connect) connected
    s' ←
        submitted (wrap fabric_network (codes "delete ciphertext"))
          (delete_ciphertext stub params_json asset_json ids_json asset_id s)
    answer (s', or_kept files (remove_file (file_name data_dir asset_id) files))
