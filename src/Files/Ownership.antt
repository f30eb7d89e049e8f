-- ===== src/Files/Ownership.antt =====
-- user_client/service/file_service.go: whose asset `Delete` deletes, and whose asset `Update` leaves.
use bc_abe.Common.{Bool, ◌≡◌, List}
use bc_abe.Text.{Text}
use bc_abe.Chaincode.Stub.{Stub, Json}
use bc_abe.Chaincode.Contract.{Outcome, done, error, GlobalParams, CiphertextAsset, get_ciphertext}
use bc_abe.Apperr.{Error, sentinel, gateway_connect}
use bc_abe.Apperr.Answer.{answer, bind-answer, check}
use bc_abe.Files.Assets.{FileStore, submitted, get_asset}

pub submitted-done :
    {A : Type 0} (e : Error) (x : Outcome A) (a : A) → submitted e x ≡ answer a → x ≡ done a
unfolding submitted
submitted-done e (done b) a h = cc
submitted-done e (error t) a h = cc

module _ (stub : Stub) (params_json : Json GlobalParams) (asset_json : Json CiphertextAsset)
    (ids_json : Json (List Text)) (store : FileStore) where
  open stub use {State}
  open store use {data_dir, Files, read_file, remove_file}

  abbrev get : Text → State → Outcome CiphertextAsset
  get = get_ciphertext stub params_json asset_json ids_json

  pub get_asset-done :
      (connected : Bool) (id : Text) (s : State) (asset : CiphertextAsset)
      → get_asset stub params_json asset_json ids_json store connected id s ≡ answer asset
      → get id s ≡ done asset
  unfolding get_asset
  get_asset-done connected id s asset h =
      let (_, _, r) = bind-answer (check (sentinel gateway_connect) connected) _ asset h in
      submitted-done _ (get id s) asset r
