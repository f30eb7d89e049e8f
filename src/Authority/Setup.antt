-- ===== src/Authority/Setup.antt =====
-- auth_admin/main.go: `initOrg` and `syncGlobalParamsToChain`. The row of the organisation, the
-- certificates on the disk and the contract are parameters.
use bc_abe.Common.{◌≡◌, Bool, ◌&&◌, not, List, [], if◌then◌else◌, is_empty, Option, none, some}
use bc_abe.Text.{Text, codes}
use bc_abe.Chaincode.Stub.{Reply, ok, failed, Stub, Json, Identity}
use bc_abe.Chaincode.Contract.{
  Outcome, done, error, GlobalParams, CiphertextAsset, get_global_params, put_global_params,
}
use bc_abe.Policy.Missing.{set_entry}
use bc_abe.Apperr.Answer.{Answer, answer, raise}
use bc_abe.Apperr.{other}
use bc_abe.Keys.Account.{Config, auth_name_for_org}
use bc_abe.Keys.Accounts.{MspIds, msp_id_for_org}
use bc_abe.Authority.Engine.{
  Mosaic, Engine, init_org, init_authority, org_json, auth_pub_json, auth_prv_json, curve_json,
  load_org_from_json, load_auth_from_json,
}

-- `db.Organization`
pub record OrgRow : Type 0 where
  pub name : Text
  pub msp_id : Text
  pub auth_name : Text
  pub org_json : Text
  pub auth_pub_json : Text
  pub auth_prv_json : Text
  pub curve_json : Text
  pub admin_cert_pem : Text
  pub admin_key_pem : Text
  pub ca_cert_pem : Text

-- The table of organisations. `assign_or_create` is `Assign(record).FirstOrCreate(&record)` behind the
-- query by the name: the row as it is then, and the table.
pub record OrgTable : Type 1 where
  pub State : Type 0
  pub first_by_name : Text → State → Option OrgRow
  pub save : OrgRow → State → Reply State
  pub assign_or_create : OrgRow → State → Reply (OrgRow × State)

-- A row is found by its name, and is there once it has been saved.
pub record OrgTableLaws (table : OrgTable) : Type 0 where
  pub found_name :
      (n : Text) (s : table.State) (row : OrgRow)
      → table.first_by_name n s ≡ some row
      → row.name ≡ n
  pub first_by_name-save :
      (row : OrgRow) (s s' : table.State)
      → table.save row s ≡ ok s'
      → table.first_by_name row.name s' ≡ some row

pub record InitOrgResp : Type 0 where
  pub org_name : Text
  pub auth_name : Text
  pub org_json : Text
  pub auth_pub_json : Text
  pub curve_json : Text

module _ (stub : Stub) (params_json : Json GlobalParams) (asset_json : Json CiphertextAsset)
    (ids_json : Json (List Text)) where
  -- `pubKeys` as the contract gives it, empty where it gives none.
  keys_of_params : Outcome GlobalParams → List (Text × Text)
  keys_of_params (done p) = p.org_pub_keys
  keys_of_params (error e) = []

  -- The transaction that only reads; `evaluated`: the network evaluates it. Where it does not, the map
  -- stays empty.
  unfoldable pub read_pub_keys : Bool → stub.State → List (Text × Text)
  unfolding keys_of_params get_global_params
  read_pub_keys evaluated s =
      if evaluated
      then keys_of_params (get_global_params stub params_json asset_json ids_json s)
      else []

  unfoldable pub params_of : Text → Text → OrgRow → List (Text × Text) → GlobalParams
  unfolding set_entry
  params_of auth_name now org pub_keys = record {
    id = codes "GLOBAL_PARAMS";
    version = 0;
    curve = org.curve_json;
    org_pub_keys = set_entry auth_name org.auth_pub_json pub_keys;
    updated_at = now;
  }

  -- The transaction that writes, with the keys that were read; its error is only logged.
  kept_or_written : stub.State → Outcome stub.State → stub.State
  kept_or_written s (done s') = s'
  kept_or_written s (error e) = s

  unfoldable pub submit_params :
      (GlobalParams → Text)
      → Identity
      → Text
      → Text
      → OrgRow
      → List (Text × Text)
      → stub.State
      → stub.State
  unfolding kept_or_written params_of put_global_params
  submit_params client_json identity auth_name now org pub_keys s = kept_or_written s (
      put_global_params stub params_json asset_json ids_json identity
        (client_json (params_of auth_name now org pub_keys)) s)

  -- `connected`: the gateway was made.
  unfoldable pub sync_global_params_to_chain :
      (GlobalParams → Text)
      → Bool
      → Bool
      → Identity
      → Text
      → Text
      → OrgRow
      → stub.State
      → stub.State
  unfolding submit_params read_pub_keys
  sync_global_params_to_chain client_json connected evaluated identity auth_name now org s =
      if connected
      then submit_params client_json identity auth_name now org (read_pub_keys evaluated s) s
      else s

-- What a call reads of its surroundings: the identity of the administrator on the disk, that of the
-- certificate authority, the server's name, and what is drawn.
pub record Surroundings (mosaic : Mosaic) : Type 0 where
  pub org_name : Text
  pub admin_cert : Text
  pub admin_key : Text
  pub ca_cert : Text
  pub org_seed : mosaic.Seed
  pub spare_seed : mosaic.Seed
  pub auth_seed : mosaic.Seed

module _ (mosaic : Mosaic) (cfg : Config) (msp_ids : MspIds) (table : OrgTable) where
  open table use {State, first_by_name, save, assign_or_create}

  unfoldable pub is_initialized : OrgRow → Bool
  is_initialized row =
      not (is_empty row.org_json)
      && not (is_empty row.auth_pub_json)
      && not (is_empty row.auth_prv_json)

  -- The row that is saved where the organisation has its keys.
  unfoldable pub refreshed : Surroundings mosaic → OrgRow → OrgRow
  unfolding auth_name_for_org msp_id_for_org
  refreshed w row = record row {
    auth_name = auth_name_for_org cfg w.org_name;
    msp_id = msp_id_for_org msp_ids w.org_name;
    admin_cert_pem = w.admin_cert;
    admin_key_pem = w.admin_key;
    ca_cert_pem = w.ca_cert;
  }

  -- The row that is made of the keys of the engine.
  unfoldable pub new_row : Surroundings mosaic → Engine mosaic → OrgRow
  unfolding auth_name_for_org msp_id_for_org org_json auth_pub_json auth_prv_json curve_json
  new_row w e = record {
    name = w.org_name;
    msp_id = msp_id_for_org msp_ids w.org_name;
    auth_name = auth_name_for_org cfg w.org_name;
    org_json = org_json mosaic e;
    auth_pub_json = auth_pub_json mosaic e;
    auth_prv_json = auth_prv_json mosaic e;
    curve_json = curve_json mosaic e;
    admin_cert_pem = w.admin_cert;
    admin_key_pem = w.admin_key;
    ca_cert_pem = w.ca_cert;
  }

  unfoldable pub response_of : Surroundings mosaic → OrgRow → InitOrgResp
  unfolding auth_name_for_org
  response_of w row = record {
    org_name = w.org_name;
    auth_name = auth_name_for_org cfg w.org_name;
    org_json = row.org_json;
    auth_pub_json = row.auth_pub_json;
    curve_json = row.curve_json;
  }

  -- How `initOrg` ends: the engine, the table, the row that is given to `syncGlobalParamsToChain`, and
  -- what is returned.
  pub record Initialized : Type 0 where
    pub engine : Engine mosaic
    pub rows : State
    pub synced : Option OrgRow
    pub result : Answer InitOrgResp

  unfoldable pub with_saved :
      Surroundings mosaic → OrgRow → Engine mosaic → State → Reply State → Initialized
  unfolding response_of load_org_from_json load_auth_from_json
  with_saved w row e s (failed t) = record {
    engine = e;
    rows = s;
    synced = none;
    result = raise (other t);
  }
  with_saved w row e s (ok s') = record {
    engine =
        load_auth_from_json mosaic row.auth_pub_json row.auth_prv_json
          (load_org_from_json mosaic row.org_json e);
    rows = s';
    synced = some row;
    result = answer (response_of w row);
  }

  unfoldable pub keep_org : Surroundings mosaic → OrgRow → Engine mosaic → State → Initialized
  unfolding with_saved refreshed
  keep_org w row e s = with_saved w (refreshed w row) e s (save (refreshed w row) s)

  -- The error is not read: the record and the table stay as they are.
  assigned : OrgRow → State → Reply (OrgRow × State) → OrgRow × State
  assigned row s (ok r) = r
  assigned row s (failed t) = (row, s)

  unfoldable pub make_org : Surroundings mosaic → Engine mosaic → State → Initialized
  unfolding new_row init_org init_authority response_of assigned
  make_org w e s =
      let e' = init_authority mosaic w.spare_seed w.auth_seed (init_org mosaic w.org_seed e) in
      let (row, s') = assigned (new_row w e') s (assign_or_create (new_row w e') s) in
      record { engine = e'; rows = s'; synced = some row; result = answer (response_of w row) }

  unfoldable pub init_org_row : Surroundings mosaic → Engine mosaic → State → Initialized
  unfolding keep_org make_org is_initialized
  init_org_row w e s = elim (first_by_name w.org_name s) [
    | none ↦ make_org w e s
    | some row ↦ if is_initialized row then keep_org w row e s else make_org w e s
  ]
