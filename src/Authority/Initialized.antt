-- ===== src/Authority/Initialized.antt =====
-- auth_admin/main.go: `initOrg` on an organisation that has its keys.
use bc_abe.Common.{◌≡◌, some}
use bc_abe.Text.{Text}
use bc_abe.Keys.Account.{Config}
use bc_abe.Keys.Accounts.{MspIds}
use bc_abe.Authority.Engine.{Mosaic, Engine}
use bc_abe.Authority.Setup.{
  OrgRow, OrgTable, OrgTableLaws, InitOrgResp, Surroundings, Initialized, init_org_row,
}

-- The keys of the organisation are the same.
abbrev pub SameKeys : OrgRow → OrgRow → Type 0
SameKeys row stored =
    (stored.org_json ≡ row.org_json)
    × (stored.auth_pub_json ≡ row.auth_pub_json)
    × (stored.auth_prv_json ≡ row.auth_prv_json)

module _ (mosaic : Mosaic) (cfg : Config) (msp_ids : MspIds) (table : OrgTable)
    (laws : OrgTableLaws table) where
  open table use {State, first_by_name, save}

  abbrev init : Surroundings mosaic → Engine mosaic → State → Initialized mosaic cfg msp_ids table
  init = init_org_row mosaic cfg msp_ids table

  -- What a call leaves: the same keys in the table, in the row that `syncGlobalParamsToChain` is given, in
  -- the answer and in the engine.
  abbrev pub KeysKept :
      Surroundings mosaic → OrgRow → Initialized mosaic cfg msp_ids table → InitOrgResp → Type 0
  KeysKept w row r resp =
      ((stored : OrgRow) × (first_by_name w.org_name r.rows ≡ some stored)
        × (r.synced ≡ some stored)
        × SameKeys row stored)
      × (resp.org_json ≡ row.org_json)
      × (resp.auth_pub_json ≡ row.auth_pub_json)
      × (r.engine.org ≡ mosaic.org_of_json row.org_json)
      × (r.engine.auth_keys
          ≡ some (record {
            auth_pub = mosaic.auth_pub_of_json row.auth_pub_json;
            auth_prv = mosaic.auth_prv_of_json row.auth_prv_json;
          }))
