-- ===== src/Tests/Setup.antt =====
-- The theorems on `initOrg` and `syncGlobalParamsToChain` of auth_admin/main.go, at two servers and one
-- ledger in memory.
use bc_abe.Common.{
  Bool, subst, true, false, ◌≡◌, ◌≢◌, refl, List, [], ◌∷◌, Option, none, some, if◌then◌else◌,
}
use bc_abe.Text.{Text, codes, ◌=ᵗ◌}
use bc_abe.Text.Equality.{=ᵗ_self}
use bc_abe.Chaincode.Stub.{ok, Json}
use bc_abe.Chaincode.Contract.{
  CiphertextAsset, GlobalParams, Outcome, key_global_params, put_global_params, done,
}
use bc_abe.Chaincode.Samples.{Entries, list_stub, list_stub-laws, find, without}
use bc_abe.Chaincode.Codec.{failing, reply_of}
use bc_abe.Chaincode.ParamsCodec.{
  params_codec, params_codec-laws, params-decoded, write_params, read_params, write_pairs,
  read_pairs,
}
use bc_abe.Keys.Accounts.{MspIds}
use bc_abe.Authority.Decrypting.{key_of}
use bc_abe.Authority.Setup.{
  OrgRow, OrgTable, InitOrgResp, Surroundings, read_pub_keys, params_of, submit_params,
  sync_global_params_to_chain,
}
use bc_abe.Authority.Sync.{sync_global_params_to_chain_lem, submit_params-submit_params}
use bc_abe.Tests.Authority.{text_mosaic}
use bc_abe.Tests.Contracts.{org_admin}

abbrev no_assets : Json CiphertextAsset
no_assets = failing CiphertextAsset

abbrev no_ids : Json (List Text)
no_ids = failing (List Text)

abbrev first_row : OrgRow
first_row = record {
  name = codes "org1";
  msp_id = codes "Org1MSP";
  auth_name = codes "auth0";
  org_json = codes "o1";
  auth_pub_json = codes "p1";
  auth_prv_json = codes "s1";
  curve_json = codes "c";
  admin_cert_pem = [];
  admin_key_pem = [];
  ca_cert_pem = [];
}

abbrev second_row : OrgRow
second_row = record first_row { name = codes "org2"; auth_pub_json = codes "p2" }

-- The key `p0` of auth0 is on the ledger.
abbrev ledger : Entries
ledger =
    (
      key_global_params,
      write_params (record {
        id = key_global_params;
        version = 1;
        curve = codes "c";
        org_pub_keys = (codes "auth0", codes "p0") ∷ [];
        updated_at = [];
      }),
    )
    ∷ []

abbrev keys_at : Entries → List (Text × Text)
keys_at = read_pub_keys list_stub params_codec no_assets no_ids true

abbrev sync : Bool → OrgRow → Text → Entries → Entries
sync evaluated row auth_name =
    sync_global_params_to_chain list_stub params_codec no_assets no_ids write_params true evaluated
      org_admin auth_name (codes "now") row

abbrev put : GlobalParams → Entries → Outcome Entries
put p s = put_global_params list_stub params_codec no_assets no_ids org_admin (write_params p) s

abbrev sent : Bool → GlobalParams
sent evaluated =
    params_of list_stub params_codec no_assets no_ids (codes "auth1") (codes "now") second_row
      (read_pub_keys list_stub params_codec no_assets no_ids evaluated ledger)

abbrev beside : Entries
beside =
    (
      key_global_params,
      write_params (record {
        id = key_global_params;
        version = 2;
        curve = codes "c";
        org_pub_keys = (codes "auth0", codes "p0") ∷ (codes "auth1", codes "p2") ∷ [];
        updated_at = codes "now";
      }),
    )
    ∷ []

written_beside : put (sent true) ledger ≡ done beside
unfolding put_global_params params_of read_pub_keys write_params read_params write_pairs read_pairs
    reply_of find without
written_beside = refl

-- org2 puts its key beside that of org1.
sync_global_params_to_chain_example :
    (sync true second_row (codes "auth1") ledger ≡ beside)
    × (key_of (codes "auth1") (keys_at beside) ≡ codes "p2")
    × ((j : Text)
        → j ≢ codes "auth1"
        → (true ≡ true → key_of j (keys_at beside) ≡ key_of j (keys_at ledger))
          × (true ≡ false → key_of j (keys_at beside) ≡ []))
sync_global_params_to_chain_example =
    (sync_global_params_to_chain_lem list_stub params_codec no_assets no_ids list_stub-laws
        params_codec-laws write_params params-decoded true org_admin (codes "auth1") (codes "now")
        second_row ledger).0
      beside written_beside

-- Where the read is not evaluated, the key of org1 is lost.
key_lost : key_of (codes "auth0") (keys_at (sync false second_row (codes "auth1") ledger)) ≡ []
unfolding sync_global_params_to_chain put_global_params read_pub_keys write_params read_params
    write_pairs read_pairs reply_of find without key_of
key_lost = refl

abbrev both_written : Entries
both_written =
    (
      key_global_params,
      write_params (record {
        id = key_global_params;
        version = 3;
        curve = codes "c";
        org_pub_keys = (codes "auth0", codes "p0") ∷ (codes "auth1", codes "p2") ∷ [];
        updated_at = codes "now";
      }),
    )
    ∷ []

-- org1 writes its new key p1, then org2 writes what it read before that.
second_written :
    put_global_params list_stub params_codec no_assets no_ids org_admin
      (write_params (
        params_of list_stub params_codec no_assets no_ids
          (codes "auth1")
          (codes "now")
          second_row
          (keys_at ledger)))
      (submit_params list_stub params_codec no_assets no_ids write_params org_admin
        (codes "auth0")
        (codes "now")
        first_row
        (keys_at ledger)
        ledger)
    ≡ done both_written
unfolding put_global_params params_of submit_params read_pub_keys write_params read_params
    write_pairs read_pairs reply_of find without
second_written = refl

false-ne-true : false ≡ true → ⊥
false-ne-true h = cc

other_names : codes "auth0" ≢ codes "auth1"
other_names h =
    let t : (codes "auth0" =ᵗ codes "auth1") ≡ true =
      subst (λ x. (codes "auth0" =ᵗ x) ≡ true) h (=ᵗ_self (codes "auth0")) in
    false-ne-true t

submit_params-submit_params_example :
    key_of (codes "auth0") (keys_at both_written) ≡ key_of (codes "auth0") (keys_at ledger)
submit_params-submit_params_example =
    submit_params-submit_params list_stub params_codec no_assets no_ids list_stub-laws
      params_codec-laws write_params params-decoded org_admin org_admin (codes "auth0")
      (codes "auth1") (codes "now") (codes "now") first_row second_row ledger both_written
      other_names second_written

-- A table in memory, of which the first row of a name counts.
unfoldable row_of : Text → List OrgRow → Option OrgRow
row_of n [] = none
row_of n (row ∷ rows) = if row.name =ᵗ n then some row else row_of n rows

abbrev org_table : OrgTable
org_table = record {
  State = List OrgRow;
  first_by_name = row_of;
  save = λ row s. ok (row ∷ s);
  assign_or_create = λ row s. ok (row, row ∷ s);
}

abbrev ids : MspIds
ids = record { msp_id_org1 = codes "Org1MSP"; msp_id_org2 = codes "Org2MSP" }

abbrev surroundings : Surroundings text_mosaic
surroundings = record {
  org_name = codes "org1";
  admin_cert = codes "cert";
  admin_key = codes "key";
  ca_cert = codes "ca";
  org_seed = codes "r1";
  spare_seed = codes "r2";
  auth_seed = codes "r3";
}

abbrev response : InitOrgResp
response = record {
  org_name = codes "org1";
  auth_name = codes "auth0";
  org_json = codes "o1";
  auth_pub_json = codes "p1";
  curve_json = codes "c";
}
