-- ===== src/Tests/Contracts.antt =====
-- The theorems on chaincode/contract.go on a world state in memory, and those on utils/apperr.
use bc_abe.Common.{arith, true, ◌≡◌, ◌≢◌, refl, List, [], ◌∷◌, some}
use bc_abe.Text.{Text, codes}
use bc_abe.Chaincode.Stub.{ok, text_lt, Identity, is_among, Json}
use bc_abe.Chaincode.Contract.{
  Outcome, done, error, GlobalParams, CiphertextAsset, is_admin, put_global_params,
  get_global_params, put_ciphertext, get_ciphertext, delete_ciphertext, ciphertext_ids, not_found,
  key_global_params,
}
use bc_abe.Chaincode.Laws.{get_ciphertext-put_ciphertext, replaces}
use bc_abe.Chaincode.Frame.{put-frame, delete-frame, put_global_params-frame}
use bc_abe.Chaincode.Listing.{listed_of_stored}
use bc_abe.Chaincode.Samples.{Entries, list_stub, list_stub-laws, find, without, keys_in, in_range}
use bc_abe.Chaincode.Codec.{
  asset_codec, asset_codec-laws, failing, write_asset, read_asset, reply_of,
}
use bc_abe.Apperr.{
  sentinel, wrapped, fabric_network, http_status, public_message, status_of, unwrap_kind, root_kind,
  http_status-public_message, unwrap_kind_lem,
}

abbrev pub incoming : CiphertextAsset
incoming = record {
  id = codes "1-demo.txt";
  version = 7;
  policy = codes "a@auth0";
  ciphertext = codes "ct";
  owner = codes "1";
  created_at = codes "2024";
  updated_at = codes "2024";
}

-- An update that names no time of creation.
abbrev pub update : CiphertextAsset
update = record incoming { created_at = []; updated_at = codes "2025" }

abbrev pub no_params : Json GlobalParams
no_params = failing GlobalParams

abbrev pub no_ids : Json (List Text)
no_ids = failing (List Text)

abbrev pub put : Text → Entries → Outcome Entries
put = put_ciphertext list_stub no_params asset_codec no_ids

abbrev pub get : Text → Entries → Outcome CiphertextAsset
get = get_ciphertext list_stub no_params asset_codec no_ids

abbrev params : Entries → Outcome GlobalParams
params = get_global_params list_stub no_params asset_codec no_ids

abbrev pub key : Text
key = codes "CT::1-demo.txt"

abbrev pub stored_first : Entries
stored_first = (key, write_asset (record incoming { version = 1 })) ∷ []

abbrev pub stored_second : Entries
stored_second = (key, write_asset (record incoming { version = 2; updated_at = codes "2025" })) ∷ []

pub decoded : asset_codec.unmarshal (write_asset update) ≡ ok update
unfolding write_asset read_asset reply_of
decoded = refl

put_first : put (write_asset incoming) [] ≡ done stored_first
unfolding put_ciphertext write_asset read_asset reply_of find without
put_first = refl

pub put_second : put (write_asset update) stored_first ≡ done stored_second
unfolding put_ciphertext write_asset read_asset reply_of find without
put_second = refl

get_ciphertext-put_ciphertext_example :
    (get (codes "1-demo.txt") stored_first ≡ error not_found
      → get (codes "1-demo.txt") stored_second ≡ done (record update { version = 1 }))
    × ((old : CiphertextAsset)
        → get (codes "1-demo.txt") stored_first ≡ done old
        → get (codes "1-demo.txt") stored_second ≡ done (replaces old update))
get_ciphertext-put_ciphertext_example =
    get_ciphertext-put_ciphertext list_stub no_params asset_codec no_ids list_stub-laws
      asset_codec-laws (write_asset update) update stored_first stored_second decoded put_second

put-frame_example :
    ((j : Text) → j ≢ codes "1-demo.txt" → get j stored_second ≡ get j stored_first)
    × (params stored_second ≡ params stored_first)
put-frame_example =
    put-frame list_stub no_params asset_codec no_ids list_stub-laws (write_asset update) update
      stored_first stored_second decoded put_second

deleted :
    delete_ciphertext list_stub no_params asset_codec no_ids (codes "1-demo.txt") stored_first
    ≡ done []
unfolding delete_ciphertext without
deleted = refl

delete-frame_example :
    (get (codes "1-demo.txt") [] ≡ error not_found)
    × ((j : Text) → j ≢ codes "1-demo.txt" → get j [] ≡ get j stored_first)
    × (params [] ≡ params stored_first)
delete-frame_example =
    delete-frame list_stub no_params asset_codec no_ids list_stub-laws (codes "1-demo.txt")
      stored_first [] deleted

got : get (codes "1-demo.txt") stored_first ≡ done (record incoming { version = 1 })
unfolding get_ciphertext write_asset read_asset reply_of find
got = refl

ids_listed :
    ciphertext_ids list_stub no_params asset_codec no_ids stored_first
    ≡ done (codes "1-demo.txt" ∷ [])
unfolding ciphertext_ids keys_in in_range text_lt
ids_listed = refl

id_not_empty : codes "1-demo.txt" ≢ []
id_not_empty h = cc

listed_of_stored_example : is_among (codes "1-demo.txt") (codes "1-demo.txt" ∷ []) ≡ true
listed_of_stored_example =
    listed_of_stored list_stub no_params asset_codec no_ids list_stub-laws (codes "1-demo.txt")
      (record incoming { version = 1 }) stored_first (codes "1-demo.txt" ∷ []) id_not_empty got
      ids_listed (omega arith)

-- Every text stands for one value.
abbrev some_params : Json GlobalParams
some_params = record {
  marshal = λ p. ok (codes "params");
  unmarshal =
      λ t. ok (record { id = []; version = 0; curve = []; org_pub_keys = []; updated_at = [] });
}

abbrev pub org_admin : Identity
org_admin = record {
  certificate = ok (record {
    common_name = codes "Admin@org1.example.com";
    organizational_units = codes "client" ∷ [];
  });
  msp_id = ok (codes "Org1MSP");
}

abbrev with_params : Entries
with_params = (key_global_params, codes "params") ∷ stored_first

params_put :
    put_global_params list_stub some_params asset_codec no_ids org_admin (codes "{}") stored_first
    ≡ done with_params
unfolding put_global_params find without
params_put = refl

put_global_params-frame_example :
    (is_admin org_admin ≡ done true)
    × ((j : Text)
        → get_ciphertext list_stub some_params asset_codec no_ids j with_params
          ≡ get_ciphertext list_stub some_params asset_codec no_ids j stored_first)
put_global_params-frame_example =
    put_global_params-frame list_stub some_params asset_codec no_ids list_stub-laws org_admin
      (codes "{}") stored_first with_params params_put

http_status-public_message_example :
    http_status (some (wrapped (sentinel fabric_network) (codes "put ciphertext")))
    ≡ status_of (public_message (some (wrapped (sentinel fabric_network) (codes "put ciphertext"))))
http_status-public_message_example =
    http_status-public_message (some (wrapped (sentinel fabric_network) (codes "put ciphertext")))

unwrap_kind_example :
    unwrap_kind (wrapped (sentinel fabric_network) (codes "put ciphertext"))
    ≡ root_kind (wrapped (sentinel fabric_network) (codes "put ciphertext"))
unwrap_kind_example = unwrap_kind_lem (wrapped (sentinel fabric_network) (codes "put ciphertext"))
