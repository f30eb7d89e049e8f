-- ===== src/Tests/Download.antt =====
-- The theorems on `Decrypt` of user_client/service/file_service.go: bob reads what user 2 stored, with a
-- key that is asked for on the way.
use bc_abe.Common.{ℕ, true, none, ◌≡◌, refl, List, [], ◌∷◌, some}
use bc_abe.Text.{codes, trim_space}
use bc_abe.Chaincode.Contract.{done, CiphertextAsset, get_ciphertext}
use bc_abe.Chaincode.Samples.{list_stub, find, without}
use bc_abe.Chaincode.Codec.{asset_codec, write_asset, read_asset as decode_asset, reply_of}
use bc_abe.Apperr.Answer.{answer}
use bc_abe.Policy.Scan.{pos}
use bc_abe.Authority.Engine.{Engine, new_engine, new_secret, made, load_org_from_json}
use bc_abe.Keys.Account.{sample_config}
use bc_abe.Keys.Samples.{list_table, list_table-laws, greatest, of_one_user}
use bc_abe.Authority.Decrypt.{engine_decrypt}
use bc_abe.Keys.Table.{UserAbeKey}
use bc_abe.Keys.Merge.{merge_user_keys_for_policy}
use bc_abe.Keys.Ensure.{Ensured, ensure_keys_for_policy}
use bc_abe.Files.Assets.{file_name}
use bc_abe.Files.Download.{DecryptResult, Opening, Read, read_asset, decrypt_file}
use bc_abe.Files.Downloaded.{OpenedFrom, decrypt_file_lem}
use bc_abe.Files.Returned.{Entitled, decrypt_file-update_file}
use bc_abe.Tests.Authority.{text_mosaic}
use bc_abe.Tests.Engine.{text_encryption}
use bc_abe.Tests.KeyTable.{text_keys, text_network, bob, ports, vars_of, vit_row}
use bc_abe.Tests.Files.{
  plain_gcm, plain_gcm-laws, behind, list_files, list_files-laws, file_at, taken, one_params,
  no_ids, accepts, same_text, chance, before, after, result, updated,
}

-- A ciphertext is the text of its policy, and holds the secret `secret`.
abbrev text_opening : Opening text_mosaic
text_opening = record {
  CipherPoint = ℕ;
  Key = ℕ;
  parse_ciphertext =
      λ t. some (record { policy = t; c = (t, (1 ∷ 2 ∷ 3 ∷ 4 ∷ []) ∷ []) ∷ [] }, some (codes "g"));
  keys_of_attrs = λ attrs. record {
    user = attrs.0;
    coeff = (attrs.1, pos 1 ∷ []) ∷ [];
    userkey = (attrs.1, 5) ∷ [];
  };
  policy_vars = vars_of;
  select = λ policy attrs. attrs;
  open_ct = λ ct attrs. codes "secret";
}

abbrev loaded : Engine text_mosaic
loaded = record (new_engine text_mosaic (codes "seed")) {
  org = some (codes "g");
  curve = some (codes "g");
}

abbrev downloaded : DecryptResult
downloaded = record {
  content = codes "text";
  policy = codes "Vit@auth0";
  issued_keys = record { attribute = codes "Vit@auth0"; version = 1; keys = 1 } ∷ [];
}

bob_reads :
    decrypt_file text_mosaic text_encryption text_opening vars_of text_keys text_network
      sample_config ports list_table list_stub one_params asset_codec no_ids list_files true
      plain_gcm bob
      (codes "1-demo.txt")
      after.ledger
      after.files
      (new_engine text_mosaic (codes "seed"))
      []
    ≡ some (loaded, vit_row ∷ [], answer downloaded)
unfolding decrypt_file write_asset decode_asset reply_of find without trim_space greatest
    of_one_user file_at behind
bob_reads = refl

decrypt_file_example :
    (asset : CiphertextAsset) × (read : Read text_mosaic text_encryption text_opening)
    × (get_ciphertext list_stub one_params asset_codec no_ids (codes "1-demo.txt") after.ledger
        ≡ done asset)
    × (read_asset text_mosaic text_encryption text_opening asset ≡ answer read)
    × OpenedFrom text_mosaic text_encryption text_opening vars_of text_keys text_network
        sample_config ports list_table list_table-laws plain_gcm
        (list_files.read_file (file_name (codes "data/") (codes "1-demo.txt")) after.files)
        read.ct
        bob
        []
        (vit_row ∷ [])
        downloaded
decrypt_file_example =
    decrypt_file_lem text_mosaic text_encryption text_opening vars_of text_keys text_network
      sample_config ports list_table list_table-laws list_stub one_params asset_codec no_ids
      list_files true plain_gcm bob (codes "1-demo.txt") after.ledger after.files
      (new_engine text_mosaic (codes "seed")) loaded [] (vit_row ∷ []) downloaded bob_reads

after-secret : new_secret text_mosaic (codes "secret") after.engine ≡ made (codes "secret")
unfolding new_secret
after-secret = refl

vit_stored :
    get_ciphertext list_stub one_params asset_codec no_ids (codes "1-demo.txt") after.ledger
    ≡ done taken
unfolding get_ciphertext write_asset decode_asset reply_of find
vit_stored = refl

abbrev vit_read : Read text_mosaic text_encryption text_opening
vit_read = record {
  ct = record {
    policy = codes "Vit@auth0";
    c = (codes "Vit@auth0", (1 ∷ 2 ∷ 3 ∷ 4 ∷ []) ∷ []) ∷ [];
  };
  org_json = codes "g";
}

vit_readable : read_asset text_mosaic text_encryption text_opening taken ≡ answer vit_read
unfolding read_asset trim_space
vit_readable = refl

abbrev vit_ensured : Ensured (List UserAbeKey)
vit_ensured = record {
  state = vit_row ∷ [];
  issued = record { attribute = codes "Vit@auth0"; version = 1; keys = 1 } ∷ [];
  error = none;
}

bob-Entitled :
    Entitled text_mosaic text_encryption text_opening vars_of text_keys text_network sample_config
      ports list_table bob vit_read
      (codes "secret")
      []
      vit_ensured
      (codes "bob", codes "Vit@auth0", none)
unfolding ensure_keys_for_policy merge_user_keys_for_policy engine_decrypt trim_space greatest
    of_one_user
bob-Entitled = (refl, refl, refl, refl)

decrypt_file-update_file_example :
    decrypt_file text_mosaic text_encryption text_opening vars_of text_keys text_network
      sample_config ports list_table list_stub one_params asset_codec no_ids list_files true
      plain_gcm bob
      (codes "1-demo.txt")
      after.ledger
      after.files
      (new_engine text_mosaic (codes "seed"))
      []
    ≡ some (
      load_org_from_json text_mosaic (codes "g") (new_engine text_mosaic (codes "seed")),
      vit_row ∷ [],
      answer downloaded,
    )
decrypt_file-update_file_example =
    decrypt_file-update_file text_mosaic text_encryption same_text accepts accepts plain_gcm
      list_stub one_params asset_codec no_ids list_files text_opening vars_of text_keys text_network
      sample_config ports list_table plain_gcm-laws list_files-laws write_asset true chance
      (some (codes "org")) 2 (codes "1-demo.txt") (codes "text") (codes "Vit@auth0") before after
      result (codes "secret") taken vit_read bob (new_engine text_mosaic (codes "seed")) []
      vit_ensured (codes "bob", codes "Vit@auth0", none) refl updated after-secret vit_stored
      vit_readable bob-Entitled
