-- ===== src/Tests/Encrypted.antt =====
-- The theorem on `Encrypt` of user_client/service/file_service.go, at the name of a file with slashes and
-- dots.
use bc_abe.Common.{true, ◌≡◌, refl, [], ◌∷◌, ◌++◌, some}
use bc_abe.Text.{Text, codes, trim_space}
use bc_abe.Chaincode.Stub.{ok}
use bc_abe.Chaincode.Contract.{CiphertextAsset}
use bc_abe.Chaincode.Samples.{list_stub, find, without}
use bc_abe.Chaincode.Codec.{asset_codec, write_asset, read_asset, reply_of}
use bc_abe.Apperr.Answer.{answer}
use bc_abe.Authority.Engine.{new_engine}
use bc_abe.Files.Path.{clean, join}
use bc_abe.Files.Content.{aes_encrypt, safe_filename}
use bc_abe.Files.Upload.{EncryptResult, Client, encrypt_file}
use bc_abe.Files.Updated.{KeyOf}
use bc_abe.Files.Encrypted.{encrypt_file_lem}
use bc_abe.Tests.Authority.{text_mosaic}
use bc_abe.Tests.Engine.{text_encryption}
use bc_abe.Tests.Files.{
  plain_gcm, list_files, one_params, no_ids, accepts, same_text, chance, before, with_params, asset,
}

abbrev filename : Text
filename = codes "../x"

abbrev new_asset : CiphertextAsset
new_asset = record asset {
  id = codes "7-.._x";
  ciphertext = codes "Vit@auth0";
  owner = codes "2";
  created_at = codes "2025";
  updated_at = codes "2025";
}

abbrev At : Type 0
At =
    Client text_mosaic text_encryption same_text accepts accepts plain_gcm list_stub one_params
      asset_codec no_ids list_files

abbrev behind_encrypt : At
behind_encrypt = record {
  ledger = (codes "CT::7-.._x", write_asset new_asset) ∷ with_params;
  files = (codes "data/files/7-.._x.bin", 8 ∷ 9 ∷ codes "secret" ++ 8 ∷ 9 ∷ codes "text") ∷ [];
  engine = record (new_engine text_mosaic (codes "seed")) {
    org = some (codes "g");
    curve = some (codes "g");
  };
}

abbrev result : EncryptResult
result = record { asset_id = codes "7-.._x"; policy = codes "Vit@auth0" }

encrypted :
    encrypt_file text_mosaic text_encryption same_text accepts accepts plain_gcm list_stub
      one_params asset_codec no_ids list_files write_asset true chance
      (codes "7")
      (some (codes "org"))
      2
      filename
      (codes "text")
      (codes "Vit@auth0")
      before
    ≡ (behind_encrypt, answer result)
unfolding encrypt_file write_asset read_asset reply_of find without trim_space
encrypted = refl

encrypt_file_example :
    (key : Text) × (list_files.write_file
        (clean (join (codes "data/") (codes "files"))
          ++ b'/' ∷ ((codes "7" ++ b'-' ∷ safe_filename filename) ++ codes ".bin"))
        (aes_encrypt plain_gcm key (8 ∷ 9 ∷ []) (codes "text"))
        before.files
      ≡ ok behind_encrypt.files)
    × KeyOf text_mosaic text_encryption same_text accepts accepts plain_gcm list_stub one_params
        asset_codec no_ids list_files chance behind_encrypt.engine key
encrypt_file_example =
    encrypt_file_lem text_mosaic text_encryption same_text accepts accepts plain_gcm list_stub
      one_params asset_codec no_ids list_files write_asset true chance (codes "7")
      (some (codes "org")) 2 filename (codes "text") (codes "Vit@auth0") before behind_encrypt
      result (refl, tt) encrypted
