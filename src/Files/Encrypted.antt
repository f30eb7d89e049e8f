-- ===== src/Files/Encrypted.antt =====
-- user_client/service/file_service.go: the file that `Encrypt` writes.
use bc_abe.Common.{ℕ, Bool, ◌≡◌, subst, List, [], ◌∷◌, ◌++◌, Option}
use bc_abe.Text.{Text, codes}
use bc_abe.Chaincode.Stub.{ok, Stub, Json}
use bc_abe.Chaincode.Contract.{GlobalParams, CiphertextAsset}
use bc_abe.Apperr.Answer.{answer}
use bc_abe.Authority.Engine.{Mosaic}
use bc_abe.Authority.Encrypting.{Encryption}
use bc_abe.Files.Content.{Gcm, aes_encrypt, safe_filename}
use bc_abe.Files.Path.{clean, join}
use bc_abe.Files.Assets.{FileStore}
use bc_abe.Files.PathLaws.{SlashFree}
use bc_abe.Files.Inside.{file_name-safe_filename}
use bc_abe.Files.Upload.{EncryptResult, Chance, Client, encrypt_file}
use bc_abe.Files.Updated.{KeyOf, put_encrypted-Sent}

module _ (mosaic : Mosaic) (encryption : Encryption mosaic)
    (json_of_ciphertext : encryption.Ciphertext → Text) (encryptable valid : Text → Bool)
    (gcm : Gcm) (stub : Stub) (params_json : Json GlobalParams) (asset_json : Json CiphertextAsset)
    (ids_json : Json (List Text)) (store : FileStore) where
  open store use {data_dir, write_file}

  abbrev At : Type 0
  At =
      Client mosaic encryption json_of_ciphertext encryptable valid gcm stub params_json asset_json
        ids_json store

  -- Where `Encrypt` succeeds, with a time without a slash: whatever the name of the file that the user
  -- gave, slashes and dots in it included, one file has been written, which lies in the directory
  -- `files` of the data itself, under the identifier with `.bin`. It is the content encrypted by the
  -- key of the secret that was drawn.
  pub encrypt_file_lem :
      (client_json : CiphertextAsset → Text) (connected : Bool) (chance : Chance mosaic)
      (stamp : Text) (org : Option Text) (user_id : ℕ) (filename : Text) (content : List ℕ)
      (policy : Text) (c c' : At) (r : EncryptResult)
      → SlashFree stamp
      → encrypt_file mosaic encryption json_of_ciphertext encryptable valid gcm stub params_json
          asset_json ids_json store client_json connected chance stamp org user_id filename content
          policy c
        ≡ (c', answer r)
      → (key : Text) × (write_file
            (clean (join data_dir (codes "files"))
              ++ b'/' ∷ ((stamp ++ b'-' ∷ safe_filename filename) ++ codes ".bin"))
            (aes_encrypt gcm key chance.nonce content)
            c.files
          ≡ ok c'.files)
        × KeyOf mosaic encryption json_of_ciphertext encryptable valid gcm stub params_json
            asset_json ids_json store chance c'.engine key
  unfolding encrypt_file
  encrypt_file_lem client_json connected chance stamp org user_id filename content policy c c' r
        plain h =
      let (key, (_, _, _, _, _, written), drawn) =
        put_encrypted-Sent mosaic encryption json_of_ciphertext encryptable valid gcm stub
          params_json asset_json ids_json store client_json connected chance org user_id
          (stamp ++ b'-' ∷ safe_filename filename) content policy [] c c' r h in
      (
        key,
        subst
            (λ path.
              write_file path (aes_encrypt gcm key chance.nonce content) c.files ≡ ok c'.files)
            (file_name-safe_filename data_dir stamp filename plain) written,
        drawn,
      )
