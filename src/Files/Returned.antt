-- ===== src/Files/Returned.antt =====
-- user_client/service/file_service.go: `Decrypt` returns what `Update` stored.
use bc_abe.Common.{ℕ, Bool, true, ◌≡◌, sym, ap, ◌∙◌, subst, List, Option, none, some, length}
use bc_abe.Text.{Text}
use bc_abe.Chaincode.Stub.{Reply, ok, Stub, Json}
use bc_abe.Chaincode.Contract.{done, GlobalParams, CiphertextAsset, get_ciphertext}
use bc_abe.Apperr.Answer.{answer}
use bc_abe.Authority.Engine.{Mosaic, Engine, made, load_org_from_json, new_secret}
use bc_abe.Authority.Encrypting.{Encryption, sym_key_from_secret}
use bc_abe.Authority.Decrypt.{secret, engine_decrypt}
use bc_abe.Msp.PrivateKey.{KeyPem}
use bc_abe.Keys.Account.{Config}
use bc_abe.Keys.Accounts.{Account}
use bc_abe.Keys.Table.{KeyTable}
use bc_abe.Keys.Issuing.{Network, Ports}
use bc_abe.Keys.Merge.{merge_user_keys_for_policy}
use bc_abe.Keys.Ensure.{Ensured, ensure_keys_for_policy}
use bc_abe.Files.Content.{Gcm, GcmLaws, aes_encrypt, aes_decrypt-aes_encrypt}
use bc_abe.Files.Assets.{FileLaws, FileStore, file_name, submitted, get_asset}
use bc_abe.Files.Upload.{EncryptResult, Chance, Client, update_file}
use bc_abe.Files.Updated.{update_file-File}
use bc_abe.Files.Download.{
  Opening, Read, read_asset, open_content, or_not_found, or_wrapped, of_decrypted, open_by_keys,
  with_keys, decrypt_read, decrypt_file,
}

made-injective : {A : Type 0} (a b : A) → made a ≡ made b → a ≡ b
made-injective a b h = cc

module _ (mosaic : Mosaic) (encryption : Encryption mosaic) (opening : Opening mosaic) where
  open opening use {keys_of_attrs, policy_vars, select, open_ct}

  -- The key that the content was encrypted by opens it.
  open_content-sealed :
      (gcm : Gcm) (laws : GcmLaws gcm) (point : mosaic.Point) (key : Text) (nonce content : List ℕ)
      → length nonce ≡ gcm.nonce_size
      → sym_key_from_secret mosaic encryption (some point) ≡ answer key
      → open_content mosaic encryption opening gcm (ok (aes_encrypt gcm key nonce content)) point
        ≡ answer content
  unfolding open_content or_not_found or_wrapped
  open_content-sealed gcm laws point key nonce content size derived =
      rw (derived, aes_decrypt-aes_encrypt gcm laws key nonce content size)

  module _ (expansion : Text → List Text) (keys : KeyPem) (net : Network) (cfg : Config)
      (ports : Ports) (table : KeyTable) where
    -- What `EnsureKeysForPolicy` has to leave for the policy of the asset: no error, and keys that
    -- decrypt the ciphertext to a secret.
    abbrev pub Entitled :
        Account
        → Read mosaic encryption opening
        → mosaic.Point
        → table.State
        → Ensured table.State
        → mosaic.UserAttrs
        → Type 0
    Entitled user read point s ensured merged =
        (ensure_keys_for_policy expansion policy_vars mosaic keys net cfg ports table user
            read.ct.policy s
          ≡ some ensured)
        × (ensured.error ≡ none)
        × (merge_user_keys_for_policy mosaic table cfg user.id user.username read.ct.policy
              (some user) ensured.state
            ≡ some merged)
        × (engine_decrypt policy_vars select open_ct (some read.ct) (some (keys_of_attrs merged))
            ≡ some (secret point))

    decrypt_read-Entitled :
        (gcm : Gcm) (file : Reply (List ℕ)) (user : Account) (read : Read mosaic encryption opening)
        (point : mosaic.Point) (e : Engine mosaic) (s : table.State) (ensured : Ensured table.State)
        (merged : mosaic.UserAttrs) (content : List ℕ)
        → Entitled user read point s ensured merged
        → open_content mosaic encryption opening gcm file point ≡ answer content
        → decrypt_read mosaic encryption opening expansion keys net cfg ports table gcm file user
            read e s
          ≡ some (
            load_org_from_json mosaic read.org_json e,
            ensured.state,
            answer (record {
              content = content;
              policy = read.ct.policy;
              issued_keys = ensured.issued;
            }),
          )
    unfolding decrypt_read with_keys open_by_keys of_decrypted
    decrypt_read-Entitled gcm file user read point e s ensured merged content (en, fine, me, de) o =
        rw (decrypt_read, en, with_keys, fine, open_by_keys, me, de, of_decrypted, o)

module _ (mosaic : Mosaic) (encryption : Encryption mosaic)
    (json_of_ciphertext : encryption.Ciphertext → Text) (encryptable valid : Text → Bool)
    (gcm : Gcm) (stub : Stub) (params_json : Json GlobalParams) (asset_json : Json CiphertextAsset)
    (ids_json : Json (List Text)) (store : FileStore) (opening : Opening mosaic)
    (expansion : Text → List Text) (keys : KeyPem) (net : Network) (cfg : Config) (ports : Ports)
    (table : KeyTable) (gcm_laws : GcmLaws gcm) (file_laws : FileLaws store) where
  abbrev At : Type 0
  At =
      Client mosaic encryption json_of_ciphertext encryptable valid gcm stub params_json asset_json
        ids_json store

  decrypt_step :
      (reader : Account) (asset_id : Text) (ledger : stub.State) (files : store.Files)
      (e : Engine mosaic) (s : table.State) (stored : CiphertextAsset)
      (read : Read mosaic encryption opening)
      → get_ciphertext stub params_json asset_json ids_json asset_id ledger ≡ done stored
      → read_asset mosaic encryption opening stored ≡ answer read
      → decrypt_file mosaic encryption opening expansion keys net cfg ports table stub params_json
          asset_json ids_json store true gcm reader asset_id ledger files e s
        ≡ decrypt_read mosaic encryption opening expansion keys net cfg ports table gcm
            (store.read_file (file_name store.data_dir asset_id) files)
            reader
            read
            e
            s
  unfolding decrypt_file get_asset submitted
  decrypt_step reader asset_id ledger files e s stored read g r =
      rw (decrypt_file, get_asset, submitted, g, r)

  -- Behind an `Update` that succeeds, with a nonce of the size of the cipher: let the asset be on the
  -- ledger and its ciphertext readable, let `EnsureKeysForPolicy` give the reader the keys of its
  -- policy without an error, and let the engine decrypt the ciphertext by them to the secret that
  -- `Update` drew. Then `Decrypt` succeeds, and returns the content that was stored, the policy of the
  -- ciphertext and the keys that were issued on the way.
  pub decrypt_file-update_file :
      (client_json : CiphertextAsset → Text) (connected : Bool) (chance : Chance mosaic)
      (org : Option Text) (user_id : ℕ) (asset_id : Text) (content : List ℕ) (policy : Text)
      (c c' : At) (r : EncryptResult) (drawn : mosaic.Point) (stored : CiphertextAsset)
      (read : Read mosaic encryption opening) (reader : Account) (e : Engine mosaic)
      (s : table.State) (ensured : Ensured table.State) (merged : mosaic.UserAttrs)
      → length chance.nonce ≡ gcm.nonce_size
      → update_file mosaic encryption json_of_ciphertext encryptable valid gcm stub params_json
          asset_json ids_json store client_json connected chance org user_id asset_id content policy
          c
        ≡ (c', answer r)
      → new_secret mosaic chance.secret_seed c'.engine ≡ made drawn
      → get_ciphertext stub params_json asset_json ids_json asset_id c'.ledger ≡ done stored
      → read_asset mosaic encryption opening stored ≡ answer read
      → Entitled mosaic encryption opening expansion keys net cfg ports table reader read drawn s
          ensured merged
      → decrypt_file mosaic encryption opening expansion keys net cfg ports table stub params_json
          asset_json ids_json store true gcm reader asset_id c'.ledger c'.files e s
        ≡ some (
          load_org_from_json mosaic read.org_json e,
          ensured.state,
          answer
              (record { content = content; policy = read.ct.policy; issued_keys = ensured.issued }),
        )
  decrypt_file-update_file client_json connected chance org user_id asset_id content policy c c' r
        drawn stored read reader e s ensured merged size h d g p entitled =
      let (key, written, (point, d', derived)) =
        update_file-File mosaic encryption json_of_ciphertext encryptable valid gcm stub params_json
          asset_json ids_json store client_json connected chance org user_id asset_id content policy
          c c' r h in
      let same : point ≡ drawn = made-injective point drawn (sym d' ∙ d) in
      let found =
        file_laws.read_file-write_file (file_name store.data_dir asset_id) _ c.files c'.files
          written in
      let opened =
        open_content-sealed mosaic encryption opening gcm gcm_laws drawn key chance.nonce content
          size
          (subst (λ x. sym_key_from_secret mosaic encryption (some x) ≡ answer key) same derived) in
      decrypt_step reader asset_id c'.ledger c'.files e s stored read g p
      ∙ decrypt_read-Entitled mosaic encryption opening expansion keys net cfg ports table gcm
          (store.read_file (file_name store.data_dir asset_id) c'.files) reader read drawn e s
          ensured merged content entitled
          (ap (λ f. open_content mosaic encryption opening gcm f drawn) found ∙ opened)
