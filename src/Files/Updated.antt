-- ===== src/Files/Updated.antt =====
-- user_client/service/file_service.go: what `Encrypt` and `Update` leave on the ledger.
use bc_abe.Common.{
  ℕ, Bool, ◌≡◌, ◌≢◌, refl, sym, ap, ◌∙◌, subst, some, List, Option, is_empty, Bool-cases, inl, inr,
}
use bc_abe.Text.{Text, codes, print_nat, trim_space}
use bc_abe.Chaincode.Stub.{reply_cases, ok, Stub, StubLaws, Json, JsonLaws}
use bc_abe.Chaincode.Contract.{
  Outcome, done, GlobalParams, CiphertextAsset, get_ciphertext, put_ciphertext,
}
use bc_abe.Chaincode.Frame.{put-frame}
use bc_abe.Chaincode.Kept.{put_ciphertext-SameContent}
use bc_abe.Apperr.{Error, wrap, fabric_network}
use bc_abe.Apperr.Answer.{answer_cases, Answer, answer, raise, answer-injective, bind-answer}
use bc_abe.Authority.Engine.{
  Mosaic, load_org_from_json, new_secret, Engine, EngineResult, made, not_made,
}
use bc_abe.Authority.Encrypting.{Encryption, engine_encrypt, sym_key_from_secret}
use bc_abe.Files.Content.{Gcm, aes_encrypt}
use bc_abe.Files.Assets.{FileStore, submitted, file_name}
use bc_abe.Files.Ownership.{submitted-done}
use bc_abe.Files.Upload.{
  EncryptResult, Chance, Prepared, Client, prepare, created_at, asset_to_put, put_prepared,
  checked_keys, put_encrypted, update_file, pointers, or_engine_error,
}

raised-ne-answer :
    {B C : Type 0} (b c : B) (e : Error) (a : C) → ◌≢◌ {A = B × Answer C} (b, raise e) (c, answer a)
raised-ne-answer b c e a h = cc

pub answered :
    {B C : Type 0} (b c : B) (a d : C)
    → ◌≡◌ {A = B × Answer C} (b, answer a) (c, answer d)
    → (b ≡ c) × (a ≡ d)
answered b c a d h = (cc, cc)

or_engine_error-made :
    {A : Type 0} (x : EngineResult A) (a : A) → or_engine_error x ≡ answer a → x ≡ made a
unfolding or_engine_error
or_engine_error-made (made b) a h = cc
or_engine_error-made (not_made e) a h = cc

module _ (mosaic : Mosaic) (encryption : Encryption mosaic)
    (json_of_ciphertext : encryption.Ciphertext → Text) (encryptable valid : Text → Bool)
    (gcm : Gcm) (stub : Stub) (params_json : Json GlobalParams) (asset_json : Json CiphertextAsset)
    (ids_json : Json (List Text)) (store : FileStore) where
  open stub use {State}
  open store use {Files, write_file}

  abbrev pub At : Type 0
  At =
      Client mosaic encryption json_of_ciphertext encryptable valid gcm stub params_json asset_json
        ids_json store

  abbrev get : Text → State → Outcome CiphertextAsset
  get = get_ciphertext stub params_json asset_json ids_json

  -- The transaction behind a success with the asset that it was sent, and the write of the file.
  abbrev pub Sent : (CiphertextAsset → Text) → ℕ → Text → List ℕ → At → At → EncryptResult → Type 0
  Sent client_json user_id asset_id bytes c c' r =
      (sent : CiphertextAsset) × (put_ciphertext stub params_json asset_json ids_json
          (client_json sent) c.ledger
        ≡ done c'.ledger)
      × (sent.id ≡ asset_id)
      × (sent.owner ≡ print_nat user_id)
      × (sent.policy ≡ r.policy)
      × (write_file (file_name store.data_dir asset_id) bytes c.files ≡ ok c'.files)

  -- The key is that of the secret which the engine draws.
  abbrev pub KeyOf : Chance mosaic → Engine mosaic → Text → Type 0
  KeyOf chance e key =
      (drawn : mosaic.Point) × (new_secret mosaic chance.secret_seed e ≡ made drawn)
      × (sym_key_from_secret mosaic encryption (some drawn) ≡ answer key)

  put_prepared-Sent :
      (client_json : CiphertextAsset → Text) (connected : Bool) (chance : Chance mosaic)
      (user_id : ℕ) (asset_id existing : Text) (c c' : At) (prepared : Prepared) (r : EncryptResult)
      → put_prepared mosaic encryption json_of_ciphertext encryptable valid gcm stub params_json
          asset_json ids_json store client_json connected chance user_id asset_id existing c
          prepared
        ≡ (c', answer r)
      → Sent client_json user_id asset_id prepared.content c c' r × (c.engine ≡ c'.engine)
  unfolding put_prepared
  put_prepared-Sent client_json connected chance user_id asset_id existing c c' prepared r h =
      let created =
        created_at mosaic encryption json_of_ciphertext encryptable valid gcm stub params_json
          asset_json ids_json store connected chance.now existing c.ledger in
      let asset =
        asset_to_put mosaic encryption json_of_ciphertext encryptable valid gcm stub params_json
          asset_json ids_json store user_id asset_id created chance.now prepared in
      elim (answer_cases (
        submitted (wrap fabric_network (codes "put ciphertext"))
          (put_ciphertext stub params_json asset_json ids_json (client_json asset) c.ledger))) [
            | inl (e, raised) ↦ absurd (raised-ne-answer _ _ _ _ (rw (put_prepared, raised) at h))
            | inr (s', written) ↦
                elim (reply_cases
                  (write_file (file_name store.data_dir asset_id) prepared.content c.files)) [
                    | inl (t, missed) ↦
                        absurd (raised-ne-answer _ _ _ _ (rw (put_prepared, written, missed) at h))
                    | inr (files', kept) ↦
                        let (same, result) =
                          answered _ c' _ r (rw (put_prepared, written, kept) at h) in
                        (
                          (
                            asset,
                            submitted-done _ _ s' written
                                ∙ ap done (ap (λ (x : At). x.ledger) same),
                            refl,
                            unfold asset_to_put in refl,
                            ap (λ (x : EncryptResult). x.policy) result,
                            kept ∙ ap ok (ap (λ (x : At). x.files) same),
                          ),
                          ap (λ (x : At). x.engine) same,
                        )
                  ]
          ]

  -- The content is encrypted by the key of the secret.
  prepare-content :
      (chance : Chance mosaic) (e : Engine mosaic) (policy : Text)
      (table : List (Text × mosaic.AuthPub)) (content : List ℕ) (prepared : Prepared)
      → prepare mosaic encryption json_of_ciphertext encryptable valid gcm stub params_json
          asset_json ids_json store chance e policy table content
        ≡ answer prepared
      → (key : Text) × (prepared.content ≡ aes_encrypt gcm key chance.nonce content)
        × KeyOf chance e key
  unfolding prepare
  prepare-content chance e policy table content prepared h =
      let (point, drawn, h1) =
        bind-answer (or_engine_error (new_secret mosaic chance.secret_seed e)) _ prepared h in
      let (key, derived, h2) =
        bind-answer (sym_key_from_secret mosaic encryption (some point)) _ prepared h1 in
      let (ct, _, h3) =
        bind-answer
          (engine_encrypt mosaic encryption chance.cipher_seed (some point) policy (
            some (
              pointers mosaic encryption json_of_ciphertext encryptable valid gcm stub params_json
                asset_json ids_json store table)))
          _ prepared h2 in
      (
        key,
        sym (ap (λ (x : Prepared). x.content) (answer-injective _ prepared h3)),
        (point, or_engine_error-made _ point drawn, derived),
      )

  pub put_encrypted-Sent :
      (client_json : CiphertextAsset → Text) (connected : Bool) (chance : Chance mosaic)
      (org : Option Text) (user_id : ℕ) (asset_id : Text) (content : List ℕ)
      (policy existing : Text) (c c' : At) (r : EncryptResult)
      → put_encrypted mosaic encryption json_of_ciphertext encryptable valid gcm stub params_json
          asset_json ids_json store client_json connected chance org user_id asset_id content policy
          existing c
        ≡ (c', answer r)
      → (key : Text) × Sent client_json user_id asset_id
          (aes_encrypt gcm key chance.nonce content)
          c
          c'
          r
        × KeyOf chance c'.engine key
  unfolding put_encrypted
  put_encrypted-Sent client_json connected chance org user_id asset_id content policy existing c c'
        r h =
      elim (answer_cases (
        checked_keys mosaic encryption json_of_ciphertext encryptable valid gcm stub params_json
          asset_json ids_json store connected org policy c.ledger)) [
            | inl (e, raised) ↦ absurd (raised-ne-answer _ _ _ _ (rw (put_encrypted, raised) at h))
            | inr ((p, table, shared), checked) ↦
                let loaded = record c { engine = load_org_from_json mosaic shared c.engine } in
                elim (answer_cases (
                  prepare mosaic encryption json_of_ciphertext encryptable valid gcm stub
                    params_json asset_json ids_json store chance loaded.engine p table content)) [
                      | inl (e, raised) ↦
                          absurd
                            (raised-ne-answer _ _ _ _ (rw (put_encrypted, checked, raised) at h))
                      | inr (prepared, built) ↦
                          let (key, same, drawn) =
                            prepare-content chance loaded.engine p table content prepared built in
                          let (sent, engine) =
                            put_prepared-Sent client_json connected chance user_id asset_id existing
                              loaded c' prepared r (rw (put_encrypted, checked, built) at h) in
                          (
                            key,
                            subst (λ b. Sent client_json user_id asset_id b loaded c' r) same sent,
                            subst (λ e. KeyOf chance e key) engine drawn,
                          )
                    ]
          ]

  update_file-Sent :
      (client_json : CiphertextAsset → Text) (connected : Bool) (chance : Chance mosaic)
      (org : Option Text) (user_id : ℕ) (asset_id : Text) (content : List ℕ) (policy : Text)
      (c c' : At) (r : EncryptResult)
      → update_file mosaic encryption json_of_ciphertext encryptable valid gcm stub params_json
          asset_json ids_json store client_json connected chance org user_id asset_id content policy
          c
        ≡ (c', answer r)
      → (key : Text) × Sent client_json user_id asset_id
          (aes_encrypt gcm key chance.nonce content)
          c
          c'
          r
        × KeyOf chance c'.engine key
  unfolding update_file
  update_file-Sent client_json connected chance org user_id asset_id content policy c c' r h =
      elim (Bool-cases (is_empty (trim_space asset_id))) [
        | inl t ↦ absurd (raised-ne-answer _ _ _ _ (rw (update_file, t) at h))
        | inr f ↦
            put_encrypted-Sent client_json connected chance org user_id asset_id content policy
              asset_id c c' r (rw (update_file, f) at h)
      ]

  -- The file of the asset behind a success of `Update`, and the key by which its content is encrypted.
  pub update_file-File :
      (client_json : CiphertextAsset → Text) (connected : Bool) (chance : Chance mosaic)
      (org : Option Text) (user_id : ℕ) (asset_id : Text) (content : List ℕ) (policy : Text)
      (c c' : At) (r : EncryptResult)
      → update_file mosaic encryption json_of_ciphertext encryptable valid gcm stub params_json
          asset_json ids_json store client_json connected chance org user_id asset_id content policy
          c
        ≡ (c', answer r)
      → (key : Text) × (write_file
            (file_name store.data_dir asset_id)
            (aes_encrypt gcm key chance.nonce content)
            c.files
          ≡ ok c'.files)
        × KeyOf chance c'.engine key
  update_file-File client_json connected chance org user_id asset_id content policy c c' r h =
      let (key, (_, _, _, _, _, file), drawn) =
        update_file-Sent client_json connected chance org user_id asset_id content policy c c' r
          h in
      (key, file, drawn)

  module _ (laws : StubLaws stub) (json_laws : JsonLaws asset_json) where
    -- Where `Update` succeeds, and the contract reads the text of an asset as the asset: the ledger then
    -- holds at the identifier that the request names an asset whose owner is the user of the request,
    -- whoever was the owner of the asset before, with the policy that is answered. Every other
    -- identifier is answered as before.
    pub update_file_lem :
        (client_json : CiphertextAsset → Text) (connected : Bool) (chance : Chance mosaic)
        (org : Option Text) (user_id : ℕ) (asset_id : Text) (content : List ℕ) (policy : Text)
        (c c' : At) (r : EncryptResult)
        → ((a : CiphertextAsset) → asset_json.unmarshal (client_json a) ≡ ok a)
        → update_file mosaic encryption json_of_ciphertext encryptable valid gcm stub params_json
            asset_json ids_json store client_json connected chance org user_id asset_id content
            policy c
          ≡ (c', answer r)
        → ((stored : CiphertextAsset) × (get asset_id c'.ledger ≡ done stored)
            × (stored.owner ≡ print_nat user_id)
            × (stored.policy ≡ r.policy))
          × ((j : Text) → j ≢ asset_id → get j c'.ledger ≡ get j c.ledger)
    update_file_lem client_json connected chance org user_id asset_id content policy c c' r reads
          h =
        let (_, (sent, written, id, owner, p, _), _) =
          update_file-Sent client_json connected chance org user_id asset_id content policy c c' r
            h in
        let (stored, back, (_, o, q, _)) =
          put_ciphertext-SameContent stub params_json asset_json ids_json laws json_laws
            (client_json sent) sent c.ledger c'.ledger (reads sent) written in
        let (others, _) =
          put-frame stub params_json asset_json ids_json laws (client_json sent) sent c.ledger
            c'.ledger (reads sent) written in
        (
          (stored, subst (λ i. get i c'.ledger ≡ done stored) id back, o ∙ owner, q ∙ p),
          λ j ne. others j (λ e. ne (e ∙ id)),
        )
