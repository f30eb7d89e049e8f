-- ===== src/Files/Downloaded.antt =====
-- user_client/service/file_service.go: how the content comes about that `Decrypt` returns.
use bc_abe.Common.{
  option_cases, none-ne-some, ℕ, Bool, ◌≡◌, ap, ◌∙◌, subst, List, [], Option, some, inl, inr,
}
use bc_abe.Text.{Text}
use bc_abe.Chaincode.Stub.{Reply, Stub, Json}
use bc_abe.Chaincode.Contract.{done, GlobalParams, CiphertextAsset, get_ciphertext}
use bc_abe.Apperr.{Error}
use bc_abe.Apperr.Answer.{answer_cases, Answer, answer, raise, ◌>>=◌, bind-answer}
use bc_abe.Policy.Normalize.{normalize_policy_syntax}
use bc_abe.Authority.Engine.{Mosaic, Engine}
use bc_abe.Authority.Encrypting.{Encryption}
use bc_abe.Authority.Decrypt.{CiphertextData}
use bc_abe.Msp.PrivateKey.{KeyPem}
use bc_abe.Keys.Account.{Config}
use bc_abe.Keys.Accounts.{Account}
use bc_abe.Keys.Table.{KeyTable, KeyTableLaws}
use bc_abe.Keys.Issuing.{Network, Ports}
use bc_abe.Keys.Merge.{missing_attrs}
use bc_abe.Keys.Ensure.{Ensured, ensure_keys_for_policy}
use bc_abe.Keys.Ensured.{Grown, ensure_keys_for_policy_lem}
use bc_abe.Files.Content.{Gcm}
use bc_abe.Files.Assets.{FileStore, file_name, get_asset}
use bc_abe.Files.Ownership.{get_asset-done}
use bc_abe.Files.Download.{
  DecryptResult, Opening, Read, read_asset, with_keys, decrypt_read, decrypt_file,
}
use bc_abe.Files.Opened.{OpenedBy, with_keys-OpenedBy}

both : {A B : Type 0} {a b : A} {x y : B} → a ≡ b → x ≡ y → ◌≡◌ {A = A × B} (a, x) (b, y)
both h k = rw (h, k)

kept :
    {A B C : Type 0} (a a' : A) (b b' : B) (c c' : C)
    → ◌≡◌ {A = Option (A × B × C)} (some (a, b, c)) (some (a', b', c'))
    → (b ≡ b') × (c ≡ c')
kept a a' b b' c c' h = (cc, cc)

raised_end :
    {A B C : Type 0} (a a' : A) (b b' : B) (e : Error) (c : C)
    → ◌≡◌ {A = Option (A × B × Answer C)} (some (a, b, raise e)) (some (a', b', answer c))
    → ⊥
raised_end a a' b b' e c h = cc

module _ (mosaic : Mosaic) (encryption : Encryption mosaic) (opening : Opening mosaic) where
  open opening use {policy_vars}

  module _ (expansion : Text → List Text) (keys : KeyPem) (net : Network) (cfg : Config)
      (ports : Ports) (table : KeyTable) where
    open table use {State}

    ensured-normalized :
        (user : Account) (policy : Text) (s : State) (r : Ensured State)
        → ensure_keys_for_policy expansion policy_vars mosaic keys net cfg ports table user policy s
          ≡ some r
        → (p : Text) × (normalize_policy_syntax policy ≡ some p)
    unfolding ensure_keys_for_policy
    ensured-normalized user policy s r h = elim (option_cases (normalize_policy_syntax policy)) [
      | inl n ↦ absurd (none-ne-some r (rw (ensure_keys_for_policy, n) at h))
      | inr (p, n) ↦ (p, n)
    ]

    module _ (laws : KeyTableLaws table) where
      -- The keys of the user, in the table with the new ones, lack nothing and open the content.
      abbrev pub OpenedFrom :
          Gcm
          → Reply (List ℕ)
          → CiphertextData opening.CipherPoint
          → Account
          → State
          → State
          → DecryptResult
          → Type 0
      OpenedFrom gcm file ct user s s' r =
          Grown table user.id s s'
          × (r.policy ≡ ct.policy)
          × ((p : Text) × (normalize_policy_syntax ct.policy ≡ some p)
              × (missing_attrs mosaic table cfg policy_vars p user s' ≡ some []))
          × OpenedBy mosaic encryption opening expansion keys net cfg ports table gcm file ct user
              s' r.content

      decrypt_read-OpenedFrom :
          (gcm : Gcm) (file : Reply (List ℕ)) (user : Account)
          (read : Read mosaic encryption opening) (e e' : Engine mosaic) (s s' : State)
          (r : DecryptResult)
          → decrypt_read mosaic encryption opening expansion keys net cfg ports table gcm file user
              read e s
            ≡ some (e', s', answer r)
          → OpenedFrom gcm file read.ct user s s' r
      unfolding decrypt_read
      decrypt_read-OpenedFrom gcm file user read e e' s s' r h =
          elim (option_cases (
            ensure_keys_for_policy expansion policy_vars mosaic keys net cfg ports table user
              read.ct.policy s)) [
                | inl n ↦ absurd (none-ne-some _ (rw (decrypt_read, n) at h))
                | inr (x, n) ↦
                    elim (option_cases (
                      with_keys mosaic encryption opening expansion keys net cfg ports table gcm
                        file read.ct user x)) [
                          | inl w ↦ absurd (none-ne-some _ (rw (decrypt_read, n, w) at h))
                          | inr ((s1, a), w) ↦
                              let (state, result) =
                                kept _ e' s1 s' a (answer r) (rw (decrypt_read, n, w) at h) in
                              let (p, normal) = ensured-normalized user read.ct.policy s x n in
                              let (grown, complete) =
                                ensure_keys_for_policy_lem expansion policy_vars mosaic keys net cfg
                                  ports table laws user read.ct.policy p s x normal n in
                              let (no_error, same, policy, opened) =
                                with_keys-OpenedBy mosaic encryption opening expansion keys net cfg
                                  ports table gcm file read.ct user x s' r
                                  (w ∙ ap some (both state result)) in
                              (
                                subst (Grown table user.id s) same grown,
                                policy,
                                (
                                  p,
                                  normal,
                                  subst
                                      (λ t.
                                        missing_attrs mosaic table cfg policy_vars p user t
                                        ≡ some [])
                                      same (complete no_error),
                                ),
                                subst
                                    (λ t.
                                      OpenedBy mosaic encryption opening expansion keys net cfg
                                        ports table gcm file read.ct user t r.content)
                                    same opened,
                              )
                        ]
              ]

      module _ (stub : Stub) (params_json : Json GlobalParams) (asset_json : Json CiphertextAsset)
          (ids_json : Json (List Text)) (store : FileStore) where
        -- Where `Decrypt` returns a content: the ledger held the asset; the table of keys gained rows of the
        -- user alone, and the user's keys in it lack no attribute of the policy that is returned; the
        -- secret that the engine decrypts by these keys gives the key by which the file of the asset
        -- opens to the content.
        pub decrypt_file_lem :
            (connected : Bool) (gcm : Gcm) (user : Account) (asset_id : Text) (ledger : stub.State)
            (files : store.Files) (e e' : Engine mosaic) (s s' : State) (r : DecryptResult)
            → decrypt_file mosaic encryption opening expansion keys net cfg ports table stub
                params_json asset_json ids_json store connected gcm user asset_id ledger files e s
              ≡ some (e', s', answer r)
            → (asset : CiphertextAsset) × (read : Read mosaic encryption opening) × (get_ciphertext
                  stub params_json asset_json ids_json asset_id ledger
                ≡ done asset)
              × (read_asset mosaic encryption opening asset ≡ answer read)
              × OpenedFrom gcm
                  (store.read_file (file_name store.data_dir asset_id) files)
                  read.ct
                  user
                  s
                  s'
                  r
        unfolding decrypt_file
        decrypt_file_lem connected gcm user asset_id ledger files e e' s s' r h =
            elim (answer_cases (
              get_asset stub params_json asset_json ids_json store connected asset_id ledger
              >>= read_asset mosaic encryption opening)) [
                | inl (err, n) ↦ absurd (raised_end _ _ _ _ _ _ (rw (decrypt_file, n) at h))
                | inr (read, n) ↦
                    let (asset, e1, e2) =
                      bind-answer
                        (get_asset stub params_json asset_json ids_json store connected asset_id
                          ledger)
                        _ read n in
                    (
                      asset,
                      read,
                      get_asset-done stub params_json asset_json ids_json store connected asset_id
                          ledger asset e1,
                      e2,
                      decrypt_read-OpenedFrom gcm
                          (store.read_file (file_name store.data_dir asset_id) files) user read e e'
                          s s' r (rw (decrypt_file, n) at h),
                    )
              ]
