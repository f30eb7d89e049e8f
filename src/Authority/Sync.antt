-- ===== src/Authority/Sync.antt =====
-- auth_admin/main.go: what `syncGlobalParamsToChain` makes of the keys of the other authorities, alone
-- and between the two transactions of another server.
use bc_abe.Common.{Bool, true, false, ◌≡◌, ◌≢◌, refl, ap, ◌∙◌, arith, List, [], ◌∷◌}
use bc_abe.Text.{Text}
use bc_abe.Text.Equality.{=ᵗ→≡, =ᵗ_self}
use bc_abe.Chaincode.Stub.{ok, Stub, StubLaws, Json, JsonLaws, Identity}
use bc_abe.Chaincode.Contract.{
  Outcome, done, error, ContractError, GlobalParams, CiphertextAsset, put_global_params,
}
use bc_abe.Chaincode.Params.{put_global_params-SameParams}
use bc_abe.Policy.Missing.{set_entry}
use bc_abe.Authority.Decrypting.{key_of}
use bc_abe.Authority.Setup.{
  OrgRow, read_pub_keys, params_of, submit_params, sync_global_params_to_chain,
}

key_of-set_entry : (k v : Text) (m : List (Text × Text)) → key_of k (set_entry k v m) ≡ v
unfolding key_of set_entry
key_of-set_entry k v [] = rw (=ᵗ_self k)
key_of-set_entry k v ((j, w) ∷ m) = ground (arith, key_of-set_entry k v m, =ᵗ_self k)

key_of-set_other :
    (k j v : Text) (m : List (Text × Text)) → j ≢ k → key_of j (set_entry k v m) ≡ key_of j m
unfolding key_of set_entry
key_of-set_other k j v [] h = ground (arith, =ᵗ→≡ k j)
key_of-set_other k j v ((i, w) ∷ m) h =
    ground (arith, key_of-set_other k j v m h, =ᵗ→≡ i k, =ᵗ→≡ k j, =ᵗ→≡ i j)

module _ (stub : Stub) (params_json : Json GlobalParams) (asset_json : Json CiphertextAsset)
    (ids_json : Json (List Text)) (laws : StubLaws stub) (json_laws : JsonLaws params_json)
    (client_json : GlobalParams → Text)
    (reads : (p : GlobalParams) → params_json.unmarshal (client_json p) ≡ ok p) where
  open stub use {State}

  abbrev put : Identity → GlobalParams → State → Outcome State
  put identity p s =
      put_global_params stub params_json asset_json ids_json identity (client_json p) s

  -- What is read behind a write that succeeds.
  read_pub_keys-put :
      (identity : Identity) (p : GlobalParams) (s s' : State)
      → put identity p s ≡ done s'
      → read_pub_keys stub params_json asset_json ids_json true s' ≡ p.org_pub_keys
  unfolding read_pub_keys
  read_pub_keys-put identity p s s' h =
      let (stored, e, (same, _)) =
        put_global_params-SameParams stub params_json asset_json ids_json laws json_laws identity
          (client_json p) p s s' (reads p) h in
      rw e same

  abbrev submit : Identity → Text → Text → OrgRow → List (Text × Text) → State → State
  submit = submit_params stub params_json asset_json ids_json client_json

  abbrev sent : Text → Text → OrgRow → List (Text × Text) → GlobalParams
  sent = params_of stub params_json asset_json ids_json

  abbrev keys_at : State → List (Text × Text)
  keys_at = read_pub_keys stub params_json asset_json ids_json true

  abbrev read : Bool → State → List (Text × Text)
  read = read_pub_keys stub params_json asset_json ids_json

  abbrev sync : Bool → Bool → Identity → Text → Text → OrgRow → State → State
  sync = sync_global_params_to_chain stub params_json asset_json ids_json client_json

  submitted_step :
      (identity : Identity) (auth_name now : Text) (org : OrgRow) (pub_keys : List (Text × Text))
      (s s' : State)
      → put identity (sent auth_name now org pub_keys) s ≡ done s'
      → submit identity auth_name now org pub_keys s ≡ s'
  unfolding submit_params
  submitted_step identity auth_name now org pub_keys s s' h = rw (submit_params, h)

  failed_step :
      (identity : Identity) (auth_name now : Text) (org : OrgRow) (pub_keys : List (Text × Text))
      (s : State) (e : ContractError)
      → put identity (sent auth_name now org pub_keys) s ≡ error e
      → submit identity auth_name now org pub_keys s ≡ s
  unfolding submit_params
  failed_step identity auth_name now org pub_keys s e h = rw (submit_params, h)

  -- The keys behind a write that succeeds: the authority has its own, the others those that were read.
  written-keys :
      (identity : Identity) (auth_name now : Text) (org : OrgRow) (pub_keys : List (Text × Text))
      (s s' : State)
      → put identity (sent auth_name now org pub_keys) s ≡ done s'
      → (key_of auth_name (keys_at s') ≡ org.auth_pub_json)
        × ((j : Text) → j ≢ auth_name → key_of j (keys_at s') ≡ key_of j pub_keys)
  unfolding params_of
  written-keys identity auth_name now org pub_keys s s' h =
      let stored = read_pub_keys-put identity (sent auth_name now org pub_keys) s s' h in
      (
        ap (key_of auth_name) stored ∙ key_of-set_entry auth_name org.auth_pub_json pub_keys,
        λ j ne. ap (key_of j) stored ∙ key_of-set_other auth_name j org.auth_pub_json pub_keys ne,
      )

  -- The keys that are read: those on the ledger, or none.
  read_pub_keys-evaluated :
      (evaluated : Bool) (s : State) (j : Text)
      → (evaluated ≡ true
          → key_of j (read_pub_keys stub params_json asset_json ids_json evaluated s)
            ≡ key_of j (keys_at s))
        × (evaluated ≡ false
            → key_of j (read_pub_keys stub params_json asset_json ids_json evaluated s) ≡ [])
  unfolding read_pub_keys key_of
  read_pub_keys-evaluated true s j = (λ e. refl, λ e. cc)
  read_pub_keys-evaluated false s j = (λ e. cc, λ e. refl)

  -- `syncGlobalParamsToChain` behind a gateway that was made, where the contract reads what the client
  -- writes, and no other transaction is between its two. If the contract accepts the parameters that are
  -- sent, with the keys that were read, they are on the ledger afterwards: the organisation's public key
  -- is under the name of its authority; every other name has the key that it had before, if the
  -- parameters could be read, and otherwise every other name has lost its key. If the contract
  -- refuses them, the ledger stays as it is.
  pub sync_global_params_to_chain_lem :
      (evaluated : Bool) (identity : Identity) (auth_name now : Text) (org : OrgRow) (s : State)
      → ((s' : State)
          → put identity (sent auth_name now org (read evaluated s)) s ≡ done s'
          → (sync true evaluated identity auth_name now org s ≡ s')
            × (key_of auth_name (keys_at s') ≡ org.auth_pub_json)
            × ((j : Text)
                → j ≢ auth_name
                → (evaluated ≡ true → key_of j (keys_at s') ≡ key_of j (keys_at s))
                  × (evaluated ≡ false → key_of j (keys_at s') ≡ [])))
        × ((e : ContractError)
            → put identity (sent auth_name now org (read evaluated s)) s ≡ error e
            → sync true evaluated identity auth_name now org s ≡ s)
  unfolding sync_global_params_to_chain
  sync_global_params_to_chain_lem evaluated identity auth_name now org s = (
    λ s' h.
        let (own, others) = written-keys identity auth_name now org (read evaluated s) s s' h in
        (
          submitted_step identity auth_name now org (read evaluated s) s s' h,
          own,
          λ j ne.
              let (kept, lost) = read_pub_keys-evaluated evaluated s j in
              (λ t. others j ne ∙ kept t, λ f. others j ne ∙ lost f),
        ),
    λ e h. failed_step identity auth_name now org (read evaluated s) s e h,
  )

  -- Two servers that both read the parameters before either writes them: where the second write
  -- succeeds, the first server's authority has again the key that it had before the first write.
  pub submit_params-submit_params :
      (identity identity' : Identity) (auth_name auth_name' now now' : Text) (org org' : OrgRow)
      (s s' : State)
      → auth_name ≢ auth_name'
      → put identity'
          (sent auth_name' now' org' (keys_at s))
          (submit identity auth_name now org (keys_at s) s)
        ≡ done s'
      → key_of auth_name (keys_at s') ≡ key_of auth_name (keys_at s)
  submit_params-submit_params identity identity' auth_name auth_name' now now' org org' s s' ne h =
      (written-keys identity' auth_name' now' org' (keys_at s)
          (submit identity auth_name now org (keys_at s) s) s' h).1
        auth_name ne
