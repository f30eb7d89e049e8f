-- ===== src/Chaincode/Kept.antt =====
-- chaincode/contract.go: what `PutCiphertext` keeps of the asset that is sent, whatever there was.
use bc_abe.Common.{◌≡◌, refl, sym, ◌∙◌, subst, List, Option, none, some, arith}
use bc_abe.Text.{Text}
use bc_abe.Chaincode.Stub.{ok-injective, ok, Stub, StubLaws, Json, JsonLaws}
use bc_abe.Chaincode.Contract.{
  done, wrap_error, GlobalParams, CiphertextAsset, next_version, keep_created, asset_version,
  put_ciphertext, get_ciphertext,
}
use bc_abe.Chaincode.Laws.{bind-done, done-injective, put-Written, Written-back, Written}

-- The fields that no earlier version changes.
abbrev pub SameContent : CiphertextAsset → CiphertextAsset → Type 0
SameContent incoming stored =
    (stored.id ≡ incoming.id)
    × (stored.owner ≡ incoming.owner)
    × (stored.policy ≡ incoming.policy)
    × (stored.ciphertext ≡ incoming.ciphertext)

keep_created-SameContent :
    (old incoming : CiphertextAsset) → SameContent incoming (keep_created old incoming)
unfolding keep_created
keep_created-SameContent old incoming = ground arith

module _ (stub : Stub) (params_json : Json GlobalParams) (asset_json : Json CiphertextAsset)
    (ids_json : Json (List Text)) where
  open stub use {State}

  asset_version-SameContent :
      (existing : Option Text) (incoming stored : CiphertextAsset)
      → asset_version stub params_json asset_json ids_json existing incoming ≡ done stored
      → SameContent incoming stored
  unfolding asset_version
  asset_version-SameContent none incoming stored h =
      subst (SameContent incoming) (done-injective _ stored h) (refl, refl, refl, refl)
  asset_version-SameContent (some bytes) incoming stored h =
      let (old, _, e) = bind-done (wrap_error _ (asset_json.unmarshal bytes)) _ h in
      subst (SameContent incoming) (done-injective _ stored e)
        (keep_created-SameContent old (record incoming { version = next_version old.version }))

  pub put_ciphertext-SameContent :
      StubLaws stub
      → JsonLaws asset_json
      → (text : Text) (incoming : CiphertextAsset) (s s' : State)
      → asset_json.unmarshal text ≡ ok incoming
      → put_ciphertext stub params_json asset_json ids_json text s ≡ done s'
      → (stored : CiphertextAsset) × (get_ciphertext stub params_json asset_json ids_json
            incoming.id s'
          ≡ done stored)
        × SameContent incoming stored
  put_ciphertext-SameContent laws json_laws text incoming s s' e h =
      let (found, e', w) = put-Written stub params_json asset_json ids_json text s s' h in
      let written : Written stub params_json asset_json ids_json incoming s s' =
        subst (λ x. Written stub params_json asset_json ids_json x s s')
          (ok-injective found incoming (sym e' ∙ e)) w in
      let (existing, stored, _, version, back) =
        Written-back stub params_json asset_json ids_json laws json_laws incoming s s' written in
      (stored, back, asset_version-SameContent existing incoming stored version)
