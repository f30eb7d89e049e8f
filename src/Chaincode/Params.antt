-- ===== src/Chaincode/Params.antt =====
-- chaincode/contract.go: what a successful `PutGlobalParams` stores.
use bc_abe.Common.{◌≡◌, refl, sym, ◌∙◌, subst, List, Option, none, some, arith}
use bc_abe.Text.{Text}
use bc_abe.Chaincode.Stub.{ok-injective, ok, Stub, StubLaws, Json, JsonLaws, Identity}
use bc_abe.Chaincode.Contract.{
  done, wrap_error, GlobalParams, CiphertextAsset, key_global_params, default_id, is_admin,
  require_admin, params_version, put_global_params, get_global_params,
}
use bc_abe.Chaincode.Laws.{bind-done, wrap_error-done, done-injective}

-- The fields that the version leaves.
abbrev pub SameParams : GlobalParams → GlobalParams → Type 0
SameParams incoming stored =
    (stored.org_pub_keys ≡ incoming.org_pub_keys) × (stored.curve ≡ incoming.curve)

default_id-SameParams : (incoming : GlobalParams) → SameParams incoming (default_id incoming)
unfolding default_id
default_id-SameParams incoming = ground arith

module _ (stub : Stub) (params_json : Json GlobalParams) (asset_json : Json CiphertextAsset)
    (ids_json : Json (List Text)) where
  open stub use {State, get_state, put_state}

  params_version-SameParams :
      (existing : Option Text) (incoming stored : GlobalParams)
      → params_version stub params_json asset_json ids_json existing incoming ≡ done stored
      → SameParams incoming stored
  unfolding params_version
  params_version-SameParams none incoming stored h =
      subst (SameParams incoming) (done-injective _ stored h) (refl, refl)
  params_version-SameParams (some bytes) incoming stored h =
      let (_, _, e) = bind-done (wrap_error _ (params_json.unmarshal bytes)) _ h in
      subst (SameParams incoming) (done-injective _ stored e) (refl, refl)

  pub put_global_params-SameParams :
      StubLaws stub
      → JsonLaws params_json
      → (identity : Identity) (text : Text) (incoming : GlobalParams) (s s' : State)
      → params_json.unmarshal text ≡ ok incoming
      → put_global_params stub params_json asset_json ids_json identity text s ≡ done s'
      → (stored : GlobalParams) × (get_global_params stub params_json asset_json ids_json s'
          ≡ done stored)
        × SameParams incoming stored
  unfolding put_global_params get_global_params
  put_global_params-SameParams laws json_laws identity text incoming s s' e h =
      let (admin, e1, h1) = bind-done (is_admin identity) _ h in
      let (_, e2, h2) = bind-done (require_admin stub params_json asset_json ids_json admin) _ h1 in
      let (found, e3, h3) = bind-done (wrap_error _ (params_json.unmarshal text)) _ h2 in
      let (existing, e4, h4) = bind-done (wrap_error _ (get_state key_global_params s)) _ h3 in
      let (updated, e5, h5) =
        bind-done (params_version stub params_json asset_json ids_json existing (default_id found))
          _ h4 in
      let (payload, e6, h6) = bind-done (wrap_error _ (params_json.marshal updated)) _ h5 in
      let same : found ≡ incoming =
        ok-injective found incoming (sym (wrap_error-done _ (params_json.unmarshal text) e3) ∙ e) in
      let (keys, curve) = params_version-SameParams existing (default_id found) updated e5 in
      let (keys', curve') = default_id-SameParams found in
      (
        updated,
        rw (
          laws.get-put key_global_params payload s s' (wrap_error-done _ _ h6),
          json_laws.unmarshal-marshal updated payload (wrap_error-done _ _ e6),
        ),
        subst (λ x. SameParams x updated) same (keys ∙ keys', curve ∙ curve'),
      )
