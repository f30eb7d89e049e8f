-- ===== src/Chaincode/Frame.antt =====
-- chaincode/contract.go: what the methods leave as it is, and who may write the parameters.
use bc_abe.Common.{Bool, true, false, ◌≡◌, ◌≢◌, refl, sym, ap, ◌∙◌, subst, List, none}
use bc_abe.Text.{Text}
use bc_abe.Chaincode.Stub.{ok-injective, ok, Stub, StubLaws, Json, Identity}
use bc_abe.Chaincode.Contract.{
  Outcome, done, error, wrap_error, GlobalParams, CiphertextAsset, key_global_params,
  ciphertext_key, is_admin, require_admin, params_version, default_id, put_global_params,
  get_global_params, put_ciphertext, get_ciphertext, delete_ciphertext, not_found,
}
use bc_abe.Chaincode.Laws.{
  bind-done, wrap_error-done, ciphertext_key-injective, ciphertext_key-ne-global, put-Written,
}

module _ (stub : Stub) (params_json : Json GlobalParams) (asset_json : Json CiphertextAsset)
    (ids_json : Json (List Text)) (laws : StubLaws stub) where
  open stub use {State, get_state, put_state}

  abbrev get : Text → State → Outcome CiphertextAsset
  get = get_ciphertext stub params_json asset_json ids_json

  abbrev params : State → Outcome GlobalParams
  params = get_global_params stub params_json asset_json ids_json

  -- Reads depend on their key alone.
  get-same :
      (id : Text) (s s' : State)
      → get_state (ciphertext_key id) s' ≡ get_state (ciphertext_key id) s
      → get id s' ≡ get id s
  unfolding get_ciphertext
  get-same id s s' e = rw e

  params-same :
      (s s' : State)
      → get_state key_global_params s' ≡ get_state key_global_params s
      → params s' ≡ params s
  unfolding get_global_params
  params-same s s' e = rw e

  other_key : (i j : Text) → j ≢ i → ciphertext_key j ≢ ciphertext_key i
  other_key i j ne e = ne (ciphertext_key-injective j i e)

  -- A successful `PutCiphertext` of an asset changes what `GetCiphertext` returns at no other
  -- identifier, and what `GetGlobalParams` returns not at all.
  pub put-frame :
      (asset : Text) (incoming : CiphertextAsset) (s s' : State)
      → asset_json.unmarshal asset ≡ ok incoming
      → put_ciphertext stub params_json asset_json ids_json asset s ≡ done s'
      → ((j : Text) → j ≢ incoming.id → get j s' ≡ get j s) × (params s' ≡ params s)
  put-frame asset incoming s s' e h =
      let (incoming', e', (_, _, payload, _, _, _, w)) =
        put-Written stub params_json asset_json ids_json asset s s' h in
      let same : incoming' ≡ incoming = ok-injective incoming' incoming (sym e' ∙ e) in
      let at : put_state (ciphertext_key incoming.id) payload s ≡ ok s' =
        subst (λ (x : CiphertextAsset). put_state (ciphertext_key x.id) payload s ≡ ok s') same w in
      (
        λ j ne.
            get-same j s s' (
              laws.get-put_other _ (ciphertext_key j) payload s s' at (other_key incoming.id j ne)),
        params-same s s' (
            laws.get-put_other _ key_global_params payload s s' at
              (ciphertext_key-ne-global incoming.id)),
      )

  -- After a successful `DeleteCiphertext`: `GetCiphertext` finds nothing at the identifier, returns
  -- what it did at any other, and `GetGlobalParams` returns what it did.
  pub delete-frame :
      (id : Text) (s s' : State)
      → delete_ciphertext stub params_json asset_json ids_json id s ≡ done s'
      → (get id s' ≡ error not_found)
        × ((j : Text) → j ≢ id → get j s' ≡ get j s)
        × (params s' ≡ params s)
  unfolding delete_ciphertext
  delete-frame id s s' h =
      let e : stub.del_state (ciphertext_key id) s ≡ ok s' = wrap_error-done _ _ h in
      (
        gone id s' (laws.get-del (ciphertext_key id) s s' e),
        λ j ne.
            get-same j s s' (laws.get-del_other _ (ciphertext_key j) s s' e (other_key id j ne)),
        params-same s s'
            (laws.get-del_other _ key_global_params s s' e (ciphertext_key-ne-global id)),
      )
    where
      gone :
          (i : Text) (t : State)
          → get_state (ciphertext_key i) t ≡ ok none
          → get i t ≡ error not_found
      gone i t e = unfold get_ciphertext in rw e

  -- A successful `PutGlobalParams` was sent by an identity that `isAdmin` accepts, and it changes
  -- what `GetCiphertext` returns at no identifier.
  pub put_global_params-frame :
      (identity : Identity) (text : Text) (s s' : State)
      → put_global_params stub params_json asset_json ids_json identity text s ≡ done s'
      → (is_admin identity ≡ done true) × ((j : Text) → get j s' ≡ get j s)
  unfolding put_global_params
  put_global_params-frame identity text s s' h =
      let (admin, e1, h1) = bind-done (is_admin identity) _ h in
      let (_, e2, h2) = bind-done (require_admin stub params_json asset_json ids_json admin) _ h1 in
      let (incoming, e3, h3) = bind-done (wrap_error _ (params_json.unmarshal text)) _ h2 in
      let (existing, e4, h4) = bind-done (wrap_error _ (get_state key_global_params s)) _ h3 in
      let (updated, e5, h5) =
        bind-done
          (params_version stub params_json asset_json ids_json existing (default_id incoming)) _
          h4 in
      let (payload, e6, h6) = bind-done (wrap_error _ (params_json.marshal updated)) _ h5 in
      let written : put_state key_global_params payload s ≡ ok s' = wrap_error-done _ _ h6 in
      (
        e1 ∙ ap done (required admin e2),
        λ j. get-same j s s' (
            laws.get-put_other _ (ciphertext_key j) payload s s' written
              (λ e. ciphertext_key-ne-global j (sym e))),
      )
    where
      required :
          (b : Bool) {u : Unit {0}}
          → require_admin stub params_json asset_json ids_json b ≡ done u
          → b ≡ true
      required true e = refl
      required false e = unfold require_admin in cc
