-- ===== src/Chaincode/Laws.antt =====
-- chaincode/contract.go: what a successful `PutCiphertext`, `DeleteCiphertext` or `PutGlobalParams`
-- changes, and what it leaves as it is.
use bc_abe.Common.{
  ℕ, ◌≡◌, ◌≢◌, refl, sym, ap, ◌∙◌, subst, List, [], ◌∷◌, Option, none, some, is_empty,
  if◌then◌else◌, arith,
}
use bc_abe.Text.{Text}
use bc_abe.Chaincode.Stub.{ok-injective, Reply, ok, failed, Stub, StubLaws, Json, JsonLaws}
use bc_abe.Chaincode.Contract.{
  ContractError, Outcome, done, error, ◌>>=◌, wrap_error, GlobalParams, CiphertextAsset,
  key_global_params, ciphertext_key, next_version, keep_created, require_id, asset_version,
  put_ciphertext, read_asset, get_ciphertext, not_found,
}

pub bind-done :
    {A B : Type 0} (m : Outcome A) (f : A → Outcome B) {b : B}
    → (m >>= f) ≡ done b
    → (a : A) × (m ≡ done a) × (f a ≡ done b)
bind-done (done a) f h = (a, refl, h)
bind-done (error e) f h = cc

pub wrap_error-done :
    {A : Type 0} (e : Text → ContractError) (r : Reply A) {a : A}
    → wrap_error e r ≡ done a
    → r ≡ ok a
unfolding wrap_error
wrap_error-done e (ok x) h = cc
wrap_error-done e (failed t) h = cc

pub done-injective : {A : Type 0} (a b : A) → done a ≡ done b → a ≡ b
done-injective a b h = cc

done-ne-error : {A : Type 0} (a : A) (e : ContractError) → done a ≡ error e → ⊥
done-ne-error a e h = cc

pub ciphertext_key-injective : (i j : Text) → ciphertext_key i ≡ ciphertext_key j → i ≡ j
unfolding ciphertext_key
ciphertext_key-injective i j h = cc

first_char : Text → ℕ
first_char [] = 0
first_char (c ∷ s) = c

pub ciphertext_key-ne-global : (i : Text) → key_global_params ≢ ciphertext_key i
unfolding ciphertext_key first_char
ciphertext_key-ne-global i h = omega (arith, ap first_char h)

-- What `PutCiphertext` stores for an asset that is there already.
abbrev pub replaces : CiphertextAsset → CiphertextAsset → CiphertextAsset
replaces old incoming = record incoming {
  version = next_version old.version;
  created_at = if is_empty incoming.created_at then old.created_at else incoming.created_at;
}

replaced :
    (old incoming : CiphertextAsset)
    → keep_created old (record incoming { version = next_version old.version })
      ≡ replaces old incoming
unfolding keep_created
replaced old incoming = ground arith

module _ (stub : Stub) (params_json : Json GlobalParams) (asset_json : Json CiphertextAsset)
    (ids_json : Json (List Text)) where
  open stub use {State, get_state, put_state, del_state}

  abbrev pub put : Text → State → Outcome State
  put = put_ciphertext stub params_json asset_json ids_json

  abbrev pub get : Text → State → Outcome CiphertextAsset
  get = get_ciphertext stub params_json asset_json ids_json

  pub get-read :
      (id : Text) (s : State) (existing : Option Text)
      → get_state (ciphertext_key id) s ≡ ok existing
      → get id s ≡ read_asset stub params_json asset_json ids_json existing
  unfolding get_ciphertext
  get-read id s existing e = rw e

  -- The steps of a successful `PutCiphertext`.
  abbrev pub Written : CiphertextAsset → State → State → Type 0
  Written incoming s s' =
      (existing : Option Text) × (updated : CiphertextAsset) × (payload : Text) × (get_state
          (ciphertext_key incoming.id) s
        ≡ ok existing)
      × (asset_version stub params_json asset_json ids_json existing incoming ≡ done updated)
      × (asset_json.marshal updated ≡ ok payload)
      × (put_state (ciphertext_key incoming.id) payload s ≡ ok s')

  pub put-Written :
      (asset : Text) (s s' : State)
      → put asset s ≡ done s'
      → (incoming : CiphertextAsset) × (asset_json.unmarshal asset ≡ ok incoming)
        × Written incoming s s'
  unfolding put_ciphertext
  put-Written asset s s' h =
      let (incoming, e1, h1) = bind-done (wrap_error _ (asset_json.unmarshal asset)) _ h in
      let (_, e2, h2) =
        bind-done (require_id stub params_json asset_json ids_json incoming.id) _ h1 in
      let (existing, e3, h3) =
        bind-done (wrap_error _ (get_state (ciphertext_key incoming.id) s)) _ h2 in
      let (updated, e4, h4) =
        bind-done (asset_version stub params_json asset_json ids_json existing incoming) _ h3 in
      let (payload, e5, h5) = bind-done (wrap_error _ (asset_json.marshal updated)) _ h4 in
      (
        incoming,
        wrap_error-done _ (asset_json.unmarshal asset) e1,
        (
          existing,
          updated,
          payload,
          wrap_error-done _ _ e3,
          e4,
          wrap_error-done _ _ e5,
          wrap_error-done _ _ h5,
        ),
      )

  module _ (laws : StubLaws stub) (json_laws : JsonLaws asset_json) where
    pub Written-back :
        (incoming : CiphertextAsset) (s s' : State)
        → Written incoming s s'
        → (existing : Option Text) × (updated : CiphertextAsset) × (get_state
              (ciphertext_key incoming.id)
              s
            ≡ ok existing)
          × (asset_version stub params_json asset_json ids_json existing incoming ≡ done updated)
          × (get incoming.id s' ≡ done updated)
    unfolding get_ciphertext
    Written-back incoming s s' (existing, updated, payload, e1, e2, e3, e4) = (
      existing,
      updated,
      e1,
      e2,
      rw (
        laws.get-put (ciphertext_key incoming.id) payload s s' e4,
        json_laws.unmarshal-marshal updated payload e3,
      ),
    )

    version_none :
        (incoming updated : CiphertextAsset)
        → asset_version stub params_json asset_json ids_json none incoming ≡ done updated
        → updated ≡ record incoming { version = 1 }
    unfolding asset_version
    version_none incoming updated h = cc

    version_some :
        (bytes : Text) (incoming updated old : CiphertextAsset)
        → asset_version stub params_json asset_json ids_json (some bytes) incoming ≡ done updated
        → read_asset stub params_json asset_json ids_json (some bytes) ≡ done old
        → updated ≡ replaces old incoming
    unfolding asset_version read_asset
    version_some bytes incoming updated old h r =
        let (existing, e1, h1) = bind-done (wrap_error _ (asset_json.unmarshal bytes)) _ h in
        let same : existing ≡ old = ok-injective existing old (
          sym (wrap_error-done _ (asset_json.unmarshal bytes) e1)
          ∙ wrap_error-done _ (asset_json.unmarshal bytes) r) in
        done-injective _ _ (sym h1 ∙ ap done (rw same (replaced old incoming)))

    some-found :
        (bytes : Text) (incoming updated : CiphertextAsset)
        → asset_version stub params_json asset_json ids_json (some bytes) incoming ≡ done updated
        → read_asset stub params_json asset_json ids_json (some bytes) ≢ error not_found
    unfolding asset_version read_asset
    some-found bytes incoming updated h r =
        let (existing, e1, _) = bind-done (wrap_error _ (asset_json.unmarshal bytes)) _ h in
        done-ne-error existing not_found
          (sym (rw (wrap_error-done _ (asset_json.unmarshal bytes) e1)) ∙ r)

    updated_lem :
        (existing : Option Text) (incoming updated : CiphertextAsset)
        → asset_version stub params_json asset_json ids_json existing incoming ≡ done updated
        → (read_asset stub params_json asset_json ids_json existing ≡ error not_found
            → updated ≡ record incoming { version = 1 })
          × ((old : CiphertextAsset)
              → read_asset stub params_json asset_json ids_json existing ≡ done old
              → updated ≡ replaces old incoming)
    updated_lem none incoming updated h = (
      λ _. version_none incoming updated h,
      λ old r. absurd (done-ne-error old not_found (sym r ∙ unfold read_asset in refl)),
    )
    updated_lem (some bytes) incoming updated h = (
      λ r. absurd (some-found bytes incoming updated h r),
      λ old r. version_some bytes incoming updated old h r,
    )

    -- After a successful `PutCiphertext` of the JSON text of an asset: `GetCiphertext` returns the
    -- asset with version 1 if there was none of its identifier; it returns the asset with the
    -- version after that of the one that was there, and with its time of creation where the asset
    -- names none, if there was one.
    pub get_ciphertext-put_ciphertext :
        (asset : Text) (incoming : CiphertextAsset) (s s' : State)
        → asset_json.unmarshal asset ≡ ok incoming
        → put asset s ≡ done s'
        → (get incoming.id s ≡ error not_found
            → get incoming.id s' ≡ done (record incoming { version = 1 }))
          × ((old : CiphertextAsset)
              → get incoming.id s ≡ done old
              → get incoming.id s' ≡ done (replaces old incoming))
    get_ciphertext-put_ciphertext asset incoming s s' e h =
        let (incoming', e', w') = put-Written asset s s' h in
        let w : Written incoming s s' =
          subst (λ x. Written x s s') (ok-injective incoming' incoming (sym e' ∙ e)) w' in
        let (existing, updated, at, version, stored) = Written-back incoming s s' w in
        let before : get incoming.id s ≡ read_asset stub params_json asset_json ids_json existing =
          get-read incoming.id s existing at in
        let (first, later) = updated_lem existing incoming updated version in
        (
          λ r. stored ∙ ap done (first (sym before ∙ r)),
          λ old r. stored ∙ ap done (later old (sym before ∙ r)),
        )
