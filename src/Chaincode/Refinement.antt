-- ===== src/Chaincode/Refinement.antt =====
-- chaincode/contract.go: the contract as a map of assets by their identifiers, over any sequence of
-- transactions that commit.
use bc_abe.Common.{
  ◌≡◌, ◌≢◌, ◌⊎◌, refl, sym, ap, ◌∙◌, subst, true, false, inl, inr, List, [], ◌∷◌, Option, none,
  some, if◌then◌else◌, Bool-cases,
}
use bc_abe.Text.{Text, ◌=ᵗ◌}
use bc_abe.Text.Equality.{=ᵗ→≡, =ᵗ_self}
use bc_abe.Chaincode.Stub.{ok-injective, ok, Stub, StubLaws, Json, JsonLaws, Identity}
use bc_abe.Chaincode.Contract.{
  Outcome, done, error, wrap_error, GlobalParams, CiphertextAsset, asset_version, read_asset,
  put_ciphertext, get_ciphertext, delete_ciphertext, put_global_params, not_found,
}
use bc_abe.Chaincode.Laws.{
  bind-done, wrap_error-done, put-Written, replaces, get_ciphertext-put_ciphertext, get-read,
}
use bc_abe.Chaincode.Frame.{put-frame, delete-frame, put_global_params-frame}

-- The abstract contract: a map of assets, and what is done to it.
abbrev pub AssetMap : Type 0
AssetMap = Text → Option CiphertextAsset

pub data Deed : Type 0 where
  put_asset : CiphertextAsset → Deed
  delete_asset : Text → Deed
  set_params : Deed

-- The asset that replaces another, or the first of its identifier.
unfoldable pub next_asset : Option CiphertextAsset → CiphertextAsset → CiphertextAsset
next_asset none incoming = record incoming { version = 1 }
next_asset (some old) incoming = replaces old incoming

unfoldable pub apply_deed : Deed → AssetMap → AssetMap
unfolding next_asset
apply_deed (put_asset incoming) m j =
    if j =ᵗ incoming.id then some (next_asset (m incoming.id) incoming) else m j
apply_deed (delete_asset id) m j = if j =ᵗ id then none else m j
apply_deed set_params m j = m j

-- The deeds in their order.
unfoldable pub replay : List Deed → AssetMap → AssetMap
unfolding apply_deed
replay [] m = m
replay (d ∷ ds) m = replay ds (apply_deed d m)

unfoldable pub found_asset : Outcome CiphertextAsset → Option CiphertextAsset
found_asset (done a) = some a
found_asset (error e) = none

false-ne-true : false ≡ true → ⊥
false-ne-true h = cc

not_same : (j k : Text) → (j =ᵗ k) ≡ false → j ≢ k
not_same j k f e =
    let t : (j =ᵗ k) ≡ true = subst (λ x. (j =ᵗ x) ≡ true) e (=ᵗ_self j) in
    false-ne-true (sym f ∙ t)

module _ (stub : Stub) (params_json : Json GlobalParams) (asset_json : Json CiphertextAsset)
    (ids_json : Json (List Text)) where
  open stub use {State, get_state}

  abbrev get : Text → State → Outcome CiphertextAsset
  get = get_ciphertext stub params_json asset_json ids_json

  -- What the contract answers, as a map.
  unfoldable pub assets_of : State → AssetMap
  unfolding found_asset
  assets_of s j = found_asset (get j s)

  -- A transaction that commits, and what it does.
  pub data Committed (s s' : State) : Deed → Type 0 where
    put_committed :
        (text : Text) (incoming : CiphertextAsset)
        → asset_json.unmarshal text ≡ ok incoming
        → put_ciphertext stub params_json asset_json ids_json text s ≡ done s'
        → Committed s s' (put_asset incoming)
    delete_committed :
        (id : Text)
        → delete_ciphertext stub params_json asset_json ids_json id s ≡ done s'
        → Committed s s' (delete_asset id)
    params_committed :
        (identity : Identity) (text : Text)
        → put_global_params stub params_json asset_json ids_json identity text s ≡ done s'
        → Committed s s' set_params

  pub data History : State → State → List Deed → Type 0 where
    start : {s : State} → History s s []
    then_committed :
        {s t u : State} {d : Deed} {ds : List Deed}
        → Committed s t d
        → History t u ds
        → History s u (d ∷ ds)

  module _ (laws : StubLaws stub) (json_laws : JsonLaws asset_json) where
    -- A write commits only where what is there is an asset or nothing.
    readable :
        (existing : Option Text) (incoming updated : CiphertextAsset)
        → asset_version stub params_json asset_json ids_json existing incoming ≡ done updated
        → (read_asset stub params_json asset_json ids_json existing ≡ error not_found)
          ⊎ ((old : CiphertextAsset) × (read_asset stub params_json asset_json ids_json existing
                ≡ done old))
    unfolding asset_version read_asset
    readable none incoming updated h = inl refl
    readable (some bytes) incoming updated h =
        let (old, e, _) = bind-done (wrap_error _ (asset_json.unmarshal bytes)) _ h in
        inr (old, rw (wrap_error-done _ (asset_json.unmarshal bytes) e))

    next_read :
        (id : Text) (s s' : State) (incoming : CiphertextAsset)
        → (get id s ≡ error not_found) ⊎ ((old : CiphertextAsset) × (get id s ≡ done old))
        → (get id s ≡ error not_found → get id s' ≡ done (record incoming { version = 1 }))
        → ((old : CiphertextAsset) → get id s ≡ done old → get id s' ≡ done (replaces old incoming))
        → assets_of s' id ≡ some (next_asset (assets_of s id) incoming)
    unfolding assets_of found_asset next_asset
    next_read id s s' incoming (inl e) first later =
        ap found_asset (first e) ∙ ap (λ o. some (next_asset (found_asset o) incoming)) (sym e)
    next_read id s s' incoming (inr (old, e)) first later =
        ap found_asset (later old e) ∙ ap (λ o. some (next_asset (found_asset o) incoming)) (sym e)

    put-assets :
        (text : Text) (incoming : CiphertextAsset) (s s' : State)
        → asset_json.unmarshal text ≡ ok incoming
        → put_ciphertext stub params_json asset_json ids_json text s ≡ done s'
        → assets_of s' incoming.id ≡ some (next_asset (assets_of s incoming.id) incoming)
    put-assets text incoming s s' e h =
        let (found, e', (existing, updated, _, at, version, _, _)) =
          put-Written stub params_json asset_json ids_json text s s' h in
        let same : found ≡ incoming = ok-injective found incoming (sym e' ∙ e) in
        let (first, later) =
          get_ciphertext-put_ciphertext stub params_json asset_json ids_json laws json_laws text
            incoming s s' e h in
        next_read incoming.id s s' incoming
          (subst
            (λ (x : CiphertextAsset).
              (get x.id s ≡ error not_found) ⊎ ((old : CiphertextAsset) × (get x.id s ≡ done old)))
            same
            (subst (λ o. (o ≡ error not_found) ⊎ ((old : CiphertextAsset) × (o ≡ done old)))
              (sym (get-read stub params_json asset_json ids_json found.id s existing at))
              (readable existing found updated version)))
          first later

    commit-apply :
        {s s' : State} {d : Deed}
        → Committed s s' d
        → (j : Text) → assets_of s' j ≡ apply_deed d (assets_of s) j
    unfolding apply_deed
    commit-apply {s} {s'} (put_committed text incoming e h) j =
        elim (Bool-cases (j =ᵗ incoming.id)) [
          | inl t ↦
              rw t (ap (assets_of s') (=ᵗ→≡ j incoming.id t) ∙ put-assets text incoming s s' e h)
          | inr f ↦ rw f (
              unfold assets_of in
              ap found_asset (
                (put-frame stub params_json asset_json ids_json laws text incoming s s' e h).0 j
                  (not_same j incoming.id f)))
        ]
    commit-apply {s} {s'} (delete_committed id h) j = elim (Bool-cases (j =ᵗ id)) [
      | inl t ↦ rw t (
          unfold assets_of found_asset in
          ap (λ i. found_asset (get i s')) (=ᵗ→≡ j id t)
          ∙ ap found_asset (delete-frame stub params_json asset_json ids_json laws id s s' h).0)
      | inr f ↦ rw f (
          unfold assets_of in
          ap found_asset (
            (delete-frame stub params_json asset_json ids_json laws id s s' h).1 j
              (not_same j id f)))
    ]
    commit-apply {s} {s'} (params_committed identity text h) j =
        unfold assets_of in
        ap found_asset (
          (put_global_params-frame stub params_json asset_json ids_json laws identity text s s' h).1
            j)

    -- The contract refines the map of assets: after any sequence of transactions that commit, what
    -- `GetCiphertext` finds at each identifier is what the map holds there after the same writes and
    -- deletions in their order, from what was found before. Writes of the parameters change nothing
    -- of it.
    pub assets_of-replay :
        {s u : State} {ds : List Deed} → History s u ds → assets_of u ≡ replay ds (assets_of s)
    unfolding replay
    assets_of-replay start = refl
    assets_of-replay (then_committed {ds} c h) =
        assets_of-replay h ∙ ap (replay ds) (λ i j. commit-apply c j i)
