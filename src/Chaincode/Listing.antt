-- ===== src/Chaincode/Listing.antt =====
-- chaincode/contract.go: `ListCiphertextIDs` against `GetCiphertext`, and the keys of ciphertexts.
use mathlib.Core.List.{map}
use bc_abe.Common.{
  ◌<◌, sym, ℕ, suc, Bool, true, ◌&&◌, ◌||◌, not, ◌≡◌, ◌≢◌, refl, ap, ◌∙◌, subst, List, [], ◌∷◌,
  Option, none, some, ltb, length, arith, Bool-cases, inl, inr,
}
use bc_abe.Text.{Text, codes, ◌=ᵗ◌}
use bc_abe.Text.Equality.{=ᵗ→≡, =ᵗ_self}
use bc_abe.Chaincode.Stub.{ok, Stub, StubLaws, Json, text_lt, is_among}
use bc_abe.Chaincode.Contract.{
  done, wrap_error, GlobalParams, CiphertextAsset, ciphertext_prefix, ciphertext_key,
  trim_ciphertext_key, read_asset, get_ciphertext, ciphertext_ids,
}
use bc_abe.Chaincode.Laws.{bind-done, wrap_error-done, done-injective}

four_and_more : (n : ℕ) → ltb 4 (suc (suc (suc (suc (suc n))))) ≡ true
four_and_more n = ground arith

-- The key of an identifier that is not empty gives the identifier back.
trim-ciphertext_key : (id : Text) → id ≢ [] → trim_ciphertext_key (ciphertext_key id) ≡ id
unfolding trim_ciphertext_key ciphertext_key
trim-ciphertext_key [] h = absurd (h refl)
trim-ciphertext_key (c ∷ id) h = rw (four_and_more (length id))

-- The key of any identifier lies in the range that is listed.
key_in_range :
    (id : Text)
    → (not (text_lt (ciphertext_key id) ciphertext_prefix)
        && text_lt (ciphertext_key id) (codes "CT;"))
      ≡ true
unfolding text_lt ciphertext_key
key_in_range id = refl

among-map :
    (f : Text → Text) (k : Text) (ks : List Text)
    → is_among k ks ≡ true
    → is_among (f k) (map f ks) ≡ true
unfolding is_among
among-map f k [] h = cc
among-map f k (j ∷ ks) h = elim (Bool-cases (k =ᵗ j)) [
  | inl e ↦ rw (← =ᵗ→≡ k j e, =ᵗ_self (f k))
  | inr n ↦ or_true (f k =ᵗ f j) (among-map f k ks (rw (n, is_among) at h))
]
  where
    or_true : (b : Bool) {c : Bool} → c ≡ true → (b || c) ≡ true
    or_true b e = ground arith

length-map : (f : Text → Text) (ks : List Text) → length (map f ks) ≡ length ks
length-map f [] = refl
length-map f (k ∷ ks) = ap suc (length-map f ks)

module _ (stub : Stub) (params_json : Json GlobalParams) (asset_json : Json CiphertextAsset)
    (ids_json : Json (List Text)) (laws : StubLaws stub) where
  open stub use {State, get_state, keys_in_range}

  stored_bytes :
      (id : Text) (a : CiphertextAsset) (s : State)
      → get_ciphertext stub params_json asset_json ids_json id s ≡ done a
      → (bytes : Text) × (get_state (ciphertext_key id) s ≡ ok (some bytes))
  unfolding get_ciphertext
  stored_bytes id a s h =
      let (found, e1, h1) = bind-done (wrap_error _ (get_state (ciphertext_key id) s)) _ h in
      let (bytes, e2) = is_stored found h1 in (bytes, wrap_error-done _ _ e1 ∙ ap ok e2)
    where
      is_stored :
          (found : Option Text)
          → read_asset stub params_json asset_json ids_json found ≡ done a
          → (bytes : Text) × (found ≡ some bytes)
      is_stored none e = unfold read_asset in cc
      is_stored (some bytes) e = (bytes, refl)

  -- Every identifier, not empty, at which `GetCiphertext` returns an asset is among those that
  -- `ListCiphertextIDs` marshals, if these are fewer than the limit at which the peer ends a query.
  pub listed_of_stored :
      (id : Text) (a : CiphertextAsset) (s : State) (ids : List Text)
      → id ≢ []
      → get_ciphertext stub params_json asset_json ids_json id s ≡ done a
      → ciphertext_ids stub params_json asset_json ids_json s ≡ done ids
      → length ids < stub.query_limit
      → is_among id ids ≡ true
  unfolding ciphertext_ids
  listed_of_stored id a s ids ne g l short =
      let (bytes, at) = stored_bytes id a s g in
      let (keys, e1, e2) =
        bind-done (wrap_error _ (keys_in_range ciphertext_prefix (codes "CT;") s)) _ l in
      let few : length keys < stub.query_limit =
        subst (λ n. n < stub.query_limit)
          (sym (ap length (done-injective _ ids e2)) ∙ length-map trim_ciphertext_key keys) short in
      let here : is_among (ciphertext_key id) keys ≡ true =
        laws.range_iff ciphertext_prefix (codes "CT;") (ciphertext_key id) bytes s keys
          (wrap_error-done _ _ e1) few at
        ∙ key_in_range id in
      subst (λ l. is_among id l ≡ true) (done-injective _ ids e2)
        (subst (λ t. is_among t (map trim_ciphertext_key keys) ≡ true) (trim-ciphertext_key id ne)
          (among-map trim_ciphertext_key (ciphertext_key id) keys here))
