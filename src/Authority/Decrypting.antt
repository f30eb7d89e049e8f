-- ===== src/Authority/Decrypting.antt =====
-- abe/engine.go: what is checked before pkg/mosaic encrypts or decrypts. A map of Go is the list of its
-- entries in the order in which the loop meets them; `none` is a nil pointer or slice.
use bc_abe.Common.{
  ℕ, zero, suc, Bool, true, false, ◌&&◌, ◌||◌, List, [], ◌∷◌, leb, if◌then◌else◌, is_empty, length,
  Option, none, some,
}
use bc_abe.Text.{Text, ◌=ᵗ◌}
use bc_abe.Policy.Scan.{ℤ, is_zero}

module _ {P : Type 0} where
  -- `ct.C[attr]`
  unfoldable pub rows_of : Text → List (Text × List (List P)) → Option (List (List P))
  rows_of attr [] = none
  rows_of attr ((a, rows) ∷ c) = if a =ᵗ attr then some rows else rows_of attr c

  -- `k < len(rows) && len(rows[k]) >= 4`
  unfoldable pub row_is_full : ℕ → List (List P) → Bool
  row_is_full k [] = false
  row_is_full zero (row ∷ rows) = leb 4 (length row)
  row_is_full (suc k) (row ∷ rows) = row_is_full k rows

  unfoldable pub has_row : ℕ → Option (List (List P)) → Bool
  unfolding row_is_full
  has_row k none = false
  has_row k (some rows) = row_is_full k rows

  -- The inner loop, from the coefficient at `k`: whether every one that is not 0 has its row.
  unfoldable pub coeffs_have_rows : ℕ → List ℤ → Option (List (List P)) → Bool
  unfolding has_row is_zero
  coeffs_have_rows k [] rows = true
  coeffs_have_rows k (coeff ∷ cs) rows =
      (is_zero coeff || has_row k rows) && coeffs_have_rows (suc k) cs rows

  -- `validateDecryptInputs` returns no error.
  unfoldable pub validate_decrypt_inputs : List (Text × List (List P)) → List (Text × List ℤ) → Bool
  unfolding coeffs_have_rows rows_of
  validate_decrypt_inputs c [] = true
  validate_decrypt_inputs c ((attr, cs) ∷ coeff) =
      coeffs_have_rows 0 cs (rows_of attr c) && validate_decrypt_inputs c coeff

-- The errors of `FillAuthPubsFromChain`, with the authority.
pub data FillError : Type 0 where
  no_authorities : FillError
  key_not_found incomplete_key other_group : Text → FillError

pub data Filled (A : Type 0) : Type 0 where
  filled : A → Filled A
  not_filled : FillError → Filled A

infixl 5 ◌>>=◌
abbrev pub ◌>>=◌ : {A B : Type 0} → Filled A → (A → Filled B) → Filled B
filled a >>= f = f a
not_filled e >>= f = not_filled e

-- `pubKeys[name]`; a missing key reads as the empty text.
unfoldable pub key_of : Text → List (Text × Text) → Text
key_of name [] = []
key_of name ((n, key) ∷ keys) = if n =ᵗ name then key else key_of name keys

-- `parse` is `ParseAuthPub`, and `org_of` the text of `SerializeOrg(authPub.Org)`, `none` where the key
-- has no organisation.
module _ {AuthPub : Type 0} (parse : Text → Option AuthPub) (org_of : AuthPub → Option Text) where
  unfoldable pub whole_key : Text → Option AuthPub → Filled (AuthPub × Text)
  whole_key name none = not_filled (incomplete_key name)
  whole_key name (some auth_pub) = elim (org_of auth_pub) [
    | none ↦ not_filled (incomplete_key name)
    | some org_json ↦ filled (auth_pub, org_json)
  ]

  unfoldable pub read_key : Text → Text → Filled (AuthPub × Text)
  unfolding whole_key
  read_key name [] = not_filled (key_not_found name)
  read_key name (c ∷ key) = whole_key name (parse (c ∷ key))

  -- `sharedOrgJSON` after an authority of the group `org_json`.
  unfoldable pub share : Text → Text → Text → Filled Text
  share name shared org_json =
      if is_empty shared
      then filled org_json
      else if org_json =ᵗ shared
      then filled shared
      else not_filled (other_group name)

  -- The loop over the names: the table of keys, and the text that they share.
  unfoldable pub fill_from :
      List (Text × Text) → Text → List Text → Filled (List (Text × AuthPub) × Text)
  unfolding read_key share key_of
  fill_from pub_keys shared [] = filled ([], shared)
  fill_from pub_keys shared (name ∷ names) = do
    (auth_pub, org_json) ← read_key name (key_of name pub_keys)
    shared' ← share name shared org_json
    (table, last) ← fill_from pub_keys shared' names
    filled ((name, auth_pub) ∷ table, last)

  -- The names are the keys of `authpubs.AuthPub`.
  unfoldable pub fill_auth_pubs_from_chain :
      List (Text × Text) → List Text → Filled (List (Text × AuthPub) × Text)
  unfolding fill_from
  fill_auth_pubs_from_chain pub_keys names =
      if is_empty names then not_filled no_authorities else fill_from pub_keys [] names
