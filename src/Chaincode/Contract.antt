-- ===== src/Chaincode/Contract.antt =====
-- chaincode/contract.go, method by method. A transaction goes from the world state before it to a
-- new one or to an error, on which nothing is committed.
use mathlib.Core.List.{map}
use bc_abe.Common.{
  ℕ, ◌+◌, ◌%◌, ◌^◌, Bool, true, false, ◌&&◌, ◌||◌, not, List, [], ◌∷◌, ◌++◌, Option, none, some,
  is_empty, ltb, if◌then◌else◌, length,
}
use bc_abe.Text.{Text, codes, ◌=ᵗ◌, to_lower, contains, equal_fold}
use bc_abe.Chaincode.Stub.{Reply, ok, failed, Stub, Json, Certificate, Identity}

-- The errors of the contract, with the error that they wrap.
pub data ContractError : Type 0 where
  read_cert read_msp_id : Text → ContractError
  permission_denied : ContractError
  invalid_json get_failed decode_existing marshal_failed put_failed : Text → ContractError
  id_required not_found : ContractError
  decode_failed delete_failed range_failed : Text → ContractError

pub data Outcome (A : Type 0) : Type 0 where
  done : A → Outcome A
  error : ContractError → Outcome A

infixl 5 ◌>>=◌
abbrev pub ◌>>=◌ : {A B : Type 0} → Outcome A → (A → Outcome B) → Outcome B
done a >>= f = f a
error e >>= f = error e

-- `if err != nil { return fmt.Errorf("...: %w", err) }`
unfoldable pub wrap_error : {A : Type 0} → (Text → ContractError) → Reply A → Outcome A
wrap_error e (ok a) = done a
wrap_error e (failed t) = error (e t)

-- A version is an `int` of 64 bits, as its bit pattern.
pub record GlobalParams : Type 0 where
  pub id : Text
  pub version : ℕ
  pub curve : Text
  pub org_pub_keys : List (Text × Text)
  pub updated_at : Text

pub record CiphertextAsset : Type 0 where
  pub id : Text
  pub version : ℕ
  pub policy : Text
  pub ciphertext : Text
  pub owner : Text
  pub created_at : Text
  pub updated_at : Text

abbrev pub key_global_params : Text
key_global_params = codes "GLOBAL_PARAMS"

abbrev pub ciphertext_prefix : Text
ciphertext_prefix = codes "CT::"

unfoldable pub ciphertext_key : Text → Text
ciphertext_key id = ciphertext_prefix ++ id

unfoldable pub drop_prefix : Text → Text → Text
drop_prefix [] key = key
drop_prefix (c ∷ p) [] = []
drop_prefix (c ∷ p) (d ∷ key) = drop_prefix p key

-- A key no longer than the prefix is returned as it is.
unfoldable pub trim_ciphertext_key : Text → Text
unfolding drop_prefix
trim_ciphertext_key key =
    if ltb (length ciphertext_prefix) (length key) then drop_prefix ciphertext_prefix key else key

-- `existing.Version + 1`
unfoldable pub next_version : ℕ → ℕ
next_version v = (v + 1) % 2 ^ 64

any_admin_unit : List Text → Bool
unfolding equal_fold
any_admin_unit [] = false
any_admin_unit (ou ∷ ous) = equal_fold ou (codes "admin") || any_admin_unit ous

unfoldable pub certifies_admin : Certificate → Bool
unfolding any_admin_unit to_lower contains
certifies_admin cert =
    contains (to_lower cert.common_name) (codes "admin") || any_admin_unit cert.organizational_units

unfoldable pub is_admin : Identity → Outcome Bool
unfolding certifies_admin wrap_error
is_admin id = do
  cert ← wrap_error read_cert id.certificate
  msp_id ← wrap_error read_msp_id id.msp_id
  done (
      if not (msp_id =ᵗ codes "Org1MSP") && not (msp_id =ᵗ codes "Org2MSP")
      then false
      else certifies_admin cert)

-- `if incoming.ID == "" { incoming.ID = keyGlobalParams }`
unfoldable pub default_id : GlobalParams → GlobalParams
default_id p = if is_empty p.id then record p { id = key_global_params } else p

-- `if incoming.CreatedAt == "" { incoming.CreatedAt = existing.CreatedAt }`
unfoldable pub keep_created : CiphertextAsset → CiphertextAsset → CiphertextAsset
keep_created existing incoming =
    if is_empty incoming.created_at
    then record incoming { created_at = existing.created_at }
    else incoming

module _ (stub : Stub) (params_json : Json GlobalParams) (asset_json : Json CiphertextAsset)
    (ids_json : Json (List Text)) where
  open stub use {State, get_state, put_state, del_state, keys_in_range}

  unfoldable pub require_admin : Bool → Outcome (Unit {0})
  require_admin true = done tt
  require_admin false = error permission_denied

  -- The version of the parameters that replace those at hand.
  unfoldable pub params_version : Option Text → GlobalParams → Outcome GlobalParams
  unfolding next_version
  params_version none incoming = done (record incoming { version = 1 })
  params_version (some bytes) incoming = do
    existing ← wrap_error decode_existing (params_json.unmarshal bytes)
    done (record incoming { version = next_version existing.version })

  unfoldable pub put_global_params : Identity → Text → State → Outcome State
  unfolding is_admin require_admin params_version default_id wrap_error
  put_global_params identity params s = do
    admin ← is_admin identity
    _ ← require_admin admin
    incoming ← wrap_error invalid_json (params_json.unmarshal params)
    existing ← wrap_error get_failed (get_state key_global_params s)
    updated ← params_version existing (default_id incoming)
    payload ← wrap_error marshal_failed (params_json.marshal updated)
    wrap_error put_failed (put_state key_global_params payload s)

  unfoldable pub read_params : Option Text → Outcome GlobalParams
  read_params none = error not_found
  read_params (some bytes) = wrap_error decode_failed (params_json.unmarshal bytes)

  unfoldable pub get_global_params : State → Outcome GlobalParams
  unfolding read_params wrap_error
  get_global_params s = do
    bytes ← wrap_error get_failed (get_state key_global_params s)
    read_params bytes

  unfoldable pub require_id : Text → Outcome (Unit {0})
  require_id [] = error id_required
  require_id (c ∷ id) = done tt

  -- The asset that replaces the one at hand.
  unfoldable pub asset_version : Option Text → CiphertextAsset → Outcome CiphertextAsset
  unfolding next_version keep_created wrap_error
  asset_version none incoming = done (record incoming { version = 1 })
  asset_version (some bytes) incoming = do
    existing ← wrap_error decode_existing (asset_json.unmarshal bytes)
    done (keep_created existing (record incoming { version = next_version existing.version }))

  unfoldable pub put_ciphertext : Text → State → Outcome State
  unfolding require_id asset_version ciphertext_key wrap_error
  put_ciphertext asset s = do
    incoming ← wrap_error invalid_json (asset_json.unmarshal asset)
    _ ← require_id incoming.id
    existing ← wrap_error get_failed (get_state (ciphertext_key incoming.id) s)
    updated ← asset_version existing incoming
    payload ← wrap_error marshal_failed (asset_json.marshal updated)
    wrap_error put_failed (put_state (ciphertext_key incoming.id) payload s)

  unfoldable pub read_asset : Option Text → Outcome CiphertextAsset
  unfolding wrap_error
  read_asset none = error not_found
  read_asset (some bytes) = wrap_error decode_failed (asset_json.unmarshal bytes)

  unfoldable pub get_ciphertext : Text → State → Outcome CiphertextAsset
  unfolding read_asset ciphertext_key wrap_error
  get_ciphertext id s = do
    bytes ← wrap_error get_failed (get_state (ciphertext_key id) s)
    read_asset bytes

  unfoldable pub delete_ciphertext : Text → State → Outcome State
  unfolding ciphertext_key wrap_error
  delete_ciphertext id s = wrap_error delete_failed (del_state (ciphertext_key id) s)

  -- The identifiers before they are marshalled.
  unfoldable pub ciphertext_ids : State → Outcome (List Text)
  unfolding trim_ciphertext_key wrap_error
  ciphertext_ids s = do
    keys ← wrap_error range_failed (keys_in_range ciphertext_prefix (codes "CT;") s)
    done (map trim_ciphertext_key keys)

  unfoldable pub list_ciphertext_ids : State → Outcome Text
  unfolding ciphertext_ids wrap_error
  list_ciphertext_ids s = do
    ids ← ciphertext_ids s
    wrap_error marshal_failed (ids_json.marshal ids)
