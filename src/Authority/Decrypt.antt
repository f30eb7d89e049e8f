-- ===== src/Authority/Decrypt.antt =====
-- abe/engine.go: `Decrypt`, and `NormalizeUserAttrs` and `NormalizeCiphertext` of abe/policy.go, which
-- it calls first. `none` at the outside is a panic.
use bc_abe.Common.{ℕ, List, [], ◌∷◌, if◌then◌else◌, length, Option, none, some}
use bc_abe.Text.{Text}
use bc_abe.Policy.Scan.{ℤ}
use bc_abe.Policy.Normalize.{normalize_policy_syntax}
use bc_abe.Policy.Missing.{normalized_names, normalize_ciphertext, policy_missing_user_keys}
use bc_abe.Authority.Decrypting.{validate_decrypt_inputs}

-- What the engine reads of `mosaic.Ciphertext` and of `mosaic.UserAttrs`.
pub record CiphertextData (P : Type 0) : Type 0 where
  pub policy : Text
  pub c : List (Text × List (List P))

pub record UserKeys (K : Type 0) : Type 0 where
  pub user : Text
  pub coeff : List (Text × List ℤ)
  pub userkey : List (Text × K)

pub data DecryptError : Type 0 where
  nil_input : DecryptError
  missing_keys : ℕ → DecryptError
  mismatch : DecryptError

pub data Decrypted (S : Type 0) : Type 0 where
  secret : S → Decrypted S
  not_decrypted : DecryptError → Decrypted S

unfoldable pub normalize_user_attrs : {K : Type 0} → UserKeys K → UserKeys K
unfolding normalized_names
normalize_user_attrs attrs = record attrs {
  coeff = normalized_names [] attrs.coeff;
  userkey = normalized_names [] attrs.userkey;
}

abbrev pub names_of : {K : Type 0} → List (Text × K) → List Text
names_of [] = []
names_of ((name, key) ∷ userkey) = name ∷ names_of userkey

-- `policy_vars` is `mosaic.PolicyVars`, `select` what `SelectUserAttrs` makes of the coefficients, and
-- `open_ct` is `mosaic.Decrypt`.
module _ {P K S : Type 0} (policy_vars : Text → List Text) (select : Text → UserKeys K → UserKeys K)
    (open_ct : CiphertextData P → UserKeys K → S) where
  -- Behind the test for missing keys.
  unfoldable pub decrypt_selected : CiphertextData P → UserKeys K → Decrypted S
  unfolding validate_decrypt_inputs
  decrypt_selected ct attrs =
      if validate_decrypt_inputs ct.c attrs.coeff
      then secret (open_ct ct attrs)
      else not_decrypted mismatch

  unfoldable pub decrypt_unless_missing :
      Text → CiphertextData P → UserKeys K → List Text → Decrypted S
  unfolding decrypt_selected
  decrypt_unless_missing policy ct attrs [] = decrypt_selected ct (select policy attrs)
  decrypt_unless_missing policy ct attrs (attr ∷ missing) =
      not_decrypted (missing_keys (length (attr ∷ missing)))

  -- `normalized` is the ciphertext behind `NormalizeCiphertext`, whose policy is normalised once more.
  unfoldable pub decrypt_normalized : CiphertextData P → UserKeys K → Option (Decrypted S)
  unfolding decrypt_unless_missing policy_missing_user_keys normalize_policy_syntax
  decrypt_normalized ct attrs = elim (normalize_policy_syntax ct.policy) [
    | none ↦ none
    | some policy ↦
        elim (policy_missing_user_keys policy_vars policy (some (names_of attrs.userkey))) [
          | none ↦ none
          | some missing ↦ some (decrypt_unless_missing policy ct attrs missing)
        ]
  ]

  unfoldable pub engine_decrypt :
      Option (CiphertextData P) → Option (UserKeys K) → Option (Decrypted S)
  unfolding decrypt_normalized normalize_user_attrs normalize_ciphertext
  engine_decrypt none attrs = some (not_decrypted nil_input)
  engine_decrypt (some ct) none = some (not_decrypted nil_input)
  engine_decrypt (some ct) (some attrs) =
      elim (normalize_ciphertext (record { policy = ct.policy; c = ct.c })) [
        | none ↦ none
        | some names ↦
            decrypt_normalized (record { policy = names.policy; c = names.c })
              (normalize_user_attrs attrs)
      ]
