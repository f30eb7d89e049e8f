-- ===== src/Authority/Encrypting.antt =====
-- abe/engine.go: `Encrypt`, whose panics are recovered, and `SymKeyFromSecret`.
use bc_abe.Common.{Bool, true, false, ◌&&◌, not, List, [], ◌∷◌, is_empty, Option, none, some}
use bc_abe.Text.{Text, codes}
use bc_abe.Apperr.{Error, sentinel, other, wrap, invalid_policy}
use bc_abe.Apperr.Answer.{Answer, answer, raise, check, ◌>>=◌, ◌>>◌}
use bc_abe.Policy.Normalize.{normalize_policy_syntax}
use bc_abe.Authority.Engine.{Mosaic}

-- What `Encrypt` uses of pkg/mosaic; `none` is a nil error, a nil pointer, or a panic of `encrypt`.
pub record Encryption (mosaic : Mosaic) : Type 1 where
  pub Ciphertext : Type 0
  pub validate_access_policy : Text → Option Text
  pub auth_names_of_policy : Text → List Text
  pub org_of_auth_pub : mosaic.AuthPub → Option mosaic.Org
  -- `GetOrgFromAuthPubs`
  pub org_of_auth_pubs : List (Text × Option mosaic.AuthPub) → Option mosaic.Org
  pub encrypt :
      mosaic.Seed → mosaic.Point → Text → List (Text × Option mosaic.AuthPub) → Option Ciphertext
  -- `secret.ToJsonObj().GetP()`; `none` where there is no object.
  pub point_text : mosaic.Point → Option Text
  pub sha256 : Text → Text

abbrev pub encrypt_failed : Error
encrypt_failed = wrap invalid_policy (codes "encrypt")

abbrev pub present : {A : Type 0} → Error → Option A → Answer A
present e (some a) = answer a
present e none = raise e

module _ (mosaic : Mosaic) (encryption : Encryption mosaic) where
  open mosaic use {Seed, Point, Org, AuthPub, org_curve}
  open encryption use {
    Ciphertext, validate_access_policy, auth_names_of_policy, org_of_auth_pub, org_of_auth_pubs,
    encrypt, point_text, sha256,
  }

  -- `org == nil || org.Crv == nil` is false.
  unfoldable pub has_curve : Option Org → Bool
  has_curve none = false
  has_curve (some org) = elim (org_curve org) [ none ↦ false | some curve ↦ true ]

  unfoldable pub is_complete : Option AuthPub → Bool
  unfolding has_curve
  is_complete none = false
  is_complete (some auth_pub) = has_curve (org_of_auth_pub auth_pub)

  unfoldable pub all_complete : List (Text × Option AuthPub) → Bool
  unfolding is_complete
  all_complete [] = true
  all_complete ((name, auth_pub) ∷ table) = is_complete auth_pub && all_complete table

  unfoldable pub valid_policy : Option Text → Answer (Unit {0})
  valid_policy none = answer tt
  valid_policy (some t) = raise (wrap invalid_policy (codes "validate"))

  -- `authpubs == nil || len(authpubs.AuthPub) == 0`
  unfoldable pub keys_of :
      Option (List (Text × Option AuthPub)) → Answer (List (Text × Option AuthPub))
  keys_of none = raise encrypt_failed
  keys_of (some []) = raise encrypt_failed
  keys_of (some (entry ∷ table)) = answer (entry ∷ table)

  unfoldable pub engine_encrypt :
      Seed → Option Point → Text → Option (List (Text × Option AuthPub)) → Answer Ciphertext
  unfolding valid_policy keys_of has_curve all_complete normalize_policy_syntax
  engine_encrypt r secret policy auth_pubs = do
    point ← present (sentinel invalid_policy) secret
    p ← present encrypt_failed (normalize_policy_syntax policy)
    valid_policy (validate_access_policy p)
    check (sentinel invalid_policy) (not (is_empty (auth_names_of_policy p)))
    table ← keys_of auth_pubs
    check encrypt_failed (has_curve (org_of_auth_pubs table))
    check encrypt_failed (all_complete table)
    present encrypt_failed (encrypt r point p table)

  unfoldable pub key_of_text : Option Text → Answer Text
  key_of_text none = raise (other (codes "invalid abe secret"))
  key_of_text (some []) = raise (other (codes "empty abe secret encoding"))
  key_of_text (some (c ∷ t)) = answer (sha256 (c ∷ t))

  unfoldable pub sym_key_from_secret : Option Point → Answer Text
  unfolding key_of_text
  sym_key_from_secret none = raise (other (codes "nil abe secret"))
  sym_key_from_secret (some secret) = key_of_text (point_text secret)
