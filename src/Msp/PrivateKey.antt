-- ===== src/Msp/PrivateKey.antt =====
-- utils/msp/key.go: private keys in PEM, and signatures by them. PEM, X.509 and ECDSA are parameters.
use bc_abe.Common.{ℕ, List, Option, none, some, if◌then◌else◌}
use bc_abe.Text.{Text, codes, ◌=ᵗ◌}
use bc_abe.Chaincode.Stub.{Reply, ok, failed}

pub record KeyPem : Type 1 where
  pub PrivateKey : Type 0
  -- `pem.Decode`: the type and the bytes of the block.
  pub decode_block : Text → Option (Text × List ℕ)
  pub parse_ec : List ℕ → Reply PrivateKey
  -- `none` is a key of another kind than ECDSA.
  pub parse_pkcs8 : List ℕ → Reply (Option PrivateKey)
  pub sign : PrivateKey → List ℕ → Reply (List ℕ)

pub data KeyPemError : Type 0 where
  invalid_pem : KeyPemError
  unsupported_type parse_failed : Text → KeyPemError
  not_ecdsa : KeyPemError
  sign_failed : Text → KeyPemError

pub data Signing (A : Type 0) : Type 0 where
  signed : A → Signing A
  not_signed : KeyPemError → Signing A

module _ (keys : KeyPem) where
  open keys use {PrivateKey, decode_block, parse_ec, parse_pkcs8, sign}

  unfoldable pub of_ec : Reply PrivateKey → Signing PrivateKey
  of_ec (ok key) = signed key
  of_ec (failed t) = not_signed (parse_failed t)

  unfoldable pub of_pkcs8 : Reply (Option PrivateKey) → Signing PrivateKey
  of_pkcs8 (ok (some key)) = signed key
  of_pkcs8 (ok none) = not_signed not_ecdsa
  of_pkcs8 (failed t) = not_signed (parse_failed t)

  -- The `default` of the switch: the one parser, then the other.
  unfoldable pub of_either :
      Text → Reply PrivateKey → Reply (Option PrivateKey) → Signing PrivateKey
  of_either block_type (ok key) r = signed key
  of_either block_type (failed t) (ok (some key)) = signed key
  of_either block_type (failed t) (ok none) = not_signed not_ecdsa
  of_either block_type (failed t) (failed t') = not_signed (unsupported_type block_type)

  unfoldable pub parse_block : Option (Text × List ℕ) → Signing PrivateKey
  unfolding of_ec of_pkcs8 of_either
  parse_block none = not_signed invalid_pem
  parse_block (some (block_type, bytes)) =
      if block_type =ᵗ codes "EC PRIVATE KEY"
      then of_ec (parse_ec bytes)
      else if block_type =ᵗ codes "PRIVATE KEY"
      then of_pkcs8 (parse_pkcs8 bytes)
      else of_either block_type (parse_ec bytes) (parse_pkcs8 bytes)

  unfoldable pub parse_ec_private_key_pem : Text → Signing PrivateKey
  unfolding parse_block
  parse_ec_private_key_pem key_pem = parse_block (decode_block key_pem)

  unfoldable pub of_signature : Reply (List ℕ) → Signing (List ℕ)
  of_signature (ok sig) = signed sig
  of_signature (failed t) = not_signed (sign_failed t)

  unfoldable pub sign_asn1 : Text → List ℕ → Signing (List ℕ)
  unfolding parse_ec_private_key_pem of_signature
  sign_asn1 key_pem hash = elim (parse_ec_private_key_pem key_pem) [
    | not_signed e ↦ not_signed e
    | signed key ↦ of_signature (sign key hash)
  ]
