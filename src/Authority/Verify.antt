-- ===== src/Authority/Verify.antt =====
-- utils/msp/verify.go: `VerifyCertByCA`; auth_admin/main.go: the checks of a request for a key. PEM,
-- X.509, ECDSA, SHA-256, Base64 and JSON are parameters.
use bc_abe.Common.{
  ℕ, Bool, true, false, ◌||◌, not, List, ltb, if◌then◌else◌, is_empty, Option, none, some,
}
use bc_abe.Text.{Text, codes, ◌=ᵗ◌}
use bc_abe.Chaincode.Stub.{Reply, ok, failed}
use bc_abe.Apperr.{Error, sentinel, wrapped, unauthorized, invalid_input, wrap}

pub record Pki : Type 1 where
  pub Block : Type 0
  pub Cert : Type 0
  pub PublicKey : Type 0
  pub pem_decode : Text → Option Block
  pub parse_certificate : Block → Reply Cert
  pub not_before : Cert → ℕ
  pub not_after : Cert → ℕ
  -- `userCert.Verify` with the second certificate as the one root, at a time
  pub verify_chain : ℕ → Cert → Cert → Reply (Unit {0})
  -- `cert.PublicKey.(*ecdsa.PublicKey)`
  pub ecdsa_key : Cert → Option PublicKey
  pub verify_asn1 : PublicKey → List ℕ → List ℕ → Bool
  pub base64_decode : Text → Reply (List ℕ)
  pub sha256 : List ℕ → List ℕ
  -- `json.Marshal(map[string]string{"attribute": attribute, "user": user})`
  pub marshal_issue : Text → Text → List ℕ

pub data Checked (A : Type 0) : Type 0 where
  passed : A → Checked A
  stopped : Error → Checked A

infixl 5 ◌>>=◌
abbrev pub ◌>>=◌ : {A B : Type 0} → Checked A → (A → Checked B) → Checked B
passed a >>= f = f a
stopped e >>= f = stopped e

unfoldable pub wrap_reply : {A : Type 0} → Error → Reply A → Checked A
wrap_reply e (ok a) = passed a
wrap_reply e (failed t) = stopped e

unfoldable pub present : {A : Type 0} → Error → Option A → Checked A
present e (some a) = passed a
present e none = stopped e

-- `if !test { return err }`
unfoldable pub require : Error → Bool → Checked (Unit {0})
require e true = passed tt
require e false = stopped e

abbrev pub denied : Error
denied = sentinel unauthorized

pub record IssueKeyReq : Type 0 where
  pub user : Text
  pub attribute : Text
  pub cert_pem : Text
  pub signature : Text
  pub body_hash : Text

-- The message that `verifyUser` puts before the error of a certificate.
unfoldable pub outdated : Checked (Unit {0}) → Checked (Unit {0})
outdated (passed t) = passed t
outdated (stopped e) = stopped (wrapped e (codes "用户证书与当前 Fabric CA 不一致"))

module _ (pki : Pki) where
  open pki use {
    Cert, pem_decode, parse_certificate, not_before, not_after, verify_chain, ecdsa_key,
    verify_asn1, base64_decode, sha256, marshal_issue,
  }

  unfoldable pub in_time : ℕ → Cert → Bool
  in_time now cert = not (ltb now (not_before cert) || ltb (not_after cert) now)

  unfoldable pub verify_cert_by_ca : ℕ → Text → Text → Checked (Unit {0})
  unfolding present wrap_reply require in_time wrap
  verify_cert_by_ca now user_cert_pem ca_cert_pem = do
    user_block ← present denied (pem_decode user_cert_pem)
    user_cert ←
        wrap_reply (wrap unauthorized (codes "parse user cert")) (parse_certificate user_block)
    _ ← require denied (in_time now user_cert)
    ca_block ← present (wrap unauthorized (codes "parse ca cert")) (pem_decode ca_cert_pem)
    ca_cert ← wrap_reply (wrap unauthorized (codes "parse ca cert")) (parse_certificate ca_block)
    wrap_reply (wrap unauthorized (codes "cert not issued by org ca"))
        (verify_chain now user_cert ca_cert)

  unfoldable pub verify_signature : Text → Text → Text → Checked (Unit {0})
  unfolding present wrap_reply require wrap
  verify_signature cert_pem body_hash_b64 sig_b64 = do
    block ← present denied (pem_decode cert_pem)
    cert ← wrap_reply (wrap unauthorized (codes "parse cert")) (parse_certificate block)
    key ← present denied (ecdsa_key cert)
    body_hash ←
        wrap_reply (wrap invalid_input (codes "decode body hash")) (base64_decode body_hash_b64)
    sig ← wrap_reply (wrap invalid_input (codes "decode signature")) (base64_decode sig_b64)
    require denied (verify_asn1 key body_hash sig)

  unfoldable pub verify_request_hash : Text → Text → Text → Checked (Unit {0})
  unfolding wrap_reply require wrap
  verify_request_hash user attribute body_hash_b64 = do
    actual ←
        wrap_reply (wrap invalid_input (codes "decode body hash")) (base64_decode body_hash_b64)
    require denied (actual =ᵗ sha256 (marshal_issue user attribute))

  -- An empty text is a certificate of the CA that could not be loaded.
  unfoldable pub verify_user : ℕ → Text → IssueKeyReq → Checked (Unit {0})
  unfolding outdated verify_cert_by_ca verify_request_hash verify_signature
  verify_user now ca_cert req = do
    _ ←
        (if is_empty ca_cert
          then passed tt
          else outdated (verify_cert_by_ca now req.cert_pem ca_cert))
    _ ← verify_request_hash req.user req.attribute req.body_hash
    verify_signature req.cert_pem req.body_hash req.signature
