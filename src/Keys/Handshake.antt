-- ===== src/Keys/Handshake.antt =====
-- user_client/service/key_service.go with auth_admin/main.go: the server of the authority issues the
-- key that the client asks it for.
use bc_abe.Common.{ℕ, true, false, ◌≡◌, refl, ap, subst, ◌∙◌, ◌⊎◌, List, some, is_empty}
use bc_abe.Text.{Text, codes}
use bc_abe.Chaincode.Stub.{Reply, ok, failed}
use bc_abe.Apperr.Answer.{answer, bind-answer, answer-injective}
use bc_abe.Authority.Engine.{Mosaic, Engine}
use bc_abe.Authority.Verify.{Pki, IssueKeyReq, passed, verify_cert_by_ca}
use bc_abe.Authority.Server.{Organization, issued, handle_issue_key, has_missing_fields}
use bc_abe.Authority.Accepts.{Accepted, handle_issue_key_lem}
use bc_abe.Msp.PrivateKey.{KeyPem, signed, sign_asn1, parse_ec_private_key_pem, of_signature}
use bc_abe.Keys.Account.{Config}
use bc_abe.Keys.Accounts.{Account}
use bc_abe.Keys.Issuing.{Network, Ports, or_signing_error, issue_request}

-- What the libraries of the two sides promise: they hash and write alike, what is encoded is decoded,
-- and a signature is verified by the public key.
pub record Matching (keys : KeyPem) (net : Network) (pki : Pki) : Type 0 where
  pub public_of : keys.PrivateKey → pki.PublicKey
  pub same_hash : (bytes : List ℕ) → net.sha256 bytes ≡ pki.sha256 bytes
  pub same_body :
      (user attribute : Text) → net.marshal_issue user attribute ≡ pki.marshal_issue user attribute
  pub decode-encode : (bytes : List ℕ) → pki.base64_decode (net.base64_encode bytes) ≡ ok bytes
  pub verify-sign :
      (key : keys.PrivateKey) (bytes sig : List ℕ)
      → keys.sign key bytes ≡ ok sig
      → pki.verify_asn1 (public_of key) bytes sig ≡ true

module _ (keys : KeyPem) (net : Network) (pki : Pki) (match : Matching keys net pki) where
  -- The account's key is the private key of its certificate.
  pub record HasPair (user : Account) : Type 0 where
    pub block : pki.Block
    pub cert : pki.Cert
    pub key : keys.PrivateKey
    pub block_eq : pki.pem_decode user.cert_pem ≡ some block
    pub cert_eq : pki.parse_certificate block ≡ ok cert
    pub public_eq : pki.ecdsa_key cert ≡ some (match.public_of key)
    pub key_eq : parse_ec_private_key_pem keys user.key_pem ≡ signed key

  signed-inv :
      (x : Reply (List ℕ)) (sig : List ℕ)
      → or_signing_error (of_signature keys x) ≡ answer sig
      → x ≡ ok sig
  unfolding of_signature or_signing_error
  signed-inv (ok s) sig h = cc
  signed-inv (failed t) sig h = cc

  signature_of :
      (key_pem : Text) (key : keys.PrivateKey) (hash sig : List ℕ)
      → parse_ec_private_key_pem keys key_pem ≡ signed key
      → or_signing_error (sign_asn1 keys key_pem hash) ≡ answer sig
      → keys.sign key hash ≡ ok sig
  unfolding sign_asn1
  signature_of key_pem key hash sig e h =
      signed-inv (keys.sign key hash) sig (rw (sign_asn1, e) at h)

  request-Accepted :
      (now : ℕ) (ca_cert : Text) (user : Account) (attribute : Text) (req : IssueKeyReq)
      → HasPair user
      → (is_empty ca_cert ≡ true) ⊎ (verify_cert_by_ca pki now user.cert_pem ca_cert ≡ passed tt)
      → (c : Config) (p : Ports) → issue_request keys net c p user attribute ≡ answer req
      → Accepted pki now ca_cert req × (req.user ≡ user.username) × (req.attribute ≡ attribute)
  unfolding issue_request
  request-Accepted now ca_cert user attribute req pair ca c p h =
      let hash : List ℕ = net.sha256 (net.marshal_issue user.username attribute) in
      let (sig, e1, e2) =
        bind-answer (or_signing_error (sign_asn1 keys user.key_pem hash)) _ req h in
      let sent : IssueKeyReq = record {
        user = user.username;
        attribute = attribute;
        cert_pem = user.cert_pem;
        signature = net.base64_encode sig;
        body_hash = net.base64_encode hash;
      } in
      let same : hash ≡ pki.sha256 (pki.marshal_issue user.username attribute) =
        match.same_hash (net.marshal_issue user.username attribute)
        ∙ ap pki.sha256 (match.same_body user.username attribute) in
      let made = signature_of user.key_pem pair.key hash sig pair.key_eq e1 in
      subst
        (λ (r : IssueKeyReq).
          Accepted pki now ca_cert r × (r.user ≡ user.username) × (r.attribute ≡ attribute))
        (answer-injective sent req e2)
        (
          (
            ca,
            match.decode-encode hash ∙ ap ok same,
            (
              pair.block,
              pair.cert,
              match.public_of pair.key,
              sig,
              pair.block_eq,
              pair.cert_eq,
              pair.public_eq,
              match.decode-encode sig,
              subst (λ b. pki.verify_asn1 (match.public_of pair.key) b sig ≡ true) same
                  (match.verify-sign pair.key hash sig made),
            ),
          ),
          refl,
          refl,
        )

  -- For an account whose key is that of its certificate, and a certificate that passes the check
  -- against that of the CA, where there is one: the server answers the request that `issueAndStore`
  -- sends, if no field of it is empty, with the key that pkg/mosaic makes by its authority for the
  -- account's user and the attribute, if pkg/mosaic makes one.
  pub handle_issue_key-issue_request :
      (mosaic : Mosaic) (now : ℕ) (ca_cert : Text) (r : mosaic.Seed) (org : Organization)
      (e : Engine mosaic) (c : Config) (p : Ports) (user : Account) (attribute : Text)
      (req : IssueKeyReq) (key : mosaic.UserAttrs)
      → HasPair user
      → (is_empty ca_cert ≡ true) ⊎ (verify_cert_by_ca pki now user.cert_pem ca_cert ≡ passed tt)
      → issue_request keys net c p user attribute ≡ answer req
      → has_missing_fields req ≡ false
      → mosaic.new_random_userkey r user.username attribute
          (mosaic.auth_prv_of_json org.auth_prv_json)
        ≡ some key
      → (handle_issue_key mosaic pki now ca_cert r (some org) (codes "POST") (ok req) e).1
        ≡ issued key
  handle_issue_key-issue_request mosaic now ca_cert r org e c p user attribute req key pair ca h
        whole made =
      let (accepted, u, a) = request-Accepted now ca_cert user attribute req pair ca c p h in
      ((handle_issue_key_lem pki mosaic now ca_cert r org req e whole).0 accepted).0 key
        (rw (u, a, made))
