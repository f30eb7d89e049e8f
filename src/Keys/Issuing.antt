-- ===== src/Keys/Issuing.antt =====
-- user_client/service/key_service.go: `issueAndStore`, `RequestKey` and `RequestAutoKeys`. The server of
-- the authority is reached by HTTP; what it answers is a parameter.
use bc_abe.Common.{ℕ, not, List, [], ◌∷◌, leb, if◌then◌else◌, is_empty, Option, none, some}
use bc_abe.Text.{Text, codes, ◌=ᵗ◌, trim_space}
use bc_abe.Chaincode.Stub.{Reply}
use bc_abe.Apperr.{Error, other, wrap, unauthorized, invalid_input, fabric_network}
use bc_abe.Apperr.Answer.{Answer, answer, raise, or_raise, check, ◌>>=◌, ◌>>◌}
use bc_abe.Authority.Verify.{IssueKeyReq}
use bc_abe.Msp.PrivateKey.{KeyPem, Signing, signed, not_signed, sign_asn1}
use bc_abe.Keys.Result.{KeyError, Result, returned, refused}
use bc_abe.Keys.Account.{Config, UserAccount}
use bc_abe.Keys.Accounts.{Account}
use bc_abe.Keys.Format.{AttrSpec}
use bc_abe.Keys.Parse.{parse_attr_spec}
use bc_abe.Keys.Issue.{validate_issue_attr_org, authorize_key_issue, auto_attribute_specs}
use bc_abe.Keys.Table.{KeyTable, store_key, n_version}

-- What the services for keys read of an account.
unfoldable pub user_of : Account → UserAccount
user_of a = record { username = a.username; org_name = a.org_name; attributes = a.attributes }

-- The hash, the encodings and the server of an authority. An answer of the server is its status and
-- its text.
pub record Network : Type 0 where
  pub sha256 : List ℕ → List ℕ
  pub base64_encode : List ℕ → Text
  -- `json.Marshal(map[string]string{"attribute": attribute, "user": user})`
  pub marshal_issue : Text → Text → List ℕ
  pub post : ℕ → IssueKeyReq → Reply (ℕ × Text)
  -- `parsed["userAttrsJson"]` of the text; a missing field is the empty text.
  pub decode_key : Text → Reply Text
  -- `len(ParseUserAttrs(text).Userkey)`
  pub key_count : Text → ℕ

pub record Ports : Type 0 where
  pub auth_admin_org1_port : ℕ
  pub auth_admin_org2_port : ℕ

unfoldable pub admin_port : Ports → Text → ℕ
admin_port ports org_name =
    if org_name =ᵗ codes "org2" then ports.auth_admin_org2_port else ports.auth_admin_org1_port

unfoldable pub or_signing_error : {A : Type 0} → Signing A → Answer A
or_signing_error (signed a) = answer a
or_signing_error (not_signed e) = raise (other (codes "sign"))

unfoldable pub unless_refused : Error → Option KeyError → Answer (Unit {0})
unless_refused e none = answer tt
unless_refused e (some k) = raise e

unfoldable pub or_refused : {A : Type 0} → Error → Result A → Answer A
or_refused e (returned a) = answer a
or_refused e (refused k) = raise e

pub record AutoKeyResult : Type 0 where
  pub attribute : Text
  pub version : ℕ
  pub keys : ℕ

module _ (keys : KeyPem) (net : Network) (cfg : Config) (ports : Ports) where
  -- The request for the key of an attribute.
  unfoldable pub issue_request : Account → Text → Answer IssueKeyReq
  unfolding sign_asn1 or_signing_error
  issue_request user attribute = do
    let hash = net.sha256 (net.marshal_issue user.username attribute)
    sig ← or_signing_error (sign_asn1 keys user.key_pem hash)
    answer (record {
      user = user.username;
      attribute = attribute;
      cert_pem = user.cert_pem;
      signature = net.base64_encode sig;
      body_hash = net.base64_encode hash;
    })

  -- The text of the key that the server answers with.
  unfoldable pub read_answer : ℕ × Text → Answer Text
  unfolding trim_space
  read_answer (status, body) = do
    check (other body) (not (leb 300 status))
    text ←
        or_raise (λ t. wrap invalid_input (codes "decode auth admin response"))
          (net.decode_key body)
    check (other (codes "auth admin returned empty user key")) (not (is_empty (trim_space text)))
    answer text

  -- `issueAndStore` up to its transaction.
  unfoldable pub issue : Account → AttrSpec → Answer Text
  unfolding issue_request read_answer admin_port unless_refused validate_issue_attr_org
  issue user spec = do
    unless_refused (wrap unauthorized (codes "key issue"))
        (validate_issue_attr_org cfg user.org_name spec.issue_attr)
    req ← issue_request user spec.issue_attr
    reply ←
        or_raise (λ t. wrap fabric_network (codes "call auth admin"))
          (net.post (admin_port ports user.org_name) req)
    read_answer reply

  module _ (table : KeyTable) where
    open table use {State}

    -- The table after the transaction, and the number of keys.
    unfoldable pub issue_and_store : Account → AttrSpec → State → Answer (State × ℕ)
    unfolding issue store_key
    issue_and_store user spec s = do
      text ← issue user spec
      s' ← or_raise other (store_key table user.id spec.display_label spec.issue_attr text s)
      answer (s', net.key_count text)

    unfoldable pub auto_key_result : Account → AttrSpec → State × ℕ → AutoKeyResult
    unfolding n_version
    auto_key_result user spec (s, n) = record {
      attribute = spec.display_label;
      version = n_version table user.id spec.display_label s;
      keys = n;
    }

    -- `RequestKey` behind `GetUser`.
    unfoldable pub request_key : Account → Text → State → Answer (State × AutoKeyResult)
    unfolding issue_and_store auto_key_result or_refused unless_refused user_of parse_attr_spec
        authorize_key_issue
    request_key user attribute s = do
      spec ←
          or_refused (wrap invalid_input (codes "attribute"))
            (parse_attr_spec cfg attribute user.org_name)
      unless_refused (wrap unauthorized (codes "key issue"))
          (authorize_key_issue cfg (user_of user) spec spec.display_label)
      r ← issue_and_store user spec s
      answer (r.0, auto_key_result user spec r)

    -- The loop of `RequestAutoKeys`: the table, which keeps what was stored before an error, and the
    -- results.
    unfoldable pub issue_each :
        Account → List AttrSpec → State → State × Answer (List AutoKeyResult)
    unfolding issue_and_store auto_key_result
    issue_each user [] s = (s, answer [])
    issue_each user (spec ∷ specs) s = elim (issue_and_store user spec s) [
      | raise e ↦ (s, raise e)
      | answer r ↦
          let (s', rest) = issue_each user specs r.0 in
          (s', rest >>= λ results. answer (auto_key_result user spec r ∷ results))
    ]

    -- `RequestAutoKeys` behind `GetUser` and the reading of the hour.
    unfoldable pub request_auto_keys :
        Account → Text → ℕ → Text → State → State × Answer (List AutoKeyResult)
    unfolding issue_each auto_attribute_specs user_of
    request_auto_keys user location hour hour_op s =
        issue_each user (auto_attribute_specs cfg (user_of user) location hour hour_op) s
