-- ===== src/Authority/Server.antt =====
-- auth_admin/main.go: `handleIssueKey`.
use bc_abe.Common.{ℕ, Bool, ◌||◌, not, if◌then◌else◌, is_empty, Option, none, some}
use bc_abe.Text.{Text, codes, ◌=ᵗ◌}
use bc_abe.Chaincode.Stub.{Reply, ok, failed}
use bc_abe.Apperr.{Error}
use bc_abe.Authority.Engine.{
  Mosaic, EngineError, EngineResult, made, not_made, Engine, load_org_from_json,
  load_auth_from_json, issue_user_key,
}
use bc_abe.Authority.Verify.{Pki, Checked, passed, stopped, IssueKeyReq, verify_user}

-- What the handler reads of `db.Organization`.
pub record Organization : Type 0 where
  pub org_json : Text
  pub auth_pub_json : Text
  pub auth_prv_json : Text

-- The responses that tell an error, with what the source writes into them.
pub data Refusal : Type 0 where
  method_not_allowed invalid_json missing_fields : Refusal
  not_verified : Error → Refusal
  not_initialized : Refusal
  no_key : EngineError → Refusal

unfoldable pub refusal_status : Refusal → ℕ
refusal_status method_not_allowed = 405
refusal_status invalid_json = 400
refusal_status missing_fields = 400
refusal_status (not_verified e) = 401
refusal_status not_initialized = 412
refusal_status (no_key e) = 500

unfoldable pub has_missing_fields : IssueKeyReq → Bool
has_missing_fields req =
    is_empty req.user || is_empty req.attribute || is_empty req.cert_pem || is_empty req.signature

module _ (mosaic : Mosaic) (pki : Pki) where
  open mosaic use {Seed, UserAttrs}

  -- The response is the JSON text of the key. Where the handler panics, the server of `net/http` closes
  -- the connection without one.
  pub data Response : Type 0 where
    issued : UserAttrs → Response
    error : Refusal → Response
    aborted : Response

  unfoldable pub respond : Option (EngineResult UserAttrs) → Response
  respond none = aborted
  respond (some (made key)) = issued key
  respond (some (not_made e)) = error (no_key e)

  unfoldable pub loaded : Organization → Engine mosaic → Engine mosaic
  unfolding load_org_from_json load_auth_from_json
  loaded org e =
      load_auth_from_json mosaic org.auth_pub_json org.auth_prv_json
        (load_org_from_json mosaic org.org_json e)

  unfoldable pub issue_by :
      Seed → IssueKeyReq → Engine mosaic → Option Organization → Engine mosaic × Response
  unfolding loaded respond issue_user_key
  issue_by r req e none = (e, error not_initialized)
  issue_by r req e (some org) =
      let e' = loaded org e in (e', respond (issue_user_key mosaic r e' req.user req.attribute))

  unfoldable pub verified :
      Seed
      → IssueKeyReq
      → Engine mosaic
      → Option Organization
      → Checked (Unit {0})
      → Engine mosaic × Response
  unfolding issue_by
  verified r req e org (stopped err) = (e, error (not_verified err))
  verified r req e org (passed t) = issue_by r req e org

  unfoldable pub decoded :
      ℕ
      → Text
      → Seed
      → Option Organization
      → Engine mosaic
      → Reply IssueKeyReq
      → Engine mosaic × Response
  unfolding verified verify_user has_missing_fields
  decoded now ca_cert r org e (failed t) = (e, error invalid_json)
  decoded now ca_cert r org e (ok req) =
      if has_missing_fields req
      then (e, error missing_fields)
      else verified r req e org (verify_user pki now ca_cert req)

  -- The organisation is the row of the table by the server's name, and `ca_cert` what `loadCACert`
  -- returns. The engine keeps what was loaded.
  unfoldable pub handle_issue_key :
      ℕ
      → Text
      → Seed
      → Option Organization
      → Text
      → Reply IssueKeyReq
      → Engine mosaic
      → Engine mosaic × Response
  unfolding decoded
  handle_issue_key now ca_cert r org method body e =
      if not (method =ᵗ codes "POST")
      then (e, error method_not_allowed)
      else decoded now ca_cert r org e body
