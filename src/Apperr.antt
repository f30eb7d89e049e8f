-- ===== src/Apperr.antt =====
-- utils/apperr: the kinds of errors, what a client is told of them, and with which status.
pub mod Answer
use bc_abe.Common.{
  ℕ, Bool, true, false, ◌&&◌, ◌||◌, ◌≡◌, refl, List, [], ◌∷◌, Option, none, some, leb, ltb,
  if◌then◌else◌, arith,
}
use bc_abe.Text.{Text}

-- The sentinel errors of utils/apperr/errors.go.
pub data Kind : Type 0 where
  not_found unauthorized invalid_input invalid_policy : Kind
  db_connect gateway_connect fabric_network config : Kind

-- An error: a sentinel, any other error, or an error wrapped by `%w` with a message.
pub data Error : Type 0 where
  sentinel : Kind → Error
  other : Text → Error
  wrapped : Error → Text → Error

unfoldable pub same_kind : Kind → Kind → Bool
same_kind not_found not_found = true
same_kind unauthorized unauthorized = true
same_kind invalid_input invalid_input = true
same_kind invalid_policy invalid_policy = true
same_kind db_connect db_connect = true
same_kind gateway_connect gateway_connect = true
same_kind fabric_network fabric_network = true
same_kind config config = true
same_kind _ _ = false

-- `errors.Is(err, target)`: the chain of `Unwrap` holds the target.
unfoldable pub is : Error → Kind → Bool
unfolding same_kind
is (sentinel k) target = same_kind k target
is (other msg) target = false
is (wrapped e msg) target = is e target

-- `Wrap(kind, msg, err)`: only `kind` is wrapped by `%w`; the cause is printed into the message.
unfoldable pub wrap : Kind → Text → Error
wrap kind msg = wrapped (sentinel kind) msg

pub data Message : Type 0 where
  internal bad_request unauthorized_msg not_found_msg unavailable invalid_policy_msg : Message

-- `none` is the `nil` error.
unfoldable pub public_message : Option Error → Message
unfolding is
public_message none = internal
public_message (some e) =
    if is e unauthorized
    then unauthorized_msg
    else if is e not_found
    then not_found_msg
    else if is e invalid_policy
    then invalid_policy_msg
    else if is e invalid_input
    then bad_request
    else if is e fabric_network || is e gateway_connect
    then unavailable
    else internal

unfoldable pub http_status : Option Error → ℕ
unfolding is
http_status none = 500
http_status (some e) =
    if is e unauthorized
    then 401
    else if is e not_found
    then 404
    else if is e invalid_input || is e invalid_policy
    then 400
    else if is e fabric_network || is e gateway_connect
    then 502
    else 500

unfoldable pub is_client_error : Option Error → Bool
unfolding http_status
is_client_error e = leb 400 (http_status e) && ltb (http_status e) 500

-- `none` stands for the error "unknown".
unfoldable pub first_kind : Error → List Kind → Option Kind
unfolding is
first_kind e [] = none
first_kind e (k ∷ ks) = if is e k then some k else first_kind e ks

unfoldable pub unwrap_kind : Error → Option Kind
unfolding first_kind
unwrap_kind e = first_kind e (
    unauthorized ∷ not_found ∷ invalid_input ∷ invalid_policy ∷ fabric_network ∷ gateway_connect
    ∷ db_connect ∷ config ∷ [])

-- The status that goes with what a client is told.
abbrev pub status_of : Message → ℕ
status_of internal = 500
status_of bad_request = 400
status_of unauthorized_msg = 401
status_of not_found_msg = 404
status_of unavailable = 502
status_of invalid_policy_msg = 400

-- The kind that an error wraps, if it wraps one.
abbrev pub root_kind : Error → Option Kind
root_kind (sentinel k) = some k
root_kind (other msg) = none
root_kind (wrapped e msg) = root_kind e

-- For every error, the nil error too: the status that `HTTPStatus` returns is that of the message
-- that `PublicMessage` returns.
pub http_status-public_message : (e : Option Error) → http_status e ≡ status_of (public_message e)
unfolding http_status public_message
http_status-public_message none = refl
http_status-public_message (some e) = ground arith

-- `UnwrapKind` finds the sentinel at the root of an error through any number of wrappings, and none
-- where there is none.
pub unwrap_kind_lem : (e : Error) → unwrap_kind e ≡ root_kind e
unfolding unwrap_kind
unwrap_kind_lem (sentinel k) = ground arith
unwrap_kind_lem (other msg) = refl
unwrap_kind_lem (wrapped e msg) = unwrap_kind_lem e
