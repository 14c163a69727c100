-- ===== src/Retry/Policy.antt =====
-- retry.go: the policy, and the requests, responses and failures that it looks at.
use forward_go_sdk.Prelude.{
  ℕ, ◌*◌, ◌^◌, ◌==◌, Bool, true, false, ◌&&◌, ◌||◌, not, Option, none, some, List, [], ◌∷◌, leb,
  if◌then◌else◌,
}
use forward_go_sdk.Prelude.Int.{ℤ, pos}
use forward_go_sdk.Text.{Text, codes, is_member}

-- A time.Duration is an int64 of nanoseconds. The jitter, a float64, is a multiple of 2^-53.
pub record RetryPolicy : Type 0 where
  pub max_attempts : ℤ
  pub delay : ℤ
  pub max_delay : ℤ
  pub refused_only : Bool
  pub jitter : ℤ

abbrev pub second : ℕ
second = 1_000_000_000

abbrev pub default_retry_delay : ℕ
default_retry_delay = 500_000_000

abbrev pub default_retry_max_delay : ℕ
default_retry_max_delay = 300 * second

-- 1.0 as a jitter.
abbrev pub jitter_one : ℕ
jitter_one = 2 ^ 53

unfoldable pub default_retry_policy : RetryPolicy
default_retry_policy = record {
  max_attempts = pos 5;
  delay = pos second;
  max_delay = pos (120 * second);
  refused_only = false;
  jitter = pos (2 ^ 52);
}

-- What retry.go reads of an *http.Request: its method, whether it has a body and can rewind it,
-- and the two marks that its context may carry.
pub record Request : Type 0 where
  pub method : Text
  pub has_body : Bool
  pub has_get_body : Bool
  pub idempotent_mark : Bool
  pub no_retry_mark : Bool

-- What it reads of an *http.Response: the header Retry-After, and the text of the JSON field
-- "message" of the body's first 4096 bytes, if those are a JSON object.
pub record Response : Type 0 where
  pub status : ℕ
  pub retry_after_header : Text
  pub body_message : Option Text

-- The errors that a transport error wraps, in the order in which errors.Is and errors.As meet them.
pub data ErrorNode : Type 0 where
  permanent_sentinel : ErrorNode
  has_permanent_method : Bool → ErrorNode
  certificate_verification unknown_authority certificate_invalid hostname : ErrorNode
  other_error : ErrorNode

abbrev pub TransportError : Type 0
TransportError = List ErrorNode

abbrev is_sentinel : ErrorNode → Bool
is_sentinel permanent_sentinel = true
is_sentinel _ = false

abbrev is_certificate : ErrorNode → Bool
is_certificate certificate_verification = true
is_certificate unknown_authority = true
is_certificate certificate_invalid = true
is_certificate hostname = true
is_certificate _ = false

pub wraps_sentinel : TransportError → Bool
wraps_sentinel [] = false
wraps_sentinel (e ∷ es) = is_sentinel e || wraps_sentinel es

pub wraps_certificate : TransportError → Bool
wraps_certificate [] = false
wraps_certificate (e ∷ es) = is_certificate e || wraps_certificate es

-- errors.As finds the first error with the method Permanent.
pub first_permanent : TransportError → Bool
first_permanent [] = false
first_permanent (has_permanent_method b ∷ es) = b
first_permanent (_ ∷ es) = first_permanent es

unfoldable pub is_permanent : TransportError → Bool
unfolding wraps_sentinel first_permanent
is_permanent err = if wraps_sentinel err then true else first_permanent err

-- `err`, and whether the transport began to get a connection, and got one.
unfoldable pub not_connected : Option TransportError → Bool → Bool → Bool
unfolding wraps_certificate
not_connected none get_conn got_conn = false
not_connected (some err) get_conn got_conn =
    if not get_conn || got_conn then false else not (wraps_certificate err)

abbrev idempotent_methods : List Text
idempotent_methods =
    codes "GET" ∷ codes "HEAD" ∷ codes "OPTIONS" ∷ codes "PUT" ∷ codes "DELETE" ∷ []

unfoldable pub idempotent : Text → Bool
unfolding is_member
idempotent method = is_member method idempotent_methods

-- What `retryable` says of a status, with the method's verdict and the policy's `RefusedOnly`.
unfoldable pub retryable_status : ℕ → Bool → Bool → Bool
retryable_status status refused_only repeatable =
    if status == 429 || status == 503
    then true
    else if refused_only
    then false
    else if status == 501
    then false
    else leb 500 status && repeatable

-- The part of `retryable` that looks at what came back. A response stands beside an error only when
-- a redirect was refused, and is not looked at then.
unfoldable pub retryable_outcome :
    Request → Option Response → Option TransportError → Bool → Bool → Bool
unfolding retryable_status idempotent is_permanent
retryable_outcome req resp (some err) refused_only unconnected =
    if is_permanent err
    then false
    else if refused_only
    then false
    else unconnected || idempotent req.method || req.idempotent_mark
retryable_outcome req (some r) none refused_only unconnected =
    retryable_status r.status refused_only (idempotent req.method || req.idempotent_mark)
retryable_outcome req none none refused_only unconnected = false

-- `ctx_done` is `req.Context().Err() != nil`.
unfoldable pub retryable :
    Request → Option Response → Option TransportError → Bool → Bool → Bool → Bool
unfolding retryable_outcome
retryable req resp err ctx_done refused_only unconnected =
    if req.has_body && not req.has_get_body
    then false
    else if ctx_done
    then false
    else retryable_outcome req resp err refused_only unconnected
