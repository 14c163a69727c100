-- ===== src/Errors/Response.antt =====
-- errors.go: making an error from a response, and what callers ask of it. `decode` stands for
-- json.Unmarshal of the body into the error, which may set any field with a JSON name, the response
-- too; `aliases` for the same of the two other names of the code.
use forward_go_sdk.Prelude.{ℕ, false, Option, none, some, [], if◌then◌else◌}
use forward_go_sdk.Text.{Text, is_empty}
use forward_go_sdk.Retry.After.{retry_after}
use forward_go_sdk.Errors.Types.{
  unknown, permission_denied, unlicensed_operation, rate_limited, same_kind, Url, SentRequest,
  ApiResponse, ErrorResponse,
}
use forward_go_sdk.Errors.Classify.{classify_error_response}

abbrev pub fresh : ApiResponse → Text → ErrorResponse
fresh resp body = record {
  response = some resp;
  kind = unknown;
  method = [];
  api_url = [];
  message = [];
  reason = [];
  code = [];
  latest_snapshot_id = [];
  body = body;
  operation = [];
  gate_property = [];
  gate_enabled = false;
  gate_scope = [];
}

abbrev or_text : Text → Text → Text
or_text t d = if is_empty t then d else t

abbrev or_path : Text → Option Url → Text
or_path t none = t
or_path t (some u) = or_text t u.path

-- The method and the path of the request stand in for missing ones.
unfoldable pub with_request : Option SentRequest → ErrorResponse → ErrorResponse
unfolding is_empty
with_request none e = e
with_request (some q) e = record e {
  method = or_text e.method q.method;
  api_url = or_path e.api_url q.url;
}

unfoldable pub with_code : Option (Text × Text) → ErrorResponse → ErrorResponse
unfolding is_empty
with_code none e = e
with_code (some (error_code, error)) e =
    if is_empty e.code then record e { code = or_text error_code error } else e

-- `newErrorResponse`, of a response whose body begins with the text `body`.
unfoldable pub new_error_response :
    (Text → ErrorResponse → ErrorResponse)
    → (Text → Option (Text × Text))
    → ApiResponse
    → Text
    → ErrorResponse
unfolding with_request with_code classify_error_response
new_error_response decode aliases resp body =
    classify_error_response
      (with_code (aliases body) (with_request resp.request (decode body (fresh resp body))))

-- `MissingPermission`, of an ErrorResponse.
unfoldable pub missing_permission : ErrorResponse → Option Text
missing_permission e = if same_kind e.kind permission_denied then some e.operation else none

-- `UnlicensedOperation`, of an ErrorResponse.
unfoldable pub unlicensed : ErrorResponse → Option Text
unlicensed e = if same_kind e.kind unlicensed_operation then some e.operation else none

-- `RateLimitLockout`, of an ErrorResponse with the header Retry-After of its response.
unfoldable pub rate_limit_lockout : (Text → Option ℕ) → ErrorResponse → Text → ℕ → Option ℕ
unfolding retry_after
rate_limit_lockout parse_http_time e retry_after_header now = elim e.response [
  | none ↦ none
  | some r ↦
      if same_kind e.kind rate_limited
      then retry_after parse_http_time retry_after_header now
      else none
]
