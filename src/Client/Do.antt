-- ===== src/Client/Do.antt =====
-- client.go: `Client.do`, which sends a request and decodes the response, with the session's token
-- of browser_csrf.go. What `Client.send` returned, and what reading and decoding a body gave, come
-- from a record of functions. A hook sees the events in their order; durations are left out.
pub mod Events
pub mod Tokens
pub mod Outcomes
use forward_go_sdk.Prelude.{
  ℕ, zero, suc, Bool, true, false, ◌&&◌, not, Option, none, some, List, [], ◌∷◌, ◌++◌, ltb, leb,
  length, ◌==◌, if◌then◌else◌,
}
use forward_go_sdk.Prelude.Int.{ℤ, pos, negsuc}
use forward_go_sdk.Prelude.Results.{Result, ok, err}
use forward_go_sdk.Text.{Text, codes, is_empty, trim_space}
use forward_go_sdk.Errors.Types.{SentRequest, ApiResponse, ErrorResponse}
use forward_go_sdk.Errors.Response.{new_error_response}
use forward_go_sdk.Client.Auth.{AuthMode, unauthenticated}
use forward_go_sdk.Client.Url.{Url}
use forward_go_sdk.Client.Paths.{browser_paths}
use forward_go_sdk.Client.Config.{Client}
use forward_go_sdk.Client.Request.{
  Request, RequestAuth, RequestError, mark_operation, new_scoped_request,
}
use forward_go_sdk.Client.Csrf.{CsrfToken, browser_request_needs_csrf, attach_token, trimmed_token}

pub record HttpResponse : Type 0 where
  pub status : ℕ
  pub body : Text
  pub request : Option SentRequest

-- What `send` returned.
pub data Sent : Type 0 where
  transport_error : Text → Sent
  received : HttpResponse → Sent

-- `dst`: nil, an io.Writer, or a value to decode into.
pub data Destination : Type 0 where
  discard writer value : Destination

-- The error of io.Copy or of the JSON decoder.
pub data Reading : Type 0 where
  read_fine end_of_file read_error : Reading

-- `send` is given the number of requests that the call sent before; `token_of` is the token that a
-- body decodes to; `decode` and `aliases` are those of newErrorResponse.
pub record Env : Type 0 where
  pub parse_url : Text → Option Url
  pub creates : Text → Url → Bool
  pub send : ℕ → Request → Sent
  pub read : Destination → HttpResponse → Reading
  pub token_of : HttpResponse → CsrfToken
  pub decode : Text → ErrorResponse → ErrorResponse
  pub aliases : Text → Option (Text × Text)

pub data EventType : Type 0 where
  event_request event_response : EventType

pub data EventError : Type 0 where
  event_transport event_decode : EventError
  event_status : ℕ → EventError

pub record Event : Type 0 where
  pub event_type : EventType
  pub method : Text
  pub path : Text
  pub status_code : ℕ
  pub error : Option EventError
  pub operation : Text
  pub auth_mode : AuthMode

pub data ExchangeError : Type 0 where
  send_request : Text → ExchangeError
  api_error : ErrorResponse → ExchangeError
  decode_response : ExchangeError

pub data CallError : Type 0 where
  exchange_error : ExchangeError → CallError
  csrf_request : RequestError → CallError
  csrf_exchange : ExchangeError → CallError
  csrf_fields_missing csrf_no_token : CallError

-- What a call did and returned: `session` is the token that the client holds afterwards.
pub record Call : Type 0 where
  pub response : Option HttpResponse
  pub error : Option CallError
  pub events : List Event
  pub sent : List Request
  pub session : Option CsrfToken

pub record Exchange : Type 0 where
  pub response : Option HttpResponse
  pub error : Option ExchangeError
  pub events : List Event

unfoldable pub request_event : Request → Event
request_event req = record {
  event_type = event_request;
  method = req.method;
  path = req.url.path;
  status_code = 0;
  error = none;
  operation = req.operation;
  auth_mode = req.auth_mode;
}

unfoldable pub response_event : Request → ℕ → Option EventError → Event
response_event req status error = record {
  event_type = event_response;
  method = req.method;
  path = req.url.path;
  status_code = status;
  error = error;
  operation = req.operation;
  auth_mode = req.auth_mode;
}

unfoldable pub is_success : ℕ → Bool
is_success status = leb 200 status && ltb status 300

-- `accepted`, or what stands for nil.
abbrev pub accepts : Option (ℕ → Bool) → ℕ → Bool
accepts none status = is_success status
accepts (some accepted) status = accepted status

-- Whether a reading is an error of the call.
unfoldable pub fails : Destination → Bool → Reading → Bool
fails dst allow_empty read_fine = false
fails dst allow_empty read_error = true
fails discard allow_empty end_of_file = true
fails writer allow_empty end_of_file = true
fails value allow_empty end_of_file = not allow_empty

-- The part of `do` from the first event on.
module _ (env : Env) (dst : Destination) (allow_empty : Bool) (accepted : Option (ℕ → Bool)) where
  abbrev ends :
      Request → Option HttpResponse → ℕ → Option ExchangeError → Option EventError → Exchange
  ends req response status error event_error = record {
    response = response;
    error = error;
    events = request_event req ∷ response_event req status event_error ∷ [];
  }

  unfoldable pub answered : Request → HttpResponse → Exchange
  unfolding fails request_event response_event
  answered req resp =
      if not (accepts accepted resp.status)
      then (let refused =
            new_error_response env.decode env.aliases
              (record { status = resp.status; request = resp.request }) resp.body in
          ends req (some resp) resp.status (some (api_error refused))
            (some (event_status resp.status)))
      else if fails dst allow_empty (env.read dst resp)
      then ends req (some resp) resp.status (some decode_response) (some event_decode)
      else ends req (some resp) resp.status none none

  unfoldable pub by_sent : Request → Sent → Exchange
  unfolding answered
  by_sent req (transport_error e) = ends req none 0 (some (send_request e)) (some event_transport)
  by_sent req (received resp) = answered req resp

  unfoldable pub exchange : ℕ → Request → Exchange
  unfolding by_sent
  exchange n req = by_sent req (env.send n req)

-- What `browserCSRFToken` returned and did.
pub record Fetched : Type 0 where
  pub token : Result CallError CsrfToken
  pub events : List Event
  pub sent : List Request

abbrev pub fetch_auth : RequestAuth
fetch_auth = record { mode = unauthenticated; username = []; password = [] }

abbrev checked_token : Option CsrfToken → Result CallError CsrfToken
checked_token none = err csrf_fields_missing
checked_token (some t) = if is_empty (trim_space t.token) then err csrf_no_token else ok t

abbrev token_from : Env → Option ExchangeError → Option HttpResponse → Result CallError CsrfToken
token_from env (some e) response = err (csrf_exchange e)
token_from env none (some resp) = checked_token (trimmed_token (env.token_of resp))
token_from env none none = err csrf_no_token

-- `fetchPublicCSRF`: a GET, which needs no token itself.
unfoldable pub fetched : Env → Result RequestError Request → Fetched
unfolding exchange
fetched env (err e) = record { token = err (csrf_request e); events = []; sent = [] }
fetched env (ok req) =
    let x = exchange env value false none 0 req in
    record { token = token_from env x.error x.response; events = x.events; sent = req ∷ [] }

abbrev pub marked : Result RequestError Request → Result RequestError Request
marked (ok req) = ok (mark_operation (codes "Browser.SessionCSRF") req)
marked (err e) = err e

-- `browserCSRFToken`: the token that the session holds, or a new one.
unfoldable pub browser_csrf_token : Env → Client → Option CsrfToken → Fetched
unfolding fetched
browser_csrf_token env c (some token) = record { token = ok token; events = []; sent = [] }
browser_csrf_token env c none = fetched env (
    marked (
      new_scoped_request env.parse_url env.creates c (codes "GET") (codes "/api/public/csrf") none
        browser_paths (some fetch_auth)))

abbrev pub failure : Option ExchangeError → Option CallError
failure none = none
failure (some e) = some (exchange_error e)

-- A call whose token was looked for, and then its own request.
unfoldable pub after_token :
    Env
    → Destination
    → Bool
    → Option (ℕ → Bool)
    → Request
    → Option CsrfToken
    → Fetched
    → Result CallError CsrfToken
    → Call
unfolding exchange attach_token
after_token env dst allow_empty accepted req session f (err e) = record {
  response = none;
  error = some e;
  events = f.events;
  sent = f.sent;
  session = session;
}
after_token env dst allow_empty accepted req session f (ok token) =
    let guarded = attach_token token req in
    let x = exchange env dst allow_empty accepted (length f.sent) guarded in
    record {
      response = x.response;
      error = failure x.error;
      events = f.events ++ x.events;
      sent = f.sent ++ guarded ∷ [];
      session = some token;
    }

-- `Client.do`, of a client that has the token `session`.
unfoldable pub do_request :
    Env → Client → Option CsrfToken → Request → Destination → Bool → Option (ℕ → Bool) → Call
unfolding after_token exchange browser_csrf_token
do_request env c session req dst allow_empty accepted =
    let f = browser_csrf_token env c session in
    let x = exchange env dst allow_empty accepted 0 req in
    if browser_request_needs_csrf req
    then after_token env dst allow_empty accepted req session f f.token
    else record {
      response = x.response;
      error = failure x.error;
      events = x.events;
      sent = req ∷ [];
      session = session;
    }

-- `Do`, `doRequired` and `doAccepted`.
unfoldable pub do_public : Env → Client → Option CsrfToken → Request → Destination → Call
unfolding do_request
do_public env c session req dst = do_request env c session req dst true none

unfoldable pub do_required : Env → Client → Option CsrfToken → Request → Destination → Call
unfolding do_request
do_required env c session req dst = do_request env c session req dst false none

-- `resetBrowserCSRF`
unfoldable pub reset_browser_csrf : Option CsrfToken → Option CsrfToken
reset_browser_csrf session = none

-- The client that `doWithTimeout` calls with.
unfoldable pub timed : Client → ℤ → Client
timed c (negsuc n) = c
timed c (pos zero) = c
timed c (pos (suc n)) =
    if c.http_client.timeout == suc n
    then c
    else record c { http_client = record c.http_client { timeout = suc n } }

-- `doWithTimeout`
unfoldable pub do_with_timeout :
    Env → Client → Option CsrfToken → Request → Destination → Bool → Option (ℕ → Bool) → ℤ → Call
unfolding do_request timed
do_with_timeout env c session req dst allow_empty accepted timeout =
    do_request env (timed c timeout) session req dst allow_empty accepted
