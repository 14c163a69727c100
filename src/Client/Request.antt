-- ===== src/Client/Request.antt =====
-- client.go and hooks.go: the making of requests. `creates` says whether http.NewRequestWithContext
-- makes a request of a method and a URL. Basic credentials are kept beside the other headers, and
-- names of headers are in ASCII.
pub mod Laws
use forward_go_sdk.Prelude.{
  ℕ, Bool, true, false, ◌&&◌, ◌||◌, not, Option, none, some, List, [], ◌∷◌, if◌then◌else◌,
}
use forward_go_sdk.Prelude.Results.{Result, ok, err, ◌>>=◌}
use forward_go_sdk.Text.{Text, codes, text_eq, is_empty, trim_space, to_lower}
use forward_go_sdk.Client.Auth.{AuthMode, is_basic}
use forward_go_sdk.Client.Url.{Url}
use forward_go_sdk.Client.Paths.{PathScope, PathError, api, resolve_scoped}
use forward_go_sdk.Client.Config.{Client}

-- What the client reads and sets of an *http.Request, its context included: the metadata, and the
-- mark of `skipBrowserCSRF`.
pub record Request : Type 0 where
  pub method : Text
  pub url : Url
  pub body : Option Text
  pub basic_auth : Option (Text × Text)
  pub headers : List (Text × Text)
  pub operation : Text
  pub auth_mode : AuthMode
  pub skip_csrf : Bool

pub data RequestError : Type 0 where
  client_unavailable : Text → Text → RequestError
  bad_path : PathError → RequestError
  create_failed credentials_missing encode_failed : RequestError

-- Header.Get; a missing header is the empty text.
unfoldable pub get_header : Text → List (Text × Text) → Text
unfolding to_lower text_eq
get_header name [] = []
get_header name ((n, v) ∷ hs) =
    if text_eq (to_lower n) (to_lower name) then v else get_header name hs

-- Header.Set
unfoldable pub set_header : Text → Text → List (Text × Text) → List (Text × Text)
unfolding to_lower text_eq
set_header name value [] = (name, value) ∷ []
set_header name value ((n, v) ∷ hs) =
    let rest = set_header name value hs in
    if text_eq (to_lower n) (to_lower name) then (name, value) ∷ hs else (n, v) ∷ rest

abbrev pub with_header : Text → Text → Request → Request
with_header name value req = record req { headers = set_header name value req.headers }

-- `markOperation`
unfoldable pub mark_operation : Text → Request → Request
mark_operation operation req = record req { operation = operation }

-- `requestAuth`
pub record RequestAuth : Type 0 where
  pub mode : AuthMode
  pub username : Text
  pub password : Text

abbrev auth_of : Client → Option RequestAuth → RequestAuth
auth_of c none = record { mode = c.auth_mode; username = c.username; password = c.password }
auth_of c (some auth) = auth

-- A new request, with the headers that all have.
abbrev plain_request : Client → Text → Url → Option Text → AuthMode → Option (Text × Text) → Request
plain_request c method url body mode basic_auth = record {
  method = if is_empty method then codes "GET" else method;
  url = url;
  body = body;
  basic_auth = basic_auth;
  headers = (codes "Accept", codes "application/json") ∷ (codes "User-Agent", c.user_agent) ∷ [];
  operation = [];
  auth_mode = mode;
  skip_csrf = false;
}

abbrev json_body : Request → Request
json_body = with_header (codes "Content-Type") (codes "application/json")

-- The credentials of a scoped request.
unfoldable pub scoped_credentials : RequestAuth → Result RequestError (Option (Text × Text))
scoped_credentials auth =
    if is_basic auth.mode
    then (if is_empty (trim_space auth.username) || is_empty auth.password
        then err credentials_missing
        else ok (some (auth.username, auth.password)))
    else ok none

abbrev pub from_origin :
    Text → (Url → Result RequestError Url) → Result Text Url → Result RequestError Url
from_origin network_id make (ok base) = make base
from_origin network_id make (err cause) = err (client_unavailable network_id cause)

module _ (parse_url : Text → Option Url) (creates : Text → Url → Bool) where
  created : Text → Result PathError Url → Result RequestError Url
  created method (err e) = err (bad_path e)
  created method (ok url) = if creates method url then ok url else err create_failed

  -- The URL of a request, or the error that stops it.
  unfoldable pub target : Client → Text → Text → PathScope → Result RequestError Url
  unfolding created
  target c method path scope =
      from_origin c.network_id (λ base. created method (resolve_scoped parse_url base path scope))
        c.origin

  -- `NewRequest`
  unfoldable pub new_request : Client → Text → Text → Option Text → Result RequestError Request
  new_request c method path body = do
    url ← target c method path api
    let auth = if is_basic c.auth_mode then some (c.username, c.password) else none
    ok (plain_request c method url body c.auth_mode auth)

  -- `newScopedRequest`
  unfoldable pub new_scoped_request :
      Client
      → Text
      → Text
      → Option Text
      → PathScope
      → Option RequestAuth
      → Result RequestError Request
  new_scoped_request c method path body scope auth = do
    url ← target c method path scope
    credentials ← scoped_credentials (auth_of c auth)
    ok (plain_request c method url body (auth_of c auth).mode credentials)

  -- `newScopedJSONRequest`; `payload` is none for a nil payload, and some none for one that
  -- json.Marshal does not encode.
  unfoldable pub new_scoped_json_request :
      Client
      → Text
      → Text
      → Option (Option Text)
      → PathScope
      → Option RequestAuth
      → Result RequestError Request
  unfolding new_scoped_request
  new_scoped_json_request c method path none scope auth =
      new_scoped_request c method path none scope auth
  new_scoped_json_request c method path (some none) scope auth = err encode_failed
  new_scoped_json_request c method path (some (some body)) scope auth = do
    req ← new_scoped_request c method path (some body) scope auth
    ok (json_body req)

  -- `newJSONRequest`
  unfoldable pub new_json_request :
      Client → Text → Text → Option (Option Text) → Result RequestError Request
  unfolding new_request
  new_json_request c method path none = new_request c method path none
  new_json_request c method path (some none) = err encode_failed
  new_json_request c method path (some (some body)) = do
    req ← new_request c method path (some body)
    ok (json_body req)
