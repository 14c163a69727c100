-- ===== src/Client/Examples.antt =====
-- The client's theorems at concrete inputs, and tests.
use forward_go_sdk.Client.Request.{target, scoped_credentials}
use forward_go_sdk.Client.Paths.{resolve_parsed, any_dot_segment, is_allowed}
use forward_go_sdk.Client.Url.{resolve_reference, set_path, inherit}
use forward_go_sdk.Client.Csrf.{browser_request_needs_csrf, trimmed_token}
use forward_go_sdk.Client.Do.{is_success}
use forward_go_sdk.Prelude.{
  ◌≡◌, ◌≤◌, refl, Bool, true, false, Option, none, some, [], ◌∷◌, arith, length, All, if◌then◌else◌,
}
use forward_go_sdk.Prelude.Results.{ok, err}
use forward_go_sdk.Text.{Text, codes, text_eq, is_empty, trim_space}
use forward_go_sdk.Client.Auth.{
  unset, user, browser, normalize_auth_mode, auth_credentials, checked_password, copy_cookies,
}
use forward_go_sdk.Client.Url.{Url, same_origin}
use forward_go_sdk.Client.Paths.{
  api, resolve_scoped, dot_segment, normalize_base_url, checked_base, trim_right_slashes,
}
use forward_go_sdk.Client.Paths.Laws.{IsUrlParser}
use forward_go_sdk.Client.Http.{
  default_http_client, secure_redirects, configure_http_client, requested,
}
use forward_go_sdk.Client.Http.Laws.{requested-secure_redirects}
use forward_go_sdk.Client.Config.{Config, Client, new_client, checked_cookies, make_client}
use forward_go_sdk.Client.Config.Laws.{IsBase}
use forward_go_sdk.Client.Request.{Request, new_scoped_request}
use forward_go_sdk.Client.Request.Laws.{Stays, FitsMode, new_scoped_request-Stays}
use forward_go_sdk.Client.Csrf.{CsrfToken}
use forward_go_sdk.Client.Do.{Env, Call, received, read_fine, value, do_request}
use forward_go_sdk.Client.Do.Events.{Logged, do_request-Logged}
use forward_go_sdk.Client.Do.Tokens.{MaySend, HoldsToken, do_request-MaySend}
use forward_go_sdk.Client.Do.Outcomes.{CallExplained, do_request-CallExplained}

abbrev base_url : Url
base_url = record {
  scheme = codes "https";
  opaque = [];
  user = none;
  host = codes "fwd.example.com";
  path = [];
  escaped_path = [];
  force_query = false;
  raw_query = [];
  fragment = [];
}

-- A parser of one base URL, which takes any other text for a path.
abbrev parse_url : Text → Option Url
parse_url t =
    if text_eq t (codes "https://fwd.example.com")
    then some base_url
    else some (record base_url { scheme = []; host = []; path = t; escaped_path = t })

parse_url-IsUrlParser : IsUrlParser parse_url
unfolding is_empty
parse_url-IsUrlParser = record {
  opaque_with_scheme = λ t u p h. ground arith;
  empty_path = λ t u p h. ground arith;
}

abbrev creates : Text → Url → Bool
creates method url = true

abbrev config : Config
config = record {
  base_url = codes " https://fwd.example.com ";
  username = codes "ann ";
  password = codes "secret";
  api_token = [];
  auth_mode = unset;
  cookies = none ∷ [];
  network_id = codes "42";
  user_agent = [];
  http_client = none;
  insecure_skip_verify = false;
  root_cas = none;
}

abbrev root_url : Url
root_url = record base_url { path = codes "/"; escaped_path = codes "/" }

abbrev client : Client
client = record {
  http_client = secure_redirects default_http_client root_url;
  origin = ok root_url;
  username = codes "ann";
  password = codes "secret";
  auth_mode = user;
  user_agent = codes "forward-go-sdk";
  network_id = codes "42";
  seeded_cookies = [];
}

config-client : new_client parse_url config ≡ ok client
unfolding new_client normalize_base_url trim_space text_eq checked_base trim_right_slashes
    normalize_auth_mode auth_credentials checked_password checked_cookies copy_cookies
    configure_http_client make_client
config-client = refl

abbrev networks_url : Url
networks_url = record base_url {
  path = codes "/api/networks";
  escaped_path = codes "/api/networks";
}

abbrev networks_request : Request
networks_request = record {
  method = codes "GET";
  url = networks_url;
  body = none;
  basic_auth = some (codes "ann", codes "secret");
  headers =
      (codes "Accept", codes "application/json")
      ∷ (codes "User-Agent", codes "forward-go-sdk")
      ∷ [];
  operation = [];
  auth_mode = user;
  skip_csrf = false;
}

request-networks :
    new_scoped_request parse_url creates client (codes "GET") (codes "/api/networks") none api none
    ≡ ok networks_request
unfolding new_scoped_request target resolve_scoped trim_space text_eq resolve_parsed any_dot_segment
    is_allowed scoped_credentials resolve_reference set_path inherit
request-networks = refl

-- A path that would climb out of its route is refused.
climbing :
    resolve_scoped parse_url root_url (codes "/api/networks/%2e%2E/devices") api ≡ err dot_segment
unfolding resolve_scoped trim_space text_eq resolve_parsed any_dot_segment
climbing = refl

new_scoped_request-Stays_example :
    (base : Url) × IsBase base
    × (client.origin ≡ ok base)
    × Stays base api networks_url
    × FitsMode networks_request
new_scoped_request-Stays_example =
    new_scoped_request-Stays parse_url creates config client (codes "GET") (codes "/api/networks")
      none api none networks_request parse_url-IsUrlParser config-client request-networks

abbrev elsewhere : Url
elsewhere = record networks_url { host = codes "evil.example.com" }

same : same_origin networks_url root_url ≡ true
unfolding same_origin
same = refl

requested-secure_redirects_example :
    All
      (λ url. same_origin url root_url ≡ true)
      (requested
        (secure_redirects default_http_client root_url)
        networks_url
        (root_url ∷ elsewhere ∷ root_url ∷ []))
    × (default_http_client.check_redirect ≡ none
        → length (
            requested
              (secure_redirects default_http_client root_url)
              networks_url
              (root_url ∷ elsewhere ∷ root_url ∷ []))
          ≤ 10)
requested-secure_redirects_example =
    requested-secure_redirects default_http_client root_url networks_url
      (root_url ∷ elsewhere ∷ root_url ∷ []) same

abbrev token : CsrfToken
token = record { header_name = []; parameter_name = codes "_csrf"; token = codes "t1" }

-- A server that answers 200, to a session whose token is `token`.
abbrev env : Env
env = record {
  parse_url = parse_url;
  creates = creates;
  send = λ n q. received (record { status = 200; body = []; request = none });
  read = λ dst r. read_fine;
  token_of = λ r. token;
  decode = λ t e. e;
  aliases = λ t. none;
}

abbrev browser_client : Client
browser_client = record client { auth_mode = browser; username = []; password = [] }

-- A write of a browser session.
abbrev write : Request
write = record networks_request { method = codes "POST"; basic_auth = none; auth_mode = browser }

abbrev write_call : Call
write_call = do_request env browser_client none write value false none

do_request-Logged_example : Logged write_call.sent write_call.events
do_request-Logged_example = do_request-Logged env value false none browser_client none write

do_request-MaySend_example :
    All (MaySend write write_call.session) write_call.sent × HoldsToken write_call.session
do_request-MaySend_example = do_request-MaySend env value false none browser_client none write tt

do_request-CallExplained_example :
    CallExplained env value false none browser_client none write write_call
do_request-CallExplained_example =
    do_request-CallExplained env value false none browser_client write none

-- The call fetches the token and then writes with it.
write_call_sends : length write_call.sent ≡ 2
unfolding do_request browser_request_needs_csrf new_scoped_request target resolve_scoped trim_space
    resolve_parsed any_dot_segment is_allowed scoped_credentials is_success trimmed_token
write_call_sends = refl
