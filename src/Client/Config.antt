-- ===== src/Client/Config.antt =====
-- client.go: Config, Client, `NewClient`, `NewUnavailable`, `ForNetwork` and `resolveNetworkID`. The
-- hooks, the retry policy, the capabilities and the state that clones share are left to the modules
-- that use them, and the services, each a pointer back to its client, are left out.
pub mod Laws
use forward_go_sdk.Prelude.{
  Bool, true, false, ◌&&◌, ◌||◌, not, Option, none, some, List, [], ◌∷◌, if◌then◌else◌,
}
use forward_go_sdk.Prelude.Results.{Result, ok, err, ◌>>=◌}
use forward_go_sdk.Text.{Text, codes, text_eq, is_empty, trim_space}
use forward_go_sdk.Client.Auth.{
  AuthMode, browser, is_browser, Cookie, ConfigError, cookies_need_browser, normalize_auth_mode,
  auth_credentials, copy_cookies,
}
use forward_go_sdk.Client.Url.{Url}
use forward_go_sdk.Client.Paths.{normalize_base_url}
use forward_go_sdk.Client.Http.{
  HttpClient, default_http_client, configure_http_client, secure_redirects,
}

pub record Config : Type 0 where
  pub base_url : Text
  pub username : Text
  pub password : Text
  pub api_token : Text
  pub auth_mode : AuthMode
  pub cookies : List (Option Cookie)
  pub network_id : Text
  pub user_agent : Text
  pub http_client : Option HttpClient
  pub insecure_skip_verify : Bool
  pub root_cas : Option Text

-- `origin` is the field baseURL, or, of a client that `NewUnavailable` made, unavailableErr.
pub record Client : Type 0 where
  pub http_client : HttpClient
  pub origin : Result Text Url
  pub username : Text
  pub password : Text
  pub auth_mode : AuthMode
  pub user_agent : Text
  pub network_id : Text
  pub seeded_cookies : List Cookie

abbrev default_user_agent : Text
default_user_agent = codes "forward-go-sdk"

abbrev no_cookies : List Cookie → Result ConfigError (List Cookie)
no_cookies [] = ok []
no_cookies (_ ∷ _) = err cookies_need_browser

-- Only browser clients have cookies.
unfoldable pub checked_cookies : AuthMode → List (Option Cookie) → Result ConfigError (List Cookie)
checked_cookies mode cookies =
    let copies = copy_cookies cookies in if is_browser mode then ok copies else no_cookies copies

-- The last lines of `NewClient`.
unfoldable pub make_client :
    Config → Url → AuthMode → Text × Text → List Cookie → HttpClient → Client
unfolding is_empty
make_client cfg base_url auth_mode (username, password) cookies http_client = record {
  http_client = secure_redirects http_client base_url;
  origin = ok base_url;
  username = username;
  password = password;
  auth_mode = auth_mode;
  user_agent =
      if is_empty (trim_space cfg.user_agent)
      then default_user_agent
      else trim_space cfg.user_agent;
  network_id = trim_space cfg.network_id;
  seeded_cookies = cookies;
}

-- `NewClient`
unfoldable pub new_client : (Text → Option Url) → Config → Result ConfigError Client
new_client parse_url cfg = do
  base_url ← normalize_base_url parse_url cfg.base_url
  mode ← normalize_auth_mode cfg.auth_mode
  credentials ← auth_credentials cfg.api_token cfg.username cfg.password mode
  cookies ← checked_cookies mode cfg.cookies
  http_client ← configure_http_client cfg.http_client cfg.insecure_skip_verify cfg.root_cas
  ok (make_client cfg base_url mode credentials cookies http_client)

-- `NewUnavailable`; no cause is a nil error.
unfoldable pub new_unavailable : Text → Option Text → Client
new_unavailable network_id cause = record {
  http_client = default_http_client;
  origin = err (elim cause [ none ↦ codes "Forward access is unavailable" | some e ↦ e ]);
  username = [];
  password = [];
  auth_mode = AuthMode.unset;
  user_agent = [];
  network_id = trim_space network_id;
  seeded_cookies = [];
}

-- `ForNetwork`, of a client or nil.
unfoldable pub for_network : Option Client → Text → Client
unfolding is_empty text_eq new_unavailable
for_network none network_id = new_unavailable network_id (some (codes "forward: client is nil"))
for_network (some c) network_id =
    let id = trim_space network_id in
    if is_empty id || text_eq id c.network_id then c else record c { network_id = id }

-- `resolveNetworkID`; `none` is the error that a network ID is required.
unfoldable pub resolve_network_id : Client → Text → Option Text
unfolding is_empty
resolve_network_id c network_id =
    let given = trim_space network_id in
    let id = if is_empty given then c.network_id else given in if is_empty id then none else some id
