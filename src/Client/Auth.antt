-- ===== src/Client/Auth.antt =====
-- auth.go: the authentication modes, and the credentials of a configuration.
use forward_go_sdk.Prelude.{
  Bool, true, false, ◌&&◌, ◌||◌, not, Option, none, some, List, [], ◌∷◌, if◌then◌else◌,
}
use forward_go_sdk.Prelude.Results.{Result, ok, err}
use forward_go_sdk.Text.{Text, cut, is_empty, trim_space}

-- An AuthMode is a string; `other_mode` is any that has no constant, and `unset` the empty one.
pub data AuthMode : Type 0 where
  unset user service collector browser unauthenticated : AuthMode
  other_mode : Text → AuthMode

pub record Cookie : Type 0 where
  pub name : Text
  pub value : Text

-- The errors of `NewClient`, one for each place that makes one.
pub data ConfigError : Type 0 where
  invalid_auth_mode token_and_password token_form : ConfigError
  credentials_for_none browser_half_credentials credentials_required : ConfigError
  base_url_required base_url_parse base_url_scheme base_url_host : ConfigError
  base_url_credentials base_url_query base_url_path : ConfigError
  cookies_need_browser tls_needs_http_transport : ConfigError

-- `normalizeAuthMode`
unfoldable pub normalize_auth_mode : AuthMode → Result ConfigError AuthMode
normalize_auth_mode unset = ok user
normalize_auth_mode user = ok user
normalize_auth_mode service = ok service
normalize_auth_mode collector = ok collector
normalize_auth_mode browser = ok browser
normalize_auth_mode unauthenticated = ok unauthenticated
normalize_auth_mode (other_mode s) = err invalid_auth_mode

abbrev pub is_browser : AuthMode → Bool
is_browser browser = true
is_browser _ = false

-- Whether requests carry Basic credentials: in all modes but browser and none.
abbrev pub is_basic : AuthMode → Bool
is_basic browser = false
is_basic unauthenticated = false
is_basic _ = true

token_parts : Option (Text × Text) → Result ConfigError (Text × Text)
token_parts none = err token_form
token_parts (some (access_key, secret)) =
    if is_empty (trim_space access_key) || is_empty secret
    then err token_form
    else ok (trim_space access_key, secret)

abbrev differ : Bool → Bool → Bool
differ true b = not b
differ false b = b

-- The check of the name, already trimmed, and the password, by the mode.
unfoldable pub checked_password : AuthMode → Text → Text → Result ConfigError (Text × Text)
checked_password unauthenticated username password =
    if not (is_empty username) || not (is_empty password)
    then err credentials_for_none
    else ok ([], [])
checked_password browser username password =
    if differ (is_empty username) (is_empty password)
    then err browser_half_credentials
    else ok (username, password)
checked_password _ username password =
    if is_empty username || is_empty password
    then err credentials_required
    else ok (username, password)

-- `authCredentials`
unfoldable pub auth_credentials :
    (api_token username password : Text) → AuthMode → Result ConfigError (Text × Text)
unfolding token_parts
auth_credentials api_token username password mode =
    let has_token = not (is_empty (trim_space api_token)) in
    let has_user_password = not (is_empty (trim_space username)) || not (is_empty password) in
    if has_token && has_user_password
    then err token_and_password
    else if has_token
    then token_parts (cut b':' (trim_space api_token))
    else checked_password mode (trim_space username) password

-- `copyCookies`; `none` is a nil pointer.
unfoldable pub copy_cookies : List (Option Cookie) → List Cookie
unfolding is_empty trim_space
copy_cookies [] = []
copy_cookies (none ∷ cookies) = copy_cookies cookies
copy_cookies (some cookie ∷ cookies) =
    let rest = copy_cookies cookies in
    if is_empty (trim_space cookie.name) || is_empty cookie.value then rest else cookie ∷ rest
