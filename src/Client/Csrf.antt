-- ===== src/Client/Csrf.antt =====
-- browser_csrf.go and browser.go: when a request needs the session's token, and how it carries it.
use forward_go_sdk.Prelude.{Bool, true, ◌&&◌, not, Option, none, some, List, [], ◌∷◌, if◌then◌else◌}
use forward_go_sdk.Text.{Text, codes, is_empty, is_member, trim_space}
use forward_go_sdk.Client.Auth.{is_browser}
use forward_go_sdk.Client.Request.{Request, get_header, set_header, with_header}

-- BrowserCSRFToken
pub record CsrfToken : Type 0 where
  pub header_name : Text
  pub parameter_name : Text
  pub token : Text

abbrev pub default_browser_csrf_header : Text
default_browser_csrf_header = codes "X-CSRF-TOKEN"

abbrev safe_methods : List Text
safe_methods = codes "GET" ∷ codes "HEAD" ∷ codes "OPTIONS" ∷ codes "TRACE" ∷ []

-- `browserRequestNeedsCSRF`, with the mode of the request's metadata.
unfoldable pub browser_request_needs_csrf : Request → Bool
unfolding is_member get_header is_empty
browser_request_needs_csrf req =
    is_browser req.auth_mode
    && not (is_member req.method safe_methods)
    && not req.skip_csrf
    && is_empty (get_header default_browser_csrf_header req.headers)

-- `skipBrowserCSRF`
unfoldable pub skip_browser_csrf : Request → Request
skip_browser_csrf req = record req { skip_csrf = true }

-- The header that a token goes in.
unfoldable pub header_of : CsrfToken → Text
header_of t =
    if is_empty (trim_space t.header_name)
    then default_browser_csrf_header
    else trim_space t.header_name

-- The end of `attachBrowserCSRF`.
unfoldable pub attach_token : CsrfToken → Request → Request
unfolding header_of set_header
attach_token t = with_header (header_of t) (trim_space t.token)

-- The check of a token that `fetchPublicCSRF` read; `none` is the error.
unfoldable pub trimmed_token : CsrfToken → Option CsrfToken
trimmed_token t =
    let parameter_name = trim_space t.parameter_name in
    let token = trim_space t.token in
    if (if is_empty parameter_name then true else is_empty token)
    then none
    else some (record {
      header_name = trim_space t.header_name;
      parameter_name = parameter_name;
      token = token;
    })
