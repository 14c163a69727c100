-- ===== src/Client/Paths.antt =====
-- client.go: `resolveScoped` and `normalizeBaseURL`. `parse_url` stands for url.Parse.
pub mod Segments
pub mod Laws
use forward_go_sdk.Prelude.{
  ℕ, ◌==◌, Bool, true, false, ◌&&◌, ◌||◌, not, Option, none, some, List, [], ◌∷◌, if◌then◌else◌,
}
use forward_go_sdk.Prelude.Results.{Result, ok, err, ◌>>=◌, or_error}
use forward_go_sdk.Text.{split, Text, codes, text_eq, is_empty, trim_space, has_prefix}
use forward_go_sdk.Client.Auth.{
  ConfigError, base_url_required, base_url_parse, base_url_scheme, base_url_host,
  base_url_credentials, base_url_query, base_url_path,
}
use forward_go_sdk.Client.Url.{
  Url, has_user, is_abs, path_unescape, dot, dot_dot, resolve_reference,
}

pub data PathScope : Type 0 where
  api backup browser_paths : PathScope

pub data PathError : Type 0 where
  path_required path_parse path_absolute dot_segment out_of_scope : PathError

-- Whether the loop over the segments refuses this one.
unfoldable pub is_dot_segment : Text → Bool
unfolding path_unescape text_eq
is_dot_segment segment = elim (path_unescape segment) [
  | none ↦ true
  | some t ↦ text_eq t dot || text_eq t dot_dot
]

unfoldable pub any_dot_segment : List Text → Bool
unfolding is_dot_segment
any_dot_segment [] = false
any_dot_segment (s ∷ ss) = is_dot_segment s || any_dot_segment ss

unfoldable pub is_api_path : Text → Bool
unfolding has_prefix text_eq
is_api_path escaped = has_prefix escaped (codes "/api/") || text_eq escaped (codes "/api")

-- The `switch` on the scope.
unfoldable pub is_allowed : PathScope → Text → Bool
unfolding is_api_path has_prefix text_eq
is_allowed api escaped = is_api_path escaped
is_allowed backup escaped =
    text_eq escaped (codes "/api/backup-settings")
    || text_eq escaped (codes "/api/backup-settings/storage")
    || text_eq escaped (codes "/api/backups")
is_allowed browser_paths escaped =
    is_api_path escaped
    || text_eq escaped (codes "/login")
    || text_eq escaped (codes "/public/csrf")
    || has_prefix escaped (codes "/saml2/authenticate/")
    || has_prefix escaped (codes "/login/saml2/sso/")

-- What follows the parsing of a path.
unfoldable pub resolve_parsed : Url → PathScope → Url → Result PathError Url
unfolding is_abs split is_empty
resolve_parsed base scope rel =
    if is_abs rel || not (is_empty rel.host) || has_user rel.user
    then err path_absolute
    else if any_dot_segment (split b'/' rel.escaped_path)
    then err dot_segment
    else if not (is_allowed scope rel.escaped_path)
    then err out_of_scope
    else ok (resolve_reference base rel)

-- strings.TrimRight(s, "/")
unfoldable pub trim_right_slashes : Text → Text
unfolding is_empty
trim_right_slashes [] = []
trim_right_slashes (c ∷ s) =
    let rest = trim_right_slashes s in if c == b'/' && is_empty rest then [] else c ∷ rest

unfoldable pub checked_base : Url → Result ConfigError Url
checked_base u =
    let path = trim_right_slashes u.path in
    if not (text_eq u.scheme (codes "http")) && not (text_eq u.scheme (codes "https"))
    then err base_url_scheme
    else if is_empty u.host
    then err base_url_host
    else if has_user u.user
    then err base_url_credentials
    else if not (is_empty u.raw_query) || not (is_empty u.fragment)
    then err base_url_query
    else if is_empty path || text_eq path (codes "/api")
    then ok (record u { path = codes "/"; escaped_path = codes "/" })
    else err base_url_path

module _ (parse_url : Text → Option Url) where
  -- `resolveScoped`
  unfoldable pub resolve_scoped : Url → Text → PathScope → Result PathError Url
  unfolding is_empty
  resolve_scoped base path scope =
      if is_empty (trim_space path)
      then err path_required
      else or_error (parse_url (trim_space path)) path_parse >>= resolve_parsed base scope

  -- `normalizeBaseURL`
  unfoldable pub normalize_base_url : Text → Result ConfigError Url
  unfolding is_empty
  normalize_base_url raw =
      if is_empty (trim_space raw)
      then err base_url_required
      else or_error (parse_url (trim_space raw)) base_url_parse >>= checked_base
