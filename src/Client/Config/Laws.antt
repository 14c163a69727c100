-- ===== src/Client/Config/Laws.antt =====
-- What a client that was made holds, and how the bound network is found.
use mathlib.Core.Path.{subst}
use forward_go_sdk.Client.Http.{HttpClient, configure_http_client}
use forward_go_sdk.Prelude.{
  sym, ◌≡◌, refl, ◌⊎◌, true, false, Option, none, some, List, [], ◌∷◌, arith, if◌then◌else◌,
}
use forward_go_sdk.Prelude.Results.{Result, ok, err, >>=-eq-ok, or_error, ok_inj, ◌>>=◌}
use forward_go_sdk.Text.{cut, Text, codes, is_empty, trim_space}
use forward_go_sdk.Text.Laws.{eq-text_eq, trim_space_idem}
use forward_go_sdk.Client.Auth.{
  AuthMode, unset, browser, unauthenticated, other_mode, is_browser, is_basic, Cookie, ConfigError,
  normalize_auth_mode, auth_credentials, checked_password,
}
use forward_go_sdk.Client.Url.{Url, has_user}
use forward_go_sdk.Client.Paths.{normalize_base_url, checked_base}
use forward_go_sdk.Client.Auth.{base_url_required, base_url_parse}
use forward_go_sdk.Client.Config.{
  Config, Client, checked_cookies, make_client, new_client, for_network, resolve_network_id,
}

-- A URL that a client can be based on: an origin, and nothing else.
pub record IsBase (u : Url) : Type 0 where
  pub web : (u.scheme ≡ codes "http") ⊎ (u.scheme ≡ codes "https")
  pub hosted : is_empty u.host ≡ false
  pub anonymous : has_user u.user ≡ false
  pub rooted : u.escaped_path ≡ codes "/"
  pub no_query : is_empty u.raw_query ≡ true
  pub no_fragment : is_empty u.fragment ≡ true

abbrev pub IsNormal : AuthMode → Type 0
IsNormal unset = ⊥
IsNormal (other_mode s) = ⊥
IsNormal _ = Unit {0}

-- The credentials that a mode calls for.
abbrev pub Fits : AuthMode → Text → Text → Type 0
Fits unauthenticated username password = (username ≡ []) × (password ≡ [])
Fits browser username password = is_empty username ≡ is_empty password
Fits _ username password = (is_empty username ≡ false) × (is_empty password ≡ false)

pub record IsReady (c : Client) (base : Url) : Type 0 where
  pub based : c.origin ≡ ok base
  pub base_fine : IsBase base
  pub normal : IsNormal c.auth_mode
  pub credentials :
      is_basic c.auth_mode ≡ true
      → (trim_space c.username ≡ c.username)
        × (is_empty c.username ≡ false)
        × (is_empty c.password ≡ false)
  pub no_stray_cookies : is_browser c.auth_mode ≡ false → c.seeded_cookies ≡ []

checked_base-IsBase : (v : Url) {u : Url} → checked_base v ≡ ok u → IsBase u
unfolding checked_base
checked_base-IsBase v h =
    let scheme = λ (t : Text). eq-text_eq v.scheme t in
    ground (arith, scheme (codes "http"), scheme (codes "https"))

normalize_auth_mode-IsNormal :
    (m : AuthMode) {n : AuthMode} → normalize_auth_mode m ≡ ok n → IsNormal n
unfolding normalize_auth_mode
normalize_auth_mode-IsNormal m h = ground arith

checked_password-basic :
    (mode : AuthMode) (name password : Text) {n p : Text}
    → is_basic mode ≡ true
    → checked_password mode name password ≡ ok (n, p)
    → (n ≡ name) × (is_empty n ≡ false) × (is_empty p ≡ false)
unfolding checked_password
checked_password-basic mode name password b h = ground arith

auth_credentials-basic :
    (token name password : Text) (mode : AuthMode) {n p : Text}
    → is_basic mode ≡ true
    → auth_credentials token name password mode ≡ ok (n, p)
    → (trim_space n ≡ n) × (is_empty n ≡ false) × (is_empty p ≡ false)
unfolding auth_credentials
auth_credentials-basic token name password mode {n} {p} b h =
    let key =
      λ (parts : Option (Text × Text)). elim parts as (λ _. Text) [ none ↦ [] | some (k, _) ↦ k ] in
    ground (
      arith,
      checked_password-basic mode (trim_space name) password {n = n} {p = p} b,
      trim_space_idem name,
      trim_space_idem (key (cut b':' (trim_space token))),
    )

checked_cookies-none :
    (mode : AuthMode) (cookies : List (Option Cookie)) {cs : List Cookie}
    → is_browser mode ≡ false
    → checked_cookies mode cookies ≡ ok cs
    → cs ≡ []
unfolding checked_cookies
checked_cookies-none mode cookies b h = ground arith

normalize_base_url-IsBase :
    (parse_url : Text → Option Url) (raw : Text) {u : Url}
    → normalize_base_url parse_url raw ≡ ok u
    → IsBase u
unfolding normalize_base_url
normalize_base_url-IsBase parse_url raw {u} h =
    let (v, _, q) =
      >>=-eq-ok (or_error (parse_url (trim_space raw)) base_url_parse) checked_base (filled h) in
    checked_base-IsBase v q
  where
    filled :
        {r : Result ConfigError Url}
        → (if is_empty (trim_space raw) then err base_url_required else r) ≡ ok u
        → r ≡ ok u
    filled h = ground arith

-- The steps that a made client passed, and what they returned.
abbrev Made : Config → Result ConfigError Url → Result ConfigError AuthMode → Client → Type 0
Made cfg based normal c =
    (base : Url) × (mode : AuthMode) × (name : Text) × (password : Text) × (cookies : List Cookie)
    × (http_client : HttpClient) × (based ≡ ok base)
    × (normal ≡ ok mode)
    × (auth_credentials cfg.api_token cfg.username cfg.password mode ≡ ok (name, password))
    × (checked_cookies mode cfg.cookies ≡ ok cookies)
    × (make_client cfg base mode (name, password) cookies http_client ≡ c)

Made-of :
    (cfg : Config) (base : Url) (mode : AuthMode) (r : Result ConfigError (Text × Text))
    (s : Result ConfigError (List Cookie)) (t : Result ConfigError HttpClient) {c : Client}
    → r ≡ auth_credentials cfg.api_token cfg.username cfg.password mode
    → s ≡ checked_cookies mode cfg.cookies
    → (do
      credentials ← r
      cookies ← s
      http_client ← t
      ok (make_client cfg base mode credentials cookies http_client))
      ≡ ok c
    → Made cfg (ok base) (ok mode) c
Made-of cfg base mode (ok (name, password)) (ok cookies) (ok client) p q h =
    (base, mode, name, password, cookies, client, refl, refl, sym p, sym q, ok_inj h)
Made-of cfg base mode (err e) s t p q h = cc
Made-of cfg base mode (ok _) (err e) t p q h = cc
Made-of cfg base mode (ok _) (ok cookies) (err e) p q h = cc

new_client-Made :
    (parse_url : Text → Option Url) (cfg : Config) {c : Client}
    → new_client parse_url cfg ≡ ok c
    → Made cfg (normalize_base_url parse_url cfg.base_url) (normalize_auth_mode cfg.auth_mode) c
unfolding new_client
new_client-Made parse_url cfg {c} h =
    go (normalize_base_url parse_url cfg.base_url) (normalize_auth_mode cfg.auth_mode) h
  where
    go :
        (r : Result ConfigError Url) (s : Result ConfigError AuthMode)
        → (do
          base_url ← r
          mode ← s
          credentials ← auth_credentials cfg.api_token cfg.username cfg.password mode
          cookies ← checked_cookies mode cfg.cookies
          http_client ← configure_http_client cfg.http_client cfg.insecure_skip_verify cfg.root_cas
          ok (make_client cfg base_url mode credentials cookies http_client))
          ≡ ok c
        → Made cfg r s c
    go (ok base) (ok mode) k = Made-of cfg base mode _ _ _ refl refl k
    go (err e) s k = cc
    go (ok base) (err e) k = cc

-- A client that `NewClient` returns is based on an http or https URL with a host, no credentials, no
-- query and no fragment, whose path is the root; its mode is one of the five; in a
-- mode with Basic authentication its name, which is trimmed, and its password are not empty; and only in browser mode
-- has it cookies.
pub new_client-IsReady :
    (parse_url : Text → Option Url) (cfg : Config) {c : Client}
    → new_client parse_url cfg ≡ ok c
    → (base : Url) × IsReady c base
unfolding make_client
new_client-IsReady parse_url cfg {c} h =
    let (base, mode, name, password, cookies, client, p, q, r, s, e) =
      new_client-Made parse_url cfg h in
    (
      base,
      subst (λ c. IsReady c base) e
          (record {
            based = refl;
            base_fine = normalize_base_url-IsBase parse_url cfg.base_url p;
            normal = normalize_auth_mode-IsNormal cfg.auth_mode q;
            credentials = λ b. auth_credentials-basic _ _ _ mode b r;
            no_stray_cookies = λ b. checked_cookies-none mode cfg.cookies b s;
          }),
    )

-- The first text that is not empty.
abbrev pub first_given : List Text → Option Text
first_given [] = none
first_given (t ∷ ts) = if is_empty t then first_given ts else some t

-- On a client that `ForNetwork` bound, a call's network is the one that the call names, or else the
-- one that was bound, or else the network of the client that was cloned; texts count without the
-- white space around them, and an empty one is none.
pub resolve_network_id-for_network :
    (c : Client) (bound asked : Text)
    → resolve_network_id (for_network (some c) bound) asked
      ≡ first_given (trim_space asked ∷ trim_space bound ∷ c.network_id ∷ [])
unfolding resolve_network_id for_network
resolve_network_id-for_network c bound asked =
    ground (arith, eq-text_eq (trim_space bound) c.network_id)

-- A clone for another network is as ready as its client, on the same base.
pub for_network-IsReady :
    (c : Client) (base : Url) (id : Text) → IsReady c base → IsReady (for_network (some c) id) base
unfolding for_network
for_network-IsReady c base id h = ground arith
