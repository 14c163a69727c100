-- ===== src/Client/Request/Laws.antt =====
-- Where requests go, and which carry credentials.
use mathlib.Core.Path.{subst}
use forward_go_sdk.Prelude.{
  ◌≡◌, refl, ap, Bool-cases, inl, inr, sym, ◌∙◌, Bool, true, false, Option, none, some, All, arith,
  if◌then◌else◌,
}
use forward_go_sdk.Prelude.Results.{Result, ok, err, >>=-eq-ok, ok_inj}
use forward_go_sdk.Text.{split, Text, codes, is_empty, trim_space}
use forward_go_sdk.Client.Auth.{is_basic}
use forward_go_sdk.Client.Url.{Url}
use forward_go_sdk.Client.Paths.{PathScope, PathError, api, is_allowed, resolve_scoped}
use forward_go_sdk.Client.Paths.Laws.{IsUrlParser, IsPlain, resolve_scoped-IsPlain}
use forward_go_sdk.Client.Config.{Config, Client, new_client}
use forward_go_sdk.Client.Config.Laws.{IsReady, IsBase, new_client-IsReady}
use forward_go_sdk.Client.Request.{
  Request, RequestAuth, target, created, from_origin, auth_of, scoped_credentials, new_request,
  new_scoped_request,
}

-- The URL of a request that stays with its client: the base's origin, and a path of the scope, with
-- no segment that a server might resolve to another path.
pub record Stays (base : Url) (scope : PathScope) (u : Url) : Type 0 where
  pub same_scheme : u.scheme ≡ base.scheme
  pub same_host : u.host ≡ base.host
  pub same_user : u.user ≡ base.user
  pub allowed : is_allowed scope u.escaped_path ≡ true
  pub plain : All IsPlain (split b'/' u.escaped_path)

-- Basic credentials stand in a request exactly if its mode has them, and are not empty then.
abbrev pub FitsMode : Request → Type 0
FitsMode req =
    (is_basic req.auth_mode ≡ false → req.basic_auth ≡ none)
    × (is_basic req.auth_mode ≡ true
        → (name : Text) × (password : Text) × (req.basic_auth ≡ some (name, password))
          × (is_empty (trim_space name) ≡ false)
          × (is_empty password ≡ false))

scoped_credentials-Fits :
    (auth : RequestAuth) {found : Option (Text × Text)}
    → scoped_credentials auth ≡ ok found
    → (is_basic auth.mode ≡ false → found ≡ none)
      × (is_basic auth.mode ≡ true
          → (name : Text) × (password : Text) × (found ≡ some (name, password))
            × (is_empty (trim_space name) ≡ false)
            × (is_empty password ≡ false))
unfolding scoped_credentials
scoped_credentials-Fits auth h = (
  λ b. ground arith,
  λ b. (auth.username, auth.password, ground arith, ground arith, ground arith),
)

scoped_credentials-own :
    (c : Client) (base : Url)
    → IsReady c base
    → scoped_credentials (auth_of c none)
      ≡ ok (if is_basic c.auth_mode then some (c.username, c.password) else none)
unfolding scoped_credentials
scoped_credentials-own c base ready = elim (Bool-cases (is_basic c.auth_mode)) [
  | inl b ↦
      let (trimmed, name, password) = ready.credentials b in
      let given : is_empty (trim_space c.username) ≡ false = rw trimmed name in
      ground (arith, given)
  | inr b ↦ ground arith
]

module _ (parse_url : Text → Option Url) (creates : Text → Url → Bool) where
  created-eq-ok :
      (method : Text) (r : Result PathError Url) {u : Url}
      → created parse_url creates method r ≡ ok u
      → r ≡ ok u
  unfolding created
  created-eq-ok method (ok url) h = ground arith
  created-eq-ok method (err e) h = cc

  target-at :
      (c : Client) (base : Url) (method path : Text) (scope : PathScope)
      → c.origin ≡ ok base
      → target parse_url creates c method path scope
        ≡ created parse_url creates method (resolve_scoped parse_url base path scope)
  unfolding target
  target-at c base method path scope h = ap (from_origin c.network_id _) h

  target-Stays :
      IsUrlParser parse_url
      → (c : Client) (base : Url) (method path : Text) (scope : PathScope) {u : Url}
      → c.origin ≡ ok base
      → target parse_url creates c method path scope ≡ ok u
      → Stays base scope u
  target-Stays lawful c base method path scope h e =
      let resolved = created-eq-ok method _ (sym (target-at c base method path scope h) ∙ e) in
      let (rel, _, same, allowed, plain) =
        resolve_scoped-IsPlain parse_url lawful base path scope resolved in
      record {
        same_scheme = same.0;
        same_host = same.1;
        same_user = same.2;
        allowed = allowed;
        plain = plain;
      }

  -- `NewRequest` and `newScopedRequest` are one for clients that `NewClient` returned: the first is
  -- the second with the scope of the API and no other credentials than the client's.
  pub new_request-eq-new_scoped_request :
      (cfg : Config) (c : Client) (method path : Text) (body : Option Text)
      → new_client parse_url cfg ≡ ok c
      → new_request parse_url creates c method path body
        ≡ new_scoped_request parse_url creates c method path body api none
  unfolding new_request new_scoped_request
  new_request-eq-new_scoped_request cfg c method path body h =
      let (base, ready) = new_client-IsReady parse_url cfg h in
      rw (scoped_credentials-own c base ready)

  -- What a client that `NewClient` returned requests by `newScopedRequest`, for any credentials of
  -- the operation, goes to the scheme, host and user of the client's base, which is an http or https
  -- origin without credentials, to a path of the scope each of whose segments decodes to something
  -- other than one or two dots; and the request carries Basic credentials exactly if its mode is not
  -- browser or none, with a name and a password that are not empty. This is for a parser of URLs that
  -- gives an opaque part only to URLs with a scheme, and an empty escaped path to an empty path.
  pub new_scoped_request-Stays :
      (cfg : Config) (c : Client) (method path : Text) (body : Option Text) (scope : PathScope)
      (auth : Option RequestAuth) (req : Request)
      → IsUrlParser parse_url
      → new_client parse_url cfg ≡ ok c
      → new_scoped_request parse_url creates c method path body scope auth ≡ ok req
      → (base : Url) × IsBase base × (c.origin ≡ ok base) × Stays base scope req.url × FitsMode req
  unfolding new_scoped_request
  new_scoped_request-Stays cfg c method path body scope auth req lawful h e =
      let (base, ready) = new_client-IsReady parse_url cfg h in
      let (url, at_url, e1) = >>=-eq-ok _ _ e in
      let (found, credentials, e2) = >>=-eq-ok (scoped_credentials (auth_of c auth)) _ e1 in
      subst
        (λ (q : Request).
          (base : Url) × IsBase base × (c.origin ≡ ok base) × Stays base scope q.url × FitsMode q)
        (ok_inj e2)
        (
          base,
          ready.base_fine,
          ready.based,
          target-Stays lawful c base method path scope ready.based at_url,
          scoped_credentials-Fits (auth_of c auth) credentials,
        )

  -- What a scoped request takes from its arguments.
  pub new_scoped_request-fields :
      (c : Client) (method path : Text) (body : Option Text) (scope : PathScope)
      (auth : Option RequestAuth) (req : Request)
      → new_scoped_request parse_url creates c method path body scope auth ≡ ok req
      → (req.method ≡ (if is_empty method then codes "GET" else method))
        × (req.auth_mode ≡ (auth_of c auth).mode)
        × FitsMode req
  unfolding new_scoped_request
  new_scoped_request-fields c method path body scope auth req e =
      let (url, _, e1) = >>=-eq-ok (target parse_url creates c method path scope) _ e in
      let (found, credentials, e2) = >>=-eq-ok (scoped_credentials (auth_of c auth)) _ e1 in
      subst
        (λ (q : Request).
          (q.method ≡ (if is_empty method then codes "GET" else method))
          × (q.auth_mode ≡ (auth_of c auth).mode)
          × FitsMode q)
        (ok_inj e2) (refl, refl, scoped_credentials-Fits (auth_of c auth) credentials)
