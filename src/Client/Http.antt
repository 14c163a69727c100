-- ===== src/Client/Http.antt =====
-- client.go: `configureHTTPClient` and `secureRedirects`, over what they read of an *http.Client.
pub mod Laws
use forward_go_sdk.Prelude.{
  ℕ, ◌*◌, Bool, true, false, ◌||◌, ◌&&◌, not, Option, none, some, List, [], ◌∷◌, ◌++◌, leb, length,
  if◌then◌else◌,
}
use forward_go_sdk.Prelude.Results.{Result, ok, err}
use forward_go_sdk.Text.{Text}
use forward_go_sdk.Retry.Policy.{second}
use forward_go_sdk.Client.Auth.{ConfigError, tls_needs_http_transport}
use forward_go_sdk.Client.Url.{Url, same_origin}

-- A certificate pool is a name of it.
pub record TlsConfig : Type 0 where
  pub root_cas : Option Text
  pub insecure_skip_verify : Bool

-- `http_transport` is an *http.Transport with its TLSClientConfig.
pub data Transport : Type 0 where
  default_transport other_transport : Transport
  http_transport : Option TlsConfig → Transport

-- What http.Client does about a redirect, by the result of CheckRedirect.
pub data Redirect : Type 0 where
  follow use_last_response : Redirect
  redirect_error : Text → Redirect
  too_many_redirects : Redirect

-- CheckRedirect: the URL of the next request, and those of the ones that went before.
abbrev pub RedirectPolicy : Type 0
RedirectPolicy = Url → List Url → Redirect

pub record HttpClient : Type 0 where
  pub timeout : ℕ
  pub transport : Transport
  pub check_redirect : Option RedirectPolicy

abbrev pub default_timeout : ℕ
default_timeout = 60 * second

abbrev pub default_http_client : HttpClient
default_http_client = record {
  timeout = default_timeout;
  transport = default_transport;
  check_redirect = none;
}

unfoldable pub with_tls : Bool → Option Text → Option TlsConfig → TlsConfig
with_tls insecure roots none = record { root_cas = roots; insecure_skip_verify = insecure }
with_tls insecure none (some tls) = record tls {
  insecure_skip_verify = insecure || tls.insecure_skip_verify;
}
with_tls insecure (some pool) (some tls) = record {
  root_cas = some pool;
  insecure_skip_verify = insecure || tls.insecure_skip_verify;
}

-- A clone of the transport with the TLS settings; http.DefaultTransport is an *http.Transport that
-- has none.
unfoldable pub secured : Bool → Option Text → Transport → Result ConfigError Transport
unfolding with_tls
secured insecure roots default_transport = ok (http_transport (some (with_tls insecure roots none)))
secured insecure roots (http_transport tls) =
    ok (http_transport (some (with_tls insecure roots tls)))
secured insecure roots other_transport = err tls_needs_http_transport

abbrev is_some_roots : Option Text → Bool
is_some_roots none = false
is_some_roots (some _) = true

abbrev with_transport : HttpClient → Result ConfigError Transport → Result ConfigError HttpClient
with_transport client (ok transport) = ok (record client { transport = transport })
with_transport client (err e) = err e

abbrev or_default : Option HttpClient → HttpClient
or_default none = default_http_client
or_default (some source) = source

-- `configureHTTPClient`
unfoldable pub configure_http_client :
    Option HttpClient → Bool → Option Text → Result ConfigError HttpClient
unfolding secured
configure_http_client source insecure roots =
    let client = or_default source in
    if not insecure && not (is_some_roots roots)
    then ok client
    else with_transport client (secured insecure roots client.transport)

-- The caller's policy, or that of http.Client, which stops after ten requests.
abbrev by_caller : Option RedirectPolicy → RedirectPolicy
by_caller (some policy) url via = policy url via
by_caller none url via = if leb 10 (length via) then too_many_redirects else follow

-- The policy that `secureRedirects` sets.
unfoldable pub secure_policy : Url → Option RedirectPolicy → RedirectPolicy
unfolding same_origin
secure_policy origin caller_policy url via =
    if same_origin url origin then by_caller caller_policy url via else use_last_response

-- `secureRedirects`
unfoldable pub secure_redirects : HttpClient → Url → HttpClient
unfolding secure_policy
secure_redirects client origin = record client {
  check_redirect = some (secure_policy origin client.check_redirect);
}

-- The URLs that http.Client requests after the first one, where each answer redirects to the next
-- URL of a list; `via` are those requested before.
unfoldable pub follow_redirects : RedirectPolicy → List Url → List Url → List Url
follow_redirects policy via [] = []
follow_redirects policy via (url ∷ urls) =
    let rest = follow_redirects policy (via ++ url ∷ []) urls in
    elim (policy url via) [ follow ↦ url ∷ rest | _ ↦ [] ]

-- All that a request to `first` makes the client request, over a chain of redirects.
unfoldable pub requested : HttpClient → Url → List Url → List Url
unfolding follow_redirects
requested client first urls =
    first ∷ follow_redirects (by_caller client.check_redirect) (first ∷ []) urls
