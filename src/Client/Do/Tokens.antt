-- ===== src/Client/Do/Tokens.antt =====
-- Which requests carry the session's token.
use forward_go_sdk.Prelude.{
  ℕ, ◌≡◌, refl, ◌⊎◌, Bool, false, Option, none, some, List, [], ◌∷◌, arith, Bool-cases, ap, inl,
  inr, All, All-append,
}
use forward_go_sdk.Prelude.Results.{Result, ok, err, ok_inj}
use mathlib.Core.Path.{subst}
use forward_go_sdk.Client.Url.{Url}
use forward_go_sdk.Client.Paths.{browser_paths}
use forward_go_sdk.Text.{Text, codes, to_lower, is_empty, trim_space}
use forward_go_sdk.Text.Laws.{text_eq_refl}
use forward_go_sdk.Client.Auth.{unauthenticated, is_basic}
use forward_go_sdk.Client.Config.{Client}
use forward_go_sdk.Client.Request.{
  Request, RequestError, get_header, set_header, new_scoped_request, mark_operation,
}
use forward_go_sdk.Client.Request.Laws.{new_scoped_request-fields}
use forward_go_sdk.Client.Csrf.{
  CsrfToken, browser_request_needs_csrf, header_of, attach_token, trimmed_token,
}
use forward_go_sdk.Client.Do.{
  Env, Destination, CallError, fetched, browser_csrf_token, after_token, do_request, Fetched,
  fetch_auth, checked_token, token_from, ExchangeError, HttpResponse, marked,
}

get_header-set_header :
    (name v : Text) (hs : List (Text × Text)) → get_header name (set_header name v hs) ≡ v
unfolding get_header set_header
get_header-set_header name v [] = ground (arith, text_eq_refl (to_lower name))
get_header-set_header name v ((n, w) ∷ hs) =
    ground (arith, text_eq_refl (to_lower name), get_header-set_header name v hs)

-- The request for the session's token.
abbrev pub IsFetch : Request → Type 0
IsFetch q =
    (q.method ≡ codes "GET")
    × (q.basic_auth ≡ none)
    × (q.auth_mode ≡ unauthenticated)
    × (browser_request_needs_csrf q ≡ false)

abbrev pub IsGiven : CsrfToken → Type 0
IsGiven t = is_empty (trim_space t.token) ≡ false

-- A session holds no token, or one that is not empty.
abbrev pub HoldsToken : Option CsrfToken → Type 0
HoldsToken none = Unit {0}
HoldsToken (some t) = IsGiven t

-- A request that the call for `req` may send, when it leaves the session with a token.
abbrev pub MaySend : Request → Option CsrfToken → Request → Type 0
MaySend req session q =
    IsFetch q
    ⊎ ((q ≡ req) × (browser_request_needs_csrf req ≡ false))
    ⊎ ((t : CsrfToken) × (session ≡ some t)
        × (q ≡ attach_token t req)
        × (get_header (header_of t) q.headers ≡ trim_space t.token)
        × IsGiven t)

attach_token-header :
    (t : CsrfToken) (req : Request)
    → get_header (header_of t) (attach_token t req).headers ≡ trim_space t.token
unfolding attach_token
attach_token-header t req = get_header-set_header (header_of t) (trim_space t.token) req.headers

abbrev Gives : Result CallError CsrfToken → Type 0
Gives (ok t) = IsGiven t
Gives (err e) = Unit {0}

checked_token-Gives : (o : Option CsrfToken) → Gives (checked_token o)
checked_token-Gives none = tt
checked_token-Gives (some t) = elim (Bool-cases (is_empty (trim_space t.token))) [
  | inl b ↦ rw b tt
  | inr b ↦ rw b b
]

token_from-Gives :
    (env : Env) (e : Option ExchangeError) (r : Option HttpResponse) → Gives (token_from env e r)
token_from-Gives env (some e) r = tt
token_from-Gives env none (some r) = checked_token-Gives (trimmed_token (env.token_of r))
token_from-Gives env none none = tt

marked-eq-ok :
    (r : Result RequestError Request) (q : Request)
    → marked r ≡ ok q
    → (p : Request) × (r ≡ ok p) × (mark_operation (codes "Browser.SessionCSRF") p ≡ q)
marked-eq-ok (ok p) q h = (p, refl, ok_inj h)
marked-eq-ok (err e) q h = cc

-- A request without a session needs no token.
unauthenticated-IsFetch :
    (q : Request)
    → q.method ≡ codes "GET"
    → q.auth_mode ≡ unauthenticated
    → q.basic_auth ≡ none
    → IsFetch q
unfolding browser_request_needs_csrf
unauthenticated-IsFetch q m a b = (m, b, a, ground arith)

IsFetch-request-IsFetch :
    (parse_url : Text → Option Url) (creates : Text → Url → Bool) (c : Client) (q : Request)
    → marked (
        new_scoped_request parse_url creates c
          (codes "GET")
          (codes "/api/public/csrf")
          none
          browser_paths
          (some fetch_auth))
      ≡ ok q
    → IsFetch q
unfolding mark_operation is_empty
IsFetch-request-IsFetch parse_url creates c q h =
    let (p, made, e) = marked-eq-ok _ q h in
    let (m, a, fits) =
      new_scoped_request-fields parse_url creates c _ _ none browser_paths _ p made in
    subst IsFetch e (
      unauthenticated-IsFetch (mark_operation (codes "Browser.SessionCSRF") p) m a
        (fits.0 (basic p a)))
  where
    basic : (p : Request) → p.auth_mode ≡ unauthenticated → is_basic p.auth_mode ≡ false
    basic p a = ap is_basic a

fetched-fetches :
    (env : Env) (r : Result RequestError Request)
    → ((q : Request) → r ≡ ok q → IsFetch q)
    → All IsFetch (fetched env r).sent × Gives (fetched env r).token
unfolding fetched
fetched-fetches env (err e) h = (tt, tt)
fetched-fetches env (ok q) h = ((h q refl, tt), token_from-Gives env _ _)

browser_csrf_token-fetches :
    (env : Env) (c : Client) (session : Option CsrfToken)
    → HoldsToken session
    → let f = browser_csrf_token env c session in All IsFetch f.sent × Gives f.token
unfolding browser_csrf_token
browser_csrf_token-fetches env c (some t) h = (tt, h)
browser_csrf_token-fetches env c none h =
    fetched-fetches env _ (IsFetch-request-IsFetch env.parse_url env.creates c)

fetches-MaySend :
    (req : Request) (session : Option CsrfToken) (qs : List Request)
    → All IsFetch qs
    → All (MaySend req session) qs
fetches-MaySend req session [] h = tt
fetches-MaySend req session (q ∷ qs) h = (inl h.0, fetches-MaySend req session qs h.1)

module _ (env : Env) (dst : Destination) (allow_empty : Bool) (accepted : Option (ℕ → Bool)) where
  after_token-MaySend :
      (req : Request) (session : Option CsrfToken) (f : Fetched) (r : Result CallError CsrfToken)
      → HoldsToken session
      → All IsFetch f.sent
      → Gives r
      → let call = after_token env dst allow_empty accepted req session f r in
        All (MaySend req call.session) call.sent × HoldsToken call.session
  unfolding after_token
  after_token-MaySend req session f (err e) holds h g =
      (fetches-MaySend req session f.sent h, holds)
  after_token-MaySend req session f (ok t) holds h g = (
    All-append _ f.sent _ (fetches-MaySend req (some t) f.sent h)
        (inr (inr (t, refl, refl, attach_token-header t req, g)), tt),
    g,
  )

  -- Where the session holds no token or one that is not empty, each request that a call sends is a
  -- GET for a token, in the mode none and without Basic credentials, which needs no token itself, or
  -- the call's request as it was given, which then needs no token, or that request with the token
  -- that the session holds after the call, which is not empty, in the header that the token names.
  -- After the call the session holds no token or one that is not empty.
  pub do_request-MaySend :
      (c : Client) (session : Option CsrfToken) (req : Request)
      → HoldsToken session
      → let call = do_request env c session req dst allow_empty accepted in
        All (MaySend req call.session) call.sent × HoldsToken call.session
  unfolding do_request
  do_request-MaySend c session req holds = elim (Bool-cases (browser_request_needs_csrf req)) [
    | inl b ↦
        let f = browser_csrf_token env c session in
        let (fetches, given) = browser_csrf_token-fetches env c session holds in
        rw b (after_token-MaySend req session f f.token holds fetches given)
    | inr b ↦ rw b ((inr (inl (refl, b)), tt), holds)
  ]
