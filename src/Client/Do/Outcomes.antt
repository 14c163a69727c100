-- ===== src/Client/Do/Outcomes.antt =====
-- What a call returns, against the response that it got.
use mathlib.Core.Path.{subst}
use forward_go_sdk.Text.{codes, is_empty, trim_space}
use forward_go_sdk.Client.Paths.{browser_paths}
use forward_go_sdk.Prelude.{
  ℕ, ◌≡◌, refl, Bool, true, false, Option, none, some, List, [], ◌∷◌, ◌++◌, Bool-cases, length, inl,
  inr, ◌⊎◌,
}
use forward_go_sdk.Prelude.Results.{Result, ok, err}
use forward_go_sdk.Errors.Response.{new_error_response}
use forward_go_sdk.Client.Config.{Client}
use forward_go_sdk.Client.Request.{Request, RequestError, new_scoped_request}
use forward_go_sdk.Client.Csrf.{CsrfToken, browser_request_needs_csrf, attach_token, trimmed_token}
use forward_go_sdk.Client.Do.{
  Env, Call, value, marked, fetch_auth, Destination, Sent, transport_error, received, HttpResponse,
  Event, EventError, event_transport, event_status, event_decode, ExchangeError, send_request,
  api_error, decode_response, CallError, exchange_error, csrf_request, csrf_exchange,
  csrf_fields_missing, csrf_no_token, accepts, fails, answered, by_sent, exchange, fetched,
  browser_csrf_token, after_token, do_request, Fetched, failure, token_from, checked_token,
}

-- The last event.
abbrev pub last_event : List Event → Option Event
last_event [] = none
last_event (e ∷ []) = some e
last_event (_ ∷ e ∷ es) = last_event (e ∷ es)

-- The status and the error of the last event.
abbrev pub Ends : List Event → ℕ → Option EventError → Type 0
Ends es status error =
    (e : Event) × (last_event es ≡ some e) × (e.status_code ≡ status) × (e.error ≡ error)

last_event-append :
    (fs es : List Event) (e : Event) → last_event es ≡ some e → last_event (fs ++ es) ≡ some e
last_event-append [] es e h = h
last_event-append (f ∷ []) [] e h = cc
last_event-append (f ∷ []) (g ∷ es) e h = h
last_event-append (f ∷ g ∷ fs) es e h = last_event-append (g ∷ fs) es e h

Ends-append :
    (fs es : List Event) {status : ℕ} {error : Option EventError}
    → Ends es status error
    → Ends (fs ++ es) status error
Ends-append fs es (e, l, s, r) = (e, last_event-append fs es e l, s, r)

-- The last of the requests sent is `q`, and `send` gave `x` for it.
abbrev pub Answered : Env → List Request → Request → Sent → Type 0
Answered env sent q x =
    (front : List Request) × (sent ≡ front ++ q ∷ []) × (env.send (length front) q ≡ x)

module _ (env : Env) (dst : Destination) (allow_empty : Bool) (accepted : Option (ℕ → Bool)) where
  -- What an exchange makes of a response: an error of the API if the status is not accepted, a
  -- failure to decode, or no error; the last event agrees.
  abbrev pub Settles : HttpResponse → Option ExchangeError → List Event → Type 0
  Settles r e es =
      ((accepts accepted r.status ≡ false)
        × (e
            ≡ some (
                api_error (
                  new_error_response env.decode env.aliases
                    (record { status = r.status; request = r.request }) r.body)))
        × Ends es r.status (some (event_status r.status)))
      ⊎ (((accepts accepted r.status ≡ true)
            × (fails dst allow_empty (env.read dst r) ≡ true)
            × (e ≡ some decode_response)
            × Ends es r.status (some event_decode))
          ⊎ ((accepts accepted r.status ≡ true)
              × (fails dst allow_empty (env.read dst r) ≡ false)
              × (e ≡ none)
              × Ends es r.status none))

  -- What `send` gave decides the error and the response of an exchange.
  abbrev pub Explained : Sent → Option ExchangeError → Option HttpResponse → List Event → Type 0
  Explained (transport_error m) e response es =
      (e ≡ some (send_request m)) × (response ≡ none) × Ends es 0 (some event_transport)
  Explained (received r) e response es = (response ≡ some r) × Settles r e es

  answered-Settles :
      (q : Request) (r : HttpResponse)
      → let x = answered env dst allow_empty accepted q r in
        (x.response ≡ some r) × Settles r x.error x.events
  unfolding answered
  answered-Settles q r = elim (Bool-cases (accepts accepted r.status)) [
    | inl a ↦ elim (Bool-cases (fails dst allow_empty (env.read dst r))) [
      | inl f ↦ rw (a, f) (refl, inr (inl (refl, refl, refl, (_, refl, refl, refl))))
      | inr f ↦ rw (a, f) (refl, inr (inr (refl, refl, refl, (_, refl, refl, refl))))
    ]
    | inr a ↦ rw a (refl, inl (refl, refl, (_, refl, refl, refl)))
  ]

  by_sent-Explained :
      (q : Request) (sent : Sent)
      → let x = by_sent env dst allow_empty accepted q sent in
        Explained sent x.error x.response x.events
  unfolding by_sent
  by_sent-Explained q (transport_error e) = (refl, refl, (_, refl, refl, refl))
  by_sent-Explained q (received r) = answered-Settles q r

  Settles-append :
      (r : HttpResponse) (e : Option ExchangeError) (fs es : List Event)
      → Settles r e es
      → Settles r e (fs ++ es)
  Settles-append r e fs es (inl (a, f, h)) = inl (a, f, Ends-append fs es h)
  Settles-append r e fs es (inr (inl (a, f, g, h))) = inr (inl (a, f, g, Ends-append fs es h))
  Settles-append r e fs es (inr (inr (a, f, g, h))) = inr (inr (a, f, g, Ends-append fs es h))

  Explained-append :
      (sent : Sent) (e : Option ExchangeError) (r : Option HttpResponse) (fs es : List Event)
      → Explained sent e r es
      → Explained sent e r (fs ++ es)
  Explained-append (transport_error m) e r fs es (p, q, h) = (p, q, Ends-append fs es h)
  Explained-append (received resp) e r fs es (p, h) = (p, Settles-append resp e fs es h)

  exchange-Explained :
      (n : ℕ) (q : Request) (fs : List Event)
      → let x = exchange env dst allow_empty accepted n q in
        Explained (env.send n q) x.error x.response (fs ++ x.events)
  unfolding exchange
  exchange-Explained n q fs = Explained-append _ _ _ fs _ (by_sent-Explained q (env.send n q))

-- The request for a new token.
abbrev pub token_request : Env → Client → Result RequestError Request
token_request env c = marked (
    new_scoped_request env.parse_url env.creates c (codes "GET") (codes "/api/public/csrf") none
      browser_paths (some fetch_auth))

-- The request for a token was the only one, and its exchange ended with `e` and `r`.
abbrev pub TokenAsked :
    Env → List Request → List Event → Option ExchangeError → Option HttpResponse → Type 0
TokenAsked env sent es e r =
    (q : Request) × (sent ≡ q ∷ []) × Explained env value false none (env.send 0 q) e r es

-- Why a call got no token: the request could not be made, its exchange failed, or the response has
-- no token.
abbrev pub NoToken : Env → Client → CallError → List Request → List Event → Type 0
NoToken env c (exchange_error e) sent es = ⊥
NoToken env c (csrf_request e) sent es = (token_request env c ≡ err e) × (sent ≡ []) × (es ≡ [])
NoToken env c (csrf_exchange e) sent es =
    (r : Option HttpResponse) × TokenAsked env sent es (some e) r
NoToken env c csrf_fields_missing sent es =
    (r : HttpResponse) × TokenAsked env sent es none (some r)
    × (trimmed_token (env.token_of r) ≡ none)
NoToken env c csrf_no_token sent es =
    (r : HttpResponse) × TokenAsked env sent es none (some r)
    × ((t : CsrfToken) × (trimmed_token (env.token_of r) ≡ some t)
        × (is_empty (trim_space t.token) ≡ true))

abbrev TokenEnd : Env → Client → Result CallError CsrfToken → List Request → List Event → Type 0
TokenEnd env c (ok t) sent es = Unit {0}
TokenEnd env c (err e) sent es = NoToken env c e sent es

checked_token-TokenEnd :
    (env : Env) (c : Client) (sent : List Request) (es : List Event) (r : HttpResponse)
    (o : Option CsrfToken)
    → trimmed_token (env.token_of r) ≡ o
    → TokenAsked env sent es none (some r)
    → TokenEnd env c (checked_token o) sent es
checked_token-TokenEnd env c sent es r none p h = (r, h, p)
checked_token-TokenEnd env c sent es r (some t) p h =
    elim (Bool-cases (is_empty (trim_space t.token))) [
      | inl b ↦ rw b (r, h, (t, p, b))
      | inr b ↦ rw b tt
    ]

-- An exchange without an error has a response.
answered_of :
    (env : Env) (x : Sent) (es : List Event) → ¬ Explained env value false none x none none es
answered_of env (transport_error m) es (p, _, _) = cc
answered_of env (received r) es (p, _) = cc

token_from-TokenEnd :
    (env : Env) (c : Client) (sent : List Request) (es : List Event) (e : Option ExchangeError)
    (r : Option HttpResponse)
    → TokenAsked env sent es e r
    → TokenEnd env c (token_from env e r) sent es
token_from-TokenEnd env c sent es (some e) r h = (r, h)
token_from-TokenEnd env c sent es none (some r) h =
    checked_token-TokenEnd env c sent es r (trimmed_token (env.token_of r)) refl h
token_from-TokenEnd env c sent es none none (q, _, h) = absurd (answered_of env _ es h)

fetched-TokenEnd :
    (env : Env) (c : Client) (r : Result RequestError Request)
    → token_request env c ≡ r
    → let f = fetched env r in TokenEnd env c f.token f.sent f.events
unfolding fetched
fetched-TokenEnd env c (err e) p = (p, refl, refl)
fetched-TokenEnd env c (ok q) p =
    token_from-TokenEnd env c (q ∷ []) _ _ _
      (q, refl, exchange-Explained env value false none 0 q [])

-- The request of a call, or the same with a token.
abbrev pub IsOwn : Request → Request → Type 0
IsOwn req q = (q ≡ req) ⊎ ((t : CsrfToken) × (q ≡ attach_token t req))

-- A call ended with the exchange of its own request, the last one that it sent, or without a token,
-- which it had to ask for.
abbrev pub CallExplained :
    Env
    → Destination
    → Bool
    → Option (ℕ → Bool)
    → Client
    → Option CsrfToken
    → Request
    → Call
    → Type 0
CallExplained env dst allow_empty accepted c session req call =
    ((q : Request) × (x : Sent) × (e : Option ExchangeError) × IsOwn req q
      × Answered env call.sent q x
      × (call.error ≡ failure e)
      × Explained env dst allow_empty accepted x e call.response call.events)
    ⊎ ((browser_request_needs_csrf req ≡ true)
        × (session ≡ none)
        × (call.response ≡ none)
        × ((e : CallError) × (call.error ≡ some e) × NoToken env c e call.sent call.events))

module _ (env : Env) (dst : Destination) (allow_empty : Bool) (accepted : Option (ℕ → Bool))
    (c : Client) (req : Request) where
  with_token-CallExplained :
      (session : Option CsrfToken) (f : Fetched) (t : CsrfToken)
      → CallExplained env dst allow_empty accepted c session req
          (after_token env dst allow_empty accepted req session f (ok t))
  unfolding after_token
  with_token-CallExplained session f t = inl (
    attach_token t req,
    env.send (length f.sent) (attach_token t req),
    _,
    inr (t, refl),
    (f.sent, refl, refl),
    refl,
    exchange-Explained env dst allow_empty accepted (length f.sent) (attach_token t req) f.events,
  )

  without_session-CallExplained :
      (f : Fetched) (r : Result CallError CsrfToken)
      → browser_request_needs_csrf req ≡ true
      → TokenEnd env c r f.sent f.events
      → CallExplained env dst allow_empty accepted c none req
          (after_token env dst allow_empty accepted req none f r)
  unfolding after_token
  without_session-CallExplained f (ok t) b h = with_token-CallExplained none f t
  without_session-CallExplained f (err e) b h = inr (b, refl, refl, (e, refl, h))

  fetched_call-CallExplained :
      (session : Option CsrfToken)
      → browser_request_needs_csrf req ≡ true
      → let f = browser_csrf_token env c session in
        CallExplained env dst allow_empty accepted c session req
          (after_token env dst allow_empty accepted req session f f.token)
  unfolding browser_csrf_token
  fetched_call-CallExplained (some t) b = with_token-CallExplained (some t) _ t
  fetched_call-CallExplained none b =
      without_session-CallExplained (fetched env (token_request env c)) _ b
        (fetched-TokenEnd env c (token_request env c) refl)

  do_request-guarded :
      (session : Option CsrfToken)
      → browser_request_needs_csrf req ≡ true
      → let f = browser_csrf_token env c session in
        after_token env dst allow_empty accepted req session f f.token
        ≡ do_request env c session req dst allow_empty accepted
  unfolding do_request
  do_request-guarded session b = rw b refl

  -- A call ends in one of two ways. Either the last request that it sent is its own, as given or with
  -- a token, and what `send` gave for it decides the rest: a transport error is the error of the
  -- call, without a response; a response is the response of the call, and the error is what
  -- newErrorResponse makes of it if its status is not accepted, else a failure to decode if its body
  -- cannot be read or is empty where it must not be, and else none. Or the call needed a token that
  -- the session did not have, and returns no response, and the error says why: the request for the
  -- token could not be made, and nothing was sent; or that request is all that was sent, and its
  -- exchange failed in one of the ways above, or its response names no token or an empty one. Where
  -- a request was sent the last event has the status and the kind of error of its exchange.
  pub do_request-CallExplained :
      (session : Option CsrfToken)
      → CallExplained env dst allow_empty accepted c session req
          (do_request env c session req dst allow_empty accepted)
  unfolding do_request
  do_request-CallExplained session = elim (Bool-cases (browser_request_needs_csrf req)) [
    | inl b ↦
        subst (CallExplained env dst allow_empty accepted c session req)
          (do_request-guarded session b) (fetched_call-CallExplained session b)
    | inr b ↦ rw b (
        inl (
          req,
          env.send 0 req,
          _,
          inl refl,
          ([], refl, refl),
          refl,
          exchange-Explained env dst allow_empty accepted 0 req [],
        ))
  ]
