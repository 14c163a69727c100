-- ===== src/Client/Do/Events.antt =====
-- What a hook sees of a call.
use forward_go_sdk.Prelude.{
  ℕ, ◌≡◌, Bool, false, Option, none, some, List, [], ◌∷◌, ◌++◌, arith, Bool-cases, inl, inr, length,
}
use forward_go_sdk.Prelude.Results.{Result, ok, err}
use forward_go_sdk.Client.Config.{Client}
use forward_go_sdk.Client.Request.{Request, RequestError}
use forward_go_sdk.Client.Csrf.{CsrfToken, browser_request_needs_csrf}
use forward_go_sdk.Client.Do.{
  Env, Destination, value, Sent, transport_error, received, HttpResponse, EventType, event_request,
  event_response, Event, CallError, answered, by_sent, exchange, fetched, browser_csrf_token,
  after_token, do_request, Fetched,
}

abbrev pub Describes : EventType → Request → Event → Type 0
Describes type q e =
    (e.event_type ≡ type)
    × (e.method ≡ q.method)
    × (e.path ≡ q.url.path)
    × (e.operation ≡ q.operation)
    × (e.auth_mode ≡ q.auth_mode)

-- Two events for each request, in the order of the requests: that it is sent, and how it ended.
abbrev pub Logged : List Request → List Event → Type 0
Logged [] [] = Unit {0}
Logged [] (_ ∷ _) = ⊥
Logged (q ∷ qs) [] = ⊥
Logged (q ∷ qs) (a ∷ []) = ⊥
Logged (q ∷ qs) (a ∷ b ∷ es) =
    Describes event_request q a × Describes event_response q b × Logged qs es

Logged-append :
    (qs rs : List Request) (es fs : List Event)
    → Logged qs es
    → Logged rs fs
    → Logged (qs ++ rs) (es ++ fs)
Logged-append [] rs [] fs h k = k
Logged-append [] rs (_ ∷ _) fs h k = absurd h
Logged-append (q ∷ qs) rs [] fs h k = absurd h
Logged-append (q ∷ qs) rs (a ∷ []) fs h k = absurd h
Logged-append (q ∷ qs) rs (a ∷ b ∷ es) fs h k = (h.0, h.1, Logged-append qs rs es fs h.2 k)

module _ (env : Env) (dst : Destination) (allow_empty : Bool) (accepted : Option (ℕ → Bool)) where
  answered-Logged :
      (q : Request) (r : HttpResponse)
      → Logged (q ∷ []) (answered env dst allow_empty accepted q r).events
  unfolding answered
  answered-Logged q r = ground arith

  by_sent-Logged :
      (q : Request) (s : Sent) → Logged (q ∷ []) (by_sent env dst allow_empty accepted q s).events
  unfolding by_sent
  by_sent-Logged q (transport_error e) = ground arith
  by_sent-Logged q (received r) = answered-Logged q r

  exchange-Logged :
      (n : ℕ) (q : Request) → Logged (q ∷ []) (exchange env dst allow_empty accepted n q).events
  unfolding exchange
  exchange-Logged n q = by_sent-Logged q (env.send n q)

fetched-Logged :
    (env : Env) (r : Result RequestError Request)
    → Logged (fetched env r).sent (fetched env r).events
unfolding fetched
fetched-Logged env (err e) = tt
fetched-Logged env (ok q) = exchange-Logged env value false none 0 q

browser_csrf_token-Logged :
    (env : Env) (c : Client) (session : Option CsrfToken)
    → Logged (browser_csrf_token env c session).sent (browser_csrf_token env c session).events
unfolding browser_csrf_token
browser_csrf_token-Logged env c (some t) = tt
browser_csrf_token-Logged env c none = fetched-Logged env _

module _ (env : Env) (dst : Destination) (allow_empty : Bool) (accepted : Option (ℕ → Bool)) where
  after_token-Logged :
      (req : Request) (session : Option CsrfToken) (f : Fetched) (r : Result CallError CsrfToken)
      → Logged f.sent f.events
      → let call = after_token env dst allow_empty accepted req session f r in
        Logged call.sent call.events
  unfolding after_token
  after_token-Logged req session f (err e) h = h
  after_token-Logged req session f (ok t) h =
      Logged-append f.sent _ f.events _ h
        (exchange-Logged env dst allow_empty accepted (length f.sent) _)

  -- A hook sees two events for each request that a call sends, the fetch of a token included, and
  -- no others: in the order of the requests a request event and a response event, both with the
  -- method, path, operation and mode of the request as it was sent.
  pub do_request-Logged :
      (c : Client) (session : Option CsrfToken) (req : Request)
      → let call = do_request env c session req dst allow_empty accepted in
        Logged call.sent call.events
  unfolding do_request
  do_request-Logged c session req = elim (Bool-cases (browser_request_needs_csrf req)) [
    | inl b ↦
        let f = browser_csrf_token env c session in
        rw b (after_token-Logged req session f f.token (browser_csrf_token-Logged env c session))
    | inr b ↦ rw b (exchange-Logged env dst allow_empty accepted 0 req)
  ]
