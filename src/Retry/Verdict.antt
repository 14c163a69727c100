-- ===== src/Retry/Verdict.antt =====
-- retry.go: what `retryable` decides, against the rules of its documentation.
use forward_go_sdk.Prelude.{
  ℕ, ◌≤◌, ◌≡◌, ◌≢◌, ◌⊎◌, ◌↔◌, arith, Bool, true, false, ◌||◌, Option, none, some, inl, inr,
}
use forward_go_sdk.Retry.Policy.{
  Request, Response, TransportError, is_permanent, idempotent, retryable, retryable_outcome,
  retryable_status,
}

-- A method that is idempotent, or a call marked so.
abbrev pub IsRepeatable : Request → Type 0
IsRepeatable req = (idempotent req.method ≡ true) ⊎ (req.idempotent_mark ≡ true)

abbrev pub IsRefusal : ℕ → Type 0
IsRefusal status = (status ≡ 429) ⊎ (status ≡ 503)

-- The reasons to send a request again, `refused_only` and `unconnected` given.
pub data MayRepeat (req : Request) (refused_only unconnected : Bool)
    : Option Response → Option TransportError → Type 0 where
  turned_away :
      (r : Response) → IsRefusal r.status → MayRepeat req refused_only unconnected (some r) none
  server_error :
      (r : Response)
      → refused_only ≡ false
      → 500 ≤ r.status
      → r.status ≢ 501
      → IsRepeatable req
      → MayRepeat req refused_only unconnected (some r) none
  never_sent :
      (resp : Option Response) (e : TransportError)
      → refused_only ≡ false
      → is_permanent e ≡ false
      → unconnected ≡ true
      → MayRepeat req refused_only unconnected resp (some e)
  outcome_unknown :
      (resp : Option Response) (e : TransportError)
      → refused_only ≡ false
      → is_permanent e ≡ false
      → IsRepeatable req
      → MayRepeat req refused_only unconnected resp (some e)

module _ (req : Request) (refused_only unconnected : Bool) where
  status_ok :
      (status : ℕ) (b : Bool)
      → retryable_status status refused_only b ≡ true
      → IsRefusal status ⊎ ((refused_only ≡ false) × (500 ≤ status) × (status ≢ 501) × (b ≡ true))
  unfolding retryable_status
  status_ok status b h = ground arith

  or_ok : (a b : Bool) → (a || b) ≡ true → (a ≡ true) ⊎ (b ≡ true)
  or_ok a b h = ground arith

  error_ok :
      (e : TransportError) (resp : Option Response)
      → retryable_outcome req resp (some e) refused_only unconnected ≡ true
      → (refused_only ≡ false)
        × (is_permanent e ≡ false)
        × ((unconnected ≡ true) ⊎ IsRepeatable req)
  unfolding retryable_outcome
  error_ok e resp h = ground arith

  outcome_sound :
      (resp : Option Response) (err : Option TransportError)
      → retryable_outcome req resp err refused_only unconnected ≡ true
      → MayRepeat req refused_only unconnected resp err
  unfolding retryable_outcome
  outcome_sound resp (some e) h = elim (error_ok e resp h).2 [
    | inl u ↦ never_sent resp e (error_ok e resp h).0 (error_ok e resp h).1 u
    | inr u ↦ outcome_unknown resp e (error_ok e resp h).0 (error_ok e resp h).1 u
  ]
  outcome_sound (some r) none h = elim (status_ok r.status _ h) [
    | inl p ↦ turned_away r p
    | inr (a, b, c, d) ↦ server_error r a b c (or_ok _ _ d)
  ]
  outcome_sound none none h = cc

  outcome_complete :
      (resp : Option Response) (err : Option TransportError)
      → MayRepeat req refused_only unconnected resp err
      → retryable_outcome req resp err refused_only unconnected ≡ true
  unfolding retryable_outcome retryable_status
  outcome_complete _ _ (turned_away r p) = ground arith
  outcome_complete _ _ (server_error r a b c p) = ground arith
  outcome_complete _ _ (never_sent resp e a b p) = ground arith
  outcome_complete _ _ (outcome_unknown resp e a b p) = ground arith

  -- `retryable` says yes exactly when the body can be rewound (or there is none), the context is
  -- still live, and the documentation gives a reason: a 429 or 503 for any request; a failure to
  -- get a connection for any request; any other transport error that is not permanent, or a status
  -- of 500 or more but 501, for a repeatable request; the last three only without `RefusedOnly`.
  pub retryable_iff :
      (resp : Option Response) (err : Option TransportError) (ctx_done : Bool)
      → (retryable req resp err ctx_done refused_only unconnected ≡ true) ↔ (
          ((req.has_body ≡ false) ⊎ (req.has_get_body ≡ true))
          × (ctx_done ≡ false)
          × MayRepeat req refused_only unconnected resp err)
  unfolding retryable
  retryable_iff resp err ctx_done = (
    λ h. (ground arith, ground arith, outcome_sound resp err (ground arith)),
    λ h. ground (arith, outcome_complete resp err h.2),
  )
