-- ===== src/Retry/Send.antt =====
-- retry.go: `Client.send`. What the loop observes in one round (the clock, the context, the
-- transport, other requests) is a record, and the environment gives the record of each attempt.
pub mod Rounds
pub mod Bounds
pub mod Progress
pub mod Safety
use forward_go_sdk.Prelude.{
  ℕ, zero, suc, ◌+◌, ◌==◌, Bool, true, false, ◌&&◌, ◌||◌, not, Option, none, some, List, [], ◌∷◌,
  ◌++◌, ltb, leb, if◌then◌else◌,
}
use forward_go_sdk.Prelude.Int.{ℤ, pos, negsuc, positive_or}
use forward_go_sdk.Text.{Text}
use forward_go_sdk.Retry.Policy.{
  RetryPolicy, Request, Response, TransportError, default_retry_delay, default_retry_max_delay,
  not_connected, retryable,
}
use forward_go_sdk.Retry.After.{retry_after}
use forward_go_sdk.Retry.Backoff.{retry_wait}
use forward_go_sdk.Retry.Cooldown.{Cooldown, set, meanwhile, rest_time, is_rate_limit_body}

pub record Round : Type 0 where
  pub stored_before : List ℕ
  pub now_at_rest : ℕ
  pub rest_cancelled : Bool
  pub response : Option Response
  pub error : Option TransportError
  pub get_conn : Bool
  pub got_conn : Bool
  pub now_at_limit : ℕ
  pub now_at_set : ℕ
  pub others : List ℕ
  pub ctx_done : Bool
  pub now_at_wait : ℕ
  pub draw : ℕ
  pub wait_cancelled : Bool
  pub get_body_fails : Bool

pub data Failure : Type 0 where
  transport : TransportError → Failure
  cancelled : Failure
  rewind_failed : Failure

-- What `send` does to the outside.
pub data Action : Type 0 where
  rest : ℕ → Action
  transmit : Action
  backoff : ℤ → Action

pub record Outcome : Type 0 where
  pub response : Option Response
  pub failure : Option Failure
  pub cooldown : Cooldown
  pub actions : List Action

-- The local variables that `send` sets before its loop.
pub record Settings : Type 0 where
  pub attempts : ℕ
  pub policy_on : Bool
  pub delay : ℕ
  pub max_delay : ℕ
  pub refused_only : Bool
  pub jitter : ℤ

unfoldable pub settings : RetryPolicy → Request → Settings
settings policy req =
    let attempts = positive_or policy.max_attempts 1 in
    record {
      attempts = if req.no_retry_mark then 1 else attempts;
      policy_on = ltb 1 attempts;
      delay = positive_or policy.delay default_retry_delay;
      max_delay = positive_or policy.max_delay default_retry_max_delay;
      refused_only = policy.refused_only;
      jitter = policy.jitter;
    }

-- One round ends the call, or goes on with another cooldown after some actions.
pub data Step : Type 0 where
  stop : Outcome → Step
  again : Cooldown → List Action → Step

abbrev pub transport_failure : Option TransportError → Option Failure
transport_failure none = none
transport_failure (some e) = some (transport e)

module _ (parse_http_time : Text → Option ℕ) (s : Settings) (req : Request) where
  -- A 429 of the rate limiter sets the cooldown.
  unfoldable pub heard : Round → Cooldown → Cooldown
  unfolding is_rate_limit_body
  heard r c = elim r.response [
    | none ↦ c
    | some resp ↦
        if s.policy_on && resp.status == 429 && is_rate_limit_body resp
        then elim (retry_after parse_http_time resp.retry_after_header r.now_at_limit) [
          | none ↦ c
          | some wait ↦ set r.others c (r.now_at_set + wait)
        ]
        else c
  ]

  -- `waitOrCancel`, and a fresh body for the next attempt.
  unfoldable pub pause_and_rewind : Round → ℤ → Cooldown → List Action → Step
  pause_and_rewind r wait c acts =
      let done = acts ++ backoff wait ∷ [] in
      if r.wait_cancelled
      then stop (record { response = none; failure = some cancelled; cooldown = c; actions = done })
      else if req.has_body && r.get_body_fails
      then stop
          (record { response = none; failure = some rewind_failed; cooldown = c; actions = done })
      else again c done

  unfoldable pub answered : Round → Cooldown → List Action → Step
  answered r c acts = stop (record {
    response = r.response;
    failure = transport_failure r.error;
    cooldown = c;
    actions = acts;
  })

  -- After a transmission: return what came back, or wait and go on.
  unfoldable pub decide : Round → ℕ → Cooldown → List Action → Step
  unfolding answered pause_and_rewind
  decide r attempt c acts =
      let unconnected = not_connected r.error r.get_conn r.got_conn in
      if leb s.attempts attempt
        || not (retryable req r.response r.error r.ctx_done s.refused_only unconnected)
      then answered r c acts
      else let (wait, allowed) =
          retry_wait parse_http_time r.response r.now_at_wait (pos s.delay) attempt
            (pos s.max_delay) s.jitter r.draw in
        if allowed then pause_and_rewind r wait c acts else answered r c acts

  -- The rest that the cooldown asks for, if the client has a policy.
  unfoldable pub rest_first : Round → Cooldown → Option ℕ
  rest_first r c = if s.policy_on then rest_time c r.now_at_rest s.max_delay else none

  unfoldable pub begin : Round → ℕ → Cooldown → Step
  unfolding heard decide rest_first
  begin r attempt c = elim (rest_first r c) [
    | none ↦ decide r attempt (heard r c) (transmit ∷ [])
    | some w ↦
        if r.rest_cancelled
        then stop (record {
          response = none;
          failure = some cancelled;
          cooldown = c;
          actions = rest w ∷ [];
        })
        else decide r attempt (heard r c) (rest w ∷ transmit ∷ [])
  ]

  -- One pass of the loop, after what other requests stored since the last one.
  unfoldable pub iteration : Round → ℕ → Cooldown → Step
  unfolding begin
  iteration r attempt c = begin r attempt (meanwhile r.stored_before c)

  abbrev after : List Action → Option Outcome → Option Outcome
  after acts none = none
  after acts (some o) = some (record o { actions = acts ++ o.actions })

  -- `none` means that the fuel ran out.
  unfoldable pub send_loop : ℕ → (ℕ → Round) → ℕ → Cooldown → Option Outcome
  unfolding iteration
  send_loop zero env attempt c = none
  send_loop (suc fuel) env attempt c = elim (iteration (env attempt) attempt c) [
    | stop o ↦ some o
    | again c' acts ↦ after acts (send_loop fuel env (attempt + 1) c')
  ]

-- Each round but the last goes on only below `attempts`, so that many are enough fuel.
unfoldable pub send :
    (Text → Option ℕ) → RetryPolicy → Request → (ℕ → Round) → Cooldown → Option Outcome
unfolding settings send_loop
send parse_http_time policy req env c =
    let s = settings policy req in send_loop parse_http_time s req s.attempts env 1 c
