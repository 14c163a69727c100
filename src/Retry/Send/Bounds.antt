-- ===== src/Retry/Send/Bounds.antt =====
-- How often `send` transmits, and how long it sleeps.
use forward_go_sdk.Prelude.{
  ℕ, zero, suc, ◌+◌, ◌<◌, ◌≤◌, ◌≡◌, refl, arith, true, Option, some, ◌++◌, All, All-append,
}
use forward_go_sdk.Prelude.Int.{positive_or}
use forward_go_sdk.Text.{Text}
use forward_go_sdk.Retry.Policy.{RetryPolicy, Request, default_retry_max_delay}
use forward_go_sdk.Retry.Cooldown.{Cooldown}
use forward_go_sdk.Retry.Send.{
  Round, Outcome, Settings, Step, stop, again, settings, iteration, send_loop, send, after,
}
use forward_go_sdk.Retry.Send.Rounds.{
  transmits, transmits-append, IsShort, After, iteration-After, step_induction,
}

module _ (parse : Text → Option ℕ) (s : Settings) (req : Request) (env : ℕ → Round) where
  -- With the attempts that are left as fuel the loop ends, and each transmission uses one of them.
  loop_total :
      (fuel a : ℕ) (c : Cooldown)
      → a + fuel ≡ s.attempts + 1
      → 0 < fuel
      → (o : Outcome) × (send_loop parse s req fuel env a c ≡ some o) × (transmits o.actions ≤ fuel)
  unfolding send_loop
  loop_total zero a c e p = absurd (omega arith)
  loop_total (suc fuel) a c e p =
      go (loop_total fuel (a + 1)) (iteration parse s req (env a) a c)
        (iteration-After parse s req (env a) a c)
    where
      go :
          ((c' : Cooldown)
            → a + 1 + fuel ≡ s.attempts + 1
            → 0 < fuel
            → (o : Outcome) × (send_loop parse s req fuel env (a + 1) c' ≡ some o)
              × (transmits o.actions ≤ fuel))
          → (st : Step) → After parse s req (env a) a c st
          → (o : Outcome) × (elim st [
            | stop o' ↦ some o'
            | again c' acts ↦ after parse s req acts (send_loop parse s req fuel env (a + 1) c')
          ]
              ≡ some o)
            × (transmits o.actions ≤ suc fuel)
      go ih (stop o) f = (o, refl, omega (arith, f.once))
      go ih (again c' acts) f =
          let (o, q, l) = ih c' (omega arith) (omega (arith, f.below)) in
          (
            record o { actions = acts ++ o.actions },
            rw q,
            omega (arith, f.once, transmits-append acts o.actions),
          )

attempts_pos : (policy : RetryPolicy) (req : Request) → 0 < (settings policy req).attempts
unfolding settings
attempts_pos policy req = ground arith

attempts-le :
    (policy : RetryPolicy) (req : Request)
    → (settings policy req).attempts ≤ positive_or policy.max_attempts 1
unfolding settings
attempts-le policy req = ground arith

attempts_once :
    (policy : RetryPolicy) (req : Request)
    → req.no_retry_mark ≡ true
    → (settings policy req).attempts ≤ 1
unfolding settings
attempts_once policy req h = ground arith

-- `send` always returns, for every policy and whatever it meets, and transmits the request at most
-- as often as `MaxAttempts` says: once if that is below 1 or the call opted out of retries.
pub transmits-send-le :
    (parse : Text → Option ℕ) (policy : RetryPolicy) (req : Request) (env : ℕ → Round)
    (c : Cooldown)
    → (o : Outcome) × (send parse policy req env c ≡ some o)
      × (transmits o.actions ≤ positive_or policy.max_attempts 1)
      × (req.no_retry_mark ≡ true → transmits o.actions ≤ 1)
unfolding send
transmits-send-le parse policy req env c =
    let s = settings policy req in
    let (o, q, l) =
      loop_total parse s req env s.attempts 1 c (omega arith) (attempts_pos policy req) in
    (
      o,
      q,
      omega (arith, l, attempts-le policy req),
      λ marked. omega (arith, l, attempts_once policy req marked),
    )

-- No single sleep of `send`, for the cooldown, a backoff or a Retry-After, is longer than the
-- policy's `MaxDelay` (five minutes if that is not above 0).
pub send_waits-IsShort :
    (parse : Text → Option ℕ) (policy : RetryPolicy) (req : Request) (env : ℕ → Round)
    (c : Cooldown) (o : Outcome)
    → send parse policy req env c ≡ some o
    → All (IsShort (positive_or policy.max_delay default_retry_max_delay)) o.actions
unfolding send settings
send_waits-IsShort parse policy req env c o =
    step_induction parse (settings policy req) req env
      (λ _ _ o. All (IsShort (settings policy req).max_delay) o.actions) (λ a c o e. e.short)
      (λ a c c' acts o g ih. All-append _ acts o.actions g.short ih) (settings policy req).attempts
      1 c o
