-- ===== src/Retry/Send/Progress.antt =====
-- retry.go: transient failures in the loop of `send`.
use forward_go_sdk.Prelude.{
  ℕ, zero, suc, ◌+◌, ◌<◌, ◌≤◌, ◌≡◌, refl, arith, Bool, true, false, Option, none, some, List, [],
  ◌∷◌, ◌++◌, inl, inr, Bool-cases, Option-cases, leb,
}
use mathlib.Core.Path.{subst}
use forward_go_sdk.Text.{Text}
use forward_go_sdk.Retry.Policy.{RetryPolicy, Request}
use forward_go_sdk.Retry.Backoff.{asked_wait, retry_wait, chosen_wait}
use forward_go_sdk.Retry.Cooldown.{Cooldown, meanwhile}
use forward_go_sdk.Retry.Send.{
  Round, Outcome, Action, transmit, Settings, settings, send, send_loop, Step, stop, again,
  transport_failure, heard, begin, iteration, decide, answered, pause_and_rewind, rest_first, after,
}
use forward_go_sdk.Retry.Send.Rounds.{transmits, transmits-append, verdict, After, iteration-After}

module _ (parse : Text → Option ℕ) (s : Settings) (req : Request) where
  -- A transient failure that nothing cuts short: the verdict is to try again, the server asks for
  -- no wait of its own, the context stays live and the body can be sent again.
  pub record Passes (r : Round) : Type 0 where
    pub rested : r.rest_cancelled ≡ false
    pub retried : verdict parse s req r ≡ true
    pub unasked : asked_wait parse r.response r.now_at_wait ≡ none
    pub awake : r.wait_cancelled ≡ false
    pub rewound : r.get_body_fails ≡ false

  -- An answer that is final.
  pub record Arrives (r : Round) : Type 0 where
    pub rested : r.rest_cancelled ≡ false
    pub final : verdict parse s req r ≡ false

  abbrev is_again : Step → Bool
  is_again (stop o) = false
  is_again (again c acts) = true

  abbrev Arrived : Round → Step → Type 0
  Arrived r (stop o) =
      (o.response ≡ r.response)
      × (o.failure ≡ transport_failure r.error)
      × (transmits o.actions ≡ 1)
  Arrived r (again c acts) = ⊥

  module _ (r : Round) (a : ℕ) where
    decide-Passes :
        (c : Cooldown) (acts : List Action)
        → Passes r
        → a < s.attempts
        → is_again (decide parse s req r a c acts) ≡ true
    unfolding decide pause_and_rewind retry_wait chosen_wait
    decide-Passes c acts p l = ground (arith, p.retried, p.unasked, p.awake, p.rewound)

    decide-Arrives :
        (c : Cooldown) (acts : List Action)
        → transmits acts ≡ 1
        → Arrives r
        → Arrived r (decide parse s req r a c acts)
    unfolding decide answered
    decide-Arrives c acts n p = elim (Bool-cases (leb s.attempts a)) [
      | inl e ↦ rw e (refl, refl, n)
      | inr e ↦ rw (e, p.final) (refl, refl, n)
    ]

    iteration-Passes :
        (c : Cooldown) → Passes r → a < s.attempts → is_again (iteration parse s req r a c) ≡ true
    unfolding iteration begin
    iteration-Passes c p l = elim (Option-cases (rest_first parse s req r c0)) [
      | inl e ↦ rw (e, begin) (decide-Passes (heard parse s req r c0) (transmit ∷ []) p l)
      | inr (w, e) ↦
          rw (e, begin)
            (simp p.rested
              (decide-Passes (heard parse s req r c0) (Action.rest w ∷ transmit ∷ []) p l))
    ]
      where
        c0 : Cooldown
        c0 = meanwhile r.stored_before c

    iteration-Arrives : (c : Cooldown) → Arrives r → Arrived r (iteration parse s req r a c)
    unfolding iteration begin
    iteration-Arrives c p = elim (Option-cases (rest_first parse s req r c0)) [
      | inl e ↦ rw (e, begin) (decide-Arrives (heard parse s req r c0) (transmit ∷ []) refl p)
      | inr (w, e) ↦
          rw (e, begin)
            (simp p.rested
              (decide-Arrives (heard parse s req r c0) (Action.rest w ∷ transmit ∷ []) refl p))
    ]
      where
        c0 : Cooldown
        c0 = meanwhile r.stored_before c

  module _ (env : ℕ → Round) where
    -- The call ends in round `a + k`, with what came back there.
    abbrev EndsIn : ℕ → ℕ → Option Outcome → Type 0
    EndsIn a k m =
        (o : Outcome) × (m ≡ some o)
        × (o.response ≡ (env (a + k)).response)
        × (o.failure ≡ transport_failure (env (a + k)).error)
        × (transmits o.actions ≡ k + 1)

    loop_rides_out :
        (k fuel a : ℕ) (c : Cooldown)
        → a + k ≤ s.attempts
        → k < fuel
        → ((i : ℕ) → a ≤ i → i < a + k → Passes (env i))
        → Arrives (env (a + k))
        → EndsIn a k (send_loop parse s req fuel env a c)
    unfolding send_loop
    loop_rides_out k zero a c l m passes arrives = absurd (omega arith)
    loop_rides_out zero (suc fuel) a c l m passes arrives =
        go (iteration parse s req (env a) a c)
          (iteration-Arrives (env a) a c (subst (λ j. Arrives (env j)) end arrives))
      where
        end : a + 0 ≡ a
        end = omega arith

        go :
            (st : Step)
            → Arrived (env a) st
            → EndsIn a 0 (elim st [
              | stop o ↦ some o
              | again c' acts ↦ after parse s req acts (send_loop parse s req fuel env (a + 1) c')
            ])
        go (stop o) f = rw end (o, refl, f.0, f.1, f.2)
        go (again c' acts) f = absurd f
    loop_rides_out (suc k) (suc fuel) a c l m passes arrives =
        go (iteration parse s req (env a) a c)
          (iteration-Passes (env a) a c (passes a (omega arith) (omega arith)) (omega arith))
          (iteration-After parse s req (env a) a c)
          (λ c'.
            loop_rides_out k fuel (a + 1) c' (omega arith) (omega arith)
              (λ i x y. passes i (omega arith) (omega arith))
              (subst (λ j. Arrives (env j)) shift arrives))
      where
        shift : a + suc k ≡ a + 1 + k
        shift = omega arith

        go :
            (st : Step)
            → is_again st ≡ true
            → After parse s req (env a) a c st
            → ((c' : Cooldown) → EndsIn (a + 1) k (send_loop parse s req fuel env (a + 1) c'))
            → EndsIn a (suc k) (elim st [
              | stop o ↦ some o
              | again c' acts ↦ after parse s req acts (send_loop parse s req fuel env (a + 1) c')
            ])
        go (stop o) q f ih = cc
        go (again c' acts) q f ih =
            let (o, e, p, x, n) = ih c' in
            rw shift (
              record o { actions = acts ++ o.actions },
              rw e,
              p,
              x,
              omega (arith, n, f.once, transmits-append acts o.actions),
            )

-- If each of the first `k` transmissions fails in a transient way that nothing cuts short, and the
-- next one is final, then a policy of more than `k` attempts makes the call return that answer,
-- after exactly `k + 1` transmissions.
pub send_rides_out :
    (parse : Text → Option ℕ) (policy : RetryPolicy) (req : Request) (env : ℕ → Round)
    (c : Cooldown) (k : ℕ)
    → k < (settings policy req).attempts
    → ((i : ℕ) → 1 ≤ i → i < 1 + k → Passes parse (settings policy req) req (env i))
    → Arrives parse (settings policy req) req (env (1 + k))
    → (o : Outcome) × (send parse policy req env c ≡ some o)
      × (o.response ≡ (env (1 + k)).response)
      × (o.failure ≡ transport_failure (env (1 + k)).error)
      × (transmits o.actions ≡ k + 1)
unfolding send
send_rides_out parse policy req env c k l passes arrives =
    loop_rides_out parse (settings policy req) req env k (settings policy req).attempts 1 c
      (omega arith) l passes arrives
