-- ===== src/Retry/Send/Safety.antt =====
-- Which requests `send` repeats, and what it returns.
use forward_go_sdk.Prelude.{
  ℕ, ◌+◌, ◌<◌, ◌≤◌, ◌≡◌, refl, ◌⊎◌, arith, Bool, true, false, Option, none, some, inl, inr,
}
use mathlib.Core.Path.{subst}
use forward_go_sdk.Text.{Text}
use forward_go_sdk.Retry.Policy.{
  RetryPolicy, Request, Response, TransportError, idempotent, not_connected,
}
use forward_go_sdk.Retry.Verdict.{
  MayRepeat, IsRefusal, turned_away, server_error, never_sent, outcome_unknown, retryable_iff,
}
use forward_go_sdk.Retry.Cooldown.{Cooldown}
use forward_go_sdk.Retry.Send.{
  Round, Outcome, settings, send, cancelled, rewind_failed, transport_failure,
}
use forward_go_sdk.Retry.Send.Rounds.{transmits, transmits-append, step_induction, verdict}
use native.Mathlib.Decide.{ℕ_discrete}

-- Every transmission but the last of the call had a verdict for a repetition.
module _ (parse : Text → Option ℕ) (policy : RetryPolicy) (req : Request) (env : ℕ → Round) where
  abbrev Justified : ℕ → Cooldown → Outcome → Type 0
  Justified a c o =
      (i : ℕ)
      → a ≤ i
      → i + 1 < a + transmits o.actions
      → verdict parse (settings policy req) req (env i) ≡ true

  repeats-Justified :
      (c : Cooldown) (o : Outcome) → send parse policy req env c ≡ some o → Justified 1 c o
  unfolding send
  repeats-Justified c o =
      step_induction parse (settings policy req) req env Justified
        (λ a c o e i l h. absurd (omega (arith, e.once)))
        (λ a c c' acts o g ih i l h. elim (ℕ_discrete a i) [
          | yes p ↦ subst (λ j. verdict parse (settings policy req) req (env j) ≡ true) p g.retried
          | no p ↦ ih i (omega arith) (omega (arith, h, g.once, transmits-append acts o.actions))
        ])
        (settings policy req).attempts 1 c o

  -- The rounds are numbered from 1, one for each transmission. Whenever the call sent the request
  -- again after round `i`, its body could be sent twice, its context was live, and what round `i`
  -- observed is a documented reason to repeat it.
  pub send_repeats_allowed :
      (c : Cooldown) (o : Outcome) (i : ℕ)
      → send parse policy req env c ≡ some o
      → 1 ≤ i
      → i + 1 ≤ transmits o.actions
      → let r = env i in
        ((req.has_body ≡ false) ⊎ (req.has_get_body ≡ true))
        × (r.ctx_done ≡ false)
        × MayRepeat req policy.refused_only
            (not_connected r.error r.get_conn r.got_conn)
            r.response
            r.error
  unfolding settings
  send_repeats_allowed c o i h l m =
      (retryable_iff req policy.refused_only _ (env i).response (env i).error (env i).ctx_done).0
        (repeats-Justified c o h i l (omega arith))

  -- A request that is neither of an idempotent method nor marked idempotent is sent again after
  -- round `i` only if that round was answered by a 429 or a 503, or never had a connection.
  pub unsafe_request_repeats :
      (c : Cooldown) (o : Outcome) (i : ℕ)
      → idempotent req.method ≡ false
      → req.idempotent_mark ≡ false
      → send parse policy req env c ≡ some o
      → 1 ≤ i
      → i + 1 ≤ transmits o.actions
      → let r = env i in
        ((resp : Response) × (r.response ≡ some resp) × (r.error ≡ none) × IsRefusal resp.status)
        ⊎ (not_connected r.error r.get_conn r.got_conn ≡ true)
  unsafe_request_repeats c o i p q h l m =
      only_refused (env i).response (env i).error (send_repeats_allowed c o i h l m).2
    where
      only_refused :
          {u : Bool} (resp : Option Response) (err : Option TransportError)
          → MayRepeat req policy.refused_only u resp err
          → ((r : Response) × (resp ≡ some r) × (err ≡ none) × IsRefusal r.status) ⊎ (u ≡ true)
      only_refused _ _ (turned_away r t) = inl (r, refl, refl, t)
      only_refused _ _ (server_error r a b d t) = ground arith
      only_refused _ _ (never_sent resp e a b t) = inr t
      only_refused _ _ (outcome_unknown resp e a b t) = ground arith

  abbrev LastRound : ℕ → Cooldown → Outcome → Type 0
  LastRound a c o =
      ((k : ℕ) × (a + transmits o.actions ≡ k + 1)
        × (o.response ≡ (env k).response)
        × (o.failure ≡ transport_failure (env k).error))
      ⊎ ((o.response ≡ none) × ((o.failure ≡ some cancelled) ⊎ (o.failure ≡ some rewind_failed)))
