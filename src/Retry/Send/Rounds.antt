-- ===== src/Retry/Send/Rounds.antt =====
-- What one round of `send` does, and the induction over the rounds.
use forward_go_sdk.Prelude.{
  ℕ, zero, suc, ◌+◌, ◌-◌, ◌<◌, ◌≤◌, ◌≡◌, refl, ◌⊎◌, arith, Bool, true, false, Option, none, some,
  List, [], ◌∷◌, ◌++◌, All, inl, inr, leb, Option-cases, Bool-cases, All-append, some_inj,
  leb_false→lt,
}
use mathlib.Core.Path.{subst}
use forward_go_sdk.Prelude.Int.{ℤ, pos, negsuc, min_ℤ}
use forward_go_sdk.Text.{Text}
use forward_go_sdk.Retry.Policy.{Request, not_connected, retryable}
use forward_go_sdk.Retry.Backoff.{
  shorten, chosen_wait, retry_wait, clamp_jitter, doubled, asked_wait,
}
use forward_go_sdk.Retry.Cooldown.{Cooldown, rest_time, meanwhile}
use forward_go_sdk.Retry.Send.{
  Round, cancelled, rewind_failed, Action, rest, transmit, backoff, Outcome, Settings, Step, stop,
  again, transport_failure, heard, pause_and_rewind, answered, decide, rest_first, begin, iteration,
  send_loop, after,
}

abbrev pub transmits : List Action → ℕ
transmits [] = 0
transmits (transmit ∷ acts) = suc (transmits acts)
transmits (rest w ∷ acts) = transmits acts
transmits (backoff w ∷ acts) = transmits acts

-- A sleep of at most `bound`; a wait below 0 is none.
abbrev pub IsShort : ℕ → Action → Type 0
IsShort bound (rest w) = w ≤ bound
IsShort bound transmit = Unit {0}
IsShort bound (backoff (pos w)) = w ≤ bound
IsShort bound (backoff (negsuc w)) = Unit {0}

pub transmits-append : (xs ys : List Action) → transmits (xs ++ ys) ≡ transmits xs + transmits ys
transmits-append [] ys = omega arith
transmits-append (transmit ∷ xs) ys = omega (arith, transmits-append xs ys)
transmits-append (rest w ∷ xs) ys = omega (arith, transmits-append xs ys)
transmits-append (backoff w ∷ xs) ys = omega (arith, transmits-append xs ys)

shorten-IsShort : (draw j m : ℕ) (x : ℤ) → IsShort m (backoff (shorten draw j (min_ℤ x (pos m))))
unfolding shorten
shorten-IsShort draw j m x = ground arith

chosen_wait-IsShort :
    (asked : Option ℕ) (delay jitter : ℤ) (attempt m draw : ℕ)
    → (chosen_wait asked delay attempt (pos m) jitter draw).1 ≡ true
    → IsShort m (backoff (chosen_wait asked delay attempt (pos m) jitter draw).0)
unfolding chosen_wait
chosen_wait-IsShort (some w) delay jitter attempt m draw h = ground arith
chosen_wait-IsShort none delay jitter attempt m draw h =
    shorten-IsShort draw (clamp_jitter jitter) m (doubled (attempt - 1) delay (pos m))

module _ (parse : Text → Option ℕ) (s : Settings) (req : Request) where
  abbrev pub verdict : Round → Bool
  verdict r =
      retryable req r.response r.error r.ctx_done s.refused_only
        (not_connected r.error r.get_conn r.got_conn)

  -- What holds of a round that goes on.
  pub record GoesOn (r : Round) (attempt : ℕ) (c c' : Cooldown) (acts : List Action) : Type 0 where
    pub below : attempt < s.attempts
    pub retried : verdict r ≡ true
    pub once : transmits acts ≡ 1
    pub short : All (IsShort s.max_delay) acts
    pub heard_it : c' ≡ heard parse s req r (meanwhile r.stored_before c)
    pub awake : r.wait_cancelled ≡ false

  -- The result of a round that ends the call is what came back, or says why nothing did.
  abbrev pub Returned : Round → Outcome → Type 0
  Returned r o =
      ((o.response ≡ r.response)
        × (o.failure ≡ transport_failure r.error)
        × (transmits o.actions ≡ 1))
      ⊎ ((o.response ≡ none) × ((o.failure ≡ some cancelled) ⊎ (o.failure ≡ some rewind_failed)))

  pub record Ends (r : Round) (c : Cooldown) (o : Outcome) : Type 0 where
    pub once : transmits o.actions ≤ 1
    pub short : All (IsShort s.max_delay) o.actions
    pub returned : Returned r o

  abbrev pub After : Round → ℕ → Cooldown → Step → Type 0
  After r attempt c (stop o) = Ends r c o
  After r attempt c (again c' acts) = GoesOn r attempt c c' acts

  rest_short :
      (r : Round) (c : Cooldown) (w : ℕ) → rest_first parse s req r c ≡ some w → w ≤ s.max_delay
  unfolding rest_first rest_time
  rest_short r none w h = ground arith
  rest_short r (some cell) w h = ground arith

  module _ (r : Round) (attempt : ℕ) (c : Cooldown) where
    abbrev heard_cooldown : Cooldown
    heard_cooldown = heard parse s req r (meanwhile r.stored_before c)

    answered-After :
        (acts : List Action)
        → transmits acts ≡ 1
        → All (IsShort s.max_delay) acts
        → After r attempt c (answered parse s req r heard_cooldown acts)
    unfolding answered
    answered-After acts h k = record {
      once = omega arith;
      short = k;
      returned = inl (refl, refl, h);
    }

    pause-After :
        (wait : ℤ) (acts : List Action)
        → transmits acts ≡ 1
        → All (IsShort s.max_delay) acts
        → IsShort s.max_delay (backoff wait)
        → attempt < s.attempts
        → verdict r ≡ true
        → After r attempt c (pause_and_rewind parse s req r wait heard_cooldown acts)
    unfolding pause_and_rewind
    pause-After wait acts h k l b v = ground (arith, done, short)
      where
        done : transmits (acts ++ backoff wait ∷ []) ≡ 1
        done = omega (arith, h, transmits-append acts (backoff wait ∷ []))

        short : All (IsShort s.max_delay) (acts ++ backoff wait ∷ [])
        short = All-append (IsShort s.max_delay) acts (backoff wait ∷ []) k (l, tt)

    decide-After :
        (acts : List Action)
        → transmits acts ≡ 1
        → All (IsShort s.max_delay) acts
        → After r attempt c (decide parse s req r attempt heard_cooldown acts)
    unfolding decide retry_wait
    decide-After acts h k = elim (Bool-cases (leb s.attempts attempt)) [
      | inl e ↦ rw (e, After) (answered-After acts h k)
      | inr e ↦ elim (Bool-cases (verdict r)) [
        | inl v ↦ elim (Bool-cases chosen.1) [
          | inl a ↦
              rw (e, v, a) (pause-After chosen.0 acts h k (chosen_short a) (leb_false→lt _ _ e) v)
          | inr a ↦ rw (e, v, a) (answered-After acts h k)
        ]
        | inr v ↦ rw (e, v) (answered-After acts h k)
      ]
    ]
      where
        chosen : ℤ × Bool
        chosen =
            chosen_wait (asked_wait parse r.response r.now_at_wait) (pos s.delay) attempt
              (pos s.max_delay) s.jitter r.draw

        chosen_short : chosen.1 ≡ true → IsShort s.max_delay (backoff chosen.0)
        chosen_short =
            chosen_wait-IsShort (asked_wait parse r.response r.now_at_wait) (pos s.delay) s.jitter
              attempt s.max_delay r.draw

    begin-After : After r attempt c (begin parse s req r attempt (meanwhile r.stored_before c))
    unfolding begin
    begin-After = elim (Option-cases (rest_first parse s req r (meanwhile r.stored_before c))) [
      | inl e ↦ rw (e, begin) (decide-After (transmit ∷ []) refl (tt, tt))
      | inr (w, e) ↦ elim (Bool-cases r.rest_cancelled) [
        | inl b ↦
            rw (e, begin)
              (simp b (record {
                once = omega arith;
                short = (rest_short r (meanwhile r.stored_before c) w e, tt);
                returned = inr (refl, inl refl);
              }))
        | inr b ↦
            rw (e, begin)
              (simp b (
                decide-After (rest w ∷ transmit ∷ []) refl
                  (rest_short r (meanwhile r.stored_before c) w e, (tt, tt))))
      ]
    ]

    pub iteration-After : After r attempt c (iteration parse s req r attempt c)
    unfolding iteration
    iteration-After = begin-After

module _ (parse : Text → Option ℕ) (s : Settings) (req : Request) (env : ℕ → Round) where
  abbrev pub AtEnd : (ℕ → Cooldown → Outcome → Type 0) → Type 0
  AtEnd Q = (a : ℕ) (c : Cooldown) (o : Outcome) → Ends parse s req (env a) c o → Q a c o

  abbrev pub OnTheWay : (ℕ → Cooldown → Outcome → Type 0) → Type 0
  OnTheWay Q =
      (a : ℕ) (c c' : Cooldown) (acts : List Action) (o : Outcome)
      → GoesOn parse s req (env a) a c c' acts
      → Q (a + 1) c' o
      → Q a c (record o { actions = acts ++ o.actions })

  pub step_induction :
      (Q : ℕ → Cooldown → Outcome → Type 0)
      → AtEnd Q
      → OnTheWay Q
      → (fuel a : ℕ) (c : Cooldown) (o : Outcome) → send_loop parse s req fuel env a c ≡ some o
      → Q a c o
  unfolding send_loop
  step_induction Q ends goes zero a c o h = cc
  step_induction Q ends goes (suc fuel) a c o h =
      go (step_induction Q ends goes fuel (a + 1)) (iteration parse s req (env a) a c)
        (iteration-After parse s req (env a) a c) h
    where
      more :
          (c' : Cooldown) (acts : List Action) (m : Option Outcome)
          → GoesOn parse s req (env a) a c c' acts
          → ((o' : Outcome) → m ≡ some o' → Q (a + 1) c' o')
          → after parse s req acts m ≡ some o
          → Q a c o
      more c' acts none g ih e = cc
      more c' acts (some o') g ih e =
          subst (Q a c) (some_inj e) (goes a c c' acts o' g (ih o' refl))

      go :
          ((c' : Cooldown) (o' : Outcome)
            → send_loop parse s req fuel env (a + 1) c' ≡ some o'
            → Q (a + 1) c' o')
          → (st : Step) → After parse s req (env a) a c st
          → elim st [
            | stop o' ↦ some o'
            | again c' acts ↦ after parse s req acts (send_loop parse s req fuel env (a + 1) c')
          ]
            ≡ some o
          → Q a c o
      go ih (stop o') f e = subst (Q a c) (some_inj e) (ends a c o' f)
      go ih (again c' acts) f e =
          more c' acts (send_loop parse s req fuel env (a + 1) c') f (ih c') e
