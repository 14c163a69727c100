-- ===== src/Poller/Laws.antt =====
-- What `Poller.Wait` returns and reports.
use forward_go_sdk.Prelude.{
  ℕ, suc, ◌+◌, ◌≤◌, ap, some_inj, ◌<◌, ◌≡◌, ◌≢◌, ◌⊎◌, refl, sym, arith, true, Option, none, some,
  List, [], ◌∷◌, ◌++◌, Bool-cases, inl, inr,
}
use mathlib.Core.Path.{subst}
use forward_go_sdk.Rounds.{
  Reply, answer, refusal, Step, Ended, out_of_fuel, finished, left, repeat, repeat_inv, repeat_last,
  repeat_stops, Keeps, Holds, IsGo,
}
use forward_go_sdk.Poller.{
  Completion, pending, complete, done_error, PollError, context_ended, poll_error, completion_error,
  latest_shared, PollUpdate, PollRound, PollLocals, PollResult, refresh, return_value, after_poll,
  polled, poll_round, ended_poll, poll_from, poll_wait,
}

module _ (T : Type 0) (done : T → Completion) where
  -- The updates lead from one state to the next; each but the last is of a pending state.
  abbrev pub Reports : T → List (PollUpdate T) → T → Type 0
  Reports first [] last = first ≡ last
  Reports first (u ∷ us) last =
      (u.previous ≡ first) × (done u.previous ≡ pending) × Reports u.value us last

  Reports-append :
      (first last value : T) (us : List (PollUpdate T)) (attempt : ℕ)
      → Reports first us last
      → done last ≡ pending
      → Reports first
          (us ++ (record { previous = last; value = value; attempt = attempt }) ∷ [])
          value
  Reports-append first last value [] attempt h p = (sym h, p, refl)
  Reports-append first last value (u ∷ us) attempt (a, b, h) p =
      (a, b, Reports-append u.value last value us attempt h p)

  module _ (first : T) (rounds : ℕ → PollRound T) where
    -- A state that the poller has held, by what others stored in front of the polls of the first `m`
    -- rounds, and by the answers of the first `n` rounds and what others stored behind them.
    pub data IsHeld (m n : ℕ) : T → Type 0 where
      at_first : IsHeld m n first
      answered : (i : ℕ) {t : T} → i < n → (rounds i).reply ≡ answer t → IsHeld m n t
      before_poll : (i : ℕ) {t : T} → i < m → (rounds i).stored_before ≡ some t → IsHeld m n t
      after_poll_of : (i : ℕ) {t : T} → i < n → (rounds i).stored_after ≡ some t → IsHeld m n t

    IsHeld-le : {m n m' n' : ℕ} {t : T} → m ≤ m' → n ≤ n' → IsHeld m n t → IsHeld m' n' t
    IsHeld-le h k at_first = at_first
    IsHeld-le h k (answered i p e) = answered i (omega arith) e
    IsHeld-le h k (before_poll i p e) = before_poll i (omega arith) e
    IsHeld-le h k (after_poll_of i p e) = after_poll_of i (omega arith) e

    -- What a wait that ends in round `k` returns by its error, where the last state that it reported
    -- (or else the first) is `last`.
    abbrev pub Returns : ℕ → Option PollError → T → T → Type 0
    Returns k none value last = (value ≡ last) × (done value ≡ complete)
    Returns k (some (completion_error e)) value last = (value ≡ last) × (done value ≡ done_error e)
    Returns k (some context_ended) value last =
        ((rounds k).cancelled ≡ true) × IsHeld (k + 1) k value
    Returns k (some (poll_error e)) value last =
        ((rounds k).reply ≡ refusal e) × IsHeld (k + 1) (k + 1) value

    record Polling (i : ℕ) (l : PollLocals T) : Type 0 where
      reports : Reports first l.updates l.current
      unfinished : done l.current ≡ pending
      held : IsHeld i i l.shared

    pub record Polled (k : ℕ) (r : PollResult T) : Type 0 where
      pub last : T
      pub reports : Reports first r.updates last
      pub returns : Returns k r.error r.value last

    abbrev Kept : ℕ → Step (PollLocals T) (PollResult T) → Type 0
    Kept i = Keeps (Polling (i + 1)) (λ _. ⊥) (Polled i)

    after_poll-Kept :
        (i : ℕ) (c : Completion) (value : T) (l : PollLocals T)
        → done value ≡ c
        → Reports first l.updates value
        → IsHeld (i + 1) (i + 1) l.shared
        → Kept i (after_poll T done c value l)
    unfolding after_poll return_value
    after_poll-Kept i pending value l q r s = record { reports = r; unfinished = q; held = s }
    after_poll-Kept i complete value l q r s = record {
      last = value;
      reports = r;
      returns = (refl, q);
    }
    after_poll-Kept i (done_error e) value l q r s = record {
      last = value;
      reports = r;
      returns = (refl, q);
    }

    before-IsHeld :
        (i : ℕ) (o : Option T) (t : T)
        → (rounds i).stored_before ≡ o
        → IsHeld i i t
        → IsHeld (i + 1) i (latest_shared T o t)
    before-IsHeld i none t e h = IsHeld-le (omega arith) (omega arith) h
    before-IsHeld i (some s) t e h = before_poll i (omega arith) e

    after-IsHeld :
        (i : ℕ) (o : Option T) (t : T)
        → (rounds i).stored_after ≡ o
        → IsHeld (i + 1) (i + 1) t
        → IsHeld (i + 1) (i + 1) (latest_shared T o t)
    after-IsHeld i none t e h = h
    after-IsHeld i (some s) t e h = after_poll_of i (omega arith) e

    polled-Kept :
        (i : ℕ) (shared : T) (reply : Reply T) (l : PollLocals T)
        → (rounds i).reply ≡ reply
        → IsHeld (i + 1) i shared
        → Polling i l
        → Kept i (polled T done (rounds i).stored_after (refresh T shared reply) l)
    unfolding refresh polled return_value
    polled-Kept i shared (refusal e) l q s h = record {
      last = l.current;
      reports = h.reports;
      returns = (
        q,
        after-IsHeld i (rounds i).stored_after shared refl
            (IsHeld-le (omega arith) (omega arith) s),
      );
    }
    polled-Kept i shared (answer value) l q s h =
        after_poll-Kept i (done value) value _ refl
          (Reports-append first l.current value l.updates l.attempt h.reports h.unfinished)
          (after-IsHeld i (rounds i).stored_after value refl (answered i (omega arith) q))

    poll_round-Kept :
        (i : ℕ) (l : PollLocals T) → Polling i l → Kept i (poll_round T done (rounds i) l)
    unfolding poll_round return_value
    poll_round-Kept i l h =
        let held = before-IsHeld i (rounds i).stored_before l.shared refl h.held in
        elim (Bool-cases (rounds i).cancelled) [
          | inl e ↦ rw e (record { last = l.current; reports = h.reports; returns = (e, held) })
          | inr e ↦ rw e (polled-Kept i _ (rounds i).reply l refl held h)
        ]

    -- `r` is what a wait gives whose last round is `k`, if it polls at all.
    abbrev pub LastRound : ℕ → PollResult T → Type 0
    LastRound k r =
        (done first ≡ pending → poll_wait T done k rounds first ≡ none)
        × (poll_wait T done (suc k) rounds first ≡ some r)
        × Polled k r

    ended_poll-eq-some :
        (e : Ended (PollLocals T) (PollResult T)) (r : PollResult T)
        → ended_poll T done e ≡ some r
        → e ≡ finished r
    unfolding ended_poll
    ended_poll-eq-some out_of_fuel r h = cc
    ended_poll-eq-some (finished r') r h = ap finished (some_inj h)
    ended_poll-eq-some (left l) r h = cc

    poll_from-Polled :
        (c : Completion)
        → done first ≡ c
        → (fuel : ℕ) (r : PollResult T) → poll_from T done c fuel rounds first ≡ some r
        → (k : ℕ) × (c ≡ pending → poll_from T done c k rounds first ≡ none)
          × (poll_from T done c (suc k) rounds first ≡ some r)
          × Polled k r
    unfolding poll_from
    poll_from-Polled complete q fuel r h = (
      0,
      λ p. cc,
      h,
      subst (Polled 0) (some_inj h) (record { last = first; reports = refl; returns = (refl, q) }),
    )
    poll_from-Polled (done_error e) q fuel r h = (
      0,
      λ p. cc,
      h,
      subst (Polled 0) (some_inj h) (record { last = first; reports = refl; returns = (refl, q) }),
    )
    poll_from-Polled pending q fuel r h =
        let (k, before, here, known) =
          repeat_last (λ i. poll_round T done (rounds i)) Polling (λ _. ⊥) Polled poll_round-Kept
            fuel 0 _ r (record { reports = refl; unfinished = q; held = at_first })
            (ended_poll-eq-some _ r h) in
        (
          k,
          λ _. ap (ended_poll T done) before,
          ap (ended_poll T done) here,
          subst (λ j. Polled j r) (zero_plus k) known,
        )
      where
        zero_plus : (k : ℕ) → 0 + k ≡ k
        zero_plus k = omega arith

    -- The updates of a wait lead from the state that it began with from one state to the next, and
    -- each begins in a state that is pending, so no complete state is passed over. The wait ends in
    -- one round `k`, unless the first state is not pending. Without an error it returns the last of
    -- these states, which is complete; with an error of the completion predicate the last of them,
    -- for which the predicate gives that error; and if the context ended in round `k`, or the poll
    -- function refused it, a state that the poller had held by then: the first, an answer, or one
    -- that others stored.
    pub poll_wait-Polled :
        (fuel : ℕ) (r : PollResult T)
        → poll_wait T done fuel rounds first ≡ some r
        → (k : ℕ) × LastRound k r
    unfolding poll_wait
    poll_wait-Polled fuel r h =
        let (k, before, here, known) = poll_from-Polled (done first) refl fuel r h in
        (k, (before, here, known))

  -- An answer behind which no round follows: a refused request, or a state that is not pending.
  abbrev pub IsLast : Reply T → Type 0
  IsLast (refusal e) = Unit {0}
  IsLast (answer value) = done value ≢ pending

  after_poll_stops :
      (c : Completion) (value : T) (l : PollLocals T)
      → c ≢ pending
      → ¬ IsGo (after_poll T done c value l)
  unfolding after_poll return_value
  after_poll_stops pending value l h = absurd (h refl)
  after_poll_stops complete value l h = λ g. g
  after_poll_stops (done_error e) value l h = λ g. g

  poll_round_stops :
      (r : PollRound T) (l : PollLocals T)
      → (r.cancelled ≡ true) ⊎ IsLast r.reply
      → ¬ IsGo (poll_round T done r l)
  unfolding poll_round return_value
  poll_round_stops r l h = elim (Bool-cases r.cancelled) [
    | inl e ↦ rw e (λ g. g)
    | inr e ↦ elim h [ inl c ↦ cc | inr k ↦ rw e (by_reply _ r.reply k) ]
  ]
    where
      by_reply :
          (shared : T) (reply : Reply T)
          → IsLast reply
          → ¬ IsGo (polled T done r.stored_after (refresh T shared reply) l)
      by_reply shared (refusal e) k = unfold refresh polled return_value in λ g. g
      by_reply shared (answer value) k =
          unfold refresh polled in after_poll_stops (done value) value _ k

  -- The loop is never left but by an end.
  poll_round_stays :
      (r : PollRound T) (l : PollLocals T)
      → Keeps (λ _. Unit {0}) (λ _. ⊥) (λ _. Unit {0}) (poll_round T done r l)
  unfolding poll_round polled after_poll refresh return_value
  poll_round_stays r l = ground arith

  -- A wait ends, with fuel for the rounds up to `n`, if the context ends in round `n` or the poll
  -- function answers it with an error or with a state that is not pending.
  pub poll_wait_ends :
      (rounds : ℕ → PollRound T) (first : T) (n fuel : ℕ)
      → ((rounds n).cancelled ≡ true) ⊎ IsLast (rounds n).reply
      → n < fuel
      → poll_wait T done fuel rounds first ≢ none
  unfolding poll_wait poll_from ended_poll
  poll_wait_ends rounds first n fuel h m = by_first (done first)
    where
      start : PollLocals T
      start = record { shared = first; current = first; attempt = 1; updates = [] }

      stays :
          Holds (λ _. ⊥) (λ _. Unit {0}) (repeat (λ i. poll_round T done (rounds i)) fuel 0 start)
      stays =
          repeat_inv _ (λ _ _. Unit {0}) (λ _. ⊥) (λ _. Unit {0})
            (λ i l _. poll_round_stays (rounds i) l) fuel 0 start tt

      by_end :
          (e : Ended (PollLocals T) (PollResult T))
          → Holds (λ _. ⊥) (λ _. Unit {0}) e
          → e ≢ out_of_fuel
          → ended_poll T done e ≢ none
      by_end out_of_fuel k f = absurd (f refl)
      by_end (finished r) k f = λ p. cc
      by_end (left l) k f = absurd k

      by_first : (c : Completion) → poll_from T done c fuel rounds first ≢ none
      by_first complete = λ p. cc
      by_first (done_error e) = λ p. cc
      by_first pending = by_end _ stays (
          repeat_stops (λ i. poll_round T done (rounds i)) n (λ l. poll_round_stops (rounds n) l h)
            n fuel 0 start (omega arith) m)
