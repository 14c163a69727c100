-- ===== src/Poller.antt =====
-- poller.go: `Poller[T]`. The poll function's answers are observations of a round; the completion
-- predicate is a parameter. The guards against nil are left out.
pub mod Laws
mod Examples
use forward_go_sdk.Prelude.{
  ℕ, ◌+◌, Bool, true, false, Option, none, some, List, [], ◌∷◌, ◌++◌, if◌then◌else◌,
}
use forward_go_sdk.Prelude.Int.{ℤ, positive_or}
use forward_go_sdk.Text.{Text}
use forward_go_sdk.Rounds.{
  Reply, answer, refusal, Step, finish, go, Ended, out_of_fuel, finished, left, repeat,
}

-- What the completion predicate says of a state.
pub data Completion : Type 0 where
  pending complete : Completion
  done_error : Text → Completion

pub data PollError : Type 0 where
  context_ended : PollError
  poll_error : Text → PollError
  completion_error : Text → PollError

-- `PollOptions.Interval` in force: two seconds if it is not above 0.
unfoldable pub poll_interval : ℤ → ℕ
poll_interval interval = positive_or interval 2_000_000_000

module _ (T : Type 0) where
  pub record PollUpdate : Type 0 where
    pub previous : T
    pub value : T
    pub attempt : ℕ

  -- What a round observes: the state that others (other goroutines, or OnUpdate) last stored by
  -- Refresh before the round's own Refresh, if any; whether the context ends before the timer; the
  -- answer of the poll function; and the state that others last stored behind it, before the next
  -- round, or before Wait reads the state behind an error.
  pub record PollRound : Type 0 where
    pub stored_before : Option T
    pub cancelled : Bool
    pub reply : Reply T
    pub stored_after : Option T

  -- The poller's shared state, the local `current` and `attempt`, and the updates so far.
  pub record PollLocals : Type 0 where
    pub shared : T
    pub current : T
    pub attempt : ℕ
    pub updates : List PollUpdate

  -- What `Wait` returns, with the updates that it gave. The shared state is no part of it, since
  -- others can store another one at any time.
  pub record PollResult : Type 0 where
    pub value : T
    pub error : Option PollError
    pub updates : List PollUpdate

  abbrev pub latest_shared : Option T → T → T
  latest_shared none shared = shared
  latest_shared (some t) shared = t

  -- `Refresh`: the state after it, and the state or the error that it returns.
  unfoldable pub refresh : T → Reply T → T × Reply T
  refresh shared (refusal e) = (shared, refusal e)
  refresh shared (answer value) = (value, answer value)

  unfoldable pub return_value : T → Option PollError → List PollUpdate → Step PollLocals PollResult
  return_value value e updates = finish (record { value = value; error = e; updates = updates })

  module _ (done : T → Completion) where
    -- What follows the completion predicate's word on a new state.
    unfoldable pub after_poll : Completion → T → PollLocals → Step PollLocals PollResult
    unfolding return_value
    after_poll pending value l = go (record l { current = value; attempt = l.attempt + 1 })
    after_poll complete value l = return_value value none l.updates
    after_poll (done_error e) value l = return_value value (some (completion_error e)) l.updates

    -- What follows `Refresh`, given what others store behind it.
    unfoldable pub polled : Option T → T × Reply T → PollLocals → Step PollLocals PollResult
    unfolding after_poll
    polled stored (shared, refusal e) l =
        return_value (latest_shared stored shared) (some (poll_error e)) l.updates
    polled stored (shared, answer value) l = after_poll (done value) value (record l {
      shared = latest_shared stored shared;
      updates =
          l.updates ++ (record { previous = l.current; value = value; attempt = l.attempt }) ∷ [];
    })

    unfoldable pub poll_round : PollRound → PollLocals → Step PollLocals PollResult
    unfolding refresh polled return_value
    poll_round r l =
        let shared = latest_shared r.stored_before l.shared in
        if r.cancelled
        then return_value shared (some context_ended) l.updates
        else polled r.stored_after (refresh shared r.reply) l

    unfoldable pub ended_poll : Ended PollLocals PollResult → Option PollResult
    ended_poll (finished r) = some r
    ended_poll (left l) = none
    ended_poll out_of_fuel = none

    -- The first look at the state, which makes no request if it is complete.
    unfoldable pub poll_from : Completion → ℕ → (ℕ → PollRound) → T → Option PollResult
    unfolding poll_round ended_poll
    poll_from complete fuel rounds initial =
        some (record { value = initial; error = none; updates = [] })
    poll_from (done_error e) fuel rounds initial =
        some (record { value = initial; error = some (completion_error e); updates = [] })
    poll_from pending fuel rounds initial = ended_poll (
        repeat (λ i. poll_round (rounds i)) fuel 0
          (record { shared = initial; current = initial; attempt = 1; updates = [] }))

    -- `Wait`, which polls without an end of its own; `none` says that it has not ended within the fuel.
    unfoldable pub poll_wait : ℕ → (ℕ → PollRound) → T → Option PollResult
    unfolding poll_from
    poll_wait fuel rounds initial = poll_from (done initial) fuel rounds initial
