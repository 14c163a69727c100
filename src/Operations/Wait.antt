-- ===== src/Operations/Wait.antt =====
-- operations.go: `CollectionOperation.Wait` as a whole.
pub mod Success
pub mod Errors
pub mod Updates
pub mod Ends
use forward_go_sdk.Prelude.{ℕ, ◌+◌, Option, none, some, if◌then◌else◌}
use forward_go_sdk.Text.{Text, is_empty}
use forward_go_sdk.Operations.Types.{
  Phase, succeeded, failed, Snapshot, CollectionState, Operation, already_failed, WaitOptions,
  Limits, normalize,
}
use forward_go_sdk.Rounds.{Ended, out_of_fuel, finished, left, repeat}
use forward_go_sdk.Operations.Collection.{
  TaskRound, ListRound, Locals, Result, task_round, appearance_round,
}
use forward_go_sdk.Operations.Known.{stamped, known_round}

-- What a whole wait observes: the rounds of its three loops, and the clock before the last.
pub record World : Type 0 where
  pub tasks : ℕ → TaskRound
  pub listings : ℕ → ListRound
  pub now_known : ℕ
  pub finds : ℕ → ListRound

-- The result of the last loop, which is never left but by an end. `none` stands for a wait that
-- has not ended within the fuel.
unfoldable pub ended : Ended Locals Result → Option Result
ended (finished r) = some r
ended (left l) = none
ended out_of_fuel = none

module _ (parse_rfc3339 : Text → Option ℕ) (limits : Limits) (fuel : ℕ) (w : World) where
  -- `waitForKnownSnapshot`; its count of misses starts at 0.
  unfoldable pub wait_known : Locals → Option Result
  unfolding ended
  wait_known l =
      let l' = stamped w.now_known l in
      let deadline = l'.state.handle.processing_started_at + limits.processing_timeout in
      ended
        (repeat (λ i. known_round limits deadline (w.finds i)) fuel 0 (record l' { misses = 0 }))

  unfoldable pub after_listings : Ended Locals Result → Option Result
  unfolding wait_known
  after_listings out_of_fuel = none
  after_listings (finished r) = some r
  after_listings (left l) = wait_known l

  unfoldable pub after_tasks : Ended Locals Result → Option Result
  unfolding after_listings
  after_tasks out_of_fuel = none
  after_tasks (finished r) = some r
  after_tasks (left l) =
      let deadline = l.state.handle.appearance_started_at + limits.appearance_timeout in
      after_listings (repeat (λ i. appearance_round parse_rfc3339 deadline (w.listings i)) fuel 0 l)

  unfoldable pub wait_from : Locals → Option Result
  unfolding after_tasks
  wait_from l =
      if is_empty l.state.handle.snapshot_id
      then after_tasks (repeat (λ i. task_round parse_rfc3339 (w.tasks i)) fuel 0 l)
      else wait_known l

-- A wait on an operation that has ended makes no request.
abbrev pub settled : Operation CollectionState → Phase → Option Snapshot → Option Result
settled op succeeded (some s) = some (record { snapshot = some s; error = none; op = op })
settled op failed snapshot =
    some (record { snapshot = snapshot; error = some already_failed; op = op })
settled op _ _ = none

unfoldable pub wait :
    (Text → Option ℕ) → WaitOptions → ℕ → World → Operation CollectionState → Option Result
unfolding normalize wait_from
wait parse_rfc3339 options fuel w op = elim (settled op op.state.phase op.state.snapshot) [
  | some r ↦ some r
  | none ↦
      wait_from parse_rfc3339 (normalize options) fuel w
        (record { state = op.state; attempt = 0; misses = 0; op = op })
]
