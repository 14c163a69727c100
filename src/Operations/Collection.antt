-- ===== src/Operations/Collection.antt =====
-- operations.go: the first two loops of `CollectionOperation.Wait`: the collector's task
-- and the snapshot's appearance. What a round
-- observes is a record, and the environment gives the record of each round.
use forward_go_sdk.Prelude.{
  ℕ, ◌+◌, ◌==◌, Bool, true, false, Option, none, some, List, [], ◌∷◌, if◌then◌else◌,
}
use forward_go_sdk.Text.{Text, codes, text_eq, is_empty, is_member}
use forward_go_sdk.Operations.Types.{
  Phase, collecting, waiting_for_snapshot, succeeded, failed, Snapshot, CollectorTask,
  CollectionState, Operation, publish, WaitError, request_error, cancelled, task_ended,
  appearance_timeout, Reply, answer, refusal, snapshot_phase, snapshot_terminal_error,
  parse_operation_time, is_past,
}
use forward_go_sdk.Operations.Discover.{discover}
use forward_go_sdk.Rounds.{Step, finish, leave, go}

pub record TaskRound : Type 0 where
  pub reply : Reply CollectorTask
  pub now : ℕ
  pub cancelled : Bool

-- A list of snapshots, the clock when one was found and when the deadline was looked at, and whether
-- the context ended in the wait behind it.
pub record ListRound : Type 0 where
  pub reply : Reply (List Snapshot)
  pub now_found : ℕ
  pub now_deadline : ℕ
  pub cancelled : Bool

-- The local variables of `Wait`, with the operation that it publishes to.
pub record Locals : Type 0 where
  pub state : CollectionState
  pub attempt : ℕ
  pub misses : ℕ
  pub op : Operation CollectionState

pub record Result : Type 0 where
  pub snapshot : Option Snapshot
  pub error : Option WaitError
  pub op : Operation CollectionState

abbrev pub CollectionStep : Type 0
CollectionStep = Step Locals Result

unfoldable pub fail : Option Snapshot → WaitError → Operation CollectionState → CollectionStep
fail snapshot e op = finish (record { snapshot = snapshot; error = some e; op = op })

unfoldable pub succeed : Snapshot → Operation CollectionState → CollectionStep
succeed s op = finish (record { snapshot = some s; error = none; op = op })

abbrev ended_statuses : List Text
ended_statuses = codes "FAILED" ∷ codes "TIMED_OUT" ∷ codes "CANCELED" ∷ []

-- The phase that a task's status stands for.
unfoldable pub task_phase : CollectorTask → Phase
unfolding text_eq is_member
task_phase task =
    if text_eq task.status (codes "SUCCEEDED")
    then waiting_for_snapshot
    else if is_member task.status ended_statuses
    then failed
    else collecting

abbrev or_else : Option ℕ → ℕ → ℕ
or_else none d = d
or_else (some t) d = t

abbrev or_now : ℕ → ℕ → ℕ
or_now t now = if t == 0 then now else t

abbrev is_waiting : Phase → Bool
is_waiting waiting_for_snapshot = true
is_waiting _ = false

unfoldable pub after_task : TaskRound → CollectorTask → Locals → CollectionStep
unfolding fail
after_task r task l = elim l.state.phase [
  | failed ↦ fail none (task_ended task.id task.status) l.op
  | waiting_for_snapshot ↦ leave l
  | _ ↦ if r.cancelled then fail none cancelled l.op else go l
]

-- The state after a snapshot of the collection was found.
unfoldable pub found_snapshot : ℕ → Snapshot → CollectionState → CollectionState
unfolding snapshot_phase
found_snapshot now snapshot s = record s {
  handle = record s.handle {
    snapshot_id = snapshot.id;
    processing_started_at = or_now s.handle.processing_started_at now;
  };
  snapshot = some snapshot;
  phase = snapshot_phase snapshot;
}

unfoldable pub after_found : Snapshot → Locals → CollectionStep
unfolding fail succeed snapshot_terminal_error
after_found snapshot l = elim l.state.phase [
  | succeeded ↦ succeed snapshot l.op
  | failed ↦ fail (some snapshot) (snapshot_terminal_error snapshot) l.op
  | _ ↦ leave l
]

module _ (parse_rfc3339 : Text → Option ℕ) where
  -- The state after a task was read: its times and its phase.
  unfoldable pub observed_task : ℕ → CollectorTask → CollectionState → CollectionState
  unfolding task_phase
  observed_task now task s =
      let finished_at = or_else (parse_operation_time parse_rfc3339 task.finished_at) now in
      record s {
        task = some task;
        phase = task_phase task;
        handle = record s.handle {
          started_at =
              or_else (parse_operation_time parse_rfc3339 task.created_at) s.handle.started_at;
          appearance_started_at =
              if is_waiting (task_phase task)
              then or_now s.handle.appearance_started_at finished_at
              else s.handle.appearance_started_at;
        };
      }

  unfoldable pub task_reply : TaskRound → Reply CollectorTask → Locals → CollectionStep
  unfolding observed_task after_task
  task_reply r (refusal e) l = fail none (request_error e) l.op
  task_reply r (answer task) l =
      let next = observed_task r.now task l.state in
      let attempt = l.attempt + 1 in
      after_task r task (record {
        state = next;
        attempt = attempt;
        misses = l.misses;
        op = publish next attempt l.op;
      })

  -- A round of the first loop.
  unfoldable pub task_round : TaskRound → Locals → CollectionStep
  unfolding task_reply
  task_round r l = task_reply r r.reply l

-- What the second loop does with the snapshot that it found, or without one.
unfoldable pub appearance_found : ℕ → ListRound → Option Snapshot → Locals → CollectionStep
unfolding found_snapshot after_found is_past
appearance_found deadline r (some snapshot) l =
    let next = found_snapshot r.now_found snapshot l.state in
    let attempt = l.attempt + 1 in
    after_found snapshot (record {
      state = next;
      attempt = attempt;
      misses = l.misses;
      op = publish next attempt l.op;
    })
appearance_found deadline r none l =
    let attempt = l.attempt + 1 in
    let op = publish l.state attempt l.op in
    if is_past r.now_deadline deadline
    then fail none appearance_timeout op
    else if r.cancelled
    then fail none cancelled op
    else go (record l { attempt = attempt; op = op })

module _ (parse_rfc3339 : Text → Option ℕ) where
  unfoldable pub appearance_reply : ℕ → ListRound → Reply (List Snapshot) → Locals → CollectionStep
  unfolding appearance_found
  appearance_reply deadline r (refusal e) l = fail none (request_error e) l.op
  appearance_reply deadline r (answer snapshots) l =
      appearance_found deadline r (discover parse_rfc3339 l.state.handle snapshots) l

  -- A round of the second loop, which waits for the snapshot to appear until `deadline`.
  unfoldable pub appearance_round : ℕ → ListRound → Locals → CollectionStep
  unfolding appearance_reply
  appearance_round deadline r l =
      if is_empty l.state.handle.snapshot_id then appearance_reply deadline r r.reply l else leave l
