-- ===== src/Operations/Types.antt =====
-- operations.go: phases, handles, states and options. An instant is a number of nanoseconds since
-- Go's zero time, so 0 is the zero time; `time.Duration` is an int64 of nanoseconds.
use forward_go_sdk.Prelude.{ℕ, ◌*◌, Bool, Option, List, [], ◌∷◌, ◌++◌, leb, if◌then◌else◌}
use forward_go_sdk.Prelude.Int.{ℤ, positive_or}
pub use forward_go_sdk.Rounds.{Reply, answer, refusal}
use forward_go_sdk.Text.{Text, codes, text_eq, is_member, trim_space, to_upper}

pub data Phase : Type 0 where
  collecting waiting_for_snapshot processing_snapshot succeeded failed : Phase

-- The fields of a snapshot and of a collector task that the operations read; the others are
-- carried along by the Go code unread.
pub record Snapshot : Type 0 where
  pub id : Text
  pub state : Text
  pub created_at : Text
  pub processing_trigger : Text

pub record CollectorTask : Type 0 where
  pub id : Text
  pub network_id : Text
  pub status : Text
  pub created_at : Text
  pub finished_at : Text

pub record CollectionHandle : Type 0 where
  pub network_id : Text
  pub task_id : Text
  pub baseline_snapshot_id : Text
  pub snapshot_id : Text
  pub started_at : ℕ
  pub appearance_started_at : ℕ
  pub processing_started_at : ℕ

pub record CollectionState : Type 0 where
  pub handle : CollectionHandle
  pub phase : Phase
  pub task : Option CollectorTask
  pub snapshot : Option Snapshot

pub record SnapshotHandle : Type 0 where
  pub network_id : Text
  pub snapshot_id : Text
  pub started_at : ℕ
  pub appeared_at : ℕ

pub record SnapshotState : Type 0 where
  pub handle : SnapshotHandle
  pub phase : Phase
  pub snapshot : Option Snapshot

-- What OnUpdate is called with, but for the response and the elapsed time.
pub record Update (S : Type 0) : Type 0 where
  pub previous : S
  pub current : S
  pub attempt : ℕ

-- An operation: its shared state, and the updates delivered so far.
pub record Operation (S : Type 0) : Type 0 where
  pub state : S
  pub updates : List (Update S)

-- `publish` and `publishSnapshot`.
unfoldable pub publish : {S : Type 0} → S → ℕ → Operation S → Operation S
publish next attempt op = record {
  state = next;
  updates = op.updates ++ (record { previous = op.state; current = next; attempt = attempt }) ∷ [];
}

-- The errors of the waits; the first is one that a request returned.
pub data WaitError : Type 0 where
  request_error : Text → WaitError
  cancelled : WaitError
  task_ended : Text → Text → WaitError
  snapshot_ended : Text → Text → WaitError
  appearance_timeout processing_timeout : WaitError
  disappeared : ℕ → WaitError
  already_failed : WaitError

pub record WaitOptions : Type 0 where
  pub poll_interval : ℤ
  pub appearance_timeout : ℤ
  pub processing_timeout : ℤ
  pub missing_threshold : ℤ

-- The options in force: the defaults stand in for what is not above 0.
pub record Limits : Type 0 where
  pub poll_interval : ℕ
  pub appearance_timeout : ℕ
  pub processing_timeout : ℕ
  pub missing_threshold : ℕ

abbrev pub default_poll_interval : ℕ
default_poll_interval = 2 * 1_000_000_000

abbrev pub default_appearance_timeout : ℕ
default_appearance_timeout = 5 * 60 * 1_000_000_000

abbrev pub default_processing_timeout : ℕ
default_processing_timeout = 60 * 60 * 1_000_000_000

abbrev pub default_missing_threshold : ℕ
default_missing_threshold = 3

unfoldable pub normalize : WaitOptions → Limits
normalize o = record {
  poll_interval = positive_or o.poll_interval default_poll_interval;
  appearance_timeout = positive_or o.appearance_timeout default_appearance_timeout;
  processing_timeout = positive_or o.processing_timeout default_processing_timeout;
  missing_threshold = positive_or o.missing_threshold default_missing_threshold;
}

abbrev failed_states : List Text
failed_states =
    codes "FAILED"
    ∷ codes "CANCELED"
    ∷ codes "TIMED_OUT"
    ∷ codes "RESTORE_FAILED"
    ∷ codes "ERROR"
    ∷ codes "BROKEN"
    ∷ []

abbrev pub processed_state : Text
processed_state = codes "PROCESSED"

-- A snapshot's state as `snapshotOperationPhase` reads it.
unfoldable pub normal_state : Snapshot → Text
unfolding to_upper trim_space
normal_state s = to_upper (trim_space s.state)

unfoldable pub snapshot_phase : Snapshot → Phase
unfolding text_eq is_member
snapshot_phase s =
    if text_eq (normal_state s) processed_state
    then succeeded
    else if is_member (normal_state s) failed_states
    then failed
    else processing_snapshot

unfoldable pub snapshot_terminal_error : Snapshot → WaitError
snapshot_terminal_error s = snapshot_ended s.id s.state

-- `parseOperationTime`: `parse_rfc3339` stands for time.Parse of the standard library.
unfoldable pub parse_operation_time : (Text → Option ℕ) → Text → Option ℕ
parse_operation_time parse_rfc3339 value = parse_rfc3339 (trim_space value)

-- `!now.Before(deadline)`
unfoldable pub is_past : ℕ → ℕ → Bool
is_past now deadline = leb deadline now
