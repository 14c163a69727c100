-- ===== src/Operations/Handles.antt =====
-- operations.go: starting and resuming operations. `none` stands for the errors of the validation;
-- the guards against nil receivers are left out.
pub mod Laws
use forward_go_sdk.Prelude.{
  ℕ, ◌==◌, Bool, true, false, ◌||◌, Option, none, some, List, [], ◌∷◌, if◌then◌else◌,
}
use forward_go_sdk.Text.{Text, is_empty, trim_space}
use forward_go_sdk.Operations.Types.{
  Phase, collecting, waiting_for_snapshot, processing_snapshot, Snapshot, CollectorTask,
  CollectionHandle, CollectionState, SnapshotHandle, SnapshotState, Operation, Reply, answer,
  refusal, snapshot_phase,
}

-- `validateCollectionHandle`
unfoldable pub is_valid : CollectionHandle → Bool
is_valid h =
    if is_empty (trim_space h.network_id) || is_empty (trim_space h.task_id)
    then false
    else if h.started_at == 0
    then false
    else true

unfoldable pub trimmed : CollectionHandle → CollectionHandle
trimmed h = record h {
  network_id = trim_space h.network_id;
  task_id = trim_space h.task_id;
  baseline_snapshot_id = trim_space h.baseline_snapshot_id;
  snapshot_id = trim_space h.snapshot_id;
}

abbrev named_task : CollectionHandle → CollectorTask
named_task h = record {
  id = h.task_id;
  network_id = h.network_id;
  status = [];
  created_at = [];
  finished_at = [];
}

-- The state that a trimmed handle resumes in; `now` is the clock.
unfoldable pub resumed_state : ℕ → CollectionHandle → CollectionState
resumed_state now h =
    if is_empty h.snapshot_id
    then record { handle = h; phase = collecting; task = some (named_task h); snapshot = none }
    else record {
      handle = record h {
        processing_started_at =
            if h.processing_started_at == 0 then now else h.processing_started_at;
      };
      phase = processing_snapshot;
      task = some (named_task h);
      snapshot = none;
    }

-- `ResumeCollectionOperation`
unfoldable pub resume_collection : ℕ → CollectionHandle → Option (Operation CollectionState)
unfolding is_valid trimmed resumed_state
resume_collection now h =
    if is_valid h
    then some (record { state = resumed_state now (trimmed h); updates = [] })
    else none

-- The errors of starting a collection.
pub data StartError : Type 0 where
  missing_network : StartError
  baseline_refused : Text → StartError
  start_refused : Text → StartError
  invalid_handle : StartError

pub data Started (A : Type 0) : Type 0 where
  started : A → Started A
  not_started : StartError → Started A

abbrev first_id : List Snapshot → Text
first_id [] = []
first_id (s ∷ ss) = s.id

-- What the two requests of `StartCollectionOperation` answer, and the clock at them.
pub record StartReplies : Type 0 where
  pub newest : Reply (List Snapshot)
  pub now : ℕ
  pub task : Reply Text
  pub now_at_resume : ℕ

start_task : StartReplies → Text → Text → Started (Operation CollectionState)
start_task r network baseline = elim r.task [
  | refusal e ↦ not_started (start_refused e)
  | answer task_id ↦
      elim (resume_collection r.now_at_resume (record {
        network_id = network;
        task_id = task_id;
        baseline_snapshot_id = baseline;
        snapshot_id = [];
        started_at = r.now;
        appearance_started_at = 0;
        processing_started_at = 0;
      })) [ none ↦ not_started invalid_handle | some op ↦ started op ]
]

-- `StartCollectionOperation`, with the caller's baseline if it gave one.
unfoldable pub start_collection :
    StartReplies → Text → Option Text → Started (Operation CollectionState)
unfolding start_task
start_collection r network_id baseline =
    let network = trim_space network_id in
    if is_empty network then not_started missing_network else elim baseline [
      | some b ↦ start_task r network (trim_space b)
      | none ↦ elim r.newest [
        | refusal e ↦ not_started (baseline_refused e)
        | answer snapshots ↦ start_task r network (first_id snapshots)
      ]
    ]

-- `ResumeOperation` of a snapshot operation
unfoldable pub resume_snapshot : ℕ → SnapshotHandle → Option (Operation SnapshotState)
resume_snapshot now h =
    let network = trim_space h.network_id in
    let snapshot = trim_space h.snapshot_id in
    if is_empty network || is_empty snapshot
    then none
    else some (record {
      state = record {
        handle = record {
          network_id = network;
          snapshot_id = snapshot;
          started_at = if h.started_at == 0 then now else h.started_at;
          appeared_at = h.appeared_at;
        };
        phase = if h.appeared_at == 0 then waiting_for_snapshot else processing_snapshot;
        snapshot = none;
      };
      updates = [];
    })

-- `StartUploadOperation`, from what the upload answered; the clock is read before and behind it.
unfoldable pub start_upload :
    ℕ → ℕ → Text → Reply (Option Snapshot) → Option (Operation SnapshotState)
unfolding resume_snapshot snapshot_phase
start_upload now_before now_after network_id (refusal e) = none
start_upload now_before now_after network_id (answer none) = none
start_upload now_before now_after network_id (answer (some s)) =
    if is_empty (trim_space s.id)
    then none
    else elim (resume_snapshot now_after (record {
      network_id = trim_space network_id;
      snapshot_id = s.id;
      started_at = now_before;
      appeared_at = now_after;
    })) [
      | none ↦ none
      | some op ↦
          some
            (record op { state = record op.state { snapshot = some s; phase = snapshot_phase s } })
    ]
