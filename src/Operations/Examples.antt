-- ===== src/Operations/Examples.antt =====
-- The theorems on the operations at a concrete collection, and tests of their parts.
use forward_go_sdk.Prelude.{
  ℕ, suc, ◌+◌, ◌≤◌, ◌==◌, ◌≡◌, ◌≢◌, ◌⊎◌, inl, refl, arith, true, false, Option, none, some, List,
  [], ◌∷◌, All, if◌then◌else◌, not,
}
use forward_go_sdk.Prelude.Int.{pos}
use forward_go_sdk.Text.{Text, codes, text_eq, is_empty, trim_space, equal_fold}
use forward_go_sdk.Operations.Types.{
  collecting, succeeded, processing_snapshot, Snapshot, CollectorTask, CollectionHandle,
  CollectionState, SnapshotHandle, SnapshotState, Operation, WaitOptions, normalize, normal_state,
  parse_operation_time, processed_state, answer, disappeared,
}
use forward_go_sdk.Operations.Discover.{
  discover, find, before_baseline, first_collected, is_collection,
}
use forward_go_sdk.Operations.Discover.Laws.{
  Discovered, NotBaseline, SplitAt, is_candidate, discover_sound, discover_complete,
}
use forward_go_sdk.Rounds.{repeat}
use forward_go_sdk.Operations.Handles.{resume_collection, resume_snapshot}
use forward_go_sdk.Operations.Uploads.{UploadResult, normalize_upload, upload_wait}
use forward_go_sdk.Operations.Uploads.Rounds.{IsAccounted}
use forward_go_sdk.Operations.Uploads.Laws.{upload_wait-IsAccounted}
use forward_go_sdk.Operations.Collection.{
  task_phase, task_round, appearance_round, TaskRound, ListRound, Locals, Result,
}
use forward_go_sdk.Operations.Known.{known_round, stamped}
use forward_go_sdk.Operations.Wait.{World, wait, wait_known}
use forward_go_sdk.Operations.Wait.Success.{TaskSucceeded, wait_success}
use forward_go_sdk.Operations.Wait.Ends.{TaskStops, wait_settles}
use forward_go_sdk.Operations.Wait.Updates.{Chain, wait_updates-Chain}
use forward_go_sdk.Operations.Wait.Errors.{Explained, known_errors-Explained}

-- Every date is the instant 7.
abbrev at_seven : Text → Option ℕ
at_seven t = some 7

abbrev shot : Text → Text → Snapshot
shot id state = record {
  id = id;
  state = state;
  created_at = codes "date";
  processing_trigger = codes "collection";
}

abbrev listed : List Snapshot
listed = shot (codes "s") (codes "PROCESSING") ∷ shot (codes "b") (codes "PROCESSED") ∷ []

abbrev processed : Snapshot
processed = shot (codes "s") (codes " processed")

abbrev handle : CollectionHandle
handle = record {
  network_id = codes "n";
  task_id = codes "t";
  baseline_snapshot_id = codes "b";
  snapshot_id = [];
  started_at = 5;
  appearance_started_at = 0;
  processing_started_at = 0;
}

abbrev task : Text → CollectorTask
task status = record {
  id = codes "t";
  network_id = codes "n";
  status = status;
  created_at = codes "date";
  finished_at = codes "date";
}

abbrev options : WaitOptions
options = record {
  poll_interval = pos 0;
  appearance_timeout = pos 100;
  processing_timeout = pos 100;
  missing_threshold = pos 2;
}

abbrev task_round_of : Text → ℕ → TaskRound
task_round_of status i = record { reply = answer (task status); now = i; cancelled = false }

abbrev list_round_of : List Snapshot → ℕ → ListRound
list_round_of ss i = record {
  reply = answer ss;
  now_found = i;
  now_deadline = i;
  cancelled = false;
}

-- The task runs at first; the snapshot is missing from the list once, and then processed.
abbrev world : World
world = record {
  tasks = λ i. task_round_of (if i == 0 then codes "RUNNING" else codes "SUCCEEDED") i;
  listings = λ i. list_round_of (if i == 0 then [] else listed) i;
  now_known = 9;
  finds = λ i. list_round_of (if i == 0 then [] else processed ∷ []) i;
}

abbrev begun : CollectionState
begun = record { handle = handle; phase = collecting; task = none; snapshot = none }

abbrev operation : Operation CollectionState
operation = record { state = begun; updates = [] }

abbrev run : Option Result
run = wait at_seven options 5 world operation

abbrev or_default : Option Result → Result
or_default none = record { snapshot = none; error = none; op = operation }
or_default (some r) = r

abbrev outcome : Result
outcome = or_default run

discover-listed : discover at_seven handle listed ≡ some (shot (codes "s") (codes "PROCESSING"))
unfolding discover before_baseline text_eq first_collected is_collection equal_fold
discover-listed = refl

-- A snapshot that no collection triggered, in front of the baseline, and one behind it.
abbrev uncollected : List Snapshot
uncollected =
    (record (shot (codes "m") []) { processing_trigger = codes "manual" })
    ∷ shot (codes "b") []
    ∷ shot (codes "o") []
    ∷ []

discover_old : discover at_seven handle uncollected ≡ none
unfolding discover before_baseline text_eq first_collected is_collection equal_fold
discover_old = refl

find-listed : find (codes "b") listed ≡ some (shot (codes "b") (codes "PROCESSED"))
unfolding find text_eq
find-listed = refl

discover_sound_example : Discovered at_seven handle listed (shot (codes "s") (codes "PROCESSING"))
discover_sound_example =
    discover_sound at_seven handle listed (shot (codes "s") (codes "PROCESSING")) discover-listed

discover_complete_example :
    (All (NotBaseline (codes "b")) uncollected
      × All (λ x. is_candidate at_seven (not (is_empty (codes "b"))) 5 x ≡ false) uncollected)
    ⊎ ((newer : List Snapshot) × SplitAt (codes "b") uncollected newer
        × All (λ x. is_collection x ≡ false) newer)
discover_complete_example = discover_complete at_seven handle uncollected discover_old

abbrev resumed : Operation CollectionState
resumed = record {
  state = record {
    handle = handle;
    phase = collecting;
    task = some (record {
      id = codes "t";
      network_id = codes "n";
      status = [];
      created_at = [];
      finished_at = [];
    });
    snapshot = none;
  };
  updates = [];
}

resume_handle : resume_collection 9 handle ≡ some resumed
unfolding resume_collection trim_space is_empty
resume_handle = refl

abbrev upload : SnapshotHandle
upload = record {
  network_id = codes " n";
  snapshot_id = codes "s";
  started_at = 0;
  appeared_at = 4;
}

abbrev resumed_upload : Operation SnapshotState
resumed_upload = record {
  state = record {
    handle = record {
      network_id = codes "n";
      snapshot_id = codes "s";
      started_at = 9;
      appeared_at = 4;
    };
    phase = processing_snapshot;
    snapshot = none;
  };
  updates = [];
}

resume_upload : resume_snapshot 9 upload ≡ some resumed_upload
unfolding resume_snapshot trim_space is_empty
resume_upload = refl

run_ends : run ≡ some outcome
unfolding wait is_empty repeat task_round appearance_round discover before_baseline first_collected
    parse_operation_time is_collection equal_fold normal_state known_round stamped
run_ends = refl

run_succeeds : outcome.error ≡ none
unfolding wait is_empty repeat task_round appearance_round discover before_baseline first_collected
    parse_operation_time is_collection equal_fold normal_state known_round stamped
run_succeeds = refl

run_begins : begun.phase ≢ succeeded
run_begins = λ p. ground arith

wait_success_example :
    (s : Snapshot) × (outcome.snapshot ≡ some s)
    × (outcome.op.state.snapshot ≡ some s)
    × (outcome.op.state.phase ≡ succeeded)
    × (normal_state s ≡ processed_state)
    × (is_empty [] ≡ true → TaskSucceeded outcome.op.state.task)
wait_success_example =
    wait_success at_seven options 5 world operation outcome run_begins run_ends run_succeeds

wait_updates-Chain_example : Chain begun outcome.op.updates outcome.op.state
wait_updates-Chain_example = wait_updates-Chain at_seven options 5 world begun outcome run_ends

second-TaskStops : TaskStops (world.tasks 1) (world.tasks 1).reply
unfolding task_phase
second-TaskStops = inl (λ p. ground arith)

wait_settles_example :
    (fuel : ℕ) × ((more : ℕ) → fuel ≤ more → wait at_seven options more world operation ≢ none)
wait_settles_example =
    wait_settles at_seven options world operation 1 second-TaskStops (λ t. (t, omega arith))
      (λ t. (t, omega arith))

-- The known snapshot is missing from every list.
abbrev empty_world : World
empty_world = record world { finds = λ i. list_round_of [] i }

abbrev known : Locals
known = record {
  state = record begun { handle = record handle { snapshot_id = codes "s" } };
  attempt = 0;
  misses = 0;
  op = operation;
}

abbrev lost : Result
lost = or_default (wait_known at_seven (normalize options) 5 empty_world known)

lost_ends : wait_known at_seven (normalize options) 5 empty_world known ≡ some lost
unfolding wait_known repeat known_round normalize stamped
lost_ends = refl

lost_disappeared : lost.error ≡ some (disappeared 2)
unfolding wait_known repeat known_round normalize stamped
lost_disappeared = refl

known_errors-Explained_example :
    let h = (stamped 9 known).state.handle in
    (k : ℕ) × (wait_known at_seven (normalize options) k empty_world known ≡ none)
    × (wait_known at_seven (normalize options) (suc k) empty_world known ≡ some lost)
    × Explained
        (normalize options)
        (h.processing_started_at + (normalize options).processing_timeout)
        h.snapshot_id
        empty_world.finds
        k
        lost.error
known_errors-Explained_example =
    known_errors-Explained at_seven (normalize options) 5 empty_world known lost
      (unfold normalize in omega arith) lost_ends

abbrev uploaded : Option UploadResult
uploaded = upload_wait options 5 9 world.finds resumed_upload

abbrev or_unchanged : Option UploadResult → UploadResult
or_unchanged none = record { snapshot = none; error = none; op = resumed_upload }
or_unchanged (some r) = r

uploaded_ends : uploaded ≡ some (or_unchanged uploaded)
unfolding upload_wait repeat normal_state
uploaded_ends = refl

upload_unfinished : resumed_upload.state.phase ≢ succeeded
upload_unfinished = λ p. ground arith

upload_wait-IsAccounted_example :
    let limits = normalize_upload options in
    IsAccounted limits
      (9 + limits.appearance_timeout)
      (codes "s")
      world.finds
      (or_unchanged uploaded)
upload_wait-IsAccounted_example =
    upload_wait-IsAccounted options 5 9 world.finds resumed_upload (or_unchanged uploaded)
      upload_unfinished uploaded_ends
