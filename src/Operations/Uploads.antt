-- ===== src/Operations/Uploads.antt =====
-- operations.go: `SnapshotOperation.Wait`, on lists of snapshots as in the waits of a collection.
pub mod Rounds
pub mod Laws
use forward_go_sdk.Prelude.{
  ℕ, ◌+◌, ◌==◌, Bool, true, false, ◌&&◌, ◌||◌, not, Option, none, some, List, [], ◌∷◌, leb,
  if◌then◌else◌,
}
use forward_go_sdk.Prelude.Int.{positive_or}
use forward_go_sdk.Text.{Text}
use forward_go_sdk.Rounds.{
  Reply, answer, refusal, Step, finish, go, Ended, out_of_fuel, finished, left, repeat,
}
use forward_go_sdk.Operations.Types.{
  Phase, succeeded, failed, Snapshot, SnapshotHandle, SnapshotState, Operation, publish, WaitError,
  request_error, cancelled, appearance_timeout, processing_timeout, disappeared, WaitOptions,
  Limits, default_poll_interval, default_appearance_timeout, default_processing_timeout,
  default_missing_threshold, snapshot_phase, snapshot_terminal_error, is_past,
}
use forward_go_sdk.Operations.Discover.{find}
use forward_go_sdk.Operations.Collection.{ListRound}

-- The local variables of `Wait`; a processing deadline of 0 is the zero time.
pub record UploadLocals : Type 0 where
  pub state : SnapshotState
  pub attempt : ℕ
  pub appeared : Bool
  pub processing_deadline : ℕ
  pub misses : ℕ
  pub op : Operation SnapshotState

pub record UploadResult : Type 0 where
  pub snapshot : Option Snapshot
  pub error : Option WaitError
  pub op : Operation SnapshotState

abbrev pub UploadStep : Type 0
UploadStep = Step UploadLocals UploadResult

-- `normalizeSnapshotWaitOptions`
unfoldable pub normalize_upload : WaitOptions → Limits
normalize_upload o = record {
  poll_interval = positive_or o.poll_interval default_poll_interval;
  appearance_timeout = positive_or o.appearance_timeout default_appearance_timeout;
  processing_timeout = positive_or o.processing_timeout default_processing_timeout;
  missing_threshold = positive_or o.missing_threshold default_missing_threshold;
}

unfoldable pub end_upload : Option Snapshot → Option WaitError → UploadLocals → UploadStep
end_upload snapshot e l = finish (record { snapshot = snapshot; error = e; op = l.op })

abbrev is_some : Option Snapshot → Bool
is_some none = false
is_some (some _) = true

module _ (limits : Limits) where
  -- The state after the list was searched for the snapshot; `now` is the clock if it appears.
  unfoldable pub observed_upload : ℕ → Option Snapshot → UploadLocals → UploadLocals
  unfolding snapshot_phase
  observed_upload now none l =
      let attempt = l.attempt + 1 in
      record l {
        attempt = attempt;
        misses = if l.appeared then l.misses + 1 else l.misses;
        op = publish l.state attempt l.op;
      }
  observed_upload now (some s) l =
      let attempt = l.attempt + 1 in
      let handle : SnapshotHandle =
        if l.appeared then l.state.handle else record l.state.handle { appeared_at = now } in
      let next : SnapshotState = record {
        handle = handle;
        phase = snapshot_phase s;
        snapshot = some s;
      } in
      record {
        state = next;
        attempt = attempt;
        appeared = true;
        processing_deadline =
            if l.appeared then l.processing_deadline else now + limits.processing_timeout;
        misses = 0;
        op = publish next attempt l.op;
      }

  -- The tests behind a search without an end.
  unfoldable pub still_uploading : ℕ → ListRound → UploadLocals → UploadStep
  unfolding end_upload is_past
  still_uploading appearance_deadline r l =
      if not l.appeared && is_past r.now_deadline appearance_deadline
      then end_upload none (some appearance_timeout) l
      else if l.appeared && leb limits.missing_threshold l.misses
      then end_upload l.state.snapshot (some (disappeared l.misses)) l
      else if l.appeared
          && not (l.processing_deadline == 0)
          && is_past r.now_deadline l.processing_deadline
      then end_upload l.state.snapshot (some processing_timeout) l
      else if r.cancelled
      then end_upload l.state.snapshot (some cancelled) l
      else go l

  unfoldable pub after_upload : ℕ → ListRound → Option Snapshot → UploadLocals → UploadStep
  unfolding still_uploading end_upload snapshot_terminal_error
  after_upload appearance_deadline r none l = still_uploading appearance_deadline r l
  after_upload appearance_deadline r (some s) l = elim l.state.phase [
    | succeeded ↦ end_upload (some s) none l
    | failed ↦ end_upload (some s) (some (snapshot_terminal_error s)) l
    | _ ↦ still_uploading appearance_deadline r l
  ]

  unfoldable pub upload_reply : ℕ → ListRound → Reply (List Snapshot) → UploadLocals → UploadStep
  unfolding find observed_upload after_upload
  upload_reply appearance_deadline r (refusal e) l =
      end_upload l.state.snapshot (some (request_error e)) l
  upload_reply appearance_deadline r (answer snapshots) l =
      let found = find l.state.handle.snapshot_id snapshots in
      after_upload appearance_deadline r found (observed_upload r.now_found found l)

  -- A round of the loop.
  unfoldable pub upload_round : ℕ → ListRound → UploadLocals → UploadStep
  unfolding upload_reply
  upload_round appearance_deadline r l = upload_reply appearance_deadline r r.reply l

  -- The variables before the loop; `now` is the clock if the snapshot is known but has no time.
  unfoldable pub upload_start : ℕ → Operation SnapshotState → UploadLocals
  upload_start now op =
      let appeared = is_some op.state.snapshot || not (op.state.handle.appeared_at == 0) in
      let appeared_at =
        if op.state.handle.appeared_at == 0 then now else op.state.handle.appeared_at in
      record {
        state =
            if appeared
            then record op.state { handle = record op.state.handle { appeared_at = appeared_at } }
            else op.state;
        attempt = 0;
        appeared = appeared;
        processing_deadline = if appeared then appeared_at + limits.processing_timeout else 0;
        misses = 0;
        op = op;
      }

-- The loop is left only by an end; `none` says that it has not ended within the fuel.
unfoldable pub ended_upload : Ended UploadLocals UploadResult → Option UploadResult
ended_upload (finished r) = some r
ended_upload (left l) = none
ended_upload out_of_fuel = none

abbrev pub settled_upload : Operation SnapshotState → Phase → Option Snapshot → Option UploadResult
settled_upload op succeeded (some s) = some (record { snapshot = some s; error = none; op = op })
settled_upload op _ _ = none

unfoldable pub upload_from :
    Limits → ℕ → ℕ → (ℕ → ListRound) → Operation SnapshotState → Option UploadResult
unfolding upload_round upload_start ended_upload
upload_from limits fuel now rounds op =
    let appearance_deadline = op.state.handle.started_at + limits.appearance_timeout in
    ended_upload (
      repeat (λ i. upload_round limits appearance_deadline (rounds i)) fuel 0
        (upload_start limits now op))

-- `SnapshotOperation.Wait`
unfoldable pub upload_wait :
    WaitOptions → ℕ → ℕ → (ℕ → ListRound) → Operation SnapshotState → Option UploadResult
unfolding normalize_upload upload_from
upload_wait options fuel now rounds op = elim (settled_upload op op.state.phase op.state.snapshot) [
  | some r ↦ some r
  | none ↦ upload_from (normalize_upload options) fuel now rounds op
]
