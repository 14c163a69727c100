-- ===== src/Operations/Uploads/Laws.antt =====
-- What the result of `SnapshotOperation.Wait` says of the rounds that led to it.
use forward_go_sdk.Prelude.{
  ℕ, ◌+◌, ◌<◌, ◌≡◌, ◌≢◌, inl, inr, refl, arith, ◌==◌, ◌||◌, not, Option, none, some, Bool-cases,
}
use mathlib.Core.Path.{subst}
use forward_go_sdk.Operations.Types.{
  Phase, collecting, waiting_for_snapshot, processing_snapshot, succeeded, failed, Snapshot,
  SnapshotState, Operation, WaitOptions, Limits,
}
use forward_go_sdk.Operations.Collection.{ListRound}
use forward_go_sdk.Operations.Uploads.{
  UploadResult, normalize_upload, is_some, upload_start, settled_upload, upload_from, upload_wait,
}
use forward_go_sdk.Operations.Uploads.Rounds.{IsAccounted, Searching, AccountedEnd, loop-Accounted}

start-Searching :
    (limits : Limits) (deadline now : ℕ) (rounds : ℕ → ListRound) (op : Operation SnapshotState)
    → 0 < limits.missing_threshold
    → Searching limits deadline op.state.handle.snapshot_id rounds 0 (upload_start limits now op)
unfolding upload_start
start-Searching limits deadline now rounds op t =
    elim (Bool-cases (is_some op.state.snapshot || not (op.state.handle.appeared_at == 0))) [
      | inl e ↦ record {
        looking = record {
          same_id = rw e refl;
          unseen = λ q j m. absurd (omega arith);
          due = λ q. rw e refl;
          start = 0;
          last = refl;
          missed = λ j a m. absurd (omega arith);
          few = omega arith;
        };
        below = t;
      }
      | inr e ↦ record {
        looking = record {
          same_id = rw e refl;
          unseen = λ q j m. absurd (omega arith);
          due = λ q. cc;
          start = 0;
          last = refl;
          missed = λ j a m. absurd (omega arith);
          few = omega arith;
        };
        below = t;
      }
    ]

upload_from-Accounted :
    (limits : Limits) (fuel now : ℕ) (rounds : ℕ → ListRound) (op : Operation SnapshotState)
    → 0 < limits.missing_threshold
    → AccountedEnd limits
        (op.state.handle.started_at + limits.appearance_timeout)
        op.state.handle.snapshot_id
        rounds
        (upload_from limits fuel now rounds op)
unfolding upload_from
upload_from-Accounted limits fuel now rounds op t =
    loop-Accounted limits (op.state.handle.started_at + limits.appearance_timeout)
      op.state.handle.snapshot_id rounds fuel (upload_start limits now op) t
      (start-Searching limits (op.state.handle.started_at + limits.appearance_timeout) now rounds op
        t)

threshold_positive : (options : WaitOptions) → 0 < (normalize_upload options).missing_threshold
unfolding normalize_upload
threshold_positive options = ground arith

unsettled :
    (op : Operation SnapshotState) (phase : Phase) (o : Option Snapshot)
    → phase ≢ succeeded
    → settled_upload op phase o ≡ none
unsettled op succeeded o h = absurd (h refl)
unsettled op collecting o h = refl
unsettled op waiting_for_snapshot o h = refl
unsettled op processing_snapshot o h = refl
unsettled op failed o h = refl

-- What a wait on a snapshot operation that has not succeeded before returns is accounted for by its
-- rounds. Without an error it is a processed snapshot, which is published in the phase "succeeded". A
-- timeout of the appearance says that the clock had reached the operation's start plus the timeout and
-- no list so far had the snapshot; "disappeared" that as many lists in a row as the threshold, which
-- the error gives, lacked it; a timeout of the processing that the clock had reached the appearance
-- plus the timeout; a cancellation or a refused request that a round had it; and the error of a
-- terminal state that the snapshot that is returned has failed.
pub upload_wait-IsAccounted :
    (options : WaitOptions) (fuel now : ℕ) (rounds : ℕ → ListRound) (op : Operation SnapshotState)
    (r : UploadResult)
    → op.state.phase ≢ succeeded
    → upload_wait options fuel now rounds op ≡ some r
    → let limits = normalize_upload options in
      IsAccounted limits
        (op.state.handle.started_at + limits.appearance_timeout)
        op.state.handle.snapshot_id
        rounds
        r
unfolding upload_wait
upload_wait-IsAccounted options fuel now rounds op r p h =
    let limits = normalize_upload options in
    subst
      (AccountedEnd limits (op.state.handle.started_at + limits.appearance_timeout)
        op.state.handle.snapshot_id rounds)
      (rw (unsettled op op.state.phase op.state.snapshot p, upload_wait) at h)
      (upload_from-Accounted limits fuel now rounds op (threshold_positive options))
