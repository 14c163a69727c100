-- ===== src/Operations/Known.antt =====
-- operations.go: `waitForKnownSnapshot`, the last loop of `CollectionOperation.Wait`.
use forward_go_sdk.Prelude.{List, ℕ, ◌+◌, ◌==◌, Option, none, some, leb, if◌then◌else◌}
use forward_go_sdk.Operations.Types.{
  succeeded, failed, Snapshot, publish, request_error, Reply, cancelled, processing_timeout,
  disappeared, answer, refusal, Limits, snapshot_phase, snapshot_terminal_error, is_past,
}
use forward_go_sdk.Operations.Discover.{find}
use forward_go_sdk.Rounds.{go}
use forward_go_sdk.Operations.Collection.{ListRound, Locals, CollectionStep, fail, succeed}

-- The state after the list was searched for the known snapshot, and the misses in a row.
unfoldable pub observed_known : Option Snapshot → Locals → Locals
unfolding snapshot_phase
observed_known none l =
    let attempt = l.attempt + 1 in
    record l { attempt = attempt; misses = l.misses + 1; op = publish l.state attempt l.op }
observed_known (some snapshot) l =
    let attempt = l.attempt + 1 in
    let next = record l.state { snapshot = some snapshot; phase = snapshot_phase snapshot } in
    record { state = next; attempt = attempt; misses = 0; op = publish next attempt l.op }

-- The start of `waitForKnownSnapshot` stamps a state that has no start of processing yet.
unfoldable pub stamped : ℕ → Locals → Locals
stamped now l =
    let next = record l.state { handle = record l.state.handle { processing_started_at = now } } in
    if l.state.handle.processing_started_at == 0
    then record l { state = next; op = publish next l.attempt l.op }
    else l

module _ (limits : Limits) where
  -- The tests of `waitForKnownSnapshot` behind a search without an end.
  unfoldable pub still_waiting : ℕ → ListRound → Locals → CollectionStep
  unfolding fail is_past
  still_waiting deadline r l =
      if leb limits.missing_threshold l.misses
      then fail l.state.snapshot (disappeared l.misses) l.op
      else if is_past r.now_deadline deadline
      then fail l.state.snapshot processing_timeout l.op
      else if r.cancelled
      then fail l.state.snapshot cancelled l.op
      else go l

  unfoldable pub after_known : ℕ → ListRound → Option Snapshot → Locals → CollectionStep
  unfolding still_waiting succeed snapshot_terminal_error
  after_known deadline r none l = still_waiting deadline r l
  after_known deadline r (some snapshot) l = elim l.state.phase [
    | succeeded ↦ succeed snapshot l.op
    | failed ↦ fail (some snapshot) (snapshot_terminal_error snapshot) l.op
    | _ ↦ still_waiting deadline r l
  ]

  unfoldable pub known_reply : ℕ → ListRound → Reply (List Snapshot) → Locals → CollectionStep
  unfolding find observed_known after_known
  known_reply deadline r (refusal e) l = fail none (request_error e) l.op
  known_reply deadline r (answer snapshots) l =
      let snapshot = find l.state.handle.snapshot_id snapshots in
      after_known deadline r snapshot (observed_known snapshot l)

  -- A round of the last loop.
  unfoldable pub known_round : ℕ → ListRound → Locals → CollectionStep
  unfolding known_reply
  known_round deadline r l = known_reply deadline r r.reply l
