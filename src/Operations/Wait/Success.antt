-- ===== src/Operations/Wait/Success.antt =====
-- When a wait succeeds.
use forward_go_sdk.Prelude.{
  ℕ, ◌≡◌, ◌≢◌, refl, ap, arith, true, false, Option, none, some, List, Bool-cases, Option-cases,
  inl, inr, some_inj,
}
use mathlib.Core.Path.{subst}
use forward_go_sdk.Text.{Text, codes, text_eq, is_empty}
use forward_go_sdk.Text.Laws.{eq-text_eq}
use forward_go_sdk.Operations.Types.{
  request_error, Phase, succeeded, failed, collecting, processing_snapshot, waiting_for_snapshot,
  Snapshot, CollectorTask, CollectionState, Operation, publish, WaitError, WaitOptions, Limits,
  normalize, snapshot_phase, Reply, answer, refusal, processed_state, normal_state,
}
use forward_go_sdk.Operations.Discover.{discover, find}
use forward_go_sdk.Rounds.{Step, Ended, out_of_fuel, finished, left, repeat_inv, Keeps, Holds}
use forward_go_sdk.Operations.Collection.{
  TaskRound, ListRound, Locals, Result, task_round, appearance_round, task_reply, appearance_reply,
  appearance_found, after_task, after_found, observed_task, found_snapshot, fail, succeed,
  task_phase,
}
use forward_go_sdk.Operations.Known.{
  stamped, known_round, known_reply, observed_known, after_known, still_waiting,
}
use forward_go_sdk.Operations.Wait.{
  World, wait, wait_known, after_listings, after_tasks, wait_from, ended, settled,
}

abbrev pub TaskSucceeded : Option CollectorTask → Type 0
TaskSucceeded none = ⊥
TaskSucceeded (some task) = text_eq task.status (codes "SUCCEEDED") ≡ true

-- The local state is the published one.
abbrev InSync : Locals → Type 0
InSync l = l.op.state ≡ l.state

module _ (K : Option CollectorTask → Type 0) where
  -- A result without an error is a processed snapshot, published in a succeeded state.
  pub record Good (r : Result) : Type 0 where
    pub snapshot : Snapshot
    pub returned : r.snapshot ≡ some snapshot
    pub published : r.op.state.snapshot ≡ some snapshot
    pub phase : r.op.state.phase ≡ succeeded
    pub processed : snapshot_phase snapshot ≡ succeeded
    pub task : K r.op.state.task

  abbrev pub IsGood : Result → Type 0
  IsGood r = r.error ≡ none → Good r

  abbrev Ready : Locals → Type 0
  Ready l = InSync l × K l.state.task

  abbrev Kept : Step Locals Result → Type 0
  Kept = Keeps Ready Ready IsGood

  fail_good :
      (snapshot : Option Snapshot) (e : WaitError) (op : Operation CollectionState)
      → Kept (fail snapshot e op)
  unfolding fail
  fail_good snapshot e op = λ h. cc

  after_found_good :
      (s : Snapshot) (l : Locals)
      → Ready l
      → l.state.snapshot ≡ some s
      → l.state.phase ≡ snapshot_phase s
      → Kept (after_found s l)
  unfolding after_found fail succeed
  after_found_good s l (sync, task) e p = ground (arith, ap (λ (t : CollectionState). t.phase) sync)

  still_waiting_good :
      (limits : Limits) (deadline : ℕ) (r : ListRound) (l : Locals)
      → Ready l
      → Kept (still_waiting limits deadline r l)
  unfolding still_waiting fail
  still_waiting_good limits deadline r l h = ground arith

  after_known_good :
      (limits : Limits) (deadline : ℕ) (r : ListRound) (o : Option Snapshot) (l : Locals)
      → Ready l
      → Kept (after_known limits deadline r o (observed_known o l))
  unfolding observed_known after_known succeed fail publish
  after_known_good limits deadline r none l h = ground (arith, h.0, h.1)
  after_known_good limits deadline r (some s) l h = ground (arith, h.0, h.1)

  known_reply_good :
      (limits : Limits) (deadline : ℕ) (r : ListRound) (reply : Reply (List Snapshot)) (l : Locals)
      → Ready l
      → Kept (known_reply limits deadline r reply l)
  unfolding known_reply
  known_reply_good limits deadline r (refusal e) l h = fail_good none (request_error e) l.op
  known_reply_good limits deadline r (answer ss) l h =
      after_known_good limits deadline r (find l.state.handle.snapshot_id ss) l h

  appearance_found_good :
      (deadline : ℕ) (r : ListRound) (o : Option Snapshot) (l : Locals)
      → Ready l
      → Kept (appearance_found deadline r o l)
  unfolding appearance_found found_snapshot publish fail
  appearance_found_good deadline r none l h = ground arith
  appearance_found_good deadline r (some s) l h = after_found_good s _ (refl, h.1) refl refl

  appearance_reply_good :
      (parse : Text → Option ℕ) (deadline : ℕ) (r : ListRound) (reply : Reply (List Snapshot))
      (l : Locals)
      → Ready l
      → Kept (appearance_reply parse deadline r reply l)
  unfolding appearance_reply
  appearance_reply_good parse deadline r (refusal e) l h = fail_good none (request_error e) l.op
  appearance_reply_good parse deadline r (answer ss) l h =
      appearance_found_good deadline r (discover parse l.state.handle ss) l h

  appearance_round_good :
      (parse : Text → Option ℕ) (deadline : ℕ) (r : ListRound) (l : Locals)
      → Ready l
      → Kept (appearance_round parse deadline r l)
  unfolding appearance_round
  appearance_round_good parse deadline r l h =
      elim (Bool-cases (is_empty l.state.handle.snapshot_id)) [
        | inl e ↦ rw e (appearance_reply_good parse deadline r r.reply l h)
        | inr e ↦ rw e h
      ]

  after_task-IsGood :
      (r : TaskRound) (task : CollectorTask) (l : Locals)
      → ((t : Option CollectorTask) → TaskSucceeded t → K t)
      → InSync l
      → l.state.task ≡ some task
      → l.state.phase ≡ task_phase task
      → Keeps InSync Ready IsGood (after_task r task l)
  unfolding after_task task_phase fail
  after_task-IsGood r task l k h e p = ground (arith, k (some task))

  task_reply-IsGood :
      (parse : Text → Option ℕ) (r : TaskRound) (reply : Reply CollectorTask) (l : Locals)
      → ((t : Option CollectorTask) → TaskSucceeded t → K t)
      → InSync l
      → Keeps InSync Ready IsGood (task_reply parse r reply l)
  unfolding task_reply observed_task publish fail
  task_reply-IsGood parse r (refusal e) l k h = λ p. cc
  task_reply-IsGood parse r (answer task) l k h = after_task-IsGood r task _ k refl refl refl

  stamped-Ready : (now : ℕ) (l : Locals) → Ready l → Ready (stamped now l)
  unfolding stamped publish
  stamped-Ready now l h = ground arith

  module _ (parse : Text → Option ℕ) (limits : Limits) (fuel : ℕ) (w : World) where
    abbrev GoodEnd : Option Result → Type 0
    GoodEnd none = Unit {0}
    GoodEnd (some r) = IsGood r

    ended_good : (e : Ended Locals Result) → Holds Ready IsGood e → GoodEnd (ended e)
    unfolding ended
    ended_good out_of_fuel h = tt
    ended_good (finished r) h = h
    ended_good (left l) h = tt

    wait_known_good : (l : Locals) → Ready l → GoodEnd (wait_known parse limits fuel w l)
    unfolding wait_known known_round
    wait_known_good l h = ended_good _ (
        repeat_inv _ (λ i. Ready) Ready IsGood
          (λ i l' k. known_reply_good limits _ (w.finds i) (w.finds i).reply l' k) fuel 0 _
          (stamped-Ready w.now_known l h))

    after_listings_good :
        (e : Ended Locals Result)
        → Holds Ready IsGood e
        → GoodEnd (after_listings parse limits fuel w e)
    unfolding after_listings
    after_listings_good out_of_fuel h = tt
    after_listings_good (finished r) h = h
    after_listings_good (left l) h = wait_known_good l h

    after_tasks_good :
        (e : Ended Locals Result)
        → Holds Ready IsGood e
        → GoodEnd (after_tasks parse limits fuel w e)
    unfolding after_tasks
    after_tasks_good out_of_fuel h = tt
    after_tasks_good (finished r) h = h
    after_tasks_good (left l) h = after_listings_good _ (
        repeat_inv _ (λ i. Ready) Ready IsGood
          (λ i l' k. appearance_round_good parse _ (w.listings i) l' k) fuel 0 l h)

    wait_from_good :
        (l : Locals)
        → InSync l
        → ((t : Option CollectorTask) → TaskSucceeded t → K t)
        → (is_empty l.state.handle.snapshot_id ≡ false → K l.state.task)
        → GoodEnd (wait_from parse limits fuel w l)
    unfolding wait_from task_round
    wait_from_good l h k known = elim (Bool-cases (is_empty l.state.handle.snapshot_id)) [
      | inl e ↦ rw e (
          after_tasks_good _ (
            repeat_inv _ (λ i. InSync) Ready IsGood
              (λ i l' s. task_reply-IsGood parse (w.tasks i) (w.tasks i).reply l' k s) fuel 0 l h))
      | inr e ↦ rw e (wait_known_good l (h, known e))
    ]

phase_processed : (s : Snapshot) → snapshot_phase s ≡ succeeded → normal_state s ≡ processed_state
unfolding snapshot_phase
phase_processed s h = eq-text_eq (normal_state s) processed_state (ground arith)

settled_error :
    (op : Operation CollectionState) (phase : Phase) (snapshot : Option Snapshot) (r : Result)
    → phase ≢ succeeded
    → settled op phase snapshot ≡ some r
    → r.error ≢ none
settled_error op succeeded snapshot r p h = absurd (p refl)
settled_error op failed snapshot r p h = λ q. ground arith
settled_error op collecting snapshot r p h = cc
settled_error op waiting_for_snapshot snapshot r p h = cc
settled_error op processing_snapshot snapshot r p h = cc

-- A wait returns no error only with a snapshot in the state PROCESSED, which is then the snapshot of
-- the published state, in the phase "succeeded"; and if it began without a snapshot, the collector
-- task that it last read had the status SUCCEEDED. (An operation that had succeeded before is
-- returned as it is.)
pub wait_success :
    (parse : Text → Option ℕ) (options : WaitOptions) (fuel : ℕ) (w : World)
    (op : Operation CollectionState) (r : Result)
    → op.state.phase ≢ succeeded
    → wait parse options fuel w op ≡ some r
    → r.error ≡ none
    → (s : Snapshot) × (r.snapshot ≡ some s)
      × (r.op.state.snapshot ≡ some s)
      × (r.op.state.phase ≡ succeeded)
      × (normal_state s ≡ processed_state)
      × (is_empty op.state.handle.snapshot_id ≡ true → TaskSucceeded r.op.state.task)
unfolding wait
wait_success parse options fuel w op r p h e =
    elim (Option-cases (settled op op.state.phase op.state.snapshot)) [
      | inl q ↦ describe (started_good (wait_from parse limits fuel w l) all (rw (q, wait) at h))
      | inr (r', q) ↦ absurd (
          settled_error op op.state.phase op.state.snapshot r' p q
            (rw (some_inj (rw (q, wait) at h)) e))
    ]
  where
    K : Option CollectorTask → Type 0
    K t = is_empty op.state.handle.snapshot_id ≡ true → TaskSucceeded t

    limits : Limits
    limits = normalize options

    l : Locals
    l = record { state = op.state; attempt = 0; misses = 0; op = op }

    all : GoodEnd K parse limits fuel w (wait_from parse limits fuel w l)
    all = wait_from_good K parse limits fuel w l refl (λ t s _. s) (λ q v. cc)

    started_good : (m : Option Result) → GoodEnd K parse limits fuel w m → m ≡ some r → Good K r
    started_good none g q = cc
    started_good (some r') g q = subst (IsGood K) (some_inj q) g e

    describe :
        Good K r
        → (s : Snapshot) × (r.snapshot ≡ some s)
          × (r.op.state.snapshot ≡ some s)
          × (r.op.state.phase ≡ succeeded)
          × (normal_state s ≡ processed_state)
          × (is_empty op.state.handle.snapshot_id ≡ true → TaskSucceeded r.op.state.task)
    describe g = (
      g.snapshot,
      g.returned,
      g.published,
      g.phase,
      phase_processed g.snapshot g.processed,
      g.task,
    )
