-- ===== src/Operations/Wait/Updates.antt =====
-- The updates that a wait delivers. Whatever `publish` keeps, the whole wait keeps.
use forward_go_sdk.Prelude.{
  ℕ, ◌+◌, ◌≡◌, refl, sym, ◌∙◌, arith, Option, none, some, List, [], ◌∷◌, ◌++◌, Bool-cases,
  Option-cases, inl, inr, some_inj,
}
use mathlib.Core.Path.{subst}
use forward_go_sdk.Text.{Text, is_empty}
use forward_go_sdk.Operations.Types.{
  snapshot_phase, Phase, Snapshot, CollectorTask, CollectionState, Operation, Update, WaitOptions,
  Limits, normalize, Reply, answer, refusal, publish,
}
use forward_go_sdk.Operations.Discover.{discover, find}
use forward_go_sdk.Rounds.{Step, Ended, out_of_fuel, finished, left, repeat_inv, Keeps, Holds}
use forward_go_sdk.Operations.Collection.{
  TaskRound, ListRound, Locals, Result, task_round, task_reply, after_task, appearance_round,
  appearance_reply, appearance_found, after_found, fail, succeed,
}
use forward_go_sdk.Operations.Known.{
  stamped, known_round, known_reply, after_known, still_waiting, observed_known,
}
use forward_go_sdk.Operations.Wait.{
  World, wait, wait_known, after_listings, after_tasks, wait_from, ended, settled,
}

-- `P` holds on, whatever is published.
abbrev Closed : (Operation CollectionState → Type 0) → Type 0
Closed P =
    (next : CollectionState) (attempt : ℕ) (op : Operation CollectionState)
    → P op
    → P (publish next attempt op)

module _ (P : Operation CollectionState → Type 0) (kept : Closed P) where
  abbrev Of : Locals → Type 0
  Of l = P l.op

  abbrev OfResult : Result → Type 0
  OfResult r = P r.op

  abbrev Kept : Step Locals Result → Type 0
  Kept = Keeps Of Of OfResult

  after_task-Kept :
      (r : TaskRound) (task : CollectorTask) (l : Locals) → Of l → Kept (after_task r task l)
  unfolding after_task fail
  after_task-Kept r task l h = ground arith

  task_reply-Kept :
      (parse : Text → Option ℕ) (r : TaskRound) (reply : Reply CollectorTask) (l : Locals)
      → Of l
      → Kept (task_reply parse r reply l)
  unfolding task_reply fail
  task_reply-Kept parse r (refusal e) l h = h
  task_reply-Kept parse r (answer task) l h = after_task-Kept r task _ (kept _ _ l.op h)

  after_found-Kept : (s : Snapshot) (l : Locals) → Of l → Kept (after_found s l)
  unfolding after_found fail succeed
  after_found-Kept s l h = ground arith

  appearance_found-Kept :
      (deadline : ℕ) (r : ListRound) (o : Option Snapshot) (l : Locals)
      → Of l
      → Kept (appearance_found deadline r o l)
  unfolding appearance_found fail
  appearance_found-Kept deadline r none l h = ground (arith, kept l.state (l.attempt + 1) l.op h)
  appearance_found-Kept deadline r (some s) l h = after_found-Kept s _ (kept _ _ l.op h)

  appearance_round-Kept :
      (parse : Text → Option ℕ) (deadline : ℕ) (r : ListRound) (l : Locals)
      → Of l
      → Kept (appearance_round parse deadline r l)
  unfolding appearance_round appearance_reply fail
  appearance_round-Kept parse deadline r l h =
      elim (Bool-cases (is_empty l.state.handle.snapshot_id)) [
        | inl e ↦ rw e (by_reply r.reply)
        | inr e ↦ rw e h
      ]
    where
      by_reply : (reply : Reply (List Snapshot)) → Kept (appearance_reply parse deadline r reply l)
      by_reply (refusal e) = h
      by_reply (answer ss) = appearance_found-Kept deadline r (discover parse l.state.handle ss) l h

  still_waiting-Kept :
      (limits : Limits) (deadline : ℕ) (r : ListRound) (l : Locals)
      → Of l
      → Kept (still_waiting limits deadline r l)
  unfolding still_waiting fail
  still_waiting-Kept limits deadline r l h = ground arith

  known_reply-Kept :
      (limits : Limits) (deadline : ℕ) (r : ListRound) (reply : Reply (List Snapshot)) (l : Locals)
      → Of l
      → Kept (known_reply limits deadline r reply l)
  unfolding known_reply fail
  known_reply-Kept limits deadline r (refusal e) l h = h
  known_reply-Kept limits deadline r (answer ss) l h = by_find (find l.state.handle.snapshot_id ss)
    where
      by_find : (o : Option Snapshot) → Kept (after_known limits deadline r o (observed_known o l))
      by_find none =
          unfold after_known observed_known in
          still_waiting-Kept limits deadline r _ (kept _ _ l.op h)
      by_find (some s) =
          unfold after_known observed_known succeed fail in
          ground (
            arith,
            kept (record l.state { snapshot = some s; phase = snapshot_phase s }) (l.attempt + 1)
                l.op h,
          )

  stamped_kept : (now : ℕ) (l : Locals) → Of l → Of (stamped now l)
  unfolding stamped
  stamped_kept now l h = ground (
    arith,
    kept (record l.state { handle = record l.state.handle { processing_started_at = now } })
        l.attempt l.op h,
  )

  module _ (parse : Text → Option ℕ) (limits : Limits) (fuel : ℕ) (w : World) where
    abbrev KeptEnd : Option Result → Type 0
    KeptEnd none = Unit {0}
    KeptEnd (some r) = OfResult r

    ended_kept : (e : Ended Locals Result) → Holds Of OfResult e → KeptEnd (ended e)
    unfolding ended
    ended_kept out_of_fuel h = tt
    ended_kept (finished r) h = h
    ended_kept (left l) h = tt

    wait_known_kept : (l : Locals) → Of l → KeptEnd (wait_known parse limits fuel w l)
    unfolding wait_known known_round
    wait_known_kept l h = ended_kept _ (
        repeat_inv _ (λ i. Of) Of OfResult
          (λ i l' k. known_reply-Kept limits _ (w.finds i) (w.finds i).reply l' k) fuel 0 _
          (stamped_kept w.now_known l h))

    after_listings_kept :
        (e : Ended Locals Result)
        → Holds Of OfResult e
        → KeptEnd (after_listings parse limits fuel w e)
    unfolding after_listings
    after_listings_kept out_of_fuel h = tt
    after_listings_kept (finished r) h = h
    after_listings_kept (left l) h = wait_known_kept l h

    after_tasks_kept :
        (e : Ended Locals Result)
        → Holds Of OfResult e
        → KeptEnd (after_tasks parse limits fuel w e)
    unfolding after_tasks
    after_tasks_kept out_of_fuel h = tt
    after_tasks_kept (finished r) h = h
    after_tasks_kept (left l) h = after_listings_kept _ (
        repeat_inv _ (λ i. Of) Of OfResult
          (λ i l' k. appearance_round-Kept parse _ (w.listings i) l' k) fuel 0 l h)

    wait_from_kept : (l : Locals) → Of l → KeptEnd (wait_from parse limits fuel w l)
    unfolding wait_from task_round
    wait_from_kept l h = elim (Bool-cases (is_empty l.state.handle.snapshot_id)) [
      | inl e ↦ rw e (
          after_tasks_kept _ (
            repeat_inv _ (λ i. Of) Of OfResult
              (λ i l' k. task_reply-Kept parse (w.tasks i) (w.tasks i).reply l' k) fuel 0 l h))
      | inr e ↦ rw e (wait_known_kept l h)
    ]

settled_op :
    (op : Operation CollectionState) (phase : Phase) (snapshot : Option Snapshot) (r : Result)
    → settled op phase snapshot ≡ some r
    → op ≡ r.op
settled_op op phase snapshot r h = ground arith

module _ (P : Operation CollectionState → Type 0) (kept : Closed P) where
  wait_kept :
      (parse : Text → Option ℕ) (options : WaitOptions) (fuel : ℕ) (w : World)
      (op : Operation CollectionState) (r : Result)
      → P op
      → wait parse options fuel w op ≡ some r
      → P r.op
  unfolding wait
  wait_kept parse options fuel w op r p h =
      elim (Option-cases (settled op op.state.phase op.state.snapshot)) [
        | inl q ↦
            conclude _ (wait_from_kept P kept parse (normalize options) fuel w l p)
              (rw (q, wait) at h)
        | inr (r', q) ↦
            subst P (settled_op op op.state.phase op.state.snapshot r (q ∙ rw (q, wait) at h)) p
      ]
    where
      l : Locals
      l = record { state = op.state; attempt = 0; misses = 0; op = op }

      conclude :
          (m : Option Result)
          → KeptEnd P kept parse (normalize options) fuel w m
          → m ≡ some r
          → P r.op
      conclude none k q = cc
      conclude (some r') k q = subst (λ x. P x.op) (some_inj q) k

-- The updates lead from one state to another, each beginning where the one before it ended.
abbrev pub Chain : CollectionState → List (Update CollectionState) → CollectionState → Type 0
Chain s [] t = s ≡ t
Chain s (u ∷ us) t = (u.previous ≡ s) × Chain u.current us t

Chain-append :
    (s t next : CollectionState) (us : List (Update CollectionState)) (attempt : ℕ)
    → Chain s us t
    → Chain s (us ++ (record { previous = t; current = next; attempt = attempt }) ∷ []) next
Chain-append s t next [] attempt h = (sym h, refl)
Chain-append s t next (u ∷ us) attempt h = (h.0, Chain-append u.current t next us attempt h.1)

-- The updates that a wait on an operation without earlier ones delivers form a chain: the first begins in the state that the operation
-- had, each next one in the state that the one before it published, and the last one ends in the
-- state that the operation has after the wait.
pub wait_updates-Chain :
    (parse : Text → Option ℕ) (options : WaitOptions) (fuel : ℕ) (w : World) (s : CollectionState)
    (r : Result)
    → wait parse options fuel w (record { state = s; updates = [] }) ≡ some r
    → Chain s r.op.updates r.op.state
wait_updates-Chain parse options fuel w s r h =
    wait_kept (λ op. Chain s op.updates op.state) chained parse options fuel w
      (record { state = s; updates = [] }) r refl h
  where
    chained : Closed (λ op. Chain s op.updates op.state)
    chained next attempt op k = unfold publish in Chain-append s op.state next op.updates attempt k
