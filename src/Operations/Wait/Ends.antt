-- ===== src/Operations/Wait/Ends.antt =====
-- operations.go: the ends of `CollectionOperation.Wait`.
use forward_go_sdk.Prelude.{
  ℕ, ◌+◌, ◌≤◌, ◌≡◌, ◌≢◌, ◌⊎◌, refl, arith, true, Option, none, some, List, Bool-cases, Option-cases,
  inl, inr, le→leb,
}
use Prim.Native.Nat.{max}
use forward_go_sdk.Text.{Text, is_empty}
use forward_go_sdk.Operations.Types.{
  collecting, Snapshot, CollectorTask, CollectionState, Operation, WaitOptions, Limits, normalize,
  Reply, answer, refusal, is_past,
}
use forward_go_sdk.Operations.Discover.{discover, find}
use forward_go_sdk.Rounds.{
  Step, Ended, out_of_fuel, finished, left, repeat, repeat_stops, repeat_more, repeat_inv, IsGo,
  Keeps, Holds,
}
use forward_go_sdk.Operations.Collection.{
  TaskRound, ListRound, Locals, Result, task_round, task_reply, after_task, observed_task,
  task_phase, appearance_round, appearance_reply, appearance_found, after_found, fail, succeed,
}
use forward_go_sdk.Operations.Known.{stamped, known_round, known_reply, after_known, still_waiting}
use forward_go_sdk.Operations.Wait.{
  World, wait, wait_known, after_listings, after_tasks, wait_from, ended, settled,
}

-- A round after which the task is not asked for again: a refused request, a task that is no longer
-- queued or running, or a context that ends.
abbrev pub TaskStops : TaskRound → Reply CollectorTask → Type 0
TaskStops r (refusal e) = Unit {0}
TaskStops r (answer task) = (task_phase task ≢ collecting) ⊎ (r.cancelled ≡ true)

after_task_stops :
    (r : TaskRound) (task : CollectorTask) (l : Locals)
    → (task_phase task ≢ collecting) ⊎ (r.cancelled ≡ true)
    → l.state.phase ≡ task_phase task
    → ¬ IsGo (after_task r task l)
unfolding after_task task_phase fail
after_task_stops r task l h p = λ g. ground arith

task_reply_stops :
    (parse : Text → Option ℕ) (r : TaskRound) (reply : Reply CollectorTask) (l : Locals)
    → TaskStops r reply
    → ¬ IsGo (task_reply parse r reply l)
unfolding task_reply observed_task fail
task_reply_stops parse r (refusal e) l h = λ g. g
task_reply_stops parse r (answer task) l h = after_task_stops r task _ h refl

after_found_stops : (s : Snapshot) (l : Locals) → ¬ IsGo (after_found s l)
unfolding after_found fail succeed
after_found_stops s l = λ g. ground arith

module _ (deadline : ℕ) (r : ListRound) (past : deadline ≤ r.now_deadline) where
  appearance_found_stops :
      (o : Option Snapshot) (l : Locals) → ¬ IsGo (appearance_found deadline r o l)
  unfolding appearance_found is_past fail
  appearance_found_stops none l = rw (le→leb deadline r.now_deadline past) (λ g. g)
  appearance_found_stops (some s) l = after_found_stops s _

  appearance_round_stops :
      (parse : Text → Option ℕ) (l : Locals) → ¬ IsGo (appearance_round parse deadline r l)
  unfolding appearance_round appearance_reply fail
  appearance_round_stops parse l = elim (Bool-cases (is_empty l.state.handle.snapshot_id)) [
    | inl e ↦ rw e (by_reply r.reply)
    | inr e ↦ rw e (λ g. g)
  ]
    where
      by_reply :
          (reply : Reply (List Snapshot)) → ¬ IsGo (appearance_reply parse deadline r reply l)
      by_reply (refusal e) = λ g. g
      by_reply (answer ss) = appearance_found_stops (discover parse l.state.handle ss) l

  still_waiting_stops : (limits : Limits) (l : Locals) → ¬ IsGo (still_waiting limits deadline r l)
  unfolding still_waiting is_past fail
  still_waiting_stops limits l = λ g. ground arith

  after_known_stops :
      (limits : Limits) (o : Option Snapshot) (l : Locals)
      → ¬ IsGo (after_known limits deadline r o l)
  unfolding after_known succeed fail
  after_known_stops limits none l = still_waiting_stops limits l
  after_known_stops limits (some s) l = λ g. ground (arith, still_waiting_stops limits l)

  known_reply_stops :
      (limits : Limits) (reply : Reply (List Snapshot)) (l : Locals)
      → ¬ IsGo (known_reply limits deadline r reply l)
  unfolding known_reply fail
  known_reply_stops limits (refusal e) l = λ g. g
  known_reply_stops limits (answer ss) l =
      after_known_stops limits (find l.state.handle.snapshot_id ss) _

-- The last loop is never left but by an end.
abbrev Stays : Step Locals Result → Type 0
Stays = Keeps (λ _. Unit {0}) (λ _. ⊥) (λ _. Unit {0})

still_waiting-Stays :
    (limits : Limits) (deadline : ℕ) (r : ListRound) (l : Locals)
    → Stays (still_waiting limits deadline r l)
unfolding still_waiting fail
still_waiting-Stays limits deadline r l = ground arith

known_reply-Stays :
    (limits : Limits) (deadline : ℕ) (r : ListRound) (reply : Reply (List Snapshot)) (l : Locals)
    → Stays (known_reply limits deadline r reply l)
unfolding known_reply fail
known_reply-Stays limits deadline r (refusal e) l = tt
known_reply-Stays limits deadline r (answer ss) l = by_find (find l.state.handle.snapshot_id ss) _
  where
    by_find : (o : Option Snapshot) (l' : Locals) → Stays (after_known limits deadline r o l')
    by_find none l' = unfold after_known in still_waiting-Stays limits deadline r l'
    by_find (some s) l' =
        unfold after_known succeed fail in ground (arith, still_waiting-Stays limits deadline r l')

-- A clock that reaches every instant in some round.
abbrev pub Reaches : (ℕ → ListRound) → Type 0
Reaches rounds = (t : ℕ) → (i : ℕ) × (t ≤ (rounds i).now_deadline)

-- There is a fuel from which on the wait has ended.
abbrev pub Settles : (ℕ → Option Result) → Type 0
Settles result = (fuel : ℕ) × ((more : ℕ) → fuel ≤ more → result more ≢ none)

module _ (parse : Text → Option ℕ) (limits : Limits) (w : World) (finds : Reaches w.finds) where
  wait_known-Settles : (l : Locals) → Settles (λ fuel. wait_known parse limits fuel w l)
  unfolding wait_known known_round
  wait_known-Settles l =
      let (n, past) = finds deadline in
      (
        n + 1,
        λ more h.
            not_left (repeat rounds more 0 start)
              (repeat_inv rounds (λ _ _. Unit {0}) (λ _. ⊥) (λ _. Unit {0})
                (λ i l' _. known_reply-Stays limits deadline (w.finds i) (w.finds i).reply l') more
                0 start tt)
              (repeat_stops rounds n
                (known_reply_stops deadline (w.finds n) past limits (w.finds n).reply) n more 0
                start (omega arith) (omega arith)),
      )
    where
      deadline : ℕ
      deadline =
          (stamped w.now_known l).state.handle.processing_started_at + limits.processing_timeout

      start : Locals
      start = record (stamped w.now_known l) { misses = 0 }

      rounds : ℕ → Locals → Step Locals Result
      rounds i = known_round limits deadline (w.finds i)

      not_left :
          (e : Ended Locals Result)
          → Holds (λ _. ⊥) (λ _. Unit {0}) e
          → e ≢ out_of_fuel
          → ended e ≢ none
      not_left out_of_fuel k h = absurd (h refl)
      not_left (finished r) k h = unfold ended in λ p. cc
      not_left (left l) k h = absurd k

  after_listings-Settles :
      (e : Ended Locals Result)
      → e ≢ out_of_fuel
      → Settles (λ fuel. after_listings parse limits fuel w e)
  unfolding after_listings
  after_listings-Settles out_of_fuel h = absurd (h refl)
  after_listings-Settles (finished r) h = (0, λ more k p. cc)
  after_listings-Settles (left l) h = wait_known-Settles l

  after_tasks-Settles :
      Reaches w.listings
      → (e : Ended Locals Result) → e ≢ out_of_fuel
      → Settles (λ fuel. after_tasks parse limits fuel w e)
  unfolding after_tasks
  after_tasks-Settles listings out_of_fuel h = absurd (h refl)
  after_tasks-Settles listings (finished r) h = (0, λ more k p. cc)
  after_tasks-Settles listings (left l) h =
      let (n, past) = listings deadline in
      let stops =
        repeat_stops rounds n (appearance_round_stops deadline (w.listings n) past parse) n (n + 1)
          0 l (omega arith) (omega arith) in
      let (f, settled) = after_listings-Settles (repeat rounds (n + 1) 0 l) stops in
      (
        max (n + 1) f,
        λ more k.
            rw (repeat_more rounds (n + 1) more 0 l (omega arith) stops)
              (settled more (omega arith)),
      )
    where
      deadline : ℕ
      deadline = l.state.handle.appearance_started_at + limits.appearance_timeout

      rounds : ℕ → Locals → Step Locals Result
      rounds i = appearance_round parse deadline (w.listings i)

  wait_from-Settles :
      Reaches w.listings
      → (n : ℕ) → TaskStops (w.tasks n) (w.tasks n).reply
      → (l : Locals) → Settles (λ fuel. wait_from parse limits fuel w l)
  unfolding wait_from task_round
  wait_from-Settles listings n stops l = elim (Bool-cases (is_empty l.state.handle.snapshot_id)) [
    | inl e ↦
        let (f, settled) = after_tasks-Settles listings (repeat rounds (n + 1) 0 l) ends in
        (
          max (n + 1) f,
          λ more k.
              rw (e, repeat_more rounds (n + 1) more 0 l (omega arith) ends)
                (settled more (omega arith)),
        )
    | inr e ↦ let (f, settled) = wait_known-Settles l in (f, λ more k. rw e (settled more k))
  ]
    where
      rounds : ℕ → Locals → Step Locals Result
      rounds i = task_round parse (w.tasks i)

      ends : repeat rounds (n + 1) 0 l ≢ out_of_fuel
      ends =
          repeat_stops rounds n
            (λ l'. task_reply_stops parse (w.tasks n) (w.tasks n).reply l' stops) n (n + 1) 0 l
            (omega arith) (omega arith)

-- A wait ends, with all the fuel from some number on: if some round is the last to ask for the
-- collector's task (it is refused, the task is no longer queued or running, or the context ends),
-- and the clock that the two later loops read reaches every instant.
pub wait_settles :
    (parse : Text → Option ℕ) (options : WaitOptions) (w : World) (op : Operation CollectionState)
    (n : ℕ)
    → TaskStops (w.tasks n) (w.tasks n).reply
    → Reaches w.listings
    → Reaches w.finds
    → (fuel : ℕ) × ((more : ℕ) → fuel ≤ more → wait parse options more w op ≢ none)
unfolding wait
wait_settles parse options w op n stops listings finds =
    elim (Option-cases (settled op op.state.phase op.state.snapshot)) [
      | inl q ↦
          let (f, s) =
            wait_from-Settles parse (normalize options) w finds listings n stops
              (record { state = op.state; attempt = 0; misses = 0; op = op }) in
          (f, λ more k. rw (q, wait) (s more k))
      | inr (r, q) ↦ (0, λ more k. rw (q, wait) (λ p. cc))
    ]
