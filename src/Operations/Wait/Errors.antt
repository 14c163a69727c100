-- ===== src/Operations/Wait/Errors.antt =====
-- What the errors of `waitForKnownSnapshot` say of the rounds that led to them.
use forward_go_sdk.Prelude.{
  ℕ, suc, ◌+◌, ◌≤◌, ◌<◌, ◌≡◌, refl, ap, arith, true, Option, none, some, List, Bool-cases, inl, inr,
  some_inj, leb, leb→le, leb_false→lt, ltb, ltb→lt, ltb_false→le,
}
use mathlib.Core.Path.{subst}
use forward_go_sdk.Text.{Text}
use forward_go_sdk.Operations.Types.{
  Phase, succeeded, failed, Snapshot, WaitError, request_error, cancelled, snapshot_ended,
  processing_timeout, disappeared, Limits, Reply, answer, refusal, snapshot_phase,
  snapshot_terminal_error, is_past,
}
use forward_go_sdk.Operations.Discover.{find}
use forward_go_sdk.Rounds.{Step, Ended, out_of_fuel, finished, left, repeat, repeat_last, Keeps}
use forward_go_sdk.Operations.Collection.{ListRound, Locals, Result, fail, succeed}
use forward_go_sdk.Operations.Known.{
  stamped, known_round, known_reply, after_known, still_waiting, observed_known,
}
use forward_go_sdk.Operations.Wait.{World, wait_known, ended}

module _ (limits : Limits) (deadline : ℕ) (id : Text) (finds : ℕ → ListRound) where
  -- Round `j` had a list without the snapshot.
  abbrev pub Absent : ℕ → Type 0
  Absent j = (ss : List Snapshot) × ((finds j).reply ≡ answer ss) × (find id ss ≡ none)

  -- Round `j` had the snapshot `s` in its list.
  abbrev pub Present : ℕ → Snapshot → Type 0
  Present j s = (ss : List Snapshot) × ((finds j).reply ≡ answer ss) × (find id ss ≡ some s)

  -- What an error that ended the wait in round `k` says of the rounds up to it.
  abbrev pub Explained : ℕ → Option WaitError → Type 0
  Explained k none = (s : Snapshot) × Present k s × (snapshot_phase s ≡ succeeded)
  Explained k (some (disappeared n)) =
      (n ≡ limits.missing_threshold)
      × ((i : ℕ) × (i + n ≡ k + 1) × ((j : ℕ) → i ≤ j → j ≤ k → Absent j))
  Explained k (some processing_timeout) = deadline ≤ (finds k).now_deadline
  Explained k (some cancelled) = (finds k).cancelled ≡ true
  Explained k (some (request_error e)) = (finds k).reply ≡ refusal e
  Explained k (some (snapshot_ended a b)) =
      (s : Snapshot) × Present k s × (snapshot_phase s ≡ failed) × (a ≡ s.id) × (b ≡ s.state)
  Explained k (some _) = ⊥

  -- Before round `i`, the last `misses` rounds had no snapshot, fewer than the threshold.
  record Searching (i : ℕ) (l : Locals) : Type 0 where
    same_id : l.state.handle.snapshot_id ≡ id
    few : l.misses < limits.missing_threshold
    start : ℕ
    last : start + l.misses ≡ i
    missed : (j : ℕ) → start ≤ j → j < i → Absent j

  abbrev Truthful : ℕ → Result → Type 0
  Truthful k r = Explained k r.error

  -- Round `i` goes on with the invariant, or ends the wait with the truth.
  abbrev Kept : ℕ → Step Locals Result → Type 0
  Kept i = Keeps (Searching (i + 1)) (λ _. ⊥) (Truthful i)

  still_waiting-Kept :
      (i : ℕ) (l : Locals)
      → l.state.handle.snapshot_id ≡ id
      → (start : ℕ) → start + l.misses ≡ i + 1
      → l.misses ≤ limits.missing_threshold
      → ((j : ℕ) → start ≤ j → j < i + 1 → Absent j)
      → Kept i (still_waiting limits deadline (finds i) l)
  unfolding still_waiting fail is_past
  still_waiting-Kept i l e start last few missed =
      elim (Bool-cases (leb limits.missing_threshold l.misses)) [
        | inl p ↦ rw p (
          omega (arith, leb→le limits.missing_threshold l.misses p),
          (
            start,
            omega (arith, leb→le limits.missing_threshold l.misses p),
            λ j h k. missed j h (omega arith),
          ),
        )
        | inr p ↦ elim (Bool-cases (leb deadline (finds i).now_deadline)) [
          | inl q ↦ rw (p, q) (leb→le deadline (finds i).now_deadline q)
          | inr q ↦ elim (Bool-cases (finds i).cancelled) [
            | inl c ↦ rw (p, q, c) c
            | inr c ↦
                rw (p, q, c)
                  (record {
                    same_id = e;
                    few = leb_false→lt limits.missing_threshold l.misses p;
                    start = start;
                    last = last;
                    missed = missed;
                  })
          ]
        ]
      ]

  found-Kept :
      (i : ℕ) (ss : List Snapshot) (l : Locals) (s : Snapshot)
      → (finds i).reply ≡ answer ss
      → find id ss ≡ some s
      → l.state.handle.snapshot_id ≡ id
      → 0 < limits.missing_threshold
      → (phase : Phase) → snapshot_phase s ≡ phase
      → Kept i (after_known limits deadline (finds i) (some s) (observed_known (some s) l))
  unfolding after_known observed_known succeed fail snapshot_terminal_error
  found-Kept i ss l s q p e t succeeded k = rw (k, after_known) (s, (ss, q, p), k)
  found-Kept i ss l s q p e t failed k = rw (k, after_known) (s, (ss, q, p), k, refl, refl)
  found-Kept i ss l s q p e t _ k =
      rw (k, after_known)
        (still_waiting-Kept i _ e (i + 1) (omega arith) (omega arith)
          (λ j a b. absurd (omega arith)))

  known_reply-Kept :
      (i : ℕ) (reply : Reply (List Snapshot)) (l : Locals)
      → (finds i).reply ≡ reply
      → 0 < limits.missing_threshold
      → Searching i l
      → Kept i (known_reply limits deadline (finds i) reply l)
  unfolding known_reply fail
  known_reply-Kept i (refusal e) l q t h = q
  known_reply-Kept i (answer ss) l q t h =
      by_find (find l.state.handle.snapshot_id ss)
        (subst (λ x. find x ss ≡ find l.state.handle.snapshot_id ss) h.same_id refl)
    where
      by_find :
          (o : Option Snapshot)
          → find id ss ≡ o
          → Kept i (after_known limits deadline (finds i) o (observed_known o l))
      by_find none p =
          unfold after_known observed_known in
          still_waiting-Kept i _ h.same_id h.start (omega (arith, h.last)) (omega (arith, h.few))
            (λ j a b. elim (Bool-cases (ltb j i)) [
              | inl c ↦ h.missed j a (ltb→lt j i c)
              | inr c ↦ subst Absent (equal j b (ltb_false→le j i c)) (ss, q, p)
            ])
        where
          equal : (j : ℕ) → j < i + 1 → i ≤ j → i ≡ j
          equal j b c = omega arith
      by_find (some s) p = found-Kept i ss l s q p h.same_id t (snapshot_phase s) refl

-- The last loop ends in one round `k`: with fuel for the rounds before it, it has not ended, and with
-- one more it gives the result. An error says the truth of round `k`: "disappeared after n
-- observations" that the last n rounds, up to `k` and as many as the threshold, had lists without
-- the snapshot; the processing timeout that the clock read in round `k` had reached the start of
-- processing plus the timeout; a cancellation, and the error of a request, that round `k` had it;
-- and a terminal state that the list of round `k` held the snapshot in a failed state, which the
-- error names. Without an error the list of round `k` held the snapshot in a state of success. The
-- threshold is above 0.
pub known_errors-Explained :
    (parse : Text → Option ℕ) (limits : Limits) (fuel : ℕ) (w : World) (l : Locals) (r : Result)
    → 0 < limits.missing_threshold
    → wait_known parse limits fuel w l ≡ some r
    → let h = (stamped w.now_known l).state.handle in
      (k : ℕ) × (wait_known parse limits k w l ≡ none)
      × (wait_known parse limits (suc k) w l ≡ some r)
      × Explained limits
          (h.processing_started_at + limits.processing_timeout)
          h.snapshot_id
          w.finds
          k
          r.error
unfolding wait_known known_round ended
known_errors-Explained parse limits fuel w l r t e =
    let (k, before, here, known) =
      repeat_last rounds (Searching limits deadline id w.finds) (λ _. ⊥)
        (Truthful limits deadline id w.finds)
        (λ i l' h. known_reply-Kept limits deadline id w.finds i (w.finds i).reply l' refl t h) fuel
        0 start r
        (record {
          same_id = refl;
          few = t;
          start = 0;
          last = omega arith;
          missed = λ j a b. absurd (omega arith);
        })
        (ended-eq-some (repeat rounds fuel 0 start) e) in
    (
      k,
      ap ended before,
      ap ended here,
      subst (λ j. Explained limits deadline id w.finds j r.error) (zero_plus k) known,
    )
  where
    deadline : ℕ
    deadline =
        (stamped w.now_known l).state.handle.processing_started_at + limits.processing_timeout

    id : Text
    id = (stamped w.now_known l).state.handle.snapshot_id

    start : Locals
    start = record (stamped w.now_known l) { misses = 0 }

    rounds : ℕ → Locals → Step Locals Result
    rounds i = known_round limits deadline (w.finds i)

    ended-eq-some : (x : Ended Locals Result) → ended x ≡ some r → x ≡ finished r
    ended-eq-some out_of_fuel q = cc
    ended-eq-some (finished r') q = ap finished (some_inj q)
    ended-eq-some (left l') q = cc

    zero_plus : (k : ℕ) → 0 + k ≡ k
    zero_plus k = omega arith
