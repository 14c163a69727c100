-- ===== src/Operations/Uploads/Rounds.antt =====
-- What each round of `SnapshotOperation.Wait` keeps, and what its ends say.
use forward_go_sdk.Prelude.{
  ℕ, ◌+◌, ◌≤◌, ◌<◌, ◌≡◌, inl, inr, refl, ap, arith, ◌==◌, Bool, true, false, ◌&&◌, not, Option,
  none, some, List, Bool-cases, leb, leb→le, leb_false→lt, ltb, ltb→lt, ltb_false→le,
}
use mathlib.Core.Path.{subst}
use forward_go_sdk.Text.{Text}
use forward_go_sdk.Rounds.{
  Reply, answer, refusal, Ended, out_of_fuel, finished, left, repeat, repeat_inv, Keeps, Holds,
}
use forward_go_sdk.Operations.Types.{
  Phase, succeeded, failed, Snapshot, SnapshotState, publish, WaitError, request_error, cancelled,
  snapshot_ended, appearance_timeout, processing_timeout, disappeared, Limits, snapshot_phase,
  snapshot_terminal_error, is_past,
}
use forward_go_sdk.Operations.Discover.{find}
use forward_go_sdk.Operations.Collection.{ListRound}
use forward_go_sdk.Operations.Uploads.{
  UploadLocals, UploadResult, UploadStep, end_upload, observed_upload, still_uploading,
  after_upload, upload_reply, upload_round, ended_upload,
}

module _ (limits : Limits) (deadline : ℕ) (id : Text) (rounds : ℕ → ListRound) where
  -- Round `j` had a list without the snapshot.
  abbrev pub Absent : ℕ → Type 0
  Absent j = (ss : List Snapshot) × ((rounds j).reply ≡ answer ss) × (find id ss ≡ none)

  -- What an end says; `deadline` is the one of the appearance.
  abbrev pub Accounted : Option WaitError → UploadResult → Type 0
  Accounted none r =
      (s : Snapshot) × (r.snapshot ≡ some s)
      × (r.op.state.snapshot ≡ some s)
      × (r.op.state.phase ≡ succeeded)
      × (snapshot_phase s ≡ succeeded)
  Accounted (some appearance_timeout) r =
      (i : ℕ) × (deadline ≤ (rounds i).now_deadline) × ((j : ℕ) → j ≤ i → Absent j)
  Accounted (some (disappeared n)) r =
      (n ≡ limits.missing_threshold) × ((i : ℕ) × ((j : ℕ) → i ≤ j → j < i + n → Absent j))
  Accounted (some processing_timeout) r =
      (i : ℕ) × (r.op.state.handle.appeared_at + limits.processing_timeout
        ≤ (rounds i).now_deadline)
  Accounted (some cancelled) r = (i : ℕ) × ((rounds i).cancelled ≡ true)
  Accounted (some (request_error e)) r = (i : ℕ) × ((rounds i).reply ≡ refusal e)
  Accounted (some (snapshot_ended a b)) r =
      (s : Snapshot) × (snapshot_phase s ≡ failed)
      × (r.snapshot ≡ some s)
      × (a ≡ s.id)
      × (b ≡ s.state)
  Accounted (some _) r = ⊥

  abbrev pub IsAccounted : UploadResult → Type 0
  IsAccounted r = Accounted r.error r

  -- Before round `i`: an unseen snapshot was missing from every list, and the last `misses` lists
  -- of a seen one lacked it.
  pub record Looking (i : ℕ) (l : UploadLocals) : Type 0 where
    pub same_id : l.state.handle.snapshot_id ≡ id
    pub unseen : l.appeared ≡ false → (j : ℕ) → j < i → Absent j
    pub due :
        l.appeared ≡ true
        → l.processing_deadline ≡ l.state.handle.appeared_at + limits.processing_timeout
    pub start : ℕ
    pub last : start + l.misses ≡ i
    pub missed : (j : ℕ) → start ≤ j → j < i → Absent j
    pub few : l.misses ≤ limits.missing_threshold

  pub record Searching (i : ℕ) (l : UploadLocals) : Type 0 where
    pub looking : Looking i l
    pub below : l.misses < limits.missing_threshold

  abbrev Kept : ℕ → UploadStep → Type 0
  Kept i = Keeps (Searching i) (λ _. ⊥) IsAccounted

  not-true : (b : Bool) → not b ≡ true → b ≡ false
  not-true b h = ground arith

  both : (a b : Bool) → (a && b) ≡ true → (a ≡ true) × (b ≡ true)
  both a b h = ground arith

  below_still :
      (i : ℕ) (l : UploadLocals)
      → Looking (i + 1) l
      → (l.appeared ≡ false → l.misses < limits.missing_threshold)
      → (l.appeared && leb limits.missing_threshold l.misses) ≡ false
      → l.misses < limits.missing_threshold
  below_still i l k idle b = elim (Bool-cases l.appeared) [
    | inl e ↦ leb_false→lt limits.missing_threshold l.misses (rw e at b)
    | inr e ↦ idle e
  ]

  still_uploading-Kept :
      (i : ℕ) (l : UploadLocals)
      → Looking (i + 1) l
      → l.op.state ≡ l.state
      → (l.appeared ≡ false → l.misses < limits.missing_threshold)
      → Kept (i + 1) (still_uploading limits deadline (rounds i) l)
  unfolding still_uploading end_upload is_past
  still_uploading-Kept i l k sync idle =
      elim (Bool-cases (not l.appeared && leb deadline (rounds i).now_deadline)) [
        | inl a ↦
            let (new, past) = both (not l.appeared) (leb deadline (rounds i).now_deadline) a in
            rw a (
              i,
              leb→le deadline (rounds i).now_deadline past,
              λ j h. k.unseen (not-true l.appeared new) j (omega arith),
            )
        | inr a ↦ elim (Bool-cases (l.appeared && leb limits.missing_threshold l.misses)) [
          | inl b ↦
              let (seen, many) = both l.appeared (leb limits.missing_threshold l.misses) b in
              let many' = leb→le limits.missing_threshold l.misses many in
              rw (a, b)
                (
                  omega (arith, many', k.few),
                  (k.start, λ j h m. k.missed j h (omega (arith, k.last, m))),
                )
          | inr b ↦
              elim (Bool-cases (
                l.appeared
                && not (l.processing_deadline == 0)
                && leb l.processing_deadline (rounds i).now_deadline)) [
                  | inl c ↦
                      let (rest, past) =
                        both _ (leb l.processing_deadline (rounds i).now_deadline) c in
                      let (seen, set) = both l.appeared (not (l.processing_deadline == 0)) rest in
                      rw (a, b, c)
                        (
                          i,
                          omega (
                            arith,
                            leb→le l.processing_deadline (rounds i).now_deadline past,
                            k.due seen,
                            ap (λ (s : SnapshotState). s.handle.appeared_at) sync,
                          ),
                        )
                  | inr c ↦ elim (Bool-cases (rounds i).cancelled) [
                    | inl d ↦ rw (a, b, c, d) (i, d)
                    | inr d ↦
                        rw (a, b, c, d) (record { looking = k; below = below_still i l k idle b })
                  ]
                ]
        ]
      ]

  -- One more round without the snapshot.
  one_more :
      (i start : ℕ)
      → ((j : ℕ) → start ≤ j → j < i → Absent j)
      → Absent i
      → (j : ℕ) → start ≤ j
      → j < i + 1
      → Absent j
  one_more i start before now j h m = elim (Bool-cases (ltb j i)) [
    | inl c ↦ before j h (ltb→lt j i c)
    | inr c ↦ subst Absent (same (ltb_false→le j i c)) now
  ]
    where
      same : i ≤ j → i ≡ j
      same h = omega arith

  missing-Kept :
      (i : ℕ) (l : UploadLocals)
      → Searching i l
      → Absent i
      → Kept (i + 1) (
          after_upload limits deadline
            (rounds i)
            none
            (observed_upload limits (rounds i).now_found none l))
  unfolding after_upload observed_upload publish
  missing-Kept i l h absent = elim (Bool-cases l.appeared) [
    | inl e ↦
        still_uploading-Kept i _
          (record {
            same_id = h.looking.same_id;
            unseen = λ q j m. cc;
            due = h.looking.due;
            start = h.looking.start;
            last = rw e (omega (arith, h.looking.last));
            missed = one_more i h.looking.start h.looking.missed absent;
            few = rw e (omega (arith, h.below));
          })
          refl (λ q. cc)
    | inr e ↦
        still_uploading-Kept i _
          (record {
            same_id = h.looking.same_id;
            unseen = λ q j m.
                one_more i 0 (λ j' _ m'. h.looking.unseen e j' m') absent j (omega arith) m;
            due = h.looking.due;
            start = h.looking.start + 1;
            last = rw e (omega (arith, h.looking.last));
            missed = λ j a m. one_more i h.looking.start h.looking.missed absent j (omega arith) m;
            few = rw e h.looking.few;
          })
          refl (λ q. rw e h.below)
  ]

  due_now :
      (now : ℕ) (s : Snapshot) (l : UploadLocals)
      → (l.appeared ≡ true
          → l.processing_deadline ≡ l.state.handle.appeared_at + limits.processing_timeout)
      → (observed_upload limits now (some s) l).processing_deadline
        ≡ (observed_upload limits now (some s) l).state.handle.appeared_at
          + limits.processing_timeout
  unfolding observed_upload
  due_now now s l due = elim (Bool-cases l.appeared) [ inl e ↦ rw e (due e) | inr e ↦ rw e refl ]

  id_kept :
      (now : ℕ) (s : Snapshot) (l : UploadLocals)
      → l.state.handle.snapshot_id ≡ id
      → (observed_upload limits now (some s) l).state.handle.snapshot_id ≡ id
  unfolding observed_upload
  id_kept now s l h = elim (Bool-cases l.appeared) [ inl e ↦ rw e h | inr e ↦ rw e h ]

  found-Looking :
      (i : ℕ) (l : UploadLocals) (s : Snapshot)
      → Searching i l
      → Looking (i + 1) (observed_upload limits (rounds i).now_found (some s) l)
  unfolding observed_upload
  found-Looking i l s h = record {
    same_id = id_kept (rounds i).now_found s l h.looking.same_id;
    unseen = λ (q : true ≡ false). cc;
    due = λ _. due_now (rounds i).now_found s l h.looking.due;
    start = i + 1;
    last = omega arith;
    missed = λ j a m. absurd (omega arith);
    few = omega arith;
  }

  found-Kept :
      (i : ℕ) (l : UploadLocals) (s : Snapshot)
      → Searching i l
      → 0 < limits.missing_threshold
      → (phase : Phase) → snapshot_phase s ≡ phase
      → Kept (i + 1) (
          after_upload limits deadline
            (rounds i)
            (some s)
            (observed_upload limits (rounds i).now_found (some s) l))
  unfolding after_upload observed_upload publish end_upload snapshot_terminal_error
  found-Kept i l s h t succeeded k = rw (k, after_upload) (s, refl, refl, k, k)
  found-Kept i l s h t failed k = rw (k, after_upload) (s, k, refl, refl, refl)
  found-Kept i l s h t _ k =
      rw (k, after_upload)
        (still_uploading-Kept i (observed_upload limits (rounds i).now_found (some s) l)
          (found-Looking i l s h) refl (λ (q : true ≡ false). cc))

  upload_reply-Kept :
      (i : ℕ) (reply : Reply (List Snapshot)) (l : UploadLocals)
      → (rounds i).reply ≡ reply
      → 0 < limits.missing_threshold
      → Searching i l
      → Kept (i + 1) (upload_reply limits deadline (rounds i) reply l)
  unfolding upload_reply end_upload
  upload_reply-Kept i (refusal e) l q t h = (i, q)
  upload_reply-Kept i (answer ss) l q t h =
      by_find (find l.state.handle.snapshot_id ss)
        (subst (λ x. find x ss ≡ find l.state.handle.snapshot_id ss) h.looking.same_id refl)
    where
      by_find :
          (o : Option Snapshot)
          → find id ss ≡ o
          → Kept (i + 1) (
              after_upload limits deadline
                (rounds i)
                o
                (observed_upload limits (rounds i).now_found o l))
      by_find none p = missing-Kept i l h (ss, q, p)
      by_find (some s) p = found-Kept i l s h t (snapshot_phase s) refl

  abbrev pub AccountedEnd : Option UploadResult → Type 0
  AccountedEnd none = Unit {0}
  AccountedEnd (some r) = IsAccounted r

  ended_upload-Accounted :
      (e : Ended UploadLocals UploadResult)
      → Holds (λ _. ⊥) IsAccounted e
      → AccountedEnd (ended_upload e)
  unfolding ended_upload
  ended_upload-Accounted out_of_fuel h = tt
  ended_upload-Accounted (finished r) h = h
  ended_upload-Accounted (left l) h = absurd h

  pub loop-Accounted :
      (fuel : ℕ) (l : UploadLocals)
      → 0 < limits.missing_threshold
      → Searching 0 l
      → AccountedEnd (ended_upload (repeat (λ i. upload_round limits deadline (rounds i)) fuel 0 l))
  unfolding upload_round
  loop-Accounted fuel l t h = ended_upload-Accounted _ (
      repeat_inv _ Searching (λ _. ⊥) IsAccounted
        (λ i l' k. upload_reply-Kept i (rounds i).reply l' refl t k) fuel 0 l h)
