-- ===== src/Poller/Examples.antt =====
-- The theorems on the poller at a concrete wait.
use forward_go_sdk.Prelude.{ℕ, ◌≡◌, refl, false, none, some, ltb, if◌then◌else◌, [], ◌∷◌}
use forward_go_sdk.Rounds.{answer, repeat}
use forward_go_sdk.Poller.{Completion, pending, complete, PollRound, PollResult, poll_wait}
use forward_go_sdk.Poller.Laws.{LastRound, poll_wait-Polled}

-- A job's progress in percent.
abbrev job_done : ℕ → Completion
job_done n = if ltb n 100 then pending else complete

-- Another goroutine refreshes before each round, and OnUpdate behind each answer.
abbrev rounds : ℕ → PollRound ℕ
rounds i = record {
  stored_before = some 7;
  cancelled = false;
  reply = answer (if ltb i 2 then 50 else 100);
  stored_after = some 8;
}

abbrev job_result : PollResult ℕ
job_result = record {
  value = 100;
  error = none;
  updates =
      (record { previous = 0; value = 50; attempt = 1 })
      ∷ (record { previous = 50; value = 50; attempt = 2 })
      ∷ (record { previous = 50; value = 100; attempt = 3 })
      ∷ [];
}

job_ends : poll_wait ℕ job_done 5 rounds 0 ≡ some job_result
unfolding poll_wait repeat
job_ends = refl

poll_wait-Polled_example : (k : ℕ) × LastRound ℕ job_done 0 rounds k job_result
poll_wait-Polled_example = poll_wait-Polled ℕ job_done 0 rounds 5 job_result job_ends
