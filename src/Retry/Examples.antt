-- ===== src/Retry/Examples.antt =====
-- The theorems on the retry loop at concrete calls, and tests of its parts.
use forward_go_sdk.Prelude.{
  ℕ, ◌+◌, ◌*◌, ◌-◌, ◌^◌, ◌≤◌, ◌<◌, ◌≡◌, refl, ◌⊎◌, ◌↔◌, arith, true, false, Option, none, some, [],
  ◌∷◌, All, ◌==◌, if◌then◌else◌,
}
use Prim.Native.Nat.{min}
use mathlib.Core.Path.{subst}
use forward_go_sdk.Prelude.Int.{pos, negsuc}
use forward_go_sdk.Text.{Text, codes, parse_int, is_empty, trim_space}
use forward_go_sdk.Retry.Policy.{
  RetryPolicy, Request, Response, TransportError, jitter_one, default_retry_max_delay, idempotent,
  not_connected, retryable,
}
use forward_go_sdk.Retry.After.{retry_after}
use forward_go_sdk.Retry.Backoff.{clamp_jitter, backoff_wait, retry_wait, asked_wait}
use forward_go_sdk.Retry.Backoff.Laws.{backoff_wait_range, backoff_wait_overflow}
use forward_go_sdk.Retry.Verdict.{MayRepeat, IsRefusal, retryable_iff}
use forward_go_sdk.Retry.Cooldown.{swap_loop, rest_time, meanwhile}
use forward_go_sdk.Retry.Cooldown.Laws.{swap_loop-eq_latest}
use forward_go_sdk.Retry.Send.{Round, Outcome, transmit, backoff, settings, send}
use forward_go_sdk.Retry.Send.Rounds.{transmits, IsShort}
use forward_go_sdk.Retry.Send.Bounds.{transmits-send-le, send_waits-IsShort}
use forward_go_sdk.Retry.Send.Safety.{send_repeats_allowed, unsafe_request_repeats}
use forward_go_sdk.Retry.Send.Progress.{Passes, Arrives, send_rides_out}

abbrev no_dates : Text → Option ℕ
no_dates t = none

retry_after_seconds : retry_after no_dates (codes " 120 ") 0 ≡ some 120_000_000_000
unfolding retry_after is_empty trim_space parse_int
retry_after_seconds = refl

retry_after_negative : retry_after no_dates (codes "-5") 0 ≡ none
unfolding retry_after is_empty trim_space parse_int
retry_after_negative = refl

retry_after_date :
    retry_after (λ t. some 700) (codes "Fri, 31 Dec 1999 23:59:59 GMT") 300 ≡ some 400
unfolding retry_after is_empty trim_space parse_int
retry_after_date = refl

parse_int_min : parse_int (codes "-9223372036854775808") ≡ some (negsuc 9223372036854775807)
unfolding parse_int
parse_int_min = refl

parse_int_over : parse_int (codes "9223372036854775808") ≡ none
unfolding parse_int
parse_int_over = refl

-- 500 ms doubled three times, with half jitter and a draw of one half.
backoff_wait_range_example :
    (e : ℕ) × (backoff_wait (pos 500_000_000) 4 (pos 300_000_000_000) (pos (2 ^ 52)) (2 ^ 52)
      ≡ pos e)
    × (e ≤ min (500_000_000 * 2 ^ 3) 300_000_000_000)
    × (min (500_000_000 * 2 ^ 3) 300_000_000_000 * (jitter_one - clamp_jitter (pos (2 ^ 52)))
        ≤ e * jitter_one)
backoff_wait_range_example =
    backoff_wait_range 500_000_000 300_000_000_000 3 (2 ^ 52) (pos (2 ^ 52)) (omega arith)
      (omega arith)

backoff_wait_overflow_example :
    (n : ℕ) × (backoff_wait (pos (2 ^ 62)) 2 (pos (2 ^ 62 + 1)) (pos 0) 0 ≡ negsuc n)
backoff_wait_overflow_example =
    backoff_wait_overflow (2 ^ 62) (2 ^ 62 + 1) 0 (pos 0) (omega arith) (omega arith) (omega arith)

abbrev post : Request
post = record {
  method = codes "POST";
  has_body = true;
  has_get_body = true;
  idempotent_mark = false;
  no_retry_mark = false;
}

abbrev answer : ℕ → Response
answer status = record { status = status; retry_after_header = []; body_message = none }

abbrev quiet : Response → Round
quiet r = record {
  stored_before = [];
  now_at_rest = 0;
  rest_cancelled = false;
  response = some r;
  error = none;
  get_conn = true;
  got_conn = true;
  now_at_limit = 0;
  now_at_set = 0;
  others = [];
  ctx_done = false;
  now_at_wait = 0;
  draw = 0;
  wait_cancelled = false;
  get_body_fails = false;
}

-- A 503 and then a 200.
abbrev busy_once : ℕ → Round
busy_once i = if i == 1 then quiet (answer 503) else quiet (answer 200)

abbrev three_times : RetryPolicy
three_times = record {
  max_attempts = pos 3;
  delay = pos 0;
  max_delay = pos 0;
  refused_only = false;
  jitter = pos 0;
}

abbrev recovered : Outcome
recovered = record {
  response = some (answer 200);
  failure = none;
  cooldown = some 0;
  actions = transmit ∷ backoff (pos 500_000_000) ∷ transmit ∷ [];
}

post_recovers : send no_dates three_times post busy_once (some 0) ≡ some recovered
unfolding send rest_time meanwhile retryable retry_wait retry_after is_empty trim_space
post_recovers = refl

transmits-send-le_example :
    (o : Outcome) × (send no_dates three_times post busy_once (some 0) ≡ some o)
    × (transmits o.actions ≤ 3)
    × (false ≡ true → transmits o.actions ≤ 1)
transmits-send-le_example = transmits-send-le no_dates three_times post busy_once (some 0)

send_waits-IsShort_example : All (IsShort default_retry_max_delay) recovered.actions
send_waits-IsShort_example =
    send_waits-IsShort no_dates three_times post busy_once (some 0) recovered post_recovers

send_repeats_allowed_example :
    ((true ≡ false) ⊎ (true ≡ true))
    × (false ≡ false)
    × MayRepeat post false (not_connected none true true) (some (answer 503)) none
send_repeats_allowed_example =
    send_repeats_allowed no_dates three_times post busy_once (some 0) recovered 1 post_recovers
      (omega arith) (omega arith)

abbrev no_error : Option TransportError
no_error = none

post_unsafe : idempotent (codes "POST") ≡ false
unfolding idempotent
post_unsafe = refl

unsafe_request_repeats_example :
    ((resp : Response) × (some (answer 503) ≡ some resp)
      × (no_error ≡ none)
      × IsRefusal resp.status)
    ⊎ (not_connected none true true ≡ true)
unsafe_request_repeats_example =
    unsafe_request_repeats no_dates three_times post busy_once (some 0) recovered 1 post_unsafe refl
      post_recovers (omega arith) (omega arith)

busy-Passes :
    (i : ℕ) → 1 ≤ i → i < 1 + 1 → Passes no_dates (settings three_times post) post (busy_once i)
unfolding settings retryable asked_wait retry_after is_empty trim_space
busy-Passes i l m =
    subst (λ j. Passes no_dates (settings three_times post) post (busy_once j)) first
      (record { rested = refl; retried = refl; unasked = refl; awake = refl; rewound = refl })
  where
    first : 1 ≡ i
    first = omega arith

busy-Arrives : Arrives no_dates (settings three_times post) post (busy_once 2)
unfolding settings retryable
busy-Arrives = record { rested = refl; final = refl }

three_attempts : 1 < (settings three_times post).attempts
unfolding settings
three_attempts = omega arith

send_rides_out_example :
    (o : Outcome) × (send no_dates three_times post busy_once (some 0) ≡ some o)
    × (o.response ≡ some (answer 200))
    × (o.failure ≡ none)
    × (transmits o.actions ≡ 2)
send_rides_out_example =
    send_rides_out no_dates three_times post busy_once (some 0) 1 three_attempts busy-Passes
      busy-Arrives

retryable_iff_example : (retryable post (some (answer 503)) none false false false ≡ true) ↔ (
    ((true ≡ false) ⊎ (true ≡ true))
    × (false ≡ false)
    × MayRepeat post false false (some (answer 503)) none)
retryable_iff_example = retryable_iff post false false (some (answer 503)) none false

swap_loop-eq_latest_example : swap_loop (5 ∷ 20 ∷ []) 3 10 ≡ 20
swap_loop-eq_latest_example = swap_loop-eq_latest (5 ∷ 20 ∷ []) 3 10
