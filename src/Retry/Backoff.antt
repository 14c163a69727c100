-- ===== src/Retry/Backoff.antt =====
-- retry.go: `retryWait`, the wait before the next attempt.
pub mod Laws
use forward_go_sdk.Prelude.{
  ℕ, zero, suc, ◌-◌, ◌+◌, ◌*◌, ◌/◌, Bool, true, false, Option, none, some, ltb, leb, if◌then◌else◌,
}
use forward_go_sdk.Prelude.Int.{ℤ, pos, negsuc, ltb_ℤ, min_ℤ, double}
use forward_go_sdk.Text.{Text}
use forward_go_sdk.Retry.Policy.{Response, jitter_one}
use forward_go_sdk.Retry.After.{retry_after}

-- `for i := 1; i < attempt && delay < maxDelay; i++ { delay *= 2 }`, by the rounds left.
unfoldable pub doubled : ℕ → ℤ → ℤ → ℤ
doubled zero delay max_delay = delay
doubled (suc rounds) delay max_delay =
    let more = doubled rounds (double delay) max_delay in
    if ltb_ℤ delay max_delay then more else delay

-- `min(max(jitter, 0), 1)`
unfoldable pub clamp_jitter : ℤ → ℕ
clamp_jitter (negsuc n) = 0
clamp_jitter (pos n) = if ltb jitter_one n then jitter_one else n

-- `wait -= time.Duration(rand.Float64() * jitter * float64(wait))`, with the exact product: `draw`
-- is the random number and `jitter` the clamped one, both in units of 2^-53.
unfoldable pub shorten : ℕ → ℕ → ℤ → ℤ
shorten draw jitter (pos w) = pos (w - draw * jitter * w / (jitter_one * jitter_one))
shorten draw jitter (negsuc n) = negsuc (n - draw * jitter * (n + 1) / (jitter_one * jitter_one))

unfoldable pub backoff_wait : ℤ → ℕ → ℤ → ℤ → ℕ → ℤ
unfolding doubled clamp_jitter shorten
backoff_wait delay attempt max_delay jitter draw =
    shorten draw (clamp_jitter jitter) (min_ℤ (doubled (attempt - 1) delay max_delay) max_delay)

-- What the server asked for, if anything.
unfoldable pub asked_wait : (Text → Option ℕ) → Option Response → ℕ → Option ℕ
asked_wait parse_http_time none now = none
asked_wait parse_http_time (some r) now = retry_after parse_http_time r.retry_after_header now

-- The wait, and `false` when the server asked for more than `max_delay`.
unfoldable pub chosen_wait : Option ℕ → ℤ → ℕ → ℤ → ℤ → ℕ → ℤ × Bool
unfolding backoff_wait
chosen_wait (some after) delay attempt max_delay jitter draw =
    (pos after, if ltb_ℤ max_delay (pos after) then false else true)
chosen_wait none delay attempt max_delay jitter draw =
    (backoff_wait delay attempt max_delay jitter draw, true)

unfoldable pub retry_wait : (Text → Option ℕ) → Option Response → ℕ → ℤ → ℕ → ℤ → ℤ → ℕ → ℤ × Bool
unfolding asked_wait chosen_wait
retry_wait parse_http_time resp now delay attempt max_delay jitter draw =
    chosen_wait (asked_wait parse_http_time resp now) delay attempt max_delay jitter draw
