-- ===== src/Retry/After.antt =====
-- retry.go: the header Retry-After. Instants are nanoseconds since 1970; `parse_http_time` stands
-- for http.ParseTime of the standard library, with instants before 1970 given as 0.
use forward_go_sdk.Prelude.{ℕ, ◌-◌, ◌*◌, ◌/◌, Option, none, some, ltb, if◌then◌else◌}
use forward_go_sdk.Prelude.Int.{ℤ, pos, negsuc, max_int64}
use forward_go_sdk.Text.{Text, is_empty, trim_space, parse_int}
use forward_go_sdk.Retry.Policy.{second}

-- A number of seconds as a duration; a negative one is no answer.
unfoldable pub seconds_after : ℤ → Option ℕ
seconds_after (negsuc n) = none
seconds_after (pos n) = if ltb (max_int64 / second) n then some max_int64 else some (n * second)

-- time.Time.Sub, which stops at the largest duration; here never below 0.
unfoldable pub until_instant : ℕ → ℕ → ℕ
until_instant now when = if ltb max_int64 (when - now) then max_int64 else when - now

unfoldable pub date_after : ℕ → Option ℕ → Option ℕ
unfolding until_instant
date_after now none = none
date_after now (some when) = some (until_instant now when)

unfoldable pub retry_after : (Text → Option ℕ) → Text → ℕ → Option ℕ
unfolding seconds_after date_after
retry_after parse_http_time value now =
    let v = trim_space value in
    if is_empty v then none else elim (parse_int v) [
      | some seconds ↦ seconds_after seconds
      | none ↦ date_after now (parse_http_time v)
    ]
