-- ===== src/Retry/Cooldown.antt =====
-- retry.go: the cooldown, one moment shared by a client and its clones. `none` is a nil pointer;
-- the moment is in nanoseconds since 1970 and 0 at first, and `set` stores only larger ones.
pub mod Laws
use forward_go_sdk.Prelude.{
  ℕ, ◌-◌, ◌%◌, ◌^◌, ◌==◌, Bool, true, false, ◌&&◌, ◌||◌, Option, none, some, List, [], ◌∷◌, ltb,
  leb, if◌then◌else◌,
}
use forward_go_sdk.Text.{Text, codes, trim_space, has_prefix}
use forward_go_sdk.Retry.Policy.{Response}

abbrev pub Cooldown : Type 0
Cooldown = Option ℕ

-- What other requests store, in order: a smaller moment is not stored.
unfoldable pub stored_by_others : List ℕ → ℕ → ℕ
stored_by_others [] cell = cell
stored_by_others (x ∷ xs) cell = stored_by_others xs (if ltb cell x then x else cell)

-- The loop of `set` on the cell: load, give up if the cell is not earlier, compare and swap. The
-- list holds what others try to store between a load and its swap, which then fails.
unfoldable pub swap_loop : List ℕ → ℕ → ℕ → ℕ
unfolding stored_by_others
swap_loop [] cell until = if leb until cell then cell else until
swap_loop (x ∷ xs) cell until =
    let again = swap_loop xs x until in
    if leb until cell
    then stored_by_others (x ∷ xs) cell
    else if ltb cell x
    then again
    else stored_by_others xs until

-- `until` is `time.Time.UnixNano()` of the argument: 64 bits, below 0 from the year 2262 on, where
-- it is earlier than any cell.
unfoldable pub set_cell : List ℕ → ℕ → ℕ → ℕ
unfolding swap_loop
set_cell others cell until =
    let bits = until % 2 ^ 64 in
    if ltb bits (2 ^ 63) then swap_loop others cell bits else stored_by_others others cell

unfoldable pub set : List ℕ → Cooldown → ℕ → Cooldown
unfolding set_cell
set others none until = none
set others (some cell) until = some (set_cell others cell until)

-- The cooldown after others have stored what they do.
unfoldable pub meanwhile : List ℕ → Cooldown → Cooldown
unfolding stored_by_others
meanwhile others none = none
meanwhile others (some cell) = some (stored_by_others others cell)

-- How long `wait` sleeps, if it does: not after the moment, nor for longer than `max_delay`.
unfoldable pub rest_time : Cooldown → ℕ → ℕ → Option ℕ
rest_time none now max_delay = none
rest_time (some cell) now max_delay =
    if leb cell now || ltb max_delay (cell - now) then none else some (cell - now)

abbrev pub rate_limit_words : Text
rate_limit_words = codes "Rate limit exceeded"

-- `isRateLimitBody` and `isRateLimitMessage`, on the message read from the body.
unfoldable pub is_rate_limit_body : Response → Bool
is_rate_limit_body r = elim r.body_message [
  | none ↦ false
  | some m ↦ has_prefix (trim_space m) rate_limit_words
]
