-- ===== src/Prelude/Int.antt =====
-- Go's signed 64-bit integers, as mathematical integers with the wrap-around written out.
use Prim.Native.Nat.{ℕ, ◌+◌, ◌-◌, ◌*◌, ◌%◌, ◌^◌}
use mathlib.Core.Bool.{Bool, true, false}
use forward_go_sdk.Prelude.Tests.{ltb, if◌then◌else◌}

-- `negsuc n` is -(n + 1).
pub data ℤ : Type 0 where
  pos : ℕ → ℤ
  negsuc : ℕ → ℤ

abbrev pub ltb_ℤ : ℤ → ℤ → Bool
ltb_ℤ (pos a) (pos b) = ltb a b
ltb_ℤ (pos a) (negsuc b) = false
ltb_ℤ (negsuc a) (pos b) = true
ltb_ℤ (negsuc a) (negsuc b) = ltb b a

abbrev pub min_ℤ : ℤ → ℤ → ℤ
min_ℤ a b = if ltb_ℤ b a then b else a

abbrev pub max_int64 : ℕ
max_int64 = 2 ^ 63 - 1

abbrev pub max_int32 : ℕ
max_int32 = 2 ^ 31 - 1

-- The int64 with these 64 bits.
abbrev pub from_bits : ℕ → ℤ
from_bits b = if ltb b (2 ^ 63) then pos b else negsuc (2 ^ 64 - b - 1)

-- `d * 2` on an int64.
abbrev pub double : ℤ → ℤ
double (pos n) = from_bits ((2 * n) % 2 ^ 64)
double (negsuc n) = from_bits ((2 ^ 65 - 2 * (n + 1)) % 2 ^ 64)

-- `if v <= 0 { v = d }`.
abbrev pub positive_or : ℤ → ℕ → ℕ
positive_or (pos n) d = if ltb 0 n then n else d
positive_or (negsuc n) d = d
