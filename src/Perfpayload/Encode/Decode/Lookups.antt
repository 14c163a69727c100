-- ===== src/Perfpayload/Encode/Decode/Lookups.antt =====
-- Looking up the fields that the writers of encode.go write.
use forward_go_sdk.Prelude.{
  ℕ, ◌^◌, ◌==◌, ◌<◌, ◌≡◌, refl, false, Option, none, some, List, [], ◌∷◌, ◌++◌, if◌then◌else◌,
  arith,
}
use forward_go_sdk.Prelude.Int.{ℤ, pos, negsuc}
use forward_go_sdk.Text.{is_empty}
use forward_go_sdk.Perfpayload.Encode.{Bytes, to_uint64, is_float_zero}
use forward_go_sdk.Perfpayload.Encode.Wire.{Value, Field, integer, fixed32, delimited}
use forward_go_sdk.Perfpayload.Encode.Fields.{uint_field, float_field, str_field}
use forward_go_sdk.Perfpayload.Encode.Decode.{
  first_some, last_of, all_of, integer_of, float_of, bytes_of, from_uint64,
}

first_some-none : (u : Option Value) → u ≡ first_some u none
first_some-none none = refl
first_some-none (some u) = refl

first_some_assoc :
    (u v w : Option Value) → first_some (first_some u v) w ≡ first_some u (first_some v w)
first_some_assoc none v w = refl
first_some_assoc (some u) v w = refl

pub last_of-append :
    (n : ℕ) (fs gs : List Field) → last_of n (fs ++ gs) ≡ first_some (last_of n gs) (last_of n fs)
unfolding last_of
last_of-append n [] gs = first_some-none (last_of n gs)
last_of-append n ((m, v) ∷ fs) gs =
    rw (last_of-append n fs gs) (first_some_assoc (last_of n gs) (last_of n fs) _)

pub all_of-append : (n : ℕ) (fs gs : List Field) → all_of n (fs ++ gs) ≡ all_of n fs ++ all_of n gs
unfolding all_of
all_of-append n [] gs = refl
all_of-append n ((m, v) ∷ fs) gs = ground (arith, all_of-append n fs gs)

-- The value of a written field, if it is not left out.
pub integer_value : ℕ → Option Value
integer_value v = if v == 0 then none else some (integer v)

pub float_value : ℕ → Option Value
float_value v = if is_float_zero v then none else some (fixed32 v)

pub str_value : Bytes → Option Value
str_value v = if is_empty v then none else some (delimited v)

pub last_of-uint_field :
    (n m v : ℕ) → last_of n (uint_field m v) ≡ (if n == m then integer_value v else none)
unfolding last_of integer_value
last_of-uint_field n m v = ground arith

pub last_of-float_field :
    (n m v : ℕ) → last_of n (float_field m v) ≡ (if n == m then float_value v else none)
unfolding last_of float_value
last_of-float_field n m v = ground arith

pub last_of-str_field :
    (n m : ℕ) (v : Bytes) → last_of n (str_field m v) ≡ (if n == m then str_value v else none)
unfolding last_of str_value
last_of-str_field n m v = ground arith

pub last_of-delimited :
    (n m : ℕ) (v : Bytes)
    → last_of n ((m, delimited v) ∷ []) ≡ (if n == m then some (delimited v) else none)
unfolding last_of
last_of-delimited n m v = refl

pub bytes_of-delimited : (v : Bytes) → bytes_of (some (delimited v)) ≡ v
unfolding bytes_of
bytes_of-delimited v = refl

pub integer_of-value : (v : ℕ) → integer_of (first_some (integer_value v) none) ≡ v
unfolding integer_of integer_value
integer_of-value v = ground arith

pub integer_of-alone : (v : ℕ) → integer_of (integer_value v) ≡ v
unfolding integer_of integer_value
integer_of-alone v = ground arith

-- A receiver's float of what was sent: both zeros are sent as absent.
abbrev pub float_received : ℕ → ℕ
float_received v = if is_float_zero v then 0 else v

pub float_of-value : (v : ℕ) → float_of (first_some (float_value v) none) ≡ float_received v
unfolding float_of float_value
float_of-value v = ground arith

pub bytes_of-value : (v : Bytes) → bytes_of (first_some (str_value v) none) ≡ v
unfolding bytes_of str_value is_empty
bytes_of-value [] = refl
bytes_of-value (c ∷ s) = refl

pub bytes_of-alone : (v : Bytes) → bytes_of (str_value v) ≡ v
unfolding bytes_of str_value is_empty
bytes_of-alone [] = refl
bytes_of-alone (c ∷ s) = refl

pub float_of-alone : (v : ℕ) → float_of (float_value v) ≡ float_received v
unfolding float_of float_value
float_of-alone v = ground arith

pub all_of-delimited :
    (n m : ℕ) (v : Bytes) → (n == m) ≡ false → all_of n ((m, delimited v) ∷ []) ≡ []
unfolding all_of
all_of-delimited n m v h = ground arith

pub all_of-uint_field : (n m v : ℕ) → (n == m) ≡ false → all_of n (uint_field m v) ≡ []
unfolding all_of
all_of-uint_field n m v h = ground arith

pub all_of-float_field : (n m v : ℕ) → (n == m) ≡ false → all_of n (float_field m v) ≡ []
unfolding all_of
all_of-float_field n m v h = ground arith

pub all_of-str_field : (n m : ℕ) (v : Bytes) → (n == m) ≡ false → all_of n (str_field m v) ≡ []
unfolding all_of
all_of-str_field n m v h = ground arith

-- The integers that an int64 holds.
abbrev pub IsInt64 : ℤ → Type 0
IsInt64 (pos n) = n < 2 ^ 63
IsInt64 (negsuc n) = n < 2 ^ 63

-- An int64 comes back from its uint64.
pub from_uint64-to_uint64 : (z : ℤ) → IsInt64 z → from_uint64 (to_uint64 z) ≡ z
unfolding from_uint64
from_uint64-to_uint64 (pos n) h = ground arith
from_uint64-to_uint64 (negsuc n) h = ground arith

pub to_uint64-lt : (z : ℤ) → IsInt64 z → to_uint64 z < 2 ^ 64
to_uint64-lt (pos n) h = omega arith
to_uint64-lt (negsuc n) h = omega arith

pub ruleset lookups = (
  last_of-append, last_of-uint_field, last_of-float_field, last_of-str_field, last_of-delimited,
  bytes_of-delimited, integer_of-value, integer_of-alone, bytes_of-value, bytes_of-alone,
  float_of-value, float_of-alone,
)
