-- ===== src/Perfpayload/Encode/Decode.antt =====
-- How a receiver decodes a performance payload, by the schema of PerfProtos.proto: a field that is
-- absent has its default, and of one that comes again the last value counts.
pub mod Lookups
pub mod Messages
pub mod Devices
use forward_go_sdk.Prelude.{
  ℕ, ◌+◌, ◌-◌, ◌^◌, ◌==◌, Bool, true, false, Option, none, some, List, [], ◌∷◌, ◌++◌, ltb,
  if◌then◌else◌,
}
use forward_go_sdk.Prelude.Int.{ℤ, pos, negsuc}
use forward_go_sdk.Perfpayload.Encode.{Bytes, Counters, Time, DevicePerf, Payload}
use forward_go_sdk.Perfpayload.Encode.Wire.{Value, Field, integer, fixed32, delimited, read_message}

abbrev pub first_some : Option Value → Option Value → Option Value
first_some none v = v
first_some (some u) v = some u

unfoldable pub last_of : ℕ → List Field → Option Value
last_of n [] = none
last_of n ((m, v) ∷ fs) = first_some (last_of n fs) (if n == m then some v else none)

unfoldable pub all_of : ℕ → List Field → List Value
all_of n [] = []
all_of n ((m, v) ∷ fs) = let rest = all_of n fs in if n == m then v ∷ rest else rest

unfoldable pub integer_of : Option Value → ℕ
integer_of (some (integer v)) = v
integer_of _ = 0

unfoldable pub float_of : Option Value → ℕ
float_of (some (fixed32 v)) = v
float_of _ = 0

unfoldable pub bytes_of : Option Value → Bytes
bytes_of (some (delimited v)) = v
bytes_of _ = []

-- An int64 from its uint64.
unfoldable pub from_uint64 : ℕ → ℤ
from_uint64 v = if ltb v (2 ^ 63) then pos v else negsuc (2 ^ 64 - 1 - v)

unfoldable pub counters_of : List Field → Counters
counters_of fs = record {
  in_octets = integer_of (last_of 1 fs);
  in_discards = integer_of (last_of 2 fs);
  in_errors = integer_of (last_of 3 fs);
  out_octets = integer_of (last_of 4 fs);
  out_discards = integer_of (last_of 5 fs);
  out_errors = integer_of (last_of 6 fs);
  speed_mbps = integer_of (last_of 7 fs);
  interface_type = integer_of (last_of 8 fs);
}

unfoldable pub time_of : List Field → Time
time_of fs = record {
  unix = from_uint64 (integer_of (last_of 1 fs));
  nanosecond = integer_of (last_of 2 fs);
}

abbrev pub on_message {ℓ} : {A : Type ℓ} → (List Field → A) → Option (List Field) → Option A
on_message f none = none
on_message f (some fs) = some (f fs)

unfoldable pub decode_counters : Bytes → Option Counters
decode_counters bs = on_message counters_of (read_message bs)

unfoldable pub decode_time : Bytes → Option Time
decode_time bs = on_message time_of (read_message bs)

abbrev named : Bytes → Option Counters → Option (Bytes × Counters)
named name none = none
named name (some c) = some (name, c)

abbrev entry_of : Option (List Field) → Option (Bytes × Counters)
entry_of none = none
entry_of (some fs) = named (bytes_of (last_of 1 fs)) (decode_counters (bytes_of (last_of 2 fs)))

-- One entry of the map of interfaces.
unfoldable pub decode_entry : Bytes → Option (Bytes × Counters)
decode_entry bs = entry_of (read_message bs)

abbrev pub both {ℓ} : {A : Type ℓ} → Option A → Option (List A) → Option (List A)
both none rest = none
both (some a) none = none
both (some a) (some rest) = some (a ∷ rest)

-- The messages among some values, decoded.
unfoldable pub decode_all {ℓ} : {A : Type ℓ} → (Bytes → Option A) → List Value → Option (List A)
decode_all decode [] = some []
decode_all decode (v ∷ vs) = both (decode (bytes_of (some v))) (decode_all decode vs)

abbrev device_from : List Field → Option Time → Option (List (Bytes × Counters)) → Option DevicePerf
device_from fs none entries = none
device_from fs (some time) none = none
device_from fs (some time) (some entries) = some (record {
  device_name = bytes_of (last_of 1 fs);
  vendor_os = from_uint64 (integer_of (last_of 2 fs));
  time = time;
  interfaces = entries;
  uptime_seconds = integer_of (last_of 5 fs);
  cpu = float_of (last_of 6 fs);
  memory = float_of (last_of 7 fs);
})

abbrev device_of : Option (List Field) → Option DevicePerf
device_of none = none
device_of (some fs) =
    device_from fs (decode_time (bytes_of (last_of 3 fs))) (decode_all decode_entry (all_of 4 fs))

unfoldable pub decode_device : Bytes → Option DevicePerf
decode_device bs = device_of (read_message bs)

abbrev payload_from : Option Time → Option (List DevicePerf) → Option Payload
payload_from none devices = none
payload_from (some time) none = none
payload_from (some time) (some devices) = some (record { time = time; devices = devices })

abbrev payload_of : Option (List Field) → Option Payload
payload_of none = none
payload_of (some fs) =
    payload_from (decode_time (bytes_of (last_of 1 fs))) (decode_all decode_device (all_of 2 fs))

unfoldable pub decode_payload : Bytes → Option Payload
decode_payload bs = payload_of (read_message bs)
