-- ===== src/Perfpayload/Encode/Decode/Devices.antt =====
-- The round trip of a device's message and of a payload.
use mathlib.Core.List.{append-nil}
use mathlib.Core.Path.{subst}
use forward_go_sdk.Prelude.{
  ℕ, ◌^◌, ◌==◌, ◌<◌, ◌≡◌, refl, false, Option, none, some, List, [], ◌∷◌, ◌++◌, map, length, All,
  arith,
}
use forward_go_sdk.Prelude.Results.{ok, ok_inj, >>=-eq-ok}
use forward_go_sdk.Perfpayload.Encode.{
  Bytes, Counters, DevicePerf, Payload, to_uint64, timestamp, encode_entry, encode_entries,
  encode_device, encode_devices, encode, sort_names, bytes, validate,
}
use forward_go_sdk.Perfpayload.Encode.Ordered.{IsSorted, All-sort_names, sort_names-IsSorted}
use forward_go_sdk.Perfpayload.Encode.Wire.{Field, delimited}
use forward_go_sdk.Perfpayload.Encode.Fields.{
  Writes, ◌<+>◌, Writes-nil, read_message-Writes, uint_field, str_field, float_field, uint-Writes,
  bytes-Writes, str-Writes, float-Writes,
}
use forward_go_sdk.Perfpayload.Encode.Decode.{
  last_of, all_of, integer_of, float_of, bytes_of, decode_all, decode_entry, decode_device,
  decode_payload,
}
use forward_go_sdk.Perfpayload.Encode.Decode.Lookups.{
  lookups, all_of-delimited, IsInt64, from_uint64-to_uint64, to_uint64-lt, float_received,
  all_of-append, all_of-uint_field, all_of-float_field, all_of-str_field,
}
use forward_go_sdk.Perfpayload.Encode.Decode.Messages.{
  IsTime, IsEntry, encode_entry_short, timestamp_short, decode_time-timestamp,
  decode_entry-encode_entry,
}

-- The fields of a repeated message.
abbrev messages : ℕ → List Bytes → List Field
messages number [] = []
messages number (b ∷ bs) = (number, delimited b) ∷ messages number bs

last_of-messages : (n m : ℕ) (bs : List Bytes) → (n == m) ≡ false → last_of n (messages m bs) ≡ none
unfolding last_of
last_of-messages n m [] h = refl
last_of-messages n m (b ∷ bs) h = ground (arith, last_of-messages n m bs h)

all_of-messages : (n : ℕ) (bs : List Bytes) → all_of n (messages n bs) ≡ map delimited bs
unfolding all_of
all_of-messages n [] = refl
all_of-messages n (b ∷ bs) = ground (arith, all_of-messages n bs)

decode_all-map {ℓ} :
    {A : Type ℓ} (decode : Bytes → Option A) (make : A → Bytes) (seen : A → A) (xs : List A)
    → All (λ x. decode (make x) ≡ some (seen x)) xs
    → decode_all decode (map delimited (map make xs)) ≡ some (map seen xs)
unfolding decode_all bytes_of
decode_all-map decode make seen [] h = refl
decode_all-map decode make seen (x ∷ xs) h = rw (h.0, decode_all-map decode make seen xs h.1)

encode_entries-Writes :
    (es : List (Bytes × Counters))
    → All IsEntry es
    → Writes (encode_entries es) (messages 4 (map encode_entry es))
unfolding encode_entries
encode_entries-Writes [] h = Writes-nil
encode_entries-Writes (e ∷ es) h =
    bytes-Writes 4 (omega arith) (encode_entry e) (encode_entry_short e h.0)
    <+> encode_entries-Writes es h.1

-- A device whose numbers fit their fields, and whose names have lengths that a string can have.
pub record IsDevice (d : DevicePerf) : Type 0 where
  pub name_fits : length d.device_name < 2 ^ 63
  pub vendor_fits : IsInt64 d.vendor_os
  pub time_fits : IsTime d.time
  pub entries_fit : All IsEntry d.interfaces
  pub uptime_fits : d.uptime_seconds < 2 ^ 32
  pub cpu_fits : d.cpu < 2 ^ 32
  pub memory_fits : d.memory < 2 ^ 32

device_fields : DevicePerf → List Field
device_fields d =
    str_field 1 d.device_name
    ++ uint_field 2 (to_uint64 d.vendor_os)
    ++ (3, delimited (timestamp d.time)) ∷ []
    ++ messages 4 (map encode_entry (sort_names d.interfaces))
    ++ uint_field 5 d.uptime_seconds
    ++ float_field 6 d.cpu
    ++ float_field 7 d.memory

encode_device-Writes : (d : DevicePerf) → IsDevice d → Writes (encode_device d) (device_fields d)
unfolding encode_device device_fields
encode_device-Writes d h =
    str-Writes 1 (omega arith) d.device_name (omega (arith, h.name_fits))
    <+> uint-Writes 2 (omega arith) (to_uint64 d.vendor_os) (to_uint64-lt d.vendor_os h.vendor_fits)
    <+> bytes-Writes 3 (omega arith) (timestamp d.time) (omega (arith, timestamp_short d.time))
    <+> encode_entries-Writes (sort_names d.interfaces)
        (All-sort_names IsEntry d.interfaces h.entries_fit)
    <+> uint-Writes 5 (omega arith) d.uptime_seconds (omega (arith, h.uptime_fits))
    <+> float-Writes 6 (omega arith) d.cpu h.cpu_fits
    <+> float-Writes 7 (omega arith) d.memory h.memory_fits

decode_all-entries :
    (es : List (Bytes × Counters))
    → All IsEntry es
    → decode_all decode_entry (map delimited (map encode_entry es)) ≡ some es
unfolding decode_all bytes_of
decode_all-entries [] h = refl
decode_all-entries (e ∷ es) h = rw (decode_entry-encode_entry e h.0, decode_all-entries es h.1)

-- What a receiver sees of a device: the interfaces in the order of their names, and a zero for both
-- zeros of a float.
unfoldable pub received : DevicePerf → DevicePerf
received d = record d {
  interfaces = sort_names d.interfaces;
  cpu = float_received d.cpu;
  memory = float_received d.memory;
}

module _ (d : DevicePerf) where
  abbrev entries : List Bytes
  entries = map encode_entry (sort_names d.interfaces)

  name_field : bytes_of (last_of 1 (device_fields d)) ≡ d.device_name
  unfolding device_fields
  name_field = simp (lookups, last_of-messages 1 4 entries refl)

  vendor_field : integer_of (last_of 2 (device_fields d)) ≡ to_uint64 d.vendor_os
  unfolding device_fields
  vendor_field = simp (lookups, last_of-messages 2 4 entries refl)

  time_field : bytes_of (last_of 3 (device_fields d)) ≡ timestamp d.time
  unfolding device_fields
  time_field = simp (lookups, last_of-messages 3 4 entries refl)

  uptime_field : integer_of (last_of 5 (device_fields d)) ≡ d.uptime_seconds
  unfolding device_fields
  uptime_field = simp (lookups, last_of-messages 5 4 entries refl)

  cpu_field : float_of (last_of 6 (device_fields d)) ≡ float_received d.cpu
  unfolding device_fields
  cpu_field = simp (lookups, last_of-messages 6 4 entries refl)

  memory_field : float_of (last_of 7 (device_fields d)) ≡ float_received d.memory
  unfolding device_fields
  memory_field = simp (lookups, last_of-messages 7 4 entries refl)

  entries_field : all_of 4 (device_fields d) ≡ map delimited entries
  unfolding device_fields
  entries_field = simp (
    all_of-append,
    all_of-messages,
    all_of-str_field 4 1 d.device_name refl,
    all_of-uint_field 4 2 (to_uint64 d.vendor_os) refl,
    all_of-uint_field 4 5 d.uptime_seconds refl,
    all_of-float_field 4 6 d.cpu refl,
    all_of-float_field 4 7 d.memory refl,
    all_of-delimited 4 3 (timestamp d.time) refl,
    append-nil,
  )

pub decode_device-encode_device :
    (d : DevicePerf) → IsDevice d → decode_device (encode_device d) ≡ some (received d)
unfolding decode_device received
decode_device-encode_device d h = rw (
  read_message-Writes (encode_device-Writes d h),
  time_field d,
  decode_time-timestamp d.time h.time_fits,
  entries_field d,
  decode_all-entries (sort_names d.interfaces) (All-sort_names IsEntry d.interfaces h.entries_fit),
  name_field d,
  vendor_field d,
  from_uint64-to_uint64 d.vendor_os h.vendor_fits,
  uptime_field d,
  cpu_field d,
  memory_field d,
)

-- A payload of such devices.
pub record IsPayload (p : Payload) : Type 0 where
  pub time_fits : IsTime p.time
  pub devices_fit : All IsDevice p.devices
  pub lengths_fit : All (λ d. length (encode_device d) < 2 ^ 64) p.devices

encode_devices-Writes :
    (ds : List DevicePerf)
    → All (λ d. length (encode_device d) < 2 ^ 64) ds
    → Writes (encode_devices ds) (messages 2 (map encode_device ds))
unfolding encode_devices
encode_devices-Writes [] h = Writes-nil
encode_devices-Writes (d ∷ ds) h =
    bytes-Writes 2 (omega arith) (encode_device d) h.0 <+> encode_devices-Writes ds h.1

decode_all-devices :
    (ds : List DevicePerf)
    → All IsDevice ds
    → decode_all decode_device (map delimited (map encode_device ds)) ≡ some (map received ds)
unfolding decode_all bytes_of
decode_all-devices [] h = refl
decode_all-devices (d ∷ ds) h = rw (decode_device-encode_device d h.0, decode_all-devices ds h.1)

abbrev payload_fields : Payload → List Field
payload_fields p =
    (1, delimited (timestamp p.time)) ∷ [] ++ messages 2 (map encode_device p.devices)

payload_bytes-Writes :
    (p : Payload)
    → IsPayload p
    → Writes (bytes 1 (timestamp p.time) ++ encode_devices p.devices) (payload_fields p)
payload_bytes-Writes p h =
    bytes-Writes 1 (omega arith) (timestamp p.time) (omega (arith, timestamp_short p.time))
    <+> encode_devices-Writes p.devices h.lengths_fit

payload_time : (p : Payload) → bytes_of (last_of 1 (payload_fields p)) ≡ timestamp p.time
payload_time p = simp (lookups, last_of-messages 1 2 (map encode_device p.devices) refl)

payload_devices :
    (p : Payload) → all_of 2 (payload_fields p) ≡ map delimited (map encode_device p.devices)
payload_devices p =
    simp (all_of-append, all_of-messages, all_of-delimited 2 1 (timestamp p.time) refl)

decode_payload-bytes :
    (p : Payload)
    → IsPayload p
    → decode_payload (bytes 1 (timestamp p.time) ++ encode_devices p.devices)
      ≡ some (record p { devices = map received p.devices })
unfolding decode_payload
decode_payload-bytes p h = rw (
  read_message-Writes (payload_bytes-Writes p h),
  payload_time p,
  decode_time-timestamp p.time h.time_fits,
  payload_devices p,
  decode_all-devices p.devices h.devices_fit,
)

received-IsSorted : (ds : List DevicePerf) → All (λ d. IsSorted d.interfaces) (map received ds)
unfolding received
received-IsSorted [] = tt
received-IsSorted (d ∷ ds) = (sort_names-IsSorted d.interfaces, received-IsSorted ds)

-- A payload that Encode accepts is decoded, by the schema, to the same times, names, numbers and
-- counters, with the devices in the order given and the interfaces of each sorted, none before one of
-- a smaller name, and a CPU or memory of either zero as zero. This is for a payload whose numbers fit
-- the fields of its types and whose names and messages are no longer than a slice can be.
pub decode_payload-encode :
    (p : Payload) (bs : Bytes)
    → IsPayload p
    → encode p ≡ ok bs
    → (decode_payload bs ≡ some (record p { devices = map received p.devices }))
      × All (λ d. IsSorted d.interfaces) (map received p.devices)
unfolding encode
decode_payload-encode p bs h e =
    let (_, _, made) = >>=-eq-ok (validate p) _ e in
    (
      subst
          (λ (cs : Bytes). decode_payload cs ≡ some (record p { devices = map received p.devices }))
          (ok_inj made) (decode_payload-bytes p h),
      received-IsSorted p.devices,
    )
