-- ===== src/Perfpayload/Encode/Examples.antt =====
-- The theorems on encoding at concrete inputs, and tests.
use forward_go_sdk.Perfpayload.Encode.{
  validate_devices, fraction, str, tag, uint, encode_entries, sort_names, insert_name, bytes_lt,
  encode_entry, encode_counters, float, little_endian,
}
use forward_go_sdk.Text.{is_empty}
use forward_go_sdk.Prelude.{
  ◌≡◌, ◌↔◌, refl, true, false, some, List, [], ◌∷◌, ◌++◌, map, All, arith, length, ◌<◌, ◌^◌,
}
use forward_go_sdk.Prelude.Int.{pos}
use forward_go_sdk.Prelude.Results.{ok}
use forward_go_sdk.Text.{codes, text_eq}
use forward_go_sdk.Text.Laws.{text_eq-ne}
use forward_go_sdk.Perfpayload.Encode.{
  Bytes, Counters, Time, DevicePerf, Payload, validate, encode, encode_devices, encode_device,
  bytes, timestamp, varint, varint_from, valid_time,
}
use forward_go_sdk.Perfpayload.Encode.Decode.{decode_payload}
use forward_go_sdk.Perfpayload.Encode.Decode.Devices.{
  IsPayload, IsDevice, received, decode_payload-encode,
}
use forward_go_sdk.Perfpayload.Encode.Ordered.{
  IsSorted, swap, SameDevices, none_left, device, encode-SameDevices,
}
use forward_go_sdk.Perfpayload.Encode.Checked.{IsFine, Chronological, validate_iff}

abbrev noon : Time
noon = record { unix = pos 1_700_000_000; nanosecond = 5 }

abbrev counters : Counters
counters = record {
  in_octets = 300;
  in_discards = 0;
  in_errors = 0;
  out_octets = 18_446_744_073_709_551_615;
  out_discards = 0;
  out_errors = 1;
  speed_mbps = 1000;
  interface_type = 6;
}

abbrev router : DevicePerf
router = record {
  device_name = codes "r1";
  vendor_os = pos 7;
  time = noon;
  interfaces = (codes "et2", counters) ∷ (codes "et1", counters) ∷ [];
  uptime_seconds = 90;
  cpu = 0x3f00_0000;
  memory = 0x8000_0000;
}

abbrev payload : Payload
payload = record { time = noon; devices = router ∷ [] }

payload-validate : validate payload ≡ ok tt
unfolding validate valid_time validate_devices is_empty fraction
payload-validate = refl

router-IsDevice : IsDevice router
router-IsDevice = omega arith

varint_three_hundred : varint 300 ≡ 0xac ∷ 2 ∷ []
unfolding varint varint_from
varint_three_hundred = refl

router_short : length (encode_device router) < 2 ^ 64
unfolding encode_device str is_empty bytes tag varint varint_from uint timestamp encode_entries
    sort_names insert_name bytes_lt encode_entry encode_counters float little_endian
router_short = omega arith

payload-IsPayload : IsPayload payload
payload-IsPayload = record {
  time_fits = omega arith;
  devices_fit = (router-IsDevice, tt);
  lengths_fit = (router_short, tt);
}

abbrev payload_bytes : Bytes
payload_bytes = bytes 1 (timestamp noon) ++ encode_devices (router ∷ [])

payload-encode : encode payload ≡ ok payload_bytes
unfolding encode
payload-encode = rw payload-validate

decode_payload-encode_example :
    (decode_payload payload_bytes ≡ some (record payload { devices = map received (router ∷ []) }))
    × All (λ d. IsSorted d.interfaces) (map received (router ∷ []))
decode_payload-encode_example =
    decode_payload-encode payload payload_bytes payload-IsPayload payload-encode

abbrev router_entries : List (Bytes × Counters)
router_entries = (codes "et1", counters) ∷ (codes "et2", counters) ∷ []

apart : text_eq (codes "et2") (codes "et1") ≡ false
unfolding text_eq
apart = refl

router_same : SameDevices (router ∷ []) ((record router { interfaces = router_entries }) ∷ [])
router_same = device router router_entries (swap _ _ [] (text_eq-ne _ _ apart)) none_left

encode-SameDevices_example :
    encode payload
    ≡ encode
        (record { time = noon; devices = (record router { interfaces = router_entries }) ∷ [] })
encode-SameDevices_example = encode-SameDevices noon _ _ router_same

validate_iff_example :
    (validate payload ≡ ok tt)
    ↔ ((valid_time noon ≡ true) × All IsFine (router ∷ []) × Chronological (router ∷ []))
validate_iff_example = validate_iff payload
