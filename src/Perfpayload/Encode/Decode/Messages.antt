-- ===== src/Perfpayload/Encode/Decode/Messages.antt =====
-- Round trips of the messages inside a device's one: counters, times, entries of the map.
use forward_go_sdk.Prelude.{
  ℕ, ◌+◌, ◌*◌, ◌^◌, ◌≤◌, ◌<◌, ◌≡◌, some, List, [], ◌∷◌, ◌++◌, length, length-append, arith,
}
use forward_go_sdk.Perfpayload.Encode.{
  Bytes, Counters, Time, to_uint64, uint, bytes, str, tag, varint, timestamp, encode_counters,
  encode_entry,
}
use forward_go_sdk.Perfpayload.Encode.Wire.{Field, delimited}
use forward_go_sdk.Perfpayload.Encode.Varint.{varint_short}
use forward_go_sdk.Perfpayload.Encode.Fields.{
  Writes, ◌<+>◌, read_message-Writes, uint_field, str_field, uint-Writes, bytes-Writes, str-Writes,
}
use forward_go_sdk.Perfpayload.Encode.Decode.{
  last_of, bytes_of, counters_of, time_of, decode_counters, decode_time, decode_entry,
}
use forward_go_sdk.Perfpayload.Encode.Decode.Lookups.{
  lookups, IsInt64, from_uint64-to_uint64, to_uint64-lt,
}

-- Counters in the widths of their fields.
pub record IsCounters (c : Counters) : Type 0 where
  pub in_octets_fits : c.in_octets < 2 ^ 64
  pub in_discards_fits : c.in_discards < 2 ^ 64
  pub in_errors_fits : c.in_errors < 2 ^ 64
  pub out_octets_fits : c.out_octets < 2 ^ 64
  pub out_discards_fits : c.out_discards < 2 ^ 64
  pub out_errors_fits : c.out_errors < 2 ^ 64
  pub speed_fits : c.speed_mbps < 2 ^ 32
  pub type_fits : c.interface_type < 2 ^ 32

counters_fields : Counters → List Field
counters_fields c =
    uint_field 1 c.in_octets
    ++ uint_field 2 c.in_discards
    ++ uint_field 3 c.in_errors
    ++ uint_field 4 c.out_octets
    ++ uint_field 5 c.out_discards
    ++ uint_field 6 c.out_errors
    ++ uint_field 7 c.speed_mbps
    ++ uint_field 8 c.interface_type

encode_counters-Writes :
    (c : Counters) → IsCounters c → Writes (encode_counters c) (counters_fields c)
unfolding encode_counters counters_fields
encode_counters-Writes c h =
    uint-Writes 1 (omega arith) c.in_octets h.in_octets_fits
    <+> uint-Writes 2 (omega arith) c.in_discards h.in_discards_fits
    <+> uint-Writes 3 (omega arith) c.in_errors h.in_errors_fits
    <+> uint-Writes 4 (omega arith) c.out_octets h.out_octets_fits
    <+> uint-Writes 5 (omega arith) c.out_discards h.out_discards_fits
    <+> uint-Writes 6 (omega arith) c.out_errors h.out_errors_fits
    <+> uint-Writes 7 (omega arith) c.speed_mbps (omega (arith, h.speed_fits))
    <+> uint-Writes 8 (omega arith) c.interface_type (omega (arith, h.type_fits))

counters_of-fields : (c : Counters) → counters_of (counters_fields c) ≡ c
unfolding counters_of counters_fields
counters_of-fields c = simp lookups

pub decode_counters-encode_counters :
    (c : Counters) → IsCounters c → decode_counters (encode_counters c) ≡ some c
unfolding decode_counters
decode_counters-encode_counters c h =
    rw (read_message-Writes (encode_counters-Writes c h), counters_of-fields c)

-- A time whose seconds are an int64.
pub record IsTime (t : Time) : Type 0 where
  pub seconds_fit : IsInt64 t.unix
  pub nanosecond_fits : t.nanosecond < 1_000_000_000

time_fields : Time → List Field
time_fields t = uint_field 1 (to_uint64 t.unix) ++ uint_field 2 t.nanosecond

timestamp-Writes : (t : Time) → IsTime t → Writes (timestamp t) (time_fields t)
unfolding timestamp time_fields
timestamp-Writes t h =
    uint-Writes 1 (omega arith) (to_uint64 t.unix) (to_uint64-lt t.unix h.seconds_fit)
    <+> uint-Writes 2 (omega arith) t.nanosecond (omega (arith, h.nanosecond_fits))

time_of-fields : (t : Time) → IsTime t → time_of (time_fields t) ≡ t
unfolding time_of time_fields
time_of-fields t h = simp (lookups, from_uint64-to_uint64 t.unix h.seconds_fit)

pub decode_time-timestamp : (t : Time) → IsTime t → decode_time (timestamp t) ≡ some t
unfolding decode_time
decode_time-timestamp t h = rw (read_message-Writes (timestamp-Writes t h), time_of-fields t h)

-- An unsigned field takes twenty bytes at most.
uint_short : (n v : ℕ) → length (uint n v) ≤ 20
unfolding uint tag
uint_short n v = ground (
  arith,
  length-append {0} (varint (n * 8 + 0)) (varint v),
  varint_short (n * 8 + 0),
  varint_short v,
)

pub timestamp_short : (t : Time) → length (timestamp t) ≤ 40
unfolding timestamp
timestamp_short t = omega (
  arith,
  length-append {0} (uint 1 (to_uint64 t.unix)) (uint 2 t.nanosecond),
  uint_short 1 (to_uint64 t.unix),
  uint_short 2 t.nanosecond,
)

short_sum : (a b : Bytes) (n m : ℕ) → length a ≤ n → length b ≤ m → length (a ++ b) ≤ n + m
short_sum a b n m h k = omega (arith, length-append {0} a b)

encode_counters_short : (c : Counters) → length (encode_counters c) ≤ 160
unfolding encode_counters
encode_counters_short c =
    short_sum _ _ 140 20
      (short_sum _ _ 120 20
        (short_sum _ _ 100 20
          (short_sum _ _ 80 20
            (short_sum _ _ 60 20
              (short_sum _ _ 40 20
                (short_sum _ _ 20 20 (uint_short 1 c.in_octets) (uint_short 2 c.in_discards))
                (uint_short 3 c.in_errors))
              (uint_short 4 c.out_octets))
            (uint_short 5 c.out_discards))
          (uint_short 6 c.out_errors))
        (uint_short 7 c.speed_mbps))
      (uint_short 8 c.interface_type)

bytes_short : (n : ℕ) (v : Bytes) → length (bytes n v) ≤ 20 + length v
unfolding bytes tag
bytes_short n v = omega (
  arith,
  length-append {0} (varint (n * 8 + 2) ++ varint (length v)) v,
  length-append {0} (varint (n * 8 + 2)) (varint (length v)),
  varint_short (n * 8 + 2),
  varint_short (length v),
)

str_short : (n : ℕ) (v : Bytes) → length (str n v) ≤ 20 + length v
unfolding str
str_short n v = ground (arith, bytes_short n v)

-- An interface whose name is of a length that a map's entry can have, and whose counters fit.
pub record IsEntry (e : Bytes × Counters) : Type 0 where
  pub name_fits : length e.0 < 2 ^ 63
  pub counters_fit : IsCounters e.1

entry_fields : Bytes × Counters → List Field
entry_fields (name, c) = str_field 1 name ++ (2, delimited (encode_counters c)) ∷ []

encode_entry-Writes : (e : Bytes × Counters) → IsEntry e → Writes (encode_entry e) (entry_fields e)
unfolding encode_entry entry_fields
encode_entry-Writes (name, c) h =
    str-Writes 1 (omega arith) name (omega (arith, h.name_fits))
    <+> bytes-Writes 2 (omega arith) (encode_counters c) (omega (arith, encode_counters_short c))

entry_fields-name : (e : Bytes × Counters) → bytes_of (last_of 1 (entry_fields e)) ≡ e.0
unfolding entry_fields
entry_fields-name (name, c) = simp lookups

entry_fields-counters :
    (e : Bytes × Counters) → bytes_of (last_of 2 (entry_fields e)) ≡ encode_counters e.1
unfolding entry_fields
entry_fields-counters (name, c) = simp lookups

pub encode_entry_short : (e : Bytes × Counters) → IsEntry e → length (encode_entry e) < 2 ^ 64
unfolding encode_entry
encode_entry_short (name, c) h = omega (
  arith,
  h.name_fits,
  length-append {0} (str 1 name) (bytes 2 (encode_counters c)),
  str_short 1 name,
  bytes_short 2 (encode_counters c),
  encode_counters_short c,
)

pub decode_entry-encode_entry :
    (e : Bytes × Counters) → IsEntry e → decode_entry (encode_entry e) ≡ some e
unfolding decode_entry
decode_entry-encode_entry (name, c) h = rw (
  read_message-Writes (encode_entry-Writes (name, c) h),
  entry_fields-name (name, c),
  entry_fields-counters (name, c),
  decode_counters-encode_counters c h.counters_fit,
)
