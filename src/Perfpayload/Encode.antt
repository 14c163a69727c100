-- ===== src/Perfpayload/Encode.antt =====
-- perfpayload/encode.go: the payload of an upload, its check and its bytes. A string is the list of
-- its bytes, a float32 its bit pattern, and the map of the interfaces the list of its entries in the
-- order in which an iteration meets them.
pub mod Wire
pub mod Varint
pub mod Fields
pub mod Decode
pub mod Ordered
pub mod Checked
mod Examples
use forward_go_sdk.Prelude.{
  ℕ, zero, suc, ◌+◌, ◌-◌, ◌*◌, ◌/◌, ◌%◌, ◌^◌, ◌==◌, Bool, true, false, ◌&&◌, ◌||◌, not, Option,
  none, some, List, [], ◌∷◌, ◌++◌, ltb, leb, length, if◌then◌else◌,
}
use forward_go_sdk.Prelude.Int.{ℤ, pos, negsuc, ltb_ℤ}
use forward_go_sdk.Prelude.Results.{Result, ok, err, ◌>>=◌}
use forward_go_sdk.Text.{text_eq, is_empty}

abbrev pub Bytes : Type 0
Bytes = List ℕ

pub record Counters : Type 0 where
  pub in_octets : ℕ
  pub in_discards : ℕ
  pub in_errors : ℕ
  pub out_octets : ℕ
  pub out_discards : ℕ
  pub out_errors : ℕ
  pub speed_mbps : ℕ
  pub interface_type : ℕ

-- A time.Time by what Unix and Nanosecond return of it.
pub record Time : Type 0 where
  pub unix : ℤ
  pub nanosecond : ℕ

pub record DevicePerf : Type 0 where
  pub device_name : Bytes
  pub vendor_os : ℤ
  pub time : Time
  pub interfaces : List (Bytes × Counters)
  pub uptime_seconds : ℕ
  pub cpu : ℕ
  pub memory : ℕ

pub record Payload : Type 0 where
  pub time : Time
  pub devices : List DevicePerf

pub data ValidationError : Type 0 where
  no_time no_device_name cpu_or_memory_above_1 out_of_order : ValidationError

-- The first of January of the year 1 lies that many seconds before 1970.
abbrev is_zero : Time → Bool
is_zero t = elim t.unix [ pos n ↦ false | negsuc n ↦ n == 62_135_596_799 && t.nanosecond == 0 ]

-- `validTime`
unfoldable pub valid_time : Time → Bool
valid_time t = not (is_zero t) && ltb_ℤ (pos 0) t.unix

-- Time.Before
unfoldable pub before : Time → Time → Bool
before t u = ltb_ℤ t.unix u.unix || (not (ltb_ℤ u.unix t.unix) && ltb t.nanosecond u.nanosecond)

-- The bit patterns of the float32 1 and -0. Between 0 and 1 the patterns are in the order of the
-- numbers; those of negative numbers and NaN are greater than that of 1.
abbrev float_one : ℕ
float_one = 0x3f80_0000

abbrev minus_zero : ℕ
minus_zero = 0x8000_0000

-- `fraction`
unfoldable pub fraction : ℕ → Bool
fraction v = leb v float_one || v == minus_zero

-- v == 0 of a float32.
abbrev pub is_float_zero : ℕ → Bool
is_float_zero v = v == 0 || v == minus_zero

abbrev pub earlier_than : Time → Option Time → Bool
earlier_than t none = false
earlier_than t (some prev) = before t prev

-- The loop of `Validate`, with the map `latest`.
unfoldable pub validate_devices :
    (Bytes → Option Time) → List DevicePerf → Result ValidationError (Unit {0})
validate_devices latest [] = ok tt
validate_devices latest (d ∷ ds) =
    let rest =
      validate_devices (λ name. if text_eq name d.device_name then some d.time else latest name)
        ds in
    if is_empty d.device_name
    then err no_device_name
    else if not (valid_time d.time)
    then err no_time
    else if not (fraction d.cpu) || not (fraction d.memory)
    then err cpu_or_memory_above_1
    else if earlier_than d.time (latest d.device_name)
    then err out_of_order
    else rest

-- `Payload.Validate`
unfoldable pub validate : Payload → Result ValidationError (Unit {0})
validate p =
    if not (valid_time p.time) then err no_time else validate_devices (λ name. none) p.devices

-- The bytes of binary.AppendUvarint: seven bits a byte, the lowest first, and a high bit where more
-- follow. Ten bytes hold any uint64.
unfoldable pub varint_from : ℕ → ℕ → Bytes
varint_from zero v = []
varint_from (suc fuel) v =
    let rest = varint_from fuel (v / 128) in if leb 128 v then (v % 128 + 128) ∷ rest else v ∷ []

-- `buf.varint`; each writer gives what it appends.
unfoldable pub varint : ℕ → Bytes
varint = varint_from 10

-- `buf.tag`: the field number, shifted by three bits, and the wire type.
unfoldable pub tag : ℕ → ℕ → Bytes
tag field wire = varint (field * 8 + wire)

-- `buf.uint`
unfoldable pub uint : ℕ → ℕ → Bytes
uint field v = if v == 0 then [] else tag field 0 ++ varint v

-- binary.LittleEndian.AppendUint32
unfoldable pub little_endian : ℕ → Bytes
little_endian v = v % 256 ∷ v / 256 % 256 ∷ v / 65536 % 256 ∷ v / 16777216 % 256 ∷ []

-- `buf.float`
unfoldable pub float : ℕ → ℕ → Bytes
float field v = if is_float_zero v then [] else tag field 5 ++ little_endian v

-- `buf.bytes`
unfoldable pub bytes : ℕ → Bytes → Bytes
bytes field v = tag field 2 ++ varint (length v) ++ v

-- `buf.str`
unfoldable pub str : ℕ → Bytes → Bytes
str field v = if is_empty v then [] else bytes field v

-- A conversion to uint64.
abbrev pub to_uint64 : ℤ → ℕ
to_uint64 (pos n) = n
to_uint64 (negsuc n) = 2 ^ 64 - 1 - n

-- `timestamp`
unfoldable pub timestamp : Time → Bytes
timestamp t = uint 1 (to_uint64 t.unix) ++ uint 2 t.nanosecond

-- `Counters.encode`
unfoldable pub encode_counters : Counters → Bytes
encode_counters c =
    uint 1 c.in_octets
    ++ uint 2 c.in_discards
    ++ uint 3 c.in_errors
    ++ uint 4 c.out_octets
    ++ uint 5 c.out_discards
    ++ uint 6 c.out_errors
    ++ uint 7 c.speed_mbps
    ++ uint 8 c.interface_type

-- The order of strings, by bytes.
unfoldable pub bytes_lt : Bytes → Bytes → Bool
bytes_lt [] [] = false
bytes_lt [] (_ ∷ _) = true
bytes_lt (_ ∷ _) [] = false
bytes_lt (a ∷ s) (b ∷ t) = let rest = bytes_lt s t in if ltb a b then true else a == b && rest

-- sort.Strings of the names, each with its counters.
unfoldable pub insert_name : Bytes × Counters → List (Bytes × Counters) → List (Bytes × Counters)
insert_name e [] = e ∷ []
insert_name (n, c) ((m, d) ∷ es) =
    let rest = insert_name (n, c) es in if bytes_lt m n then (m, d) ∷ rest else (n, c) ∷ (m, d) ∷ es

unfoldable pub sort_names : List (Bytes × Counters) → List (Bytes × Counters)
sort_names [] = []
sort_names (e ∷ es) = insert_name e (sort_names es)

-- One entry of the map of interfaces.
unfoldable pub encode_entry : Bytes × Counters → Bytes
encode_entry (name, counters) = str 1 name ++ bytes 2 (encode_counters counters)

unfoldable pub encode_entries : List (Bytes × Counters) → Bytes
encode_entries [] = []
encode_entries (e ∷ es) = bytes 4 (encode_entry e) ++ encode_entries es

-- `DevicePerf.encode`
unfoldable pub encode_device : DevicePerf → Bytes
encode_device d =
    str 1 d.device_name
    ++ uint 2 (to_uint64 d.vendor_os)
    ++ bytes 3 (timestamp d.time)
    ++ encode_entries (sort_names d.interfaces)
    ++ uint 5 d.uptime_seconds
    ++ float 6 d.cpu
    ++ float 7 d.memory

unfoldable pub encode_devices : List DevicePerf → Bytes
encode_devices [] = []
encode_devices (d ∷ ds) = bytes 2 (encode_device d) ++ encode_devices ds

-- `Payload.Encode`
unfoldable pub encode : Payload → Result ValidationError Bytes
encode p = do _ ← validate p; ok (bytes 1 (timestamp p.time) ++ encode_devices p.devices)

-- `LookupVendorOS`, in the generated table `vendor_os`.
unfoldable pub lookup_vendor_os : (Bytes → Option ℤ) → Bytes → Option ℤ
lookup_vendor_os vendor_os name = elim (vendor_os name) [
  | some v ↦ some v
  | none ↦ vendor_os (b'C' ∷ b'I' ∷ b'S' ∷ b'C' ∷ b'O' ∷ b'_' ∷ name)
]
