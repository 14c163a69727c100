-- ===== src/Perfpayload/Encode/Ordered.antt =====
-- The bytes of a payload do not depend on the order in which a map is iterated.
use forward_go_sdk.Prelude.{
  ◌≡◌, ◌≢◌, refl, ap, ◌∙◌, true, false, Option, none, List, [], ◌∷◌, All, arith, Bool-cases, inl,
  inr,
}
use forward_go_sdk.Perfpayload.Encode.{
  Bytes, Counters, Time, DevicePerf, bytes_lt, insert_name, sort_names, encode_device,
  encode_devices, encode, validate, validate_devices,
}

bytes_lt_irrefl : (a : Bytes) → bytes_lt a a ≡ false
unfolding bytes_lt
bytes_lt_irrefl [] = refl
bytes_lt_irrefl (x ∷ a) = ground (arith, bytes_lt_irrefl a)

bytes_lt_asym : (a b : Bytes) → bytes_lt a b ≡ true → bytes_lt b a ≡ false
unfolding bytes_lt
bytes_lt_asym [] [] h = cc
bytes_lt_asym [] (y ∷ b) h = refl
bytes_lt_asym (x ∷ a) [] h = cc
bytes_lt_asym (x ∷ a) (y ∷ b) h = ground (arith, bytes_lt_asym a b)

bytes_lt_total : (a b : Bytes) → bytes_lt a b ≡ false → bytes_lt b a ≡ false → a ≡ b
unfolding bytes_lt
bytes_lt_total [] [] h k = refl
bytes_lt_total [] (y ∷ b) h k = cc
bytes_lt_total (x ∷ a) [] h k = cc
bytes_lt_total (x ∷ a) (y ∷ b) h k = ground (arith, bytes_lt_total a b)

bytes_lt_of_le : (k m n : Bytes) → bytes_lt k m ≡ false → bytes_lt k n ≡ true → bytes_lt m n ≡ true
unfolding bytes_lt
bytes_lt_of_le [] [] n h p = p
bytes_lt_of_le [] (y ∷ m) n h p = cc
bytes_lt_of_le (x ∷ k) [] [] h p = cc
bytes_lt_of_le (x ∷ k) [] (z ∷ n) h p = refl
bytes_lt_of_le (x ∷ k) (y ∷ m) [] h p = cc
bytes_lt_of_le (x ∷ k) (y ∷ m) (z ∷ n) h p = ground (arith, bytes_lt_of_le k m n)

abbrev Entry : Type 0
Entry = Bytes × Counters

insert_name_comm :
    (x y : Entry) (es : List Entry)
    → x.0 ≢ y.0
    → insert_name x (insert_name y es) ≡ insert_name y (insert_name x es)
unfolding insert_name
insert_name_comm (n, c) (m, d) [] h = ground (arith, bytes_lt_asym n m, bytes_lt_total n m, h)
insert_name_comm (n, c) (m, d) ((k, e) ∷ es) h = ground (
  arith,
  bytes_lt_asym n m,
  bytes_lt_total n m,
  bytes_lt_of_le k m n,
  bytes_lt_of_le k n m,
  insert_name_comm (n, c) (m, d) es h,
)

-- Two orders of the entries of one map: a map has one entry for each name.
pub data Reordered : List Entry → List Entry → Type 0 where
  done : Reordered [] []
  keep : (x : Entry) {es fs : List Entry} → Reordered es fs → Reordered (x ∷ es) (x ∷ fs)
  swap : (x y : Entry) (es : List Entry) → x.0 ≢ y.0 → Reordered (x ∷ y ∷ es) (y ∷ x ∷ es)
  chain : {es fs gs : List Entry} → Reordered es fs → Reordered fs gs → Reordered es gs

sort_names-Reordered : {es fs : List Entry} → Reordered es fs → sort_names es ≡ sort_names fs
unfolding sort_names
sort_names-Reordered done = refl
sort_names-Reordered (keep x r) = ap (insert_name x) (sort_names-Reordered r)
sort_names-Reordered (swap x y es h) = insert_name_comm x y (sort_names es) h
sort_names-Reordered (chain r s) = sort_names-Reordered r ∙ sort_names-Reordered s

-- Payloads that differ at most in the order in which the interfaces of their devices are met.
pub data SameDevices : List DevicePerf → List DevicePerf → Type 0 where
  none_left : SameDevices [] []
  device :
      (d : DevicePerf) (es : List Entry) {ds fs : List DevicePerf}
      → Reordered d.interfaces es
      → SameDevices ds fs
      → SameDevices (d ∷ ds) ((record d { interfaces = es }) ∷ fs)

encode_device-Reordered :
    (d : DevicePerf) (es : List Entry)
    → Reordered d.interfaces es
    → encode_device d ≡ encode_device (record d { interfaces = es })
unfolding encode_device
encode_device-Reordered d es r = simp (sort_names-Reordered r)

encode_devices-SameDevices :
    {ds fs : List DevicePerf} → SameDevices ds fs → encode_devices ds ≡ encode_devices fs
unfolding encode_devices
encode_devices-SameDevices none_left = refl
encode_devices-SameDevices (device d es r s) =
    rw (encode_device-Reordered d es r, encode_devices-SameDevices s)

validate_devices-SameDevices :
    {ds fs : List DevicePerf} (latest : Bytes → Option Time)
    → SameDevices ds fs
    → validate_devices latest ds ≡ validate_devices latest fs
unfolding validate_devices
validate_devices-SameDevices latest none_left = refl
validate_devices-SameDevices latest (device d es r s) = rw (validate_devices-SameDevices _ s)

-- Encode gives the same bytes, or the same error, for payloads that differ only in the order in which
-- an iteration meets the interfaces of a device.
pub encode-SameDevices :
    (t : Time) (ds fs : List DevicePerf)
    → SameDevices ds fs
    → encode (record { time = t; devices = ds }) ≡ encode (record { time = t; devices = fs })
unfolding encode validate
encode-SameDevices t ds fs s =
    rw (validate_devices-SameDevices (λ name. none) s, encode_devices-SameDevices s)

-- Names in order, none before an earlier one.
abbrev pub IsSorted : List Entry → Type 0
IsSorted [] = Unit {0}
IsSorted (e ∷ es) = All (λ f. bytes_lt f.0 e.0 ≡ false) es × IsSorted es

All-insert_name {κ} :
    (P : Entry → Type κ) (x : Entry) (es : List Entry) → P x → All P es → All P (insert_name x es)
unfolding insert_name
All-insert_name P (n, c) [] p h = (p, tt)
All-insert_name P (n, c) ((m, d) ∷ es) p h = elim (Bool-cases (bytes_lt m n)) [
  | inl b ↦ rw b (h.0, All-insert_name P (n, c) es p h.1)
  | inr b ↦ rw b (p, h)
]

pub All-sort_names {κ} : (P : Entry → Type κ) (es : List Entry) → All P es → All P (sort_names es)
unfolding sort_names
All-sort_names P [] h = tt
All-sort_names P (e ∷ es) h = All-insert_name P e (sort_names es) h.0 (All-sort_names P es h.1)

le_first :
    (n m : Bytes) (es : List Entry)
    → bytes_lt m n ≡ false
    → All (λ f. bytes_lt f.0 m ≡ false) es
    → All (λ f. bytes_lt f.0 n ≡ false) es
le_first n m [] b h = tt
le_first n m ((k, e) ∷ es) b h = (ground (arith, bytes_lt_of_le k m n, h.0), le_first n m es b h.1)

insert_name-IsSorted : (x : Entry) (es : List Entry) → IsSorted es → IsSorted (insert_name x es)
unfolding insert_name
insert_name-IsSorted (n, c) [] h = (tt, tt)
insert_name-IsSorted (n, c) ((m, d) ∷ es) h = elim (Bool-cases (bytes_lt m n)) [
  | inl b ↦
      rw b
        (All-insert_name _ (n, c) es (bytes_lt_asym m n b) h.0, insert_name-IsSorted (n, c) es h.1)
  | inr b ↦ rw b ((b, le_first n m es b h.0), h)
]

pub sort_names-IsSorted : (es : List Entry) → IsSorted (sort_names es)
unfolding sort_names
sort_names-IsSorted [] = tt
sort_names-IsSorted (e ∷ es) = insert_name-IsSorted e (sort_names es) (sort_names-IsSorted es)
