-- ===== src/Perfpayload/Encode/Checked.antt =====
-- What Validate accepts, against a description that looks at the entries pair by pair.
use mathlib.Core.Path.{subst}
use forward_go_sdk.Prelude.{
  ◌≡◌, ◌↔◌, refl, sym, ap, true, false, Option, none, some, List, [], ◌∷◌, All, arith, Bool-cases,
  inl, inr, if◌then◌else◌,
}
use forward_go_sdk.Prelude.Results.{ok}
use forward_go_sdk.Text.{text_eq, is_empty}
use forward_go_sdk.Text.Laws.{eq-text_eq}
use forward_go_sdk.Perfpayload.Encode.{
  Bytes, Time, DevicePerf, Payload, valid_time, fraction, before, earlier_than, validate_devices,
  validate,
}

-- An entry that is fine by itself.
abbrev pub IsFine : DevicePerf → Type 0
IsFine d =
    (is_empty d.device_name ≡ false)
    × (valid_time d.time ≡ true)
    × (fraction d.cpu ≡ true)
    × (fraction d.memory ≡ true)

abbrev pub NotBefore : DevicePerf → DevicePerf → Type 0
NotBefore d e = text_eq e.device_name d.device_name ≡ true → before e.time d.time ≡ false

-- No entry is before an earlier entry of the same device.
abbrev pub Chronological : List DevicePerf → Type 0
Chronological [] = Unit {0}
Chronological (d ∷ ds) = All (NotBefore d) ds × Chronological ds

-- No entry is before the latest time of its device.
abbrev Follows : (Bytes → Option Time) → List DevicePerf → Type 0
Follows latest ds = All (λ e. earlier_than e.time (latest e.device_name) ≡ false) ds

abbrev noted : (Bytes → Option Time) → DevicePerf → Bytes → Option Time
noted latest d name = if text_eq name d.device_name then some d.time else latest name

before_trans : (t u v : Time) → before u t ≡ false → before v u ≡ false → before v t ≡ false
unfolding before
before_trans t u v h k = ground arith

earlier_than_trans :
    (o : Option Time) (u v : Time)
    → earlier_than u o ≡ false
    → before v u ≡ false
    → earlier_than v o ≡ false
earlier_than_trans none u v h k = refl
earlier_than_trans (some t) u v h k = before_trans t u v h k

-- One later entry, seen from an entry and from what was noted before it.
step :
    (latest : Bytes → Option Time) (d e : DevicePerf)
    → earlier_than d.time (latest d.device_name) ≡ false
    → earlier_than e.time (noted latest d e.device_name) ≡ false
    → NotBefore d e × (earlier_than e.time (latest e.device_name) ≡ false)
step latest d e h k = elim (Bool-cases (text_eq e.device_name d.device_name)) [
  | inl same ↦
      let later : before e.time d.time ≡ false = rw same at k in
      let names : latest d.device_name ≡ latest e.device_name =
        ap latest (sym (eq-text_eq e.device_name d.device_name same)) in
      (
        λ _. later,
        earlier_than_trans (latest e.device_name) d.time e.time
            (subst (λ o. earlier_than d.time o ≡ false) names h) later,
      )
  | inr other ↦
      let earlier : earlier_than e.time (latest e.device_name) ≡ false = rw other at k in
      (λ same. cc, earlier)
]

back :
    (latest : Bytes → Option Time) (d e : DevicePerf)
    → NotBefore d e
    → earlier_than e.time (latest e.device_name) ≡ false
    → earlier_than e.time (noted latest d e.device_name) ≡ false
back latest d e h k = elim (Bool-cases (text_eq e.device_name d.device_name)) [
  | inl same ↦ rw same (h same)
  | inr other ↦ rw other k
]

Follows-noted :
    (latest : Bytes → Option Time) (d : DevicePerf) (ds : List DevicePerf)
    → earlier_than d.time (latest d.device_name) ≡ false
    → Follows (noted latest d) ds
    → All (NotBefore d) ds × Follows latest ds
Follows-noted latest d [] h k = (tt, tt)
Follows-noted latest d (e ∷ ds) h k =
    let (a, b) = Follows-noted latest d ds h k.1 in
    let (p, q) = step latest d e h k.0 in ((p, a), (q, b))

noted-Follows :
    (latest : Bytes → Option Time) (d : DevicePerf) (ds : List DevicePerf)
    → All (NotBefore d) ds
    → Follows latest ds
    → Follows (noted latest d) ds
noted-Follows latest d [] h k = tt
noted-Follows latest d (e ∷ ds) h k = (back latest d e h.0 k.0, noted-Follows latest d ds h.1 k.1)

-- One round of the loop.
validate_devices-step :
    (latest : Bytes → Option Time) (d : DevicePerf) (ds : List DevicePerf)
    → (validate_devices latest (d ∷ ds) ≡ ok tt) ↔ (
        IsFine d
        × (earlier_than d.time (latest d.device_name) ≡ false)
        × (validate_devices (noted latest d) ds ≡ ok tt))
unfolding validate_devices
validate_devices-step latest d ds = (λ h. ground arith, λ h. ground arith)

validate_devices_sound :
    (latest : Bytes → Option Time) (ds : List DevicePerf)
    → validate_devices latest ds ≡ ok tt
    → All IsFine ds × Chronological ds × Follows latest ds
validate_devices_sound latest [] h = (tt, tt, tt)
validate_devices_sound latest (d ∷ ds) h =
    let (fine, first, rest) = (validate_devices-step latest d ds).0 h in
    let (fines, ordered, follows) = validate_devices_sound (noted latest d) ds rest in
    let (later, before_them) = Follows-noted latest d ds first follows in
    ((fine, fines), (later, ordered), (first, before_them))

validate_devices_complete :
    (latest : Bytes → Option Time) (ds : List DevicePerf)
    → All IsFine ds
    → Chronological ds
    → Follows latest ds
    → validate_devices latest ds ≡ ok tt
unfolding validate_devices
validate_devices_complete latest [] f c h = refl
validate_devices_complete latest (d ∷ ds) f c h = (validate_devices-step latest d ds).1 (
  f.0,
  h.0,
  validate_devices_complete (noted latest d) ds f.1 c.1 (noted-Follows latest d ds c.0 h.1),
)

nothing_noted : (ds : List DevicePerf) → Follows (λ name. none) ds
nothing_noted [] = tt
nothing_noted (d ∷ ds) = (refl, nothing_noted ds)

-- Validate accepts a payload exactly if its time is valid, each entry has a name, a valid time and a
-- CPU and a memory between 0 and 1, and no entry is before an earlier entry of the same device.
pub validate_iff :
    (p : Payload)
    → (validate p ≡ ok tt)
      ↔ ((valid_time p.time ≡ true) × All IsFine p.devices × Chronological p.devices)
unfolding validate
validate_iff p = (
  λ h.
      let rest : validate_devices (λ name. none) p.devices ≡ ok tt = ground arith in
      let (fine, ordered, _) = validate_devices_sound (λ name. none) p.devices rest in
      (ground arith, fine, ordered),
  λ (t, fine, ordered).
      let rest : validate_devices (λ name. none) p.devices ≡ ok tt =
        validate_devices_complete (λ name. none) p.devices fine ordered (nothing_noted p.devices) in
      ground arith,
)
