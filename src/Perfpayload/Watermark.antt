-- ===== src/Perfpayload/Watermark.antt =====
-- perfpayload/watermark.go: what is safe to upload. A map is a function, a time a number, and of a
-- device's entry only the name and the time are read.
pub mod Laws
mod Examples
use forward_go_sdk.Prelude.{
  ℕ, Bool, true, false, ◌||◌, Option, none, some, List, [], ◌∷◌, ltb, if◌then◌else◌,
}
use forward_go_sdk.Text.{Text, text_eq}

pub record Entry : Type 0 where
  pub device_name : Text
  pub time : ℕ

pub record Watermarks : Type 0 where
  pub newest : Text → Option ℕ
  pub claimed : Text → Bool

pub data RefusalReason : Type 0 where
  refused_unclaimed refused_stale : RefusalReason

pub record Refusal : Type 0 where
  pub device : Text
  pub time : ℕ
  pub reason : RefusalReason

-- The reason to hold an entry back, if there is one, given the device's newest sample.
unfoldable pub held_back : Option ℕ → Bool → ℕ → Option RefusalReason
held_back none claimed time = none
held_back (some newest) false time = some refused_unclaimed
held_back (some newest) true time = if ltb newest time then none else some refused_stale

unfoldable pub verdict : Watermarks → Entry → Option RefusalReason
unfolding held_back
verdict w d = held_back (w.newest d.device_name) (w.claimed d.device_name) d.time

-- `Filter`: the entries to send.
unfoldable pub sent : Watermarks → List Entry → List Entry
unfolding verdict
sent w [] = []
sent w (d ∷ ds) =
    let rest = sent w ds in elim (verdict w d) [ none ↦ d ∷ rest | some reason ↦ rest ]

-- `Filter`: the refusals.
unfoldable pub refused : Watermarks → List Entry → List Refusal
unfolding verdict
refused w [] = []
refused w (d ∷ ds) =
    let rest = refused w ds in
    elim (verdict w d) [
      | none ↦ rest
      | some reason ↦ (record { device = d.device_name; time = d.time; reason = reason }) ∷ rest
    ]

abbrev later : Option ℕ → ℕ → ℕ
later none time = time
later (some current) time = if ltb current time then time else current

abbrev is_new : Option ℕ → Bool
is_new none = true
is_new (some t) = false

-- One entry of `Advance`.
unfoldable pub advance_entry : Watermarks → Entry → Watermarks
unfolding text_eq
advance_entry w d = record {
  newest = λ name.
      if text_eq name d.device_name
      then some (later (w.newest d.device_name) d.time)
      else w.newest name;
  claimed = λ name.
      w.claimed name
      || (if text_eq name d.device_name then is_new (w.newest d.device_name) else false);
}

-- `Advance`
unfoldable pub advance : Watermarks → List Entry → Watermarks
unfolding advance_entry
advance w [] = w
advance w (d ∷ ds) = advance (advance_entry w d) ds
