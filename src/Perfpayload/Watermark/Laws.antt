-- ===== src/Perfpayload/Watermark/Laws.antt =====
-- perfpayload/watermark.go: `Filter` and `Advance` together.
use forward_go_sdk.Prelude.{
  ℕ, ◌+◌, ◌≤◌, ◌<◌, ◌≡◌, ◌⊎◌, inl, inr, refl, arith, Bool, true, false, Option, none, some, List,
  [], ◌∷◌, All, length, Bool-cases, Option-cases,
}
use mathlib.Core.Path.{subst}
use forward_go_sdk.Text.{Text, text_eq}
use forward_go_sdk.Text.Laws.{eq-text_eq, text_eq_refl}
use forward_go_sdk.Perfpayload.Watermark.{
  Entry, Watermarks, RefusalReason, refused_unclaimed, refused_stale, held_back, verdict, sent,
  refused, later, advance_entry, advance,
}

-- The newest sample of a device is at `time` or later.
abbrev pub Covers : Watermarks → Text → ℕ → Type 0
Covers w name time = (t : ℕ) × (w.newest name ≡ some t) × (time ≤ t)

later-le : (o : Option ℕ) (time : ℕ) → time ≤ later o time
later-le none time = omega arith
later-le (some t) time = ground arith

later_keeps : (t time : ℕ) → t ≤ later (some t) time
later_keeps t time = ground arith

advance_entry-Covers-own :
    (w : Watermarks) (d : Entry) → Covers (advance_entry w d) d.device_name d.time
unfolding advance_entry
advance_entry-Covers-own w d = (
  later (w.newest d.device_name) d.time,
  rw (text_eq_refl d.device_name) refl,
  later-le (w.newest d.device_name) d.time,
)

advance_entry-Covers :
    (w : Watermarks) (d : Entry) (name : Text) (time : ℕ)
    → Covers w name time
    → Covers (advance_entry w d) name time
unfolding advance_entry
advance_entry-Covers w d name time (t, q, l) = elim (Bool-cases (text_eq name d.device_name)) [
  | inr e ↦ (t, rw e q, l)
  | inl e ↦
      let same = eq-text_eq name d.device_name e in
      let own : w.newest d.device_name ≡ some t = subst (λ n. w.newest n ≡ some t) same q in
      (later (some t) d.time, rw (e, own) refl, omega (arith, l, later_keeps t d.time))
]

-- A device whose newest sample is at some time or later has one at that time or later after `Advance`.
pub advance-Covers :
    (w : Watermarks) (ds : List Entry) (name : Text) (time : ℕ)
    → Covers w name time
    → Covers (advance w ds) name time
unfolding advance
advance-Covers w [] name time h = h
advance-Covers w (d ∷ ds) name time h =
    advance-Covers (advance_entry w d) ds name time (advance_entry-Covers w d name time h)

advance-Covers-All :
    (w : Watermarks) (ds : List Entry) → All (λ d. Covers (advance w ds) d.device_name d.time) ds
unfolding advance
advance-Covers-All w [] = tt
advance-Covers-All w (d ∷ ds) = (
  advance-Covers (advance_entry w d) ds d.device_name d.time (advance_entry-Covers-own w d),
  advance-Covers-All (advance_entry w d) ds,
)

covered_held :
    (w : Watermarks) (d : Entry)
    → Covers w d.device_name d.time
    → (reason : RefusalReason) × (verdict w d ≡ some reason)
unfolding verdict held_back
covered_held w d (t, q, l) = elim (Bool-cases (w.claimed d.device_name)) [
  | inl e ↦ (refused_stale, rw (q, e) (ground arith))
  | inr e ↦ (refused_unclaimed, rw (q, e) refl)
]

covered_unsent :
    (w : Watermarks) (ds : List Entry)
    → All (λ d. Covers w d.device_name d.time) ds
    → sent w ds ≡ []
unfolding sent
covered_unsent w [] h = refl
covered_unsent w (d ∷ ds) h =
    let (reason, e) = covered_held w d h.0 in rw (e, sent) (covered_unsent w ds h.1)

-- After a payload was sent and the watermarks advanced, `Filter` sends none of its entries again.
pub sent-advance : (w : Watermarks) (ds : List Entry) → sent (advance w ds) ds ≡ []
sent-advance w ds = covered_unsent (advance w ds) ds (advance-Covers-All w ds)

-- An entry may be sent: the device has no samples, or is claimed and its samples are older.
abbrev pub MaySend : Watermarks → Entry → Type 0
MaySend w d =
    (w.newest d.device_name ≡ none)
    ⊎ ((t : ℕ) × (w.newest d.device_name ≡ some t)
        × (w.claimed d.device_name ≡ true)
        × (t < d.time))

held_back-none :
    (o : Option ℕ) (c : Bool) (time : ℕ)
    → held_back o c time ≡ none
    → (o ≡ none) ⊎ ((t : ℕ) × (o ≡ some t) × (c ≡ true) × (t < time))
unfolding held_back
held_back-none none c time h = inl refl
held_back-none (some t) false time h = cc
held_back-none (some t) true time h = inr (t, refl, refl, ground arith)

-- Every entry that `Filter` sends is of a device that has no samples, or that is claimed and whose
-- samples are older, and the entries sent and the refusals are together as many as the entries of
-- the payload.
pub sent-All-MaySend :
    (w : Watermarks) (ds : List Entry)
    → All (MaySend w) (sent w ds) × (length (sent w ds) + length (refused w ds) ≡ length ds)
unfolding sent refused
sent-All-MaySend w [] = (tt, refl)
sent-All-MaySend w (d ∷ ds) = elim (Option-cases (verdict w d)) [
  | inl e ↦
      let (all, count) = sent-All-MaySend w ds in
      rw (e, sent, refused)
        (
          (
            held_back-none (w.newest d.device_name) (w.claimed d.device_name) d.time
                (unfold verdict in e),
            all,
          ),
          omega (arith, count),
        )
  | inr (reason, e) ↦
      let (all, count) = sent-All-MaySend w ds in rw (e, sent, refused) (all, omega (arith, count))
]
