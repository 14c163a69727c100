-- ===== src/Text/Laws.antt =====
-- Laws of the text functions.
use forward_go_sdk.Prelude.{
  ℕ, ◌≡◌, ◌≢◌, refl, ◌⊎◌, ◌↔◌, true, false, [], ◌∷◌, arith, Bool-cases, inl, inr,
}
use forward_go_sdk.Text.{Text, text_eq, is_space, trim_left, trim_right, trim_space}

pub text_eq_refl : (s : Text) → text_eq s s ≡ true
unfolding text_eq
text_eq_refl [] = refl
text_eq_refl (a ∷ s) = ground (arith, text_eq_refl s)

pub eq-text_eq : (s t : Text) → text_eq s t ≡ true → s ≡ t
unfolding text_eq
eq-text_eq [] [] h = refl
eq-text_eq [] (b ∷ t) h = cc
eq-text_eq (a ∷ s) [] h = cc
eq-text_eq (a ∷ s) (b ∷ t) h = ground (arith, eq-text_eq s t)

pub text_eq_iff : (s t : Text) → (text_eq s t ≡ true) ↔ (s ≡ t)
text_eq_iff s t = (eq-text_eq s t, λ e. let p : text_eq s s ≡ true = text_eq_refl s in cc)

trim_left_idem : (s : Text) → trim_left (trim_left s) ≡ trim_left s
unfolding trim_left
trim_left_idem [] = refl
trim_left_idem (c ∷ s) = ground (arith, trim_left_idem s)

trim_right_idem : (s : Text) → trim_right (trim_right s) ≡ trim_right s
unfolding trim_right
trim_right_idem [] = refl
trim_right_idem (c ∷ s) = ground (arith, trim_right_idem s)

trim_left-cases :
    (s : Text)
    → (trim_left s ≡ []) ⊎ ((c : ℕ) × (u : Text) × (trim_left s ≡ c ∷ u) × (is_space c ≡ false))
unfolding trim_left
trim_left-cases [] = inl refl
trim_left-cases (c ∷ s) = elim (Bool-cases (is_space c)) [
  | inl e ↦ rw e (trim_left-cases s)
  | inr e ↦ inr (c, s, rw e, e)
]

trim_keeps :
    (c : ℕ) (u : Text) → is_space c ≡ false → trim_left (trim_right (c ∷ u)) ≡ trim_right (c ∷ u)
unfolding trim_left trim_right
trim_keeps c u h = ground (arith, h)

pub trim_space_idem : (s : Text) → trim_space (trim_space s) ≡ trim_space s
unfolding trim_space
trim_space_idem s = elim (trim_left-cases s) [
  | inl e ↦ rw e (unfold trim_left trim_right in refl)
  | inr (c, u, e, h) ↦ rw (e, trim_keeps c u h) (trim_right_idem (c ∷ u))
]

pub text_eq-ne : (s t : Text) → text_eq s t ≡ false → s ≢ t
text_eq-ne s t h = λ e. let p : text_eq s t ≡ true = (text_eq_iff s t).1 e in cc
