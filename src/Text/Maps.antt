-- ===== src/Text/Maps.antt =====
-- Go's maps with strings as keys, as the lists of their entries: `m[key]` with `ok`, and
-- `m[key] = value`.
use forward_go_sdk.Prelude.{
  ◌≡◌, refl, sym, ap, ◌∙◌, inl, inr, Option, none, some, List, [], ◌∷◌, if◌then◌else◌, Bool-cases,
}
use forward_go_sdk.Text.{Text, text_eq}
use forward_go_sdk.Text.Laws.{eq-text_eq}

unfoldable pub get {ℓ} : {A : Type ℓ} → Text → List (Text × A) → Option A
get key [] = none
get key ((k, v) ∷ m) = let rest = get key m in if text_eq k key then some v else rest

unfoldable pub set {ℓ} : {A : Type ℓ} → Text → A → List (Text × A) → List (Text × A)
set key value [] = (key, value) ∷ []
set key value ((k, v) ∷ m) =
    let rest = set key value m in if text_eq k key then (key, value) ∷ m else (k, v) ∷ rest

pub get-set {ℓ} :
    {A : Type ℓ} (key other : Text) (v : A) (m : List (Text × A))
    → get other (set key v m) ≡ (if text_eq key other then some v else get other m)
unfolding get set
get-set key other v [] = refl
get-set key other v ((k, w) ∷ m) = elim (Bool-cases (text_eq k key)) [
  | inl b ↦
      rw (b, eq-text_eq k key b)
        (elim (Bool-cases (text_eq key other)) [ inl c ↦ rw c refl | inr c ↦ rw c refl ])
  | inr b ↦
      rw (b, get-set key other v m)
        (elim (Bool-cases (text_eq key other)) [
          | inl c ↦ rw (c, ap (text_eq k) (sym (eq-text_eq key other c)) ∙ b) refl
          | inr c ↦ rw c refl
        ])
]
