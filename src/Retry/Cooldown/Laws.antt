-- ===== src/Retry/Cooldown/Laws.antt =====
-- The compare-and-swap loop of the cooldown against a maximum.
use Prim.Native.Nat.{max}
use forward_go_sdk.Prelude.{
  ℕ, ◌≤◌, ◌≡◌, refl, arith, List, [], ◌∷◌, ltb, leb, if◌then◌else◌, Bool-cases, inl, inr, leb→le,
  leb_false→lt, ltb→lt, ltb_false→le, ◌∙◌, ap, ◌<◌, All,
}
use forward_go_sdk.Retry.Cooldown.{stored_by_others, swap_loop}

-- The largest moment of a cell and a list.
abbrev pub latest : ℕ → List ℕ → ℕ
latest cell [] = cell
latest cell (x ∷ xs) = latest (max cell x) xs

later-eq_max : (a b : ℕ) → (if ltb a b then b else a) ≡ max a b
later-eq_max a b = ground arith

stored_by_others-eq_latest : (xs : List ℕ) (cell : ℕ) → stored_by_others xs cell ≡ latest cell xs
unfolding stored_by_others
stored_by_others-eq_latest [] cell = refl
stored_by_others-eq_latest (x ∷ xs) cell =
    stored_by_others-eq_latest xs (if ltb cell x then x else cell)
    ∙ ap (λ (m : ℕ). latest m xs) (later-eq_max cell x)

latest_of : (xs : List ℕ) {a b : ℕ} → a ≡ b → latest a xs ≡ latest b xs
latest_of xs e = ap (λ (m : ℕ). latest m xs) e

-- However the stores of others fall between its loads and swaps, the loop of `set` ends with the
-- latest of the cell, its own moment and theirs: no store is lost.
pub swap_loop-eq_latest :
    (xs : List ℕ) (cell until : ℕ) → swap_loop xs cell until ≡ latest (max cell until) xs
unfolding swap_loop
swap_loop-eq_latest [] cell until = ground arith
swap_loop-eq_latest (x ∷ xs) cell until = elim (Bool-cases (leb until cell)) [
  | inl e ↦ rw e (
      stored_by_others-eq_latest xs (if ltb cell x then x else cell)
      ∙ latest_of xs (later-eq_max cell x ∙ kept (leb→le until cell e)))
  | inr e ↦ elim (Bool-cases (ltb cell x)) [
    | inl l ↦ rw (e, l) (swap_loop-eq_latest xs x until ∙ latest_of xs (lost (ltb→lt cell x l)))
    | inr l ↦
        rw (e, l)
          (stored_by_others-eq_latest xs until
            ∙ latest_of xs (swapped (leb_false→lt until cell e) (ltb_false→le cell x l)))
  ]
]
  where
    kept : until ≤ cell → max cell x ≡ max (max cell until) x
    kept h = omega arith

    lost : cell < x → max x until ≡ max (max cell until) x
    lost h = omega arith

    swapped : cell < until → x ≤ cell → until ≡ max (max cell until) x
    swapped h k = omega arith

-- No moment that a request or others stored lies behind `m`.
abbrev pub Behind : List ℕ → ℕ → ℕ → ℕ → Type 0
Behind others cell until m = (cell ≤ m) × (until ≤ m) × All (λ x. x ≤ m) others
