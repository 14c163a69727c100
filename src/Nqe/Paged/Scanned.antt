-- ===== src/Nqe/Paged/Scanned.antt =====
-- nqe_paged.go: the keys of the parts of a table, and what `scan` gives on new keys.
use mathlib.Core.List.{append_assoc, append-nil}
use forward_go_sdk.Prelude.{
  ◌≡◌, ◌≢◌, inl, inr, refl, sym, ap, ◌∙◌, false, List, [], ◌∷◌, ◌++◌, All, Bool-cases,
}
use mathlib.Core.Path.{subst}
use forward_go_sdk.Text.{Text, text_eq, is_member}
use forward_go_sdk.Text.Laws.{eq-text_eq}
use forward_go_sdk.Nqe.Paged.{NqeRecord, scanned, scan}
use forward_go_sdk.Nqe.Paged.Keys.{HasKeys, Distinct}

pub HasKeys-split :
    (key : Text) (items rest : List NqeRecord) (ks : List Text)
    → HasKeys key (items ++ rest) ks
    → (front back : List Text) × (ks ≡ front ++ back)
      × HasKeys key items front
      × HasKeys key rest back
HasKeys-split key [] rest ks h = ([], ks, refl, tt, h)
HasKeys-split key (r ∷ items) rest [] h = absurd h
HasKeys-split key (r ∷ items) rest (k ∷ ks) (a, b, c, h) =
    let (front, back, split, f, g) = HasKeys-split key items rest ks h in
    (k ∷ front, back, ap (λ (l : List Text). k ∷ l) split, (a, b, c, f), g)

All-front : (P : Text → Type 0) (xs ys : List Text) → All P (xs ++ ys) → All P xs
All-front P [] ys h = tt
All-front P (x ∷ xs) ys h = (h.0, All-front P xs ys h.1)

pub Distinct-front : (xs ys : List Text) → Distinct (xs ++ ys) → Distinct xs
Distinct-front [] ys h = tt
Distinct-front (x ∷ xs) ys h = (All-front (λ y. x ≢ y) xs ys h.0, Distinct-front xs ys h.1)

All-middle : (P : Text → Type 0) (xs ys : List Text) (k : Text) → All P (xs ++ k ∷ ys) → P k
All-middle P [] ys k h = h.0
All-middle P (x ∷ xs) ys k h = All-middle P xs ys k h.1

-- A key that stands further on is not among those before.
new_key : (seen ks : List Text) (k : Text) → Distinct (seen ++ k ∷ ks) → is_member k seen ≡ false
unfolding is_member
new_key [] ks k h = refl
new_key (x ∷ seen) ks k h =
    let rest = new_key seen ks k h.1 in
    let other = All-middle (λ y. x ≢ y) seen ks k h.0 in
    elim (Bool-cases (text_eq k x)) [
      | inl e ↦ absurd (other (sym (eq-text_eq k x e)))
      | inr e ↦ rw e rest
    ]

pub scan_passes :
    (key : Text) (items : List NqeRecord) (ks seen : List Text)
    → HasKeys key items ks
    → Distinct (seen ++ ks)
    → scan key items seen ≡ scanned (seen ++ ks)
unfolding scan
scan_passes key [] [] seen h d = ap scanned (sym (append-nil seen))
scan_passes key [] (k ∷ ks) seen h d = absurd h
scan_passes key (r ∷ items) [] seen h d = absurd h
scan_passes key (r ∷ items) (k ∷ ks) seen (a, b, c, h) d =
    rw (a, b, c, new_key seen ks k d, scan)
      (scan_passes key items ks (seen ++ k ∷ []) h
          (subst Distinct (sym (append_assoc seen (k ∷ []) ks)) d)
        ∙ ap scanned (append_assoc seen (k ∷ []) ks))
