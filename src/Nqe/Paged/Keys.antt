-- ===== src/Nqe/Paged/Keys.antt =====
-- What `runAllOnce` learns of the key column: a key for each row, and no key twice.
use mathlib.Core.List.{append_assoc, append-nil}
use forward_go_sdk.Prelude.{
  ◌≡◌, ◌≢◌, inl, inr, refl, sym, ◌∙◌, arith, true, false, ◌||◌, Option, none, some, List, [], ◌∷◌,
  ◌++◌, All, Bool-cases,
}
use mathlib.Core.Path.{subst}
use forward_go_sdk.Text.{Text, text_eq, is_empty, is_member}
use forward_go_sdk.Text.Laws.{text_eq_refl}
use forward_go_sdk.Nqe.Paged.{NqeRecord, scanned, column, scan, null}

-- Each row has the key of its place in the key column, a value that is neither empty nor null.
abbrev pub HasKeys : Text → List NqeRecord → List Text → Type 0
HasKeys key [] [] = Unit {0}
HasKeys key [] (_ ∷ _) = ⊥
HasKeys key (_ ∷ _) [] = ⊥
HasKeys key (r ∷ rs) (k ∷ ks) =
    (column key r ≡ some k) × (is_empty k ≡ false) × (text_eq k null ≡ false) × HasKeys key rs ks

abbrev pub Distinct : List Text → Type 0
Distinct [] = Unit {0}
Distinct (k ∷ ks) = All (λ x. k ≢ x) ks × Distinct ks

pub HasKeys-append :
    (key : Text) (rs items : List NqeRecord) (ks more : List Text)
    → HasKeys key rs ks
    → HasKeys key items more
    → HasKeys key (rs ++ items) (ks ++ more)
HasKeys-append key [] items [] more h m = m
HasKeys-append key [] items (k ∷ ks) more h m = absurd h
HasKeys-append key (r ∷ rs) items [] more h m = absurd h
HasKeys-append key (r ∷ rs) items (k ∷ ks) more (a, b, c, h) m =
    (a, b, c, HasKeys-append key rs items ks more h m)

All-end : (P : Text → Type 0) (ks : List Text) (k : Text) → All P ks → P k → All P (ks ++ k ∷ [])
All-end P [] k h p = (p, tt)
All-end P (x ∷ ks) k h p = (h.0, All-end P ks k h.1 p)

not_member_head :
    (k x : Text) (ks : List Text)
    → is_member k (x ∷ ks) ≡ false
    → (x ≢ k) × (is_member k ks ≡ false)
unfolding is_member
not_member_head k x ks h =
    (λ e. let p : text_eq k k ≡ true = text_eq_refl k in ground (arith, sym e), ground arith)

Distinct-end :
    (ks : List Text) (k : Text) → Distinct ks → is_member k ks ≡ false → Distinct (ks ++ k ∷ [])
Distinct-end [] k h m = (tt, tt)
Distinct-end (x ∷ ks) k h m =
    let (new, rest) = not_member_head k x ks m in
    (All-end (λ y. x ≢ y) ks k h.0 new, Distinct-end ks k h.1 rest)

-- What a scan that finds nothing wrong has seen.
pub scan-scanned :
    (key : Text) (items : List NqeRecord) (seen seen' : List Text)
    → scan key items seen ≡ scanned seen'
    → Distinct seen
    → (more : List Text) × (seen' ≡ seen ++ more) × HasKeys key items more × Distinct seen'
unfolding scan
scan-scanned key [] seen seen' h d =
    ([], sym (scanned_inj h) ∙ sym (append-nil seen), tt, subst Distinct (scanned_inj h) d)
  where
    scanned_inj : {xs ys : List Text} → scanned xs ≡ scanned ys → xs ≡ ys
    scanned_inj e = cc
scan-scanned key (item ∷ items) seen seen' h d =
    by_cell (column key item) refl (scan-scanned key items)
  where
    by_cell :
        (o : Option Text)
        → column key item ≡ o
        → ((seen seen' : List Text)
            → scan key items seen ≡ scanned seen'
            → Distinct seen
            → (more : List Text) × (seen' ≡ seen ++ more) × HasKeys key items more × Distinct seen')
        → (more : List Text) × (seen' ≡ seen ++ more)
          × HasKeys key (item ∷ items) more
          × Distinct seen'
    by_cell none e ih = cc (rw (e, scan) at h)
    by_cell (some raw) e ih = elim (Bool-cases (is_empty raw || text_eq raw null)) [
      | inl b ↦ cc (rw (e, b, scan) at h)
      | inr b ↦ elim (Bool-cases (is_member raw seen)) [
        | inl m ↦ cc (rw (e, b, m, scan) at h)
        | inr m ↦
            let (more, split, keys, distinct) =
              ih (seen ++ raw ∷ []) seen' (rw (e, b, m, scan) at h) (Distinct-end seen raw d m) in
            (
              raw ∷ more,
              split ∙ append_assoc seen (raw ∷ []) more,
              (e, ground arith, ground arith, keys),
              distinct,
            )
      ]
    ]
