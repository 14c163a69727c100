-- ===== src/Nqe/Paged/Turns.antt =====
-- What a round of `runAllOnce` does to the pass when it does not end it.
use forward_go_sdk.Prelude.{
  ℕ, ◌<◌, ◌≡◌, ◌⊎◌, inl, inr, refl, sym, arith, true, false, ◌||◌, not, List, [], ◌∷◌, ◌++◌, length,
  length-append, Bool-cases, ltb, ltb→lt,
}
use mathlib.Core.Path.{subst}
use forward_go_sdk.Prelude.Int.{ℤ, pos, ltb_ℤ, max_int32}
use forward_go_sdk.Text.{Text, is_empty}
use forward_go_sdk.Rounds.{Reply, answer, refusal, Step, Keeps}
use forward_go_sdk.Nqe.Paged.{
  NqeRecord, SortOrder, Page, PageRequest, PassEnd, complete, problem, failure, offset_too_large,
  Pass, Scan, scanned, keyless, repeated, check_keys, is_none_yet, eq_ℤ, no_rows, advance, pin,
  request, read_rows, check_total, read_page, page_reply, page_round,
}

pub eq_ℤ-eq : (a b : ℤ) → eq_ℤ a b ≡ true → a ≡ b
eq_ℤ-eq a b h = ground arith

length_grown : (xs ys : List NqeRecord) → no_rows ys ≡ false → length xs < length (xs ++ ys)
length_grown xs [] h = cc
length_grown xs (y ∷ ys) h = omega (arith, length-append xs (y ∷ ys))

module _ (sort : SortOrder) (size max : ℕ) (key : Text)
    (server : ℕ → PageRequest → Reply Page) where
  -- Round `i` read a page and led from `l` to `l'`.
  pub record Turn (i : ℕ) (l l' : Pass) : Type 0 where
    pub page : Page
    pub got : server i (request sort size max key l) ≡ answer page
    pub pinned : l'.pinned ≡ pin page l
    pub known : is_empty l'.pinned ≡ false
    pub total : page.total_num_items ≡ l'.total
    pub same : (is_none_yet l.total ≡ true) ⊎ (l.total ≡ l'.total)
    pub bounded : ltb_ℤ (pos max) l.total ≡ false → ltb_ℤ (pos max) l'.total ≡ false
    pub rows : l'.rows ≡ l.rows ++ page.items
    pub keys : check_keys key page.items l.seen ≡ scanned l'.seen

  -- The rounds go on.
  pub record Onward (i : ℕ) (l l' : Pass) : Type 0 where
    pub turn : Turn i l l'
    pub short : ltb_ℤ (pos (length l'.rows)) l'.total ≡ true
    pub grown : length l.rows < length l'.rows

  -- A pass that ends within a round found something wrong; an offset too large for an int32 would
  -- take a page that leaves more than that many rows read and still some to read.
  abbrev pub Fault : ℕ → Pass → PassEnd → Type 0
  Fault i l (complete rows) = ⊥
  Fault i l (problem p) = Unit {0}
  Fault i l (failure offset_too_large) =
      (l' : Pass) × Turn i l l'
      × (ltb_ℤ (pos (length l'.rows)) l'.total ≡ true)
      × (max_int32 < length l'.rows)
  Fault i l (failure _) = Unit {0}

  abbrev pub Turns : ℕ → Pass → Step Pass PassEnd → Type 0
  Turns i l = Keeps (Onward i l) (Turn i l) (Fault i l)

  advance-Turns :
      (i : ℕ) (l l' : Pass) (page : Page)
      → Turn i l l'
      → l'.rows ≡ l.rows ++ page.items
      → Turns i l (advance page l')
  unfolding advance
  advance-Turns i l l' page t e =
      elim (Bool-cases (not (ltb_ℤ (pos (length l'.rows)) l'.total) || no_rows page.items)) [
        | inl p ↦ rw p t
        | inr p ↦ elim (Bool-cases (ltb max_int32 (length l'.rows))) [
          | inl q ↦ rw (p, q) (l', t, ground arith, ltb→lt max_int32 (length l'.rows) q)
          | inr q ↦
              rw (p, q)
                (record {
                  turn = t;
                  short = ground arith;
                  grown =
                      subst (λ r. length l.rows < length r) (sym e)
                        (length_grown l.rows page.items (ground arith));
                })
        ]
      ]

  read_rows-Turns :
      (i : ℕ) (l m : Pass) (page : Page)
      → m.rows ≡ l.rows
      → m.seen ≡ l.seen
      → ((seen : List Text)
          → check_keys key page.items l.seen ≡ scanned seen
          → Turn i l (record m { seen = seen; rows = l.rows ++ page.items }))
      → Turns i l (read_rows sort size max key page m)
  unfolding read_rows
  read_rows-Turns i l m page r s turn = by_scan (check_keys key page.items l.seen) refl
    where
      by_scan :
          (scan : Scan)
          → check_keys key page.items l.seen ≡ scan
          → Turns i l (read_rows sort size max key page m)
      by_scan keyless e = rw (s, e, read_rows) tt
      by_scan (repeated raw) e = rw (s, e, read_rows) tt
      by_scan (scanned seen) e =
          rw (s, e, r, read_rows) (advance-Turns i l _ page (turn seen e) refl)

  check_total-Turns :
      (i : ℕ) (l : Pass) (page : Page)
      → server i (request sort size max key l) ≡ answer page
      → is_empty (pin page l) ≡ false
      → Turns i l (check_total sort size max key page (record l { pinned = pin page l }))
  unfolding check_total
  check_total-Turns i l page g k = elim (Bool-cases (is_none_yet l.total)) [
    | inl n ↦ elim (Bool-cases (ltb_ℤ (pos max) page.total_num_items)) [
      | inl b ↦ rw (n, b) tt
      | inr b ↦
          rw (n, b)
            (read_rows-Turns i l _ page refl refl (λ seen e. record {
              page = page;
              got = g;
              pinned = refl;
              known = k;
              total = refl;
              same = inl n;
              bounded = λ _. b;
              rows = refl;
              keys = e;
            }))
    ]
    | inr n ↦ elim (Bool-cases (eq_ℤ page.total_num_items l.total)) [
      | inr b ↦ rw (n, b) tt
      | inl b ↦
          rw (n, b)
            (read_rows-Turns i l _ page refl refl (λ seen e. record {
              page = page;
              got = g;
              pinned = refl;
              known = k;
              total = eq_ℤ-eq page.total_num_items l.total b;
              same = inr refl;
              bounded = λ h. h;
              rows = refl;
              keys = e;
            }))
    ]
  ]

  pub page_round-Turns : (i : ℕ) (l : Pass) → Turns i l (page_round sort size max key server i l)
  unfolding page_round page_reply read_page
  page_round-Turns i l = by_reply (server i (request sort size max key l)) refl
    where
      by_reply :
          (reply : Reply Page)
          → server i (request sort size max key l) ≡ reply
          → Turns i l (page_reply sort size max key reply l)
      by_reply (refusal e) g = tt
      by_reply (answer page) g = elim (Bool-cases (is_empty (pin page l))) [
        | inl k ↦ rw k tt
        | inr k ↦ rw k (check_total-Turns i l page g k)
      ]
