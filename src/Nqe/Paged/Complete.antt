-- ===== src/Nqe/Paged/Complete.antt =====
-- nqe_paged.go: a pass of `RunAll` on a server that answers from one unchanging table.
use mathlib.Core.List.{append_assoc, append-nil}
use forward_go_sdk.Prelude.{
  ℕ, zero, suc, ◌+◌, ◌≤◌, ◌<◌, ◌≡◌, ◌⊎◌, inl, inr, refl, sym, ap, ◌∙◌, arith, true, false, some,
  List, [], ◌∷◌, ◌++◌, length, length-append, Bool-cases, ltb, ltb_ge, ltb_false→le,
}
use mathlib.Core.Path.{subst}
use forward_go_sdk.Prelude.Int.{ℤ, pos, ltb_ℤ, max_int32}
use forward_go_sdk.Text.{Text, is_empty}
use forward_go_sdk.Rounds.{
  Keeps, continue, finish, Reply, answer, Step, Ended, out_of_fuel, finished, left, repeat, leave,
  go,
}
use forward_go_sdk.Nqe.Paged.{
  NqeRecord, SortOrder, Page, PageRequest, PassEnd, complete, Pass, check_keys, is_none_yet, eq_ℤ,
  no_rows, pin, advance, request, read_rows, check_total, read_page, page_reply, page_round,
  first_pass, pass_end, run_all_once,
}
use forward_go_sdk.Nqe.Paged.Keys.{HasKeys, Distinct}
use forward_go_sdk.Nqe.Paged.Coherent.{to_int32-small}
use forward_go_sdk.Nqe.Paged.Scanned.{HasKeys-split, Distinct-front, scan_passes}

-- The server answers every request from one table of rows, in the snapshot `snapshot`: with some
-- rows behind the offset, at least one while there are any, and the number of all.
abbrev pub Serves : (ℕ → PageRequest → Reply Page) → SortOrder → ℕ → Text → List NqeRecord → Type 0
Serves server sort size snapshot table =
    (i : ℕ) (asked : Text) (front back : List NqeRecord)
    → table ≡ front ++ back
    → (page : Page) × (server i (record {
      snapshot_id = asked;
      sort_by = sort;
      offset = pos (length front);
      limit = size;
    })
        ≡ answer page)
      × (page.snapshot_id ≡ snapshot)
      × (page.total_num_items ≡ pos (length table))
      × (rest : List NqeRecord) × (back ≡ page.items ++ rest)
      × (no_rows back ≡ false → no_rows page.items ≡ false)

regroup :
    {A : Type 0} (whole front back middle rest : List A)
    → whole ≡ front ++ back
    → back ≡ middle ++ rest
    → whole ≡ (front ++ middle) ++ rest
regroup whole front back middle rest h more =
    h ∙ ap (λ b. front ++ b) more ∙ sym (append_assoc front middle rest)

eq_ℤ-refl : (n : ℤ) → eq_ℤ n n ≡ true
eq_ℤ-refl n = ground arith

module _ (sort : SortOrder) (size max : ℕ) (key : Text) (server : ℕ → PageRequest → Reply Page)
    (snapshot : Text) (table : List NqeRecord) (keys : List Text) (named : is_empty key ≡ false)
    (exists : is_empty snapshot ≡ false) (small : max ≤ max_int32) (fits : length table ≤ max)
    (keyed : HasKeys key table keys) (distinct : Distinct keys)
    (serves : Serves server sort size snapshot table) where
  -- What is read and what is left of the table, with their keys.
  record Half (l : Pass) (back : List NqeRecord) : Type 0 where
    split : table ≡ l.rows ++ back
    later : List Text
    keys_split : keys ≡ l.seen ++ later
    keyed_back : HasKeys key back later
    count : (is_none_yet l.total ≡ true) ⊎ (l.total ≡ pos (length table))

  abbrev LeftWhole : Ended Pass PassEnd → Type 0
  LeftWhole out_of_fuel = ⊥
  LeftWhole (finished e) = ⊥
  LeftWhole (left l) = (l.rows ≡ table) × (l.total ≡ pos (length table))

  pin_named : (page : Page) (l : Pass) → page.snapshot_id ≡ snapshot → is_empty (pin page l) ≡ false
  pin_named page l e = elim (Bool-cases (is_empty l.pinned)) [
    | inl p ↦ rw p (subst (λ s. is_empty s ≡ false) (sym e) exists)
    | inr p ↦ rw p p
  ]

  total_agrees :
      (page : Page) (l : Pass)
      → page.total_num_items ≡ pos (length table)
      → (is_none_yet l.total ≡ true) ⊎ (l.total ≡ pos (length table))
      → check_total sort size max key page l
        ≡ read_rows sort size max key page (record l { total = pos (length table) })
  unfolding check_total
  total_agrees page l e c = elim (Bool-cases (is_none_yet l.total)) [
    | inl n ↦ simp (n, e, over)
    | inr n ↦ elim c [
      | inl m ↦ cc
      | inr m ↦
          subst
            (λ t.
              check_total sort size max key page l
              ≡ read_rows sort size max key page (record l { total = t }))
            m (rw (n, e ∙ sym m, eq_ℤ-refl l.total) refl)
    ]
  ]
    where
      over : ltb max (length table) ≡ false
      over = ltb_ge max (length table) fits

  read_rows_on :
      (page : Page) (m : Pass) (ks : List Text)
      → HasKeys key page.items ks
      → Distinct (m.seen ++ ks)
      → read_rows sort size max key page m
        ≡ advance page (record m { seen = m.seen ++ ks; rows = m.rows ++ page.items })
  unfolding read_rows check_keys
  read_rows_on page m ks k d = rw (named, scan_passes key page.items ks m.seen k d, read_rows)

  -- One round reads on.
  round_reads :
      (i : ℕ) (l : Pass) (back : List NqeRecord)
      → Half l back
      → (page : Page) × (rest : List NqeRecord) × (l' : Pass) × (page_round sort size max key server
            i l
          ≡ advance page l')
        × Half l' rest
        × (back ≡ page.items ++ rest)
        × (no_rows back ≡ false → no_rows page.items ≡ false)
        × (l'.total ≡ pos (length table))
  unfolding page_round page_reply read_page read_rows check_keys request
  round_reads i l back h =
      let (page, got, shot, total, rest, more, brings) = serves i l.pinned l.rows back h.split in
      let (ks, ks', keys_more, keyed_items, keyed_rest) =
        HasKeys-split key page.items rest h.later
          (subst (λ b. HasKeys key b h.later) more h.keyed_back) in
      let keys_whole : keys ≡ (l.seen ++ ks) ++ ks' =
        regroup keys l.seen h.later ks ks' h.keys_split keys_more in
      let distinct_seen : Distinct (l.seen ++ ks) =
        Distinct-front (l.seen ++ ks) ks' (subst Distinct keys_whole distinct) in
      (
        page,
        rest,
        record {
          pinned = pin page l;
          total = pos (length table);
          seen = l.seen ++ ks;
          rows = l.rows ++ page.items;
        },
        rw
            (to_int32-small (length l.rows) (
              omega (
                arith,
                small,
                fits,
                ap (λ (r : List NqeRecord). length r) h.split,
                length-append l.rows back,
              )))
            (rw (got, page_reply)
              (rw
                (
                  pin_named page l shot,
                  total_agrees page (record l { pinned = pin page l }) total h.count,
                )
                (read_rows_on page
                  (record {
                    pinned = pin page l;
                    total = pos (length table);
                    seen = l.seen;
                    rows = l.rows;
                  })
                  ks keyed_items distinct_seen))),
        record {
          split = regroup table l.rows back page.items rest h.split more;
          later = ks';
          keys_split = keys_whole;
          keyed_back = keyed_rest;
          count = inr refl;
        },
        more,
        brings,
        refl,
      )

  no_rows_nil : (rows : List NqeRecord) → no_rows rows ≡ true → rows ≡ []
  no_rows_nil [] h = refl
  no_rows_nil (r ∷ rows) h = cc

  length_nil : (rows : List NqeRecord) → length rows ≤ 0 → rows ≡ []
  length_nil [] h = refl
  length_nil (r ∷ rows) h = absurd (omega arith)

  length_some : (rows : List NqeRecord) → no_rows rows ≡ false → 0 < length rows
  length_some [] h = cc
  length_some (r ∷ rows) h = omega arith

  whole : (l : Pass) (rest : List NqeRecord) → Half l rest → rest ≡ [] → l.rows ≡ table
  whole l rest h e = sym (h.split ∙ ap (λ r. l.rows ++ r) e ∙ append-nil l.rows)

  nothing_more : (items rest : List NqeRecord) → items ++ rest ≡ [] → rest ≡ []
  nothing_more items rest e =
      length_nil rest
        (omega (arith, length-append items rest, ap (λ (r : List NqeRecord). length r) e))

  advance_on :
      (page : Page) (l : Pass) (rest back : List NqeRecord)
      → Half l rest
      → back ≡ page.items ++ rest
      → (no_rows back ≡ false → no_rows page.items ≡ false)
      → l.total ≡ pos (length table)
      → Keeps
          (λ l'. (l' ≡ l) × (length rest < length back))
          (λ l'. (l'.rows ≡ table) × (l'.total ≡ pos (length table)))
          (λ _. ⊥)
          (advance page l)
  unfolding advance
  advance_on page l rest back h more brings total =
      elim (Bool-cases (ltb_ℤ (pos (length l.rows)) l.total)) [
        | inr p ↦ rw p (
          whole l rest h (
              length_nil rest (
                omega
                  (arith, counted, ltb_false→le (length l.rows) (length table) (rw total at p)))),
          total,
        )
        | inl p ↦ elim (Bool-cases (no_rows page.items)) [
          | inl q ↦ rw (p, q) (whole l rest h (none_left q), total)
          | inr q ↦
              rw (p, q, ltb_ge max_int32 (length l.rows) (omega (arith, counted, small, fits)))
                (
                  refl,
                  omega (
                    arith,
                    length_some page.items q,
                    length-append page.items rest,
                    ap (λ (r : List NqeRecord). length r) more,
                  ),
                )
        ]
      ]
    where
      counted : length table ≡ length l.rows + length rest
      counted = ap (λ (r : List NqeRecord). length r) h.split ∙ length-append l.rows rest

      none_left : no_rows page.items ≡ true → rest ≡ []
      none_left q = elim (Bool-cases (no_rows back)) [
        | inl b ↦ nothing_more page.items rest (sym more ∙ no_rows_nil back b)
        | inr b ↦ let c = brings b in cc
      ]

  reads_whole :
      (fuel i : ℕ) (l : Pass) (back : List NqeRecord)
      → Half l back
      → length back < fuel
      → LeftWhole (repeat (page_round sort size max key server) fuel i l)
  unfolding repeat
  reads_whole zero i l back h m = absurd (omega arith)
  reads_whole (suc fuel) i l back h m =
      let (page, rest, l', round, half, more, brings, total) = round_reads i l back h in
      rw round (
        by_step (advance page l') l' rest half (advance_on page l' rest back half more brings total)
          (reads_whole fuel (i + 1)))
    where
      by_step :
          (st : Step Pass PassEnd) (l' : Pass) (rest : List NqeRecord)
          → Half l' rest
          → Keeps
              (λ x. (x ≡ l') × (length rest < length back))
              (λ x. (x.rows ≡ table) × (x.total ≡ pos (length table)))
              (λ _. ⊥)
              st
          → ((x : Pass) (b : List NqeRecord)
              → Half x b
              → length b < fuel
              → LeftWhole (repeat (page_round sort size max key server) fuel (i + 1) x))
          → LeftWhole (continue (repeat (page_round sort size max key server) fuel (i + 1)) st)
      by_step (finish e) l' rest half k ih = k
      by_step (leave x) l' rest half k ih = k
      by_step (go x) l' rest half (same, less) ih =
          ih x rest (subst (λ y. Half y rest) (sym same) half) (omega (arith, m, less))

  -- If the server answers every request of a pass from one table of at most `max` rows, each with a
  -- key that no other row has, then the pass returns that table.
  pub run_all_once_complete :
      (first : Text) → run_all_once sort size max key server first ≡ some (complete table)
  unfolding run_all_once pass_end
  run_all_once_complete first =
      by_end (repeat (page_round sort size max key server) (max + 1) 0 (first_pass first)) (
        reads_whole (max + 1) 0 (first_pass first) table
          (record {
            split = refl;
            later = keys;
            keys_split = refl;
            keyed_back = keyed;
            count = inl refl;
          })
          (omega (arith, fits)))
    where
      by_end : (e : Ended Pass PassEnd) → LeftWhole e → pass_end e ≡ some (complete table)
      by_end out_of_fuel h = absurd h
      by_end (finished e) h = absurd h
      by_end (left l) h = rw (h.0, h.1, eq_ℤ-refl (pos (length table)), pass_end) refl
