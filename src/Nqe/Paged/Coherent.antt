-- ===== src/Nqe/Paged/Coherent.antt =====
-- nqe_paged.go: what a pass of `RunAll` has read, and its ends.
use forward_go_sdk.Prelude.{
  ℕ, ◌+◌, ◌-◌, ◌≤◌, ◌<◌, ◌≡◌, ◌≢◌, ◌⊎◌, inl, inr, refl, sym, arith, true, false, Option, none, some,
  List, [], ◌++◌, length, Bool-cases,
}
use mathlib.Core.Path.{subst}
use forward_go_sdk.Prelude.Int.{ℤ, pos, ltb_ℤ, max_int32}
use forward_go_sdk.Text.{Text, is_empty}
use forward_go_sdk.Rounds.{
  Reply, answer, Step, Ended, out_of_fuel, finished, left, repeat, Keeps, Holds, repeat_inv,
  repeat_bounded, finish, leave, go,
}
use forward_go_sdk.Nqe.Paged.{
  NqeRecord, SortOrder, Page, PageRequest, PassEnd, complete, problem, failure, offset_too_large,
  Pass, scanned, scan, check_keys, is_none_yet, eq_ℤ, pin, to_int32, request, page_round,
  first_pass, pass_end, run_all_once,
}
use forward_go_sdk.Nqe.Paged.Keys.{HasKeys, Distinct, HasKeys-append, scan-scanned}
use forward_go_sdk.Nqe.Paged.Turns.{Turn, Fault, Turns, page_round-Turns, eq_ℤ-eq}

pub to_int32-small : (n : ℕ) → n ≤ max_int32 → to_int32 n ≡ pos n
unfolding to_int32
to_int32-small n h = ground arith

module _ (server : ℕ → PageRequest → Reply Page) (sort : SortOrder) (size : ℕ) (first : Text) where
  -- The rows of the first `n` pages, which all gave the same total. The first page was asked for in
  -- the snapshot `first`, the others in the snapshot that is named, which is the one of the first
  -- page if `first` is empty; and each page was asked for behind the rows that came before it.
  pub data Read (total : ℤ) : ℕ → Text → List NqeRecord → Type 0 where
    start : Read total 0 first []
    next :
        {n : ℕ} {snapshot : Text} {rows : List NqeRecord} (page : Page)
        → Read total n snapshot rows
        → server n (record {
          snapshot_id = snapshot;
          sort_by = sort;
          offset = pos (length rows);
          limit = size;
        })
          ≡ answer page
        → page.total_num_items ≡ total
        → is_empty (pin page (record { pinned = snapshot; total = total; seen = []; rows = rows }))
          ≡ false
        → Read total
            (n + 1)
            (pin page (record { pinned = snapshot; total = total; seen = []; rows = rows }))
            (rows ++ page.items)

  -- All rows of a reading: as many as the total says, and no key twice.
  pub record Coherent (key : Text) (rows : List NqeRecord) : Type 0 where
    pub pages : ℕ
    pub snapshot : Text
    pub keys : List Text
    pub named : is_empty snapshot ≡ false
    pub read : Read (pos (length rows)) pages snapshot rows
    pub keyed : HasKeys key rows keys
    pub distinct : Distinct keys

module _ (sort : SortOrder) (size max : ℕ) (key : Text) (server : ℕ → PageRequest → Reply Page)
    (first : Text) (small : max ≤ max_int32) (named : is_empty key ≡ false) where
  record Reading (i : ℕ) (l : Pass) : Type 0 where
    read :
        (total : ℤ)
        → (is_none_yet l.total ≡ true) ⊎ (l.total ≡ total)
        → Read server sort size first total i l.pinned l.rows
    keyed : HasKeys key l.rows l.seen
    distinct : Distinct l.seen
    bounded : ltb_ℤ (pos max) l.total ≡ false
    fits : length l.rows ≤ max

  abbrev Finished : Pass → Type 0
  Finished l =
      (n : ℕ) × (is_empty l.pinned ≡ false)
      × Read server sort size first l.total n l.pinned l.rows
      × HasKeys key l.rows l.seen
      × Distinct l.seen

  Turn-Read :
      (i : ℕ) (l l' : Pass)
      → Reading i l
      → Turn sort size max key server i l l'
      → Read server sort size first l'.total (i + 1) l'.pinned l'.rows
  Turn-Read i l l' r t =
      subst (λ p. Read server sort size first l'.total (i + 1) p l'.rows) (sym t.pinned)
        (subst (Read server sort size first l'.total (i + 1) (pin t.page l)) (sym t.rows) (
          next t.page (r.read l'.total t.same) asked t.total
            (subst (λ p. is_empty p ≡ false) t.pinned t.known)))
    where
      asked :
          server i (record {
            snapshot_id = l.pinned;
            sort_by = sort;
            offset = pos (length l.rows);
            limit = size;
          })
          ≡ answer t.page
      asked =
          subst
            (λ o.
              server i (record { snapshot_id = l.pinned; sort_by = sort; offset = o; limit = size })
              ≡ answer t.page)
            (to_int32-small (length l.rows) (omega (arith, small, r.fits)))
            (unfold request in t.got)

  Turn-keys :
      (i : ℕ) (l l' : Pass)
      → Reading i l
      → Turn sort size max key server i l l'
      → HasKeys key l'.rows l'.seen × Distinct l'.seen
  unfolding check_keys
  Turn-keys i l l' r t =
      let (more, split, keys, distinct) =
        scan-scanned key t.page.items l.seen l'.seen scanned_all r.distinct in
      (
        subst (λ rs. HasKeys key rs l'.seen) (sym t.rows)
            (subst (HasKeys key (l.rows ++ t.page.items)) (sym split)
              (HasKeys-append key l.rows t.page.items l.seen more r.keyed keys)),
        distinct,
      )
    where
      scanned_all : scan key t.page.items l.seen ≡ scanned l'.seen
      scanned_all = rw (named, check_keys) at t.keys

  rows_fit :
      (rows : ℕ) (total : ℤ)
      → ltb_ℤ (pos rows) total ≡ true
      → ltb_ℤ (pos max) total ≡ false
      → rows ≤ max
  rows_fit rows total s b = ground arith

  known_total : (rows : ℕ) (total : ℤ) → ltb_ℤ (pos rows) total ≡ true → is_none_yet total ≡ false
  known_total rows total s = ground arith

  -- The ends of a pass within a round.
  abbrev pub Sound : PassEnd → Type 0
  Sound (complete rows) = ⊥
  Sound (problem p) = Unit {0}
  Sound (failure offset_too_large) = ⊥
  Sound (failure _) = Unit {0}

  Fault-Sound :
      (i : ℕ) (l : Pass) (e : PassEnd)
      → Reading i l
      → Fault sort size max key server i l e
      → Sound e
  Fault-Sound i l (failure offset_too_large) r (l', t, s, large) =
      let fits = rows_fit (length l'.rows) l'.total s (t.bounded r.bounded) in
      absurd (omega (arith, small, large, fits))
  Fault-Sound i l e r f = ground arith

  round_kept :
      (i : ℕ) (l : Pass)
      → Reading i l
      → Keeps (Reading (i + 1)) Finished Sound (page_round sort size max key server i l)
  round_kept i l r =
      by_step (page_round sort size max key server i l)
        (page_round-Turns sort size max key server i l)
    where
      by_step :
          (st : Step Pass PassEnd)
          → Turns sort size max key server i l st
          → Keeps (Reading (i + 1)) Finished Sound st
      by_step (finish e) f = Fault-Sound i l e r f
      by_step (leave l') t =
          let (keys, distinct) = Turn-keys i l l' r t in
          (i + 1, t.known, Turn-Read i l l' r t, keys, distinct)
      by_step (go l') o =
          let (keys, distinct) = Turn-keys i l l' r o.turn in
          let known = known_total (length l'.rows) l'.total o.short in
          record {
            read = λ total h. elim h [
              | inl none_yet ↦ cc
              | inr e ↦
                  subst (λ t. Read server sort size first t (i + 1) l'.pinned l'.rows) e
                    (Turn-Read i l l' r o.turn)
            ];
            keyed = keys;
            distinct = distinct;
            bounded = o.turn.bounded r.bounded;
            fits = rows_fit (length l'.rows) l'.total o.short (o.turn.bounded r.bounded);
          }

  -- A pass that ends well has read coherent rows.
  abbrev pub CoherentEnd : Option PassEnd → Type 0
  CoherentEnd none = Unit {0}
  CoherentEnd (some (complete rows)) = Coherent server sort size first key rows
  CoherentEnd (some (problem p)) = Unit {0}
  CoherentEnd (some (failure e)) = Sound (failure e)

  pass_end-CoherentEnd :
      (e : Ended Pass PassEnd) → Holds Finished Sound e → CoherentEnd (pass_end e)
  unfolding pass_end
  pass_end-CoherentEnd out_of_fuel h = tt
  pass_end-CoherentEnd (finished (problem p)) h = tt
  pass_end-CoherentEnd (finished (failure e)) h = h
  pass_end-CoherentEnd (finished (complete rows)) h = absurd h
  pass_end-CoherentEnd (left l) (n, named, read, keyed, distinct) =
      elim (Bool-cases (eq_ℤ (pos (length l.rows)) l.total)) [
        | inr e ↦ rw e tt
        | inl e ↦ rw e (record {
          pages = n;
          snapshot = l.pinned;
          keys = l.seen;
          named = named;
          read =
              subst (λ t. Read server sort size first t n l.pinned l.rows)
                (sym (eq_ℤ-eq (pos (length l.rows)) l.total e)) read;
          keyed = keyed;
          distinct = distinct;
        })
      ]

  begun : Reading 0 (first_pass first)
  begun = record {
    read = λ total h. start;
    keyed = tt;
    distinct = tt;
    bounded = refl;
    fits = omega arith;
  }

  pub run_all_once-CoherentEnd : CoherentEnd (run_all_once sort size max key server first)
  unfolding run_all_once
  run_all_once-CoherentEnd = pass_end-CoherentEnd _ (
      repeat_inv (page_round sort size max key server) Reading Finished Sound round_kept (max + 1) 0
        (first_pass first) begun)

  -- Every round that goes on brings a row, and the rows stay within the limit.
  ends : repeat (page_round sort size max key server) (max + 1) 0 (first_pass first) ≢ out_of_fuel
  ends =
      repeat_bounded (page_round sort size max key server)
        (λ l. (ltb_ℤ (pos max) l.total ≡ false) × (length l.rows ≤ max)) (λ l. max - length l.rows)
        (λ i l b.
          less i l b (page_round sort size max key server i l)
            (page_round-Turns sort size max key server i l))
        (max + 1) 0 (first_pass first) (refl, omega arith) (omega arith)
    where
      less :
          (i : ℕ) (l : Pass)
          → (ltb_ℤ (pos max) l.total ≡ false) × (length l.rows ≤ max)
          → (st : Step Pass PassEnd) → Turns sort size max key server i l st
          → Keeps
              (λ l'.
                ((ltb_ℤ (pos max) l'.total ≡ false) × (length l'.rows ≤ max))
                × (max - length l'.rows < max - length l.rows))
              (λ _. Unit {0})
              (λ _. Unit {0})
              st
      less i l b (finish e) t = tt
      less i l b (leave l') t = tt
      less i l b (go l') o =
          let bounded = o.turn.bounded b.0 in
          let fits = rows_fit (length l'.rows) l'.total o.short bounded in
          ((bounded, fits), omega (arith, o.grown, fits))

  pub run_all_once-ends : run_all_once sort size max key server first ≢ none
  unfolding run_all_once pass_end
  run_all_once-ends =
      by_end (repeat (page_round sort size max key server) (max + 1) 0 (first_pass first)) ends
    where
      by_end : (e : Ended Pass PassEnd) → e ≢ out_of_fuel → pass_end e ≢ none
      by_end out_of_fuel h = absurd (h refl)
      by_end (finished e) h = λ p. cc
      by_end (left l) h = λ p. ground arith
