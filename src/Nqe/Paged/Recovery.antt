-- ===== src/Nqe/Paged/Recovery.antt =====
-- nqe_paged.go: `RunAll` on a server whose earlier passes were inconsistent.
use forward_go_sdk.Prelude.{
  ℕ, zero, suc, ◌+◌, ◌≤◌, ◌<◌, ◌≡◌, refl, arith, false, Option, none, some, List, length, ltb_ge,
}
use mathlib.Core.Path.{subst}
use forward_go_sdk.Prelude.Int.{max_int32, positive_or}
use forward_go_sdk.Text.{Text, is_empty, trim_space}
use forward_go_sdk.Rounds.{Reply}
use forward_go_sdk.Nqe.Paged.{
  NqeRecord, SortOrder, Page, PageRequest, PagedOptions, Problem, PassEnd, complete, problem,
  failure, run_all_once, all_rows, run_attempts, chosen_sort, run_all,
}
use forward_go_sdk.Nqe.Paged.Keys.{HasKeys, Distinct}
use forward_go_sdk.Nqe.Paged.Complete.{Serves, run_all_once_complete}
use forward_go_sdk.Nqe.Paged.Results.{trimmed_named}

abbrev pub IsInconsistent : Option PassEnd → Type 0
IsInconsistent (some (problem p)) = Unit {0}
IsInconsistent _ = ⊥

attempts_reach :
    (run_pass : ℕ → Option PassEnd) (rows : List NqeRecord) (k more a : ℕ) (last : Option Problem)
    → ((b : ℕ) → a ≤ b → b < a + k → IsInconsistent (run_pass b))
    → run_pass (a + k) ≡ some (complete rows)
    → k < more
    → run_attempts run_pass more a last ≡ some (all_rows rows)
unfolding run_attempts
attempts_reach run_pass rows k zero a last before last_pass m = absurd (omega arith)
attempts_reach run_pass rows zero (suc more) a last before last_pass m =
    let at_a : a + zero ≡ a = omega arith in
    rw (subst (λ b. run_pass b ≡ some (complete rows)) at_a last_pass, run_attempts) refl
attempts_reach run_pass rows (suc k) (suc more) a last before last_pass m =
    let at_k : a + suc k ≡ a + 1 + k = omega arith in
    by_pass (run_pass a) refl (before a (omega arith) (omega arith)) (λ l.
      attempts_reach run_pass rows k more (a + 1) l (λ b x y. before b (omega arith) (omega arith))
        (subst (λ b. run_pass b ≡ some (complete rows)) at_k last_pass) (omega arith))
  where
    by_pass :
        (e : Option PassEnd)
        → run_pass a ≡ e
        → IsInconsistent e
        → ((l : Option Problem) → run_attempts run_pass more (a + 1) l ≡ some (all_rows rows))
        → run_attempts run_pass (suc more) a last ≡ some (all_rows rows)
    by_pass none e h ih = absurd h
    by_pass (some (complete _)) e h ih = absurd h
    by_pass (some (failure _)) e h ih = absurd h
    by_pass (some (problem p)) e h ih = rw (e, run_attempts) (ih (some p))

-- What a table must be for the options: small enough, in a named snapshot, and keyed.
pub record IsReadable (options : PagedOptions) (snapshot : Text) (table : List NqeRecord)
    (keys : List Text) : Type 0 where
  pub page_size_allowed : positive_or options.page_size 1000 ≤ 10000
  pub max_rows_allowed : positive_or options.max_rows 1_000_000 ≤ max_int32
  pub key_named : is_empty (trim_space options.key_column) ≡ false
  pub snapshot_named : is_empty snapshot ≡ false
  pub fits : length table ≤ positive_or options.max_rows 1_000_000
  pub keyed : HasKeys options.key_column table keys
  pub distinct : Distinct keys

module _ (server : ℕ → ℕ → PageRequest → Reply Page) (first : Text) (query_sort : Option SortOrder)
    (options : PagedOptions) where
  -- If pass `k` is among the attempts, the passes before it found their pages inconsistent, and in it
  -- the server answers every request from one table that the options allow, each row with a key that
  -- no other row has, then `RunAll` returns that table.
  pub run_all_recovers :
      (snapshot : Text) (table : List NqeRecord) (keys : List Text) (k : ℕ)
      → IsReadable options snapshot table keys
      → k < positive_or options.attempts 3
      → ((b : ℕ)
          → b < k
          → IsInconsistent (
              run_all_once
                (chosen_sort options.key_column query_sort)
                (positive_or options.page_size 1000)
                (positive_or options.max_rows 1_000_000)
                options.key_column
                (server b)
                first))
      → Serves
          (server k)
          (chosen_sort options.key_column query_sort)
          (positive_or options.page_size 1000)
          snapshot
          table
      → run_all server first query_sort options ≡ some (all_rows table)
  unfolding run_all
  run_all_recovers snapshot table keys k r m before serves =
      rw
        (
          ltb_ge 10000 (positive_or options.page_size 1000) r.page_size_allowed,
          ltb_ge max_int32 (positive_or options.max_rows 1_000_000) r.max_rows_allowed,
          r.key_named,
        )
        (attempts_reach _ table k (positive_or options.attempts 3) 0 none
          (λ b x y. before b (omega arith))
          (subst
            (λ b.
              run_all_once (chosen_sort options.key_column query_sort)
                (positive_or options.page_size 1000) (positive_or options.max_rows 1_000_000)
                options.key_column (server b) first
              ≡ some (complete table))
            at_k
            (run_all_once_complete (chosen_sort options.key_column query_sort)
              (positive_or options.page_size 1000) (positive_or options.max_rows 1_000_000)
              options.key_column (server k) snapshot table keys
              (trimmed_named options.key_column r.key_named) r.snapshot_named r.max_rows_allowed
              r.fits r.keyed r.distinct serves first))
          m)
    where
      at_k : k ≡ 0 + k
      at_k = omega arith
