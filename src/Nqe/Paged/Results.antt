-- ===== src/Nqe/Paged/Results.antt =====
-- nqe_paged.go: `RunAll` as a whole.
use forward_go_sdk.Prelude.{
  ℕ, zero, suc, ◌+◌, ◌≤◌, ◌<◌, ◌≡◌, ◌≢◌, refl, arith, false, Option, none, some, List, [], ◌∷◌,
  Bool-cases, inl, inr, ltb, ltb_false→le,
}
use mathlib.Core.Path.{subst}
use forward_go_sdk.Prelude.Int.{max_int32, positive_or}
use forward_go_sdk.Text.{Text, is_empty, trim_space}
use forward_go_sdk.Rounds.{Reply}
use forward_go_sdk.Nqe.Paged.{
  NqeRecord, SortOrder, Page, PageRequest, PagedOptions, Problem, PassEnd, complete, problem,
  failure, offset_too_large, run_all_once, Answer, all_rows, failed, run_attempts, chosen_sort,
  run_all,
}
use forward_go_sdk.Nqe.Paged.Coherent.{
  Coherent, CoherentEnd, run_all_once-CoherentEnd, run_all_once-ends,
}

-- The pass whose rows are returned.
attempts_return :
    (run_pass : ℕ → Option PassEnd) (more a : ℕ) (last : Option Problem) (rows : List NqeRecord)
    → run_attempts run_pass more a last ≡ some (all_rows rows)
    → (b : ℕ) × (b < a + more) × (run_pass b ≡ some (complete rows))
unfolding run_attempts
attempts_return run_pass zero a last rows h = cc
attempts_return run_pass (suc more) a last rows h =
    by_pass (run_pass a) refl (attempts_return run_pass more (a + 1))
  where
    by_pass :
        (e : Option PassEnd)
        → run_pass a ≡ e
        → ((last : Option Problem) (rows : List NqeRecord)
            → run_attempts run_pass more (a + 1) last ≡ some (all_rows rows)
            → (b : ℕ) × (b < a + 1 + more) × (run_pass b ≡ some (complete rows)))
        → (b : ℕ) × (b < a + suc more) × (run_pass b ≡ some (complete rows))
    by_pass none e ih = cc (rw (e, run_attempts) at h)
    by_pass (some (failure x)) e ih = cc (rw (e, run_attempts) at h)
    by_pass (some (complete found)) e ih = (a, omega arith, cc (e, rw (e, run_attempts) at h))
    by_pass (some (problem p)) e ih =
        let (b, l, q) = ih (some p) rows (rw (e, run_attempts) at h) in (b, omega (arith, l), q)

-- What the passes rule out, the attempts do.
attempts_end :
    (run_pass : ℕ → Option PassEnd)
    → ((b : ℕ) → run_pass b ≢ none)
    → ((b : ℕ) → run_pass b ≢ some (failure offset_too_large))
    → (more a : ℕ) (last : Option Problem)
    → (answer : Answer) × (run_attempts run_pass more a last ≡ some answer)
      × (answer ≢ failed offset_too_large)
unfolding run_attempts
attempts_end run_pass ends fits zero a last = (_, refl, λ p. ground arith)
attempts_end run_pass ends fits (suc more) a last =
    by_pass (run_pass a) refl (attempts_end run_pass ends fits more (a + 1))
  where
    by_pass :
        (e : Option PassEnd)
        → run_pass a ≡ e
        → ((last : Option Problem)
            → (answer : Answer) × (run_attempts run_pass more (a + 1) last ≡ some answer)
              × (answer ≢ failed offset_too_large))
        → (answer : Answer) × (run_attempts run_pass (suc more) a last ≡ some answer)
          × (answer ≢ failed offset_too_large)
    by_pass none e ih = absurd (ends a e)
    by_pass (some (failure x)) e ih = (failed x, rw (e, run_attempts) refl, λ p. fits a (cc (e, p)))
    by_pass (some (complete found)) e ih = (all_rows found, rw (e, run_attempts) refl, λ p. cc)
    by_pass (some (problem p)) e ih = let (x, q, n) = ih (some p) in (x, rw (e, run_attempts) q, n)

pub trimmed_named : (key : Text) → is_empty (trim_space key) ≡ false → is_empty key ≡ false
unfolding is_empty trim_space
trimmed_named [] h = h
trimmed_named (c ∷ key) h = refl

module _ (server : ℕ → ℕ → PageRequest → Reply Page) (snapshot : Text)
    (query_sort : Option SortOrder) (options : PagedOptions) where
  abbrev passes : ℕ → Option PassEnd
  passes attempt =
      run_all_once (chosen_sort options.key_column query_sort) (positive_or options.page_size 1000)
        (positive_or options.max_rows 1_000_000) options.key_column (server attempt) snapshot

  module _ (small : positive_or options.max_rows 1_000_000 ≤ max_int32)
      (named : is_empty options.key_column ≡ false) where
    pass_good :
        (a : ℕ)
        → CoherentEnd
            (chosen_sort options.key_column query_sort)
            (positive_or options.page_size 1000)
            (positive_or options.max_rows 1_000_000)
            options.key_column
            (server a)
            snapshot
            small
            named
            (passes a)
    pass_good a =
        run_all_once-CoherentEnd (chosen_sort options.key_column query_sort)
          (positive_or options.page_size 1000) (positive_or options.max_rows 1_000_000)
          options.key_column (server a) snapshot small named

    pass_ends : (a : ℕ) → passes a ≢ none
    pass_ends a =
        run_all_once-ends (chosen_sort options.key_column query_sort)
          (positive_or options.page_size 1000) (positive_or options.max_rows 1_000_000)
          options.key_column (server a) snapshot small named

    pass_fits : (a : ℕ) → passes a ≢ some (failure offset_too_large)
    pass_fits a e = good _ e (pass_good a)
      where
        good :
            (x : Option PassEnd)
            → x ≡ some (failure offset_too_large)
            → CoherentEnd
                (chosen_sort options.key_column query_sort)
                (positive_or options.page_size 1000)
                (positive_or options.max_rows 1_000_000)
                options.key_column
                (server a)
                snapshot
                small
                named
                x
            → ⊥
        good none q h = cc
        good (some (complete rows)) q h = cc
        good (some (problem p)) q h = cc
        good (some (failure x)) q h = ground arith

    attempts-Coherent :
        (more : ℕ) (rows : List NqeRecord)
        → run_attempts passes more 0 none ≡ some (all_rows rows)
        → (attempt : ℕ) × (attempt < more)
          × Coherent
              (server attempt)
              (chosen_sort options.key_column query_sort)
              (positive_or options.page_size 1000)
              snapshot
              options.key_column
              rows
    attempts-Coherent more rows h =
        let (b, l, q) = attempts_return passes more 0 none rows h in
        (
          b,
          omega (arith, l),
          subst
              (CoherentEnd (chosen_sort options.key_column query_sort)
                (positive_or options.page_size 1000) (positive_or options.max_rows 1_000_000)
                options.key_column (server b) snapshot small named)
              q (pass_good b),
        )

  -- The rows that `RunAll` returns are those of one pass, and coherent: they are the rows of its pages
  -- in order, each asked for behind the rows before it and, but for the first, in one named snapshot,
  -- which is the caller's if it named one and else the first page's; every page gave the number of
  -- the rows as the total; and each row has a key, neither empty nor null, that no other row has.
  pub run_all-Coherent :
      (rows : List NqeRecord)
      → run_all server snapshot query_sort options ≡ some (all_rows rows)
      → (attempt : ℕ) × (attempt < positive_or options.attempts 3)
        × Coherent
            (server attempt)
            (chosen_sort options.key_column query_sort)
            (positive_or options.page_size 1000)
            snapshot
            options.key_column
            rows
  unfolding run_all
  run_all-Coherent rows h = elim (Bool-cases (ltb 10000 (positive_or options.page_size 1000))) [
    | inl a ↦ cc (rw a at h)
    | inr a ↦ elim (Bool-cases (ltb max_int32 (positive_or options.max_rows 1_000_000))) [
      | inl b ↦ cc (rw (a, b) at h)
      | inr b ↦ elim (Bool-cases (is_empty (trim_space options.key_column))) [
        | inl c ↦ cc (rw (a, b, c) at h)
        | inr c ↦
            attempts-Coherent (ltb_false→le max_int32 (positive_or options.max_rows 1_000_000) b)
              (trimmed_named options.key_column c) (positive_or options.attempts 3) rows
              (rw (a, b, c) at h)
      ]
    ]
  ]

  -- `RunAll` always returns, whatever the server answers, and never with the error that there are
  -- more rows than an int32 offset can address.
  pub run_all_ends :
      (answer : Answer) × (run_all server snapshot query_sort options ≡ some answer)
      × (answer ≢ failed offset_too_large)
  unfolding run_all
  run_all_ends = elim (Bool-cases (ltb 10000 (positive_or options.page_size 1000))) [
    | inl a ↦ rw a (_, refl, λ p. ground arith)
    | inr a ↦ elim (Bool-cases (ltb max_int32 (positive_or options.max_rows 1_000_000))) [
      | inl b ↦ rw (a, b) (_, refl, λ p. ground arith)
      | inr b ↦ elim (Bool-cases (is_empty (trim_space options.key_column))) [
        | inl c ↦ rw (a, b, c) (_, refl, λ p. ground arith)
        | inr c ↦
            let small = ltb_false→le max_int32 (positive_or options.max_rows 1_000_000) b in
            let named = trimmed_named options.key_column c in
            rw (a, b, c)
              (attempts_end passes (pass_ends small named) (pass_fits small named)
                (positive_or options.attempts 3) 0 none)
      ]
    ]
  ]
