-- ===== src/Nqe/Examples.antt =====
-- The theorems on `RunAll` at a concrete server, and tests.
use forward_go_sdk.Prelude.{
  ℕ, zero, suc, ◌+◌, ◌<◌, ◌≡◌, ◌≢◌, refl, ap, ◌∙◌, sym, arith, false, none, some, List, [], ◌∷◌,
  ◌++◌, length, ◌==◌, if◌then◌else◌,
}
use mathlib.Core.Path.{subst}
use forward_go_sdk.Prelude.Int.{ℤ, pos, negsuc}
use forward_go_sdk.Text.{Text, codes, is_empty, trim_space, text_eq, is_member}
use forward_go_sdk.Text.Laws.{text_eq-ne}
use forward_go_sdk.Rounds.{Reply, answer, repeat}
use forward_go_sdk.Nqe.Paged.{
  NqeRecord, SortOrder, Page, PageRequest, PagedOptions, run_all_once, Answer, all_rows, failed,
  offset_too_large, run_all, column, no_rows,
}
use forward_go_sdk.Nqe.Paged.Coherent.{Coherent}
use forward_go_sdk.Nqe.Paged.Complete.{Serves}
use forward_go_sdk.Nqe.Paged.Recovery.{IsReadable, IsInconsistent, run_all_recovers}
use forward_go_sdk.Nqe.Paged.Results.{run_all-Coherent, run_all_ends}

abbrev device : Text → NqeRecord
device name = (codes "name", name) ∷ []

abbrev devices : List NqeRecord
devices = device (codes "a") ∷ device (codes "b") ∷ device (codes "c") ∷ []

abbrev options : PagedOptions
options = record {
  page_size = pos 2;
  key_column = codes "name";
  max_rows = pos 10;
  attempts = pos 2;
}

abbrev behind : ℕ → List NqeRecord → List NqeRecord
behind zero rows = rows
behind (suc n) [] = []
behind (suc n) (r ∷ rows) = behind n rows

abbrev one_row : List NqeRecord → List NqeRecord
one_row [] = []
one_row (r ∷ rows) = r ∷ []

abbrev offset_of : ℤ → ℕ
offset_of (pos n) = n
offset_of (negsuc n) = 0

-- One row for each request.
abbrev slow_page : PageRequest → Page
slow_page r = record {
  snapshot_id = codes "s";
  total_num_items = pos 3;
  items = one_row (behind (offset_of r.offset) devices);
}

-- The first pass answers with a total that changes.
abbrev server : ℕ → ℕ → PageRequest → Reply Page
server pass i r =
    if pass == 0
    then answer (record (slow_page r) { total_num_items = pos (4 + i) })
    else answer (slow_page r)

run_devices : run_all server [] none options ≡ some (all_rows devices)
unfolding run_all repeat is_empty text_eq is_member trim_space
run_devices = refl

run_all-Coherent_example :
    (attempt : ℕ) × (attempt < 2)
    × Coherent
        (server attempt)
        (record { column_name = codes "name"; order = codes "ASC" })
        2
        []
        (codes "name")
        devices
run_all-Coherent_example = run_all-Coherent server [] none options devices run_devices

run_all_ends_example :
    (result : Answer) × (run_all server [] none options ≡ some result)
    × (result ≢ failed offset_too_large)
run_all_ends_example = run_all_ends server [] none options

behind-append : (front back : List NqeRecord) → behind (length front) (front ++ back) ≡ back
behind-append [] back = refl
behind-append (r ∷ front) back = behind-append front back

one_row-split :
    (rows : List NqeRecord)
    → (rest : List NqeRecord) × (rows ≡ one_row rows ++ rest)
      × (no_rows rows ≡ false → no_rows (one_row rows) ≡ false)
one_row-split [] = ([], refl, λ h. h)
one_row-split (r ∷ rows) = (rows, refl, λ h. h)

abbrev by_name : SortOrder
by_name = record { column_name = codes "name"; order = codes "ASC" }

second-Serves : Serves (server 1) by_name 2 (codes "s") devices
second-Serves i asked front back split =
    let w = behind (length front) devices in
    let (rest, more, brings) = one_row-split w in
    let here : w ≡ back =
      ap (λ rows. behind (length front) rows) split ∙ behind-append front back in
    (
      slow_page (record {
        snapshot_id = asked;
        sort_by = by_name;
        offset = pos (length front);
        limit = 2;
      }),
      refl,
      refl,
      refl,
      rest,
      sym here ∙ more,
      λ h. brings (subst (λ b. no_rows b ≡ false) (sym here) h),
    )

first-IsInconsistent :
    (b : ℕ) → b < 1 → IsInconsistent (run_all_once by_name 2 10 (codes "name") (server b) [])
unfolding run_all_once repeat is_empty text_eq is_member
first-IsInconsistent b l =
    subst (λ a. IsInconsistent (run_all_once by_name 2 10 (codes "name") (server a) [])) zero_b
      first
  where
    zero_b : 0 ≡ b
    zero_b = omega arith

    first : IsInconsistent (run_all_once by_name 2 10 (codes "name") (server 0) [])
    first = tt

devices-IsReadable : IsReadable options (codes "s") devices (codes "a" ∷ codes "b" ∷ codes "c" ∷ [])
unfolding column is_empty trim_space text_eq
devices-IsReadable = record {
  page_size_allowed = omega arith;
  max_rows_allowed = omega arith;
  key_named = refl;
  snapshot_named = refl;
  fits = omega arith;
  keyed = (refl, refl, refl, (refl, refl, refl, (refl, refl, refl, tt)));
  distinct = (
    (text_eq-ne (codes "a") (codes "b") refl, (text_eq-ne (codes "a") (codes "c") refl, tt)),
    ((text_eq-ne (codes "b") (codes "c") refl, tt), (tt, tt)),
  );
}

run_all_recovers_example : run_all server [] none options ≡ some (all_rows devices)
run_all_recovers_example =
    run_all_recovers server [] none options (codes "s") devices
      (codes "a" ∷ codes "b" ∷ codes "c" ∷ []) 1 devices-IsReadable (omega arith)
      first-IsInconsistent second-Serves
