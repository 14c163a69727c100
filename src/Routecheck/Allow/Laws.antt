-- ===== src/Routecheck/Allow/Laws.antt =====
-- What a parsed allow file holds.
use mathlib.Core.Path.{subst}
use forward_go_sdk.Prelude.{
  ℕ, suc, ◌+◌, ◌≡◌, refl, ap, Bool, true, false, Option, none, some, List, [], ◌∷◌, length, All,
  Bool-cases, inl, inr, if◌then◌else◌,
}
use forward_go_sdk.Prelude.Results.{Result, ok, err, ok_inj}
use forward_go_sdk.Text.{Text, codes, is_empty, split, cut}
use forward_go_sdk.Errors.Words.{after_prefix}
use forward_go_sdk.Routecheck.Allow.{
  AllowEntry, AllowError, fields, halves, with_reason, pinned, parse_fields, parse_line, add_entry,
  parse_lines, parse_allow, entry_of,
}

abbrev pub HasReason : AllowEntry → Type 0
HasReason a = is_empty a.reason ≡ false

abbrev filled : List Text → Bool
filled [] = false
filled (_ ∷ _) = true

-- Whether a line says something before its reason.
unfoldable pub is_filled : Text → Bool
is_filled raw = filled (fields (halves raw (cut b'#' raw)).0)

unfoldable pub count_filled : List Text → ℕ
count_filled [] = 0
count_filled (raw ∷ raws) = if is_filled raw then suc (count_filled raws) else count_filled raws

-- A line gives an entry with a reason if it is filled, and none if it is not.
abbrev Says : Bool → Result AllowError (Option AllowEntry) → Type 0
Says filled (err e) = Unit {0}
Says true (ok none) = ⊥
Says false (ok none) = Unit {0}
Says true (ok (some a)) = HasReason a
Says false (ok (some a)) = ⊥

with_reason-Says : (n : ℕ) (a : AllowEntry) → Says true (with_reason n a)
with_reason-Says n a = elim (Bool-cases (is_empty a.reason)) [ inl b ↦ rw b tt | inr b ↦ rw b b ]

pinned-Says : (n : ℕ) (a : AllowEntry) (names : Option Text) → Says true (pinned n a names)
pinned-Says n a none = tt
pinned-Says n a (some names) = with_reason-Says n (record a { pins = split b',' names })

parse_fields-Says :
    (n : ℕ) (fs : List Text) (reason : Text) → Says (filled fs) (parse_fields n fs reason)
unfolding parse_fields
parse_fields-Says n [] reason = tt
parse_fields-Says n (_ ∷ []) reason = tt
parse_fields-Says n (method ∷ route ∷ []) reason = with_reason-Says n (entry_of method route reason)
parse_fields-Says n (method ∷ route ∷ pins ∷ []) reason =
    pinned-Says n (entry_of method route reason) (after_prefix (codes "pin=") pins)
parse_fields-Says n (_ ∷ _ ∷ _ ∷ _ ∷ _) reason = tt

parse_line-Says : (n : ℕ) (raw : Text) → Says (is_filled raw) (parse_line n raw)
unfolding parse_line is_filled
parse_line-Says n raw = parse_fields-Says n _ _

-- One line before others.
add_entry-counts :
    (full : Bool) (line : Result AllowError (Option AllowEntry))
    (rest : Result AllowError (List AllowEntry)) (n : ℕ) {entries : List AllowEntry}
    → Says full line
    → ((es : List AllowEntry) → rest ≡ ok es → All HasReason es × (length es ≡ n))
    → add_entry line rest ≡ ok entries
    → All HasReason entries × (length entries ≡ (if full then suc n else n))
add_entry-counts full (err e) rest n says h p = cc
add_entry-counts true (ok none) rest n says h p = absurd says
add_entry-counts false (ok none) rest n {entries} says h p = h entries p
add_entry-counts full (ok (some a)) (err e) n says h p = cc
add_entry-counts true (ok (some a)) (ok es) n says h p =
    let (reasons, count) = h es refl in
    subst (λ (l : List AllowEntry). All HasReason l × (length l ≡ suc n)) (ok_inj p)
      ((says, reasons), ap (λ (k : ℕ). suc k) count)
add_entry-counts false (ok (some a)) (ok es) n says h p = absurd says

parse_lines-HasReason :
    (n : ℕ) (raws : List Text) (entries : List AllowEntry)
    → parse_lines n raws ≡ ok entries
    → All HasReason entries × (length entries ≡ count_filled raws)
unfolding parse_lines count_filled
parse_lines-HasReason n [] entries h =
    subst (λ (l : List AllowEntry). All HasReason l × (length l ≡ 0)) (ok_inj h) (tt, refl)
parse_lines-HasReason n (raw ∷ raws) entries h =
    add_entry-counts (is_filled raw) (parse_line n raw) (parse_lines (n + 1) raws)
      (count_filled raws) (parse_line-Says n raw) (parse_lines-HasReason (n + 1) raws) h

-- An allow file that parses has one entry for each line with something other than white space before
-- its first `#`, and each of its entries has a reason.
pub parse_allow-HasReason :
    (text : Text) (entries : List AllowEntry)
    → parse_allow text ≡ ok entries
    → All HasReason entries × (length entries ≡ count_filled (split b'\n' text))
unfolding parse_allow
parse_allow-HasReason text entries h = parse_lines-HasReason 1 (split b'\n' text) entries h
