-- ===== src/Routecheck/Allow.antt =====
-- cmd/routecheck/match.go: the entries of an allow file.
pub mod Laws
use forward_go_sdk.Prelude.{
  ℕ, zero, suc, ◌+◌, ◌==◌, Bool, true, false, ◌&&◌, ◌||◌, not, Option, none, some, List, [], ◌∷◌,
  ◌++◌, if◌then◌else◌,
}
use forward_go_sdk.Prelude.Results.{Result, ok, err}
use forward_go_sdk.Text.{
  Text, codes, text_eq, is_empty, is_member, is_space, equal_fold, split, cut, trim_space, to_upper,
}
use forward_go_sdk.Errors.Words.{after_prefix}

-- `allowEntry`
pub record AllowEntry : Type 0 where
  pub method : Text
  pub route : Text
  pub pins : List Text
  pub reason : Text

abbrev no_pins : List Text → Bool
no_pins [] = true
no_pins (_ ∷ _) = false

-- `covers`; an entry without pins is for all.
unfoldable pub covers : AllowEntry → Text → Text → Text → Bool
covers a method route pin =
    if not (equal_fold a.method method) || not (text_eq a.route route)
    then false
    else no_pins a.pins || is_member pin a.pins

-- The errors of `parseAllow`, with the number of the line.
pub data AllowError : Type 0 where
  bad_fields not_pins no_reason : ℕ → AllowError

-- strings.Fields; `word` is the one that is being read.
unfoldable pub fields_from : Text → Text → List Text
fields_from word [] = if is_empty word then [] else word ∷ []
fields_from word (c ∷ s) =
    let on = fields_from (word ++ c ∷ []) s in
    let next = fields_from [] s in
    if is_space c then (if is_empty word then next else word ∷ next) else on

unfoldable pub fields : Text → List Text
fields = fields_from []

-- The text before a mark and the one behind it; all of the text if there is no mark.
abbrev halves : Text → Option (Text × Text) → Text × Text
halves raw none = (raw, [])
halves raw (some parts) = parts

abbrev with_reason : ℕ → AllowEntry → Result AllowError (Option AllowEntry)
with_reason n entry = if is_empty entry.reason then err (no_reason n) else ok (some entry)

abbrev pinned : ℕ → AllowEntry → Option Text → Result AllowError (Option AllowEntry)
pinned n entry none = err (not_pins n)
pinned n entry (some names) = with_reason n (record entry { pins = split b',' names })

abbrev entry_of : Text → Text → Text → AllowEntry
entry_of method route reason = record {
  method = to_upper method;
  route = route;
  pins = [];
  reason = trim_space reason;
}

-- What a line with these fields and this reason says.
unfoldable pub parse_fields : ℕ → List Text → Text → Result AllowError (Option AllowEntry)
parse_fields n [] reason = ok none
parse_fields n (_ ∷ []) reason = err (bad_fields n)
parse_fields n (method ∷ route ∷ []) reason = with_reason n (entry_of method route reason)
parse_fields n (method ∷ route ∷ pins ∷ []) reason =
    pinned n (entry_of method route reason) (after_prefix (codes "pin=") pins)
parse_fields n (_ ∷ _ ∷ _ ∷ _ ∷ _) reason = err (bad_fields n)

-- One line, from 1.
unfoldable pub parse_line : ℕ → Text → Result AllowError (Option AllowEntry)
parse_line n raw =
    let (line, reason) = halves raw (cut b'#' raw) in parse_fields n (fields line) reason

abbrev add_entry :
    Result AllowError (Option AllowEntry)
    → Result AllowError (List AllowEntry)
    → Result AllowError (List AllowEntry)
add_entry (err e) rest = err e
add_entry (ok none) rest = rest
add_entry (ok (some entry)) (err e) = err e
add_entry (ok (some entry)) (ok rest) = ok (entry ∷ rest)

unfoldable pub parse_lines : ℕ → List Text → Result AllowError (List AllowEntry)
parse_lines n [] = ok []
parse_lines n (raw ∷ raws) = add_entry (parse_line n raw) (parse_lines (n + 1) raws)

-- `parseAllow`
unfoldable pub parse_allow : Text → Result AllowError (List AllowEntry)
parse_allow text = parse_lines 1 (split b'\n' text)
