-- ===== src/Errors/Words.antt =====
-- errors.go: the text tests of the classification.
use forward_go_sdk.Prelude.{
  ℕ, ◌+◌, ◌==◌, Bool, true, false, ◌&&◌, ◌||◌, not, Option, none, some, List, [], ◌∷◌, ◌++◌, leb,
  if◌then◌else◌,
}
use forward_go_sdk.Text.{
  Text, codes, is_empty, trim_space, has_prefix, contains, to_upper, to_lower,
}

abbrev pub is_lower_alnum : ℕ → Bool
is_lower_alnum c = (leb b'a' c && leb c b'z') || (leb b'0' c && leb c b'9')

-- strings.Join
unfoldable pub join : Text → List Text → Text
join separator [] = []
join separator (t ∷ []) = t
join separator (t ∷ u ∷ us) = t ++ separator ++ join separator (u ∷ us)

-- The words of a text, where all but the lower-case ASCII letters and the digits separates them;
-- `word` is the one that is being read.
unfoldable pub words : Text → Text → List Text
words word [] = if is_empty word then [] else word ∷ []
words word (c ∷ s) =
    let on = words (word ++ c ∷ []) s in
    let next = words [] s in
    if is_lower_alnum c then on else if is_empty word then next else word ∷ next

-- `normalizedErrorDetail`
unfoldable pub normalized_error_detail : List Text → Text
unfolding join words to_lower
normalized_error_detail parts = join (codes " ") (words [] (to_lower (join (codes " ") parts)))

-- `containsWords`
unfoldable pub contains_words : Text → List Text → Bool
unfolding contains
contains_words detail [] = true
contains_words detail (w ∷ ws) = contains detail w && contains_words detail ws

-- strings.HasSuffix of one character
unfoldable pub ends_with : ℕ → Text → Bool
ends_with c [] = false
ends_with c (x ∷ []) = x == c
ends_with c (x ∷ y ∷ s) = ends_with c (y ∷ s)

-- `isNoEndpointMessage`, for a method in ASCII.
unfoldable pub is_no_endpoint_message : Text → Text → Bool
unfolding is_empty trim_space ends_with has_prefix to_upper
is_no_endpoint_message message method =
    let trimmed = trim_space message in
    if is_empty method || not (ends_with b'.' trimmed)
    then false
    else has_prefix (to_upper trimmed) (codes "NO ENDPOINT " ++ to_upper method ++ codes " ")

-- The text behind a prefix, if it has it.
unfoldable pub after_prefix : Text → Text → Option Text
after_prefix [] s = some s
after_prefix (p ∷ ps) [] = none
after_prefix (p ∷ ps) (c ∷ s) = if p == c then after_prefix ps s else none

unfoldable pub trim_slashes_left : Text → Text
trim_slashes_left [] = []
trim_slashes_left (c ∷ s) = if c == b'/' then trim_slashes_left s else c ∷ s

unfoldable pub trim_slashes_right : Text → Text
unfolding is_empty
trim_slashes_right [] = []
trim_slashes_right (c ∷ s) =
    let rest = trim_slashes_right s in if c == b'/' && is_empty rest then [] else c ∷ rest

-- strings.Trim(s, "/")
unfoldable pub trim_slashes : Text → Text
unfolding trim_slashes_left trim_slashes_right
trim_slashes s = trim_slashes_right (trim_slashes_left s)

unfoldable pub count_slashes : Text → ℕ
count_slashes [] = 0
count_slashes (c ∷ s) = if c == b'/' then 1 + count_slashes s else count_slashes s

abbrev networks_prefix : Text
networks_prefix = codes "/api/networks/"

-- `isNetworkResourcePath`: at most two parts behind the prefix.
unfoldable pub is_network_resource_path : Text → Bool
unfolding after_prefix trim_slashes count_slashes is_empty
is_network_resource_path path = elim (after_prefix networks_prefix path) [
  | none ↦ false
  | some rest ↦
      if is_empty (trim_slashes rest) then false else leb (count_slashes (trim_slashes rest) + 1) 2
]

-- The path in front of a question mark.
unfoldable pub without_query : Text → Text
without_query [] = []
without_query (c ∷ s) = let rest = without_query s in if c == b'?' then [] else c ∷ rest
