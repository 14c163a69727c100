-- ===== src/Routecheck/Segments.antt =====
-- cmd/routecheck/match.go: `segments` and `matches`.
pub mod Laws
use forward_go_sdk.Prelude.{
  ℕ, zero, suc, ◌==◌, Bool, true, false, ◌&&◌, ◌||◌, not, List, [], ◌∷◌, ◌++◌, if◌then◌else◌,
}
use forward_go_sdk.Text.{Text, codes, text_eq, is_empty, equal_fold, split}

-- A mapped route; its source, parameters and deprecation are not read here.
pub record Route : Type 0 where
  pub method : Text
  pub path : Text
  pub profile : Text

abbrev pub variable : Text
variable = codes "{}"

-- The loop of `segments` over the characters, with the depth of the braces.
unfoldable pub normalized : ℕ → Text → Text
normalized depth [] = []
normalized zero (c ∷ s) =
    let inside = normalized 1 s in
    let on = normalized zero s in
    if c == b'{' then variable ++ inside else if c == b'}' then on else c ∷ on
normalized (suc depth) (c ∷ s) =
    let inside = normalized (suc (suc depth)) s in
    let out = normalized depth s in
    let on = normalized (suc depth) s in if c == b'{' then inside else if c == b'}' then out else on

unfoldable pub without_empty : List Text → List Text
without_empty [] = []
without_empty (s ∷ ss) = let rest = without_empty ss in if is_empty s then rest else s ∷ rest

-- `segments`
unfoldable pub segments : Text → List Text
segments route = without_empty (split b'/' (normalized 0 route))

-- The comparison of the segments; lists of different lengths do not match.
unfoldable pub match_segments : List Text → List Text → Bool
match_segments [] [] = true
match_segments [] (_ ∷ _) = false
match_segments (_ ∷ _) [] = false
match_segments (want ∷ wants) (have ∷ haves) =
    let rest = match_segments wants haves in
    if text_eq have variable
    then rest
    else if text_eq want variable || not (text_eq want have)
    then false
    else rest

-- `matches`
unfoldable pub route_matches : Text → Text → Route → Bool
route_matches method route mapped =
    if not (text_eq mapped.method (codes "ANY")) && not (equal_fold mapped.method method)
    then false
    else match_segments (segments route) (segments mapped.path)
