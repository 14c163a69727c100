-- ===== src/Client/Url.antt =====
-- client.go: the URLs of the client, and the functions of the package net/url that it calls. A URL
-- is a record of what they read; `escaped_path` is what EscapedPath returns, and goes on the wire.
use forward_go_sdk.Prelude.{
  ℕ, ◌+◌, ◌-◌, ◌*◌, ◌==◌, Bool, true, false, ◌&&◌, ◌||◌, not, Option, none, some, List, [], ◌∷◌,
  ◌++◌, leb, if◌then◌else◌,
}
use forward_go_sdk.Text.{Text, codes, split, text_eq, is_empty, equal_fold}

pub record Url : Type 0 where
  pub scheme : Text
  pub opaque : Text
  pub user : Option Text
  pub host : Text
  pub path : Text
  pub escaped_path : Text
  pub force_query : Bool
  pub raw_query : Text
  pub fragment : Text

abbrev pub has_user : Option Text → Bool
has_user none = false
has_user (some _) = true

-- URL.IsAbs
unfoldable pub is_abs : Url → Bool
unfolding is_empty
is_abs u = not (is_empty u.scheme)

-- The value of a hexadecimal digit.
unfoldable pub hex_value : ℕ → Option ℕ
hex_value c =
    if leb b'0' c && leb c b'9'
    then some (c - b'0')
    else if leb b'a' c && leb c b'f'
    then some (c - b'a' + 10)
    else if leb b'A' c && leb c b'F'
    then some (c - b'A' + 10)
    else none

hex_pair : Option ℕ → Option ℕ → Option ℕ
hex_pair (some a) (some b) = some (a * 16 + b)
hex_pair _ _ = none

decoded : Option ℕ → Option Text → Option Text
decoded (some c) (some s) = some (c ∷ s)
decoded _ _ = none

-- url.PathUnescape, on bytes; `none` is an error.
unfoldable pub path_unescape : Text → Option Text
unfolding hex_value hex_pair decoded
path_unescape [] = some []
path_unescape (c ∷ []) = if c == b'%' then none else some (c ∷ [])
path_unescape (c ∷ a ∷ []) =
    let rest = path_unescape (a ∷ []) in if c == b'%' then none else decoded (some c) rest
path_unescape (c ∷ a ∷ b ∷ s) =
    let rest = path_unescape (a ∷ b ∷ s) in
    let behind = path_unescape s in
    if c == b'%'
    then decoded (hex_pair (hex_value a) (hex_value b)) behind
    else decoded (some c) rest

abbrev pub dot : Text
dot = codes "."

abbrev pub dot_dot : Text
dot_dot = codes ".."

-- The text before the last slash, if there is a slash.
unfoldable pub before_last_slash : Text → Option Text
before_last_slash [] = none
before_last_slash (c ∷ s) =
    let rest = before_last_slash s in
    elim rest [ some t ↦ some (c ∷ t) | none ↦ if c == b'/' then some [] else none ]

-- What follows the first byte, which the loop of `resolvePath` takes for the slash it wrote.
abbrev behind_first : Text → Text
behind_first [] = []
behind_first (_ ∷ s) = s

-- One segment of the loop of `resolvePath`: what is written, and whether a slash is missing before
-- the next segment (Go's `first`, negated).
unfoldable pub resolve_step : Text → Text × Bool → Text × Bool
unfolding text_eq before_last_slash
resolve_step elem (written, later) =
    if text_eq elem dot
    then (written, true)
    else if text_eq elem dot_dot
    then elim (before_last_slash (behind_first written)) [
      | none ↦ (codes "/", false)
      | some t ↦ (b'/' ∷ t, later)
    ]
    else (written ++ (if later then b'/' ∷ elem else elem), true)

unfoldable pub resolve_segments : List Text → Text × Bool → Text
unfolding resolve_step text_eq
resolve_segments [] (written, later) = written
resolve_segments (elem ∷ []) state =
    let (written, later) = resolve_step elem state in
    if text_eq elem dot || text_eq elem dot_dot then written ++ codes "/" else written
resolve_segments (elem ∷ next ∷ elems) state =
    resolve_segments (next ∷ elems) (resolve_step elem state)

abbrev one_slash : Text → Text
one_slash [] = []
one_slash (c ∷ []) = c ∷ []
one_slash (c ∷ d ∷ s) = if d == b'/' then d ∷ s else c ∷ d ∷ s

-- The path that `resolvePath` resolves: the reference, behind the base's last slash where it is
-- relative.
unfoldable pub full_path : Text → Text → Text
unfolding before_last_slash
full_path base [] = base
full_path base (c ∷ ref) = if c == b'/' then c ∷ ref else elim (before_last_slash base) [
  | none ↦ c ∷ ref
  | some directory ↦ directory ++ b'/' ∷ c ∷ ref
]

unfoldable pub remove_dots : Text → Text
unfolding split resolve_segments
remove_dots [] = []
remove_dots (c ∷ s) = one_slash (resolve_segments (split b'/' (c ∷ s)) (codes "/", false))

-- `resolvePath` of net/url.
unfoldable pub resolve_path : Text → Text → Text
unfolding full_path remove_dots
resolve_path base ref = remove_dots (full_path base ref)

abbrev or_else : Text → Text → Text
or_else s t = if is_empty s then t else s

-- URL.setPath: a path that is no escaped text changes nothing. Of a path that EscapedPath returned,
-- or a part of it, EscapedPath returns the same again.
unfoldable pub set_path : Text → Url → Url
unfolding path_unescape
set_path escaped u = elim (path_unescape escaped) [
  | none ↦ u
  | some t ↦ record u { path = t; escaped_path = escaped }
]

-- A relative reference with what it takes from the base, but for its path.
unfoldable pub inherit : Url → Url → Url
unfolding is_empty
inherit base ref =
    let inherits = is_empty ref.path && not ref.force_query && is_empty ref.raw_query in
    record ref {
      scheme = or_else ref.scheme base.scheme;
      host = base.host;
      user = base.user;
      raw_query = if inherits then base.raw_query else ref.raw_query;
      fragment = if inherits && is_empty ref.fragment then base.fragment else ref.fragment;
    }

-- URL.ResolveReference, where the base has no opaque part.
unfoldable pub resolve_reference : Url → Url → Url
unfolding resolve_path is_empty
resolve_reference base ref =
    let url : Url = record ref { scheme = or_else ref.scheme base.scheme } in
    if not (is_empty ref.scheme) || not (is_empty ref.host) || has_user ref.user
    then set_path (resolve_path ref.escaped_path []) url
    else if not (is_empty ref.opaque)
    then record url { user = none; host = []; path = []; escaped_path = [] }
    else set_path (resolve_path base.escaped_path ref.escaped_path) (inherit base ref)

-- `sameOrigin`, of URLs that are not nil.
unfoldable pub same_origin : Url → Url → Bool
unfolding equal_fold
same_origin candidate origin =
    equal_fold candidate.scheme origin.scheme && equal_fold candidate.host origin.host
