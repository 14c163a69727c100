-- ===== src/Client/Paths/Laws.antt =====
-- What a resolved path and a base URL satisfy.
use mathlib.Core.Path.{subst}
use forward_go_sdk.Prelude.{
  ◌≡◌, refl, true, false, Option, some, List, [], ◌∷◌, if◌then◌else◌, arith, inl, inr, Bool-cases,
  Option-cases, sym, or_false, All, ◌≢◌,
}
use forward_go_sdk.Prelude.Results.{Result, ok, err, >>=-eq-ok, or_error-eq-ok}
use forward_go_sdk.Text.{split, Text, codes, text_eq, is_empty, trim_space}
use forward_go_sdk.Text.Laws.{text_eq-ne}
use forward_go_sdk.Client.Url.{
  Url, has_user, is_abs, path_unescape, dot, dot_dot, resolve_reference, resolve_path, set_path,
  inherit,
}
use forward_go_sdk.Client.Paths.{
  PathScope, PathError, path_required, api, backup, browser_paths, is_dot_segment, any_dot_segment,
  is_allowed, resolve_parsed, resolve_scoped,
}
use forward_go_sdk.Client.Paths.Segments.{any_dot_segment-cons, resolve_path_plain}

-- What every scope allows begins with a slash.
is_allowed_rooted :
    (scope : PathScope) (p : Text) → is_allowed scope p ≡ true → (s : Text) × (p ≡ b'/' ∷ s)
unfolding is_allowed
is_allowed_rooted api [] h = cc
is_allowed_rooted api (c ∷ s) h = (s, ground arith)
is_allowed_rooted backup [] h = cc
is_allowed_rooted backup (c ∷ s) h = (s, ground arith)
is_allowed_rooted browser_paths [] h = cc
is_allowed_rooted browser_paths (c ∷ s) h = (s, ground arith)

-- A relative reference: no scheme, host, user or opaque part.
abbrev IsRelative : Url → Type 0
IsRelative rel =
    (is_empty rel.scheme ≡ true)
    × (is_empty rel.host ≡ true)
    × (has_user rel.user ≡ false)
    × (is_empty rel.opaque ≡ true)

-- What a reference passes on to the URL that it resolves to.
abbrev pub SameTarget : Url → Url → Url → Type 0
SameTarget base rel u =
    (u.scheme ≡ base.scheme)
    × (u.host ≡ base.host)
    × (u.user ≡ base.user)
    × (u.escaped_path ≡ rel.escaped_path)
    × (u.raw_query ≡ rel.raw_query)

set_path-SameTarget :
    (base rel u : Url) (p : Text)
    → p ≡ rel.escaped_path
    → SameTarget base rel u
    → SameTarget base rel (set_path p u)
unfolding set_path
set_path-SameTarget base rel u p e h = ground arith

inherit-SameTarget :
    (base rel : Url)
    → is_empty rel.scheme ≡ true
    → is_empty rel.path ≡ false
    → SameTarget base rel (inherit base rel)
unfolding inherit
inherit-SameTarget base rel h n = ground arith

resolve_reference_plain :
    (base rel : Url)
    → IsRelative rel
    → is_empty rel.path ≡ false
    → resolve_path base.escaped_path rel.escaped_path ≡ rel.escaped_path
    → SameTarget base rel (resolve_reference base rel)
unfolding resolve_reference
resolve_reference_plain base rel h n p =
    ground (
      arith,
      set_path-SameTarget base rel (inherit base rel) _ p (inherit-SameTarget base rel h.0 n),
    )

-- The checks that a resolved path passed.
resolve_parsed-eq-ok :
    (base rel : Url) (scope : PathScope) {u : Url}
    → resolve_parsed base scope rel ≡ ok u
    → (is_empty rel.scheme ≡ true)
      × (is_empty rel.host ≡ true)
      × (has_user rel.user ≡ false)
      × (any_dot_segment (split b'/' rel.escaped_path) ≡ false)
      × (is_allowed scope rel.escaped_path ≡ true)
      × (resolve_reference base rel ≡ u)
unfolding resolve_parsed is_abs
resolve_parsed-eq-ok base rel scope h = ground arith

-- What url.Parse documents: only a URL with a scheme has an opaque part, and the escaped form of an
-- empty path is empty.
pub record IsUrlParser (parse_url : Text → Option Url) : Type 0 where
  pub opaque_with_scheme :
      (t : Text) (u : Url)
      → parse_url t ≡ some u
      → is_empty u.scheme ≡ true
      → is_empty u.opaque ≡ true
  pub empty_path :
      (t : Text) (u : Url)
      → parse_url t ≡ some u
      → is_empty u.path ≡ true
      → is_empty u.escaped_path ≡ true

-- A segment that stands for itself: it decodes, to something other than one or two dots.
abbrev pub IsPlain : Text → Type 0
IsPlain segment = (t : Text) × (path_unescape segment ≡ some t) × (t ≢ codes ".") × (t ≢ codes "..")

is_dot_segment-IsPlain : (e : Text) → is_dot_segment e ≡ false → IsPlain e
unfolding is_dot_segment
is_dot_segment-IsPlain e h = elim (Option-cases (path_unescape e)) [
  | inl p ↦ ground arith
  | inr (t, p) ↦
      let (a, b) = or_false (text_eq t dot) (text_eq t dot_dot) (ground arith) in
      (t, p, text_eq-ne t dot a, text_eq-ne t dot_dot b)
]

any_dot_segment-IsPlain : (es : List Text) → any_dot_segment es ≡ false → All IsPlain es
any_dot_segment-IsPlain [] h = tt
any_dot_segment-IsPlain (e ∷ es) h =
    let (p, q) = any_dot_segment-cons e es h in
    (is_dot_segment-IsPlain e p, any_dot_segment-IsPlain es q)

rooted_not_empty : (scope : PathScope) (p : Text) → is_allowed scope p ≡ true → is_empty p ≡ false
rooted_not_empty scope p h =
    let (s, e) = is_allowed_rooted scope p h in rw e (unfold is_empty in refl)

resolve_path_rooted :
    (base p s : Text)
    → p ≡ b'/' ∷ s
    → any_dot_segment (split b'/' p) ≡ false
    → resolve_path base p ≡ p
resolve_path_rooted base p s e h =
    let h' : any_dot_segment (split b'/' (b'/' ∷ s)) ≡ false =
      subst (λ (t : Text). any_dot_segment (split b'/' t) ≡ false) e h in
    rw e (resolve_path_plain base s h')

path_shown :
    (rel : Url) (scope : PathScope)
    → (is_empty rel.path ≡ true → is_empty rel.escaped_path ≡ true)
    → is_allowed scope rel.escaped_path ≡ true
    → is_empty rel.path ≡ false
path_shown rel scope h allowed = elim (Bool-cases (is_empty rel.path)) [
  | inl e ↦
      let a : is_empty rel.escaped_path ≡ true = h e in
      let b : is_empty rel.escaped_path ≡ false = rooted_not_empty scope rel.escaped_path allowed in
      cc
  | inr e ↦ e
]

module _ (parse_url : Text → Option Url) (lawful : IsUrlParser parse_url) where
  resolve_scoped-eq-ok :
      (base : Url) (path : Text) (scope : PathScope) {u : Url}
      → resolve_scoped parse_url base path scope ≡ ok u
      → (rel : Url) × (parse_url (trim_space path) ≡ some rel)
        × (resolve_parsed base scope rel ≡ ok u)
  unfolding resolve_scoped
  resolve_scoped-eq-ok base path scope h =
      let (rel, p, q) = >>=-eq-ok _ _ (not_empty h) in (rel, or_error-eq-ok _ _ p, q)
    where
      not_empty :
          {r : Result PathError Url} {u : Url}
          → (if is_empty (trim_space path) then err path_required else r) ≡ ok u
          → r ≡ ok u
      not_empty h = ground arith

  resolve_parsed-SameTarget :
      (base : Url) (t : Text) (rel : Url) (scope : PathScope) {u : Url}
      → parse_url t ≡ some rel
      → resolve_parsed base scope rel ≡ ok u
      → SameTarget base rel u
  resolve_parsed-SameTarget base t rel scope p h =
      let (no_scheme, no_host, no_user, plain, allowed, e) =
        resolve_parsed-eq-ok base rel scope h in
      let (s, root) = is_allowed_rooted scope rel.escaped_path allowed in
      let path_stays : resolve_path base.escaped_path rel.escaped_path ≡ rel.escaped_path =
        resolve_path_rooted base.escaped_path rel.escaped_path s root plain in
      let shown : is_empty rel.path ≡ false =
        path_shown rel scope (lawful.empty_path t rel p) allowed in
      subst (SameTarget base rel) e (
        resolve_reference_plain base rel
          (no_scheme, no_host, no_user, lawful.opaque_with_scheme t rel p no_scheme) shown
          path_stays)

  -- A request path that `resolveScoped` accepts parses to a relative reference, and stays where the
  -- caller pointed: the URL has the scheme, host and user of the base and the escaped path and query
  -- of the reference. The path is one that the scope allows, and each of its segments decodes to
  -- something other than one or two dots. This is for a parser that gives an opaque part only to
  -- URLs with a scheme, and an empty escaped path to an empty path.
  pub resolve_scoped-IsPlain :
      (base : Url) (path : Text) (scope : PathScope) {u : Url}
      → resolve_scoped parse_url base path scope ≡ ok u
      → (rel : Url) × (parse_url (trim_space path) ≡ some rel)
        × SameTarget base rel u
        × (is_allowed scope u.escaped_path ≡ true)
        × All IsPlain (split b'/' u.escaped_path)
  resolve_scoped-IsPlain base path scope {u} h =
      let (rel, p, q) = resolve_scoped-eq-ok base path scope h in
      let same : SameTarget base rel u = resolve_parsed-SameTarget base _ rel scope p q in
      let (_, _, _, plain, allowed, _) = resolve_parsed-eq-ok base rel scope q in
      let path_same : rel.escaped_path ≡ u.escaped_path = sym same.3 in
      let (allowed', plain') =
        subst (λ (t : Text). (is_allowed scope t ≡ true) × All IsPlain (split b'/' t)) path_same
          (allowed, any_dot_segment-IsPlain _ plain) in
      (rel, p, same, allowed', plain')
