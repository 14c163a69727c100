-- ===== src/Routecheck/Segments/Laws.antt =====
-- Names and patterns of variables do not matter.
use mathlib.Core.List.{append_assoc}
use forward_go_sdk.Prelude.{
  ℕ, zero, suc, ◌==◌, ◌≡◌, refl, ap, ◌∙◌, sym, Bool, true, false, [], ◌∷◌, ◌++◌, arith,
  if◌then◌else◌,
}
use forward_go_sdk.Text.{Text}
use forward_go_sdk.Routecheck.Segments.{Route, variable, normalized, segments, route_matches}

-- Whether a text, read at some depth of braces, keeps above depth zero and ends at depth one.
unfoldable pub is_inner : ℕ → Text → Bool
is_inner zero s = false
is_inner (suc depth) [] = depth == 0
is_inner (suc depth) (c ∷ s) =
    let deeper = is_inner (suc (suc depth)) s in
    let out = is_inner depth s in
    let on = is_inner (suc depth) s in if c == b'{' then deeper else if c == b'}' then out else on

-- The depth after a text.
unfoldable pub depth_after : ℕ → Text → ℕ
depth_after depth [] = depth
depth_after zero (c ∷ s) =
    let inside = depth_after 1 s in let on = depth_after zero s in if c == b'{' then inside else on
depth_after (suc depth) (c ∷ s) =
    let deeper = depth_after (suc (suc depth)) s in
    let out = depth_after depth s in
    let on = depth_after (suc depth) s in
    if c == b'{' then deeper else if c == b'}' then out else on

normalized-append :
    (depth : ℕ) (s t : Text)
    → normalized depth (s ++ t) ≡ normalized depth s ++ normalized (depth_after depth s) t
unfolding normalized depth_after
normalized-append zero [] t = refl
normalized-append (suc depth) [] t = refl
normalized-append zero (c ∷ s) t =
    ground (arith, normalized-append 1 s t, normalized-append zero s t)
normalized-append (suc depth) (c ∷ s) t = ground (
  arith,
  normalized-append (suc (suc depth)) s t,
  normalized-append depth s t,
  normalized-append (suc depth) s t,
)

normalized-inner :
    (depth : ℕ) (name rest : Text)
    → is_inner depth name ≡ true
    → normalized depth (name ++ b'}' ∷ rest) ≡ normalized zero rest
unfolding normalized is_inner
normalized-inner zero name rest h = cc
normalized-inner (suc zero) [] rest h = refl
normalized-inner (suc (suc depth)) [] rest h = ground arith
normalized-inner (suc depth) (c ∷ name) rest h = ground (
  arith,
  normalized-inner (suc (suc depth)) name rest,
  normalized-inner depth name rest,
  normalized-inner (suc depth) name rest,
)

normalized-open : (s : Text) → normalized 0 (b'{' ∷ s) ≡ variable ++ normalized 1 s
unfolding normalized
normalized-open s = refl

-- A route with a variable behind some text.
abbrev pub with_variable : Text → Text → Text → Text
with_variable front name rest = front ++ (b'{' ∷ (name ++ b'}' ∷ rest))

normalized-with_variable :
    (front name rest : Text)
    → depth_after 0 front ≡ 0
    → is_inner 1 name ≡ true
    → normalized 0 (with_variable front name rest)
      ≡ normalized 0 front ++ variable ++ normalized 0 rest
normalized-with_variable front name rest h k =
    normalized-append 0 front (b'{' ∷ (name ++ b'}' ∷ rest))
    ∙ ap (λ (d : ℕ). normalized 0 front ++ normalized d (b'{' ∷ (name ++ b'}' ∷ rest))) h
    ∙ ap (λ (t : Text). normalized 0 front ++ t)
        (normalized-open (name ++ b'}' ∷ rest)
          ∙ ap (λ (t : Text). variable ++ t) (normalized-inner 1 name rest k))
    ∙ sym (append_assoc (normalized 0 front) variable (normalized 0 rest))

segments-with_variable :
    (front name other rest : Text)
    → depth_after 0 front ≡ 0
    → is_inner 1 name ≡ true
    → is_inner 1 other ≡ true
    → segments (with_variable front name rest) ≡ segments (with_variable front other rest)
unfolding segments
segments-with_variable front name other rest h k l =
    rw (normalized-with_variable front name rest h k, normalized-with_variable front other rest h l)

-- Whether a mapped route serves what a manifest claims does not depend on the name and the pattern of
-- a variable, which may have braces of its own in pairs: neither in the manifest's route nor in the
-- mapped one.
pub route_matches-with_variable :
    (method route front name other rest : Text) (mapped : Route)
    → depth_after 0 front ≡ 0
    → is_inner 1 name ≡ true
    → is_inner 1 other ≡ true
    → (route_matches method (with_variable front name rest) mapped
        ≡ route_matches method (with_variable front other rest) mapped)
      × (route_matches method route (record mapped { path = with_variable front name rest })
          ≡ route_matches method route (record mapped { path = with_variable front other rest }))
unfolding route_matches
route_matches-with_variable method route front name other rest mapped h k l =
    let same = segments-with_variable front name other rest h k l in (rw same, rw same)
