-- ===== src/Client/Paths/Segments.antt =====
-- A rooted path whose segments are no dot segments resolves to itself.
use mathlib.Core.List.{append_assoc, append-nil}
use forward_go_sdk.Prelude.{
  ℕ, ◌==◌, ◌≡◌, refl, true, false, List, [], ◌∷◌, ◌++◌, arith, inl, inr, Bool-cases, ◌∙◌, ap, sym,
  or_false,
}
use forward_go_sdk.Text.{split_from, split, Text, codes, text_eq}
use forward_go_sdk.Text.Laws.{eq-text_eq}
use forward_go_sdk.Client.Url.{
  dot, dot_dot, resolve_step, resolve_segments, resolve_path, remove_dots, full_path,
}
use forward_go_sdk.Client.Paths.{is_dot_segment, any_dot_segment}

-- Every segment behind a slash.
slashed : List Text → Text
slashed [] = []
slashed (e ∷ es) = b'/' ∷ (e ++ slashed es)

slashed-split_from : (seg s : Text) → slashed (split_from b'/' seg s) ≡ b'/' ∷ (seg ++ s)
unfolding slashed split_from
slashed-split_from seg [] = refl
slashed-split_from seg (c ∷ s) = elim (Bool-cases (c == b'/')) [
  | inl e ↦ rw e (ap (λ (t : Text). b'/' ∷ (seg ++ t)) (slashed-split_from [] s ∙ slash_is c s e))
  | inr e ↦ rw e (
      slashed-split_from (seg ++ c ∷ []) s
      ∙ ap (λ (t : Text). b'/' ∷ t) (append_assoc seg (c ∷ []) s))
]
  where
    slash_is : (c : ℕ) (s : Text) → (c == b'/') ≡ true → b'/' ∷ s ≡ c ∷ s
    slash_is c s e = ground arith

dot-IsDotSegment : (is_dot_segment dot ≡ true) × (is_dot_segment dot_dot ≡ true)
unfolding is_dot_segment
dot-IsDotSegment = (refl, refl)

no_dots :
    (e : Text) → is_dot_segment e ≡ false → (text_eq e dot ≡ false) × (text_eq e dot_dot ≡ false)
no_dots e h = (differs dot dot-IsDotSegment.0, differs dot_dot dot-IsDotSegment.1)
  where
    differs : (d : Text) → is_dot_segment d ≡ true → text_eq e d ≡ false
    differs d hd = elim (Bool-cases (text_eq e d)) [
      | inl t ↦
          let q : is_dot_segment e ≡ is_dot_segment d = ap is_dot_segment (eq-text_eq e d t) in cc
      | inr t ↦ t
    ]

resolve_step_plain :
    (e w : Text) → is_dot_segment e ≡ false → resolve_step e (w, true) ≡ (w ++ b'/' ∷ e, true)
unfolding resolve_step
resolve_step_plain e w h = ground (arith, no_dots e h)

pub any_dot_segment-cons :
    (e : Text) (es : List Text)
    → any_dot_segment (e ∷ es) ≡ false
    → (is_dot_segment e ≡ false) × (any_dot_segment es ≡ false)
unfolding any_dot_segment
any_dot_segment-cons e es h = or_false _ _ h

resolve_segments-slashed :
    (es : List Text) (w : Text)
    → any_dot_segment es ≡ false
    → resolve_segments es (w, true) ≡ w ++ slashed es
unfolding slashed resolve_segments
resolve_segments-slashed [] w h = sym (append-nil w)
resolve_segments-slashed (e ∷ []) w h =
    let (p, q) = any_dot_segment-cons e [] h in
    let (a, b) = no_dots e p in rw (resolve_step_plain e w p, a, b, append-nil e)
resolve_segments-slashed (e ∷ f ∷ es) w h =
    let (p, q) = any_dot_segment-cons e (f ∷ es) h in
    rw (resolve_step_plain e w p)
      (resolve_segments-slashed (f ∷ es) (w ++ b'/' ∷ e) q ∙ append_assoc w (b'/' ∷ e) _)

split_from-cons : (seg s : Text) → (e : Text) × (es : List Text) × (split_from b'/' seg s ≡ e ∷ es)
unfolding split_from
split_from-cons seg [] = (seg, [], refl)
split_from-cons seg (c ∷ s) = elim (Bool-cases (c == b'/')) [
  | inl t ↦ (seg, split_from b'/' [] s, rw t)
  | inr f ↦ rw f (split_from-cons (seg ++ c ∷ []) s)
]

-- The loop over a path that begins with a slash goes on behind it.
resolve_segments_rooted :
    (s : Text)
    → resolve_segments ([] ∷ split_from b'/' [] s) (codes "/", false)
      ≡ resolve_segments (split_from b'/' [] s) (codes "/", true)
unfolding resolve_segments resolve_step
resolve_segments_rooted s = let (e, es, p) = split_from-cons [] s in rw p

-- A rooted path with no dot segment resolves to itself.
pub resolve_path_plain :
    (base s : Text)
    → any_dot_segment (split b'/' (b'/' ∷ s)) ≡ false
    → resolve_path base (b'/' ∷ s) ≡ b'/' ∷ s
unfolding resolve_path full_path remove_dots split split_from
resolve_path_plain base s h =
    let q : resolve_segments ([] ∷ split_from b'/' [] s) (codes "/", false) ≡ b'/' ∷ b'/' ∷ s =
      resolve_segments_rooted s
      ∙ resolve_segments-slashed (split_from b'/' [] s) (codes "/") (any_dot_segment-cons [] _ h).1
      ∙ ap (λ (t : Text). b'/' ∷ t) (slashed-split_from [] s) in
    rw q
