-- ===== src/Capabilities/Laws.antt =====
-- capabilities.go: what a registry says after any calls of `observeCapability` and `recordVersion`.
use mathlib.Core.Path.{subst}
use mathlib.Core.Bool.{or-true, or-false, or_assoc}
use forward_go_sdk.Prelude.{
  ◌≡◌, refl, sym, ap, ◌∙◌, inl, inr, Bool, true, false, ◌&&◌, ◌||◌, Option, none, some, List, [],
  ◌∷◌, arith, if◌then◌else◌, Bool-cases,
}
use forward_go_sdk.Text.Maps.{get, get-set}
use forward_go_sdk.Text.{Text, text_eq, is_empty}
use forward_go_sdk.Text.Laws.{eq-text_eq}
use forward_go_sdk.Capabilities.{
  unknown, unsupported, CapabilityProfile, CapabilityStatus, CapabilityRegistry, ApiVersion,
  configured, configure, new_capability_registry, or_unknown, support_of, require_capability,
  is_settled, observed, observe_capability, record_version,
}

-- A call that changes a registry.
pub data Event : Type 0 where
  success : Text → Event
  version : Option ApiVersion → Event

abbrev pub apply : Event → CapabilityRegistry → CapabilityRegistry
apply (success capability) r = observe_capability capability r
apply (version v) r = record_version v r

abbrev pub replay : CapabilityRegistry → List Event → CapabilityRegistry
replay r [] = r
replay r (e ∷ es) = replay (apply e r) es

-- Whether the calls have observed a capability.
abbrev pub shows : Text → Event → Bool
shows capability (success c) = text_eq c capability
shows capability (version v) = false

abbrev pub was_observed : Text → List Event → Bool
was_observed capability [] = false
was_observed capability (e ∷ es) = shows capability e || was_observed capability es

-- The status of a capability, by what the profile says of it and whether it was observed.
abbrev pub status_by : Text → Option Text → Bool → Option CapabilityStatus
status_by c none seen = if seen then some (observed c) else none
status_by c (some s) seen =
    if seen && text_eq (configured c s).support unknown
    then some (observed c)
    else some (configured c s)

get-configure :
    (c : Text) (features : List (Text × Text))
    → get c (configure features) ≡ status_by c (get c features) false
unfolding get configure
get-configure c [] = refl
get-configure c ((k, s) ∷ features) =
    get-set k c (configured k s) (configure features) ∙ (elim (Bool-cases (text_eq k c)) [
      | inl b ↦ rw (b, eq-text_eq k c b) refl
      | inr b ↦ rw (b, get-configure c features) refl
    ])

status_by-observed :
    (c : Text) (o : Option Text) (seen : Bool)
    → (if is_settled (status_by c o seen) then status_by c o seen else some (observed c))
      ≡ status_by c o true
unfolding is_settled observed configured text_eq
status_by-observed c none false = refl
status_by-observed c none true = refl
status_by-observed c (some s) false = ground arith
status_by-observed c (some s) true = ground arith

at_equal :
    (k c : Text) (r : CapabilityRegistry) (s : Bool)
    → text_eq k c ≡ true
    → is_settled (get k r.status) ≡ s
    → is_settled (get c r.status) ≡ s
at_equal k c r s b h = ap (λ x. is_settled (get x r.status)) (sym (eq-text_eq k c b)) ∙ h

-- What a registry says of `c` after `observeCapability` of `k`.
get-observe_capability :
    (c k : Text) (r : CapabilityRegistry)
    → get c (observe_capability k r).status ≡ (
        if text_eq k c
        then if is_settled (get c r.status) then get c r.status else some (observed c)
        else get c r.status)
unfolding observe_capability
get-observe_capability c k r = elim (Bool-cases (is_settled (get k r.status))) [
  | inl s ↦ rw s (elim (Bool-cases (text_eq k c)) [
    | inl b ↦ rw (b, at_equal k c r true b s) refl
    | inr b ↦ rw b refl
  ])
  | inr s ↦ rw s (
      get-set k c (observed k) r.status ∙ (elim (Bool-cases (text_eq k c)) [
        | inl b ↦ rw (b, at_equal k c r false b s) (ap (λ x. some (observed x)) (eq-text_eq k c b))
        | inr b ↦ rw b refl
      ]))
]

observe_capability-status :
    (c k : Text) (o : Option Text) (seen : Bool) (r : CapabilityRegistry)
    → get c r.status ≡ status_by c o seen
    → get c (observe_capability k r).status ≡ status_by c o (seen || text_eq k c)
observe_capability-status c k o seen r h =
    get-observe_capability c k r ∙ (elim (Bool-cases (text_eq k c)) [
      | inl b ↦ rw (b, h, or-true seen) (status_by-observed c o seen)
      | inr b ↦ rw (b, or-false seen) h
    ])

record_version-status :
    (v : Option ApiVersion) (r : CapabilityRegistry) → (record_version v r).status ≡ r.status
unfolding record_version
record_version-status none r = refl
record_version-status (some v) r = refl

apply-status :
    (c : Text) (o : Option Text) (seen : Bool) (e : Event) (r : CapabilityRegistry)
    → get c r.status ≡ status_by c o seen
    → get c (apply e r).status ≡ status_by c o (seen || shows c e)
apply-status c o seen (success k) r h = observe_capability-status c k o seen r h
apply-status c o seen (version v) r h =
    rw (or-false seen) (ap (get c) (record_version-status v r) ∙ h)

replay-status :
    (c : Text) (o : Option Text) (seen : Bool) (es : List Event) (r : CapabilityRegistry)
    → get c r.status ≡ status_by c o seen
    → get c (replay r es).status ≡ status_by c o (seen || was_observed c es)
replay-status c o seen [] r h = rw (or-false seen) h
replay-status c o seen (e ∷ es) r h =
    replay-status c o (seen || shows c e) es (apply e r) (apply-status c o seen e r h)
    ∙ rw (or_assoc seen (shows c e) (was_observed c es)) refl

-- After any calls, a capability has the support that the profile gives it, if it gives any but
-- `unknown` or the empty text; otherwise it is supported once a call observed it, and unknown before.
pub support_of-replay :
    (profile : CapabilityProfile) (es : List Event) (c : Text)
    → support_of (replay (new_capability_registry profile) es) c
      ≡ or_unknown c (status_by c (get c profile.features) (was_observed c es))
unfolding support_of new_capability_registry
support_of-replay profile es c = ap (or_unknown c) (
    replay-status c (get c profile.features) false es (new_capability_registry profile)
      (get-configure c profile.features))

abbrev pub names_unsupported : Option Text → Bool
names_unsupported none = false
names_unsupported (some s) = text_eq s unsupported

-- The first text that is not empty.
abbrev pub first_text : List Text → Text
first_text [] = []
first_text (t ∷ ts) = if is_empty t then first_text ts else t

abbrev pub builds : List Event → List Text
builds [] = []
builds (success c ∷ es) = builds es
builds (version none ∷ es) = builds es
builds (version (some v) ∷ es) = v.build ∷ builds es

observe_capability-profile :
    (c : Text) (r : CapabilityRegistry) → (observe_capability c r).profile ≡ r.profile
unfolding observe_capability
observe_capability-profile c r = elim (Bool-cases (is_settled (get c r.status))) [
  | inl b ↦ rw b refl
  | inr b ↦ rw b refl
]

empty_text : (t : Text) → is_empty t ≡ true → t ≡ []
unfolding is_empty
empty_text [] h = refl
empty_text (c ∷ t) h = cc

replay-build :
    (es : List Event) (r : CapabilityRegistry)
    → (replay r es).profile.build ≡ first_text (r.profile.build ∷ builds es)
unfolding record_version
replay-build [] r = elim (Bool-cases (is_empty r.profile.build)) [
  | inl b ↦ rw b (empty_text r.profile.build b)
  | inr b ↦ rw b refl
]
replay-build (success c ∷ es) r =
    replay-build es (observe_capability c r)
    ∙ ap (λ p. first_text (p.build ∷ builds es)) (observe_capability-profile c r)
replay-build (version none ∷ es) r = replay-build es r
replay-build (version (some v) ∷ es) r =
    replay-build es (record_version (some v) r)
    ∙ (elim (Bool-cases (is_empty r.profile.build)) [ inl b ↦ rw b refl | inr b ↦ rw (b, b) refl ])

replay-track :
    (es : List Event) (r : CapabilityRegistry) → (replay r es).profile.track ≡ r.profile.track
unfolding record_version
replay-track [] r = refl
replay-track (success c ∷ es) r =
    replay-track es (observe_capability c r) ∙ ap (λ p. p.track) (observe_capability-profile c r)
replay-track (version none ∷ es) r = replay-track es r
replay-track (version (some v) ∷ es) r = replay-track es (record_version (some v) r)

given-support :
    (c s : Text)
    → is_empty s ≡ false
    → text_eq s unknown ≡ false
    → text_eq (or_unknown c (status_by c (some s) true)).support unsupported ≡ text_eq s unsupported
unfolding or_unknown configured
given-support c s e b = rw (e, b) refl

status_by-support :
    (c : Text) (o : Option Text) (seen : Bool)
    → text_eq (or_unknown c (status_by c o seen)).support unsupported ≡ names_unsupported o
unfolding or_unknown configured observed text_eq is_empty
status_by-support c none false = refl
status_by-support c none true = refl
status_by-support c (some []) false = refl
status_by-support c (some []) true = refl
status_by-support c (some (x ∷ s)) false = refl
status_by-support c (some (x ∷ s)) true = elim (Bool-cases (text_eq (x ∷ s) unknown)) [
  | inl b ↦
      subst
        (λ t.
          text_eq (or_unknown c (status_by c (some t) true)).support unsupported
          ≡ text_eq t unsupported)
        (sym (eq-text_eq (x ∷ s) unknown b)) refl
  | inr b ↦ given-support c (x ∷ s) refl b
]

-- After any calls, a request that needs a capability is refused exactly if the profile calls the
-- capability unsupported; the error then names the profile's track and the first build that the
-- profile or a version names.
pub require_capability-replay :
    (profile : CapabilityProfile) (es : List Event) (c : Text)
    → require_capability (replay (new_capability_registry profile) es) c ≡ (
        if names_unsupported (get c profile.features)
        then some (record {
          capability = c;
          track = profile.track;
          build = first_text (profile.build ∷ builds es);
        })
        else none)
unfolding require_capability new_capability_registry
require_capability-replay profile es c =
    rw
      (
        support_of-replay profile es c,
        status_by-support c (get c profile.features) (was_observed c es),
        replay-track es (new_capability_registry profile),
        replay-build es (new_capability_registry profile),
      )
      (elim (Bool-cases (names_unsupported (get c profile.features))) [
        | inl b ↦ rw b refl
        | inr b ↦ rw b refl
      ])
