-- ===== src/Routecheck/Check/Laws.antt =====
-- What a report holds, against a description that has no running state.
use mathlib.Core.List.{append-nil, append_assoc}
use forward_go_sdk.Prelude.{
  ◌≡◌, refl, ap, ◌∙◌, Bool, true, false, ◌&&◌, ◌||◌, not, List, [], ◌∷◌, ◌++◌, map, if◌then◌else◌,
  arith, Bool-cases, inl, inr,
}
use forward_go_sdk.Text.{Text, is_empty}
use forward_go_sdk.Routecheck.Segments.{Route}
use forward_go_sdk.Routecheck.Allow.{AllowEntry, covers}
use forward_go_sdk.Routecheck.Check.{
  Endpoint, Finding, Report, Marked, State, hits, finding, use_entries, gate, by_hits, check_pins,
  check_endpoints, unused_entries, check,
}

-- Whether some entry of the allow list covers an endpoint at a pin, and the reason of the last one.
unfoldable pub covered : List AllowEntry → Endpoint → Text → Bool
covered [] e pin = false
covered (a ∷ rest) e pin = covers a e.method e.route pin || covered rest e pin

unfoldable pub reason_for : List AllowEntry → Endpoint → Text → Text → Text
reason_for [] e pin reason = reason
reason_for (a ∷ rest) e pin reason =
    reason_for rest e pin (if covers a e.method e.route pin then a.reason else reason)

-- Whether a deployment profile gates every one of some routes, and the profile of the last.
unfoldable pub all_gated : List Route → Bool
all_gated [] = true
all_gated (r ∷ rs) = not (is_empty r.profile) && all_gated rs

unfoldable pub last_profile : List Route → Text → Text
last_profile [] profile = profile
last_profile (r ∷ rs) profile = last_profile rs r.profile

-- The findings about one endpoint at one pin, by the routes that can serve it.
module _ (allow : List AllowEntry) where
  unfoldable pub missing_at : Endpoint → Text → List Route → List Finding
  missing_at e pin [] = if covered allow e pin then [] else finding e pin [] ∷ []
  missing_at e pin (_ ∷ _) = []

  unfoldable pub allowed_at : Endpoint → Text → List Route → List Finding
  allowed_at e pin [] =
      if covered allow e pin then finding e pin (reason_for allow e pin []) ∷ [] else []
  allowed_at e pin (_ ∷ _) = []

  unfoldable pub conditions_at : Endpoint → Text → List Route → List Finding
  conditions_at e pin [] = []
  conditions_at e pin (r ∷ rs) =
      if all_gated (r ∷ rs) then finding e pin (last_profile (r ∷ rs) []) ∷ [] else []

-- Whether an entry excuses an endpoint at a pin: no route serves it, and the entry covers it.
abbrev pub excuses : AllowEntry → Endpoint → Text → List Route → Bool
excuses a e pin [] = covers a e.method e.route pin
excuses a e pin (_ ∷ _) = false

or_assoc : (a b c : Bool) → ((a || b) || c) ≡ (a || (b || c))
or_assoc true b c = refl
or_assoc false b c = refl

use_entries_lem :
    (e : Endpoint) (pin : Text) (u : AllowEntry → Bool) (allow : List AllowEntry) (done : Bool)
    (reason : Text)
    → use_entries e pin (map (λ a. (a, u a)) allow) done reason ≡ (
      map (λ a. (a, u a || covers a e.method e.route pin)) allow,
      done || covered allow e pin,
      reason_for allow e pin reason,
    )
unfolding use_entries covered reason_for
use_entries_lem e pin u [] done reason = ground arith
use_entries_lem e pin u (a ∷ rest) done reason =
    let c = covers a e.method e.route pin in
    rw (
      use_entries_lem e pin u rest (done || c) (if c then a.reason else reason),
      or_assoc done c (covered rest e pin),
    )

reason_for-not-covered :
    (allow : List AllowEntry) (e : Endpoint) (pin reason : Text)
    → covered allow e pin ≡ false
    → reason_for allow e pin reason ≡ reason
unfolding covered reason_for
reason_for-not-covered [] e pin reason h = refl
reason_for-not-covered (a ∷ rest) e pin reason h =
    ground (arith, reason_for-not-covered rest e pin reason)

gate_lem : (rs : List Route) (profile : Text) → (gate rs profile).0 ≡ all_gated rs
unfolding gate all_gated
gate_lem [] profile = refl
gate_lem (r ∷ rs) profile = ground (arith, gate_lem rs r.profile)

gate-profile :
    (rs : List Route) (profile : Text)
    → all_gated rs ≡ true
    → gate rs profile ≡ (true, last_profile rs profile)
unfolding gate all_gated last_profile
gate-profile [] profile h = refl
gate-profile (r ∷ rs) profile h = ground (arith, gate-profile rs r.profile)

gate-open :
    (rs : List Route) (profile : Text)
    → all_gated rs ≡ false
    → (p : Text) × (gate rs profile ≡ (false, p))
gate-open rs profile h = ((gate rs profile).1, ground (arith, gate_lem rs profile, h))

or_nothing : (b : Bool) → (b || false) ≡ b
or_nothing true = refl
or_nothing false = refl

-- A report with more findings.
abbrev extended : Report → List Finding → List Finding → List Finding → Report
extended report ms excused cs = record report {
  missing = report.missing ++ ms;
  allowed = report.allowed ++ excused;
  conditions = report.conditions ++ cs;
}

extended-nil : (report : Report) → extended report [] [] [] ≡ report
extended-nil report = simp append-nil

module _ (allow : List AllowEntry) where
  abbrev marks : (AllowEntry → Bool) → List Marked
  marks u = map (λ a. (a, u a)) allow

  -- The state after an endpoint at a pin.
  abbrev stepped : Report → (AllowEntry → Bool) → Endpoint → Text → List Route → State
  stepped report u e pin rs = (
    extended report (missing_at allow e pin rs) (allowed_at allow e pin rs)
        (conditions_at allow e pin rs),
    marks (λ a. u a || excuses a e pin rs),
  )

  by_hits_lem :
      (report : Report) (u : AllowEntry → Bool) (e : Endpoint) (pin : Text) (rs : List Route)
      → by_hits (report, marks u) e pin rs ≡ stepped report u e pin rs
  unfolding by_hits missing_at allowed_at conditions_at
  by_hits_lem report u e pin [] = elim (Bool-cases (covered allow e pin)) [
    | inl c ↦ rw (use_entries_lem e pin u allow false [], c) (simp append-nil)
    | inr c ↦
        rw (use_entries_lem e pin u allow false [], c, reason_for-not-covered allow e pin [] c)
          (simp append-nil)
  ]
  by_hits_lem report u e pin (r ∷ rs) = elim (Bool-cases (all_gated (r ∷ rs))) [
    | inl g ↦ rw (gate-profile (r ∷ rs) [] g, g) (simp (append-nil, or_nothing))
    | inr g ↦
        let (p, open_gate) = gate-open (r ∷ rs) [] g in
        rw (open_gate, g) (simp (append-nil, or_nothing))
  ]

-- All that a function lists over the endpoints and the pins.
unfoldable pub over_pins : (Text → List Finding) → List Text → List Finding
over_pins f [] = []
over_pins f (pin ∷ pins) = f pin ++ over_pins f pins

unfoldable pub over_endpoints :
    (Endpoint → Text → List Finding) → List Text → List Endpoint → List Finding
over_endpoints f pins [] = []
over_endpoints f pins (e ∷ es) = over_pins (f e) pins ++ over_endpoints f pins es

unfoldable pub any_pin : (Text → Bool) → List Text → Bool
any_pin p [] = false
any_pin p (pin ∷ pins) = p pin || any_pin p pins

unfoldable pub any_endpoint : (Endpoint → Text → Bool) → List Text → List Endpoint → Bool
any_endpoint p pins [] = false
any_endpoint p pins (e ∷ es) = any_pin (p e) pins || any_endpoint p pins es

unfoldable pub without : (AllowEntry → Bool) → List AllowEntry → List AllowEntry
without p [] = []
without p (a ∷ rest) = let kept = without p rest in if p a then kept else a ∷ kept

unused_entries_lem :
    (u : AllowEntry → Bool) (allow : List AllowEntry)
    → unused_entries (map (λ a. (a, u a)) allow) ≡ without u allow
unfolding unused_entries without
unused_entries_lem u [] = refl
unused_entries_lem u (a ∷ rest) = rw (unused_entries_lem u rest)

module _ (allow : List AllowEntry) (mappings : Text → List Route) where
  abbrev pub served : Endpoint → Text → List Route
  served e pin = hits e (mappings pin)

  abbrev pub missing_for : Endpoint → Text → List Finding
  missing_for e pin = missing_at allow e pin (served e pin)

  abbrev pub allowed_for : Endpoint → Text → List Finding
  allowed_for e pin = allowed_at allow e pin (served e pin)

  abbrev pub conditions_for : Endpoint → Text → List Finding
  conditions_for e pin = conditions_at allow e pin (served e pin)

  abbrev pub needed : AllowEntry → Endpoint → Text → Bool
  needed a e pin = excuses a e pin (served e pin)

  check_pins_lem :
      (report : Report) (u : AllowEntry → Bool) (e : Endpoint) (pins : List Text)
      → check_pins mappings (report, marks allow u) e pins ≡ (
        extended report
            (over_pins (missing_for e) pins)
            (over_pins (allowed_for e) pins)
            (over_pins (conditions_for e) pins),
        marks allow (λ a. u a || any_pin (needed a e) pins),
      )
  unfolding check_pins over_pins any_pin
  check_pins_lem report u e [] = simp (append-nil, or_nothing)
  check_pins_lem report u e (pin ∷ pins) =
      let after = extended report (missing_for e pin) (allowed_for e pin) (conditions_for e pin) in
      ap (λ (state : State). check_pins mappings state e pins)
        (by_hits_lem allow report u e pin (served e pin))
      ∙ check_pins_lem after (λ a. u a || needed a e pin) e pins
      ∙ simp (append_assoc, or_assoc)

  check_endpoints_lem :
      (report : Report) (u : AllowEntry → Bool) (pins : List Text) (es : List Endpoint)
      → check_endpoints mappings (report, marks allow u) pins es ≡ (
        extended report
            (over_endpoints missing_for pins es)
            (over_endpoints allowed_for pins es)
            (over_endpoints conditions_for pins es),
        marks allow (λ a. u a || any_endpoint (needed a) pins es),
      )
  unfolding check_endpoints over_endpoints any_endpoint
  check_endpoints_lem report u pins [] = simp (append-nil, or_nothing)
  check_endpoints_lem report u pins (e ∷ es) =
      let after =
        extended report (over_pins (missing_for e) pins) (over_pins (allowed_for e) pins)
          (over_pins (conditions_for e) pins) in
      ap (λ (state : State). check_endpoints mappings state pins es)
        (check_pins_lem report u e pins)
      ∙ check_endpoints_lem after (λ a. u a || any_pin (needed a e) pins) pins es
      ∙ simp (append_assoc, or_assoc)

  -- A report lists, in the order of the endpoints and for each in the order of the pins: as missing,
  -- each endpoint and pin that no route serves and no entry of the allow list covers; as allowed, each
  -- that no route serves and an entry covers, with the reason of the last such entry; as conditions,
  -- each that routes serve, of which a profile gates every one, with the profile of the last. As unused
  -- it lists the entries, in their order, that cover no endpoint at a pin where no route serves it.
  pub check_lem :
      (endpoints : List Endpoint) (pins : List Text)
      → check endpoints pins mappings allow ≡ record {
        missing = over_endpoints missing_for pins endpoints;
        allowed = over_endpoints allowed_for pins endpoints;
        conditions = over_endpoints conditions_for pins endpoints;
        unused = without (λ a. any_endpoint (needed a) pins endpoints) allow;
      }
  unfolding check
  check_lem endpoints pins =
      rw
        (check_endpoints_lem (record { missing = []; allowed = []; conditions = []; unused = [] })
          (λ a. false) pins endpoints)
        (ap
          (λ (l : List AllowEntry). record {
            missing = over_endpoints missing_for pins endpoints;
            allowed = over_endpoints allowed_for pins endpoints;
            conditions = over_endpoints conditions_for pins endpoints;
            unused = l;
          })
          (unused_entries_lem _ allow))
