-- ===== src/Routecheck/Examples.antt =====
-- The theorems on the route check at concrete inputs, and tests.
use forward_go_sdk.Routecheck.Allow.{parse_lines, parse_line, parse_fields, fields, fields_from}
use forward_go_sdk.Text.{cut, is_empty, is_space, trim_space, to_upper}
use forward_go_sdk.Errors.Words.{after_prefix}
use forward_go_sdk.Routecheck.Segments.{without_empty, normalized}
use forward_go_sdk.Prelude.{◌≡◌, refl, true, List, [], ◌∷◌, length}
use forward_go_sdk.Prelude.Results.{ok}
use forward_go_sdk.Text.{equal_fold, is_member, Text, codes, split, text_eq}
use forward_go_sdk.Routecheck.Segments.{match_segments, Route, segments, route_matches}
use forward_go_sdk.Routecheck.Segments.Laws.{with_variable, is_inner, depth_after}
use forward_go_sdk.Routecheck.Allow.{covers, AllowEntry, parse_allow}
use forward_go_sdk.Routecheck.Check.{
  check_endpoints, check_pins, by_hits, hits, use_entries, gate, finding, unused_entries, Endpoint,
  check,
}
use forward_go_sdk.Routecheck.Check.Laws.{
  over_endpoints, without, any_endpoint, needed, missing_for, allowed_for, conditions_for,
  check_lem,
}

abbrev entry : AllowEntry
entry = record {
  method = codes "GET";
  route = codes "/api/a";
  pins = codes "26.1" ∷ [];
  reason = codes "old";
}

abbrev allow_text : Text
allow_text = codes "# routes\nget /api/a pin=26.1  # old\n"

parse_allow-entry : parse_allow allow_text ≡ ok (entry ∷ [])
unfolding parse_allow parse_lines split parse_line parse_fields fields fields_from cut is_empty
    is_space after_prefix trim_space to_upper
parse_allow-entry = refl

abbrev role_route : Route
role_route = record { method = codes "GET"; path = codes "/api/roles/{role}"; profile = [] }

segments_role :
    segments (codes "/api//roles/{role:[a-z]{2}}/x")
    ≡ codes "api" ∷ codes "roles" ∷ codes "{}" ∷ codes "x" ∷ []
unfolding segments without_empty split normalized is_empty
segments_role = refl

front_closed : depth_after 0 (codes "/api/roles/") ≡ 0
unfolding depth_after
front_closed = refl

role_inner : is_inner 1 (codes "role") ≡ true
unfolding is_inner
role_inner = refl

pattern_inner : is_inner 1 (codes "r:[a-z]{2}") ≡ true
unfolding is_inner
pattern_inner = refl

abbrev by_name : Text
by_name = with_variable (codes "/api/roles/") (codes "role") []

abbrev by_pattern : Text
by_pattern = with_variable (codes "/api/roles/") (codes "r:[a-z]{2}") []

abbrev endpoints : List Endpoint
endpoints =
    (record { method = codes "GET"; route = codes "/api/roles/ADMIN"; symbols = [] })
    ∷ (record { method = codes "GET"; route = codes "/api/a"; symbols = [] })
    ∷ []

abbrev pins : List Text
pins = codes "26.1" ∷ codes "26.2" ∷ []

abbrev mappings : Text → List Route
mappings pin = role_route ∷ []

check_example_missing : length (check endpoints pins mappings (entry ∷ [])).missing ≡ 1
unfolding check check_endpoints check_pins by_hits hits route_matches text_eq equal_fold
    match_segments segments without_empty split normalized is_empty use_entries gate covers
    is_member finding unused_entries
check_example_missing = refl

check_lem_example : check endpoints pins mappings (entry ∷ []) ≡ record {
  missing = over_endpoints (missing_for (entry ∷ []) mappings) pins endpoints;
  allowed = over_endpoints (allowed_for (entry ∷ []) mappings) pins endpoints;
  conditions = over_endpoints (conditions_for (entry ∷ []) mappings) pins endpoints;
  unused = without (λ a. any_endpoint (needed (entry ∷ []) mappings a) pins endpoints) (entry ∷ []);
}
check_lem_example = check_lem (entry ∷ []) mappings endpoints pins
