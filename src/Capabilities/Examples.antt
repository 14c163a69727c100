-- ===== src/Capabilities/Examples.antt =====
-- The theorems on capabilities at one client: its profile knows three capabilities and no build.
use forward_go_sdk.Prelude.{◌≡◌, refl, none, some, List, [], ◌∷◌, if◌then◌else◌}
use forward_go_sdk.Text.Maps.{get, set}
use forward_go_sdk.Text.{codes, text_eq, is_empty}
use forward_go_sdk.Capabilities.{
  unknown, supported, unsupported, successful_response, CapabilityProfile, CapabilityRegistry,
  configured, configure, new_capability_registry, or_unknown, support_of, require_capability,
  is_settled, observed, observe_capability, record_version,
}
use forward_go_sdk.Capabilities.Laws.{
  Event, success, version, replay, was_observed, status_by, names_unsupported, first_text, builds,
  support_of-replay, require_capability-replay,
}

abbrev profile : CapabilityProfile
profile = record {
  track = codes "stable";
  build = [];
  release = codes "26.1";
  features =
      (codes "predict", unsupported) ∷ (codes "progress", []) ∷ (codes "checks", supported) ∷ [];
}

abbrev calls : List Event
calls =
    success (codes "progress")
    ∷ version (some (record { build = codes "b7"; release = codes "26.2" }))
    ∷ success (codes "predict")
    ∷ version (some (record { build = codes "b8"; release = [] }))
    ∷ []

abbrev registry : CapabilityRegistry
registry = replay (new_capability_registry profile) calls

predict_refused :
    require_capability registry (codes "predict")
    ≡ some (record { capability = codes "predict"; track = codes "stable"; build = codes "b7" })
unfolding require_capability text_eq support_of or_unknown get record_version observe_capability
    is_settled new_capability_registry configure set configured is_empty observed
predict_refused = refl

progress_supported :
    support_of registry (codes "progress")
    ≡ (record { capability = codes "progress"; support = supported; source = successful_response })
unfolding support_of or_unknown get record_version observe_capability is_settled
    new_capability_registry configure set text_eq configured is_empty observed
progress_supported = refl

checks_configured : support_of registry (codes "checks") ≡ configured (codes "checks") supported
unfolding configured support_of or_unknown get record_version observe_capability is_settled
    new_capability_registry configure set text_eq is_empty
checks_configured = refl

nothing_known :
    support_of registry (codes "other")
    ≡ (record { capability = codes "other"; support = unknown; source = [] })
unfolding support_of or_unknown get record_version observe_capability is_settled
    new_capability_registry configure set text_eq configured is_empty
nothing_known = refl

support_of-replay_example :
    support_of registry (codes "progress")
    ≡ or_unknown (codes "progress") (
        status_by
          (codes "progress")
          (get (codes "progress") profile.features)
          (was_observed (codes "progress") calls))
support_of-replay_example = support_of-replay profile calls (codes "progress")

require_capability-replay_example : require_capability registry (codes "predict") ≡ (
    if names_unsupported (get (codes "predict") profile.features)
    then some (record {
      capability = codes "predict";
      track = codes "stable";
      build = first_text (profile.build ∷ builds calls);
    })
    else none)
require_capability-replay_example = require_capability-replay profile calls (codes "predict")
