-- ===== src/Capabilities.antt =====
-- capabilities.go: the capabilityRegistry of a client with what reads and changes it. A Go map is the
-- list of its entries; a nil map reads as an empty one. Each method holds the registry's mutex, so
-- the calls of goroutines come one after the other.
pub mod Laws
mod Examples
use forward_go_sdk.Prelude.{
  Bool, true, false, ◌&&◌, not, Option, none, some, List, [], ◌∷◌, if◌then◌else◌,
}
use forward_go_sdk.Text.Maps.{get, set}
use forward_go_sdk.Text.{Text, codes, text_eq, is_empty}

-- CapabilitySupport is a string with these three constants.
abbrev pub unknown : Text
unknown = codes "unknown"

abbrev pub supported : Text
supported = codes "supported"

abbrev pub unsupported : Text
unsupported = codes "unsupported"

-- The two sources of a status.
abbrev pub configured_profile : Text
configured_profile = codes "configured profile"

abbrev pub successful_response : Text
successful_response = codes "successful API response"

pub record CapabilityProfile : Type 0 where
  pub track : Text
  pub build : Text
  pub release : Text
  pub features : List (Text × Text)

pub record CapabilityStatus : Type 0 where
  pub capability : Text
  pub support : Text
  pub source : Text

pub record UnsupportedCapability : Type 0 where
  pub capability : Text
  pub track : Text
  pub build : Text

pub record CapabilityRegistry : Type 0 where
  pub profile : CapabilityProfile
  pub status : List (Text × CapabilityStatus)

-- What `recordVersion` reads of an APIVersion.
pub record ApiVersion : Type 0 where
  pub build : Text
  pub release : Text

unfoldable pub configured : Text → Text → CapabilityStatus
configured capability support = record {
  capability = capability;
  support = if is_empty support then unknown else support;
  source = configured_profile;
}

-- The loop of `newCapabilityRegistry` over the features.
unfoldable pub configure : List (Text × Text) → List (Text × CapabilityStatus)
configure [] = []
configure ((capability, support) ∷ features) =
    set capability (configured capability support) (configure features)

unfoldable pub new_capability_registry : CapabilityProfile → CapabilityRegistry
new_capability_registry profile = record { profile = profile; status = configure profile.features }

unfoldable pub or_unknown : Text → Option CapabilityStatus → CapabilityStatus
or_unknown capability (some status) = status
or_unknown capability none = record { capability = capability; support = unknown; source = [] }

-- `CapabilitiesService.Support`.
unfoldable pub support_of : CapabilityRegistry → Text → CapabilityStatus
support_of r capability = or_unknown capability (get capability r.status)

-- `Client.requireCapability`; `none` is the nil error.
unfoldable pub require_capability : CapabilityRegistry → Text → Option UnsupportedCapability
require_capability r capability =
    if not (text_eq (support_of r capability).support unsupported)
    then none
    else some (record { capability = capability; track = r.profile.track; build = r.profile.build })

-- Whether `observeCapability` leaves a status as it is.
unfoldable pub is_settled : Option CapabilityStatus → Bool
is_settled none = false
is_settled (some status) =
    text_eq status.source configured_profile && not (text_eq status.support unknown)

unfoldable pub observed : Text → CapabilityStatus
observed capability = record {
  capability = capability;
  support = supported;
  source = successful_response;
}

unfoldable pub observe_capability : Text → CapabilityRegistry → CapabilityRegistry
observe_capability capability r =
    if is_settled (get capability r.status)
    then r
    else record { profile = r.profile; status = set capability (observed capability) r.status }

unfoldable pub record_version : Option ApiVersion → CapabilityRegistry → CapabilityRegistry
record_version none r = r
record_version (some version) r = record {
  profile = record {
    track = r.profile.track;
    build = if is_empty r.profile.build then version.build else r.profile.build;
    release = if is_empty r.profile.release then version.release else r.profile.release;
    features = r.profile.features;
  };
  status = r.status;
}
