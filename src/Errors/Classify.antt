-- ===== src/Errors/Classify.antt =====
-- errors.go: `classifyErrorResponse`, one test for each of its rules, in their order.
pub mod Statuses
pub mod NotFound
pub mod Denials
use forward_go_sdk.Prelude.{
  ℕ, ◌==◌, Bool, true, false, ◌&&◌, ◌||◌, not, Option, none, some, List, [], ◌∷◌, map,
  if◌then◌else◌,
}
use forward_go_sdk.Text.{Text, codes, text_eq, is_empty, trim_space, has_prefix, contains, to_upper}
use forward_go_sdk.Errors.Types.{
  ErrorKind, unknown, collection_already_in_progress, snapshot_not_processed,
  snapshot_processing_failed, no_snapshots, feature_gated, endpoint_profile_in_use,
  permission_denied, rate_limited, unlicensed_operation, endpoint_not_served, network_not_found,
  authentication, account_locked, trusted_certificate_apply_in_progress, unknown_org_property,
  global_default_not_allowed, Url, SentRequest, ApiResponse, ErrorResponse, is_target,
  err_endpoint_not_served,
}
use forward_go_sdk.Errors.Words.{
  normalized_error_detail, contains_words, is_no_endpoint_message, is_network_resource_path,
  without_query,
}
use forward_go_sdk.Errors.Messages.{denied_operation, feature_gate, global_default_property}
use forward_go_sdk.Errors.Facts.{
  Facts, facts, request_has_no_query, query_value, request_has_query_value,
}

unfoldable pub is_locked : ErrorResponse → Bool
unfolding has_prefix text_eq trim_space
is_locked e =
    has_prefix (trim_space e.message) (codes "User account is locked")
    || text_eq (trim_space e.message) (codes "Account is locked")
    || text_eq e.code (codes "locked")

-- The first match decides: an operation that the license lacks, or one without permission.
unfoldable pub first_denial :
    Option Text → Option Text → Option Text → ErrorResponse → Option ErrorResponse
first_denial (some op) _ _ e = some (record e { operation = op; kind = unlicensed_operation })
first_denial none (some op) _ e = some (record e { operation = op; kind = permission_denied })
first_denial none none (some op) e = some (record e { operation = op; kind = permission_denied })
first_denial none none none e = none

unfoldable pub denial : Text → ErrorResponse → Option ErrorResponse
unfolding denied_operation first_denial
denial message e =
    first_denial (denied_operation (codes "Unlicensed operation") message)
      (denied_operation (codes "Missing permission") message)
      (denied_operation (codes "No permission for network operation") message) e

-- The three sentences of a 403, given what each expression matched.
unfoldable pub first_sentence :
    Option ErrorResponse
    → Option Text
    → Option (Text × Bool × Text)
    → ErrorResponse
    → Option ErrorResponse
unfolding to_upper
first_sentence (some denied) _ _ e = some denied
first_sentence none (some p) _ e =
    some (record e { gate_property = to_upper p; kind = global_default_not_allowed })
first_sentence none none (some (property, enabled, scope)) e = some (record e {
  gate_property = property;
  gate_enabled = enabled;
  gate_scope = scope;
  kind = feature_gated;
})
first_sentence none none none e = none

unfoldable pub refused_sentence : Text → ErrorResponse → Option ErrorResponse
unfolding denial global_default_property feature_gate first_sentence
refused_sentence message e =
    first_sentence (denial message e) (global_default_property message) (feature_gate message) e

unfoldable pub sentence_of : Facts → ErrorResponse → Option ErrorResponse
unfolding refused_sentence trim_space
sentence_of f e = if f.status == 403 then refused_sentence (trim_space e.message) e else none

unfoldable pub is_rate_limited : Facts → ErrorResponse → Bool
unfolding has_prefix trim_space
is_rate_limited f e =
    f.status == 429 && has_prefix (trim_space e.message) (codes "Rate limit exceeded")

unfoldable pub is_refused_login : Facts → Bool
unfolding contains_words
is_refused_login f =
    f.status == 403
    && (contains_words f.detail (codes "auth" ∷ codes "fail" ∷ [])
        || contains_words f.detail (codes "credential" ∷ [])
        || contains_words f.detail (codes "token" ∷ []))

unfoldable pub is_collecting : Facts → Bool
unfolding contains_words contains text_eq
is_collecting f =
    text_eq f.method (codes "POST")
    && text_eq f.path (codes "/api/collector-tasks")
    && (f.status == 400 || f.status == 409)
    && (f.status == 409
        || contains_words f.detail (codes "collection" ∷ codes "already" ∷ [])
          && (contains f.detail (codes "progress")
              || contains f.detail (codes "running")
              || contains f.detail (codes "active")
              || contains f.detail (codes "underway")))

-- The reason codes of a 409.
unfoldable pub conflict_kind : Facts → ErrorResponse → Option ErrorKind
unfolding text_eq is_empty
conflict_kind f e =
    if not (f.status == 409)
    then none
    else if text_eq e.reason (codes "SNAPSHOT_UNAVAILABLE")
    then some snapshot_not_processed
    else if text_eq e.reason (codes "NO_QUALIFYING_SNAPSHOT")
    then some (if is_empty e.latest_snapshot_id then no_snapshots else snapshot_not_processed)
    else none

unfoldable pub is_processing_failed : Facts → Bool
unfolding contains
is_processing_failed f =
    f.status == 400
    && (contains f.detail (codes "snapshot you are attempting to access failed to process")
        || contains f.detail (codes "processing was canceled for snapshot")
        || contains f.detail (codes "processing timed out for snapshot"))

-- Advanced reachability that is not there.
unfoldable pub reachability_kind : Facts → Option ErrorKind
unfolding contains
reachability_kind f =
    if not (
      f.status == 400
      && contains f.detail (codes "advanced reachability")
      && contains f.detail (codes "for snapshot"))
    then none
    else if contains f.detail (codes "canceled")
        || contains f.detail (codes "timed_out")
        || contains f.detail (codes "timed out")
        || contains f.detail (codes "failed")
    then some snapshot_processing_failed
    else some snapshot_not_processed

unfoldable pub is_not_processed : Facts → Bool
unfolding contains contains_words has_prefix request_has_no_query
is_not_processed f =
    has_prefix f.path (codes "/api/snapshots/")
    && (f.status == 400 || f.status == 409 || f.status == 425)
    && (f.status == 409 && request_has_no_query f.request
        || contains_words f.detail (codes "snapshot" ∷ codes "not" ∷ codes "processed" ∷ [])
        || contains_words f.detail (codes "snapshot" ∷ codes "still" ∷ codes "processing" ∷ [])
        || contains f.detail (codes "snapshot processing")
        || contains f.detail (codes "snapshot unprocessed"))

unfoldable pub is_not_served : Facts → ErrorResponse → Bool
unfolding is_empty is_no_endpoint_message
is_not_served f e =
    f.status == 404 && is_empty e.reason && is_no_endpoint_message e.message f.method

-- A missing schedule or command group, whose message may name a network.
unfoldable pub is_missing_child : Facts → Bool
unfolding contains has_prefix
is_missing_child f =
    contains f.not_found_detail (codes "with scheduled discovery")
    || has_prefix f.not_found_detail (codes "custom command group")

unfoldable pub is_missing_network : Facts → Bool
unfolding is_missing_child contains_words is_network_resource_path
is_missing_network f =
    f.status == 404
    && not (is_missing_child f)
    && (contains_words f.not_found_detail (codes "network" ∷ codes "not" ∷ codes "found" ∷ [])
        || contains_words f.not_found_detail
            (codes "network" ∷ codes "does" ∷ codes "not" ∷ codes "exist" ∷ [])
        || is_network_resource_path f.path)

unfoldable pub is_unknown_property : Facts → Bool
unfolding contains
is_unknown_property f =
    f.status == 400
    && contains f.detail (codes "no enum constant")
    && contains f.detail (codes "orgproperty")

unfoldable pub is_profile_in_use : Facts → Bool
unfolding contains has_prefix text_eq
is_profile_in_use f =
    text_eq f.method (codes "DELETE")
    && f.status == 400
    && has_prefix f.path (codes "/api/endpoint-profiles/")
    && contains f.detail (codes "profile is still used in")

unfoldable pub is_applying : Facts → Bool
unfolding request_has_query_value text_eq
is_applying f =
    text_eq f.method (codes "POST")
    && text_eq f.path (codes "/api/trusted-certificates")
    && f.status == 409
    && request_has_query_value (codes "action") (codes "apply") f.request

-- The rules from the missing routes on.
unfoldable pub late_kind : Facts → ErrorResponse → ErrorKind
unfolding is_not_served is_missing_network is_unknown_property is_profile_in_use is_applying
late_kind f e =
    if is_not_served f e
    then endpoint_not_served
    else if is_missing_network f
    then network_not_found
    else if is_unknown_property f
    then unknown_org_property
    else if is_profile_in_use f
    then endpoint_profile_in_use
    else if is_applying f
    then trusted_certificate_apply_in_progress
    else unknown

-- The rules on snapshots, and those behind them.
unfoldable pub snapshot_kind : Facts → ErrorResponse → ErrorKind
unfolding is_processing_failed reachability_kind is_not_processed late_kind
snapshot_kind f e =
    if is_processing_failed f then snapshot_processing_failed else elim (reachability_kind f) [
      | some kind ↦ kind
      | none ↦ if is_not_processed f then snapshot_not_processed else late_kind f e
    ]

-- The rules behind the sentences of a 403.
unfoldable pub early_kind : Facts → ErrorResponse → ErrorKind
unfolding is_rate_limited is_refused_login is_collecting conflict_kind snapshot_kind
early_kind f e =
    if is_rate_limited f e
    then rate_limited
    else if is_refused_login f
    then authentication
    else if is_collecting f
    then collection_already_in_progress
    else elim (conflict_kind f e) [ some kind ↦ kind | none ↦ snapshot_kind f e ]

-- The kind of a sentence, or else of the rules behind them.
unfoldable pub settle : Option ErrorResponse → Facts → ErrorResponse → ErrorResponse
unfolding early_kind
settle (some refused) f e = refused
settle none f e = record e { kind = early_kind f e }

unfoldable pub classify_response : Option ApiResponse → ErrorResponse → ErrorResponse
unfolding is_locked facts sentence_of settle
classify_response none e = record e { kind = unknown }
classify_response (some r) e =
    let f = facts e r in
    if r.status == 401
    then record e { kind = if is_locked e then account_locked else authentication }
    else settle (sentence_of f e) f e

-- `classifyErrorResponse`, which sets the operation or the gate of a 403 too, and its caller sets
-- the kind.
unfoldable pub classify_error_response : ErrorResponse → ErrorResponse
unfolding classify_response
classify_error_response e = classify_response e.response e

abbrev has_status : ℕ → Option ApiResponse → Bool
has_status status none = false
has_status status (some r) = r.status == status

-- `isGone`, of an error that is an ErrorResponse.
unfoldable pub is_gone : ErrorResponse → Bool
unfolding is_target
is_gone e = has_status 404 e.response && not (is_target e err_endpoint_not_served)
