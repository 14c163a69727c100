-- ===== src/Errors/Classify/NotFound.antt =====
-- errors.go: the classification of a 404, and failed deletes that count as done.
use forward_go_sdk.Prelude.{
  ◌==◌, ◌≡◌, inl, inr, refl, ap, ◌∙◌, arith, false, not, none, some, Bool-cases, if◌then◌else◌,
}
use forward_go_sdk.Errors.Types.{
  ErrorKind, unknown, endpoint_not_served, network_not_found, ApiResponse, ErrorResponse, is_target,
}
use forward_go_sdk.Errors.Facts.{Facts, facts}
use forward_go_sdk.Errors.Classify.{
  sentence_of, settle, is_rate_limited, is_refused_login, is_collecting, conflict_kind,
  is_processing_failed, reachability_kind, is_not_processed, is_not_served, is_missing_network,
  is_unknown_property, is_profile_in_use, is_applying, late_kind, snapshot_kind, early_kind,
  classify_response, classify_error_response, is_gone,
}

abbrev pub missing_kind : Facts → ErrorResponse → ErrorKind
missing_kind f e =
    if is_not_served f e
    then endpoint_not_served
    else if is_missing_network f
    then network_not_found
    else unknown

module _ (f : Facts) (e : ErrorResponse) (missing : f.status ≡ 404) where
  no_sentence : sentence_of f e ≡ none
  unfolding sentence_of
  no_sentence = rw missing refl

  no_conflict : conflict_kind f e ≡ none
  unfolding conflict_kind
  no_conflict = rw missing refl

  no_reachability : reachability_kind f ≡ none
  unfolding reachability_kind
  no_reachability = rw missing refl

  no_rate_limit : is_rate_limited f e ≡ false
  unfolding is_rate_limited
  no_rate_limit = rw missing refl

  no_login : is_refused_login f ≡ false
  unfolding is_refused_login
  no_login = rw missing refl

  no_collection : is_collecting f ≡ false
  unfolding is_collecting
  no_collection = rw missing (ground arith)

  no_failure : is_processing_failed f ≡ false
  unfolding is_processing_failed
  no_failure = rw missing refl

  processed : is_not_processed f ≡ false
  unfolding is_not_processed
  processed = rw missing (ground arith)

  known_property : is_unknown_property f ≡ false
  unfolding is_unknown_property
  known_property = rw missing refl

  no_profile : is_profile_in_use f ≡ false
  unfolding is_profile_in_use
  no_profile = rw missing (ground arith)

  no_apply : is_applying f ≡ false
  unfolding is_applying
  no_apply = rw missing (ground arith)

  late_kind-missing : late_kind f e ≡ missing_kind f e
  unfolding late_kind
  late_kind-missing = rw (known_property, no_profile, no_apply) refl

  early_kind-missing : early_kind f e ≡ missing_kind f e
  unfolding early_kind snapshot_kind
  early_kind-missing =
      rw
        (
          no_rate_limit, no_login, no_collection, no_conflict, no_failure, no_reachability,
          processed,
        )
        late_kind-missing

  settle-missing : settle (sentence_of f e) f e ≡ record e { kind = missing_kind f e }
  unfolding settle
  settle-missing = rw (no_sentence, early_kind-missing) refl

classify_response-missing :
    (e : ErrorResponse) (r : ApiResponse)
    → r.status ≡ 404
    → classify_response (some r) e ≡ record e { kind = missing_kind (facts e r) e }
unfolding classify_response facts
classify_response-missing e r h =
    let other : (r.status == 401) ≡ false = ground arith in
    rw other (settle-missing (facts e r) e h)

gone_unless_unserved :
    (f : Facts) (e : ErrorResponse) (r : ApiResponse)
    → e.response ≡ some r
    → r.status ≡ 404
    → is_gone (record e { kind = missing_kind f e }) ≡ not (is_not_served f e)
unfolding is_gone is_target is_not_served
gone_unless_unserved f e r q h = elim (Bool-cases (is_not_served f e)) [
  | inl a ↦ rw (q, h, a) refl
  | inr a ↦ elim (Bool-cases (is_missing_network f)) [
    | inl b ↦ rw (q, h, a, b) refl
    | inr b ↦ rw (q, h, a, b) refl
  ]
]

-- A 404 is classified as a route that is not served, if it has no reason code and its message is
-- the one for a missing route and the request's method; else as a missing network, if its message
-- or path says so; else not at all. It counts as "already gone" exactly when it is no route that is
-- not served.
pub classify_not_found :
    (e : ErrorResponse) (r : ApiResponse)
    → e.response ≡ some r
    → r.status ≡ 404
    → ((classify_error_response e).kind ≡ missing_kind (facts e r) e)
      × (is_gone (classify_error_response e) ≡ not (is_not_served (facts e r) e))
unfolding classify_error_response
classify_not_found e r q h =
    let classified : classify_response e.response e
        ≡ record e { kind = missing_kind (facts e r) e } =
      ap (λ o. classify_response o e) q ∙ classify_response-missing e r h in
    (
      ap (λ (x : ErrorResponse). x.kind) classified,
      ap is_gone classified ∙ gone_unless_unserved (facts e r) e r q h,
    )
