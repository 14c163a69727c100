-- ===== src/Errors/Classify/Statuses.antt =====
-- errors.go: the kinds of errors and the statuses that they come with.
use forward_go_sdk.Prelude.{
  ℕ, ◌==◌, ◌≡◌, ◌⊎◌, inl, inr, refl, sym, arith, Bool, true, false, ◌&&◌, Option, none, some,
  Bool-cases, if◌then◌else◌, ==_iff,
}
use mathlib.Core.Path.{subst}
use forward_go_sdk.Text.{Text}
use forward_go_sdk.Errors.Types.{
  ErrorKind, unknown, collection_already_in_progress, snapshot_not_processed,
  snapshot_processing_failed, no_snapshots, feature_gated, endpoint_profile_in_use,
  permission_denied, rate_limited, unlicensed_operation, endpoint_not_served, network_not_found,
  authentication, account_locked, trusted_certificate_apply_in_progress, unknown_org_property,
  global_default_not_allowed, ApiResponse, ErrorResponse,
}
use forward_go_sdk.Errors.Facts.{Facts, facts}
use forward_go_sdk.Errors.Classify.{
  first_denial, first_sentence, settle, classify_response, denial, refused_sentence, sentence_of,
  is_rate_limited, is_refused_login, is_collecting, conflict_kind, is_processing_failed,
  reachability_kind, is_not_processed, is_not_served, is_missing_network, is_unknown_property,
  is_profile_in_use, is_applying, late_kind, snapshot_kind, early_kind, classify_error_response,
}

-- The statuses that a kind comes with; an unclassified error may have any.
abbrev pub ComesWith : ErrorKind → ℕ → Type 0
ComesWith unknown status = Unit {0}
ComesWith collection_already_in_progress status = (status ≡ 400) ⊎ (status ≡ 409)
ComesWith snapshot_not_processed status = (status ≡ 400) ⊎ ((status ≡ 409) ⊎ (status ≡ 425))
ComesWith snapshot_processing_failed status = status ≡ 400
ComesWith no_snapshots status = status ≡ 409
ComesWith feature_gated status = status ≡ 403
ComesWith endpoint_profile_in_use status = status ≡ 400
ComesWith permission_denied status = status ≡ 403
ComesWith rate_limited status = status ≡ 429
ComesWith unlicensed_operation status = status ≡ 403
ComesWith endpoint_not_served status = status ≡ 404
ComesWith network_not_found status = status ≡ 404
ComesWith authentication status = (status ≡ 401) ⊎ (status ≡ 403)
ComesWith account_locked status = status ≡ 401
ComesWith trusted_certificate_apply_in_progress status = status ≡ 409
ComesWith unknown_org_property status = status ≡ 400
ComesWith global_default_not_allowed status = status ≡ 403

-- One rule of a chain.
rule :
    (b : Bool) (kind rest : ErrorKind) (status : ℕ)
    → (b ≡ true → ComesWith kind status)
    → ComesWith rest status
    → ComesWith (if b then kind else rest) status
rule true kind rest status h k = h refl
rule false kind rest status h k = k

both_left : (a b : Bool) → (a && b) ≡ true → a ≡ true
both_left a b h = ground arith

both_right : (a b : Bool) → (a && b) ≡ true → b ≡ true
both_right a b h = ground arith

is_not_served-status : (f : Facts) (e : ErrorResponse) → is_not_served f e ≡ true → f.status ≡ 404
unfolding is_not_served
is_not_served-status f e h = ground arith

is_missing_network-status : (f : Facts) → is_missing_network f ≡ true → f.status ≡ 404
unfolding is_missing_network
is_missing_network-status f h = ground arith

is_unknown_property-status : (f : Facts) → is_unknown_property f ≡ true → f.status ≡ 400
unfolding is_unknown_property
is_unknown_property-status f h = ground arith

is_profile_in_use-status : (f : Facts) → is_profile_in_use f ≡ true → f.status ≡ 400
unfolding is_profile_in_use
is_profile_in_use-status f h = ground arith

is_applying-status : (f : Facts) → is_applying f ≡ true → f.status ≡ 409
unfolding is_applying
is_applying-status f h = ground arith

is_processing_failed-status : (f : Facts) → is_processing_failed f ≡ true → f.status ≡ 400
unfolding is_processing_failed
is_processing_failed-status f h = ground arith

is_not_processed-status :
    (f : Facts)
    → is_not_processed f ≡ true
    → (f.status ≡ 400) ⊎ ((f.status ≡ 409) ⊎ (f.status ≡ 425))
unfolding is_not_processed
is_not_processed-status f h = ground arith

is_rate_limited-status :
    (f : Facts) (e : ErrorResponse) → is_rate_limited f e ≡ true → f.status ≡ 429
unfolding is_rate_limited
is_rate_limited-status f e h = ground arith

is_refused_login-status : (f : Facts) → is_refused_login f ≡ true → f.status ≡ 403
unfolding is_refused_login
is_refused_login-status f h = ground arith

is_collecting-status : (f : Facts) → is_collecting f ≡ true → (f.status ≡ 400) ⊎ (f.status ≡ 409)
unfolding is_collecting
is_collecting-status f h = ground arith

late_kind-ComesWith : (f : Facts) (e : ErrorResponse) → ComesWith (late_kind f e) f.status
unfolding late_kind
late_kind-ComesWith f e = rule (is_not_served f e) _ _ f.status (is_not_served-status f e) (
    rule (is_missing_network f) _ _ f.status (is_missing_network-status f) (
      rule (is_unknown_property f) _ _ f.status (is_unknown_property-status f) (
        rule (is_profile_in_use f) _ _ f.status (is_profile_in_use-status f)
          (rule (is_applying f) _ _ f.status (is_applying-status f) tt))))

reachability_kind-ComesWith :
    (f : Facts) (kind : ErrorKind) → reachability_kind f ≡ some kind → ComesWith kind f.status
unfolding reachability_kind
reachability_kind-ComesWith f kind h = ground arith

snapshot_kind-ComesWith : (f : Facts) (e : ErrorResponse) → ComesWith (snapshot_kind f e) f.status
unfolding snapshot_kind
snapshot_kind-ComesWith f e =
    rule (is_processing_failed f) _ _ f.status (is_processing_failed-status f)
      (by_reachability (reachability_kind f) refl)
  where
    by_reachability :
        (o : Option ErrorKind)
        → reachability_kind f ≡ o
        → ComesWith
            (elim o [
              | some kind ↦ kind
              | none ↦ if is_not_processed f then snapshot_not_processed else late_kind f e
            ])
            f.status
    by_reachability none q =
        rule (is_not_processed f) _ _ f.status (is_not_processed-status f) (late_kind-ComesWith f e)
    by_reachability (some kind) q = reachability_kind-ComesWith f kind q

conflict_kind-ComesWith :
    (f : Facts) (e : ErrorResponse) (kind : ErrorKind)
    → conflict_kind f e ≡ some kind
    → ComesWith kind f.status
unfolding conflict_kind
conflict_kind-ComesWith f e kind h = ground arith

early_kind-ComesWith : (f : Facts) (e : ErrorResponse) → ComesWith (early_kind f e) f.status
unfolding early_kind
early_kind-ComesWith f e = rule (is_rate_limited f e) _ _ f.status (is_rate_limited-status f e) (
    rule (is_refused_login f) _ _ f.status (λ h. inr (is_refused_login-status f h))
      (rule (is_collecting f) _ _ f.status (is_collecting-status f)
        (by_conflict (conflict_kind f e) refl)))
  where
    by_conflict :
        (o : Option ErrorKind)
        → conflict_kind f e ≡ o
        → ComesWith (elim o [ some kind ↦ kind | none ↦ snapshot_kind f e ]) f.status
    by_conflict none q = snapshot_kind-ComesWith f e
    by_conflict (some kind) q = conflict_kind-ComesWith f e kind q

-- The kinds of the three sentences.
abbrev pub IsDenial : Option ErrorResponse → Type 0
IsDenial none = Unit {0}
IsDenial (some e) = (status : ℕ) → status ≡ 403 → ComesWith e.kind status

first_denial-IsDenial : (a b c : Option Text) (e : ErrorResponse) → IsDenial (first_denial a b c e)
unfolding first_denial
first_denial-IsDenial (some op) b c e = λ status h. h
first_denial-IsDenial none (some op) c e = λ status h. h
first_denial-IsDenial none none (some op) e = λ status h. h
first_denial-IsDenial none none none e = tt

first_sentence-IsDenial :
    (a : Option ErrorResponse) (b : Option Text) (c : Option (Text × Bool × Text))
    (e : ErrorResponse)
    → IsDenial a
    → IsDenial (first_sentence a b c e)
unfolding first_sentence
first_sentence-IsDenial (some denied) b c e h = h
first_sentence-IsDenial none (some p) c e h = λ status q. q
first_sentence-IsDenial none none (some gate) e h = λ status q. q
first_sentence-IsDenial none none none e h = tt

sentence_of-IsDenial : (f : Facts) (e : ErrorResponse) → IsDenial (sentence_of f e)
unfolding sentence_of refused_sentence denial
sentence_of-IsDenial f e = elim (Bool-cases (f.status == 403)) [
  | inl a ↦ rw a (first_sentence-IsDenial _ _ _ e (first_denial-IsDenial _ _ _ e))
  | inr a ↦ rw a tt
]

forbidden :
    (f : Facts) (e refused : ErrorResponse) → sentence_of f e ≡ some refused → f.status ≡ 403
unfolding sentence_of
forbidden f e refused h = elim (Bool-cases (f.status == 403)) [
  | inl a ↦ (==_iff f.status 403).0 a
  | inr a ↦ cc (rw a at h)
]

sentence_of-ComesWith :
    (f : Facts) (e refused : ErrorResponse)
    → sentence_of f e ≡ some refused
    → ComesWith refused.kind f.status
sentence_of-ComesWith f e refused h =
    (subst IsDenial h (sentence_of-IsDenial f e)) f.status (forbidden f e refused h)

settle-ComesWith :
    (f : Facts) (e : ErrorResponse) (o : Option ErrorResponse)
    → sentence_of f e ≡ o
    → ComesWith (settle o f e).kind f.status
unfolding settle
settle-ComesWith f e none h = early_kind-ComesWith f e
settle-ComesWith f e (some refused) h = sentence_of-ComesWith f e refused h

classify_response-ComesWith :
    (e : ErrorResponse) (r : ApiResponse) → ComesWith (classify_response (some r) e).kind r.status
unfolding classify_response facts
classify_response-ComesWith e r = elim (Bool-cases (r.status == 401)) [
  | inl a ↦ rw a (ground arith)
  | inr a ↦ rw a (settle-ComesWith (facts e r) e (sentence_of (facts e r) e) refl)
]

-- The kind that an error response is given is one that comes with its status: a 401 is
-- "authentication" or "account locked", a 429 of the rate limiter alone is "rate limited", only a 404
-- is "endpoint not served" or "network not found", and so on as listed.
pub classify-ComesWith :
    (e : ErrorResponse) (r : ApiResponse)
    → e.response ≡ some r
    → ComesWith (classify_error_response e).kind r.status
unfolding classify_error_response
classify-ComesWith e r q =
    subst (λ o. ComesWith (classify_response o e).kind r.status) (sym q)
      (classify_response-ComesWith e r)
