-- ===== src/Errors/Types.antt =====
-- errors.go: kinds, sentinels and error responses. A kind, a string in Go, is a constructor.
use forward_go_sdk.Prelude.{ℕ, ◌==◌, Bool, false, ◌||◌, Option, List}
use forward_go_sdk.Text.{Text}

pub data ErrorKind : Type 0 where
  unknown collection_already_in_progress snapshot_not_processed snapshot_processing_failed :
      ErrorKind
  no_snapshots feature_gated endpoint_profile_in_use permission_denied rate_limited : ErrorKind
  unlicensed_operation endpoint_not_served network_not_found authentication account_locked :
      ErrorKind
  trusted_certificate_apply_in_progress unknown_org_property global_default_not_allowed : ErrorKind

-- The errors that a caller compares with by errors.Is; `other_target` is any other one.
pub data Sentinel : Type 0 where
  err_collection_already_in_progress err_snapshot_not_processed : Sentinel
  err_snapshot_processing_failed err_no_snapshots err_feature_gated : Sentinel
  err_endpoint_profile_in_use err_permission_denied err_rate_limited : Sentinel
  err_unlicensed_operation err_endpoint_not_served err_network_not_found : Sentinel
  err_authentication err_account_locked err_trusted_certificate_apply_in_progress : Sentinel
  err_unknown_org_property err_global_default_not_allowed other_target : Sentinel

-- What errors.go reads of a *url.URL: `query` holds the parameters that Query() parses.
pub record Url : Type 0 where
  pub path : Text
  pub raw_query : Text
  pub query : List (Text × Text)

pub record SentRequest : Type 0 where
  pub method : Text
  pub url : Option Url

pub record ApiResponse : Type 0 where
  pub status : ℕ
  pub request : Option SentRequest

-- The fields that the classification reads and sets; the body as a text.
pub record ErrorResponse : Type 0 where
  pub response : Option ApiResponse
  pub kind : ErrorKind
  pub method : Text
  pub api_url : Text
  pub message : Text
  pub reason : Text
  pub code : Text
  pub latest_snapshot_id : Text
  pub body : Text
  pub operation : Text
  pub gate_property : Text
  pub gate_enabled : Bool
  pub gate_scope : Text

abbrev kind_number : ErrorKind → ℕ
kind_number unknown = 0
kind_number collection_already_in_progress = 1
kind_number snapshot_not_processed = 2
kind_number snapshot_processing_failed = 3
kind_number no_snapshots = 4
kind_number feature_gated = 5
kind_number endpoint_profile_in_use = 6
kind_number permission_denied = 7
kind_number rate_limited = 8
kind_number unlicensed_operation = 9
kind_number endpoint_not_served = 10
kind_number network_not_found = 11
kind_number authentication = 12
kind_number account_locked = 13
kind_number trusted_certificate_apply_in_progress = 14
kind_number unknown_org_property = 15
kind_number global_default_not_allowed = 16

abbrev pub same_kind : ErrorKind → ErrorKind → Bool
same_kind a b = kind_number a == kind_number b

-- `ErrorResponse.Is`
unfoldable pub is_target : ErrorResponse → Sentinel → Bool
is_target e err_collection_already_in_progress = same_kind e.kind collection_already_in_progress
is_target e err_snapshot_not_processed = same_kind e.kind snapshot_not_processed
is_target e err_snapshot_processing_failed = same_kind e.kind snapshot_processing_failed
is_target e err_no_snapshots = same_kind e.kind no_snapshots
is_target e err_feature_gated = same_kind e.kind feature_gated
is_target e err_endpoint_profile_in_use = same_kind e.kind endpoint_profile_in_use
is_target e err_permission_denied = same_kind e.kind permission_denied
is_target e err_rate_limited = same_kind e.kind rate_limited
is_target e err_unlicensed_operation = same_kind e.kind unlicensed_operation
is_target e err_endpoint_not_served = same_kind e.kind endpoint_not_served
is_target e err_network_not_found = same_kind e.kind network_not_found
is_target e err_authentication = same_kind e.kind authentication || same_kind e.kind account_locked
is_target e err_account_locked = same_kind e.kind account_locked
is_target e err_trusted_certificate_apply_in_progress =
    same_kind e.kind trusted_certificate_apply_in_progress
is_target e err_unknown_org_property = same_kind e.kind unknown_org_property
is_target e err_global_default_not_allowed = same_kind e.kind global_default_not_allowed
is_target e other_target = false
