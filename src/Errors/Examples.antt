-- ===== src/Errors/Examples.antt =====
-- The theorems on the classification at concrete responses, and tests.
use forward_go_sdk.Prelude.{◌≡◌, refl, true, false, not, none, some, []}
use forward_go_sdk.Text.{codes, trim_space}
use forward_go_sdk.Errors.Types.{
  network_not_found, endpoint_not_served, permission_denied, ApiResponse, ErrorResponse,
}
use forward_go_sdk.Errors.Messages.{is_operation, feature_gate}
use forward_go_sdk.Errors.Facts.{facts}
use forward_go_sdk.Errors.Classify.{classify_error_response, is_gone, is_not_served}
use forward_go_sdk.Errors.Classify.Statuses.{ComesWith, classify-ComesWith}
use forward_go_sdk.Errors.Classify.NotFound.{missing_kind, classify_not_found}
use forward_go_sdk.Errors.Classify.Denials.{permission_sentence, denial_names_operation}
use forward_go_sdk.Errors.Response.{fresh}

abbrev get_network : ApiResponse
get_network = record {
  status = 404;
  request = some (record {
    method = codes "GET";
    url = some (record { path = codes "/api/networks/9/x"; raw_query = []; query = [] });
  });
}

abbrev not_here : ErrorResponse
not_here = record (fresh get_network []) { message = codes "No endpoint GET /api/networks/9/x." }

abbrev no_network : ErrorResponse
no_network = record (fresh get_network []) { message = codes "Network 9 was not found" }

abbrev refusal : ApiResponse
refusal = record { status = 403; request = none }

abbrev refused : ErrorResponse
refused = record (fresh refusal []) {
  message = codes "Missing permission: OrgOperation.MANAGE_USER_ACCOUNTS";
}

not_here_unserved : (classify_error_response not_here).kind ≡ endpoint_not_served
unfolding classify_error_response
not_here_unserved = refl

no_network_missing : (classify_error_response no_network).kind ≡ network_not_found
unfolding classify_error_response
no_network_missing = refl

gate_off :
    feature_gate (codes "PATH_DIFFS is off for your organization")
    ≡ some (codes "PATH_DIFFS", false, codes "organization")
unfolding feature_gate
gate_off = refl

classify-ComesWith_example : ComesWith (classify_error_response not_here).kind 404
classify-ComesWith_example = classify-ComesWith not_here get_network refl

classify_not_found_example :
    ((classify_error_response not_here).kind ≡ missing_kind (facts not_here get_network) not_here)
    × (is_gone (classify_error_response not_here)
        ≡ not (is_not_served (facts not_here get_network) not_here))
classify_not_found_example = classify_not_found not_here get_network refl refl

named_operation : is_operation (codes "OrgOperation.MANAGE_USER_ACCOUNTS") ≡ true
unfolding is_operation
named_operation = refl

refused_message :
    trim_space refused.message ≡ codes "Missing permission: OrgOperation.MANAGE_USER_ACCOUNTS"
unfolding trim_space
refused_message = refl

denial_names_operation_example : classify_error_response refused ≡ record refused {
  operation = codes "OrgOperation.MANAGE_USER_ACCOUNTS";
  kind = permission_denied;
}
denial_names_operation_example =
    denial_names_operation (codes "Missing permission: ")
      (codes "OrgOperation.MANAGE_USER_ACCOUNTS") permission_denied refused refusal
      permission_sentence named_operation refused_message refl refl
