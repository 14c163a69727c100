-- ===== src/Errors/Facts.antt =====
-- errors.go: the local variables of `classifyErrorResponse`, and the tests on a request's query.
use forward_go_sdk.Prelude.{ℕ, Bool, false, Option, none, some, List, [], ◌∷◌, if◌then◌else◌}
use forward_go_sdk.Text.{Text, text_eq, is_empty}
use forward_go_sdk.Errors.Types.{Url, SentRequest, ApiResponse, ErrorResponse}
use forward_go_sdk.Errors.Words.{normalized_error_detail, without_query}

abbrev url_path : Option Url → Text
url_path none = []
url_path (some u) = u.path

abbrev request_path : Option SentRequest → Text
request_path none = []
request_path (some q) = url_path q.url

abbrev request_method : Option SentRequest → Text
request_method none = []
request_method (some q) = q.method

-- The local variables of the rules.
pub record Facts : Type 0 where
  pub status : ℕ
  pub path : Text
  pub method : Text
  pub detail : Text
  pub not_found_detail : Text
  pub request : Option SentRequest

unfoldable pub facts : ErrorResponse → ApiResponse → Facts
unfolding is_empty without_query normalized_error_detail
facts e r =
    let detail = normalized_error_detail (e.code ∷ e.reason ∷ e.message ∷ e.body ∷ []) in
    record {
      status = r.status;
      path = without_query (if is_empty e.api_url then request_path r.request else e.api_url);
      method = if is_empty e.method then request_method r.request else e.method;
      detail = detail;
      not_found_detail =
          if is_empty e.message
          then detail
          else normalized_error_detail (e.code ∷ e.reason ∷ e.message ∷ []);
      request = r.request;
    }

abbrev url_has_no_query : Option Url → Bool
url_has_no_query none = false
url_has_no_query (some u) = is_empty u.raw_query

-- `requestHasNoQuery`
unfoldable pub request_has_no_query : Option SentRequest → Bool
unfolding is_empty
request_has_no_query none = false
request_has_no_query (some q) = url_has_no_query q.url

-- url.Values.Get
unfoldable pub query_value : Text → List (Text × Text) → Text
unfolding text_eq
query_value key [] = []
query_value key ((k, v) ∷ kvs) = if text_eq k key then v else query_value key kvs

abbrev url_has_value : Text → Text → Option Url → Bool
url_has_value key value none = false
url_has_value key value (some u) = text_eq (query_value key u.query) value

-- `requestHasQueryValue`
unfoldable pub request_has_query_value : Text → Text → Option SentRequest → Bool
unfolding query_value text_eq
request_has_query_value key value none = false
request_has_query_value key value (some q) = url_has_value key value q.url
