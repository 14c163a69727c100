-- ===== src/Errors/Classify/Denials.antt =====
-- errors.go: the operation that a 403 names, and its sentence.
use forward_go_sdk.Prelude.{◌==◌, ◌≡◌, refl, sym, arith, true, false, some, ◌++◌}
use mathlib.Core.Path.{subst}
use forward_go_sdk.Text.{Text, codes, trim_space}
use forward_go_sdk.Errors.Types.{
  ErrorKind, unlicensed_operation, permission_denied, ApiResponse, ErrorResponse,
}
use forward_go_sdk.Errors.Words.{after_prefix}
use forward_go_sdk.Errors.Messages.{is_operation, denied_operation}
use forward_go_sdk.Errors.Facts.{Facts, facts}
use forward_go_sdk.Errors.Classify.{
  first_denial, denial, first_sentence, refused_sentence, sentence_of, settle, classify_response,
  classify_error_response,
}

-- The sentences, with the kind that each stands for.
pub data IsSentence : Text → ErrorKind → Type 0 where
  permission_sentence : IsSentence (codes "Missing permission: ") permission_denied
  license_sentence : IsSentence (codes "Unlicensed operation: ") unlicensed_operation
  network_sentence : IsSentence (codes "No permission for network operation ") permission_denied

denial-named :
    (leading op : Text) (kind : ErrorKind) (e : ErrorResponse)
    → IsSentence leading kind
    → is_operation op ≡ true
    → denial (leading ++ op) e ≡ some (record e { operation = op; kind = kind })
unfolding denial denied_operation first_denial after_prefix
denial-named _ op _ e permission_sentence h = rw h refl
denial-named _ op _ e license_sentence h = rw h refl
denial-named _ op _ e network_sentence h = rw h refl

sentence_of-named :
    (leading op : Text) (kind : ErrorKind) (f : Facts) (e : ErrorResponse)
    → IsSentence leading kind
    → is_operation op ≡ true
    → trim_space e.message ≡ leading ++ op
    → f.status ≡ 403
    → sentence_of f e ≡ some (record e { operation = op; kind = kind })
unfolding sentence_of refused_sentence first_sentence
sentence_of-named leading op kind f e s h m q = rw (q, m, denial-named leading op kind e s h) refl

-- A 403 whose trimmed message is one of the three sentences on an operation is classified by that
-- sentence, as a missing permission or an operation without license, with exactly the operation
-- that the sentence names, whatever else the response says.
pub denial_names_operation :
    (leading op : Text) (kind : ErrorKind) (e : ErrorResponse) (r : ApiResponse)
    → IsSentence leading kind
    → is_operation op ≡ true
    → trim_space e.message ≡ leading ++ op
    → e.response ≡ some r
    → r.status ≡ 403
    → classify_error_response e ≡ record e { operation = op; kind = kind }
unfolding classify_error_response classify_response settle facts
denial_names_operation leading op kind e r s h m q c =
    let other : (r.status == 401) ≡ false = ground arith in
    subst (λ o. classify_response o e ≡ record e { operation = op; kind = kind }) (sym q)
      (rw (other, sentence_of-named leading op kind (facts e r) e s h m c) refl)
