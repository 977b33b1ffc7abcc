-- ===== src/Problems.antt =====
-- The catalogue of problems that domain code raises (services/platform/src/shaidago/shared/problems.py).
-- Titles and details are display text; the status and the place in the catalogue are modelled.
pub mod Laws
mod Examples
use Prim.Native.String.{String}
use shaidago.Base.{ℕ, List, [], ◌∷◌, Option, none, some, leb, ◌==◌, if◌then◌else◌}

pub data Problem : Type 0 where
  bad_request invalid_cursor idempotency_key_required idempotency_key_invalid : Problem
  idempotency_conflict already_received publication_incomplete invalid_credentials : Problem
  unauthenticated forbidden csrf_invalid not_found tracking_not_recognised : Problem
  invalid_reporter_credentials report_transition_not_allowed report_version_conflict : Problem
  public_update_report_not_verified public_update_not_draft preview_stale : Problem
  method_not_allowed conflict payload_too_large unsupported_media_type : Problem
  validation_failed rate_limited internal_error dependency_unavailable : Problem
  question_answering_unavailable : Problem

-- `Problem.status`.
unfoldable pub status : Problem → ℕ
status bad_request = 400
status invalid_cursor = 400
status idempotency_key_required = 400
status idempotency_key_invalid = 400
status idempotency_conflict = 409
status already_received = 409
status publication_incomplete = 422
status invalid_credentials = 401
status unauthenticated = 401
status forbidden = 403
status csrf_invalid = 403
status not_found = 404
status tracking_not_recognised = 404
status invalid_reporter_credentials = 403
status report_transition_not_allowed = 409
status report_version_conflict = 409
status public_update_report_not_verified = 409
status public_update_not_draft = 409
status preview_stale = 409
status method_not_allowed = 405
status conflict = 409
status payload_too_large = 413
status unsupported_media_type = 415
status validation_failed = 422
status rate_limited = 429
status internal_error = 500
status dependency_unavailable = 503
status question_answering_unavailable = 503

-- The problems of `_BY_STATUS`, each under its own status.
abbrev pub by_status : List Problem
by_status =
    bad_request ∷ unauthenticated ∷ forbidden ∷ not_found ∷ method_not_allowed ∷ conflict
    ∷ payload_too_large ∷ unsupported_media_type ∷ validation_failed ∷ rate_limited ∷ internal_error
    ∷ dependency_unavailable ∷ []

-- `_BY_STATUS.get(status)`: the statuses of the list are all different.
pub known_problem : ℕ → List Problem → Option Problem
known_problem n [] = none
known_problem n (p ∷ ps) = if status p == n then some p else known_problem n ps

abbrev pub known_or_generic : ℕ → Option Problem → Problem
known_or_generic n none = if leb 500 n then internal_error else bad_request
known_or_generic n (some p) = p

pub problem_for_status : ℕ → Problem
unfolding known_problem
problem_for_status n = known_or_generic n (known_problem n by_status)

-- `FieldError`: the failing field and a stable rule code.
pub record FieldError : Type 0 where
  pub field : String
  pub code : String
