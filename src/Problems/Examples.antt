-- ===== src/Problems/Examples.antt =====
-- Statuses mapped to the catalogue.
use shaidago.Base.{◌≡◌, refl}
use shaidago.Problems.{status, problem_for_status, bad_request, rate_limited}

teapot : problem_for_status 418 ≡ bad_request
unfolding problem_for_status status
teapot = refl

too_many : problem_for_status 429 ≡ rate_limited
unfolding problem_for_status status
too_many = refl
