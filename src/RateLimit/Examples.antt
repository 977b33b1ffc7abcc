-- ===== src/RateLimit/Examples.antt =====
-- One hit in a window of ten seconds, and the second one.
use shaidago.Base.{◌≡◌, ◌≤◌, refl, arith, true, false, [], ◌∷◌, ok}
use shaidago.RateLimit.{Window, RateDecision, drop_old, without_token, oldest, hit}
use shaidago.RateLimit.Sliding.{Ran, start, hits, recent, has_token, hit-limit}
use shaidago.RateLimit.Retry.{hit-retry}

abbrev empty : Window
empty = record { entries = []; expires_at = 0 }

abbrev one : Window
one = record { entries = record { score = 5000; token = 1 } ∷ []; expires_at = 15000 }

-- The first hit, at five seconds, is admitted.
first_hit :
    hit 1 10 1 5000 empty
    ≡ (ok (record { allowed = true; remaining = 0; retry_after_seconds = 1 }), one)
unfolding hit drop_old without_token
first_hit = refl

after_first : Ran 1 10 5000 (5000 ∷ []) one
unfolding hit drop_old without_token has_token
after_first = hits {now = 0} {log = []} {w = empty} 1 5000 start (omega arith) refl

hit-limit_example : recent 10000 5000 (5000 ∷ []) ≤ 1
hit-limit_example = hit-limit 1 10 after_first

abbrev refused : RateDecision
refused = record { allowed = false; remaining = 0; retry_after_seconds = 8 }

second_hit : (hit 1 10 2 7500 one).0 ≡ ok refused
unfolding hit drop_old without_token oldest
second_hit = refl

hit-retry_example :
    (d2 : RateDecision) × ((hit 1 10 3 15500 (hit 1 10 2 7500 one).1).0 ≡ ok d2)
    × (d2.allowed ≡ true)
hit-retry_example = hit-retry 1 10 2 3 7500 15500 one (omega arith) second_hit refl (omega arith)
