-- ===== src/RateLimit.antt =====
-- The sliding-window limiter of the running service (services/platform/src/shaidago/shared/ratelimit.py):
-- the script that Redis runs in one step, on the sorted set of one key, and `RedisRateLimiter.hit`.
-- Times are milliseconds of the Redis clock.
pub mod Sliding
pub mod Retry
mod Examples
use shaidago.Base.{
  ℕ, suc, ◌+◌, ◌-◌, ◌*◌, ◌/◌, Bool, true, false, List, [], ◌∷◌, Option, none, some, Result, ok, err,
  length, leb, ltb, ◌==◌, if◌then◌else◌,
}

-- A member of the sorted set: its score and the token.
pub record Entry : Type 0 where
  pub score : ℕ
  pub token : ℕ

-- The sorted set of a key, and when the key expires.
pub record Window : Type 0 where
  pub entries : List Entry
  pub expires_at : ℕ

pub record RateDecision : Type 0 where
  pub allowed : Bool
  pub remaining : ℕ
  pub retry_after_seconds : ℕ

-- `RateLimitUnavailableError`
pub data Unavailable : Type 0 where
  rate_limit_unavailable : Unavailable

-- A key that has expired is gone.
abbrev pub live_entries : ℕ → Window → List Entry
live_entries now w = if leb w.expires_at now then [] else w.entries

-- `ZREMRANGEBYSCORE key 0 (now - window)`
unfoldable pub drop_old : ℕ → ℕ → List Entry → List Entry
drop_old window now [] = []
drop_old window now (e ∷ es) =
    let rest = drop_old window now es in if leb (e.score + window) now then rest else e ∷ rest

-- `ZADD key score token`: a member that is there already takes the new score.
unfoldable pub without_token : ℕ → List Entry → List Entry
without_token token [] = []
without_token token (e ∷ es) =
    let rest = without_token token es in if e.token == token then rest else e ∷ rest

-- The lowest score, `none` for an empty set.
abbrev pub lower : ℕ → Option ℕ → ℕ
lower n none = n
lower n (some m) = if ltb m n then m else n

unfoldable pub oldest : List Entry → Option ℕ
oldest [] = none
oldest (e ∷ es) = some (lower e.score (oldest es))

abbrev pub at_least : ℕ → ℕ → ℕ
at_least low n = if ltb n low then low else n

-- The refusal of the script, `math.ceil` included; arithmetic on a missing score is an error.
abbrev pub refusal : ℕ → ℕ → Option ℕ → Result Unavailable RateDecision
refusal window now none = err rate_limit_unavailable
refusal window now (some first) = ok (record {
  allowed = false;
  remaining = 0;
  retry_after_seconds = at_least 1 ((first + window - now + 999) / 1000);
})

-- `hit` of a key with a window in seconds: the decision, and the window afterwards.
unfoldable pub hit : ℕ → ℕ → ℕ → ℕ → Window → Result Unavailable RateDecision × Window
unfolding drop_old without_token
hit limit window_seconds token now w =
    let window = window_seconds * 1000 in
    let left = drop_old window now (live_entries now w) in
    if ltb (length left) limit
    then (
      ok (record {
        allowed = true;
        remaining = limit - length left - 1;
        retry_after_seconds = at_least 1 0;
      }),
      record {
        entries = record { score = now; token = token } ∷ without_token token left;
        expires_at = now + window;
      },
    )
    else (refusal window now (oldest left), record w { entries = left })
