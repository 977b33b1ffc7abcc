-- ===== src/Session.antt =====
-- Reviewer sessions (services/platform/src/shaidago/auth/sessions.py). The keyed hash of a token is a
-- package of its own: a function that is a parameter. Times are microseconds.
pub mod Revoking
mod Examples
use shaidago.Base.{
  ℕ, ◌+◌, ◌-◌, Bool, true, false, ◌&&◌, ◌||◌, not, List, [], ◌∷◌, Option, none, some, length, leb,
  ltb, ◌==◌, if◌then◌else◌, is_none, Text, same_text, map,
}
use shaidago.Crypto.{Bytes}

-- `TOUCH_INTERVAL`: 60 seconds.
abbrev pub touch_interval : ℕ
touch_interval = 60000000

abbrev pub max_token_chars : ℕ
max_token_chars = 128

pub data Role : Type 0 where
  reviewer admin : Role

abbrev pub is_role : Role → Role → Bool
is_role reviewer reviewer = true
is_role admin admin = true
is_role _ _ = false

pub data RevocationReason : Type 0 where
  logout disabled credential_change role_change admin_revoked expired : RevocationReason

-- A row of app.reviewers, as far as a session depends on it.
pub record ReviewerRecord : Type 0 where
  pub id : ℕ
  pub identifier : Text
  pub role : Role
  pub active : Bool
  pub credential_version : ℕ

-- A row of app.reviewer_sessions.
pub record Session : Type 0 where
  pub id : ℕ
  pub token_hmac : Bytes
  pub reviewer_id : ℕ
  pub role_snapshot : Role
  pub credential_version : ℕ
  pub created_at : ℕ
  pub last_used_at : ℕ
  pub absolute_expires_at : ℕ
  pub revoked_at : Option ℕ
  pub revocation_reason : Option RevocationReason

pub record SessionLifetimes : Type 0 where
  pub idle : ℕ
  pub absolute : ℕ

pub record Principal : Type 0 where
  pub reviewer_id : ℕ
  pub identifier : Text
  pub role : Role
  pub session_id : ℕ

unfoldable pub find_reviewer : ℕ → List ReviewerRecord → Option ReviewerRecord
find_reviewer i [] = none
find_reviewer i (r ∷ rs) = if r.id == i then some r else find_reviewer i rs

-- A session and its reviewer.
pub record Joined : Type 0 where
  pub session : Session
  pub reviewer : ReviewerRecord

abbrev pub joined : Session → Option ReviewerRecord → Option Joined
joined s none = none
joined s (some r) = some (record { session = s; reviewer = r })

-- `_LOOKUP`: the session of a hash, joined with its reviewer.
unfoldable pub lookup : Bytes → List ReviewerRecord → List Session → Option Joined
lookup hash reviewers [] = none
lookup hash reviewers (s ∷ ss) =
    if same_text s.token_hmac hash
    then joined s (find_reviewer s.reviewer_id reviewers)
    else lookup hash reviewers ss

-- `_REVOKE_TOKEN` and `_REVOKE_ALL` on a row.
abbrev pub revoked : (Session → Bool) → ℕ → RevocationReason → Session → Session
revoked p now reason s =
    if p s && is_none s.revoked_at
    then record s { revoked_at = some now; revocation_reason = some reason }
    else s

abbrev pub of_reviewer : ℕ → Session → Bool
of_reviewer reviewer_id s = s.reviewer_id == reviewer_id

-- `SessionService.revoke_all`
unfoldable pub revoke_all : ℕ → RevocationReason → ℕ → List Session → List Session
revoke_all reviewer_id reason now sessions =
    map (revoked (of_reviewer reviewer_id) now reason) sessions

abbrev pub touched : ℕ → ℕ → Session → Session
touched i now s = if s.id == i then record s { last_used_at = now } else s

module _ (hash : Text → Bytes) (lifetimes : SessionLifetimes) where
  -- `SessionService.issue`, with the token, the identifier and the time that it draws.
  unfoldable pub issue : ReviewerRecord → Text → ℕ → ℕ → List Session → List Session
  issue r token id now sessions =
      record {
        id = id;
        token_hmac = hash token;
        reviewer_id = r.id;
        role_snapshot = r.role;
        credential_version = r.credential_version;
        created_at = now;
        last_used_at = now;
        absolute_expires_at = now + lifetimes.absolute;
        revoked_at = none;
        revocation_reason = none;
      }
      ∷ sessions

  -- `_is_valid`
  unfoldable pub is_valid : Joined → ℕ → Bool
  is_valid j now =
      is_none j.session.revoked_at
      && ltb now j.session.absolute_expires_at
      && ltb now (j.session.last_used_at + lifetimes.idle)
      && j.reviewer.active
      && j.reviewer.credential_version == j.session.credential_version
      && is_role j.reviewer.role j.session.role_snapshot

  abbrev pub principal : Joined → Principal
  principal j = record {
    reviewer_id = j.session.reviewer_id;
    identifier = j.reviewer.identifier;
    role = j.reviewer.role;
    session_id = j.session.id;
  }

  -- The row that was looked up: none, invalid, or the principal, with its use recorded.
  abbrev pub resolved : ℕ → List Session → Option Joined → Option Principal × List Session
  resolved now sessions none = (none, sessions)
  resolved now sessions (some j) =
      if not (is_valid j now)
      then (none, sessions)
      else if leb (j.session.last_used_at + touch_interval) now
      then (some (principal j), map (touched j.session.id now) sessions)
      else (some (principal j), sessions)

  abbrev pub unusable : Text → Bool
  unusable [] = true
  unusable (c ∷ s) = ltb max_token_chars (length (c ∷ s))

  -- `SessionService.resolve`
  unfoldable pub resolve :
      Option Text → List ReviewerRecord → ℕ → List Session → Option Principal × List Session
  unfolding is_valid
  resolve none reviewers now sessions = (none, sessions)
  resolve (some token) reviewers now sessions =
      if unusable token
      then (none, sessions)
      else resolved now sessions (lookup (hash token) reviewers sessions)

  -- `SessionService.revoke_token`
  unfoldable pub revoke_token : Text → RevocationReason → ℕ → List Session → List Session
  revoke_token token reason now sessions =
      map (revoked (λ s. same_text s.token_hmac (hash token)) now reason) sessions
