-- ===== src/Idempotency.antt =====
-- Idempotent requests (services/platform/src/shaidago/shared/idempotency.py) and the database
-- functions that they call (services/platform/migrations/versions/0002_idempotency_records.py). The
-- keyed hash of a request key and the derivation of a sealing key are packages of their own: two
-- functions that are parameters. A table is the list of its rows, in the order in which a scan
-- meets them; times are microseconds.
pub mod Laws
pub mod Once
pub mod Purging
mod Examples
use shaidago.Base.{
  ℕ, zero, suc, ◌+◌, Bool, true, false, ◌&&◌, ◌||◌, not, List, [], ◌∷◌, ◌++◌, Option, none, some,
  Result, ok, err, length, take, drop, leb, ltb, ◌==◌, if◌then◌else◌, is_none, is_some, Text,
  same_text, map,
}
use shaidago.Crypto.{Bytes, Aead, encode}
use shaidago.Problems.{Problem, already_received, idempotency_conflict}

-- `timedelta(minutes=15)` and `timedelta(hours=24)`.
abbrev pub sealed_window : ℕ
sealed_window = 900000000

abbrev pub retention : ℕ
retention = 86400000000

pub data State : Type 0 where
  in_progress completed : State

-- A row of app.idempotency_records.
pub record Row : Type 0 where
  pub id : ℕ
  pub operation : Text
  pub key_hash : Bytes
  pub fingerprint : Bytes
  pub state : State
  pub response_status : Option ℕ
  pub sealed_response : Option Bytes
  pub created_at : ℕ
  pub sealed_until : ℕ
  pub expires_at : ℕ

-- The arguments of app.idempotency_claim.
pub record Claim : Type 0 where
  pub operation : Text
  pub key_hash : Bytes
  pub fingerprint : Bytes
  pub id : ℕ
  pub now : ℕ
  pub sealed_until : ℕ
  pub expires_at : ℕ

pub data ClaimOutcome : Type 0 where
  claimed conflict claim_in_progress received_already : ClaimOutcome
  replay : Option ℕ → Bytes → ClaimOutcome

abbrev pub is_for : Text → Bytes → Row → Bool
is_for operation key_hash r = same_text r.operation operation && same_text r.key_hash key_hash

unfoldable pub find_record : Text → Bytes → List Row → Option Row
find_record operation key_hash [] = none
find_record operation key_hash (r ∷ rs) =
    if is_for operation key_hash r then some r else find_record operation key_hash rs

-- The row that a claim inserts, or that an expired row becomes.
abbrev pub claimed_row : Claim → Row
claimed_row c = record {
  id = c.id;
  operation = c.operation;
  key_hash = c.key_hash;
  fingerprint = c.fingerprint;
  state = in_progress;
  response_status = none;
  sealed_response = none;
  created_at = c.now;
  sealed_until = c.sealed_until;
  expires_at = c.expires_at;
}

-- The columns that the update of an expired row sets; its operation and its hash stay.
abbrev pub renew : Claim → Row → Row
renew c r = record (claimed_row c) { operation = r.operation; key_hash = r.key_hash }

abbrev pub update_where : (Row → Bool) → (Row → Row) → Row → Row
update_where p f r = if p r then f r else r

abbrev pub sealed_outcome : Row → Option Bytes → ClaimOutcome
sealed_outcome r none = received_already
sealed_outcome r (some sealed) = replay r.response_status sealed

abbrev pub finished_outcome : ℕ → Row → State → ClaimOutcome
finished_outcome now r in_progress = claim_in_progress
finished_outcome now r completed =
    if ltb now r.sealed_until then sealed_outcome r r.sealed_response else received_already

-- What a claim meets on a row that has not expired.
abbrev pub live_outcome : Claim → Row → ClaimOutcome
live_outcome c r =
    if not (same_text r.fingerprint c.fingerprint)
    then conflict
    else finished_outcome c.now r r.state

abbrev pub claim_on : Claim → List Row → Option Row → ClaimOutcome × List Row
claim_on c rows none = (claimed, claimed_row c ∷ rows)
claim_on c rows (some r) =
    if leb r.expires_at c.now
    then (claimed, map (update_where (is_for c.operation c.key_hash) (renew c)) rows)
    else (live_outcome c r, rows)

-- `app.idempotency_claim`
unfoldable pub claim : Claim → List Row → ClaimOutcome × List Row
claim c rows = claim_on c rows (find_record c.operation c.key_hash rows)

abbrev pub is_in_progress : State → Bool
is_in_progress in_progress = true
is_in_progress completed = false

abbrev pub is_open : Text → Bytes → Row → Bool
is_open operation key_hash r = is_for operation key_hash r && is_in_progress r.state

abbrev pub finish : ℕ → Bytes → Row → Row
finish status sealed r = record r {
  state = completed;
  response_status = some status;
  sealed_response = some sealed;
}

unfoldable pub has_open_record : Text → Bytes → List Row → Bool
has_open_record operation key_hash [] = false
has_open_record operation key_hash (r ∷ rs) =
    is_open operation key_hash r || has_open_record operation key_hash rs

-- `app.idempotency_complete`; `none` is the exception 'idempotency record was not claimed'.
unfoldable pub complete_record : Text → Bytes → ℕ → Bytes → List Row → Option (List Row)
complete_record operation key_hash status sealed rows =
    if has_open_record operation key_hash rows
    then some (map (update_where (is_open operation key_hash) (finish status sealed)) rows)
    else none

-- The first statement of `app.idempotency_purge`: a batch of sealed responses whose window is over.
unfoldable pub scrub : ℕ → ℕ → List Row → List Row × ℕ
scrub zero now rows = (rows, 0)
scrub (suc n) now [] = ([], 0)
scrub (suc n) now (r ∷ rs) =
    let (done, k) = scrub n now rs in
    let (rest, m) = scrub (suc n) now rs in
    if leb r.sealed_until now && is_some r.sealed_response
    then (record r { sealed_response = none } ∷ done, suc k)
    else (r ∷ rest, m)

-- The second one: a batch of records whose retention is over.
unfoldable pub remove : ℕ → ℕ → List Row → List Row × ℕ
remove zero now rows = (rows, 0)
remove (suc n) now [] = ([], 0)
remove (suc n) now (r ∷ rs) =
    let (done, k) = remove n now rs in
    let (rest, m) = remove (suc n) now rs in
    if leb r.expires_at now then (done, suc k) else (r ∷ rest, m)

unfoldable pub purge : ℕ → ℕ → List Row → List Row × ℕ
purge now batch rows =
    let (scrubbed, k) = scrub batch now rows in
    let (left, m) = remove batch now scrubbed in (left, k + m)

-- `Claimed` and `Replay`.
pub data Begun : Type 0 where
  first_time : Begun
  replayed : ℕ → Bytes → Begun

-- `SealError` and `InvalidTag` end in the conflict; `type_error` is `int(None)`.
pub data BeginError : Type 0 where
  problem : Problem → BeginError
  type_error : BeginError

abbrev pub starts_with_format : Bytes → Bool
starts_with_format [] = false
starts_with_format (b ∷ bs) = b == 1

-- The pepper's keyed hash and the key derivation.
module _ (aead : Aead) (derive : Text → Text → Bytes) where
  unfoldable pub seal : Bytes → Text → Bytes → Text → Bytes
  seal nonce key payload context =
      1 ∷ (nonce ++ aead.seal (derive key context) nonce payload (encode context))

  unfoldable pub unseal : Text → Bytes → Text → Option Bytes
  unseal key sealed context =
      if not (starts_with_format sealed) || ltb (length sealed) 29
      then none
      else aead.unseal (derive key context) (take 12 (drop 1 sealed)) (drop 13 sealed)
          (encode context)

  abbrev pub replayed_or_fail : Option ℕ → Option Bytes → Result BeginError Begun
  replayed_or_fail status none = err (problem idempotency_conflict)
  replayed_or_fail none (some payload) = err type_error
  replayed_or_fail (some status) (some payload) = ok (replayed status payload)

  -- What `begin` makes of the outcome of the claim.
  abbrev pub begun : Text → Text → ClaimOutcome → Result BeginError Begun
  begun operation key claimed = ok first_time
  begun operation key (replay status sealed) = replayed_or_fail status (unseal key sealed operation)
  begun operation key received_already = err (problem already_received)
  begun operation key conflict = err (problem idempotency_conflict)
  begun operation key claim_in_progress = err (problem idempotency_conflict)

  module _ (hash_key : Text → Bytes) where
    abbrev pub claim_of : Text → Text → Bytes → ℕ → ℕ → Claim
    claim_of operation key fingerprint id now = record {
      operation = operation;
      key_hash = hash_key key;
      fingerprint = fingerprint;
      id = id;
      now = now;
      sealed_until = now + sealed_window;
      expires_at = now + retention;
    }

    -- `IdempotencyStore.begin`, with the identifier and the time that it draws.
    unfoldable pub begin :
        Text → Text → Bytes → ℕ → ℕ → List Row → Result BeginError Begun × List Row
    begin operation key fingerprint id now rows =
        let (outcome, left) = claim (claim_of operation key fingerprint id now) rows in
        (begun operation key outcome, left)

    -- `IdempotencyStore.complete`, with the nonce that `seal` draws.
    unfoldable pub complete : Bytes → Text → Text → ℕ → Bytes → List Row → Option (List Row)
    complete nonce operation key status payload rows =
        complete_record operation (hash_key key) status (seal nonce key payload operation) rows
