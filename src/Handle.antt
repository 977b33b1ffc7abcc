-- ===== src/Handle.antt =====
-- Anonymous reporter handles: their form (services/platform/src/shaidago/reports/handles.py), the check
-- of a credential (services/platform/src/shaidago/reports/handle_store.py) and the functions of the
-- database (services/platform/migrations/versions/0012_reporter_handles.py). Times are microseconds; the
-- Argon2 verification is a parameter, and so is the case of characters outside ASCII.
pub mod Rows
pub mod Backoff
mod Examples
use shaidago.Base.{
  ℕ, zero, suc, ◌+◌, ◌-◌, ◌*◌, ◌/◌, ◌^◌, Bool, true, false, ◌&&◌, ◌||◌, not, List, [], ◌∷◌, ◌++◌,
  Option, none, some, all, leb, ltb, length, take, drop, ◌==◌, if◌then◌else◌, map, Text, codes,
  same_text, is_space, strip,
}
use shaidago.Tracking.{alias, is_symbol, upper}
use shaidago.Publication.Words.{lower, min_ℕ}

abbrev pub handle_symbols : ℕ
handle_symbols = 8

abbrev pub handle_prefix : Text
handle_prefix = codes "SGH"

-- `_SEPARATORS.sub("", …)`
abbrev pub separates : ℕ → Bool
separates c = is_space c || c == b'-'

unfoldable pub without_separators : Text → Text
without_separators [] = []
without_separators (c ∷ s) =
    let rest = without_separators s in if separates c then rest else c ∷ rest

-- `compact.removeprefix(HANDLE_PREFIX)`, where the length says that it is a prefix.
abbrev pub removeprefix : Text → Text
removeprefix s = if same_text (take 3 s) handle_prefix then drop 3 s else s

abbrev pub compacted : Text → Text
compacted compact =
    if length compact == length handle_prefix + handle_symbols
    then removeprefix compact
    else compact

abbrev pub as_handle : Text → Text
as_handle canonical = codes "SG-H-" ++ (take 4 canonical ++ b'-' ∷ drop 4 canonical)

-- The words of a text that white space divides, and what stands before the first one's end.
unfoldable pub split_fields : Text → Text × List Text
split_fields [] = ([], [])
split_fields (c ∷ s) =
    let (w, ws) = split_fields s in
    if is_space c then ([], (if leb 1 (length w) then w ∷ ws else ws)) else (c ∷ w, ws)

abbrev pub fields : Text × List Text → List Text
fields ([], ws) = ws
fields (c ∷ w, ws) = (c ∷ w) ∷ ws

-- `" ".join`
unfoldable pub joined_words : List Text → Text
joined_words [] = []
joined_words (w ∷ []) = w
joined_words (w ∷ v ∷ ws) = w ++ b' ' ∷ joined_words (v ∷ ws)

module _ (other_upper other_lower : ℕ → Text) where
  unfoldable pub normalise_handle : Text → Option Text
  unfolding without_separators
  normalise_handle raw =
      let canonical = map alias (compacted (without_separators (upper other_upper (strip raw)))) in
      if not (length canonical == handle_symbols) || not (all is_symbol canonical)
      then none
      else some (as_handle canonical)

  unfoldable pub normalise_passphrase : Text → Text
  unfolding split_fields joined_words
  normalise_passphrase raw = joined_words (fields (split_fields (lower other_lower raw)))

-- A row of app.reporter_handles.
pub record HandleRow : Type 0 where
  pub id : ℕ
  pub handle : Text
  pub passphrase_hash : Text
  pub last_used_on : Option ℕ
  pub failure_count : ℕ
  pub last_failure_at : Option ℕ
  pub backoff_until : Option ℕ

abbrev pub second : ℕ
second = 1000000

abbrev pub hour : ℕ
hour = 3600 * second

unfoldable pub reporter_handle_get : Text → List HandleRow → Option HandleRow
reporter_handle_get h [] = none
reporter_handle_get h (r ∷ rows) =
    if same_text r.handle h then some r else reporter_handle_get h rows

-- `UPDATE app.reporter_handles … WHERE id = p_id`
unfoldable pub update_handle : ℕ → (HandleRow → HandleRow) → List HandleRow → List HandleRow
update_handle i set [] = []
update_handle i set (r ∷ rows) =
    let rest = update_handle i set rows in if r.id == i then set r ∷ rest else r ∷ rest

abbrev pub is_hour_old : ℕ → Option ℕ → Bool
is_hour_old now none = true
is_hour_old now (some t) = ltb (t + hour) now

-- How long a handle is closed after so many failures, which are more than three.
unfoldable pub delay : ℕ → ℕ
delay attempts = min_ℕ 900 (5 * 2 ^ min_ℕ (attempts - 4) 10)

abbrev pub attempts_after : ℕ → HandleRow → ℕ
attempts_after now r = if is_hour_old now r.last_failure_at then 1 else suc r.failure_count

-- What a failure makes of its row: both updates of the function.
unfoldable pub failed : ℕ → HandleRow → HandleRow
unfolding delay
failed now r = record r {
  failure_count = attempts_after now r;
  last_failure_at = some now;
  backoff_until =
      if ltb 3 (attempts_after now r)
      then some (now + delay (attempts_after now r) * second)
      else r.backoff_until;
}

unfoldable pub reporter_handle_record_failure : ℕ → ℕ → List HandleRow → List HandleRow
unfolding update_handle failed
reporter_handle_record_failure i now rows = update_handle i (failed now) rows

unfoldable pub succeeded : ℕ → HandleRow → HandleRow
succeeded today r = record r {
  failure_count = 0;
  last_failure_at = none;
  backoff_until = none;
  last_used_on = some today;
}

unfoldable pub reporter_handle_record_success : ℕ → ℕ → List HandleRow → List HandleRow
unfolding update_handle succeeded
reporter_handle_record_success i today rows = update_handle i (succeeded today) rows

-- What an attempt brings: the credential, the clock and an identifier drawn for an unknown handle.
pub record Attempt : Type 0 where
  pub handle : Text
  pub passphrase : Text
  pub now : ℕ
  pub today : ℕ
  pub fresh_id : ℕ

abbrev pub is_later : Option ℕ → ℕ → Bool
is_later none now = false
is_later (some t) now = ltb now t

abbrev pub canonical_or_empty : Option Text → Text
canonical_or_empty none = []
canonical_or_empty (some h) = h

-- `PasswordVerifier.verify` on a hash or on none, and the tables of Unicode.
pub record Verifier : Type 0 where
  pub matches : Option Text → Text → Bool
  pub other_upper : ℕ → Text
  pub other_lower : ℕ → Text

module _ (verifier : Verifier) where
  abbrev pub stored_hash : Option HandleRow → Option Text
  stored_hash none = none
  stored_hash (some r) = some r.passphrase_hash

  -- A row is accepted if the passphrase matches, it is not in backoff and the handle has a form.
  abbrev pub accepted : Attempt → Option Text → HandleRow → Bool
  accepted a canonical r =
      verifier.matches (some r.passphrase_hash)
        (normalise_passphrase verifier.other_upper verifier.other_lower a.passphrase)
      && not (is_later r.backoff_until a.now)
      && leb 1 (length (canonical_or_empty canonical))

  abbrev pub judged :
      Attempt → Option Text → Option HandleRow → List HandleRow → Option ℕ × List HandleRow
  judged a canonical none rows = (none, reporter_handle_record_failure a.fresh_id a.now rows)
  judged a canonical (some r) rows =
      if accepted a canonical r
      then (some r.id, reporter_handle_record_success r.id a.today rows)
      else (none, reporter_handle_record_failure r.id a.now rows)

  unfoldable pub authenticate : Attempt → List HandleRow → Option ℕ × List HandleRow
  unfolding normalise_handle normalise_passphrase reporter_handle_get reporter_handle_record_failure
      reporter_handle_record_success
  authenticate a rows =
      let canonical = normalise_handle verifier.other_upper verifier.other_lower a.handle in
      judged a canonical (reporter_handle_get (canonical_or_empty canonical) rows) rows
