-- ===== src/Handle/Examples.antt =====
-- A handle that is guessed at (services/platform/src/shaidago/reports/handle_store.py).
use shaidago.Base.{
  ℕ, ◌+◌, ◌*◌, ◌≤◌, ◌<◌, ◌≡◌, refl, Bool, false, [], ◌∷◌, All, Option, none, some, Text, codes,
  same_text, is_space, strip, lstrip, rstrip, arith,
}
use shaidago.Tracking.{upper, value, index_of}
use shaidago.Publication.Words.{lower}
use shaidago.Handle.{
  HandleRow, Attempt, Verifier, second, delay, without_separators, normalise_handle,
  normalise_passphrase, split_fields, joined_words, reporter_handle_get, authenticate,
}
use shaidago.Handle.Backoff.{AreRefused, authenticate-closes}

abbrev same_hash : Option Text → Text → Bool
same_hash none p = false
same_hash (some h) p = same_text h p

abbrev verifier : Verifier
verifier = record { matches = same_hash; other_upper = λ c. c ∷ []; other_lower = λ c. c ∷ [] }

abbrev name : Text
name = codes "SG-H-AB12-CD34"

abbrev guessed : HandleRow
guessed = record {
  id = 1;
  handle = name;
  passphrase_hash = codes "two words";
  last_used_on = none;
  failure_count = 3;
  last_failure_at = some (2 * second);
  backoff_until = none;
}

abbrev attempt : Text → Text → ℕ → Attempt
attempt handle passphrase now = record {
  handle = handle;
  passphrase = passphrase;
  now = now;
  today = 0;
  fresh_id = 9;
}

abbrev wrong : Attempt
wrong = attempt (codes " sg-h ab12 cd34") (codes "one word") (3 * second)

abbrev right : Attempt
right = attempt name (codes " Two  words") (7 * second)

lenient : normalise_handle (λ c. c ∷ []) (λ c. c ∷ []) wrong.handle ≡ some name
unfolding normalise_handle without_separators strip lstrip rstrip is_space upper value index_of
lenient = refl

let_in : (authenticate verifier right (guessed ∷ [])).0 ≡ some 1
unfolding authenticate normalise_handle without_separators strip lstrip rstrip is_space upper value
    index_of normalise_passphrase split_fields joined_words lower reporter_handle_get
let_in = refl

refused : (authenticate verifier wrong (guessed ∷ [])).0 ≡ none
unfolding authenticate normalise_handle without_separators strip lstrip rstrip is_space upper value
    index_of normalise_passphrase split_fields joined_words lower reporter_handle_get
refused = refl

stands : reporter_handle_get name (guessed ∷ []) ≡ some guessed
unfolding reporter_handle_get
stands = refl

soon : All (λ b. (wrong.now ≤ b.now) × (b.now < wrong.now + delay 4 * second)) (right ∷ [])
unfolding delay
soon = ((ground arith, ground arith), tt)

authenticate-closes_example :
    AreRefused verifier name (right ∷ []) (authenticate verifier wrong (guessed ∷ [])).1
authenticate-closes_example =
    authenticate-closes verifier name wrong (right ∷ []) (guessed ∷ []) (tt, tt) lenient stands
      (ground arith) refl (ground arith) refused soon
