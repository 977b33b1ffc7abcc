-- ===== src/Tracking.antt =====
-- Tracking codes (services/platform/src/shaidago/reports/tracking.py). A character outside ASCII is
-- put in upper case by a table of Unicode, which is a parameter; the keyed hash of a code is a
-- package of its own.
pub mod Detect
pub mod Swaps
pub mod Laws
mod Examples
use Prim.Native.String.{String}
use shaidago.Base.{
  ℕ, zero, suc, ◌+◌, ◌-◌, ◌*◌, ◌/◌, ◌%◌, ◌^◌, Bool, true, false, ◌&&◌, ◌||◌, not, List, [], ◌∷◌,
  ◌++◌, Option, none, some, Result, ok, err, ◌>>=◌, ◌>>◌, guard, length, take, drop, all, leb, ltb,
  ◌==◌, if◌then◌else◌, is_some, Text, codes, map, reverse, same_text,
}

-- `ALPHABET`: Crockford, no I, L, O, or U.
abbrev pub alphabet : Text
alphabet = codes "0123456789ABCDEFGHJKMNPQRSTVWXYZ"

abbrev pub body_symbols : ℕ
body_symbols = 20

abbrev pub code_symbols : ℕ
code_symbols = 21

abbrev pub prefix : Text
prefix = codes "SG"

-- `enumerate(ALPHABET)`, from a position on.
unfoldable pub index_of : ℕ → Text → ℕ → Option ℕ
index_of c [] i = none
index_of c (s ∷ ss) i = let rest = index_of c ss (suc i) in if s == c then some i else rest

-- `_VALUE[symbol]`, `none` for `KeyError`, and `ALPHABET[n]`.
unfoldable pub value : ℕ → Option ℕ
value c = index_of c alphabet 0

unfoldable pub nth : ℕ → Text → ℕ
nth n [] = 0
nth zero (c ∷ s) = c
nth (suc n) (c ∷ s) = nth n s

-- The loop of `_luhn_mod32`: the factor and the total so far.
unfoldable pub luhn_loop : ℕ → ℕ → Text → Option ℕ
luhn_loop factor total [] = some total
luhn_loop factor total (symbol ∷ symbols) = elim (value symbol) [
  | none ↦ none
  | some v ↦
      luhn_loop (if factor == 2 then 1 else 2) (total + (v * factor / 32 + v * factor % 32)) symbols
]

abbrev pub check_symbol : Option ℕ → Option ℕ
check_symbol none = none
check_symbol (some total) = some (nth ((32 - total % 32) % 32) alphabet)

unfoldable pub luhn_mod32 : Text → Option ℕ
unfolding luhn_loop nth
luhn_mod32 body = check_symbol (luhn_loop 2 0 (reverse body))

-- `TrackingCode.formatted` of a canonical text.
unfoldable pub formatted : Text → Text
formatted canonical =
    let body = take body_symbols canonical in
    prefix
    ++ 45
      ∷ (take 5 body
          ++ 45
            ∷ (take 5 (drop 5 body)
                ++ 45
                  ∷ (take 5 (drop 10 body)
                      ++ 45
                        ∷ (take 5 (drop 15 body) ++ 45 ∷ take 1 (drop body_symbols canonical)))))

-- `InvalidTrackingCodeError`
pub data Invalid : Type 0 where
  not_a_tracking_code : Invalid

-- `_SEPARATORS`: a space and a dash.
abbrev pub is_separator : ℕ → Bool
is_separator c = c == 32 || c == 45

-- `_ALIASES.get(symbol, symbol)`: O is 0, I and L are 1.
abbrev pub alias : ℕ → ℕ
alias c = if c == 79 then 48 else if c == 73 || c == 76 then 49 else c

unfoldable pub translate : Text → Text
translate [] = []
translate (c ∷ s) = if is_separator c then translate s else c ∷ translate s

abbrev pub is_symbol : ℕ → Bool
is_symbol c = is_some (value c)

abbrev pub is_check : Option ℕ → Text → Bool
is_check (some c) (d ∷ []) = c == d
is_check _ _ = false

unfoldable pub without_prefix : Text → Result Invalid Text
without_prefix compact =
    if length compact == code_symbols + 2
    then (if same_text (take 2 compact) prefix
        then ok (drop 2 compact)
        else err not_a_tracking_code)
    else ok compact

module _ (other : ℕ → Text) where
  -- `str.upper`
  abbrev pub upper_char : ℕ → Text
  upper_char c = if ltb c 128 then (if leb 97 c && leb c 122 then c - 32 else c) ∷ [] else other c

  unfoldable pub upper : Text → Text
  upper [] = []
  upper (c ∷ s) = upper_char c ++ upper s

  unfoldable pub normalise : Text → Result Invalid Text
  normalise raw = do
    compact ← without_prefix (translate (upper raw))
    guard (length compact == code_symbols) not_a_tracking_code
    let canonical = map alias compact
    guard (all is_symbol canonical) not_a_tracking_code
    guard (is_check (luhn_mod32 (take body_symbols canonical)) (drop body_symbols canonical))
        not_a_tracking_code
    ok canonical

-- `int.from_bytes(…, "big")`
unfoldable pub from_bytes : ℕ → List ℕ → ℕ
from_bytes n [] = n
from_bytes n (b ∷ bs) = from_bytes (n * 256 + b) bs

-- `ALPHABET[(drawn >> shift) & 31] for shift in range(95, -1, -5)`, the last symbols by their number.
unfoldable pub symbols_of : ℕ → ℕ → Text
unfolding nth
symbols_of zero drawn = []
symbols_of (suc k) drawn = nth (drawn / 2 ^ (5 * k) % 32) alphabet ∷ symbols_of k drawn

abbrev pub with_check : Text → Option ℕ → Option Text
with_check body none = none
with_check body (some c) = some (body ++ c ∷ [])

-- `generate`, with the bytes that it draws.
unfoldable pub generate : List ℕ → Option Text
unfolding from_bytes symbols_of
generate bytes =
    let body = symbols_of body_symbols (from_bytes 0 bytes / 2 ^ 4) in
    with_check body (luhn_mod32 body)
