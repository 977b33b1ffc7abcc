-- ===== src/Tracking/Examples.antt =====
-- Codes that are generated, shown, typed in and mistyped.
use shaidago.Base.{map, ◌↔◌, ℕ, ◌≡◌, ◌⊎◌, refl, [], ◌∷◌, ok, Text, codes}
use shaidago.Tracking.{
  value, index_of, nth, luhn_loop, luhn_mod32, formatted, translate, without_prefix, upper,
  normalise, alias,
}
use shaidago.Tracking.Detect.{IsCode, val, substitution-detected}
use shaidago.Tracking.Swaps.{transposition-detected}
use shaidago.Tracking.Laws.{normalise-formatted, normalise_iff, Stands}

-- No character outside ASCII is typed in.
abbrev other : ℕ → Text
other c = c ∷ []

abbrev zeros : Text
zeros = codes "000000000000000000000"

zeros-IsCode : IsCode zeros
unfolding value index_of luhn_loop luhn_mod32 nth
zeros-IsCode = record { long = refl; symbols = refl; checked = refl }

shown : formatted zeros ≡ codes "SG-00000-00000-00000-00000-0"
unfolding formatted
shown = refl

typed : normalise other (codes "sg ooooo-00000 00000-00000-0") ≡ ok zeros
unfolding normalise without_prefix translate upper luhn_mod32 luhn_loop nth value index_of
typed = refl

normalise-formatted_example : normalise other (formatted zeros) ≡ ok zeros
normalise-formatted_example = normalise-formatted other zeros zeros-IsCode

normalise_iff_example : (normalise other (codes "sg ooooo-00000 00000-00000-0") ≡ ok zeros) ↔ (
    (s : Text) × Stands other (translate (upper other (codes "sg ooooo-00000 00000-00000-0"))) s
    × (map alias s ≡ zeros)
    × IsCode zeros)
normalise_iff_example = normalise_iff other (codes "sg ooooo-00000 00000-00000-0") zeros

substitution-detected_example : ◌≡◌ {A = ℕ} 48 48
substitution-detected_example =
    substitution-detected [] (codes "00000000000000000000") 48 48 zeros-IsCode zeros-IsCode

-- The symbols 0 and Z, next to each other: both orders are codes.
abbrev ends_in_zero_z : Text
ends_in_zero_z = codes "0000000000000000000Z1"

abbrev ends_in_z_zero : Text
ends_in_z_zero = codes "000000000000000000Z01"

zero_z-IsCode : IsCode ends_in_zero_z
unfolding value index_of luhn_loop luhn_mod32 nth
zero_z-IsCode = record { long = refl; symbols = refl; checked = refl }

z_zero-IsCode : IsCode ends_in_z_zero
unfolding value index_of luhn_loop luhn_mod32 nth
z_zero-IsCode = record { long = refl; symbols = refl; checked = refl }

transposition-detected_example :
    (◌≡◌ {A = ℕ} 48 90) ⊎ (((val 48 ≡ 0) × (val 90 ≡ 31)) ⊎ ((val 48 ≡ 31) × (val 90 ≡ 0)))
transposition-detected_example =
    transposition-detected (codes "000000000000000000") (codes "1") 48 90 zero_z-IsCode
      z_zero-IsCode
