-- ===== src/Publication/Words/Examples.antt =====
-- Statements that repeat private text, or say more than what they cite.
use shaidago.Base.{◌≡◌, ◌≢◌, ◌↔◌, refl, true, false, List, [], ◌∷◌, length, Text, codes}
use shaidago.Publication.Words.{
  words, has_shingle, unsupported_terms, shingle_words, min_ℕ, grams, find_words, split_words,
  lower, sorted_set, insert_word, text_lt, keep_if, cited_words,
}
use shaidago.Publication.Words.Shingles.{IsRun, has_shingle_iff}

abbrev private : List Text
private =
    codes "the"
    ∷ codes "contractor"
    ∷ codes "left"
    ∷ codes "the"
    ∷ codes "site"
    ∷ codes "in"
    ∷ codes "may"
    ∷ []

abbrev statement : List Text
statement = codes "on" ∷ codes "site" ∷ codes "in" ∷ codes "may" ∷ []

split : words (λ c. c ∷ []) (codes "On-site, in May") ≡ statement
unfolding words find_words split_words lower
split = refl

has_shingle_iff_example : (has_shingle statement private ≡ true) ↔ (
    (private ≢ [])
    × ((g : List Text) × IsRun (min_ℕ shingle_words (length private)) g statement
        × IsRun (min_ℕ shingle_words (length private)) g private))
has_shingle_iff_example = has_shingle_iff statement private

three_words_are_few : has_shingle statement private ≡ false
unfolding has_shingle grams
three_words_are_few = refl

guarded :
    unsupported_terms (λ c. c ∷ []) (codes "Stolen? Completed!") (codes "completed in May" ∷ [])
    ≡ codes "stolen" ∷ []
unfolding unsupported_terms sorted_set insert_word text_lt keep_if words cited_words find_words
    split_words lower
guarded = refl
