-- ===== src/Publication/Words.antt =====
-- Words of a public statement that nothing cited supports, and runs of words that it shares with
-- private text (services/platform/src/shaidago/review/private_references.py).
pub mod Shingles
mod Examples
use shaidago.Base.{
  ℕ, zero, suc, ◌+◌, ◌-◌, Bool, true, false, ◌&&◌, ◌||◌, not, List, [], ◌∷◌, ◌++◌, any, all, leb,
  ltb, length, take, drop, if◌then◌else◌, Text, codes, same_text, map,
}

abbrev pub shingle_words : ℕ
shingle_words = 6

-- `[a-z0-9]`
abbrev pub is_word_char : ℕ → Bool
is_word_char c = (leb b'a' c && leb c b'z') || (leb b'0' c && leb c b'9')

-- A word that stands before other text is put before the words of that text.
abbrev with_word : Text → List Text → List Text
with_word [] ws = ws
with_word (c ∷ w) ws = (c ∷ w) ∷ ws

-- The run of word characters at the start of a text, and the words after it.
unfoldable pub split_words : Text → Text × List Text
split_words [] = ([], [])
split_words (c ∷ s) =
    let (w, ws) = split_words s in if is_word_char c then (c ∷ w, ws) else ([], with_word w ws)

-- `_WORDS.findall` on a text that is lower case.
unfoldable pub find_words : Text → List Text
unfolding split_words
find_words s = let (w, ws) = split_words s in with_word w ws

-- `str.lower`: what a character outside ASCII becomes is a parameter.
unfoldable pub lower : (ℕ → Text) → Text → Text
lower other [] = []
lower other (c ∷ s) =
    (if ltb c 128 then (if leb b'A' c && leb c b'Z' then (c + 32) ∷ [] else c ∷ []) else other c)
    ++ lower other s

unfoldable pub words : (ℕ → Text) → Text → List Text
unfolding find_words lower
words other s = find_words (lower other s)

-- Equality of runs of words.
abbrev pub same_words : List Text → List Text → Bool
same_words [] [] = true
same_words (a ∷ s) (b ∷ t) = same_text a b && same_words s t
same_words _ _ = false

-- The runs of `size` words of a list, for a size of at least one.
unfoldable pub grams : ℕ → List Text → List (List Text)
grams size [] = []
grams size (w ∷ ws) =
    let rest = grams size ws in
    if leb size (length (w ∷ ws)) then take size (w ∷ ws) ∷ rest else rest

abbrev pub min_ℕ : ℕ → ℕ → ℕ
min_ℕ a b = if leb a b then a else b

-- `_has_shingle`
unfoldable pub has_shingle : List Text → List Text → Bool
unfolding grams
has_shingle statement [] = false
has_shingle [] (p ∷ private) = false
has_shingle (w ∷ statement) (p ∷ private) =
    let size = min_ℕ shingle_words (length (p ∷ private)) in
    any (λ g. any (same_words g) (grams size (w ∷ statement))) (grams size (p ∷ private))

abbrev pub guarded_terms : List Text
guarded_terms =
    codes "abandoned"
    ∷ codes "bribe"
    ∷ codes "bribery"
    ∷ codes "complete"
    ∷ codes "completed"
    ∷ codes "corrupt"
    ∷ codes "corruption"
    ∷ codes "criminal"
    ∷ codes "embezzled"
    ∷ codes "embezzlement"
    ∷ codes "fraud"
    ∷ codes "fraudulent"
    ∷ codes "guilty"
    ∷ codes "scam"
    ∷ codes "stolen"
    ∷ []

-- The words of all passages.
unfoldable pub cited_words : (ℕ → Text) → List Text → List Text
unfolding words
cited_words other [] = []
cited_words other (p ∷ ps) = words other p ++ cited_words other ps

-- `w in GUARDED_TERMS and w not in cited`
abbrev pub is_unsupported : List Text → Text → Bool
is_unsupported cited w = any (same_text w) guarded_terms && not (any (same_text w) cited)

unfoldable pub keep_if {ℓ} : {A : Type ℓ} → (A → Bool) → List A → List A
keep_if p [] = []
keep_if p (x ∷ xs) = if p x then x ∷ keep_if p xs else keep_if p xs

-- The order of `sorted` on words: by code points, a prefix first.
unfoldable pub text_lt : Text → Text → Bool
text_lt [] [] = false
text_lt [] (b ∷ t) = true
text_lt (a ∷ s) [] = false
text_lt (a ∷ s) (b ∷ t) = ltb a b || (not (ltb b a) && text_lt s t)

-- A word put in its place in a sorted list without repetitions.
unfoldable pub insert_word : Text → List Text → List Text
unfolding text_lt
insert_word w [] = w ∷ []
insert_word w (v ∷ vs) =
    let rest = insert_word w vs in
    if text_lt w v then w ∷ v ∷ vs else if same_text w v then v ∷ vs else v ∷ rest

-- `sorted({…})`
unfoldable pub sorted_set : List Text → List Text
unfolding insert_word
sorted_set [] = []
sorted_set (w ∷ ws) = insert_word w (sorted_set ws)

unfoldable pub unsupported_terms : (ℕ → Text) → Text → List Text → List Text
unfolding sorted_set keep_if words cited_words
unsupported_terms other statement passages =
    sorted_set (keep_if (is_unsupported (cited_words other passages)) (words other statement))
