-- ===== src/Publication/Words/Shingles.antt =====
-- A statement that repeats private text is found: `_has_shingle`, and `unsupported_terms`
-- (services/platform/src/shaidago/review/private_references.py).
use shaidago.Base.{
  ℕ, zero, suc, ◌≤◌, ◌≡◌, ◌≢◌, ◌↔◌, inl, inr, refl, sym, ap, subst, Bool, true, List, [], ◌∷◌, ◌++◌,
  any, leb, length, length-append, take, drop, take-append_left, Text, same_text_iff, arith,
  Bool-cases, take-drop,
}
use shaidago.Publication.Words.{shingle_words, same_words, grams, min_ℕ, has_shingle}

same_words_iff : (s t : List Text) → (same_words s t ≡ true) ↔ (s ≡ t)
same_words_iff [] [] = (λ h. refl, λ h. refl)
same_words_iff [] (b ∷ t) = ground arith
same_words_iff (a ∷ s) [] = ground arith
same_words_iff (a ∷ s) (b ∷ t) = ground (arith, same_text_iff a b, same_words_iff s t)

length-take {ℓ} : {A : Type ℓ} (n : ℕ) (xs : List A) → n ≤ length xs → length (take n xs) ≡ n
length-take zero xs h = refl
length-take (suc n) [] h = absurd (omega arith)
length-take (suc n) (x ∷ xs) h = ap suc (length-take n xs (omega arith))

-- A run of words with a length stands in a list, with what is before and behind it.
abbrev pub IsRun : ℕ → List Text → List Text → Type 0
IsRun size g ws =
    (before : List Text) × (behind : List Text) × (ws ≡ before ++ (g ++ behind)) × (length g ≡ size)

-- The same run stands in a list with one word more in front.
IsRun-cons :
    (size : ℕ) (g : List Text) (w : Text) (ws : List Text) → IsRun size g ws → IsRun size g (w ∷ ws)
IsRun-cons size g w ws (before, behind, parts, len) =
    (w ∷ before, behind, ap (λ t. w ∷ t) parts, len)

-- The runs of a list are its grams.
any-grams :
    (q : List Text → Bool) (size : ℕ) (ws : List Text)
    → any q (grams size ws) ≡ true
    → (g : List Text) × IsRun size g ws × (q g ≡ true)
unfolding grams
any-grams q size [] h = cc
any-grams q size (w ∷ ws) h = elim (Bool-cases (leb size (length (w ∷ ws)))) [
  | inl long ↦ elim (Bool-cases (q (take size (w ∷ ws)))) [
    | inl first ↦ (
      take size (w ∷ ws),
      (
        [],
        drop size (w ∷ ws),
        sym (take-drop size (w ∷ ws)),
        length-take size (w ∷ ws) (ground arith),
      ),
      first,
    )
    | inr later ↦
        let (g, run, holds) = any-grams q size ws (rw (long, later) at h) in
        (g, IsRun-cons size g w ws run, holds)
  ]
  | inr short ↦
      let (g, run, holds) = any-grams q size ws (rw short at h) in
      (g, IsRun-cons size g w ws run, holds)
]

grams-any :
    (q : List Text → Bool) (size : ℕ) (g before behind : List Text)
    → 1 ≤ size
    → length g ≡ size
    → q g ≡ true
    → any q (grams size (before ++ (g ++ behind))) ≡ true
unfolding grams
grams-any q size [] [] behind n len holds = absurd (omega arith)
grams-any q size (a ∷ g) [] behind n len holds =
    let long : leb size (length (a ∷ g ++ behind)) ≡ true =
      ground (arith, length-append (a ∷ g) behind) in
    let whole : take size (a ∷ (g ++ behind)) ≡ a ∷ g = take-append_left size (a ∷ g) behind len in
    rw (long, whole, holds) refl
grams-any q size g (b ∷ before) behind n len holds =
    let ih = grams-any q size g before behind n len holds in
    elim (Bool-cases (leb size (length (b ∷ (before ++ (g ++ behind)))))) [
      | inl long ↦ rw (long, ih) (ground arith)
      | inr short ↦ rw (short) ih
    ]

-- The runs that a statement shares with a private text, of a positive size.
shared_iff :
    (size : ℕ) (s p : List Text)
    → 1 ≤ size
    → (any (λ g. any (same_words g) (grams size s)) (grams size p) ≡ true)
      ↔ ((g : List Text) × IsRun size g s × IsRun size g p)
shared_iff size s p n = (
  λ h.
      let (g, in_p, found) = any-grams (λ k. any (same_words k) (grams size s)) size p h in
      let (k, in_s, same) = any-grams (same_words g) size s found in
      let g_k : g ≡ k = (same_words_iff g k).0 same in
      (g, subst (λ t. IsRun size t s) (sym g_k) in_s, in_p),
  λ t.
      let (g, in_s, in_p) = t in
      let (b1, e1, parts1, len1) = in_s in
      let (b2, e2, parts2, len2) = in_p in
      let g_g : same_words g g ≡ true = (same_words_iff g g).1 refl in
      let found : any (same_words g) (grams size s) ≡ true =
        rw parts1 (grams-any (same_words g) size g b1 e1 n len1 g_g) in
      rw parts2 (grams-any (λ k. any (same_words k) (grams size s)) size g b2 e2 n len2 found),
)

pos : (ps : List Text) → 1 ≤ min_ℕ shingle_words (suc (length ps))
pos ps = ground arith

-- A statement repeats a private text exactly when the two share a run of six words, or the whole of
-- a private text of fewer words; no text is repeated when it has no word at all.
pub has_shingle_iff :
    (s p : List Text)
    → (has_shingle s p ≡ true) ↔ (
        (p ≢ [])
        × ((g : List Text) × IsRun (min_ℕ shingle_words (length p)) g s
            × IsRun (min_ℕ shingle_words (length p)) g p))
unfolding has_shingle
has_shingle_iff s [] = ((λ h. absurd (ground arith)), (λ t. absurd (t.0 refl)))
has_shingle_iff [] (p ∷ ps) = (
  λ h. absurd (ground arith),
  λ t.
      let (g, in_s, in_p) = t.1 in
      let (b, e, parts, len) = in_s in
      absurd (omega (arith, ap length parts, length-append b (g ++ e), length-append g e, pos ps)),
)
has_shingle_iff (w ∷ s) (p ∷ ps) = (
  λ h. (
    λ e. ground arith,
    (shared_iff (min_ℕ shingle_words (length (p ∷ ps))) (w ∷ s) (p ∷ ps) (pos ps)).0 h,
  ),
  λ t. (shared_iff (min_ℕ shingle_words (length (p ∷ ps))) (w ∷ s) (p ∷ ps) (pos ps)).1 t.1,
)
