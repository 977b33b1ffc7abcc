-- ===== src/Publication/Drafts/Created.antt =====
-- What a new draft cites: every passage stands in an approved or superseded version, none twice
-- (`create_draft` of services/platform/src/shaidago/review/publication.py).
use shaidago.Base.{
  ℕ, zero, suc, ◌-◌, ◌≡◌, inl, inr, refl, ap, true, false, List, [], ◌∷◌, map, All, ltb, length,
  take, ◌==◌, if◌then◌else◌, Text, same_text, arith, Bool-cases, Option-cases,
}
use shaidago.Publication.Sources.{citable}
use shaidago.Publication.Sources.Gaps.{append-nil_iff}
use shaidago.Publication.Tables.{
  SourceVersion, select_version, passage_stands, passage_matches, version_citable,
}
use shaidago.Publication.Drafts.{CitationInput, starts_with, strpos, is_seen, judge, locate}

starts_with-take : (p s : Text) → starts_with p s ≡ true → same_text (take (length p) s) p ≡ true
starts_with-take [] s h = refl
starts_with-take (c ∷ p) [] h = absurd (ground arith)
starts_with-take (c ∷ p) (d ∷ s) h = ground (arith, starts_with-take p s)

further : (m n : ℕ) → (if m == 0 then 0 else suc m) ≡ suc n → (k : ℕ) × (n ≡ suc k) × (m ≡ suc k)
further zero n h = absurd (ground arith)
further (suc m) n h = (m, ground arith, refl)

-- Where `strpos` finds a passage, the passage stands.
strpos-stands : (s p : Text) (n : ℕ) → strpos s p ≡ suc n → passage_stands s p n ≡ true
unfolding strpos passage_stands
strpos-stands [] p n h = elim (Bool-cases (starts_with p [])) [
  | inl here ↦
      let first : n ≡ 0 = ground (arith, rw here at h) in rw first (starts_with-take p [] here)
  | inr there ↦ absurd (ground (arith, rw there at h))
]
strpos-stands (c ∷ s) p n h = elim (Bool-cases (starts_with p (c ∷ s))) [
  | inl here ↦
      let first : n ≡ 0 = ground (arith, rw here at h) in rw first (starts_with-take p (c ∷ s) here)
  | inr there ↦
      let (k, next, before) = further (strpos s p) n (rw there at h) in
      rw next (strpos-stands s p k before)
]

-- A citation that `create_draft` takes, with the place of its passage.
abbrev pub Located : List SourceVersion → CitationInput × ℕ → Type 0
Located versions l =
    (version_citable (select_version l.0.source_version_id versions) ≡ true)
    × (passage_matches (select_version l.0.source_version_id versions) l.0.passage l.1 ≡ true)

-- A citation without an error is located.
judge-Located :
    (versions : List SourceVersion) (index : ℕ) (c : CitationInput)
    → (judge index c (select_version c.source_version_id versions)).0 ≡ []
    → (n : ℕ) × ((judge index c (select_version c.source_version_id versions)).1 ≡ (c, n) ∷ [])
      × (version_citable (select_version c.source_version_id versions) ≡ true)
      × (passage_matches (select_version c.source_version_id versions) c.passage n ≡ true)
judge-Located versions index c h =
    elim (Option-cases (select_version c.source_version_id versions)) [
      | inl missing ↦ absurd (ground (arith, rw missing at h))
      | inr (v, found) ↦ elim (Bool-cases (citable v.review_state)) [
        | inr may_not ↦ absurd (ground (arith, rw (found, may_not) at h))
        | inl may ↦ elim (Bool-cases (ltb (strpos v.content_text c.passage) 1)) [
          | inl nowhere ↦ absurd (ground (arith, rw (found, may, nowhere) at h))
          | inr somewhere ↦
              let place : strpos v.content_text c.passage
                  ≡ suc (strpos v.content_text c.passage - 1) =
                ground arith in
              (
                strpos v.content_text c.passage - 1,
                rw (found, may, somewhere) refl,
                rw (found, may) refl,
                rw found (
                    strpos-stands v.content_text c.passage (strpos v.content_text c.passage - 1)
                      place),
              )
        ]
      ]
    ]

-- No two citations have one version and one label, and none has those of a citation seen before.
abbrev pub Apart : List CitationInput → List (CitationInput × ℕ) → Type 0
Apart seen [] = Unit
Apart seen (l ∷ ls) = (is_seen l.0 seen ≡ false) × Apart (l.0 ∷ seen) ls

-- Citations without an error are located and apart.
pub locate-Located :
    (versions : List SourceVersion) (index : ℕ) (seen cs : List CitationInput)
    → (locate versions index seen cs).0 ≡ []
    → All (Located versions) (locate versions index seen cs).1
      × Apart seen (locate versions index seen cs).1
      × (map (λ (l : CitationInput × ℕ). l.0) (locate versions index seen cs).1 ≡ cs)
unfolding locate
locate-Located versions index seen [] h = (tt, tt, refl)
locate-Located versions index seen (c ∷ cs) h = elim (Bool-cases (is_seen c seen)) [
  | inl twice ↦ absurd (ground (arith, rw twice at h))
  | inr once ↦
      let parts =
        (append-nil_iff (judge index c (select_version c.source_version_id versions)).0
            (locate versions (suc index) (c ∷ seen) cs).0).0
          (rw once at h) in
      let (n, judged, may, stands) = judge-Located versions index c parts.0 in
      let (located, apart, same) = locate-Located versions (suc index) (c ∷ seen) cs parts.1 in
      rw (once, judged) (((may, stands), located), (once, apart), ap (λ t. c ∷ t) same)
]
