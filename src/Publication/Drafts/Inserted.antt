-- ===== src/Publication/Drafts/Inserted.antt =====
-- The insertion of a draft's citations meets no constraint of their table
-- (`create_draft` of services/platform/src/shaidago/review/publication.py).
use shaidago.Base.{
  ℕ, suc, ◌≤◌, ◌≡◌, ◌≢◌, inl, inr, refl, ap, subst, ◌∙◌, true, false, ◌&&◌, List, [], ◌∷◌, All, ok,
  ◌==◌, ==_iff, same_text, same_text_iff, bind-ok, arith, Bool-cases, ok-injective,
}
use shaidago.Publication.Tables.{
  DraftCitation, SourceVersion, select_version, citation_check, passage_matches,
}
use shaidago.Publication.Drafts.{
  CitationInput, Draws, is_seen, clashes, insert_citation, citation_row, insert_citations,
}
use shaidago.Publication.Tables.Sound.{AreDistinct, repeats}
use shaidago.Publication.Drafts.Created.{Located, Apart}

-- The citation that a row was made of.
abbrev pub input_of : DraftCitation → CitationInput
input_of d = record {
  source_version_id = d.source_version_id;
  passage = d.passage;
  location_label = d.location_label;
}

-- A citation is seen by its version and its label.
is_seen-key :
    (c d : CitationInput) (seen : List CitationInput)
    → c.source_version_id ≡ d.source_version_id
    → c.location_label ≡ d.location_label
    → is_seen c seen ≡ is_seen d seen
is_seen-key c d seen v l =
    ap
      (λ t.
        is_seen
          (record { source_version_id = t; passage = c.passage; location_label = c.location_label })
          seen)
      v
    ∙ ap
        (λ t.
          is_seen
            (record {
              source_version_id = d.source_version_id;
              passage = c.passage;
              location_label = t;
            })
            seen)
        l

module _ (draws : Draws) where
  -- A row neither takes an identifier that is still to be drawn, nor belongs to the draft unless
  -- its citation was seen.
  abbrev pub IsBefore : ℕ → List CitationInput → DraftCitation → Type 0
  IsBefore index seen d =
      ((k : ℕ) → index ≤ k → d.id ≢ draws.citation_ids k)
      × ((d.public_update_id == draws.draft_id) ≡ true → is_seen (input_of d) seen ≡ true)

  clashes-IsBefore :
      (index : ℕ) (seen : List CitationInput) (l : CitationInput × ℕ) (rows : List DraftCitation)
      → is_seen l.0 seen ≡ false
      → All (IsBefore index seen) rows
      → clashes (citation_row draws index l) rows ≡ false
  unfolding clashes
  clashes-IsBefore index seen l [] new a = refl
  clashes-IsBefore index seen l (d ∷ rows) new ((id, own), a) =
      let other_id : (d.id == draws.citation_ids index) ≡ false =
        other_number d.id (draws.citation_ids index) (id index (omega arith)) in
      rw (other_id, other_key, clashes-IsBefore index seen l rows new a) refl
    where
      other_number : (m n : ℕ) → m ≢ n → (m == n) ≡ false
      other_number m n h = ground arith

      other_key :
          (d.public_update_id == draws.draft_id
            && d.source_version_id == l.0.source_version_id
            && same_text d.location_label l.0.location_label)
          ≡ false
      other_key = elim (Bool-cases (d.public_update_id == draws.draft_id)) [
        | inr no_own ↦ rw no_own refl
        | inl its ↦ elim (Bool-cases (d.source_version_id == l.0.source_version_id)) [
          | inr no_version ↦ rw (its, no_version) refl
          | inl version ↦ elim (Bool-cases (same_text d.location_label l.0.location_label)) [
            | inr no_label ↦ rw (its, version, no_label) refl
            | inl label ↦
                let key =
                  is_seen-key (input_of d) l.0 seen
                    ((==_iff d.source_version_id l.0.source_version_id).0 version)
                    ((same_text_iff d.location_label l.0.location_label).0 label) in
                absurd (ground (arith, own its, key, new))
          ]
        ]
      ]

  module _ (versions : List SourceVersion)
      (distinct_ids : (j k : ℕ) → draws.citation_ids j ≡ draws.citation_ids k → j ≡ k) where
    IsBefore-later :
        (index : ℕ) (seen : List CitationInput) (l : CitationInput × ℕ) (rows : List DraftCitation)
        → All (IsBefore index seen) rows
        → All (IsBefore (suc index) (l.0 ∷ seen)) rows
    IsBefore-later index seen l [] a = tt
    IsBefore-later index seen l (d ∷ rows) ((id, own), a) = (
      (λ k h. id k (omega arith), λ its. rw (own its) (ground arith)),
      IsBefore-later index seen l rows a,
    )

    IsBefore-new :
        (index : ℕ) (seen : List CitationInput) (l : CitationInput × ℕ)
        → IsBefore (suc index) (l.0 ∷ seen) (citation_row draws index l)
    IsBefore-new index seen l = (
      λ k h same. absurd (omega (arith, distinct_ids index k same)),
      λ its.
          rw
            (
              (==_iff l.0.source_version_id l.0.source_version_id).1 refl,
              (same_text_iff l.0.location_label l.0.location_label).1 refl,
            )
            refl,
    )

    -- Located citations that are apart and fit their columns are inserted.
    pub insert_citations-total :
        (index : ℕ) (seen : List CitationInput) (ls : List (CitationInput × ℕ))
        (rows : List DraftCitation)
        → All (Located versions) ls
        → Apart seen ls
        → All (λ l. citation_check l.0.passage l.0.location_label ≡ true) ls
        → All (IsBefore index seen) rows
        → (rows' : List DraftCitation) × (insert_citations versions draws index ls rows ≡ ok rows')
    unfolding insert_citations insert_citation
    insert_citations-total index seen [] rows located apart fit before = (rows, refl)
    insert_citations-total index seen (l ∷ ls) rows ((may, stands), located) (new, apart)
          (fits, fit) before =
        let clear = clashes-IsBefore index seen l rows new before in
        let (rows', rest) =
          insert_citations-total (suc index) (l.0 ∷ seen) ls (citation_row draws index l ∷ rows)
            located apart fit
            (IsBefore-new index seen l, IsBefore-later index seen l rows before) in
        (rows', rw (fits, stands, clear) rest)

-- Every row satisfies the checks of the table and stands in its version.
abbrev pub Standing : List SourceVersion → List DraftCitation → Type 0
Standing versions = All (λ c.
    (citation_check c.passage c.location_label ≡ true)
    × (passage_matches (select_version c.source_version_id versions) c.passage c.passage_start
        ≡ true))

insert_citation-ok :
    (versions : List SourceVersion) (c : DraftCitation) (rows : List DraftCitation)
    {rows' : List DraftCitation}
    → insert_citation versions c rows ≡ ok rows'
    → (clashes c rows ≡ false) × (c ∷ rows ≡ rows')
unfolding insert_citation
insert_citation-ok versions c rows h = elim (Bool-cases (clashes c rows)) [
  | inl clash ↦ absurd (ground (arith, rw clash at h))
  | inr clear ↦ (clear, ground (arith, rw clear at h))
]

-- Rows that are inserted satisfy the checks and stand.
pub insert_citations-Standing :
    (versions : List SourceVersion) (draws : Draws) (index : ℕ) (ls : List (CitationInput × ℕ))
    (rows : List DraftCitation) {rows' : List DraftCitation}
    → Standing versions rows
    → insert_citations versions draws index ls rows ≡ ok rows'
    → Standing versions rows'
unfolding insert_citations insert_citation
insert_citations-Standing versions draws index [] rows {rows'} s h =
    let same : rows ≡ rows' = ground arith in subst (Standing versions) same s
insert_citations-Standing versions draws index (l ∷ ls) rows s h =
    let c = citation_row draws index l in
    bind-ok (insert_citation versions c rows) _ h λ next e1 h1.
      elim (Bool-cases (citation_check c.passage c.location_label)) [
        | inr unfit ↦ absurd (ground (arith, rw unfit at e1))
        | inl fits ↦
            elim (Bool-cases (
              passage_matches (select_version c.source_version_id versions) c.passage
                c.passage_start)) [
                  | inr falls ↦ absurd (ground (arith, rw (fits, falls) at e1))
                  | inl stands ↦ elim (Bool-cases (clashes c rows)) [
                    | inl clash ↦ absurd (ground (arith, rw (fits, stands, clash) at e1))
                    | inr clear ↦
                        let same : c ∷ rows ≡ next =
                          ground (arith, rw (fits, stands, clear) at e1) in
                        insert_citations-Standing versions draws (suc index) ls next
                          (subst (Standing versions) same ((fits, stands), s)) h1
                  ]
                ]
      ]

clashes-repeats :
    (c : DraftCitation) (rows : List DraftCitation)
    → clashes c rows ≡ false
    → repeats c rows ≡ false
unfolding clashes repeats
clashes-repeats c [] h = refl
clashes-repeats c (d ∷ rows) h = ground (arith, clashes-repeats c rows)

-- Rows that are inserted have keys of their own.
pub insert_citations-AreDistinct :
    (versions : List SourceVersion) (draws : Draws) (index : ℕ) (ls : List (CitationInput × ℕ))
    (rows : List DraftCitation) {rows' : List DraftCitation}
    → AreDistinct rows
    → insert_citations versions draws index ls rows ≡ ok rows'
    → AreDistinct rows'
unfolding insert_citations
insert_citations-AreDistinct versions draws index [] rows a h = subst AreDistinct (ok-injective h) a
insert_citations-AreDistinct versions draws index (l ∷ ls) rows a h =
    let c = citation_row draws index l in
    bind-ok (insert_citation versions c rows) _ h λ next e1 h1.
      let (clear, same) = insert_citation-ok versions c rows e1 in
      insert_citations-AreDistinct versions draws (suc index) ls next
        (subst AreDistinct same (clashes-repeats c rows clear, a)) h1
