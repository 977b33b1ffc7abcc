-- ===== src/Publication/Preview/Quotes.antt =====
-- The citations that a preview shows are those that a publication writes, in another order
-- (services/platform/src/shaidago/review/publication.py).
use mathlib.Core.List.{Perm}
use mathlib.Core.List.Perm
use shaidago.Base.{
  ℕ, ◌≡◌, refl, sym, ap, subst, ◌∙◌, Bool, true, ◌&&◌, ◌||◌, not, List, [], ◌∷◌, All, some, ltb,
  ◌==◌, ==_iff, is_some, Text, map, arith, Bool-cases, Option-cases, inl, inr,
}
use shaidago.Publication.Sources.{citable}
use shaidago.Publication.Tables.{
  DraftCitation, SourceVersion, Source, UpdateCitation, select_version, citable_of, update_citation,
}
use shaidago.Publication.Preview.{
  Cited, PreviewCitation, select_source, join_citations, insert_cited, order_cited,
  preview_citation, citable_cited,
}

-- A quotation: the version of a source, the passage and where it stands.
abbrev pub Quote : Type 0
Quote = ℕ × Text × Text

abbrev pub shown_quote : PreviewCitation → Quote
shown_quote c = (c.source_version_id, c.passage, c.location_label)

abbrev pub written_quote : UpdateCitation → Quote
written_quote c = (c.source_version_id, c.passage, c.location_label)

abbrev quotes : List Cited → List Quote
quotes cs = map shown_quote (map preview_citation (citable_cited cs))

swap_quotes : (c d : Cited) (ds : List Cited) → Perm (quotes (d ∷ c ∷ ds)) (quotes (c ∷ d ∷ ds))
unfolding citable_cited
swap_quotes c d ds = elim (Bool-cases (citable c.version.review_state)) [
  | inl c_is ↦ elim (Bool-cases (citable d.version.review_state)) [
    | inl d_is ↦ rw (c_is, d_is) (Perm.swap _ _ _)
    | inr d_not ↦ rw (c_is, d_not) (Perm.refl _)
  ]
  | inr c_not ↦ elim (Bool-cases (citable d.version.review_state)) [
    | inl d_is ↦ rw (c_not, d_is) (Perm.refl _)
    | inr d_not ↦ rw (c_not, d_not) (Perm.refl _)
  ]
]

cons_quotes :
    (c : Cited) (ds es : List Cited)
    → Perm (quotes ds) (quotes es)
    → Perm (quotes (c ∷ ds)) (quotes (c ∷ es))
unfolding citable_cited
cons_quotes c ds es p = elim (Bool-cases (citable c.version.review_state)) [
  | inl c_is ↦ rw c_is (Perm.cons _ p)
  | inr c_not ↦ rw c_not p
]

module _ (before : Text → Text → Bool) where
  insert_cited-perm :
      (c : Cited) (ds : List Cited) → Perm (quotes (insert_cited before c ds)) (quotes (c ∷ ds))
  unfolding insert_cited
  insert_cited-perm c [] = Perm.refl _
  insert_cited-perm c (d ∷ ds) =
      elim (Bool-cases (
        before d.citation.location_label c.citation.location_label
        || (not (before c.citation.location_label d.citation.location_label)
            && ltb d.source.id c.source.id))) [
              | inl later ↦ rw later (
                  Perm.trans
                    (cons_quotes d (insert_cited before c ds) (c ∷ ds) (insert_cited-perm c ds))
                    (swap_quotes c d ds))
              | inr here ↦ rw here (Perm.refl _)
            ]

  order_cited-perm : (cs : List Cited) → Perm (quotes (order_cited before cs)) (quotes cs)
  unfolding order_cited
  order_cited-perm [] = Perm.refl _
  order_cited-perm (c ∷ cs) =
      Perm.trans (insert_cited-perm c (order_cited before cs))
        (cons_quotes c (order_cited before cs) cs (order_cited-perm cs))

select_version-id :
    (i : ℕ) (versions : List SourceVersion) {v : SourceVersion}
    → select_version i versions ≡ some v
    → v.id ≡ i
unfolding select_version
select_version-id i [] h = absurd (ground arith)
select_version-id i (w ∷ versions) {v} h = elim (Bool-cases (w.id == i)) [
  | inl here ↦ let same : w ≡ v = ground arith in ap (λ t. t.id) (sym same) ∙ (==_iff w.id i).0 here
  | inr there ↦ select_version-id i versions (rw there at h)
]

-- Every version has its source: the foreign key of app.source_versions.
abbrev pub HaveSources : List Source → List SourceVersion → Type 0
HaveSources sources versions =
    All (λ v. is_some (select_source v.source_id sources) ≡ true) versions

source_of :
    (i : ℕ) (sources : List Source) (versions : List SourceVersion) {v : SourceVersion}
    → HaveSources sources versions
    → select_version i versions ≡ some v
    → (s : Source) × (select_source v.source_id sources ≡ some s)
unfolding select_version
source_of i sources [] have h = absurd (ground arith)
source_of i sources (w ∷ versions) {v} (has, have) h = elim (Bool-cases (w.id == i)) [
  | inl here ↦
      let same : w ≡ v = ground arith in
      elim (Option-cases (select_source v.source_id sources)) [
        | inl missing ↦ absurd (ground (arith, rw (same, missing) at has))
        | inr found ↦ found
      ]
  | inr there ↦ source_of i sources versions have (rw there at h)
]

-- The quotations of the joined rows are those of the rows that are written.
join_quotes :
    (i now : ℕ) (versions : List SourceVersion) (sources : List Source) (cs : List DraftCitation)
    → HaveSources sources versions
    → quotes (join_citations i versions sources cs)
      ≡ map written_quote (map (update_citation i now) (citable_of i versions cs))
unfolding join_citations citable_of citable_cited
join_quotes i now versions sources [] have = refl
join_quotes i now versions sources (c ∷ cs) have = elim (Bool-cases (c.public_update_id == i)) [
  | inr other ↦ rw other (join_quotes i now versions sources cs have)
  | inl of_it ↦ elim (Option-cases (select_version c.source_version_id versions)) [
    | inl missing ↦ rw (of_it, missing) (join_quotes i now versions sources cs have)
    | inr (v, found) ↦
        let (s, source) = source_of c.source_version_id sources versions have found in
        let id = select_version-id c.source_version_id versions found in
        elim (Bool-cases (citable v.review_state)) [
          | inl may ↦
              rw (of_it, found, source, may, id, join_quotes i now versions sources cs have) refl
          | inr may_not ↦
              rw (of_it, found, source, may_not) (join_quotes i now versions sources cs have)
        ]
  ]
]

pub shown-written :
    (before : Text → Text → Bool) (i now : ℕ) (versions : List SourceVersion)
    (sources : List Source) (cs : List DraftCitation)
    → HaveSources sources versions
    → Perm
        (quotes (order_cited before (join_citations i versions sources cs)))
        (map written_quote (map (update_citation i now) (citable_of i versions cs)))
shown-written before i now versions sources cs have =
    subst (λ t. Perm (quotes (order_cited before (join_citations i versions sources cs))) t)
      (join_quotes i now versions sources cs have)
      (order_cited-perm before (join_citations i versions sources cs))
