-- ===== src/Publication/Preview/Total.antt =====
-- A confirmed preview without issues is published: `publish`
-- (services/platform/src/shaidago/review/publication.py) meets no fault of the tables.
use shaidago.Base.{
  some-injective, subst, ◌++◌, ℕ, ◌+◌, ◌/◌, ◌≤◌, ◌≡◌, refl, sym, ap, ◌∙◌, Bool, true, false, ◌&&◌,
  ◌||◌, not, List, [], ◌∷◌, All, Option, none, some, ok, any, leb, ltb, length, ◌==◌, ==_iff, Text,
  map, arith, Bool-cases, Option-cases, inl, inr, true_of_not,
}
use shaidago.Report.Machine.{verified_for_public_update, ◌is_status◌}
use shaidago.Report.Decision.{Reviewer}
use shaidago.Publication.Sources.{
  is_empty, VerificationState, awaiting_verification, verified_official, corroborated,
  community_reviewed, disputed, outdated, Citation, gap, citable, date_in_future, not_draft,
  not_verified_for_public_update, publication_gaps, lagos_date,
}
use shaidago.Publication.Sources.Gaps.{Backed, publication_gaps_iff, append-nil_iff, gap-nil}
use shaidago.Publication.Tables.{
  Draft, DraftCitation, SourceVersion, Source, Reported, Db, select_reported, select_version,
  is_draft, is_awaiting, not_after, citable_of, version_citable, has_update, citation_check,
  passage_matches, update_check, is_repeated, cites_for, public_update_cited, update_citation,
  UpdateCitation, ProjectUpdate, may_publish, was_published, publish_public_update,
}
use shaidago.Publication.Tables.Writing.{Stand, after_publication, publish_public_update-total}
use shaidago.Publication.Tables.Sound.{
  IsSound, AreDistinct, AreOwned, repeats, same_place, All-select,
}
use shaidago.Publication.Drafts.{no_errors}
use shaidago.Publication.Preview.{
  Cited, Body, PublishDraws, Surroundings, select_source, join_citations, insert_cited, order_cited,
  citation_of, cited_rows, shown, preview_issues, preview_body, build_preview, published_result,
  publish_call, lock_draft, publish,
}
use shaidago.Publication.Preview.Confirmed.{Previewed, build_preview-ok, select_draft-id}

module _ (i now : ℕ) (versions : List SourceVersion) (rows : List UpdateCitation)
    (fresh : All (λ u. (u.update_id == i) ≡ false) rows) where
  is_repeated-rows :
      (c : DraftCitation) (us : List UpdateCitation)
      → All (λ u. (u.update_id == i) ≡ false) us
      → is_repeated (update_citation i now c) us ≡ false
  unfolding is_repeated
  is_repeated-rows c [] a = refl
  is_repeated-rows c (u ∷ us) (other, a) = rw (other, is_repeated-rows c us a) refl

  -- A citation of the draft that is not repeated there is not repeated among the public ones.
  is_repeated-repeats :
      (c : DraftCitation) (cs : List DraftCitation)
      → (c.public_update_id == i) ≡ true
      → repeats c cs ≡ false
      → is_repeated
          (update_citation i now c)
          (map (update_citation i now) (citable_of i versions cs) ++ rows)
        ≡ false
  unfolding is_repeated repeats citable_of
  is_repeated-repeats c [] own h = is_repeated-rows c rows fresh
  is_repeated-repeats c (e ∷ cs) own h =
      let apart : same_place c e ≡ false = or-left (same_place c e) (repeats c cs) h in
      let rest = is_repeated-repeats c cs own (or-right (same_place c e) (repeats c cs) h) in
      elim (Bool-cases (
        e.public_update_id == i && version_citable (select_version e.source_version_id versions))) [
          | inr left ↦ rw left rest
          | inl kept ↦ rw (kept, rest) (ground arith)
        ]
    where
      or-left : (a b : Bool) → (a || b) ≡ false → a ≡ false
      or-left a b h = ground arith

      or-right : (a b : Bool) → (a || b) ≡ false → b ≡ false
      or-right a b h = ground arith

  Stand-citable_of :
      (cs : List DraftCitation)
      → All
          (λ c.
            (citation_check c.passage c.location_label ≡ true)
            × (passage_matches
                  (select_version c.source_version_id versions)
                  c.passage
                  c.passage_start
                ≡ true))
          cs
      → AreDistinct cs
      → Stand i now versions rows (citable_of i versions cs)
  unfolding citable_of
  Stand-citable_of [] a apart = tt
  Stand-citable_of (c ∷ cs) ((check, stands), a) (first, apart) =
      elim (Bool-cases (
        c.public_update_id == i && version_citable (select_version c.source_version_id versions))) [
          | inl kept ↦ rw kept (
            check,
            stands,
            is_repeated-repeats c cs (ground arith) first,
            Stand-citable_of cs a apart,
          )
          | inr left ↦ rw left (Stand-citable_of cs a apart)
        ]

-- The public rows that are there cite for other updates.
AreOwned-fresh :
    (i : ℕ) (public : List ProjectUpdate) (us : List UpdateCitation)
    → has_update i public ≡ false
    → All (λ u. has_update u.update_id public ≡ true) us
    → All (λ u. (u.update_id == i) ≡ false) us
AreOwned-fresh i public [] new a = tt
AreOwned-fresh i public (u ∷ us) new (there, a) = (
  elim (Bool-cases (u.update_id == i)) [
    | inr other ↦ other
    | inl same ↦ absurd (
        ground (
          arith,
          new,
          subst (λ n. has_update n public ≡ true) ((==_iff u.update_id i).0 same) there,
        ))
  ],
  AreOwned-fresh i public us new a,
)

-- A draft with a citation that the public may see passes the trigger at the end of the transaction.
public_update_cited-citable_of :
    (i now : ℕ) (versions : List SourceVersion) (cs : List DraftCitation)
    (rows : List UpdateCitation)
    → is_empty (citable_of i versions cs) ≡ false
    → any (cites_for i versions) (map (update_citation i now) (citable_of i versions cs) ++ rows)
      ≡ true
unfolding citable_of
public_update_cited-citable_of i now versions [] rows h = cc
public_update_cited-citable_of i now versions (c ∷ cs) rows h =
    elim (Bool-cases
      (c.public_update_id == i && version_citable (select_version c.source_version_id versions))) [
        | inl kept ↦
            let may : version_citable (select_version c.source_version_id versions) ≡ true =
              ground arith in
            rw (kept, (==_iff i i).1 refl, may) refl
        | inr left ↦ rw left (public_update_cited-citable_of i now versions cs rows (rw left at h))
      ]

abbrev any_citable : List Cited → Bool
any_citable cs = any (λ (c : Citation). citable c.review_state) (map citation_of cs)

any-insert_cited :
    (before : Text → Text → Bool) (c : Cited) (ds : List Cited)
    → any_citable (insert_cited before c ds) ≡ any_citable (c ∷ ds)
unfolding insert_cited
any-insert_cited before c [] = refl
any-insert_cited before c (d ∷ ds) =
    elim (Bool-cases (
      before d.citation.location_label c.citation.location_label
      || (not (before c.citation.location_label d.citation.location_label)
          && ltb d.source.id c.source.id))) [
            | inl later ↦ rw (later, any-insert_cited before c ds) (ground arith)
            | inr here ↦ rw here refl
          ]

any-order_cited :
    (before : Text → Text → Bool) (cs : List Cited)
    → any_citable (order_cited before cs) ≡ any_citable cs
unfolding order_cited
any-order_cited before [] = refl
any-order_cited before (c ∷ cs) =
    any-insert_cited before c (order_cited before cs)
    ∙ ap (λ b. citable c.version.review_state || b) (any-order_cited before cs)

citable_of-some :
    (i : ℕ) (versions : List SourceVersion) (sources : List Source) (cs : List DraftCitation)
    → any_citable (join_citations i versions sources cs) ≡ true
    → is_empty (citable_of i versions cs) ≡ false
unfolding join_citations citable_of
citable_of-some i versions sources [] h = cc
citable_of-some i versions sources (c ∷ cs) h = elim (Bool-cases (c.public_update_id == i)) [
  | inr other ↦ rw other (citable_of-some i versions sources cs (rw other at h))
  | inl of_it ↦ elim (Option-cases (select_version c.source_version_id versions)) [
    | inl missing ↦
        rw (of_it, missing) (citable_of-some i versions sources cs (rw (of_it, missing) at h))
    | inr (v, found) ↦ elim (Bool-cases (citable v.review_state)) [
      | inl may ↦ rw (of_it, found, may) refl
      | inr may_not ↦ elim (Option-cases (select_source v.source_id sources)) [
        | inl lost ↦
            rw (of_it, found, may_not)
              (citable_of-some i versions sources cs (rw (of_it, found, lost) at h))
        | inr (s, source) ↦
            rw (of_it, found, may_not)
              (citable_of-some i versions sources cs (rw (of_it, found, source, may_not) at h))
      ]
    ]
  ]
]

Backed-awaiting :
    (state : VerificationState) (cs : List Citation) → Backed state cs → is_awaiting state ≡ false
Backed-awaiting awaiting_verification cs b = absurd b
Backed-awaiting verified_official cs b = refl
Backed-awaiting corroborated cs b = refl
Backed-awaiting community_reviewed cs b = refl
Backed-awaiting disputed cs b = refl
Backed-awaiting outdated cs b = refl

not_after_later :
    (checked : Option ℕ) (today now : ℕ)
    → today ≤ now
    → not_after checked (lagos_date today) ≡ true
    → not_after checked (lagos_date now) ≡ true
unfolding lagos_date
not_after_later none today now h a = refl
not_after_later (some d) today now h a =
    let grown : (today + 3600000000) / 86400000000 ≤ (now + 3600000000) / 86400000000 =
      omega arith in
    ground arith

checked :
    (d : Draft) (today now : ℕ)
    → today ≤ now
    → (leb 10 (length d.statement) && leb (length d.statement) 2000) ≡ true
    → is_awaiting d.verification_state ≡ false
    → not_after d.last_checked_on (lagos_date today) ≡ true
    → update_check d now ≡ true
unfolding update_check
checked d today now clock bounds backed dated =
    let long : leb 1 (length d.statement) ≡ true = ground arith in
    let short : leb (length d.statement) 2000 ≡ true = ground arith in
    rw (long, short, backed, not_after_later d.last_checked_on today now clock dated) refl

-- What no issue means.
record IsClear (env : Surroundings) (today : ℕ) (d : Draft) (r : Reported) (db : Db) : Type 0 where
  was_draft : is_draft d.state ≡ true
  verified : (r.status is_status verified_for_public_update) ≡ true
  backed : is_awaiting d.verification_state ≡ false
  cited : is_empty (citable_of d.id db.versions db.citations) ≡ false
  dated : not_after d.last_checked_on (lagos_date today) ≡ true

preview_issues-nil :
    (env : Surroundings) (today : ℕ) (d : Draft) (r : Reported) (db : Db)
    → preview_issues env today d r (cited_rows env d.id db) (shown env d.id db) ≡ []
    → IsClear env today d r db
unfolding preview_issues
preview_issues-nil env today d r db h =
    let rows = cited_rows env d.id db in
    let draft_gap = (append-nil_iff (gap (not (is_draft d.state)) not_draft) _).0 h in
    let status_gap =
      (append-nil_iff
          (gap (not (r.status is_status verified_for_public_update)) not_verified_for_public_update)
          _).0
        draft_gap.1 in
    let claim_gaps =
      (append-nil_iff
          (publication_gaps d.verification_state (map citation_of rows) (some d.effective_on)
            d.last_checked_on)
          _).0
        status_gap.1 in
    let date_gap =
      (append-nil_iff (gap (not (not_after d.last_checked_on (lagos_date today))) date_in_future)
          _).0
        claim_gaps.1 in
    let publishable =
      (publication_gaps_iff d.verification_state (map citation_of rows) (some d.effective_on)
          d.last_checked_on).0
        claim_gaps.0 in
    record {
      was_draft = true_of_not _ ((gap-nil _ not_draft).0 draft_gap.0);
      verified = true_of_not _ ((gap-nil _ not_verified_for_public_update).0 status_gap.0);
      backed = Backed-awaiting d.verification_state (map citation_of rows) publishable.2;
      cited = citable_of-some d.id db.versions db.sources db.citations (
          sym (
            any-order_cited env.label_before
              (join_citations d.id db.versions db.sources db.citations))
          ∙ publishable.0);
      dated = true_of_not _ ((gap-nil _ date_in_future).0 date_gap.0);
    }

module _ (env : Surroundings) (today report_id i : ℕ) (db : Db) {body : Body}
    (p : Previewed env today report_id i db body) where
  Previewed-IsClear : body.issues ≡ [] → IsClear env today p.d p.r db
  unfolding preview_body
  Previewed-IsClear clear =
      preview_issues-nil env today p.d p.r db (ap (λ (b : Body). b.issues) p.shows ∙ clear)

  Previewed-fields :
      (body.state ≡ p.d.state)
      × (body.report_status ≡ p.r.status)
      × (body.report_version ≡ p.r.version)
  unfolding preview_body
  Previewed-fields = (
    ap (λ (b : Body). b.state) (sym p.shows),
    ap (λ (b : Body). b.report_status) (sym p.shows),
    ap (λ (b : Body). b.report_version) (sym p.shows),
  )

  lock_draft-ok : lock_draft env report_id i db ≡ ok p.d
  unfolding lock_draft
  lock_draft-ok =
      let its : (p.d.report_id == report_id) ≡ true = (==_iff p.d.report_id report_id).1 p.of_it in
      rw (p.found, its, p.report) refl

module _ (env : Surroundings) (reviewer : Reviewer) (draws : PublishDraws) (report_id i : ℕ) where
  confirmed_writes :
      (db : Db) {preview : Body}
      → IsSound db
      → AreOwned db
      → draws.today ≤ draws.now
      → may_publish reviewer.actor_type ≡ true
      → (p : Previewed env draws.today report_id i db preview) → IsClear env draws.today p.d p.r db
      → preview.report_version ≡ p.r.version
      → publish_public_update (publish_call env reviewer draws preview) i db
        ≡ ok (
          was_published,
          after_publication (publish_call env reviewer draws preview) p.d p.r.version db,
        )
  confirmed_writes db {preview} sound owned clock may p c version =
      let d = p.d in
      let r = p.r in
      let report : select_reported d.report_id db.reports ≡ some r =
        ap (λ t. select_reported t db.reports) p.of_it ∙ p.report in
      let current : (r.version == preview.report_version) ≡ true = ground arith in
      let project : d.project_id ≡ r.project_id =
        let (r', report', same) = All-select _ i db.drafts sound.placed p.found in
        same ∙ ap (λ (t : Reported). t.project_id) (some-injective (sym report' ∙ report)) in
      let bounds : (leb 10 (length d.statement) && leb (length d.statement) 2000) ≡ true =
        All-select _ i db.drafts sound.bounded p.found in
      let fresh : has_update d.id db.public ≡ false =
        All-select _ i db.drafts sound.unpublished p.found c.was_draft in
      publish_public_update-total (publish_call env reviewer draws preview) i db sound.keyed p.found
        (select_draft-id i db.drafts p.found) report c.was_draft (rw c.verified refl)
        (rw current refl) (ground arith) c.cited
        (Stand-citable_of d.id draws.now db.versions db.public_citations
          (AreOwned-fresh d.id db.public db.public_citations fresh owned) db.citations
          sound.standing sound.distinct)
        (checked d draws.today draws.now clock bounds c.backed c.dated) fresh may

  -- In sound tables whose public citations belong to public updates, a preview without issues that a
  -- reviewer or an admin confirms as it stands is published, where the clock does not run backwards
  -- during the call: no check, trigger or unique key of the tables and no other refusal is met, and
  -- the trigger that is deferred to the end of the transaction passes.
  pub publish-succeeds :
      (db : Db) {preview : Body}
      → IsSound db
      → AreOwned db
      → draws.today ≤ draws.now
      → may_publish reviewer.actor_type ≡ true
      → build_preview env draws.today report_id i db ≡ ok preview
      → preview.issues ≡ []
      → env.same_digest (env.digest preview) (env.digest preview) ≡ true
      → (db' : Db) × (publish env reviewer draws report_id i (env.digest preview) db
          ≡ ok (published_result env i preview draws.now, db'))
        × (public_update_cited i db' ≡ true)
  unfolding publish public_update_cited
  publish-succeeds db {preview} sound owned clock may built clear agreed =
      let p = build_preview-ok env draws.today report_id i db built in
      let d = p.d in
      let r = p.r in
      let c = Previewed-IsClear env draws.today report_id i db p clear in
      let db' = after_publication (publish_call env reviewer draws preview) d r.version db in
      let state = Previewed-fields env draws.today report_id i db p in
      let was : is_draft preview.state ≡ true = ap is_draft (state.0) ∙ c.was_draft in
      let verified : (preview.report_status is_status verified_for_public_update) ≡ true =
        ap (λ t. t is_status verified_for_public_update) state.1 ∙ c.verified in
      let written = confirmed_writes db sound owned clock may p c state.2 in
      let locked = lock_draft-ok env draws.today report_id i db p in
      let unissued : no_errors preview.issues ≡ true = rw clear refl in
      let id : d.id ≡ i = select_draft-id i db.drafts p.found in
      let rows =
        public_update_cited-citable_of d.id draws.now db.versions db.citations db.public_citations
          c.cited in
      (
        db',
        rw (locked, built, was, verified, agreed, unissued, written) refl,
        subst (λ t. any (cites_for t db.versions) db'.public_citations ≡ true) id rows,
      )
