-- ===== src/Publication/Preview.antt =====
-- The preview of a draft and its confirmation: `build_preview` and `publish`
-- (services/platform/src/shaidago/review/publication.py). The digest of a preview (JSON and
-- SHA-256), the collation of labels, the lower case of characters outside ASCII and the private
-- context that is decrypted for a report are parameters.
pub mod Quotes
pub mod Confirmed
pub mod Total
use shaidago.Base.{
  ℕ, zero, suc, ◌+◌, Bool, true, false, ◌&&◌, ◌||◌, not, List, [], ◌∷◌, ◌++◌, Option, none, some,
  Result, ok, err, ◌>>=◌, ◌>>◌, guard, any, leb, ltb, length, ◌==◌, if◌then◌else◌, is_none, Text,
  map,
}
use shaidago.Problems.{
  Problem, not_found, public_update_report_not_verified, public_update_not_draft,
  publication_incomplete, preview_stale,
}
use shaidago.Report.Machine.{Status, verified_for_public_update, ◌is_status◌}
use shaidago.Report.Decision.{Reviewer}
use shaidago.Publication.Sources.{
  InformationClass, official_source, independent_source, community_evidence_reviewed,
  VerificationState, Citation, Issue, date_in_future, not_draft, not_verified_for_public_update,
  private_reference, unsupported_term, approved_citation_required, gap, citable, lagos_date,
  publication_gaps,
}
use shaidago.Publication.Words.{unsupported_terms}
use shaidago.Publication.Tables.{
  UpdateState, Draft, DraftCitation, SourceVersion, Source, Reported, Db, DbError, Outcome,
  PublishCall, select_reported, select_draft, select_version, is_draft, not_after,
  publish_public_update, was_published, was_not_found, was_not_draft, wrong_report_state, stale,
  project_mismatch, no_citation,
}
use shaidago.Publication.Drafts.{Failure, problem, stored, or_raise, of_report, no_errors}

-- A citation joined with its version and its source.
pub record Cited : Type 0 where
  pub citation : DraftCitation
  pub version : SourceVersion
  pub source : Source

pub record PreviewCitation : Type 0 where
  pub source_version_id : ℕ
  pub source_id : ℕ
  pub source_title : Text
  pub publisher : Text
  pub canonical_url : Text
  pub source_type : Text
  pub information_class : InformationClass
  pub retrieved_at : ℕ
  pub passage : Text
  pub location_label : Text

-- What the digest of a preview is made of; `Preview` shows the same.
pub record Body : Type 0 where
  pub id : ℕ
  pub project : Text
  pub statement : Text
  pub effective_on : ℕ
  pub last_checked_on : Option ℕ
  pub verification_state : VerificationState
  pub information_class : InformationClass
  pub citations : List PreviewCitation
  pub report_status : Status
  pub report_version : ℕ
  pub state : UpdateState
  pub issues : List Issue

pub record Published : Type 0 where
  pub public_update_id : ℕ
  pub project_slug : Text
  pub published_at : ℕ

-- What `publish` draws from the clock and the identifiers, in this order.
pub record PublishDraws : Type 0 where
  pub today : ℕ
  pub now : ℕ
  pub audit_id : ℕ

unfoldable pub select_source : ℕ → List Source → Option Source
select_source i [] = none
select_source i (s ∷ ss) = if s.id == i then some s else select_source i ss

abbrev pub with_source : DraftCitation → SourceVersion → Option Source → List Cited → List Cited
with_source c v none rest = rest
with_source c v (some s) rest = record { citation = c; version = v; source = s } ∷ rest

abbrev pub with_version :
    DraftCitation → Option SourceVersion → List Source → List Cited → List Cited
with_version c none sources rest = rest
with_version c (some v) sources rest = with_source c v (select_source v.source_id sources) rest

-- `_CITATIONS`, before its order.
unfoldable pub join_citations :
    ℕ → List SourceVersion → List Source → List DraftCitation → List Cited
unfolding select_version select_source
join_citations i versions sources [] = []
join_citations i versions sources (c ∷ cs) =
    let rest = join_citations i versions sources cs in
    if c.public_update_id == i
    then with_version c (select_version c.source_version_id versions) sources rest
    else rest

-- `ORDER BY c.location_label, s.id`
unfoldable pub insert_cited : (Text → Text → Bool) → Cited → List Cited → List Cited
insert_cited before c [] = c ∷ []
insert_cited before c (d ∷ ds) =
    let rest = insert_cited before c ds in
    if before d.citation.location_label c.citation.location_label
      || (not (before c.citation.location_label d.citation.location_label)
          && ltb d.source.id c.source.id)
    then d ∷ rest
    else c ∷ d ∷ ds

unfoldable pub order_cited : (Text → Text → Bool) → List Cited → List Cited
unfolding insert_cited
order_cited before [] = []
order_cited before (c ∷ cs) = insert_cited before c (order_cited before cs)

abbrev pub citation_of : Cited → Citation
citation_of c = record {
  source_id = c.source.id;
  publisher = c.source.publisher;
  information_class = c.source.information_class;
  review_state = c.version.review_state;
}

abbrev pub preview_citation : Cited → PreviewCitation
preview_citation c = record {
  source_version_id = c.version.id;
  source_id = c.source.id;
  source_title = c.source.title;
  publisher = c.source.publisher;
  canonical_url = c.source.canonical_url;
  source_type = c.source.source_type;
  information_class = c.source.information_class;
  retrieved_at = c.version.retrieved_at;
  passage = c.citation.passage;
  location_label = c.citation.location_label;
}

unfoldable pub citable_cited : List Cited → List Cited
citable_cited [] = []
citable_cited (c ∷ cs) =
    if citable c.version.review_state then c ∷ citable_cited cs else citable_cited cs

-- `_CLASS_STRENGTH`
abbrev pub strength : InformationClass → ℕ
strength official_source = 0
strength independent_source = 1
strength community_evidence_reviewed = 2

abbrev pub stronger : InformationClass → Option InformationClass → InformationClass
stronger a none = a
stronger a (some b) = if ltb (strength b) (strength a) then b else a

unfoldable pub strongest : List PreviewCitation → Option InformationClass
strongest [] = none
strongest (c ∷ cs) = some (stronger c.information_class (strongest cs))

abbrev pub or_official : Option InformationClass → InformationClass
or_official none = official_source
or_official (some c) = c

abbrev pub passages : List PreviewCitation → List Text
passages [] = []
passages (c ∷ cs) = c.passage ∷ passages cs

-- What the preview takes from elsewhere: `private_codes` are the findings of
-- `find_private_references` on a statement and the private context of a report.
pub record Surroundings : Type 1 where
  pub Digest : Type 0
  pub digest : Body → Digest
  pub same_digest : Digest → Digest → Bool
  pub label_before : Text → Text → Bool
  pub lower_other : ℕ → Text
  pub private_codes : ℕ → Text → List Text

module _ (env : Surroundings) where
  -- The issues of a preview, in the order of the code.
  unfoldable pub preview_issues :
      ℕ → Draft → Reported → List Cited → List PreviewCitation → List Issue
  unfolding lagos_date unsupported_terms publication_gaps
  preview_issues today d report rows citations =
      gap (not (is_draft d.state)) not_draft
      ++ (gap (not (report.status is_status verified_for_public_update))
            not_verified_for_public_update
          ++ (publication_gaps d.verification_state (map citation_of rows) (some d.effective_on)
                d.last_checked_on
              ++ (gap (not (not_after d.last_checked_on (lagos_date today))) date_in_future
                  ++ ((if is_draft d.state
                        then map private_reference (env.private_codes report.id d.statement)
                        else [])
                      ++ map unsupported_term
                          (unsupported_terms env.lower_other d.statement (passages citations))))))

  abbrev pub cited_rows : ℕ → Db → List Cited
  cited_rows i db =
      order_cited env.label_before (join_citations i db.versions db.sources db.citations)

  abbrev pub shown : ℕ → Db → List PreviewCitation
  shown i db = map preview_citation (citable_cited (cited_rows i db))

  unfoldable pub preview_body : ℕ → Draft → Reported → Db → Body
  unfolding preview_issues strongest citable_cited order_cited join_citations
  preview_body today d report db = record {
    id = d.id;
    project = report.project_slug;
    statement = d.statement;
    effective_on = d.effective_on;
    last_checked_on = d.last_checked_on;
    verification_state = d.verification_state;
    information_class = or_official (strongest (shown d.id db));
    citations = shown d.id db;
    report_status = report.status;
    report_version = report.version;
    state = d.state;
    issues = preview_issues today d report (cited_rows d.id db) (shown d.id db);
  }

  -- `build_preview`, less the digest, which is `digest` of its result.
  unfoldable pub build_preview : ℕ → ℕ → ℕ → Db → Result Failure Body
  unfolding select_draft select_reported preview_body
  build_preview today report_id i db = do
    d ← or_raise not_found (of_report report_id (select_draft i db.drafts))
    report ← or_raise not_found (select_reported report_id db.reports)
    ok (preview_body today d report db)

  abbrev pub published_result : ℕ → Body → ℕ → Published
  published_result i preview now = record {
    public_update_id = i;
    project_slug = preview.project;
    published_at = now;
  }

  -- What the outcome of the database means to the caller.
  abbrev pub concluded : Published → Outcome × Db → Result Failure (Published × Db)
  concluded result (was_published, db) = ok (result, db)
  concluded result (stale, db) = err (problem preview_stale [])
  concluded result (wrong_report_state, db) = err (problem public_update_report_not_verified [])
  concluded result (project_mismatch, db) = err (problem public_update_report_not_verified [])
  concluded result (was_not_draft, db) = err (problem public_update_not_draft [])
  concluded result (was_not_found, db) = err (problem not_found [])
  concluded result (no_citation, db) =
      err (problem publication_incomplete (approved_citation_required ∷ []))

  abbrev pub publish_call : Reviewer → PublishDraws → Body → PublishCall
  publish_call reviewer draws preview = record {
    expected_version = preview.report_version;
    actor_type = reviewer.actor_type;
    actor_id = reviewer.actor_id;
    now = draws.now;
    audit_id = draws.audit_id;
    request_id = reviewer.request_id;
  }

  -- `_LOCK`: the draft of the report, and the report, are there.
  unfoldable pub lock_draft : ℕ → ℕ → Db → Result Failure Draft
  unfolding select_draft select_reported
  lock_draft report_id i db = do
    d ← or_raise not_found (of_report report_id (select_draft i db.drafts))
    report ← or_raise not_found (select_reported report_id db.reports)
    ok d

  unfoldable pub publish :
      Reviewer → PublishDraws → ℕ → ℕ → env.Digest → Db → Result Failure (Published × Db)
  publish reviewer draws report_id i confirmed_digest db = do
    locked ← lock_draft report_id i db
    preview ← build_preview draws.today report_id i db
    guard (is_draft preview.state) (problem public_update_not_draft [])
    guard (preview.report_status is_status verified_for_public_update)
        (problem public_update_report_not_verified [])
    guard (env.same_digest (env.digest preview) confirmed_digest) (problem preview_stale [])
    guard (no_errors preview.issues) (problem publication_incomplete preview.issues)
    outcome ← stored (publish_public_update (publish_call reviewer draws preview) i db)
    concluded (published_result i preview draws.now) outcome
