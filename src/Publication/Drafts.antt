-- ===== src/Publication/Drafts.antt =====
-- Drafts of a public update: `create_draft` and `withdraw`
-- (services/platform/src/shaidago/review/publication.py). What a call draws from the clock and the
-- identifiers enters as a record; a failure is a value, and the unit of work drops what was written.
pub mod Created
pub mod Inserted
pub mod Accepted
pub mod Total
pub mod Withdrawn
use Prim.Native.String.{String}
use shaidago.Base.{
  ℕ, zero, suc, ◌+◌, ◌-◌, Bool, true, false, ◌&&◌, ◌||◌, not, List, [], ◌∷◌, ◌++◌, Option, none,
  some, Result, ok, err, ◌>>=◌, ◌>>◌, guard, any, leb, ltb, length, take, ◌==◌, if◌then◌else◌,
  is_none, Text, same_text, strip,
}
use shaidago.Problems.{
  Problem, not_found, public_update_report_not_verified, public_update_not_draft,
  publication_incomplete, validation_failed,
}
use shaidago.Report.Machine.{verified_for_public_update, ◌is_status◌}
use shaidago.Report.Decision.{Reviewer, is_control}
use shaidago.Publication.Sources.{
  VerificationState, Issue, verification_required, date_in_future, one_to_five_required,
  invalid_statement, duplicate_citation, approved_source_required, passage_not_found, gap, citable,
  lagos_date,
}
use shaidago.Publication.Tables.{
  UpdateState, Draft, draft, withdrawn, DraftCitation, SourceVersion, Reported, UpdateEvent,
  public_update_drafted, public_update_withdrawn, UpdateAudit, Db, DbError, unique_violation,
  check_violation, select_reported, select_draft, select_version, is_draft, is_awaiting, not_after,
  update_drafts, citation_check, passage_matches,
}

-- What a call may raise: a problem with its field errors, or a fault of the database.
pub data Failure : Type 0 where
  problem : Problem → List Issue → Failure
  database : DbError → Failure

abbrev pub stored {ℓ} : {A : Type ℓ} → Result DbError A → Result Failure A
stored (ok a) = ok a
stored (err e) = err (database e)

abbrev pub or_raise {ℓ} : {A : Type ℓ} → Problem → Option A → Result Failure A
or_raise p none = err (problem p [])
or_raise p (some a) = ok a

abbrev pub max_citations : ℕ
max_citations = 5

abbrev pub min_statement_chars : ℕ
min_statement_chars = 10

abbrev pub max_statement_chars : ℕ
max_statement_chars = 2000

pub record CitationInput : Type 0 where
  pub source_version_id : ℕ
  pub passage : Text
  pub location_label : Text

pub record DraftInput : Type 0 where
  pub statement : Text
  pub effective_on : ℕ
  pub last_checked_on : Option ℕ
  pub verification_state : VerificationState
  pub citations : List CitationInput

-- What a call draws, in this order; the first time is read for the date of today.
pub record Draws : Type 0 where
  pub today : ℕ
  pub draft_id : ℕ
  pub now : ℕ
  pub citation_ids : ℕ → ℕ
  pub audit_id : ℕ
  pub audit_now : ℕ

unfoldable pub clean_statement : Text → Result Failure Text
clean_statement statement =
    let cleaned = strip statement in
    if not (leb min_statement_chars (length cleaned) && leb (length cleaned) max_statement_chars)
      || any (λ c. is_control c || c == 127) cleaned
      || any (λ c. c == b'<') cleaned
    then err (problem validation_failed (invalid_statement ∷ []))
    else ok cleaned

abbrev pub starts_with : Text → Text → Bool
starts_with [] s = true
starts_with (c ∷ p) [] = false
starts_with (c ∷ p) (d ∷ s) = c == d && starts_with p s

-- `strpos(content, passage)`: where the passage stands first, from 1, or 0.
unfoldable pub strpos : Text → Text → ℕ
strpos [] passage = if starts_with passage [] then 1 else 0
strpos (c ∷ s) passage =
    let later = strpos s passage in
    if starts_with passage (c ∷ s) then 1 else if later == 0 then 0 else suc later

-- The keys that were seen: a version and a label.
abbrev pub is_seen : CitationInput → List CitationInput → Bool
is_seen c seen =
    any
      (λ d.
        d.source_version_id == c.source_version_id && same_text d.location_label c.location_label)
      seen

-- A citation that is not a duplicate: an error, or the citation with the place of its passage.
abbrev pub judge : ℕ → CitationInput → Option SourceVersion → List Issue × List (CitationInput × ℕ)
judge index c none = (approved_source_required index ∷ [], [])
judge index c (some v) =
    if not (citable v.review_state)
    then (approved_source_required index ∷ [], [])
    else if ltb (strpos v.content_text c.passage) 1
    then (passage_not_found index ∷ [], [])
    else ([], (c, strpos v.content_text c.passage - 1) ∷ [])

-- The loop of `create_draft` over the citations.
unfoldable pub locate :
    List SourceVersion
    → ℕ
    → List CitationInput
    → List CitationInput
    → List Issue × List (CitationInput × ℕ)
unfolding select_version strpos
locate versions index seen [] = ([], [])
locate versions index seen (c ∷ cs) =
    let rest = locate versions (suc index) (if is_seen c seen then seen else c ∷ seen) cs in
    if is_seen c seen
    then (duplicate_citation index ∷ rest.0, rest.1)
    else (let found = judge index c (select_version c.source_version_id versions) in
        (found.0 ++ rest.0, found.1 ++ rest.1))

unfoldable pub has_draft : ℕ → List Draft → Bool
has_draft i [] = false
has_draft i (d ∷ ds) = d.id == i || has_draft i ds

-- `_INSERT_DRAFT`, with the primary key and `ck_public_updates_statement`.
unfoldable pub insert_draft : Draft → Db → Result DbError Db
unfolding has_draft
insert_draft d db =
    if not (leb 10 (length d.statement) && leb (length d.statement) 2000)
    then err check_violation
    else if has_draft d.id db.drafts
    then err unique_violation
    else ok (record db { drafts = d ∷ db.drafts })

unfoldable pub clashes : DraftCitation → List DraftCitation → Bool
clashes c [] = false
clashes c (d ∷ ds) =
    d.id == c.id
    || (d.public_update_id == c.public_update_id
        && d.source_version_id == c.source_version_id
        && same_text d.location_label c.location_label)
    || clashes c ds

-- `_INSERT_CITATION`, with the keys, the checks and the trigger of the table.
unfoldable pub insert_citation :
    List SourceVersion → DraftCitation → List DraftCitation → Result DbError (List DraftCitation)
unfolding clashes select_version
insert_citation versions c rows =
    if not (citation_check c.passage c.location_label)
      || not
          (passage_matches (select_version c.source_version_id versions) c.passage c.passage_start)
    then err check_violation
    else if clashes c rows
    then err unique_violation
    else ok (c ∷ rows)

abbrev pub citation_row : Draws → ℕ → CitationInput × ℕ → DraftCitation
citation_row draws index located = record {
  id = draws.citation_ids index;
  public_update_id = draws.draft_id;
  source_version_id = located.0.source_version_id;
  passage = located.0.passage;
  location_label = located.0.location_label;
  passage_start = located.1;
  created_at = draws.now;
}

unfoldable pub insert_citations :
    List SourceVersion
    → Draws
    → ℕ
    → List (CitationInput × ℕ)
    → List DraftCitation
    → Result DbError (List DraftCitation)
unfolding insert_citation
insert_citations versions draws index [] rows = ok rows
insert_citations versions draws index (l ∷ ls) rows = do
  rows' ← insert_citation versions (citation_row draws index l) rows
  insert_citations versions draws (suc index) ls rows'

abbrev pub draft_row : Reviewer → Draws → ℕ → ℕ → DraftInput → Text → Draft
draft_row reviewer draws report_id project_id input statement = record {
  id = draws.draft_id;
  report_id = report_id;
  project_id = project_id;
  statement = statement;
  effective_on = input.effective_on;
  last_checked_on = input.last_checked_on;
  verification_state = input.verification_state;
  state = draft;
  authored_by = some reviewer.actor_id;
  created_at = draws.now;
  updated_at = draws.now;
  published_by = none;
  published_at = none;
}

abbrev pub audit_row : Reviewer → ℕ → ℕ → UpdateEvent → ℕ → UpdateAudit
audit_row reviewer audit_id now event subject_id = record {
  id = audit_id;
  occurred_at = now;
  actor_type = reviewer.actor_type;
  actor_id = some reviewer.actor_id;
  event = event;
  subject_id = subject_id;
  request_id = reviewer.request_id;
}

-- The errors that are not about one citation.
abbrev pub input_errors : ℕ → DraftInput → List Issue
input_errors today input =
    gap (is_awaiting input.verification_state) verification_required
    ++ (gap (not (not_after input.last_checked_on today)) date_in_future
        ++ gap (not (leb 1 (length input.citations) && leb (length input.citations) max_citations))
            one_to_five_required)

abbrev pub no_errors : List Issue → Bool
no_errors [] = true
no_errors (e ∷ es) = false

unfoldable pub create_draft : Reviewer → Draws → ℕ → DraftInput → Db → Result Failure (ℕ × Db)
unfolding select_reported lagos_date
create_draft reviewer draws report_id input db = do
  report ← or_raise not_found (select_reported report_id db.reports)
  guard (report.status is_status verified_for_public_update)
      (problem public_update_report_not_verified [])
  statement ← clean_statement input.statement
  let found = locate db.versions 0 [] (take max_citations input.citations)
  let errors = input_errors (lagos_date draws.today) input ++ found.0
  guard (no_errors errors) (problem publication_incomplete errors)
  drafted ←
      stored
        (insert_draft (draft_row reviewer draws report_id report.project_id input statement) db)
  citations ← stored (insert_citations db.versions draws 0 found.1 drafted.citations)
  ok (
    draws.draft_id,
    record drafted {
      citations = citations;
      audit =
          audit_row reviewer draws.audit_id draws.audit_now (public_update_drafted report_id)
            draws.draft_id
          ∷ drafted.audit;
    },
  )

-- `WHERE id = :id AND report_id = :report AND state = 'draft'`
abbrev pub is_open_draft : ℕ → ℕ → Draft → Bool
is_open_draft report_id i d = d.id == i && d.report_id == report_id && is_draft d.state

abbrev pub mark_withdrawn : ℕ → Draft → Draft
mark_withdrawn now d = record d { state = withdrawn; updated_at = now }

-- `_DRAFT`: the draft with an identifier, if it belongs to the report.
abbrev pub of_report : ℕ → Option Draft → Option Draft
of_report report_id none = none
of_report report_id (some d) = if d.report_id == report_id then some d else none

abbrev pub missing_or_settled : Option Draft → Problem
missing_or_settled none = not_found
missing_or_settled (some d) = public_update_not_draft

unfoldable pub withdraw : Reviewer → ℕ → ℕ → ℕ → ℕ → ℕ → Db → Result Failure Db
unfolding select_draft
withdraw reviewer now audit_id audit_now report_id i db = do
  updated ← stored (update_drafts (is_open_draft report_id i) (mark_withdrawn now) db.drafts)
  guard (not (updated.1 == 0))
      (problem (missing_or_settled (of_report report_id (select_draft i db.drafts))) [])
  ok (record db {
    drafts = updated.0;
    audit = audit_row reviewer audit_id audit_now (public_update_withdrawn report_id) i ∷ db.audit;
  })
