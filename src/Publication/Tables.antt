-- ===== src/Publication/Tables.antt =====
-- The tables of public updates (services/platform/migrations/versions/0017_public_updates.py): drafts
-- with their private link to a report, their citations, and the public rows that the function
-- app.publish_public_update writes. A table is the list of its rows, the last one inserted first;
-- times are microseconds and a date is the number of its day.
pub mod Laws
pub mod Sound
pub mod Writing
use shaidago.Base.{
  ℕ, suc, ◌+◌, ◌≤◌, Bool, true, false, ◌&&◌, ◌||◌, not, List, [], ◌∷◌, ◌++◌, Option, none, some,
  Result, ok, err, ◌>>=◌, ◌>>◌, guard, any, leb, ltb, length, take, drop, ◌==◌, if◌then◌else◌,
  is_none, Text, same_text,
}
use shaidago.Report.Machine.{
  Status, verified_for_public_update, ◌is_status◌, Actor, reviewer, admin,
}
use shaidago.Publication.Sources.{
  is_empty, ReviewState, InformationClass, VerificationState, awaiting_verification,
  verified_official, corroborated, community_reviewed, disputed, outdated, citable, lagos_date,
}

pub data UpdateState : Type 0 where
  draft published withdrawn : UpdateState

-- A row of app.public_updates.
pub record Draft : Type 0 where
  pub id : ℕ
  pub report_id : ℕ
  pub project_id : ℕ
  pub statement : Text
  pub effective_on : ℕ
  pub last_checked_on : Option ℕ
  pub verification_state : VerificationState
  pub state : UpdateState
  pub authored_by : Option ℕ
  pub created_at : ℕ
  pub updated_at : ℕ
  pub published_by : Option ℕ
  pub published_at : Option ℕ

-- A row of app.public_update_citations.
pub record DraftCitation : Type 0 where
  pub id : ℕ
  pub public_update_id : ℕ
  pub source_version_id : ℕ
  pub passage : Text
  pub location_label : Text
  pub passage_start : ℕ
  pub created_at : ℕ

pub record SourceVersion : Type 0 where
  pub id : ℕ
  pub source_id : ℕ
  pub review_state : ReviewState
  pub retrieved_at : ℕ
  pub content_text : Text

pub record Source : Type 0 where
  pub id : ℕ
  pub title : Text
  pub publisher : Text
  pub canonical_url : Text
  pub source_type : Text
  pub information_class : InformationClass

-- A row of app.project_updates that is public.
pub record ProjectUpdate : Type 0 where
  pub id : ℕ
  pub project_id : ℕ
  pub statement : Text
  pub effective_on : ℕ
  pub last_checked_on : Option ℕ
  pub verification_state : VerificationState
  pub published_at : ℕ

-- A row of app.update_citations, less the identifier that the database draws.
pub record UpdateCitation : Type 0 where
  pub update_id : ℕ
  pub source_version_id : ℕ
  pub passage : Text
  pub location_label : Text
  pub passage_start : ℕ
  pub created_at : ℕ

-- What a publication reads of a report, joined with the slug of its project.
pub record Reported : Type 0 where
  pub id : ℕ
  pub status : Status
  pub version : ℕ
  pub project_id : ℕ
  pub project_slug : Text

pub data UpdateEvent : Type 0 where
  public_update_drafted public_update_withdrawn : ℕ → UpdateEvent
  public_update_published : ℕ → UpdateEvent

-- An audit event about a public update; the events of a draft carry the report, that of a
-- publication the report's version.
pub record UpdateAudit : Type 0 where
  pub id : ℕ
  pub occurred_at : ℕ
  pub actor_type : Actor
  pub actor_id : Option ℕ
  pub event : UpdateEvent
  pub subject_id : ℕ
  pub request_id : Option Text

pub record Db : Type 0 where
  pub reports : List Reported
  pub drafts : List Draft
  pub citations : List DraftCitation
  pub versions : List SourceVersion
  pub sources : List Source
  pub public : List ProjectUpdate
  pub public_citations : List UpdateCitation
  pub audit : List UpdateAudit

pub data DbError : Type 0 where
  unique_violation check_violation insufficient_privilege content_fixed : DbError

unfoldable pub select_reported : ℕ → List Reported → Option Reported
select_reported i [] = none
select_reported i (r ∷ rs) = if r.id == i then some r else select_reported i rs

unfoldable pub select_draft : ℕ → List Draft → Option Draft
select_draft i [] = none
select_draft i (d ∷ ds) = if d.id == i then some d else select_draft i ds

unfoldable pub select_version : ℕ → List SourceVersion → Option SourceVersion
select_version i [] = none
select_version i (v ∷ vs) = if v.id == i then some v else select_version i vs

unfoldable pub has_update : ℕ → List ProjectUpdate → Bool
has_update i [] = false
has_update i (u ∷ us) = u.id == i || has_update i us

abbrev pub is_draft : UpdateState → Bool
is_draft draft = true
is_draft _ = false

abbrev pub is_awaiting : VerificationState → Bool
is_awaiting awaiting_verification = true
is_awaiting _ = false

abbrev pub same_verification : VerificationState → VerificationState → Bool
same_verification awaiting_verification awaiting_verification = true
same_verification verified_official verified_official = true
same_verification corroborated corroborated = true
same_verification community_reviewed community_reviewed = true
same_verification disputed disputed = true
same_verification outdated outdated = true
same_verification _ _ = false

abbrev pub same_option : Option ℕ → Option ℕ → Bool
same_option none none = true
same_option (some a) (some b) = a == b
same_option _ _ = false

-- The fields that `public_updates_guard` compares.
unfoldable pub same_content : Draft → Draft → Bool
same_content new old =
    new.id == old.id
    && new.report_id == old.report_id
    && new.project_id == old.project_id
    && same_text new.statement old.statement
    && new.effective_on == old.effective_on
    && same_option new.last_checked_on old.last_checked_on
    && same_verification new.verification_state old.verification_state
    && same_option new.authored_by old.authored_by
    && new.created_at == old.created_at

-- The trigger `public_updates_guard`, before the update of a row.
unfoldable pub public_updates_guard : Draft → Draft → Result DbError Draft
unfolding same_content
public_updates_guard old new =
    if not (is_draft old.state) || is_draft new.state || not (same_content new old)
    then err content_fixed
    else ok new

-- `UPDATE app.public_updates … WHERE …`: the rows afterwards, and how many were updated.
unfoldable pub update_drafts :
    (Draft → Bool) → (Draft → Draft) → List Draft → Result DbError (List Draft × ℕ)
update_drafts matches set [] = ok ([], 0)
update_drafts matches set (d ∷ ds) = do
  rest ← update_drafts matches set ds
  if matches d
      then (do new ← public_updates_guard d (set d); ok (new ∷ rest.0, suc rest.1))
      else ok (d ∷ rest.0, rest.1)

-- The trigger `verify_citation_passage`.
unfoldable pub passage_stands : Text → Text → ℕ → Bool
passage_stands content passage start =
    same_text (take (length passage) (drop start content)) passage

abbrev pub passage_matches : Option SourceVersion → Text → ℕ → Bool
passage_matches none passage start = false
passage_matches (some v) passage start = passage_stands v.content_text passage start

abbrev pub version_citable : Option SourceVersion → Bool
version_citable none = false
version_citable (some v) = citable v.review_state

-- `ck_…_passage` and `ck_…_location` of both tables of citations.
abbrev pub citation_check : Text → Text → Bool
citation_check passage label =
    leb 1 (length passage)
    && leb (length passage) 1000
    && leb 1 (length label)
    && leb (length label) 200

-- The citations of a draft that the public may see.
unfoldable pub citable_of : ℕ → List SourceVersion → List DraftCitation → List DraftCitation
unfolding select_version
citable_of i versions [] = []
citable_of i versions (c ∷ cs) =
    if c.public_update_id == i && version_citable (select_version c.source_version_id versions)
    then c ∷ citable_of i versions cs
    else citable_of i versions cs

abbrev pub update_citation : ℕ → ℕ → DraftCitation → UpdateCitation
update_citation i now c = record {
  update_id = i;
  source_version_id = c.source_version_id;
  passage = c.passage;
  location_label = c.location_label;
  passage_start = c.passage_start;
  created_at = now;
}

-- `uq_update_citations_update_id_source_version_id_location_label`: another row has the key.
unfoldable pub is_repeated : UpdateCitation → List UpdateCitation → Bool
is_repeated u [] = false
is_repeated u (v ∷ vs) =
    (v.update_id == u.update_id
      && v.source_version_id == u.source_version_id
      && same_text v.location_label u.location_label)
    || is_repeated u vs

-- `INSERT INTO app.update_citations … SELECT …`, each row past the checks, the trigger and the
-- unique constraint.
unfoldable pub insert_update_citations :
    ℕ
    → ℕ
    → List SourceVersion
    → List DraftCitation
    → List UpdateCitation
    → Result DbError (List UpdateCitation)
unfolding select_version passage_stands is_repeated
insert_update_citations i now versions [] rows = ok rows
insert_update_citations i now versions (c ∷ cs) rows =
    let rest = insert_update_citations i now versions cs rows in
    if citation_check c.passage c.location_label
      && passage_matches (select_version c.source_version_id versions) c.passage c.passage_start
    then (rest >>= λ others.
        if is_repeated (update_citation i now c) others
        then err unique_violation
        else ok (update_citation i now c ∷ others))
    else err check_violation

abbrev pub cites_for : ℕ → List SourceVersion → UpdateCitation → Bool
cites_for i versions u =
    u.update_id == i && version_citable (select_version u.source_version_id versions)

-- The deferred trigger `enforce_public_update_citation` on a public row, at the end of the
-- transaction.
unfoldable pub public_update_cited : ℕ → Db → Bool
unfolding select_version
public_update_cited i db = any (cites_for i db.versions) db.public_citations

abbrev pub not_after : Option ℕ → ℕ → Bool
not_after none today = true
not_after (some d) today = leb d today

-- The check constraints of app.project_updates on a public row that is written at `now`.
unfoldable pub update_check : Draft → ℕ → Bool
unfolding lagos_date
update_check d now =
    leb 1 (length d.statement)
    && leb (length d.statement) 2000
    && not (is_awaiting d.verification_state)
    && not_after d.last_checked_on (lagos_date now)

abbrev pub project_update : Draft → ℕ → ProjectUpdate
project_update d now = record {
  id = d.id;
  project_id = d.project_id;
  statement = d.statement;
  effective_on = d.effective_on;
  last_checked_on = d.last_checked_on;
  verification_state = d.verification_state;
  published_at = now;
}

pub data Outcome : Type 0 where
  was_published was_not_found was_not_draft wrong_report_state stale project_mismatch : Outcome
  no_citation : Outcome

-- A comparison with a value of a row that was not found is unknown, and no branch is taken.
abbrev pub unverified : Option Reported → Bool
unverified none = false
unverified (some r) = not (r.status is_status verified_for_public_update)

abbrev pub other_version : Option Reported → ℕ → Bool
other_version none v = false
other_version (some r) v = not (r.version == v)

abbrev pub other_project : Option Reported → ℕ → Bool
other_project none p = false
other_project (some r) p = not (p == r.project_id)

abbrev pub version_of : Option Reported → ℕ
version_of none = 0
version_of (some r) = r.version

pub record PublishCall : Type 0 where
  pub expected_version : ℕ
  pub actor_type : Actor
  pub actor_id : ℕ
  pub now : ℕ
  pub audit_id : ℕ
  pub request_id : Option Text

abbrev pub may_publish : Actor → Bool
may_publish reviewer = true
may_publish admin = true
may_publish _ = false

abbrev pub mark_published : ℕ → ℕ → Draft → Draft
mark_published actor now d = record d {
  state = published;
  published_by = some actor;
  published_at = some now;
  updated_at = now;
}

-- From the insert of the public row on.
unfoldable pub write_public : PublishCall → Draft → ℕ → Db → Result DbError Db
unfolding has_update update_check citable_of insert_update_citations update_drafts
write_public call d report_version db =
    if not (update_check d call.now)
    then err check_violation
    else if has_update d.id db.public
    then err unique_violation
    else (do
      cited ←
          insert_update_citations d.id call.now db.versions
            (citable_of d.id db.versions db.citations) db.public_citations
      drafts ←
          update_drafts (λ row. row.id == d.id) (mark_published call.actor_id call.now) db.drafts
      ok (record db {
        public = project_update d call.now ∷ db.public;
        public_citations = cited;
        drafts = drafts.0;
        audit =
            record {
              id = call.audit_id;
              occurred_at = call.now;
              actor_type = call.actor_type;
              actor_id = some call.actor_id;
              event = public_update_published report_version;
              subject_id = d.id;
              request_id = call.request_id;
            }
            ∷ db.audit;
      }))

abbrev pub answered : Outcome → Db → Result DbError (Outcome × Db)
answered o db = ok (o, db)

unfoldable pub publish_draft :
    PublishCall → Draft → Option Reported → Db → Result DbError (Outcome × Db)
unfolding citable_of
publish_draft call d report db =
    if not (is_draft d.state)
    then answered was_not_draft db
    else if unverified report
    then answered wrong_report_state db
    else if other_version report call.expected_version
    then answered stale db
    else if other_project report d.project_id
    then answered project_mismatch db
    else if is_empty (citable_of d.id db.versions db.citations)
    then answered no_citation db
    else (write_public call d (version_of report) db >>= λ written. answered was_published written)

abbrev pub with_draft :
    Option Draft → Db → (Draft → Result DbError (Outcome × Db)) → Result DbError (Outcome × Db)
with_draft none db k = answered was_not_found db
with_draft (some d) db k = k d

-- `app.publish_public_update`
unfoldable pub publish_public_update : PublishCall → ℕ → Db → Result DbError (Outcome × Db)
unfolding select_draft select_reported publish_draft
publish_public_update call i db =
    guard (may_publish call.actor_type) insufficient_privilege
    >> with_draft (select_draft i db.drafts) db
        (λ d. publish_draft call d (select_reported d.report_id db.reports) db)
