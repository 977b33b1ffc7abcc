-- ===== src/Publication/Lifecycle.antt =====
-- The life of a public update over a sequence of calls: drafted, then published or withdrawn
-- (services/platform/src/shaidago/review/publication.py), between changes by other components.
pub mod Refinement
pub mod Invariant
pub mod Settled
use shaidago.Base.{
  ℕ, ◌≡◌, ◌≢◌, List, [], ◌∷◌, Bool, false, Option, none, some, ok, ◌==◌, if◌then◌else◌, Text,
  Result,
}
use shaidago.Report.Decision.{Reviewer}
use shaidago.Publication.Sources.{VerificationState}
use shaidago.Publication.Tables.{
  UpdateState, draft, published, withdrawn, Draft, ProjectUpdate, SourceVersion, Reported, Db,
  has_update, select_reported, select_version,
}
use shaidago.Publication.Drafts.{DraftInput, Draws, create_draft, withdraw}
use shaidago.Publication.Preview.{Surroundings, Published, PublishDraws, publish}

-- What a draft says.
pub record Content : Type 0 where
  pub project_id : ℕ
  pub statement : Text
  pub effective_on : ℕ
  pub last_checked_on : Option ℕ
  pub verification_state : VerificationState

-- The specification: the life under an identifier.
pub data Life : Type 0 where
  absent : Life
  drafted shown dropped : Content → Life

abbrev pub visible : Life → Option Content
visible (shown c) = some c
visible _ = none

-- A step of the specification: one life goes on, or none does.
pub data Move (f g : ℕ → Life) : Type 0 where
  begin :
      (i : ℕ) (c : Content)
      → f i ≡ absent
      → g i ≡ drafted c
      → ((j : ℕ) → j ≢ i → g j ≡ f j)
      → Move f g
  show :
      (i : ℕ) (c : Content)
      → f i ≡ drafted c
      → g i ≡ shown c
      → ((j : ℕ) → j ≢ i → g j ≡ f j)
      → Move f g
  drop :
      (i : ℕ) (c : Content)
      → f i ≡ drafted c
      → g i ≡ dropped c
      → ((j : ℕ) → j ≢ i → g j ≡ f j)
      → Move f g
  idle : ((j : ℕ) → g j ≡ f j) → Move f g

abbrev pub content_of : Draft → Content
content_of d = record {
  project_id = d.project_id;
  statement = d.statement;
  effective_on = d.effective_on;
  last_checked_on = d.last_checked_on;
  verification_state = d.verification_state;
}

abbrev pub life_in : UpdateState → Content → Life
life_in draft c = drafted c
life_in published c = shown c
life_in withdrawn c = dropped c

abbrev pub life_of : Option Draft → Life
life_of none = absent
life_of (some d) = life_in d.state (content_of d)

-- What the public sees under an identifier.
unfoldable pub select_update : ℕ → List ProjectUpdate → Option ProjectUpdate
select_update i [] = none
select_update i (u ∷ us) = if u.id == i then some u else select_update i us

abbrev pub public_content : Option ProjectUpdate → Option Content
public_content none = none
public_content (some u) = some (record {
  project_id = u.project_id;
  statement = u.statement;
  effective_on = u.effective_on;
  last_checked_on = u.last_checked_on;
  verification_state = u.verification_state;
})

-- A call that succeeded, or a change by another component: it leaves public updates alone, keeps
-- every report in its project and never alters the text of a version.
pub data Step (env : Surroundings) (db db' : Db) : Type 1 where
  drafting :
      (reviewer : Reviewer) (draws : Draws) (report_id : ℕ) (input : DraftInput) (i : ℕ)
      → has_update draws.draft_id db.public ≡ false
      → create_draft reviewer draws report_id input db ≡ ok (i, db')
      → Step env db db'
  publishing :
      (reviewer : Reviewer) (draws : PublishDraws) (report_id i : ℕ) (confirmed : env.Digest)
      (res : Published)
      → publish env reviewer draws report_id i confirmed db ≡ ok (res, db')
      → Step env db db'
  withdrawing :
      (reviewer : Reviewer) (now audit_id audit_now report_id i : ℕ)
      → withdraw reviewer now audit_id audit_now report_id i db ≡ ok db'
      → Step env db db'
  elsewhere :
      db'.drafts ≡ db.drafts
      → db'.citations ≡ db.citations
      → db'.public ≡ db.public
      → ((k : ℕ) (r : Reported)
          → select_reported k db.reports ≡ some r
          → (r' : Reported) × (select_reported k db'.reports ≡ some r')
            × (r'.project_id ≡ r.project_id))
      → ((k : ℕ) (v : SourceVersion)
          → select_version k db.versions ≡ some v
          → (v' : SourceVersion) × (select_version k db'.versions ≡ some v')
            × (v'.content_text ≡ v.content_text))
      → Step env db db'
