-- ===== src/Publication/Drafts/Accepted.antt =====
-- What `create_draft` (services/platform/src/shaidago/review/publication.py) accepts and stores.
use shaidago.Base.{
  ℕ, ◌≤◌, ◌≡◌, inl, inr, refl, sym, ap, subst, ◌∙◌, Bool, true, false, ◌&&◌, ◌||◌, not, List, [],
  ◌∷◌, ◌++◌, All, Option, none, some, Result, ok, err, guard, map, leb, length, take, if◌then◌else◌,
  Text, strip, bind-ok, guard-ok, arith, Bool-cases, take-all, ok-injective, true_of_not,
}
use shaidago.Problems.{Problem}
use shaidago.Report.Machine.{verified_for_public_update, ◌is_status◌}
use shaidago.Report.Decision.{Reviewer}
use shaidago.Publication.Sources.{
  Issue, gap, verification_required, date_in_future, one_to_five_required, lagos_date,
}
use shaidago.Publication.Sources.Gaps.{append-nil_iff, gap-nil}
use shaidago.Publication.Tables.{
  Draft, DraftCitation, Reported, UpdateAudit, Db, DbError, select_reported, is_awaiting, not_after,
  public_update_drafted,
}
use shaidago.Publication.Drafts.{
  stored, or_raise, CitationInput, DraftInput, Draws, max_citations, clean_statement, locate,
  has_draft, insert_draft, insert_citations, draft_row, input_errors, no_errors, create_draft,
  audit_row,
}
use shaidago.Publication.Drafts.Created.{Located, Apart, locate-Located}

pub or_raise-ok {ℓ} :
    {A : Type ℓ} (p : Problem) (o : Option A) {a : A} → or_raise p o ≡ ok a → o ≡ some a
or_raise-ok p none h = absurd (ground arith)
or_raise-ok p (some b) h = ground arith

pub stored-ok {ℓ} : {A : Type ℓ} (r : Result DbError A) {a : A} → stored r ≡ ok a → r ≡ ok a
stored-ok (ok b) h = ground arith
stored-ok (err e) h = absurd (ground arith)

pub no_errors-nil : (es : List Issue) → no_errors es ≡ true → es ≡ []
no_errors-nil [] h = refl
no_errors-nil (e ∷ es) h = absurd (ground arith)

if-err {ℓ κ} :
    {E : Type κ} {A : Type ℓ} (b : Bool) (e : E) (a : A) {c : A}
    → (if b then err e else ok a) ≡ ok c
    → (b ≡ false) × (a ≡ c)
if-err true e a h = absurd (ground arith)
if-err false e a h = (refl, ok-injective h)

first-false : (a b c : Bool) → (not a || b || c) ≡ false → a ≡ true
first-false true b c h = refl
first-false false b c h = cc

-- A cleaned statement is within its bounds.
pub clean_statement-ok :
    (s : Text) {cleaned : Text}
    → clean_statement s ≡ ok cleaned
    → (cleaned ≡ strip s) × ((leb 10 (length cleaned) && leb (length cleaned) 2000) ≡ true)
unfolding clean_statement
clean_statement-ok s {cleaned} h =
    let (passed, same) = if-err _ _ (strip s) h in
    (
      sym same,
      ap (λ t. leb 10 (length t) && leb (length t) 2000) (sym same) ∙ first-false _ _ _ passed,
    )

pub insert_draft-ok :
    (d : Draft) (db : Db) {db' : Db}
    → insert_draft d db ≡ ok db'
    → ((leb 10 (length d.statement) && leb (length d.statement) 2000) ≡ true)
      × (has_draft d.id db.drafts ≡ false)
      × (db' ≡ record db { drafts = d ∷ db.drafts })
unfolding insert_draft
insert_draft-ok d db {db'} h =
    elim (Bool-cases (leb 10 (length d.statement) && leb (length d.statement) 2000)) [
      | inr out ↦ absurd (ground (arith, rw out at h))
      | inl fits ↦ elim (Bool-cases (has_draft d.id db.drafts)) [
        | inl there ↦ absurd (ground (arith, rw (fits, there) at h))
        | inr new ↦
            let h' : ◌≡◌ {A = Result DbError Db} (ok (record db { drafts = d ∷ db.drafts }))
                (ok db') =
              rw (fits, new) at h in
            (fits, new, ok-injective (sym h'))
      ]
    ]

-- What was accepted: a statement of the report's project, whose citations all stand.
pub record Accepted (reviewer : Reviewer) (draws : Draws) (report_id : ℕ) (input : DraftInput)
    (db db' : Db) : Type 0 where
  pub r : Reported
  pub found : select_reported report_id db.reports ≡ some r
  pub verified : (r.status is_status verified_for_public_update) ≡ true
  pub row : Draft
  pub made : row ≡ draft_row reviewer draws report_id r.project_id input (strip input.statement)
  pub bounded : (leb 10 (length row.statement) && leb (length row.statement) 2000) ≡ true
  pub backed : is_awaiting input.verification_state ≡ false
  pub dated : not_after input.last_checked_on (lagos_date draws.today) ≡ true
  pub counted :
      (leb 1 (length input.citations) && leb (length input.citations) max_citations) ≡ true
  pub taken : List (CitationInput × ℕ)
  pub all_taken : map (λ (l : CitationInput × ℕ). l.0) taken ≡ input.citations
  pub located : All (Located db.versions) taken
  pub apart : Apart [] taken
  pub new : has_draft draws.draft_id db.drafts ≡ false
  pub citations : List DraftCitation
  pub inserted : insert_citations db.versions draws 0 taken db.citations ≡ ok citations
  pub audit : List UpdateAudit
  pub written : db' ≡ record db { drafts = row ∷ db.drafts; citations = citations; audit = audit }

module _ (reviewer : Reviewer) (draws : Draws) (report_id : ℕ) (input : DraftInput) (db : Db) where
  -- No error of a draft.
  pub input_errors-nil :
      (es : List Issue)
      → input_errors (lagos_date draws.today) input ++ es ≡ []
      → (is_awaiting input.verification_state ≡ false)
        × (not_after input.last_checked_on (lagos_date draws.today) ≡ true)
        × ((leb 1 (length input.citations) && leb (length input.citations) max_citations) ≡ true)
        × (es ≡ [])
  input_errors-nil es h =
      let own = (append-nil_iff (input_errors (lagos_date draws.today) input) es).0 h in
      let state =
        (append-nil_iff (gap (is_awaiting input.verification_state) verification_required) _).0
          own.0 in
      let date =
        (append-nil_iff
            (gap (not (not_after input.last_checked_on (lagos_date draws.today))) date_in_future)
            _).0
          state.1 in
      (
        (gap-nil _ verification_required).0 state.0,
        true_of_not _ ((gap-nil _ date_in_future).0 date.0),
        true_of_not _ ((gap-nil _ one_to_five_required).0 date.1),
        own.1,
      )

  pub create_draft-Accepted :
      {i : ℕ} {db' : Db}
      → create_draft reviewer draws report_id input db ≡ ok (i, db')
      → (i ≡ draws.draft_id) × Accepted reviewer draws report_id input db db'
  unfolding create_draft
  create_draft-Accepted {i} {db'} h =
      let cited = take max_citations input.citations in
      let found = locate db.versions 0 [] cited in
      let errors = input_errors (lagos_date draws.today) input ++ found.0 in
      bind-ok (or_raise _ (select_reported report_id db.reports)) _ h λ r e0 h0.
        bind-ok (guard (r.status is_status verified_for_public_update) _) _ h0 λ u1 e1 h1.
          bind-ok (clean_statement input.statement) _ h1 λ statement e2 h2.
            bind-ok (guard (no_errors errors) _) _ h2 λ u3 e3 h3.
              let row = draft_row reviewer draws report_id r.project_id input statement in
              bind-ok (stored (insert_draft row db)) _ h3 λ drafted e4 h4.
                bind-ok (stored (insert_citations db.versions draws 0 found.1 drafted.citations)) _
                  h4
                  λ citations e5 h5.
                    let (stripped, bounded) = clean_statement-ok input.statement e2 in
                    let (fits, new, put) = insert_draft-ok row db (stored-ok _ e4) in
                    let (backed, dated, counted, clear) =
                      input_errors-nil found.0
                        (no_errors-nil errors (guard-ok (no_errors errors) _ e3)) in
                    let (located, apart, same) = locate-Located db.versions 0 [] cited clear in
                    let few : length input.citations ≤ max_citations = ground arith in
                    let own : drafted.citations ≡ db.citations = ap (λ (t : Db). t.citations) put in
                    let result = ok-injective h5 in
                    (
                      ap (λ (t : ℕ × Db). t.0) (sym result),
                      record {
                        r = r;
                        found = or_raise-ok _ _ e0;
                        verified = guard-ok (r.status is_status verified_for_public_update) _ e1;
                        row = row;
                        made =
                            ap (λ t. draft_row reviewer draws report_id r.project_id input t)
                              stripped;
                        bounded = bounded;
                        backed = backed;
                        dated = dated;
                        counted = counted;
                        taken = found.1;
                        all_taken = same ∙ take-all max_citations input.citations few;
                        located = located;
                        apart = apart;
                        new = new;
                        citations = citations;
                        inserted =
                            subst
                              (λ t. insert_citations db.versions draws 0 found.1 t ≡ ok citations)
                              own (stored-ok _ e5);
                        audit =
                            audit_row reviewer draws.audit_id draws.audit_now
                              (public_update_drafted report_id) draws.draft_id
                            ∷ db.audit;
                        written = ap (λ (t : ℕ × Db). t.1) (sym result) ∙ rw put refl;
                      },
                    )
