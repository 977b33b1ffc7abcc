-- ===== src/Publication/Preview/Confirmed.antt =====
-- A publication shows the public what its preview showed the reviewer: `publish`
-- (services/platform/src/shaidago/review/publication.py).
use mathlib.Core.List.{Perm}
use shaidago.Base.{
  ℕ, ◌≡◌, refl, sym, ap, subst, ◌∙◌, true, List, [], ◌∷◌, ◌++◌, Option, none, some, ok, guard, ◌==◌,
  ==_iff, bind-ok, guard-ok, map, arith, Bool-cases, inl, inr,
}
use shaidago.Report.Machine.{verified_for_public_update, ◌is_status◌}
use shaidago.Report.Decision.{Reviewer}
use shaidago.Publication.Tables.{
  Draft, Reported, Db, Outcome, UpdateCitation, ProjectUpdate, was_published, was_not_found,
  was_not_draft, wrong_report_state, stale, project_mismatch, no_citation, select_reported,
  select_draft, is_draft, citable_of, update_citation, project_update, publish_public_update,
}
use shaidago.Publication.Tables.Writing.{Wrote, publish_public_update-ok}
use shaidago.Publication.Drafts.Accepted.{or_raise-ok, stored-ok, no_errors-nil}
use shaidago.Publication.Drafts.{stored, or_raise, of_report, no_errors}
use shaidago.Publication.Preview.{
  Body, Published, PublishDraws, Surroundings, shown, preview_body, build_preview, published_result,
  concluded, publish_call, lock_draft, publish,
}
use shaidago.Publication.Preview.Quotes.{HaveSources, shown_quote, written_quote, shown-written}

of_report-some :
    (report_id : ℕ) (o : Option Draft) {d : Draft}
    → of_report report_id o ≡ some d
    → (o ≡ some d) × (d.report_id ≡ report_id)
of_report-some report_id none h = absurd (ground arith)
of_report-some report_id (some e) {d} h = elim (Bool-cases (e.report_id == report_id)) [
  | inl its ↦
      let same : e ≡ d = ground (arith, rw its at h) in
      (ap some same, ap (λ t. t.report_id) (sym same) ∙ (==_iff e.report_id report_id).0 its)
  | inr other ↦ absurd (ground (arith, rw other at h))
]

concluded-ok :
    (env : Surroundings) (result : Published) (o : Outcome) (db : Db) {res : Published} {db' : Db}
    → concluded env result (o, db) ≡ ok (res, db')
    → (o ≡ was_published) × (res ≡ result) × (db' ≡ db)
concluded-ok env result was_published db h = (refl, ground arith, ground arith)
concluded-ok env result was_not_found db h = absurd (ground arith)
concluded-ok env result was_not_draft db h = absurd (ground arith)
concluded-ok env result wrong_report_state db h = absurd (ground arith)
concluded-ok env result stale db h = absurd (ground arith)
concluded-ok env result project_mismatch db h = absurd (ground arith)
concluded-ok env result no_citation db h = absurd (ground arith)

-- A preview is of a draft of the report.
pub record Previewed (env : Surroundings) (today report_id i : ℕ) (db : Db) (body : Body)
    : Type 0 where
  pub d : Draft
  pub r : Reported
  pub found : select_draft i db.drafts ≡ some d
  pub of_it : d.report_id ≡ report_id
  pub report : select_reported report_id db.reports ≡ some r
  pub shows : preview_body env today d r db ≡ body

module _ (env : Surroundings) where
  pub build_preview-ok :
      (today report_id i : ℕ) (db : Db) {body : Body}
      → build_preview env today report_id i db ≡ ok body
      → Previewed env today report_id i db body
  unfolding build_preview
  build_preview-ok today report_id i db {body} h =
      bind-ok (or_raise _ (of_report report_id (select_draft i db.drafts))) _ h λ d e1 h1.
        bind-ok (or_raise _ (select_reported report_id db.reports)) _ h1 λ r e2 h2.
          let (found, its) =
            of_report-some report_id (select_draft i db.drafts) (or_raise-ok _ _ e1) in
          record {
            d = d;
            r = r;
            found = found;
            of_it = its;
            report = or_raise-ok _ _ e2;
            shows = ground arith;
          }

-- What a publication has confirmed and written.
pub record Confirmed (env : Surroundings) (reviewer : Reviewer) (draws : PublishDraws)
    (report_id i : ℕ) (confirmed : env.Digest) (db : Db) (db' : Db) (res : Published) : Type 0 where
  pub preview : Body
  pub shown : Previewed env draws.today report_id i db preview
  pub was_draft : is_draft preview.state ≡ true
  pub verified : (preview.report_status is_status verified_for_public_update) ≡ true
  pub agreed : env.same_digest (env.digest preview) confirmed ≡ true
  pub clear : preview.issues ≡ []
  pub wrote : Wrote (publish_call env reviewer draws preview) i db db'
  pub answer : res ≡ published_result env i preview draws.now

module _ (env : Surroundings) (reviewer : Reviewer) (draws : PublishDraws) (report_id i : ℕ) where
  pub publish-Confirmed :
      (confirmed : env.Digest) (db : Db) {res : Published} {db' : Db}
      → publish env reviewer draws report_id i confirmed db ≡ ok (res, db')
      → Confirmed env reviewer draws report_id i confirmed db db' res
  unfolding publish
  publish-Confirmed confirmed db {res} {db'} h =
      bind-ok (lock_draft env report_id i db) _ h λ locked e0 h0.
        bind-ok (build_preview env draws.today report_id i db) _ h0 λ preview e1 h1.
          bind-ok (guard (is_draft preview.state) _) _ h1 λ u2 e2 h2.
            bind-ok (guard (preview.report_status is_status verified_for_public_update) _) _ h2
              λ u3 e3 h3.
                bind-ok (guard (env.same_digest (env.digest preview) confirmed) _) _ h3 λ u4 e4 h4.
                  bind-ok (guard (no_errors preview.issues) _) _ h4 λ u5 e5 h5.
                    bind-ok
                      (stored
                        (publish_public_update (publish_call env reviewer draws preview) i db))
                      _ h5
                      λ outcome e6 h6.
                        let (was, answer, same) =
                          concluded-ok env (published_result env i preview draws.now) outcome.0
                            outcome.1 h6 in
                        record {
                          preview = preview;
                          shown = build_preview-ok env draws.today report_id i db e1;
                          was_draft = guard-ok (is_draft preview.state) _ e2;
                          verified =
                              guard-ok (preview.report_status is_status verified_for_public_update)
                                _ e3;
                          agreed = guard-ok (env.same_digest (env.digest preview) confirmed) _ e4;
                          clear =
                              no_errors-nil preview.issues
                                (guard-ok (no_errors preview.issues) _ e5);
                          wrote =
                              publish_public_update-ok (publish_call env reviewer draws preview) i
                                db (rw (same, ← was) (stored-ok _ e6));
                          answer = answer;
                        }

pub select_draft-id : (i : ℕ) (ds : List Draft) {d : Draft} → select_draft i ds ≡ some d → d.id ≡ i
unfolding select_draft
select_draft-id i [] h = absurd (ground arith)
select_draft-id i (e ∷ ds) {d} h = elim (Bool-cases (e.id == i)) [
  | inl here ↦ let same : e ≡ d = ground arith in ap (λ t. t.id) (sym same) ∙ (==_iff e.id i).0 here
  | inr there ↦ select_draft-id i ds (rw there at h)
]

-- A public row and its citations show what a preview shows.
pub record Shows (db db' : Db) (i now : ℕ) (preview : Body) : Type 0 where
  pub row : ProjectUpdate
  pub citations : List UpdateCitation
  pub added : db'.public ≡ row ∷ db.public
  pub cited : db'.public_citations ≡ citations ++ db.public_citations
  pub id : row.id ≡ i
  pub statement : row.statement ≡ preview.statement
  pub effective_on : row.effective_on ≡ preview.effective_on
  pub last_checked_on : row.last_checked_on ≡ preview.last_checked_on
  pub verification_state : row.verification_state ≡ preview.verification_state
  pub published_at : row.published_at ≡ now
  pub quoted : Perm (map shown_quote preview.citations) (map written_quote citations)

module _ (env : Surroundings) (reviewer : Reviewer) (draws : PublishDraws) (report_id i : ℕ) where
  Confirmed-Shows :
      {confirmed : env.Digest} {db db' : Db} {res : Published}
      → HaveSources db.sources db.versions
      → (c : Confirmed env reviewer draws report_id i confirmed db db' res)
      → Shows db db' i draws.now c.preview
  unfolding preview_body
  Confirmed-Shows {db} {db'} have c =
      let d = c.wrote.d in
      let same : c.shown.d ≡ d = ground (arith, sym c.shown.found ∙ c.wrote.found) in
      let shows = c.shown.shows in
      let written =
        map (update_citation d.id draws.now) (citable_of d.id db.versions db.citations) in
      record {
        row = project_update d draws.now;
        citations = written;
        added = rw (c.wrote.written) refl;
        cited = rw (c.wrote.written) refl;
        id = select_draft-id i db.drafts c.wrote.found;
        statement =
            ap (λ (t : Draft). t.statement) (sym same) ∙ ap (λ (b : Body). b.statement) shows;
        effective_on =
            ap (λ (t : Draft). t.effective_on) (sym same) ∙ ap (λ (b : Body). b.effective_on) shows;
        last_checked_on =
            ap (λ (t : Draft). t.last_checked_on) (sym same)
            ∙ ap (λ (b : Body). b.last_checked_on) shows;
        verification_state =
            ap (λ (t : Draft). t.verification_state) (sym same)
            ∙ ap (λ (b : Body). b.verification_state) shows;
        published_at = refl;
        quoted =
            subst (λ t. Perm (map shown_quote t) (map written_quote written))
              (ap (λ (b : Body). b.citations) shows)
              (subst (λ k. Perm (map shown_quote (shown env k db)) (map written_quote written))
                (ap (λ (t : Draft). t.id) (sym same))
                (shown-written env.label_before d.id draws.now db.versions db.sources db.citations
                  have));
      }

  -- Where no two contents have one digest and every version has its source, a publication that
  -- succeeds makes public exactly what the confirmed preview showed: a preview of a draft of a
  -- verified report with no issue left; the statement, the dates and the state are those of the
  -- preview, and the citations are those of the preview in some order.
  pub publish-previewed :
      (confirmed : Body) (db : Db) {res : Published} {db' : Db}
      → ((a b : Body) → env.same_digest (env.digest a) (env.digest b) ≡ true → a ≡ b)
      → HaveSources db.sources db.versions
      → publish env reviewer draws report_id i (env.digest confirmed) db ≡ ok (res, db')
      → (is_draft confirmed.state ≡ true)
        × ((confirmed.report_status is_status verified_for_public_update) ≡ true)
        × (confirmed.issues ≡ [])
        × (res.project_slug ≡ confirmed.project)
        × Shows db db' i draws.now confirmed
  publish-previewed confirmed db {res} {db'} sound have h =
      let c = publish-Confirmed env reviewer draws report_id i (env.digest confirmed) db h in
      let same = sound c.preview confirmed c.agreed in
      (
        ap (λ (b : Body). is_draft b.state) (sym same) ∙ c.was_draft,
        ap (λ (b : Body). b.report_status is_status verified_for_public_update) (sym same)
            ∙ c.verified,
        ap (λ (b : Body). b.issues) (sym same) ∙ c.clear,
        ap (λ (t : Published). t.project_slug) c.answer ∙ ap (λ (b : Body). b.project) same,
        subst (λ b. Shows db db' i draws.now b) same (Confirmed-Shows have c),
      )
