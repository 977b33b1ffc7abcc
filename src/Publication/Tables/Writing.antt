-- ===== src/Publication/Tables/Writing.antt =====
-- What app.publish_public_update writes, and when it answers that it published
-- (services/platform/migrations/versions/0017_public_updates.py).
use shaidago.Base.{
  ℕ, ◌≡◌, ◌≢◌, inl, inr, refl, sym, ap, ◌∙◌, true, false, ◌&&◌, List, [], ◌∷◌, ◌++◌, All, Option,
  some, ok, ◌==◌, ==_iff, bind-ok, map, arith, Bool-cases, Option-cases, ok-injective,
}
use shaidago.Publication.Sources.{is_empty}
use shaidago.Publication.Tables.{
  Draft, DraftCitation, SourceVersion, UpdateCitation, Reported, Db, PublishCall, was_published,
  select_draft, select_reported, select_version, has_update, is_draft, update_drafts, same_content,
  citation_check, passage_matches, citable_of, update_citation, insert_update_citations,
  is_repeated, update_check, project_update, unverified, other_version, other_project, version_of,
  may_publish, mark_published, write_public, publish_draft, publish_public_update,
  public_update_published,
}
use shaidago.Publication.Tables.Sound.{IsKeyed}
use shaidago.Publication.Tables.Laws.{
  changed, update_drafts-ok, update_drafts-total, AreDrafts, same_content_refl,
}

module _ (i now : ℕ) (versions : List SourceVersion) where
  insert_update_citations-ok :
      (cs : List DraftCitation) (rows : List UpdateCitation) {rows' : List UpdateCitation}
      → insert_update_citations i now versions cs rows ≡ ok rows'
      → rows' ≡ map (update_citation i now) cs ++ rows
  unfolding insert_update_citations
  insert_update_citations-ok [] rows h = ground arith
  insert_update_citations-ok (c ∷ cs) rows {rows'} h =
      elim (Bool-cases (
        citation_check c.passage c.location_label
        && passage_matches (select_version c.source_version_id versions) c.passage
            c.passage_start)) [
              | inl stands ↦
                  bind-ok (insert_update_citations i now versions cs rows) _ (rw stands at h)
                    λ others e1 h1.
                      elim (Bool-cases (is_repeated (update_citation i now c) others)) [
                        | inl again ↦ absurd (ground (arith, rw again at h1))
                        | inr first ↦
                            let whole : update_citation i now c ∷ others ≡ rows' =
                              ok-injective (rw first at h1) in
                            sym whole
                            ∙ ap (λ t. update_citation i now c ∷ t)
                                (insert_update_citations-ok cs rows e1)
                      ]
              | inr falls ↦ absurd (ground (arith, rw falls at h))
            ]

  -- Every citation satisfies the checks, stands in its version and has a key of its own.
  abbrev pub Stand : List UpdateCitation → List DraftCitation → Type 0
  Stand rows [] = Unit
  Stand rows (c ∷ cs) =
      (citation_check c.passage c.location_label ≡ true)
      × (passage_matches (select_version c.source_version_id versions) c.passage c.passage_start
          ≡ true)
      × (is_repeated (update_citation i now c) (map (update_citation i now) cs ++ rows) ≡ false)
      × Stand rows cs

  insert_update_citations-total :
      (cs : List DraftCitation) (rows : List UpdateCitation)
      → Stand rows cs
      → insert_update_citations i now versions cs rows ≡ ok (map (update_citation i now) cs ++ rows)
  unfolding insert_update_citations
  insert_update_citations-total [] rows s = refl
  insert_update_citations-total (c ∷ cs) rows (check, stands, first, s) =
      rw (check, stands, insert_update_citations-total cs rows s, first) refl

-- The tables after a publication.
abbrev pub after_publication : PublishCall → Draft → ℕ → Db → Db
after_publication call d report_version db = record db {
  public = project_update d call.now ∷ db.public;
  public_citations =
      map (update_citation d.id call.now) (citable_of d.id db.versions db.citations)
      ++ db.public_citations;
  drafts = map (changed (λ row. row.id == d.id) (mark_published call.actor_id call.now)) db.drafts;
  audit =
      record {
        id = call.audit_id;
        occurred_at = call.now;
        actor_type = call.actor_type;
        actor_id = some call.actor_id;
        event = public_update_published report_version;
        subject_id = d.id;
        request_id = call.request_id;
      }
      ∷ db.audit;
}

write_public-ok :
    (call : PublishCall) (d : Draft) (v : ℕ) (db : Db) {db' : Db}
    → write_public call d v db ≡ ok db'
    → (update_check d call.now ≡ true)
      × (has_update d.id db.public ≡ false)
      × (db' ≡ after_publication call d v db)
unfolding write_public
write_public-ok call d v db {db'} h = elim (Bool-cases (update_check d call.now)) [
  | inr fails ↦ absurd (ground (arith, rw fails at h))
  | inl check ↦ elim (Bool-cases (has_update d.id db.public)) [
    | inl there ↦ absurd (ground (arith, rw (check, there) at h))
    | inr fresh ↦
        bind-ok
          (insert_update_citations d.id call.now db.versions
            (citable_of d.id db.versions db.citations) db.public_citations)
          _ (rw (check, fresh) at h)
          λ cited e1 h1.
            bind-ok
              (update_drafts (λ row. row.id == d.id) (mark_published call.actor_id call.now)
                db.drafts)
              _ h1
              λ drafts e2 h2.
                let rows =
                  insert_update_citations-ok d.id call.now db.versions
                    (citable_of d.id db.versions db.citations) db.public_citations e1 in
                let set =
                  (update_drafts-ok (λ row. row.id == d.id) (mark_published call.actor_id call.now)
                    db.drafts e2).0 in
                (check, fresh, sym (ok-injective h2) ∙ rw (rows, set) refl)
  ]
]

-- What a publication has found.
pub record Wrote (call : PublishCall) (i : ℕ) (db : Db) (db' : Db) : Type 0 where
  pub d : Draft
  pub found : select_draft i db.drafts ≡ some d
  pub was_draft : is_draft d.state ≡ true
  pub verified : unverified (select_reported d.report_id db.reports) ≡ false
  pub current : other_version (select_reported d.report_id db.reports) call.expected_version ≡ false
  pub cited : is_empty (citable_of d.id db.versions db.citations) ≡ false
  pub check : update_check d call.now ≡ true
  pub fresh : has_update d.id db.public ≡ false
  pub may : may_publish call.actor_type ≡ true
  pub written :
      db' ≡ after_publication call d (version_of (select_reported d.report_id db.reports)) db

publish_draft-ok :
    (call : PublishCall) (d : Draft) (report : Option Reported) (db : Db) {db' : Db}
    → publish_draft call d report db ≡ ok (was_published, db')
    → (is_draft d.state ≡ true)
      × (unverified report ≡ false)
      × (other_version report call.expected_version ≡ false)
      × (is_empty (citable_of d.id db.versions db.citations) ≡ false)
      × (write_public call d (version_of report) db ≡ ok db')
unfolding publish_draft
publish_draft-ok call d report db {db'} h = elim (Bool-cases (is_draft d.state)) [
  | inr settled ↦ absurd (ground (arith, rw settled at h))
  | inl open_draft ↦ elim (Bool-cases (unverified report)) [
    | inl refused ↦ absurd (ground (arith, rw (open_draft, refused) at h))
    | inr verified ↦ elim (Bool-cases (other_version report call.expected_version)) [
      | inl old ↦ absurd (ground (arith, rw (open_draft, verified, old) at h))
      | inr current ↦ elim (Bool-cases (other_project report d.project_id)) [
        | inl moved ↦ absurd (ground (arith, rw (open_draft, verified, current, moved) at h))
        | inr same ↦ elim (Bool-cases (is_empty (citable_of d.id db.versions db.citations))) [
          | inl uncited ↦
              absurd (ground (arith, rw (open_draft, verified, current, same, uncited) at h))
          | inr cited ↦ (
            open_draft,
            verified,
            current,
            cited,
            bind-ok (write_public call d (version_of report) db) _
                (rw (open_draft, verified, current, same, cited) at h)
                λ written e1 h1. let pair : written ≡ db' = ground arith in e1 ∙ ap ok pair,
          )
        ]
      ]
    ]
  ]
]

pub publish_public_update-ok :
    (call : PublishCall) (i : ℕ) (db : Db) {db' : Db}
    → publish_public_update call i db ≡ ok (was_published, db')
    → Wrote call i db db'
unfolding publish_public_update
publish_public_update-ok call i db {db'} h = elim (Bool-cases (may_publish call.actor_type)) [
  | inr may_not ↦ absurd (ground (arith, rw may_not at h))
  | inl may ↦ elim (Option-cases (select_draft i db.drafts)) [
    | inl missing ↦ absurd (ground (arith, rw (may, missing) at h))
    | inr (d, found) ↦
        let report = select_reported d.report_id db.reports in
        let (was, verified, current, cited, w) =
          publish_draft-ok call d report db (rw (may, found) at h) in
        let (check, fresh, written) = write_public-ok call d (version_of report) db w in
        record {
          d = d;
          found = found;
          was_draft = was;
          verified = verified;
          current = current;
          cited = cited;
          check = check;
          fresh = fresh;
          may = may;
          written = written;
        }
  ]
]

AreDrafts-none :
    (set : Draft → Draft) (i : ℕ) (ds : List Draft)
    → All (λ e. e.id ≢ i) ds
    → AreDrafts (λ row. row.id == i) set ds
AreDrafts-none set i [] a = tt
AreDrafts-none set i (e ∷ ds) (n, a) =
    ((λ h. absurd (n ((==_iff e.id i).0 h))), AreDrafts-none set i ds a)

AreDrafts-keyed :
    (set : Draft → Draft) (i : ℕ) (ds : List Draft) {d : Draft}
    → IsKeyed ds
    → select_draft i ds ≡ some d
    → is_draft d.state ≡ true
    → AreDrafts (λ row. row.id == i) set ds
unfolding select_draft
AreDrafts-keyed set i [] k found is = tt
AreDrafts-keyed set i (e ∷ ds) {d} (n, k) found is = elim (Bool-cases (e.id == i)) [
  | inl here ↦
      let same : e ≡ d = ground arith in
      let id : e.id ≡ i = (==_iff e.id i).0 here in
      ((λ h. ap (λ x. is_draft x.state) same ∙ is), AreDrafts-none set i ds (rw id at n))
  | inr there ↦ ((λ h. cc), AreDrafts-keyed set i ds k (rw there at found) is)
]

-- A verified draft with a citation is published when every check of the tables holds.
pub publish_public_update-total :
    (call : PublishCall) (i : ℕ) (db : Db) {d : Draft} {r : Reported}
    → IsKeyed db.drafts
    → select_draft i db.drafts ≡ some d
    → d.id ≡ i
    → select_reported d.report_id db.reports ≡ some r
    → is_draft d.state ≡ true
    → unverified (some r) ≡ false
    → other_version (some r) call.expected_version ≡ false
    → other_project (some r) d.project_id ≡ false
    → is_empty (citable_of d.id db.versions db.citations) ≡ false
    → Stand d.id call.now db.versions db.public_citations (citable_of d.id db.versions db.citations)
    → update_check d call.now ≡ true
    → has_update d.id db.public ≡ false
    → may_publish call.actor_type ≡ true
    → publish_public_update call i db ≡ ok (was_published, after_publication call d r.version db)
unfolding publish_public_update publish_draft write_public same_content
publish_public_update-total call i db {d} {r} keyed found id report was verified current same cited
      stand check fresh may =
    let set = mark_published call.actor_id call.now in
    let are : AreDrafts (λ row. row.id == d.id) set db.drafts =
      AreDrafts-keyed set d.id db.drafts keyed (ap (λ t. select_draft t db.drafts) id ∙ found)
        was in
    let drafts =
      update_drafts-total (λ row. row.id == d.id) set db.drafts (λ x. refl)
        (λ x. same_content_refl x) are in
    let rows =
      insert_update_citations-total d.id call.now db.versions
        (citable_of d.id db.versions db.citations) db.public_citations stand in
    rw (may, found, report, was, verified, current, same, cited, check, fresh, rows, drafts) refl
