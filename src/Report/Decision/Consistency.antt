-- ===== src/Report/Decision/Consistency.antt =====
-- A decision keeps every status in step with its history, so it commits, and it outdates the view
-- of everybody else.
use shaidago.Base.{◌∙◌, sym, suc, ℕ, ◌≡◌, ◌≢◌, true, some, ok, arith}
use shaidago.Crypto.{Aead, Ring}
use shaidago.Report.Machine.{Status}
use shaidago.Report.Tables.{Report, Db, select_report, projection_holds, same_status}
use shaidago.Report.Tables.Laws.{
  IsProjected, IsProjected-set_status, IsProjected-holds, select_report-set_status,
}
use shaidago.Report.Decision.{DecisionRequest, Reviewer, DecisionResult, Draws, decide, committed}
use shaidago.Report.Decision.Outcome.{Decided, decide-Decided}

same_status_refl : (s : Status) → same_status (some s) (some s) ≡ true
same_status_refl s = ground arith

projection_holds-IsProjected :
    (i : ℕ) (db : Db) (r : Report)
    → IsProjected db.events db.reports
    → select_report i db.reports ≡ some r
    → projection_holds i db ≡ true
unfolding projection_holds
projection_holds-IsProjected i db r p e =
    rw (e, IsProjected-holds i db.events db.reports r p e) (same_status_refl r.status)

module _ (aead : Aead) (ring : Ring) (reviewer : Reviewer) (report_id : ℕ) (draws : Draws) where
  module _ (request : DecisionRequest) (db : Db) {res : DecisionResult} {db' : Db} where
    Decided-IsProjected :
        Decided reviewer report_id request db db' res
        → IsProjected db.events db.reports
        → IsProjected db'.events db'.reports
    Decided-IsProjected d p =
        let kept =
          IsProjected-set_status d.event db.events d.event.occurred_at db.reports d.latest p in
        rw (d.appended, d.projected) (simp (d.event_of.0) at kept)

    -- Where every status was that of the report's newest event, a decision that succeeds keeps this
    -- so and its unit of work commits, however the clock is skewed.
    pub decide-committed :
        IsProjected db.events db.reports
        → decide aead ring reviewer report_id draws request db ≡ ok (res, db')
        → IsProjected db'.events db'.reports
          × (committed report_id db (decide aead ring reviewer report_id draws request db)
              ≡ (ok res, db'))
    unfolding committed
    decide-committed p h =
        let d = decide-Decided aead ring reviewer report_id draws request db h in
        let kept = Decided-IsProjected d p in
        (kept, rw (h, projection_holds-IsProjected report_id db' d.current kept d.read_back))

    -- A decision that succeeds leaves every other report's row as it was.
    pub decide-other :
        (other : ℕ)
        → other ≢ report_id
        → decide aead ring reviewer report_id draws request db ≡ ok (res, db')
        → select_report other db'.reports ≡ select_report other db.reports
    decide-other other n h =
        let d = decide-Decided aead ring reviewer report_id draws request db h in
        rw (d.projected) (
          select_report-set_status report_id other d.event.new_status d.event.occurred_at db.reports
            n)

    -- After a decision on a version of a report, no second decision on the same version succeeds,
    -- whoever makes it and whatever it asks for.
    pub decide-once :
        (reviewer2 : Reviewer) (draws2 : Draws) (request2 : DecisionRequest) (res2 : DecisionResult)
        (db2 : Db)
        → decide aead ring reviewer report_id draws request db ≡ ok (res, db')
        → request2.expected_version ≡ request.expected_version
        → decide aead ring reviewer2 report_id draws2 request2 db' ≢ ok (res2, db2)
    decide-once reviewer2 draws2 request2 res2 db2 h same h2 =
        let d = decide-Decided aead ring reviewer report_id draws request db h in
        let d2 = decide-Decided aead ring reviewer2 report_id draws2 request2 db' h2 in
        clash d.row.version d.current d2.row d.read_back d2.found d.moved.1
          (d.expected.1 ∙ sym same) d2.expected.1
      where
        clash :
            (v : ℕ) (current row : Report) {w : ℕ}
            → select_report report_id db'.reports ≡ some current
            → select_report report_id db'.reports ≡ some row
            → current.version ≡ suc v
            → v ≡ w
            → row.version ≡ w
            → ⊥
        clash v current row e f g p q = ground arith
