-- ===== src/Report/FollowUp/Order.antt =====
-- An answer and the order of events: a question is answered once, and the status stays in step
-- with the history only while the clock runs ahead of it.
use shaidago.Base.{
  ◌∙◌, ap, sym, subst, ℕ, ◌<◌, ◌≡◌, Bool, true, false, not, List, ◌∷◌, some, ok, err, arith, inl,
  inr, ==_refl, Option-cases, ◌⊎◌, Bool-cases,
}
use shaidago.Report.Machine.{Status, needs_information, under_review}
use shaidago.Report.Tables.{
  Report, StatusEvent, Db, select_report, latest_event_at, newest, status_of, projection_holds,
  set_status, check_violation,
}
use shaidago.Report.Tables.Laws.{
  IsProjected, IsProjected-set_status, IsProjected-holds, select_report-set_self, select_report-id,
  latest-newest,
}
use shaidago.Report.FollowUp.{
  Submission, Desk, Answer, locate, is_answered, has_open, answer_row, resume_event, store_answer,
  follow_up_submit, find_question, answer_check,
}
use shaidago.Report.FollowUp.Laws.{Recorded, resumes, follow_up_submit-cases}

-- What a submission for a question that has an answer can come to: nothing is changed, or the row
-- itself is refused.
abbrev pub Unrecorded : Submission → Desk → Type 0
Unrecorded s d =
    (follow_up_submit s d ≡ ok (false, d)) ⊎ (follow_up_submit s d ≡ err check_violation)

store_answer-again :
    (s : Submission) (r : Report) (d : Desk)
    → is_answered s.question_id d.answers ≡ true
    → (store_answer s r d ≡ ok (false, d)) ⊎ (store_answer s r d ≡ err check_violation)
unfolding store_answer
store_answer-again s r d h = elim (Bool-cases (answer_check (answer_row s r.id))) [
  | inl good ↦ inl (rw (good, h))
  | inr bad ↦ inr (rw bad)
]

follow_up_submit-again :
    (s : Submission) (d : Desk) → is_answered s.question_id d.answers ≡ true → Unrecorded s d
unfolding follow_up_submit
follow_up_submit-again s d h = elim (Option-cases (locate s d)) [
  | inl lost ↦ inl (rw lost)
  | inr (r, found) ↦ rw found (store_answer-again s r d h)
]

is_answered-here :
    (s : Submission) (i : ℕ) (answers : List Answer)
    → is_answered s.question_id (answer_row s i ∷ answers) ≡ true
unfolding is_answered
is_answered-here s i answers = rw (==_refl s.question_id)

is_answered-there :
    (i : ℕ) (a : Answer) (answers : List Answer)
    → is_answered i answers ≡ true
    → is_answered i (a ∷ answers) ≡ true
unfolding is_answered
is_answered-there i a answers h = ground arith

-- The desk after any number of submissions, with any changes of its other tables between them.
pub data Later (d : Desk) : Desk → Type 0 where
  here : Later d d
  submitted :
      {d1 d2 : Desk} (s : Submission) (b : Bool)
      → Later d d1
      → follow_up_submit s d1 ≡ ok (b, d2)
      → Later d d2
  elsewhere : {d1 d2 : Desk} → Later d d1 → d2.answers ≡ d1.answers → Later d d2

submitted-is_answered :
    (i : ℕ) (s : Submission) (d : Desk) {b : Bool} {d' : Desk}
    → follow_up_submit s d ≡ ok (b, d')
    → is_answered i d.answers ≡ true
    → is_answered i d'.answers ≡ true
submitted-is_answered i s d h there = elim (follow_up_submit-cases s d h) [
  | inl (_, same) ↦ rw same there
  | inr (_, (r, _, recorded)) ↦
      rw recorded.answers (is_answered-there i (answer_row s r.id) d.answers there)
]

Later-is_answered :
    (i : ℕ) {d d' : Desk}
    → Later d d'
    → is_answered i d.answers ≡ true
    → is_answered i d'.answers ≡ true
Later-is_answered i here h = h
Later-is_answered i (submitted {d1} s b before done) h =
    submitted-is_answered i s d1 done (Later-is_answered i before h)
Later-is_answered i (elsewhere before same) h = rw same (Later-is_answered i before h)

-- The submission comes after every event of the report that it answers for.
abbrev pub RunsAhead : Submission → Desk → Type 0
RunsAhead s d =
    (r : Report) (m : ℕ)
    → locate s d ≡ some r
    → latest_event_at r.id d.tables.events ≡ some m
    → m < s.now

module _ (s : Submission) (d : Desk) {d' : Desk} where
  -- Once an answer to a question is recorded, every later submission for the same question reports
  -- `False` and changes nothing, or is refused by the checks of its own row: after any number of
  -- submissions and any changes of the other tables, whoever makes it and whatever it carries.
  pub follow_up_submit-once :
      (s2 : Submission) {d2 : Desk}
      → follow_up_submit s d ≡ ok (true, d')
      → Later d' d2
      → s2.question_id ≡ s.question_id
      → (follow_up_submit s2 d2 ≡ ok (false, d2)) ⊎ (follow_up_submit s2 d2 ≡ err check_violation)
  follow_up_submit-once s2 {d2} h later same = elim (follow_up_submit-cases s d h) [
    | inl (no_, _) ↦ cc
    | inr (_, (r, _, recorded)) ↦ follow_up_submit-again s2 d2 (
        Later-is_answered s2.question_id later
          (rw (same, recorded.answers) (is_answered-here s r.id d.answers)))
  ]

  -- While the clock of the submission runs ahead of the events of the report, an answer keeps every
  -- status equal to that of the newest event.
  pub follow_up_submit-IsProjected :
      {b : Bool}
      → RunsAhead s d
      → IsProjected d.tables.events d.tables.reports
      → follow_up_submit s d ≡ ok (b, d')
      → IsProjected d'.tables.events d'.tables.reports
  follow_up_submit-IsProjected ahead p h = elim (follow_up_submit-cases s d h) [
    | inl (_, same) ↦ rw same p
    | inr (_, (r, found, recorded)) ↦ elim recorded.status [
      | inl (_, same) ↦ rw (recorded.tables.0, recorded.tables.1, same) p
      | inr (_, resumed) ↦
          rw (recorded.tables.0, recorded.tables.1, resumed.events, resumed.reports)
            (IsProjected-set_status (resume_event s r.id) d.tables.events s.now d.tables.reports
              (λ m e. ahead r m found e) p)
    ]
  ]

locate-select :
    (s : Submission) (d : Desk) (r : Report)
    → locate s d ≡ some r
    → select_report r.id d.tables.reports ≡ some r
unfolding locate
locate-select s d r h = elim (Option-cases (find_question s.question_id d.questions)) [
  | inl lost ↦ ground arith
  | inr (q, found) ↦ elim (Option-cases (select_report q.report_id d.tables.reports)) [
    | inl gone ↦ ground arith
    | inr (x, row) ↦
        let here : x.id ≡ q.report_id = select_report-id q.report_id d.tables.reports x row in
        let same : x ≡ r = ground arith in simp (← same, here) row
  ]
]

newer-skewed :
    (e : StatusEvent) (es : List StatusEvent) (m : ℕ)
    → latest_event_at e.report_id es ≡ some m
    → e.occurred_at < m
    → newest e.report_id (e ∷ es) ≡ newest e.report_id es
unfolding newest
newer-skewed e es m l h = elim (Option-cases (newest e.report_id es)) [
  | inl first ↦ ground (arith, latest-newest e.report_id es)
  | inr (f, more) ↦ rw (==_refl e.report_id, more) (ground (arith, latest-newest e.report_id es))
]

out_of_step :
    (i : ℕ) (db : Db) (r : Report)
    → select_report i db.reports ≡ some r
    → status_of (newest i db.events) ≡ some needs_information
    → r.status ≡ under_review
    → projection_holds i db ≡ false
unfolding projection_holds
out_of_step i db r found old new = rw (found, old, new)

set_status-here : (r : Report) (new : Status) (now : ℕ) → (set_status r.id new now r).status ≡ new
unfolding set_status
set_status-here r new now = rw (==_refl r.id) (ground arith)

skewed-Recorded :
    (s : Submission) (d : Desk) (r : Report) (m : ℕ) {d' : Desk}
    → select_report r.id d.tables.reports ≡ some r
    → latest_event_at r.id d.tables.events ≡ some m
    → s.now < m
    → IsProjected d.tables.events d.tables.reports
    → resumes r (not (has_open r.id (answer_row s r.id ∷ d.answers) d.questions)) ≡ true
    → Recorded s r d d'
    → projection_holds r.id d'.tables ≡ false
skewed-Recorded s d r m {d'} row latest skew p last recorded = elim recorded.status [
  | inl (no_, _) ↦ cc
  | inr (_, resumed) ↦
      let waits : r.status ≡ needs_information = ground (arith, last) in
      let newest_status : status_of (newest r.id d'.tables.events) ≡ some needs_information =
        rw (recorded.tables.1, resumed.events)
          (ap status_of (newer-skewed (resume_event s r.id) d.tables.events m latest skew)
            ∙ IsProjected-holds r.id d.tables.events d.tables.reports r p row
            ∙ ap some waits) in
      let moved_row : select_report r.id d'.tables.reports
          ≡ some (set_status r.id under_review s.now r) =
        rw (recorded.tables.0, resumed.reports)
          (select_report-set_self r.id under_review s.now d.tables.reports row) in
      out_of_step r.id d'.tables (set_status r.id under_review s.now r) moved_row newest_status
        (set_status-here r under_review s.now)
]

-- When the clock of the submission stands before the newest event of the report and the answer is
-- the last one that the report waits for, the answer is recorded with a status that is not that of
-- the newest event, so the deferred trigger refuses the transaction.
pub follow_up_submit-skewed :
    (s : Submission) (d : Desk) (r : Report) (m : ℕ) {d' : Desk}
    → locate s d ≡ some r
    → latest_event_at r.id d.tables.events ≡ some m
    → s.now < m
    → IsProjected d.tables.events d.tables.reports
    → resumes r (not (has_open r.id (answer_row s r.id ∷ d.answers) d.questions)) ≡ true
    → follow_up_submit s d ≡ ok (true, d')
    → projection_holds r.id d'.tables ≡ false
follow_up_submit-skewed s d r m {d'} found latest skew p last h =
    elim (follow_up_submit-cases s d h) [
      | inl (no_, _) ↦ cc
      | inr (_, (x, found2, recorded)) ↦
          let same : r ≡ x = ground (arith, found, found2) in
          skewed-Recorded s d r m (locate-select s d r found) latest skew p last
            (subst (λ y. Recorded s y d d') (sym same) recorded)
    ]
