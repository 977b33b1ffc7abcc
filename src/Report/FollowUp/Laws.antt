-- ===== src/Report/FollowUp/Laws.antt =====
-- What an answer changes, that a question is answered once, and when the status stays in step.
use shaidago.Base.{
  ◌≡◌, ◌⊎◌, Bool, true, false, ◌&&◌, ◌||◌, not, ◌∷◌, some, ok, arith, inl, inr, Bool-cases,
  Option-cases, Result-cases, map,
}
use shaidago.Crypto.{has_key}
use shaidago.Report.Machine.{needs_information, under_review, ◌is_status◌}
use shaidago.Report.Tables.{Report, StatusEvent, Db, insert_event, project, set_status}
use shaidago.Report.FollowUp.{
  Submission, Desk, locate, is_answered, has_open, answer_row, resume_event, resume, store_answer,
  follow_up_submit, answer_check, has_answer,
}

-- Whether the answer is the last one that the report waits for.
abbrev pub resumes : Report → Bool → Bool
resumes r none_open = r.status is_status needs_information && none_open

-- The tables after the status has been moved on, or not.
pub record Resumed (s : Submission) (r : Report) (db db' : Db) : Type 0 where
  pub events : db'.events ≡ resume_event s r.id ∷ db.events
  pub reports : db'.reports ≡ map (set_status r.id under_review s.now) db.reports

insert_event-ok :
    (e : StatusEvent) (db : Db) {db' : Db}
    → insert_event e db ≡ ok db'
    → db' ≡ record db { events = e ∷ db.events }
unfolding insert_event
insert_event-ok e db h = ground arith

resumed :
    (s : Submission) (r : Report) (db inserted : Db) {db' : Db}
    → inserted ≡ record db { events = resume_event s r.id ∷ db.events }
    → project r.id under_review s.now inserted ≡ db'
    → Resumed s r db db'
unfolding project
resumed s r db inserted same out = record { events = ground arith; reports = ground arith }

resume-cases :
    (s : Submission) (r : Report) (none_open : Bool) (db : Db) {db' : Db}
    → resume s r none_open db ≡ ok db'
    → ((resumes r none_open ≡ false) × (db' ≡ db))
      ⊎ ((resumes r none_open ≡ true) × Resumed s r db db')
unfolding resume
resume-cases s r none_open db {db'} h = elim (Bool-cases (resumes r none_open)) [
  | inr stays ↦ inl (stays, ground arith)
  | inl moves ↦ elim (Result-cases (insert_event (resume_event s r.id) db)) [
    | inr (e, failed) ↦ ground arith
    | inl (inserted, done) ↦ inr (
      moves,
      resumed s r db inserted (insert_event-ok (resume_event s r.id) db done) (ground arith),
    )
  ]
]

-- What an answer that is recorded leaves behind, for the report that it belongs to.
pub record Recorded (s : Submission) (r : Report) (d d' : Desk) : Type 0 where
  pub first : is_answered s.question_id d.answers ≡ false
  pub answers : d'.answers ≡ answer_row s r.id ∷ d.answers
  pub kept : (d'.questions ≡ d.questions) × (d'.tracking_keys ≡ d.tracking_keys)
  pub moved : Db
  pub tables : (d'.tables.reports ≡ moved.reports) × (d'.tables.events ≡ moved.events)
  pub status :
      let last = resumes r (not (has_open r.id (answer_row s r.id ∷ d.answers) d.questions)) in
      ((last ≡ false) × (moved ≡ d.tables)) ⊎ ((last ≡ true) × Resumed s r d.tables moved)

module _ (s : Submission) (r : Report) (d : Desk) {b : Bool} {d' : Desk} where
  store_answer-cases :
      store_answer s r d ≡ ok (b, d') → ((b ≡ false) × (d' ≡ d)) ⊎ ((b ≡ true) × Recorded s r d d')
  unfolding store_answer
  store_answer-cases h = elim (Bool-cases (answer_check (answer_row s r.id))) [
    | inr bad ↦ ground arith
    | inl good ↦ elim (Bool-cases (is_answered s.question_id d.answers)) [
      | inl again ↦ inl (ground arith, ground arith)
      | inr first ↦
          elim (Bool-cases
            (has_answer s.answer_id d.answers || not (has_key s.key_id d.tables.data_keys))) [
              | inl refused ↦ ground arith
              | inr sound ↦
                  elim (Result-cases (
                    resume s r (not (has_open r.id (answer_row s r.id ∷ d.answers) d.questions))
                      d.tables)) [
                        | inr (e, failed) ↦ ground arith
                        | inl (moved, done) ↦ inr (
                          ground arith,
                          record {
                            first = first;
                            answers = ground arith;
                            kept = (ground arith, ground arith);
                            moved = moved;
                            tables = (ground arith, ground arith);
                            status = resume-cases s r _ d.tables done;
                          },
                        )
                      ]
            ]
    ]
  ]

module _ (s : Submission) (d : Desk) {b : Bool} {d' : Desk} where
  -- A submission that reports `False` changes nothing; one that reports `True` records the first
  -- answer to the question and keeps the others, and moves the report's status to `under_review`
  -- with an event exactly when it waited for information and no open question is left.
  pub follow_up_submit-cases :
      follow_up_submit s d ≡ ok (b, d')
      → ((b ≡ false) × (d' ≡ d))
        ⊎ ((b ≡ true) × ((r : Report) × (locate s d ≡ some r) × Recorded s r d d'))
  unfolding follow_up_submit
  follow_up_submit-cases h = elim (Option-cases (locate s d)) [
    | inl lost ↦ inl (ground arith, ground arith)
    | inr (r, found) ↦ elim (store_answer-cases s r d (rw found at h)) [
      | inl same ↦ inl same
      | inr (recorded, e) ↦ inr (recorded, (r, found, e))
    ]
  ]
