-- ===== src/Report/Questions/Open.antt =====
-- How many questions of a report are open
-- (services/platform/src/shaidago/review/follow_up_questions.py).
use shaidago.Base.{
  ℕ, ◌≤◌, ◌≡◌, sym, ap, subst, ◌∙◌, ◌&&◌, not, List, [], ◌∷◌, Result, ok, err, guard, leb, ltb,
  length, ◌==◌, ==_iff, Text, bind-ok, guard-ok, ok-injective, arith, Bool-cases, inl, inr,
}
use shaidago.Problems.{not_found}
use shaidago.Report.Machine.{closed, ◌is_status◌}
use shaidago.Report.Tables.{DbError, select_report}
use shaidago.Report.Decision.{Reviewer, problem, or_fail}
use shaidago.Report.Questions.{
  QuestionRow, QuestionDesk, QuestionDraws, max_open_questions, min_chars, max_chars, valid,
  is_open_for, open_count, has_question, insert_question, inserted, question_row, ask,
  withdraw_rows, withdraw_question,
}

-- No report has more open questions than a reviewer may leave open.
abbrev pub IsBounded : QuestionDesk → Type 0
IsBounded d = (k : ℕ) → open_count k d.questions ≤ max_open_questions

-- A call that succeeded, or a change by others that leaves the questions alone.
pub data Step (d d' : QuestionDesk) : Type 0 where
  asking :
      (reviewer : Reviewer) (draws : QuestionDraws) (report_id : ℕ) (question : Text) (i : ℕ)
      → ask reviewer draws report_id question d ≡ ok (i, d')
      → Step d d'
  withdrawing :
      (reviewer : Reviewer) (draws : QuestionDraws) (report_id i : ℕ)
      → withdraw_question reviewer draws report_id i d ≡ ok d'
      → Step d d'
  elsewhere : d'.questions ≡ d.questions → Step d d'

inserted-ok {ℓ} : {A : Type ℓ} (r : Result DbError A) {a : A} → inserted r ≡ ok a → r ≡ ok a
inserted-ok (ok b) h = ground arith
inserted-ok (err e) h = absurd (ground arith)

insert_question-ok :
    (q : QuestionRow) (rows : List QuestionRow) {rows' : List QuestionRow}
    → insert_question q rows ≡ ok rows'
    → rows' ≡ q ∷ rows
unfolding insert_question
insert_question-ok q rows h =
    elim (Bool-cases (leb min_chars (length q.question) && leb (length q.question) max_chars)) [
      | inr bad ↦ absurd (let refused = rw bad at h in ground arith)
      | inl good ↦ elim (Bool-cases (has_question q.id rows)) [
        | inl taken ↦ absurd (let refused = rw (good, taken) at h in ground arith)
        | inr new ↦ sym (ok-injective (rw (good, new) at h))
      ]
    ]

open_count-asked :
    (k : ℕ) (q : QuestionRow) (rows : List QuestionRow)
    → open_count q.report_id rows ≤ 9
    → open_count k rows ≤ 10
    → open_count k (q ∷ rows) ≤ 10
unfolding open_count
open_count-asked k q rows few bounded = elim (Bool-cases (q.report_id == k)) [
  | inl its ↦
      let same : q.report_id ≡ k = (==_iff q.report_id k).0 its in
      let few' = subst (λ i. open_count i rows ≤ 9) same few in ground arith
  | inr other ↦ ground arith
]

withdraw_rows-open :
    (report_id i now k : ℕ) (rows : List QuestionRow)
    → open_count k (withdraw_rows report_id i now rows).0 ≤ open_count k rows
unfolding open_count withdraw_rows
withdraw_rows-open report_id i now k [] = omega arith
withdraw_rows-open report_id i now k (q ∷ rows) =
    let rest = withdraw_rows-open report_id i now k rows in
    elim (Bool-cases (q.id == i && is_open_for report_id q)) [
      | inl its ↦ rw its (ground (arith, rest))
      | inr other ↦ rw other (ground (arith, rest))
    ]

-- Asking and withdrawing, in whatever order and beside whatever else happens to the reports,
-- never leave a report with more than ten open questions.
pub Step-IsBounded : {d d' : QuestionDesk} → Step d d' → IsBounded d → IsBounded d'
unfolding ask withdraw_question
Step-IsBounded {d} {d'} (asking reviewer draws report_id question i h) bounded =
    bind-ok (valid question) _ h λ cleaned e1 h1.
      bind-ok (or_fail (problem not_found []) (select_report report_id d.reports)) _ h1 λ row e2 h2.
        bind-ok (guard (not (row.status is_status closed)) _) _ h2 λ u3 e3 h3.
          bind-ok (guard (ltb (open_count report_id d.questions) max_open_questions) _) _ h3
            λ u4 e4 h4.
              let q = question_row reviewer draws report_id cleaned in
              bind-ok (inserted (insert_question q d.questions)) _ h4 λ rows e5 h5.
                let few =
                  guard-ok (ltb (open_count report_id d.questions) max_open_questions) _ e4 in
                let put =
                  insert_question-ok q d.questions
                    (inserted-ok (insert_question q d.questions) e5) in
                let written : d'.questions ≡ q ∷ d.questions =
                  ap (λ p. p.1.questions) (sym (ok-injective h5)) ∙ put in
                λ k.
                  subst (λ t. open_count k t ≤ max_open_questions) (sym written)
                    (open_count-asked k q d.questions (ground arith) (bounded k))
Step-IsBounded {d} {d'} (withdrawing reviewer draws report_id i h) bounded =
    let updated = withdraw_rows report_id i draws.now d.questions in
    bind-ok (guard (leb 1 updated.1) _) _ h λ u e1 h1.
      let written : d'.questions ≡ updated.0 = ap (λ x. x.questions) (sym (ok-injective h1)) in
      λ k.
        let fewer = withdraw_rows-open report_id i draws.now k d.questions in
        let most = bounded k in
        subst (λ t. open_count k t ≤ max_open_questions) (sym written) (omega arith)
Step-IsBounded (elsewhere same) bounded =
    λ k. subst (λ t. open_count k t ≤ max_open_questions) (sym same) (bounded k)
