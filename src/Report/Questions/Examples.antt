-- ===== src/Report/Questions/Examples.antt =====
-- A report with two open questions (services/platform/src/shaidago/review/follow_up_questions.py).
use shaidago.Base.{
  ℕ, ◌≡◌, refl, [], ◌∷◌, none, some, ok, err, codes, strip, lstrip, rstrip, is_space, arith,
}
use shaidago.Problems.{not_found}
use shaidago.Report.Machine.{reviewer}
use shaidago.Report.Tables.{select_report}
use shaidago.Report.Decision.{Reviewer, problem}
use shaidago.Report.Questions.{
  QuestionRow, QuestionDesk, QuestionDraws, report_follow_up_question_withdrawn, question_audit,
  valid, open_count, ask, withdraw_rows, withdraw_question,
}
use shaidago.Report.Questions.Open.{IsBounded, withdrawing, Step-IsBounded}

abbrev ann : Reviewer
ann = record { actor_type = reviewer; actor_id = 5; request_id = none }

abbrev draws : QuestionDraws
draws = record { now = 50; question_id = 20; audit_id = 30; audit_now = 51 }

abbrev where_is_it : ℕ → QuestionRow
where_is_it i = record {
  id = i;
  report_id = 1;
  question = codes "Where is it?";
  asked_by = some 5;
  asked_at = 40;
  withdrawn_at = none;
}

abbrev desk : QuestionDesk
desk = record { reports = []; questions = where_is_it 2 ∷ where_is_it 3 ∷ []; audit = [] }

abbrev fewer : QuestionDesk
fewer = record {
  reports = [];
  questions = record (where_is_it 2) { withdrawn_at = some 50 } ∷ where_is_it 3 ∷ [];
  audit = question_audit ann draws report_follow_up_question_withdrawn 1 2 ∷ [];
}

withdrawn : withdraw_question ann draws 1 2 desk ≡ ok fewer
unfolding withdraw_question withdraw_rows
withdrawn = refl

twice : withdraw_question ann draws 1 2 fewer ≡ err (problem not_found [])
unfolding withdraw_question withdraw_rows
twice = refl

unknown : ask ann draws 1 (codes "Which bridge?") desk ≡ err (problem not_found [])
unfolding ask valid strip lstrip rstrip is_space select_report
unknown = refl

two_are_open : IsBounded desk
unfolding open_count
two_are_open k = ground arith

Step-IsBounded_example : IsBounded fewer
Step-IsBounded_example = Step-IsBounded (withdrawing ann draws 1 2 withdrawn) two_are_open
