-- ===== src/Publication/Drafts/Withdrawn.antt =====
-- What a withdrawal finds and leaves: `withdraw`
-- (services/platform/src/shaidago/review/publication.py).
use shaidago.Base.{
  ℕ, ◌≡◌, ◌≢◌, refl, sym, ap, ◌∙◌, Bool, true, false, not, List, [], ◌∷◌, All, some, ok, guard, map,
  ◌==◌, ==_iff, bind-ok, guard-ok, arith, Bool-cases, inl, inr, ok-injective,
}
use shaidago.Report.Decision.{Reviewer}
use shaidago.Publication.Tables.{
  Draft, UpdateAudit, Db, select_draft, is_draft, update_drafts, public_update_withdrawn,
}
use shaidago.Publication.Tables.Laws.{changed, count, update_drafts-ok}
use shaidago.Publication.Tables.Sound.{IsKeyed}
use shaidago.Publication.Drafts.{stored, audit_row, is_open_draft, mark_withdrawn, withdraw}
use shaidago.Publication.Drafts.Accepted.{stored-ok}

count-none :
    (report_id i : ℕ) (ds : List Draft)
    → All (λ e. e.id ≢ i) ds
    → count (is_open_draft report_id i) ds ≡ 0
unfolding count
count-none report_id i [] a = refl
count-none report_id i (d ∷ ds) (n, a) =
    let other : (d.id == i) ≡ false = ground arith in rw other (count-none report_id i ds a)

-- Where identifiers are keys, an open draft that is counted is the row of its identifier.
count-some :
    (report_id i : ℕ) (ds : List Draft)
    → IsKeyed ds
    → (count (is_open_draft report_id i) ds == 0) ≡ false
    → (d : Draft) × (select_draft i ds ≡ some d)
      × (d.report_id ≡ report_id)
      × (is_draft d.state ≡ true)
unfolding count select_draft
count-some report_id i [] k h = absurd (ground arith)
count-some report_id i (d ∷ ds) (n, k) h = elim (Bool-cases (d.id == i)) [
  | inr other ↦ rw other (count-some report_id i ds k (rw other at h))
  | inl here ↦
      let id : d.id ≡ i = (==_iff d.id i).0 here in
      elim (Bool-cases (d.report_id == report_id)) [
        | inr of_other ↦
            absurd
              (ground (arith, count-none report_id i ds (rw id at n), rw (here, of_other) at h))
        | inl its ↦ elim (Bool-cases (is_draft d.state)) [
          | inr settled ↦
              absurd (
                ground
                  (arith, count-none report_id i ds (rw id at n), rw (here, its, settled) at h))
          | inl open_draft ↦ (d, rw here refl, (==_iff d.report_id report_id).0 its, open_draft)
        ]
      ]
]

-- What a withdrawal has found and written.
pub record Dropped (now report_id i : ℕ) (db db' : Db) : Type 0 where
  pub d : Draft
  pub found : select_draft i db.drafts ≡ some d
  pub of_it : d.report_id ≡ report_id
  pub was_draft : is_draft d.state ≡ true
  pub audit : List UpdateAudit
  pub written : db' ≡ record db {
    drafts = map (changed (is_open_draft report_id i) (mark_withdrawn now)) db.drafts;
    audit = audit;
  }

pub withdraw-Dropped :
    (reviewer : Reviewer) (now audit_id audit_now report_id i : ℕ) (db : Db) {db' : Db}
    → IsKeyed db.drafts
    → withdraw reviewer now audit_id audit_now report_id i db ≡ ok db'
    → Dropped now report_id i db db'
unfolding withdraw
withdraw-Dropped reviewer now audit_id audit_now report_id i db {db'} keyed h =
    let matches = is_open_draft report_id i in
    let set = mark_withdrawn now in
    bind-ok (stored (update_drafts matches set db.drafts)) _ h λ updated e1 h1.
      bind-ok (guard (not (updated.1 == 0)) _) _ h1 λ u2 e2 h2.
        let (rows, counted) = update_drafts-ok matches set db.drafts (stored-ok _ e1) in
        let some_row : (count matches db.drafts == 0) ≡ false =
          ap (λ t. t == 0) (sym counted)
          ∙ not-true_false _ (guard-ok (not (updated.1 == 0)) _ e2) in
        let (d, found, its, open_draft) = count-some report_id i db.drafts keyed some_row in
        record {
          d = d;
          found = found;
          of_it = its;
          was_draft = open_draft;
          audit =
              audit_row reviewer audit_id audit_now (public_update_withdrawn report_id) i
              ∷ db.audit;
          written = sym (ok-injective h2) ∙ rw rows refl;
        }
  where
    not-true_false : (b : Bool) → not b ≡ true → b ≡ false
    not-true_false true e = cc
    not-true_false false e = refl
