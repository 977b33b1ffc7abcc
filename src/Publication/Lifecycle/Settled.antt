-- ===== src/Publication/Lifecycle/Settled.antt =====
-- A public update that was published or withdrawn is settled: no later call and no later statement on
-- its table (services/platform/src/shaidago/review/publication.py and
-- services/platform/migrations/versions/0017_public_updates.py) changes it.
use shaidago.Base.{
  ℕ, ◌≡◌, ◌≢◌, refl, sym, ap, subst, ◌∙◌, Bool, true, false, not, List, [], ◌∷◌, some, ok, All,
  guard, bind-ok, ◌==◌, ==_iff, arith, Bool-cases, inl, inr, ok-injective,
}
use shaidago.Report.Decision.{Reviewer}
use shaidago.Publication.Tables.{
  Draft, Db, select_draft, is_draft, same_content, public_updates_guard, update_drafts,
  mark_published,
}
use shaidago.Publication.Tables.Sound.{IsKeyed, IsKeyed-changed}
use shaidago.Publication.Drafts.Withdrawn.{withdraw-Dropped}
use shaidago.Publication.Drafts.{
  DraftInput, Draws, create_draft, stored, has_draft, is_open_draft, mark_withdrawn, withdraw,
}
use shaidago.Publication.Drafts.Accepted.{create_draft-Accepted, stored-ok}
use shaidago.Publication.Preview.{Surroundings, Published, PublishDraws, publish}
use shaidago.Publication.Preview.Confirmed.{publish-Confirmed, select_draft-id}
use shaidago.Publication.Lifecycle.Refinement.{new-keyed, other_row}

-- Any sequence of successful calls and of `UPDATE` statements on the drafts, whatever they match and
-- set; every other table may change with such a statement. `public_updates_guard` refuses every
-- `DELETE` of a draft.
pub data Later (env : Surroundings) (db : Db) : Db → Type 1 where
  here : Later env db db
  drafting :
      {db1 db2 : Db} (reviewer : Reviewer) (draws : Draws) (report_id : ℕ) (input : DraftInput)
      (j : ℕ)
      → Later env db db1
      → create_draft reviewer draws report_id input db1 ≡ ok (j, db2)
      → Later env db db2
  publishing :
      {db1 db2 : Db} (reviewer : Reviewer) (draws : PublishDraws) (report_id j : ℕ)
      (confirmed : env.Digest) (res : Published)
      → Later env db db1
      → publish env reviewer draws report_id j confirmed db1 ≡ ok (res, db2)
      → Later env db db2
  withdrawing :
      {db1 db2 : Db} (reviewer : Reviewer) (now audit_id audit_now report_id j : ℕ)
      → Later env db db1
      → withdraw reviewer now audit_id audit_now report_id j db1 ≡ ok db2
      → Later env db db2
  updating :
      {db1 db2 : Db} (matches : Draft → Bool) (set : Draft → Draft) (n : ℕ)
      → Later env db db1
      → update_drafts matches set db1.drafts ≡ ok (db2.drafts, n)
      → Later env db db2

guard-keeps :
    (old new : Draft) {row : Draft}
    → public_updates_guard old new ≡ ok row
    → (row ≡ new) × (is_draft old.state ≡ true) × (new.id ≡ old.id)
unfolding public_updates_guard same_content
guard-keeps old new h = ground arith

-- The trigger lets no statement alter a settled row.
update_drafts-settled :
    (matches : Draft → Bool) (set : Draft → Draft) (i : ℕ) (ds : List Draft) {ds' : List Draft}
    {n : ℕ} {d : Draft}
    → update_drafts matches set ds ≡ ok (ds', n)
    → select_draft i ds ≡ some d
    → is_draft d.state ≡ false
    → select_draft i ds' ≡ some d
unfolding update_drafts select_draft
update_drafts-settled matches set i [] h found settled = absurd (ground arith)
update_drafts-settled matches set i (e ∷ ds) {ds'} {n} {d} h found settled =
    bind-ok (update_drafts matches set ds) _ h λ rest e1 h1. elim (Bool-cases (matches e)) [
      | inr miss ↦
          let same : e ∷ rest.0 ≡ ds' = ground (arith, rw miss at h1) in
          subst (λ t. select_draft i t ≡ some d) same
            (below e rest.0 (λ u. rw u at found)
              (λ u. update_drafts-settled matches set i ds e1 (rw u at found) settled))
      | inl hit ↦ bind-ok (public_updates_guard e (set e)) _ (rw hit at h1) λ new e2 h2.
          let (row, was, id) = guard-keeps e (set e) e2 in
          let same : new ∷ rest.0 ≡ ds' = ground arith in
          subst (λ t. select_draft i t ≡ some d) same
            (elim (Bool-cases (e.id == i)) [
              | inl own ↦
                  let its : e ≡ d = ground (arith, rw own at found) in
                  absurd (ground (arith, ap (λ (t : Draft). is_draft t.state) its, was, settled))
              | inr other ↦
                  let apart : (new.id == i) ≡ false =
                    ap (λ (t : Draft). t.id == i) row ∙ ap (λ t. t == i) id ∙ other in
                  rw apart (update_drafts-settled matches set i ds e1 (rw other at found) settled)
            ])
    ]
  where
    below :
        (x : Draft) (xs : List Draft)
        → ((x.id == i) ≡ true → some x ≡ some d)
        → ((x.id == i) ≡ false → select_draft i xs ≡ some d)
        → select_draft i (x ∷ xs) ≡ some d
    below x xs p q = elim (Bool-cases (x.id == i)) [
      | inl own ↦ rw own (p own)
      | inr other ↦ rw other (q other)
    ]

withdraw-updates :
    (reviewer : Reviewer) (now audit_id audit_now report_id i : ℕ) (db : Db) {db' : Db}
    → withdraw reviewer now audit_id audit_now report_id i db ≡ ok db'
    → (n : ℕ) × (update_drafts (is_open_draft report_id i) (mark_withdrawn now) db.drafts
        ≡ ok (db'.drafts, n))
unfolding withdraw
withdraw-updates reviewer now audit_id audit_now report_id i db {db'} h =
    bind-ok (stored (update_drafts (is_open_draft report_id i) (mark_withdrawn now) db.drafts)) _ h
      λ updated e1 h1. bind-ok (guard (not (updated.1 == 0)) _) _ h1 λ u2 e2 h2.
        let rows : updated.0 ≡ db'.drafts = ap (λ (t : Db). t.drafts) (ok-injective h2) in
        (updated.1, stored-ok _ e1 ∙ ap (λ t. ok (t, updated.1)) rows)

has_draft-select_draft :
    (k : ℕ) (ds : List Draft) {d : Draft} → select_draft k ds ≡ some d → has_draft k ds ≡ true
unfolding has_draft select_draft
has_draft-select_draft k [] h = absurd (ground arith)
has_draft-select_draft k (x ∷ ds) {d} h = elim (Bool-cases (x.id == k)) [
  | inl own ↦ rw own refl
  | inr other ↦ rw other (has_draft-select_draft k ds {d = d} (rw other at h))
]

-- A statement keeps what is known of every identifier.
update_drafts-All :
    (P : ℕ → Type 0) (matches : Draft → Bool) (set : Draft → Draft) (ds : List Draft)
    {ds' : List Draft} {n : ℕ}
    → update_drafts matches set ds ≡ ok (ds', n)
    → All (λ d. P d.id) ds
    → All (λ d. P d.id) ds'
unfolding update_drafts
update_drafts-All P matches set [] {ds'} h a =
    let same : [] ≡ ds' = ground arith in subst (All (λ d. P d.id)) same tt
update_drafts-All P matches set (e ∷ ds) {ds'} h (p, a) =
    bind-ok (update_drafts matches set ds) _ h λ rest e1 h1.
      let others = update_drafts-All P matches set ds e1 a in
      elim (Bool-cases (matches e)) [
        | inr miss ↦
            let same : e ∷ rest.0 ≡ ds' = ground (arith, rw miss at h1) in
            subst (All (λ d. P d.id)) same (p, others)
        | inl hit ↦ bind-ok (public_updates_guard e (set e)) _ (rw hit at h1) λ new e2 h2.
            let (row, was, id) = guard-keeps e (set e) e2 in
            let same : new ∷ rest.0 ≡ ds' = ground arith in
            let kept : e.id ≡ new.id = sym (ap (λ (t : Draft). t.id) row ∙ id) in
            subst (All (λ d. P d.id)) same (subst P kept p, others)
      ]

update_drafts-IsKeyed :
    (matches : Draft → Bool) (set : Draft → Draft) (ds : List Draft) {ds' : List Draft} {n : ℕ}
    → update_drafts matches set ds ≡ ok (ds', n)
    → IsKeyed ds
    → IsKeyed ds'
unfolding update_drafts
update_drafts-IsKeyed matches set [] {ds'} h k =
    let same : [] ≡ ds' = ground arith in subst IsKeyed same tt
update_drafts-IsKeyed matches set (e ∷ ds) {ds'} h (first, k) =
    bind-ok (update_drafts matches set ds) _ h λ rest e1 h1.
      let others = update_drafts-IsKeyed matches set ds e1 k in
      let apart = update_drafts-All (λ t. t ≢ e.id) matches set ds e1 first in
      elim (Bool-cases (matches e)) [
        | inr miss ↦
            let same : e ∷ rest.0 ≡ ds' = ground (arith, rw miss at h1) in
            subst IsKeyed same (apart, others)
        | inl hit ↦ bind-ok (public_updates_guard e (set e)) _ (rw hit at h1) λ new e2 h2.
            let (row, was, id) = guard-keeps e (set e) e2 in
            let same : new ∷ rest.0 ≡ ds' = ground arith in
            let kept : e.id ≡ new.id = sym (ap (λ (t : Draft). t.id) row ∙ id) in
            subst IsKeyed same (subst (λ t. All (λ d. d.id ≢ t) rest.0) kept apart, others)
      ]

Later-IsKeyed :
    (env : Surroundings) (db : Db) {db' : Db}
    → Later env db db'
    → IsKeyed db.drafts
    → IsKeyed db'.drafts
Later-IsKeyed env db here k = k
Later-IsKeyed env db (drafting {db1} reviewer draws report_id input j before h) k =
    let a = (create_draft-Accepted reviewer draws report_id input db1 h).1 in
    let id : a.row.id ≡ draws.draft_id = ap (λ (t : Draft). t.id) a.made in
    subst IsKeyed (sym (ap (λ (t : Db). t.drafts) a.written)) (
      subst (λ t. All (λ e. e.id ≢ t) db1.drafts) (sym id)
          (new-keyed draws.draft_id db1.drafts a.new),
      Later-IsKeyed env db before k,
    )
Later-IsKeyed env db (publishing {db1} reviewer draws report_id j confirmed res before h) k =
    let w = (publish-Confirmed env reviewer draws report_id j confirmed db1 h).wrote in
    subst IsKeyed (sym (ap (λ (t : Db). t.drafts) w.written)) (
      IsKeyed-changed (λ row. row.id == w.d.id) (mark_published reviewer.actor_id draws.now)
        db1.drafts (λ e. refl) (Later-IsKeyed env db before k))
Later-IsKeyed env db (withdrawing {db1} reviewer now audit_id audit_now report_id j before h) k =
    let (n, rows) = withdraw-updates reviewer now audit_id audit_now report_id j db1 h in
    update_drafts-IsKeyed (is_open_draft report_id j) (mark_withdrawn now) db1.drafts rows
      (Later-IsKeyed env db before k)
Later-IsKeyed env db (updating {db1} matches set n before h) k =
    update_drafts-IsKeyed matches set db1.drafts h (Later-IsKeyed env db before k)

module _ (env : Surroundings) (i : ℕ) {d : Draft} (settled : is_draft d.state ≡ false) where
  create_draft-settled :
      (reviewer : Reviewer) (draws : Draws) (report_id : ℕ) (input : DraftInput) (db : Db) {j : ℕ}
      {db' : Db}
      → create_draft reviewer draws report_id input db ≡ ok (j, db')
      → select_draft i db.drafts ≡ some d
      → select_draft i db'.drafts ≡ some d
  unfolding select_draft
  create_draft-settled reviewer draws report_id input db {db' = db'} h found =
      let a = (create_draft-Accepted reviewer draws report_id input db h).1 in
      let id : a.row.id ≡ draws.draft_id = ap (λ (t : Draft). t.id) a.made in
      let drafts : db'.drafts ≡ a.row ∷ db.drafts = ap (λ (t : Db). t.drafts) a.written in
      elim (Bool-cases (a.row.id == i)) [
        | inr other ↦ rw (drafts, other) found
        | inl own ↦
            let same : draws.draft_id ≡ i = sym id ∙ (==_iff a.row.id i).0 own in
            absurd (
              ground (
                arith,
                a.new,
                has_draft-select_draft draws.draft_id db.drafts
                    (ap (λ t. select_draft t db.drafts) same ∙ found),
              ))
      ]

  publish-settled :
      (reviewer : Reviewer) (draws : PublishDraws) (report_id j : ℕ) (confirmed : env.Digest)
      (db : Db) {res : Published} {db' : Db}
      → publish env reviewer draws report_id j confirmed db ≡ ok (res, db')
      → select_draft i db.drafts ≡ some d
      → (i ≢ j) × (select_draft i db'.drafts ≡ some d)
  publish-settled reviewer draws report_id j confirmed db {db' = db'} h found =
      let w = (publish-Confirmed env reviewer draws report_id j confirmed db h).wrote in
      let differ : i ≢ j = λ same.
        let its : some d ≡ some w.d =
          sym found ∙ ap (λ t. select_draft t db.drafts) same ∙ w.found in
        absurd (ground (arith, w.was_draft, settled, its)) in
      let own = λ (e : Draft) (hit : (e.id == w.d.id) ≡ true).
        (==_iff e.id w.d.id).0 hit ∙ select_draft-id j db.drafts w.found in
      (
        differ,
        ap (λ (t : Db). select_draft i t.drafts) w.written
            ∙ other_row (λ row. row.id == w.d.id) (mark_published reviewer.actor_id draws.now) j
                db.drafts own (λ e. refl) i differ
            ∙ found,
      )

  Later-select_draft :
      (db : Db) {db' : Db}
      → Later env db db'
      → select_draft i db.drafts ≡ some d
      → select_draft i db'.drafts ≡ some d
  Later-select_draft db here found = found
  Later-select_draft db (drafting {db1} reviewer draws report_id input j before h) found =
      create_draft-settled reviewer draws report_id input db1 h (Later-select_draft db before found)
  Later-select_draft db (publishing {db1} reviewer draws report_id j confirmed res before h) found =
      (publish-settled reviewer draws report_id j confirmed db1 h
        (Later-select_draft db before found)).1
  Later-select_draft db (withdrawing {db1} reviewer now audit_id audit_now report_id j before h)
        found =
      let (n, rows) = withdraw-updates reviewer now audit_id audit_now report_id j db1 h in
      update_drafts-settled (is_open_draft report_id j) (mark_withdrawn now) i db1.drafts rows
        (Later-select_draft db before found) settled
  Later-select_draft db (updating {db1} matches set n before h) found =
      update_drafts-settled matches set i db1.drafts h (Later-select_draft db before found) settled

  -- A public update that was published or withdrawn keeps its row, state and content, in every later
  -- state: after any calls and any `UPDATE` statements on the drafts, with any change of the other
  -- tables. In each such state it is not published and not withdrawn again, whoever asks.
  pub Later-settled :
      (db : Db) {db' : Db}
      → IsKeyed db.drafts
      → select_draft i db.drafts ≡ some d
      → Later env db db'
      → (select_draft i db'.drafts ≡ some d)
        × ((reviewer : Reviewer) (draws : PublishDraws) (report_id : ℕ) (confirmed : env.Digest)
              (res : Published) (db2 : Db)
            → publish env reviewer draws report_id i confirmed db' ≢ ok (res, db2))
        × ((reviewer : Reviewer) (now audit_id audit_now report_id : ℕ) (db2 : Db)
            → withdraw reviewer now audit_id audit_now report_id i db' ≢ ok db2)
  Later-settled db {db'} keyed found later =
      let still = Later-select_draft db later found in
      (
        still,
        λ reviewer draws report_id confirmed res db2 h.
            (publish-settled reviewer draws report_id i confirmed db' h still).0 refl,
        λ reviewer now audit_id audit_now report_id db2 h.
            let w =
              withdraw-Dropped reviewer now audit_id audit_now report_id i db'
                (Later-IsKeyed env db later keyed) h in
            let its : some d ≡ some w.d = sym still ∙ w.found in
            absurd (ground (arith, w.was_draft, settled, its)),
      )
