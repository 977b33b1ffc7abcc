-- ===== src/Publication/Tables/Laws.antt =====
-- Updates of drafts: what the guarded statement leaves
-- (services/platform/migrations/versions/0017_public_updates.py).
use shaidago.Base.{
  ℕ, suc, ◌≡◌, inl, inr, refl, sym, ap, ◌∙◌, Bool, true, false, ◌&&◌, List, [], ◌∷◌, Option, none,
  some, Result, ok, ◌==◌, ==_refl, if◌then◌else◌, same_text_refl, bind-ok, map, arith, Bool-cases,
}
use shaidago.Publication.Sources.{VerificationState}
use shaidago.Publication.Tables.{
  Draft, DbError, select_draft, is_draft, same_option, same_verification, same_content,
  public_updates_guard, update_drafts,
}

-- The rows after an update, each matching row set anew.
abbrev pub changed : (Draft → Bool) → (Draft → Draft) → Draft → Draft
changed matches set d = if matches d then set d else d

unfoldable pub count : (Draft → Bool) → List Draft → ℕ
count matches [] = 0
count matches (d ∷ ds) = if matches d then suc (count matches ds) else count matches ds

guard-ok_lem :
    (old new : Draft) {row : Draft}
    → public_updates_guard old new ≡ ok row
    → (row ≡ new) × (is_draft old.state ≡ true) × (is_draft new.state ≡ false)
unfolding public_updates_guard
guard-ok_lem old new h = ground arith

module _ (matches : Draft → Bool) (set : Draft → Draft) where
  -- An update that succeeds sets each matching row, and each was a draft.
  pub update_drafts-ok :
      (ds : List Draft) {ds' : List Draft} {n : ℕ}
      → update_drafts matches set ds ≡ ok (ds', n)
      → (ds' ≡ map (changed matches set) ds) × (n ≡ count matches ds)
  unfolding update_drafts count
  update_drafts-ok [] h = (ground arith, ground arith)
  update_drafts-ok (d ∷ ds) {ds'} {n} h = bind-ok (update_drafts matches set ds) _ h λ rest e1 h1.
      let (same, counted) = update_drafts-ok ds e1 in
      elim (Bool-cases (matches d)) [
        | inl here ↦ bind-ok (public_updates_guard d (set d)) _ (rw here at h1) λ new e2 h2.
            let (row, was, is) = guard-ok_lem d (set d) e2 in
            let whole : new ∷ rest.0 ≡ ds' = ground arith in
            let total : suc rest.1 ≡ n = ground arith in
            rw here (sym whole ∙ rw (row, same) refl, sym total ∙ ap suc counted)
        | inr there ↦
            let tail : ◌≡◌ {A = Result DbError (List Draft × ℕ)} (ok (d ∷ rest.0, rest.1))
                (ok (ds', n)) =
              rw there at h1 in
            let whole : d ∷ rest.0 ≡ ds' = ground arith in
            let total : rest.1 ≡ n = ground arith in
            rw there (sym whole ∙ rw same refl, sym total ∙ counted)
      ]

  pub update_drafts-was_draft :
      (ds : List Draft) (i : ℕ) {d : Draft} {ds' : List Draft} {n : ℕ}
      → update_drafts matches set ds ≡ ok (ds', n)
      → select_draft i ds ≡ some d
      → matches d ≡ true
      → (is_draft d.state ≡ true) × (is_draft (set d).state ≡ false)
  unfolding update_drafts select_draft
  update_drafts-was_draft [] i h e m = absurd (ground arith)
  update_drafts-was_draft (c ∷ ds) i {d} h e m =
      bind-ok (update_drafts matches set ds) _ h λ rest e1 h1. elim (Bool-cases (c.id == i)) [
        | inl here ↦
            let same : c ≡ d = ground arith in
            bind-ok (public_updates_guard c (set c)) _ (rw (ap matches same ∙ m) at h1)
              λ new e2 h2. let (row, was, is) = guard-ok_lem c (set c) e2 in rw (← same) (was, is)
        | inr there ↦ update_drafts-was_draft ds i e1 (rw there at e) m
      ]

  -- Every matching row is a draft.
  abbrev pub AreDrafts : List Draft → Type 0
  AreDrafts [] = Unit
  AreDrafts (d ∷ ds) = (matches d ≡ true → is_draft d.state ≡ true) × AreDrafts ds

  -- An update of drafts that settles them and keeps their content succeeds.
  pub update_drafts-total :
      (ds : List Draft)
      → ((d : Draft) → is_draft (set d).state ≡ false)
      → ((d : Draft) → same_content (set d) d ≡ true)
      → AreDrafts ds
      → update_drafts matches set ds ≡ ok (map (changed matches set) ds, count matches ds)
  unfolding update_drafts count public_updates_guard
  update_drafts-total [] settles keeps are = refl
  update_drafts-total (d ∷ ds) settles keeps (is, are) = elim (Bool-cases (matches d)) [
    | inl here ↦
        rw (update_drafts-total ds settles keeps are, here, is here, settles d, keeps d) refl
    | inr there ↦ rw (update_drafts-total ds settles keeps are, there) refl
  ]

  abbrev pub changed_row : Option Draft → Option Draft
  changed_row none = none
  changed_row (some d) = some (changed matches set d)

  pub select_draft-changed :
      (i : ℕ) (ds : List Draft)
      → ((d : Draft) → (set d).id ≡ d.id)
      → select_draft i (map (changed matches set) ds) ≡ changed_row (select_draft i ds)
  unfolding select_draft
  select_draft-changed i [] keeps = refl
  select_draft-changed i (d ∷ ds) keeps =
      let kept : (changed matches set d).id ≡ d.id = changed-id d in
      elim (Bool-cases (d.id == i)) [
        | inl here ↦ rw (kept, here) refl
        | inr there ↦ rw (kept, there) (select_draft-changed i ds keeps)
      ]
    where
      changed-id : (d : Draft) → (changed matches set d).id ≡ d.id
      changed-id d = elim (Bool-cases (matches d)) [
        | inl here ↦ rw here (keeps d)
        | inr there ↦ rw there refl
      ]

same_option_refl : (a : Option ℕ) → same_option a a ≡ true
same_option_refl none = refl
same_option_refl (some a) = ==_refl a

same_verification_refl : (v : VerificationState) → same_verification v v ≡ true
same_verification_refl v = ground arith

both : {a b : Bool} → a ≡ true → b ≡ true → (a && b) ≡ true
both p q = rw (p, q) refl

pub same_content_refl : (d : Draft) → same_content d d ≡ true
unfolding same_content
same_content_refl d =
    let keys = both (both (==_refl d.id) (==_refl d.report_id)) (==_refl d.project_id) in
    let shown = both (both keys (same_text_refl d.statement)) (==_refl d.effective_on) in
    let checked = both shown (same_option_refl d.last_checked_on) in
    let verified = both checked (same_verification_refl d.verification_state) in
    both (both verified (same_option_refl d.authored_by)) (==_refl d.created_at)
