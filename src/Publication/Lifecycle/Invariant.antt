-- ===== src/Publication/Lifecycle/Invariant.antt =====
-- Every call on public updates (services/platform/src/shaidago/review/publication.py) keeps the
-- tables sound.
use shaidago.Base.{
  ℕ, ◌≡◌, ◌≢◌, refl, sym, ap, subst, ◌∙◌, Bool, true, false, ◌&&◌, ◌||◌, List, [], ◌∷◌, All, some,
  map, leb, length, ◌==◌, arith, Bool-cases, Option-cases, inl, inr,
}
use shaidago.Publication.Tables.{
  Draft, DraftCitation, ProjectUpdate, SourceVersion, Reported, Db, select_reported, select_version,
  is_draft, has_update, passage_matches, passage_stands, mark_published, project_update,
}
use shaidago.Publication.Tables.Laws.{changed}
use shaidago.Publication.Tables.Sound.{AreDistinct, IsKeyed, IsSound, IsKeyed-changed, All-mono}
use shaidago.Publication.Drafts.{is_open_draft, mark_withdrawn}
use shaidago.Publication.Drafts.Accepted.{create_draft-Accepted}
use shaidago.Publication.Drafts.Inserted.{
  Standing, insert_citations-Standing, insert_citations-AreDistinct,
}
use shaidago.Publication.Drafts.Withdrawn.{withdraw-Dropped}
use shaidago.Publication.Preview.{Surroundings}
use shaidago.Publication.Preview.Confirmed.{publish-Confirmed}
use shaidago.Publication.Lifecycle.{Step, drafting, publishing, withdrawing, elsewhere}
use shaidago.Publication.Lifecycle.Refinement.{new-keyed}

-- A property of rows that an update keeps.
All-changed {κ} :
    (P : Draft → Type κ) (matches : Draft → Bool) (set : Draft → Draft) (ds : List Draft)
    → ((d : Draft) → P d → matches d ≡ true → P (set d))
    → All P ds
    → All P (map (changed matches set) ds)
All-changed P matches set [] keeps a = tt
All-changed P matches set (d ∷ ds) keeps (p, a) = elim (Bool-cases (matches d)) [
  | inl hit ↦ rw hit (keeps d p hit, All-changed P matches set ds keeps a)
  | inr miss ↦ rw miss (p, All-changed P matches set ds keeps a)
]

-- The parts of soundness that are about one draft.
abbrev IsBounded : Draft → Type 0
IsBounded d = (leb 10 (length d.statement) && leb (length d.statement) 2000) ≡ true

abbrev IsPlaced : List Reported → Draft → Type 0
IsPlaced reports d =
    (r : Reported) × (select_reported d.report_id reports ≡ some r) × (d.project_id ≡ r.project_id)

abbrev IsHidden : List ProjectUpdate → Draft → Type 0
IsHidden public d = is_draft d.state ≡ true → has_update d.id public ≡ false

changed-miss :
    (matches : Draft → Bool) (set : Draft → Draft) (d : Draft)
    → matches d ≡ false
    → changed matches set d ≡ d
changed-miss matches set d miss = rw miss refl

not-or : {a b : Bool} → a ≡ false → b ≡ false → (a || b) ≡ false
not-or p q = rw (p, q) refl

-- After a publication, a draft that is left has no public row.
IsHidden-after :
    (d : Draft) (actor now : ℕ) (public : List ProjectUpdate) (ds : List Draft)
    → All (IsHidden public) ds
    → All
        (IsHidden (project_update d now ∷ public))
        (map (changed (λ row. row.id == d.id) (mark_published actor now)) ds)
unfolding has_update
IsHidden-after d actor now public [] a = tt
IsHidden-after d actor now public (e ∷ ds) (p, a) = elim (Bool-cases (e.id == d.id)) [
  | inl hit ↦ rw hit ((λ h. absurd (ground arith)), IsHidden-after d actor now public ds a)
  | inr miss ↦
      let other : (d.id == e.id) ≡ false = ground arith in
      (
        subst (IsHidden (project_update d now ∷ public))
            (sym (changed-miss (λ row. row.id == d.id) (mark_published actor now) e miss))
            (λ h. not-or other (p h)),
        IsHidden-after d actor now public ds a,
      )
]

-- A passage that stands in a version stands in it when its text is the same.
still_standing :
    (old new : List SourceVersion) (c : DraftCitation)
    → ((k : ℕ) (v : SourceVersion)
        → select_version k old ≡ some v
        → (v' : SourceVersion) × (select_version k new ≡ some v')
          × (v'.content_text ≡ v.content_text))
    → passage_matches (select_version c.source_version_id old) c.passage c.passage_start ≡ true
    → passage_matches (select_version c.source_version_id new) c.passage c.passage_start ≡ true
still_standing old new c keeps h = elim (Option-cases (select_version c.source_version_id old)) [
  | inl missing ↦ absurd (ground (arith, rw missing at h))
  | inr (v, found) ↦
      let (v', found', same) = keeps c.source_version_id v found in
      rw found' (ap (λ t. passage_stands t c.passage c.passage_start) same ∙ (rw found at h))
]

module _ (env : Surroundings) (db db' : Db) where
  -- Every successful call, and every change elsewhere, keeps the tables sound: keys stay unique,
  -- statements stay within their bounds, drafts stay in the project of their report, cited passages
  -- stand in their versions, no draft cites one place twice, and a draft that is not settled has no public row.
  pub Step-IsSound : IsSound db → Step env db db' → IsSound db'
  Step-IsSound sound (drafting reviewer draws report_id input i new h) =
      let a = (create_draft-Accepted reviewer draws report_id input db h).1 in
      let id : a.row.id ≡ draws.draft_id = ap (λ (t : Draft). t.id) a.made in
      let its_report : a.row.report_id ≡ report_id = ap (λ (t : Draft). t.report_id) a.made in
      let fresh : All (λ e. e.id ≢ a.row.id) db.drafts =
        subst (λ t. All (λ e. e.id ≢ t) db.drafts) (sym id)
          (new-keyed draws.draft_id db.drafts a.new) in
      let sound' : IsSound
          (record db { drafts = a.row ∷ db.drafts; citations = a.citations; audit = a.audit }) =
        record {
          keyed = (fresh, sound.keyed);
          bounded = (a.bounded, sound.bounded);
          placed = (
            (
              a.r,
              ap (λ t. select_reported t db.reports) its_report ∙ a.found,
              ap (λ (t : Draft). t.project_id) a.made,
            ),
            sound.placed,
          );
          standing =
              insert_citations-Standing db.versions draws 0 a.taken db.citations sound.standing
                a.inserted;
          distinct =
              insert_citations-AreDistinct db.versions draws 0 a.taken db.citations sound.distinct
                a.inserted;
          unpublished = ((λ e. ap (λ t. has_update t db.public) id ∙ new), sound.unpublished);
        } in
      subst IsSound (sym a.written) sound'
  Step-IsSound sound (publishing reviewer draws report_id i confirmed res h) =
      let w = (publish-Confirmed env reviewer draws report_id i confirmed db h).wrote in
      let matches = λ (row : Draft). row.id == w.d.id in
      let set = mark_published reviewer.actor_id draws.now in
      rw (w.written) (record {
        keyed = IsKeyed-changed matches set db.drafts (λ e. refl) sound.keyed;
        bounded = All-changed IsBounded matches set db.drafts (λ e p hit. p) sound.bounded;
        placed =
            All-changed (IsPlaced db.reports) matches set db.drafts (λ e p hit. p) sound.placed;
        standing = sound.standing;
        distinct = sound.distinct;
        unpublished =
            IsHidden-after w.d reviewer.actor_id draws.now db.public db.drafts sound.unpublished;
      })
  Step-IsSound sound (withdrawing reviewer now audit_id audit_now report_id i h) =
      let w = withdraw-Dropped reviewer now audit_id audit_now report_id i db sound.keyed h in
      let matches = is_open_draft report_id i in
      let set = mark_withdrawn now in
      rw (w.written) (record {
        keyed = IsKeyed-changed matches set db.drafts (λ e. refl) sound.keyed;
        bounded = All-changed IsBounded matches set db.drafts (λ e p hit. p) sound.bounded;
        placed =
            All-changed (IsPlaced db.reports) matches set db.drafts (λ e p hit. p) sound.placed;
        standing = sound.standing;
        distinct = sound.distinct;
        unpublished =
            All-changed (IsHidden db.public) matches set db.drafts
              (λ e p hit n. absurd (ground arith)) sound.unpublished;
      })
  Step-IsSound sound (elsewhere drafts citations public reports versions) = record {
    keyed = subst IsKeyed (sym drafts) sound.keyed;
    bounded = subst (All IsBounded) (sym drafts) sound.bounded;
    placed = subst (All (IsPlaced db'.reports)) (sym drafts) (
        All-mono db.drafts
          (λ d p.
            let (r, found, same) = p in
            let (r', found', kept) = reports d.report_id r found in (r', found', same ∙ sym kept))
          sound.placed);
    standing = subst (Standing db'.versions) (sym citations) (
        All-mono db.citations (λ c p. (p.0, still_standing db.versions db'.versions c versions p.1))
          sound.standing);
    distinct = subst AreDistinct (sym citations) sound.distinct;
    unpublished =
        subst (All (IsHidden db'.public)) (sym drafts)
          (subst (λ t. All (IsHidden t) db.drafts) (sym public) sound.unpublished);
  }
