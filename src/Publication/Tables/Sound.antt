-- ===== src/Publication/Tables/Sound.antt =====
-- The invariant of the tables of public updates
-- (services/platform/migrations/versions/0017_public_updates.py).
use shaidago.Base.{
  ℕ, ◌≡◌, ◌≢◌, refl, sym, subst, ◌∙◌, Bool, true, false, ◌&&◌, ◌||◌, same_text, List, [], ◌∷◌, All,
  some, leb, length, ◌==◌, map, arith, Bool-cases, inl, inr,
}
use shaidago.Publication.Tables.{
  Draft, DraftCitation, Reported, Db, select_reported, select_draft, select_version, is_draft,
  has_update, citation_check, passage_matches,
}
use shaidago.Publication.Tables.Laws.{changed}

-- No two rows of the table of drafts have one identifier.
abbrev pub IsKeyed : List Draft → Type 0
IsKeyed [] = Unit
IsKeyed (d ∷ ds) = All (λ e. e.id ≢ d.id) ds × IsKeyed ds

-- The unique key of app.public_update_citations: two rows cite one place for one draft.
abbrev pub same_place : DraftCitation → DraftCitation → Bool
same_place c d =
    d.public_update_id == c.public_update_id
    && d.source_version_id == c.source_version_id
    && same_text d.location_label c.location_label

unfoldable pub repeats : DraftCitation → List DraftCitation → Bool
repeats c [] = false
repeats c (d ∷ ds) = same_place c d || repeats c ds

abbrev pub AreDistinct : List DraftCitation → Type 0
AreDistinct [] = Unit
AreDistinct (c ∷ cs) = (repeats c cs ≡ false) × AreDistinct cs

-- The foreign key of app.update_citations to app.project_updates.
abbrev pub AreOwned : Db → Type 0
AreOwned db = All (λ u. has_update u.update_id db.public ≡ true) db.public_citations

-- What the constraints of the tables and the function hold: keys, texts within their bounds,
-- drafts of the project of their report, passages that stand in their versions, citations with keys
-- of their own, and no public row of a draft that is not settled.
pub record IsSound (db : Db) : Type 0 where
  pub keyed : IsKeyed db.drafts
  pub bounded :
      All (λ d. (leb 10 (length d.statement) && leb (length d.statement) 2000) ≡ true) db.drafts
  pub placed :
      All
        (λ d.
          (r : Reported) × (select_reported d.report_id db.reports ≡ some r)
          × (d.project_id ≡ r.project_id))
        db.drafts
  pub standing :
      All
        (λ c.
          (citation_check c.passage c.location_label ≡ true)
          × (passage_matches
                (select_version c.source_version_id db.versions)
                c.passage
                c.passage_start
              ≡ true))
        db.citations
  pub distinct : AreDistinct db.citations
  pub unpublished : All (λ d. is_draft d.state ≡ true → has_update d.id db.public ≡ false) db.drafts

pub All-select {κ} :
    (P : Draft → Type κ) (i : ℕ) (ds : List Draft) {d : Draft}
    → All P ds
    → select_draft i ds ≡ some d
    → P d
unfolding select_draft
All-select P i [] a h = absurd (ground arith)
All-select P i (e ∷ ds) {d} (p, a) h = elim (Bool-cases (e.id == i)) [
  | inl here ↦ let same : e ≡ d = ground arith in subst P same p
  | inr there ↦ All-select P i ds a (rw there at h)
]

pub All-mono {ℓ κ μ} :
    {A : Type ℓ} {P : A → Type κ} {Q : A → Type μ} (xs : List A)
    → ((x : A) → P x → Q x)
    → All P xs
    → All Q xs
All-mono [] k a = tt
All-mono (x ∷ xs) k (p, a) = (k x p, All-mono xs k a)

pub All-map {ℓ κ μ} :
    {A : Type ℓ} {B : Type κ} (P : B → Type μ) (f : A → B) (xs : List A)
    → All (λ x. P (f x)) xs
    → All P (map f xs)
All-map P f [] a = tt
All-map P f (x ∷ xs) (p, a) = (p, All-map P f xs a)

pub changed-id :
    (matches : Draft → Bool) (set : Draft → Draft)
    → ((d : Draft) → (set d).id ≡ d.id)
    → (d : Draft) → (changed matches set d).id ≡ d.id
changed-id matches set keeps d = elim (Bool-cases (matches d)) [
  | inl here ↦ rw here (keeps d)
  | inr there ↦ rw there refl
]

pub IsKeyed-changed :
    (matches : Draft → Bool) (set : Draft → Draft) (ds : List Draft)
    → ((d : Draft) → (set d).id ≡ d.id)
    → IsKeyed ds
    → IsKeyed (map (changed matches set) ds)
IsKeyed-changed matches set [] keeps k = tt
IsKeyed-changed matches set (d ∷ ds) keeps (n, k) = (
  All-map (λ e. e.id ≢ (changed matches set d).id) (changed matches set) ds
      (All-mono ds
        (λ e h same.
          h (sym (changed-id matches set keeps e) ∙ same ∙ changed-id matches set keeps d))
        n),
  IsKeyed-changed matches set ds keeps k,
)
