-- ===== src/Publication/Lifecycle/Refinement.antt =====
-- The calls on public updates (services/platform/src/shaidago/review/publication.py) refine the
-- specification of their lives, and what the public sees is what the specification shows.
use shaidago.Base.{
  ℕ, ◌≡◌, ◌≢◌, refl, sym, ap, subst, ◌∙◌, Bool, true, false, List, [], ◌∷◌, All, Option, none, some,
  map, ◌==◌, ==_iff, arith, Bool-cases, inl, inr,
}
use shaidago.Publication.Tables.{
  UpdateState, draft, Draft, Db, select_draft, is_draft, mark_published, project_update,
}
use shaidago.Publication.Tables.Laws.{changed, changed_row, select_draft-changed}
use shaidago.Publication.Tables.Sound.{IsKeyed, IsKeyed-changed}
use shaidago.Publication.Drafts.{has_draft, is_open_draft, mark_withdrawn}
use shaidago.Publication.Drafts.Accepted.{create_draft-Accepted}
use shaidago.Publication.Drafts.Withdrawn.{withdraw-Dropped}
use shaidago.Publication.Preview.{Surroundings}
use shaidago.Publication.Preview.Confirmed.{publish-Confirmed, select_draft-id}
use shaidago.Publication.Lifecycle.{
  Life, absent, drafted, shown, dropped, visible, Move, begin, show, drop, idle, content_of,
  life_of, select_update, public_content, Step, drafting, publishing, withdrawing, elsewhere,
}

-- The tables show a life under each identifier, and the public sees those that are shown.
pub record Refines (db : Db) (f : ℕ → Life) : Type 0 where
  pub keyed : IsKeyed db.drafts
  pub lives : (j : ℕ) → life_of (select_draft j db.drafts) ≡ f j
  pub public : (j : ℕ) → public_content (select_update j db.public) ≡ visible (f j)

is_draft-draft : (s : UpdateState) → is_draft s ≡ true → s ≡ draft
is_draft-draft s h = ground arith

life-draft : (d : Draft) → is_draft d.state ≡ true → life_of (some d) ≡ drafted (content_of d)
life-draft d h = rw (is_draft-draft d.state h) refl

has_draft-none : (i : ℕ) (ds : List Draft) → has_draft i ds ≡ false → select_draft i ds ≡ none
unfolding has_draft select_draft
has_draft-none i [] h = refl
has_draft-none i (d ∷ ds) h = elim (Bool-cases (d.id == i)) [
  | inl here ↦ absurd (ground (arith, rw here at h))
  | inr there ↦ rw there (has_draft-none i ds (rw there at h))
]

pub new-keyed : (i : ℕ) (ds : List Draft) → has_draft i ds ≡ false → All (λ e. e.id ≢ i) ds
unfolding has_draft
new-keyed i [] h = tt
new-keyed i (d ∷ ds) h = elim (Bool-cases (d.id == i)) [
  | inl here ↦ absurd (ground (arith, rw here at h))
  | inr there ↦ ((λ e. ground arith), new-keyed i ds (rw there at h))
]

-- An update of the rows of one identifier leaves the lives under the others.
module _ (matches : Draft → Bool) (set : Draft → Draft) (i : ℕ) (ds : List Draft)
    (own : (d : Draft) → matches d ≡ true → d.id ≡ i)
    (keeps : (d : Draft) → (set d).id ≡ d.id) where
  pub other_row :
      (j : ℕ) → j ≢ i → select_draft j (map (changed matches set) ds) ≡ select_draft j ds
  other_row j n = select_draft-changed matches set j ds keeps ∙ row (select_draft j ds) refl
    where
      row : (o : Option Draft) → select_draft j ds ≡ o → changed_row matches set o ≡ o
      row none e = refl
      row (some d) e = elim (Bool-cases (matches d)) [
        | inl hit ↦ absurd (n (sym (select_draft-id j ds e) ∙ own d hit))
        | inr miss ↦ rw miss refl
      ]

  own_row :
      (d : Draft)
      → select_draft i ds ≡ some d
      → matches d ≡ true
      → select_draft i (map (changed matches set) ds) ≡ some (set d)
  own_row d found hit = select_draft-changed matches set i ds keeps ∙ rw (found, hit) refl

-- The lives that tables show.
abbrev pub lives_of : Db → ℕ → Life
lives_of db j = life_of (select_draft j db.drafts)

-- A step between lives that are not visible changes nothing that is visible.
same_view :
    (f g : ℕ → Life) (i : ℕ)
    → visible (f i) ≡ none
    → visible (g i) ≡ none
    → ((j : ℕ) → j ≢ i → g j ≡ f j)
    → (j : ℕ) → visible (g j) ≡ visible (f j)
same_view f g i a b o j = elim (Bool-cases (j == i)) [
  | inl same ↦
      let j_i : j ≡ i = (==_iff j i).0 same in
      ap (λ t. visible (g t)) j_i ∙ b ∙ sym a ∙ sym (ap (λ t. visible (f t)) j_i)
  | inr differ ↦ ap visible (o j (λ e. ground arith))
]

module _ (db db' : Db) (f : ℕ → Life) (rel : Refines db f) where
  begins :
      (row : Draft)
      → is_draft row.state ≡ true
      → has_draft row.id db.drafts ≡ false
      → db'.drafts ≡ row ∷ db.drafts
      → db'.public ≡ db.public
      → Move f (lives_of db') × Refines db' (lives_of db')
  unfolding select_draft
  begins row is new drafts public =
      let none_there : f row.id ≡ absent =
        sym (rel.lives row.id) ∙ ap life_of (has_draft-none row.id db.drafts new) in
      let same_id : (row.id == row.id) ≡ true = (==_iff row.id row.id).1 refl in
      let now_there : lives_of db' row.id ≡ drafted (content_of row) =
        rw (drafts, same_id) (life-draft row is) in
      let others = λ (j : ℕ) (n : j ≢ row.id).
        let differ : (row.id == j) ≡ false = not-same row.id j n in
        let kept : lives_of db' j ≡ f j = rw (drafts, differ) (rel.lives j) in kept in
      (
        begin row.id (content_of row) none_there now_there others,
        record {
          keyed = subst IsKeyed (sym drafts) (new-keyed row.id db.drafts new, rel.keyed);
          lives = λ j. refl;
          public = λ j.
              ap (λ t. public_content (select_update j t)) public
              ∙ rel.public j
              ∙ sym (
                  same_view f (lives_of db') row.id (ap visible none_there) (ap visible now_there)
                    others j);
        },
      )
    where
      not-same : (m j : ℕ) → j ≢ m → (m == j) ≡ false
      not-same m j n = ground arith

  was_drafted :
      (i : ℕ) (d : Draft)
      → select_draft i db.drafts ≡ some d
      → is_draft d.state ≡ true
      → f i ≡ drafted (content_of d)
  was_drafted i d found is = sym (rel.lives i) ∙ ap life_of found ∙ life-draft d is

  shows :
      (i actor now : ℕ) (d : Draft)
      → select_draft i db.drafts ≡ some d
      → is_draft d.state ≡ true
      → db'.drafts ≡ map (changed (λ row. row.id == d.id) (mark_published actor now)) db.drafts
      → db'.public ≡ project_update d now ∷ db.public
      → Move f (lives_of db') × Refines db' (lives_of db')
  unfolding select_update
  shows i actor now d found is drafts public =
      let matches = λ (row : Draft). row.id == d.id in
      let set = mark_published actor now in
      let d_i : d.id ≡ i = select_draft-id i db.drafts found in
      let own = λ (e : Draft) (h : matches e ≡ true). (==_iff e.id d.id).0 h ∙ d_i in
      let hit : matches d ≡ true = (==_iff d.id d.id).1 refl in
      let now_shown : lives_of db' i ≡ shown (content_of d) =
        ap (λ t. life_of (select_draft i t)) drafts
        ∙ ap life_of (own_row matches set i db.drafts own (λ e. refl) d found hit) in
      let others = λ (j : ℕ) (n : j ≢ i).
        let kept : lives_of db' j ≡ f j =
          ap (λ t. life_of (select_draft j t)) drafts
          ∙ ap life_of (other_row matches set i db.drafts own (λ e. refl) j n)
          ∙ rel.lives j in
        kept in
      (
        show i (content_of d) (was_drafted i d found is) now_shown others,
        record {
          keyed =
              subst IsKeyed (sym drafts)
                (IsKeyed-changed matches set db.drafts (λ e. refl) rel.keyed);
          lives = λ j. refl;
          public = λ j. elim (Bool-cases (d.id == j)) [
            | inl own_id ↦
                let i_j : i ≡ j = sym d_i ∙ (==_iff d.id j).0 own_id in
                rw (public, own_id)
                  (sym (ap (λ t. visible (lives_of db' t)) (sym i_j) ∙ ap visible now_shown))
            | inr other_id ↦
                rw (public, other_id)
                  (rel.public j ∙ sym (ap visible (others j (λ e. ground (arith, d_i, e)))))
          ];
        },
      )

  drops :
      (report_id i now : ℕ) (d : Draft)
      → select_draft i db.drafts ≡ some d
      → d.report_id ≡ report_id
      → is_draft d.state ≡ true
      → db'.drafts ≡ map (changed (is_open_draft report_id i) (mark_withdrawn now)) db.drafts
      → db'.public ≡ db.public
      → Move f (lives_of db') × Refines db' (lives_of db')
  drops report_id i now d found its is drafts public =
      let matches = is_open_draft report_id i in
      let set = mark_withdrawn now in
      let d_i : d.id ≡ i = select_draft-id i db.drafts found in
      let own = λ (e : Draft) (h : matches e ≡ true). own_id e h in
      let hit : matches d ≡ true =
        rw ((==_iff d.id i).1 d_i, (==_iff d.report_id report_id).1 its, is) refl in
      let now_dropped : lives_of db' i ≡ dropped (content_of d) =
        ap (λ t. life_of (select_draft i t)) drafts
        ∙ ap life_of (own_row matches set i db.drafts own (λ e. refl) d found hit) in
      let others = λ (j : ℕ) (n : j ≢ i).
        let kept : lives_of db' j ≡ f j =
          ap (λ t. life_of (select_draft j t)) drafts
          ∙ ap life_of (other_row matches set i db.drafts own (λ e. refl) j n)
          ∙ rel.lives j in
        kept in
      (
        drop i (content_of d) (was_drafted i d found is) now_dropped others,
        record {
          keyed =
              subst IsKeyed (sym drafts)
                (IsKeyed-changed matches set db.drafts (λ e. refl) rel.keyed);
          lives = λ j. refl;
          public = λ j.
              ap (λ t. public_content (select_update j t)) public
              ∙ rel.public j
              ∙ sym (
                  same_view f (lives_of db') i (ap visible (was_drafted i d found is))
                    (ap visible now_dropped) others j);
        },
      )
    where
      own_id : (e : Draft) → is_open_draft report_id i e ≡ true → e.id ≡ i
      own_id e h = elim (Bool-cases (e.id == i)) [
        | inl same ↦ (==_iff e.id i).0 same
        | inr other ↦ absurd (ground (arith, rw other at h))
      ]

module _ (env : Surroundings) (db db' : Db) (f : ℕ → Life) where
  -- Each call that succeeds, and each change elsewhere, is a step of the specification: a draft
  -- begins where there was none, and a draft is shown or dropped with its content, once; and after
  -- it, too, the public sees under every identifier exactly the content that is shown.
  pub Step-Refines : Refines db f → Step env db db' → (g : ℕ → Life) × Move f g × Refines db' g
  Step-Refines rel (drafting reviewer draws report_id input i new h) =
      let (own, a) = create_draft-Accepted reviewer draws report_id input db h in
      let is : is_draft a.row.state ≡ true = ap (λ (t : Draft). is_draft t.state) a.made in
      let id : a.row.id ≡ draws.draft_id = ap (λ (t : Draft). t.id) a.made in
      let (move, refined) =
        begins db db' f rel a.row is (ap (λ t. has_draft t db.drafts) id ∙ a.new)
          (ap (λ (t : Db). t.drafts) a.written) (ap (λ (t : Db). t.public) a.written) in
      (lives_of db', move, refined)
  Step-Refines rel (publishing reviewer draws report_id i confirmed res h) =
      let w = (publish-Confirmed env reviewer draws report_id i confirmed db h).wrote in
      let (move, refined) =
        shows db db' f rel i reviewer.actor_id draws.now w.d w.found w.was_draft
          (ap (λ (t : Db). t.drafts) w.written) (ap (λ (t : Db). t.public) w.written) in
      (lives_of db', move, refined)
  Step-Refines rel (withdrawing reviewer now audit_id audit_now report_id i h) =
      let w = withdraw-Dropped reviewer now audit_id audit_now report_id i db rel.keyed h in
      let (move, refined) =
        drops db db' f rel report_id i now w.d w.found w.of_it w.was_draft
          (ap (λ (t : Db). t.drafts) w.written) (ap (λ (t : Db). t.public) w.written) in
      (lives_of db', move, refined)
  Step-Refines rel (elsewhere drafts citations public reports versions) = (
    f,
    idle (λ j. refl),
    record {
      keyed = subst IsKeyed (sym drafts) rel.keyed;
      lives = λ j. ap (λ t. life_of (select_draft j t)) drafts ∙ rel.lives j;
      public = λ j. ap (λ t. public_content (select_update j t)) public ∙ rel.public j;
    },
  )
