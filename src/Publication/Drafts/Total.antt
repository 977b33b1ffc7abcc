-- ===== src/Publication/Drafts/Total.antt =====
-- `create_draft` (services/platform/src/shaidago/review/publication.py) meets no constraint of the
-- tables: what it refuses, it refuses with a problem.
use shaidago.Base.{
  ℕ, ◌≤◌, ◌≡◌, refl, sym, subst, ◌∙◌, Bool, true, false, ◌&&◌, ◌||◌, not, List, [], ◌∷◌, ◌++◌, All,
  Option, none, some, Result, ok, err, ◌>>=◌, guard, map, any, leb, length, take, ◌==◌, Text, strip,
  guard-ok, arith, Bool-cases, inl, inr, take-all,
}
use shaidago.Problems.{Problem}
use shaidago.Report.Machine.{verified_for_public_update, ◌is_status◌}
use shaidago.Report.Decision.{Reviewer, is_control}
use shaidago.Publication.Sources.{Issue, lagos_date}
use shaidago.Publication.Tables.{Draft, Db, DbError, select_reported, citation_check}
use shaidago.Publication.Drafts.{
  Failure, problem, database, stored, or_raise, CitationInput, DraftInput, Draws, max_citations,
  clean_statement, locate, has_draft, insert_draft, insert_citations, draft_row, input_errors,
  no_errors, create_draft,
}
use shaidago.Publication.Drafts.Created.{locate-Located}
use shaidago.Publication.Drafts.Inserted.{IsBefore, insert_citations-total}
use shaidago.Publication.Drafts.Accepted.{clean_statement-ok, no_errors-nil, input_errors-nil}

-- A result or a problem, and no fault of the database.
abbrev pub IsProblem {ℓ} : {A : Type ℓ} → Result Failure A → Type 0
IsProblem (ok a) = Unit
IsProblem (err (problem p issues)) = Unit
IsProblem (err (database e)) = ⊥

bind-IsProblem {ℓ κ} :
    {A : Type ℓ} {B : Type κ} (m : Result Failure A) (f : A → Result Failure B)
    → IsProblem m
    → ((a : A) → m ≡ ok a → IsProblem (f a))
    → IsProblem (m >>= f)
bind-IsProblem (ok a) f p k = k a refl
bind-IsProblem (err (problem p issues)) f u k = tt
bind-IsProblem (err (database e)) f p k = p

or_raise-IsProblem {ℓ} : {A : Type ℓ} (p : Problem) (o : Option A) → IsProblem (or_raise p o)
or_raise-IsProblem p none = tt
or_raise-IsProblem p (some a) = tt

guard-IsProblem :
    (b : Bool) (p : Problem) (issues : List Issue) → IsProblem (guard b (problem p issues))
guard-IsProblem true p issues = tt
guard-IsProblem false p issues = tt

clean_statement-IsProblem : (s : Text) → IsProblem (clean_statement s)
unfolding clean_statement
clean_statement-IsProblem s =
    elim (Bool-cases (
      not (leb 10 (length (strip s)) && leb (length (strip s)) 2000)
      || any (λ c. is_control c || c == 127) (strip s)
      || any (λ c. c == b'<') (strip s))) [ inl bad ↦ rw bad tt | inr good ↦ rw good tt ]

stored-IsProblem {ℓ} : {A : Type ℓ} (r : Result DbError A) {a : A} → r ≡ ok a → IsProblem (stored r)
stored-IsProblem (ok a) h = tt
stored-IsProblem (err e) h = absurd (ground arith)

All-mapped {ℓ κ μ} :
    {A : Type ℓ} {B : Type κ} (P : B → Type μ) (f : A → B) (xs : List A) {ys : List B}
    → map f xs ≡ ys
    → All P ys
    → All (λ x. P (f x)) xs
All-mapped P f [] h a = tt
All-mapped P f (x ∷ xs) {ys} h a =
    let both = subst (λ t. All P t) (sym h) a in (both.0, All-mapped P f xs refl both.1)

insert_draft-total :
    (d : Draft) (db : Db)
    → (leb 10 (length d.statement) && leb (length d.statement) 2000) ≡ true
    → has_draft d.id db.drafts ≡ false
    → insert_draft d db ≡ ok (record db { drafts = d ∷ db.drafts })
unfolding insert_draft
insert_draft-total d db fits new = rw (fits, new) refl

module _ (reviewer : Reviewer) (draws : Draws) (report_id : ℕ) (input : DraftInput) (db : Db) where
  -- With new identifiers and citations whose passage and label fit their columns, `create_draft`
  -- gives a draft or a problem of the catalogue: the row and its citations violate no constraint
  -- and no trigger of the tables.
  pub create_draft-IsProblem :
      has_draft draws.draft_id db.drafts ≡ false
      → ((j k : ℕ) → draws.citation_ids j ≡ draws.citation_ids k → j ≡ k)
      → All (IsBefore draws 0 []) db.citations
      → All (λ c. citation_check c.passage c.location_label ≡ true) input.citations
      → IsProblem (create_draft reviewer draws report_id input db)
  unfolding create_draft
  create_draft-IsProblem new distinct before fit =
      let cited = take max_citations input.citations in
      let found = locate db.versions 0 [] cited in
      let errors = input_errors (lagos_date draws.today) input ++ found.0 in
      bind-IsProblem (or_raise _ (select_reported report_id db.reports)) _ (or_raise-IsProblem _ _)
        λ r e0.
          bind-IsProblem (guard (r.status is_status verified_for_public_update) _) _
            (guard-IsProblem _ _ _)
            λ u1 e1.
              bind-IsProblem (clean_statement input.statement) _
                (clean_statement-IsProblem input.statement)
                λ statement e2.
                  bind-IsProblem (guard (no_errors errors) _) _ (guard-IsProblem _ _ _) λ u3 e3.
                    let row = draft_row reviewer draws report_id r.project_id input statement in
                    let (stripped, bounded) = clean_statement-ok input.statement e2 in
                    let put = insert_draft-total row db bounded new in
                    let (backed, dated, counted, clear) =
                      input_errors-nil reviewer draws report_id input db found.0
                        (no_errors-nil errors (guard-ok (no_errors errors) _ e3)) in
                    let (located, apart, same) = locate-Located db.versions 0 [] cited clear in
                    let few : length input.citations ≤ max_citations = ground arith in
                    let fits =
                      All-mapped (λ c. citation_check c.passage c.location_label ≡ true)
                        (λ (l : CitationInput × ℕ). l.0) found.1
                        (same ∙ take-all max_citations input.citations few) fit in
                    let (rows, inserted) =
                      insert_citations-total draws db.versions distinct 0 [] found.1 db.citations
                        located apart fits before in
                    rw put (
                      bind-IsProblem
                        (stored (insert_citations db.versions draws 0 found.1 db.citations)) _
                        (stored-IsProblem _ inserted) λ citations e5. tt)
