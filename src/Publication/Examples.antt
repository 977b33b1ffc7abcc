-- ===== src/Publication/Examples.antt =====
-- A draft, its preview, its publication and its withdrawal, with every passage in place.
use native.Mathlib.Decide.{ℕ_discrete}
use shaidago.Base.{
  Bool-cases, ℕ, ◌+◌, ◌≡◌, ◌≢◌, refl, Bool, true, false, [], ◌∷◌, none, some, ok, ◌==◌, Text, codes,
  strip, lstrip, rstrip, is_space, arith, inl, inr,
}
use shaidago.Report.Machine.{
  reviewer as reviewer_actor, verified_for_public_update, closed, ◌is_status◌,
}
use shaidago.Report.Decision.{Reviewer}
use shaidago.Publication.Sources.{
  approved, official_source, VerificationState, publication_gaps, eligible, state_gaps, lagos_date,
}
use shaidago.Publication.Words.{
  words, find_words, lower, split_words, unsupported_terms, sorted_set, keep_if, cited_words,
}
use shaidago.Publication.Tables.{
  UpdateState, Db, Draft, DraftCitation, Reported, SourceVersion, Source, select_draft,
  select_reported, select_version, passage_stands, has_update, public_update_drafted, is_draft,
  publish_public_update, publish_draft, write_public, update_check, citable_of,
  insert_update_citations, is_repeated, public_update_cited, update_drafts, public_updates_guard,
  same_content,
}
use shaidago.Publication.Tables.Writing.{after_publication}
use shaidago.Publication.Tables.Sound.{IsSound, repeats}
use shaidago.Publication.Drafts.{
  DraftInput, Draws, create_draft, withdraw, audit_row, clean_statement, locate, strpos,
  insert_draft, has_draft, insert_citations, insert_citation, clashes,
}
use shaidago.Publication.Drafts.Total.{IsProblem, create_draft-IsProblem}
use shaidago.Publication.Preview.{
  Body, Published, PublishDraws, Surroundings, build_preview, preview_body, publish,
  published_result, publish_call, lock_draft, preview_issues, order_cited, insert_cited,
  join_citations, select_source, citable_cited,
}
use shaidago.Publication.Preview.Quotes.{HaveSources}
use shaidago.Publication.Preview.Confirmed.{publish-previewed, Shows}
use shaidago.Publication.Preview.Total.{publish-succeeds}
use shaidago.Publication.Lifecycle.{Life, Move, visible, select_update, publishing}
use shaidago.Publication.Lifecycle.Invariant.{Step-IsSound}
use shaidago.Publication.Lifecycle.Refinement.{Refines, lives_of, Step-Refines}
use shaidago.Publication.Lifecycle.Settled.{here, updating, Later-settled}

Body-discrete : Discrete Body
Body-discrete = hlevel ℕ_discrete

abbrev is_yes {ℓ} : {A : Type ℓ} → Dec A → Bool
is_yes (yes a) = true
is_yes (no n) = false

is_yes-proof {ℓ} : {A : Type ℓ} (d : Dec A) → is_yes d ≡ true → A
is_yes-proof (yes a) h = a
is_yes-proof (no n) h = absurd (ground arith)

abbrev plain : Surroundings
plain = record {
  Digest = Body;
  digest = λ b. b;
  same_digest = λ a b. is_yes (Body-discrete a b);
  label_before = λ s t. false;
  lower_other = λ c. c ∷ [];
  private_codes = λ report s. [];
}

abbrev gazette : Source
gazette = record {
  id = 1;
  title = codes "Budget";
  publisher = codes "Ministry";
  canonical_url = codes "https://budget.example";
  source_type = codes "budget_document";
  information_class = official_source;
}

abbrev text : Text
text = codes "The road is built."

abbrev version : SourceVersion
version = record {
  id = 11;
  source_id = 1;
  review_state = approved;
  retrieved_at = 5;
  content_text = text;
}

abbrev report : Reported
report = record {
  id = 3;
  status = verified_for_public_update;
  version = 4;
  project_id = 9;
  project_slug = codes "road";
}

abbrev start : Db
start = record {
  reports = report ∷ [];
  drafts = [];
  citations = [];
  versions = version ∷ [];
  sources = gazette ∷ [];
  public = [];
  public_citations = [];
  audit = [];
}

abbrev ann : Reviewer
ann = record { actor_type = reviewer_actor; actor_id = 2; request_id = none }

abbrev input : DraftInput
input = record {
  statement = codes " Work goes on. ";
  effective_on = 100;
  last_checked_on = some 0;
  verification_state = VerificationState.verified_official;
  citations =
      record { source_version_id = 11; passage = codes "road"; location_label = codes "p1" } ∷ [];
}

abbrev draws : Draws
draws = record {
  today = 0;
  draft_id = 20;
  now = 1;
  citation_ids = λ k. 30 + k;
  audit_id = 40;
  audit_now = 1;
}

abbrev row : Draft
row = record {
  id = 20;
  report_id = 3;
  project_id = 9;
  statement = codes "Work goes on.";
  effective_on = 100;
  last_checked_on = some 0;
  verification_state = VerificationState.verified_official;
  state = UpdateState.draft;
  authored_by = some 2;
  created_at = 1;
  updated_at = 1;
  published_by = none;
  published_at = none;
}

abbrev quote : DraftCitation
quote = record {
  id = 30;
  public_update_id = 20;
  source_version_id = 11;
  passage = codes "road";
  location_label = codes "p1";
  passage_start = 4;
  created_at = 1;
}

abbrev drafted : Db
drafted = record start {
  drafts = row ∷ [];
  citations = quote ∷ [];
  audit = audit_row ann 40 1 (public_update_drafted 3) 20 ∷ [];
}

created : create_draft ann draws 3 input start ≡ ok (20, drafted)
unfolding create_draft select_reported clean_statement strip locate select_version strpos
    insert_draft has_draft insert_citations insert_citation clashes passage_stands lagos_date lstrip
    rstrip is_space
created = refl

create_draft-IsProblem_example : IsProblem (create_draft ann draws 3 input start)
unfolding has_draft
create_draft-IsProblem_example =
    create_draft-IsProblem ann draws 3 input start refl (λ j k h. omega arith) tt (refl, tt)

drafted-IsSound : IsSound drafted
unfolding select_reported select_version passage_stands has_update repeats
drafted-IsSound = record {
  keyed = (tt, tt);
  bounded = (refl, tt);
  placed = ((report, refl, refl), tt);
  standing = ((refl, refl), tt);
  distinct = (refl, tt);
  unpublished = ((λ h. refl), tt);
}

abbrev at : PublishDraws
at = record { today = 2; now = 3; audit_id = 41 }

abbrev shown : Body
shown = preview_body plain 2 row report drafted

built : build_preview plain 2 3 20 drafted ≡ ok shown
unfolding build_preview select_draft select_reported
built = refl

shown_clear : shown.issues ≡ []
unfolding preview_body preview_issues lagos_date unsupported_terms publication_gaps order_cited
    insert_cited join_citations select_version select_source citable_cited eligible state_gaps
    sorted_set keep_if words cited_words find_words split_words lower
shown_clear = refl

same_shown : is_yes (Body-discrete shown shown) ≡ true
same_shown = elim (Body-discrete shown shown) as (λ d. is_yes d ≡ true) [
  | yes e ↦ refl
  | no n ↦ absurd (n refl)
]

publish-succeeds_example :
    (db' : Db) × (publish plain ann at 3 20 shown drafted
      ≡ ok (published_result plain 20 shown 3, db'))
    × (public_update_cited 20 db' ≡ true)
publish-succeeds_example =
    publish-succeeds plain ann at 3 20 drafted drafted-IsSound tt (omega arith) refl built
      shown_clear same_shown

abbrev public_after : Db
public_after = after_publication (publish_call plain ann at shown) row 4 drafted

shown_parts :
    (shown.state ≡ UpdateState.draft)
    × (shown.report_status ≡ verified_for_public_update)
    × (shown.report_version ≡ 4)
unfolding preview_body
shown_parts = (refl, refl, refl)

published_now :
    publish plain ann at 3 20 shown drafted ≡ ok (published_result plain 20 shown 3, public_after)
unfolding publish lock_draft select_draft select_reported publish_public_update publish_draft
    write_public update_check has_update citable_of select_version insert_update_citations
    is_repeated passage_stands update_drafts public_updates_guard same_content lagos_date
published_now =
    rw (built, same_shown, shown_clear, shown_parts.0, shown_parts.1, shown_parts.2) refl

have_gazette : HaveSources drafted.sources drafted.versions
unfolding select_source
have_gazette = (refl, tt)

publish-previewed_example :
    (is_draft shown.state ≡ true)
    × ((shown.report_status is_status verified_for_public_update) ≡ true)
    × (shown.issues ≡ [])
    × ((published_result plain 20 shown 3).project_slug ≡ shown.project)
    × Shows drafted public_after 20 3 shown
publish-previewed_example =
    publish-previewed plain ann at 3 20 shown drafted (λ a b h. is_yes-proof (Body-discrete a b) h)
      have_gazette published_now

Step-IsSound_example : IsSound public_after
Step-IsSound_example =
    Step-IsSound plain drafted public_after drafted-IsSound
      (publishing ann at 3 20 shown (published_result plain 20 shown 3) published_now)

drafted-Refines : Refines drafted (lives_of drafted)
unfolding select_draft select_update
drafted-Refines = record { keyed = (tt, tt); lives = λ j. refl; public = λ j. nothing_shown j }
  where
    nothing_shown : (j : ℕ) → none ≡ visible (lives_of drafted j)
    nothing_shown j = elim (Bool-cases (20 == j)) [
      | inl own ↦ rw own refl
      | inr other ↦ rw other refl
    ]

Step-Refines_example : (g : ℕ → Life) × Move (lives_of drafted) g × Refines public_after g
Step-Refines_example =
    Step-Refines plain drafted public_after (lives_of drafted) drafted-Refines
      (publishing ann at 3 20 shown (published_result plain 20 shown 3) published_now)

-- A statement that matches no draft, with which the report is closed.
abbrev closed_after : Db
closed_after = record public_after { reports = record report { status = closed; version = 5 } ∷ [] }

abbrev settled_row : Draft
settled_row = record row {
  state = UpdateState.published;
  published_by = some 2;
  published_at = some 3;
  updated_at = 3;
}

unmatched : update_drafts (λ d. false) (λ d. d) public_after.drafts ≡ ok (closed_after.drafts, 0)
unfolding update_drafts
unmatched = refl

Later-settled_example :
    (select_draft 20 closed_after.drafts ≡ some settled_row)
    × ((reviewer : Reviewer) (draws : PublishDraws) (report_id : ℕ) (confirmed : plain.Digest)
          (res : Published) (db2 : Db)
        → publish plain reviewer draws report_id 20 confirmed closed_after ≢ ok (res, db2))
    × ((reviewer : Reviewer) (now audit_id audit_now report_id : ℕ) (db2 : Db)
        → withdraw reviewer now audit_id audit_now report_id 20 closed_after ≢ ok db2)
unfolding select_draft
Later-settled_example =
    Later-settled plain 20 {d = settled_row} refl public_after (tt, tt) refl
      (updating {db2 = closed_after} (λ d. false) (λ d. d) 0 here unmatched)
