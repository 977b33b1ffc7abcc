-- ===== src/Publication/Sources/Examples.antt =====
-- Claims with and without the citations that they need.
use shaidago.Base.{
  ℕ, ◌≡◌, ◌≢◌, ◌↔◌, ◌⊎◌, refl, true, false, List, [], ◌∷◌, Option, none, some, any, codes,
}
use shaidago.Publication.Sources.{
  Citation, ProjectClaim, corroborated, verified_official, awaiting_verification, approved,
  rejected, official_source, independent_source, independent_sources_required,
  official_source_required, citable, publication_gaps, find_claim, set_public, publish_claim,
  eligible, distinct, source_ids, publishers, state_gaps,
}
use shaidago.Publication.Sources.Gaps.{Backed, publication_gaps_iff}
use shaidago.Publication.Sources.Claims.{publish_claim-ok}

abbrev gazette : Citation
gazette = record {
  source_id = 1;
  publisher = codes "Ministry";
  information_class = official_source;
  review_state = approved;
}

abbrev paper : Citation
paper = record {
  source_id = 2;
  publisher = codes "Paper";
  information_class = independent_source;
  review_state = approved;
}

abbrev both : List Citation
both = gazette ∷ paper ∷ []

publication_gaps_iff_example : (publication_gaps corroborated both none (some 5) ≡ []) ↔ (
    (any (λ c. citable c.review_state) both ≡ true)
    × ((◌≢◌ {A = Option ℕ} none none) ⊎ (◌≢◌ {A = Option ℕ} (some 5) none))
    × Backed corroborated both)
publication_gaps_iff_example = publication_gaps_iff corroborated both none (some 5)

two_are_enough : publication_gaps corroborated both none (some 5) ≡ []
unfolding publication_gaps eligible distinct source_ids publishers state_gaps
two_are_enough = refl

one_is_not :
    publication_gaps corroborated (gazette ∷ []) none (some 5) ≡ independent_sources_required ∷ []
unfolding publication_gaps eligible distinct source_ids publishers state_gaps
one_is_not = refl

rejected_is_none :
    publication_gaps verified_official
      (record gazette { review_state = rejected } ∷ paper ∷ [])
      (some 1)
      none
    ≡ official_source_required ∷ []
unfolding publication_gaps eligible state_gaps
rejected_is_none = refl

abbrev claim : ProjectClaim
claim = record {
  id = 7;
  effective_on = none;
  last_checked_on = some 5;
  verification_state = awaiting_verification;
  is_public = false;
  published_at = none;
  updated_at = 1;
}

abbrev made_public : ProjectClaim
made_public = record claim {
  is_public = true;
  published_at = some 9;
  verification_state = corroborated;
  updated_at = 9;
}

publish_claim-ok_example :
    (c : ProjectClaim) × (find_claim 7 (claim ∷ []) ≡ some c)
    × (any (λ d. citable d.review_state) both ≡ true)
    × ((c.effective_on ≢ none) ⊎ (c.last_checked_on ≢ none))
    × Backed corroborated both
    × (find_claim 7 (made_public ∷ [])
        ≡ some (record c {
          is_public = true;
          published_at = some 9;
          verification_state = corroborated;
          updated_at = 9;
        }))
    × ((j : ℕ) → j ≢ 7 → find_claim j (made_public ∷ []) ≡ find_claim j (claim ∷ []))
unfolding publish_claim find_claim set_public publication_gaps eligible distinct source_ids
    publishers state_gaps
publish_claim-ok_example =
    publish_claim-ok (λ i. both) 9 7 corroborated (claim ∷ [])
      {result = record { claim_id = 7; published_at = 9 }} refl
