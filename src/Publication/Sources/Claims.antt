-- ===== src/Publication/Sources/Claims.antt =====
-- What `PublicationService.publish` (services/platform/src/shaidago/sources/publication.py) makes
-- public, and on what grounds.
use shaidago.Base.{
  ℕ, ◌≡◌, ◌≢◌, ◌⊎◌, inl, inr, refl, true, false, List, [], ◌∷◌, none, some, ok, any, ◌==◌, arith,
  Bool-cases, Option-cases,
}
use shaidago.Publication.Sources.{
  VerificationState, Citation, Issue, ProjectClaim, PublishedClaim, citable, publication_gaps,
  find_claim, set_public, publish_claim, complete,
}
use shaidago.Publication.Sources.Gaps.{Backed, publication_gaps_iff}

module _ (i now : ℕ) (state : VerificationState) where
  find_claim-set_public :
      (claims : List ProjectClaim) (c : ProjectClaim)
      → find_claim i claims ≡ some c
      → find_claim i (set_public i now state claims)
        ≡ some (record c {
          is_public = true;
          published_at = some now;
          verification_state = state;
          updated_at = now;
        })
  unfolding find_claim set_public
  find_claim-set_public [] c h = cc
  find_claim-set_public (d ∷ claims) c h = elim (Bool-cases (d.id == i)) [
    | inl here ↦ let same : d ≡ c = ground arith in rw (here, here) (rw same refl)
    | inr there ↦ rw (there, there) (find_claim-set_public claims c (rw there at h))
  ]

  find_claim-set_public_other :
      (j : ℕ) (claims : List ProjectClaim)
      → j ≢ i
      → find_claim j (set_public i now state claims) ≡ find_claim j claims
  unfolding find_claim set_public
  find_claim-set_public_other j [] n = refl
  find_claim-set_public_other j (d ∷ claims) n = elim (Bool-cases (d.id == i)) [
    | inl here ↦
        let other : (d.id == j) ≡ false = ground arith in
        rw (here, other) (find_claim-set_public_other j claims n)
    | inr there ↦ rw (there, find_claim-set_public_other j claims n) refl
  ]

module _ (citations : ℕ → List Citation) (now i : ℕ) (state : VerificationState)
    (claims : List ProjectClaim) where
  -- A claim that `PublicationService.publish` publishes was there, had the citations and the date
  -- that its state asks for, and is public in that state afterwards, with its dates as they were;
  -- every other claim is as it was.
  pub publish_claim-ok :
      {result : PublishedClaim} {claims' : List ProjectClaim}
      → publish_claim citations now i state claims ≡ ok (result, claims')
      → (c : ProjectClaim) × (find_claim i claims ≡ some c)
        × (any (λ d. citable d.review_state) (citations i) ≡ true)
        × ((c.effective_on ≢ none) ⊎ (c.last_checked_on ≢ none))
        × Backed state (citations i)
        × (find_claim i claims'
            ≡ some (record c {
              is_public = true;
              published_at = some now;
              verification_state = state;
              updated_at = now;
            }))
        × ((j : ℕ) → j ≢ i → find_claim j claims' ≡ find_claim j claims)
  unfolding publish_claim
  publish_claim-ok {result} {claims'} h = elim (Option-cases (find_claim i claims)) [
    | inl missing ↦ absurd (ground (arith, rw missing at h))
    | inr (c, found) ↦
        let (complete, written) =
          completed c (publication_gaps state (citations i) c.effective_on c.last_checked_on)
            (rw found at h) in
        let (cited, dated, backed) =
          (publication_gaps_iff state (citations i) c.effective_on c.last_checked_on).0 complete in
        (
          c,
          found,
          cited,
          dated,
          backed,
          rw (← written) (find_claim-set_public i now state claims c found),
          λ j n. rw (← written) (find_claim-set_public_other i now state j claims n),
        )
  ]
    where
      completed :
          (c : ProjectClaim) (gaps : List Issue)
          → complete i now state claims gaps ≡ ok (result, claims')
          → (gaps ≡ []) × (set_public i now state claims ≡ claims')
      completed c [] e = (refl, ground arith)
      completed c (g ∷ gaps) e = absurd (ground arith)
