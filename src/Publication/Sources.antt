-- ===== src/Publication/Sources.antt =====
-- Cited sources, and what a claim lacks before it may be public
-- (services/platform/src/shaidago/sources/publication.py, and the values of
-- services/platform/migrations/versions/0004_sources_facts_citations.py).
pub mod Gaps
pub mod Claims
mod Examples
use shaidago.Base.{
  ℕ, ◌+◌, ◌/◌, Bool, true, false, ◌&&◌, ◌||◌, not, List, [], ◌∷◌, ◌++◌, Option, none, some, Result,
  ok, err, any, ltb, length, ◌==◌, if◌then◌else◌, is_none, Text, same_text,
}
use shaidago.Problems.{Problem, not_found, publication_incomplete}

pub data ReviewState : Type 0 where
  pending in_review approved rejected superseded : ReviewState

pub data InformationClass : Type 0 where
  official_source independent_source community_evidence_reviewed : InformationClass

pub data VerificationState : Type 0 where
  awaiting_verification verified_official corroborated community_reviewed disputed :
      VerificationState
  outdated : VerificationState

-- `_CITABLE`
abbrev pub citable : ReviewState → Bool
citable approved = true
citable superseded = true
citable _ = false

abbrev pub is_official : InformationClass → Bool
is_official official_source = true
is_official _ = false

abbrev pub is_community : InformationClass → Bool
is_community community_evidence_reviewed = true
is_community _ = false

pub record Citation : Type 0 where
  pub source_id : ℕ
  pub publisher : Text
  pub information_class : InformationClass
  pub review_state : ReviewState

-- A `FieldError` of a publication: each constructor stands for a field and a code.
pub data Issue : Type 0 where
  approved_citation_required visible_date_required verification_required : Issue
  official_source_required independent_sources_required : Issue
  reviewed_community_evidence_required invalid_statement date_in_future : Issue
  one_to_five_required not_draft not_verified_for_public_update : Issue
  duplicate_citation approved_source_required passage_not_found : ℕ → Issue
  private_reference unsupported_term : Text → Issue

unfoldable pub eligible : List Citation → List Citation
eligible [] = []
eligible (c ∷ cs) = if citable c.review_state then c ∷ eligible cs else eligible cs

-- The items of a set that is built from a list.
unfoldable pub distinct {ℓ} : {A : Type ℓ} → (A → A → Bool) → List A → List A
distinct same [] = []
distinct same (x ∷ xs) = let rest = distinct same xs in if any (same x) rest then rest else x ∷ rest

unfoldable pub source_ids : List Citation → List ℕ
source_ids [] = []
source_ids (c ∷ cs) = c.source_id ∷ source_ids cs

unfoldable pub publishers : List Citation → List Text
publishers [] = []
publishers (c ∷ cs) = c.publisher ∷ publishers cs

abbrev pub gap : Bool → Issue → List Issue
gap true issue = issue ∷ []
gap false issue = []

abbrev pub is_empty {ℓ} : {A : Type ℓ} → List A → Bool
is_empty [] = true
is_empty (x ∷ xs) = false

-- The requirement of a verification state on the citations that may be cited.
unfoldable pub state_gaps : VerificationState → List Citation → List Issue
unfolding distinct source_ids publishers
state_gaps awaiting_verification cs = verification_required ∷ []
state_gaps verified_official cs =
    gap (not (any (λ c. is_official c.information_class) cs)) official_source_required
state_gaps corroborated cs =
    gap
      (ltb (length (distinct ◌==◌ (source_ids cs))) 2
        || ltb (length (distinct same_text (publishers cs))) 2)
      independent_sources_required
state_gaps community_reviewed cs =
    gap (not (any (λ c. is_community c.information_class) cs)) reviewed_community_evidence_required
state_gaps disputed cs = []
state_gaps outdated cs = []

-- Every unmet requirement; empty means publishable.
unfoldable pub publication_gaps :
    VerificationState → List Citation → Option ℕ → Option ℕ → List Issue
unfolding eligible state_gaps
publication_gaps state citations effective_on last_checked_on =
    gap (is_empty (eligible citations)) approved_citation_required
    ++ (gap (is_none effective_on && is_none last_checked_on) visible_date_required
        ++ state_gaps state (eligible citations))

-- The civil date in Lagos, one hour east of UTC all year, of a time in microseconds; a date is
-- the number of its day.
unfoldable pub lagos_date : ℕ → ℕ
lagos_date now = (now + 3600000000) / 86400000000

-- A fact or an update of a project.
pub record ProjectClaim : Type 0 where
  pub id : ℕ
  pub effective_on : Option ℕ
  pub last_checked_on : Option ℕ
  pub verification_state : VerificationState
  pub is_public : Bool
  pub published_at : Option ℕ
  pub updated_at : ℕ

pub record PublishedClaim : Type 0 where
  pub claim_id : ℕ
  pub published_at : ℕ

pub data ClaimFailure : Type 0 where
  problem : Problem → List Issue → ClaimFailure

unfoldable pub find_claim : ℕ → List ProjectClaim → Option ProjectClaim
find_claim i [] = none
find_claim i (c ∷ cs) = if c.id == i then some c else find_claim i cs

-- `_STATEMENTS[kind].publish`
unfoldable pub set_public : ℕ → ℕ → VerificationState → List ProjectClaim → List ProjectClaim
set_public i now state [] = []
set_public i now state (c ∷ cs) =
    (if c.id == i
      then record c {
        is_public = true;
        published_at = some now;
        verification_state = state;
        updated_at = now;
      }
      else c)
    ∷ set_public i now state cs

abbrev pub complete :
    ℕ
    → ℕ
    → VerificationState
    → List ProjectClaim
    → List Issue
    → Result ClaimFailure (PublishedClaim × List ProjectClaim)
complete i now state claims [] =
    ok (record { claim_id = i; published_at = now }, set_public i now state claims)
complete i now state claims (g ∷ gaps) = err (problem publication_incomplete (g ∷ gaps))

abbrev with_claim :
    Option ProjectClaim
    → (ProjectClaim → Result ClaimFailure (PublishedClaim × List ProjectClaim))
    → Result ClaimFailure (PublishedClaim × List ProjectClaim)
with_claim none k = err (problem not_found [])
with_claim (some c) k = k c

-- `PublicationService.publish`, on the claims of one kind and the citations of each.
unfoldable pub publish_claim :
    (ℕ → List Citation)
    → ℕ
    → ℕ
    → VerificationState
    → List ProjectClaim
    → Result ClaimFailure (PublishedClaim × List ProjectClaim)
unfolding find_claim set_public publication_gaps
publish_claim citations now i state claims = with_claim (find_claim i claims) (λ c.
    complete i now state claims
      (publication_gaps state (citations i) c.effective_on c.last_checked_on))
