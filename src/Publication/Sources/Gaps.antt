-- ===== src/Publication/Sources/Gaps.antt =====
-- What it takes to be publishable, and that nothing else is public: `publication_gaps` and
-- `PublicationService.publish` (services/platform/src/shaidago/sources/publication.py).
use shaidago.Base.{
  ℕ, ◌≡◌, ◌≢◌, ◌↔◌, ◌⊎◌, inl, inr, refl, sym, ap, ◌∙◌, Bool, true, false, ◌&&◌, ◌||◌, not, List, [],
  ◌∷◌, ◌++◌, Option, none, some, any, ltb, length, ◌==◌, ==_iff, is_none, Text, same_text,
  same_text_iff, arith, Bool-cases,
}
use shaidago.Publication.Sources.{
  VerificationState, Citation, Issue, citable, is_official, is_community, eligible, distinct,
  source_ids, publishers, gap, is_empty, state_gaps, publication_gaps, approved_citation_required,
  visible_date_required, official_source_required, independent_sources_required,
  awaiting_verification, verified_official, corroborated, community_reviewed, disputed, outdated,
}

-- A set of the items of a list.
module _ {ℓ} {A : Type ℓ} (same : A → A → Bool)
    (same_iff : (a b : A) → (same a b ≡ true) ↔ (a ≡ b)) where
  -- Two items of a list differ.
  abbrev pub Differ : List A → Type ℓ
  Differ xs = (x : A) × (y : A) × (any (same x) xs ≡ true) × (any (same y) xs ≡ true) × (x ≢ y)

  any-distinct : (a : A) (xs : List A) → any (same a) (distinct same xs) ≡ any (same a) xs
  unfolding distinct
  any-distinct a [] = refl
  any-distinct a (x ∷ xs) = elim (Bool-cases (any (same x) (distinct same xs))) [
    | inl old ↦ elim (Bool-cases (same a x)) [
      | inl here ↦ let a_x : a ≡ x = (same_iff a x).0 here in rw (old, here) (rw a_x old)
      | inr there ↦ rw (old, there) (any-distinct a xs)
    ]
    | inr new ↦ rw (new, any-distinct a xs) refl
  ]

  any-same : (a b : A) → (same a b ≡ false) → a ≢ b
  any-same a b h e = ground (arith, (same_iff a b).1 e)

  distinct-Differ :
      (xs : List A) → ltb (length (distinct same xs)) 2 ≡ false → Differ (distinct same xs)
  unfolding distinct
  distinct-Differ [] h = ground arith
  distinct-Differ (x ∷ xs) h = elim (Bool-cases (any (same x) (distinct same xs))) [
    | inl old ↦ rw old (distinct-Differ xs (rw old at h))
    | inr new ↦ rw new (first_two x (distinct same xs) new (rw new at h))
  ]
    where
      first_two :
          (x : A) (ys : List A)
          → any (same x) ys ≡ false
          → ltb (length (x ∷ ys)) 2 ≡ false
          → Differ (x ∷ ys)
      first_two x [] new h = ground arith
      first_two x (y ∷ ys) new h =
          let x_x : same x x ≡ true = (same_iff x x).1 refl in
          let y_y : same y y ≡ true = (same_iff y y).1 refl in
          let x_y : same x y ≡ false = ground arith in
          (x, y, ground arith, ground arith, any-same x y x_y)

  Differ-many : (ys : List A) → Differ ys → ltb (length ys) 2 ≡ false
  Differ-many [] (x, y, hx, hy, n) = ground arith
  Differ-many (z ∷ []) (x, y, hx, hy, n) =
      let x_z : x ≡ z = (same_iff x z).0 (ground arith) in
      let y_z : y ≡ z = (same_iff y z).0 (ground arith) in absurd (n (x_z ∙ sym y_z))
  Differ-many (z ∷ w ∷ ys) d = ground arith

  -- A set has two items exactly when two items of its list differ.
  pub distinct_iff : (xs : List A) → (ltb (length (distinct same xs)) 2 ≡ false) ↔ Differ xs
  distinct_iff xs = (
    λ h.
        let (x, y, hx, hy, n) = distinct-Differ xs h in
        (x, y, sym (any-distinct x xs) ∙ hx, sym (any-distinct y xs) ∙ hy, n),
    λ d.
        let (x, y, hx, hy, n) = d in
        Differ-many (distinct same xs) (x, y, any-distinct x xs ∙ hx, any-distinct y xs ∙ hy, n),
  )

any-source_ids :
    (i : ℕ) (cs : List Citation)
    → any (λ j. i == j) (source_ids cs) ≡ any (λ c. i == c.source_id) cs
unfolding source_ids
any-source_ids i [] = refl
any-source_ids i (c ∷ cs) = rw (any-source_ids i cs) refl

any-publishers :
    (p : Text) (cs : List Citation)
    → any (same_text p) (publishers cs) ≡ any (λ c. same_text p c.publisher) cs
unfolding publishers
any-publishers p [] = refl
any-publishers p (c ∷ cs) = rw (any-publishers p cs) refl

any-eligible :
    (p : Citation → Bool) (cs : List Citation)
    → any p (eligible cs) ≡ any (λ c. citable c.review_state && p c) cs
unfolding eligible
any-eligible p [] = refl
any-eligible p (c ∷ cs) = elim (Bool-cases (citable c.review_state)) [
  | inl yes_it_is ↦ rw (yes_it_is, any-eligible p cs) refl
  | inr no_it_is_not ↦ rw (no_it_is_not, any-eligible p cs) refl
]

-- What a verification state asks of the citations to approved or superseded versions.
abbrev pub Backed : VerificationState → List Citation → Type 0
Backed awaiting_verification cs = ⊥
Backed verified_official cs =
    any (λ c. citable c.review_state && is_official c.information_class) cs ≡ true
Backed corroborated cs =
    ((i : ℕ) × (j : ℕ) × (any (λ c. citable c.review_state && i == c.source_id) cs ≡ true)
      × (any (λ c. citable c.review_state && j == c.source_id) cs ≡ true)
      × (i ≢ j))
    × ((p : Text) × (q : Text) × (any (λ c. citable c.review_state && same_text p c.publisher) cs
          ≡ true)
        × (any (λ c. citable c.review_state && same_text q c.publisher) cs ≡ true)
        × (p ≢ q))
Backed community_reviewed cs =
    any (λ c. citable c.review_state && is_community c.information_class) cs ≡ true
Backed disputed cs = Unit
Backed outdated cs = Unit

pub gap-nil : (b : Bool) (issue : Issue) → (gap b issue ≡ []) ↔ (b ≡ false)
gap-nil true issue = ground arith
gap-nil false issue = ground arith

or-false : (a b : Bool) → ((a || b) ≡ false) ↔ ((a ≡ false) × (b ≡ false))
or-false true b = ground arith
or-false false b = ground arith

pub append-nil_iff {ℓ} : {A : Type ℓ} (xs ys : List A) → (xs ++ ys ≡ []) ↔ ((xs ≡ []) × (ys ≡ []))
append-nil_iff [] ys = (λ h. (refl, h), λ t. t.1)
append-nil_iff (x ∷ xs) ys = ((λ h. absurd (ground arith)), (λ t. absurd (ground arith)))

two_sources :
    (cs : List Citation)
    → (ltb (length (distinct ◌==◌ (source_ids (eligible cs)))) 2 ≡ false) ↔ (
        (i : ℕ) × (j : ℕ) × (any (λ c. citable c.review_state && i == c.source_id) cs ≡ true)
        × (any (λ c. citable c.review_state && j == c.source_id) cs ≡ true)
        × (i ≢ j))
two_sources cs =
    let found =
      λ (i : ℕ). any-source_ids i (eligible cs) ∙ any-eligible (λ c. i == c.source_id) cs in
    let d = distinct_iff ◌==◌ ==_iff (source_ids (eligible cs)) in
    (
      λ h. let (i, j, hi, hj, n) = d.0 h in (i, j, sym (found i) ∙ hi, sym (found j) ∙ hj, n),
      λ t. let (i, j, hi, hj, n) = t in d.1 (i, j, found i ∙ hi, found j ∙ hj, n),
    )

two_publishers :
    (cs : List Citation)
    → (ltb (length (distinct same_text (publishers (eligible cs)))) 2 ≡ false) ↔ (
        (p : Text) × (q : Text) × (any (λ c. citable c.review_state && same_text p c.publisher) cs
          ≡ true)
        × (any (λ c. citable c.review_state && same_text q c.publisher) cs ≡ true)
        × (p ≢ q))
two_publishers cs =
    let found = λ (p : Text).
      any-publishers p (eligible cs) ∙ any-eligible (λ c. same_text p c.publisher) cs in
    let d = distinct_iff same_text same_text_iff (publishers (eligible cs)) in
    (
      λ h. let (i, j, hi, hj, n) = d.0 h in (i, j, sym (found i) ∙ hi, sym (found j) ∙ hj, n),
      λ t. let (i, j, hi, hj, n) = t in d.1 (i, j, found i ∙ hi, found j ∙ hj, n),
    )

state_gaps-nil :
    (state : VerificationState) (cs : List Citation)
    → (state_gaps state (eligible cs) ≡ []) ↔ Backed state cs
unfolding state_gaps
state_gaps-nil awaiting_verification cs = ground arith
state_gaps-nil verified_official cs = ground (
  arith,
  gap-nil (not (any (λ c. is_official c.information_class) (eligible cs))) official_source_required,
  any-eligible (λ c. is_official c.information_class) cs,
)
state_gaps-nil corroborated cs =
    let few_sources = ltb (length (distinct ◌==◌ (source_ids (eligible cs)))) 2 in
    let few_publishers = ltb (length (distinct same_text (publishers (eligible cs)))) 2 in
    let none_missing = gap-nil (few_sources || few_publishers) independent_sources_required in
    let both = or-false few_sources few_publishers in
    (
      λ h.
          let (a, b) = both.0 (none_missing.0 h) in ((two_sources cs).0 a, (two_publishers cs).0 b),
      λ t. none_missing.1 (both.1 ((two_sources cs).1 t.0, (two_publishers cs).1 t.1)),
    )
state_gaps-nil community_reviewed cs =
    ground (arith, any-eligible (λ c. is_community c.information_class) cs)
state_gaps-nil disputed cs = (λ h. tt, λ u. refl)
state_gaps-nil outdated cs = (λ h. tt, λ u. refl)

eligible-empty :
    (cs : List Citation) → is_empty (eligible cs) ≡ not (any (λ c. citable c.review_state) cs)
unfolding eligible
eligible-empty [] = refl
eligible-empty (c ∷ cs) = elim (Bool-cases (citable c.review_state)) [
  | inl yes_it_is ↦ rw yes_it_is refl
  | inr no_it_is_not ↦ rw (no_it_is_not, eligible-empty cs) refl
]

not-false : (b : Bool) → not b ≡ false → b ≡ true
not-false true h = refl
not-false false h = cc

dates : (a b : Option ℕ) → ((is_none a && is_none b) ≡ false) ↔ ((a ≢ none) ⊎ (b ≢ none))
dates none none = ground arith
dates none (some d) = (λ h. inr (λ e. ground arith), λ t. refl)
dates (some d) b = (λ h. inl (λ e. ground arith), λ t. refl)

-- A claim has no gap exactly when it cites an approved or superseded version, shows a date, and
-- has the citations that its verification state asks for: an official source, two sources of two
-- publishers, or reviewed community evidence; and never while it awaits verification.
pub publication_gaps_iff :
    (state : VerificationState) (cs : List Citation) (effective_on last_checked_on : Option ℕ)
    → (publication_gaps state cs effective_on last_checked_on ≡ []) ↔ (
        (any (λ c. citable c.review_state) cs ≡ true)
        × ((effective_on ≢ none) ⊎ (last_checked_on ≢ none))
        × Backed state cs)
unfolding publication_gaps
publication_gaps_iff state cs effective_on last_checked_on =
    let uncited = gap (is_empty (eligible cs)) approved_citation_required in
    let undated = gap (is_none effective_on && is_none last_checked_on) visible_date_required in
    let parts = append-nil_iff uncited (undated ++ state_gaps state (eligible cs)) in
    let rest = append-nil_iff undated (state_gaps state (eligible cs)) in
    let cited = gap-nil (is_empty (eligible cs)) approved_citation_required in
    let dated = gap-nil (is_none effective_on && is_none last_checked_on) visible_date_required in
    let backed = state_gaps-nil state cs in
    let day = dates effective_on last_checked_on in
    (
      λ h.
          let (a, bc) = parts.0 h in
          let (b, c) = rest.0 bc in
          (not-false _ (sym (eligible-empty cs) ∙ cited.0 a), day.0 (dated.0 b), backed.0 c),
      λ t.
          parts.1
            (cited.1 (eligible-empty cs ∙ ap not t.0), rest.1 (dated.1 (day.1 t.1), backed.1 t.2)),
    )
