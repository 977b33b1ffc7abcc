-- ===== src/Session/Revoking.antt =====
-- A session that is revoked stays revoked.
use shaidago.Base.{
  ◌∙◌, ap, sym, ℕ, ◌≡◌, refl, ◌≢◌, inl, inr, true, false, ◌&&◌, List, [], ◌∷◌, Option, none, some,
  arith, is_none, Text, same_text, Bool-cases, Option-cases,
}
use shaidago.Crypto.{Bytes}
use shaidago.Session.{
  ReviewerRecord, Session, SessionLifetimes, Principal, Joined, joined, RevocationReason,
  find_reviewer, lookup, revoked, of_reviewer, revoke_all, is_valid, resolved, resolve, unusable,
}

joined-session :
    (s : Session) (o : Option ReviewerRecord) {j : Joined} → joined s o ≡ some j → j.session ≡ s
joined-session s none h = cc
joined-session s (some r) h = ap (λ o. session_of o) (sym h)
  where
    session_of : Option Joined → Session
    session_of none = s
    session_of (some j) = j.session

revoked-ends :
    (i : ℕ) (reason : RevocationReason) (now : ℕ) (s : Session)
    → (revoked (of_reviewer i) now reason s).reviewer_id ≡ i
    → is_none (revoked (of_reviewer i) now reason s).revoked_at ≡ false
revoked-ends i reason now s his = elim (Bool-cases (of_reviewer i s && is_none s.revoked_at)) [
  | inl ends ↦ rw ends refl
  | inr kept ↦ let own : s.reviewer_id ≡ i = rw kept at his in rw kept (ground (arith, own))
]

-- After a revocation of all sessions of a reviewer, a session that is looked up is not his, or it is
-- revoked.
lookup-revoke_all :
    (reviewer_id : ℕ) (reason : RevocationReason) (now : ℕ) (hash : Bytes)
    (reviewers : List ReviewerRecord) (sessions : List Session) {j : Joined}
    → lookup hash reviewers (revoke_all reviewer_id reason now sessions) ≡ some j
    → j.session.reviewer_id ≡ reviewer_id
    → is_none j.session.revoked_at ≡ false
unfolding lookup revoke_all
lookup-revoke_all i reason now hash reviewers [] h e = cc
lookup-revoke_all i reason now hash reviewers (s ∷ ss) {j} h e =
    elim (Bool-cases (same_text (revoked (of_reviewer i) now reason s).token_hmac hash)) [
      | inr other ↦ lookup-revoke_all i reason now hash reviewers ss {j = j} (rw other at h) e
      | inl here ↦
          let same : j.session ≡ revoked (of_reviewer i) now reason s =
            joined-session (revoked (of_reviewer i) now reason s)
              (find_reviewer (revoked (of_reviewer i) now reason s).reviewer_id reviewers)
              (rw here at h) in
          let his : (revoked (of_reviewer i) now reason s).reviewer_id ≡ i =
            ap (λ x. x.reviewer_id) (sym same) ∙ e in
          ap (λ x. is_none x.revoked_at) same ∙ revoked-ends i reason now s his
    ]

module _ (hash : Text → Bytes) (lifetimes : SessionLifetimes) where
  no_longer :
      (j : Joined) (now : ℕ)
      → is_none j.session.revoked_at ≡ false
      → is_valid hash lifetimes j now ≢ true
  unfolding is_valid
  no_longer j now ended valid = ground arith

  resolved-valid :
      (now : ℕ) (sessions : List Session) (j : Joined) {p : Principal}
      → (resolved hash lifetimes now sessions (some j)).0 ≡ some p
      → (is_valid hash lifetimes j now ≡ true) × (p.reviewer_id ≡ j.session.reviewer_id)
  resolved-valid now sessions j {p} h = elim (Bool-cases (is_valid hash lifetimes j now)) [
    | inr invalid ↦ absurd (ground arith)
    | inl valid ↦ (valid, ground arith)
  ]

  -- After all sessions of a reviewer are revoked, no token resolves to that reviewer, at any later or
  -- earlier time and whatever became of the reviewer's record.
  pub resolve-revoke_all :
      (reviewer_id : ℕ) (reason : RevocationReason) (now : ℕ) (token : Option Text)
      (reviewers : List ReviewerRecord) (now2 : ℕ) (sessions : List Session) (p : Principal)
      → (resolve hash lifetimes token reviewers now2 (revoke_all reviewer_id reason now sessions)).0
        ≡ some p
      → p.reviewer_id ≢ reviewer_id
  unfolding resolve is_valid
  resolve-revoke_all i reason now none reviewers now2 sessions p h e = cc
  resolve-revoke_all i reason now (some token) reviewers now2 sessions p h e =
      elim (Bool-cases (unusable hash lifetimes token)) [
        | inl bad ↦ absurd (ground arith)
        | inr good ↦
            elim (Option-cases (lookup (hash token) reviewers (revoke_all i reason now sessions))) [
              | inl unknown ↦ absurd (ground arith)
              | inr (j, found) ↦
                  let (valid, same) =
                    resolved-valid now2 (revoke_all i reason now sessions) j
                      (rw (good, found) at h) in
                  let ended =
                    lookup-revoke_all i reason now (hash token) reviewers sessions found
                      (sym same ∙ e) in
                  no_longer j now2 ended valid
            ]
      ]
