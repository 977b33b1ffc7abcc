-- ===== src/Session/Examples.antt =====
-- Two reviewers with a session each; the sessions of the first one are revoked.
use shaidago.Base.{ℕ, ◌≡◌, ◌≢◌, refl, true, List, [], ◌∷◌, none, some, Text, codes}
use shaidago.Session.{
  ReviewerRecord, Session, SessionLifetimes, Principal, reviewer, admin, admin_revoked,
  find_reviewer, lookup, revoke_all, issue, is_valid, resolve,
}
use shaidago.Session.Revoking.{resolve-revoke_all}

abbrev ann : ReviewerRecord
ann = record {
  id = 1;
  identifier = codes "ann";
  role = admin;
  active = true;
  credential_version = 1;
}

abbrev bob : ReviewerRecord
bob = record {
  id = 2;
  identifier = codes "bob";
  role = reviewer;
  active = true;
  credential_version = 4;
}

abbrev hash : Text → List ℕ
hash token = 7 ∷ token

abbrev lifetimes : SessionLifetimes
lifetimes = record { idle = 1800; absolute = 28800 }

abbrev sessions : List Session
unfolding issue
sessions =
    issue hash lifetimes bob (codes "b") 12 200 (issue hash lifetimes ann (codes "a") 11 100 [])

abbrev bob_principal : Principal
bob_principal = record {
  reviewer_id = 2;
  identifier = codes "bob";
  role = reviewer;
  session_id = 12;
}

ann_resolves :
    (resolve hash lifetimes (some (codes "a")) (ann ∷ bob ∷ []) 300 sessions).0
    ≡ some (record { reviewer_id = 1; identifier = codes "ann"; role = admin; session_id = 11 })
unfolding issue resolve is_valid lookup find_reviewer
ann_resolves = refl

ann_is_out :
    (resolve hash lifetimes
      (some (codes "a"))
      (ann ∷ bob ∷ [])
      300
      (revoke_all 1 admin_revoked 250 sessions)).0
    ≡ none
unfolding issue resolve is_valid lookup find_reviewer revoke_all
ann_is_out = refl

bob_resolves :
    (resolve hash lifetimes
      (some (codes "b"))
      (ann ∷ bob ∷ [])
      300
      (revoke_all 1 admin_revoked 250 sessions)).0
    ≡ some bob_principal
unfolding issue resolve is_valid lookup find_reviewer revoke_all
bob_resolves = refl

resolve-revoke_all_example : ◌≢◌ {A = ℕ} 2 1
resolve-revoke_all_example =
    resolve-revoke_all hash lifetimes 1 admin_revoked 250 (some (codes "b")) (ann ∷ bob ∷ []) 300
      sessions bob_principal bob_resolves
