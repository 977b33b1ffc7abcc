-- ===== src/Worker/Store/Lease.antt =====
-- Who holds a run's lease, and that the machine's moves never meet the database's trigger.
use shaidago.Base.{
  ℕ, suc, ◌+◌, ◌<◌, ◌≡◌, refl, ◌↔◌, ◌⊎◌, inl, inr, true, false, some, arith, is_some, Bool-cases,
  ap, sym, ◌∙◌,
}
use shaidago.Worker.Machine.{Status, terminal, active, guard_allows, ◌is_status◌, failed}
use shaidago.Worker.Store.{Run, guard_update, may_acquire, leased, lease, acquire_row}

active-facts :
    (s t : Status)
    → t ≡ s
    → active s ≡ true
    → ((s is_status t) ≡ true) × (terminal s ≡ false) × ((t is_status failed) ≡ false)
active-facts s t e a = ground arith

-- An update that lets the status stand meets no trigger while the run is active.
active-guard_update :
    (old new : Run)
    → new.status ≡ old.status
    → active old.status ≡ true
    → guard_update old new ≡ some (record new { version = suc old.version })
unfolding guard_update guard_allows
active-guard_update old new same a =
    let (keeps, lives, holds) = active-facts old.status new.status same a in
    rw (keeps, lives, holds) refl

acquire_row-active :
    (owner now : ℕ) (r : Run)
    → active r.status ≡ true
    → is_some (acquire_row owner now (some r)) ≡ may_acquire owner now r
unfolding acquire_row
acquire_row-active owner now r lives = elim (Bool-cases (may_acquire owner now r)) [
  | inl may ↦ rw (may, active-guard_update r (leased owner now r) refl lives) refl
  | inr refused_ ↦ rw refused_ refl
]

some-eq {ℓ} : {A : Type ℓ} {x y : A} → some x ≡ some y → x ≡ y
some-eq {x} {y} h = cc

-- After a worker takes the lease of a run, another worker takes it if and only if it is later than
-- the end of the lease; the same worker may always take it again.
pub acquire_row-exclusive :
    (owner now : ℕ) (r : Run) {r1 : Run}
    → acquire_row owner now (some r) ≡ some r1
    → (owner2 now2 : ℕ)
    → (r1.attempts ≡ suc r.attempts)
      × ((is_some (acquire_row owner2 now2 (some r1)) ≡ true)
          ↔ ((owner2 ≡ owner) ⊎ (now + lease < now2)))
unfolding acquire_row
acquire_row-exclusive owner now r {r1} h owner2 now2 = elim (Bool-cases (may_acquire owner now r)) [
  | inr refused_ ↦ ground arith
  | inl may ↦
      let lives : active r.status ≡ true = ground arith in
      let row : record (leased owner now r) { version = suc r.version } ≡ r1 =
        some-eq (rw (may, active-guard_update r (leased owner now r) refl lives) at h) in
      let held : r1.lease_owner ≡ some owner = ap (λ x. x.lease_owner) (sym row) in
      let until : r1.lease_expires_at ≡ some (now + lease) =
        ap (λ x. x.lease_expires_at) (sym row) in
      let still : active r1.status ≡ true = ap (λ x. active x.status) (sym row) ∙ lives in
      (
        ap (λ x. x.attempts) (sym row),
        rw (acquire_row-active owner2 now2 r1 still)
            (rw (still, held, until) (ground arith, ground arith)),
      )
]
