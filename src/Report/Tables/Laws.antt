-- ===== src/Report/Tables/Laws.antt =====
-- Laws of the report tables: the newest event, the projection of events on statuses, versions.
use shaidago.Base.{
  ap, ◌∙◌, ℕ, suc, ◌≤◌, ◌<◌, ◌≡◌, refl, ◌≢◌, ◌⊎◌, inl, inr, true, false, List, [], ◌∷◌, Option,
  none, some, map, arith, ◌==◌, ==_iff, ==_refl, if◌then◌else◌, Bool-cases, Option-cases, All, ok,
  length,
}
use mathlib.Core.Option
use shaidago.Crypto.{Bytes, has_key}
use shaidago.Report.Machine.{Status, reviewer, admin, is_legal}
use shaidago.Report.Tables.{
  Report, StatusEvent, Db, select_report, latest_event_at, newest, newer, later, status_of,
  event_check, has_event, set_status, insert_event, report_status,
}

-- An event later than all earlier ones of its report.
abbrev pub IsLatest : StatusEvent → List StatusEvent → Type 0
IsLatest e es = (m : ℕ) → latest_event_at e.report_id es ≡ some m → m < e.occurred_at

abbrev pub time_of : Option StatusEvent → Option ℕ
time_of none = none
time_of (some f) = some f.occurred_at

newer-later :
    (e : StatusEvent) (o : Option StatusEvent)
    → (newer e o).occurred_at ≡ later e.occurred_at (time_of o)
newer-later e none = refl
newer-later e (some f) = ground arith

-- The latest time is that of the newest event.
pub latest-newest : (i : ℕ) (es : List StatusEvent) → latest_event_at i es ≡ time_of (newest i es)
unfolding newest latest_event_at
latest-newest i [] = refl
latest-newest i (e ∷ es) = elim (Bool-cases (e.report_id == i)) [
  | inl same ↦ rw (same, latest-newest i es, newer-later e (newest i es))
  | inr other ↦ rw (other, latest-newest i es)
]

-- Such an event is the newest once it is inserted.
pub newest-IsLatest :
    (e : StatusEvent) (es : List StatusEvent) → IsLatest e es → newest e.report_id (e ∷ es) ≡ some e
unfolding newest
newest-IsLatest e es h = elim (Option-cases (newest e.report_id es)) [
  | inl first ↦ rw (==_refl e.report_id, first)
  | inr (g, more) ↦
      rw (==_refl e.report_id, more)
        (ground (arith, h g.occurred_at (latest-newest e.report_id es ∙ ap time_of more)))
]

pub newest-other :
    (e : StatusEvent) (es : List StatusEvent) {i : ℕ}
    → e.report_id ≢ i
    → newest i (e ∷ es) ≡ newest i es
unfolding newest
newest-other e es {i} h = ground arith

-- Every report's status is that of its newest event.
abbrev pub IsProjected : List StatusEvent → List Report → Type 0
IsProjected es rs = All (λ r. status_of (newest r.id es) ≡ some r.status) rs

set_status-fields :
    (i : ℕ) (new : Status) (now : ℕ) (r : Report)
    → ((set_status i new now r).id ≡ r.id)
      × ((set_status i new now r).status ≡ (if r.id == i then new else r.status))
unfolding set_status
set_status-fields i new now r = ground arith

module _ (e : StatusEvent) (es : List StatusEvent) (now : ℕ) where
  set_here :
      (r : Report)
      → IsLatest e es
      → (r.id == e.report_id) ≡ true
      → status_of (newest (set_status e.report_id e.new_status now r).id (e ∷ es))
        ≡ some (set_status e.report_id e.new_status now r).status
  set_here r l same =
      let (same_id, set) = set_status-fields e.report_id e.new_status now r in
      let here : r.id ≡ e.report_id = (==_iff r.id e.report_id).0 same in
      rw (same_id, set, same, here, newest-IsLatest e es l)

  set_other :
      (r : Report)
      → (r.id == e.report_id) ≡ false
      → status_of (newest r.id es) ≡ some r.status
      → status_of (newest (set_status e.report_id e.new_status now r).id (e ∷ es))
        ≡ some (set_status e.report_id e.new_status now r).status
  set_other r other p =
      let (same_id, set) = set_status-fields e.report_id e.new_status now r in
      let apart : e.report_id ≢ r.id = ground arith in
      rw (same_id, set, other, newest-other e es {i = r.id} apart) p

-- A new event, later than all before, with the status that the report is set to.
pub IsProjected-set_status :
    (e : StatusEvent) (es : List StatusEvent) (now : ℕ) (rs : List Report)
    → IsLatest e es
    → IsProjected es rs
    → IsProjected (e ∷ es) (map (set_status e.report_id e.new_status now) rs)
IsProjected-set_status e es now [] l h = tt
IsProjected-set_status e es now (r ∷ rs) l (p, h) = (
  elim (Bool-cases (r.id == e.report_id)) [
    | inl same ↦ set_here e es now r l same
    | inr other ↦ set_other e es now r other p
  ],
  IsProjected-set_status e es now rs l h,
)

-- Other reports are untouched by an update.
pub select_report-set_status :
    (i j : ℕ) (new : Status) (now : ℕ) (rs : List Report)
    → j ≢ i
    → select_report j (map (set_status i new now) rs) ≡ select_report j rs
unfolding select_report set_status
select_report-set_status i j new now [] n = refl
select_report-set_status i j new now (r ∷ rs) n =
    ground (arith, select_report-set_status i j new now rs)

-- The row itself is set, and its version raised when its status changes.
pub select_report-set_self :
    (i : ℕ) (new : Status) (now : ℕ) (rs : List Report) {r : Report}
    → select_report i rs ≡ some r
    → select_report i (map (set_status i new now) rs) ≡ some (set_status i new now r)
unfolding select_report
select_report-set_self i new now [] h = cc
select_report-set_self i new now (r ∷ rs) {r = x} h = elim (Bool-cases (r.id == i)) [
  | inl same ↦
      let found : some r ≡ some x = rw same at h in
      let here : ((set_status i new now r).id == i) ≡ true =
        rw ((set_status-fields i new now r).0) same in
      simp here (ap (Option.map (set_status i new now)) found)
  | inr other ↦
      rw ((set_status-fields i new now r).0, other)
        (select_report-set_self i new now rs {r = x} (rw other at h))
]

pub select_report-id :
    (i : ℕ) (rs : List Report) (r : Report) → select_report i rs ≡ some r → r.id ≡ i
unfolding select_report
select_report-id i [] r h = cc
select_report-id i (q ∷ rs) r h = ground (arith, select_report-id i rs r)

pub set_status-version :
    (i : ℕ) (new : Status) (now : ℕ) (r : Report)
    → r.id ≡ i
    → new ≢ r.status
    → ((set_status i new now r).status ≡ new) × ((set_status i new now r).version ≡ suc r.version)
unfolding set_status
set_status-version i new now r e n = ground arith

-- The deferred trigger lets a transaction pass when the statuses are projected.
pub IsProjected-holds :
    (i : ℕ) (es : List StatusEvent) (rs : List Report) (r : Report)
    → IsProjected es rs
    → select_report i rs ≡ some r
    → status_of (newest i es) ≡ some r.status
unfolding select_report
IsProjected-holds i es [] r p h = cc
IsProjected-holds i es (q ∷ rs) r (p, ps) h = elim (Bool-cases (q.id == i)) [
  | inl same ↦
      let found : some q ≡ some r = rw same at h in
      let here : q.id ≡ i = (==_iff q.id i).0 same in rw (← here) (p ∙ ap report_status found)
  | inr other ↦ IsProjected-holds i es rs r ps (rw other at h)
]

-- The parts of an event that hold its private reason: none at all, or a ciphertext of a length that
-- the table admits, a key and the version 1.
abbrev pub HasReason : StatusEvent → Type 0
HasReason e =
    ((e.reason_ciphertext ≡ none) × (e.reason_key_id ≡ none) × (e.reason_schema_version ≡ none))
    ⊎ ((c : Bytes) × (k : ℕ) × (e.reason_ciphertext ≡ some c)
        × (e.reason_key_id ≡ some k)
        × (e.reason_schema_version ≡ some 1)
        × (29 ≤ length c)
        × (length c ≤ 16384))

event_check-staff :
    (e : StatusEvent) (p : Status)
    → length e.public_message ≤ 500
    → (e.actor_type ≡ reviewer) ⊎ (e.actor_type ≡ admin)
    → e.previous_status ≡ some p
    → is_legal p e.new_status ≡ true
    → HasReason e
    → event_check e ≡ true
unfolding event_check
event_check-staff e p m s q l (inl (c, k, v)) = rw (q, l, c, k, v) (ground arith)
event_check-staff e p m s q l (inr (c, k, ec, ek, ev, lo, hi)) =
    rw (q, l, ec, ek, ev) (ground arith)

-- A staff member's event on a legal change of status is inserted, if its identifier is new.
pub insert_event-staff :
    (e : StatusEvent) (db : Db) (p : Status) (r : Report)
    → has_event e.id db.events ≡ false
    → select_report e.report_id db.reports ≡ some r
    → length e.public_message ≤ 500
    → (e.actor_type ≡ reviewer) ⊎ (e.actor_type ≡ admin)
    → e.previous_status ≡ some p
    → is_legal p e.new_status ≡ true
    → HasReason e
    → has_key e.reason_key_id db.data_keys ≡ true
    → insert_event e db ≡ ok (record db { events = e ∷ db.events })
unfolding insert_event
insert_event-staff e db p r new found m s q l reason key =
    rw (new, found, event_check-staff e p m s q l reason, key)
