-- ===== src/RateLimit/Retry.antt =====
-- Waiting as long as the limiter says is enough.
use shaidago.Base.{
  ap, sym, ℕ, ◌+◌, ◌-◌, ◌*◌, ◌/◌, ◌≤◌, ◌<◌, ◌≡◌, refl, inl, inr, true, false, List, [], ◌∷◌, Option,
  none, some, ok, length, leb, ltb, arith, Bool-cases, Option-cases,
}
use shaidago.RateLimit.{
  Entry, Window, RateDecision, live_entries, drop_old, oldest, refusal, at_least, hit,
}
use shaidago.RateLimit.Sliding.{length-drop_old, length-live}

drop-oldest :
    (window later : ℕ) (es : List Entry) {first : ℕ}
    → oldest es ≡ some first
    → first + window ≤ later
    → length (drop_old window later es) < length es
unfolding oldest drop_old
drop-oldest window later [] h l = cc
drop-oldest window later (e ∷ es) {first} h l = elim (Option-cases (oldest es)) [
  | inl none_ ↦ ground (arith, length-drop_old window later es)
  | inr (m, more) ↦ elim (Bool-cases (ltb m e.score)) [
    | inl lower_ ↦ ground (arith, drop-oldest window later es {first = m} more)
    | inr own ↦ ground (arith, length-drop_old window later es)
  ]
]

waited :
    (first window now later retry : ℕ)
    → retry ≡ at_least 1 ((first + window - now + 999) / 1000)
    → now + retry * 1000 ≤ later
    → first + window ≤ later
waited first window now later retry e h =
    elim (Bool-cases (ltb ((first + window - now + 999) / 1000) 1)) [
      | inl little ↦
          let none_left : (first + window - now + 999) / 1000 < 1 = ground arith in
          omega (arith, none_left, rw little at e, h)
      | inr much ↦ omega (arith, rw much at e, h)
    ]

refusal-oldest :
    (window now : ℕ) (o : Option ℕ) {d : RateDecision}
    → refusal window now o ≡ ok d
    → (first : ℕ) × (o ≡ some first)
      × (d.retry_after_seconds ≡ at_least 1 ((first + window - now + 999) / 1000))
refusal-oldest window now none h = cc
refusal-oldest window now (some first) {d} h =
    let same : record {
      allowed = false;
      remaining = 0;
      retry_after_seconds = at_least 1 ((first + window - now + 999) / 1000);
    }
        ≡ d =
      ground arith in
    (first, refl, ap (λ x. x.retry_after_seconds) (sym same))

room_of :
    (limit window later : ℕ) (left : List Entry) (expiry : ℕ)
    → length (drop_old window later left) < length left
    → length left ≤ limit
    → ltb
        (length (
          drop_old window later
            (live_entries later (record { entries = left; expires_at = expiry }))))
        limit
      ≡ true
room_of limit window later left expiry fewer within = elim (Bool-cases (leb expiry later)) [
  | inl gone ↦ rw gone (ground (arith, length-drop_old window later []))
  | inr there ↦ rw there (ground (arith, fewer, within))
]

-- After a hit is refused, with the window holding no more entries than the limit, a hit that comes
-- after the seconds that the decision names is admitted, if there were no hits in between.
pub hit-retry :
    (limit window_seconds token token2 now later : ℕ) (w : Window) {d : RateDecision}
    → length w.entries ≤ limit
    → (hit limit window_seconds token now w).0 ≡ ok d
    → d.allowed ≡ false
    → now + d.retry_after_seconds * 1000 ≤ later
    → (d2 : RateDecision) × ((hit limit window_seconds token2 later
          (hit limit window_seconds token now w).1).0
        ≡ ok d2)
      × (d2.allowed ≡ true)
unfolding hit
hit-retry limit window_seconds token token2 now later w {d} bounded h refused late =
    let window = window_seconds * 1000 in
    let left = drop_old window now (live_entries now w) in
    elim (Bool-cases (ltb (length left) limit)) [
      | inl free ↦ absurd (ground arith)
      | inr full ↦
          let (first, low, retry) = refusal-oldest window now (oldest left) (rw full at h) in
          let old = waited first window now later d.retry_after_seconds retry late in
          let fewer : length (drop_old window later left) < length left =
            drop-oldest window later left low old in
          let within : length left ≤ limit =
            omega (
              arith,
              length-drop_old window now (live_entries now w),
              length-live now w,
              bounded,
            ) in
          let room : ltb
                (length (drop_old window later (live_entries later (record w { entries = left }))))
                limit
              ≡ true =
            room_of limit window later left w.expires_at fewer within in
          rw (full, room) (_, refl, refl)
    ]
