-- ===== src/RateLimit/Sliding.antt =====
-- The limit holds in every window, and waiting as long as the limiter says is enough.
use shaidago.Base.{
  ap, sym, ℕ, suc, ◌+◌, ◌*◌, ◌≤◌, ◌<◌, ◌≡◌, refl, inl, inr, Bool, true, false, List, [], ◌∷◌,
  Option, none, some, Result, ok, err, length, leb, ltb, ◌==◌, if◌then◌else◌, arith, Bool-cases,
  All,
}
use shaidago.RateLimit.{
  Entry, Window, RateDecision, Unavailable, live_entries, drop_old, without_token, oldest, refusal,
  hit,
}

-- How many hits of a list fall in the window that ends at a time.
unfoldable pub recent : ℕ → ℕ → List ℕ → ℕ
recent window now [] = 0
recent window now (t ∷ ts) =
    let rest = recent window now ts in if leb (t + window) now then rest else suc rest

unfoldable pub recent_entries : ℕ → ℕ → List Entry → ℕ
recent_entries window now [] = 0
recent_entries window now (e ∷ es) =
    let rest = recent_entries window now es in if leb (e.score + window) now then rest else suc rest

drop_old-recent :
    (window now later : ℕ) (es : List Entry)
    → now ≤ later
    → recent_entries window later (drop_old window now es) ≡ recent_entries window later es
unfolding recent_entries drop_old
drop_old-recent window now later [] h = refl
drop_old-recent window now later (e ∷ es) h = ground (arith, drop_old-recent window now later es h)

recent_entries-length :
    (window now : ℕ) (es : List Entry) → recent_entries window now es ≤ length es
unfolding recent_entries
recent_entries-length window now [] = omega arith
recent_entries-length window now (e ∷ es) = ground (arith, recent_entries-length window now es)

-- A token that is new replaces nothing.
unfoldable pub has_token : ℕ → List Entry → Bool
has_token token [] = false
has_token token (e ∷ es) = if e.token == token then true else has_token token es

without_token-new :
    (token : ℕ) (es : List Entry) → has_token token es ≡ false → without_token token es ≡ es
unfolding has_token without_token
without_token-new token [] h = refl
without_token-new token (e ∷ es) h = elim (Bool-cases (e.token == token)) [
  | inl same ↦ absurd (ground arith)
  | inr other ↦ rw other (ap (λ t. e ∷ t) (without_token-new token es (rw other at h)))
]

has_token-drop_old :
    (token window now : ℕ) (es : List Entry)
    → has_token token es ≡ false
    → has_token token (drop_old window now es) ≡ false
unfolding has_token drop_old
has_token-drop_old token window now [] h = refl
has_token-drop_old token window now (e ∷ es) h = elim (Bool-cases (e.token == token)) [
  | inl same ↦ absurd (ground arith)
  | inr other ↦
      let rest = has_token-drop_old token window now es (rw other at h) in
      elim (Bool-cases (leb (e.score + window) now)) [
        | inl old ↦ rw old rest
        | inr young ↦ rw (young, other) rest
      ]
]

-- The window of a key stands for the hits that were admitted: at every time from now on it holds as
-- many recent entries, never more than the limit, and none of them outlives the key.
pub record Stands (limit window now : ℕ) (log : List ℕ) (w : Window) : Type 0 where
  pub counted :
      (later : ℕ) → now ≤ later → recent window later log ≤ recent_entries window later w.entries
  pub bounded : length w.entries ≤ limit
  pub kept : All (λ e. e.score + window ≤ w.expires_at) w.entries
  pub soon : w.expires_at ≤ now + window

expired-none :
    (window now later : ℕ) (w : Window)
    → All (λ e. e.score + window ≤ w.expires_at) w.entries
    → w.expires_at ≤ later
    → recent_entries window later w.entries ≡ 0
unfolding recent_entries
expired-none window now later w kept h = go w.entries kept
  where
    go :
        (es : List Entry)
        → All (λ e. e.score + window ≤ w.expires_at) es
        → recent_entries window later es ≡ 0
    go [] k = refl
    go (e ∷ es) (k, ks) = ground (arith, go es ks)

live-recent :
    (window now later : ℕ) (w : Window)
    → All (λ e. e.score + window ≤ w.expires_at) w.entries
    → now ≤ later
    → recent_entries window later (live_entries now w) ≡ recent_entries window later w.entries
unfolding recent_entries
live-recent window now later w kept h = elim (Bool-cases (leb w.expires_at now)) [
  | inl gone ↦ rw gone (sym (expired-none window now later w kept (ground arith)))
  | inr there ↦ rw there refl
]

pub length-live : (now : ℕ) (w : Window) → length (live_entries now w) ≤ length w.entries
length-live now w = ground arith

pub length-drop_old :
    (window now : ℕ) (es : List Entry) → length (drop_old window now es) ≤ length es
unfolding drop_old
length-drop_old window now [] = omega arith
length-drop_old window now (e ∷ es) = ground (arith, length-drop_old window now es)

module _ (bound window now : ℕ) where
  kept-drop_old :
      (es : List Entry)
      → All (λ e. e.score + window ≤ bound) es
      → All (λ e. e.score + window ≤ bound) (drop_old window now es)
  unfolding drop_old
  kept-drop_old [] k = tt
  kept-drop_old (e ∷ es) (k, ks) = elim (Bool-cases (leb (e.score + window) now)) [
    | inl old ↦ rw old (kept-drop_old es ks)
    | inr young ↦ rw young (k, kept-drop_old es ks)
  ]

kept-live :
    (window now : ℕ) (w : Window)
    → All (λ e. e.score + window ≤ w.expires_at) w.entries
    → All (λ e. e.score + window ≤ w.expires_at) (live_entries now w)
kept-live window now w k = elim (Bool-cases (leb w.expires_at now)) [
  | inl gone ↦ rw gone tt
  | inr there ↦ rw there k
]

has_token-live :
    (token now : ℕ) (w : Window)
    → has_token token w.entries ≡ false
    → has_token token (live_entries now w) ≡ false
unfolding has_token
has_token-live token now w h = elim (Bool-cases (leb w.expires_at now)) [
  | inl gone ↦ rw gone refl
  | inr there ↦ rw there h
]

kept-later :
    (window a b : ℕ) (es : List Entry)
    → a ≤ b
    → All (λ e. e.score + window ≤ a) es
    → All (λ e. e.score + window ≤ b) es
kept-later window a b [] h k = tt
kept-later window a b (e ∷ es) h (k, ks) = (omega (arith, k, h), kept-later window a b es h ks)

-- The hits that were admitted, the last one first.
abbrev pub admitted : ℕ → Result Unavailable RateDecision → List ℕ → List ℕ
admitted now (ok d) log = if d.allowed then now ∷ log else log
admitted now (err e) log = log

admitted-refusal :
    (window now : ℕ) (o : Option ℕ) (log : List ℕ) → admitted now (refusal window now o) log ≡ log
admitted-refusal window now none log = refl
admitted-refusal window now (some first) log = refl

module _ (limit window token now now2 : ℕ) (log : List ℕ) (w : Window) where
  left_over : List Entry
  left_over = drop_old window now2 (live_entries now2 w)

  left-counted :
      Stands limit window now log w
      → now ≤ now2
      → (later : ℕ) → now2 ≤ later
      → recent window later log ≤ recent_entries window later left_over
  unfolding left_over
  left-counted s h later l =
      let same = drop_old-recent window now2 later (live_entries now2 w) l in
      let whole = live-recent window now2 later w s.kept l in
      omega (arith, s.counted later (omega (arith, h, l)), same, whole)

  Stands-refused :
      Stands limit window now log w
      → now ≤ now2
      → Stands limit window now2 log (record w { entries = left_over })
  unfolding left_over
  Stands-refused s h = record {
    counted = left-counted s h;
    bounded =
        omega
          (arith, length-drop_old window now2 (live_entries now2 w), length-live now2 w, s.bounded);
    kept =
        kept-drop_old w.expires_at window now2 (live_entries now2 w)
          (kept-live window now2 w s.kept);
    soon = omega (arith, s.soon, h);
  }

  Stands-admitted :
      Stands limit window now log w
      → now ≤ now2
      → length left_over < limit
      → Stands limit window now2 (now2 ∷ log) (record {
        entries = record { score = now2; token = token } ∷ left_over;
        expires_at = now2 + window;
      })
  unfolding left_over recent recent_entries
  Stands-admitted s h few = record {
    counted = λ later l. elim (Bool-cases (leb (now2 + window) later)) [
      | inl old ↦ rw old (left-counted s h later l)
      | inr young ↦ rw young (omega (arith, left-counted s h later l))
    ];
    bounded = omega (arith, few);
    kept = (
      omega arith,
      kept-later window w.expires_at (now2 + window) (drop_old window now2 (live_entries now2 w))
          (omega (arith, s.soon, h))
          (kept-drop_old w.expires_at window now2 (live_entries now2 w)
            (kept-live window now2 w s.kept)),
    );
    soon = omega arith;
  }

module _ (limit window_seconds : ℕ) where
  -- The hits of a key, at times that never go back, each with a new token.
  pub data Ran : ℕ → List ℕ → Window → Type 0 where
    start : Ran 0 [] (record { entries = []; expires_at = 0 })
    hits :
        {now : ℕ} {log : List ℕ} {w : Window} (token now2 : ℕ)
        → Ran now log w
        → now ≤ now2
        → has_token token w.entries ≡ false
        → Ran now2
            (admitted now2 (hit limit window_seconds token now2 w).0 log)
            (hit limit window_seconds token now2 w).1

  Stands-hit :
      (token now now2 : ℕ) (log : List ℕ) (w : Window)
      → Stands limit (window_seconds * 1000) now log w
      → now ≤ now2
      → has_token token w.entries ≡ false
      → Stands limit
          (window_seconds * 1000)
          now2
          (admitted now2 (hit limit window_seconds token now2 w).0 log)
          (hit limit window_seconds token now2 w).1
  unfolding hit left_over
  Stands-hit token now now2 log w s h fresh =
      let window = window_seconds * 1000 in
      let left = drop_old window now2 (live_entries now2 w) in
      elim (Bool-cases (ltb (length left) limit)) [
        | inr full ↦
            rw (full, admitted-refusal window now2 (oldest left) log)
              (Stands-refused limit window token now now2 log w s h)
        | inl free ↦
            let few : length left < limit = ground arith in
            rw
              (
                free,
                without_token-new token left (
                    has_token-drop_old token window now2 (live_entries now2 w)
                      (has_token-live token now2 w fresh)),
              )
              (Stands-admitted limit window token now now2 log w s h few)
      ]

  pub Ran-Stands :
      {now : ℕ} {log : List ℕ} {w : Window}
      → Ran now log w
      → Stands limit (window_seconds * 1000) now log w
  unfolding recent recent_entries
  Ran-Stands start = record {
    counted = λ later h. omega arith;
    bounded = omega arith;
    kept = tt;
    soon = omega arith;
  }
  Ran-Stands (hits {now} {log} {w} token now2 r h fresh) =
      Stands-hit token now now2 log w (Ran-Stands r) h fresh

  -- After any hits of a key, at times that never go back and each with a new token, no more hits
  -- than the limit were admitted in the window that ends at the last one.
  pub hit-limit :
      {now : ℕ} {log : List ℕ} {w : Window}
      → Ran now log w
      → recent (window_seconds * 1000) now log ≤ limit
  hit-limit {now} {log} {w} r =
      let s = Ran-Stands r in
      omega (
        arith,
        s.counted now (omega arith),
        recent_entries-length (window_seconds * 1000) now w.entries,
        s.bounded,
      )
