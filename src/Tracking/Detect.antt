-- ===== src/Tracking/Detect.antt =====
-- What the check symbol of a tracking code detects.
use shaidago.Base.{
  ◌∙◌, ap, sym, ℕ, zero, suc, ◌+◌, ◌-◌, ◌*◌, ◌/◌, ◌%◌, ◌≤◌, ◌<◌, ◌≡◌, refl, ◌⊎◌, inl, inr, Bool,
  true, ◌&&◌, List, [], ◌∷◌, ◌++◌, Option, none, some, arith, length, take, drop, all, ◌==◌,
  if◌then◌else◌, Text, reverse, ==_iff, Bool-cases, Option-cases, take-drop,
}
use mathlib.Core.List.{reverse-append, reverse-cons}
use shaidago.Tracking.{alphabet, index_of, value, nth, luhn_loop, luhn_mod32, is_symbol, is_check}

-- A canonical code: 21 symbols of the alphabet, the last one the check symbol of the others.
pub record IsCode (c : Text) : Type 0 where
  pub long : length c ≡ 21
  pub symbols : all is_symbol c ≡ true
  pub checked : is_check (luhn_mod32 (take 20 c)) (drop 20 c) ≡ true

-- The value of a symbol.
abbrev pub val_of : Option ℕ → ℕ
val_of none = 0
val_of (some v) = v

abbrev pub val : ℕ → ℕ
val c = val_of (value c)

index_of-nth :
    (c : ℕ) (ss : Text) (i : ℕ) {v : ℕ}
    → index_of c ss i ≡ some v
    → (i ≤ v) × (v < i + length ss) × (nth (v - i) ss ≡ c)
unfolding index_of nth
index_of-nth c [] i h = cc
index_of-nth c (s ∷ ss) i {v} h = elim (Bool-cases (s == c)) [
  | inl here ↦
      let found : some i ≡ some v = rw here at h in
      let same : i ≡ v = ground arith in
      let first : v - i ≡ 0 = omega (arith, same) in
      (omega (arith, same), omega (arith, same), rw first ((==_iff s c).0 here))
  | inr other ↦
      let (lo, hi, found) = index_of-nth c ss (suc i) {v = v} (rw other at h) in
      let later : v - i ≡ suc (v - suc i) = omega (arith, lo) in
      (omega (arith, lo), omega (arith, hi), rw later found)
]

-- The value of a symbol is below 32 and gives the symbol back.
pub val-nth :
    (c : ℕ)
    → is_symbol c ≡ true
    → (value c ≡ some (val c)) × (val c < 32) × (nth (val c) alphabet ≡ c)
unfolding value
val-nth c h = elim (Option-cases (value c)) [
  | inl unknown ↦ absurd (ground arith)
  | inr (v, known) ↦
      let (lo, hi, found) = index_of-nth c alphabet 0 {v = v} known in
      let start : v - 0 ≡ v = omega arith in rw known (refl, hi, rw start at found)
]

-- What one symbol adds to the total.
abbrev pub weight : ℕ → ℕ → ℕ
weight factor v = v * factor / 32 + v * factor % 32

abbrev pub next : ℕ → ℕ
next factor = if factor == 2 then 1 else 2

-- The total over a text that is read backwards.
unfoldable pub sum : ℕ → Text → ℕ
sum factor [] = 0
sum factor (c ∷ s) = weight factor (val c) + sum (next factor) s

luhn_step :
    (factor total c : ℕ) (s : Text) {v : ℕ}
    → value c ≡ some v
    → luhn_loop factor total (c ∷ s) ≡ luhn_loop (next factor) (total + weight factor v) s
unfolding luhn_loop
luhn_step factor total c s known = rw (luhn_loop, known) refl

luhn_loop-sum :
    (factor total : ℕ) (s : Text)
    → all is_symbol s ≡ true
    → luhn_loop factor total s ≡ some (total + sum factor s)
unfolding luhn_loop sum
luhn_loop-sum factor total [] h = ap some (omega arith)
luhn_loop-sum factor total (c ∷ s) h =
    let (known, small, back) = val-nth c (ground arith) in
    luhn_step factor total c s known
    ∙ luhn_loop-sum (next factor) (total + weight factor (val c)) s (ground arith)
    ∙ ap some (omega arith)

-- Each weight is a permutation of the values.
weight-injective :
    (factor v w : ℕ)
    → (factor ≡ 1) ⊎ (factor ≡ 2)
    → v < 32
    → w < 32
    → weight factor v ≡ weight factor w
    → v ≡ w
weight-injective factor v w (inl one) a b h = omega (arith, rw one at h)
weight-injective factor v w (inr two) a b h = omega (arith, rw two at h)

-- The factor after a text.
unfoldable pub after : ℕ → Text → ℕ
after factor [] = factor
after factor (c ∷ s) = after (next factor) s

after-factor :
    (factor : ℕ) (s : Text)
    → (factor ≡ 1) ⊎ (factor ≡ 2)
    → (after factor s ≡ 1) ⊎ (after factor s ≡ 2)
unfolding after
after-factor factor [] h = h
after-factor factor (c ∷ s) h = after-factor (next factor) s (ground arith)

pub sum-append :
    (factor : ℕ) (s t : Text) → sum factor (s ++ t) ≡ sum factor s + sum (after factor s) t
unfolding sum after
sum-append factor [] t = omega arith
sum-append factor (c ∷ s) t = omega (arith, sum-append (next factor) s t)

module _ {ℓ} {A : Type ℓ} where
  pub all-append : (p : A → Bool) (s t : List A) → all p (s ++ t) ≡ (all p s && all p t)
  all-append p [] t = refl
  all-append p (c ∷ s) t = ground (arith, all-append p s t)

  pub all-reverse : (p : A → Bool) (s : List A) → all p (reverse s) ≡ all p s
  all-reverse p [] = refl
  all-reverse p (c ∷ s) =
      rw (reverse-cons c s) (ground (arith, all-append p (reverse s) (c ∷ []), all-reverse p s))

-- A test of all numbers below a bound.
unfoldable pub all_below : ℕ → (ℕ → Bool) → Bool
all_below zero p = true
all_below (suc n) p = p n && all_below n p

pub all_below-lt : (n : ℕ) (p : ℕ → Bool) (m : ℕ) → all_below n p ≡ true → m < n → p m ≡ true
unfolding all_below
all_below-lt zero p m h l = absurd (omega arith)
all_below-lt (suc n) p m h l = elim (Bool-cases (m == n)) [
  | inl last ↦ rw ((==_iff m n).0 last) (ground arith)
  | inr other ↦ all_below-lt n p m (ground arith) (ground arith)
]

values_tested : all_below 32 (λ m. val (nth m alphabet) == m) ≡ true
unfolding all_below value index_of nth
values_tested = refl

-- A number below 32 is the value of its symbol.
pub val_of_nth : (m : ℕ) → m < 32 → val (nth m alphabet) ≡ m
val_of_nth m l =
    (==_iff (val (nth m alphabet)) m).0
      (all_below-lt 32 (λ m. val (nth m alphabet) == m) m values_tested l)

pub luhn_mod32-sum :
    (body : Text)
    → all is_symbol body ≡ true
    → luhn_mod32 body ≡ some (nth ((32 - sum 2 (reverse body) % 32) % 32) alphabet)
unfolding luhn_mod32
luhn_mod32-sum body h =
    let total : luhn_loop 2 0 (reverse body) ≡ some (sum 2 (reverse body)) =
      luhn_loop-sum 2 0 (reverse body) (all-reverse is_symbol body ∙ h) ∙ ap some (omega arith) in
    rw total refl

is_check-last :
    (o : Option ℕ) (s : Text) → is_check o s ≡ true → (d : ℕ) × (o ≡ some d) × (s ≡ d ∷ [])
is_check-last none s h = cc
is_check-last (some k) [] h = cc
is_check-last (some k) (d ∷ []) h = (d, ap some ((==_iff k d).0 h), refl)
is_check-last (some k) (d ∷ e ∷ s) h = cc

some-eq : {x y : ℕ} → some x ≡ some y → x ≡ y
some-eq {x} {y} h = cc

multiple : (v t : ℕ) → v ≡ (32 - t % 32) % 32 → (weight 1 v + t) % 32 ≡ 0
multiple v t h = omega arith

-- Read backwards with its check symbol, a code adds up to a multiple of 32.
pub code-sum : (c : Text) → IsCode c → sum 1 (reverse c) % 32 ≡ 0
unfolding sum
code-sum c h =
    let body = take 20 c in
    let (d, computed, last) = is_check-last (luhn_mod32 body) (drop 20 c) h.checked in
    let split : body ++ d ∷ [] ≡ c = ap (λ s. body ++ s) (sym last) ∙ take-drop 20 c in
    let symbols : (all is_symbol body && all is_symbol (d ∷ [])) ≡ true =
      sym (all-append is_symbol body (d ∷ [])) ∙ ap (all is_symbol) split ∙ h.symbols in
    let check : nth ((32 - sum 2 (reverse body) % 32) % 32) alphabet ≡ d =
      some-eq (sym (luhn_mod32-sum body (ground arith)) ∙ computed) in
    let value_of : val d ≡ (32 - sum 2 (reverse body) % 32) % 32 =
      ap val (sym check) ∙ val_of_nth ((32 - sum 2 (reverse body) % 32) % 32) (omega arith) in
    let backwards : reverse c ≡ d ∷ reverse body =
      ap reverse (sym split) ∙ reverse-append body (d ∷ []) in
    rw backwards (multiple (val d) (sum 2 (reverse body)) value_of)

pub after-append : (factor : ℕ) (s t : Text) → after factor (s ++ t) ≡ after (after factor s) t
unfolding after
after-append factor [] t = refl
after-append factor (c ∷ s) t = after-append (next factor) s t

-- The factor that the symbol before a text meets, when it is read backwards.
unfoldable pub factor_at : Text → ℕ
factor_at r = after 1 (reverse r)

pub factor_at-cases : (r : Text) → (factor_at r ≡ 1) ⊎ (factor_at r ≡ 2)
unfolding factor_at
factor_at-cases r = after-factor 1 (reverse r) (inl refl)

-- What a symbol in the middle of a code adds to the sum.
pub spread :
    (l r : Text) (a : ℕ)
    → sum 1 (reverse (l ++ a ∷ r))
      ≡ sum 1 (reverse r) + weight (factor_at r) (val a) + sum (next (factor_at r)) (reverse l)
unfolding factor_at sum after
spread l r a =
    let backwards : reverse (l ++ a ∷ r) ≡ (reverse r ++ a ∷ []) ++ reverse l =
      reverse-append l (a ∷ r) ∙ ap (λ s. s ++ reverse l) (reverse-cons a r) in
    rw
      (
        backwards,
        sum-append 1 (reverse r ++ a ∷ []) (reverse l),
        sum-append 1 (reverse r) (a ∷ []),
        after-append 1 (reverse r) (a ∷ []),
      )
      (omega arith)

-- The symbols in the middle of a code.
pub middle : (l r : Text) (a : ℕ) → IsCode (l ++ a ∷ r) → is_symbol a ≡ true
middle l r a h = ground (arith, all-append is_symbol l (a ∷ r), h.symbols)

weight-bound : (factor v : ℕ) → (factor ≡ 1) ⊎ (factor ≡ 2) → v < 32 → weight factor v < 32
weight-bound factor v (inl one) l = rw one (omega arith)
weight-bound factor v (inr two) l = rw two (omega arith)

same_rest : (k m v w : ℕ) → v < 32 → w < 32 → (k + v + m) % 32 ≡ 0 → (k + w + m) % 32 ≡ 0 → v ≡ w
same_rest k m v w a b p q = omega arith

pub val-injective : (a b : ℕ) → is_symbol a ≡ true → is_symbol b ≡ true → val a ≡ val b → a ≡ b
val-injective a b p q h =
    let (known, small, back) = val-nth a p in
    let (known2, small2, back2) = val-nth b q in sym back ∙ ap (λ v. nth v alphabet) h ∙ back2

-- Two codes that differ in one symbol at most, the check symbol included, are the same: one wrong
-- symbol in a code is always detected.
pub substitution-detected :
    (l r : Text) (a b : ℕ) → IsCode (l ++ a ∷ r) → IsCode (l ++ b ∷ r) → a ≡ b
substitution-detected l r a b h k =
    let (known, small, back) = val-nth a (middle l r a h) in
    let (known2, small2, back2) = val-nth b (middle l r b k) in
    let same =
      same_rest (sum 1 (reverse r)) (sum (next (factor_at r)) (reverse l))
        (weight (factor_at r) (val a)) (weight (factor_at r) (val b))
        (weight-bound (factor_at r) (val a) (factor_at-cases r) small)
        (weight-bound (factor_at r) (val b) (factor_at-cases r) small2)
        (ap (λ t. t % 32) (sym (spread l r a)) ∙ code-sum (l ++ a ∷ r) h)
        (ap (λ t. t % 32) (sym (spread l r b)) ∙ code-sum (l ++ b ∷ r) k) in
    val-injective a b (middle l r a h) (middle l r b k)
      (weight-injective (factor_at r) (val a) (val b) (factor_at-cases r) small small2 same)
