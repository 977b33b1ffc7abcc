-- ===== src/Tracking/Swaps.antt =====
-- Two adjacent symbols of a tracking code in the wrong order.
use shaidago.Base.{
  ◌∙◌, ap, sym, ℕ, ◌+◌, ◌*◌, ◌%◌, ◌<◌, ◌≤◌, ◌≡◌, ◌⊎◌, inl, inr, [], ◌∷◌, ◌++◌, arith, Text, reverse,
}
use mathlib.Core.List.{reverse-cons}
use shaidago.Tracking.Detect.{
  IsCode, val, val-nth, weight, next, sum, sum-append, after, after-append, factor_at,
  factor_at-cases, spread, middle, code-sum, val-injective,
}

-- Twice a value, with its digits added: the value and the value without a multiple of 31.
doubled :
    (v : ℕ) → v < 32 → ((v < 16) × (weight 2 v ≡ 2 * v)) ⊎ ((16 ≤ v) × (weight 2 v + 31 ≡ 2 * v))
doubled v l = ground arith

single : (v : ℕ) → v < 32 → weight 1 v ≡ v
single v l = omega arith

swapped-values :
    (g k m v w : ℕ)
    → (g ≡ 1) ⊎ (g ≡ 2)
    → v < 32
    → w < 32
    → (k + weight g w + weight (next g) v + m) % 32 ≡ 0
    → (k + weight g v + weight (next g) w + m) % 32 ≡ 0
    → (v ≡ w) ⊎ (((v ≡ 0) × (w ≡ 31)) ⊎ ((v ≡ 31) × (w ≡ 0)))
swapped-values g k m v w (inl one) a b p q =
    ground (arith, rw one at p, rw one at q, doubled v a, doubled w b, single v a, single w b)
swapped-values g k m v w (inr two) a b p q =
    ground (arith, rw two at p, rw two at q, doubled v a, doubled w b, single v a, single w b)

factor_at-cons : (r : Text) (b : ℕ) → factor_at (b ∷ r) ≡ next (factor_at r)
unfolding factor_at after
factor_at-cons r b = rw (reverse-cons b r) (after-append 1 (reverse r) (b ∷ []))

sum_before :
    (r : Text) (b : ℕ) → sum 1 (reverse (b ∷ r)) ≡ sum 1 (reverse r) + weight (factor_at r) (val b)
unfolding factor_at sum
sum_before r b = rw (reverse-cons b r, sum-append 1 (reverse r) (b ∷ [])) (omega arith)

pair-sum :
    (l r : Text) (a b : ℕ)
    → IsCode (l ++ a ∷ b ∷ r)
    → (sum 1 (reverse r)
          + weight (factor_at r) (val b)
          + weight (next (factor_at r)) (val a)
          + sum (next (next (factor_at r))) (reverse l))
        % 32
      ≡ 0
pair-sum l r a b h =
    let whole = spread l (b ∷ r) a in
    let spelled = rw (factor_at-cons r b, sum_before r b) at whole in
    ap (λ t. t % 32) (sym spelled) ∙ code-sum (l ++ a ∷ b ∷ r) h

-- When two adjacent symbols of a code change places and what results is a code again, the symbols
-- are the same or they are those of the values 0 and 31.
pub transposition-detected :
    (l r : Text) (a b : ℕ)
    → IsCode (l ++ a ∷ b ∷ r)
    → IsCode (l ++ b ∷ a ∷ r)
    → (a ≡ b) ⊎ (((val a ≡ 0) × (val b ≡ 31)) ⊎ ((val a ≡ 31) × (val b ≡ 0)))
transposition-detected l r a b h k =
    let (known, small, back) = val-nth a (middle l (b ∷ r) a h) in
    let (known2, small2, back2) = val-nth b (middle l (a ∷ r) b k) in
    elim (swapped-values (factor_at r) (sum 1 (reverse r))
      (sum (next (next (factor_at r))) (reverse l)) (val a) (val b) (factor_at-cases r) small small2
      (pair-sum l r a b h) (pair-sum l r b a k)) [
        | inl same ↦ inl (val-injective a b (middle l (b ∷ r) a h) (middle l (a ∷ r) b k) same)
        | inr ends ↦ inr ends
      ]
