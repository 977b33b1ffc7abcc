-- ===== src/Handle/Rows.antt =====
-- The rows of reporter handles, one by one, and the length of a backoff
-- (services/platform/migrations/versions/0012_reporter_handles.py).
use native.Mathlib.Numerals.{unary_clauses}
use shaidago.Base.{
  some-injective, ℕ, suc, ◌-◌, ◌*◌, ◌^◌, ◌≤◌, ◌≡◌, ◌≢◌, ◌⊎◌, inl, inr, refl, sym, ap, subst, ◌∙◌,
  true, false, ◌&&◌, List, [], ◌∷◌, All, Option, none, some, leb, ltb, ◌==◌, if◌then◌else◌, Text,
  same_text, same_text_iff, arith, Bool-cases,
}
use shaidago.Publication.Words.{min_ℕ}
use shaidago.Handle.{HandleRow, delay, reporter_handle_get, update_handle}

-- No two rows have the same identifier.
abbrev pub IsKeyed : List HandleRow → Type 0
IsKeyed [] = Unit
IsKeyed (r ∷ rows) = All (λ s. s.id ≢ r.id) rows × IsKeyed rows

power_double : (n : ℕ) → 2 ^ suc n ≡ 2 * 2 ^ n
power_double n = simp unary_clauses (omega arith)

exponent : ℕ → ℕ
exponent n = min_ℕ (n - 4) 10

exponent-cases : (n : ℕ) → (exponent (suc n) ≡ exponent n) ⊎ (exponent (suc n) ≡ suc (exponent n))
unfolding exponent
exponent-cases n = elim (Bool-cases (leb 4 n && ltb n 14)) [
  | inl inside ↦ inr (ground arith)
  | inr outside ↦ inl (ground arith)
]

power-exponent : (n : ℕ) → 2 ^ exponent n ≤ 2 ^ exponent (suc n)
power-exponent n = elim (exponent-cases n) [
  | inl same ↦ rw same (omega arith)
  | inr next ↦ rw (next, power_double (exponent n)) (omega arith)
]

min_ℕ-more : (n a b : ℕ) → a ≤ b → min_ℕ n a ≤ min_ℕ n b
min_ℕ-more n a b h = ground arith

pub delay-more : (n : ℕ) → delay n ≤ delay (suc n)
unfolding delay exponent
delay-more n =
    let more = power-exponent n in
    min_ℕ-more 900 (5 * 2 ^ exponent n) (5 * 2 ^ exponent (suc n)) (omega (arith, more))

pub delay-most : (n : ℕ) → delay n ≤ 900
unfolding delay
delay-most n = ground arith

abbrev pub on_row : ℕ → (HandleRow → HandleRow) → Option HandleRow → Option HandleRow
on_row i set none = none
on_row i set (some r) = some (if r.id == i then set r else r)

pub get-update_handle :
    (h : Text) (i : ℕ) (set : HandleRow → HandleRow)
    → ((r : HandleRow) → (set r).handle ≡ r.handle)
    → (rows : List HandleRow)
    → reporter_handle_get h (update_handle i set rows) ≡ on_row i set (reporter_handle_get h rows)
unfolding reporter_handle_get update_handle
get-update_handle h i set keeps [] = refl
get-update_handle h i set keeps (r ∷ rows) =
    let rest = get-update_handle h i set keeps rows in
    elim (Bool-cases (r.id == i)) [
      | inl its ↦ elim (Bool-cases (same_text r.handle h)) [
        | inl same ↦
            let still : same_text (set r).handle h ≡ true =
              ap (λ t. same_text t h) (keeps r) ∙ same in
            rw (its, still, same, its) refl
        | inr other ↦
            let still : same_text (set r).handle h ≡ false =
              ap (λ t. same_text t h) (keeps r) ∙ other in
            rw (its, still, other) rest
      ]
      | inr no_id ↦ elim (Bool-cases (same_text r.handle h)) [
        | inl same ↦ rw (no_id, same, no_id) refl
        | inr other ↦ rw (no_id, other) rest
      ]
    ]

All-get {κ} :
    (P : HandleRow → Type κ) (h : Text) (rows : List HandleRow) {r : HandleRow}
    → All P rows
    → reporter_handle_get h rows ≡ some r
    → P r
unfolding reporter_handle_get
All-get P h [] a found = absurd (ground arith)
All-get P h (s ∷ rows) {r} (p, a) found = elim (Bool-cases (same_text s.handle h)) [
  | inl same ↦ let it : s ≡ r = some-injective (rw same at found) in subst P it p
  | inr other ↦ All-get P h rows a (rw other at found)
]

All-update {κ} :
    (P : HandleRow → Type κ) (i : ℕ) (set : HandleRow → HandleRow)
    → ((r : HandleRow) → P r → P (set r))
    → (rows : List HandleRow) → All P rows
    → All P (update_handle i set rows)
unfolding update_handle
All-update P i set keeps [] a = tt
All-update P i set keeps (r ∷ rows) (p, a) = elim (Bool-cases (r.id == i)) [
  | inl its ↦ rw its (keeps r p, All-update P i set keeps rows a)
  | inr other ↦ rw other (p, All-update P i set keeps rows a)
]

pub IsKeyed-update :
    (i : ℕ) (set : HandleRow → HandleRow)
    → ((r : HandleRow) → (set r).id ≡ r.id)
    → (rows : List HandleRow) → IsKeyed rows
    → IsKeyed (update_handle i set rows)
unfolding update_handle
IsKeyed-update i set keeps [] keyed = tt
IsKeyed-update i set keeps (r ∷ rows) (other, keyed) =
    let rest = IsKeyed-update i set keeps rows keyed in
    let apart =
      All-update (λ s. s.id ≢ r.id) i set (λ s h same. h (sym (keeps s) ∙ same)) rows other in
    elim (Bool-cases (r.id == i)) [
      | inl its ↦
          rw its (
            subst (λ k. All (λ s. s.id ≢ k) (update_handle i set rows)) (sym (keeps r)) apart,
            rest,
          )
      | inr no_id ↦ rw no_id (apart, rest)
    ]

-- Two handles do not share an identifier.
pub get-apart :
    (h k : Text) (rows : List HandleRow) {r s : HandleRow}
    → IsKeyed rows
    → h ≢ k
    → reporter_handle_get h rows ≡ some r
    → reporter_handle_get k rows ≡ some s
    → s.id ≢ r.id
unfolding reporter_handle_get
get-apart h k [] keyed apart found found' = absurd (ground arith)
get-apart h k (u ∷ rows) {r} {s} (other, keyed) apart found found' =
    elim (Bool-cases (same_text u.handle h)) [
      | inl mine ↦ elim (Bool-cases (same_text u.handle k)) [
        | inl both ↦
            absurd
              (apart (sym ((same_text_iff u.handle h).0 mine) ∙ (same_text_iff u.handle k).0 both))
        | inr not_k ↦
            let it : u ≡ r = some-injective (rw mine at found) in
            subst (λ v. s.id ≢ v.id) it
              (All-get (λ v. v.id ≢ u.id) k rows other (rw not_k at found'))
      ]
      | inr not_h ↦ elim (Bool-cases (same_text u.handle k)) [
        | inl yours ↦
            let it : u ≡ s = some-injective (rw yours at found') in
            let differs = All-get (λ v. v.id ≢ u.id) h rows other (rw not_h at found) in
            λ same. differs (sym same ∙ ap (λ v. v.id) (sym it))
        | inr not_k ↦ get-apart h k rows keyed apart (rw not_h at found) (rw not_k at found')
      ]
    ]
