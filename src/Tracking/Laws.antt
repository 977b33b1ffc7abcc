-- ===== src/Tracking/Laws.antt =====
-- What is typed in and what is shown are the same code.
use shaidago.Base.{
  same_text, same_text_iff, ◌↔◌, ◌⊎◌, inl, inr, Bool-cases, bind-ok, guard-ok, ◌∙◌, ap, sym, subst,
  ℕ, zero, suc, ◌+◌, ◌-◌, ◌*◌, ◌/◌, ◌%◌, ◌^◌, ◌≤◌, ◌<◌, ◌≡◌, refl, Bool, true, false, ◌&&◌, not,
  List, [], ◌∷◌, ◌++◌, some, Result, ok, guard, arith, length, length-append, take-append_left,
  drop-append_left, ==_refl, take, drop, all, leb, ltb, ◌==◌, Text, codes, map, reverse, ==_iff,
  take-drop, take-all,
}
use mathlib.Core.List.{append_assoc, append-nil}
use shaidago.Tracking.{
  prefix, alphabet, index_of, value, nth, luhn_mod32, is_symbol, is_check, formatted, translate,
  alias, is_separator, without_prefix, upper, upper_char, normalise, not_a_tracking_code, Invalid,
  symbols_of, generate, from_bytes,
}
use shaidago.Tracking.Detect.{
  IsCode, val, val-nth, all-append, all_below, all_below-lt, sum, luhn_mod32-sum,
}

-- Every symbol stands for itself: it is upper case, no separator and no alias.
plain : ℕ → Bool
plain c = ltb c 128 && not (leb 97 c && leb c 122) && not (is_separator c) && alias c == c

symbols-plain : all_below 32 (λ m. plain (nth m alphabet)) ≡ true
unfolding all_below plain nth
symbols-plain = refl

module _ {ℓ} {A : Type ℓ} where
  all-take : (p : A → Bool) (n : ℕ) (s : List A) → all p s ≡ true → all p (take n s) ≡ true
  all-take p zero s h = refl
  all-take p (suc n) [] h = refl
  all-take p (suc n) (c ∷ s) h = ground (arith, all-take p n s)

  all-drop : (p : A → Bool) (n : ℕ) (s : List A) → all p s ≡ true → all p (drop n s) ≡ true
  all-drop p zero s h = h
  all-drop p (suc n) [] h = h
  all-drop p (suc n) (c ∷ s) h = ground (arith, all-drop p n s)

  drop-nil : (n : ℕ) → ◌≡◌ {A = List A} (drop n []) []
  drop-nil zero = refl
  drop-nil (suc n) = refl

  drop-drop : (m n : ℕ) (s : List A) → drop n (drop m s) ≡ drop (m + n) s
  drop-drop zero n s = let same : 0 + n ≡ n = omega arith in rw same refl
  drop-drop (suc m) n [] = drop-nil n ∙ sym (drop-nil (suc m + n))
  drop-drop (suc m) n (c ∷ s) =
      let same : suc m + n ≡ suc (m + n) = omega arith in rw same (drop-drop m n s)

  length-drop : (n : ℕ) (s : List A) → length (drop n s) ≡ length s - n
  length-drop zero s = omega arith
  length-drop (suc n) [] = omega arith
  length-drop (suc n) (c ∷ s) = omega (arith, length-drop n s)

  length-take : (n : ℕ) (s : List A) → length (take n s) ≤ n
  length-take zero s = omega arith
  length-take (suc n) [] = omega arith
  length-take (suc n) (c ∷ s) = omega (arith, length-take n s)

  join : (a d r : List A) {t : List A} → a ++ d ≡ t → a ++ (d ++ r) ≡ t ++ r
  join a d r e = sym (append_assoc a d r) ∙ ap (λ s. s ++ r) e

symbols_tested : all_below 32 (λ m. is_symbol (nth m alphabet)) ≡ true
unfolding all_below value index_of nth
symbols_tested = refl

nth-symbol : (m : ℕ) → m < 32 → is_symbol (nth m alphabet) ≡ true
nth-symbol m l = all_below-lt 32 (λ m. is_symbol (nth m alphabet)) m symbols_tested l

prefix-symbols : all is_symbol (83 ∷ 71 ∷ []) ≡ true
unfolding value index_of
prefix-symbols = refl

length-alias : (s : Text) → length (map alias s) ≡ length s
length-alias [] = refl
length-alias (c ∷ s) = ap suc (length-alias s)

ok-eq : {x y : Text} → ◌≡◌ {A = Result Invalid Text} (ok x) (ok y) → x ≡ y
ok-eq {x} {y} h = cc

module _ (other : ℕ → Text) where
  symbol-plain :
      (c : ℕ)
      → is_symbol c ≡ true
      → (upper_char other c ≡ c ∷ []) × (is_separator c ≡ false) × (alias c ≡ c)
  unfolding plain
  symbol-plain c h =
      let (known, small, back) = val-nth c h in
      let tested : plain c ≡ true =
        subst (λ x. plain x ≡ true) back
          (all_below-lt 32 (λ m. plain (nth m alphabet)) (val c) symbols-plain small) in
      ground arith

  upper-symbols : (s t : Text) → all is_symbol s ≡ true → upper other (s ++ t) ≡ s ++ upper other t
  unfolding upper
  upper-symbols [] t h = refl
  upper-symbols (c ∷ s) t h =
      let (same, apart, self) = symbol-plain c (ground arith) in
      rw same (ap (λ u. c ∷ u) (upper-symbols s t (ground arith)))

  translate-symbols : (s t : Text) → all is_symbol s ≡ true → translate (s ++ t) ≡ s ++ translate t
  unfolding translate
  translate-symbols [] t h = refl
  translate-symbols (c ∷ s) t h =
      let (same, apart, rest) = symbol-plain c (ground arith) in
      rw apart (ap (λ u. c ∷ u) (translate-symbols s t (ground arith)))

  alias-symbols : (s : Text) → all is_symbol s ≡ true → map alias s ≡ s
  alias-symbols [] h = refl
  alias-symbols (c ∷ s) h =
      let (same, apart, self) = symbol-plain c (ground arith) in
      rw (self, alias-symbols s (ground arith)) refl

  -- What is left of a text once it is in upper case and has no separators.
  compact-symbols :
      (s : Text) → all is_symbol s ≡ true → translate (upper other (s ++ [])) ≡ s ++ []
  unfolding upper translate
  compact-symbols s h = ap translate (upper-symbols s [] h) ∙ translate-symbols s [] h

  compact-dash :
      (s t : Text)
      → all is_symbol s ≡ true
      → translate (upper other (s ++ 45 ∷ t)) ≡ s ++ translate (upper other t)
  unfolding upper translate
  compact-dash s t h =
      ap translate (upper-symbols s (45 ∷ t) h) ∙ translate-symbols s (45 ∷ upper other t) h

  -- The five groups of a shown code and its check symbol, put together again.
  groups :
      (c : Text)
      → length c ≡ 21
      → (let body = take 20 c in
          take 5 body
          ++ (take 5 (drop 5 body)
              ++ (take 5 (drop 10 body) ++ (take 5 (drop 15 body) ++ take 1 (drop 20 c)))))
        ≡ c
  groups c long =
      let body = take 20 c in
      let last : take 5 (drop 15 body) ≡ drop 15 body =
        take-all 5 (drop 15 body) (omega (arith, length-drop 15 body, length-take 20 c)) in
      let third : take 5 (drop 10 body) ++ drop 15 body ≡ drop 10 body =
        rw (← drop-drop 10 5 body) (take-drop 5 (drop 10 body)) in
      let second : take 5 (drop 5 body) ++ drop 10 body ≡ drop 5 body =
        rw (← drop-drop 5 5 body) (take-drop 5 (drop 5 body)) in
      let first : take 5 body ++ drop 5 body ≡ body = take-drop 5 body in
      let check : take 1 (drop 20 c) ≡ drop 20 c =
        take-all 1 (drop 20 c) (omega (arith, length-drop 20 c, long)) in
      rw (last, check)
        (ap (λ s. take 5 body ++ (take 5 (drop 5 body) ++ s))
            (join (take 5 (drop 10 body)) (drop 15 body) (drop 20 c) third)
          ∙ ap (λ s. take 5 body ++ s)
              (join (take 5 (drop 5 body)) (drop 10 body) (drop 20 c) second)
          ∙ join (take 5 body) (drop 5 body) (drop 20 c) first
          ∙ take-drop 20 c)

  compact-plain : (s : Text) → all is_symbol s ≡ true → translate (upper other s) ≡ s
  compact-plain s h =
      ap (λ t. translate (upper other t)) (sym (append-nil s)) ∙ compact-symbols s h ∙ append-nil s

  compact-shown :
      (s1 s2 s3 s4 s5 : Text)
      → all is_symbol s1 ≡ true
      → all is_symbol s2 ≡ true
      → all is_symbol s3 ≡ true
      → all is_symbol s4 ≡ true
      → all is_symbol s5 ≡ true
      → translate
          (upper other (codes "SG" ++ 45 ∷ (s1 ++ 45 ∷ (s2 ++ 45 ∷ (s3 ++ 45 ∷ (s4 ++ 45 ∷ s5))))))
        ≡ 83 ∷ 71 ∷ (s1 ++ (s2 ++ (s3 ++ (s4 ++ s5))))
  compact-shown s1 s2 s3 s4 s5 h1 h2 h3 h4 h5 =
      compact-dash (83 ∷ 71 ∷ []) (s1 ++ 45 ∷ (s2 ++ 45 ∷ (s3 ++ 45 ∷ (s4 ++ 45 ∷ s5))))
        prefix-symbols
      ∙ ap (λ t. 83 ∷ 71 ∷ t)
          (compact-dash s1 (s2 ++ 45 ∷ (s3 ++ 45 ∷ (s4 ++ 45 ∷ s5))) h1
            ∙ ap (λ t. s1 ++ t)
                (compact-dash s2 (s3 ++ 45 ∷ (s4 ++ 45 ∷ s5)) h2
                  ∙ ap (λ t. s2 ++ t)
                      (compact-dash s3 (s4 ++ 45 ∷ s5) h3
                        ∙ ap (λ t. s3 ++ t)
                            (compact-dash s4 s5 h4 ∙ ap (λ t. s4 ++ t) (compact-plain s5 h5)))))

  compact-formatted : (c : Text) → IsCode c → translate (upper other (formatted c)) ≡ 83 ∷ 71 ∷ c
  unfolding formatted
  compact-formatted c h =
      let body = take 20 c in
      let symbols : all is_symbol body ≡ true = all-take is_symbol 20 c h.symbols in
      compact-shown (take 5 body) (take 5 (drop 5 body)) (take 5 (drop 10 body))
        (take 5 (drop 15 body)) (take 1 (drop 20 c)) (all-take is_symbol 5 body symbols)
        (all-take is_symbol 5 (drop 5 body) (all-drop is_symbol 5 body symbols))
        (all-take is_symbol 5 (drop 10 body) (all-drop is_symbol 10 body symbols))
        (all-take is_symbol 5 (drop 15 body) (all-drop is_symbol 15 body symbols))
        (all-take is_symbol 1 (drop 20 c) (all-drop is_symbol 20 c h.symbols))
      ∙ ap (λ t. 83 ∷ 71 ∷ t) (groups c h.long)

  -- A code that is shown is recognised as itself.
  pub normalise-formatted : (c : Text) → IsCode c → normalise other (formatted c) ≡ ok c
  unfolding normalise without_prefix
  normalise-formatted c h =
      let exact : (length (drop 2 (83 ∷ 71 ∷ c)) == 21) ≡ true = (==_iff (length c) 21).1 h.long in
      rw (compact-formatted c h, h.long, exact, alias-symbols c h.symbols, h.symbols, h.checked)
        refl

  -- The symbols that a typed text stands for: the text itself, or what follows the prefix.
  abbrev pub Stands : Text → Text → Type 0
  Stands typed s = (typed ≡ s) ⊎ (typed ≡ 83 ∷ 71 ∷ s)

  without_prefix-Stands : (typed s : Text) → without_prefix typed ≡ ok s → Stands typed s
  unfolding without_prefix
  without_prefix-Stands typed s h = elim (Bool-cases (length typed == 23)) [
    | inr other_length ↦ inl (ok-eq (rw other_length at h))
    | inl long ↦ elim (Bool-cases (same_text (take 2 typed) prefix)) [
      | inr bare ↦ absurd (ground (arith, rw (long, bare) at h))
      | inl starts ↦
          let cut : drop 2 typed ≡ s = ok-eq (rw (long, starts) at h) in
          let first : take 2 typed ≡ 83 ∷ 71 ∷ [] =
            (same_text_iff (take 2 typed) prefix).0 starts in
          inr (
            sym (take-drop 2 typed) ∙ ap (λ t. t ++ drop 2 typed) first ∙ ap (λ t. 83 ∷ 71 ∷ t) cut)
    ]
  ]

  Stands-without_prefix :
      (typed s : Text) → length s ≡ 21 → Stands typed s → without_prefix typed ≡ ok s
  unfolding without_prefix
  Stands-without_prefix typed s long (inl same) =
      let short : (length s == 23) ≡ false = rw long refl in rw (same, short) refl
  Stands-without_prefix typed s long (inr prefixed) =
      let whole : (length (83 ∷ 71 ∷ s) == 23) ≡ true = rw long refl in rw (prefixed, whole) refl

  -- What is typed in, in upper case and without separators, is recognised as a code exactly when it
  -- is 21 symbols, or the prefix and 21 symbols, that with their aliases replaced are a code; the
  -- result is that code.
  pub normalise_iff :
      (raw c : Text)
      → (normalise other raw ≡ ok c)
        ↔ ((s : Text) × Stands (translate (upper other raw)) s × (map alias s ≡ c) × IsCode c)
  unfolding normalise
  normalise_iff raw c = (sound, complete)
    where
      sound :
          normalise other raw ≡ ok c
          → (s : Text) × Stands (translate (upper other raw)) s × (map alias s ≡ c) × IsCode c
      sound h = bind-ok (without_prefix (translate (upper other raw))) _ h λ compact e1 h1.
          bind-ok (guard (length compact == 21) not_a_tracking_code) _ h1 λ _ e2 h2.
            bind-ok (guard (all is_symbol (map alias compact)) not_a_tracking_code) _ h2 λ _ e3 h3.
              bind-ok
                (guard
                  (is_check (luhn_mod32 (take 20 (map alias compact)))
                    (drop 20 (map alias compact)))
                  not_a_tracking_code)
                _ h3
                λ _ e4 h4. (
                  compact,
                  without_prefix-Stands (translate (upper other raw)) compact e1,
                  ok-eq h4,
                  subst IsCode (ok-eq h4) (record {
                    long = length-alias compact ∙ (==_iff (length compact) 21).0 (guard-ok _ _ e2);
                    symbols = guard-ok _ _ e3;
                    checked = guard-ok _ _ e4;
                  }),
                )

      complete :
          (s : Text) × Stands (translate (upper other raw)) s × (map alias s ≡ c) × IsCode c
          → normalise other raw ≡ ok c
      complete (s, stands, same, code) =
          let long : length s ≡ 21 = sym (length-alias s) ∙ ap length same ∙ code.long in
          let exact : (length s == 21) ≡ true = (==_iff (length s) 21).1 long in
          rw
            (
              Stands-without_prefix (translate (upper other raw)) s long stands,
              exact,
              same,
              code.symbols,
              code.checked,
            )
            refl

symbols_of-all :
    (k drawn : ℕ) → (all is_symbol (symbols_of k drawn) ≡ true) × (length (symbols_of k drawn) ≡ k)
unfolding symbols_of
symbols_of-all zero drawn = (refl, refl)
symbols_of-all (suc k) drawn =
    let (symbols, long) = symbols_of-all k drawn in
    (rw (nth-symbol (drawn / 2 ^ (5 * k) % 32) (omega arith), symbols) refl, ap suc long)

-- Whatever bytes are drawn, a code is generated.
pub generate-IsCode : (bytes : List ℕ) → (c : Text) × (generate bytes ≡ some c) × IsCode c
unfolding generate
generate-IsCode bytes =
    let body = symbols_of 20 (from_bytes 0 bytes / 2 ^ 4) in
    let (symbols, long) = symbols_of-all 20 (from_bytes 0 bytes / 2 ^ 4) in
    let m = (32 - sum 2 (reverse body) % 32) % 32 in
    let check : luhn_mod32 body ≡ some (nth m alphabet) = luhn_mod32-sum body symbols in
    let start : take 20 (body ++ nth m alphabet ∷ []) ≡ body =
      take-append_left 20 body (nth m alphabet ∷ []) long in
    let end_ : drop 20 (body ++ nth m alphabet ∷ []) ≡ nth m alphabet ∷ [] =
      drop-append_left 20 body (nth m alphabet ∷ []) long in
    (
      body ++ nth m alphabet ∷ [],
      rw check refl,
      record {
        long = length-append body (nth m alphabet ∷ []) ∙ ap (λ n. n + 1) long;
        symbols =
            all-append is_symbol body (nth m alphabet ∷ [])
            ∙ both body (nth m alphabet) symbols (nth-symbol m (omega arith));
        checked = rw (start, end_, check) (==_refl (nth m alphabet));
      },
    )
  where
    both :
        (s : Text) (c : ℕ)
        → all is_symbol s ≡ true
        → is_symbol c ≡ true
        → (all is_symbol s && all is_symbol (c ∷ [])) ≡ true
    both s c h k = ground arith
