-- ===== src/Problems/Laws.antt =====
-- How a framework's HTTP status is mapped to the catalogue.
use shaidago.Base.{
  ℕ, ◌≤◌, ◌≡◌, ◌↔◌, ◌⊎◌, inl, inr, arith, refl, Option, some, none, List, [], ◌∷◌, Bool-cases,
  ==_iff, ◌==◌,
}
use shaidago.Problems.{
  Problem, status, known_problem, problem_for_status, internal_error, bad_request, by_status,
  known_or_generic,
}

known_problem_status :
    (n : ℕ) (ps : List Problem) (p : Problem) → known_problem n ps ≡ some p → status p ≡ n
unfolding known_problem
known_problem_status n [] p h = ground arith
known_problem_status n (q ∷ ps) p h = elim (Bool-cases (status q == n)) [
  | inl e ↦ ground (arith, (==_iff (status q) n).0 e)
  | inr e ↦ known_problem_status n ps p (rw e at h)
]

abbrev Classified : ℕ → Problem → Type 0
Classified n p =
    ((status p ≡ n) ⊎ ((p ≡ internal_error) ⊎ (p ≡ bad_request))) × ((500 ≤ n) ↔ (500 ≤ status p))

generic-Classified : (n : ℕ) → Classified n (known_or_generic n none)
unfolding status
generic-Classified n = ground arith

same-Classified : (n : ℕ) (p : Problem) → status p ≡ n → Classified n p
same-Classified n p e = (inl e, rw e (λ h. h, λ h. h))

known_or_generic-Classified :
    (n : ℕ) (o : Option Problem)
    → ((p : Problem) → o ≡ some p → status p ≡ n)
    → Classified n (known_or_generic n o)
known_or_generic-Classified n none h = generic-Classified n
known_or_generic-Classified n (some p) h = same-Classified n p (h p refl)

-- A status is answered with the problem of that very status or with a generic one, and as a fault
-- of the server exactly when it is 500 or more.
pub problem_for_status-class :
    (n : ℕ)
    → ((status (problem_for_status n) ≡ n)
        ⊎ ((problem_for_status n ≡ internal_error) ⊎ (problem_for_status n ≡ bad_request)))
      × ((500 ≤ n) ↔ (500 ≤ status (problem_for_status n)))
unfolding problem_for_status
problem_for_status-class n =
    known_or_generic-Classified n (known_problem n by_status) (known_problem_status n by_status)
