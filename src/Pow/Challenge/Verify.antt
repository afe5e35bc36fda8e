-- ===== src/Pow/Challenge/Verify.antt =====
-- Verify accepts exactly the solutions among the first eight counters.
use opencode_multi_agents.Prelude.{
  ℕ, ◌≡◌, ◌↔◌, true, List, [], ◌∷◌, arith, take, Bool-cases, inl, inr,
}
use opencode_multi_agents.Prelude.Int.{ℤ, pos, ◌≤ℤ◌}
use opencode_multi_agents.Pow.Bits.{satisfies}
use opencode_multi_agents.Pow.Challenge.{
  Challenge, Hashes, Verified, solved, is_solved, solves, first_solution, verify,
}

-- Some counter of the list solves the challenge.
pub data Solvable (h : Hashes) (c : Challenge) : List (List ℕ) → Type 0 where
  now : (x : List ℕ) (xs : List (List ℕ)) → solves h c x ≡ true → Solvable h c (x ∷ xs)
  later : (x : List ℕ) {xs : List (List ℕ)} → Solvable h c xs → Solvable h c (x ∷ xs)

abbrev pub IsSolved : Verified → ℤ → Type 0
IsSolved (solved n) d = d ≤ℤ pos n
IsSolved _ d = ⊥

first_solution-IsSolved :
    (h : Hashes) (c : Challenge) (xs : List (List ℕ))
    → Solvable h c xs
    → IsSolved (first_solution h c xs) c.difficulty
unfolding first_solution satisfies
first_solution-IsSolved h c [] s = elim s [ ]
first_solution-IsSolved h c (x ∷ xs) (now _ _ e) = ground arith
first_solution-IsSolved h c (x ∷ xs) (later _ s) = ground (arith, first_solution-IsSolved h c xs s)

first_solution-Solvable :
    (h : Hashes) (c : Challenge) (xs : List (List ℕ))
    → IsSolved (first_solution h c xs) c.difficulty
    → Solvable h c xs
unfolding first_solution
first_solution-Solvable h c [] s = absurd s
first_solution-Solvable h c (x ∷ xs) s = elim (Bool-cases (solves h c x)) [
  | inl e ↦ now x xs e
  | inr e ↦ later x (first_solution-Solvable h c xs (ground arith))
]

accepted-Solvable :
    (h : Hashes) (c : Challenge) (xs : List (List ℕ))
    → is_solved (first_solution h c xs) ≡ true
    → Solvable h c xs
unfolding first_solution
accepted-Solvable h c [] s = ground (arith, s)
accepted-Solvable h c (x ∷ xs) s = elim (Bool-cases (solves h c x)) [
  | inl e ↦ now x xs e
  | inr e ↦ later x (accepted-Solvable h c xs (ground arith))
]

-- An accepted list of counters has a solution among its first eight.
pub verify-Solvable :
    (h : Hashes) (c : Challenge) (xs : List (List ℕ))
    → is_solved (verify h c xs) ≡ true
    → Solvable h c (take 8 xs)
unfolding verify
verify-Solvable h c [] s = ground (arith, s)
verify-Solvable h c (x ∷ xs) s = accepted-Solvable h c (take 8 (x ∷ xs)) s

-- Verify succeeds exactly if one of the first eight counters, of 1 to 20 bytes, hashes to a digest
-- that meets the difficulty; the number of bits it reports is then at least the difficulty.
pub verify_iff :
    (h : Hashes) (c : Challenge) (xs : List (List ℕ))
    → Solvable h c (take 8 xs) ↔ IsSolved (verify h c xs) c.difficulty
unfolding verify
verify_iff h c [] = (λ s. elim s [ ], λ s. absurd s)
verify_iff h c (x ∷ xs) =
    (first_solution-IsSolved h c (take 8 (x ∷ xs)), first_solution-Solvable h c (take 8 (x ∷ xs)))
