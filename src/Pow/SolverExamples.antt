-- ===== src/Pow/SolverExamples.antt =====
-- The theorems on the solver, with two workers and a hash by which the counters that end in 3 are
-- solutions.
use opencode_multi_agents.Prelude.{ℕ, ◌+◌, ◌-◌, ◌≡◌, refl, true, List, [], ◌∷◌, arith}
use opencode_multi_agents.Prelude.Int.{pos}
use opencode_multi_agents.Pow.Bits.{leading_zero_bits}
use opencode_multi_agents.Pow.Challenge.{
  Challenge, Hashes, is_solved, verify, preimage, digest, format_int,
}
use opencode_multi_agents.Pow.Solver.{padded, start_solver, run_schedule, all_stopped, lanes}
use opencode_multi_agents.Pow.Solver.Accepted.{run_schedule-accepted}
use opencode_multi_agents.Pow.Solver.Reaches.{turns, run_schedule-reaches}

last_of : ℕ → List ℕ → ℕ
last_of c [] = c
last_of c (d ∷ s) = last_of d s

abbrev by_last : List ℕ → List ℕ
by_last s = ((last_of 0 s - b'3') + (b'3' - last_of 0 s)) ∷ []

abbrev last_hash : Hashes
last_hash = record { sha256 = by_last; blake3 = by_last }

abbrev task : Challenge
task = record {
  version = 1;
  id = "c1";
  resource = "api-key";
  algo = "blake3";
  difficulty = pos 8;
  salt = "S";
  bind = "B";
  issued_at = 0;
  expires_at = 100;
  plan = "";
}

-- The second worker finds 3, while the first goes on to 2.
abbrev interleaving : List ℕ
interleaving = 1 ∷ 1 ∷ 0 ∷ 1 ∷ 1 ∷ 0 ∷ 1 ∷ 1 ∷ 0 ∷ []

run_schedule-accepted_example :
    is_solved (
      verify last_hash task
        (padded (run_schedule last_hash task 2 interleaving (start_solver 2)).found ∷ []))
    ≡ true
unfolding run_schedule all_stopped digest preimage padded leading_zero_bits last_of lanes format_int
run_schedule-accepted_example =
    run_schedule-accepted last_hash task 2 interleaving (omega arith) refl

run_schedule-reaches_example :
    (run_schedule last_hash task 2 (turns last_hash task 2 1 2) (start_solver 2)).done ≡ true
unfolding digest preimage padded leading_zero_bits last_of lanes format_int
run_schedule-reaches_example =
    run_schedule-reaches last_hash task 2 3 (omega arith) (omega arith) refl
