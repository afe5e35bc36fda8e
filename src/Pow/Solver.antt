-- ===== src/Pow/Solver.antt =====
-- cmd/powsolver/main.go: the client that solves a challenge with several workers. Each access to the
-- shared variables `found` and `done` is a step of its own, so a list of workers' indices, in the
-- order of their steps, stands for one interleaving. The progress that is printed is left out.
pub mod Accepted
pub mod Reaches
use opencode_multi_agents.Prelude.{
  ℕ, zero, suc, ◌+◌, ◌-◌, ◌%◌, ◌^◌, Bool, true, false, ◌&&◌, not, Option, none, some, List, [], ◌∷◌,
  ◌++◌, ◌==◌, if◌then◌else◌, length, get_elem?, replicate,
}
use opencode_multi_agents.Prelude.Int.{pos, ltb_ℤ}
use opencode_multi_agents.Pow.Counter.{format_uint}
use opencode_multi_agents.Pow.Bits.{leading_zero_bits}
use opencode_multi_agents.Pow.Challenge.{Challenge, Hashes, preimage, digest}

-- "%010d", of a uint64
unfoldable pub padded : ℕ → List ℕ
unfolding format_uint
padded counter = let s = format_uint counter in replicate (10 - length s) b'0' ++ s

-- leadingZeroBits: the loops of LeadingZeroBits once more
abbrev pub solver_zero_bits : List ℕ → ℕ
solver_zero_bits digest = leading_zero_bits digest

-- What a worker does next: load `done`, hash a counter, store it, or store `done`; or it is over.
pub data Phase : Type 0 where
  checking hashing storing : ℕ → Phase
  finishing stopped : Phase

pub record Solver : Type 0 where
  pub workers : List Phase
  pub found : ℕ
  pub done : Bool

abbrev pub put_at : ℕ → Phase → List Phase → List Phase
put_at i p [] = []
put_at zero p (q ∷ qs) = p ∷ qs
put_at (suc i) p (q ∷ qs) = q ∷ put_at i p qs

-- The workers' first counters are their lanes.
unfoldable pub lanes : ℕ → ℕ → List Phase
lanes lane zero = []
lanes lane (suc n) = checking lane ∷ lanes (suc lane) n

abbrev pub start_solver : ℕ → Solver
start_solver workers = record { workers = lanes 0 workers; found = 0; done = false }

module _ (h : Hashes) (ch : Challenge) where
  -- The hash of a counter meets the difficulty.
  abbrev pub hit : ℕ → Bool
  hit counter =
      not
        (ltb_ℤ (pos (solver_zero_bits (digest h ch (preimage ch (padded counter))))) ch.difficulty)

  module _ (workers : ℕ) where
    -- One step of the i-th worker, by what it does next.
    unfoldable pub advance : ℕ → Option Phase → Solver → Solver
    advance i none s = s
    advance i (some (checking counter)) s = record s {
      workers = put_at i (if s.done then stopped else hashing counter) s.workers;
    }
    advance i (some (hashing counter)) s = record s {
      workers =
          put_at i
            (if hit counter then storing counter else checking ((counter + workers) % 2 ^ 64))
            s.workers;
    }
    advance i (some (storing counter)) s = record s {
      workers = put_at i finishing s.workers;
      found = counter;
    }
    advance i (some finishing) s = record s { workers = put_at i stopped s.workers; done = true }
    advance i (some stopped) s = s

    abbrev pub step : ℕ → Solver → Solver
    step i s = advance i (get_elem? s.workers i) s

    unfoldable pub run_schedule : List ℕ → Solver → Solver
    unfolding advance
    run_schedule [] s = s
    run_schedule (i ∷ is) s = run_schedule is (step i s)

abbrev pub is_stopped : Phase → Bool
is_stopped stopped = true
is_stopped _ = false

-- What wg.Wait waits for.
unfoldable pub all_stopped : List Phase → Bool
all_stopped [] = true
all_stopped (p ∷ ps) = is_stopped p && all_stopped ps

-- What main makes of it: the counter that is redeemed, or "no solution found"
abbrev pub outcome : Solver → Option ℕ
outcome s = if s.found == 0 then none else some s.found
