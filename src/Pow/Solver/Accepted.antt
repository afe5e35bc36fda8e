-- ===== src/Pow/Solver/Accepted.antt =====
-- A counter that the workers agree on is one that the gateway accepts.
use opencode_multi_agents.Prelude.{
  ℕ, zero, suc, ◌+◌, ◌-◌, ◌/◌, ◌%◌, ◌^◌, ◌≤◌, ◌<◌, ◌≡◌, ◌∙◌, refl, ap, Bool, true, false, Option,
  none, some, List, [], ◌∷◌, arith, if◌then◌else◌, length, get_elem?, replicate, All, All-imp,
  All-get_elem?, length-append, length-replicate,
}
use opencode_multi_agents.Pow.Bits.{satisfies, leading_zero_bits}
use opencode_multi_agents.Pow.Counter.{format_uint, format_digits}
use opencode_multi_agents.Pow.Challenge.{Challenge, Hashes, is_solved, verify}
use opencode_multi_agents.Pow.Solver.{
  padded, Phase, checking, hashing, storing, finishing, stopped, Solver, put_at, lanes,
  start_solver, hit, advance, step, run_schedule, all_stopped,
}

length-format_digits : (f n : ℕ) (acc : List ℕ) → length (format_digits f n acc) ≤ f + length acc
unfolding format_digits
length-format_digits zero n acc = omega arith
length-format_digits (suc f) n acc =
    ground (arith, length-format_digits f (n / 10) ((n % 10 + b'0') ∷ acc))

length-padded : (n : ℕ) → (10 ≤ length (padded n)) × (length (padded n) ≤ 20)
unfolding padded format_uint
length-padded n = omega (
  arith,
  length-format_digits 20 n [],
  length-append (replicate (10 - length (format_uint n)) b'0') (format_uint n),
  length-replicate {A = ℕ} (10 - length (format_uint n)) b'0',
)

module _ (h : Hashes) (ch : Challenge) where
  -- The gateway accepts the counter as it is sent.
  hit-accepted : (n : ℕ) → hit h ch n ≡ true → is_solved (verify h ch (padded n ∷ [])) ≡ true
  unfolding verify satisfies leading_zero_bits
  hit-accepted n e = ground (arith, e, length-padded n)

  -- What a worker is about to store solves the challenge, and one that is over has found `done`.
  abbrev Fine : ℕ → Bool → Phase → Type 0
  Fine found done (storing n) = hit h ch n ≡ true
  Fine found done finishing = hit h ch found ≡ true
  Fine found done stopped = done ≡ true
  Fine found done _ = Unit {0}

  abbrev IsFine : Solver → Type 0
  IsFine s = All (Fine s.found s.done) s.workers × (s.done ≡ true → hit h ch s.found ≡ true)

  -- A value of `found` that solves the challenge may stand in place of another.
  refound : (f g : ℕ) (d : Bool) → hit h ch g ≡ true → (p : Phase) → Fine f d p → Fine g d p
  refound f g d e (checking n) v = tt
  refound f g d e (hashing n) v = tt
  refound f g d e (storing n) v = v
  refound f g d e finishing v = e
  refound f g d e stopped v = v

  redone : (f : ℕ) (d : Bool) (p : Phase) → Fine f d p → Fine f true p
  redone f d (checking n) v = tt
  redone f d (hashing n) v = tt
  redone f d (storing n) v = v
  redone f d finishing v = v
  redone f d stopped v = refl

  put_at-All :
      (P : Phase → Type 0) (i : ℕ) (p : Phase) (ps : List Phase)
      → P p
      → All P ps
      → All P (put_at i p ps)
  put_at-All P i p [] x v = tt
  put_at-All P zero p (q ∷ ps) x v = (x, v.1)
  put_at-All P (suc i) p (q ∷ ps) x v = (v.0, put_at-All P i p ps x v.1)

  module _ (workers : ℕ) where
    checked-Fine : (f : ℕ) (d : Bool) (n : ℕ) → Fine f d (if d then stopped else hashing n)
    checked-Fine f true n = refl
    checked-Fine f false n = tt

    picked-Fine :
        (f : ℕ) (d : Bool) (n m : ℕ) (b : Bool)
        → (b ≡ true → hit h ch n ≡ true)
        → Fine f d (if b then storing n else checking m)
    picked-Fine f d n m true e = e refl
    picked-Fine f d n m false e = tt

    hashed-Fine :
        (f : ℕ) (d : Bool) (n m : ℕ) → Fine f d (if hit h ch n then storing n else checking m)
    hashed-Fine f d n m = picked-Fine f d n m (hit h ch n) (λ e. e)

    advance-IsFine :
        (i : ℕ) (o : Option Phase) (s : Solver)
        → get_elem? s.workers i ≡ o
        → IsFine s
        → IsFine (advance h ch workers i o s)
    unfolding advance
    advance-IsFine i none s e v = v
    advance-IsFine i (some (checking n)) s e v =
        (put_at-All (Fine s.found s.done) i _ s.workers (checked-Fine s.found s.done n) v.0, v.1)
    advance-IsFine i (some (hashing n)) s e v = (
      put_at-All (Fine s.found s.done) i _ s.workers
          (hashed-Fine s.found s.done n ((n + workers) % 2 ^ 64)) v.0,
      v.1,
    )
    advance-IsFine i (some (storing n)) s e v =
        let solution = All-get_elem? (Fine s.found s.done) s.workers i e v.0 in
        (
          put_at-All (Fine n s.done) i finishing s.workers solution (
              All-imp (Fine s.found s.done) (Fine n s.done) s.workers
                (refound s.found n s.done solution) v.0),
          λ d. solution,
        )
    advance-IsFine i (some finishing) s e v =
        let solution = All-get_elem? (Fine s.found s.done) s.workers i e v.0 in
        (
          put_at-All (Fine s.found true) i stopped s.workers refl (
              All-imp (Fine s.found s.done) (Fine s.found true) s.workers (redone s.found s.done)
                v.0),
          λ d. solution,
        )
    advance-IsFine i (some stopped) s e v = v

    run_schedule-IsFine :
        (is : List ℕ) (s : Solver) → IsFine s → IsFine (run_schedule h ch workers is s)
    unfolding run_schedule
    run_schedule-IsFine [] s v = v
    run_schedule-IsFine (i ∷ is) s v =
        run_schedule-IsFine is (step h ch workers i s)
          (advance-IsFine i (get_elem? s.workers i) s refl v)

    lanes-Fine : (lane n : ℕ) → All (Fine 0 false) (lanes lane n)
    unfolding lanes
    lanes-Fine lane zero = tt
    lanes-Fine lane (suc n) = (tt, lanes-Fine (suc lane) n)

    start-IsFine : IsFine (start_solver workers)
    start-IsFine = (lanes-Fine 0 workers, λ e. cc)

    length-put_at : (i : ℕ) (p : Phase) (ps : List Phase) → length (put_at i p ps) ≡ length ps
    length-put_at i p [] = refl
    length-put_at zero p (q ∷ ps) = refl
    length-put_at (suc i) p (q ∷ ps) = ap suc (length-put_at i p ps)

    length-advance :
        (i : ℕ) (o : Option Phase) (s : Solver)
        → length (advance h ch workers i o s).workers ≡ length s.workers
    unfolding advance
    length-advance i none s = refl
    length-advance i (some (checking n)) s = length-put_at i _ s.workers
    length-advance i (some (hashing n)) s = length-put_at i _ s.workers
    length-advance i (some (storing n)) s = length-put_at i finishing s.workers
    length-advance i (some finishing) s = length-put_at i stopped s.workers
    length-advance i (some stopped) s = refl

    length-run_schedule :
        (is : List ℕ) (s : Solver)
        → length (run_schedule h ch workers is s).workers ≡ length s.workers
    unfolding run_schedule
    length-run_schedule [] s = refl
    length-run_schedule (i ∷ is) s =
        length-run_schedule is (step h ch workers i s) ∙ length-advance i (get_elem? s.workers i) s

    length-lanes : (lane n : ℕ) → length (lanes lane n) ≡ n
    unfolding lanes
    length-lanes lane zero = refl
    length-lanes lane (suc n) = ap suc (length-lanes (suc lane) n)

    -- Workers that are over have left `done` set.
    all_stopped-done :
        (f : ℕ) (d : Bool) (ps : List Phase)
        → 0 < length ps
        → all_stopped ps ≡ true
        → All (Fine f d) ps
        → d ≡ true
    unfolding all_stopped
    all_stopped-done f d [] lt e v = elim lt [ ]
    all_stopped-done f d (stopped ∷ ps) lt e v = v.0
    all_stopped-done f d (checking n ∷ ps) lt e v = cc
    all_stopped-done f d (hashing n ∷ ps) lt e v = cc
    all_stopped-done f d (storing n ∷ ps) lt e v = cc
    all_stopped-done f d (finishing ∷ ps) lt e v = cc

    -- In whatever order the workers take their steps, once all of them are over the counter that they
    -- found, sent in ten digits or more, is one that the gateway's Verify accepts for the challenge.
    -- There is at least one worker.
    pub run_schedule-accepted :
        (is : List ℕ)
        → 0 < workers
        → all_stopped (run_schedule h ch workers is (start_solver workers)).workers ≡ true
        → is_solved
            (verify h ch (padded (run_schedule h ch workers is (start_solver workers)).found ∷ []))
          ≡ true
    run_schedule-accepted is lt e =
        let s = run_schedule h ch workers is (start_solver workers) in
        let v = run_schedule-IsFine is (start_solver workers) start-IsFine in
        let size : length s.workers ≡ workers =
          length-run_schedule is (start_solver workers) ∙ length-lanes 0 workers in
        hit-accepted s.found
          (v.1 (all_stopped-done s.found s.done s.workers (omega (arith, size, lt)) e v.0))
