-- ===== src/Pow/Solver/Reaches.antt =====
-- Every counter of a lane is reached, and a solution that is 0 is lost.
use opencode_multi_agents.Prelude.{
  ℕ, zero, suc, ◌+◌, ◌*◌, ◌/◌, ◌%◌, ◌^◌, ◌<◌, ◌≡◌, ◌∙◌, refl, ap, subst, Bool, true, false, Option,
  none, some, List, [], ◌∷◌, arith, if◌then◌else◌, get_elem?, Bool-cases, inl, inr,
}
use native.Mathlib.Nat.{mod-eq_of_lt, mod-lt, div-add-mod'}
use opencode_multi_agents.Pow.Challenge.{Challenge, Hashes}
use opencode_multi_agents.Pow.Solver.{
  Phase, checking, hashing, storing, finishing, stopped, Solver, put_at, lanes, start_solver, hit,
  advance, step, run_schedule,
}

module _ (h : Hashes) (ch : Challenge) (workers : ℕ) where
  -- Once `done` is set, it stays so.
  advance_done :
      (i : ℕ) (o : Option Phase) (s : Solver)
      → s.done ≡ true
      → (advance h ch workers i o s).done ≡ true
  unfolding advance
  advance_done i none s e = e
  advance_done i (some (checking n)) s e = e
  advance_done i (some (hashing n)) s e = e
  advance_done i (some (storing n)) s e = e
  advance_done i (some finishing) s e = refl
  advance_done i (some stopped) s e = e

  run_schedule_done :
      (is : List ℕ) (s : Solver) → s.done ≡ true → (run_schedule h ch workers is s).done ≡ true
  unfolding run_schedule
  run_schedule_done [] s e = e
  run_schedule_done (i ∷ is) s e =
      run_schedule_done is (step h ch workers i s) (advance_done i (get_elem? s.workers i) s e)

  get_elem?-put_at :
      (i : ℕ) (p : Phase) (ps : List Phase) {q : Phase}
      → get_elem? ps i ≡ some q
      → get_elem? (put_at i p ps) i ≡ some p
  get_elem?-put_at i p [] e = cc
  get_elem?-put_at zero p (q ∷ ps) e = refl
  get_elem?-put_at (suc i) p (q ∷ ps) {q = r} e = get_elem?-put_at i p ps {q = r} e

  -- What a worker does next.
  abbrev At : ℕ → Phase → Solver → Type 0
  At i p s = get_elem? s.workers i ≡ some p

  step_is :
      (i : ℕ) (is : List ℕ) (p : Phase) (s : Solver)
      → At i p s
      → run_schedule h ch workers (i ∷ is) s
        ≡ run_schedule h ch workers is (advance h ch workers i (some p) s)
  unfolding run_schedule
  step_is i is p s e = ap (λ o. run_schedule h ch workers is (advance h ch workers i o s)) e

  IsDone : List ℕ → Solver → Type 0
  IsDone is s = (run_schedule h ch workers is s).done ≡ true

  from_finishing : (i : ℕ) (is : List ℕ) (s : Solver) → At i finishing s → IsDone (i ∷ is) s
  unfolding IsDone advance
  from_finishing i is s e =
      ap (λ (t : Solver). t.done) (step_is i is finishing s e)
      ∙ run_schedule_done is (advance h ch workers i (some finishing) s) refl

  from_storing : (i n : ℕ) (is : List ℕ) (s : Solver) → At i (storing n) s → IsDone (i ∷ i ∷ is) s
  unfolding IsDone advance
  from_storing i n is s e =
      ap (λ (t : Solver). t.done) (step_is i (i ∷ is) (storing n) s e)
      ∙ from_finishing i is (advance h ch workers i (some (storing n)) s)
          (get_elem?-put_at i finishing s.workers {q = storing n} e)

  -- Two steps for each counter, and two more.
  abbrev pub turns : ℕ → ℕ → List ℕ
  turns i zero = i ∷ i ∷ []
  turns i (suc k) = i ∷ i ∷ turns i k

  turns-storing : (i k n : ℕ) (s : Solver) → At i (storing n) s → IsDone (turns i k) s
  turns-storing i zero n s e = from_storing i n [] s e
  turns-storing i (suc k) n s e = from_storing i n (turns i k) s e

  -- After its hash, the worker stores the counter or goes on to the next of its lane.
  hashed_next :
      (i c : ℕ) (is : List ℕ) (s : Solver)
      → At i (hashing c) s
      → ((t : Solver) → At i (storing c) t → IsDone is t)
      → ((t : Solver)
          → hit h ch c ≡ false
          → At i (checking ((c + workers) % 2 ^ 64)) t
          → IsDone is t)
      → IsDone (i ∷ is) s
  unfolding IsDone advance
  hashed_next i c is s e yes_hit no_hit = elim (Bool-cases (hit h ch c)) [
    | inl b ↦
        ap (λ (t : Solver). t.done) (step_is i is (hashing c) s e)
        ∙ yes_hit (advance h ch workers i (some (hashing c)) s) (
            get_elem?-put_at i _ s.workers {q = hashing c} e
            ∙ ap (λ (b : Bool). some (if b then storing c else checking ((c + workers) % 2 ^ 64)))
                b)
    | inr b ↦
        ap (λ (t : Solver). t.done) (step_is i is (hashing c) s e)
        ∙ no_hit (advance h ch workers i (some (hashing c)) s) b (
            get_elem?-put_at i _ s.workers {q = hashing c} e
            ∙ ap (λ (b : Bool). some (if b then storing c else checking ((c + workers) % 2 ^ 64)))
                b)
  ]

  checked_next :
      (i c : ℕ) (is : List ℕ) (s : Solver)
      → At i (checking c) s
      → ((t : Solver) → At i (hashing c) t → IsDone is t)
      → IsDone (i ∷ is) s
  unfolding IsDone advance
  checked_next i c is s e next = elim (Bool-cases s.done) [
    | inl d ↦ run_schedule_done (i ∷ is) s d
    | inr d ↦
        ap (λ (t : Solver). t.done) (step_is i is (checking c) s e)
        ∙ next (advance h ch workers i (some (checking c)) s) (
            get_elem?-put_at i _ s.workers {q = checking c} e
            ∙ ap (λ (b : Bool). some (if b then stopped else hashing c)) d)
  ]

  -- A worker that takes the steps for k + 1 counters leaves `done` set if the last of them is a
  -- solution and fits in 64 bits, however the workers stand before.
  reaches :
      (k i c : ℕ) (s : Solver)
      → At i (checking c) s
      → hit h ch (c + k * workers) ≡ true
      → c + k * workers < 2 ^ 64
      → IsDone (turns i (suc k)) s
  reaches zero i c s e solution small =
      let here : hit h ch c ≡ true = subst (λ n. hit h ch n ≡ true) (omega arith) solution in
      checked_next i c (i ∷ turns i zero) s e (λ t e'.
        hashed_next i c (turns i zero) t e' (λ u e''. turns-storing i zero c u e'')
          (λ u b e''. absurd (ground (arith, here, b))))
  reaches (suc k) i c s e solution small =
      let next : c + suc k * workers ≡ c + workers + k * workers = grind arith in
      checked_next i c (i ∷ turns i (suc k)) s e (λ t e'.
        hashed_next i c (turns i (suc k)) t e' (λ u e''. turns-storing i (suc k) c u e'')
          (λ u b e''.
            reaches k i (c + workers) u
              (e'' ∙ ap (λ n. some (checking n)) (mod-eq_of_lt (omega (arith, next, small))))
              (subst (λ n. hit h ch n ≡ true) next solution) (omega (arith, next, small))))

  lane-checking : (lane n i : ℕ) → i < n → get_elem? (lanes lane n) i ≡ some (checking (lane + i))
  unfolding lanes
  lane-checking lane zero i lt = elim lt [ ]
  lane-checking lane (suc n) zero lt = ap (λ k. some (checking k)) (omega arith)
  lane-checking lane (suc n) (suc i) lt =
      lane-checking (suc lane) n i (omega arith) ∙ ap (λ k. some (checking k)) (omega arith)

  -- No solution is out of reach: each counter below 2^64 lies in the lane of one of the workers, and if
  -- it is a solution, that worker sets `done` within two steps for each counter of its lane up to it
  -- and two more, even if no other worker takes a step. There is at least one worker.
  pub run_schedule-reaches :
      (n : ℕ)
      → 0 < workers
      → n < 2 ^ 64
      → hit h ch n ≡ true
      → (run_schedule h ch workers
          (turns (n % workers) (suc (n / workers)))
          (start_solver workers)).done
        ≡ true
  unfolding IsDone
  run_schedule-reaches n lt small solution =
      let q = div-add-mod' n workers in
      let below = mod-lt n {m = workers} lt in
      let same : n ≡ n % workers + n / workers * workers = omega (arith, q) in
      reaches (n / workers) (n % workers) (n % workers) (start_solver workers)
        (lane-checking 0 workers (n % workers) below ∙ ap (λ k. some (checking k)) (omega arith))
        (subst (λ k. hit h ch k ≡ true) same solution) (omega (arith, same, small))
