-- ===== src/Pow/Difficulty/Bounds.antt =====
-- The difficulty stays within its bounds, follows the tiers, and keeps an escalation for good.
use opencode_multi_agents.Prelude.{
  ℕ, ◌+◌, ◌≤◌, ◌≡◌, ◌⊎◌, ◌∙◌, refl, Bool, ◌||◌, List, [], ◌∷◌, arith, ltb, Bool-cases, inl, inr,
}
use opencode_multi_agents.Prelude.Int.{ℤ, pos, negsuc, ◌+ℤ◌, ◌≤ℤ◌, ltb_ℤ, +ℤ_parts}
use opencode_multi_agents.Pow.Difficulty.{
  Float, Difficulty, clamp, new_difficulty, retarget, current, record_solve, escalate,
}

clamp_range :
    (f : Float) (lo hi x : ℤ) → lo ≤ℤ hi → (lo ≤ℤ clamp f lo hi x) × (clamp f lo hi x ≤ℤ hi)
clamp_range f lo hi x h = ground arith

-- The base lies between the bounds.
abbrev pub IsBounded : (f : Float) → Difficulty f → Type 0
IsBounded f d = (d.min ≤ℤ d.base) × (d.base ≤ℤ d.max)

-- The base stays, or moves by one bit with at least the fifth sample, and the count starts anew.
abbrev pub Moves : ℤ → ℕ → ℤ → ℕ → Type 0
Moves base n base' n' =
    (base' ≡ base) ⊎ ((4 ≤ n) × (n' ≡ 0) × (base' ≤ℤ base +ℤ pos 1) × (base ≤ℤ base' +ℤ pos 1))

retarget_lem :
    (fast slow : Bool) (n : ℕ) (lo hi base : ℤ)
    → lo ≤ℤ base
    → base ≤ℤ hi
    → let r = retarget fast slow (n + 1) lo hi base in
      ((lo ≤ℤ r.0) × (r.0 ≤ℤ hi)) × Moves base n r.0 r.1
unfolding retarget
retarget_lem fast slow n lo hi base h h' = ground (
  arith,
  +ℤ_parts base (pos 1),
  +ℤ_parts base (negsuc 0),
  +ℤ_parts (base +ℤ negsuc 0) (pos 1),
  +ℤ_parts (base +ℤ pos 1) (pos 1),
)

module _ (f : Float) where
  open f use {F}

  -- A new controller is bounded, whatever the configuration.
  pub new_difficulty-IsBounded :
      (base lo hi : ℤ) (tmin tmax : F) → IsBounded f (new_difficulty f base lo hi tmin tmax)
  unfolding new_difficulty
  new_difficulty-IsBounded base lo hi tmin tmax = ground arith

  -- Whatever the arithmetic of floating-point numbers gives, a recorded solve keeps the base within
  -- its bounds, moves it by at most one bit, and only with the fifth sample or a later one since
  -- it last moved.
  pub record_solve-IsBounded :
      (elapsed : ℤ) (d : Difficulty f)
      → IsBounded f d
      → let d' = record_solve f elapsed d in
        IsBounded f d' × Moves d.base d.ewma_count d'.base d'.ewma_count
  unfolding record_solve
  record_solve-IsBounded elapsed d h =
      elim (Bool-cases
        (f.lt (f.seconds elapsed) f.zero || f.lt (f.literal 86400 1) (f.seconds elapsed))) [
          | inl skip ↦ rw skip (h, inl refl)
          | inr take ↦ rw take (retarget_lem _ _ d.ewma_count d.min d.max d.base h.0 h.1)
        ]

  -- The difficulty of a challenge lies within the bounds, whatever the tier, the farming penalty and
  -- the escalation add.
  pub current_range :
      (plan_bits ip_bonus : ℤ) (d : Difficulty f)
      → IsBounded f d
      → (d.min ≤ℤ current f plan_bits ip_bonus d) × (current f plan_bits ip_bonus d ≤ℤ d.max)
  unfolding current
  current_range plan_bits ip_bonus d h =
      clamp_range f d.min d.max (d.base +ℤ plan_bits +ℤ d.escalation +ℤ ip_bonus) (omega arith)

  -- What the gateway does to the controller: it records solves, and it escalates by two bits on a
  -- flood of challenges, the clock being read four times.
  pub data Event : Type 0 where
    solve : ℤ → Event
    flood : ℕ → ℕ → ℕ → ℕ → ℕ → Event

  unfoldable pub run : List Event → Difficulty f → Difficulty f
  run [] d = d
  run (solve elapsed ∷ es) d = run es (record_solve f elapsed d)
  run (flood t1 t2 t3 t4 duration ∷ es) d = run es (escalate f t1 t2 t3 t4 (pos 2) duration d)

  escalation-solve :
      (elapsed : ℤ) (d : Difficulty f) → (record_solve f elapsed d).escalation ≡ d.escalation
  unfolding record_solve
  escalation-solve elapsed d =
      elim (Bool-cases
        (f.lt (f.seconds elapsed) f.zero || f.lt (f.literal 86400 1) (f.seconds elapsed))) [
          | inl skip ↦ rw skip refl
          | inr take ↦ rw take refl
        ]

  escalation-flood :
      (t1 t2 t3 t4 duration : ℕ) (d : Difficulty f)
      → d.escalation ≡ pos 2
      → (escalate f t1 t2 t3 t4 (pos 2) duration d).escalation ≡ pos 2
  unfolding escalate
  escalation-flood t1 t2 t3 t4 duration d h =
      elim (Bool-cases (ltb_ℤ d.escalation (pos 2) || ltb d.escalate_until t1)) [
        | inl new ↦ rw new refl
        | inr old ↦ rw old h
      ]

  -- Once a flood has escalated the difficulty by two bits, the two bits stay in every later
  -- challenge's difficulty, however much time passes: no event of the gateway takes them back.
  pub run-escalated :
      (es : List Event) (p b : ℤ) (d : Difficulty f)
      → d.escalation ≡ pos 2
      → let d' = run es d in current f p b d' ≡ clamp f d'.min d'.max (d'.base +ℤ p +ℤ pos 2 +ℤ b)
  unfolding run current
  run-escalated [] p b d h = rw h refl
  run-escalated (solve elapsed ∷ es) p b d h =
      run-escalated es p b (record_solve f elapsed d) (escalation-solve elapsed d ∙ h)
  run-escalated (flood t1 t2 t3 t4 duration ∷ es) p b d h =
      run-escalated es p b (escalate f t1 t2 t3 t4 (pos 2) duration d)
        (escalation-flood t1 t2 t3 t4 duration d h)
