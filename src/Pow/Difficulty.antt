-- ===== src/Pow/Difficulty.antt =====
-- internal/pow/difficulty.go: the adaptive difficulty. Go's float64 has no counterpart here: the
-- type and its operations are a parameter, of which nothing is assumed. Readings of the clock are
-- arguments, in nanoseconds.
pub mod Bounds
use opencode_multi_agents.Prelude.{
  ℕ, suc, ◌+◌, ◌-◌, ◌*◌, Bool, true, false, ◌&&◌, ◌||◌, not, List, [], ◌∷◌, ltb, leb, ◌==◌,
  if◌then◌else◌,
}
use opencode_multi_agents.Prelude.Int.{ℤ, pos, negsuc, ◌+ℤ◌, ltb_ℤ}

pub record Float : Type 1 where
  pub F : Type 0
  pub zero : F
  -- a constant, by numerator and denominator
  pub literal : ℕ → ℕ → F
  pub add : F → F → F
  pub sub : F → F → F
  pub mul : F → F → F
  pub div : F → F → F
  pub lt : F → F → Bool
  -- `time.Duration.Seconds`, of a duration in nanoseconds
  pub seconds : ℤ → F
  -- the conversion from an integer, and back with truncation
  pub of_int : ℕ → F
  pub truncate : F → ℤ

-- The base and the sample count, after a sample: at most one bit, once there are five samples.
pub retarget : Bool → Bool → ℕ → ℤ → ℤ → ℤ → ℤ × ℕ
retarget fast slow n lo hi base =
    if ltb n 5
    then (base, n)
    else if fast && ltb_ℤ base hi
    then (base +ℤ pos 1, 0)
    else if slow && ltb_ℤ lo base
    then (base +ℤ negsuc 0, 0)
    else (base, n)

module _ (f : Float) where
  open f use {F, zero, literal, add, mul, lt, seconds}

  pub record Difficulty : Type 0 where
    pub base : ℤ
    pub min : ℤ
    pub max : ℤ
    pub target_min : F
    pub target_max : F
    pub ewma : F
    pub ewma_count : ℕ
    pub escalation : ℤ
    pub escalate_until : ℕ

  -- `if x < lo { x = lo }; if x > hi { x = hi }`
  abbrev pub clamp : ℤ → ℤ → ℤ → ℤ
  clamp lo hi x = let y = if ltb_ℤ x lo then lo else x in if ltb_ℤ hi y then hi else y

  abbrev bounded : ℤ → ℤ → ℤ → F → F → Difficulty
  bounded base lo hi target_min target_max = record {
    base = clamp lo hi base;
    min = lo;
    max = hi;
    target_min = target_min;
    target_max = target_max;
    ewma = zero;
    ewma_count = 0;
    escalation = pos 0;
    escalate_until = 0;
  }

  -- NewDifficulty: the bounds are swapped if they are the wrong way round
  unfoldable pub new_difficulty : ℤ → ℤ → ℤ → F → F → Difficulty
  new_difficulty base lo hi target_min target_max =
      if ltb_ℤ hi lo
      then bounded base hi lo target_min target_max
      else bounded base lo hi target_min target_max

  -- Current
  unfoldable pub current : ℤ → ℤ → Difficulty → ℤ
  current plan_bits ip_bonus d = clamp d.min d.max (d.base +ℤ plan_bits +ℤ d.escalation +ℤ ip_bonus)

  -- The moving average after one more sample.
  abbrev sampled : F → Difficulty → Difficulty
  sampled secs d = record d {
    ewma =
        if d.ewma_count == 0 then secs else add (mul (literal 1 5) secs) (mul (literal 4 5) d.ewma);
    ewma_count = d.ewma_count + 1;
  }

  -- The adjustment, with the outcomes of the two comparisons.
  adjust : Difficulty → Difficulty
  unfolding retarget
  adjust d =
      let (b, n) =
        retarget (lt d.ewma d.target_min) (lt d.target_max d.ewma) d.ewma_count d.min d.max
          d.base in
      record d { base = b; ewma_count = n }

  -- RecordSolve, of a duration in nanoseconds
  unfoldable pub record_solve : ℤ → Difficulty → Difficulty
  unfolding adjust
  record_solve elapsed d =
      if lt (seconds elapsed) zero || lt (literal 86400 1) (seconds elapsed)
      then d
      else adjust (sampled (seconds elapsed) d)

  -- Escalate, with the clock as it is read at each place
  unfoldable pub escalate : ℕ → ℕ → ℕ → ℕ → ℤ → ℕ → Difficulty → Difficulty
  escalate t1 t2 t3 t4 bits duration d =
      if ltb_ℤ (pos 0) bits
      then (record d {
        escalation =
            if ltb_ℤ d.escalation bits || ltb d.escalate_until t1 then bits else d.escalation;
        escalate_until =
            if ltb d.escalate_until (t2 + duration) || ltb d.escalate_until t3
            then t4 + duration
            else d.escalate_until;
      })
      else d

  -- Escalated: what has run out is cleared
  unfoldable pub escalated : ℕ → Difficulty → ℤ × Difficulty
  escalated now d =
      if ltb now d.escalate_until
      then (d.escalation, d)
      else (pos 0, record d { escalation = pos 0 })
