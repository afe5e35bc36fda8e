-- ===== src/Pow/Limits/Window.antt =====
-- What the limits of a key guarantee: a burst starts a cooldown that lasts, and the window of recent
-- requests never holds more than are allowed in a second.
use opencode_multi_agents.Prelude.{
  ℕ, ◌+◌, ◌≤◌, ◌<◌, ◌≡◌, refl, String, true, Option, none, some, [], ◌∷◌, arith, Bool-cases, inl,
  inr, ltb, length, ◌++◌,
}
use opencode_multi_agents.Prelude.Int.{ℤ, pos, sub_ℕ, ltb_ℤ, pos_part}
use opencode_multi_agents.Prelude.Map.{lookup, insert, lookup-insert, delete, lookup-insert_self}
use opencode_multi_agents.Pow.Difficulty.{Float}
use opencode_multi_agents.Pow.Service.{PowConfig, PowService}
use opencode_multi_agents.Pow.Limits.{
  key_cooldown, recent, window, charge, burst, cooling, check_key_limits,
}

module _ (f : Float) (cfg : PowConfig) where
  burst_state : String → ℕ → PowService f → PowService f
  burst_state key now s = record s {
    cooldowns = insert key (now + pos_part cfg.burst_cooldown) s.cooldowns;
    burst_win = insert key [] s.burst_win;
  }

  burst_first :
      (key : String) (rpm : ℤ) (now later : ℕ) (s : PowService f)
      → ltb_ℤ (pos 0) rpm ≡ true
      → ltb_ℤ (pos 0) cfg.burst_rps ≡ true
      → ltb_ℤ (pos 0) cfg.burst_cooldown ≡ true
      → lookup key s.cooldowns ≡ none
      → ltb_ℤ cfg.burst_rps
          (pos (length (recent now (window (lookup key s.burst_win)) ++ (now ∷ []))))
        ≡ true
      → check_key_limits f cfg key rpm now later s
        ≡ (key_cooldown cfg.burst_cooldown, burst_state key now s)
  unfolding check_key_limits cooling burst burst_state
  burst_first key rpm now later s a b c e g = rw (a, e, b, c, g) refl

  burst_next :
      (key : String) (rpm : ℤ) (now' later' until : ℕ) (s : PowService f)
      → ltb_ℤ (pos 0) rpm ≡ true
      → lookup key s.cooldowns ≡ some until
      → ltb now' until ≡ true
      → check_key_limits f cfg key rpm now' later' s ≡ (key_cooldown (sub_ℕ until later'), s)
  unfolding check_key_limits cooling
  burst_next key rpm now' later' until s a e l = rw (a, e, l) refl

  -- The request of a key that exceeds the burst limit is told to wait, and so is, without any change
  -- of the state, every request of the key before the cooldown is over.
  pub check_key_limits-burst :
      (key : String) (rpm : ℤ) (now later now' later' : ℕ) (s : PowService f)
      → ltb_ℤ (pos 0) rpm ≡ true
      → ltb_ℤ (pos 0) cfg.burst_rps ≡ true
      → ltb_ℤ (pos 0) cfg.burst_cooldown ≡ true
      → lookup key s.cooldowns ≡ none
      → ltb_ℤ cfg.burst_rps
          (pos (length (recent now (window (lookup key s.burst_win)) ++ (now ∷ []))))
        ≡ true
      → now' < now + pos_part cfg.burst_cooldown
      → let r = check_key_limits f cfg key rpm now later s in
        (r.0 ≡ key_cooldown cfg.burst_cooldown)
        × (check_key_limits f cfg key rpm now' later' r.1
            ≡ (key_cooldown (sub_ℕ (now + pos_part cfg.burst_cooldown) later'), r.1))
  unfolding burst_state
  check_key_limits-burst key rpm now later now' later' s a b c e g l =
      let z = burst_first key rpm now later s a b c e g in
      rw z (
        refl,
        burst_next key rpm now' later' (now + pos_part cfg.burst_cooldown) (burst_state key now s) a
            (lookup-insert_self key _ s.cooldowns) (ground arith),
      )

  -- The window of a key.
  abbrev seen : String → PowService f → ℕ
  seen j s = length (window (lookup j s.burst_win))

  charge-seen :
      (key j : String) (rpm : ℤ) (now : ℕ) (s : PowService f)
      → seen j (charge f cfg key rpm now s).1 ≡ seen j s
  unfolding charge
  charge-seen key j rpm now s = ground arith

  burst-seen :
      (key j : String) (rpm : ℤ) (now : ℕ) (s : PowService f) (n : ℕ)
      → cfg.burst_rps ≡ pos n
      → seen j s ≤ n
      → seen j (burst f cfg key rpm now s).1 ≤ n
  unfolding burst
  burst-seen key j rpm now s n e l =
      let ts = recent now (window (lookup key s.burst_win)) ++ (now ∷ []) in
      ground (
        arith,
        e,
        l,
        charge-seen key j rpm now s,
        charge-seen key j rpm now (record s { burst_win = insert key ts s.burst_win }),
        lookup-insert key j ts s.burst_win,
        lookup-insert key j [] s.burst_win,
      )

  cooling-seen :
      (key j : String) (rpm : ℤ) (now later : ℕ) (o : Option ℕ) (s : PowService f) (n : ℕ)
      → cfg.burst_rps ≡ pos n
      → seen j s ≤ n
      → seen j (cooling f cfg key rpm now later o s).1 ≤ n
  unfolding cooling
  cooling-seen key j rpm now later none s n e l = burst-seen key j rpm now s n e l
  cooling-seen key j rpm now later (some until) s n e l = elim (Bool-cases (ltb now until)) [
    | inl x ↦ rw x l
    | inr x ↦
        rw x (burst-seen key j rpm now (record s { cooldowns = delete key s.cooldowns }) n e l)
  ]

  -- The burst window of a key never holds more requests than the limit, if the limit is on: a request
  -- of any key leaves it so.
  pub check_key_limits-fits :
      (key j : String) (rpm : ℤ) (now later : ℕ) (s : PowService f) (n : ℕ)
      → cfg.burst_rps ≡ pos n
      → length (window (lookup j s.burst_win)) ≤ n
      → length (window (lookup j (check_key_limits f cfg key rpm now later s).1.burst_win)) ≤ n
  unfolding check_key_limits
  check_key_limits-fits key j rpm now later s n e l = elim (Bool-cases (ltb_ℤ (pos 0) rpm)) [
    | inl x ↦ rw x (cooling-seen key j rpm now later _ s n e l)
    | inr x ↦ rw x l
  ]
