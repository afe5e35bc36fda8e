-- ===== src/Prelude/Cyclic.antt =====
-- Counting round a cycle, as in Go's `i % int64(len(xs))`.
use Prim.Native.Nat.{ℕ, ◌+◌, ◌-◌, ◌*◌, ◌/◌, ◌%◌, ◌<◌}
use mathlib.Core.Path.{◌≡◌, ◌∙◌, ap}
use mathlib.Core.Logic.{inl, inr}
use native.Mathlib.Omega.{arith}
use native.Mathlib.Nat.{mul-add-mod_self_right, mod-lt, mod-eq_of_lt, add-mod_left, div-add-mod'}
use opencode_multi_agents.Prelude.Tests.{leb, leb→le, Bool-cases}

mod_step : (n k i : ℕ) → i < n → (k * n + i) % n ≡ i
mod_step n k i h = mul-add-mod_self_right k n i ∙ mod-eq_of_lt h

-- From any number on, each place of a cycle of n comes up within n steps.
pub comes_up : (n a i : ℕ) → i < n → (j : ℕ) × ((j < n) × ((a + j) % n ≡ i))
comes_up n a i h =
    let q = div-add-mod' a n in
    let small = mod-lt a {m = n} (omega (arith, h)) in
    elim (Bool-cases (leb (a % n) i)) [
      | inl e ↦
          let le = leb→le (a % n) i e in
          let j = i - a % n in
          let same : a + j ≡ a / n * n + i = omega (arith, q, le) in
          (j, (omega (arith, le, h), ap (λ t. t % n) same ∙ mod_step n (a / n) i h))
      | inr e ↦
          let gt : i < a % n = ground (arith, e) in
          let j = n + i - a % n in
          let same : a + j ≡ a / n * n + (n + i) = omega (arith, q, small) in
          (
            j,
            (
              omega (arith, gt, small),
              ap (λ t. t % n) same
                  ∙ mul-add-mod_self_right (a / n) n (n + i)
                  ∙ add-mod_left n i
                  ∙ mod-eq_of_lt h,
            ),
          )
    ]
