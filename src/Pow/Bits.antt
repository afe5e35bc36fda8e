-- ===== src/Pow/Bits.antt =====
-- internal/pow/pow.go: LeadingZeroBits and Satisfies over a digest, a list of bytes with the most
-- significant first. `b & (1 << s) != 0` is written `b / 2 ^ s % 2 == 1`.
pub mod Value
use opencode_multi_agents.Prelude.{
  ℕ, zero, suc, ◌+◌, ◌/◌, ◌%◌, ◌^◌, Bool, true, false, not, List, [], ◌∷◌, ◌==◌, if◌then◌else◌,
}
use opencode_multi_agents.Prelude.Int.{ℤ, pos, ltb_ℤ}

-- How the inner loop ends: at a bit that is set, or past the last.
pub data Scan : Type 0 where
  found past : ℕ → Scan

-- The inner loop, with `s` shifts to go.
pub scan : ℕ → ℕ → ℕ → Scan
scan zero b bits = past bits
scan (suc s) b bits =
    let rest = scan s b (bits + 1) in if b / 2 ^ s % 2 == 1 then found bits else rest

-- What the outer loop does after the inner one: return, or go on with the next byte.
pub after_scan : Scan → (ℕ → ℕ) → ℕ
after_scan (found n) next = n
after_scan (past n) next = next n

pub zero_bits : ℕ → List ℕ → ℕ
unfolding scan after_scan
zero_bits bits [] = bits
zero_bits bits (b ∷ rest) = elim (b == 0) [
  | true ↦ zero_bits (bits + 8) rest
  | false ↦ after_scan (scan 8 b bits) (λ n. zero_bits n rest)
]

-- LeadingZeroBits
unfoldable pub leading_zero_bits : List ℕ → ℕ
unfolding zero_bits
leading_zero_bits digest = zero_bits 0 digest

-- Satisfies
unfoldable pub satisfies : List ℕ → ℤ → Bool
unfolding leading_zero_bits
satisfies digest difficulty = not (ltb_ℤ (pos (leading_zero_bits digest)) difficulty)
