-- ===== src/Pow/Counter/RoundTrip.antt =====
-- Counters survive the trip through their ten digits, or do not fit in them.
use native.Mathlib.Nat.{pow-suc, pow-le-pow_right}
use opencode_multi_agents.Prelude.{
  ℕ, zero, suc, ◌+◌, ◌-◌, ◌/◌, ◌%◌, ◌^◌, ◌≤◌, ◌<◌, ◌≡◌, ◌∙◌, refl, ap, none, some, List, [], ◌∷◌,
  ◌++◌, arith, ltb, length, replicate, Bool-cases, inl, inr, length-append, length-replicate,
  lt→ltb, ltb→lt,
}
use opencode_multi_agents.Prelude.Text.{digits_value, digits_value-digit}
use opencode_multi_agents.Pow.Counter.{
  format_digits, format_uint, counter_to_bytes, counter_from_bytes,
}

pub digits_value-format :
    (f n : ℕ) (acc : List ℕ)
    → n < 10 ^ f
    → digits_value 0 (format_digits f n acc) ≡ digits_value n acc
unfolding format_digits
digits_value-format zero n acc h = ap (λ k. digits_value k acc) (omega arith)
digits_value-format (suc f) n acc h = elim (Bool-cases (ltb n 10)) [
  | inl small ↦
      rw small (
        digits_value-digit 0 n acc (ltb→lt n 10 small) ∙ ap (λ k. digits_value k acc) (omega arith))
  | inr large ↦ rw large (
      digits_value-format f (n / 10) ((n % 10 + b'0') ∷ acc) (omega (arith, pow-suc 10 f))
      ∙ digits_value-digit (n / 10) (n % 10) acc (omega arith)
      ∙ ap (λ k. digits_value k acc) (omega arith))
]

length-format_le :
    (k f n : ℕ) (acc : List ℕ)
    → n < 10 ^ suc k
    → length (format_digits f n acc) ≤ suc k + length acc
unfolding format_digits
length-format_le k zero n acc h = omega arith
length-format_le zero (suc f) n acc h = ground (arith, lt→ltb n 10)
length-format_le (suc k) (suc f) n acc h = ground (
  arith,
  length-format_le k f (n / 10) ((n % 10 + b'0') ∷ acc) (omega (arith, pow-suc 10 (suc k))),
)

length-format_acc : (f n : ℕ) (acc : List ℕ) → length acc ≤ length (format_digits f n acc)
unfolding format_digits
length-format_acc zero n acc = omega arith
length-format_acc (suc f) n acc =
    ground (arith, length-format_acc f (n / 10) ((n % 10 + b'0') ∷ acc))

ten_le : (k n : ℕ) → 10 ^ suc k ≤ n → 10 ≤ n
ten_le k n h =
    omega (arith, pow-le-pow_right {n = 10} (omega arith) {i = 1} {j = suc k} (omega arith))

length-format_ge :
    (k f n : ℕ) (acc : List ℕ)
    → 10 ^ k ≤ n
    → k < f
    → suc k + length acc ≤ length (format_digits f n acc)
unfolding format_digits
length-format_ge k zero n acc h lt = elim lt [ ]
length-format_ge zero (suc f) n acc h lt =
    ground (arith, length-format_acc f (n / 10) ((n % 10 + b'0') ∷ acc))
length-format_ge (suc k) (suc f) n acc h lt = ground (
  arith,
  ten_le k n h,
  length-format_ge k f (n / 10) ((n % 10 + b'0') ∷ acc) (omega (arith, pow-suc 10 k)) (omega arith),
)

zeros : (k : ℕ) (s : List ℕ) → digits_value 0 (replicate k b'0' ++ s) ≡ digits_value 0 s
zeros zero s = refl
zeros (suc k) s = digits_value-digit 0 0 (replicate k b'0' ++ s) (omega arith) ∙ zeros k s

ten_digits : ℕ → List ℕ
ten_digits counter = replicate (10 - length (format_uint counter)) b'0' ++ format_uint counter

length-format_uint : (counter : ℕ) → counter < 10 ^ 10 → length (format_uint counter) ≤ 10
unfolding format_uint
length-format_uint counter h = length-format_le 9 20 counter [] h

counter_to_bytes_fits :
    (counter : ℕ) → counter < 10 ^ 10 → counter_to_bytes counter ≡ some (ten_digits counter)
unfolding counter_to_bytes ten_digits
counter_to_bytes_fits counter h = ground (arith, length-format_uint counter h)

length-ten_digits : (counter : ℕ) → counter < 10 ^ 10 → length (ten_digits counter) ≡ 10
unfolding ten_digits
length-ten_digits counter h =
    length-append (replicate (10 - length (format_uint counter)) b'0') (format_uint counter)
    ∙ omega (
      arith,
      length-format_uint counter h,
      length-replicate {A = ℕ} (10 - length (format_uint counter)) b'0',
    )

value-ten_digits :
    (counter : ℕ) → counter < 10 ^ 10 → digits_value 0 (ten_digits counter) ≡ some counter
unfolding ten_digits format_uint digits_value
value-ten_digits counter h =
    zeros (10 - length (format_uint counter)) (format_uint counter)
    ∙ digits_value-format 20 counter [] (omega arith)

counter_from_bytes_value :
    (b : List ℕ) (n : ℕ)
    → length b ≡ 10
    → digits_value 0 b ≡ some n
    → n < 2 ^ 64
    → counter_from_bytes b ≡ some n
unfolding counter_from_bytes
counter_from_bytes_value [] n len e h = absurd (omega arith)
counter_from_bytes_value (c ∷ b) n len e h = ground arith

-- A counter of at most ten digits is read back from its bytes.
pub counter_from_bytes-to_bytes :
    (counter : ℕ)
    → counter < 10 ^ 10
    → (b : List ℕ) × (counter_to_bytes counter ≡ some b) × (counter_from_bytes b ≡ some counter)
counter_from_bytes-to_bytes counter h = (
  ten_digits counter,
  counter_to_bytes_fits counter h,
  counter_from_bytes_value (ten_digits counter) counter (length-ten_digits counter h)
      (value-ten_digits counter h) (omega arith),
)

-- Any other counter makes CounterToBytes panic.
pub counter_to_bytes_panics : (counter : ℕ) → 10 ^ 10 ≤ counter → counter_to_bytes counter ≡ none
unfolding counter_to_bytes format_uint
counter_to_bytes_panics counter h =
    ground (arith, length-format_ge 10 20 counter [] h (omega arith))
