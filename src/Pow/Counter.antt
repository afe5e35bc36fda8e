-- ===== src/Pow/Counter.antt =====
-- internal/pow/pow.go: CounterToBytes and CounterFromBytes, counters as ten ASCII digits.
pub mod RoundTrip
use opencode_multi_agents.Prelude.{
  ℕ, zero, suc, ◌+◌, ◌-◌, ◌*◌, ◌/◌, ◌%◌, ◌^◌, ◌≤◌, ◌<◌, ◌≡◌, ◌∙◌, refl, sym, ap, Bool, true, false,
  Option, none, some, List, [], ◌∷◌, ◌++◌, arith, ltb, leb, ◌==◌, if◌then◌else◌, length, replicate,
  Bool-cases, inl, inr, length-append, length-replicate, ltb→lt,
}
use opencode_multi_agents.Prelude.Text.{digits_of, digits_value, digits_value-digit}

-- The digits of a number before those in `acc`; the fuel bounds their number.
unfoldable pub format_digits : ℕ → ℕ → List ℕ → List ℕ
format_digits zero n acc = acc
format_digits (suc f) n acc =
    let more = format_digits f (n / 10) ((n % 10 + b'0') ∷ acc) in
    if ltb n 10 then (n + b'0') ∷ acc else more

-- `strconv.FormatUint(counter, 10)`: a uint64 has at most 20 digits
unfoldable pub format_uint : ℕ → List ℕ
unfolding format_digits
format_uint counter = format_digits 20 counter []

-- `copy(out[10-len(s):], s)` over ten '0's; `none` is the panic of a negative slice bound
unfoldable pub counter_to_bytes : ℕ → Option (List ℕ)
unfolding format_uint
counter_to_bytes counter =
    let s = format_uint counter in
    if leb (length s) 10 then some (replicate (10 - length s) b'0' ++ s) else none

-- `strconv.ParseUint(s, 10, 64)`, with `none` for an error
parse_uint : List ℕ → Option ℕ
parse_uint s = elim (digits_of s) [ none ↦ none | some n ↦ if ltb n (2 ^ 64) then some n else none ]

-- CounterFromBytes
unfoldable pub counter_from_bytes : List ℕ → Option ℕ
unfolding parse_uint digits_of
counter_from_bytes b = if length b == 10 then parse_uint b else none
