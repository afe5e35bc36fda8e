-- ===== src/Prelude/Text.antt =====
-- Texts as lists of code points: byte order, prefixes and the like of Go's `strings`.
use Prim.Native.Nat.{ℕ, zero, suc, ◌<◌, ◌+◌, ◌-◌, ◌*◌, ◌^◌}
use Prim.Native.Char.{code}
use Prim.Native.String.{String}
use mathlib.Core.Path.{◌≡◌, ap}
use native.Mathlib.Omega.{arith}
use mathlib.Core.Bool.{Bool, true, false, ◌&&◌, ◌||◌}
use mathlib.Core.List.{List, [], ◌∷◌}
use mathlib.Core.Option.{Option, none, some}
use opencode_multi_agents.Prelude.Int.{ℤ, pos, negsuc}
use opencode_multi_agents.Prelude.Tests.{ltb, leb, ◌==◌, str_eq, Bool-cases, if◌then◌else◌}
use text.Mathlib.TextEquality.{eq_iff}
use mathlib.Core.Logic.{inl, inr}

-- For an ASCII text the bytes; in any text they are ordered as the bytes are.
abbrev pub bytes_of : String → List ℕ
bytes_of String.[] = []
bytes_of (String.◌∷◌ letter rest) = code letter ∷ bytes_of rest

-- `s + t`
unfoldable pub text_append : String → String → String
text_append String.[] t = t
text_append (String.◌∷◌ c s) t = String.◌∷◌ c (text_append s t)

-- The texts one after the other.
unfoldable pub text_concat : List String → String
unfolding text_append
text_concat [] = ""
text_concat (s ∷ ss) = text_append s (text_concat ss)

-- `strings.HasPrefix(s, p)`, with the prefix first
unfoldable pub has_prefix : List ℕ → List ℕ → Bool
has_prefix [] s = true
has_prefix (c ∷ p) [] = false
has_prefix (c ∷ p) (d ∷ s) = c == d && has_prefix p s

with_first : ℕ → List ℕ × List ℕ → List ℕ × List ℕ
with_first c (before, rest) = (c ∷ before, rest)

-- What stands before and after the first colon; `none` without one.
unfoldable pub cut_colon : List ℕ → Option (List ℕ × List ℕ)
unfolding with_first
cut_colon [] = none
cut_colon (c ∷ s) =
    let rest = cut_colon s in
    if c == b':' then some ([], s) else elim rest [ none ↦ none | some r ↦ some (with_first c r) ]

-- `s[:min(len(s), n)]`, of an ASCII text
unfoldable pub text_take : ℕ → String → String
text_take zero s = String.[]
text_take (suc n) String.[] = String.[]
text_take (suc n) (String.◌∷◌ c s) = String.◌∷◌ c (text_take n s)

-- `s < t` of Go's strings
unfoldable pub bytes_ltb : List ℕ → List ℕ → Bool
bytes_ltb [] [] = false
bytes_ltb [] (d ∷ t) = true
bytes_ltb (c ∷ s) [] = false
bytes_ltb (c ∷ s) (d ∷ t) = ltb c d || (c == d && bytes_ltb s t)

unfoldable pub str_ltb : String → String → Bool
unfolding bytes_ltb
str_ltb s t = bytes_ltb (bytes_of s) (bytes_of t)

is_digit : ℕ → Bool
is_digit c = leb b'0' c && leb c b'9'

unfoldable pub digits_value : ℕ → List ℕ → Option ℕ
unfolding is_digit
digits_value n [] = some n
digits_value n (c ∷ s) =
    let rest = digits_value (n * 10 + (c - b'0')) s in if is_digit c then rest else none

-- A nonempty run of digits.
unfoldable pub digits_of : List ℕ → Option ℕ
unfolding digits_value
digits_of [] = none
digits_of (c ∷ s) = digits_value 0 (c ∷ s)

-- In the range of a 64-bit `int`, or a range error.
fit_pos : Option ℕ → Option ℤ
fit_pos none = none
fit_pos (some n) = if ltb n (2 ^ 63) then some (pos n) else none

fit_neg : Option ℕ → Option ℤ
fit_neg none = none
fit_neg (some zero) = some (pos 0)
fit_neg (some (suc n)) = if ltb n (2 ^ 63) then some (negsuc n) else none

signed : List ℕ → Option ℤ
unfolding digits_of fit_pos fit_neg
signed [] = none
signed (c ∷ s) =
    if c == b'-'
    then fit_neg (digits_of s)
    else if c == b'+'
    then fit_pos (digits_of s)
    else fit_pos (digits_of (c ∷ s))

-- `strconv.Atoi`, with `none` for an error
unfoldable pub atoi : String → Option ℤ
unfolding signed
atoi s = signed (bytes_of s)

-- One more digit.
pub digits_value-digit :
    (n d : ℕ) (s : List ℕ) → d < 10 → digits_value n ((d + b'0') ∷ s) ≡ digits_value (n * 10 + d) s
unfolding digits_value
digits_value-digit n d s h =
    let e : n * 10 + (d + b'0' - b'0') ≡ n * 10 + d = omega arith in rw e (ground arith)

abbrev pub is_text : String → Bool
is_text String.[] = false
is_text (String.◌∷◌ c s) = true

pub not_empty : (s : String) → is_text s ≡ true → str_eq s "" ≡ false
not_empty s h = elim (Bool-cases (str_eq s "")) [
  | inr e ↦ e
  | inl e ↦ let same : s ≡ "" = (eq_iff s "").0 e in ground (arith, h, ap is_text same)
]
