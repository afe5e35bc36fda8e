-- ===== src/Prelude/Bytes.antt =====
-- Texts as lists of bytes, in ASCII: more of Go's `strings`.
use Prim.Native.Nat.{ℕ}
use mathlib.Core.Path.{◌≡◌, refl}
use native.Mathlib.Omega.{arith}
use Prim.Native.Char.{code}
use Prim.Native.String.{String}
use mathlib.Core.Bool.{Bool, true, false, not, ◌&&◌, ◌||◌}
use mathlib.Core.List.{List, [], ◌∷◌}
use mathlib.Core.Option.{Option, none, some}
use opencode_multi_agents.Prelude.Tests.{leb, ◌==◌, if◌then◌else◌}
use opencode_multi_agents.Prelude.Text.{has_prefix, is_text}

abbrev pub Bytes : Type 0
Bytes = List ℕ

unfoldable pub same_bytes : Bytes → Bytes → Bool
same_bytes [] [] = true
same_bytes (c ∷ s) (d ∷ t) = c == d && same_bytes s t
same_bytes _ _ = false

-- The test decides equality.
pub same_bytes_eq : (s t : Bytes) → same_bytes s t ≡ true → s ≡ t
unfolding same_bytes
same_bytes_eq [] [] h = refl
same_bytes_eq (c ∷ s) (d ∷ t) h = ground (arith, same_bytes_eq s t)
same_bytes_eq [] (d ∷ t) h = cc
same_bytes_eq (c ∷ s) [] h = cc

pub same_bytes_self : (s : Bytes) → same_bytes s s ≡ true
unfolding same_bytes
same_bytes_self [] = refl
same_bytes_self (c ∷ s) = ground (arith, same_bytes_self s)

pub same_bytes_comm : (s t : Bytes) → same_bytes s t ≡ same_bytes t s
unfolding same_bytes
same_bytes_comm [] [] = refl
same_bytes_comm (c ∷ s) (d ∷ t) = ground (arith, same_bytes_comm s t)
same_bytes_comm [] (d ∷ t) = refl
same_bytes_comm (c ∷ s) [] = refl

abbrev pub is_space : ℕ → Bool
is_space c = c == 32 || (leb 9 c && leb c 13)

unfoldable pub trim_left : Bytes → Bytes
trim_left [] = []
trim_left (c ∷ s) = let rest = trim_left s in if is_space c then rest else c ∷ s

abbrev pub is_blank : Bytes → Bool
is_blank [] = true
is_blank (_ ∷ _) = false

unfoldable pub trim_right : Bytes → Bytes
trim_right [] = []
trim_right (c ∷ s) = let rest = trim_right s in if is_blank rest && is_space c then [] else c ∷ rest

-- `strings.TrimSpace`
unfoldable pub trim_space : Bytes → Bytes
unfolding trim_left trim_right
trim_space s = trim_right (trim_left s)

-- The same of a text.
text_trim_left : String → String
text_trim_left String.[] = String.[]
text_trim_left (String.◌∷◌ c s) =
    let rest = text_trim_left s in if is_space (code c) then rest else String.◌∷◌ c s

text_trim_right : String → String
text_trim_right String.[] = String.[]
text_trim_right (String.◌∷◌ c s) =
    let rest = text_trim_right s in
    if not (is_text rest) && is_space (code c) then String.[] else String.◌∷◌ c rest

unfoldable pub text_trim_space : String → String
unfolding text_trim_left text_trim_right
text_trim_space s = text_trim_right (text_trim_left s)

abbrev pub onto_first : ℕ → List Bytes → List Bytes
onto_first c [] = (c ∷ []) ∷ []
onto_first c (s ∷ parts) = (c ∷ s) ∷ parts

-- `strings.Split`, at a byte
unfoldable pub split_at : ℕ → Bytes → List Bytes
split_at b [] = [] ∷ []
split_at b (c ∷ s) = let parts = split_at b s in if c == b then [] ∷ parts else onto_first c parts

-- What stands before and after the first such byte.
unfoldable pub cut_at : ℕ → Bytes → Option (Bytes × Bytes)
cut_at b [] = none
cut_at b (c ∷ s) = elim (cut_at b s) [
  | none ↦ if c == b then some ([], s) else none
  | some r ↦ if c == b then some ([], s) else some (c ∷ r.0, r.1)
]

-- `strings.Contains(s, part)`
unfoldable pub contains : Bytes → Bytes → Bool
contains part [] = has_prefix part []
contains part (c ∷ s) = let rest = contains part s in has_prefix part (c ∷ s) || rest
