-- ===== src/Vpn/Cookies/RoundTrip.antt =====
-- ParseCookieString gives back the cookies of a Cookie header.
use opencode_multi_agents.Prelude.{
  All-append, ℕ, ◌≡◌, refl, ap, ◌∙◌, false, some, List, [], ◌∷◌, ◌++◌, arith, ◌==◌, All, All-imp,
  append-nil,
}
use opencode_multi_agents.Prelude.Bytes.{
  Bytes, is_space, trim_left, is_blank, trim_right, trim_space, split_at, cut_at,
}
use opencode_multi_agents.Vpn.Cookies.{
  Cookie, named, cookie_of, parse_part, and_then, parse_parts, parse_cookie_string,
}

-- Neither a space nor a semicolon.
abbrev pub IsPlain : ℕ → Type 0
IsPlain c = (is_space c ≡ false) × ((c == b';') ≡ false)

abbrev pub NotEquals : ℕ → Type 0
NotEquals c = (c == b'=') ≡ false

-- A name that is not empty; no '=' in the name; no space or semicolon.
abbrev pub IsCookie : Cookie → Type 0
IsCookie c =
    (is_blank c.name ≡ false) × (All NotEquals c.name × (All IsPlain c.name × All IsPlain c.value))

abbrev pub print_cookie : Cookie → Bytes
print_cookie c = c.name ++ b'=' ∷ c.value

-- The cookies of a header, after the first: "; " and a cookie.
abbrev pub print_more : List Cookie → Bytes
print_more [] = []
print_more (c ∷ cs) = b';' ∷ 32 ∷ (print_cookie c ++ print_more cs)

abbrev pub print_cookies : Cookie → List Cookie → Bytes
print_cookies c cs = print_cookie c ++ print_more cs

trim_left-plain : (s : Bytes) → All IsPlain s → trim_left s ≡ s
unfolding trim_left
trim_left-plain [] h = refl
trim_left-plain (c ∷ s) h = ground (arith, h.0.0)

trim_right-plain : (s : Bytes) → All IsPlain s → trim_right s ≡ s
unfolding trim_right
trim_right-plain [] h = refl
trim_right-plain (c ∷ s) h = ground (arith, h.0.0, trim_right-plain s h.1)

trim_space-plain : (s : Bytes) → All IsPlain s → trim_space s ≡ s
unfolding trim_space
trim_space-plain s h = ap trim_right (trim_left-plain s h) ∙ trim_right-plain s h

trim_space_first : (s : Bytes) → All IsPlain s → trim_space (32 ∷ s) ≡ s
unfolding trim_space trim_left
trim_space_first s h = ap trim_right (trim_left-plain s h) ∙ trim_right-plain s h

cut_at-name :
    (name value : Bytes)
    → All NotEquals name
    → cut_at b'=' (name ++ b'=' ∷ value) ≡ some (name, value)
unfolding cut_at
cut_at-name [] value h = ground arith
cut_at-name (c ∷ name) value h = ground (arith, h.0, cut_at-name name value h.1)

abbrev NotSemicolon : ℕ → Type 0
NotSemicolon c = (c == b';') ≡ false

split_at-plain : (s : Bytes) → All NotSemicolon s → split_at b';' s ≡ s ∷ []
unfolding split_at
split_at-plain [] h = refl
split_at-plain (c ∷ s) h = ground (arith, h.0, split_at-plain s h.1)

split_at-append :
    (s rest : Bytes)
    → All NotSemicolon s
    → split_at b';' (s ++ b';' ∷ rest) ≡ s ∷ split_at b';' rest
unfolding split_at
split_at-append [] rest h = refl
split_at-append (c ∷ s) rest h = ground (arith, h.0, split_at-append s rest h.1)

named-nonempty :
    (name value : Bytes)
    → is_blank name ≡ false
    → named name value ≡ some (record { name = name; value = value })
named-nonempty [] value h = cc
named-nonempty (c ∷ name) value h = refl

cookie_of-named : (c : Cookie) → IsCookie c → cookie_of (some (c.name, c.value)) ≡ some c
unfolding cookie_of
cookie_of-named c h =
    let n = trim_space-plain c.name h.1.1.0 in
    let v = trim_space-plain c.value h.1.1.1 in
    ap (λ s. named s (trim_space c.value)) n
    ∙ ap (named c.name) v
    ∙ named-nonempty c.name c.value h.0

print_cookie-IsPlain : (c : Cookie) → IsCookie c → All IsPlain (print_cookie c)
print_cookie-IsPlain c h =
    All-append IsPlain c.name (b'=' ∷ c.value) h.1.1.0 ((refl, refl), h.1.1.1)

-- A cookie, and one after a space.
parse_part-cookie : (c : Cookie) → IsCookie c → parse_part (print_cookie c) ≡ some c
unfolding parse_part
parse_part-cookie c h =
    ap (λ s. cookie_of (cut_at b'=' s))
      (trim_space-plain (print_cookie c) (print_cookie-IsPlain c h))
    ∙ ap cookie_of (cut_at-name c.name c.value h.1.0)
    ∙ cookie_of-named c h

parse_part-later : (c : Cookie) → IsCookie c → parse_part (32 ∷ print_cookie c) ≡ some c
unfolding parse_part
parse_part-later c h =
    ap (λ s. cookie_of (cut_at b'=' s))
      (trim_space_first (print_cookie c) (print_cookie-IsPlain c h))
    ∙ ap cookie_of (cut_at-name c.name c.value h.1.0)
    ∙ cookie_of-named c h

cookie-NotSemicolon : (c : Cookie) → IsCookie c → All NotSemicolon (print_cookie c)
cookie-NotSemicolon c h =
    All-imp IsPlain NotSemicolon (print_cookie c) (λ b k. k.1) (print_cookie-IsPlain c h)

abbrev more_parts : List Cookie → List Bytes
more_parts [] = []
more_parts (c ∷ cs) = (32 ∷ print_cookie c) ∷ more_parts cs

split_at-more :
    (s : Bytes) (cs : List Cookie)
    → All NotSemicolon s
    → All IsCookie cs
    → split_at b';' (s ++ print_more cs) ≡ s ∷ more_parts cs
split_at-more s [] h k = ap (split_at b';') (append-nil s) ∙ split_at-plain s h
split_at-more s (c ∷ cs) h k =
    split_at-append s (32 ∷ (print_cookie c ++ print_more cs)) h
    ∙ ap (λ parts. s ∷ parts)
        (split_at-more (32 ∷ print_cookie c) cs (refl, cookie-NotSemicolon c k.0) k.1)

parse_parts-more : (cs : List Cookie) → All IsCookie cs → parse_parts (more_parts cs) ≡ cs
unfolding parse_parts
parse_parts-more [] h = refl
parse_parts-more (c ∷ cs) h =
    ap (λ o. and_then o (parse_parts (more_parts cs))) (parse_part-later c h.0)
    ∙ ap (λ r. c ∷ r) (parse_parts-more cs h.1)

-- The cookies of a Cookie header come back, in their order, if their names are not empty and have
-- no "=", and names and values have no space or semicolon; a value may have a "=".
pub parse_cookie_string-print :
    (c : Cookie) (cs : List Cookie)
    → IsCookie c
    → All IsCookie cs
    → parse_cookie_string (print_cookies c cs) ≡ c ∷ cs
unfolding parse_cookie_string parse_parts
parse_cookie_string-print c cs h k =
    ap parse_parts (split_at-more (print_cookie c) cs (cookie-NotSemicolon c h) k)
    ∙ ap (λ o. and_then o (parse_parts (more_parts cs))) (parse_part-cookie c h)
    ∙ ap (λ r. c ∷ r) (parse_parts-more cs k)
