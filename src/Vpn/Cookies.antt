-- ===== src/Vpn/Cookies.antt =====
-- internal/protonvpn/client.go: ParseCookieString, and the user ID of ImportBrowserCookies. A text is
-- a list of its bytes, in ASCII.
pub mod RoundTrip
use opencode_multi_agents.Prelude.{
  ℕ, Bool, true, false, ◌&&◌, ◌||◌, not, Option, none, some, List, [], ◌∷◌, ◌++◌, leb, ◌==◌,
  if◌then◌else◌, drop,
}
use opencode_multi_agents.Prelude.Bytes.{
  Bytes, is_space, trim_left, is_blank, trim_right, trim_space, onto_first, split_at, cut_at,
}
use opencode_multi_agents.Prelude.Text.{bytes_of, has_prefix}

-- http.Cookie, with the fields that are set
pub record Cookie : Type 0 where
  pub name : Bytes
  pub value : Bytes

-- A name that is not empty, and its value.
abbrev pub named : Bytes → Bytes → Option Cookie
named [] value = none
named (c ∷ name) value = some (record { name = c ∷ name; value = value })

unfoldable pub cookie_of : Option (Bytes × Bytes) → Option Cookie
unfolding trim_space
cookie_of none = none
cookie_of (some (name, value)) = named (trim_space name) (trim_space value)

-- One part; an empty one has no '=' either
unfoldable pub parse_part : Bytes → Option Cookie
unfolding cookie_of cut_at trim_space
parse_part part = cookie_of (cut_at b'=' (trim_space part))

abbrev pub and_then : Option Cookie → List Cookie → List Cookie
and_then none cookies = cookies
and_then (some c) cookies = c ∷ cookies

unfoldable pub parse_parts : List Bytes → List Cookie
unfolding parse_part
parse_parts [] = []
parse_parts (part ∷ parts) = and_then (parse_part part) (parse_parts parts)

-- ParseCookieString
unfoldable pub parse_cookie_string : Bytes → List Cookie
unfolding parse_parts split_at
parse_cookie_string cookie_str = parse_parts (split_at b';' cookie_str)

-- What follows "AUTH-" in the first name that starts with it; empty without one
unfoldable pub auth_uid : List Cookie → Bytes
auth_uid [] = []
auth_uid (c ∷ cookies) =
    let rest = auth_uid cookies in
    if has_prefix (bytes_of "AUTH-") c.name then drop 5 c.name else rest
