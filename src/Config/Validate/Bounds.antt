-- ===== src/Config/Validate/Bounds.antt =====
-- What a valid configuration guarantees.
use opencode_multi_agents.Prelude.{◌^◌, ◌≡◌, refl, String, true, Option, none, some, List, arith}
use opencode_multi_agents.Prelude.Int.{pos, ◌≤ℤ◌}
use opencode_multi_agents.Config.Validate.{
  Config, check_numbers, one_of, chosen, providers, levels, formats, with_format, with_level,
  with_provider, choices_after, validate,
}

-- The numbers are within their bounds, and the choices are ones that are known.
abbrev pub IsBounded : Config → Type 0
IsBounded c =
    ((pos 1 ≤ℤ c.proxy_pool_size) × (c.proxy_pool_size ≤ℤ pos 20))
    × ((pos 1024 ≤ℤ c.proxy_base_port) × (c.proxy_base_port ≤ℤ pos 65535))
    × ((pos 0 ≤ℤ c.max_retries) × (c.max_retries ≤ℤ pos 10))
    × ((pos 1 ≤ℤ c.max_concurrent) × (c.max_concurrent ≤ℤ pos 10000))
    × (pos (10 ^ 9) ≤ℤ c.request_timeout)
    × (c.retry_base_delay ≤ℤ c.retry_max_delay)

abbrev pub IsChosen : Config → Type 0
IsChosen c =
    (one_of providers c.upstream_provider ≡ true)
    × (one_of levels c.log_level ≡ true)
    × (one_of formats c.log_format ≡ true)

check_numbers-IsBounded : (c : Config) → check_numbers c ≡ none → IsBounded c
unfolding check_numbers
check_numbers-IsBounded c h = ground (arith, h)

chosen-known :
    (choices : List String) (default s r : String)
    → one_of choices default ≡ true
    → chosen choices default s ≡ some r
    → one_of choices r ≡ true
unfolding chosen
chosen-known choices default s r d h = ground (arith, d, h)

-- What the choices do to the configuration.
abbrev Sound : Config → Option String × Config → Type 0
Sound c r = r.0 ≡ none → IsBounded r.1 × IsChosen r.1

format-Sound :
    (o : Option String) (c : Config)
    → IsBounded c
    → one_of providers c.upstream_provider ≡ true
    → one_of levels c.log_level ≡ true
    → ((r : String) → o ≡ some r → one_of formats r ≡ true)
    → Sound c (with_format o c)
format-Sound none c h p l f e = cc
format-Sound (some format) c h p l f e = (h, (p, l, f format refl))

level-Sound :
    (o format : Option String) (c : Config)
    → IsBounded c
    → one_of providers c.upstream_provider ≡ true
    → ((r : String) → o ≡ some r → one_of levels r ≡ true)
    → ((r : String) → format ≡ some r → one_of formats r ≡ true)
    → Sound c (with_level o format c)
level-Sound none format c h p l f e = cc
level-Sound (some level) format c h p l f e =
    format-Sound format (record c { log_level = level }) h p (l level refl) f e

provider-Sound :
    (o level format : Option String) (c : Config)
    → IsBounded c
    → ((r : String) → o ≡ some r → one_of providers r ≡ true)
    → ((r : String) → level ≡ some r → one_of levels r ≡ true)
    → ((r : String) → format ≡ some r → one_of formats r ≡ true)
    → Sound c (with_provider o level format c)
provider-Sound none level format c h p l f e = cc
provider-Sound (some provider) level format c h p l f e =
    level-Sound level format (record c { upstream_provider = provider }) h (p provider refl) l f e

choices-Sound :
    (o : Option String) (c : Config) → (o ≡ none → IsBounded c) → Sound c (choices_after o c)
choices-Sound (some err) c h e = cc
choices-Sound none c h e =
    provider-Sound (chosen providers "zen" c.upstream_provider) (chosen levels "info" c.log_level)
      (chosen formats "json" c.log_format) c (h refl)
      (λ r k. chosen-known providers "zen" c.upstream_provider r refl k)
      (λ r k. chosen-known levels "info" c.log_level r refl k)
      (λ r k. chosen-known formats "json" c.log_format r refl k) e

-- A configuration that passes has a pool of 1 to 20 proxies, a base port from 1024 to 65535, at most
-- 10 retries, 1 to 10000 requests at a time, a timeout of a second or more, and a base delay no longer
-- than the longest delay; and its driver, log level and log format are known, the empty ones replaced.
pub validate-IsBounded :
    (c : Config) → (validate c).0 ≡ none → IsBounded (validate c).1 × IsChosen (validate c).1
unfolding validate
validate-IsBounded c e = choices-Sound (check_numbers c) c (check_numbers-IsBounded c) e
