-- ===== src/Proxy/External/Names.antt =====
-- The external proxies: their turns, and their IDs.
use opencode_multi_agents.Prelude.{
  ℕ, zero, suc, ◌+◌, ◌-◌, ◌/◌, ◌%◌, ◌^◌, ◌≤◌, ◌<◌, ◌≡◌, refl, sym, ◌∙◌, ap, String, some, List, [],
  ◌∷◌, ◌++◌, arith, ltb, length, get_elem?, get_elem?-lt, drop, All, Bool-cases, ltb→lt, inl, inr,
}
use Prim.Native.Char.{code}
use mathlib.Core.Option.{some-injective}
use native.Mathlib.Nat.{mod-lt}
use opencode_multi_agents.Prelude.Cyclic.{comes_up}
use opencode_multi_agents.Prelude.Text.{bytes_of, text_append, digits_value}
use opencode_multi_agents.Pow.Counter.{format_digits, format_uint}
use opencode_multi_agents.Pow.Counter.RoundTrip.{digits_value-format}
use opencode_multi_agents.Proxy.External.{
  ExternalProxyManager, digit_text, digits_text, ext_id, external_proxy, external_at,
  create_external,
}

abbrev IsDigit : ℕ → Type 0
IsDigit c = (b'0' ≤ c) × (c ≤ b'9')

format_digits-IsDigit :
    (f n : ℕ) (acc : List ℕ) → All IsDigit acc → All IsDigit (format_digits f n acc)
unfolding format_digits
format_digits-IsDigit zero n acc h = h
format_digits-IsDigit (suc f) n acc h =
    let more =
      format_digits-IsDigit f (n / 10) ((n % 10 + b'0') ∷ acc) ((omega arith, omega arith), h) in
    elim (Bool-cases (ltb n 10)) [
      | inl e ↦ let small : n < 10 = ltb→lt n 10 e in rw e ((omega arith, omega arith), h)
      | inr e ↦ rw e more
    ]

bytes_of-append : (s t : String) → bytes_of (text_append s t) ≡ (bytes_of s ++ bytes_of t)
unfolding text_append
bytes_of-append String.[] t = refl
bytes_of-append (String.◌∷◌ c s) t = ap (λ r. code c ∷ r) (bytes_of-append s t)

digit_text-bytes : (d : ℕ) → d ≤ 9 → bytes_of (digit_text d) ≡ (d + b'0') ∷ []
unfolding digit_text
digit_text-bytes zero h = refl
digit_text-bytes (suc zero) h = refl
digit_text-bytes (suc (suc zero)) h = refl
digit_text-bytes (suc (suc (suc zero))) h = refl
digit_text-bytes (suc (suc (suc (suc zero)))) h = refl
digit_text-bytes (suc (suc (suc (suc (suc zero))))) h = refl
digit_text-bytes (suc (suc (suc (suc (suc (suc zero)))))) h = refl
digit_text-bytes (suc (suc (suc (suc (suc (suc (suc zero))))))) h = refl
digit_text-bytes (suc (suc (suc (suc (suc (suc (suc (suc zero)))))))) h = refl
digit_text-bytes (suc (suc (suc (suc (suc (suc (suc (suc (suc zero))))))))) h = refl
digit_text-bytes (suc (suc (suc (suc (suc (suc (suc (suc (suc (suc d)))))))))) h = ground (arith, h)

digits_text-bytes : (s : List ℕ) → All IsDigit s → bytes_of (digits_text s) ≡ s
unfolding digits_text
digits_text-bytes [] h = refl
digits_text-bytes (c ∷ s) h =
    let a = bytes_of-append (digit_text (c - b'0')) (digits_text s) in
    let one = digit_text-bytes (c - b'0') (omega (arith, h.0)) in
    let back : c - b'0' + b'0' ≡ c = omega (arith, h.0) in let rest = digits_text-bytes s h.1 in cc

ext_id-bytes : (n : ℕ) → bytes_of (ext_id n) ≡ (bytes_of "ext-" ++ format_uint n)
unfolding ext_id format_uint
ext_id-bytes n =
    let a = bytes_of-append "ext-" (digits_text (format_uint n)) in
    let b = digits_text-bytes (format_uint n) (format_digits-IsDigit 20 n [] tt) in cc

-- The IDs of two external proxies differ, as long as their numbers fit in 64 bits.
pub ext_id-injective : (m n : ℕ) → m < 2 ^ 64 → n < 2 ^ 64 → ext_id m ≡ ext_id n → m ≡ n
unfolding format_uint digits_value
ext_id-injective m n hm hn e =
    let same : format_uint m ≡ format_uint n =
      let a = ext_id-bytes m in let b = ext_id-bytes n in ap (drop 4) (sym a ∙ ap bytes_of e ∙ b) in
    let x = digits_value-format 20 m [] (omega (arith, hm)) in
    let y = digits_value-format 20 n [] (omega (arith, hn)) in
    some-injective m n (sym x ∙ ap (digits_value 0) same ∙ y)

-- The manager after some creations.
unfoldable pub external_creations : ℕ → ℕ → ExternalProxyManager → ExternalProxyManager
external_creations zero now m = m
external_creations (suc n) now m = external_creations n now (create_external now m).1

create_external-next :
    (now : ℕ) (m : ExternalProxyManager) (addr : String)
    → get_elem? m.addrs (m.next_id % length m.addrs) ≡ some addr
    → create_external now m
      ≡ (some (external_proxy now m.next_id addr), record m { next_id = m.next_id + 1 })
unfolding create_external
create_external-next now m addr e = ap (external_at now m) e

external_creations-counters :
    (n now : ℕ) (m : ExternalProxyManager)
    → 0 < length m.addrs
    → external_creations n now m ≡ record m { next_id = m.next_id + n }
unfolding external_creations
external_creations-counters zero now m h = ground arith
external_creations-counters (suc n) now m h =
    let (addr, found) = get_elem?-lt m.addrs (m.next_id % length m.addrs) (mod-lt m.next_id h) in
    let one = create_external-next now m addr found in
    let rest = external_creations-counters n now (record m { next_id = m.next_id + 1 }) h in
    ground (arith, one, rest)

-- Each external address gets its turn: before as many creations as there are addresses are over,
-- there is one that gives a proxy with that address, under an ID that counts the creations.
pub create_external_in_turn :
    (now : ℕ) (m : ExternalProxyManager) (i : ℕ) (addr : String)
    → get_elem? m.addrs i ≡ some addr
    → i < length m.addrs
    → (n : ℕ) × ((n < length m.addrs)
        × ((create_external now (external_creations n now m)).0
            ≡ some (external_proxy now (m.next_id + n) addr)))
create_external_in_turn now m i addr found h =
    let (n, (soon, turn)) = comes_up (length m.addrs) m.next_id i h in
    let there = ap (get_elem? m.addrs) turn ∙ found in
    let before = external_creations-counters n now m (omega (arith, h)) in
    let one = create_external-next now (record m { next_id = m.next_id + n }) addr there in
    (n, (soon, ground (arith, before, one)))
