-- ===== src/Pow/Bits/Value.antt =====
-- The leading zero bits of a digest bound the number that it writes.
use native.Mathlib.Numerals.{towards_suc}
use opencode_multi_agents.Prelude.{
  ℕ, zero, suc, ◌+◌, ◌*◌, ◌^◌, ◌≤◌, ◌<◌, ◌≡◌, ◌↔◌, ◌⊎◌, ◌∙◌, refl, sym, ap, Bool, true, false, not,
  ◌&&◌, ◌||◌, List, [], ◌∷◌, arith, ◌==◌, leb, length, All, ==_iff, Bool-cases, inl, inr,
}
use native.Mathlib.Nat.{
  add_assoc, add_comm, pow-suc, mul-le-mul_left, mul-le-mul_right, pow-le-pow_right,
}
use opencode_multi_agents.Prelude.Int.{pos, ltb_ℤ}
use opencode_multi_agents.Pow.Bits.{Scan, found, past, after_scan, scan, zero_bits, satisfies}

-- The number that a digest writes, in base 256.
abbrev pub be_value : List ℕ → ℕ
be_value [] = 0
be_value (b ∷ rest) = b * 256 ^ length rest + be_value rest

abbrev pub IsBytes : List ℕ → Type 0
IsBytes = All (λ b. b < 256)

-- `t` passes on 0, ..., m - 1.
passes : (ℕ → Bool) → ℕ → Bool
passes t (suc m) = passes t m && t m
passes t zero = true

passes_each : (t : ℕ → Bool) (m b : ℕ) → b < m → passes t m ≡ true → t b ≡ true
unfolding passes
passes_each t (suc m) b small ok = ground (arith, passes_each t m b)
passes_each t zero b small ok = absurd (omega (arith, small))

-- A byte's scan from 0 stops at the count `n` of its leading zero bits.
scan_check : ℕ → Scan → Bool
scan_check b (past n) = b == 0
scan_check b (found n) = leb ((b + 1) * 2 ^ n) 256 && (leb 256 (b * 2 ^ (n + 1)) && leb (n + 1) 8)

scan_table : passes (λ b. (b == 0) || scan_check b (scan 8 b 0)) 256 ≡ true
unfolding passes scan_check scan
scan_table = refl

byte_below : (b v k p : ℕ) → v < k → (b + 1) * p ≤ 256 → 0 < p → (b * k + v) * p < 256 * k
byte_below b v k p hv hb hp = omega (arith, mul-le-mul_right p hv, mul-le-mul_right k hb)

byte_above : (b v k q : ℕ) → 256 ≤ b * q → 256 * k ≤ (b * k + v) * q
byte_above b v k q h = omega (arith, mul-le-mul_right k h)

abbrev shift : ℕ → Scan → Scan
shift k (found n) = found (k + n)
shift k (past n) = past (k + n)

scan-shift : (s b k bits : ℕ) → scan s b (k + bits) ≡ shift k (scan s b bits)
unfolding scan
scan-shift zero b k bits = refl
scan-shift (suc s) b k bits = ground (arith, scan-shift s b k (bits + 1), add_assoc k bits 1)

after_scan-shift :
    (k : ℕ) (r : Scan) (f : ℕ → ℕ)
    → ((n : ℕ) → f (k + n) ≡ k + f n)
    → after_scan (shift k r) f ≡ k + after_scan r f
unfolding after_scan
after_scan-shift k (found n) f h = refl
after_scan-shift k (past n) f h = h n

zero_bits-zero :
    (bits b : ℕ) (ds : List ℕ) → (b == 0) ≡ true → zero_bits bits (b ∷ ds) ≡ zero_bits (bits + 8) ds
unfolding zero_bits
zero_bits-zero bits b ds e = rw (e, zero_bits)

zero_bits-byte :
    (bits b : ℕ) (ds : List ℕ)
    → (b == 0) ≡ false
    → zero_bits bits (b ∷ ds) ≡ after_scan (scan 8 b bits) (λ n. zero_bits n ds)
unfolding zero_bits
zero_bits-byte bits b ds e = rw (e, zero_bits)

zero_bits-shift : (k : ℕ) (ds : List ℕ) (bits : ℕ) → zero_bits (k + bits) ds ≡ k + zero_bits bits ds
unfolding zero_bits
zero_bits-shift k [] bits = refl
zero_bits-shift k (b ∷ ds) bits = elim (Bool-cases (b == 0)) [
  | inl e ↦
      zero_bits-zero (k + bits) b ds e
      ∙ (rw (add_assoc k bits 8) (zero_bits-shift k ds (bits + 8)))
      ∙ ap (◌+◌ k) (sym (zero_bits-zero bits b ds e))
  | inr e ↦
      zero_bits-byte (k + bits) b ds e
      ∙ ap (λ r. after_scan r (λ n. zero_bits n ds)) (scan-shift 8 b k bits)
      ∙ after_scan-shift k (scan 8 b bits) (λ n. zero_bits n ds) (zero_bits-shift k ds)
      ∙ ap (◌+◌ k) (sym (zero_bits-byte bits b ds e))
]

-- `n` is the number of leading zero bits of a number `v` of `l` bits, `c` being 2 ^ l.
abbrev Leading : ℕ → ℕ → ℕ → ℕ → Type 0
Leading c l v n = (v * 2 ^ n < c) × ((c ≤ v * 2 ^ (n + 1)) ⊎ (n ≡ l)) × (n ≤ l)

-- The scan of a byte that is not 0 finds a bit.
scan_found :
    (b : ℕ)
    → b < 256
    → (b == 0) ≡ false
    → (n : ℕ) × (scan 8 b 0 ≡ found n)
      × ((b + 1) * 2 ^ n ≤ 256)
      × (256 ≤ b * 2 ^ (n + 1))
      × (n + 1 ≤ 8)
unfolding scan_check
scan_found b h e = found_check (scan 8 b 0) refl
  where
    table : ((b == 0) || scan_check b (scan 8 b 0)) ≡ true
    table = passes_each (λ x. (x == 0) || scan_check x (scan 8 x 0)) 256 b h scan_table

    checked : scan_check b (scan 8 b 0) ≡ true
    checked = ground (arith, table)

    found_check :
        (r : Scan)
        → scan 8 b 0 ≡ r
        → (n : ℕ) × (scan 8 b 0 ≡ found n)
          × ((b + 1) * 2 ^ n ≤ 256)
          × (256 ≤ b * 2 ^ (n + 1))
          × (n + 1 ≤ 8)
    found_check (found n) r =
        let c : scan_check b (found n) ≡ true = sym (ap (scan_check b) r) ∙ checked in
        (n, r, ground (arith, c), ground (arith, c), ground (arith, c))
    found_check (past n) r =
        let c : scan_check b (past n) ≡ true = sym (ap (scan_check b) r) ∙ checked in
        absurd (ground (arith, c))

pow_shift : (n : ℕ) → 2 ^ (8 + n) ≡ 256 * 2 ^ n
pow_shift n = rw (add_comm 8 n) (simp towards_suc (omega (arith, pow-suc 2 n)))

Leading-zero : (c l v n : ℕ) → Leading c l v n → Leading (256 * c) (8 + l) v (8 + n)
Leading-zero c l v n h =
    let e : v * 2 ^ (8 + n) ≡ v * (256 * 2 ^ n) = ap (◌*◌ v) (pow_shift n) in
    let e' : v * 2 ^ (8 + n + 1) ≡ v * (256 * 2 ^ (n + 1)) =
      ap (λ k. v * 2 ^ k) (add_assoc 8 n 1) ∙ ap (◌*◌ v) (pow_shift (n + 1)) in
    (omega (arith, e), omega (arith, e'), omega arith)

two_pow_pos : (n : ℕ) → 0 < 2 ^ n
two_pow_pos n = pow-le-pow_right {n = 2} (omega arith) {i = 0} {j = n} (omega arith)

Leading-byte :
    (b v c l n : ℕ)
    → v < c
    → (b + 1) * 2 ^ n ≤ 256
    → 256 ≤ b * 2 ^ (n + 1)
    → n + 1 ≤ 8
    → Leading (256 * c) (8 + l) (b * c + v) n
Leading-byte b v c l n hv lo hi le = (
  byte_below b v c (2 ^ n) hv lo (two_pow_pos n),
  inl (byte_above b v c (2 ^ (n + 1)) hi),
  omega arith,
)

be_value-lt : (ds : List ℕ) → IsBytes ds → be_value ds < 256 ^ length ds
be_value-lt [] h = omega arith
be_value-lt (b ∷ ds) h =
    omega
      (arith, be_value-lt ds h.1, pow-suc 256 (length ds), mul-le-mul_right (256 ^ length ds) h.0)

Leading-eq :
    (c c' l l' v v' n n' : ℕ)
    → c ≡ c'
    → l ≡ l'
    → v ≡ v'
    → n ≡ n'
    → Leading c' l' v' n'
    → Leading c l v n
Leading-eq c c' l l' v v' n n' ec el ev en h = rw (ec, el, ev, en) h

zero_bits-found :
    (b n : ℕ) (ds : List ℕ) → (b == 0) ≡ false → scan 8 b 0 ≡ found n → zero_bits 0 (b ∷ ds) ≡ n
unfolding after_scan
zero_bits-found b n ds e r =
    zero_bits-byte 0 b ds e ∙ ap (λ s. after_scan s (λ k. zero_bits k ds)) r

zero_bits-Leading :
    (ds : List ℕ)
    → IsBytes ds
    → Leading (256 ^ length ds) (8 * length ds) (be_value ds) (zero_bits 0 ds)
zero_bits-Leading [] h = unfold zero_bits in omega arith
zero_bits-Leading (b ∷ ds) h = elim (Bool-cases (b == 0)) [
  | inl e ↦
      Leading-eq _ (256 * 256 ^ length ds) _ (8 + 8 * length ds) _ (be_value ds) _
        (8 + zero_bits 0 ds) (omega (arith, pow-suc 256 (length ds))) (omega arith)
        (ap (λ t. t * 256 ^ length ds + be_value ds) ((==_iff b 0).0 e) ∙ omega arith)
        (zero_bits-zero 0 b ds e ∙ zero_bits-shift 8 ds 0)
        (Leading-zero (256 ^ length ds) (8 * length ds) (be_value ds) (zero_bits 0 ds)
          (zero_bits-Leading ds h.1))
  | inr e ↦
      let (n, r, lo, hi, le) = scan_found b h.0 e in
      Leading-eq _ (256 * 256 ^ length ds) _ (8 + 8 * length ds) _
        (b * 256 ^ length ds + be_value ds) _ n (omega (arith, pow-suc 256 (length ds)))
        (omega arith) refl (zero_bits-found b n ds e r)
        (Leading-byte b (be_value ds) (256 ^ length ds) (8 * length ds) n (be_value-lt ds h.1) lo hi
          le)
]

abbrev satisfied : ℕ → ℕ → Bool
satisfied d n = not (ltb_ℤ (pos n) (pos d))

not_leb : (d n : ℕ) → satisfied d n ≡ false → n + 1 ≤ d
not_leb d n e = ground arith

not_lt : (n d : ℕ) → satisfied d n ≡ true → d ≤ n
not_lt n d e = ground arith

up_to : (v : ℕ) {d n : ℕ} → d ≤ n → v * 2 ^ d ≤ v * 2 ^ n
up_to v {d} {n} h = mul-le-mul_left v (pow-le-pow_right {n = 2} (omega arith) {i = d} {j = n} h)

-- A digest of `l` bytes meets a difficulty of `d` bits exactly when the number that it writes is
-- below 2 ^ (8 l - d); the statement has 2 ^ d on the other side.
pub satisfies_iff :
    (ds : List ℕ) (d : ℕ)
    → IsBytes ds
    → d ≤ 8 * length ds
    → (satisfies ds (pos d) ≡ true) ↔ (be_value ds * 2 ^ d < 256 ^ length ds)
unfolding satisfies
satisfies_iff ds d h le = (
  λ e. omega (
    arith,
    zero_bits-Leading ds h,
    up_to (be_value ds) {d = d} {n = zero_bits 0 ds} (not_lt (zero_bits 0 ds) d e),
  ),
  λ small. elim (Bool-cases (satisfied d (zero_bits 0 ds))) [
    | inl e ↦ e
    | inr e ↦ absurd (
        omega (
          arith,
          zero_bits-Leading ds h,
          not_leb d (zero_bits 0 ds) e,
          up_to (be_value ds) {d = zero_bits 0 ds + 1} {n = d} (not_leb d (zero_bits 0 ds) e),
        ))
  ],
)
