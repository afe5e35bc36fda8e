-- ===== src/Gateway/Requests/Checks.antt =====
-- What the checks of a chat request let through, and the bounds of the delay.
use opencode_multi_agents.Prelude.{
  ℕ, ◌+◌, ◌-◌, ◌*◌, ◌%◌, ◌^◌, ◌<◌, ◌≤◌, ◌≡◌, ◌↔◌, refl, ap, ◌∙◌, true, false, ◌||◌, none, List, [],
  ◌∷◌, min, All, arith,
}
use native.Mathlib.Nat.{mul-le-mul_right}
use opencode_multi_agents.Prelude.Int.{pos, ◌≤ℤ◌}
use opencode_multi_agents.Prelude.Bytes.{is_blank, trim_space}
use opencode_multi_agents.Gateway.Requests.{
  ChatMessage, ChatRequest, valid_chat_role, may_be_empty, check_messages, no_messages,
  validate_chat_request, raw_delay, capped, calculate_retry_delay,
}

-- A role that is known, and content unless the role may go without.
abbrev pub IsMessage : ChatMessage → Type 0
IsMessage m = (valid_chat_role m.role ≡ true) × ((m.has_content || may_be_empty m.role) ≡ true)

abbrev pub IsRequest : ChatRequest → Type 0
IsRequest req =
    (is_blank (trim_space req.model) ≡ false)
    × (no_messages req.messages ≡ false)
    × All IsMessage req.messages

check_messages-IsMessage :
    (i : ℕ) (ms : List ChatMessage) → check_messages i ms ≡ none → All IsMessage ms
unfolding check_messages
check_messages-IsMessage i [] h = tt
check_messages-IsMessage i (m ∷ ms) h =
    let rest = check_messages-IsMessage (i + 1) ms in
    let role_ok : valid_chat_role m.role ≡ true = ground (arith, h) in
    let content_ok : (m.has_content || may_be_empty m.role) ≡ true = ground (arith, h) in
    let next : check_messages (i + 1) ms ≡ none = ground (arith, h) in
    ((role_ok, content_ok), rest next)

check_messages-none :
    (i : ℕ) (ms : List ChatMessage) → All IsMessage ms → check_messages i ms ≡ none
unfolding check_messages
check_messages-none i [] h = refl
check_messages-none i (m ∷ ms) h = ground (arith, h.0.0, h.0.1, check_messages-none (i + 1) ms h.1)

-- A request passes exactly if it names a model, has a message, and each message has a known role and,
-- unless it is an assistant's or a tool's, content.
pub validate_chat_request_iff :
    (req : ChatRequest) → (validate_chat_request req ≡ none) ↔ IsRequest req
unfolding validate_chat_request
validate_chat_request_iff req = (
  λ h. (
    ground (arith, h),
    ground (arith, h),
    check_messages-IsMessage 0 req.messages (ground (arith, h)),
  ),
  λ h. ground (arith, h.0, h.1, check_messages-none 0 req.messages h.2),
)

capped-le : (max_delay raw : ℕ) → capped max_delay raw ≤ℤ pos max_delay
unfolding capped
capped-le max_delay raw = ground arith

capped-small : (max_delay raw : ℕ) → raw < 2 ^ 63 → capped max_delay raw ≡ pos (min raw max_delay)
unfolding capped
capped-small max_delay raw h = ground (arith, h)

-- The delay is never longer than RetryMaxDelay; it is the base, doubled for each attempt after the
-- first, up to that, as long as this fits in 63 bits.
pub calculate_retry_delay-bounds :
    (base max_delay attempt : ℕ)
    → (calculate_retry_delay base max_delay attempt ≤ℤ pos max_delay)
      × (base * 2 ^ (attempt - 1) < 2 ^ 63
          → 0 < base
          → calculate_retry_delay base max_delay attempt
            ≡ pos (min (base * 2 ^ (attempt - 1)) max_delay))
unfolding calculate_retry_delay raw_delay
calculate_retry_delay-bounds base max_delay attempt = (
  capped-le max_delay (raw_delay base attempt),
  λ fits some_base.
      let p = 2 ^ (attempt - 1) in
      let half : 1 * p ≤ base * p = mul-le-mul_right p some_base in
      let small : p ≤ base * p = omega (arith, half) in
      let whole : p % 2 ^ 64 ≡ p = omega (arith, small, fits) in
      let raw : base * (p % 2 ^ 64) % 2 ^ 64 ≡ base * p = rw whole (omega (arith, fits)) in
      ap (capped max_delay) raw ∙ capped-small max_delay (base * p) fits,
)
