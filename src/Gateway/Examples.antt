-- ===== src/Gateway/Examples.antt =====
-- The theorems on the gateway at concrete states.
use opencode_multi_agents.Prelude.{
  ◌≤◌, ◌≡◌, ◌≢◌, ◌⊎◌, ◌/◌, ◌%◌, ◌+◌, ◌==◌, ◌^◌, refl, String, Bool, true, false, Option, none, some,
  [], ◌∷◌, if◌then◌else◌, get_elem?,
}
use opencode_multi_agents.Gateway.Chat.{
  Reply, limited, broken, Surroundings, request, fail, throttled, bad_gateway, panicked, chat,
}
use opencode_multi_agents.Gateway.Chat.Bounds.{requests, chat-requests}
use opencode_multi_agents.Gateway.Chat.Owned.{Fine, chat-Owned}
use opencode_multi_agents.Gateway.Chat.Limits.{chat-broken, chat-limited}
use opencode_multi_agents.Gateway.Auth.{
  Keys, Moment, unauthorized, gateway_auth, is_gateway_key, own_auth, resolve_auth, x_api_key,
  bearer_auth,
}
use opencode_multi_agents.Gateway.Auth.Forwards.{
  IsForeign, resolve_auth-IsForeign, gateway_auth-redeemed,
}
use opencode_multi_agents.Pow.Redeem.{handle_redeem}
use opencode_multi_agents.Pow.Examples.{
  whole, hashes, base64, config, service, request as redemption, issued, tables-AreKeyed, redeemed,
}

abbrev surroundings : Reply → Option String → Bool → Surroundings
surroundings reply fresh public_tier = record {
  send = λ n p. reply;
  fresh = λ n. fresh;
  in_time = λ n. true;
  public_tier = public_tier;
  max_retries = 3;
}

chat-requests_example : requests (chat (surroundings broken (some "b") false) "a") ≤ 4
chat-requests_example = chat-requests (surroundings broken (some "b") false) "a"

chat-Owned_example : Fine "a" false (chat (surroundings broken (some "b") false) "a")
chat-Owned_example = chat-Owned (surroundings broken (some "b") false) "a"

chat-broken_example :
    chat (surroundings broken none false) "a" ≡ (request "a" ∷ fail "a" ∷ [], panicked)
chat-broken_example = chat-broken (surroundings broken none false) "a" 2 refl refl refl

chat-limited_example :
    ((chat (surroundings limited (some "b") false) "a").1
      ≡ (if 3 % 2 == 0 then throttled else bad_gateway))
    × (requests (chat (surroundings limited (some "b") false) "a") ≡ 3 / 2 + 1)
chat-limited_example =
    chat-limited (surroundings limited (some "b") false) (λ n. "b") "a" refl (λ n q. refl)
      (λ n. refl) (λ n. refl)

abbrev keys : Keys
keys = record { env_keys = "admin" ∷ []; upstream_api_keys = []; upstream_api_key = "up" }

abbrev moment : Moment
moment = record { seconds = 10 ^ 9; now = 10 ^ 18; later = 10 ^ 18; fails = false }

resolve_auth-IsForeign_example :
    let after = (is_gateway_key whole hashes base64 config keys moment "admin" (some service)).1 in
    let a =
      (resolve_auth whole hashes base64 config 0 keys moment "admin" "sk-up" (some service)).0 in
    let Foreign = IsForeign whole hashes base64 config keys moment in
    (Foreign "admin" (some service) × (a ≡ x_api_key "admin"))
    ⊎ ((¬ Foreign "admin" (some service))
        × ((Foreign "sk-up" after × (a ≡ bearer_auth "sk-up"))
            ⊎ ((¬ Foreign "sk-up" after)
                × (a
                    ≡ own_auth whole hashes base64 config
                        (get_elem? keys.upstream_api_keys 0)
                        keys))))
resolve_auth-IsForeign_example =
    resolve_auth-IsForeign whole hashes base64 config 0 keys moment "admin" "sk-up" (some service)

gateway_auth-redeemed_example :
    (gateway_auth whole hashes base64 config keys moment issued.0
      (some (handle_redeem whole hashes base64 config redemption service).1)).0
    ≢ unauthorized
gateway_auth-redeemed_example =
    gateway_auth-redeemed whole hashes base64 config redemption service issued.0 issued.1 keys
      moment tables-AreKeyed redeemed
