-- ===== src/Proxy/Wireguard.antt =====
-- internal/proxy/docker.go: the configuration of WireGuard, and a container's environment.
use opencode_multi_agents.Prelude.{ℕ, String, List, [], ◌∷◌, str_eq, if◌then◌else◌}
use opencode_multi_agents.Prelude.Text.{text_append, text_concat}
use opencode_multi_agents.Pow.Counter.{format_uint}
use opencode_multi_agents.Proxy.External.{digits_text}
use opencode_multi_agents.Vpn.Sessions.{Certificate}

abbrev pub number_text : ℕ → String
number_text n = digits_text (format_uint n)

abbrev pub client_address : Certificate → String
client_address cert =
    let address = text_append cert.ipv4 "/32" in
    if str_eq address "/32" then "10.2.0.2/32" else address

abbrev pub first_dns : List String → String
first_dns [] = "10.2.0.1"
first_dns (dns ∷ _) = dns

abbrev pub server_endpoint : Certificate → String
server_endpoint cert = text_append cert.peer_ip ":51820"

-- The WireGuard configuration.
abbrev pub wg_config : String → Certificate → String
wg_config private_key cert = text_concat (
    "[Interface]\nPrivateKey = "
    ∷ private_key
    ∷ "\nAddress = "
    ∷ client_address cert
    ∷ "\nDNS = "
    ∷ first_dns cert.dns
    ∷ "\n\n[Peer]\nPublicKey = "
    ∷ cert.peer_public_key
    ∷ "\nEndpoint = "
    ∷ server_endpoint cert
    ∷ "\nAllowedIPs = 0.0.0.0/0\nPersistentKeepalive = 25\n"
    ∷ [])

abbrev pub container_env : String → Certificate → List String
container_env private_key cert =
    text_append "WIREGUARD_PRIVATE_KEY=" private_key
    ∷ text_append "WIREGUARD_SERVER_PUBLIC_KEY=" cert.peer_public_key
    ∷ text_append "WIREGUARD_ADDRESS=" (client_address cert)
    ∷ text_append "WIREGUARD_ENDPOINT=" (server_endpoint cert)
    ∷ text_append "WIREGUARD_DNS=" (first_dns cert.dns)
    ∷ text_append "WIREGUARD_CONFIG=" (wg_config private_key cert)
    ∷ []
