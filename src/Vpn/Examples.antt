-- ===== src/Vpn/Examples.antt =====
-- The theorems on ProtonVPN at concrete values.
use opencode_multi_agents.Prelude.{
  ℕ, zero, suc, ◌*◌, ◌≡◌, refl, String, true, none, some, List, [], ◌∷◌, ltb, ◌==◌, All,
}
use opencode_multi_agents.Prelude.Text.{bytes_of}
use opencode_multi_agents.Vpn.Servers.{Scores, Server, LogicalServer, all_candidates, select_server}
use opencode_multi_agents.Vpn.Servers.Best.{IsAllowed, NoBetter, select_server-Best}
use opencode_multi_agents.Vpn.Cookies.{Cookie, parse_cookie_string}
use opencode_multi_agents.Vpn.Cookies.RoundTrip.{print_cookies, parse_cookie_string-print}
use opencode_multi_agents.Vpn.Sessions.{
  Session, Certificate, Client, Peer, granted, conflict, Proton, seconds, get_certificate,
}
use opencode_multi_agents.Vpn.Sessions.Certificates.{Held, get_certificate-Held}

abbrev pub whole : Scores
whole = record {
  Score = ℕ;
  gtb = λ a b. ltb b a;
  eqb = λ a b. a == b;
  rank = λ a. a;
  gt_rank = λ a b. refl;
  eq_rank = λ a b. refl;
}

abbrev pub physical : Server
physical = record {
  entry_ip = "185.0.0.1";
  exit_ip = "185.0.0.2";
  domain = "ch-1.protonvpn.net";
  x25519_public_key = "key";
  status = 0;
}

abbrev pub swiss : String → ℕ → LogicalServer whole
swiss name score = record {
  name = name;
  entry_country = "CH";
  exit_country = "CH";
  domain = "ch-1.protonvpn.net";
  tier = 0;
  features = 0;
  score = score;
  servers = physical ∷ [];
  status = 0;
  load = 10;
}

abbrev pub two_servers : List (LogicalServer whole)
two_servers = swiss "CH#1" 1 ∷ swiss "CH#2" 2 ∷ []

select_server-Best_example :
    IsAllowed whole "CH" [] (swiss "CH#2" 2, physical)
    × All (NoBetter whole (swiss "CH#2" 2, physical)) (all_candidates whole "CH" [] [] two_servers)
unfolding select_server
select_server-Best_example =
    select_server-Best whole "CH" [] [] two_servers (swiss "CH#2" 2, physical) refl

abbrev all_names : List String
all_names = "CH#1" ∷ "CH#2" ∷ []

abbrev cookie : String → String → Cookie
cookie name value = record { name = bytes_of name; value = bytes_of value }

parse_cookie_string-print_example :
    parse_cookie_string (print_cookies (cookie "a" "=") (cookie "b" "" ∷ []))
    ≡ cookie "a" "=" ∷ cookie "b" "" ∷ []
parse_cookie_string-print_example =
    parse_cookie_string-print (cookie "a" "=") (cookie "b" "" ∷ [])
      (refl, ((refl, tt), (((refl, refl), tt), ((refl, refl), tt))))
      ((refl, ((refl, tt), (((refl, refl), tt), tt))), tt)

abbrev pub session : Session
session = record {
  uid = bytes_of "u";
  user_id = bytes_of "u";
  cookies = [];
  expires_at = 10 * 3600 * seconds;
}

abbrev pub certificate : Certificate
certificate = record {
  columns = "cert";
  peer_ip = "10.0.0.9";
  peer_public_key = "key";
  ipv4 = "10.2.0.2";
  dns = [];
  refresh_time = 7200;
  expiration_time = 9000;
}

-- The first key is already in use.
abbrev pub api : Proton
api = record {
  srp_login = λ username password. some session;
  valid = λ n s. true;
  certify = λ n s key peer. elim n [ zero ↦ conflict | suc m ↦ granted certificate ];
  generate = λ n. some (bytes_of "key");
}

abbrev pub client : Client
client = record {
  store = record {
    credentials = none;
    session = none;
    certificates = [];
    ed25519_key = some (bytes_of "old");
  };
  username = "me";
  password = "secret";
  session_cookies_raw = [];
}

abbrev first_peer : Peer
first_peer = record { server_name = "CH#1"; server_ip = "185.0.0.1"; server_pub_key = "key" }

get_certificate-Held_example :
    Held api 1 first_peer client (get_certificate api 1 first_peer client)
get_certificate-Held_example = get_certificate-Held api 1 first_peer client

abbrev other_peer : Peer
other_peer = record { server_name = "SE#1"; server_ip = "186.0.0.1"; server_pub_key = "other" }
