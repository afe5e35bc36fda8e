-- ===== src/Metrics/Examples.antt =====
-- The theorems on the series of traffic at concrete rows.
use opencode_multi_agents.Prelude.{ℕ, ◌*◌, ◌≡◌, refl, [], ◌∷◌, arith, tally}
use opencode_multi_agents.Metrics.Store.{Store, TrafficRow, Zone, traffic}
use opencode_multi_agents.Metrics.Store.Series.{
  utc, in_minutes, requests_of, traffic-utc, traffic_ahead,
}

abbrev call : ℕ → TrafficRow
call ts = record {
  ts = ts;
  method = "GET";
  route = "/v1/models";
  status = 200;
  duration_ms = 5;
  bytes_out = 100;
}

-- Two calls in the window, and an old one.
abbrev some_traffic : Store
some_traffic = record {
  requests = [];
  endpoint_traffic = call 100 ∷ call 9000 ∷ call 9990 ∷ [];
  window = 30;
}

traffic-utc_example :
    requests_of (traffic utc 10000 10000 some_traffic)
    ≡ tally (in_minutes 8200 10000 30) some_traffic.endpoint_traffic
traffic-utc_example = traffic-utc 10000 10000 some_traffic (omega arith)

abbrev jakarta : Zone
jakarta = record { east = 7 * 3600; west = 0 }

traffic_ahead_example : requests_of (traffic jakarta 10000 10000 some_traffic) ≡ 0
traffic_ahead_example =
    traffic_ahead jakarta 10000 10000 some_traffic (omega arith) refl (omega arith) (omega arith)
