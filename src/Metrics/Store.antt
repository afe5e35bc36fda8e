-- ===== src/Metrics/Store.antt =====
-- internal/metrics/metrics.go: the tables of requests and of traffic, and what is counted in them.
-- Times are Unix seconds. The column of costs, which is a float64, and the averages are left out; so
-- are the lists by model and by endpoint. A statement of the database is taken to succeed.
pub mod Series
use opencode_multi_agents.Prelude.{
  ℕ, zero, suc, ◌+◌, ◌-◌, ◌*◌, ◌/◌, String, Bool, true, false, ◌&&◌, ◌||◌, not, List, [], ◌∷◌, ◌++◌,
  ltb, leb, ◌==◌, str_eq, if◌then◌else◌, length, select, tally,
}
use opencode_multi_agents.Gateway.Stream.{Usage}

pub record RequestRow : Type 0 where
  pub timestamp : ℕ
  pub model : String
  pub stream : Bool
  pub success : Bool
  pub status : ℕ
  pub latency_ms : ℕ
  pub usage : Usage

pub record TrafficRow : Type 0 where
  pub ts : ℕ
  pub method : String
  pub route : String
  pub status : ℕ
  pub duration_ms : ℕ
  pub bytes_out : ℕ

-- The rows stand in the order in which they came.
pub record Store : Type 0 where
  pub requests : List RequestRow
  pub endpoint_traffic : List TrafficRow
  pub window : ℕ

-- New, on a new file
abbrev pub new_metrics : Store
new_metrics = record { requests = []; endpoint_traffic = []; window = 30 }

abbrev pub prune_age : ℕ
prune_age = 7 * 24 * 3600

-- orUnknown
abbrev pub or_unknown : String → String
or_unknown s = if str_eq s "" then "unknown" else s

-- Record; the latency is in nanoseconds
unfoldable pub record_request : ℕ → String → Bool → Bool → ℕ → ℕ → Usage → Store → Store
record_request now model stream success status latency usage s = record s {
  requests =
      s.requests
      ++ record {
        timestamp = now;
        model = or_unknown model;
        stream = stream;
        success = success;
        status = status;
        latency_ms = latency / 1_000_000;
        usage = usage;
      }
        ∷ [];
}

-- RecordEndpoint
unfoldable pub record_endpoint : ℕ → String → String → ℕ → ℕ → ℕ → Store → Store
record_endpoint now method route status duration bytes_out s = record s {
  endpoint_traffic =
      s.endpoint_traffic
      ++ record {
        ts = now;
        method = method;
        route = route;
        status = status;
        duration_ms = duration / 1_000_000;
        bytes_out = bytes_out;
      }
        ∷ [];
}

-- Prune, at two readings of the clock
unfoldable pub prune : ℕ → ℕ → Store → Store
prune now now' s = record s {
  requests = select (λ r. leb (now - prune_age) r.timestamp) s.requests;
  endpoint_traffic = select (λ r. leb (now' - prune_age) r.ts) s.endpoint_traffic;
}

abbrev pub total : {A : Type 0} → (A → ℕ) → List A → ℕ
total f [] = 0
total f (x ∷ xs) = f x + total f xs

pub record Summary : Type 0 where
  pub total_requests : ℕ
  pub total_errors : ℕ
  pub stream_requests : ℕ
  pub total_tokens : ℕ
  pub total_prompt_tokens : ℕ
  pub total_completion_tokens : ℕ
  pub total_cached_tokens : ℕ

-- summary
unfoldable pub summary : Store → Summary
summary s = record {
  total_requests = length s.requests;
  total_errors = tally (λ r. not r.success) s.requests;
  stream_requests = tally (λ r. r.stream) s.requests;
  total_tokens = total (λ r. r.usage.total_tokens) s.requests;
  total_prompt_tokens = total (λ r. r.usage.prompt_tokens) s.requests;
  total_completion_tokens = total (λ r. r.usage.completion_tokens) s.requests;
  total_cached_tokens = total (λ r. r.usage.cached_tokens) s.requests;
}

-- The offset of the local time from UTC, in seconds to the east or to the west.
pub record Zone : Type 0 where
  pub east : ℕ
  pub west : ℕ

-- The minute that a text such as "2006-01-02T15:04" stands for.
abbrev pub local_minute : Zone → ℕ → ℕ
local_minute zone t = (t + zone.east - zone.west) / 60

-- `status >= 400`
abbrev pub is_error : TrafficRow → Bool
is_error r = leb 400 r.status

-- The rows of a group of the query: those from `start` on of one minute, in UTC.
abbrev pub in_bucket : ℕ → ℕ → TrafficRow → Bool
in_bucket start bucket r = leb start r.ts && r.ts / 60 == bucket

pub record TrafficPoint : Type 0 where
  pub minute : ℕ
  pub requests : ℕ
  pub errors : ℕ

-- What `counts` has for a bucket, and (0, 0) where it has nothing.
unfoldable pub point : ℕ → List TrafficRow → ℕ → TrafficPoint
point start rows bucket = record {
  minute = bucket;
  requests = tally (in_bucket start bucket) rows;
  errors = tally (λ r. in_bucket start bucket r && is_error r) rows;
}

-- The loop, from i = n - 1 down to 0.
unfoldable pub points : Zone → ℕ → ℕ → List TrafficRow → ℕ → List TrafficPoint
unfolding point
points zone start now rows zero = []
points zone start now rows (suc i) =
    point start rows (local_minute zone (now - i * 60)) ∷ points zone start now rows i

-- traffic, at two readings of the clock
unfoldable pub traffic : Zone → ℕ → ℕ → Store → List TrafficPoint
unfolding points
traffic zone now now' s = points zone (now - s.window * 60) now' s.endpoint_traffic s.window

abbrev pub among : List String → String → Bool
among [] s = false
among (t ∷ ts) s = str_eq t s || among ts s

-- COUNT(DISTINCT route)
unfoldable pub distinct : List String → List TrafficRow → ℕ
distinct seen [] = 0
distinct seen (r ∷ rs) =
    let old = distinct seen rs in
    let new = suc (distinct (r.route ∷ seen) rs) in if among seen r.route then old else new

pub record ServerStats : Type 0 where
  pub total_requests : ℕ
  pub total_errors : ℕ
  pub bytes_out : ℕ
  pub routes : ℕ

-- server, without its endpoints
unfoldable pub server : Store → ServerStats
unfolding distinct
server s = record {
  total_requests = length s.endpoint_traffic;
  total_errors = tally is_error s.endpoint_traffic;
  bytes_out = total (λ r. r.bytes_out) s.endpoint_traffic;
  routes = distinct [] s.endpoint_traffic;
}
