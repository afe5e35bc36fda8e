-- ===== src/Metrics/Store/Series.antt =====
-- The series of traffic: what it counts, and when it counts nothing.
use opencode_multi_agents.Prelude.{
  ℕ, zero, suc, ◌+◌, ◌-◌, ◌*◌, ◌/◌, ◌≤◌, ◌<◌, ◌≡◌, ◌∙◌, refl, ap, sym, Bool, true, false, ◌&&◌,
  List, [], ◌∷◌, arith, ltb, leb, if◌then◌else◌, select, tally, All, All-imp, Bool-cases, inl, inr,
}
use opencode_multi_agents.Metrics.Store.{
  Store, TrafficRow, TrafficPoint, Zone, prune, prune_age, in_bucket, is_error, local_minute, point,
  points, total, traffic,
}

abbrev pub utc : Zone
utc = record { east = 0; west = 0 }

-- A row from `start` on whose minute is one of the n up to that of `now`.
abbrev pub in_minutes : ℕ → ℕ → ℕ → TrafficRow → Bool
in_minutes start now n r =
    leb start r.ts && (ltb (now / 60) (r.ts / 60 + n) && leb (r.ts / 60) (now / 60))

tally-split :
    (p q both : TrafficRow → Bool) (rows : List TrafficRow)
    → ((r : TrafficRow)
        → (if p r then 1 else 0) + (if q r then 1 else 0) ≡ (if both r then 1 else 0))
    → tally p rows + tally q rows ≡ tally both rows
tally-split p q both [] h = refl
tally-split p q both (r ∷ rows) h = ground (arith, h r, tally-split p q both rows h)

-- One more minute.
more_minutes :
    (start now i : ℕ) (r : TrafficRow)
    → suc i * 60 ≤ now
    → (if in_bucket start (local_minute utc (now - i * 60)) r then 1 else 0)
        + (if in_minutes start now i r then 1 else 0)
      ≡ (if in_minutes start now (suc i) r then 1 else 0)
more_minutes start now i r h =
    let bucket : (now - i * 60 + 0 - 0) / 60 ≡ now / 60 - i = omega (arith, h) in
    let far : i < now / 60 = omega (arith, h) in ground (arith, bucket, far)

tally_none :
    (p : TrafficRow → Bool) (rows : List TrafficRow)
    → All (λ r. p r ≡ false) rows
    → tally p rows ≡ 0
tally_none p [] h = refl
tally_none p (r ∷ rows) h = ground (arith, h.0, tally_none p rows h.1)

All-every :
    (P : TrafficRow → Type 0) (rows : List TrafficRow) → ((r : TrafficRow) → P r) → All P rows
All-every P [] h = tt
All-every P (r ∷ rows) h = (h r, All-every P rows h)

abbrev pub requests_of : List TrafficPoint → ℕ
requests_of ps = total (λ p. p.requests) ps

points-utc :
    (start now : ℕ) (rows : List TrafficRow) (n : ℕ)
    → n * 60 ≤ now
    → requests_of (points utc start now rows n) ≡ tally (in_minutes start now n) rows
unfolding points point
points-utc start now rows zero h = sym (
    tally_none (in_minutes start now 0) rows
      (All-every (λ r. in_minutes start now 0 r ≡ false) rows (λ r. ground arith)))
points-utc start now rows (suc i) h =
    ap (λ k. tally (in_bucket start (local_minute utc (now - i * 60))) rows + k)
      (points-utc start now rows i (omega (arith, h)))
    ∙ tally-split (in_bucket start (local_minute utc (now - i * 60))) (in_minutes start now i)
        (in_minutes start now (suc i)) rows (λ r. more_minutes start now i r h)

-- On a machine whose local time is UTC, the points of the series count together the rows since the
-- start of the window that lie in one of the minutes that it shows, each of them once.
pub traffic-utc :
    (now now' : ℕ) (s : Store)
    → s.window * 60 ≤ now'
    → requests_of (traffic utc now now' s)
      ≡ tally (in_minutes (now - s.window * 60) now' s.window) s.endpoint_traffic
unfolding traffic
traffic-utc now now' s h = points-utc (now - s.window * 60) now' s.endpoint_traffic s.window h

points-ahead :
    (zone : Zone) (start now : ℕ) (rows : List TrafficRow) (n : ℕ)
    → n * 60 ≤ now
    → zone.west ≡ 0
    → n * 60 ≤ zone.east
    → All (λ r. r.ts ≤ now) rows
    → requests_of (points zone start now rows n) ≡ 0
unfolding points point
points-ahead zone start now rows zero h w e past = refl
points-ahead zone start now rows (suc i) h w e past =
    let bucket : now / 60 < local_minute zone (now - i * 60) = omega (arith, h, w, e) in
    let nothing = tally_none (in_bucket start (local_minute zone (now - i * 60))) rows (
      All-imp (λ r. r.ts ≤ now) (λ r. in_bucket start (local_minute zone (now - i * 60)) r ≡ false)
        rows (λ r past_r. ground (arith, bucket, past_r)) past) in
    omega (
      arith,
      nothing,
      points-ahead zone start now rows i (omega (arith, h)) w (omega (arith, e)) past,
    )

-- Where the local time is ahead of UTC by the window or more, the series counts nothing at all, however
-- much traffic there was. No row is from the future.
pub traffic_ahead :
    (zone : Zone) (now now' : ℕ) (s : Store)
    → s.window * 60 ≤ now'
    → zone.west ≡ 0
    → s.window * 60 ≤ zone.east
    → All (λ r. r.ts ≤ now') s.endpoint_traffic
    → requests_of (traffic zone now now' s) ≡ 0
unfolding traffic
traffic_ahead zone now now' s h w e past =
    points-ahead zone (now - s.window * 60) now' s.endpoint_traffic s.window h w e past

-- A test that only rows from `start` on pass does not see what an earlier cutoff takes away.
tally-select :
    (cutoff start : ℕ) (p : TrafficRow → Bool) (rows : List TrafficRow)
    → cutoff ≤ start
    → ((r : TrafficRow) → p r ≡ true → start ≤ r.ts)
    → tally p (select (λ r. leb cutoff r.ts) rows) ≡ tally p rows
tally-select cutoff start p [] h late = refl
tally-select cutoff start p (r ∷ rows) h late = elim (Bool-cases (p r)) [
  | inl e ↦ ground (arith, h, e, late r e, tally-select cutoff start p rows h late)
  | inr e ↦ ground (arith, h, e, tally-select cutoff start p rows h late)
]

point-select :
    (cutoff start : ℕ) (rows : List TrafficRow) (bucket : ℕ)
    → cutoff ≤ start
    → point start (select (λ r. leb cutoff r.ts) rows) bucket ≡ point start rows bucket
unfolding point
point-select cutoff start rows bucket h i = record {
  minute = bucket;
  requests = tally-select cutoff start (in_bucket start bucket) rows h (λ r e. ground (arith, e)) i;
  errors =
      tally-select cutoff start (λ r. in_bucket start bucket r && is_error r) rows h
        (λ r e. ground (arith, e)) i;
}

points-select :
    (zone : Zone) (cutoff start now : ℕ) (rows : List TrafficRow) (n : ℕ)
    → cutoff ≤ start
    → points zone start now (select (λ r. leb cutoff r.ts) rows) n ≡ points zone start now rows n
unfolding points
points-select zone cutoff start now rows zero h = refl
points-select zone cutoff start now rows (suc i) h =
    ap (λ p. p ∷ points zone start now (select (λ r. leb cutoff r.ts) rows) i)
      (point-select cutoff start rows (local_minute zone (now - i * 60)) h)
    ∙ ap (λ ps. point start rows (local_minute zone (now - i * 60)) ∷ ps)
        (points-select zone cutoff start now rows i h)

-- Pruning takes nothing from the series that is shown afterwards, if the window is no longer than the
-- age at which rows are pruned and the clock has not gone back since.
pub traffic-prune :
    (zone : Zone) (early early' now now' : ℕ) (s : Store)
    → s.window * 60 ≤ prune_age
    → early' ≤ now
    → traffic zone now now' (prune early early' s) ≡ traffic zone now now' s
unfolding traffic prune
traffic-prune zone early early' now now' s w t =
    points-select zone (early' - prune_age) (now - s.window * 60) now' s.endpoint_traffic s.window
      (omega (arith, w, t))
