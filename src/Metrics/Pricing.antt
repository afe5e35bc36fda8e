-- ===== src/Metrics/Pricing.antt =====
-- internal/metrics/pricing.go. A text is a list of its bytes, in ASCII; what is done with the rates,
-- which are float64, is a parameter.
pub mod Longest
use opencode_multi_agents.Prelude.{
  ℕ, Bool, true, false, ◌&&◌, Option, none, some, List, [], ◌∷◌, ltb, ◌==◌, if◌then◌else◌, length,
}
use opencode_multi_agents.Prelude.Bytes.{
  Bytes, same_bytes, is_blank, trim_space, split_at, cut_at, contains,
}
use opencode_multi_agents.Gateway.Stream.{Usage}

pub record Rates : Type 1 where
  pub Rate : Type 0
  pub zero_cost : Rate
  pub parse_float : Bytes → Option Rate
  pub half : Rate → Rate
  -- (prompt * input + completion * output + cached * cached rate) / 1_000_000
  pub cost : ℕ → Rate → ℕ → Rate → ℕ → Rate → Rate

module _ (rates : Rates) where
  open rates use {Rate, parse_float, half}

  pub record PriceEntry : Type 0 where
    pub input_per_1m : Rate
    pub output_per_1m : Rate
    pub cached_per_1m : Rate

  -- The map `entries`, in one order of iteration.
  abbrev pub PricingTable : Type 0
  PricingTable = List (Bytes × PriceEntry)

  unfoldable pub find_price : Bytes → PricingTable → Option PriceEntry
  find_price model [] = none
  find_price model ((key, entry) ∷ table) =
      let rest = find_price model table in if same_bytes key model then some entry else rest

  unfoldable pub set_price : Bytes → PriceEntry → PricingTable → PricingTable
  set_price model entry [] = (model, entry) ∷ []
  set_price model entry ((key, old) ∷ table) =
      let rest = set_price model entry table in
      if same_bytes key model then (model, entry) ∷ table else (key, old) ∷ rest

  -- The rate for cached tokens: the third, if it is there and a number
  abbrev pub cached_rate : Rate → List Bytes → Rate
  cached_rate input [] = half input
  cached_rate input (rate ∷ _) = elim (parse_float (trim_space rate)) [
    | none ↦ half input
    | some r ↦ r
  ]

  abbrev pub entry_with : List Bytes → Option Rate → Option Rate → Option PriceEntry
  entry_with more (some input) (some output) = some (record {
    input_per_1m = input;
    output_per_1m = output;
    cached_per_1m = cached_rate input more;
  })
  entry_with more _ _ = none

  unfoldable pub entry_of : List Bytes → Option PriceEntry
  unfolding trim_space
  entry_of (input ∷ output ∷ more) =
      entry_with more (parse_float (trim_space input)) (parse_float (trim_space output))
  entry_of _ = none

  abbrev pub set_named : Bytes → Option PriceEntry → PricingTable → PricingTable
  set_named model none table = table
  set_named model (some entry) table = if is_blank model then table else set_price model entry table

  -- A part without a colon has no entry; an empty part has none
  unfoldable pub parse_cut : Option (Bytes × Bytes) → PricingTable → PricingTable
  unfolding set_price entry_of trim_space split_at
  parse_cut none table = table
  parse_cut (some (model, rates_str)) table =
      set_named (trim_space model) (entry_of (split_at b',' rates_str)) table

  unfoldable pub parse_all : List Bytes → PricingTable → PricingTable
  unfolding parse_cut cut_at trim_space
  parse_all [] table = table
  parse_all (part ∷ parts) table = parse_all parts (parse_cut (cut_at b':' (trim_space part)) table)

  -- Parse, and NewPricingTable
  unfoldable pub parse_pricing : Bytes → PricingTable
  unfolding parse_all split_at
  parse_pricing config_str = parse_all (split_at b';' config_str) []

  -- The loop of GetEntry: a longer key that the model contains is the better one
  unfoldable pub best_key : Bytes → Bytes → PricingTable → Bytes
  unfolding contains
  best_key model best [] = best
  best_key model best ((key, entry) ∷ table) =
      best_key model (if contains key model && ltb (length best) (length key) then key else best)
        table

  abbrev pub or_longest : Bytes → PricingTable → Option PriceEntry → Option PriceEntry
  or_longest best table (some entry) = some entry
  or_longest [] table none = none
  or_longest (c ∷ best) table none = find_price (c ∷ best) table

  -- GetEntry
  unfoldable pub get_entry : Bytes → PricingTable → Option PriceEntry
  unfolding find_price best_key
  get_entry model table = or_longest (best_key model [] table) table (find_price model table)

  abbrev pub cost_of : Option PriceEntry → ℕ → ℕ → ℕ → Rate
  cost_of none prompt completion cached_tokens = rates.zero_cost
  cost_of (some e) prompt completion cached_tokens =
      rates.cost prompt e.input_per_1m completion e.output_per_1m cached_tokens e.cached_per_1m

  -- EstimateCostFromUpstream
  unfoldable pub estimate_cost_from_upstream : Bytes → PricingTable → ℕ → ℕ → ℕ → Rate
  unfolding get_entry
  estimate_cost_from_upstream model table prompt completion cached_tokens =
      cost_of (get_entry model table) prompt completion cached_tokens

  -- EstimateCost
  unfoldable pub estimate_cost : Bytes → PricingTable → Usage → Rate
  unfolding get_entry
  estimate_cost model table usage =
      cost_of (get_entry model table) usage.prompt_tokens usage.completion_tokens
        usage.cached_tokens
