-- ===== src/Metrics/Pricing/Longest.antt =====
-- GetEntry: which entry is found.
use opencode_multi_agents.Prelude.{
  ◌≤◌, ◌≡◌, refl, ap, sym, ◌∙◌, subst, ◌⊎◌, inl, inr, true, ◌&&◌, Option, none, some, [], ◌∷◌,
  arith, ltb, if◌then◌else◌, length, All, Bool-cases, Option-cases,
}
use opencode_multi_agents.Prelude.Bytes.{Bytes, same_bytes, same_bytes_self, contains}
use opencode_multi_agents.Metrics.Pricing.{
  Rates, PriceEntry, PricingTable, find_price, best_key, or_longest, get_entry,
}

module _ (rates : Rates) where
  -- A key is no longer than another if the model contains it.
  abbrev pub Shorter : Bytes → Bytes → Bytes × PriceEntry rates → Type 0
  Shorter model best row = contains row.0 model ≡ true → length row.0 ≤ length best

  abbrev next_best : Bytes → Bytes → Bytes → Bytes
  next_best model best key =
      if contains key model && ltb (length best) (length key) then key else best

  next_best-longer :
      (model best key : Bytes)
      → (length best ≤ length (next_best model best key))
        × (contains key model ≡ true → length key ≤ length (next_best model best key))
  next_best-longer model best key = ground arith

  best_key-longest :
      (model best : Bytes) (table : PricingTable rates)
      → let b = best_key rates model best table in
        (length best ≤ length b) × All (Shorter model b) table
  unfolding best_key
  best_key-longest model best [] = (omega arith, tt)
  best_key-longest model best ((key, entry) ∷ table) =
      let next = next_best-longer model best key in
      let rest = best_key-longest model (next_best model best key) table in
      (omega (arith, next.0, rest.0), ((λ h. omega (arith, next.1 h, rest.0)), rest.1))

  -- The key that is found is the one at the start, or is contained in the model and has an entry.
  abbrev Listed : Bytes → PricingTable rates → Type 0
  Listed key table = (e : PriceEntry rates) × (find_price rates key table ≡ some e)

  Listed-more :
      (key other : Bytes) (entry : PriceEntry rates) (table : PricingTable rates)
      → Listed key table
      → Listed key ((other, entry) ∷ table)
  unfolding find_price
  Listed-more key other entry table (e, h) = elim (Bool-cases (same_bytes other key)) [
    | inl same ↦ (entry, ap (λ b. if b then some entry else find_price rates key table) same)
    | inr differs ↦ (e, ap (λ b. if b then some entry else find_price rates key table) differs ∙ h)
  ]

  next_best-cases :
      (model best key : Bytes)
      → (next_best model best key ≡ best)
        ⊎ ((next_best model best key ≡ key) × (contains key model ≡ true))
  next_best-cases model best key =
      elim (Bool-cases (contains key model && ltb (length best) (length key))) [
        | inl e ↦ inr (ap (λ b. if b then key else best) e, ground (arith, e))
        | inr e ↦ inl (ap (λ b. if b then key else best) e)
      ]

  Listed-first :
      (key : Bytes) (entry : PriceEntry rates) (table : PricingTable rates)
      → Listed key ((key, entry) ∷ table)
  unfolding find_price
  Listed-first key entry table =
      (entry, ap (λ b. if b then some entry else find_price rates key table) (same_bytes_self key))

  best_key-Listed :
      (model best : Bytes) (table : PricingTable rates)
      → let b = best_key rates model best table in
        (b ≡ best) ⊎ ((contains b model ≡ true) × Listed b table)
  unfolding best_key find_price
  best_key-Listed model best [] = inl refl
  best_key-Listed model best ((key, entry) ∷ table) =
      let next = next_best model best key in
      elim (best_key-Listed model next table) [
        | inr h ↦ inr (h.0, Listed-more (best_key rates model next table) key entry table h.1)
        | inl same ↦ elim (next_best-cases model best key) [
          | inl kept ↦ inl (same ∙ kept)
          | inr taken ↦ inr (
              subst (λ b. (contains b model ≡ true) × Listed b ((key, entry) ∷ table))
                (sym (same ∙ taken.0)) (taken.1, Listed-first key entry table))
        ]
      ]

  -- What is found where no key is the model itself.
  abbrev pub Found : Bytes → PricingTable rates → Option (PriceEntry rates) → Type 0
  Found model table o =
      (key : Bytes) × (All (Shorter model key) table
        × (((key ≡ []) × (o ≡ none))
            ⊎ ((contains key model ≡ true)
                × ((e : PriceEntry rates) × ((find_price rates key table ≡ some e)
                      × (o ≡ some e))))))

  or_longest-Found :
      (model key : Bytes) (table : PricingTable rates)
      → All (Shorter model key) table
      → (key ≡ []) ⊎ ((contains key model ≡ true) × Listed key table)
      → Found model table (or_longest rates key table none)
  or_longest-Found model [] table longest h = ([], (longest, inl (refl, refl)))
  or_longest-Found model (c ∷ key) table longest (inl h) = cc
  or_longest-Found model (c ∷ key) table longest (inr (there, (e, found))) =
      (c ∷ key, (longest, inr (there, (e, (found, found)))))

  -- An entry under the model's own name is the one that is found. Without one it is the entry of a key
  -- that the model's name contains, and no key that the name contains is longer; if there is no such
  -- key but the empty one, there is no entry.
  pub get_entry-Found :
      (model : Bytes) (table : PricingTable rates)
      → ((e : PriceEntry rates) × ((find_price rates model table ≡ some e)
            × (get_entry rates model table ≡ some e)))
        ⊎ Found model table (get_entry rates model table)
  unfolding get_entry
  get_entry-Found model table =
      let key = best_key rates model [] table in
      elim (Option-cases (find_price rates model table)) [
        | inr (e, found) ↦ inl (e, (found, ap (or_longest rates key table) found))
        | inl missing ↦ inr (
            subst (λ o. Found model table (or_longest rates key table o)) (sym missing)
              (or_longest-Found model key table (best_key-longest model [] table).1
                (best_key-Listed model [] table)))
      ]
