-- ===== src/Config/Store/Seeds.antt =====
-- SeedFromConfig at the next start.
use opencode_multi_agents.Prelude.{
  suc, ◌≡◌, refl, sym, ap, subst, String, true, ◌||◌, Option, none, some, List, [], ◌∷◌, ◌++◌,
  arith, Bool-cases, Option-cases, inl, inr,
}
use opencode_multi_agents.Prelude.Bytes.{Bytes, same_bytes, same_bytes_self}
use opencode_multi_agents.Prelude.Text.{bytes_of}
use opencode_multi_agents.Config.Table.{Table, insert_row, taken}
use opencode_multi_agents.Config.Store.{
  Account, ProxyConfig, ConfigStore, Seed, proxy_columns, seed_proxy, seed_proxies, seed_accounts,
  seeded, no_accounts, seed_from_config,
}

-- An address stands in the table.
abbrev Has : String → Table ProxyConfig → Type 0
Has addr t = taken proxy_columns (bytes_of addr) t.rows ≡ true

taken-snoc :
    (s : Bytes) (rows : List ProxyConfig) (row : ProxyConfig)
    → taken proxy_columns s (rows ++ row ∷ [])
      ≡ (taken proxy_columns s rows || same_bytes (bytes_of row.address) s)
unfolding taken
taken-snoc s [] row = ground arith
taken-snoc s (old ∷ rows) row = ground (arith, taken-snoc s rows row)

-- An address that was added is there, and so are those before.
insert_row-Has :
    (addr : String) (t : Table ProxyConfig) {r : ProxyConfig × Table ProxyConfig}
    → insert_row proxy_columns (seed_proxy addr) t ≡ some r
    → Has addr r.1
unfolding insert_row
insert_row-Has addr t {r = r} e = elim (Bool-cases (taken proxy_columns (bytes_of addr) t.rows)) [
  | inl known ↦ ground (arith, e, known)
  | inr free ↦
      let new : ProxyConfig = record { id = suc t.last; address = addr; enabled = true } in
      let made : r ≡ (new, record { rows = t.rows ++ new ∷ []; last = suc t.last }) =
        ground (arith, e, free) in
      subst (λ (p : ProxyConfig × Table ProxyConfig). Has addr p.1) (sym made)
        (ground (arith, taken-snoc (bytes_of addr) t.rows new, same_bytes_self (bytes_of addr)))
]

insert_row-keeps :
    (addr x : String) (t : Table ProxyConfig) {r : ProxyConfig × Table ProxyConfig}
    → insert_row proxy_columns (seed_proxy addr) t ≡ some r
    → Has x t
    → Has x r.1
unfolding insert_row
insert_row-keeps addr x t {r = r} e h =
    elim (Bool-cases (taken proxy_columns (bytes_of addr) t.rows)) [
      | inl known ↦ ground (arith, e, known)
      | inr free ↦
          let new : ProxyConfig = record { id = suc t.last; address = addr; enabled = true } in
          let made : r ≡ (new, record { rows = t.rows ++ new ∷ []; last = suc t.last }) =
            ground (arith, e, free) in
          subst (λ (p : ProxyConfig × Table ProxyConfig). Has x p.1) (sym made)
            (ground (arith, taken-snoc (bytes_of x) t.rows new, h))
    ]

seed_proxies-keeps :
    (addrs : List String) (x : String) (t t' : Table ProxyConfig)
    → seed_proxies addrs t ≡ some t'
    → Has x t
    → Has x t'
unfolding seed_proxies
seed_proxies-keeps [] x t t' e h = ground (arith, e, h)
seed_proxies-keeps (addr ∷ addrs) x t t' e h =
    elim (Option-cases (insert_row proxy_columns (seed_proxy addr) t)) [
      | inl known ↦ ground (arith, e, known)
      | inr (r, made) ↦
          seed_proxies-keeps addrs x r.1 t' (ground (arith, e, made))
            (insert_row-keeps addr x t made h)
    ]

seed_proxies-Has :
    (addr : String) (addrs : List String) (t : Table ProxyConfig) {t' : Table ProxyConfig}
    → seed_proxies (addr ∷ addrs) t ≡ some t'
    → Has addr t'
unfolding seed_proxies
seed_proxies-Has addr addrs t {t' = t'} e =
    elim (Option-cases (insert_row proxy_columns (seed_proxy addr) t)) [
      | inl known ↦ ground (arith, e, known)
      | inr (r, made) ↦
          seed_proxies-keeps addrs addr r.1 t' (ground (arith, e, made))
            (insert_row-Has addr t made)
    ]

-- A list that starts with an address of the table fails.
seed_proxies-none :
    (addr : String) (addrs : List String) (t : Table ProxyConfig)
    → Has addr t
    → seed_proxies (addr ∷ addrs) t ≡ none
unfolding seed_proxies insert_row
seed_proxies-none addr addrs t h = ground (arith, h)

seeded-none :
    (cfg : Seed) (s : ConfigStore) (o : Option (Table Account)) → seeded cfg s o none ≡ none
seeded-none cfg s none = refl
seeded-none cfg s (some t) = refl

seeded-Has :
    (cfg : Seed) (s : ConfigStore) (addr : String) (addrs : List String)
    (o : Option (Table Account)) (s' : ConfigStore)
    → seeded cfg s o (seed_proxies (addr ∷ addrs) s.proxies) ≡ some s'
    → Has addr s'.proxies
seeded-Has cfg s addr addrs none s' e = ground (arith, e)
seeded-Has cfg s addr addrs (some t) s' e =
    elim (Option-cases (seed_proxies (addr ∷ addrs) s.proxies)) [
      | inl known ↦ ground (arith, e, known)
      | inr (t', made) ↦
          let same : s'.proxies ≡ t' = ground (arith, e, made) in
          subst (Has addr) (sym same) (seed_proxies-Has addr addrs s.proxies made)
    ]

-- A start that seeds external proxies but no account leaves a database that the same configuration
-- cannot be seeded into again: the next start gets an error.
pub seed_from_config_again :
    (cfg : Seed) (s s' : ConfigStore) (addr : String) (addrs : List String)
    → cfg.socks5_addrs ≡ addr ∷ addrs
    → no_accounts s'.accounts.rows ≡ true
    → seed_from_config cfg s ≡ some s'
    → seed_from_config cfg s' ≡ none
unfolding seed_from_config
seed_from_config_again cfg s s' addr addrs listed bare e =
    elim (Bool-cases (no_accounts s.accounts.rows)) [
      | inr some_accounts ↦
          let same : s' ≡ s = ground (arith, e, some_accounts) in
          ground
            (arith, bare, some_accounts, ap (λ (x : ConfigStore). no_accounts x.accounts.rows) same)
      | inl before ↦
          let done : seeded cfg s (seed_accounts cfg 0 cfg.accounts s.accounts)
                (seed_proxies (addr ∷ addrs) s.proxies)
              ≡ some s' =
            ground (arith, e, before, listed) in
          let has =
            seeded-Has cfg s addr addrs (seed_accounts cfg 0 cfg.accounts s.accounts) s' done in
          rw (bare, listed, seed_proxies-none addr addrs s'.proxies has)
            (seeded-none cfg s' (seed_accounts cfg 0 cfg.accounts s'.accounts))
    ]
