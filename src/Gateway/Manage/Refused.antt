-- ===== src/Gateway/Manage/Refused.antt =====
-- handleCreateProxy: what a proxy that fails its check leaves behind.
use opencode_multi_agents.Prelude.{
  ℕ, suc, ◌≤◌, ◌≡◌, refl, ap, String, true, false, Option, none, some, List, [], ◌∷◌, ◌++◌, ◌==◌,
  str_eq, arith, All, Bool-cases, inl, inr, ◌⊎◌,
}
use opencode_multi_agents.Prelude.Bytes.{text_trim_space}
use opencode_multi_agents.Prelude.Text.{bytes_of}
use opencode_multi_agents.Proxy.Types.{Proxy}
use opencode_multi_agents.Proxy.Pool.{PoolManager}
use opencode_multi_agents.Proxy.Refresh.{add_external_proxy, joined}
use opencode_multi_agents.Config.Table.{insert_row, delete_row, without_row, taken}
use opencode_multi_agents.Config.Store.{
  ProxyConfig, ConfigStore, proxy_columns, create_proxy_row, delete_proxy,
}
use opencode_multi_agents.Gateway.Manage.{
  Answer, problem, proxy, checked_proxy, handle_create_proxy,
}

-- The last row is taken away again.
without_row-snoc :
    (last : ℕ) (row : ProxyConfig) (rows : List ProxyConfig)
    → All (λ old. old.id ≤ last) rows
    → row.id ≡ suc last
    → without_row proxy_columns row.id (rows ++ row ∷ []) ≡ rows
unfolding without_row
without_row-snoc last row [] h e = ground arith
without_row-snoc last row (old ∷ rows) h e =
    let other : (old.id == row.id) ≡ false = ground (arith, e, h.0) in
    rw other (ap (λ rest. old ∷ rest) (without_row-snoc last row rows h.1 e))

-- An error leaves the rows, the accounts and the pool as they were; the row of an external proxy that
-- is answered stands in the table.
abbrev pub Leaves : ConfigStore → PoolManager → Answer × ConfigStore × PoolManager → Type 0
Leaves s pm (problem status, s', pm') =
    (s'.proxies.rows ≡ s.proxies.rows) × (s'.accounts ≡ s.accounts) × (pm' ≡ pm)
Leaves s pm (proxy status row, s', pm') =
    (s'.proxies.rows ≡ s.proxies.rows ++ row ∷ []) × (s'.accounts ≡ s.accounts)
Leaves s pm (_, s', pm') = Unit {0}

-- A proxy that fails its check does not touch the pool.
joined-none : (o : Option Proxy) (pm pm' : PoolManager) → joined o pm ≡ (none, pm') → pm' ≡ pm
joined-none none pm pm' e = cc
joined-none (some p) pm pm' e = cc

add_external_proxy-none :
    (probe : String → Option String) (now : ℕ) (addr : String) (pm pm' : PoolManager)
    → add_external_proxy probe now addr pm ≡ (none, pm')
    → pm' ≡ pm
unfolding add_external_proxy
add_external_proxy-none probe now addr pm pm' e = joined-none _ pm pm' e

Pair-cases :
    {A B : Type 0} (r : Option A × B)
    → ((b : B) × (r ≡ (none, b))) ⊎ ((a : A) × (b : B) × (r ≡ (some a, b)))
Pair-cases (none, b) = inl (b, refl)
Pair-cases (some a, b) = inr (a, b, refl)

-- What a check makes of the row that was just added.
checked_proxy-Leaves :
    (probe : String → Option String) (now : ℕ) (row : ProxyConfig) (s : ConfigStore)
    (pm : PoolManager)
    → All (λ old. old.id ≤ s.proxies.last) s.proxies.rows
    → row.id ≡ suc s.proxies.last
    → Leaves s pm (
        checked_proxy row
          (record s {
            proxies = record { rows = s.proxies.rows ++ row ∷ []; last = suc s.proxies.last };
          })
          (add_external_proxy probe now row.address pm))
unfolding delete_proxy delete_row
checked_proxy-Leaves probe now row s pm v e =
    elim (Pair-cases (add_external_proxy probe now row.address pm)) [
      | inl (pm', r) ↦ rw r (
        without_row-snoc s.proxies.last row s.proxies.rows v e,
        refl,
        add_external_proxy-none probe now row.address pm pm' r,
      )
      | inr (p, pm', r) ↦ rw r (refl, refl)
    ]

-- A proxy that is refused, for whatever reason, leaves the rows of the table, the accounts and the
-- pool as they were; one that is accepted has its row at the end of the table. No row's ID is larger
-- than the last that was given.
pub handle_create_proxy-Leaves :
    (probe : String → Option String) (now : ℕ) (body : Option String) (s : ConfigStore)
    (pm : PoolManager)
    → All (λ old. old.id ≤ s.proxies.last) s.proxies.rows
    → Leaves s pm (handle_create_proxy probe now body s pm)
unfolding handle_create_proxy create_proxy_row insert_row
handle_create_proxy-Leaves probe now none s pm v = (refl, refl, refl)
handle_create_proxy-Leaves probe now (some address) s pm v =
    let trimmed = text_trim_space address in
    let row : ProxyConfig = record { id = suc s.proxies.last; address = trimmed; enabled = true } in
    elim (Bool-cases (str_eq trimmed "")) [
      | inl e ↦ rw e (refl, refl, refl)
      | inr e ↦ rw e (elim (Bool-cases (taken proxy_columns (bytes_of trimmed) s.proxies.rows)) [
        | inl known ↦ rw known (refl, refl, refl)
        | inr free ↦ rw free (checked_proxy-Leaves probe now row s pm v refl)
      ])
    ]
