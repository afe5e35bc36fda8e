-- ===== src/Proxy/Index.antt =====
-- internal/proxy/pool.go: the map `pool` is keyed by the proxies' own IDs, each at most once.
use opencode_multi_agents.Prelude.{
  String, ◌≡◌, refl, none, some, [], ◌∷◌, arith, eq_iff, All, All-imp,
}
use opencode_multi_agents.Prelude.Map.{
  Map, lookup, insert, delete, values, lookup-insert, lookup-delete,
}
use opencode_multi_agents.Proxy.Types.{Proxy}

-- Each entry stands under its proxy's ID, and no ID stands twice.
abbrev pub Indexed : Map Proxy → Type 0
Indexed [] = Unit
Indexed ((k, p) ∷ m) = (p.id ≡ k) × (lookup k m ≡ none) × Indexed m

pub insert-Indexed :
    (k : String) (p : Proxy) (m : Map Proxy) → p.id ≡ k → Indexed m → Indexed (insert k p m)
unfolding insert lookup
insert-Indexed k p [] e h = (e, refl, tt)
insert-Indexed k p ((j, q) ∷ m) e h =
    ground (arith, insert-Indexed k p m e h.2, lookup-insert k j p m, eq_iff j k, eq_iff k j)

pub delete-Indexed : (k : String) (m : Map Proxy) → Indexed m → Indexed (delete k m)
unfolding delete
delete-Indexed k [] h = tt
delete-Indexed k ((j, q) ∷ m) h =
    ground (arith, delete-Indexed k m h.2, lookup-delete k j m, eq_iff j k, eq_iff k j)

found_below :
    (k : String) (q p : Proxy) (m : Map Proxy)
    → lookup k m ≡ none
    → lookup p.id m ≡ some p
    → lookup p.id ((k, q) ∷ m) ≡ some p
unfolding lookup
found_below k q p m fresh h = ground (arith, eq_iff k p.id)

-- Every proxy of the pool is found under its own ID.
pub Indexed-found :
    (m : Map Proxy) → Indexed m → All (λ (p : Proxy). lookup p.id m ≡ some p) (values m)
unfolding lookup
Indexed-found [] h = tt
Indexed-found ((k, q) ∷ m) h = (
  ground (arith, eq_iff k q.id),
  All-imp _ _ (values m) (λ p e. found_below k q p m h.1 e) (Indexed-found m h.2),
)

-- A proxy found under an ID has that ID.
pub Indexed-lookup :
    (k : String) {p : Proxy} (m : Map Proxy) → Indexed m → lookup k m ≡ some p → p.id ≡ k
unfolding lookup
Indexed-lookup k [] h e = cc
Indexed-lookup k {p = p} ((j, q) ∷ m) h e =
    ground (arith, Indexed-lookup k {p = p} m h.2, eq_iff j k)
