-- ===== src/Prelude/Map.antt =====
-- Go's `map[string]V`: an association list whose order stands for one order of iteration.
use Prim.Native.String.{String}
use mathlib.Core.Path.{◌≡◌, refl}
use mathlib.Core.Option.{Option, none, some}
use mathlib.Core.List.{List, [], ◌∷◌}
use native.Mathlib.Omega.{arith}
use text.Mathlib.TextEquality.{eq_iff}
use opencode_multi_agents.Prelude.Tests.{str_eq, if◌then◌else◌}

abbrev pub Map {ℓ} : Type ℓ → Type ℓ
Map V = List (String × V)

module _ {ℓ} {V : Type ℓ} where
  -- `entries[key]`, with `none` for a missing key
  unfoldable pub lookup : String → Map V → Option V
  lookup key [] = none
  lookup key ((name, val) ∷ entries) = if str_eq name key then some val else lookup key entries

  -- `entries[key] = val`
  unfoldable pub insert : String → V → Map V → Map V
  insert key val [] = (key, val) ∷ []
  insert key val ((name, old) ∷ entries) =
      if str_eq name key then (key, val) ∷ entries else (name, old) ∷ insert key val entries

  -- `delete(m, k)`
  unfoldable pub delete : String → Map V → Map V
  delete k [] = []
  delete k ((j, v) ∷ m) = let rest = delete k m in if str_eq j k then rest else (j, v) ∷ rest

  abbrev pub values : Map V → List V
  values [] = []
  values ((j, v) ∷ m) = v ∷ values m

  pub lookup-insert :
      (set asked : String) (val : V) (entries : Map V)
      → lookup asked (insert set val entries)
        ≡ (if str_eq set asked then some val else lookup asked entries)
  unfolding insert lookup
  lookup-insert set asked val ((name, old) ∷ entries) = ground (
    arith,
    lookup-insert set asked val entries,
    eq_iff name set,
    eq_iff name asked,
    eq_iff set asked,
  )
  lookup-insert set asked val [] = refl

  pub lookup-delete :
      (k j : String) (m : Map V) → lookup j (delete k m) ≡ (if str_eq k j then none else lookup j m)
  unfolding lookup delete
  lookup-delete k j [] = ground arith
  lookup-delete k j ((i, w) ∷ m) =
      ground (arith, eq_iff k j, eq_iff i k, eq_iff i j, lookup-delete k j m)

  pub lookup-insert_self : (k : String) (v : V) (m : Map V) → lookup k (insert k v m) ≡ some v
  lookup-insert_self k v m = ground (arith, lookup-insert k k v m, eq_iff k k)

pub ruleset map_laws = (lookup-insert, lookup-delete)
