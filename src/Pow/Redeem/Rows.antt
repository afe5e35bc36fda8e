-- ===== src/Pow/Redeem/Rows.antt =====
-- The challenges' rows: what each statement keeps true of them.
use opencode_multi_agents.Prelude.{
  ℕ, ◌≡◌, ◌≢◌, String, true, false, Option, none, some, [], ◌∷◌, arith, eq_iff,
}
use opencode_multi_agents.Prelude.Map.{Map, lookup, lookup-insert, lookup-delete}
use opencode_multi_agents.Pow.Store.{
  StoredChallenge, Store, consume_row, insert_challenge_row, keep_challenges,
}
use opencode_multi_agents.Pow.Redeem.Sound.{AreKeyed}

-- The challenge is not there, or used.
unfoldable pub IsSpent : String → Map StoredChallenge → Type 0
IsSpent id m = (sc : StoredChallenge) → lookup id m ≡ some sc → sc.used ≡ true

pub consume_row-AreKeyed :
    (id : String) (now : ℕ) (o : Option StoredChallenge) (s : Store)
    → lookup id s.pow_challenges ≡ o
    → AreKeyed s.pow_challenges
    → AreKeyed (consume_row id now o s).1.pow_challenges
unfolding consume_row AreKeyed
consume_row-AreKeyed id now none s l a = a
consume_row-AreKeyed id now (some sc) s l a = λ j x e. ground (
  arith,
  e,
  l,
  a id sc,
  a j x,
  lookup-insert id j (record sc { used = true }) s.pow_challenges,
  eq_iff id j,
)

pub consume_row-IsSpent :
    (i id : String) (now : ℕ) (o : Option StoredChallenge) (s : Store)
    → IsSpent i s.pow_challenges
    → IsSpent i (consume_row id now o s).1.pow_challenges
unfolding consume_row IsSpent
consume_row-IsSpent i id now none s a = a
consume_row-IsSpent i id now (some sc) s a = λ x e.
    ground
      (arith, e, a x, lookup-insert id i (record sc { used = true }) s.pow_challenges, eq_iff id i)

pub keep_challenges-some :
    (cutoff : ℕ) (m : Map StoredChallenge) (id : String) (sc : StoredChallenge)
    → lookup id (keep_challenges cutoff m) ≡ some sc
    → lookup id m ≡ some sc
unfolding keep_challenges lookup
keep_challenges-some cutoff [] id sc e = e
keep_challenges-some cutoff ((j, x) ∷ m) id sc e = ground (
  arith,
  e,
  keep_challenges-some cutoff m id sc,
  lookup-delete j id (keep_challenges cutoff m),
  eq_iff j id,
)

pub minted_row-IsSpent :
    (i : String) (sc : StoredChallenge) (s st : Store) (o : Option StoredChallenge)
    → sc.id ≢ i
    → IsSpent i s.pow_challenges
    → insert_challenge_row sc o s ≡ some st
    → IsSpent i st.pow_challenges
unfolding insert_challenge_row IsSpent
minted_row-IsSpent i sc s st (some _) n a e = ground (arith, e)
minted_row-IsSpent i sc s st none n a e = λ x y. ground (
  arith,
  e,
  n,
  a x,
  y,
  lookup-insert sc.id i (record sc { used = false }) s.pow_challenges,
  eq_iff sc.id i,
)

pub minted_row-AreKeyed :
    (sc : StoredChallenge) (s st : Store) (o : Option StoredChallenge)
    → AreKeyed s.pow_challenges
    → insert_challenge_row sc o s ≡ some st
    → AreKeyed st.pow_challenges
unfolding insert_challenge_row AreKeyed
minted_row-AreKeyed sc s st (some _) a e = ground (arith, e)
minted_row-AreKeyed sc s st none a e = λ j x y. ground (
  arith,
  e,
  a j x,
  y,
  lookup-insert sc.id j (record sc { used = false }) s.pow_challenges,
  eq_iff sc.id j,
)
