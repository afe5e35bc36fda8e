-- ===== src/Pow/Redeem/Once.antt =====
-- A challenge pays out at most once, whatever the requests do in between.
use opencode_multi_agents.Prelude.{
  ℕ, ◌-◌, ◌≤◌, ◌≡◌, ◌⊎◌, refl, sym, subst, String, Bool, true, false, Option, none, some, List, [],
  ◌∷◌, arith, eq_iff, inl, inr, str_eq, get_elem?, Bool-cases,
}
use opencode_multi_agents.Prelude.Map.{lookup, lookup-insert}
use opencode_multi_agents.Pow.Challenge.{Hashes}
use opencode_multi_agents.Pow.Difficulty.{Float}
use opencode_multi_agents.Pow.Store.{
  StoredChallenge, Store, get_challenge, consume_row, consume_challenge, insert_challenge,
  cleanup_expired,
}
use opencode_multi_agents.Pow.Service.{PowConfig, Base64, PowService}
use opencode_multi_agents.Pow.Issue.{Response}
use opencode_multi_agents.Pow.Redeem.{
  RedeemRequest, Redemption, consumed, consume, refusal, checked, redeem_row, redeem_found,
  redeem_body, handle_redeem,
}
use opencode_multi_agents.Prelude.{All}
use opencode_multi_agents.Pow.Redeem.Rows.{
  IsSpent, consume_row-IsSpent, keep_challenges-some, minted_row-IsSpent,
}
use opencode_multi_agents.Pow.Redeem.Issued.{issue-challenges}
use opencode_multi_agents.Pow.Redeem.Closed.{consumed-closed, handle_challenge-closed}
use opencode_multi_agents.Pow.Redeem.Steps.{
  Running, Event, look, go_on, ask, clean, is_key, mints, unrefused, row_passed, found_passed,
  body_passed, passed, looked, finished, react, earned, paid, payments,
}

consume_row-spends :
    (id : String) (now : ℕ) (o : Option StoredChallenge) (s : Store)
    → lookup id s.pow_challenges ≡ o
    → (consume_row id now o s).0 ≡ true
    → (¬ IsSpent id s.pow_challenges) × IsSpent id (consume_row id now o s).1.pow_challenges
unfolding consume_row IsSpent
consume_row-spends id now none s l e = cc
consume_row-spends id now (some sc) s l e = (
  λ a. ground (arith, e, a sc l),
  λ x y.
      ground (
        arith,
        e,
        y,
        lookup-insert id id (record sc { used = true }) s.pow_challenges,
        eq_iff id id,
      ),
)

module _ (f : Float) (h : Hashes) (enc : Base64) (cfg : PowConfig) where
  -- The two steps.
  abbrev InSteps :
      Redemption → PowService f → Option StoredChallenge → Response × PowService f → Type 0
  InSteps q s none r = (is_key r.0 ≡ false) × (r.1 ≡ s)
  InSteps q s (some sc) r = r ≡ consume f h enc cfg q sc s

  refusal-InSteps :
      (q : Redemption) (sc : StoredChallenge) (s : PowService f) (o : Option (ℕ × String))
      → InSteps q s (unrefused f h enc cfg sc o) (checked f h enc cfg q sc o s)
  unfolding checked
  refusal-InSteps q sc s none = refl
  refusal-InSteps q sc s (some refused) = (refl, refl)

  row-InSteps :
      (q : Redemption) (r : RedeemRequest) (o : Option StoredChallenge) (s : PowService f)
      → InSteps q s (row_passed f h enc cfg q r o) (redeem_row f h enc cfg q r o s)
  unfolding redeem_row
  row-InSteps q r none s = (refl, refl)
  row-InSteps q r (some sc) s = refusal-InSteps q sc s (refusal f h enc cfg q r sc)

  found-InSteps :
      (q : Redemption) (r : RedeemRequest) (b : Bool) (s : PowService f)
      → InSteps q s (found_passed f h enc cfg q r b s) (redeem_found f h enc cfg q r b s)
  unfolding redeem_found
  found-InSteps q r true s = (refl, refl)
  found-InSteps q r false s = row-InSteps q r (get_challenge r.challenge_id s.store) s

  body-InSteps :
      (q : Redemption) (o : Option RedeemRequest) (s : PowService f)
      → InSteps q s (body_passed f h enc cfg q o s) (redeem_body f h enc cfg q o s)
  unfolding redeem_body
  body-InSteps q none s = (refl, refl)
  body-InSteps q (some r) s = elim (Bool-cases (str_eq r.challenge_id "")) [
    | inl e ↦ rw e (refl, refl)
    | inr e ↦ rw e (found-InSteps q r q.get_fails s)
  ]

  -- A redemption with nothing in between is its two steps: without a challenge that passes the checks
  -- it fails and changes nothing, and otherwise it goes on with that challenge.
  pub handle_redeem-InSteps :
      (q : Redemption) (s : PowService f)
      → InSteps q s (passed f h enc cfg q s) (handle_redeem f h enc cfg q s)
  unfolding handle_redeem passed
  handle_redeem-InSteps q s = body-InSteps q q.body s

  abbrev Spent : String → Running f → Type 0
  Spent id t = IsSpent id t.service.store.pow_challenges

  consume-IsSpent :
      (id : String) (q : Redemption) (sc : StoredChallenge) (s : PowService f)
      → IsSpent id s.store.pow_challenges
      → IsSpent id (consume f h enc cfg q sc s).1.store.pow_challenges
  unfolding consume consume_challenge
  consume-IsSpent id q sc s a =
      consumed-closed f h enc cfg (IsSpent id) (λ i now s a. consume_row-IsSpent id i now _ s a) q
        sc q.consume_fails (consume_challenge sc.id q.consume_now s.store) s a
        (consume_row-IsSpent id sc.id q.consume_now _ s.store a)

  looked-Spent :
      (id : String) (q : Redemption) (o : Option StoredChallenge) (t : Running f)
      → Spent id t
      → Spent id (looked f h enc cfg q o t)
  looked-Spent id q none t a = a
  looked-Spent id q (some sc) t a = a

  finished-Spent :
      (id : String) (n : ℕ) (o : Option (Redemption × StoredChallenge)) (t : Running f)
      → Spent id t
      → Spent id (finished f h enc cfg n o t)
  finished-Spent id n none t a = a
  finished-Spent id n (some (q, sc)) t a = consume-IsSpent id q sc t.service a

  react-Spent :
      (id : String) (e : Event) (t : Running f)
      → mints id e ≡ false
      → Spent id t
      → Spent id (react f h enc cfg e t)
  unfolding react insert_challenge cleanup_expired IsSpent
  react-Spent id (look q) t m a = looked-Spent id q (passed f h enc cfg q t.service) t a
  react-Spent id (go_on n) t m a = finished-Spent id n (get_elem? t.passing n) t a
  react-Spent id (ask q) t m a =
      handle_challenge-closed f h enc cfg (IsSpent id) q.id
        (λ sc s st i a e.
          minted_row-IsSpent id sc s st _ (λ z. ground (arith, m, z, i, eq_iff q.id id)) a e)
        q t.service refl a
  react-Spent id (clean now now') t m a =
      λ sc e. a sc (keep_challenges-some (now - 7200) t.service.store.pow_challenges id sc e)

  consumed-paid :
      (q : Redemption) (sc : StoredChallenge) (b : Bool) (r : Bool × Store) (s : PowService f)
      → is_key (consumed f h enc cfg q sc b r s).0 ≡ true
      → (r.0 ≡ true)
        × ((consumed f h enc cfg q sc b r s).1.store.pow_challenges ≡ r.1.pow_challenges)
  unfolding consumed
  consumed-paid q sc true r s e = cc
  consumed-paid q sc false (false, st) s e = cc
  consumed-paid q sc false (true, st) s e =
      (refl, issue-challenges f h enc cfg q sc (record s { store = st }))

  -- A key is paid f h enc cfg only for a challenge that is not spent, and it spends it.
  consume-paid :
      (q : Redemption) (sc : StoredChallenge) (s : PowService f)
      → is_key (consume f h enc cfg q sc s).0 ≡ true
      → (¬ IsSpent sc.id s.store.pow_challenges)
        × IsSpent sc.id (consume f h enc cfg q sc s).1.store.pow_challenges
  unfolding consume consume_challenge
  consume-paid q sc s e =
      let r = consume_challenge sc.id q.consume_now s.store in
      let (done, same) = consumed-paid q sc q.consume_fails r s e in
      let (unspent, spent) =
        consume_row-spends sc.id q.consume_now (lookup sc.id s.store.pow_challenges) s.store refl
          done in
      (unspent, subst (IsSpent sc.id) (sym same) spent)

  earned-cases :
      (id : String) (n : ℕ) (o : Option (Redemption × StoredChallenge)) (t : Running f)
      → (earned f h enc cfg id o t.service ≡ 0)
        ⊎ ((earned f h enc cfg id o t.service ≡ 1)
            × (¬ Spent id t)
            × Spent id (finished f h enc cfg n o t))
  earned-cases id n none t = inl refl
  earned-cases id n (some (q, sc)) t =
      let key = is_key (consume f h enc cfg q sc t.service).0 in
      elim (Bool-cases (str_eq sc.id id)) [
        | inr e ↦ inl (ground (arith, e))
        | inl e ↦ elim (Bool-cases key) [
          | inr k ↦ inl (ground (arith, e, k))
          | inl k ↦
              let same : sc.id ≡ id = ground (arith, e, eq_iff sc.id id) in
              let (unspent, spent) = consume-paid q sc t.service k in
              inr (
                ground (arith, e, k),
                subst (λ x. ¬ IsSpent x t.service.store.pow_challenges) same unspent,
                subst (λ x. IsSpent x (consume f h enc cfg q sc t.service).1.store.pow_challenges)
                    same spent,
              )
        ]
      ]

  paid-cases :
      (id : String) (e : Event) (t : Running f)
      → (paid f h enc cfg id e t ≡ 0)
        ⊎ ((paid f h enc cfg id e t ≡ 1) × (¬ Spent id t) × Spent id (react f h enc cfg e t))
  unfolding paid react
  paid-cases id (look q) t = inl refl
  paid-cases id (go_on n) t = earned-cases id n (get_elem? t.passing n) t
  paid-cases id (ask q) t = inl refl
  paid-cases id (clean _ _) t = inl refl

  payments-Spent :
      (id : String) (es : List Event) (t : Running f)
      → Spent id t
      → All (λ e. mints id e ≡ false) es
      → payments f h enc cfg id es t ≡ 0
  unfolding payments
  payments-Spent id [] t a m = refl
  payments-Spent id (e ∷ es) t a m =
      let rest = payments-Spent id es (react f h enc cfg e t) (react-Spent id e t m.0 a) m.1 in
      elim (paid-cases id e t) [
        | inl z ↦ omega (arith, z, rest)
        | inr (one, unspent, spent) ↦ absurd (unspent a)
      ]

  -- However the redemptions that the service is asked for interleave, with any number of them between
  -- the checks of another and the statement that consumes its challenge, and with any requests for
  -- challenges and clean-ups, a challenge earns at most one key; as long as no other challenge with
  -- its ID is minted meanwhile.
  pub payments-le :
      (id : String) (es : List Event) (t : Running f)
      → All (λ e. mints id e ≡ false) es
      → payments f h enc cfg id es t ≤ 1
  unfolding payments
  payments-le id [] t m = omega arith
  payments-le id (e ∷ es) t m = elim (paid-cases id e t) [
    | inl z ↦ let rest = payments-le id es (react f h enc cfg e t) m.1 in omega (arith, z, rest)
    | inr (one, unspent, spent) ↦
        let rest = payments-Spent id es (react f h enc cfg e t) spent m.1 in
        omega (arith, one, rest)
  ]
