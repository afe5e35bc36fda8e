-- ===== src/Pow/Redeem/Sound.antt =====
-- What a successful redemption shows, and that no other changes a challenge.
use opencode_multi_agents.Prelude.{
  ℕ, ◌≤◌, ◌≡◌, refl, sym, ap, subst, ◌∙◌, String, Bool, true, false, inl, inr, Option, none, some,
  arith, ◌/◌, eq_iff, Bool-cases, take, str_eq,
}
use opencode_multi_agents.Prelude.Map.{Map, lookup, lookup-insert}
use opencode_multi_agents.Pow.Challenge.{Hashes, verify, is_solved}
use opencode_multi_agents.Pow.Challenge.Verify.{Solvable, verify-Solvable}
use opencode_multi_agents.Pow.Difficulty.{Float}
use opencode_multi_agents.Pow.Store.{
  StoredChallenge, ApiKey, Store, to_challenge, get_challenge, consume_challenge,
}
use opencode_multi_agents.Pow.Service.{PowConfig, Base64, PowService, plan_rpm, binding_hash}
use opencode_multi_agents.Pow.Issue.{key_out, second}
use opencode_multi_agents.Pow.Redeem.{
  RedeemRequest, Redemption, consumed, consume, refusal, checked, redeem_row, redeem_found,
  redeem_body, handle_redeem,
}
use opencode_multi_agents.Pow.Redeem.Issued.{IsKept, issue-challenges, issue-IsKept}

-- Every row is found under its own ID: the ID is the primary key.
unfoldable pub AreKeyed : Map StoredChallenge → Type 0
AreKeyed m = (id : String) (sc : StoredChallenge) → lookup id m ≡ some sc → sc.id ≡ id

module _ (f : Float) (h : Hashes) (enc : Base64) (cfg : PowConfig) where
  -- What a successful redemption of the challenge in the request shows.
  pub record Redeemed (q : Redemption) (s : PowService f) (key : String) (k : ApiKey)
      (s' : PowService f) : Type 0 where
    pub request : RedeemRequest
    pub row : StoredChallenge
    pub asked : q.body ≡ some request
    pub stored : lookup request.challenge_id s.store.pow_challenges ≡ some row
    pub unused : row.used ≡ false
    pub in_time : q.now / second ≤ row.expires_at
    pub bound : binding_hash h enc q.ip q.user_agent ≡ row.bind
    pub solution : Solvable h (to_challenge row) (take 8 request.counters)
    pub spent : lookup row.id s'.store.pow_challenges ≡ some (record row { used = true })
    pub plan : k.plan ≡ row.plan
    pub rate : k.rpm ≡ plan_rpm cfg row.plan
    pub kept : IsKept f h enc cfg key k s'

  refusal-none :
      (q : Redemption) (r : RedeemRequest) (sc : StoredChallenge)
      → refusal f h enc cfg q r sc ≡ none
      → (sc.used ≡ false)
        × (q.now / second ≤ sc.expires_at)
        × (binding_hash h enc q.ip q.user_agent ≡ sc.bind)
        × (is_solved (verify h (to_challenge sc) r.counters) ≡ true)
  unfolding refusal
  refusal-none q r sc e = ground (arith, e, eq_iff (binding_hash h enc q.ip q.user_agent) sc.bind)

  spent_after :
      (sc : StoredChallenge) (now : ℕ) (st : Store)
      → lookup sc.id st.pow_challenges ≡ some sc
      → (consume_challenge sc.id now st).0 ≡ true
      → lookup sc.id (consume_challenge sc.id now st).1.pow_challenges
        ≡ some (record sc { used = true })
  unfolding consume_challenge
  spent_after sc now st e h = ground (
    arith,
    e,
    h,
    lookup-insert sc.id sc.id (record sc { used = true }) st.pow_challenges,
    eq_iff sc.id sc.id,
  )

  consumed-IsKept :
      (q : Redemption) (sc : StoredChallenge) (b : Bool) (r : Bool × Store) (s : PowService f)
      (key : String) (k : ApiKey)
      → (r.0 ≡ true → lookup sc.id r.1.pow_challenges ≡ some (record sc { used = true }))
      → (consumed f h enc cfg q sc b r s).0 ≡ key_out key k
      → (lookup sc.id (consumed f h enc cfg q sc b r s).1.store.pow_challenges
          ≡ some (record sc { used = true }))
        × (k.plan ≡ sc.plan)
        × (k.rpm ≡ plan_rpm cfg sc.plan)
        × IsKept f h enc cfg key k (consumed f h enc cfg q sc b r s).1
  unfolding consumed
  consumed-IsKept q sc true r s key k done e = ground (arith, e)
  consumed-IsKept q sc false (false, st) s key k done e = ground (arith, e)
  consumed-IsKept q sc false (true, st) s key k done e =
      let s' : PowService f = record s { store = st } in
      let (pl, ra, ke) = issue-IsKept f h enc cfg q sc s' key k e in
      (ap (lookup sc.id) (issue-challenges f h enc cfg q sc s') ∙ done refl, pl, ra, ke)

  checked-Redeemed :
      (q : Redemption) (r : RedeemRequest) (sc : StoredChallenge) (s : PowService f)
      (o : Option (ℕ × String)) (key : String) (k : ApiKey)
      → q.body ≡ some r
      → lookup r.challenge_id s.store.pow_challenges ≡ some sc
      → sc.id ≡ r.challenge_id
      → refusal f h enc cfg q r sc ≡ o
      → (checked f h enc cfg q sc o s).0 ≡ key_out key k
      → Redeemed q s key k (checked f h enc cfg q sc o s).1
  unfolding checked consume
  checked-Redeemed q r sc s (some z) key k b l i n e = ground (arith, e)
  checked-Redeemed q r sc s none key k b l i n e =
      let (u, t, w, v) = refusal-none q r sc n in
      let (sp, pl, ra, ke) =
        consumed-IsKept q sc q.consume_fails (consume_challenge sc.id q.consume_now s.store) s key k
          (spent_after sc q.consume_now s.store
            (subst (λ x. lookup x s.store.pow_challenges ≡ some sc) (sym i) l))
          e in
      record {
        request = r;
        row = sc;
        asked = b;
        stored = l;
        unused = u;
        in_time = t;
        bound = w;
        solution = verify-Solvable h (to_challenge sc) r.counters v;
        spent = sp;
        plan = pl;
        rate = ra;
        kept = ke;
      }

  row-Redeemed :
      (q : Redemption) (r : RedeemRequest) (o : Option StoredChallenge) (s : PowService f)
      (key : String) (k : ApiKey)
      → q.body ≡ some r
      → AreKeyed s.store.pow_challenges
      → lookup r.challenge_id s.store.pow_challenges ≡ o
      → (redeem_row f h enc cfg q r o s).0 ≡ key_out key k
      → Redeemed q s key k (redeem_row f h enc cfg q r o s).1
  unfolding redeem_row AreKeyed
  row-Redeemed q r none s key k b a l e = ground (arith, e)
  row-Redeemed q r (some sc) s key k b a l e =
      checked-Redeemed q r sc s (refusal f h enc cfg q r sc) key k b l (a r.challenge_id sc l) refl
        e

  found-Redeemed :
      (q : Redemption) (r : RedeemRequest) (fails : Bool) (s : PowService f) (key : String)
      (k : ApiKey)
      → q.body ≡ some r
      → AreKeyed s.store.pow_challenges
      → (redeem_found f h enc cfg q r fails s).0 ≡ key_out key k
      → Redeemed q s key k (redeem_found f h enc cfg q r fails s).1
  unfolding redeem_found get_challenge
  found-Redeemed q r true s key k b a e = ground (arith, e)
  found-Redeemed q r false s key k b a e =
      row-Redeemed q r (lookup r.challenge_id s.store.pow_challenges) s key k b a refl e

  body-Redeemed :
      (q : Redemption) (o : Option RedeemRequest) (s : PowService f) (key : String) (k : ApiKey)
      → q.body ≡ o
      → AreKeyed s.store.pow_challenges
      → (redeem_body f h enc cfg q o s).0 ≡ key_out key k
      → Redeemed q s key k (redeem_body f h enc cfg q o s).1
  unfolding redeem_body
  body-Redeemed q none s key k b a = λ e. ground (arith, e)
  body-Redeemed q (some r) s key k b a = elim (Bool-cases (str_eq r.challenge_id "")) [
    | inl x ↦ rw x (λ e. ground (arith, e))
    | inr x ↦ rw x (found-Redeemed q r q.get_fails s key k b a)
  ]

  -- A key is issued only for a challenge that is stored, unused, not past its end and bound to the
  -- client, and of which one of the first eight counters is a solution. Afterwards the challenge
  -- is used, and the key is in the table and the cache, with the challenge's plan and that plan's
  -- rate. The rows of the table are found under their own IDs.
  pub handle_redeem-Redeemed :
      (q : Redemption) (s : PowService f) (key : String) (k : ApiKey)
      → AreKeyed s.store.pow_challenges
      → (handle_redeem f h enc cfg q s).0 ≡ key_out key k
      → Redeemed q s key k (handle_redeem f h enc cfg q s).1
  unfolding handle_redeem
  handle_redeem-Redeemed q s key k a e = body-Redeemed q q.body s key k refl a e
