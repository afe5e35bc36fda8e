-- ===== src/Pow/Redeem/Closed.antt =====
-- The handlers change the challenges by consuming and inserting rows alone.
use opencode_multi_agents.Prelude.{
  ℕ, ◌≡◌, refl, sym, subst, String, Bool, true, false, Option, none, some, Bool-cases, inl, inr,
  str_eq,
}
use opencode_multi_agents.Prelude.Int.{ℤ}
use opencode_multi_agents.Prelude.Map.{Map}
use opencode_multi_agents.Pow.Challenge.{Hashes, valid_plan, valid_algo}
use opencode_multi_agents.Pow.Difficulty.{Float}
use opencode_multi_agents.Pow.Store.{StoredChallenge, Store, consume_challenge, insert_challenge}
use opencode_multi_agents.Pow.Service.{PowConfig, Base64, PowService}
use opencode_multi_agents.Pow.Issue.{
  handle_challenge, ChallengeRequest, minted, mint, admit, count_client, count_flood, or_default,
}
use opencode_multi_agents.Pow.Redeem.{
  RedeemRequest, Redemption, consumed, consume, refusal, checked, redeem_row, redeem_found,
  redeem_body, handle_redeem,
}
use opencode_multi_agents.Pow.Redeem.Issued.{issue-challenges}

module _ (f : Float) (h : Hashes) (enc : Base64) (cfg : PowConfig)
    (P : Map StoredChallenge → Type 0)
    (closed : (id : String) (now : ℕ) (s : Store)
      → P s.pow_challenges
      → P (consume_challenge id now s).1.pow_challenges) where
  pub consumed-closed :
      (q : Redemption) (sc : StoredChallenge) (b : Bool) (r : Bool × Store) (s : PowService f)
      → P s.store.pow_challenges
      → P r.1.pow_challenges
      → P (consumed f h enc cfg q sc b r s).1.store.pow_challenges
  unfolding consumed
  consumed-closed q sc true r s p p' = p
  consumed-closed q sc false (false, st) s p p' = p'
  consumed-closed q sc false (true, st) s p p' =
      subst P (sym (issue-challenges f h enc cfg q sc (record s { store = st }))) p'

  checked-closed :
      (q : Redemption) (sc : StoredChallenge) (o : Option (ℕ × String)) (s : PowService f)
      → P s.store.pow_challenges
      → P (checked f h enc cfg q sc o s).1.store.pow_challenges
  unfolding checked consume
  checked-closed q sc (some _) s p = p
  checked-closed q sc none s p =
      consumed-closed q sc q.consume_fails (consume_challenge sc.id q.consume_now s.store) s p
        (closed sc.id q.consume_now s.store p)

  redeem_row-closed :
      (q : Redemption) (r : RedeemRequest) (o : Option StoredChallenge) (s : PowService f)
      → P s.store.pow_challenges
      → P (redeem_row f h enc cfg q r o s).1.store.pow_challenges
  unfolding redeem_row
  redeem_row-closed q r none s p = p
  redeem_row-closed q r (some sc) s p = checked-closed q sc (refusal f h enc cfg q r sc) s p

  redeem_found-closed :
      (q : Redemption) (r : RedeemRequest) (b : Bool) (s : PowService f)
      → P s.store.pow_challenges
      → P (redeem_found f h enc cfg q r b s).1.store.pow_challenges
  unfolding redeem_found
  redeem_found-closed q r true s p = p
  redeem_found-closed q r false s p = redeem_row-closed q r _ s p

  redeem_body-closed :
      (q : Redemption) (o : Option RedeemRequest) (s : PowService f)
      → P s.store.pow_challenges
      → P (redeem_body f h enc cfg q o s).1.store.pow_challenges
  unfolding redeem_body
  redeem_body-closed q none s p = p
  redeem_body-closed q (some r) s p = elim (Bool-cases (str_eq r.challenge_id "")) [
    | inl x ↦ rw x p
    | inr x ↦ rw x (redeem_found-closed q r q.get_fails s p)
  ]

  pub handle_redeem-closed :
      (q : Redemption) (s : PowService f)
      → P s.store.pow_challenges
      → P (handle_redeem f h enc cfg q s).1.store.pow_challenges
  unfolding handle_redeem
  handle_redeem-closed q s p = redeem_body-closed q q.body s p

module _ (f : Float) (h : Hashes) (enc : Base64) (cfg : PowConfig)
    (P : Map StoredChallenge → Type 0) (id : String)
    (grown : (sc : StoredChallenge) (s st : Store)
      → sc.id ≡ id
      → P s.pow_challenges
      → insert_challenge sc s ≡ some st
      → P st.pow_challenges) where
  minted-closed :
      (b : Bool) (sc : StoredChallenge) (o : Option Store) (s : PowService f)
      → sc.id ≡ id
      → insert_challenge sc s.store ≡ o
      → P s.store.pow_challenges
      → P (minted f h enc cfg b sc o s).1.store.pow_challenges
  unfolding minted
  minted-closed true sc o s i e p = p
  minted-closed false sc none s i e p = p
  minted-closed false sc (some st) s i e p = grown sc s.store st i p e

  mint-closed :
      (q : ChallengeRequest) (plan algo : String) (o : Option String) (s : PowService f)
      → q.id ≡ id
      → P s.store.pow_challenges
      → P (mint f h enc cfg q plan algo o s).1.store.pow_challenges
  unfolding mint
  mint-closed q plan algo none s i p = p
  mint-closed q plan algo (some salt) s i p = minted-closed q.insert_fails _ _ s i refl p

  admit-closed :
      (q : ChallengeRequest) (r : Bool × ℤ × PowService f)
      → q.id ≡ id
      → P r.2.store.pow_challenges
      → P (admit f h enc cfg q r).1.store.pow_challenges
  unfolding admit
  admit-closed q (false, wait, s) i p = p
  admit-closed q (true, wait, s) i p =
      let plan = or_default q.plan "basic" in
      let algo = or_default q.algo "sha256" in
      elim (Bool-cases (valid_plan plan)) [
        | inr x ↦ rw x p
        | inl x ↦ rw x (elim (Bool-cases (valid_algo algo)) [
          | inr y ↦ rw y p
          | inl y ↦ rw y (mint-closed q plan algo q.salt s i p)
        ])
      ]

  pub handle_challenge-closed :
      (q : ChallengeRequest) (s : PowService f)
      → q.id ≡ id
      → P s.store.pow_challenges
      → P (handle_challenge f h enc cfg q s).1.store.pow_challenges
  unfolding handle_challenge count_client count_flood
  handle_challenge-closed q s i p =
      admit-closed q (count_client f h enc cfg q (count_flood f h enc cfg q s)) i p
