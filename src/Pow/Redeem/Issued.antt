-- ===== src/Pow/Redeem/Issued.antt =====
-- Issuing a key stores and caches it, and leaves the challenges as they are.
use opencode_multi_agents.Prelude.{
  ℕ, ◌≡◌, refl, sym, ap, ◌∙◌, String, Bool, true, false, inl, inr, Option, none, some, List, arith,
  Bool-cases, str_eq,
}
use opencode_multi_agents.Prelude.Map.{lookup, lookup-insert_self}
use opencode_multi_agents.Prelude.Text.{text_append, not_empty}
use opencode_multi_agents.Pow.Challenge.{Hashes}
use opencode_multi_agents.Pow.Difficulty.{Float}
use opencode_multi_agents.Pow.Store.{
  StoredChallenge, ApiKey, insert_api_key, insert_key_row, bump_ip_bonus,
}
use opencode_multi_agents.Pow.Service.{
  PowConfig, Base64, PowService, plan_rpm, key_hash_of, cache_key,
}
use opencode_multi_agents.Pow.Issue.{key_out}
use opencode_multi_agents.Pow.Redeem.{Redemption, new_key, persist, issue_with, issue}

module _ (f : Float) (h : Hashes) (enc : Base64) (cfg : PowConfig) where
  persist-challenges :
      (b : Bool) (kk : String × ApiKey) (k : ApiKey) (o : Option ApiKey) (s : PowService f)
      → (persist f h enc cfg b kk (insert_key_row k o s.store) s).1.store.pow_challenges
        ≡ s.store.pow_challenges
  unfolding persist insert_key_row cache_key
  persist-challenges true kk k o s = refl
  persist-challenges false kk k none s = refl
  persist-challenges false kk k (some _) s = refl

  issue_with-challenges :
      (q : Redemption) (sc : StoredChallenge) (o : Option (List ℕ)) (s : PowService f)
      → (issue_with f h enc cfg q sc o s).1.store.pow_challenges ≡ s.store.pow_challenges
  unfolding issue_with insert_api_key
  issue_with-challenges q sc none s = refl
  issue_with-challenges q sc (some raw) s =
      let k = new_key h enc cfg sc.plan q.now raw in
      persist-challenges q.insert_fails k k.1 (lookup k.1.key_hash s.store.api_keys) s

  -- Issuing a key leaves the challenges as they are.
  pub issue-challenges :
      (q : Redemption) (sc : StoredChallenge) (s : PowService f)
      → (issue f h enc cfg q sc s).1.store.pow_challenges ≡ s.store.pow_challenges
  unfolding issue bump_ip_bonus
  issue-challenges q sc s = elim (Bool-cases q.bump_fails) [
    | inl e ↦ rw e (issue_with-challenges q sc q.random _)
    | inr e ↦ rw e (issue_with-challenges q sc q.random _)
  ]

  -- The key is in the table and in the cache.
  abbrev pub IsKept : String → ApiKey → PowService f → Type 0
  IsKept key k s =
      (lookup k.key_hash s.store.api_keys ≡ some (record k { disabled = false }))
      × (lookup k.key_hash s.key_cache ≡ some k)
      × (k.key_hash ≡ key_hash_of h enc key)
      × (str_eq key "" ≡ false)

  -- The hash is the key's, and the key is a text.
  abbrev Named : String × ApiKey → Type 0
  Named kk = (kk.1.key_hash ≡ key_hash_of h enc kk.0) × (str_eq kk.0 "" ≡ false)

  new_key-Named : (plan : String) (now : ℕ) (raw : List ℕ) → Named (new_key h enc cfg plan now raw)
  unfolding new_key text_append
  new_key-Named plan now raw = (refl, not_empty (text_append "sk-gw-" (enc.raw_url raw)) refl)

  persist-IsKept :
      (b : Bool) (kk : String × ApiKey) (o : Option ApiKey) (s : PowService f) (key : String)
      (k : ApiKey)
      → Named kk
      → (persist f h enc cfg b kk (insert_key_row kk.1 o s.store) s).0 ≡ key_out key k
      → (k ≡ kk.1) × IsKept key k (persist f h enc cfg b kk (insert_key_row kk.1 o s.store) s).1
  unfolding persist insert_key_row cache_key
  persist-IsKept true kk o s key k n e = ground (arith, e)
  persist-IsKept false kk (some _) s key k n e = ground (arith, e)
  persist-IsKept false kk none s key k n e =
      let e' : kk.1 ≡ k = ground (arith, e) in
      let e'' : kk.0 ≡ key = ground (arith, e) in
      rw (sym e', sym e'') (refl, (lookup-insert_self _ _ _, lookup-insert_self _ _ _, n.0, n.1))

  new_key-plan :
      (plan : String) (now : ℕ) (raw : List ℕ)
      → ((new_key h enc cfg plan now raw).1.plan ≡ plan)
        × ((new_key h enc cfg plan now raw).1.rpm ≡ plan_rpm cfg plan)
  unfolding new_key
  new_key-plan plan now raw = (refl, refl)

  issue_with-IsKept :
      (q : Redemption) (sc : StoredChallenge) (o : Option (List ℕ)) (s : PowService f)
      (key : String) (k : ApiKey)
      → (issue_with f h enc cfg q sc o s).0 ≡ key_out key k
      → (k.plan ≡ sc.plan)
        × (k.rpm ≡ plan_rpm cfg sc.plan)
        × IsKept key k (issue_with f h enc cfg q sc o s).1
  unfolding issue_with insert_api_key
  issue_with-IsKept q sc none s key k e = ground (arith, e)
  issue_with-IsKept q sc (some raw) s key k e =
      let kk = new_key h enc cfg sc.plan q.now raw in
      let (same, kept) =
        persist-IsKept q.insert_fails kk (lookup kk.1.key_hash s.store.api_keys) s key k
          (new_key-Named sc.plan q.now raw) e in
      (
        ap (λ x. x.plan) same ∙ (new_key-plan sc.plan q.now raw).0,
        ap (λ x. x.rpm) same ∙ (new_key-plan sc.plan q.now raw).1,
        kept,
      )

  pub issue-IsKept :
      (q : Redemption) (sc : StoredChallenge) (s : PowService f) (key : String) (k : ApiKey)
      → (issue f h enc cfg q sc s).0 ≡ key_out key k
      → (k.plan ≡ sc.plan)
        × (k.rpm ≡ plan_rpm cfg sc.plan)
        × IsKept key k (issue f h enc cfg q sc s).1
  unfolding issue
  issue-IsKept q sc s key k e = issue_with-IsKept q sc q.random _ key k e
