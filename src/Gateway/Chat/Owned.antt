-- ===== src/Gateway/Chat/Owned.antt =====
-- Which proxy a chat request holds, and that it is given back.
use opencode_multi_agents.Prelude.{
  ℕ, zero, suc, ◌+◌, ◌≡◌, refl, subst, sym, String, Bool, true, false, ◌&&◌, Option, none, some,
  List, [], ◌∷◌, arith, ltb, leb, inl, inr, ◌⊎◌, if_both,
}
use opencode_multi_agents.Gateway.Chat.{
  Reply, limited, broken, responded, Surroundings, Action, request, ban, fail, replace, acquire,
  release, Outcome, panicked, Attempts, give_up, hand_back, after, swap, limited_by, broken_by,
  replied, try_once, round, attempts, chat,
}

-- The actions of a handler that holds a proxy, and whether that is banned: it sends its requests
-- through the proxy that it holds, unless that is banned; it reports that one only; one that it takes
-- in place of a banned one is held instead; one that it takes because another broke is held instead,
-- and the other is given back at once; and in the end, and then only, what it holds is given back.
abbrev pub Owned : String → Bool → List Action → Type 0
Owned held banned [] = false ≡ true
Owned held banned (request p ∷ rest) = (p ≡ held) × (banned ≡ false) × Owned held false rest
Owned held banned (ban p ∷ rest) = (p ≡ held) × Owned held true rest
Owned held banned (fail p ∷ rest) = (p ≡ held) × Owned held banned rest
Owned held banned (replace p ∷ rest) = (banned ≡ true) × Owned p false rest
Owned held banned (acquire p ∷ release q ∷ rest) = (q ≡ held) × Owned p false rest
Owned held banned (acquire p ∷ _) = false ≡ true
Owned held banned (release p ∷ []) = p ≡ held
Owned held banned (release p ∷ _ ∷ _) = false ≡ true

abbrev pub Fine : String → Bool → List Action × Outcome → Type 0
Fine held banned r = (r.1 ≡ panicked) ⊎ Owned held banned r.0

abbrev shown : Bool → String → Option String
shown true held = some held
shown false held = none

abbrev holds : Bool → String → Bool → Option ℕ → Attempts
holds here held banned l = record {
  proxy = shown here held;
  own_proxy = some held;
  rate_limited = banned;
  last_upstream = l;
}

-- What is shown of the attempts that follow.
abbrev Follows : (Attempts → List Action × Outcome) → Type 0
Follows again =
    (here : Bool) (held : String) (banned : Bool) (l : Option ℕ)
    → Fine held banned (again (holds here held banned l))

after-Fine :
    (a : Action) (r : List Action × Outcome) (p held : String) (b banned : Bool)
    → Fine p b r
    → (Owned p b r.0 → Owned held banned (a ∷ r.0))
    → Fine held banned (after a r)
after-Fine a r p held b banned (inl panic) ok = inl panic
after-Fine a r p held b banned (inr owned) ok = inr (ok owned)

later_banned : (attempt : ℕ) (banned : Bool) → (ltb 0 (attempt + 1) && banned) ≡ banned
later_banned attempt banned = ground arith

module _ (env : Surroundings) where
  limited_by-Fine :
      (again : Attempts → List Action × Outcome) (held : String) (l : Option ℕ)
      → Follows again
      → Fine held true (limited_by env again (holds true held false l))
  unfolding limited_by hand_back
  limited_by-Fine again held l h =
      if_both (Fine held true) env.public_tier (inr refl) (h true held true l)

  broken_by-Fine :
      (o : Option String) (again : Attempts → List Action × Outcome) (held : String) (l : Option ℕ)
      → Follows again
      → Fine held false (broken_by env o again (holds true held false l))
  unfolding broken_by
  broken_by-Fine none again held l h = h false held false l
  broken_by-Fine (some p) again held l h = elim (h true p false l) [
    | inl panic ↦ inl panic
    | inr owned ↦ inr (refl, owned)
  ]

  replied-Fine :
      (attempt : ℕ) (reply : Reply) (again : Attempts → List Action × Outcome) (held : String)
      (l : Option ℕ)
      → Follows again
      → Fine held false (replied env attempt held reply again (holds true held false l))
  unfolding replied hand_back
  replied-Fine attempt limited again held l h =
      after-Fine (ban held) (limited_by env again (holds true held false l)) held held true false
        (limited_by-Fine again held l h) (λ owned. (refl, owned))
  replied-Fine attempt broken again held l h =
      after-Fine (fail held) (broken_by env (env.fresh attempt) again (holds true held false l))
        held held false false (broken_by-Fine (env.fresh attempt) again held l h)
        (λ owned. (refl, owned))
  replied-Fine attempt (responded status) again held l h =
      if_both (Fine held false) (leb 500 status && ltb attempt env.max_retries)
        (h true held false (some status)) (inr refl)

  try_once-Fine :
      (attempt : ℕ) (here : Bool) (again : Attempts → List Action × Outcome) (held : String)
      (l : Option ℕ)
      → Follows again
      → Fine held false (try_once env attempt (shown here held) again (holds here held false l))
  unfolding try_once
  try_once-Fine attempt false again held l h = inl refl
  try_once-Fine attempt true again held l h =
      after-Fine (request held)
        (replied env attempt held (env.send attempt held) again (holds true held false l)) held held
        false false (replied-Fine attempt (env.send attempt held) again held l h)
        (λ owned. (refl, refl, owned))

  swap-Fine :
      (b : Bool) (o : Option String) (again : Attempts → List Action × Outcome) (here : Bool)
      (held : String) (l : Option ℕ)
      → Follows again
      → Fine held true (swap env b o again (holds here held true l))
  unfolding swap give_up
  swap-Fine false o again here held l h = inr refl
  swap-Fine true none again here held l h = inl refl
  swap-Fine true (some p) again here held l h =
      after-Fine (replace p) (again (holds true p false l)) p held false true (h true p false l)
        (λ owned. (refl, owned))

  round-Fine :
      (attempt : ℕ) (again : Attempts → List Action × Outcome) (here : Bool) (held : String)
      (banned : Bool) (l : Option ℕ)
      → Follows again
      → Fine held banned (round env banned attempt again (holds here held banned l))
  unfolding round
  round-Fine attempt again here held true l h =
      swap-Fine (env.in_time attempt) (env.fresh attempt) again here held l h
  round-Fine attempt again here held false l h = try_once-Fine attempt here again held l h

  attempts-Fine :
      (left attempt : ℕ) (here : Bool) (held : String) (banned : Bool) (l : Option ℕ)
      → (ltb 0 attempt && banned) ≡ banned
      → Fine held banned (attempts env left attempt (holds here held banned l))
  unfolding attempts give_up
  attempts-Fine zero attempt here held banned l e = inr refl
  attempts-Fine (suc left) attempt here held banned l e =
      let again : Attempts → List Action × Outcome = attempts env left (attempt + 1) in
      let h : Follows again = λ here held banned l.
        attempts-Fine left (attempt + 1) here held banned l (later_banned attempt banned) in
      subst (λ (b : Bool). Fine held banned (round env b attempt again (holds here held banned l)))
        (sym e) (round-Fine attempt again here held banned l h)

  -- Unless it panics, the handler sends its requests through the proxy that it holds and not through
  -- one that is banned, and gives every proxy that it took back once: one that broke when it takes
  -- another, the last one at the end, and one that it took in place of a banned proxy instead of that
  -- one.
  pub chat-Owned : (p : String) → Fine p false (chat env p)
  unfolding chat
  chat-Owned p = attempts-Fine (suc env.max_retries) 0 true p false none refl
