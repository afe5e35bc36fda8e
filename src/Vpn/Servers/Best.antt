-- ===== src/Vpn/Servers/Best.antt =====
-- SelectServer: what it chooses.
use opencode_multi_agents.Prelude.{
  ◌≤◌, ◌≢◌, eq_iff, ◌≡◌, refl, ap, subst, sym, ◌∙◌, String, true, false, ◌&&◌, not, none, some,
  List, [], ◌∷◌, ◌++◌, arith, if◌then◌else◌, select, All, All-imp, All-select, if_both, Bool-cases,
  inl, inr, ◌⊎◌,
}
use mathlib.Core.Option.{some-injective}
use opencode_multi_agents.Vpn.Servers.{
  Scores, Server, mentions, no_entry, LogicalServer, Candidate, suitable, eligible, paired,
  candidates, better, best_from, best_of, all_candidates, select_server,
}
use opencode_multi_agents.Vpn.Servers.Order.{NotBeaten, best_from-Best, best_from-All}

module _ (scores : Scores) where
  open scores use {Score, gtb, eqb, rank, gt_rank, eq_rank}

  -- A suitable server of an eligible entry of the list.
  abbrev pub Allowed : String → List String → List String → Candidate scores → Type 0
  Allowed region banned_regions avoid_servers c =
      (eligible scores region banned_regions avoid_servers c.0 ≡ true)
      × (suitable scores c.1 ≡ true)

  paired-All :
      (P : Candidate scores → Type 0) (l : LogicalServer scores) (ss : List Server)
      (rest : List (Candidate scores))
      → All (λ s. P (l, s)) ss
      → All P rest
      → All P (paired scores l ss ++ rest)
  paired-All P l [] rest h k = k
  paired-All P l (s ∷ ss) rest h k = (h.0, paired-All P l ss rest h.1 k)

  All-any : (P : Server → Type 0) (ss : List Server) → ((s : Server) → P s) → All P ss
  All-any P [] h = tt
  All-any P (s ∷ ss) h = (h s, All-any P ss h)

  candidates-Allowed :
      (region : String) (banned_regions avoid_servers : List String)
      (list : List (LogicalServer scores))
      → All
          (Allowed region banned_regions avoid_servers)
          (candidates scores region banned_regions avoid_servers list)
  unfolding candidates
  candidates-Allowed region banned_regions avoid_servers [] = tt
  candidates-Allowed region banned_regions avoid_servers (l ∷ ls) =
      let rest = candidates-Allowed region banned_regions avoid_servers ls in
      let P = Allowed region banned_regions avoid_servers in
      elim (Bool-cases (eligible scores region banned_regions avoid_servers l)) [
        | inr e ↦ rw e rest
        | inl e ↦
            let good =
              All-select (λ (s : Server). Unit) (suitable scores) l.servers
                (All-any _ l.servers (λ s. tt)) in
            let found =
              All-imp _ (λ s. P (l, s)) (select (suitable scores) l.servers) (λ s h. (e, h.1))
                good in
            rw e (paired-All P l (select (suitable scores) l.servers) _ found rest)
      ]

  eligible_avoiding :
      (region : String) (banned_regions avoid_servers : List String) (l : LogicalServer scores)
      → eligible scores region banned_regions avoid_servers l ≡ true
      → (eligible scores region banned_regions [] l ≡ true)
        × (mentions avoid_servers l.name ≡ false)
  unfolding eligible
  eligible_avoiding region banned_regions avoid_servers l h = ground (arith, h)

  all_candidates-Allowed :
      (region : String) (banned_regions avoid_servers : List String)
      (list : List (LogicalServer scores))
      → All
          (Allowed region banned_regions [])
          (all_candidates scores region banned_regions avoid_servers list)
  unfolding all_candidates
  all_candidates-Allowed region banned_regions avoid_servers list =
      let found = candidates scores region banned_regions avoid_servers list in
      if_both (All (Allowed region banned_regions []))
        (no_entry found && not (no_entry avoid_servers))
        (candidates-Allowed region banned_regions [] list)
        (All-imp (Allowed region banned_regions avoid_servers) (Allowed region banned_regions [])
          found (λ c h. ((eligible_avoiding region banned_regions avoid_servers c.0 h.0).0, h.1))
          (candidates-Allowed region banned_regions avoid_servers list))

  best_of-Best :
      (P : Candidate scores → Type 0) (cands : List (Candidate scores)) (c : Candidate scores)
      → All P cands
      → best_of scores cands ≡ some c
      → P c × All (NotBeaten scores c) cands
  unfolding best_of
  best_of-Best P [] c h e = cc
  best_of-Best P (b ∷ cands) c h e =
      let r = best_from scores b cands in
      let same : r ≡ c = some-injective r c e in
      subst (λ x. P x × All (NotBeaten scores x) (b ∷ cands)) same
        (best_from-All scores P b cands h.0 h.1, best_from-Best scores b cands)

  -- A server of the region that was asked for, if one was, and of none that is banned; the entry and
  -- the server are online, and the server has a key.
  abbrev pub IsAllowed : String → List String → Candidate scores → Type 0
  IsAllowed region banned_regions c =
      ((region ≡ "") ⊎ (c.0.exit_country ≡ region))
      × (mentions banned_regions c.0.exit_country ≡ false)
      × (c.0.status ≡ 0)
      × (c.1.status ≡ 0)
      × (c.1.x25519_public_key ≢ "")

  -- No higher score than the best, and with the same score no lower load.
  abbrev pub NoBetter : Candidate scores → Candidate scores → Type 0
  NoBetter best c =
      (rank c.0.score ≤ rank best.0.score)
      × (rank c.0.score ≡ rank best.0.score → best.0.load ≤ c.0.load)

  Allowed-IsAllowed :
      (region : String) (banned_regions : List String) (c : Candidate scores)
      → Allowed region banned_regions [] c
      → IsAllowed region banned_regions c
  unfolding eligible
  Allowed-IsAllowed region banned_regions c h = ground (
    arith,
    h.0,
    h.1,
    eq_iff region "",
    eq_iff c.0.exit_country region,
    eq_iff c.1.x25519_public_key "",
  )

  NotBeaten-NoBetter : (best c : Candidate scores) → NotBeaten scores best c → NoBetter best c
  unfolding better
  NotBeaten-NoBetter best c h =
      let gt = gt_rank c.0.score best.0.score in
      let eq = eq_rank c.0.score best.0.score in
      (ground (arith, h, gt), λ same. ground (arith, h, eq, same))

  -- The chosen server is in the region that was asked for, if one was, in none that is banned, online
  -- and with a key; and no candidate has a higher score, or the same score and a lower load.
  pub select_server-Best :
      (region : String) (banned_regions avoid_servers : List String)
      (list : List (LogicalServer scores)) (c : Candidate scores)
      → select_server scores region banned_regions avoid_servers list ≡ some c
      → IsAllowed region banned_regions c
        × All (NoBetter c) (all_candidates scores region banned_regions avoid_servers list)
  unfolding select_server
  select_server-Best region banned_regions avoid_servers list c e =
      let cands = all_candidates scores region banned_regions avoid_servers list in
      let sound = all_candidates-Allowed region banned_regions avoid_servers list in
      let h = best_of-Best (Allowed region banned_regions []) cands c sound e in
      (
        Allowed-IsAllowed region banned_regions c h.0,
        All-imp (NotBeaten scores c) (NoBetter c) cands (NotBeaten-NoBetter c) h.1,
      )

  no_entry-cases {ℓ} : {A : Type ℓ} (xs : List A) → (xs ≡ []) ⊎ (no_entry xs ≡ false)
  no_entry-cases [] = inl refl
  no_entry-cases (x ∷ xs) = inr refl

  best_of-none : (cands : List (Candidate scores)) → best_of scores cands ≡ none → cands ≡ []
  unfolding best_of
  best_of-none [] e = refl
  best_of-none (c ∷ cands) e = cc

  -- A server to be avoided is chosen only if every server that could be chosen is to be avoided.
  pub select_server-avoids :
      (region : String) (banned_regions avoid_servers : List String)
      (list : List (LogicalServer scores)) (c : Candidate scores)
      → select_server scores region banned_regions avoid_servers list ≡ some c
      → mentions avoid_servers c.0.name ≡ true
      → candidates scores region banned_regions avoid_servers list ≡ []
  unfolding select_server all_candidates
  select_server-avoids region banned_regions avoid_servers list c e avoided =
      let found = candidates scores region banned_regions avoid_servers list in
      let sound = candidates-Allowed region banned_regions avoid_servers list in
      elim (no_entry-cases found) [
        | inl empty ↦ empty
        | inr some_there ↦
            let all_found : all_candidates scores region banned_regions avoid_servers list ≡ found =
              ground (arith, some_there) in
            let chosen =
              best_of-Best (Allowed region banned_regions avoid_servers) found c sound
                (ap (best_of scores) (sym all_found) ∙ e) in
            let kept = eligible_avoiding region banned_regions avoid_servers c.0 chosen.0.0 in
            ground (arith, kept.1, avoided)
      ]

  -- It fails only if no server could be chosen even with nothing to avoid.
  pub select_server-none :
      (region : String) (banned_regions avoid_servers : List String)
      (list : List (LogicalServer scores))
      → select_server scores region banned_regions avoid_servers list ≡ none
      → candidates scores region banned_regions [] list ≡ []
  unfolding select_server all_candidates
  select_server-none region banned_regions [] list e =
      let found = candidates scores region banned_regions [] list in
      best_of-none found (
        if_both (λ cs. best_of scores cs ≡ none → best_of scores found ≡ none)
          (no_entry found && false) (λ h. h) (λ h. h) e)
  select_server-none region banned_regions (s ∷ avoid_servers) list e =
      let found = candidates scores region banned_regions (s ∷ avoid_servers) list in
      let other = candidates scores region banned_regions [] list in
      elim (no_entry-cases found) [
        | inl empty ↦
            best_of-none other (
              ap (λ cs. best_of scores (if no_entry cs && true then other else cs)) (sym empty) ∙ e)
        | inr some_there ↦
            let all_found : all_candidates scores region banned_regions (s ∷ avoid_servers) list
                ≡ found =
              ground (arith, some_there) in
            let empty = best_of-none found (ap (best_of scores) (sym all_found) ∙ e) in
            ground (arith, some_there, ap no_entry empty)
      ]
