-- ===== src/Vpn/Servers/Order.antt =====
-- SelectServer: the order of the candidates, and the loop for the best.
use opencode_multi_agents.Prelude.{
  ◌≡◌, true, false, List, [], ◌∷◌, arith, if◌then◌else◌, All, if_both, Bool-cases, inl, inr,
}
use opencode_multi_agents.Vpn.Servers.{Scores, Candidate, better, best_from}

module _ (scores : Scores) where
  open scores use {Score, gtb, eqb, rank, gt_rank, eq_rank}

  better_trans :
      (a b c : Candidate scores)
      → better scores a b ≡ false
      → better scores b c ≡ false
      → better scores a c ≡ false
  unfolding better
  better_trans a b c h k = ground (
    arith,
    h,
    k,
    gt_rank a.0.score b.0.score,
    eq_rank a.0.score b.0.score,
    gt_rank b.0.score c.0.score,
    eq_rank b.0.score c.0.score,
    gt_rank a.0.score c.0.score,
    eq_rank a.0.score c.0.score,
  )

  better_asym : (a b : Candidate scores) → better scores a b ≡ true → better scores b a ≡ false
  unfolding better
  better_asym a b h = ground (
    arith,
    h,
    gt_rank a.0.score b.0.score,
    eq_rank a.0.score b.0.score,
    gt_rank b.0.score a.0.score,
    eq_rank b.0.score a.0.score,
  )

  better_self : (a : Candidate scores) → better scores a a ≡ false
  unfolding better
  better_self a = ground (arith, gt_rank a.0.score a.0.score)

  abbrev pub NotBeaten : Candidate scores → Candidate scores → Type 0
  NotBeaten best c = better scores c best ≡ false

  abbrev challenger : Candidate scores → Candidate scores → Candidate scores
  challenger best c = if better scores c best then c else best

  challenger-NotBeaten :
      (best c : Candidate scores)
      → NotBeaten (challenger best c) best × NotBeaten (challenger best c) c
  challenger-NotBeaten best c = elim (Bool-cases (better scores c best)) [
    | inl e ↦ rw e (better_asym c best e, better_self c)
    | inr e ↦ rw e (better_self best, e)
  ]

  pub best_from-Best :
      (best : Candidate scores) (cands : List (Candidate scores))
      → let r = best_from scores best cands in NotBeaten r best × All (NotBeaten r) cands
  unfolding best_from
  best_from-Best best [] = (better_self best, tt)
  best_from-Best best (c ∷ cands) =
      let next = challenger best c in
      let r = best_from scores next cands in
      let h = best_from-Best next cands in
      let won = challenger-NotBeaten best c in
      (better_trans best next r won.0 h.0, (better_trans c next r won.1 h.0, h.1))

  pub best_from-All :
      (P : Candidate scores → Type 0) (best : Candidate scores) (cands : List (Candidate scores))
      → P best
      → All P cands
      → P (best_from scores best cands)
  unfolding best_from
  best_from-All P best [] h hs = h
  best_from-All P best (c ∷ cands) h hs =
      best_from-All P (challenger best c) cands (if_both P (better scores c best) hs.0 h) hs.1
