-- ===== src/Vpn/Servers.antt =====
-- internal/protonvpn/client.go: SelectServer, over the server list that was fetched.
pub mod Order
pub mod Best
use opencode_multi_agents.Prelude.{
  ℕ, zero, suc, String, Bool, true, false, ◌&&◌, ◌||◌, not, Option, none, some, List, [], ◌∷◌, ◌++◌,
  map, ltb, ◌==◌, ◌≡◌, str_eq, if◌then◌else◌, select,
}

-- The scores, which are float64: their tests, and that numbers other than NaN are ordered as some
-- natural numbers are. JSON has no NaN.
pub record Scores : Type 1 where
  pub Score : Type 0
  pub gtb : Score → Score → Bool
  pub eqb : Score → Score → Bool
  pub rank : Score → ℕ
  pub gt_rank : (a b : Score) → gtb a b ≡ ltb (rank b) (rank a)
  pub eq_rank : (a b : Score) → eqb a b ≡ (rank a == rank b)

pub record Server : Type 0 where
  pub entry_ip : String
  pub exit_ip : String
  pub domain : String
  pub x25519_public_key : String
  pub status : ℕ

abbrev pub mentions : List String → String → Bool
mentions [] s = false
mentions (t ∷ ts) s = str_eq t s || mentions ts s

abbrev pub no_entry {ℓ} : {A : Type ℓ} → List A → Bool
no_entry [] = true
no_entry (_ ∷ _) = false

module _ (scores : Scores) where
  open scores use {Score, gtb, eqb}

  pub record LogicalServer : Type 0 where
    pub name : String
    pub entry_country : String
    pub exit_country : String
    pub domain : String
    pub tier : ℕ
    pub features : ℕ
    pub score : Score
    pub servers : List Server
    pub status : ℕ
    pub load : ℕ

  -- An entry of `candidates`.
  abbrev pub Candidate : Type 0
  Candidate = LogicalServer × Server

  -- A physical server that is online and has a key.
  abbrev pub suitable : Server → Bool
  suitable s = s.status == 0 && not (str_eq s.x25519_public_key "")

  -- What the loop does not skip.
  unfoldable pub eligible : String → List String → List String → LogicalServer → Bool
  eligible region banned_regions avoid_servers l =
      (str_eq region "" || str_eq l.exit_country region)
      && (not (mentions banned_regions l.exit_country)
          && (not (mentions avoid_servers l.name) && l.status == 0))

  abbrev pub paired : LogicalServer → List Server → List Candidate
  paired l [] = []
  paired l (s ∷ ss) = (l, s) ∷ paired l ss

  -- The loop that collects; a nil map is an empty list.
  unfoldable pub candidates :
      String → List String → List String → List LogicalServer → List Candidate
  unfolding eligible
  candidates region banned_regions avoid_servers [] = []
  candidates region banned_regions avoid_servers (l ∷ ls) =
      let rest = candidates region banned_regions avoid_servers ls in
      if eligible region banned_regions avoid_servers l
      then paired l (select suitable l.servers) ++ rest
      else rest

  -- Whether a candidate replaces the best one.
  unfoldable pub better : Candidate → Candidate → Bool
  better cand best =
      gtb cand.0.score best.0.score
      || (eqb cand.0.score best.0.score && ltb cand.0.load best.0.load)

  unfoldable pub best_from : Candidate → List Candidate → Candidate
  unfolding better
  best_from best [] = best
  best_from best (cand ∷ cands) = best_from (if better cand best then cand else best) cands

  unfoldable pub best_of : List Candidate → Option Candidate
  unfolding best_from
  best_of [] = none
  best_of (c ∷ cands) = some (best_from c cands)

  -- The candidates, with the fallback that avoids nothing
  unfoldable pub all_candidates :
      String → List String → List String → List LogicalServer → List Candidate
  unfolding candidates
  all_candidates region banned_regions avoid_servers list =
      let found = candidates region banned_regions avoid_servers list in
      if no_entry found && not (no_entry avoid_servers)
      then candidates region banned_regions [] list
      else found

  -- SelectServer: `none` where no server is available
  unfoldable pub select_server :
      String → List String → List String → List LogicalServer → Option Candidate
  unfolding all_candidates best_of
  select_server region banned_regions avoid_servers list =
      best_of (all_candidates region banned_regions avoid_servers list)
