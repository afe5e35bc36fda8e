-- ===== src/Proxy/Acquire/Candidates.antt =====
-- GetProxy: which proxies are candidates, and that the pick is one of them.
use opencode_multi_agents.Prelude.{
  ℕ, suc, ◌%◌, String, ◌≡◌, refl, ap, ◌∙◌, Bool, not, ◌&&◌, some, List, [], ◌∷◌, arith, length,
  select, All, All-get_elem?, get_elem?-lt,
}
use opencode_multi_agents.Prelude.Map.{Map}
use opencode_multi_agents.Proxy.Types.{Proxy, is_available}
use opencode_multi_agents.Proxy.Bans.{is_banned, ip_banned_locked-verdict, ip_banned_locked-keeps}
use opencode_multi_agents.Proxy.Acquire.{
  admissible, candidates, insert_sorted, sort_candidates, pick_candidate,
}

-- A proxy that may be handed out: idle, and its egress IP not banned.
abbrev pub fit : ℕ → Map ℕ → Proxy → Bool
fit now bans p = is_available p && not (is_banned now p.egress_ip bans)

admissible-fit : (now : ℕ) (p : Proxy) (bans : Map ℕ) → (admissible now p bans).0 ≡ fit now bans p
unfolding admissible
admissible-fit now p bans = ground (arith, ip_banned_locked-verdict p.egress_ip now bans)

admissible-keeps :
    (now : ℕ) (p : Proxy) (bans : Map ℕ) (j : String)
    → is_banned now j (admissible now p bans).1 ≡ is_banned now j bans
unfolding admissible
admissible-keeps now p bans j = ground (arith, ip_banned_locked-keeps p.egress_ip now bans j)

pub candidates-keeps :
    (now : ℕ) (ps : List Proxy) (bans : Map ℕ) (j : String)
    → is_banned now j (candidates now ps bans).1 ≡ is_banned now j bans
unfolding candidates
candidates-keeps now [] bans j = refl
candidates-keeps now (p ∷ ps) bans j =
    candidates-keeps now ps (admissible now p bans).1 j ∙ admissible-keeps now p bans j

select-same :
    (now : ℕ) (b c : Map ℕ) (ps : List Proxy)
    → ((j : String) → is_banned now j b ≡ is_banned now j c)
    → select (fit now b) ps ≡ select (fit now c) ps
select-same now b c [] same = refl
select-same now b c (p ∷ ps) same = rw (same p.egress_ip, select-same now b c ps same)

-- The clean-up of the ban list on the way does not change who is a candidate.
pub candidates-select :
    (now : ℕ) (ps : List Proxy) (bans : Map ℕ)
    → (candidates now ps bans).0 ≡ select (fit now bans) ps
unfolding candidates
candidates-select now [] bans = refl
candidates-select now (p ∷ ps) bans = rw (
  admissible-fit now p bans,
  candidates-select now ps (admissible now p bans).1,
  select-same now (admissible now p bans).1 bans ps (admissible-keeps now p bans),
)

All-insert_sorted {κ} :
    (P : Proxy → Type κ) (p : Proxy) (qs : List Proxy) → P p → All P qs → All P (insert_sorted p qs)
unfolding insert_sorted
All-insert_sorted P p [] hp h = (hp, tt)
All-insert_sorted P p (q ∷ qs) hp h = ground (arith, All-insert_sorted P p qs hp h.1)

All-sort {κ} : (P : Proxy → Type κ) (ps : List Proxy) → All P ps → All P (sort_candidates ps)
unfolding sort_candidates
All-sort P [] h = tt
All-sort P (p ∷ ps) h = All-insert_sorted P p (sort_candidates ps) h.0 (All-sort P ps h.1)

length-insert_sorted : (p : Proxy) (qs : List Proxy) → length (insert_sorted p qs) ≡ suc (length qs)
unfolding insert_sorted
length-insert_sorted p [] = refl
length-insert_sorted p (q ∷ qs) = ground (arith, length-insert_sorted p qs)

pub length-sort : (ps : List Proxy) → length (sort_candidates ps) ≡ length ps
unfolding sort_candidates
length-sort [] = refl
length-sort (p ∷ ps) = length-insert_sorted p (sort_candidates ps) ∙ ap suc (length-sort ps)

pub All-pick {κ} :
    (P : Proxy → Type κ) (rr : ℕ) (cs : List Proxy) {p : Proxy}
    → pick_candidate rr cs ≡ some p
    → All P cs
    → P p
unfolding pick_candidate
All-pick P rr cs e h = All-get_elem? P (sort_candidates cs) (rr % length cs) e (All-sort P cs h)

-- The cursor, whatever it is, meets a candidate if there is one.
pub pick_some :
    (rr : ℕ) (c : Proxy) (cs : List Proxy) → (p : Proxy) × (pick_candidate rr (c ∷ cs) ≡ some p)
unfolding pick_candidate
pick_some rr c cs =
    get_elem?-lt (sort_candidates (c ∷ cs)) (rr % length (c ∷ cs))
      (omega (arith, length-sort (c ∷ cs)))
