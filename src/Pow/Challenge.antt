-- ===== src/Pow/Challenge.antt =====
-- internal/pow/pow.go: the challenge, its preimage, and Verify. Texts that are hashed are lists of
-- bytes. The two hash functions are not this program's: they are parameters.
pub mod Verify
use opencode_multi_agents.Prelude.{
  ℕ, zero, suc, ◌+◌, ◌-◌, ◌/◌, ◌%◌, String, Bool, true, false, ◌&&◌, ◌||◌, not, Option, none, some,
  List, [], ◌∷◌, ◌++◌, ltb, leb, ◌==◌, str_eq, if◌then◌else◌, length, take,
}
use opencode_multi_agents.Prelude.Text.{bytes_of}
use opencode_multi_agents.Prelude.Int.{ℤ, pos, negsuc}
use opencode_multi_agents.Pow.Bits.{leading_zero_bits, satisfies}
use opencode_multi_agents.Pow.Counter.{format_uint}

-- ValidPlan
unfoldable pub valid_plan : String → Bool
valid_plan plan = str_eq plan "basic" || (str_eq plan "plus" || str_eq plan "pro")

-- ValidAlgo
unfoldable pub valid_algo : String → Bool
valid_algo algo = str_eq algo "blake3" || str_eq algo "sha256"

pub record Challenge : Type 0 where
  pub version : ℕ
  pub id : String
  pub resource : String
  pub algo : String
  pub difficulty : ℤ
  pub salt : String
  pub bind : String
  pub issued_at : ℕ
  pub expires_at : ℕ
  pub plan : String

-- An `int` in decimal.
unfoldable pub format_int : ℤ → List ℕ
format_int (pos n) = format_uint n
format_int (negsuc n) = b'-' ∷ format_uint (suc n)

-- Preimage: "pow-v<version>|<id>|<resource>|<algo>|<difficulty>|<salt>|<bind>|<counter>"
unfoldable pub preimage : Challenge → List ℕ → List ℕ
preimage c counter =
    bytes_of "pow-v"
    ++ (format_uint c.version
        ++ (b'|'
            ∷ (bytes_of c.id
                ++ (b'|'
                    ∷ (bytes_of c.resource
                        ++ (b'|'
                            ∷ (bytes_of c.algo
                                ++ (b'|'
                                    ∷ (format_int c.difficulty
                                        ++ (b'|'
                                            ∷ (bytes_of c.salt
                                                ++ (b'|'
                                                    ∷ (bytes_of c.bind
                                                        ++ (b'|' ∷ counter))))))))))))))

-- The hash functions, from bytes to a digest of 32 bytes.
pub record Hashes : Type 0 where
  pub sha256 : List ℕ → List ℕ
  pub blake3 : List ℕ → List ℕ

-- Digest
unfoldable pub digest : Hashes → Challenge → List ℕ → List ℕ
digest h c text = if str_eq c.algo "sha256" then h.sha256 text else h.blake3 text

pub data Verified : Type 0 where
  solved : ℕ → Verified
  no_solution : Verified
  not_met : ℤ → Verified

-- The error is nil.
abbrev pub is_solved : Verified → Bool
is_solved (solved n) = true
is_solved _ = false

abbrev pub tried : List ℕ → Bool
tried counter = not ((length counter == 0) || ltb 20 (length counter))

abbrev pub solves : Hashes → Challenge → List ℕ → Bool
solves h c counter = tried counter && satisfies (digest h c (preimage c counter)) c.difficulty

-- The loop of Verify.
pub first_solution : Hashes → Challenge → List (List ℕ) → Verified
first_solution h c [] = not_met c.difficulty
first_solution h c (counter ∷ rest) =
    let more = first_solution h c rest in
    if solves h c counter
    then solved (leading_zero_bits (digest h c (preimage c counter)))
    else more

-- Verify: at most eight counters are tried
unfoldable pub verify : Hashes → Challenge → List (List ℕ) → Verified
unfolding first_solution
verify h c [] = no_solution
verify h c (counter ∷ rest) = first_solution h c (take 8 (counter ∷ rest))
