-- ===== src/Upstream/Cli/Chunks.antt =====
-- The OpenCode CLI driver: what of the command's text reaches the client.
use opencode_multi_agents.Prelude.{
  All-append, ℕ, ◌≡◌, refl, Bool, true, false, List, [], ◌∷◌, ◌++◌, arith, ◌==◌, if◌then◌else◌, All,
  Bool-cases, inl, inr,
}
use opencode_multi_agents.Prelude.Bytes.{Bytes, is_blank, is_space, split_at}
use opencode_multi_agents.Upstream.Cli.{fields_from, spaced, line_chunks, chunks_of, split_chunks}

-- A newline, and any other byte.
abbrev pub Inline : ℕ → Type 0
Inline c = (c == 10) ≡ false

abbrev Words : List Bytes → Type 0
Words ws = All (All Inline) ws

last_word-Words : (word : Bytes) (b : Bool) → All Inline word → Words (if b then [] else word ∷ [])
last_word-Words word true h = tt
last_word-Words word false h = (h, tt)

word-Words :
    (word : Bytes) (rest : List Bytes) (b : Bool)
    → All Inline word
    → Words rest
    → Words (if b then rest else word ∷ rest)
word-Words word rest true h k = k
word-Words word rest false h k = (h, k)

inline : (c : ℕ) → is_space c ≡ false → Inline c
inline c h = ground (arith, h)

fields_from-Words : (word s : Bytes) → All Inline word → Words (fields_from word s)
unfolding fields_from
fields_from-Words word [] h = last_word-Words word (is_blank word) h
fields_from-Words word (c ∷ s) h = elim (Bool-cases (is_space c)) [
  | inl e ↦ rw e (word-Words word (fields_from [] s) (is_blank word) h (fields_from-Words [] s tt))
  | inr e ↦
      rw e
        (fields_from-Words (word ++ c ∷ []) s (All-append Inline word (c ∷ []) h (inline c e, tt)))
]

spaced-Words : (ws : List Bytes) → Words ws → Words (spaced ws)
spaced-Words [] h = tt
spaced-Words (w ∷ ws) h = ((refl, h.0), spaced-Words ws h.1)

line_chunks-Words : (ws : List Bytes) → Words ws → Words (line_chunks ws)
line_chunks-Words [] h = tt
line_chunks-Words (w ∷ ws) h = (h.0, spaced-Words ws h.1)

chunks_of-Words : (lines : List Bytes) → Words (chunks_of lines)
unfolding chunks_of
chunks_of-Words [] = tt
chunks_of-Words (line ∷ lines) =
    All-append (All Inline) (line_chunks (fields_from [] line)) (chunks_of lines)
      (line_chunks-Words (fields_from [] line) (fields_from-Words [] line tt))
      (chunks_of-Words lines)

-- A streamed text has no newline left, wherever the command's text had one: no chunk has one, and
-- the client puts the chunks together as they are.
pub split_chunks-Inline : (s : Bytes) → All (All Inline) (split_chunks s)
unfolding split_chunks
split_chunks-Inline s = chunks_of-Words (split_at 10 s)
