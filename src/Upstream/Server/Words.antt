-- ===== src/Upstream/Server/Words.antt =====
-- What a client makes of the chunks of a stream.
use opencode_multi_agents.Prelude.{
  ℕ, ◌≡◌, ◌∙◌, refl, ap, sym, false, List, [], ◌∷◌, ◌++◌, if◌then◌else◌, All, All-append,
  Bool-cases, inl, inr, map, append-nil, append_assoc,
}
use opencode_multi_agents.Prelude.Bytes.{Bytes, is_blank, is_space}
use opencode_multi_agents.Upstream.Cli.{fields_from, spaced, line_chunks}
use opencode_multi_agents.Upstream.Messages.{
  Written, opening, content, ending, whole, notice, word_chunks, write_stream,
}

-- A byte that is no space, and a word: some such bytes.
abbrev Solid : ℕ → Type 0
Solid c = is_space c ≡ false

abbrev IsWord : Bytes → Type 0
IsWord w = (is_blank w ≡ false) × All Solid w

-- What the contents of the chunks are together.
abbrev pub joined : List Bytes → Bytes
joined [] = []
joined (w ∷ ws) = w ++ joined ws

abbrev pub contents : List Written → List Bytes
contents [] = []
contents (content s ∷ ws) = s ∷ contents ws
contents (opening ∷ ws) = contents ws
contents (ending ∷ ws) = contents ws
contents (whole s ∷ ws) = contents ws
contents (notice ∷ ws) = contents ws

is_blank-snoc : (w : Bytes) (c : ℕ) → is_blank (w ++ c ∷ []) ≡ false
is_blank-snoc [] c = refl
is_blank-snoc (d ∷ w) c = refl

last-IsWord : (w : Bytes) → All Solid w → All IsWord (if is_blank w then [] else w ∷ [])
last-IsWord [] h = tt
last-IsWord (c ∷ w) h = ((refl, h), tt)

kept-IsWord :
    (w : Bytes) (rest : List Bytes)
    → All Solid w
    → All IsWord rest
    → All IsWord (if is_blank w then rest else w ∷ rest)
kept-IsWord [] rest h k = k
kept-IsWord (c ∷ w) rest h k = ((refl, h), k)

fields_from-IsWord : (w s : Bytes) → All Solid w → All IsWord (fields_from w s)
unfolding fields_from
fields_from-IsWord w [] h = last-IsWord w h
fields_from-IsWord w (c ∷ s) h = elim (Bool-cases (is_space c)) [
  | inl e ↦ rw e (kept-IsWord w (fields_from [] s) h (fields_from-IsWord [] s tt))
  | inr e ↦ rw e (fields_from-IsWord (w ++ c ∷ []) s (All-append Solid w (c ∷ []) h (e, tt)))
]

-- A run of solid bytes goes to the word before.
fields_from_run : (w v s : Bytes) → All Solid v → fields_from w (v ++ s) ≡ fields_from (w ++ v) s
unfolding fields_from
fields_from_run w [] s h = ap (λ x. fields_from x s) (sym (append-nil w))
fields_from_run w (c ∷ v) s h =
    rw (h.0) (
      fields_from_run (w ++ c ∷ []) v s h.1 ∙ ap (λ x. fields_from x s) (append_assoc w (c ∷ []) v))

-- The words of words with a space before each, after a word.
fields_from-spaced :
    (w : Bytes) (ws : List Bytes)
    → is_blank w ≡ false
    → All IsWord ws
    → fields_from w (joined (spaced ws)) ≡ w ∷ ws
unfolding fields_from
fields_from-spaced w [] b h = rw b refl
fields_from-spaced w (v ∷ ws) b h = rw b (
    ap (λ rest. w ∷ rest)
      (fields_from_run [] v (joined (spaced ws)) h.0.1 ∙ fields_from-spaced v ws h.0.0 h.1))

fields_from-chunks :
    (ws : List Bytes) → All IsWord ws → fields_from [] (joined (line_chunks ws)) ≡ ws
unfolding fields_from
fields_from-chunks [] h = refl
fields_from-chunks (w ∷ ws) h =
    fields_from_run [] w (joined (spaced ws)) h.0.1 ∙ fields_from-spaced w ws h.0.0 h.1

contents-map :
    (cs : List Bytes) (rest : List Written)
    → contents (map content cs ++ rest) ≡ cs ++ contents rest
contents-map [] rest = refl
contents-map (s ∷ cs) rest = ap (λ x. s ∷ x) (contents-map cs rest)

-- A client that puts the contents of a stream's chunks together has the words of the answer, all of
-- them and in their order; the space between them is lost.
pub write_stream-words :
    (text : Bytes) → fields_from [] (joined (contents (write_stream text))) ≡ fields_from [] text
unfolding write_stream
write_stream-words text =
    ap (λ cs. fields_from [] (joined cs))
      (contents-map (word_chunks text) (ending ∷ []) ∙ append-nil (word_chunks text))
    ∙ fields_from-chunks (fields_from [] text) (fields_from-IsWord [] text tt)
