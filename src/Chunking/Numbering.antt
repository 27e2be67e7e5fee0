-- ===== src/Chunking/Numbering.antt =====
-- The chunks of one section: their section, numbers and sizes.
use native.Mathlib.Decide.{dec_lt}
use mathlib.Core.Path.{subst}
use juris_mind_ai.Base.{
  zero, suc, ℕ, ◌+◌, ◌-◌, ◌<◌, ◌≤◌, ◌≡◌, refl, sym, ap, List, [], ◌∷◌, length, map, All, leb_of_le,
  arith,
}
use juris_mind_ai.Base.Text.{Str}
use juris_mind_ai.Document.{DocumentSection}
use juris_mind_ai.Chunking.{TextChunk, Encoding, token_chunks}
use juris_mind_ai.Chunking.Sections.{token_chunks_long, length-number, section_windows}
use juris_mind_ai.Chunking.Windows.{number, as_chunk, windows-sizes, length-windows}

abbrev pub count_from : ℕ → ℕ → List ℕ
count_from start zero = []
count_from start (suc n) = start ∷ count_from (start + 1) n

-- Chunks of this section, of at most `size` tokens each, numbered from zero.
abbrev pub IsCutOf : ℕ → DocumentSection → List TextChunk → Type 0
IsCutOf size s cs =
    All (λ (c : TextChunk). (c.section ≡ s.name) × (c.token_count ≤ size)) cs
    × (map (λ (c : TextChunk). c.chunk_index) cs ≡ count_from 0 (length cs))

number-chunks :
    (encoding : Encoding) (name : Str) (size index : ℕ) (ws : List (List ℕ))
    → All (λ (w : List ℕ). (0 < length w) × (length w ≤ size)) ws
    → All
        (λ (c : TextChunk). (c.section ≡ name) × (c.token_count ≤ size))
        (number (as_chunk encoding name) index ws)
      × (map (λ (c : TextChunk). c.chunk_index) (number (as_chunk encoding name) index ws)
          ≡ count_from index (length (number (as_chunk encoding name) index ws)))
number-chunks encoding name size index [] h = (tt, refl)
number-chunks encoding name size index (w ∷ ws) ((_, small), h) =
    let (each, numbers) = number-chunks encoding name size (index + 1) ws h in
    (((refl, small), each), ap (◌∷◌ index) numbers)

pub token_chunks-IsCutOf :
    (encoding : Encoding) (s : DocumentSection) (size overlap : ℕ) (tokens : List ℕ)
    → overlap < size
    → IsCutOf size s (token_chunks encoding s size overlap tokens)
      × (0 < length (token_chunks encoding s size overlap tokens))
unfolding token_chunks
token_chunks-IsCutOf encoding s size overlap tokens h = elim (dec_lt size (length tokens)) [
  | yes long ↦
      let ws = section_windows encoding s size overlap tokens in
      let (m, count, _, _) =
        length-windows (length tokens) size (size - overlap) tokens (omega arith) (omega arith)
          (omega arith) (omega arith) in
      subst (λ cs. IsCutOf size s cs × (0 < length cs))
        (sym (token_chunks_long encoding s size overlap tokens long))
        (
          number-chunks encoding s.name size 0 ws (
              windows-sizes _ size (size - overlap) tokens (omega arith) (omega arith)
                (omega arith)),
          omega (arith, length-number (as_chunk encoding s.name) 0 ws, count),
        )
  | no fits ↦
      rw (leb_of_le (length tokens) size (omega (arith, fits)))
        ((((refl, omega (arith, fits)), tt), refl), omega arith)
]
