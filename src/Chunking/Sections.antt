-- ===== src/Chunking/Sections.antt =====
-- The chunks that `_chunk_section` makes of a section.
use juris_mind_ai.Base.{
  length-drop, false, drop, ℕ, zero, suc, ◌+◌, ◌-◌, ◌*◌, ◌≤◌, ◌<◌, ◌≡◌, refl, true, List, [], ◌∷◌,
  arith, leb_of_le, leb_of_lt, length, All,
}
use juris_mind_ai.Base.Text.{Str, truthy, strip}
use juris_mind_ai.Document.{DocumentSection}
use juris_mind_ai.Base.{none, some, ap}
use juris_mind_ai.Base.Result.{ok, raised}
use juris_mind_ai.Chunking.{
  special_token, token_chunks, if_encoded, TextChunk, Encoding, section_loop, chunk_section,
}
use juris_mind_ai.Chunking.Windows.{
  windows, number, as_chunk, reassemble, section_loop-eq-windows, reassemble-windows, windows-sizes,
  windows-fuel, length-windows,
}

pub length-number {ℓ} :
    {A : Type ℓ} (f : A → ℕ → TextChunk) (index : ℕ) (ws : List A)
    → length (number f index ws) ≡ length ws
length-number f index [] = refl
length-number f index (w ∷ ws) = omega (arith, length-number f (index + 1) ws)

All-number :
    (encoding : Encoding) (name : Str) (P : ℕ → Type 0) (index : ℕ) (ws : List (List ℕ))
    → All (λ w. P (length w)) ws
    → All (λ c. P c.token_count) (number (as_chunk encoding name) index ws)
All-number encoding name P index [] h = tt
All-number encoding name P index (w ∷ ws) h = (h.0, All-number encoding name P (index + 1) ws h.1)

-- A section with text, with these tokens, and longer than a chunk.
abbrev pub IsLong : Encoding → DocumentSection → ℕ → List ℕ → Type 0
IsLong encoding section size tokens =
    (truthy (strip section.text) ≡ true)
    × (encoding.encode section.text ≡ some tokens)
    × (size < length tokens)

module _ (encoding : Encoding) (section : DocumentSection) (size overlap : ℕ)
    (tokens : List ℕ) where
  abbrev pub section_windows : List (List ℕ)
  section_windows = windows (length tokens) size (size - overlap) tokens

  abbrev pub section_chunks : List TextChunk
  section_chunks = number (as_chunk encoding section.name) 0 section_windows

  pub token_chunks_long :
      size < length tokens → token_chunks encoding section size overlap tokens ≡ section_chunks
  unfolding token_chunks
  token_chunks_long long = rw (leb_of_lt _ _ long) (
      section_loop-eq-windows encoding section.name size (size - overlap) (omega arith) _ 0 0 _
        (omega arith))

  chunk_section_long :
      IsLong encoding section size tokens
      → chunk_section encoding section size overlap ≡ ok section_chunks
  unfolding chunk_section
  chunk_section_long (some_text, encoded, long) =
      rw (some_text, encoded, if_encoded) (ap ok (token_chunks_long long))

  -- A long section that can be encoded becomes the chunks of windows on its tokens, numbered from
  -- zero in order; the windows, with each overlap read once, are the tokens of the whole section.
  pub chunk_section-covers :
      overlap < size
      → IsLong encoding section size tokens
      → (chunk_section encoding section size overlap ≡ ok section_chunks)
        × (reassemble overlap section_windows ≡ tokens)
  chunk_section-covers h (some_text, encoded, long) = (
    chunk_section_long (some_text, encoded, long),
    reassemble-windows _ size overlap tokens h (omega arith),
  )

  -- A long section that can be encoded never yields an empty chunk, nor one of more tokens than the
  -- size.
  pub chunk_section-sizes :
      overlap < size
      → IsLong encoding section size tokens
      → (chunks : List TextChunk) × (chunk_section encoding section size overlap ≡ ok chunks)
        × All (λ (c : TextChunk). (0 < c.token_count) × (c.token_count ≤ size)) chunks
  chunk_section-sizes h (some_text, encoded, long) = (
    section_chunks,
    chunk_section_long (some_text, encoded, long),
    All-number encoding section.name (λ n. (0 < n) × (n ≤ size)) 0 section_windows
        (windows-sizes _ size (size - overlap) tokens (omega arith) (omega arith) (omega arith)),
  )

  -- A long section that can be encoded yields `m + 1` chunks with `0 < m`, where `m` strides and one
  -- chunk size reach the end of its tokens, and one stride fewer does not.
  pub length-chunk_section :
      overlap < size
      → IsLong encoding section size tokens
      → let stride = size - overlap in
        (chunks : List TextChunk) × (m : ℕ) × (chunk_section encoding section size overlap
          ≡ ok chunks)
        × (length chunks ≡ suc m)
        × (0 < m)
        × (length tokens ≤ size + m * stride)
        × (size + m * stride < length tokens + stride)
  length-chunk_section h (some_text, encoded, long) =
      let (m, count, reach, short) =
        length-windows (length tokens) size (size - overlap) tokens (omega arith) (omega arith)
          (omega arith) (omega arith) in
      (
        section_chunks,
        m,
        chunk_section_long (some_text, encoded, long),
        rw (length-number (as_chunk encoding section.name) 0 section_windows) count,
        one_stride long m reach,
        reach,
        short (one_stride long m reach),
      )
    where
      one_stride :
          size < length tokens → (m : ℕ) → length tokens ≤ size + m * (size - overlap) → 0 < m
      one_stride long zero reach = absurd (omega arith)
      one_stride long (suc m) reach = omega arith

  -- A section without text yields nothing; one that fits yields itself, whole and unchanged; and one
  -- that `encode` refuses raises.
  pub chunk_section-short :
      (truthy (strip section.text) ≡ false → chunk_section encoding section size overlap ≡ ok [])
      × (truthy (strip section.text) ≡ true
          → encoding.encode section.text ≡ some tokens
          → length tokens ≤ size
          → chunk_section encoding section size overlap
            ≡ ok (
                record {
                  section = section.name;
                  chunk_index = 0;
                  text = section.text;
                  token_count = length tokens;
                }
                ∷ []))
      × (truthy (strip section.text) ≡ true
          → encoding.encode section.text ≡ none
          → chunk_section encoding section size overlap ≡ raised special_token)
  unfolding chunk_section token_chunks
  chunk_section-short = (
    λ blank. rw blank refl,
    λ some_text encoded fits. rw (some_text, encoded, if_encoded, leb_of_le _ _ fits) refl,
    λ some_text refused. rw (some_text, refused, if_encoded) refl,
  )

-- The loop ends by its own test: with a stride of at least one, rounds past as many as there are
-- tokens left add nothing.
pub section_loop-stable :
    (encoding : Encoding) (name : Str) (size stride more index start : ℕ) (tokens : List ℕ)
    → 0 < stride
    → stride ≤ size
    → start < length tokens
    → section_loop encoding (length tokens + more) name size stride tokens index start
      ≡ section_loop encoding (length tokens) name size stride tokens index start
section_loop-stable encoding name size stride more index start tokens moves small inside =
    let n = length tokens in
    let same =
      windows-fuel n more size stride (drop start tokens) moves small
        (omega (arith, length-drop start tokens)) (omega (arith, length-drop start tokens)) in
    rw
      (
        section_loop-eq-windows encoding name size stride small (n + more) index start tokens
            inside,
        same,
        section_loop-eq-windows encoding name size stride small n index start tokens inside,
      )
      refl
