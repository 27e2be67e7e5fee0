-- ===== src/Chunking.antt =====
-- The section-aware chunker, tradegraph/src/rag/chunking/chunker.py. The tokenizer is a parameter:
-- tiktoken's encoding is a package that the source only calls. The proofs are in the modules below.
pub mod Windows
pub mod Sections
pub mod Numbering
pub mod Tables
use juris_mind_ai.Base.{
  ℕ, zero, suc, ◌+◌, ◌-◌, min, Bool, true, false, Option, none, some, List, [], ◌∷◌, ◌++◌, map, ltb,
  leb, if◌then◌else◌, length, take, drop, ◌==◌, nat_eq,
}
use juris_mind_ai.Base.Result.{Result, ok, raised, ◌>>=◌}
use juris_mind_ai.Base.Text.{Str, text as lit, truthy, strip, join}
use juris_mind_ai.Document.{ExtractedTable, DocumentSection, ParsedDocument}

abbrev pub chunk_size_tokens : ℕ
chunk_size_tokens = 700

abbrev pub chunk_overlap_tokens : ℕ
chunk_overlap_tokens = 100

-- What the chunker raises: a `ValueError` of its own, or that of `encode` on a special token.
pub data ChunkingError : Type 0 where
  special_token : ChunkingError
  overlap_too_large : ℕ → ℕ → ChunkingError

pub record TextChunk : Type 0 where
  pub section : Str
  pub chunk_index : ℕ
  pub text : Str
  pub token_count : ℕ

pub record TableChunk : Type 0 where
  pub section : Option Str
  pub chunk_index : ℕ
  pub title : Option Str
  pub headers : List Str
  pub rows : List (List Str)
  pub text : Str
  pub token_count : ℕ

pub data Chunk : Type 0 where
  text_chunk : TextChunk → Chunk
  table_chunk : TableChunk → Chunk

-- `c.text`, of either class
abbrev pub chunk_text : Chunk → Str
chunk_text (text_chunk c) = c.text
chunk_text (table_chunk c) = c.text

-- `tiktoken.get_encoding("cl100k_base")`; `encode` raises where the text has a special token, which
-- is `none`.
pub record Encoding : Type 0 where
  pub encode : Str → Option (List ℕ)
  pub decode : List ℕ → Str

-- `if table.title:`
title_lines : Option Str → List Str
unfolding truthy
title_lines none = []
title_lines (some t) = if truthy t then t ∷ [] else []

header_lines : List Str → List Str
unfolding truthy
header_lines headers = if truthy headers then join (lit " | ") headers ∷ [] else []

unfoldable pub linearize_table : ExtractedTable → Str
unfolding title_lines header_lines join lit
linearize_table t =
    join (lit "\n")
      (title_lines t.title ++ (header_lines t.headers ++ map (join (lit " | ")) t.rows))

module _ (encoding : Encoding) where
  -- The `while` loop. Its counter falls with each round; `length tokens` rounds are enough, since
  -- `stride` is at least one.
  pub section_loop : ℕ → Str → ℕ → ℕ → List ℕ → ℕ → ℕ → List TextChunk
  section_loop zero name size stride tokens index start = []
  section_loop (suc fuel) name size stride tokens index start =
      let end = min (start + size) (length tokens) in
      let window = take (end - start) (drop start tokens) in
      let rest = section_loop fuel name size stride tokens (index + 1) (start + stride) in
      let chunk : TextChunk = record {
        section = name;
        chunk_index = index;
        text = encoding.decode window;
        token_count = length window;
      } in
      if ltb start (length tokens) then chunk ∷ (if end == length tokens then [] else rest) else []

  -- From `tokens` on.
  pub token_chunks : DocumentSection → ℕ → ℕ → List ℕ → List TextChunk
  unfolding section_loop
  token_chunks section size overlap tokens =
      if leb (length tokens) size
      then record {
        section = section.name;
        chunk_index = 0;
        text = section.text;
        token_count = length tokens;
      }
        ∷ []
      else section_loop (length tokens) section.name size (size - overlap) tokens 0 0

  -- What is made of the tokens, if `encode` does not raise.
  pub if_encoded : {A : Type 0} → (List ℕ → A) → Option (List ℕ) → Result ChunkingError A
  if_encoded f none = raised special_token
  if_encoded f (some tokens) = ok (f tokens)

  unfoldable pub chunk_section : DocumentSection → ℕ → ℕ → Result ChunkingError (List TextChunk)
  unfolding token_chunks if_encoded truthy strip
  chunk_section section size overlap =
      let chunks = if_encoded (token_chunks section size overlap) (encoding.encode section.text) in
      if truthy (strip section.text) then chunks else ok []

  unfoldable pub table_to_chunk : ExtractedTable → ℕ → Result ChunkingError TableChunk
  unfolding linearize_table if_encoded
  table_to_chunk table index =
      if_encoded
        (λ tokens. record {
          section = table.section;
          chunk_index = index;
          title = table.title;
          headers = table.headers;
          rows = table.rows;
          text = linearize_table table;
          token_count = length tokens;
        })
        (encoding.encode (linearize_table table))

  -- `for section in parsed.sections: chunks.extend(…)`
  pub text_chunks : List DocumentSection → ℕ → ℕ → Result ChunkingError (List Chunk)
  unfolding chunk_section
  text_chunks [] size overlap = ok []
  text_chunks (s ∷ rest) size overlap = do
    chunks ← chunk_section s size overlap
    more ← text_chunks rest size overlap
    ok (map text_chunk chunks ++ more)

  -- `for index, table in enumerate(parsed.tables)`
  pub table_chunks : ℕ → List ExtractedTable → Result ChunkingError (List Chunk)
  unfolding table_to_chunk
  table_chunks index [] = ok []
  table_chunks index (t ∷ rest) = do
    chunk ← table_to_chunk t index
    more ← table_chunks (index + 1) rest
    ok (table_chunk chunk ∷ more)

  -- The chunks of the sections, and then those of the tables.
  pub all_chunks : ParsedDocument → ℕ → ℕ → Result ChunkingError (List Chunk)
  unfolding text_chunks table_chunks
  all_chunks parsed size overlap = do
    texts ← text_chunks parsed.sections size overlap
    tables ← table_chunks 0 parsed.tables
    ok (texts ++ tables)

  unfoldable pub chunk_document : ParsedDocument → ℕ → ℕ → Result ChunkingError (List Chunk)
  unfolding all_chunks
  chunk_document parsed size overlap =
      let chunks = all_chunks parsed size overlap in
      if leb size overlap then raised (overlap_too_large overlap size) else chunks
