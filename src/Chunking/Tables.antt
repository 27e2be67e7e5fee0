-- ===== src/Chunking/Tables.antt =====
-- What `chunk_document` makes of a document: text chunks first, then one chunk for each table.
use mathlib.Core.List.{flatten, map-append}
use juris_mind_ai.Base.{
  ℕ, ◌+◌, ◌<◌, ◌≡◌, refl, sym, true, some, List, [], ◌∷◌, ◌++◌, leb_of_lt, leb_of_le, leb, arith,
  ◌∙◌, length, map, ap, All, Bool-cases, inl, inr,
}
use juris_mind_ai.Base.Result.{ok}
use juris_mind_ai.Base.Text.{truthy, strip}
use juris_mind_ai.Document.{ExtractedTable, DocumentSection, ParsedDocument}
use juris_mind_ai.Chunking.Numbering.{count_from, IsCutOf, token_chunks-IsCutOf}
use juris_mind_ai.Chunking.{
  TextChunk, TableChunk, text_chunk, table_chunk, Encoding, chunk_section, text_chunks,
  table_chunks, table_to_chunk, linearize_table, all_chunks, chunk_document, if_encoded,
  token_chunks,
}

-- The table that a chunk still holds.
abbrev pub table_of : TableChunk → ExtractedTable
table_of c = record { title = c.title; headers = c.headers; rows = c.rows; section = c.section }

module _ (encoding : Encoding) where
  -- `encode` refuses no section that has text, and no table.
  abbrev pub AreSections : List DocumentSection → Type 0
  AreSections = All (λ (s : DocumentSection).
      truthy (strip s.text) ≡ true → (tokens : List ℕ) × (encoding.encode s.text ≡ some tokens))

  abbrev pub AreTables : List ExtractedTable → Type 0
  AreTables = All (λ (t : ExtractedTable).
      (tokens : List ℕ) × (encoding.encode (linearize_table t) ≡ some tokens))

  -- The chunks of each section: some where it has text, and none where it has none.
  abbrev pub AreChunks : ℕ → ℕ → List DocumentSection → List (List TextChunk) → Type 0
  AreChunks size overlap [] [] = Unit
  AreChunks size overlap (s ∷ ss) (cs ∷ css) =
      ((chunk_section encoding s size overlap ≡ ok cs)
        × IsCutOf size s cs
        × (leb 1 (length cs) ≡ truthy (strip s.text)))
      × AreChunks size overlap ss css
  AreChunks size overlap _ _ = ⊥

  chunk_section-returns :
      (size overlap : ℕ) (s : DocumentSection)
      → overlap < size
      → (truthy (strip s.text) ≡ true → (tokens : List ℕ) × (encoding.encode s.text ≡ some tokens))
      → (cs : List TextChunk) × ((chunk_section encoding s size overlap ≡ ok cs)
          × IsCutOf size s cs
          × (leb 1 (length cs) ≡ truthy (strip s.text)))
  unfolding chunk_section
  chunk_section-returns size overlap s low encodes = elim (Bool-cases (truthy (strip s.text))) [
    | inl e ↦
        let (tokens, encoded) = encodes e in
        let cs = token_chunks encoding s size overlap tokens in
        let (cut, some_there) = token_chunks-IsCutOf encoding s size overlap tokens low in
        (
          cs,
          (
            rw (e, encoded, if_encoded) refl,
            cut,
            leb_of_le 1 (length cs) (omega (arith, some_there)) ∙ sym e,
          ),
        )
    | inr e ↦ ([], (rw e refl, (tt, refl), sym e))
  ]

  text_chunks-AreChunks :
      (size overlap : ℕ) (ss : List DocumentSection)
      → overlap < size
      → AreSections ss
      → (css : List (List TextChunk)) × AreChunks size overlap ss css
        × (text_chunks encoding ss size overlap ≡ ok (map text_chunk (flatten css)))
  unfolding text_chunks flatten
  text_chunks-AreChunks size overlap [] low h = ([], tt, refl)
  text_chunks-AreChunks size overlap (s ∷ ss) low (here, h) =
      let (cs, chunked) = chunk_section-returns size overlap s low here in
      let (css, are, rest) = text_chunks-AreChunks size overlap ss low h in
      (
        cs ∷ css,
        (chunked, are),
        rw (chunked.0, rest) (ap ok (sym (map-append text_chunk cs (flatten css)))),
      )

  table_chunks-whole :
      (index : ℕ) (ts : List ExtractedTable)
      → AreTables ts
      → (cs : List TableChunk) × (table_chunks encoding index ts ≡ ok (map table_chunk cs))
        × (map table_of cs ≡ ts)
        × (map (λ (c : TableChunk). c.chunk_index) cs ≡ count_from index (length ts))
  unfolding table_chunks table_to_chunk if_encoded
  table_chunks-whole index [] h = ([], refl, refl, refl)
  table_chunks-whole index (t ∷ ts) ((tokens, encoded), h) =
      let (cs, rest, same, numbers) = table_chunks-whole (index + 1) ts h in
      (
        record {
          section = t.section;
          chunk_index = index;
          title = t.title;
          headers = t.headers;
          rows = t.rows;
          text = linearize_table t;
          token_count = length tokens;
        }
            ∷ cs,
        rw (encoded, rest) refl,
        ap (◌∷◌ t) same,
        ap (◌∷◌ index) numbers,
      )

  -- With an overlap that is smaller than the size, and texts that can be encoded, the chunker returns:
  -- first the chunks of each section, in document order, some for a section with text and none for
  -- another, each of at most `size` tokens, with its section's name, and numbered from zero in each
  -- section; and then the tables whole and unsplit, one chunk each, in order, numbered from zero.
  pub chunk_document-parts :
      (size overlap : ℕ) (parsed : ParsedDocument)
      → overlap < size
      → AreSections parsed.sections
      → AreTables parsed.tables
      → (css : List (List TextChunk)) × (tables : List TableChunk) × (chunk_document encoding parsed
            size overlap
          ≡ ok (map text_chunk (flatten css) ++ map table_chunk tables))
        × AreChunks size overlap parsed.sections css
        × (map table_of tables ≡ parsed.tables)
        × (map (λ (c : TableChunk). c.chunk_index) tables ≡ count_from 0 (length parsed.tables))
  unfolding chunk_document all_chunks
  chunk_document-parts size overlap parsed h sections tables =
      let (css, are, texts) = text_chunks-AreChunks size overlap parsed.sections h sections in
      let (cs, whole, same, numbers) = table_chunks-whole 0 parsed.tables tables in
      (css, cs, rw (leb_of_lt size overlap h, texts, whole) refl, are, same, numbers)
