-- ===== src/Tests/Chunks.antt =====
-- The chunker on a section of eight characters, a token each.
use juris_mind_ai.Chunking.Numbering.{count_from}
use juris_mind_ai.Chunking.Tables.{
  chunk_document-parts, table_of, AreChunks, AreSections, AreTables,
}
use mathlib.Core.List.{flatten}
use juris_mind_ai.Chunking.Windows.{reassemble}
use juris_mind_ai.Chunking.Sections.{
  chunk_section-covers, section_windows, section_chunks, IsLong, chunk_section-sizes,
}
use juris_mind_ai.Base.Result.{ok}
use juris_mind_ai.Base.{
  contains, nat_eq, if◌then◌else◌, some, ◌++◌, map, ◌<◌, length, ◌≤◌, All, refl, ◌≡◌, ℕ, none, List,
  [], ◌∷◌, arith,
}
use juris_mind_ai.Base.Text.{strip, truthy, join, Str, text as lit}
use juris_mind_ai.Chunking.{
  text_chunk, table_chunk, TableChunk, linearize_table, chunk_document, Encoding, TextChunk,
  chunk_section,
}
use juris_mind_ai.Document.{ParsedDocument, DocumentSection}

abbrev by_character : Encoding
by_character = record { encode = λ s. if contains s 0 then none else some s; decode = λ t. t }

abbrev chunk_of : Str → ℕ → ℕ → TextChunk
chunk_of t i n = record { section = lit "MD&A"; chunk_index = i; text = t; token_count = n }

abbrev section : DocumentSection
unfolding lit
section = record { name = lit "MD&A"; text = lit "abcdefgh" }

three_chunks :
    chunk_section by_character section 4 1
    ≡ ok (chunk_of (lit "abcd") 0 4 ∷ chunk_of (lit "defg") 1 4 ∷ chunk_of (lit "gh") 2 2 ∷ [])
unfolding chunk_section lit contains
three_chunks = refl

section-IsLong : IsLong by_character section 4 section.text
unfolding lit truthy strip contains
section-IsLong = (refl, refl, omega arith)

chunk_section-covers_example :
    (chunk_section by_character section 4 1
      ≡ ok (section_chunks by_character section 4 1 section.text))
    × (reassemble 1 (section_windows by_character section 4 1 section.text) ≡ section.text)
chunk_section-covers_example =
    chunk_section-covers by_character section 4 1 section.text (omega arith) section-IsLong

chunk_section-sizes_example :
    (chunks : List TextChunk) × (chunk_section by_character section 4 1 ≡ ok chunks)
    × All (λ (c : TextChunk). (0 < c.token_count) × (c.token_count ≤ 4)) chunks
chunk_section-sizes_example =
    chunk_section-sizes by_character section 4 1 section.text (omega arith) section-IsLong

abbrev parsed : ParsedDocument
parsed = record {
  sections = section ∷ section ∷ [];
  tables =
      record { title = none; headers = []; rows = (section.text ∷ []) ∷ []; section = none } ∷ [];
}

parsed-AreSections : AreSections by_character parsed.sections
unfolding lit contains
parsed-AreSections = ((λ _. (section.text, refl)), ((λ _. (section.text, refl)), tt))

parsed-AreTables : AreTables by_character parsed.tables
unfolding lit contains linearize_table truthy join
parsed-AreTables = ((section.text, refl), tt)

chunk_document-parts_example :
    (css : List (List TextChunk)) × (tables : List TableChunk) × (chunk_document by_character parsed
        4 1
      ≡ ok (map text_chunk (flatten css) ++ map table_chunk tables))
    × AreChunks by_character 4 1 parsed.sections css
    × (map table_of tables ≡ parsed.tables)
    × (map (λ (c : TableChunk). c.chunk_index) tables ≡ count_from 0 (length parsed.tables))
chunk_document-parts_example =
    chunk_document-parts by_character 4 1 parsed (omega arith) parsed-AreSections parsed-AreTables
