-- ===== src/Parser/Tables.antt =====
-- The rows of the tables of a filing, and its parsing as a whole.
use mathlib.Core.List.{flat_map, append-nil}
use mathlib.Core.Bool.{true≢false}
use juris_mind_ai.Base.{
  flat_map-append, true, Bool-cases, some, List, [], ◌∷◌, ◌++◌, ◌≡◌, refl, sym, ap, ◌∙◌, map, All,
  inl, inr,
}
use juris_mind_ai.Base.Result.{ok}
use juris_mind_ai.Base.Text.{Str, text as lit, truthy}
use juris_mind_ai.Document.{DocumentSection, ExtractedTable, ParsedDocument}
use juris_mind_ai.Parser.Sections.{Grouped, labelled, extract_sections-Grouped}
use juris_mind_ai.Parser.{
  any_cell, kept_rows, RowTag, TableTag, Soup, looks_like_header_row, extract_table, extract_tables,
  clean_text, clean_blocks, or_document, parse_filing_html, extract_sections,
}

with_headers : List Str → List (List Str) → List (List Str)
with_headers [] rows = rows
with_headers (c ∷ cells) rows = (c ∷ cells) ∷ rows

-- The rows of a table, its headers first.
unfoldable pub all_rows : ExtractedTable → List (List Str)
unfolding with_headers
all_rows t = with_headers t.headers t.rows

-- The rows of the tags that have a cell with text.
unfoldable pub rows_of : List TableTag → List (List Str)
rows_of [] = []
rows_of (tag ∷ tags) = kept_rows tag.rows ++ rows_of tags

any_cell-truthy : (cells : List Str) → any_cell cells ≡ true → truthy cells ≡ true
unfolding any_cell truthy
any_cell-truthy [] h = h
any_cell-truthy (c ∷ cells) h = refl

kept_rows-truthy : (rows : List RowTag) → All (λ (r : List Str). truthy r ≡ true) (kept_rows rows)
unfolding kept_rows
kept_rows-truthy [] = tt
kept_rows-truthy (r ∷ rows) = elim (Bool-cases (any_cell (map clean_text r.cells))) [
  | inl e ↦ rw e (any_cell-truthy (map clean_text r.cells) e, kept_rows-truthy rows)
  | inr e ↦ rw e (kept_rows-truthy rows)
]

with_headers-truthy :
    (row : List Str) (rows : List (List Str))
    → truthy row ≡ true
    → with_headers row rows ≡ row ∷ rows
unfolding with_headers truthy
with_headers-truthy [] rows h = absurd (true≢false (sym h))
with_headers-truthy (c ∷ cells) rows h = refl

extract_table-rows :
    (tag : TableTag) (rows : List (List Str))
    → All (λ (r : List Str). truthy r ≡ true) rows
    → flat_map all_rows (extract_table tag rows) ≡ rows
unfolding extract_table all_rows flat_map with_headers
extract_table-rows tag [] h = refl
extract_table-rows tag (row ∷ rows) (here, h) = elim (Bool-cases (looks_like_header_row tag.rows)) [
  | inl e ↦ rw e (append-nil (with_headers row rows) ∙ with_headers-truthy row rows here)
  | inr e ↦ rw e (append-nil (row ∷ rows))
]

extract_tables-rows :
    (tags : List TableTag) → flat_map all_rows (extract_tables tags) ≡ rows_of tags
unfolding extract_tables rows_of flat_map
extract_tables-rows [] = refl
extract_tables-rows (tag ∷ tags) =
    flat_map-append all_rows (extract_table tag (kept_rows tag.rows)) (extract_tables tags)
    ∙ ap (λ xs. xs ++ flat_map all_rows (extract_tables tags))
        (extract_table-rows tag (kept_rows tag.rows) (kept_rows-truthy tag.rows))
    ∙ ap (λ xs. kept_rows tag.rows ++ xs) (extract_tables-rows tags)

-- A document that BeautifulSoup reads is parsed. Its sections hold the cleaned blocks that are not
-- empty and no headers, in their order, each once, in the section that the last header before it
-- names, or in "document"; no section is empty, save that there is one of that name where no block
-- is left. Its tables hold the rows with some text, in their order, each once, as headers or as rows.
pub parse_filing_html-keeps :
    (soup : Soup)
    → (d : ParsedDocument) × (sections : List DocumentSection) × (parse_filing_html (some soup)
        ≡ ok d)
      × (d.sections ≡ or_document sections)
      × Grouped sections (labelled (clean_blocks soup.blocks) (lit "document"))
      × (flat_map all_rows d.tables ≡ rows_of soup.tables)
unfolding parse_filing_html
parse_filing_html-keeps soup =
    let (sections, same, grouped) = extract_sections-Grouped soup.blocks in
    (
      record { sections = extract_sections soup.blocks; tables = extract_tables soup.tables },
      sections,
      refl,
      same,
      grouped,
      extract_tables-rows soup.tables,
    )
