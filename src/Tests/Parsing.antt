-- ===== src/Tests/Parsing.antt =====
-- A filing with a header in a long block, and a table whose first row is blank.
use mathlib.Core.List.{flat_map}
use juris_mind_ai.Parser.Sections.{Grouped, labelled}
use juris_mind_ai.Parser.Tables.{parse_filing_html-keeps, all_rows, rows_of}
use juris_mind_ai.Document.{DocumentSection, ParsedDocument}
use juris_mind_ai.Parser.{
  Soup, clean_blocks, or_document, parse_filing_html, extract_sections, section_blocks,
  extract_tables,
}
use juris_mind_ai.Base.{true, false, none, some, List, [], ◌∷◌, ◌≡◌, refl, list_beq}
use juris_mind_ai.Base.Result.{ok}
use juris_mind_ai.Base.Text.{text as lit}

abbrev soup : Soup
unfolding lit
soup = record {
  tables =
      record {
        rows =
            record { cells = lit " " ∷ []; has_th = true }
            ∷ record { cells = lit "a  b" ∷ lit "1" ∷ []; has_th = false }
            ∷ record { cells = lit "c" ∷ lit "2" ∷ []; has_th = false }
            ∷ [];
        caption = none;
        previous = some (lit " In millions ");
      }
      ∷ [];
  blocks =
      lit "Acme"
      ∷ lit " \n "
      ∷ lit " iTEM\t 1a. :  Risk  factors"
      ∷ lit "We may  lose."
      ∷ lit "Items"
      ∷ lit "Item 10K"
      ∷ lit "Item 7"
      ∷ lit "Sales rose."
      ∷ [];
}

-- A header with no lines gives no section.
sections_of :
    extract_sections soup.blocks
    ≡ record { name = lit "document"; text = lit "Acme" }
      ∷ record { name = lit "Item 1A Risk factors"; text = lit "We may lose.\nItems" }
      ∷ record { name = lit "Item 7"; text = lit "Sales rose." }
      ∷ []
unfolding lit soup extract_sections or_document section_blocks clean_blocks list_beq
sections_of = refl

-- The `th` is that of the blank row, so that the first row of data becomes the headers.
tables_of :
    extract_tables soup.tables
    ≡ record {
      title = some (lit "In millions");
      headers = lit "a b" ∷ lit "1" ∷ [];
      rows = (lit "c" ∷ lit "2" ∷ []) ∷ [];
      section = none;
    }
      ∷ []
unfolding lit soup extract_tables
tables_of = refl

parse_filing_html-keeps_example :
    (d : ParsedDocument) × (sections : List DocumentSection) × (parse_filing_html (some soup)
      ≡ ok d)
    × (d.sections ≡ or_document sections)
    × Grouped sections (labelled (clean_blocks soup.blocks) (lit "document"))
    × (flat_map all_rows d.tables ≡ rows_of soup.tables)
parse_filing_html-keeps_example = parse_filing_html-keeps soup
