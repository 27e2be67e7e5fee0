-- ===== src/Parser.antt =====
-- The filing parser, tradegraph/src/rag/ingestion/parser.py. What BeautifulSoup finds in a document
-- is a parameter; letters and digits are ASCII's.
pub mod Sections
pub mod Tables
use juris_mind_ai.Base.{
  ℕ, zero, suc, Bool, true, false, ◌&&◌, ◌||◌, Option, none, some, List, [], ◌∷◌, ◌++◌, ltb, leb,
  if◌then◌else◌, ◌==◌, nat_eq, list_eq, length, map,
}
use juris_mind_ai.Base.Result.{Result, ok, raised}
use juris_mind_ai.Base.Text.{Str, text as lit, is_space, lstrip, strip, upper, truthy, join}
use juris_mind_ai.Document.{DocumentSection, ExtractedTable, ParsedDocument}
use juris_mind_ai.Failure.{Failure, parse_error}

abbrev pub max_header_text_length : ℕ
max_header_text_length = 120

-- A run of spaces is one.
onto_space : Str → Str
onto_space [] = b' ' ∷ []
onto_space (c ∷ s) = if c == b' ' then c ∷ s else b' ' ∷ c ∷ s

collapse_spaces : Str → Str
unfolding is_space onto_space
collapse_spaces [] = []
collapse_spaces (c ∷ s) =
    let rest = collapse_spaces s in if is_space c then onto_space rest else c ∷ rest

unfoldable pub clean_text : Str → Str
unfolding collapse_spaces strip
clean_text s = strip (collapse_spaces s)

is_digit : ℕ → Bool
is_digit c = leb b'0' c && leb c b'9'

is_letter : ℕ → Bool
is_letter c = (leb b'a' c && leb c b'z') || (leb b'A' c && leb c b'Z')

-- `[-—:]`
is_dash : ℕ → Bool
is_dash c = c == b'-' || (c == 0x2014 || c == b':')

-- A character of a class, if it is next.
skip_one : (ℕ → Bool) → Str → Str
skip_one class [] = []
skip_one class (c ∷ s) = if class c then s else c ∷ s

-- `item`, whatever its case
after_item : Str → Option Str
unfolding upper
after_item (i ∷ t ∷ e ∷ m ∷ s) =
    if upper (i ∷ t ∷ e ∷ m ∷ []) == (b'I' ∷ b'T' ∷ b'E' ∷ b'M' ∷ []) then some s else none
after_item _ = none

-- `\s+`
after_spaces : Option Str → Option Str
unfolding is_space lstrip
after_spaces none = none
after_spaces (some []) = none
after_spaces (some (c ∷ s)) = if is_space c then some (lstrip s) else none

-- The title, behind `\.?\s*[-—:]?\s*`
title_of : Str → Str
unfolding skip_one is_dash lstrip
title_of s = lstrip (skip_one is_dash (lstrip (skip_one (λ c. c == b'.') s)))

-- `[a-z]?` of the number, and the title
letter_of : Str → Str → Str × Str
unfolding is_letter title_of
letter_of digits [] = (digits, [])
letter_of digits (c ∷ s) =
    if is_letter c then (digits ++ c ∷ [], title_of s) else (digits, title_of (c ∷ s))

-- `(\d{1,2}[a-z]?)` and what follows
number_of : Option Str → Option (Str × Str)
unfolding is_digit letter_of
number_of none = none
number_of (some []) = none
number_of (some (c ∷ [])) = if is_digit c then some (letter_of (c ∷ []) []) else none
number_of (some (c ∷ d ∷ s)) =
    if is_digit c
    then some (if is_digit d then letter_of (c ∷ d ∷ []) s else letter_of (c ∷ []) (d ∷ s))
    else none

-- `_ITEM_HEADER_PATTERN.match(block)`, its groups, for a block of one line
pub match_item_header : Str → Option (Str × Str)
unfolding number_of after_spaces after_item lstrip
match_item_header block = number_of (after_spaces (after_item (lstrip block)))

-- `header_match`
unfoldable pub header_of : Str → Option (Str × Str)
unfolding match_item_header
header_of block =
    if ltb (length block) max_header_text_length then match_item_header block else none

with_title : Str → Str
with_title [] = []
with_title (c ∷ title) = b' ' ∷ c ∷ title

unfoldable pub item_name : Str × Str → Str
unfolding lit upper with_title
item_name (number, title) = lit "Item " ++ (upper number ++ with_title title)

abbrev pub section_of : Str × List Str → DocumentSection
unfolding lit join
section_of (name, lines) = record { name = name; text = join (lit "\n") lines }

-- `if current_lines:`
unfoldable pub flush_section : Str → List Str → List DocumentSection
unfolding section_of
flush_section name [] = []
flush_section name (l ∷ lines) = section_of (name, l ∷ lines) ∷ []

-- A block after `current_lines`, and the sections of the rest.
unfoldable pub section_step :
    Str
    → List Str
    → Str
    → Option (Str × Str)
    → (Str → List Str → List DocumentSection)
    → List DocumentSection
unfolding flush_section item_name
section_step name lines block none rest = rest name (lines ++ block ∷ [])
section_step name lines block (some header) rest =
    flush_section name lines ++ rest (item_name header) []

-- `for block in blocks` and the last section
unfoldable pub section_blocks : List Str → Str → List Str → List DocumentSection
unfolding section_step header_of
section_blocks [] name lines = flush_section name lines
section_blocks (block ∷ blocks) name lines =
    section_step name lines block (header_of block) (section_blocks blocks)

-- `[b for b in blocks if b]`
unfoldable pub clean_blocks : List Str → List Str
unfolding clean_text truthy
clean_blocks [] = []
clean_blocks (t ∷ texts) =
    let rest = clean_blocks texts in if truthy (clean_text t) then clean_text t ∷ rest else rest

unfoldable pub or_document : List DocumentSection → List DocumentSection
unfolding lit
or_document [] = record { name = lit "document"; text = [] } ∷ []
or_document (s ∷ sections) = s ∷ sections

-- `_extract_sections`, from the texts of the blocks
unfoldable pub extract_sections : List Str → List DocumentSection
unfolding lit
extract_sections texts = or_document (section_blocks (clean_blocks texts) (lit "document") [])

-- A `tr` with the texts of its cells, and whether it has a `th`.
pub record RowTag : Type 0 where
  pub cells : List Str
  pub has_th : Bool

-- A `table`, with the texts of its caption and of the block before it.
pub record TableTag : Type 0 where
  pub rows : List RowTag
  pub caption : Option Str
  pub previous : Option Str

any_cell : List Str → Bool
unfolding truthy
any_cell [] = false
any_cell (c ∷ cells) = truthy c || any_cell cells

unfoldable pub kept_rows : List RowTag → List (List Str)
unfolding any_cell clean_text
kept_rows [] = []
kept_rows (r ∷ rows) =
    let rest = kept_rows rows in
    let cells = map clean_text r.cells in if any_cell cells then cells ∷ rest else rest

looks_like_header_row : List RowTag → Bool
looks_like_header_row [] = false
looks_like_header_row (r ∷ rows) = r.has_th

text_or_none : Str → Option Str
text_or_none [] = none
text_or_none (c ∷ s) = some (c ∷ s)

short_or_none : Option Str → Option Str
unfolding clean_text truthy
short_or_none none = none
short_or_none (some t) =
    let text = clean_text t in
    if truthy text && ltb (length text) max_header_text_length then some text else none

pub find_preceding_caption : TableTag → Option Str → Option Str
unfolding clean_text text_or_none short_or_none
find_preceding_caption tag none = short_or_none tag.previous
find_preceding_caption tag (some caption) = text_or_none (clean_text caption)

-- The rest of the loop of `_extract_tables`; the first of the kept rows is not empty.
unfoldable pub extract_table : TableTag → List (List Str) → List ExtractedTable
unfolding looks_like_header_row find_preceding_caption
extract_table tag [] = []
extract_table tag (row ∷ rows) =
    let title = find_preceding_caption tag tag.caption in
    (if looks_like_header_row tag.rows
      then record { title = title; headers = row; rows = rows; section = none }
      else record { title = title; headers = []; rows = row ∷ rows; section = none })
    ∷ []

unfoldable pub extract_tables : List TableTag → List ExtractedTable
unfolding kept_rows extract_table
extract_tables [] = []
extract_tables (tag ∷ tags) = extract_table tag (kept_rows tag.rows) ++ extract_tables tags

-- What is found in a document: its tables, and the texts of its blocks once the tables are out.
pub record Soup : Type 0 where
  pub tables : List TableTag
  pub blocks : List Str

-- `parse_filing_html`, from what BeautifulSoup makes of the bytes
unfoldable pub parse_filing_html : Option Soup → Result Failure ParsedDocument
unfolding lit
parse_filing_html none = raised (parse_error (lit "failed to parse HTML"))
parse_filing_html (some soup) =
    ok (record { sections = extract_sections soup.blocks; tables = extract_tables soup.tables })
