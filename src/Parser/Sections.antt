-- ===== src/Parser/Sections.antt =====
-- Which section a block of a filing gets into.
use mathlib.Core.List.{flat_map, append-nil, append_assoc, map-append}
use mathlib.Core.Path.{subst}
use juris_mind_ai.Base.{
  flat_map-append, true, Option, none, some, List, [], ◌∷◌, ◌++◌, ◌≡◌, refl, sym, ap, ◌∙◌, map, All,
  All-append,
}
use juris_mind_ai.Base.Text.{Str, text as lit, truthy}
use juris_mind_ai.Document.{DocumentSection}
use juris_mind_ai.Parser.{
  header_of, item_name, section_of, flush_section, section_step, section_blocks, clean_blocks,
  or_document, extract_sections,
}

-- Each line with the name of its section.
abbrev pub tagged : Str × List Str → List (Str × Str)
tagged (name, lines) = map (λ (l : Str). (name, l)) lines

unfoldable label : Str → Str → Option (Str × Str) → (Str → List (Str × Str)) → List (Str × Str)
label name block none rest = (name, block) ∷ rest name
label name block (some header) rest = rest (item_name header)

-- Each block that is no header, with the name that the last header before it gives, or `name`.
unfoldable pub labelled : List Str → Str → List (Str × Str)
unfolding label
labelled [] name = []
labelled (block ∷ blocks) name = label name block (header_of block) (labelled blocks)

abbrev HasLines : Str × List Str → Type 0
HasLines (name, lines) = truthy lines ≡ true

-- Groups of lines that make these sections, and have these names and lines.
pub record Grouped (sections : List DocumentSection) (lines : List (Str × Str)) : Type 0 where
  pub groups : List (Str × List Str)
  pub no_empty : All HasLines groups
  pub same_sections : map section_of groups ≡ sections
  pub same_lines : flat_map tagged groups ≡ lines

flush_section-Grouped :
    (name : Str) (lines : List Str) → Grouped (flush_section name lines) (tagged (name, lines))
unfolding flush_section truthy flat_map
flush_section-Grouped name [] = record {
  groups = [];
  no_empty = tt;
  same_sections = refl;
  same_lines = refl;
}
flush_section-Grouped name (l ∷ lines) = record {
  groups = (name, l ∷ lines) ∷ [];
  no_empty = (refl, tt);
  same_sections = refl;
  same_lines = append-nil (tagged (name, l ∷ lines));
}

Grouped-append :
    (ss ss' : List DocumentSection) (ls ls' : List (Str × Str))
    → Grouped ss ls
    → Grouped ss' ls'
    → Grouped (ss ++ ss') (ls ++ ls')
Grouped-append ss ss' ls ls' g g' = record {
  groups = g.groups ++ g'.groups;
  no_empty = All-append HasLines g.groups g'.groups g.no_empty g'.no_empty;
  same_sections =
      map-append section_of g.groups g'.groups
      ∙ ap (λ xs. xs ++ map section_of g'.groups) g.same_sections
      ∙ ap (λ xs. ss ++ xs) g'.same_sections;
  same_lines =
      flat_map-append tagged g.groups g'.groups
      ∙ ap (λ xs. xs ++ flat_map tagged g'.groups) g.same_lines
      ∙ ap (λ xs. ls ++ xs) g'.same_lines;
}

section_step-Grouped :
    (blocks : List Str) (name : Str) (lines : List Str) (block : Str) (o : Option (Str × Str))
    → ((n : Str) (ls : List Str)
        → Grouped (section_blocks blocks n ls) (tagged (n, ls) ++ labelled blocks n))
    → Grouped
        (section_step name lines block o (section_blocks blocks))
        (tagged (name, lines) ++ label name block o (labelled blocks))
unfolding section_step label
section_step-Grouped blocks name lines block none rest =
    subst (Grouped (section_blocks blocks name (lines ++ block ∷ [])))
      (ap (λ xs. xs ++ labelled blocks name)
          (map-append (λ (l : Str). (name, l)) lines (block ∷ []))
        ∙ append_assoc (tagged (name, lines)) ((name, block) ∷ []) (labelled blocks name))
      (rest name (lines ++ block ∷ []))
section_step-Grouped blocks name lines block (some header) rest =
    Grouped-append (flush_section name lines) (section_blocks blocks (item_name header) [])
      (tagged (name, lines)) (labelled blocks (item_name header)) (flush_section-Grouped name lines)
      (rest (item_name header) [])

section_blocks-Grouped :
    (blocks : List Str) (name : Str) (lines : List Str)
    → Grouped (section_blocks blocks name lines) (tagged (name, lines) ++ labelled blocks name)
unfolding section_blocks labelled
section_blocks-Grouped [] name lines =
    subst (Grouped (flush_section name lines)) (sym (append-nil (tagged (name, lines))))
      (flush_section-Grouped name lines)
section_blocks-Grouped (block ∷ blocks) name lines =
    section_step-Grouped blocks name lines block (header_of block)
      (λ n ls. section_blocks-Grouped blocks n ls)

-- The sections hold the cleaned blocks that are not empty and no headers, in their order, each once,
-- in the section that the last header before it names, or in "document"; no section is empty, save
-- that there is one of that name where no block is left.
pub extract_sections-Grouped :
    (texts : List Str)
    → (sections : List DocumentSection) × (extract_sections texts ≡ or_document sections)
      × Grouped sections (labelled (clean_blocks texts) (lit "document"))
unfolding extract_sections
extract_sections-Grouped texts = (
  section_blocks (clean_blocks texts) (lit "document") [],
  refl,
  section_blocks-Grouped (clean_blocks texts) (lit "document") [],
)
