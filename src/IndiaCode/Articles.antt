-- ===== src/IndiaCode/Articles.antt =====
-- `parse_articles` of tradegraph/src/rag/ingestion/india_code.py. Its regular expressions are written
-- out: each has at most one way to match at a place. Digits and capitals are those of ASCII; the
-- warnings are left out.
pub mod Sections
use juris_mind_ai.Base.{
  ℕ, zero, suc, ◌+◌, ◌-◌, Bool, true, false, not, ◌&&◌, ◌||◌, Option, none, some, List, [], ◌∷◌,
  ◌++◌, ltb, leb, if◌then◌else◌, ◌==◌, nat_eq, list_eq, contains, length, take, drop,
}
use juris_mind_ai.Base.Result.{Result, ok, raised}
use juris_mind_ai.Base.Text.{Str, text as lit, is_space, lstrip, strip, without, read_ℕ}
use juris_mind_ai.Document.{DocumentSection, ParsedDocument}
use juris_mind_ai.Failure.{Failure, parse_error}
use juris_mind_ai.IndiaCode.{starts_with, truncate_at_contamination}

abbrev pub em_dash : ℕ
em_dash = 0x2014

abbrev pub replacement_char : ℕ
replacement_char = 0xfffd

is_digit : ℕ → Bool
is_digit c = leb b'0' c && leb c b'9'

is_capital : ℕ → Bool
is_capital c = leb b'A' c && leb c b'Z'

-- `\d{1,3}`: the digits and the rest.
take_digits : ℕ → Str → Str × Str
unfolding is_digit
take_digits zero s = ([], s)
take_digits (suc n) [] = ([], [])
take_digits (suc n) (c ∷ s) =
    let (digits, rest) = take_digits n s in if is_digit c then (c ∷ digits, rest) else ([], c ∷ s)

-- `[A-Z]?`
take_letter : Str → Str × Str
unfolding is_capital
take_letter [] = ([], [])
take_letter (c ∷ s) = if is_capital c then (c ∷ [], s) else ([], c ∷ s)

-- `\.`
after_dot : Str → Option Str
after_dot [] = none
after_dot (c ∷ s) = if c == b'.' then some s else none

-- `\s+`
after_spaces : Str → Option Str
unfolding is_space lstrip
after_spaces [] = none
after_spaces (c ∷ s) = if is_space c then some (lstrip s) else none

with_first : ℕ → Option (Str × Str) → Option (Str × Str)
with_first c none = none
with_first c (some (title, rest)) = some (c ∷ title, rest)

-- `[^.]{0,n}?` up to the first dot or dash, and what stands after that.
take_title : ℕ → Str → Option (Str × Str)
unfolding with_first
take_title n [] = none
take_title zero (c ∷ s) = if c == b'.' || c == em_dash then some ([], s) else none
take_title (suc n) (c ∷ s) =
    let later = take_title n s in
    if c == b'.' || c == em_dash then some ([], s) else with_first c later

-- `([A-Z][^.]{0,120}?)[.—]`
match_title : Str → Option (Str × Str)
unfolding is_capital with_first take_title
match_title [] = none
match_title (c ∷ s) = if is_capital c then with_first c (take_title 120 s) else none

pub record ArticleMatch : Type 0 where
  pub digits : Str
  pub letter : Str
  pub title : Str
  pub start : ℕ
  pub end : ℕ

-- `m.group(1)`
abbrev pub number : ArticleMatch → Str
number m = m.digits ++ m.letter

title_after : Str → Str → Option (Str × Str) → Option ((Str × Str × Str) × Str)
title_after digits letter none = none
title_after digits letter (some (title, rest)) = some ((digits, letter, title), rest)

title_at : Str → Str → Option Str → Option ((Str × Str × Str) × Str)
unfolding title_after match_title
title_at digits letter none = none
title_at digits letter (some s) = title_after digits letter (match_title s)

spaces_at : Str → Str → Option Str → Option ((Str × Str × Str) × Str)
unfolding title_at after_spaces
spaces_at digits letter none = none
spaces_at digits letter (some s) = title_at digits letter (after_spaces s)

-- The number, from its digits on.
number_at : Str × Str → Option ((Str × Str × Str) × Str)
unfolding spaces_at take_letter after_dot
number_at ([], s) = none
number_at (d ∷ ds, s) =
    let (letter, rest) = take_letter s in spaces_at (d ∷ ds) letter (after_dot rest)

-- The pattern at a place: its groups, and the text after the match.
match_article : Str → Option ((Str × Str × Str) × Str)
unfolding number_at take_digits lstrip
match_article [] = none
match_article (c ∷ s) = if c == b'\n' then number_at (take_digits 3 (lstrip s)) else none

-- `_ARTICLE_PATTERN.finditer`, from the place `at`, with as many rounds as characters.
pub find_articles : ℕ → ℕ → Str → List ArticleMatch
unfolding match_article
find_articles zero at s = []
find_articles (suc fuel) at [] = []
find_articles (suc fuel) at (c ∷ s) = elim (match_article (c ∷ s)) [
  | none ↦ find_articles fuel (suc at) s
  | some ((digits, letter, title), rest) ↦
      let end = at + (length (c ∷ s) - length rest) in
      record { digits = digits; letter = letter; title = strip title; start = at; end = end }
      ∷ find_articles fuel end rest
]

is_between : ℕ → ℕ → Option ℕ → Bool
is_between min_article max_article none = false
is_between min_article max_article (some n) = leb min_article n && leb n max_article

-- The two `continue`s of the loop.
unfoldable pub is_kept : ℕ → ℕ → List Str → ArticleMatch → Bool
unfolding is_between read_ℕ contains
is_kept min_article max_article seen m =
    is_between min_article max_article (read_ℕ m.digits)
    && not (contains m.title replacement_char || contains seen (number m))

pub keep_articles : ℕ → ℕ → List Str → List ArticleMatch → List ArticleMatch
unfolding is_kept
keep_articles min_article max_article seen [] = []
keep_articles min_article max_article seen (m ∷ ms) =
    let kept = m ∷ keep_articles min_article max_article (number m ∷ seen) ms in
    let passed = keep_articles min_article max_article seen ms in
    if is_kept min_article max_article seen m then kept else passed

-- `re.sub` of a run of characters by one space; `within` a run the rest of it goes.
pub collapse : (ℕ → Bool) → Bool → Str → Str
collapse is_in within [] = []
collapse is_in within (c ∷ s) = elim (is_in c) [
  | true ↦ if within then collapse is_in true s else b' ' ∷ collapse is_in true s
  | false ↦ c ∷ collapse is_in false s
]

-- `_HEADER_NOISE.sub(" ", s)`: `skip` characters of the phrase are left to drop, then spaces.
pub drop_headers : ℕ → Bool → Str → Str
unfolding lit starts_with is_space
drop_headers skip eating [] = []
drop_headers (suc skip) eating (c ∷ s) = drop_headers skip eating s
drop_headers zero eating (c ∷ s) = elim (eating && is_space c) [
  | true ↦ drop_headers zero true s
  | false ↦ elim (starts_with (lit "THE CONSTITUTION OF INDIA") (c ∷ s)) [
    | true ↦ b' ' ∷ drop_headers 24 true s
    | false ↦ c ∷ drop_headers zero false s
  ]
]

is_blank : ℕ → Bool
is_blank c = c == 32 || c == 9

unfoldable pub clean : Str → Str
unfolding drop_headers without collapse is_blank
clean raw_text =
    collapse is_blank false (without 12 (without 13 (drop_headers zero false raw_text)))

-- `s.replace(_REPLACEMENT_CHAR, " - ")`
pub replace_garbled : Str → Str
unfolding lit
replace_garbled [] = []
replace_garbled (c ∷ s) =
    let rest = replace_garbled s in if c == replacement_char then lit " - " ++ rest else c ∷ rest

-- `kept[i + 1][2] if i + 1 < len(kept) else len(cleaned)`
pub body_end : Str → List ArticleMatch → ℕ
body_end cleaned [] = length cleaned
body_end cleaned (m ∷ ms) = m.start

pub section_with : ArticleMatch → Str → DocumentSection
unfolding lit
section_with m body = record {
  name = lit "Article " ++ number m;
  text = lit "Article " ++ (number m ++ (lit ". " ++ (m.title ++ (lit ".\n\n" ++ body))));
}

pub unless : Bool → DocumentSection → Option DocumentSection
unless true s = none
unless false s = some s

-- The body of a section, and `none` where nothing meaningful of a truncated one is left.
pub section_of : ArticleMatch → Str → Option DocumentSection
unfolding unless section_with truncate_at_contamination collapse is_space strip
section_of m raw_body =
    let cut = truncate_at_contamination raw_body in
    let body = strip (collapse is_space false cut) in
    unless (ltb (length cut) (length raw_body) && ltb (length body) 20) (section_with m body)

pub add_section : Option DocumentSection → List DocumentSection → List DocumentSection
add_section none rest = rest
add_section (some s) rest = s ∷ rest

unfoldable pub sections_of : Str → List ArticleMatch → List DocumentSection
unfolding section_of replace_garbled body_end add_section
sections_of cleaned [] = []
sections_of cleaned (m ∷ ms) =
    let raw_body = replace_garbled (take (body_end cleaned ms - m.end) (drop m.end cleaned)) in
    add_section (section_of m raw_body) (sections_of cleaned ms)

from_sections : List DocumentSection → Result Failure ParsedDocument
unfolding lit
from_sections [] = raised (parse_error (lit "all articles in range had garbled bodies"))
from_sections (s ∷ ss) = ok (record { sections = s ∷ ss; tables = [] })

from_kept : Str → List ArticleMatch → Result Failure ParsedDocument
unfolding from_sections sections_of lit
from_kept cleaned [] = raised (parse_error (lit "no articles found in range"))
from_kept cleaned (m ∷ ms) = from_sections (sections_of cleaned (m ∷ ms))

unfoldable pub parse_articles : Str → ℕ → ℕ → Result Failure ParsedDocument
unfolding from_kept keep_articles find_articles clean
parse_articles raw_text min_article max_article =
    let cleaned = clean raw_text in
    from_kept cleaned
      (keep_articles min_article max_article [] (find_articles (length cleaned) 0 cleaned))
