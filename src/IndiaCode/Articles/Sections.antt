-- ===== src/IndiaCode/Articles/Sections.antt =====
-- Which sections the articles of a Part become.
use mathlib.Core.Bool.{true≢false}
use mathlib.Core.List.{nil≢cons}
use mathlib.Core.Path.{subst}
use mathlib.Core.Option.{none}
use mathlib.Core.List.{[]}
use juris_mind_ai.IndiaCode.Articles.{
  clean, find_articles, parse_error, from_kept, from_sections, Failure, parse_articles, unless,
  add_section, section_with, sections_of, section_of, keep_articles, replacement_char, number,
  is_between, ArticleMatch, is_kept,
}
use juris_mind_ai.Document.{ParsedDocument, DocumentSection}
use juris_mind_ai.Base.{
  ◌||◌, not, ◌&&◌, length, refl, leb, list_beq_iff, Bool, drop, ◌∙◌, ap, sym, inr, Bool-cases,
  Option, arith, ◌++◌, false, contains, inl, Option-cases, ◌≤◌, true, some, ◌≡◌, ◌≢◌, All-weaken,
  All, ◌∷◌, List, ℕ, nat_eq, list_eq,
}
use juris_mind_ai.Base.Result.{Result, ok, raised}
use juris_mind_ai.Base.Text.{read_ℕ, Str, text as lit}

-- The section is that of an article in the range, whose title is decoded.
pub record IsArticle (min_article max_article : ℕ) (s : DocumentSection) : Type 0 where
  pub article : ArticleMatch
  pub n : ℕ
  pub is_numbered : read_ℕ article.digits ≡ some n
  pub is_from : min_article ≤ n
  pub is_to : n ≤ max_article
  pub is_decoded : contains article.title replacement_char ≡ false
  pub is_named : s.name ≡ lit "Article " ++ number article
  pub is_titled :
      (body : Str) × (s.text
        ≡ lit "Article "
          ++ (number article ++ (lit ". " ++ (article.title ++ (lit ".\n\n" ++ body)))))

-- No name twice.
abbrev pub Distinct : List DocumentSection → Type 0
Distinct [] = Unit
Distinct (s ∷ ss) = All (λ (t : DocumentSection). s.name ≢ t.name) ss × Distinct ss

module _ (min_article max_article : ℕ) where
  -- An article that may be kept when `seen` are the numbers before it.
  record IsKept (seen : List Str) (m : ArticleMatch) : Type 0 where
    n : ℕ
    is_numbered : read_ℕ m.digits ≡ some n
    is_from : min_article ≤ n
    is_to : n ≤ max_article
    is_decoded : contains m.title replacement_char ≡ false
    is_unseen : contains seen (number m) ≡ false

  is_kept-IsKept :
      (seen : List Str) (m : ArticleMatch)
      → is_kept min_article max_article seen m ≡ true
      → IsKept seen m
  unfolding is_kept is_between
  is_kept-IsKept seen m h = elim (Option-cases (read_ℕ m.digits)) [
    | inl absent ↦ absurd (true≢false (sym h ∙ rw absent refl))
    | inr (n, is_numbered) ↦
        let h' : ((leb min_article n && leb n max_article)
              && not (contains m.title replacement_char || contains seen (number m)))
            ≡ true =
          sym (rw is_numbered refl) ∙ h in
        record {
          n = n;
          is_numbered = is_numbered;
          is_from = ground (arith, h');
          is_to = ground (arith, h');
          is_decoded = ground (arith, h');
          is_unseen = ground (arith, h');
        }
  ]

  seen_less :
      (seen : List Str) (x : Str) (ms : List ArticleMatch)
      → All (IsKept (x ∷ seen)) ms
      → All (IsKept seen) ms
  unfolding contains
  seen_less seen x ms = All-weaken _ _ ms (λ m h.
      let e = h.is_unseen in
      record {
        n = h.n;
        is_numbered = h.is_numbered;
        is_from = h.is_from;
        is_to = h.is_to;
        is_decoded = h.is_decoded;
        is_unseen = ground (arith, e);
      })

  -- The kept articles have numbers that are not in `seen`, and each another.
  OtherNumber : ArticleMatch → ArticleMatch → Type 0
  OtherNumber m k = number m ≢ number k

  AreDistinct : List ArticleMatch → Type 0
  AreDistinct [] = Unit
  AreDistinct (m ∷ ms) = All (OtherNumber m) ms × AreDistinct ms

  keep_articles-IsKept :
      (seen : List Str) (ms : List ArticleMatch)
      → All (IsKept seen) (keep_articles min_article max_article seen ms)
  unfolding keep_articles
  keep_articles-IsKept seen [] = tt
  keep_articles-IsKept seen (m ∷ ms) = elim (Bool-cases (is_kept min_article max_article seen m)) [
    | inl e ↦ rw e (
      is_kept-IsKept seen m e,
      seen_less seen (number m) _ (keep_articles-IsKept (number m ∷ seen) ms),
    )
    | inr e ↦ rw e (keep_articles-IsKept seen ms)
  ]

  other_number :
      (seen : List Str) (m k : ArticleMatch) → IsKept (number m ∷ seen) k → OtherNumber m k
  unfolding contains OtherNumber
  other_number seen m k h same =
      let e = h.is_unseen in
      absurd (true≢false (sym (rw ((list_beq_iff (number m) (number k)).1 same) refl) ∙ e))

  keep_articles-AreDistinct :
      (seen : List Str) (ms : List ArticleMatch)
      → AreDistinct (keep_articles min_article max_article seen ms)
  unfolding keep_articles AreDistinct
  keep_articles-AreDistinct seen [] = tt
  keep_articles-AreDistinct seen (m ∷ ms) =
      elim (Bool-cases (is_kept min_article max_article seen m)) [
        | inl e ↦ rw e (
          All-weaken _ _ _ (other_number seen m) (keep_articles-IsKept (number m ∷ seen) ms),
          keep_articles-AreDistinct (number m ∷ seen) ms,
        )
        | inr e ↦ rw e (keep_articles-AreDistinct seen ms)
      ]

  -- A section of an article has its name, and is an article's of the range if the article was kept.
  SectionOf : ArticleMatch → DocumentSection → Type 0
  SectionOf m s =
      (s.name ≡ lit "Article " ++ number m)
      × ((body : Str) × (s.text
            ≡ lit "Article " ++ (number m ++ (lit ". " ++ (m.title ++ (lit ".\n\n" ++ body))))))

  AllOf : (ArticleMatch → Type 0) → Option DocumentSection → Type 0
  AllOf P none = Unit
  AllOf P (some s) = (m : ArticleMatch) × P m × SectionOf m s

  unless-AllOf :
      (P : ArticleMatch → Type 0) (garbled : Bool) (m : ArticleMatch) (body : Str)
      → P m
      → AllOf P (unless garbled (section_with m body))
  unfolding unless AllOf SectionOf section_with
  unless-AllOf P true m body h = tt
  unless-AllOf P false m body h = (m, h, (refl, (body, refl)))

  add_section-All :
      (P : ArticleMatch → Type 0) (o : Option DocumentSection) (rest : List DocumentSection)
      → AllOf P o
      → All (λ (s : DocumentSection). (m : ArticleMatch) × P m × SectionOf m s) rest
      → All (λ (s : DocumentSection). (m : ArticleMatch) × P m × SectionOf m s) (add_section o rest)
  unfolding add_section AllOf
  add_section-All P none rest _ h = h
  add_section-All P (some s) rest here h = (here, h)

  -- What holds of all the articles holds of one for each section.
  sections_of-All :
      (P : ArticleMatch → Type 0) (cleaned : Str) (ms : List ArticleMatch)
      → All P ms
      → All
          (λ (s : DocumentSection). (m : ArticleMatch) × P m × SectionOf m s)
          (sections_of cleaned ms)
  unfolding sections_of section_of
  sections_of-All P cleaned [] h = tt
  sections_of-All P cleaned (m ∷ ms) (here, h) =
      add_section-All P _ _ (unless-AllOf P _ m _ here) (sections_of-All P cleaned ms h)

  name-injective : (a b : Str) → lit "Article " ++ a ≡ lit "Article " ++ b → a ≡ b
  unfolding lit
  name-injective a b same = ap (drop 8) same

  other_name :
      (m : ArticleMatch) (s t : DocumentSection)
      → SectionOf m s
      → ((k : ArticleMatch) × OtherNumber m k × SectionOf k t)
      → s.name ≢ t.name
  unfolding SectionOf OtherNumber
  other_name m s t (named, _) (k, other, (named', _)) same =
      other (name-injective (number m) (number k) (sym named ∙ same ∙ named'))

  add_section-Distinct :
      (m : ArticleMatch) (o : Option DocumentSection) (rest : List DocumentSection)
      → AllOf (λ k. k ≡ m) o
      → All (λ (t : DocumentSection). (k : ArticleMatch) × OtherNumber m k × SectionOf k t) rest
      → Distinct rest
      → Distinct (add_section o rest)
  unfolding add_section AllOf
  add_section-Distinct m none rest _ others h = h
  add_section-Distinct m (some s) rest (k, same, is_section) others h = (
    All-weaken _ _ rest (λ t. other_name m s t (subst (λ j. SectionOf j s) same is_section)) others,
    h,
  )

  sections_of-Distinct :
      (cleaned : Str) (ms : List ArticleMatch) → AreDistinct ms → Distinct (sections_of cleaned ms)
  unfolding sections_of section_of AreDistinct
  sections_of-Distinct cleaned [] h = tt
  sections_of-Distinct cleaned (m ∷ ms) (others, h) =
      add_section-Distinct m _ _ (unless-AllOf _ _ m _ refl) (sections_of-All _ cleaned ms others)
        (sections_of-Distinct cleaned ms h)

  SectionOf-IsArticle :
      (s : DocumentSection)
      → ((m : ArticleMatch) × IsKept [] m × SectionOf m s)
      → IsArticle min_article max_article s
  unfolding SectionOf
  SectionOf-IsArticle s (m, h, (named, titled)) = record {
    article = m;
    n = h.n;
    is_numbered = h.is_numbered;
    is_from = h.is_from;
    is_to = h.is_to;
    is_decoded = h.is_decoded;
    is_named = named;
    is_titled = titled;
  }

  -- A document of sections for articles of the range, without tables, with at least one section and
  -- no name twice.
  abbrev pub AreArticles : Result Failure ParsedDocument → Type 0
  AreArticles (ok parsed) =
      All (IsArticle min_article max_article) parsed.sections
      × Distinct parsed.sections
      × (parsed.sections ≢ [])
      × (parsed.tables ≡ [])
  AreArticles (raised e) = (why : Str) × (e ≡ parse_error why)

  from_sections-AreArticles :
      (ss : List DocumentSection)
      → All (IsArticle min_article max_article) ss
      → Distinct ss
      → AreArticles (from_sections ss)
  unfolding from_sections
  from_sections-AreArticles [] all distinct = (_, refl)
  from_sections-AreArticles (s ∷ ss) all distinct =
      (all, distinct, (λ e. nil≢cons {x = s} {xs = ss} (sym e)), refl)

  -- The document of a Part has a section for articles with a number in the range and a decoded title
  -- only, each named by its number, no number twice, and at least one of them; otherwise the parser
  -- raises its own error.
  pub parse_articles-AreArticles :
      (raw_text : Str) → AreArticles (parse_articles raw_text min_article max_article)
  unfolding parse_articles from_kept
  parse_articles-AreArticles raw_text = from _ refl
    where
      from :
          (kept : List ArticleMatch)
          → keep_articles min_article max_article []
              (find_articles (length (clean raw_text)) 0 (clean raw_text))
            ≡ kept
          → AreArticles (from_kept (clean raw_text) kept)
      from [] e = (_, refl)
      from (m ∷ ms) e =
          let cleaned = clean raw_text in
          let matches = find_articles (length cleaned) 0 cleaned in
          let kept = subst (All (IsKept [])) e (keep_articles-IsKept [] matches) in
          let distinct = subst AreDistinct e (keep_articles-AreDistinct [] matches) in
          from_sections-AreArticles (sections_of cleaned (m ∷ ms))
            (All-weaken _ _ _ SectionOf-IsArticle (sections_of-All _ cleaned (m ∷ ms) kept))
            (sections_of-Distinct cleaned (m ∷ ms) distinct)
