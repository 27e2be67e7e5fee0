-- ===== src/Tests/Constitution.antt =====
-- A Part between its markers, its cut, and its articles.
use juris_mind_ai.Base.Result.{ok, raised}
use juris_mind_ai.Base.{refl, ◌≡◌}
use juris_mind_ai.IndiaCode.Articles.{parse_articles}
use juris_mind_ai.Failure.{Failure}
use juris_mind_ai.IndiaCode.Articles.Sections.{parse_articles-AreArticles, AreArticles}
use juris_mind_ai.IndiaCode.Slices.{slice_between_markers-IsSliceOf, IsSliceOf}
use juris_mind_ai.IndiaCode.{truncate_at_contamination, slice_between_markers}
use juris_mind_ai.Base.Text.{Str, text as lit}

slice_between_markers-IsSliceOf_example :
    IsSliceOf
      (lit "aXbYc")
      (lit "X")
      (lit "Y")
      (slice_between_markers (lit "aXbYc") (lit "X") (lit "Y"))
slice_between_markers-IsSliceOf_example =
    slice_between_markers-IsSliceOf (lit "aXbYc") (lit "X") (lit "Y")

sliced : slice_between_markers (lit "aYXbYcX") (lit "X") (lit "Y") ≡ ok (lit "Xb")
unfolding lit slice_between_markers
sliced = refl

no_end : (e : Failure) × (slice_between_markers (lit "aYX") (lit "X") (lit "Y") ≡ raised e)
unfolding lit slice_between_markers
no_end = (_, refl)

-- The dash is half of the last window, of two characters: the text is cut at it.
abbrev dashed : Str
unfolding lit
dashed = lit "The State shall not deny to any persons.—x"

cut : truncate_at_contamination dashed ≡ lit "The State shall not deny to any persons."
unfolding lit truncate_at_contamination dashed
cut = refl

parse_articles-AreArticles_example :
    AreArticles 14 35 (parse_articles (lit "\n14. Equality before law.—x") 14 35)
parse_articles-AreArticles_example =
    parse_articles-AreArticles 14 35 (lit "\n14. Equality before law.—x")
