-- ===== src/Tests/Ranking.antt =====
-- The reranking service with a model that answers in place, and with one that answers nothing.
use juris_mind_ai.Reranker.Scores.{rerank-results, lower_score}
use juris_mind_ai.Base.Sorting.{IsFalling}
use juris_mind_ai.Base.Int.{pos}
use juris_mind_ai.Reranker.Silence.{rerank-asserts, AllOut}
use juris_mind_ai.Tests.Fused.{fractions-IsOrdered, fractions}
use juris_mind_ai.Reranker.{
  has_distinct, record_scores, assertion_error, PassageScore, score_batch_with_retry,
  RerankedPassage, rerank, ScoreError, not_llm, uncaught,
}
use juris_mind_ai.Base.Dict
use juris_mind_ai.Base.{◌≤◌, length, ◌<◌, All, nat_eq, List, [], ◌∷◌, ◌≡◌, refl}
use juris_mind_ai.Base.Result.{Result, ok, raised}
use juris_mind_ai.Base.Text.{Str}

two_scores :
    Str → List Str → Unit {0} → Result ScoreError (List (PassageScore fractions)) × Unit {0}
two_scores query passages w = (
  ok (
      record { index = pos 0; score = 3 }
      ∷ record { index = pos 1; score = 8 }
      ∷ record { index = pos 2; score = 9 }
      ∷ []),
  w,
)

no_scores : Str → List Str → Unit {0} → Result ScoreError (List (PassageScore fractions)) × Unit {0}
no_scores query passages w = (ok [], w)

abbrev passages : List Str
passages = [] ∷ [] ∷ []

abbrev ranking : List (RerankedPassage fractions)
ranking = record { index = 1; score = 8 } ∷ record { index = 0; score = 3 } ∷ []

two_ranked : (rerank fractions two_scores [] passages 7 tt).0 ≡ ok ranking
unfolding rerank score_batch_with_retry record_scores has_distinct two_scores Dict.insert
two_ranked = refl

rerank-results_example :
    All (λ (r : RerankedPassage fractions). r.index < 2) ranking
    × (length ranking ≤ 7)
    × IsFalling (lower_score fractions) ranking
rerank-results_example =
    rerank-results fractions two_scores [] passages 7 tt ranking fractions-IsOrdered two_ranked

-- The model's answer is no JSON.
no_json : Str → List Str → Unit {0} → Result ScoreError (List (PassageScore fractions)) × Unit {0}
no_json query batch w = (raised (not_llm (b'<' ∷ [])), w)

no_json_uncaught : (rerank fractions no_json [] passages 7 tt).0 ≡ raised (uncaught (b'<' ∷ []))
unfolding rerank score_batch_with_retry no_json
no_json_uncaught = refl

no_scores-silent :
    (query : Str) (batch : List Str) (w : Unit {0})
    → (scores : List (PassageScore fractions)) × ((no_scores query batch w).0 ≡ ok scores)
      × AllOut fractions (length batch) scores
unfolding no_scores
no_scores-silent query batch w = ([], refl, tt)

rerank-asserts_example : (rerank fractions no_scores [] passages 7 tt).0 ≡ raised assertion_error
rerank-asserts_example = rerank-asserts fractions no_scores no_scores-silent [] passages 7 tt
