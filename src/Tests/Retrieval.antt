-- ===== src/Tests/Retrieval.antt =====
-- A search with a reranker that turns two hits round and names one that is not there, and one with
-- the reranking service.
use juris_mind_ai.ClaimCheck.Citing.{Anything}
use juris_mind_ai.Retriever.Hits.{hybrid_search-IsHit, IsHit}
use juris_mind_ai.Base.Int.{pos}
use juris_mind_ai.Tests.Fused.{fractions, fractions-IsOrdered}
use juris_mind_ai.Failure.Ensures.{Ensures}
use juris_mind_ai.Retriever.{hybrid_search, Parts, ScoredPoint}
use juris_mind_ai.Base.{All, ℕ, none, some, List, [], ◌∷◌, ◌≡◌}
use juris_mind_ai.Base.Result.{Result, ok}
use juris_mind_ai.Base.Text.{Str}
use juris_mind_ai.Base.{refl, list_beq}
use juris_mind_ai.Base.Dict
use juris_mind_ai.Failure.{◌>>=◌, or_raise, pure}
use juris_mind_ai.Reranker.{ScoreError, PassageScore, rerank as rank_passages}
use juris_mind_ai.RerankerClient.{rerank, serve}
use juris_mind_ai.Retriever.Ranked.{AreRanked, hybrid_search-AreRanked}

abbrev point : List ℕ → ScoredPoint fractions
point id = record { point_id = id; payload = [] }

abbrev parts : Parts fractions (Unit {0}) (Unit {0}) (Unit {0})
parts = record {
  embed_query = λ q w. (ok tt, w);
  encode_query = λ q w. (ok tt, w);
  search_dense = λ v f n w. (ok (point (1 ∷ []) ∷ point (2 ∷ []) ∷ []), w);
  search_sparse = λ v f n w. (ok (point (2 ∷ []) ∷ []), w);
  reranker = some (λ q ps n w. (
    ok (
        record { index = pos 1; score = 9 }
        ∷ record { index = pos 5; score = 8 }
        ∷ record { index = pos 0; score = 1 }
        ∷ []),
    w,
  ));
}

hybrid_search-IsHit_example :
    Ensures
      (hybrid_search fractions parts [] none 3 tt)
      (λ out _.
        (dense : List (ScoredPoint fractions)) × (sparse : List (ScoredPoint fractions))
        × (dense_vector : Unit {0}) × (sparse_vector : Unit {0}) × (w1 : Unit {0}) × (w2 : Unit {0})
        × ((parts.search_dense dense_vector none 50 w1).0 ≡ ok dense)
        × ((parts.search_sparse sparse_vector none 50 w2).0 ≡ ok sparse)
        × All (IsHit fractions parts dense sparse) out)
      Anything
hybrid_search-IsHit_example = hybrid_search-IsHit fractions parts [] none 3 tt

-- The passages by rising relevance, and one score out of range.
abbrev rising :
    Str → List Str → Unit {0} → Result ScoreError (List (PassageScore fractions)) × Unit {0}
rising query passages w = (
  ok (
      record { index = pos 0; score = 3 }
      ∷ record { index = pos 1; score = 8 }
      ∷ record { index = pos 2; score = 9 }
      ∷ []),
  w,
)

abbrev served : Parts fractions (Unit {0}) (Unit {0}) (Unit {0})
served = record parts { reranker = some (rerank fractions (serve fractions rising)) }

turns_round :
    (hybrid_search fractions served [] none 3 tt).0
    ≡ ok (
        record { point_id = 1 ∷ []; rrf_score = 8; payload = [] }
        ∷ record { point_id = 2 ∷ []; rrf_score = 3; payload = [] }
        ∷ [])
unfolding hybrid_search rerank serve ◌>>=◌ or_raise Dict.insert list_beq Dict.set_default
    rank_passages pure
turns_round = refl

hybrid_search-AreRanked_example :
    Ensures
      (hybrid_search fractions served [] none 3 tt)
      (λ out _. AreRanked fractions 3 out)
      Anything
hybrid_search-AreRanked_example =
    hybrid_search-AreRanked fractions rising served [] none 3 tt fractions-IsOrdered refl
