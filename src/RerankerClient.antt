-- ===== src/RerankerClient.antt =====
-- The client of the reranking service, tradegraph/src/rag/reranking/reranker_client.py, and what the
-- service of Reranker sends back to it. How the two are carried over HTTP is left out.
use juris_mind_ai.Base.{if◌then◌else◌, ℕ, Bool, ◌&&◌, leb, Option, some, List, map}
use juris_mind_ai.Base.Int.{pos}
use juris_mind_ai.Base.Result.{Result, ok, raised}
use juris_mind_ai.Base.Text.{Str, text as lit, truthy}
use juris_mind_ai.Failure.{Failure, Exec, ◌>>=◌, or_raise, reranker_error, http_error}
use juris_mind_ai.Reranker.{
  RerankFailure, bad_gateway, assertion_error, uncaught, ScoreError, RerankedPassage, PassageScore,
  rerank as rank_passages,
}
use juris_mind_ai.Retriever.{RerankedIndex}
use juris_mind_ai.Score.{Score}

pub record RerankRequest : Type 0 where
  pub query : Str
  pub passages : List Str
  pub top_n : ℕ

-- The `Field`s of the request.
pub is_request : RerankRequest → Bool
unfolding truthy
is_request r = truthy r.passages && leb 1 r.top_n

module _ (S : Score) where
  module _ {W : Type 0}
      (post : RerankRequest → W → Result Failure (Option (List (RerankedIndex S))) × W) where
    -- `RerankerClient.rerank`. The POST raises what `raise_for_status` does; `results` that are no
    -- list are `none`.
    unfoldable pub rerank : Str → List Str → ℕ → Exec W (List (RerankedIndex S))
    unfolding lit
    rerank query passages top_n = do
      results ← post (record { query = query; passages = passages; top_n = top_n })
      or_raise (reranker_error (lit "reranker returned no usable results")) results

  abbrev pub as_index : RerankedPassage S → RerankedIndex S
  as_index p = record { index = pos p.index; score = p.score }

  -- The answer of the service, with its status codes as errors.
  unfoldable pub answered :
      {W : Type 0}
      → Result RerankFailure (List (RerankedPassage S)) × W
      → Result Failure (Option (List (RerankedIndex S))) × W
  unfolding lit
  answered (ok results, w) = (ok (some (map as_index results)), w)
  answered (raised (bad_gateway m), w) = (raised (http_error m), w)
  answered (raised (uncaught m), w) = (raised (http_error (lit "500 Internal Server Error")), w)
  answered (raised assertion_error, w) = (raised (http_error (lit "500 Internal Server Error")), w)

  module _ {W : Type 0}
      (score_once : Str → List Str → W → Result ScoreError (List (PassageScore S)) × W) where
    -- The service as the other end of the POST.
    unfoldable pub serve : RerankRequest → W → Result Failure (Option (List (RerankedIndex S))) × W
    unfolding lit is_request answered
    serve r w =
        let ranked = answered (rank_passages S score_once r.query r.passages r.top_n w) in
        if is_request r then ranked else (raised (http_error (lit "422 Unprocessable Entity")), w)
