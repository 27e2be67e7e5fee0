-- ===== src/Retriever.antt =====
-- Hybrid retrieval, tradegraph/src/rag/hybrid/retriever.py: both arms of the search, fused, and
-- reranked if there is a reranker. The encoders, the store and the reranker are parameters.
pub mod Hits
pub mod Ranked
use juris_mind_ai.Filters.{Filter}
use juris_mind_ai.Base.Result.{Result}
use juris_mind_ai.Payload.{Payload, payload_text}
use juris_mind_ai.Fusion.{rrf_k, FusedResult, RankedResult, reciprocal_rank_fusion}
use juris_mind_ai.Base.Int.{ℤ, item_at}
use juris_mind_ai.Score.{Score}
use juris_mind_ai.Base.{ℕ, Option, none, some, List, [], ◌∷◌, ◌++◌, map, take}
use juris_mind_ai.Failure.{key_error, pure, or_raise, Failure, Exec, ◌>>=◌, ◌>>◌}
use juris_mind_ai.Base.Text.{Str, text as lit}

abbrev pub dense_top_k : ℕ
dense_top_k = 50

abbrev pub sparse_top_k : ℕ
sparse_top_k = 50

abbrev pub rerank_candidate_limit : ℕ
rerank_candidate_limit = 40

abbrev pub rerank_preview_chars : ℕ
rerank_preview_chars = 400

module _ (S : Score) where
  open S use {Num}

  -- `ScoredPoint`, without the score that fusion does not read
  pub record ScoredPoint : Type 0 where
    pub point_id : Str
    pub payload : Payload

  pub record HybridSearchResult : Type 0 where
    pub point_id : Str
    pub rrf_score : Num
    pub payload : Payload

  -- `RerankedPassage` of the client: what the service answers, an index unchecked
  pub record RerankedIndex : Type 0 where
    pub index : ℤ
    pub score : Num

  -- What a retriever is built from, beside the default limits.
  pub record Parts (W Dense Sparse : Type 0) : Type 0 where
    pub embed_query : Str → W → Result Failure Dense × W
    pub encode_query : Str → W → Result Failure Sparse × W
    pub search_dense : Dense → Option Filter → ℕ → W → Result Failure (List ScoredPoint) × W
    pub search_sparse : Sparse → Option Filter → ℕ → W → Result Failure (List ScoredPoint) × W
    pub reranker : Option (Str → List Str → ℕ → W → Result Failure (List RerankedIndex) × W)

  abbrev pub as_ranked : ScoredPoint → RankedResult Payload
  as_ranked h = record { point_id = h.point_id; payload = h.payload }

  abbrev pub as_result : FusedResult S Payload → HybridSearchResult
  as_result f = record { point_id = f.point_id; rrf_score = f.rrf_score; payload = f.payload }

  unfoldable pub preview : FusedResult S Payload → Str
  unfolding payload_text
  preview c = take rerank_preview_chars (payload_text c.payload)

  -- `for r in reranked if 0 <= r.index < len(candidates)`
  pub result_at : Option (FusedResult S Payload) → Num → List HybridSearchResult
  result_at none score = []
  result_at (some c) score =
      record { point_id = c.point_id; rrf_score = score; payload = c.payload } ∷ []

  unfoldable pub pick : List (FusedResult S Payload) → List RerankedIndex → List HybridSearchResult
  unfolding result_at item_at
  pick candidates [] = []
  pick candidates (r ∷ rest) =
      result_at (item_at candidates r.index) r.score ++ pick candidates rest

  module _ {W Dense Sparse : Type 0} (parts : Parts W Dense Sparse) where
    -- From the test for a reranker on.
    pub rank_hits :
        Option (Str → List Str → ℕ → W → Result Failure (List RerankedIndex) × W)
        → List (FusedResult S Payload)
        → Str
        → ℕ
        → Exec W (List HybridSearchResult)
    unfolding pick preview
    rank_hits none fused query top_n = pure (map as_result (take top_n fused))
    rank_hits (some rerank) [] query top_n = pure []
    rank_hits (some rerank) (f ∷ fs) query top_n = do
      let candidates = take rerank_candidate_limit (f ∷ fs)
      reranked ← rerank query (map preview candidates) top_n
      pure (pick candidates reranked)

    -- `search` of the class; the `KeyError` of fusion is that of its `none`.
    unfoldable pub hybrid_search : Str → Option Filter → ℕ → Exec W (List HybridSearchResult)
    unfolding rank_hits reciprocal_rank_fusion
    hybrid_search query query_filter top_n = do
      dense_vector ← parts.embed_query query
      sparse_vector ← parts.encode_query query
      dense_hits ← parts.search_dense dense_vector query_filter dense_top_k
      sparse_hits ← parts.search_sparse sparse_vector query_filter sparse_top_k
      fused ← or_raise (key_error (lit "payloads")) (
          reciprocal_rank_fusion S (map as_ranked dense_hits ∷ map as_ranked sparse_hits ∷ [])
            rrf_k)
      rank_hits parts.reranker fused query top_n
