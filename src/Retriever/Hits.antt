-- ===== src/Retriever/Hits.antt =====
-- Where the results of a search come from.
use juris_mind_ai.Fusion.Fused.{fusion_correct}
use juris_mind_ai.Base.Result.{ok}
use juris_mind_ai.Session.Rules.{Ensures-pure}
use juris_mind_ai.ClaimCheck.Citing.{Anything}
use juris_mind_ai.Failure.Ensures.{
  Ensures-weaken, Ensures-or_raise, Ensures-result, Ensures-bind, Ensures,
}
use juris_mind_ai.Fusion.Ranks.{ranked, first_payload}
use juris_mind_ai.Retriever.{
  rrf_k, reciprocal_rank_fusion, sparse_top_k, dense_top_k, Filter, hybrid_search,
  rerank_candidate_limit, Failure, as_result, RerankedIndex, as_ranked, Result, Str, Payload,
  FusedResult, pick, HybridSearchResult, RankedResult, rank_hits, result_at, ScoredPoint, Parts,
}
use juris_mind_ai.Score.{Score}
use mathlib.Core.Option.{none-ne-some}
use mathlib.Core.Option.{some-injective}
use mathlib.Core.Path.{subst}
use juris_mind_ai.Base.{
  All-weaken, ◌∙◌, sym, All-take, take, All-append, All-get_elem?, All, ℕ, Option, none, some, List,
  [], ◌∷◌, ◌≡◌, refl, map,
}
use juris_mind_ai.Base.Int.{ℤ, pos, negsuc, item_at}

module _ (S : Score) {W Dense Sparse : Type 0} (parts : Parts S W Dense Sparse) where
  -- The two ranked lists that are fused.
  abbrev pub arms : List (ScoredPoint S) → List (ScoredPoint S) → List (List (RankedResult Payload))
  arms dense sparse = map (as_ranked S) dense ∷ map (as_ranked S) sparse ∷ []

  -- The payload is the one that the first hit on the point has, the dense arm first.
  abbrev pub IsHit : List (ScoredPoint S) → List (ScoredPoint S) → HybridSearchResult S → Type 0
  IsHit dense sparse r = first_payload r.point_id (ranked (arms dense sparse)) ≡ some r.payload

  module _ (dense sparse : List (ScoredPoint S)) where
    abbrev IsFused : FusedResult S Payload → Type 0
    IsFused f = first_payload f.point_id (ranked (arms dense sparse)) ≡ some f.payload

    as_result-IsHit :
        (fs : List (FusedResult S Payload))
        → All IsFused fs
        → All (IsHit dense sparse) (map (as_result S) fs)
    as_result-IsHit [] h = tt
    as_result-IsHit (f ∷ fs) (here, h) = (here, as_result-IsHit fs h)

    result_at-IsHit :
        (o : Option (FusedResult S Payload)) (score : S.Num)
        → ((f : FusedResult S Payload) → o ≡ some f → IsFused f)
        → All (IsHit dense sparse) (result_at S o score)
    unfolding result_at
    result_at-IsHit none score h = tt
    result_at-IsHit (some f) score h = (h f refl, tt)

    item_at-IsFused :
        (fs : List (FusedResult S Payload)) (i : ℤ) (f : FusedResult S Payload)
        → All IsFused fs
        → item_at fs i ≡ some f
        → IsFused f
    unfolding item_at
    item_at-IsFused fs (pos i) f h e = All-get_elem? IsFused fs i h e
    item_at-IsFused fs (negsuc i) f h e = absurd (none-ne-some f e)

    pick-IsHit :
        (fs : List (FusedResult S Payload)) (rs : List (RerankedIndex S))
        → All IsFused fs
        → All (IsHit dense sparse) (pick S fs rs)
    unfolding pick
    pick-IsHit fs [] h = tt
    pick-IsHit fs (r ∷ rs) h =
        All-append _ (result_at S (item_at fs r.index) r.score) (pick S fs rs)
          (result_at-IsHit (item_at fs r.index) r.score (λ f e. item_at-IsFused fs r.index f h e))
          (pick-IsHit fs rs h)

    rank_hits-IsHit :
        (o : Option (Str → List Str → ℕ → W → Result Failure (List (RerankedIndex S)) × W))
        (fs : List (FusedResult S Payload)) (query : Str) (top_n : ℕ) (w : W)
        → All IsFused fs
        → Ensures
            (rank_hits S parts o fs query top_n w)
            (λ out _. All (IsHit dense sparse) out)
            Anything
    unfolding rank_hits
    rank_hits-IsHit none fs query top_n w h =
        Ensures-pure _ w (as_result-IsHit (take top_n fs) (All-take IsFused top_n fs h))
    rank_hits-IsHit (some rerank) [] query top_n w h = Ensures-pure _ w tt
    rank_hits-IsHit (some rerank) (f ∷ fs) query top_n w h = Ensures-bind _ _ w (
        Ensures-result (rerank query _ top_n w)
          (λ rs w' _.
            Ensures-pure _ w' (
              pick-IsHit (take rerank_candidate_limit (f ∷ fs)) rs
                (All-take IsFused 40 (f ∷ fs) h)))
          (λ _ _. tt))

  -- Where a search returns, each result is a point that one of the two arms has found, under the
  -- same filter, with the payload of the first hit on it; whatever a reranker answers, it adds no
  -- other point and changes no payload.
  pub hybrid_search-IsHit :
      (query : Str) (query_filter : Option Filter) (top_n : ℕ) (w : W)
      → Ensures
          (hybrid_search S parts query query_filter top_n w)
          (λ out _.
            (dense : List (ScoredPoint S)) × (sparse : List (ScoredPoint S))
            × (dense_vector : Dense) × (sparse_vector : Sparse) × (w1 : W) × (w2 : W)
            × ((parts.search_dense dense_vector query_filter dense_top_k w1).0 ≡ ok dense)
            × ((parts.search_sparse sparse_vector query_filter sparse_top_k w2).0 ≡ ok sparse)
            × All (IsHit dense sparse) out)
          Anything
  unfolding hybrid_search
  hybrid_search-IsHit query query_filter top_n w = Ensures-bind _ _ w (
      Ensures-result _
        (λ dv w1 _. Ensures-bind _ _ w1 (
          Ensures-result _
            (λ sv w2 _. Ensures-bind _ _ w2 (
              Ensures-result _
                (λ dense w3 found. Ensures-bind _ _ w3 (
                  Ensures-result _
                    (λ sparse w4 found'. Ensures-bind _ _ w4 (
                      Ensures-or_raise _ _ w4
                        (λ fused built.
                          Ensures-weaken _
                            (λ out _ hits. (dense, sparse, dv, sv, w2, w3, found, found', hits))
                            (λ _ _ u. u)
                            (rank_hits-IsHit dense sparse parts.reranker fused query top_n w4
                              (fused-IsFused dense sparse fused built)))
                        (λ _. tt)))
                    (λ _ _. tt)))
                (λ _ _. tt)))
            (λ _ _. tt)))
        (λ _ _. tt))
    where
      fused-IsFused :
          (dense sparse : List (ScoredPoint S)) (fused : List (FusedResult S Payload))
          → reciprocal_rank_fusion S (arms dense sparse) rrf_k ≡ some fused
          → All (IsFused dense sparse) fused
      fused-IsFused dense sparse fused built =
          let (out, same, good, _) = fusion_correct S rrf_k (arms dense sparse) in
          subst (All (IsFused dense sparse)) (some-injective out fused (sym same ∙ built))
            (All-weaken _ _ out (λ r h. h.1) good)
