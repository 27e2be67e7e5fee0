-- ===== src/Retriever/Ranked.antt =====
-- The order of the results of a search with the reranking service.
use juris_mind_ai.Base.{
  ℕ, suc, sym, ap, ◌∙◌, Bool, false, Option, none, some, List, [], ◌∷◌, ◌++◌, ◌≡◌, ◌≤◌, All, map,
  length, arith, refl, Bool-cases, inl, inr, All-append, take,
}
use juris_mind_ai.Base.Int.{item_at, pos}
use mathlib.Core.Path.{subst}
use mathlib.Core.Option.{some-injective}
use juris_mind_ai.Session.Rules.{Ensures-pure}
use juris_mind_ai.Base.Result.{Result, ok, raised, ok-injective, raised-ne-ok}
use juris_mind_ai.Base.Sorting.{IsFalling}
use juris_mind_ai.Base.Text.{Str, text as lit}
use juris_mind_ai.Failure.{http_error}
use juris_mind_ai.Failure.Ensures.{Ensures, Ensures-bind, Ensures-result, Ensures-or_raise}
use juris_mind_ai.ClaimCheck.Citing.{Anything}
use juris_mind_ai.Filters.{Filter}
use juris_mind_ai.Fusion.{FusedResult}
use juris_mind_ai.Payload.{Payload}
use juris_mind_ai.Reranker.{
  RerankFailure, bad_gateway, assertion_error, uncaught, ScoreError, PassageScore, RerankedPassage,
  rerank as rank_passages,
}
use juris_mind_ai.Reranker.Scores.{rerank-results, lower_score}
use juris_mind_ai.RerankerClient.{RerankRequest, is_request, answered, as_index, serve, rerank}
use juris_mind_ai.Retriever.{
  preview, rerank_candidate_limit, hybrid_search, rank_hits, pick, result_at, HybridSearchResult,
  RerankedIndex, Parts,
}
use juris_mind_ai.Score.{Score, IsOrdered}

module _ (S : Score) where
  -- The order of the results.
  abbrev pub lower_result : HybridSearchResult S → HybridSearchResult S → Bool
  lower_result a b = S.less a.rrf_score b.rrf_score

  -- At most `top_n` of them, by falling scores.
  abbrev pub AreRanked : ℕ → List (HybridSearchResult S) → Type 0
  AreRanked top_n out = (length out ≤ top_n) × IsFalling lower_result out

  result_at-All :
      (P : S.Num → Type 0) (o : Option (FusedResult S Payload)) (score : S.Num)
      → P score
      → All (λ (h : HybridSearchResult S). P h.rrf_score) (result_at S o score)
  unfolding result_at
  result_at-All P none score here = tt
  result_at-All P (some c) score here = (here, tt)

  result_at-IsFalling :
      (o : Option (FusedResult S Payload)) (score : S.Num) (rest : List (HybridSearchResult S))
      → All (λ (h : HybridSearchResult S). S.less score h.rrf_score ≡ false) rest
      → IsFalling lower_result rest
      → IsFalling lower_result (result_at S o score ++ rest)
  unfolding result_at
  result_at-IsFalling none score rest lower h = h
  result_at-IsFalling (some c) score rest lower h = (lower, h)

  result_at-length :
      (o : Option (FusedResult S Payload)) (score : S.Num) (rest : List (HybridSearchResult S))
      (n : ℕ)
      → length rest ≤ n
      → length (result_at S o score ++ rest) ≤ suc n
  unfolding result_at
  result_at-length none score rest n h = omega (arith, h)
  result_at-length (some c) score rest n h = omega (arith, h)

  module _ (candidates : List (FusedResult S Payload)) where
    -- What holds of the scores of the answers holds of those that are picked.
    pick-All :
        (P : S.Num → Type 0) (rs : List (RerankedPassage S))
        → All (λ (r : RerankedPassage S). P r.score) rs
        → All
            (λ (h : HybridSearchResult S). P h.rrf_score)
            (pick S candidates (map (as_index S) rs))
    unfolding pick
    pick-All P [] h = tt
    pick-All P (r ∷ rs) (here, h) =
        All-append _ (result_at S (item_at candidates (pos r.index)) r.score)
          (pick S candidates (map (as_index S) rs))
          (result_at-All P (item_at candidates (pos r.index)) r.score here) (pick-All P rs h)

    pick-IsFalling :
        (rs : List (RerankedPassage S))
        → IsFalling (lower_score S) rs
        → IsFalling lower_result (pick S candidates (map (as_index S) rs))
    unfolding pick
    pick-IsFalling [] h = tt
    pick-IsFalling (r ∷ rs) (lower, h) =
        result_at-IsFalling (item_at candidates (pos r.index)) r.score _
          (pick-All (λ n. S.less r.score n ≡ false) rs lower) (pick-IsFalling rs h)

    length-pick :
        (rs : List (RerankedPassage S))
        → length (pick S candidates (map (as_index S) rs)) ≤ length rs
    unfolding pick
    length-pick [] = omega arith
    length-pick (r ∷ rs) =
        result_at-length (item_at candidates (pos r.index)) r.score
          (pick S candidates (map (as_index S) rs)) (length rs) (length-pick rs)

  answered-results :
      {W : Type 0} (out : Result RerankFailure (List (RerankedPassage S)) × W)
      (rs : List (RerankedIndex S))
      → (answered S out).0 ≡ ok (some rs)
      → (ps : List (RerankedPassage S)) × (map (as_index S) ps ≡ rs) × (out.0 ≡ ok ps)
  unfolding answered
  answered-results (ok ps, w) rs h = (ps, some-injective _ rs (ok-injective h), refl)
  answered-results (raised (bad_gateway m), w) rs h = absurd (raised-ne-ok h)
  answered-results (raised (uncaught m), w) rs h = absurd (raised-ne-ok h)
  answered-results (raised assertion_error, w) rs h = absurd (raised-ne-ok h)

  module _ {W : Type 0}
      (score_once : Str → List Str → W → Result ScoreError (List (PassageScore S)) × W) where
    serve-results :
        (r : RerankRequest) (w : W) (rs : List (RerankedIndex S))
        → (serve S score_once r w).0 ≡ ok (some rs)
        → (ps : List (RerankedPassage S)) × (map (as_index S) ps ≡ rs)
          × ((rank_passages S score_once r.query r.passages r.top_n w).0 ≡ ok ps)
    unfolding serve
    serve-results r w rs h = elim (Bool-cases (is_request r)) [
      | inl valid ↦
          answered-results (rank_passages S score_once r.query r.passages r.top_n w) rs
            (sym (rw valid refl) ∙ h)
      | inr other ↦
          absurd (
            raised-ne-ok {e = http_error (lit "422 Unprocessable Entity")}
              (sym (rw other refl) ∙ h))
    ]

    module _ {Dense Sparse : Type 0} (parts : Parts S W Dense Sparse) where
      rank_hits-AreRanked :
          (fs : List (FusedResult S Payload)) (query : Str) (top_n : ℕ) (w : W)
          → IsOrdered S
          → Ensures
              (rank_hits S parts (some (rerank S (serve S score_once))) fs query top_n w)
              (λ out _. AreRanked top_n out)
              Anything
      unfolding rank_hits rerank
      rank_hits-AreRanked [] query top_n w ordered = Ensures-pure _ w (omega arith, tt)
      rank_hits-AreRanked (f ∷ fs) query top_n w ordered =
          let candidates = take rerank_candidate_limit (f ∷ fs) in
          let passages = map (preview S) candidates in
          let request : RerankRequest = record {
            query = query;
            passages = passages;
            top_n = top_n;
          } in
          Ensures-bind _ _ w (
            Ensures-bind _ _ w (
              Ensures-result _
                (λ o w' served.
                  Ensures-or_raise _ o w'
                    (λ rs e.
                      let (ps, same, ranked) = serve-results request w rs (served ∙ ap ok e) in
                      let (_, few, falling) =
                        rerank-results S score_once query passages top_n w ps ordered ranked in
                      Ensures-pure _ w' (
                        subst (λ rs. AreRanked top_n (pick S candidates rs)) same
                          (
                            omega (arith, few, length-pick candidates ps),
                            pick-IsFalling candidates ps falling,
                          )))
                    (λ _. tt))
                (λ _ _. tt)))

      -- A search whose reranker is the client of the reranking service, with whatever the service's
      -- model answers, returns at most `top_n` results, by falling scores, if it returns.
      pub hybrid_search-AreRanked :
          (query : Str) (query_filter : Option Filter) (top_n : ℕ) (w : W)
          → IsOrdered S
          → parts.reranker ≡ some (rerank S (serve S score_once))
          → Ensures
              (hybrid_search S parts query query_filter top_n w)
              (λ out _. AreRanked top_n out)
              Anything
      unfolding hybrid_search
      hybrid_search-AreRanked query query_filter top_n w ordered is_client =
          let rest : (fused : List (FusedResult S Payload)) (v : W)
              → Ensures (rank_hits S parts parts.reranker fused query top_n v)
                  (λ out _. AreRanked top_n out) Anything =
            λ fused v.
              subst
                (λ o.
                  Ensures (rank_hits S parts o fused query top_n v) (λ out _. AreRanked top_n out)
                    Anything)
                (sym is_client) (rank_hits-AreRanked fused query top_n v ordered) in
          Ensures-bind _ _ w (
            Ensures-result _
              (λ dv w1 _. Ensures-bind _ _ w1 (
                Ensures-result _
                  (λ sv w2 _. Ensures-bind _ _ w2 (
                    Ensures-result _
                      (λ dense w3 _. Ensures-bind _ _ w3 (
                        Ensures-result _
                          (λ sparse w4 _.
                            Ensures-bind _ _ w4
                              (Ensures-or_raise _ _ w4 (λ fused _. rest fused w4) (λ _. tt)))
                          (λ _ _. tt)))
                      (λ _ _. tt)))
                  (λ _ _. tt)))
              (λ _ _. tt))
