-- ===== src/Reranker.antt =====
-- The reranking service, tradegraph/apps/reranker/main.py: it scores passages in batches, each with
-- some attempts, and returns the best.
pub mod Scores
pub mod Silence
use Prim.Native.Nat.{zero}
use juris_mind_ai.Base.Dict.{Dict}
use juris_mind_ai.Base.Sorting.{sort_falling}
use juris_mind_ai.Base.Int.{pos, negsuc, ℤ, in_range}
use juris_mind_ai.Base.Result.{ok, raised, Result}
use juris_mind_ai.Score.{Score}
use juris_mind_ai.Base.Text.{Str}
use juris_mind_ai.Base.Dict
use juris_mind_ai.Base.{
  ◌||◌, map, ◌==◌, nat_eq, ltb, ◌+◌, if◌then◌else◌, suc, ℕ, Bool, true, false, Option, none, some,
  List, [], ◌∷◌, ◌++◌, take, drop, length,
}

abbrev pub max_rerank_attempts : ℕ
max_rerank_attempts = 3

abbrev pub rerank_batch_size : ℕ
rerank_batch_size = 15

-- What `_score_once` raises: an `LLMCallError`, or another exception, such as the `ValueError` of an
-- answer that is not JSON.
pub data ScoreError : Type 0 where
  llm_call_error not_llm : Str → ScoreError

-- What `rerank` raises: the HTTP error, the failure of its `assert`, or what no handler caught.
pub data RerankFailure : Type 0 where
  bad_gateway : Str → RerankFailure
  assertion_error : RerankFailure
  uncaught : Str → RerankFailure

module _ (S : Score) where
  open S use {Num}

  pub record PassageScore : Type 0 where
    pub index : ℤ
    pub score : Num

  pub record RerankedPassage : Type 0 where
    pub index : ℕ
    pub score : Num

  -- `len({s.score for s in scores}) > 1`
  unfoldable pub has_distinct : List PassageScore → Bool
  has_distinct [] = false
  has_distinct (s ∷ rest) = any_other s.score rest
    where
      any_other : Num → List PassageScore → Bool
      any_other a [] = false
      any_other a (r ∷ rs) = let later = any_other a rs in if S.same a r.score then later else true

  -- `result` and `last_error` of `_score_batch_with_retry`
  pub record Scored : Type 0 where
    pub result : Option (List PassageScore)
    pub last_error : Option Str

  -- The rest of an attempt; `again` is what the loop does next, and `enough` says that the answer
  -- is taken as it is.
  pub after_attempt :
      {W : Type 0} (enough : Bool)
      → Scored
      → (Scored → W → Result RerankFailure Scored × W)
      → Result ScoreError (List PassageScore) × W
      → Result RerankFailure Scored × W
  unfolding has_distinct
  after_attempt enough so_far again (raised (llm_call_error e), w) =
      again (record so_far { last_error = some e }) w
  after_attempt enough so_far again (raised (not_llm e), w) = (raised (uncaught e), w)
  after_attempt enough so_far again (ok candidate, w) =
      let now = record so_far { result = some candidate } in
      let more = again now w in if has_distinct candidate || enough then (ok now, w) else more

  module _ {W : Type 0}
      (score_once : Str → List Str → W → Result ScoreError (List PassageScore) × W) where
    -- The loop, with `attempts` left, from the `result` and the `last_error` so far.
    pub attempt : (attempts : ℕ) → Str → List Str → Scored → W → Result RerankFailure Scored × W
    unfolding after_attempt
    attempt zero query passages so_far w = (ok so_far, w)
    attempt (suc left) query passages so_far w =
        after_attempt (length passages == 1 || left == 0) so_far (attempt left query passages)
          (score_once query passages w)

    unfoldable pub score_batch_with_retry : Str → List Str → W → Result RerankFailure Scored × W
    unfolding attempt
    score_batch_with_retry query passages w =
        attempt max_rerank_attempts query passages (record { result = none; last_error = none }) w

  -- `if 0 <= s.index < len(batch)`, for the batch that starts at `batch_start` and has `size`
  -- passages
  pub record_score : ℕ → ℕ → ℤ → Num → Dict ℕ Num → Dict ℕ Num
  record_score batch_start size (negsuc _) score by_index = by_index
  record_score batch_start size (pos i) score by_index =
      if ltb i size then Dict.insert (batch_start + i) score by_index else by_index

  -- `for s in result.scores`
  unfoldable pub record_scores : ℕ → ℕ → List PassageScore → Dict ℕ Num → Dict ℕ Num
  unfolding record_score
  record_scores batch_start size [] by_index = by_index
  record_scores batch_start size (s ∷ rest) by_index =
      record_scores batch_start size rest (record_score batch_start size s.index s.score by_index)

  -- `range(0, len(passages), RERANK_BATCH_SIZE)` with the slices; as many rounds as passages are
  -- enough.
  pub batches : ℕ → ℕ → List Str → List (ℕ × List Str)
  batches zero start passages = []
  batches (suc fuel) start [] = []
  batches (suc fuel) start (p ∷ ps) =
      (start, take rerank_batch_size (p ∷ ps))
      ∷ batches fuel (start + rerank_batch_size) (drop rerank_batch_size (p ∷ ps))

  -- `by_index` and `last_error` of `rerank`
  pub record Ranking : Type 0 where
    pub by_index : Dict ℕ Num
    pub last_error : Option Str

  -- What a batch adds: its scores, or its error if no attempt was answered.
  pub take_scores : ℕ → ℕ → Option (List PassageScore) → Option Str → Ranking → Ranking
  unfolding record_scores
  take_scores start size none error r = record r { last_error = error }
  take_scores start size (some scores) error r = record r {
    by_index = record_scores start size scores r.by_index;
  }

  abbrev pub lower : ℕ × Num → ℕ × Num → Bool
  lower a b = S.less a.1 b.1

  abbrev pub ranked_passage : ℕ × Num → RerankedPassage
  ranked_passage (i, s) = record { index = i; score = s }

  -- From `if not by_index` on.
  pub best : ℕ → Dict ℕ Num → Option Str → Result RerankFailure (List RerankedPassage)
  unfolding sort_falling
  best top_n [] none = raised assertion_error
  best top_n [] (some e) = raised (bad_gateway e)
  best top_n (e ∷ es) _ = ok (map ranked_passage (take top_n (sort_falling lower (e ∷ es))))

  -- The rest of a round, and then `again`.
  pub after_batch :
      {W : Type 0}
      → ℕ
      → ℕ
      → Ranking
      → (Ranking → W → Result RerankFailure Ranking × W)
      → Result RerankFailure Scored × W
      → Result RerankFailure Ranking × W
  unfolding take_scores
  after_batch start size r again (raised e, w) = (raised e, w)
  after_batch start size r again (ok scored, w) =
      again (take_scores start size scored.result scored.last_error r) w

  -- After the loop.
  pub after_batches :
      {W : Type 0}
      → ℕ
      → Result RerankFailure Ranking × W
      → Result RerankFailure (List RerankedPassage) × W
  unfolding best
  after_batches top_n (raised e, w) = (raised e, w)
  after_batches top_n (ok r, w) = (best top_n r.by_index r.last_error, w)

  module _ {W : Type 0}
      (score_once : Str → List Str → W → Result ScoreError (List PassageScore) × W) where
    pub rank_batches : Str → List (ℕ × List Str) → Ranking → W → Result RerankFailure Ranking × W
    unfolding score_batch_with_retry after_batch
    rank_batches query [] r w = (ok r, w)
    rank_batches query ((start, batch) ∷ rest) r w =
        after_batch start (length batch) r (rank_batches query rest)
          (score_batch_with_retry score_once query batch w)

    unfoldable pub rerank : Str → List Str → ℕ → W → Result RerankFailure (List RerankedPassage) × W
    unfolding batches rank_batches after_batches
    rerank query passages top_n w = after_batches top_n (
        rank_batches query (batches (length passages) 0 passages)
          (record { by_index = []; last_error = none }) w)
