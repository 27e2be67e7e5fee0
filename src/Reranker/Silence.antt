-- ===== src/Reranker/Silence.antt =====
-- The reranking service where the model answers without a usable score.
use Prim.Native.Nat.{zero}
use juris_mind_ai.Base.Result.{ok-injective, raised-ne-ok}
use juris_mind_ai.Base.Int.{in_range}
use juris_mind_ai.Reranker.{
  batches, assertion_error, rerank, attempt, Ranking, best, take_scores, rank_batches,
  score_batch_with_retry, has_distinct, raised, ok, pos, Str, negsuc, Result, record_score,
  after_attempt, after_batch, after_batches, ScoreError, RerankFailure, ℤ, Dict, Scored,
  record_scores, PassageScore,
}
use juris_mind_ai.Score.{Score}
use juris_mind_ai.Base.{
  suc, length, inr, inl, ◌||◌, Bool-cases, ap, ◌∙◌, Bool, false, All, nat_eq, ℕ, none, some, List,
  [], ◌∷◌, ◌≡◌, refl,
}

module _ (S : Score) where
  -- No score is of a passage among `size`.
  abbrev pub AllOut : ℕ → List (PassageScore S) → Type 0
  AllOut size scores = All (λ (s : PassageScore S). in_range s.index size ≡ false) scores

  -- The batch was answered, without an error and without a usable score.
  abbrev Answered : ℕ → Scored S → Type 0
  Answered size so_far =
      (scores : List (PassageScore S)) × (so_far.result ≡ some scores)
      × AllOut size scores
      × (so_far.last_error ≡ none)

  abbrev IsAnswered : {W : Type 0} → ℕ → Result RerankFailure (Scored S) × W → Type 0
  IsAnswered size (raised e, w) = ⊥
  IsAnswered size (ok so_far, w) = Answered size so_far

  record_score-out :
      (start size : ℕ) (i : ℤ) (score : S.Num) (d : Dict ℕ S.Num)
      → in_range i size ≡ false
      → record_score S start size i score d ≡ d
  unfolding record_score in_range
  record_score-out start size (negsuc i) score d out = refl
  record_score-out start size (pos i) score d out = rw out refl

  record_scores-AllOut :
      (start size : ℕ) (scores : List (PassageScore S)) (d : Dict ℕ S.Num)
      → AllOut size scores
      → record_scores S start size scores d ≡ d
  unfolding record_scores
  record_scores-AllOut start size [] d h = refl
  record_scores-AllOut start size (s ∷ rest) d (out, h) =
      record_scores-AllOut start size rest _ h ∙ record_score-out start size s.index s.score d out

  module _ {W : Type 0} (size : ℕ) (again : Scored S → W → Result RerankFailure (Scored S) × W)
      (later : (so_far : Scored S) (w : W)
        → Answered size so_far
        → IsAnswered size (again so_far w)) where
    after_attempt-Answered :
        (enough : Bool) (so_far : Scored S) (out : Result ScoreError (List (PassageScore S)) × W)
        (scores : List (PassageScore S))
        → so_far.last_error ≡ none
        → out.0 ≡ ok scores
        → AllOut size scores
        → IsAnswered size (after_attempt S enough so_far again out)
    unfolding after_attempt
    after_attempt-Answered enough so_far (raised e, w) scores fine h out = absurd (raised-ne-ok h)
    after_attempt-Answered enough so_far (ok candidate, w) scores fine h out =
        elim (Bool-cases (has_distinct S candidate || enough)) [
          | inl e ↦ rw e answered
          | inr e ↦ rw e (later _ w answered)
        ]
      where
        answered : Answered size (record so_far { result = some candidate })
        answered = (scores, ap some (ok-injective h), out, fine)

  module _ {W : Type 0}
      (score_once : Str → List Str → W → Result ScoreError (List (PassageScore S)) × W)
      (silent : (query : Str) (passages : List Str) (w : W)
        → (scores : List (PassageScore S)) × ((score_once query passages w).0 ≡ ok scores)
          × AllOut (length passages) scores) where
    attempt-Answered :
        (attempts : ℕ) (query : Str) (passages : List Str) (so_far : Scored S) (w : W)
        → Answered (length passages) so_far
        → IsAnswered (length passages) (attempt S score_once attempts query passages so_far w)
    unfolding attempt
    attempt-Answered zero query passages so_far w h = h
    attempt-Answered (suc left) query passages so_far w (scores, result, out, fine) =
        let (now, said, none_in) = silent query passages w in
        after_attempt-Answered (length passages) (attempt S score_once left query passages)
          (attempt-Answered left query passages) _ so_far _ now fine said none_in

    score_batch-Answered :
        (query : Str) (passages : List Str) (w : W)
        → IsAnswered (length passages) (score_batch_with_retry S score_once query passages w)
    unfolding score_batch_with_retry attempt
    score_batch-Answered query passages w =
        let (now, said, none_in) = silent query passages w in
        after_attempt-Answered (length passages) (attempt S score_once 2 query passages)
          (attempt-Answered 2 query passages) _ _ _ now refl said none_in

    -- Nothing is ranked, and no error is kept.
    abbrev IsBlank : Ranking S → Type 0
    IsBlank r = (r.by_index ≡ []) × (r.last_error ≡ none)

    take_scores-IsBlank :
        (start size : ℕ) (scored : Scored S) (r : Ranking S)
        → Answered size scored
        → IsBlank r
        → IsBlank (take_scores S start size scored.result scored.last_error r)
    unfolding take_scores
    take_scores-IsBlank start size scored r (scores, result, out, fine) (blank, no_error) =
        rw (result, take_scores)
          (record_scores-AllOut start size scores r.by_index out ∙ blank, no_error)

    abbrev EndsBlank : Result RerankFailure (Ranking S) × W → Type 0
    EndsBlank (raised e, w) = ⊥
    EndsBlank (ok r, w) = IsBlank r

    after_batch-EndsBlank :
        (start size : ℕ) (r : Ranking S)
        (again : Ranking S → W → Result RerankFailure (Ranking S) × W)
        (out : Result RerankFailure (Scored S) × W)
        → ((r : Ranking S) (w : W) → IsBlank r → EndsBlank (again r w))
        → IsAnswered size out
        → IsBlank r
        → EndsBlank (after_batch S start size r again out)
    unfolding after_batch
    after_batch-EndsBlank start size r again (raised e, w) later answered h = absurd answered
    after_batch-EndsBlank start size r again (ok scored, w) later answered h =
        later _ w (take_scores-IsBlank start size scored r answered h)

    rank_batches-EndsBlank :
        (query : Str) (bs : List (ℕ × List Str)) (r : Ranking S) (w : W)
        → IsBlank r
        → EndsBlank (rank_batches S score_once query bs r w)
    unfolding rank_batches
    rank_batches-EndsBlank query [] r w h = h
    rank_batches-EndsBlank query ((start, batch) ∷ rest) r w h =
        after_batch-EndsBlank start (length batch) r (rank_batches S score_once query rest)
          (score_batch_with_retry S score_once query batch w) (rank_batches-EndsBlank query rest)
          (score_batch-Answered query batch w) h

    best-IsBlank :
        (top_n : ℕ) (r : Ranking S)
        → IsBlank r
        → best S top_n r.by_index r.last_error ≡ raised assertion_error
    unfolding best
    best-IsBlank top_n r (blank, no_error) = rw (blank, no_error) refl

    after_batches-EndsBlank :
        (top_n : ℕ) (out : Result RerankFailure (Ranking S) × W)
        → EndsBlank out
        → (after_batches S top_n out).0 ≡ raised assertion_error
    unfolding after_batches
    after_batches-EndsBlank top_n (raised e, w) h = absurd h
    after_batches-EndsBlank top_n (ok r, w) h = best-IsBlank top_n r h

    -- Where the model always answers, but never with a score of a passage that it was given, the
    -- service fails by its `assert`, not with the error 502 that it has for a failed ranking.
    pub rerank-asserts :
        (query : Str) (passages : List Str) (top_n : ℕ) (w : W)
        → (rerank S score_once query passages top_n w).0 ≡ raised assertion_error
    unfolding rerank
    rerank-asserts query passages top_n w = after_batches-EndsBlank top_n _ (
        rank_batches-EndsBlank query (batches S (length passages) 0 passages)
          (record { by_index = []; last_error = none }) w (refl, refl))
