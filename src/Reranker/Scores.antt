-- ===== src/Reranker/Scores.antt =====
-- What the reranking service returns.
use juris_mind_ai.Base.Result.{ok-injective, raised-ne-ok}
use Prim.Native.Nat.{zero}
use juris_mind_ai.Base.Sorting.{sort_falling-IsFalling, All-sort_falling, sort_falling, IsFalling}
use juris_mind_ai.Base.Dict.{Dict}
use juris_mind_ai.Reranker.{
  lower, ranked_passage, score_batch_with_retry, rank_batches, ok, best, Result, rerank,
  RerankedPassage, pos, negsuc, Ranking, ℤ, batches, Str, record_score, take_scores, PassageScore,
  record_scores, ScoreError, RerankFailure, Scored, after_batch, after_batches, raised,
}
use juris_mind_ai.Score.{IsOrdered, Score}
use mathlib.Core.Path.{subst}
use juris_mind_ai.Base.Dict
use juris_mind_ai.Base.{
  length-map, length-drop, drop, length-take, ltb→lt, arith, length, inr, ltb, inl, ◌==◌, All-take,
  ◌≤◌, Bool-cases, suc, ◌+◌, take, ◌<◌, map, All, Bool, nat_eq, ℕ, Option, none, some, List, [],
  ◌∷◌, ◌≡◌,
}

module _ {ℓ} {A : Type ℓ} (before : A → A → Bool) where
  IsFalling-take : (n : ℕ) (xs : List A) → IsFalling before xs → IsFalling before (take n xs)
  IsFalling-take zero xs h = tt
  IsFalling-take (suc n) [] h = tt
  IsFalling-take (suc n) (x ∷ xs) (first, rest) = (All-take _ n xs first, IsFalling-take n xs rest)

module _ {ℓ κ} {A : Type ℓ} {B : Type κ} (before : B → B → Bool) (f : A → B) where
  All-map : (P : B → Type 0) (xs : List A) → All (λ x. P (f x)) xs → All P (map f xs)
  All-map P [] h = tt
  All-map P (x ∷ xs) (here, h) = (here, All-map P xs h)

  IsFalling-map :
      (xs : List A) → IsFalling (λ a b. before (f a) (f b)) xs → IsFalling before (map f xs)
  IsFalling-map [] h = tt
  IsFalling-map (x ∷ xs) (first, rest) = (All-map _ xs first, IsFalling-map xs rest)

module _ (S : Score) (total : ℕ) where
  open S use {Num}

  -- Every key is the index of a passage.
  abbrev InRange : Dict ℕ Num → Type 0
  InRange d = All (λ e. e.0 < total) d

  insert-InRange :
      (k : ℕ) (v : Num) (d : Dict ℕ Num) → k < total → InRange d → InRange (Dict.insert k v d)
  unfolding Dict.insert
  insert-InRange k v [] low h = (low, tt)
  insert-InRange k v ((j, w) ∷ d) low (here, h) = elim (Bool-cases (j == k)) [
    | inl e ↦ rw e (here, h)
    | inr e ↦ rw e (here, insert-InRange k v d low h)
  ]

  record_score-InRange :
      (start size : ℕ) (index : ℤ) (score : Num) (d : Dict ℕ Num)
      → start + size ≤ total
      → InRange d
      → InRange (record_score S start size index score d)
  unfolding record_score
  record_score-InRange start size (negsuc i) score d fits h = h
  record_score-InRange start size (pos i) score d fits h = elim (Bool-cases (ltb i size)) [
    | inl e ↦ rw e (insert-InRange (start + i) score d (omega (arith, ltb→lt i size e)) h)
    | inr e ↦ rw e h
  ]

  record_scores-InRange :
      (start size : ℕ) (scores : List (PassageScore S)) (d : Dict ℕ Num)
      → start + size ≤ total
      → InRange d
      → InRange (record_scores S start size scores d)
  unfolding record_scores
  record_scores-InRange start size [] d fits h = h
  record_scores-InRange start size (s ∷ rest) d fits h =
      record_scores-InRange start size rest _ fits
        (record_score-InRange start size s.index s.score d fits h)

  take_scores-InRange :
      (start size : ℕ) (o : Option (List (PassageScore S))) (e : Option Str) (r : Ranking S)
      → start + size ≤ total
      → InRange r.by_index
      → InRange (take_scores S start size o e r).by_index
  unfolding take_scores
  take_scores-InRange start size none e r fits h = h
  take_scores-InRange start size (some scores) e r fits h =
      record_scores-InRange start size scores r.by_index fits h

  abbrev Fits : ℕ × List Str → Type 0
  Fits (start, batch) = start + length batch ≤ total

  batches-Fits :
      (fuel start : ℕ) (passages : List Str)
      → (0 < length passages → start + length passages ≤ total)
      → All Fits (batches S fuel start passages)
  unfolding batches
  batches-Fits zero start passages h = tt
  batches-Fits (suc fuel) start [] h = tt
  batches-Fits (suc fuel) start (p ∷ ps) h =
      let fits : start + suc (length ps) ≤ total = h (omega arith) in
      (
        omega (arith, length-take 15 (p ∷ ps), fits),
        batches-Fits fuel (start + 15) (drop 15 (p ∷ ps))
            (λ more. omega (arith, length-drop 15 (p ∷ ps), fits, more)),
      )

  -- The ranking, if there is one, is of passages of the request.
  abbrev Inside : {W : Type 0} → Result RerankFailure (Ranking S) × W → Type 0
  Inside (raised e, w) = Unit
  Inside (ok r, w) = InRange r.by_index

  module _ {W : Type 0} (again : Ranking S → W → Result RerankFailure (Ranking S) × W)
      (later : (r : Ranking S) (w : W) → InRange r.by_index → Inside (again r w)) where
    after_batch-Inside :
        (start size : ℕ) (r : Ranking S) (out : Result RerankFailure (Scored S) × W)
        → start + size ≤ total
        → InRange r.by_index
        → Inside (after_batch S start size r again out)
    unfolding after_batch
    after_batch-Inside start size r (raised e, w) fits h = tt
    after_batch-Inside start size r (ok scored, w) fits h =
        later _ w (take_scores-InRange start size scored.result scored.last_error r fits h)

  module _ {W : Type 0}
      (score_once : Str → List Str → W → Result ScoreError (List (PassageScore S)) × W) where
    rank_batches-Inside :
        (query : Str) (bs : List (ℕ × List Str)) (r : Ranking S) (w : W)
        → All Fits bs
        → InRange r.by_index
        → Inside (rank_batches S score_once query bs r w)
    unfolding rank_batches
    rank_batches-Inside query [] r w fits h = h
    rank_batches-Inside query ((start, batch) ∷ rest) r w (here, fits) h =
        after_batch-Inside (rank_batches S score_once query rest)
          (λ r' v inside. rank_batches-Inside query rest r' v fits inside) start (length batch) r
          (score_batch_with_retry S score_once query batch w) here h

module _ (S : Score) where
  -- The order of the answer.
  abbrev pub lower_score : RerankedPassage S → RerankedPassage S → Bool
  lower_score a b = S.less a.score b.score

  best-sorted :
      (top_n : ℕ) (d : Dict ℕ S.Num) (e : Option Str) (results : List (RerankedPassage S))
      → best S top_n d e ≡ ok results
      → map (ranked_passage S) (take top_n (sort_falling (lower S) d)) ≡ results
  unfolding best
  best-sorted top_n [] none results h = absurd (raised-ne-ok h)
  best-sorted top_n [] (some e) results h = absurd (raised-ne-ok h)
  best-sorted top_n (x ∷ d) e results h = ok-injective h

  after_batches-sorted :
      {W : Type 0} (total top_n : ℕ) (out : Result RerankFailure (Ranking S) × W)
      (results : List (RerankedPassage S))
      → Inside S total out
      → (after_batches S top_n out).0 ≡ ok results
      → (d : Dict ℕ S.Num) × InRange S total d
        × (map (ranked_passage S) (take top_n (sort_falling (lower S) d)) ≡ results)
  unfolding after_batches
  after_batches-sorted total top_n (raised e, w) results inside h = absurd (raised-ne-ok h)
  after_batches-sorted total top_n (ok r, w) results inside h =
      (r.by_index, inside, best-sorted top_n r.by_index r.last_error results h)

  -- What the service returns are at most `top_n` passages of the request, by falling scores.
  pub rerank-results :
      {W : Type 0} (score_once : Str → List Str → W → Result ScoreError (List (PassageScore S)) × W)
      (query : Str) (passages : List Str) (top_n : ℕ) (w : W) (results : List (RerankedPassage S))
      → IsOrdered S
      → (rerank S score_once query passages top_n w).0 ≡ ok results
      → All (λ (r : RerankedPassage S). r.index < length passages) results
        × (length results ≤ top_n)
        × IsFalling lower_score results
  unfolding rerank
  rerank-results {W} score_once query passages top_n w results ordered h =
      let start = batches S (length passages) 0 passages in
      let empty : Ranking S = record { by_index = []; last_error = none } in
      let ranked = rank_batches S score_once query start empty w in
      let (d, inside, same) =
        after_batches-sorted (length passages) top_n ranked results
          (rank_batches-Inside S (length passages) score_once query start empty w
            (batches-Fits S (length passages) (length passages) 0 passages (λ _. omega arith)) tt)
          h in
      let sorted = sort_falling (lower S) d in
      subst
        (λ rs.
          All (λ (p : RerankedPassage S). p.index < length passages) rs
          × (length rs ≤ top_n)
          × IsFalling lower_score rs)
        same
        (
          All-map lower_score (ranked_passage S)
              (λ (p : RerankedPassage S). p.index < length passages) (take top_n sorted)
              (All-take _ top_n sorted (All-sort_falling (lower S) _ d inside)),
          omega
              (arith, length-map (ranked_passage S) (take top_n sorted), length-take top_n sorted),
          IsFalling-map lower_score (ranked_passage S) (take top_n sorted) (
              IsFalling-take (lower S) top_n sorted (
                sort_falling-IsFalling (lower S) (λ a b. ordered.asym a.1 b.1)
                  (λ a b c. ordered.trans a.1 b.1 c.1) d)),
        )
