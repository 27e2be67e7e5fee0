-- ===== src/Embedder/Vectors.antt =====
-- What the embedder returns, and what it raises.
use Prim.Native.Nat.{zero}
use juris_mind_ai.Session.Rules.{Ensures-pure}
use juris_mind_ai.Failure.Ensures.{Ensures-weaken, Ensures-bind, Ensures}
use mathlib.Core.Path.{subst}
use juris_mind_ai.Base.Text.{text as lit}
use juris_mind_ai.Embedder.{
  not_json, embed_batch, status_error, transport_error, checked, embed_batches, embed_texts,
  Embeddings, PostError, check_answer, normalise, check_vectors, and_then, value_error,
  embedding_error, EmbeddingResult,
}
use juris_mind_ai.Failure.{Failure}
use juris_mind_ai.Base.Text.{Str}
use juris_mind_ai.Base.Result.{Result, ok, raised}
use juris_mind_ai.Base.{
  take, drop, All-append, length-drop, length-take, length-append, inr, nat_beq_iff, ◌≤◌, arith,
  ◌==◌, ◌<◌, Bool-cases, ap, inl, suc, All, ◌⊎◌, length, ℕ, Option, none, some, List, [], ◌∷◌, ◌≡◌,
  refl, nat_eq,
}

module _ (Num : Type 0) (model : Str) (expected_dimension : ℕ) where
  -- As many results as texts, each with the dimension that is expected, of a vector of that length.
  abbrev pub Fits : ℕ → List (EmbeddingResult Num) → Type 0
  Fits count results =
      (length results ≡ count)
      × All
          (λ (r : EmbeddingResult Num).
            (r.dimension ≡ expected_dimension) × (length r.vector ≡ expected_dimension))
          results

  -- `EmbeddingError`, or the `ValueError` of an answer that is not JSON; no error of the client.
  abbrev pub IsNormal : Failure → Type 0
  IsNormal e = (m : Str) × ((e ≡ embedding_error m) ⊎ (e ≡ value_error m))

  abbrev pub IsGood : ℕ → Result Failure (List (EmbeddingResult Num)) → Type 0
  IsGood count (ok results) = Fits count results
  IsGood count (raised e) = IsNormal e

  and_then-IsGood :
      (v : List Num) (count : ℕ) (later : Result Failure (List (EmbeddingResult Num)))
      → length v ≡ expected_dimension
      → IsGood count later
      → IsGood
          (suc count)
          (and_then Num (record { vector = v; model = model; dimension = length v }) later)
  unfolding and_then
  and_then-IsGood v count (ok results) size (same, h) = (ap suc same, ((size, size), h))
  and_then-IsGood v count (raised e) size h = h

  module _ (batch_size : ℕ) where
    check_vectors-IsGood :
        (vs : List (Option (List Num)))
        → IsGood (length vs) (check_vectors Num model expected_dimension batch_size vs)
    unfolding check_vectors
    check_vectors-IsGood [] = (refl, tt)
    check_vectors-IsGood (none ∷ vs) = (lit "embedding dimension mismatch", inl refl)
    check_vectors-IsGood (some v ∷ vs) = elim (Bool-cases (length v == expected_dimension)) [
      | inl e ↦ rw e (
          and_then-IsGood v (length vs) _ ((nat_beq_iff (length v) expected_dimension).0 e)
            (check_vectors-IsGood vs))
      | inr e ↦ rw e (lit "embedding dimension mismatch", inl refl)
    ]

    check_answer-IsGood :
        (size : ℕ) (answer : Embeddings Num)
        → IsGood size (check_answer Num model expected_dimension batch_size size answer)
    unfolding check_answer
    check_answer-IsGood size none = (lit "Ollama returned no embeddings", inl refl)
    check_answer-IsGood size (some vs) = elim (Bool-cases (length vs == size)) [
      | inl e ↦ rw e (
          subst (λ n. IsGood n (check_vectors Num model expected_dimension batch_size vs))
            ((nat_beq_iff (length vs) size).0 e) (check_vectors-IsGood vs))
      | inr e ↦ rw e (lit "Ollama returned another number of embeddings", inl refl)
    ]

    normalise-IsNormal :
        (e : PostError) → IsNormal (normalise Num model expected_dimension batch_size e)
    unfolding normalise
    normalise-IsNormal (transport_error m) = (m, inl refl)
    normalise-IsNormal (status_error code m) = (m, inl refl)
    normalise-IsNormal (not_json m) = (m, inr refl)

    module _ {W : Type 0} (post : List Str → W → Result PostError (Embeddings Num) × W) where
      checked-IsGood :
          (size : ℕ) (out : Result PostError (Embeddings Num) × W)
          → Ensures
              (checked Num model expected_dimension batch_size post size out)
              (λ results _. Fits size results)
              (λ e _. IsNormal e)
      unfolding checked
      checked-IsGood size (raised e, w) = record { case = normalise-IsNormal e }
      checked-IsGood size (ok answer, w) =
          as_ensures (check_answer Num model expected_dimension batch_size size answer)
            (check_answer-IsGood size answer)
        where
          as_ensures :
              (r : Result Failure (List (EmbeddingResult Num)))
              → IsGood size r
              → Ensures (r, w) (λ results _. Fits size results) (λ e _. IsNormal e)
          as_ensures (ok results) h = record { case = h }
          as_ensures (raised e) h = record { case = h }

      embed_batch-Fits :
          (batch : List Str) (w : W)
          → Ensures
              (embed_batch Num model expected_dimension batch_size post batch w)
              (λ results _. Fits (length batch) results)
              (λ e _. IsNormal e)
      unfolding embed_batch
      embed_batch-Fits batch w = checked-IsGood (length batch) _

      embed_batches-Fits :
          (fuel : ℕ) (texts : List Str) (w : W)
          → 0 < batch_size
          → length texts ≤ fuel
          → Ensures
              (embed_batches Num model expected_dimension batch_size post fuel texts w)
              (λ results _. Fits (length texts) results)
              (λ e _. IsNormal e)
      unfolding embed_batches
      embed_batches-Fits zero [] w moves enough = Ensures-pure _ w (refl, tt)
      embed_batches-Fits zero (t ∷ ts) w moves enough = absurd (omega arith)
      embed_batches-Fits (suc fuel) [] w moves enough = Ensures-pure _ w (refl, tt)
      embed_batches-Fits (suc fuel) (t ∷ ts) w moves enough =
          let texts = t ∷ ts in
          Ensures-bind _ _ w (
            Ensures-weaken _
              (λ first w1 (count, all_first). Ensures-bind _ _ w1 (
                Ensures-weaken _
                  (λ rest w2 (count', all_rest). Ensures-pure _ w2 (
                    omega (
                      arith,
                      length-append first rest,
                      count,
                      count',
                      length-take batch_size texts,
                      length-drop batch_size texts,
                    ),
                    All-append _ first rest all_first all_rest,
                  ))
                  (λ _ _ h. h)
                  (embed_batches-Fits fuel (drop batch_size texts) w1 moves
                    (omega (arith, length-drop batch_size texts, moves, enough)))))
              (λ _ _ h. h) (embed_batch-Fits (take batch_size texts) w))

      -- With batches of at least one text, the embedder returns one result for each text, each
      -- with the expected dimension, or it raises an `EmbeddingError` or, for an answer that is
      -- not JSON, the `ValueError`: no error of the HTTP client gets out.
      pub embed_texts-Fits :
          (texts : List Str) (w : W)
          → 0 < batch_size
          → Ensures
              (embed_texts Num model expected_dimension batch_size post texts w)
              (λ results _. Fits (length texts) results)
              (λ e _. IsNormal e)
      unfolding embed_texts
      embed_texts-Fits texts w moves = embed_batches-Fits (length texts) texts w moves (omega arith)
