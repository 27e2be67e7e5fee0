-- ===== src/Embedder.antt =====
-- The embedder, tradegraph/src/rag/embeddings/ollama_embedder.py: batches, attempts and the checks of
-- what the service answers. A post is a parameter; the messages of errors are shortened.
pub mod Vectors
use Prim.Native.Nat.{zero}
use juris_mind_ai.Base.Result.{raised, ok, Result}
use juris_mind_ai.Failure.{value_error, pure, embedding_error, Exec, Failure, ◌>>=◌, ◌>>◌}
use juris_mind_ai.Base.Text.{Str, text as lit}
use juris_mind_ai.Base.{
  ◌==◌, suc, leb, ℕ, Bool, true, false, Option, none, some, List, [], ◌∷◌, ◌++◌, nat_eq,
  if◌then◌else◌, take, drop, length,
}

-- What a post may raise: `httpx.TransportError`, `httpx.HTTPStatusError` with its code, and the
-- `ValueError` of an answer that is not JSON.
pub data PostError : Type 0 where
  transport_error : Str → PostError
  status_error : ℕ → Str → PostError
  not_json : Str → PostError

unfoldable pub is_transient_ollama_error : PostError → Bool
is_transient_ollama_error (transport_error m) = true
is_transient_ollama_error (status_error code m) = leb 500 code
is_transient_ollama_error (not_json m) = false

module _ (Num : Type 0) where
  pub record EmbeddingResult : Type 0 where
    pub vector : List Num
    pub model : Str
    pub dimension : ℕ

  -- `payload.get("embeddings")`, `none` where it is no list, and likewise each vector
  abbrev pub Embeddings : Type 0
  Embeddings = Option (List (Option (List Num)))

  -- `results.append(…)` before the rest of the loop
  pub and_then :
      EmbeddingResult
      → Result Failure (List EmbeddingResult)
      → Result Failure (List EmbeddingResult)
  and_then r (ok results) = ok (r ∷ results)
  and_then r (raised e) = raised e

  module _ (model : Str) (expected_dimension batch_size : ℕ) where
    -- `for vector in vectors`
    pub check_vectors : List (Option (List Num)) → Result Failure (List EmbeddingResult)
    unfolding lit and_then
    check_vectors [] = ok []
    check_vectors (none ∷ rest) = raised (embedding_error (lit "embedding dimension mismatch"))
    check_vectors (some v ∷ rest) =
        let later = check_vectors rest in
        if length v == expected_dimension
        then and_then (record { vector = v; model = model; dimension = length v }) later
        else raised (embedding_error (lit "embedding dimension mismatch"))

    -- The checks of an answer.
    pub check_answer : ℕ → Embeddings → Result Failure (List EmbeddingResult)
    unfolding check_vectors lit
    check_answer size none = raised (embedding_error (lit "Ollama returned no embeddings"))
    check_answer size (some vectors) =
        if length vectors == size
        then check_vectors vectors
        else raised (embedding_error (lit "Ollama returned another number of embeddings"))

    -- `except httpx.HTTPError` of `embed_texts`
    pub normalise : PostError → Failure
    normalise (transport_error m) = embedding_error m
    normalise (status_error code m) = embedding_error m
    normalise (not_json m) = value_error m

    module _ {W : Type 0} (post : List Str → W → Result PostError Embeddings × W) where
      -- `stop_after_attempt`, with `attempts` left after this one
      pub post_with_retry :
          (attempts : ℕ)
          → List Str
          → Result PostError Embeddings × W
          → Result PostError Embeddings × W
      unfolding is_transient_ollama_error
      post_with_retry zero batch (answer, w) = (answer, w)
      post_with_retry (suc left) batch (ok answer, w) = (ok answer, w)
      post_with_retry (suc left) batch (raised e, w) =
          let again = post_with_retry left batch (post batch w) in
          if is_transient_ollama_error e then again else (raised e, w)

      pub checked : ℕ → Result PostError Embeddings × W → Result Failure (List EmbeddingResult) × W
      unfolding check_answer normalise
      checked size (ok answer, w) = (check_answer size answer, w)
      checked size (raised e, w) = (raised (normalise e), w)

      unfoldable pub embed_batch : List Str → Exec W (List EmbeddingResult)
      unfolding post_with_retry checked
      embed_batch batch w = checked (length batch) (post_with_retry 2 batch (post batch w))

      -- The loop over the batches, with as many rounds as texts.
      unfoldable pub embed_batches : ℕ → List Str → Exec W (List EmbeddingResult)
      embed_batches zero texts = pure []
      embed_batches (suc fuel) [] = pure []
      embed_batches (suc fuel) (t ∷ ts) = do
        first ← embed_batch (take batch_size (t ∷ ts))
        rest ← embed_batches fuel (drop batch_size (t ∷ ts))
        pure (first ++ rest)

      unfoldable pub embed_texts : List Str → Exec W (List EmbeddingResult)
      embed_texts texts = embed_batches (length texts) texts
