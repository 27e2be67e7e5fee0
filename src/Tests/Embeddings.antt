-- ===== src/Tests/Embeddings.antt =====
-- Three texts in batches of two, each embedded by two numbers.
use juris_mind_ai.Embedder.Vectors.{embed_texts-Fits, IsNormal, Fits}
use juris_mind_ai.Embedder.{Embeddings, embed_texts, PostError}
use juris_mind_ai.Base.Text.{Str}
use juris_mind_ai.Failure.Ensures.{Ensures}
use juris_mind_ai.Base.{arith, ℕ, some, List, [], ◌∷◌, map}
use juris_mind_ai.Base.Result.{Result, ok}

post : List Str → Unit {0} → Result PostError (Embeddings ℕ) × Unit {0}
post batch w = (ok (some (map (λ (t : Str). some (1 ∷ 2 ∷ [])) batch)), w)

embed_texts-Fits_example :
    Ensures
      (embed_texts ℕ [] 2 2 post ([] ∷ [] ∷ [] ∷ []) tt)
      (λ results _. Fits ℕ [] 2 3 results)
      (λ e _. IsNormal ℕ [] 2 e)
embed_texts-Fits_example = embed_texts-Fits ℕ [] 2 2 post ([] ∷ [] ∷ [] ∷ []) tt (omega arith)
