-- ===== src/Ingestion/Indexing/Points.antt =====
-- The rows and the points of an ingested document's chunks.
use mathlib.Core.List.{append_assoc}
use juris_mind_ai.Base.{
  append-three, ◌≤◌, ap, ◌∙◌, ℕ, suc, List, [], ◌∷◌, ◌++◌, map, ◌≡◌, refl, length, ◌+◌, arith, take,
}
use juris_mind_ai.Chunking.{Chunk, chunk_text}
use juris_mind_ai.Embedder.{EmbeddingResult}
use juris_mind_ai.Failure.Ensures.{Ensures, Ensures-bind, Ensures-weaken}
use juris_mind_ai.Ingestion.Indexing.{
  chunk_row, chunk_point, index_chunks, write_chunks, encode_documents,
}
use juris_mind_ai.Ingestion.Rules.{Ensures-call, Ensures-new_id, Ensures-raise, Ensures-add_chunks}
use juris_mind_ai.Ingestion.{
  Backends, Stores, Call, embed, encode, upsert, FiledDocument, IndexedChunk, ChunkPoint,
  SparseVectorData,
}
use juris_mind_ai.Payload.{Payload, show_uuid}
use juris_mind_ai.Rows.{Uuid}
use juris_mind_ai.Session.Rules.{Ensures-pure}

module _ (V : Backends) (document : FiledDocument) (payload_of : Uuid → Chunk → Payload) where
  open V use {Num}

  -- One row and one point for each chunk, in the order of the chunks, with ids from `n` on: the row
  -- has the chunk's text and belongs to the document, the point has the row's id, and its payload is
  -- that of the chunk.
  abbrev pub IsIndexed : ℕ → List Chunk → List IndexedChunk → List (ChunkPoint Num) → Type 0
  IsIndexed n [] [] [] = Unit
  IsIndexed n (c ∷ cs) (r ∷ rs) (p ∷ ps) =
      ((r.id ≡ n)
        × (r.document_id ≡ document.id)
        × (r.text ≡ chunk_text c)
        × (r.qdrant_point_id ≡ p.point_id)
        × (p.point_id ≡ show_uuid n)
        × (p.payload ≡ payload_of n c))
      × IsIndexed (suc n) cs rs ps
  IsIndexed n _ _ _ = ⊥

  -- Only ids were taken.
  abbrev pub TakesIds : Stores V → ℕ → Stores V → Type 0
  TakesIds s count s' = s' ≡ record s { fresh = s.fresh + count }

  none_taken : (s : Stores V) → TakesIds s 0 s
  none_taken s = ap (λ (k : ℕ). record s { fresh = k }) (omega arith)

  one_more :
      (s : Stores V) (count : ℕ)
      → ◌≡◌ {A = Stores V}
          (record s { fresh = suc s.fresh + count })
          (record s { fresh = s.fresh + suc count })
  one_more s count = ap (λ (k : ℕ). record s { fresh = k }) (omega arith)

  index_chunks-IsIndexed :
      (cs : List Chunk) (es : List (EmbeddingResult Num)) (vs : List (SparseVectorData Num))
      (s : Stores V)
      → Ensures
          (index_chunks V document payload_of cs es vs s)
          (λ (rows, points) s'. IsIndexed s.fresh cs rows points × TakesIds s (length cs) s')
          (λ _ s'. (n : ℕ) × TakesIds s n s')
  unfolding index_chunks chunk_row chunk_point
  index_chunks-IsIndexed [] [] [] s = Ensures-pure _ s (tt, none_taken s)
  index_chunks-IsIndexed (c ∷ cs) (e ∷ es) (v ∷ vs) s = Ensures-bind _ _ s (
      Ensures-new_id V s (
        Ensures-bind _ _ _ (
          Ensures-weaken _
            (λ (rows, points) s2 (h, moved).
              Ensures-pure _ s2
                (((refl, refl, refl, refl, refl, refl), h), moved ∙ one_more s (length cs)))
            (λ _ s2 (n, moved). (suc n, moved ∙ one_more s n))
            (index_chunks-IsIndexed cs es vs (record s { fresh = suc s.fresh })))))
  index_chunks-IsIndexed [] [] (v ∷ vs) s = Ensures-raise _ s (0, none_taken s)
  index_chunks-IsIndexed [] (e ∷ es) vs s = Ensures-raise _ s (0, none_taken s)
  index_chunks-IsIndexed (c ∷ cs) [] vs s = Ensures-raise _ s (0, none_taken s)
  index_chunks-IsIndexed (c ∷ cs) (e ∷ es) [] s = Ensures-raise _ s (0, none_taken s)

  -- The calls for the chunks: all of these, or the first `count` when one raised. Without chunks
  -- there are none.
  abbrev pub indexing_calls : List Chunk → List (ChunkPoint Num) → List (Call V.Bytes Num)
  indexing_calls [] points = []
  indexing_calls (c ∷ cs) points =
      let texts = map chunk_text (c ∷ cs) in embed texts ∷ encode texts ∷ upsert points ∷ []

  pub record Written (s : Stores V) (chunks : List Chunk) (s' : Stores V) : Type 0 where
    pub rows : List IndexedChunk
    pub points : List (ChunkPoint Num)
    pub is_indexed : IsIndexed s.fresh chunks rows points
    pub has_rows : s'.chunks ≡ s.chunks ++ rows
    pub has_calls : s'.calls ≡ s.calls ++ indexing_calls chunks points
    pub same_documents : s'.documents ≡ s.documents
    pub later : s.fresh ≤ s'.fresh

  pub record Stopped (s : Stores V) (chunks : List Chunk) (s' : Stores V) : Type 0 where
    pub points : List (ChunkPoint Num)
    pub count : ℕ
    pub has_calls : s'.calls ≡ s.calls ++ take count (indexing_calls chunks points)
    pub same_documents : s'.documents ≡ s.documents

  pub write_chunks-Written :
      (c : Chunk) (cs : List Chunk) (s : Stores V)
      → Ensures
          (write_chunks V document payload_of (c ∷ cs) s)
          (λ _ s'. Written s (c ∷ cs) s')
          (λ _ s'. Stopped s (c ∷ cs) s')
  unfolding write_chunks encode_documents
  write_chunks-Written c cs s = Ensures-bind _ _ s (
      Ensures-call V _ _ s
        (λ es w _. Ensures-bind _ _ _ (
          Ensures-call V _ _ _
            (λ vs w _. Ensures-bind _ _ _ (
              Ensures-weaken _
                (λ (rows, points) s3 (h, moved). Ensures-bind _ _ _ (
                  Ensures-add_chunks V rows s3 (
                    Ensures-call V _ _ _
                      (λ _ w' _. record {
                        rows = rows;
                        points = points;
                        is_indexed = h;
                        has_rows = ap (λ (t : Stores V). t.chunks ++ rows) moved;
                        has_calls =
                            ap (λ (t : Stores V). t.calls ++ upsert points ∷ []) moved
                            ∙ append-three s.calls _ _ _;
                        same_documents = ap (λ (t : Stores V). t.documents) moved;
                        later = omega (arith, ap (λ (t : Stores V). t.fresh) moved);
                      })
                      (λ _ w'. record {
                        points = points;
                        count = 3;
                        has_calls =
                            ap (λ (t : Stores V). t.calls ++ upsert points ∷ []) moved
                            ∙ append-three s.calls _ _ _;
                        same_documents = ap (λ (t : Stores V). t.documents) moved;
                      }))))
                (λ _ s3 (n, moved). record {
                  points = [];
                  count = 2;
                  has_calls =
                      ap (λ (t : Stores V). t.calls) moved ∙ append_assoc s.calls (_ ∷ []) (_ ∷ []);
                  same_documents = ap (λ (t : Stores V). t.documents) moved;
                })
                (index_chunks-IsIndexed (c ∷ cs) es vs _)))
            (λ _ w. record {
              points = [];
              count = 2;
              has_calls = append_assoc s.calls (_ ∷ []) (_ ∷ []);
              same_documents = refl;
            })))
        (λ _ w. record { points = []; count = 1; has_calls = refl; same_documents = refl }))
