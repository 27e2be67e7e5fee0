-- ===== src/Ingestion/Filing/Stored.antt =====
-- What the ingestion of a filing leaves behind, step by step.
use mathlib.Core.List.{append-nil}
use juris_mind_ai.Session.Rules.{Ensures-gets, Ensures-pure}
use juris_mind_ai.Ingestion.Rules.{Ensures-raise, Ensures-flush, Ensures-set_documents}
use juris_mind_ai.Ingestion.Indexing.Points.{
  write_chunks-Written, Stopped, IsIndexed, indexing_calls, Written,
}
use juris_mind_ai.Failure.Ensures.{Ensures-weaken, Ensures-bind, Ensures}
use juris_mind_ai.Ingestion.Filing.{
  chunk_payload, IngestionOutcome, or_chunking_error, Chunk, ChunkingError, write_if_any,
  store_document, pending, succeeded, FilingMetadata, mark_succeeded,
}
use juris_mind_ai.Ingestion.{
  is_valid, IndexedChunk, ChunkPoint, Stores, Uuid, FiledDocument, Backends,
}
use juris_mind_ai.Base.{
  ◌∙◌, sym, ◌≤◌, true, ap, nat_beq_of_ne, eq_refl, ℕ, List, [], ◌∷◌, ◌++◌, ◌≡◌, refl, length, arith,
  take, ◌<◌, All, Option, some,
}
use juris_mind_ai.Base.Text.{Str}
use juris_mind_ai.Base.Result.{Result, ok, raised}

-- The documents of a run that raised: none was added, or one that is pending.
pub data IsUnfinished (before after : List FiledDocument) : Type 0 where
  unchanged : after ≡ before → IsUnfinished before after
  pending_row :
      (d : FiledDocument)
      → d.ingestion_status ≡ pending
      → after ≡ before ++ d ∷ []
      → IsUnfinished before after

abbrev pub succeeded_at : ℕ → FiledDocument → FiledDocument
succeeded_at now d = record d { ingestion_status = succeeded; ingested_at = some now }

mark_succeeded-last :
    (ds : List FiledDocument) (d : FiledDocument) (now : ℕ)
    → All (λ (e : FiledDocument). e.id < d.id) ds
    → mark_succeeded d.id now (ds ++ d ∷ []) ≡ ds ++ succeeded_at now d ∷ []
unfolding mark_succeeded
mark_succeeded-last [] d now _ = rw (eq_refl d.id) refl
mark_succeeded-last (e ∷ ds) d now (less, h) =
    rw (nat_beq_of_ne e.id d.id (λ same. omega (arith, less, same)))
      (ap (◌∷◌ e) (mark_succeeded-last ds d now h))

module _ (V : Backends) (filing : FilingMetadata) (raw_bucket : Str) (tenant_id : Option Uuid) where
  write_if_any-Written :
      (d : FiledDocument) (chunks : List Chunk) (s : Stores V)
      → Ensures
          (write_if_any V filing raw_bucket tenant_id d chunks s)
          (λ _ s'. Written V d (chunk_payload d) s chunks s')
          (λ _ s'. Stopped V d (chunk_payload d) s chunks s')
  unfolding write_if_any
  write_if_any-Written d [] s = Ensures-pure _ s (record {
    rows = [];
    points = [];
    is_indexed = tt;
    has_rows = sym (append-nil s.chunks);
    has_calls = sym (append-nil s.calls);
    same_documents = refl;
    later = omega arith;
  })
  write_if_any-Written d (c ∷ cs) s = write_chunks-Written V d (chunk_payload d) c cs s

  -- What `store_document` does to a state in which the raw bytes are stored and parsed.
  pub record Filed (s : Stores V) (d : FiledDocument) (chunked : Result ChunkingError (List Chunk))
      (outcome : IngestionOutcome) (s' : Stores V) : Type 0 where
    pub chunks : List Chunk
    pub are_chunks : chunked ≡ ok chunks
    pub rows : List IndexedChunk
    pub points : List (ChunkPoint V.Num)
    pub is_indexed : IsIndexed V d (chunk_payload d) s.fresh chunks rows points
    pub has_rows : s'.chunks ≡ s.chunks ++ rows
    pub has_calls : s'.calls ≡ s.calls ++ indexing_calls V d (chunk_payload d) chunks points
    pub has_document : s'.documents ≡ s.documents ++ succeeded_at s'.now d ∷ []
    pub is_valid_row : is_valid (s.documents ++ d ∷ []) s.chunks ≡ true
    pub is_outcome :
        outcome ≡ record { document_id = d.id; status = succeeded; chunks_created = length chunks }
    pub later : s.fresh ≤ s'.fresh

  pub record NotFiled (s : Stores V) (d : FiledDocument) (s' : Stores V) : Type 0 where
    pub chunks : List Chunk
    pub points : List (ChunkPoint V.Num)
    pub count : ℕ
    pub has_calls :
        s'.calls ≡ s.calls ++ take count (indexing_calls V d (chunk_payload d) chunks points)
    pub is_unfinished : IsUnfinished s.documents s'.documents

  -- The row was added, and nothing else done.
  unwritten :
      (d : FiledDocument) (s : Stores V)
      → d.ingestion_status ≡ pending
      → NotFiled s d (record s { documents = s.documents ++ d ∷ [] })
  unwritten d s new = record {
    chunks = [];
    points = [];
    count = 0;
    has_calls = sym (append-nil s.calls);
    is_unfinished = pending_row d new refl;
  }

  pub store_document-Filed :
      (d : FiledDocument) (chunked : Result ChunkingError (List Chunk)) (s : Stores V)
      → d.ingestion_status ≡ pending
      → All (λ (e : FiledDocument). e.id < d.id) s.documents
      → Ensures
          (store_document V filing raw_bucket tenant_id d chunked s)
          (λ outcome s'. Filed s d chunked outcome s')
          (λ _ s'. NotFiled s d s')
  unfolding store_document or_chunking_error
  store_document-Filed d (raised e) s new below = Ensures-bind _ _ s (
      Ensures-set_documents V _ s (
        Ensures-bind _ _ _ (
          Ensures-flush V _ (λ _. Ensures-bind _ _ _ (Ensures-raise _ _ (unwritten d s new)))
            (λ _ _. unwritten d s new))))
  store_document-Filed d (ok chunks) s new below = Ensures-bind _ _ s (
      Ensures-set_documents V _ s (
        Ensures-bind _ _ _ (
          Ensures-flush V _
            (λ valid. Ensures-bind _ _ _ (
              Ensures-pure _ _ (
                Ensures-bind _ _ _ (
                  Ensures-weaken _
                    (λ _ s2 w. Ensures-bind _ _ _ (
                      Ensures-gets _ s2 (
                        Ensures-bind _ _ _ (
                          Ensures-set_documents V _ s2 (
                            Ensures-pure _ _ (record {
                              chunks = chunks;
                              are_chunks = refl;
                              rows = w.rows;
                              points = w.points;
                              is_indexed = w.is_indexed;
                              has_rows = w.has_rows;
                              has_calls = w.has_calls;
                              has_document =
                                  ap (mark_succeeded d.id s2.now) w.same_documents
                                  ∙ mark_succeeded-last s.documents d s2.now below;
                              is_valid_row = valid;
                              is_outcome = refl;
                              later = w.later;
                            }))))))
                    (λ _ s2 w. record {
                      chunks = chunks;
                      points = w.points;
                      count = w.count;
                      has_calls = w.has_calls;
                      is_unfinished = pending_row d new w.same_documents;
                    })
                    (write_if_any-Written d chunks _)))))
            (λ _ _. unwritten d s new))))
