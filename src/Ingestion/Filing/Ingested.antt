-- ===== src/Ingestion/Filing/Ingested.antt =====
-- The outcomes of the ingestion of a filing, and the order of its calls.
use mathlib.Core.List.{append_assoc}
use mathlib.Core.Path.{subst}
use juris_mind_ai.Ingestion.Indexing.Points.{indexing_calls}
use juris_mind_ai.Session.Rules.{Ensures-pure, Ensures-gets}
use juris_mind_ai.Ingestion.Rules.{Ensures-raise, Ensures-new_id, Ensures-call}
use juris_mind_ai.Ingestion.Filing.Stored.{unchanged, store_document-Filed, IsUnfinished, Filed}
use juris_mind_ai.Failure.Ensures.{Ensures-or_raise, Ensures-weaken, Ensures-bind, Ensures}
use juris_mind_ai.Ingestion.Filing.{
  unless_known, ingest_filing, scalar_one_or_none, chunk_payload, raw_key_of, skipped_duplicate,
  ingest_new, decision_for, document_of, with_hash, IngestionOutcome,
}
use juris_mind_ai.Base.{
  inl, inr, none, ◌⊎◌, some, ap, ◌∙◌, append-three, refl, take, suc, ℕ, ◌∷◌, [], ◌++◌, ◌<◌, All,
  ◌≡◌,
}
use juris_mind_ai.Chunking.{
  chunk_overlap_tokens, chunk_size_tokens, Chunk, ChunkingError, chunk_document,
}
use juris_mind_ai.Edgar.{document_url, FilingMetadata}
use juris_mind_ai.Ingestion.{
  Failure, parse_document, ChunkPoint, put_object, get_document, ParsedDocument, FiledDocument,
  Call, Stores, List, Uuid, Option, Backends,
}
use juris_mind_ai.Base.Text.{Str, text as lit}
use juris_mind_ai.Base.Result.{Result, ok}

module _ (V : Backends) (filing : FilingMetadata) (raw_bucket : Str) (tenant_id : Option Uuid) where
  -- The first three calls for the bytes that were fetched.
  abbrev pub opening_calls : Str → V.Bytes → List (Call V.Bytes V.Num)
  unfolding lit
  opening_calls url raw =
      get_document url
      ∷ put_object raw_bucket (raw_key_of V filing raw_bucket tenant_id (V.content_hash raw)) raw
          (lit "text/html")
      ∷ parse_document raw
      ∷ []

  -- The row of the document, before it has succeeded.
  abbrev pub new_document : Stores V → Str → V.Bytes → FiledDocument
  new_document s url raw =
      document_of V filing raw_bucket tenant_id s.fresh url (V.content_hash raw)
        (decision_for V filing raw_bucket tenant_id s.documents)

  abbrev pub chunked : ParsedDocument → Result ChunkingError (List Chunk)
  chunked parsed = chunk_document V.encoding parsed chunk_size_tokens chunk_overlap_tokens

  -- The content is known: only the fetch was done.
  pub record Skipped (s : Stores V) (outcome : IngestionOutcome) (s' : Stores V) : Type 0 where
    pub url : Str
    pub raw : V.Bytes
    pub is_url : document_url filing ≡ some url
    pub is_fetched : (V.fetch url s.world).0 ≡ ok raw
    pub existing : FiledDocument
    pub is_known : with_hash (V.content_hash raw) s.documents ≡ existing ∷ []
    pub is_outcome :
        outcome
        ≡ record { document_id = existing.id; status = skipped_duplicate; chunks_created = 0 }
    pub has_calls : s'.calls ≡ s.calls ++ get_document url ∷ []
    pub same_documents : s'.documents ≡ s.documents
    pub same_chunks : s'.chunks ≡ s.chunks
    pub same_fresh : s'.fresh ≡ s.fresh

  -- The content is new: it was stored and parsed, and the document filed after that.
  pub record Ingested (s : Stores V) (outcome : IngestionOutcome) (s' : Stores V) : Type 0 where
    pub url : Str
    pub raw : V.Bytes
    pub is_url : document_url filing ≡ some url
    pub is_fetched : (V.fetch url s.world).0 ≡ ok raw
    pub parsed : ParsedDocument
    pub world : V.World
    pub is_new : with_hash (V.content_hash raw) s.documents ≡ []
    pub is_parsed : V.parse raw ≡ ok parsed
    pub filed :
        Filed V filing raw_bucket tenant_id
          (record s {
            world = world;
            calls = s.calls ++ opening_calls url raw;
            fresh = suc s.fresh;
          })
          (new_document s url raw)
          (chunked parsed)
          outcome
          s'

  -- Where a run raised, and what it had done until then.
  pub data HasStopped (s s' : Stores V) : Type 0 where
    before_fetch : s' ≡ s → HasStopped s s'
    at_fetch :
        (url : Str)
        → s'.calls ≡ s.calls ++ get_document url ∷ []
        → s'.documents ≡ s.documents
        → HasStopped s s'
    after_fetch :
        (url : Str) (raw : V.Bytes) (chunks : List Chunk) (points : List (ChunkPoint V.Num))
        (count : ℕ)
        → s'.calls
          ≡ s.calls
            ++ take count (
                opening_calls url raw
                ++ indexing_calls V
                    (new_document s url raw)
                    (chunk_payload (new_document s url raw))
                    chunks
                    points)
        → IsUnfinished s.documents s'.documents
        → HasStopped s s'

  module _ (s : Stores V) (below : All (λ (e : FiledDocument). e.id < s.fresh) s.documents)
      (url : Str) (raw : V.Bytes) where
    ingest_new-Ingested :
        (w : V.World)
        → document_url filing ≡ some url
        → (V.fetch url s.world).0 ≡ ok raw
        → with_hash (V.content_hash raw) s.documents ≡ []
        → Ensures
            (ingest_new V filing raw_bucket tenant_id url raw
              (record s { world = w; calls = s.calls ++ get_document url ∷ [] }))
            (λ outcome s'. Ingested s outcome s')
            (λ _ s'. HasStopped s s')
    unfolding ingest_new document_of
    ingest_new-Ingested w is_url is_fetched new = Ensures-bind _ _ _ (
        Ensures-call V _ _ _
          (λ _ w1 _. Ensures-bind _ _ _ (
            Ensures-gets _ _ (
              Ensures-bind _ _ _ (
                Ensures-call V _ _ _
                  (λ parsed w2 is_parsed. Ensures-bind _ _ _ (
                    Ensures-new_id V _ (
                      Ensures-weaken _
                        (λ outcome s' f. record {
                          url = url;
                          raw = raw;
                          is_url = is_url;
                          is_fetched = is_fetched;
                          parsed = parsed;
                          world = w2;
                          is_new = new;
                          is_parsed = is_parsed;
                          filed =
                              subst
                                (λ k.
                                  Filed V filing raw_bucket tenant_id
                                    (record s { world = w2; calls = k; fresh = suc s.fresh })
                                    (new_document s url raw) (chunked parsed) outcome s')
                                (append-three s.calls _ _ _) f;
                        })
                        (λ _ s' f.
                          after_fetch url raw f.chunks f.points (suc (suc (suc f.count)))
                            (f.has_calls
                              ∙ ap
                                  (λ k.
                                    k
                                    ++ take f.count (
                                        indexing_calls V (new_document s url raw)
                                          (chunk_payload (new_document s url raw)) f.chunks
                                          f.points))
                                  (append-three s.calls _ _ _)
                              ∙ append_assoc s.calls (opening_calls url raw) _)
                            f.is_unfinished)
                        (store_document-Filed V filing raw_bucket tenant_id _ (chunked parsed) _
                          refl below))))
                  (λ _ w2.
                    after_fetch url raw [] [] 3 (append-three s.calls _ _ _) (unchanged refl))))))
          (λ _ w1.
            after_fetch url raw [] [] 2 (append_assoc s.calls (_ ∷ []) (_ ∷ [])) (unchanged refl)))

  Ensures-scalar_one_or_none :
      {Q : Option FiledDocument → Stores V → Type 0} {E : Failure → Stores V → Type 0}
      (ds : List FiledDocument) (s : Stores V)
      → (ds ≡ [] → Q none s)
      → ((d : FiledDocument) → ds ≡ d ∷ [] → Q (some d) s)
      → ((e : Failure) → E e s)
      → Ensures (scalar_one_or_none ds s) Q E
  unfolding scalar_one_or_none
  Ensures-scalar_one_or_none [] s q q' e = Ensures-pure _ s (q refl)
  Ensures-scalar_one_or_none (d ∷ []) s q q' e = Ensures-pure _ s (q' d refl)
  Ensures-scalar_one_or_none (d ∷ d' ∷ ds) s q q' e = Ensures-raise _ s (e _)

  -- Where the ids of the documents are below the next one, the ingestion of a filing that returns
  -- has either only fetched a document whose hash exactly one row has, and changed no row, or it
  -- has stored the raw bytes under their key, then parsed them, then added one succeeded document
  -- with the version after those of its ticker, type and date, and then, if there are chunks,
  -- embedded, encoded and upserted them, with one row and one point for each. When it raises, its
  -- calls are a beginning of this sequence, and no document was added but at most one that is
  -- still pending.
  pub ingest_filing-Ingested :
      (s : Stores V)
      → All (λ (e : FiledDocument). e.id < s.fresh) s.documents
      → Ensures
          (ingest_filing V filing raw_bucket tenant_id s)
          (λ outcome s'. Skipped s outcome s' ⊎ Ingested s outcome s')
          (λ _ s'. HasStopped s s')
  unfolding ingest_filing unless_known
  ingest_filing-Ingested s below = Ensures-bind _ _ s (
      Ensures-or_raise _ (document_url filing) s
        (λ url is_url. Ensures-bind _ _ s (
          Ensures-call V _ _ s
            (λ raw w is_fetched. Ensures-bind _ _ _ (
              Ensures-gets _ _ (
                Ensures-bind _ _ _ (
                  Ensures-scalar_one_or_none (with_hash (V.content_hash raw) s.documents) _
                    (λ new.
                      Ensures-weaken _ (λ _ _ h. inr h) (λ _ _ h. h)
                        (ingest_new-Ingested s below url raw w is_url is_fetched new))
                    (λ d known. Ensures-pure _ _ (
                      inl (record {
                        url = url;
                        raw = raw;
                        is_url = is_url;
                        is_fetched = is_fetched;
                        existing = d;
                        is_known = known;
                        is_outcome = refl;
                        has_calls = refl;
                        same_documents = refl;
                        same_chunks = refl;
                        same_fresh = refl;
                      })))
                    (λ _. after_fetch url raw [] [] 1 refl (unchanged refl))))))
            (λ _ w. at_fetch url refl refl)))
        (λ _. before_fetch refl))
