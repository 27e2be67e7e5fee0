-- ===== src/Ingestion/Filing.antt =====
-- `ingest_filing` of tradegraph/src/rag/ingestion/pipeline.py.
pub mod Stored
pub mod Ingested
pub mod Again
pub mod Corpus
use juris_mind_ai.Base.{
  ℕ, Bool, true, false, Option, none, some, List, [], ◌∷◌, ◌++◌, map, ◌==◌, nat_eq, list_eq,
  if◌then◌else◌, ◌&&◌, length,
}
use juris_mind_ai.Base.Result.{Result, ok, raised}
use juris_mind_ai.Base.Text.{Str, text as lit}
use juris_mind_ai.Chunking.{
  Chunk, overlap_too_large, special_token, ChunkingError, chunk_document, chunk_size_tokens,
  chunk_overlap_tokens,
}
use juris_mind_ai.Dedup.{ExistingVersion, VersionDecision, determine_version}
use juris_mind_ai.Edgar.{FilingMetadata, document_url}
use juris_mind_ai.Failure.{
  Exec, Failure, ◌>>=◌, ◌>>◌, pure, raise, gets, or_raise, value_error, other_error,
}
use juris_mind_ai.Ingestion.Indexing.{write_chunks, chunk_payload}
use juris_mind_ai.Ingestion.{
  Backends, Stores, get_document, put_object, parse_document, call, new_id, set_documents, flush,
  FiledDocument, build_raw_document_key, type_value,
}
use juris_mind_ai.Rows.{Uuid, DocumentType, IngestionStatus, succeeded, skipped_duplicate, pending}

pub record IngestionOutcome : Type 0 where
  pub document_id : Uuid
  pub status : IngestionStatus
  pub chunks_created : ℕ

-- `where(Document.content_hash == content_hash)`
unfoldable pub with_hash : Str → List FiledDocument → List FiledDocument
with_hash h [] = []
with_hash h (d ∷ ds) = let rest = with_hash h ds in if d.content_hash == h then d ∷ rest else rest

-- `scalar_one_or_none()`
scalar_one_or_none : {S : Type 0} → List FiledDocument → Exec S (Option FiledDocument)
unfolding pure raise lit
scalar_one_or_none [] = pure none
scalar_one_or_none (d ∷ []) = pure (some d)
scalar_one_or_none (d ∷ e ∷ rest) = raise (other_error (lit "MultipleResultsFound"))

-- `primary_document.rsplit(".", 1)[-1]`; `none` without a dot.
after_last_dot : Str → Option Str
after_last_dot [] = none
after_last_dot (c ∷ s) = elim (after_last_dot s) [
  | some ext ↦ some ext
  | none ↦ if c == b'.' then some s else none
]

unfoldable pub extension_of : Str → Str
unfolding after_last_dot lit
extension_of name = elim (after_last_dot name) [ some ext ↦ ext | none ↦ lit "htm" ]

abbrev pub same_type : DocumentType → DocumentType → Bool
unfolding type_value
same_type a b = type_value a == type_value b

-- `_existing_versions`
unfoldable pub existing_versions :
    Str → DocumentType → ℕ → List FiledDocument → List ExistingVersion
existing_versions ticker document_type filing_date [] = []
existing_versions ticker document_type filing_date (d ∷ ds) =
    let rest = existing_versions ticker document_type filing_date ds in
    if d.ticker == ticker && same_type d.document_type document_type && d.filing_date == filing_date
    then record { document_id = d.id; version = d.version; content_hash = d.content_hash } ∷ rest
    else rest

-- `document.ingestion_status = SUCCEEDED; document.ingested_at = now`
unfoldable pub mark_succeeded : Uuid → ℕ → List FiledDocument → List FiledDocument
mark_succeeded id now [] = []
mark_succeeded id now (d ∷ ds) =
    let rest = mark_succeeded id now ds in
    if d.id == id
    then record d { ingestion_status = succeeded; ingested_at = some now } ∷ ds
    else d ∷ rest

chunking_failure : ChunkingError → Failure
unfolding lit
chunking_failure (overlap_too_large overlap size) = other_error (lit "ChunkingError")
chunking_failure special_token = value_error (lit "disallowed special token")

unfoldable pub or_chunking_error :
    {S : Type 0} → Result ChunkingError (List Chunk) → Exec S (List Chunk)
unfolding pure raise chunking_failure
or_chunking_error (ok chunks) = pure chunks
or_chunking_error (raised e) = raise (chunking_failure e)

module _ (V : Backends) (filing : FilingMetadata) (raw_bucket : Str) (tenant_id : Option Uuid) where
  -- `if chunks:`
  write_if_any : FiledDocument → List Chunk → Exec (Stores V) (Unit {0})
  write_if_any document [] = pure tt
  write_if_any document (c ∷ cs) = write_chunks V document (chunk_payload document) (c ∷ cs)

  -- From `session.add(document)` on.
  unfoldable pub store_document :
      FiledDocument → Result ChunkingError (List Chunk) → Exec (Stores V) IngestionOutcome
  unfolding write_if_any or_chunking_error mark_succeeded
  store_document document chunked = do
    set_documents V (λ ds. ds ++ document ∷ [])
    flush V
    chunks ← or_chunking_error chunked
    write_if_any document chunks
    now ← gets (λ (s : Stores V). s.now)
    set_documents V (mark_succeeded document.id now)
    pure (record { document_id = document.id; status = succeeded; chunks_created = length chunks })

  unfoldable pub raw_key_of : Str → Str
  unfolding lit build_raw_document_key extension_of
  raw_key_of content_hash =
      build_raw_document_key (lit "sec_edgar") filing.ticker (type_value filing.document_type)
        content_hash (extension_of filing.primary_document)

  unfoldable pub document_of : Uuid → Str → Str → VersionDecision → FiledDocument
  unfolding lit build_raw_document_key extension_of
  document_of id url content_hash decision = record {
    id = id;
    tenant_id = tenant_id;
    company = filing.company_name;
    ticker = filing.ticker;
    document_type = filing.document_type;
    filing_date = filing.filing_date;
    source = lit "sec_edgar";
    source_url = url;
    act_code = none;
    authority_tier = none;
    version = decision.version;
    supersedes_id = decision.supersedes_id;
    content_hash = content_hash;
    raw_object_key = raw_key_of content_hash;
    raw_content_type = lit "text/html";
    ingestion_status = pending;
    ingested_at = none;
  }

  -- The version against the documents of the same ticker, type and date.
  unfoldable pub decision_for : List FiledDocument → VersionDecision
  unfolding existing_versions
  decision_for documents =
      determine_version
        (existing_versions filing.ticker filing.document_type filing.filing_date documents)

  -- From the raw key on.
  unfoldable pub ingest_new : Str → V.Bytes → Exec (Stores V) IngestionOutcome
  ingest_new url raw_bytes = do
    let content_hash = V.content_hash raw_bytes
    let raw_key = raw_key_of content_hash
    call V (put_object raw_bucket raw_key raw_bytes (lit "text/html"))
        (V.store raw_bucket raw_key raw_bytes (lit "text/html"))
    decision ← gets (λ (s : Stores V). decision_for s.documents)
    parsed ← call V (parse_document raw_bytes) (λ w. (V.parse raw_bytes, w))
    id ← new_id V
    store_document (document_of id url content_hash decision)
        (chunk_document V.encoding parsed chunk_size_tokens chunk_overlap_tokens)

  -- `if existing is not None:`
  unfoldable pub unless_known :
      Str → V.Bytes → Option FiledDocument → Exec (Stores V) IngestionOutcome
  unless_known url raw_bytes none = ingest_new url raw_bytes
  unless_known url raw_bytes (some existing) =
      pure (record { document_id = existing.id; status = skipped_duplicate; chunks_created = 0 })

  unfoldable pub ingest_filing : Exec (Stores V) IngestionOutcome
  unfolding with_hash scalar_one_or_none lit
  ingest_filing = do
    url ← or_raise (value_error (lit "invalid literal for int()")) (document_url filing)
    raw_bytes ← call V (get_document url) (V.fetch url)
    matching ← gets (λ (s : Stores V). with_hash (V.content_hash raw_bytes) s.documents)
    existing ← scalar_one_or_none matching
    unless_known url raw_bytes existing
