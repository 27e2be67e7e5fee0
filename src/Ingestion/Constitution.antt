-- ===== src/Ingestion/Constitution.antt =====
-- `ingest_constitution_part` and `extract_pdf_page_text` of
-- tradegraph/src/rag/ingestion/india_code.py. The text of a page is pypdf's.
pub mod Known
use juris_mind_ai.Base.{ℕ, zero, suc, ◌+◌, ◌-◌, none, some, List, [], ◌∷◌, ◌++◌, map, length}
use juris_mind_ai.Base.Result.{Result, ok, raised}
use juris_mind_ai.Base.Result as R
use juris_mind_ai.Base.Text.{Str, text as lit, join}
use juris_mind_ai.Chunking.{Chunk, chunk_document, chunk_size_tokens, chunk_overlap_tokens}
use juris_mind_ai.Document.{ParsedDocument}
use juris_mind_ai.Failure.{Exec, Failure, ◌>>=◌, ◌>>◌, pure, gets, from_result}
use juris_mind_ai.IndiaCode.Articles.{parse_articles}
use juris_mind_ai.IndiaCode.{slice_between_markers}
use juris_mind_ai.Ingestion.Filing.{mark_succeeded, or_chunking_error}
use juris_mind_ai.Ingestion.Indexing.{write_chunks, chunk_payload}
use juris_mind_ai.Ingestion.{
  Backends, Stores, put_object, call, new_id, set_documents, flush, FiledDocument,
  build_raw_document_key, type_value,
}
use juris_mind_ai.Payload.{Payload, str, int}
use juris_mind_ai.Rows.{Uuid, IngestionStatus, succeeded, pending, constitution}

abbrev pub constitution_act_code : Str
unfolding lit
constitution_act_code = lit "COI"

abbrev pub constitution_authority_tier : ℕ
constitution_authority_tier = 1

pub record ConstitutionIngestionOutcome : Type 0 where
  pub document_id : Uuid
  pub status : IngestionStatus
  pub chunks_created : ℕ
  pub articles_parsed : ℕ

module _ {Bytes : Type 0} (page_text : Bytes → ℕ → Result Failure Str) where
  -- The texts of `count` pages from the page `i` on.
  pub page_texts : Bytes → ℕ → ℕ → Result Failure (List Str)
  page_texts pdf i zero = ok []
  page_texts pdf i (suc count) =
      R.◌>>=◌ (page_text pdf i) (λ t. R.◌>>=◌ (page_texts pdf (suc i) count) (λ ts. ok (t ∷ ts)))

  unfoldable pub extract_pdf_page_text : Bytes → ℕ → ℕ → Result Failure Str
  unfolding page_texts join lit
  extract_pdf_page_text pdf start_page end_page =
      R.◌>>=◌ (page_texts pdf start_page (end_page - start_page)) (λ ts. ok (join (lit "\n") ts))

-- The payload of a chunk's point.
abbrev pub constitution_payload : FiledDocument → Uuid → Chunk → Payload
unfolding lit chunk_payload
constitution_payload document id chunk =
    chunk_payload document id chunk
    ++ (lit "act_code", str constitution_act_code)
      ∷ (lit "authority_tier", int constitution_authority_tier)
      ∷ []

-- What the function is called with, but for the services.
pub record Part (Bytes : Type 0) : Type 0 where
  pub pdf_bytes : Bytes
  pub source_url : Str
  pub start_page : ℕ
  pub end_page : ℕ
  pub part_start_marker : Str
  pub part_end_marker : Str
  pub min_article : ℕ
  pub max_article : ℕ
  pub raw_bucket : Str
  -- the date's ordinal
  pub edition_date : ℕ

module _ (V : Backends) (page_text : V.Bytes → ℕ → Result Failure Str) (part : Part V.Bytes) where
  unfoldable pub raw_key_of : Str → Str
  unfolding lit build_raw_document_key
  raw_key_of content_hash =
      build_raw_document_key (lit "legislative_gov_in") constitution_act_code
        (type_value constitution) content_hash (lit "pdf")

  unfoldable pub document_of : Uuid → Str → FiledDocument
  unfolding lit build_raw_document_key
  document_of id content_hash = record {
    id = id;
    tenant_id = none;
    company = lit "Constitution of India";
    ticker = constitution_act_code;
    document_type = constitution;
    filing_date = part.edition_date;
    source = lit "legislative_gov_in";
    source_url = part.source_url;
    act_code = some constitution_act_code;
    authority_tier = some constitution_authority_tier;
    version = 1;
    supersedes_id = none;
    content_hash = content_hash;
    raw_object_key = raw_key_of content_hash;
    raw_content_type = lit "application/pdf";
    ingestion_status = pending;
    ingested_at = none;
  }

  -- From `session.add(document)` on.
  unfoldable pub store_articles :
      FiledDocument → ParsedDocument → Exec (Stores V) ConstitutionIngestionOutcome
  unfolding or_chunking_error mark_succeeded
  store_articles document parsed = do
    set_documents V (λ ds. ds ++ document ∷ [])
    flush V
    chunks ←
        or_chunking_error (chunk_document V.encoding parsed chunk_size_tokens chunk_overlap_tokens)
    write_chunks V document (constitution_payload document) chunks
    now ← gets (λ (s : Stores V). s.now)
    set_documents V (mark_succeeded document.id now)
    pure (record {
      document_id = document.id;
      status = succeeded;
      chunks_created = length chunks;
      articles_parsed = length parsed.sections;
    })

  unfoldable pub ingest_constitution_part : Exec (Stores V) ConstitutionIngestionOutcome
  unfolding lit extract_pdf_page_text
  ingest_constitution_part = do
    let content_hash = V.content_hash part.pdf_bytes
    let raw_key = raw_key_of content_hash
    call V (put_object part.raw_bucket raw_key part.pdf_bytes (lit "application/pdf"))
        (V.store part.raw_bucket raw_key part.pdf_bytes (lit "application/pdf"))
    raw_text ←
        from_result (extract_pdf_page_text page_text part.pdf_bytes part.start_page part.end_page)
    part_text ←
        from_result (slice_between_markers raw_text part.part_start_marker part.part_end_marker)
    parsed ← from_result (parse_articles part_text part.min_article part.max_article)
    id ← new_id V
    store_articles (document_of id content_hash) parsed
