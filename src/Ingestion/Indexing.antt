-- ===== src/Ingestion/Indexing.antt =====
-- The part that ingest_filing of tradegraph/src/rag/ingestion/pipeline.py and
-- ingest_constitution_part of india_code.py have in common: embedding and encoding the chunks, their
-- rows and points, and `encode_documents` of tradegraph/src/rag/bm25/sparse_encoder.py.
pub mod Points
use juris_mind_ai.Base.{ℕ, Option, none, some, List, [], ◌∷◌, map}
use juris_mind_ai.Base.Text.{Str, text as lit}
use juris_mind_ai.Chunking.{Chunk, text_chunk, table_chunk, chunk_text}
use juris_mind_ai.Embedder.{EmbeddingResult, embed_texts}
use juris_mind_ai.Failure.{Exec, ◌>>=◌, ◌>>◌, pure, raise, value_error}
use juris_mind_ai.Ingestion.{
  Backends, Stores, Call, embed, encode, upsert, call, new_id, add_chunks, FiledDocument,
  IndexedChunk, ChunkPoint, SparseVectorData, type_value,
}
use juris_mind_ai.Payload.{Payload, Value, str, int, null, show_uuid}
use juris_mind_ai.Rows.{Uuid, ChunkType}

-- What both classes of chunks have.
abbrev pub chunk_index_of : Chunk → ℕ
chunk_index_of (text_chunk c) = c.chunk_index
chunk_index_of (table_chunk c) = c.chunk_index

abbrev pub chunk_type_of : Chunk → ChunkType
chunk_type_of (text_chunk c) = ChunkType.text
chunk_type_of (table_chunk c) = ChunkType.table

abbrev pub section_of : Chunk → Option Str
section_of (text_chunk c) = some c.section
section_of (table_chunk c) = c.section

abbrev pub token_count_of : Chunk → ℕ
token_count_of (text_chunk c) = c.token_count
token_count_of (table_chunk c) = c.token_count

-- The three columns of a table, `None` for a text.
abbrev pub table_title_of : Chunk → Option Str
table_title_of (text_chunk c) = none
table_title_of (table_chunk c) = c.title

abbrev pub table_headers_of : Chunk → Option (List Str)
table_headers_of (text_chunk c) = none
table_headers_of (table_chunk c) = some c.headers

abbrev pub table_rows_of : Chunk → Option (List (List Str))
table_rows_of (text_chunk c) = none
table_rows_of (table_chunk c) = some c.rows

abbrev pub type_name : Chunk → Str
unfolding lit
type_name (text_chunk c) = lit "text"
type_name (table_chunk c) = lit "table"

abbrev pub or_null : Option Str → Value
or_null none = null
or_null (some s) = str s

abbrev pub uuid_or_null : Option Uuid → Value
unfolding show_uuid
uuid_or_null none = null
uuid_or_null (some id) = str (show_uuid id)

-- The payload of a chunk's point.
unfoldable pub chunk_payload : FiledDocument → Uuid → Chunk → Payload
unfolding lit show_uuid
chunk_payload document id chunk =
    (lit "company", str document.company)
    ∷ (lit "ticker", str document.ticker)
    ∷ (lit "document_type", str (type_value document.document_type))
    ∷ (lit "filing_date_ts", int document.filing_date)
    ∷ (lit "tenant_id", uuid_or_null document.tenant_id)
    ∷ (lit "document_id", str (show_uuid document.id))
    ∷ (lit "chunk_id", str (show_uuid id))
    ∷ (lit "text", str (chunk_text chunk))
    ∷ (lit "section", or_null (section_of chunk))
    ∷ (lit "chunk_type", str (type_name chunk))
    ∷ []

module _ (V : Backends) where
  open V use {Num}

  unfoldable pub encode_documents : List Str → Exec (Stores V) (List (SparseVectorData Num))
  encode_documents [] = pure []
  encode_documents (t ∷ ts) = call V (encode (t ∷ ts)) (V.passage_embed (t ∷ ts))

  module _ (document : FiledDocument) (payload_of : Uuid → Chunk → Payload) where
    abbrev pub chunk_row : Uuid → Chunk → EmbeddingResult Num → IndexedChunk
    unfolding show_uuid
    chunk_row id chunk embedding = record {
      id = id;
      document_id = document.id;
      chunk_index = chunk_index_of chunk;
      chunk_type = chunk_type_of chunk;
      section = section_of chunk;
      text = chunk_text chunk;
      token_count = token_count_of chunk;
      table_title = table_title_of chunk;
      table_headers = table_headers_of chunk;
      table_rows = table_rows_of chunk;
      embedding_model = embedding.model;
      embedding_dimension = embedding.dimension;
      qdrant_point_id = show_uuid id;
    }

    abbrev pub chunk_point :
        Uuid → Chunk → EmbeddingResult Num → SparseVectorData Num → ChunkPoint Num
    unfolding show_uuid
    chunk_point id chunk embedding sparse = record {
      point_id = show_uuid id;
      dense_vector = embedding.vector;
      sparse_indices = sparse.indices;
      sparse_values = sparse.values;
      payload = payload_of id chunk;
    }

    -- The loop over `zip(chunks, embeddings, sparse_vectors, strict=True)`.
    unfoldable pub index_chunks :
        List Chunk
        → List (EmbeddingResult Num)
        → List (SparseVectorData Num)
        → Exec (Stores V) (List IndexedChunk × List (ChunkPoint Num))
    index_chunks [] [] [] = pure ([], [])
    index_chunks (c ∷ cs) (e ∷ es) (v ∷ vs) = do
      id ← new_id V
      (rows, points) ← index_chunks cs es vs
      pure (chunk_row id c e ∷ rows, chunk_point id c e v ∷ points)
    index_chunks _ _ _ = raise (value_error (lit "zip() argument is shorter"))

    -- From `embed_texts` to `upsert_chunks`.
    unfoldable pub write_chunks : List Chunk → Exec (Stores V) (Unit {0})
    write_chunks chunks = do
      let texts = map chunk_text chunks
      embeddings ←
          call V (embed texts) (embed_texts Num V.model V.dimension V.batch_size V.post texts)
      sparse_vectors ← encode_documents texts
      (rows, points) ← index_chunks chunks embeddings sparse_vectors
      add_chunks V rows
      call V (upsert points) (V.upsert_points points)
