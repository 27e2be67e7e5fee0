-- ===== src/Ingestion.antt =====
-- What the ingestion of documents runs against, for tradegraph/src/rag/ingestion/pipeline.py and
-- india_code.py: the services as an interface, their calls in a log, and the rows of the two tables
-- that it writes. tradegraph/src/data/object_storage.py names the raw object.
pub mod Rules
pub mod Indexing
pub mod Filing
pub mod Constitution
use juris_mind_ai.Base.{
  ℕ, suc, Bool, true, false, ◌&&◌, Option, none, some, List, [], ◌∷◌, ◌++◌, map, ◌==◌, nat_eq,
  list_eq, contains, nodup,
}
use juris_mind_ai.Base.Result.{Result, ok, raised}
use juris_mind_ai.Base.Text.{Str, text as lit, upper, lstrip_of}
use juris_mind_ai.Chunking.{Encoding}
use juris_mind_ai.Document.{ParsedDocument}
use juris_mind_ai.Embedder.{PostError, Embeddings}
use juris_mind_ai.Failure.{Failure, Exec, integrity_error}
use juris_mind_ai.Payload.{Payload}
use juris_mind_ai.Rows.Constraints.{all}
use juris_mind_ai.Rows.{
  Uuid, DocumentType, form_10k, form_10q, form_8k, annual_report, earnings_release,
  investor_presentation, earnings_transcript, news, constitution, central_act, judgment_sc,
  judgment_hc, notification, IngestionStatus, ChunkType,
}

-- `document_type.value`
abbrev pub type_value : DocumentType → Str
unfolding lit
type_value form_10k = lit "10-K"
type_value form_10q = lit "10-Q"
type_value form_8k = lit "8-K"
type_value annual_report = lit "annual_report"
type_value earnings_release = lit "earnings_release"
type_value investor_presentation = lit "investor_presentation"
type_value earnings_transcript = lit "earnings_transcript"
type_value news = lit "news"
type_value DocumentType.other = lit "other"
type_value constitution = lit "constitution"
type_value central_act = lit "central_act"
type_value judgment_sc = lit "judgment_sc"
type_value judgment_hc = lit "judgment_hc"
type_value notification = lit "notification"

-- Dates are ordinals.
pub record FiledDocument : Type 0 where
  pub id : Uuid
  pub tenant_id : Option Uuid
  pub company : Str
  pub ticker : Str
  pub document_type : DocumentType
  pub filing_date : ℕ
  pub source : Str
  pub source_url : Str
  pub act_code : Option Str
  pub authority_tier : Option ℕ
  pub version : ℕ
  pub supersedes_id : Option Uuid
  pub content_hash : Str
  pub raw_object_key : Str
  pub raw_content_type : Str
  pub ingestion_status : IngestionStatus
  pub ingested_at : Option ℕ

pub record IndexedChunk : Type 0 where
  pub id : Uuid
  pub document_id : Uuid
  pub chunk_index : ℕ
  pub chunk_type : ChunkType
  pub section : Option Str
  pub text : Str
  pub token_count : ℕ
  pub table_title : Option Str
  pub table_headers : Option (List Str)
  pub table_rows : Option (List (List Str))
  pub embedding_model : Str
  pub embedding_dimension : ℕ
  pub qdrant_point_id : Str

-- `build_raw_document_key`
unfoldable pub build_raw_document_key : Str → Str → Str → Str → Str → Str
unfolding lit upper lstrip_of
build_raw_document_key source ticker document_type content_hash extension =
    lit "raw/"
    ++ (source
        ++ (lit "/"
            ++ (upper ticker
                ++ (lit "/"
                    ++ (document_type
                        ++ (lit "/" ++ (content_hash ++ (lit "." ++ lstrip_of b'.' extension))))))))

module _ (Num : Type 0) where
  pub record SparseVectorData : Type 0 where
    pub indices : List ℕ
    pub values : List Num

  pub record ChunkPoint : Type 0 where
    pub point_id : Str
    pub dense_vector : List Num
    pub sparse_indices : List ℕ
    pub sparse_values : List Num
    pub payload : Payload

module _ (Bytes Num : Type 0) where
  -- A call of a service or of the parser, with what it was given.
  pub data Call : Type 0 where
    get_document : Str → Call
    put_object : Str → Str → Bytes → Str → Call
    parse_document : Bytes → Call
    embed : List Str → Call
    encode : List Str → Call
    upsert : List (ChunkPoint Num) → Call

-- The services may answer differently each time, so each takes the world outside and returns it.
pub record Backends : Type 1 where
  pub World : Type 0
  pub Bytes : Type 0
  pub Num : Type 0
  -- `compute_content_hash`
  pub content_hash : Bytes → Str
  -- `edgar_client.fetch_filing_document`
  pub fetch : Str → World → Result Failure Bytes × World
  -- the storage client's `put_object`, by bucket, key, body and content type
  pub store : Str → Str → Bytes → Str → World → Result Failure (Unit {0}) × World
  -- `parse_filing_html`
  pub parse : Bytes → Result Failure ParsedDocument
  pub encoding : Encoding
  -- the embedder's model, dimension, batch size and POST
  pub model : Str
  pub dimension : ℕ
  pub batch_size : ℕ
  pub post : List Str → World → Result PostError (Embeddings Num) × World
  -- fastembed's `passage_embed`
  pub passage_embed : List Str → World → Result Failure (List (SparseVectorData Num)) × World
  -- the vector store's client
  pub upsert_points : List (ChunkPoint Num) → World → Result Failure (Unit {0}) × World

module _ (V : Backends) where
  open V use {World, Bytes, Num}

  pub record Stores : Type 0 where
    pub world : World
    pub calls : List (Call Bytes Num)
    pub documents : List FiledDocument
    pub chunks : List IndexedChunk
    pub fresh : Uuid
    pub now : ℕ

  module _ {A : Type 0} where
    unfoldable pub call : Call Bytes Num → (World → Result Failure A × World) → Exec Stores A
    call c f s = let (r, w) = f s.world in (r, record s { world = w; calls = s.calls ++ c ∷ [] })

  unfoldable pub new_id : Exec Stores Uuid
  new_id s = (ok s.fresh, record s { fresh = suc s.fresh })

  unfoldable pub set_documents : (List FiledDocument → List FiledDocument) → Exec Stores (Unit {0})
  set_documents f s = (ok tt, record s { documents = f s.documents })

  -- `session.add_all(chunk_rows)`
  unfoldable pub add_chunks : List IndexedChunk → Exec Stores (Unit {0})
  add_chunks rows s = (ok tt, record s { chunks = s.chunks ++ rows })

  pub flush_with : Bool → Exec Stores (Unit {0})
  unfolding lit
  flush_with true s = (ok tt, s)
  flush_with false s = (raised (integrity_error (lit "constraint violated")), s)

-- The constraints of the two tables that the flush checks: the unique hash and the foreign keys.
supersedes_fits : List Uuid → Option Uuid → Bool
unfolding contains
supersedes_fits ids none = true
supersedes_fits ids (some id) = contains ids id

unfoldable pub hashes : List FiledDocument → List Str
hashes [] = []
hashes (d ∷ ds) = d.content_hash ∷ hashes ds

unfoldable pub is_valid : List FiledDocument → List IndexedChunk → Bool
unfolding supersedes_fits nodup hashes all contains
is_valid documents chunks =
    let ids = map (λ d. d.id) documents in
    nodup (hashes documents)
    && (all (λ d. supersedes_fits ids d.supersedes_id) documents
        && all (λ c. contains ids c.document_id) chunks)

module _ (V : Backends) where
  unfoldable pub flush : Exec (Stores V) (Unit {0})
  unfolding flush_with is_valid
  flush s = flush_with V (is_valid s.documents s.chunks) s
