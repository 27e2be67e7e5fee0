-- ===== src/Lib.antt =====
-- A model of TradeGraph, the research assistant under tradegraph/ of this repository, and what is
-- proved of it.
--
-- The API writes a job as PENDING and enqueues it; the worker runs it and ends it as SUCCEEDED or
-- FAILED; the API lists, shows, streams and deletes jobs.
--
-- A job answers a query from a corpus of documents. Ingestion cuts parsed documents into chunks
-- and stores them; `run_research` plans, splits the query into sub-questions, searches and
-- extracts evidence for each, has the evidence verified, has a report drafted, and then validates
-- each drafted claim against its evidence. The report that is returned is put together from the
-- validated claims alone.
--
-- Which file models what (paths from the repository's root):
--   Document, Chunking      tradegraph/src/rag/ingestion/parser.py (its value classes) and
--                           tradegraph/src/rag/chunking/chunker.py
--   Parser                  tradegraph/src/rag/ingestion/parser.py: sections and tables, from what
--                           BeautifulSoup finds
--   Dedup                   tradegraph/src/rag/ingestion/dedup.py
--   Score, Fusion           tradegraph/src/rag/hybrid/fusion.py; `Score` stands for Python's floats
--   Filters                 build_metadata_filter of tradegraph/src/rag/vector/qdrant_store.py
--   Schemas, Nodes          tradegraph/src/graph/schemas.py and nodes.py
--   Rows                    tradegraph/src/models/orm.py: rows, foreign keys, the key of
--                           claim_evidence
--   Payload                 the payload dict of a search hit, and `uuid.UUID`
--   Failure, Session        exceptions, and the database session with the services of a job
--   SubQuestion, ClaimCheck, Research
--                           tradegraph/src/graph/pipeline.py: _research_sub_question, the loop over
--                           the drafted claims, and run_research
--   Worker                  tradegraph/src/graph/tasks.py: _run_research_job
--   Jobs                    tradegraph/apps/api/routers/jobs.py: deletion, the history and the event
--                           stream; Jobs/Responses: creation and reading, with the claims
--   Embedder                tradegraph/src/rag/embeddings/ollama_embedder.py
--   Edgar                   tradegraph/src/rag/ingestion/sec_edgar.py: the listing of filings, their
--                           URLs and the pace of requests
--   Ingestion               the stores of tradegraph/src/rag/ingestion/pipeline.py and india_code.py,
--                           and build_raw_document_key of tradegraph/src/data/object_storage.py;
--                           Filing: ingest_filing; Constitution: ingest_constitution_part;
--                           Indexing: what both do with the chunks, and
--                           tradegraph/src/rag/bm25/sparse_encoder.py
--   IndiaCode               the text of the Constitution, tradegraph/src/rag/ingestion/india_code.py
--   Queries                 what a query may choose about the order of its rows
--   LlmClient               tradegraph/src/graph/llm_client.py
--   Prompts                 tradegraph/src/prompts/schema.py; Loader: tradegraph/src/prompts/loader.py
--   StrFormat               Python's `str.format`, on templates whose fields are names
--   PromptRunner            tradegraph/src/graph/prompt_runner.py, which puts the two together as the
--                           `run` of `Services`; PerCallLLMRecord of
--                           tradegraph/src/models/run_manifest.py
--   RunManifest             the configuration of a run and its cache key, the same file
--   Retriever               tradegraph/src/rag/hybrid/retriever.py
--   Reranker                tradegraph/apps/reranker/main.py
--   RerankerClient          tradegraph/src/rag/reranking/reranker_client.py
--   Base                    shared types, lists, dicts, texts, sorting
--   Tests                   runs at concrete data
--
-- How it is modelled. Text is a list of code points. A call that may raise is `Exec S A`, a
-- function from a state to a result and a state; what was written before an exception stays
-- written, as in a session that is not rolled back. The retriever, the model and the progress
-- callback are the fields of `Services`: they may answer anything, raise anything and keep a
-- state of their own. The retriever, the worker and the reranker have such parameters too: the
-- encoders, the store, the queue and one call of the model; `services_with` of PromptRunner
-- makes `Services` of the model's client, over a parameter for one POST. The attempts of the
-- client and of the embedder are counted, and their waits left out. What the worker sets up
-- before the transaction is a parameter that may raise. The worker's transaction is a session
-- that starts from the committed rows and replaces them at the commit; the progress that other
-- sessions commit meanwhile is a log, applied to the job's row at the end. An event stream is
-- modelled on the list of the rows that its polls find. A UUID is its number, and new ones come
-- from a counter. The tokenizer, which may refuse a text, and the floating-point numbers are
-- parameters; of the latter's order only `IsOrdered` is assumed, where a theorem says so. The
-- loop of the chunker runs on fuel, as many rounds as there are tokens, which is enough because
-- each round moves on by at least one token; the reranker's loop over batches runs on as many
-- rounds as there are passages. The loops over the text of the Constitution run on as many
-- rounds as there are characters. Ingestion keeps a log of the calls of the services, so that
-- their order can be stated; dates are ordinals. The order in which a query returns its rows is
-- `Sql` of Queries: any order that the ORDER BY of the query allows, and one for each query.
--
-- Not modelled: what travels over HTTP, Celery, the Neo4j, MinIO and Qdrant clients, HTML,
-- configuration, metrics, migrations and the web front end, which are I/O or glue; of
-- `PromptRepository` the listings `latest_version`, `nodes` and `versions`.
pub mod Base
pub mod Document
pub mod Parser
pub mod Score
pub mod Failure
pub mod Schemas
pub mod Filters
pub mod Rows
pub mod Payload
pub mod Nodes
pub mod Session
pub mod StrFormat
pub mod SubQuestion
pub mod ClaimCheck
pub mod Research
pub mod Chunking
pub mod Fusion
pub mod Jobs
pub mod Worker
pub mod Reranker
pub mod RerankerClient
pub mod Queries
pub mod Retriever
pub mod Dedup
pub mod Embedder
pub mod Edgar
pub mod Ingestion
pub mod IndiaCode
pub mod LlmClient
pub mod Prompts
pub mod PromptRunner
pub mod RunManifest
pub mod Tests
