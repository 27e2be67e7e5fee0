-- ===== src/Tests.antt =====
-- Runs of the model, and its theorems at concrete data.
mod Chunks
pub mod Fused
pub mod Research
mod Claims
pub mod Routes
mod Tasks
mod Ranking
mod Answers
mod Retrieval
mod Documents
mod Embeddings
mod Ingest
mod Filings
mod Parsing
mod Prompting
mod Constitution
