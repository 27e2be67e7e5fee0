-- ===== src/RunManifest.antt =====
-- The configuration of a run, tradegraph/src/models/run_manifest.py, and its part of a cache key.
pub mod Keys
use juris_mind_ai.Base.{ℕ, Option, List, [], ◌∷◌, ◌++◌}
use juris_mind_ai.Base.Text.{Str, text as lit, join, show_ℕ}

-- Times are ticks.
pub record RunManifest : Type 0 where
  pub research_id : Str
  pub trace_id : Str
  pub prompt_name : Str
  pub prompt_version : ℕ
  pub llm_model : Str
  pub embedding_model : Str
  pub reranker_model : Str
  pub retrieval_config_version : Str
  pub chunking_config_version : Str
  pub benchmark_version : Option Str
  pub created_at : ℕ
  pub git_commit_sha : Option Str

unfoldable pub cache_key_component : RunManifest → Str
unfolding lit join show_ℕ
cache_key_component m = join (lit "|") (
    (lit "prompt=" ++ (m.prompt_name ++ (lit ":" ++ show_ℕ m.prompt_version)))
    ∷ (lit "llm=" ++ m.llm_model)
    ∷ (lit "embedding=" ++ m.embedding_model)
    ∷ (lit "reranker=" ++ m.reranker_model)
    ∷ (lit "retrieval=" ++ m.retrieval_config_version)
    ∷ (lit "chunking=" ++ m.chunking_config_version)
    ∷ [])
