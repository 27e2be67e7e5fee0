-- ===== src/Nodes.antt =====
-- The calls that the nodes make, tradegraph/src/graph/nodes.py. What runs a call is an interface:
-- `PromptRunner.run` of tradegraph/src/graph/prompt_runner.py fills it.
use juris_mind_ai.Base.{ℕ, ◌+◌, List, [], ◌∷◌, ◌++◌, map}
use juris_mind_ai.Base.Dict.{Dict}
use juris_mind_ai.Base.Text.{Str, text as lit, join, show_ℕ}
use juris_mind_ai.Schemas.{ExtractedEvidence}

-- The keyword arguments of `runner.run` but the schema.
pub record Call : Type 0 where
  pub node : Str
  pub version : ℕ
  pub model : Str
  pub variables : Dict Str Str
  pub research_id : Str
  pub trace_id : Str

-- What every call of one job has in common.
pub record Job : Type 0 where
  pub model : Str
  pub research_id : Str
  pub trace_id : Str

abbrev pub call : Job → Str → ℕ → Dict Str Str → Call
call job node version variables = record {
  node = node;
  version = version;
  model = job.model;
  variables = variables;
  research_id = job.research_id;
  trace_id = job.trace_id;
}

numbered_from : ℕ → List Str → List Str
unfolding show_ℕ lit
numbered_from i [] = []
numbered_from i (s ∷ rest) = (lit "[" ++ (show_ℕ i ++ (lit "] " ++ s))) ∷ numbered_from (i + 1) rest

-- `[0] …` and so on, a line each
unfoldable pub format_numbered_list : List Str → Str
unfolding numbered_from join lit
format_numbered_list items = join (lit "\n") (numbered_from 0 items)

unfoldable pub describe_evidence : ExtractedEvidence → Str
unfolding lit
describe_evidence e = e.summary ++ (lit " — \"" ++ (e.supporting_text ++ lit "\""))

module _ (job : Job) where
  unfoldable pub planner_call : Str → Call
  planner_call query = call job (lit "planner") 1 ((lit "query", query) ∷ [])

  unfoldable pub query_decomposer_call : Str → Str → Call
  query_decomposer_call query research_plan =
      call job (lit "query_rewriter") 1
        ((lit "query", query) ∷ (lit "research_plan", research_plan) ∷ [])

  unfoldable pub evidence_extractor_call : Str → List Str → Call
  unfolding format_numbered_list
  evidence_extractor_call sub_question passages = call job (lit "evidence_extractor") 4 (
      (lit "sub_question", sub_question)
      ∷ (lit "numbered_passages", format_numbered_list passages)
      ∷ [])

  unfoldable pub verifier_call : Str → List ExtractedEvidence → Call
  unfolding format_numbered_list describe_evidence
  verifier_call sub_question evidence_items = call job (lit "verifier") 3 (
      (lit "sub_question", sub_question)
      ∷ (lit "numbered_evidence_items", format_numbered_list (map describe_evidence evidence_items))
      ∷ [])

  unfoldable pub contradiction_call : Str → List Str → Call
  unfolding format_numbered_list
  contradiction_call sub_question evidence_descriptions = call job (lit "contradiction") 2 (
      (lit "sub_question", sub_question)
      ∷ (lit "numbered_evidence_items", format_numbered_list evidence_descriptions)
      ∷ [])

  unfoldable pub synthesizer_call : Str → List Str → Str → Str → Str → Call
  unfolding format_numbered_list
  synthesizer_call query evidence_descriptions quantitative_results contradictions gaps =
      call job (lit "synthesizer") 2 (
        (lit "query", query)
        ∷ (lit "numbered_evidence_items", format_numbered_list evidence_descriptions)
        ∷ (lit "quantitative_results", quantitative_results)
        ∷ (lit "contradictions", contradictions)
        ∷ (lit "gaps", gaps)
        ∷ [])

  unfoldable pub critic_call : Str → List Str → Str → Call
  unfolding format_numbered_list
  critic_call draft evidence_descriptions quantitative_results = call job (lit "critic") 3 (
      (lit "draft", draft)
      ∷ (lit "evidence_items", format_numbered_list evidence_descriptions)
      ∷ (lit "quantitative_results", quantitative_results)
      ∷ [])

  unfoldable pub citation_validator_call : Str → Str → Call
  citation_validator_call claim cited_passage =
      call job (lit "citation_validator") 1
        ((lit "claim", claim) ∷ (lit "cited_passage", cited_passage) ∷ [])
