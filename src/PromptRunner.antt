-- ===== src/PromptRunner.antt =====
-- The prompt runner, tradegraph/src/graph/prompt_runner.py, and the record of a call of
-- tradegraph/src/models/run_manifest.py: the prompts and the chat client put together, as the service
-- that the research pipeline takes. The clients, one for each model, differ in the model alone.
pub mod Recorded
use juris_mind_ai.Base.{ℕ, ◌+◌, Option, List}
use juris_mind_ai.Base.Result.{Result, ok, raised}
use juris_mind_ai.Base.Text.{Str}
use juris_mind_ai.Failure.{Failure, Exec, ◌>>=◌, pure, from_result}
use juris_mind_ai.Filters.{Filter}
use juris_mind_ai.LlmClient.{
  CallError, ChatAnswer, ChatRequest, LlmCallMetrics, generate_structured,
}
use juris_mind_ai.Nodes.{Call}
use juris_mind_ai.Payload.{Payload}
use juris_mind_ai.Prompts.Loader.{Repository, get}
use juris_mind_ai.Prompts.{PromptDefinition, render}
use juris_mind_ai.Schemas.{Schema, Output}
use juris_mind_ai.Session.{Services}

-- Its timestamp is left out.
pub record PerCallLlmRecord (Num : Type 0) : Type 0 where
  pub research_id : Str
  pub trace_id : Str
  pub node : Str
  pub model : Str
  pub prompt_name : Str
  pub prompt_version : ℕ
  pub temperature : Num
  pub input_tokens : ℕ
  pub output_tokens : ℕ
  pub latency_ms : Num
  pub imputed_cost : Num

-- What the runner is built from: the client's POST, the validation of JSON, the floats of the
-- latency and of the imputed cost, and the reading of prompt files.
pub record Ollama : Type 1 where
  pub World : Type 0
  pub Num : Type 0
  pub Content : Type 0
  pub post : ChatRequest Num → World → Result CallError ChatAnswer × World
  pub validate : (s : Schema) → Str → Option (Output s)
  pub milliseconds : ℕ → Num
  -- `(total_tokens / 1000) * imputed_cost_rate`
  pub cost : ℕ → Num
  pub read_definition : Content → Option (PromptDefinition Num)

module _ (O : Ollama) (repository : Repository O.read_definition) where
  open O use {World, Num}

  abbrev pub record_of : Call → PromptDefinition Num → LlmCallMetrics Num → PerCallLlmRecord Num
  record_of c prompt_def metrics = record {
    research_id = c.research_id;
    trace_id = c.trace_id;
    node = c.node;
    model = metrics.model;
    prompt_name = prompt_def.name;
    prompt_version = prompt_def.version;
    temperature = prompt_def.model_requirements.temperature;
    input_tokens = metrics.input_tokens;
    output_tokens = metrics.output_tokens;
    latency_ms = metrics.latency_ms;
    imputed_cost = O.cost (metrics.input_tokens + metrics.output_tokens);
  }

  -- `PromptRunner.run`
  unfoldable pub run : (s : Schema) → Call → Exec World (Output s × PerCallLlmRecord Num)
  run s c = do
    prompt_def ← from_result (get O.read_definition c.node c.version repository)
    rendered ← from_result (render prompt_def c.variables)
    (result, metrics) ←
        generate_structured c.model O.post O.validate O.milliseconds s rendered
          prompt_def.model_requirements.temperature prompt_def.model_requirements.max_tokens
    pure (result, record_of c prompt_def metrics)

  -- The runner as the service of the research pipeline, beside a search and a progress callback.
  unfoldable pub services_with :
      {Hit : Type 0}
      → (Hit → Payload)
      → (Str → Option Filter → ℕ → World → Result Failure (List Hit) × World)
      → Option (Str → World → Result Failure (Unit {0}) × World)
      → Services
  services_with {Hit} payload search on_progress = record {
    World = World;
    Hit = Hit;
    CallRecord = PerCallLlmRecord Num;
    payload = payload;
    search = search;
    run = run;
    on_progress = on_progress;
  }
