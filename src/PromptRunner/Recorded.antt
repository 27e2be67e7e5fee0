-- ===== src/PromptRunner/Recorded.antt =====
-- What a run of a prompt returns and records.
use juris_mind_ai.LlmClient.Attempts.{generate_structured-IsAnswered}
use juris_mind_ai.Prompts.Loader.Loaded.{load_all-get}
use juris_mind_ai.Session.Rules.{Ensures-pure, Ensures-from_result_answer}
use juris_mind_ai.Failure.Ensures.{Ensures-weaken, Ensures-bind, Ensures}
use juris_mind_ai.Prompts.Loader.{load_all, Entry}
use juris_mind_ai.Base.{refl, ◌+◌, some, ◌≡◌, List, Option, Bool}
use juris_mind_ai.PromptRunner.{
  render, get, PromptDefinition, PerCallLlmRecord, Output, Call, run, Schema, Repository, Ollama,
}
use juris_mind_ai.Base.Result.{ok}
use juris_mind_ai.Base.Text.{Str}
use juris_mind_ai.ClaimCheck.Citing.{Anything}
use juris_mind_ai.LlmClient.{ChatAnswer, LlmCallMetrics, present, metrics_of}

module _ (O : Ollama) (repository : Repository O.read_definition) where
  -- The call was made with the prompt of its node and version, rendered with its variables; the
  -- output and the record are those of the answer to this request, after which the world is `w'`.
  pub record IsRecorded (s : Schema) (c : Call) (out : Output s) (r : PerCallLlmRecord O.Num)
      (w' : O.World) : Type 0 where
    pub prompt_def : PromptDefinition O.Num
    pub rendered : Str
    pub is_prompt : get O.read_definition c.node c.version repository ≡ ok prompt_def
    pub is_rendered : render prompt_def c.variables ≡ ok rendered
    pub before : O.World
    pub answer : ChatAnswer
    pub content : Str
    pub metrics : LlmCallMetrics O.Num
    pub is_posted :
        O.post
          (record {
            model = c.model;
            prompt = rendered;
            format = s;
            temperature = prompt_def.model_requirements.temperature;
            num_predict = prompt_def.model_requirements.max_tokens;
          })
          before
        ≡ (ok answer, w')
    pub is_content : answer.message ≡ present (some content)
    pub is_output : O.validate s content ≡ some out
    pub is_measured : metrics_of c.model O.post O.validate O.milliseconds answer ≡ ok metrics
    pub is_version : r.prompt_version ≡ c.version
    pub is_call : (r.research_id ≡ c.research_id) × (r.trace_id ≡ c.trace_id) × (r.node ≡ c.node)
    pub is_model : (r.model ≡ metrics.model) × (r.prompt_name ≡ prompt_def.name)
    pub is_counted :
        (r.input_tokens ≡ metrics.input_tokens)
        × (r.output_tokens ≡ metrics.output_tokens)
        × (r.latency_ms ≡ metrics.latency_ms)
    pub is_cost : r.imputed_cost ≡ O.cost (metrics.input_tokens + metrics.output_tokens)

  -- A run with a repository that was loaded, if it returns, has sent the prompt of the call's node
  -- and version, rendered with the call's variables, with this prompt's settings and the call's
  -- model and schema, and returns what the schema makes of the content of the answer to it, with a
  -- record of the call's ids and node, of this version, and of the answer's tokens, their time and
  -- their cost.
  pub run-IsRecorded :
      (require_all_nodes : Bool) (root : Option (List (Str × List (Entry O.read_definition))))
      (s : Schema) (c : Call) (w : O.World)
      → load_all O.read_definition require_all_nodes root ≡ ok repository
      → Ensures (run O repository s c w) (λ (out, r) w'. IsRecorded s c out r w') Anything
  unfolding run
  run-IsRecorded require_all_nodes root s c w loaded = Ensures-bind _ _ w (
      Ensures-from_result_answer _ w
        (λ prompt_def is_prompt. Ensures-bind _ _ w (
          Ensures-from_result_answer _ w
            (λ rendered is_rendered. Ensures-bind _ _ w (
              Ensures-weaken _
                (λ (out, metrics) w' (before, answer, posted, is). Ensures-pure _ w' (record {
                  prompt_def = prompt_def;
                  rendered = rendered;
                  is_prompt = is_prompt;
                  is_rendered = is_rendered;
                  before = before;
                  answer = answer;
                  content = is.content;
                  metrics = metrics;
                  is_posted = posted;
                  is_content = is.is_content;
                  is_output = is.is_valid;
                  is_measured = is.is_metrics;
                  is_version =
                      (load_all-get O.read_definition require_all_nodes root repository c.node
                        c.version prompt_def loaded is_prompt).0;
                  is_call = (refl, refl, refl);
                  is_model = (refl, refl);
                  is_counted = (refl, refl, refl);
                  is_cost = refl;
                }))
                (λ _ w' _. tt)
                (generate_structured-IsAnswered c.model O.post O.validate O.milliseconds s rendered
                  _ _ w)))
            (λ _. tt)))
        (λ _. tt))
