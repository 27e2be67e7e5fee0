-- ===== src/Tests/Prompting.antt =====
-- A repository of one prompt, a run of it against a model that fails once, and a template.
use Prim.Native.Nat.{zero}
use juris_mind_ai.ClaimCheck.Citing.{Anything}
use juris_mind_ai.LlmClient.{absent, present, status_error, ChatAnswer, CallError}
use juris_mind_ai.PromptRunner.{Ollama}
use juris_mind_ai.Prompts.{PromptDefinition}
use juris_mind_ai.Schemas.{planner_output, Output, Schema, both}
use juris_mind_ai.Nodes.{Call}
use juris_mind_ai.LlmClient.{generate_structured}
use juris_mind_ai.LlmClient.Attempts.{IsOutput, IsCallFailure, generate_structured-IsOutput}
use juris_mind_ai.PromptRunner.{run}
use juris_mind_ai.PromptRunner.Recorded.{IsRecorded, run-IsRecorded}
use juris_mind_ai.Prompts.{is_name, render, all_in}
use juris_mind_ai.Failure.{◌>>=◌, from_result, pure}
use juris_mind_ai.Base.{contains}
use juris_mind_ai.Prompts.Rendering.{IsDeclared, Rendering, render-Rendering}
use juris_mind_ai.StrFormat.Pieces.{Piece, literal, field, print}
use juris_mind_ai.StrFormat.{format, brace_of, format_from, step, before, fill, at_end}
use juris_mind_ai.Base.Dict.{Dict}
use juris_mind_ai.Prompts.Loader.{Repository, Entry, load_all, get}
use juris_mind_ai.RunManifest.{RunManifest, cache_key_component}
use juris_mind_ai.RunManifest.Keys.{IsPlain, cache_key_component-injective}
use juris_mind_ai.Failure.Ensures.{Ensures}
use juris_mind_ai.Base.Result.{Result, ok, raised}
use juris_mind_ai.Base.Text.{Str, text as lit}
use juris_mind_ai.Base.{
  ◌≤◌, All, ◌≡◌, List, [], ◌∷◌, some, none, suc, Option, ℕ, false, refl, list_beq, list_eq, nat_eq,
}

abbrev definition : PromptDefinition ℕ
unfolding lit
definition = record {
  name = lit "research_planner";
  version = 2;
  description = lit "d";
  model_requirements = record { temperature = 0; top_p = none; max_tokens = none };
  variables = lit "query" ∷ [];
  prompt = lit "Plan {query}.";
}

-- The world counts the requests; the first is answered by 503, the others by a critic's `{}`.
abbrev answer : ℕ → Result CallError ChatAnswer
unfolding lit
answer zero = raised (status_error 503 (lit "busy"))
answer (suc n) = ok (record {
  message = present (some (lit "{}"));
  prompt_eval_count = present 5;
  eval_count = absent;
  total_duration = absent;
})

-- Only a planner's output is read.
abbrev read_output : (s : Schema) → Str → Option (Output s)
read_output planner_output content = some (record {
  entities = content ∷ [];
  evidence_needed = both;
  is_compound = false;
  plan_notes = [];
})
read_output _ content = none

abbrev ollama : Ollama
ollama = record {
  World = ℕ;
  Num = ℕ;
  Content = PromptDefinition ℕ;
  post = λ r w. (answer w, suc w);
  validate = read_output;
  milliseconds = λ n. n;
  cost = λ n. n;
  read_definition = λ d. some d;
}

abbrev repository : Repository ollama.read_definition
unfolding lit
repository = (lit "planner", (2, definition) ∷ []) ∷ []

abbrev root : Option (List (Str × List (Entry ollama.read_definition)))
unfolding lit
root = some (
    (lit "planner", record { name = lit "v2.yaml"; content = some definition } ∷ [])
    ∷ (lit "__pycache__", [])
    ∷ [])

loads : load_all ollama.read_definition false root ≡ ok repository
unfolding lit definition repository root load_all list_beq
loads = refl

abbrev call : Call
unfolding lit
call = record {
  node = lit "planner";
  version = 2;
  model = lit "m";
  variables = (lit "query", lit "a") ∷ [];
  research_id = lit "r";
  trace_id = lit "t";
}

-- The first request fails and the second is answered.
runs : (run ollama repository planner_output call 0).1 ≡ 2
unfolding lit run repository definition call answer list_beq generate_structured ◌>>=◌ from_result
    get render all_in format format_from step brace_of before fill at_end pure
runs = refl

run-IsRecorded_example :
    Ensures
      (run ollama repository planner_output call 0)
      (λ (out, r) w'. IsRecorded ollama repository planner_output call out r w')
      Anything
run-IsRecorded_example = run-IsRecorded ollama repository false root planner_output call 0 loads

generate_structured-IsOutput_example :
    Ensures
      (generate_structured
        (lit "m")
        ollama.post
        read_output
        ollama.milliseconds
        planner_output
        (lit "p")
        0
        none
        4)
      (λ a w'.
        IsOutput (lit "m") ollama.post read_output ollama.milliseconds planner_output a
        × ((5 ≤ w') × (w' ≤ 7)))
      (λ e w'. IsCallFailure e × ((5 ≤ w') × (w' ≤ 7)))
generate_structured-IsOutput_example =
    generate_structured-IsOutput (lit "m") ollama.post read_output ollama.milliseconds (λ w. w)
      planner_output (lit "p") 0 none 4 (λ r v. refl)

-- `{{a{n}`, where `n` is `{a}`
abbrev pieces : List Piece
pieces = literal b'{' ∷ literal b'a' ∷ field (b'n' ∷ []) ∷ []

abbrev template : PromptDefinition ℕ
template = record definition {
  variables = (b'n' ∷ []) ∷ [];
  prompt = b'{' ∷ b'{' ∷ b'a' ∷ b'{' ∷ b'n' ∷ b'}' ∷ [];
}

abbrev given : Dict Str Str
given = (b'n' ∷ [], b'{' ∷ b'a' ∷ b'}' ∷ []) ∷ []

printed : template.prompt ≡ print pieces
unfolding print brace_of
printed = refl

declared : All (IsDeclared template.variables) pieces
unfolding is_name contains list_beq
declared = (tt, (tt, ((refl, refl), tt)))

render-Rendering_example : Rendering template.variables given pieces (render template given)
render-Rendering_example = render-Rendering template given pieces printed declared

renders : render template given ≡ ok (b'{' ∷ b'a' ∷ b'{' ∷ b'a' ∷ b'}' ∷ [])
unfolding lit render all_in format format_from step brace_of before fill at_end list_beq contains
    juris_mind_ai.Base.Dict.lookup
renders = refl

abbrev manifest : RunManifest
manifest = record {
  research_id = [];
  trace_id = [];
  prompt_name = 112 ∷ [];
  prompt_version = 12;
  llm_model = 113 ∷ 58 ∷ [];
  embedding_model = 101 ∷ [];
  reranker_model = 114 ∷ [];
  retrieval_config_version = 118 ∷ [];
  chunking_config_version = 99 ∷ [];
  benchmark_version = none;
  created_at = 0;
  git_commit_sha = none;
}

manifest-IsPlain : IsPlain manifest
unfolding contains
manifest-IsPlain = record {
  prompt_name = refl;
  prompt_name_part = refl;
  llm_model = refl;
  embedding_model = refl;
  reranker_model = refl;
  retrieval_config_version = refl;
}

later-IsPlain : IsPlain (record manifest { created_at = 9 })
unfolding contains
later-IsPlain = record {
  prompt_name = refl;
  prompt_name_part = refl;
  llm_model = refl;
  embedding_model = refl;
  reranker_model = refl;
  retrieval_config_version = refl;
}

same_key : cache_key_component manifest ≡ cache_key_component (record manifest { created_at = 9 })
unfolding cache_key_component
same_key = refl

cache_key_component-injective_example :
    (manifest.prompt_name ≡ manifest.prompt_name)
    × (manifest.prompt_version ≡ manifest.prompt_version)
    × (manifest.llm_model ≡ manifest.llm_model)
    × (manifest.embedding_model ≡ manifest.embedding_model)
    × (manifest.reranker_model ≡ manifest.reranker_model)
    × (manifest.retrieval_config_version ≡ manifest.retrieval_config_version)
    × (manifest.chunking_config_version ≡ manifest.chunking_config_version)
cache_key_component-injective_example =
    cache_key_component-injective manifest (record manifest { created_at = 9 }) manifest-IsPlain
      later-IsPlain same_key
