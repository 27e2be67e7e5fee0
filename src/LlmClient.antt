-- ===== src/LlmClient.antt =====
-- The chat client, tradegraph/src/graph/llm_client.py: attempts, the checks of an answer, and the
-- errors that get out. A POST, its decoded answer and pydantic's validation are parameters; waits and
-- metrics are left out, and the messages of errors are shortened.
pub mod Attempts
use juris_mind_ai.Base.{
  ℕ, zero, suc, ◌+◌, Bool, true, false, Option, none, some, List, [], ◌∷◌, leb, if◌then◌else◌,
}
use juris_mind_ai.Base.Result.{Result, ok, raised}
use juris_mind_ai.Base.Text.{Str, text as lit, truthy, strip}
use juris_mind_ai.Failure.{Failure, llm_call_error, value_error, other_error}
use juris_mind_ai.Schemas.{Schema, Output}

-- What a call may raise: `httpx.TransportError`, `httpx.HTTPStatusError` with its code, the
-- `ValueError` of an answer that is not JSON, the `AttributeError` or `TypeError` of one that has a
-- null where an object or a number is read, and the client's own `LLMCallError`.
pub data CallError : Type 0 where
  transport_error : Str → CallError
  status_error : ℕ → Str → CallError
  not_json : Str → CallError
  malformed : Str → CallError
  call_error : Str → CallError

unfoldable pub is_transient_ollama_error : CallError → Bool
is_transient_ollama_error (transport_error m) = true
is_transient_ollama_error (status_error code m) = leb 500 code
is_transient_ollama_error (not_json m) = false
is_transient_ollama_error (malformed m) = false
is_transient_ollama_error (call_error m) = false

-- `except httpx.HTTPError` of `generate_structured`
unfoldable pub normalise : CallError → Failure
normalise (transport_error m) = llm_call_error m
normalise (status_error code m) = llm_call_error m
normalise (not_json m) = value_error m
normalise (malformed m) = other_error m
normalise (call_error m) = llm_call_error m

module _ (Num : Type 0) where
  pub record LlmCallMetrics : Type 0 where
    pub model : Str
    pub input_tokens : ℕ
    pub output_tokens : ℕ
    pub latency_ms : Num

  -- The JSON of a request that varies; `num_predict` is there if it is given.
  pub record ChatRequest : Type 0 where
    pub model : Str
    pub prompt : Str
    pub format : Schema
    pub temperature : Num
    pub num_predict : Option ℕ

-- The value of a key of the decoded answer.
pub data Field (A : Type 0) : Type 0 where
  absent null : Field A
  present : A → Field A

-- The decoded answer: of `message` the `content`, where one that is no string is `none`; the other
-- values are numbers, if they are there and not null.
pub record ChatAnswer : Type 0 where
  pub message : Field (Option Str)
  pub prompt_eval_count : Field ℕ
  pub eval_count : Field ℕ
  pub total_duration : Field ℕ

-- `payload.get("message", {}).get("content")`
pub content_of : Field (Option Str) → Result CallError (Option Str)
unfolding lit
content_of absent = ok none
content_of null = raised (malformed (lit "'NoneType' object has no attribute 'get'"))
content_of (present content) = ok content

-- `int(payload.get(key, 0))`
pub number_in : Field ℕ → Result CallError ℕ
unfolding lit
number_in absent = ok 0
number_in null = raised (malformed (lit "a number, not 'NoneType'"))
number_in (present n) = ok n

-- `retry` of up to `left` more calls after the outcome of one.
module _ {W A : Type 0} (call_once : W → Result CallError A × W) where
  pub retry : ℕ → Result CallError A × W → Result CallError A × W
  unfolding is_transient_ollama_error
  retry zero (r, w) = (r, w)
  retry (suc left) (ok a, w) = (ok a, w)
  retry (suc left) (raised e, w) =
      let again = retry left (call_once w) in
      if is_transient_ollama_error e then again else (raised e, w)

module _ {W Num : Type 0} (model : Str)
    (post : ChatRequest Num → W → Result CallError ChatAnswer × W)
    (validate : (s : Schema) → Str → Option (Output s)) (milliseconds : ℕ → Num) where
  metrics_from :
      Result CallError ℕ
      → Result CallError ℕ
      → Result CallError ℕ
      → Result CallError (LlmCallMetrics Num)
  metrics_from (ok input) (ok output) (ok duration) = ok (record {
    model = model;
    input_tokens = input;
    output_tokens = output;
    latency_ms = milliseconds duration;
  })
  metrics_from (raised e) _ _ = raised e
  metrics_from (ok input) (raised e) _ = raised e
  metrics_from (ok input) (ok output) (raised e) = raised e

  -- `LLMCallMetrics(…)`
  unfoldable pub metrics_of : ChatAnswer → Result CallError (LlmCallMetrics Num)
  unfolding metrics_from number_in
  metrics_of answer =
      metrics_from (number_in answer.prompt_eval_count) (number_in answer.eval_count)
        (number_in answer.total_duration)

  with_metrics :
      {A : Type 0}
      → A
      → Result CallError (LlmCallMetrics Num)
      → Result CallError (A × LlmCallMetrics Num)
  with_metrics a (ok metrics) = ok (a, metrics)
  with_metrics a (raised e) = raised e

  pub parsed :
      (s : Schema)
      → ChatAnswer
      → Option (Output s)
      → Result CallError (Output s × LlmCallMetrics Num)
  unfolding lit with_metrics metrics_of
  parsed s answer none = raised (call_error (lit "output does not match the schema"))
  parsed s answer (some out) = with_metrics out (metrics_of answer)

  -- The checks of an answer, from `content` on.
  pub check_content :
      (s : Schema)
      → ChatAnswer
      → Result CallError (Option Str)
      → Result CallError (Output s × LlmCallMetrics Num)
  unfolding lit truthy strip parsed
  check_content s answer (raised e) = raised e
  check_content s answer (ok none) = raised (call_error (lit "Ollama returned no content"))
  check_content s answer (ok (some content)) =
      let checked = parsed s answer (validate s content) in
      if truthy (strip content)
      then checked
      else raised (call_error (lit "Ollama returned no content"))

  pub check_answer :
      (s : Schema)
      → Result CallError ChatAnswer × W
      → Result CallError (Output s × LlmCallMetrics Num) × W
  unfolding check_content content_of
  check_answer s (raised e, w) = (raised e, w)
  check_answer s (ok answer, w) = (check_content s answer (content_of answer.message), w)

  abbrev pub request_of : Schema → Str → Num → Option ℕ → ChatRequest Num
  request_of s prompt temperature max_tokens = record {
    model = model;
    prompt = prompt;
    format = s;
    temperature = temperature;
    num_predict = max_tokens;
  }

  -- `_generate_structured`, one attempt
  pub generate_once :
      (s : Schema) → Str → Num → Option ℕ → W → Result CallError (Output s × LlmCallMetrics Num) × W
  unfolding check_answer
  generate_once s prompt temperature max_tokens w =
      check_answer s (post (request_of s prompt temperature max_tokens) w)

  pub normalised : {A : Type 0} → Result CallError A × W → Result Failure A × W
  unfolding normalise
  normalised (ok a, w) = (ok a, w)
  normalised (raised e, w) = (raised (normalise e), w)

  -- Three attempts in all.
  unfoldable pub generate_structured :
      (s : Schema) → Str → Num → Option ℕ → W → Result Failure (Output s × LlmCallMetrics Num) × W
  unfolding normalised retry generate_once
  generate_structured s prompt temperature max_tokens w =
      let once = generate_once s prompt temperature max_tokens in normalised (retry once 2 (once w))
